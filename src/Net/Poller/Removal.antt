-- ===== src/Net/Poller/Removal.antt =====
-- `Channel::remove`, `EventLoop::removeChannel` and `EpollPoller::removeChannel`.
use czy_net_frame.Common.{
  ℕ, ◌≡◌, refl, ap, ◌∙◌, ◌≢◌, ◌⊎◌, inl, inr, true, false, Option, none, some, arith, Bool-cases,
  set, done, assert_failed, update, ==_refl, ne→==,
}
use czy_net_frame.Net.Channel.{Channel, Index, new, deleted, added, is_none_event, none_event}
use czy_net_frame.Net.Poller.{
  ctl_del, Poller, is_entry, has_channel, register_again, update_channel, set_index, ctl,
  set_events, change_events, disable_all, remove_channel, remove,
}
use czy_net_frame.Net.Poller.Kernel.{expected, expected_by, watch, InSync, OneCall, OneCall-InSync}
use czy_net_frame.Net.Poller.Changes.{IsReady, entry_of, next_index, change_events-InSync}

module _ (p : Poller) (c : ℕ) where
  abbrev unlinked : Poller
  unlinked = record p {
    channels = update p.channels c (record (p.channels c) { added_to_loop = false });
  }

  abbrev erased : Poller
  erased = record unlinked { by_fd = update p.by_fd (p.channels c).fd none }

  abbrev removed : Poller
  removed = set_index (ctl ctl_del erased c) c deleted

  abbrev final : Channel
  final = record (p.channels c) { added_to_loop = false; index = deleted }

  has_channel-unlinked : has_channel unlinked c ≡ has_channel p c
  unfolding has_channel
  has_channel-unlinked = rw (==_refl c)

  has_channel-entry :
      (e : Option ℕ) → p.by_fd (p.channels c).fd ≡ e → has_channel p c ≡ is_entry e c
  unfolding has_channel
  has_channel-entry e r = rw r

  module _ (own : p.by_fd (p.channels c).fd ≡ some c)
      (is_added : (p.channels c).index ≡ added) where
    known : has_channel unlinked c ≡ true
    known = has_channel-unlinked ∙ has_channel-entry (some c) own ∙ unfold is_entry in ==_refl c

    removes : is_none_event (p.channels c) ≡ true → remove p c ≡ done removed
    unfolding remove remove_channel
    removes z = rw (z, known) (rw (==_refl c) (rw is_added (rw (==_refl c))))

    watched-before :
        (w : ℕ → Option ℕ)
        → w (p.channels c).fd ≡ expected p (p.channels c).fd
        → w (p.channels c).fd ≡ some (p.channels c).events
    watched-before w agree =
        agree ∙ ap (expected_by p.channels) own ∙ ap (watch (p.channels c)) is_added

    removed-OneCall :
        OneCall p removed c final
          (record { op = ctl_del; fd = (p.channels c).fd; events = (p.channels c).events })
          none
    unfolding set_index ctl
    removed-OneCall = record {
      others = λ d ne. rw (ne→== d c ne);
      self = rw (==_refl c);
      same_fd = refl;
      old = λ e. cc e;
      tables = λ fd ne. rw (ne→== fd (p.channels c).fd ne);
      at_own = rw (==_refl (p.channels c).fd);
      owner = λ d h. cc h;
      one_more = rw (==_refl c);
      legal = λ w agree. rw (watched-before w agree);
    }

    fd-removed : (removed.channels c).fd ≡ (p.channels c).fd
    unfolding set_index ctl
    fd-removed = rw (==_refl c)

    index-removed : (removed.channels c).index ≡ deleted
    unfolding set_index ctl
    index-removed = rw (==_refl c)

  not_known :
      (e : Option ℕ)
      → is_entry e c ≡ false
      → p.by_fd (p.channels c).fd ≡ e
      → remove p c ≡ assert_failed
  unfolding remove remove_channel
  not_known e no_entry r = elim (Bool-cases (is_none_event (p.channels c))) [
    | inl z ↦ rw (z, has_channel-unlinked, has_channel-entry e r, no_entry)
    | inr z ↦ rw z
  ]

  already_deleted : (p.channels c).index ≡ deleted → remove p c ≡ assert_failed
  unfolding remove remove_channel
  already_deleted e = elim (Bool-cases (is_none_event (p.channels c))) [
    | inl z ↦ elim (Bool-cases (has_channel p c)) [
      | inl k ↦ rw (z, has_channel-unlinked, k) (rw (==_refl c) (rw e))
      | inr k ↦ rw (z, has_channel-unlinked, k)
    ]
    | inr z ↦ rw z
  ]

  busy : (p.channels c).events ≢ 0 → remove p c ≡ assert_failed
  unfolding remove
  busy ne = rw (ne→== (p.channels c).events 0 ne)

  unwatched :
      (i : Index)
      → i ≢ added
      → (p.channels c).index ≡ i
      → p.by_fd (p.channels c).fd ≡ entry_of i c
      → remove p c ≡ assert_failed
  unwatched new ne e r = not_known none (unfold is_entry in refl) r
  unwatched deleted ne e r = already_deleted e
  unwatched added ne e r = absurd (ne refl)

-- Events that are set on a channel whose index is `KDEL` but which is not in the table: the second
-- branch of `updateChannel` stops at its assertion.
lost :
    (p : Poller) (c events : ℕ)
    → (p.channels c).index ≡ deleted
    → p.by_fd (p.channels c).fd ≡ none
    → change_events p c events ≡ assert_failed
unfolding change_events update_channel set_events register_again has_channel
lost p c events e r = rw (==_refl c) (rw e (rw (==_refl c) (rw r)))

-- `remove` succeeds on a channel that asks for no events while epoll still watches it, takes it out
-- of the table and off epoll's list, and from then on no event can be enabled for it; on any other
-- channel an assertion fails.
pub remove_cases :
    (p : Poller) (c : ℕ)
    → InSync p
    → IsReady p c
    → ((p.channels c).events ≡ 0
        → (p.channels c).index ≡ added
        → (q : Poller) × (remove p c ≡ done q)
          × InSync q
          × (q.by_fd (p.channels c).fd ≡ none)
          × ((events : ℕ) → change_events q c events ≡ assert_failed))
      × (((p.channels c).events ≢ 0) ⊎ ((p.channels c).index ≢ added) → remove p c ≡ assert_failed)
remove_cases p c s r = (succeeds, fails)
  where
    fails :
        ((p.channels c).events ≢ 0) ⊎ ((p.channels c).index ≢ added) → remove p c ≡ assert_failed
    fails (inl ne) = busy p c ne
    fails (inr ne) = unwatched p c (p.channels c).index ne refl r

    succeeds :
        (p.channels c).events ≡ 0
        → (p.channels c).index ≡ added
        → (q : Poller) × (remove p c ≡ done q)
          × InSync q
          × (q.by_fd (p.channels c).fd ≡ none)
          × ((events : ℕ) → change_events q c events ≡ assert_failed)
    succeeds z e =
        let own : p.by_fd (p.channels c).fd ≡ some c = r ∙ ap (λ i. entry_of i c) e in
        let call = removed-OneCall p c own e in
        (
          removed p c,
          removes p c own e (ground (arith, z)),
          OneCall-InSync p (removed p c) c _ _ none s call,
          call.at_own,
          λ events.
              lost (removed p c) c events (index-removed p c own e)
                (ap (removed p c).by_fd (fd-removed p c own e) ∙ call.at_own),
        )

-- The usual way to give up a channel, `disableAll` and then `remove`, as the destructors of
-- EventLoop, TimerQueue and Acceptor have it: on a channel that epoll watches, `disableAll` marks
-- it `KDEL`, and the assertion of `removeChannel` on that mark fails.
pub remove-disable_all :
    (p : Poller) (c : ℕ)
    → InSync p
    → IsReady p c
    → (p.channels c).index ≡ added
    → (q : Poller) × (disable_all p c ≡ done q) × (remove q c ≡ assert_failed)
unfolding disable_all
remove-disable_all p c s r e =
    let (q, set, _, _, _, index, _, _) = change_events-InSync p c none_event s r in
    (q, set, already_deleted q c (index ∙ ap (λ i. next_index i none_event) e))
