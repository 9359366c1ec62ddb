-- ===== src/Net/Poller/Changes.antt =====
-- Changes of a channel's events, the poller's table and epoll's interest list.
use czy_net_frame.Common.{
  ℕ, ◌≡◌, refl, sym, ap, ◌∙◌, ◌≢◌, inl, inr, true, false, Option, none, some, ◌∷◌, arith, ◌==◌,
  if◌then◌else◌, Bool-cases, done, update, ==_refl, ne→==,
}
use czy_net_frame.Net.Channel.{Channel, Index, new, deleted, added}
use czy_net_frame.Net.Poller.{
  CtlOp, ctl_add, ctl_mod, ctl_del, Ctl, Poller, has_channel, register, register_again, adjust,
  update_by, update_channel, set_index, ctl, set_events, change_events,
}
use czy_net_frame.Net.Poller.Kernel.{
  apply, expected, expected_by, watch, InSync, OneCall, OneCall-InSync,
}

-- A channel that was never registered finds its descriptor free, any other finds itself there.
abbrev pub entry_of : Index → ℕ → Option ℕ
entry_of new c = none
entry_of deleted c = some c
entry_of added c = some c

abbrev pub IsReady : Poller → ℕ → Type 0
IsReady p c = p.by_fd (p.channels c).fd ≡ entry_of (p.channels c).index c

-- What `updateChannel` does with the index.
abbrev pub next_index : Index → ℕ → Index
next_index new events = added
next_index deleted events = added
next_index added events = if events == 0 then deleted else added

pub entry_of-old : (i : Index) (c : ℕ) → i ≢ new → entry_of i c ≡ some c
entry_of-old new c h = absurd (h refl)
entry_of-old deleted c h = refl
entry_of-old added c h = refl

abbrev op_for : Index → ℕ → CtlOp
op_for new events = ctl_add
op_for deleted events = ctl_add
op_for added events = if events == 0 then ctl_del else ctl_mod

module _ (p : Poller) (c events : ℕ) where
  abbrev changed : Index → Channel
  changed i = record (p.channels c) { events = events; index = next_index i events }

  abbrev call_for : Index → Ctl
  call_for i = record { op = op_for i events; fd = (p.channels c).fd; events = events }

  -- What the poller is after the change, but for how its table was written.
  record Changed (i : Index) (q : Poller) : Type 0 where
    others : (d : ℕ) → d ≢ c → q.channels d ≡ p.channels d
    self : q.channels c ≡ changed i
    tables : (fd : ℕ) → fd ≢ (p.channels c).fd → q.by_fd fd ≡ p.by_fd fd
    at_own : q.by_fd (p.channels c).fd ≡ some c
    one_more : q.calls ≡ call_for i ∷ p.calls

  abbrev before : Poller
  before = set_events p c events

  fd-before : (before.channels c).fd ≡ (p.channels c).fd
  unfolding set_events
  fd-before = rw (==_refl c)

  entry-before : before.by_fd (before.channels c).fd ≡ p.by_fd (p.channels c).fd
  unfolding set_events
  entry-before = rw (==_refl c)

  has_channel-before : p.by_fd (p.channels c).fd ≡ some c → has_channel before c ≡ true
  unfolding has_channel
  has_channel-before own = rw (entry-before, own) (==_refl c)

  abbrev registered : Poller
  registered =
      ctl ctl_add
        (set_index (record before { by_fd = update p.by_fd (before.channels c).fd (some c) }) c
          added)
        c

  register-Changed :
      p.by_fd (p.channels c).fd ≡ none
      → (register before c ≡ done registered) × Changed new registered
  unfolding register set_events
  register-Changed free = (
    rw (==_refl c, free),
    record {
      others = λ d ne. rw (ne→== d c ne);
      self = rw (==_refl c);
      tables = λ fd ne. rw (==_refl c) (rw (ne→== fd (p.channels c).fd ne));
      at_own = rw (==_refl c) (rw (==_refl (p.channels c).fd));
      one_more = rw (==_refl c);
    },
  )

  abbrev registered_again : Poller
  registered_again = ctl ctl_add (set_index before c added) c

  register_again-Changed :
      p.by_fd (p.channels c).fd ≡ some c
      → (register_again before c ≡ done registered_again) × Changed deleted registered_again
  unfolding register_again set_events
  register_again-Changed own = (
    rw (has_channel-before own),
    record {
      others = λ d ne. rw (ne→== d c ne);
      self = rw (==_refl c);
      tables = λ fd ne. refl;
      at_own = own;
      one_more = rw (==_refl c);
    },
  )

  abbrev unwatched : Poller
  unwatched = set_index (ctl ctl_del before c) c deleted

  abbrev modified : Poller
  modified = ctl ctl_mod before c

  module _ (own : p.by_fd (p.channels c).fd ≡ some c)
      (is_added : (p.channels c).index ≡ added) where
    none_after : (events == 0) ≡ true → (adjust before c ≡ done unwatched) × Changed added unwatched
    unfolding adjust set_events
    none_after z = (
      rw (has_channel-before own) (rw (==_refl c) (rw z)),
      record {
        others = λ d ne. rw (ne→== d c ne);
        self = rw (==_refl c, z);
        tables = λ fd ne. refl;
        at_own = own;
        one_more = rw (==_refl c, z);
      },
    )

    some_after : (events == 0) ≡ false → (adjust before c ≡ done modified) × Changed added modified
    unfolding adjust set_events
    some_after z = (
      rw (has_channel-before own) (rw (==_refl c) (rw z)),
      record {
        others = λ d ne. rw (ne→== d c ne);
        self =
            rw (==_refl c, z) (λ i. record (p.channels c) { events = events; index = is_added i });
        tables = λ fd ne. refl;
        at_own = own;
        one_more = rw (==_refl c, z);
      },
    )

  update_by-Changed :
      (i : Index)
      → (p.channels c).index ≡ i
      → p.by_fd (p.channels c).fd ≡ entry_of i c
      → (q : Poller) × (update_by i before c ≡ done q) × Changed i q
  unfolding update_by
  update_by-Changed new e r = let (done_so, ch) = register-Changed r in (registered, done_so, ch)
  update_by-Changed deleted e r =
      let (done_so, ch) = register_again-Changed r in (registered_again, done_so, ch)
  update_by-Changed added e r = elim (Bool-cases (events == 0)) [
    | inl z ↦ let (done_so, ch) = none_after r e z in (unwatched, done_so, ch)
    | inr z ↦ let (done_so, ch) = some_after r e z in (modified, done_so, ch)
  ]

  index-before : (before.channels c).index ≡ (p.channels c).index
  unfolding set_events
  index-before = rw (==_refl c)

  changes :
      IsReady p c
      → (q : Poller) × (change_events p c events ≡ done q) × Changed (p.channels c).index q
  unfolding change_events
  changes r =
      let (q, e, ch) = update_by-Changed (p.channels c).index refl r in
      (q, unfold update_channel in ap (λ i. update_by i before c) index-before ∙ e, ch)

  legal_for :
      (i : Index) (q : Poller) (w : ℕ → Option ℕ)
      → (p.channels c).index ≡ i
      → p.by_fd (p.channels c).fd ≡ entry_of i c
      → q.channels c ≡ changed i
      → w (p.channels c).fd ≡ expected p (p.channels c).fd
      → apply (call_for i) w ≡ some (update w (p.channels c).fd (expected_by q.channels (some c)))
  legal_for new q w e r self agree =
      let absent : w (p.channels c).fd ≡ none = agree ∙ ap (expected_by p.channels) r in
      rw (absent, self)
  legal_for deleted q w e r self agree =
      let absent : w (p.channels c).fd ≡ none =
        agree ∙ ap (expected_by p.channels) r ∙ ap (watch (p.channels c)) e in
      rw (absent, self)
  legal_for added q w e r self agree =
      let present : w (p.channels c).fd ≡ some (p.channels c).events =
        agree ∙ ap (expected_by p.channels) r ∙ ap (watch (p.channels c)) e in
      elim (Bool-cases (events == 0)) [
        | inl z ↦ rw (self, z) (rw present)
        | inr z ↦ rw (self, z) (rw present)
      ]

  next_index-ne-new : (i : Index) → next_index i events ≢ new
  next_index-ne-new new e = cc e
  next_index-ne-new deleted e = cc e
  next_index-ne-new added e = ground (arith, e)

  changed-OneCall :
      (i : Index) (q : Poller)
      → (p.channels c).index ≡ i
      → p.by_fd (p.channels c).fd ≡ entry_of i c
      → Changed i q
      → OneCall p q c (changed i) (call_for i) (some c)
  changed-OneCall i q e r ch = record {
    others = ch.others;
    self = ch.self;
    same_fd = refl;
    old = next_index-ne-new i;
    tables = ch.tables;
    at_own = ch.at_own;
    owner = λ d h. cc h;
    one_more = ch.one_more;
    legal = λ w agree. legal_for i q w e r ch.self agree;
  }

  -- Setting a channel's events, for a channel that is new on a free descriptor or stands in the
  -- table: no assertion fails, the one call of `epoll_ctl` that is made succeeds, and afterwards
  -- epoll watches exactly the registered channels whose index is `KADDED`, each for its current
  -- events. Events 0 take the channel off, unless it was off: then they register it again.
  pub change_events-InSync :
      InSync p
      → IsReady p c
      → (q : Poller) × (change_events p c events ≡ done q)
        × InSync q
        × IsReady q c
        × ((q.channels c).events ≡ events)
        × ((q.channels c).index ≡ next_index (p.channels c).index events)
        × ((d : ℕ) → d ≢ c → q.channels d ≡ p.channels d)
        × (q.calls ≡ call_for (p.channels c).index ∷ p.calls)
  change_events-InSync s r =
      let (q, e, ch) = changes r in
      (
        q,
        e,
        OneCall-InSync p q c _ _ (some c) s (changed-OneCall (p.channels c).index q refl r ch),
        ap (λ t. q.by_fd t.fd) ch.self
            ∙ ch.at_own
            ∙ sym (
                ap (λ t. entry_of t.index c) ch.self
                ∙ entry_of-old (next_index (p.channels c).index events) c
                    (next_index-ne-new (p.channels c).index)),
        ap (λ t. t.events) ch.self,
        ap (λ t. t.index) ch.self,
        ch.others,
        ch.one_more,
      )
