-- ===== src/Net/Poller/Active.antt =====
-- `poll` and `fillActiveList`: the events that epoll reports reach the channels.
use native.Mathlib.Decide.{ℕ_discrete}
use czy_net_frame.Common.{
  ℕ, ◌*◌, ◌≤◌, ◌<◌, ◌≡◌, refl, ap, ◌∙◌, true, List, [], ◌∷◌, arith, ◌==◌, if◌then◌else◌, le→leb,
  length, All, done, update, ==_refl, ne→==,
}
use czy_net_frame.Net.Channel.{Channel}
use czy_net_frame.Net.Poller.{Poller, is_entry, has_channel, fill_active_list, ready, poll}

-- The channels of the events, in order.
abbrev pub active : List (ℕ × ℕ) → List ℕ
active [] = []
active ((c, events) ∷ rest) = c ∷ active rest

-- The last events reported for a channel, or what it had.
abbrev pub reported : List (ℕ × ℕ) → ℕ → ℕ → ℕ
reported [] d before = before
reported ((c, events) ∷ rest) d before = reported rest d (if d == c then events else before)

abbrev pub IsKnown : Poller → List (ℕ × ℕ) → Type 0
IsKnown p events = All (λ (e : ℕ × ℕ). has_channel p e.0 ≡ true) events

-- What `fill_active_list` changes: the reported events only.
pub record Filled (p q : Poller) (events : List (ℕ × ℕ)) : Type 0 where
  pub same_table : (fd : ℕ) → q.by_fd fd ≡ p.by_fd fd
  pub same_calls : q.calls ≡ p.calls
  pub channel :
      (d : ℕ)
      → q.channels d ≡ record (p.channels d) { revents = reported events d (p.channels d).revents }

module _ (p : Poller) (c events : ℕ) where
  abbrev marked : Poller
  marked = record p { channels = update p.channels c (record (p.channels c) { revents = events }) }

  marked-channel :
      (d : ℕ)
      → marked.channels d
        ≡ record (p.channels d) { revents = if d == c then events else (p.channels d).revents }
  marked-channel d = elim (ℕ_discrete d c) [
    | yes same ↦ rw same (rw (==_refl c))
    | no other ↦ rw (ne→== d c other)
  ]

  has_channel-marked : (d : ℕ) → has_channel marked d ≡ has_channel p d
  unfolding has_channel
  has_channel-marked d = ap (λ t. is_entry (p.by_fd t.fd) d) (marked-channel d)

  IsKnown-marked : (rest : List (ℕ × ℕ)) → IsKnown p rest → IsKnown marked rest
  IsKnown-marked [] h = h
  IsKnown-marked ((d, e) ∷ rest) h = (has_channel-marked d ∙ h.0, IsKnown-marked rest h.1)

fill_active_list-Filled :
    (p : Poller) (events : List (ℕ × ℕ))
    → IsKnown p events
    → (q : Poller) × (fill_active_list p events ≡ done (active events, q)) × Filled p q events
unfolding fill_active_list
fill_active_list-Filled p [] h =
    (p, refl, record { same_table = λ fd. refl; same_calls = refl; channel = λ d. refl })
fill_active_list-Filled p ((c, e) ∷ rest) h =
    let (q, run, f) = fill_active_list-Filled (marked p c e) rest (IsKnown-marked p c e rest h.1) in
    (
      q,
      rw (h.0, run),
      record {
        same_table = f.same_table;
        same_calls = f.same_calls;
        channel = λ d.
            f.channel d
            ∙ ap (λ (t : Channel). record t { revents = reported rest d t.revents })
                (marked-channel p c e d);
      },
    )

-- When epoll reports at most as many events as it was given room for, all of them for channels in
-- the table, `poll` hands out just these channels in that order with the reported events, changes
-- nothing else, and doubles the room for the next call exactly when it was all used.
pub poll_lem :
    (p : Poller) (size : ℕ) (events : List (ℕ × ℕ))
    → 0 < size
    → length events ≤ size
    → IsKnown p events
    → (q : Poller) × (poll p size (ready events)
        ≡ done (active events, q, if length events == size then 2 * size else size))
      × Filled p q events
unfolding poll
poll_lem p size [] pos le h = (
  p,
  rw (ne→== 0 size (omega arith)),
  record { same_table = λ fd. refl; same_calls = refl; channel = λ d. refl },
)
poll_lem p size (e ∷ es) pos le h =
    let (q, run, f) = fill_active_list-Filled p (e ∷ es) h in
    (q, rw (le→leb (length (e ∷ es)) size le, run), f)
