-- ===== src/Net/Poller/Kernel.antt =====
-- What epoll makes of the calls: an independent account of the kernel's interest list, and the
-- invariant that the poller's table agrees with it.
use mathlib.Core.Option
use native.Mathlib.Decide.{ℕ_discrete}
use czy_net_frame.Common.{
  ℕ, ◌≡◌, refl, sym, ap, ◌∙◌, ◌≢◌, Option, none, some, List, [], ◌∷◌, update, ==_refl, ne→==,
}
use czy_net_frame.Net.Channel.{Channel, Index, new, deleted, added}
use czy_net_frame.Net.Poller.{CtlOp, ctl_add, ctl_mod, ctl_del, Ctl, Poller}

-- `epoll_ctl` as documented: ADD fails on a watched descriptor, MOD and DEL fail on another.
abbrev pub perform : CtlOp → Option ℕ → Ctl → (ℕ → Option ℕ) → Option (ℕ → Option ℕ)
perform ctl_add none x watched = some (update watched x.fd (some x.events))
perform ctl_add (some e) x watched = none
perform ctl_mod (some e) x watched = some (update watched x.fd (some x.events))
perform ctl_mod none x watched = none
perform ctl_del (some e) x watched = some (update watched x.fd none)
perform ctl_del none x watched = none

abbrev pub apply : Ctl → (ℕ → Option ℕ) → Option (ℕ → Option ℕ)
apply x watched = perform x.op (watched x.fd) x watched

-- The interest list after all calls; `none` if one of them failed.
abbrev pub replay : List Ctl → Option (ℕ → Option ℕ)
replay [] = some (λ fd. none)
replay (x ∷ earlier) = Option.bind (replay earlier) (apply x)

abbrev pub watch : Channel → Index → Option ℕ
watch ch added = some ch.events
watch ch new = none
watch ch deleted = none

-- What the poller's table says about a descriptor.
abbrev pub expected_by : (ℕ → Channel) → Option ℕ → Option ℕ
expected_by channels none = none
expected_by channels (some c) = watch (channels c) (channels c).index

abbrev pub expected : Poller → ℕ → Option ℕ
expected p fd = expected_by p.channels (p.by_fd fd)

pub record InSync (p : Poller) : Type 0 where
  pub watched : ℕ → Option ℕ
  pub no_failure : replay p.calls ≡ some watched
  pub agrees : (fd : ℕ) → watched fd ≡ expected p fd
  pub entry_fd : (fd c : ℕ) → p.by_fd fd ≡ some c → (p.channels c).fd ≡ fd
  pub entry_old : (fd c : ℕ) → p.by_fd fd ≡ some c → (p.channels c).index ≢ new

expected-other :
    (f g : ℕ → Channel) (o : Option ℕ)
    → ((d : ℕ) → o ≡ some d → f d ≡ g d)
    → expected_by f o ≡ expected_by g o
expected-other f g none h = refl
expected-other f g (some d) h = rw (h d refl)

-- One call of `epoll_ctl` for channel `c`, whose new state is `v` and whose entry in the table is
-- then `entry`; nothing else changes.
module _ (p q : Poller) (c : ℕ) (v : Channel) (x : Ctl) (entry : Option ℕ) where
  abbrev own_fd : ℕ
  own_fd = (p.channels c).fd

  pub record OneCall : Type 0 where
    pub others : (d : ℕ) → d ≢ c → q.channels d ≡ p.channels d
    pub self : q.channels c ≡ v
    pub same_fd : v.fd ≡ own_fd
    pub old : v.index ≢ new
    pub tables : (fd : ℕ) → fd ≢ own_fd → q.by_fd fd ≡ p.by_fd fd
    pub at_own : q.by_fd own_fd ≡ entry
    pub owner : (d : ℕ) → entry ≡ some d → d ≡ c
    pub one_more : q.calls ≡ x ∷ p.calls
    pub legal :
        (w : ℕ → Option ℕ)
        → w own_fd ≡ expected p own_fd
        → apply x w ≡ some (update w own_fd (expected_by q.channels entry))

  module _ (s : InSync p) (o : OneCall) where
    stays : (fd d : ℕ) → fd ≢ own_fd → p.by_fd fd ≡ some d → q.channels d ≡ p.channels d
    stays fd d ne e =
        o.others d (λ same. ne (sym (s.entry_fd fd d e) ∙ ap (λ t. (p.channels t).fd) same))

    agrees_after :
        (fd : ℕ) → update s.watched own_fd (expected_by q.channels entry) fd ≡ expected q fd
    agrees_after fd = elim (ℕ_discrete fd own_fd) [
      | yes same ↦ rw same (rw (==_refl own_fd) (ap (expected_by q.channels) (sym o.at_own)))
      | no other ↦ rw (ne→== fd own_fd other) (
          s.agrees fd
          ∙ sym (expected-other q.channels p.channels (p.by_fd fd) (λ d e. stays fd d other e))
          ∙ ap (expected_by q.channels) (sym (o.tables fd other)))
    ]

    entry_after :
        (fd d : ℕ) → q.by_fd fd ≡ some d → ((q.channels d).fd ≡ fd) × ((q.channels d).index ≢ new)
    entry_after fd d e = elim (ℕ_discrete fd own_fd) [
      | yes same ↦
          let is_c : d ≡ c = o.owner d (sym o.at_own ∙ ap q.by_fd (sym same) ∙ e) in
          let now : q.channels d ≡ v = ap q.channels is_c ∙ o.self in
          (ap (λ t. t.fd) now ∙ o.same_fd ∙ sym same, λ h. o.old (sym (ap (λ t. t.index) now) ∙ h))
      | no other ↦
          let before : p.by_fd fd ≡ some d = sym (o.tables fd other) ∙ e in
          let kept : q.channels d ≡ p.channels d = stays fd d other before in
          (
            ap (λ t. t.fd) kept ∙ s.entry_fd fd d before,
            λ h. s.entry_old fd d before (sym (ap (λ t. t.index) kept) ∙ h),
          )
    ]

    pub OneCall-InSync : InSync q
    unfolding Option.bind
    OneCall-InSync = record {
      watched = update s.watched own_fd (expected_by q.channels entry);
      no_failure =
          ap replay o.one_more
          ∙ ap (λ t. Option.bind t (apply x)) s.no_failure
          ∙ o.legal s.watched (s.agrees own_fd);
      agrees = agrees_after;
      entry_fd = λ fd d e. (entry_after fd d e).0;
      entry_old = λ fd d e. (entry_after fd d e).1;
    }
