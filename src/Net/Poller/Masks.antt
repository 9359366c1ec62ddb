-- ===== src/Net/Poller/Masks.antt =====
-- `enableRead`, `enableWrite`, `disableRead` and `disableWrite` of src/net/Channel.h: what each does
-- to the two questions `isReading` and `isWriting`.
use mathlib.Core.Path.{fun_ext}
use native.Mathlib.Decide.{ℕ_discrete}
use czy_net_frame.Common.{
  ℕ, ◌≡◌, refl, sym, ap, ◌∙◌, subst, ◌⊎◌, inl, inr, Bool, true, false, Outcome, done, update,
  ==_refl, ne→==,
}
use czy_net_frame.Net.Channel.{
  Channel, is_reading, is_writing, has_event, add_events, drop_events, read_event, write_event,
}
use czy_net_frame.Net.Poller.{
  Poller, set_events, update_channel, change_events, enable_read, enable_write, disable_read,
  disable_write,
}
use czy_net_frame.Net.Poller.Kernel.{InSync}
use czy_net_frame.Net.Poller.Changes.{IsReady, change_events-InSync}

-- The event masks that the methods of Channel can set.
abbrev pub IsMask : ℕ → Type 0
IsMask e = ((e ≡ 0) ⊎ (e ≡ 3)) ⊎ ((e ≡ 4) ⊎ (e ≡ 7))

-- A mask that asks for reading and for writing as said.
abbrev pub Asks : Bool → Bool → ℕ → Type 0
Asks r w e = IsMask e × (has_event e read_event ≡ r) × (has_event e write_event ≡ w)

mask_cases {ℓ} : (P : ℕ → Type ℓ) → P 0 → P 3 → P 4 → P 7 → (e : ℕ) → IsMask e → P e
mask_cases P a b c d e (inl (inl p)) = subst P (sym p) a
mask_cases P a b c d e (inl (inr p)) = subst P (sym p) b
mask_cases P a b c d e (inr (inl p)) = subst P (sym p) c
mask_cases P a b c d e (inr (inr p)) = subst P (sym p) d

mask-add_write : (e : ℕ) → IsMask e → Asks (has_event e read_event) true (add_events e write_event)
mask-add_write =
    mask_cases (λ e. Asks (has_event e read_event) true (add_events e write_event))
      (inr (inl refl), refl, refl) (inr (inr refl), refl, refl) (inr (inl refl), refl, refl)
      (inr (inr refl), refl, refl)

mask-drop_write :
    (e : ℕ) → IsMask e → Asks (has_event e read_event) false (drop_events e write_event)
mask-drop_write =
    mask_cases (λ e. Asks (has_event e read_event) false (drop_events e write_event))
      (inl (inl refl), refl, refl) (inl (inr refl), refl, refl) (inl (inl refl), refl, refl)
      (inl (inr refl), refl, refl)

mask-add_read : (e : ℕ) → IsMask e → Asks true (has_event e write_event) (add_events e read_event)
mask-add_read =
    mask_cases (λ e. Asks true (has_event e write_event) (add_events e read_event))
      (inl (inr refl), refl, refl) (inl (inr refl), refl, refl) (inr (inr refl), refl, refl)
      (inr (inr refl), refl, refl)

mask-drop_read :
    (e : ℕ) → IsMask e → Asks false (has_event e write_event) (drop_events e read_event)
mask-drop_read =
    mask_cases (λ e. Asks false (has_event e write_event) (drop_events e read_event))
      (inl (inl refl), refl, refl) (inl (inl refl), refl, refl) (inr (inl refl), refl, refl)
      (inr (inl refl), refl, refl)

-- A channel and its poller between two calls.
pub record Wired (p : Poller) (c : ℕ) : Type 0 where
  pub sync : InSync p
  pub ready : IsReady p c
  pub mask : IsMask (p.channels c).events

abbrev pub asks_read : Poller → ℕ → Bool
asks_read p c = is_reading (p.channels c)

abbrev pub asks_write : Poller → ℕ → Bool
asks_write p c = is_writing (p.channels c)

-- The call succeeds, and the channel then asks for what is said.
abbrev pub Rewires : Outcome Poller → ℕ → Bool → Bool → Type 0
Rewires o c r w =
    (q : Poller) × (o ≡ done q) × Wired q c × (asks_read q c ≡ r) × (asks_write q c ≡ w)

module _ (p : Poller) (c : ℕ) where
  change_events-Rewires :
      (events : ℕ) (r w : Bool)
      → InSync p
      → IsReady p c
      → Asks r w events
      → Rewires (change_events p c events) c r w
  change_events-Rewires events r w s k a =
      let (q, e, s', k', now, _, _, _) = change_events-InSync p c events s k in
      (
        q,
        e,
        record { sync = s'; ready = k'; mask = subst IsMask (sym now) a.0 },
        ap (λ t. has_event t read_event) now ∙ a.1,
        ap (λ t. has_event t write_event) now ∙ a.2,
      )

  pub enable_read-Rewires : Wired p c → Rewires (enable_read p c) c true (asks_write p c)
  unfolding enable_read
  enable_read-Rewires w = change_events-Rewires _ _ _ w.sync w.ready (mask-add_read _ w.mask)

  pub disable_read-Rewires : Wired p c → Rewires (disable_read p c) c false (asks_write p c)
  unfolding disable_read
  disable_read-Rewires w = change_events-Rewires _ _ _ w.sync w.ready (mask-drop_read _ w.mask)

  pub disable_write-Rewires : Wired p c → Rewires (disable_write p c) c (asks_read p c) false
  unfolding disable_write
  disable_write-Rewires w = change_events-Rewires _ _ _ w.sync w.ready (mask-drop_write _ w.mask)

  set_same : set_events p c (p.channels c).events ≡ p
  unfolding set_events
  set_same = ap (λ (t : ℕ → Channel). record p { channels = t }) (fun_ext same)
    where
      same : (d : ℕ) → update p.channels c (p.channels c) d ≡ p.channels d
      same d = elim (ℕ_discrete d c) [ yes e ↦ rw e (rw (==_refl c)) | no ne ↦ rw (ne→== d c ne) ]

  update_channel-Rewires :
      Wired p c → Rewires (update_channel p c) c (asks_read p c) (asks_write p c)
  unfolding change_events
  update_channel-Rewires w =
      subst (λ t. Rewires (update_channel t c) c (asks_read p c) (asks_write p c)) set_same
        (change_events-Rewires (p.channels c).events _ _ w.sync w.ready (w.mask, refl, refl))

-- `enableWrite` updates twice, and the second update finds everything in place.
pub enable_write-Rewires :
    (p : Poller) (c : ℕ) → Wired p c → Rewires (enable_write p c) c (asks_read p c) true
unfolding enable_write
enable_write-Rewires p c w =
    let (q, e, w', r, asks) =
      change_events-Rewires p c _ _ _ w.sync w.ready (mask-add_write _ w.mask) in
    rw e (
      let (q', e', w2, r2, asks2) = update_channel-Rewires q c w' in
      (q', e', w2, r2 ∙ r, asks2 ∙ asks))
