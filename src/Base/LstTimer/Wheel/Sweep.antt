-- ===== src/Base/LstTimer/Wheel/Sweep.antt =====
-- The loop of a tick of Base/LstTimer/Wheel over a slot, seen by the nodes of one address.
use czy_net_frame.Common.{
  ℕ, zero, suc, ◌≡◌, refl, ap, ap₂, ◌∙◌, subst, inl, inr, Bool, true, false, Option, none, some,
  List, [], ◌∷◌, ◌++◌, arith, leb, ◌==◌, if◌then◌else◌, Bool-cases, ==→eq, ==_refl, ◌-ℤ◌, -ℤ-pos,
  pos,
}
use czy_net_frame.Base.LstTimer.{TimerNode, called}
use czy_net_frame.Base.LstTimer.Wheel.{is_due, turn, sweep}

abbrev pub of_address : ℕ → List TimerNode → List TimerNode
of_address a [] = []
of_address a (n ∷ ns) = let rest = of_address a ns in if n.address == a then n ∷ rest else rest

abbrev pub calls_of : ℕ → List (ℕ × ℕ) → List (ℕ × ℕ)
calls_of a [] = []
calls_of a (c ∷ cs) = let rest = calls_of a cs in if c.0 == a then c ∷ rest else rest

pub calls_of-append :
    (a : ℕ) (cs ds : List (ℕ × ℕ)) → calls_of a (cs ++ ds) ≡ calls_of a cs ++ calls_of a ds
calls_of-append a [] ds = refl
calls_of-append a (c ∷ cs) ds = elim (Bool-cases (c.0 == a)) [
  | inl p ↦ rw p (ap (◌∷◌ c) (calls_of-append a cs ds))
  | inr p ↦ rw p (calls_of-append a cs ds)
]

pub calls_of-called :
    (lock : ℕ → Bool) (a : ℕ) (c : Option ℕ) → calls_of a (called lock a c) ≡ called lock a c
calls_of-called lock a none = refl
calls_of-called lock a (some c) = elim (Bool-cases (lock c)) [
  | inl p ↦ rw (p, ==_refl a) refl
  | inr p ↦ rw p refl
]

pub calls_of-called_ne :
    (lock : ℕ → Bool) (a b : ℕ) (c : Option ℕ)
    → (b == a) ≡ false
    → calls_of a (called lock b c) ≡ []
calls_of-called_ne lock a b none e = refl
calls_of-called_ne lock a b (some c) e = elim (Bool-cases (lock c)) [
  | inl p ↦ rw (p, e) refl
  | inr p ↦ rw p refl
]

-- The loop over a slot treats the nodes of one address as if they were alone.
pub of_address-sweep :
    (lock : ℕ → Bool) (a : ℕ) (ns : List TimerNode)
    → of_address a (sweep lock ns).1 ≡ (sweep lock (of_address a ns)).1
of_address-sweep lock a [] = refl
of_address-sweep lock a (n ∷ ns) = elim (Bool-cases (n.address == a)) [
  | inl p ↦ elim (Bool-cases (is_due (turn n))) [
    | inl q ↦ rw (p, q) (of_address-sweep lock a ns)
    | inr q ↦ rw (p, q, p) (ap (◌∷◌ (turn n)) (of_address-sweep lock a ns))
  ]
  | inr p ↦ elim (Bool-cases (is_due (turn n))) [
    | inl q ↦ rw (p, q) (of_address-sweep lock a ns)
    | inr q ↦ rw (p, q, p) (of_address-sweep lock a ns)
  ]
]

pub calls_of-sweep :
    (lock : ℕ → Bool) (a : ℕ) (ns : List TimerNode)
    → calls_of a (sweep lock ns).0 ≡ (sweep lock (of_address a ns)).0
calls_of-sweep lock a [] = refl
calls_of-sweep lock a (n ∷ ns) = elim (Bool-cases (n.address == a)) [
  | inl p ↦ elim (Bool-cases (is_due (turn n))) [
    | inl q ↦
        let e = calls_of-append a (called lock n.address n.client) (sweep lock ns).0 in
        let own =
          subst (λ b. calls_of b (called lock n.address n.client) ≡ called lock n.address n.client)
            (==→eq _ _ p) (calls_of-called lock n.address n.client) in
        rw (p, q) (e ∙ ap₂ ◌++◌ own (calls_of-sweep lock a ns))
    | inr q ↦ rw (p, q) (calls_of-sweep lock a ns)
  ]
  | inr p ↦ elim (Bool-cases (is_due (turn n))) [
    | inl q ↦
        let e = calls_of-append a (called lock n.address n.client) (sweep lock ns).0 in
        let other = calls_of-called_ne lock a n.address n.client p in
        rw (p, q) (e ∙ ap₂ ◌++◌ other (calls_of-sweep lock a ns))
    | inr q ↦ rw (p, q) (calls_of-sweep lock a ns)
  ]
]

pub is_due-turn : (n : TimerNode) (r : ℕ) → n.rotation ≡ pos r → is_due (turn n) ≡ leb r 1
unfolding is_due ◌-ℤ◌
is_due-turn n zero e = rw e refl
is_due-turn n (suc zero) e = rw e refl
is_due-turn n (suc (suc r)) e = rw e (ground arith)

pub turn-rotation : (n : TimerNode) (r : ℕ) → n.rotation ≡ pos (suc r) → (turn n).rotation ≡ pos r
turn-rotation n r e = ap (λ z. z -ℤ pos 1) e ∙ -ℤ-pos (suc r) 1 (omega arith) ∙ ap pos (omega arith)

pub sweep_later :
    (lock : ℕ → Bool) (n : TimerNode)
    → is_due (turn n) ≡ false
    → sweep lock (n ∷ []) ≡ ([], turn n ∷ [])
sweep_later lock n q = rw q refl

pub sweep_due :
    (lock : ℕ → Bool) (n : TimerNode)
    → is_due (turn n) ≡ true
    → sweep lock (n ∷ []) ≡ (called lock n.address n.client ++ [], [])
sweep_due lock n q = rw q refl
