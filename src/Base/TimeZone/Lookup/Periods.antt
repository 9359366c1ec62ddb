-- ===== src/Base/TimeZone/Lookup/Periods.antt =====
-- The search by UTC of Base/TimeZone/Lookup, against a scan of the transitions.
use mathlib.Core.Option.{some-injective}
use czy_net_frame.Common.{
  ℕ, zero, suc, ◌-◌, ◌≡◌, refl, sym, ap, ◌∙◌, ◌≢◌, inl, inr, Bool, true, false, some, List, [], ◌∷◌,
  arith, ◌==◌, if◌then◌else◌, ltb→lt, lt→ltb, Bool-cases, ==→eq, ==→ne, length, get_elem?, All,
  get_elem?-some, ltb_ℤ, ◌≤ℤ◌, ℤ,
}
use czy_net_frame.Base.TimeZone.{Transition, Data}
use czy_net_frame.Base.TimeZone.Lookup.{
  later_utc, element, type_at, is_before_all, front_type, found_utc, find_local_time_utc,
}
use czy_net_frame.Base.TimeZone.Lookup.Bounds.{
  passed, IsCut, passed_bound, passed-later, passed-earlier, upper_bound-passed,
}

-- The transitions in the order of a key.
unfoldable pub Ascending : (Transition → ℤ) → List Transition → Type 0
Ascending key [] = Unit
Ascending key (t ∷ ts) = All (λ s. key t ≤ℤ key s) ts × Ascending key ts

abbrev pub later_by : (Transition → ℤ) → ℤ → Transition → Bool
later_by key z t = ltb_ℤ z (key t)

later-All :
    (key : Transition → ℤ) (z : ℤ) (t : Transition) (ts : List Transition)
    → later_by key z t ≡ true
    → All (λ s. key t ≤ℤ key s) ts
    → All (λ s. later_by key z s ≡ true) ts
later-All key z t [] p h = tt
later-All key z t (s ∷ ts) p h =
    (lt→ltb _ _ (omega (arith, ltb→lt _ _ p, h.0)), later-All key z t ts p h.1)

pub IsCut-Ascending :
    (key : Transition → ℤ) (z : ℤ) (ts : List Transition)
    → Ascending key ts
    → IsCut (later_by key z) ts
unfolding Ascending IsCut
IsCut-Ascending key z [] h = tt
IsCut-Ascending key z (t ∷ ts) h = (λ p. later-All key z t ts p h.0, IsCut-Ascending key z ts h.1)

-- The type in force: that of the last transition before the first later one, or else the given one.
pub in_force : (Transition → Bool) → ℕ → List Transition → ℕ
in_force later i [] = i
in_force later i (t ∷ ts) = if later t then i else in_force later t.localtime_idx ts

pub is_before_all-passed :
    (later : Transition → Bool) (ts : List Transition)
    → is_before_all later ts ≡ (passed later ts == 0)
unfolding is_before_all passed
is_before_all-passed later [] = refl
is_before_all-passed later (t ∷ ts) = ground arith

pub in_force-zero :
    (later : Transition → Bool) (i : ℕ) (ts : List Transition)
    → passed later ts ≡ 0
    → in_force later i ts ≡ i
unfolding in_force passed
in_force-zero later i [] e = refl
in_force-zero later i (t ∷ ts) e = ground arith

pub in_force-suc :
    (later : Transition → Bool) (i k : ℕ) (ts : List Transition) (t : Transition)
    → passed later ts ≡ suc k
    → get_elem? ts k ≡ some t
    → in_force later i ts ≡ t.localtime_idx
unfolding in_force passed
in_force-suc later i k [] t e g = cc
in_force-suc later i zero (s ∷ ts) t e g = elim (Bool-cases (later s)) [
  | inl p ↦ absurd (omega (arith, e, passed-later later s ts p))
  | inr p ↦ rw p (
      in_force-zero later s.localtime_idx ts (omega (arith, e, passed-earlier later s ts p))
      ∙ ap (λ r. r.localtime_idx) (some-injective s t g))
]
in_force-suc later i (suc k) (s ∷ ts) t e g = elim (Bool-cases (later s)) [
  | inl p ↦ absurd (omega (arith, e, passed-later later s ts p))
  | inr p ↦
      rw p (
        in_force-suc later s.localtime_idx k ts t (omega (arith, e, passed-earlier later s ts p)) g)
]

pub type_at-some :
    (d : Data) (k : ℕ) (t : Transition)
    → get_elem? d.transitions k ≡ some t
    → type_at d k ≡ element (get_elem? d.localtimes t.localtime_idx)
unfolding type_at element
type_at-some d k t e = rw e refl

-- Behind the assertion the search takes the transition before the bound.
pub found_utc-suc : (d : Data) (k : ℕ) → found_utc d (suc k) ≡ type_at d k
unfolding found_utc
found_utc-suc d k =
    let p : (suc k == 0) ≡ false = ground arith in
    let here : suc k - 1 ≡ k = omega arith in
    rw p (elim (Bool-cases (suc k == length d.transitions)) [
      | inl q ↦ rw q (ap (type_at d) (omega (arith, ==→eq _ _ q)))
      | inr q ↦ rw (q, here) refl
    ])

-- With transitions in the order of UTC the search by halves passes its assertion and finds what
-- a scan finds: the type of the last transition not behind the given second, or else the first
-- type.
pub find_local_time_utc-in_force :
    (u : ℤ) (d : Data)
    → Ascending (λ t. t.utctime) d.transitions
    → find_local_time_utc u d
      ≡ element (get_elem? d.localtimes (in_force (later_utc u) 0 d.transitions))
unfolding find_local_time_utc front_type
find_local_time_utc-in_force u d h =
    rw (is_before_all-passed later ts) (elim (Bool-cases (passed later ts == 0)) [
      | inl p ↦ rw (p, in_force-zero later 0 ts (==→eq _ _ p)) refl
      | inr p ↦
          rw (p, upper_bound-passed later ts (IsCut-Ascending (λ t. t.utctime) u ts h))
            (behind (passed later ts) (==→ne _ _ p) refl)
    ])
  where
    ts : List Transition
    ts = d.transitions

    later : Transition → Bool
    later = later_utc u

    behind :
        (n : ℕ)
        → n ≢ 0
        → passed later ts ≡ n
        → found_utc d n ≡ element (get_elem? d.localtimes (in_force later 0 ts))
    behind zero ne e = absurd (ne refl)
    behind (suc k) ne e =
        let t = get_elem?-some ts k (omega (arith, e, passed_bound later ts)) in
        found_utc-suc d k
        ∙ type_at-some d k t.0 t.1
        ∙ ap (λ i. element (get_elem? d.localtimes i)) (sym (in_force-suc later 0 k ts t.0 e t.1))
