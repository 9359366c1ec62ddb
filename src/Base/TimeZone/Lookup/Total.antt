-- ===== src/Base/TimeZone/Lookup/Total.antt =====
-- What the searches of Base/TimeZone/Lookup come to in a zone, and the way to local time and back.
use czy_net_frame.Common.{
  ℕ, zero, suc, ◌≤◌, ◌<◌, ◌≡◌, refl, ap, ◌∙◌, inl, inr, Bool, true, false, some, arith, ◌==◌,
  Bool-cases, ==→eq, ==→ne, length, get_elem?, get_elem?-some, done, ◌+ℤ◌, ◌-ℤ◌, ltb_ℤ, leb_ℤ, ℤ,
  pos,
}
use czy_net_frame.Base.TimeZone.{Transition, LocalTime, Data}
use czy_net_frame.Base.TimeZone.Lookup.{
  later_local, element, front_type, repeated_or_unique, found_local, search_local, choose,
}
use czy_net_frame.Base.TimeZone.Lookup.Bounds.{passed, passed_bound}
use czy_net_frame.Base.TimeZone.Lookup.Local.{
  IsZone, All-get_elem?_at, type_of, search_local-zero, search_local-suc, found_local-last,
  found_local-between, look_back-done,
}

module _ (d : Data) (z : IsZone d) where
  choose-done :
      (post : Bool) (t p : Transition)
      → t.localtime_idx < length d.localtimes
      → p.localtime_idx < length d.localtimes
      → (lt : LocalTime) × (choose d post t p ≡ done lt)
  unfolding element
  choose-done true t p h i =
      let a = get_elem?-some d.localtimes t.localtime_idx h in (a.0, rw a.1 refl)
  choose-done false t p h i =
      let a = get_elem?-some d.localtimes p.localtime_idx i in (a.0, rw a.1 refl)

  repeated_or_unique-done :
      (l s : ℤ) (post : Bool) (k : ℕ) (t : Transition)
      → k < length d.transitions
      → t.localtime_idx < length d.localtimes
      → (lt : LocalTime) × (repeated_or_unique l post d k t s ≡ done lt)
  unfolding repeated_or_unique element
  repeated_or_unique-done l s post k t h i =
      let b = look_back-done d z k t s h i in
      let here = get_elem?-some d.localtimes t.localtime_idx i in
      rw b.1 (elim (Bool-cases (leb_ℤ l (b.0.1))) [
        | inl p ↦ rw p (choose-done post t b.0.0 i b.2)
        | inr p ↦ rw (p, here.1) (here.0, refl)
      ])

  found_local-done :
      (l : ℤ) (post : Bool) (k : ℕ)
      → suc k ≤ length d.transitions
      → (lt : LocalTime) × (found_local l post d (suc k) ≡ done lt)
  unfolding element
  found_local-done l post k h = elim (Bool-cases (suc k == length d.transitions)) [
    | inl p ↦ (lt.0, found_local-last d z l post k t.0 (==→eq _ _ p) t.1 ∙ ap element lt.1)
    | inr p ↦ between (get_elem?-some d.transitions (suc k) (omega (arith, h, ==→ne _ _ p)))
  ]
    where
      t : (t : Transition) × (get_elem? d.transitions k ≡ some t)
      t = get_elem?-some d.transitions k (omega (arith, h))

      valid :
          (i : ℕ) (s : Transition)
          → get_elem? d.transitions i ≡ some s
          → s.localtime_idx < length d.localtimes
      valid i s e = All-get_elem?_at _ d.transitions i s z.indices e

      lt : (lt : LocalTime) × (get_elem? d.localtimes (t.0).localtime_idx ≡ some lt)
      lt = type_of d z k t.0 t.1

      between :
          (next : Transition) × (get_elem? d.transitions (suc k) ≡ some next)
          → (lt : LocalTime) × (found_local l post d (suc k) ≡ done lt)
      between (next, g) =
          let step = found_local-between d z l post k t.0 next lt.0 t.1 g lt.1 in
          let second = next.utctime -ℤ pos 1 +ℤ (lt.0).utc_offset in
          elim (Bool-cases (ltb_ℤ second l)) [
            | inl p ↦
                let c = choose-done post next t.0 (valid (suc k) next g) (valid k t.0 t.1) in
                (c.0, step ∙ rw p c.1)
            | inr p ↦
                let c = repeated_or_unique-done l second post k t.0 h (valid k t.0 t.1) in
                (c.0, step ∙ rw p c.1)
          ]

  -- In a zone whose transitions name types and are in order, the search by any local time
  -- passes its assertion, reads no vector out of range, and finds a type.
  pub search_local-done :
      (l : ℤ) (post : Bool) → (lt : LocalTime) × (search_local l post d ≡ done lt)
  unfolding front_type element
  search_local-done l post = by_passed (passed (later_local l) d.transitions) refl
    where
      by_passed :
          (n : ℕ)
          → passed (later_local l) d.transitions ≡ n
          → (lt : LocalTime) × (search_local l post d ≡ done lt)
      by_passed zero e =
          let a = get_elem?-some d.localtimes 0 z.has_type in
          (a.0, search_local-zero d z l post e ∙ ap element a.1)
      by_passed (suc k) e =
          let a =
            found_local-done l post k
              (omega (arith, e, passed_bound (later_local l) d.transitions)) in
          (a.0, search_local-suc d z l post k e ∙ a.1)
