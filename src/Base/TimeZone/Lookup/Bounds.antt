-- ===== src/Base/TimeZone/Lookup/Bounds.antt =====
-- `std::upper_bound` of Base/TimeZone/Lookup is a scan of a table whose later elements come last.
use mathlib.Core.Option.{some-injective}
use czy_net_frame.Common.{
  ℕ, zero, suc, ◌+◌, ◌-◌, ◌/◌, ◌≤◌, ◌<◌, ◌≡◌, refl, sym, ap, ◌∙◌, subst, inl, inr, Bool, true,
  false, some, List, [], ◌∷◌, arith, leb, ◌==◌, if◌then◌else◌, leb→le, lt→leb, le→leb, Bool-cases,
  ==→eq, ==→ne, leb-suc, leb→lt, length, get_elem?, All, get_elem?-some, done,
}
use czy_net_frame.Base.TimeZone.Lookup.{upper_loop, element, upper_bound}

module _ {ℓ} {A : Type ℓ} (later : A → Bool) where
  -- How many elements stand before the first later one.
  unfoldable pub passed : List A → ℕ
  passed [] = 0
  passed (x ∷ xs) = if later x then 0 else suc (passed xs)

  -- Behind a later element there are only later ones.
  unfoldable pub IsCut : List A → Type ℓ
  IsCut [] = Unit
  IsCut (x ∷ xs) = (later x ≡ true → All (λ y. later y ≡ true) xs) × IsCut xs

  pub passed_bound : (xs : List A) → passed xs ≤ length xs
  unfolding passed
  passed_bound [] = omega arith
  passed_bound (x ∷ xs) = ground (arith, passed_bound xs)

  All-get_elem? :
      (xs : List A) (i : ℕ) (x : A)
      → All (λ y. later y ≡ true) xs
      → get_elem? xs i ≡ some x
      → later x ≡ true
  All-get_elem? [] i x h e = cc
  All-get_elem? (y ∷ ys) zero x h e = subst (λ z. later z ≡ true) (some-injective _ _ e) h.0
  All-get_elem? (y ∷ ys) (suc i) x h e = All-get_elem? ys i x h.1 e

  -- An element is later exactly when it stands behind those.
  pub passed-get_elem? :
      (xs : List A) (i : ℕ) (x : A)
      → IsCut xs
      → get_elem? xs i ≡ some x
      → later x ≡ leb (passed xs) i
  unfolding passed IsCut
  passed-get_elem? [] i x cut e = cc
  passed-get_elem? (y ∷ ys) zero x cut e =
      subst (λ z. later z ≡ leb (passed (y ∷ ys)) 0) (some-injective _ _ e)
        (elim (Bool-cases (later y)) [
          | inl p ↦ rw p (sym (le→leb 0 0 (omega arith)))
          | inr p ↦ rw p (sym (lt→leb (suc (passed ys)) 0 (omega arith)))
        ])
  passed-get_elem? (y ∷ ys) (suc i) x cut e = elim (Bool-cases (later y)) [
    | inl p ↦ rw p (All-get_elem? ys i x (cut.0 p) e ∙ sym (le→leb 0 (suc i) (omega arith)))
    | inr p ↦ rw p (passed-get_elem? ys i x cut.1 e ∙ sym (leb-suc (passed ys) i))
  ]

  upper_loop-passed :
      (fuel : ℕ) (xs : List A) (first len : ℕ)
      → IsCut xs
      → len < fuel
      → first ≤ passed xs
      → passed xs ≤ first + len
      → first + len ≤ length xs
      → upper_loop fuel later xs first len ≡ some (passed xs)
  unfolding upper_loop
  upper_loop-passed zero xs first len cut h low high fits = absurd (omega arith)
  upper_loop-passed (suc fuel) xs first len cut h low high fits = elim (Bool-cases (len == 0)) [
    | inl p ↦ rw p (ap some (omega (arith, ==→eq _ _ p)))
    | inr p ↦
        let positive : 0 < len = omega (arith, ==→ne _ _ p) in
        let middle = get_elem?-some xs (first + len / 2) (omega (arith, fits, positive)) in
        let order = passed-get_elem? xs (first + len / 2) middle.0 cut middle.1 in
        rw (p, middle.1)
          (elim (Bool-cases (later middle.0)) [
            | inl q ↦
                let before = leb→le _ _ (sym order ∙ q) in
                rw q (
                  upper_loop-passed fuel xs first (len / 2) cut (omega arith) low before
                    (omega arith))
            | inr q ↦
                let behind = leb→lt _ _ (sym order ∙ q) in
                rw q (
                  upper_loop-passed fuel xs (first + len / 2 + 1) (len - len / 2 - 1) cut
                    (omega arith) (omega (arith, behind)) (omega arith) (omega arith))
          ])
  ]

  -- On a table whose later elements come last the search by halves ends with the number of those
  -- before them.
  pub upper_bound-passed : (xs : List A) → IsCut xs → upper_bound later xs ≡ done (passed xs)
  unfolding upper_bound element
  upper_bound-passed xs cut = ap element (
      upper_loop-passed (suc (length xs)) xs 0 (length xs) cut (omega arith) (omega arith)
        (omega (arith, passed_bound xs)) (omega arith))

  pub passed-later : (x : A) (xs : List A) → later x ≡ true → passed (x ∷ xs) ≡ 0
  unfolding passed
  passed-later x xs p = rw p refl

  pub passed-earlier : (x : A) (xs : List A) → later x ≡ false → passed (x ∷ xs) ≡ suc (passed xs)
  unfolding passed
  passed-earlier x xs p = rw p refl
