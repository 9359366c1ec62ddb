-- ===== src/Base/LogStream/Digits.antt =====
-- Numbers as digits, for any base that divides as it should, and how a text of digits is read.
use czy_net_frame.Common.{
  ℕ, zero, suc, ◌+◌, ◌*◌, ◌/◌, ◌%◌, ◌≤◌, ◌<◌, ◌≡◌, refl, sym, ap, ◌∙◌, inl, inr, true, List, [],
  ◌∷◌, ◌++◌, map, arith, ◌==◌, if◌then◌else◌, Bool-cases, length, reverse_onto, All,
}

-- The value of digits with the least one first.
abbrev pub little : ℕ → List ℕ → ℕ
little b [] = 0
little b (d ∷ ds) = d + b * little b ds

-- The value of digits with the greatest one first, behind `acc`.
abbrev pub big : ℕ → ℕ → List ℕ → ℕ
big b acc [] = acc
big b acc (d ∷ ds) = big b (d + b * acc) ds

pub big-reverse_onto :
    (b : ℕ) (xs ys : List ℕ) (acc : ℕ)
    → acc ≡ 0
    → big b acc (reverse_onto xs ys) ≡ big b (little b xs) ys
big-reverse_onto b [] ys acc z = ap (λ t. big b t ys) z
big-reverse_onto b (x ∷ xs) ys acc z = big-reverse_onto b xs (x ∷ ys) acc z

-- The digits of a number, up to `fuel` of them.
abbrev pub digits_of : ℕ → ℕ → ℕ → List ℕ
digits_of b zero n = []
digits_of b (suc fuel) n =
    let rest = digits_of b fuel (n / b) in (n % b) ∷ (if n / b == 0 then [] else rest)

pub below-digits_of :
    (b : ℕ) → ((n : ℕ) → n % b < b) → (fuel n : ℕ) → All (λ d. d < b) (digits_of b fuel n)
below-digits_of b small zero n = tt
below-digits_of b small (suc fuel) n = elim (Bool-cases (n / b == 0)) [
  | inl y ↦ rw y (small n, tt)
  | inr z ↦ rw z (small n, below-digits_of b small fuel (n / b))
]

-- What `fuel` digits can hold.
abbrev pub limit : ℕ → ℕ → ℕ
limit b zero = 1
limit b (suc fuel) = b * limit b fuel

pub length-digits_of : (b fuel n : ℕ) → length (digits_of b fuel n) ≤ fuel
length-digits_of b zero n = omega arith
length-digits_of b (suc fuel) n = elim (Bool-cases (n / b == 0)) [
  | inl y ↦ rw y (omega arith)
  | inr z ↦ rw z (omega (arith, length-digits_of b fuel (n / b)))
]

module _ (b : ℕ) (split : (n : ℕ) → n % b + b * (n / b) ≡ n)
    (below : (n x : ℕ) → n < b * x → n / b < x) where
  pub little-digits_of : (fuel n : ℕ) → n < limit b fuel → little b (digits_of b fuel n) ≡ n
  little-digits_of zero n h = omega arith
  little-digits_of (suc fuel) n h = elim (Bool-cases (n / b == 0)) [
    | inl y ↦ rw y (ap (λ t. n % b + b * t) (sym (zero_when (n / b) y)) ∙ split n)
    | inr z ↦ rw z (
        ap (λ t. n % b + b * t) (little-digits_of fuel (n / b) (below n (limit b fuel) h))
        ∙ split n)
  ]
    where
      zero_when : (m : ℕ) → (m == 0) ≡ true → m ≡ 0
      zero_when m e = ground arith

module _ {ℓ} {A : Type ℓ} where
  pub All-reverse_onto {κ} :
      (P : A → Type κ) (xs ys : List A) → All P xs → All P ys → All P (reverse_onto xs ys)
  All-reverse_onto P [] ys on_xs on_ys = on_ys
  All-reverse_onto P (x ∷ xs) ys on_xs on_ys =
      All-reverse_onto P xs (x ∷ ys) on_xs.1 (on_xs.0, on_ys)

  pub reverse_onto-append :
      (xs ys zs : List A) → reverse_onto (xs ++ ys) zs ≡ reverse_onto ys (reverse_onto xs zs)
  reverse_onto-append [] ys zs = refl
  reverse_onto-append (x ∷ xs) ys zs = reverse_onto-append xs ys (x ∷ zs)

pub map-reverse_onto :
    (f : ℕ → ℕ) (xs ys : List ℕ) → map f (reverse_onto xs ys) ≡ reverse_onto (map f xs) (map f ys)
map-reverse_onto f [] ys = refl
map-reverse_onto f (x ∷ xs) ys = map-reverse_onto f xs (x ∷ ys)
