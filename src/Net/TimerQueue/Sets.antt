-- ===== src/Net/TimerQueue/Sets.antt =====
-- `std::set` of pairs of numbers, as the list of its elements in order.
use czy_net_frame.Common.{
  suc, ◌≡◌, refl, sym, ap, ◌∙◌, subst, ◌≢◌, ◌⊎◌, inl, inr, Bool, true, false, ◌&&◌, ◌||◌, List, [],
  ◌∷◌, arith, ◌==◌, if◌then◌else◌, Bool-cases, length, ==_refl,
}
use czy_net_frame.Net.TimerQueue.{Pair, before, same, has, set_insert, set_erase}

pub same-eq : (x y : Pair) → same x y ≡ true → x ≡ y
same-eq (a, b) (c, d) h = λ i. (first (a == c) (b == d) h refl i, second (a == c) (b == d) h refl i)
  where
    first : (p q : Bool) → (p && q) ≡ true → (a == c) ≡ p → a ≡ c
    first true q h e = ground arith
    first false q h e = cc

    second : (p q : Bool) → (p && q) ≡ true → (b == d) ≡ q → b ≡ d
    second true true h e = ground arith
    second true false h e = cc
    second false q h e = cc

pub same_refl : (x : Pair) → same x x ≡ true
same_refl (a, b) = rw (==_refl a, ==_refl b) refl

pub before_irrefl : (x : Pair) → before x x ≡ false
before_irrefl (a, b) = ground arith

before_trans : (x y z : Pair) → before x y ≡ true → before y z ≡ true → before x z ≡ true
before_trans (a, b) (c, d) (e, f) h k = ground arith

-- Of two different pairs one comes first.
before_total : (x y : Pair) → before x y ≡ false → before y x ≡ false → x ≡ y
before_total (a, b) (c, d) h k =
    let p : a ≡ c = ground arith in let q : b ≡ d = ground arith in λ i. (p i, q i)

or_cases : (a b : Bool) → (a || b) ≡ true → (a ≡ true) ⊎ (b ≡ true)
or_cases true b h = inl refl
or_cases false b h = inr h

or_right : (a b : Bool) → b ≡ true → (a || b) ≡ true
or_right true b h = refl
or_right false b h = h

pub true≢false : true ≢ false
true≢false h = cc

-- Membership.
abbrev pub In : Pair → List Pair → Type 0
In e xs = has e xs ≡ true

pub In-cases : (e x : Pair) (xs : List Pair) → In e (x ∷ xs) → (e ≡ x) ⊎ In e xs
In-cases e x xs h = elim (or_cases (same e x) (has e xs) h) [
  | inl p ↦ inl (same-eq e x p)
  | inr q ↦ inr q
]

pub In-head : (e : Pair) (xs : List Pair) → In e (e ∷ xs)
In-head e xs = rw (same_refl e) refl

pub In-tail : (e x : Pair) (xs : List Pair) → In e xs → In e (x ∷ xs)
In-tail e x xs = or_right (same e x) (has e xs)

-- Each element comes before all behind it.
abbrev pub Sorted : List Pair → Type 0
Sorted [] = Unit
Sorted (x ∷ xs) = ((y : Pair) → In y xs → before x y ≡ true) × Sorted xs

pub In-insert : (y e : Pair) (xs : List Pair) → In e (set_insert y xs) → (e ≡ y) ⊎ In e xs
In-insert y e [] h = In-cases e y [] h
In-insert y e (x ∷ xs) h = elim (Bool-cases (before y x)) [
  | inl b ↦ In-cases e y (x ∷ xs) (
      subst
        (λ t. In e (if t then y ∷ x ∷ xs else (if before x y then x ∷ set_insert y xs else x ∷ xs)))
        b h)
  | inr n ↦
      let h' =
        subst
          (λ t.
            In e (if t then y ∷ x ∷ xs else (if before x y then x ∷ set_insert y xs else x ∷ xs)))
          n h in
      elim (Bool-cases (before x y)) [
        | inl c ↦
            elim (In-cases e x (set_insert y xs)
              (subst (λ t. In e (if t then x ∷ set_insert y xs else x ∷ xs)) c h')) [
                | inl p ↦ inr (subst (λ t. In t (x ∷ xs)) (sym p) (In-head x xs))
                | inr q ↦ elim (In-insert y e xs q) [
                  | inl p ↦ inl p
                  | inr r ↦ inr (In-tail e x xs r)
                ]
              ]
        | inr m ↦ inr (subst (λ t. In e (if t then x ∷ set_insert y xs else x ∷ xs)) m h')
      ]
]

-- The new element and the old ones are in.
pub In-insert_self : (y : Pair) (xs : List Pair) → In y (set_insert y xs)
In-insert_self y [] = In-head y []
In-insert_self y (x ∷ xs) = elim (Bool-cases (before y x)) [
  | inl b ↦ rw b (In-head y (x ∷ xs))
  | inr n ↦ rw n (elim (Bool-cases (before x y)) [
    | inl c ↦ rw c (In-tail y x (set_insert y xs) (In-insert_self y xs))
    | inr m ↦ rw m (subst (λ t. In t (x ∷ xs)) (before_total x y m n) (In-head x xs))
  ])
]

pub In-insert_old : (y e : Pair) (xs : List Pair) → In e xs → In e (set_insert y xs)
In-insert_old y e [] h = absurd (true≢false (sym h))
In-insert_old y e (x ∷ xs) h = elim (Bool-cases (before y x)) [
  | inl b ↦ rw b (In-tail e y (x ∷ xs) h)
  | inr n ↦ rw n (elim (Bool-cases (before x y)) [
    | inl c ↦ rw c (elim (In-cases e x xs h) [
      | inl p ↦ subst (λ t. In t (x ∷ set_insert y xs)) (sym p) (In-head x (set_insert y xs))
      | inr q ↦ In-tail e x (set_insert y xs) (In-insert_old y e xs q)
    ])
    | inr m ↦ rw m h
  ])
]

pub length-set_insert :
    (y : Pair) (xs : List Pair) → has y xs ≡ false → length (set_insert y xs) ≡ suc (length xs)
length-set_insert y [] h = refl
length-set_insert y (x ∷ xs) h = elim (Bool-cases (before y x)) [
  | inl b ↦ rw b refl
  | inr n ↦ rw n (elim (Bool-cases (before x y)) [
    | inl c ↦ rw c (ap suc (length-set_insert y xs (outside (has y xs) (Bool-cases (has y xs)))))
    | inr m ↦
        absurd
          (true≢false (sym (subst (λ t. In t (x ∷ xs)) (before_total x y m n) (In-head x xs)) ∙ h))
  ])
]
  where
    outside : (b : Bool) → (has y xs ≡ true) ⊎ (has y xs ≡ false) → has y xs ≡ false
    outside b (inl q) = absurd (true≢false (sym (In-tail y x xs q) ∙ h))
    outside b (inr q) = q

pub Sorted-insert : (y : Pair) (xs : List Pair) → Sorted xs → Sorted (set_insert y xs)
Sorted-insert y [] s = (λ z h. absurd (true≢false (sym h)), tt)
Sorted-insert y (x ∷ xs) (f, s) = elim (Bool-cases (before y x)) [
  | inl b ↦ rw b (
    λ z h. elim (In-cases z x xs h) [
      | inl p ↦ subst (λ t. before y t ≡ true) (sym p) b
      | inr q ↦ before_trans y x z b (f z q)
    ],
    (f, s),
  )
  | inr n ↦ rw n (elim (Bool-cases (before x y)) [
    | inl c ↦ rw c (
      λ z h. elim (In-insert y z xs h) [
        | inl p ↦ subst (λ t. before x t ≡ true) (sym p) c
        | inr q ↦ f z q
      ],
      Sorted-insert y xs s,
    )
    | inr m ↦ rw m (f, s)
  ])
]

pub In-erase : (y e : Pair) (xs : List Pair) → Sorted xs → In e (set_erase y xs) → In e xs × (e ≢ y)
In-erase y e [] s h = absurd (true≢false (sym h))
In-erase y e (x ∷ xs) (f, s) h = elim (Bool-cases (same y x)) [
  | inl b ↦
      let h' = subst (λ t. In e (if t then xs else x ∷ set_erase y xs)) b h in
      (
        In-tail e x xs h',
        λ p. true≢false (sym (f e h') ∙ ap (before x) (p ∙ same-eq y x b) ∙ before_irrefl x),
      )
  | inr n ↦
      elim (In-cases e x (set_erase y xs)
        (subst (λ t. In e (if t then xs else x ∷ set_erase y xs)) n h)) [
          | inl p ↦ (
            subst (λ t. In t (x ∷ xs)) (sym p) (In-head x xs),
            λ q. true≢false (sym (same_refl y) ∙ ap (same y) (sym q ∙ p) ∙ n),
          )
          | inr q ↦ let (i, ne) = In-erase y e xs s q in (In-tail e x xs i, ne)
        ]
]

pub In-erase_other : (y e : Pair) (xs : List Pair) → In e xs → e ≢ y → In e (set_erase y xs)
In-erase_other y e [] h ne = h
In-erase_other y e (x ∷ xs) h ne = elim (Bool-cases (same y x)) [
  | inl b ↦
      rw b (elim (In-cases e x xs h) [ inl p ↦ absurd (ne (p ∙ sym (same-eq y x b))) | inr q ↦ q ])
  | inr n ↦ rw n (elim (In-cases e x xs h) [
    | inl p ↦ subst (λ t. In t (x ∷ set_erase y xs)) (sym p) (In-head x (set_erase y xs))
    | inr q ↦ In-tail e x (set_erase y xs) (In-erase_other y e xs q ne)
  ])
]

pub length-set_erase :
    (y : Pair) (xs : List Pair) → In y xs → suc (length (set_erase y xs)) ≡ length xs
length-set_erase y [] h = absurd (true≢false (sym h))
length-set_erase y (x ∷ xs) h = elim (Bool-cases (same y x)) [
  | inl b ↦ rw b refl
  | inr n ↦ rw n (ap suc (length-set_erase y xs (subst (λ t. (t || has y xs) ≡ true) n h)))
]

pub Sorted-erase : (y : Pair) (xs : List Pair) → Sorted xs → Sorted (set_erase y xs)
Sorted-erase y [] s = tt
Sorted-erase y (x ∷ xs) (f, s) = elim (Bool-cases (same y x)) [
  | inl b ↦ rw b s
  | inr n ↦ rw n (λ z h. f z (In-erase y z xs s h).0, Sorted-erase y xs s)
]
