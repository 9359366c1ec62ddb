-- ===== src/Base/BoundedBlockQueue/Ring.antt =====
-- The queue as a list of at most `n - 1` elements, the one that leaves next first.
use native.Mathlib.Nat.{mod-eq_of_lt, mod-add-mod, mod-eq-sub-mod, mod-lt}
use native.Mathlib.Decide.{dec_le}
use czy_net_frame.Common.{
  ℕ, zero, suc, ◌+◌, ◌-◌, ◌%◌, ◌≤◌, ◌<◌, ◌≡◌, refl, sym, ap, ◌∙◌, subst, ◌≢◌, ◌⊎◌, inl, inr, none,
  some, List, [], ◌∷◌, ◌++◌, arith, ◌==◌, lt→ltb, length, get_elem?, set, length-append, done,
  ==_refl, ne→==,
}
use czy_net_frame.Base.BoundedBlockQueue.{
  BoundedBlockQueue, next, is_empty_no_lock, is_full_no_lock, write_slot, read_slot, put, push, get,
  pop,
}

-- A position that has gone round at most once.
wrap : (n i : ℕ) → i < n + n → ((i < n) × (i % n ≡ i)) ⊎ ((n ≤ i) × (i % n ≡ i - n))
wrap n i h = elim (dec_le n i) [
  | yes le ↦ inr (le, mod-eq-sub-mod le ∙ mod-eq_of_lt (omega (arith, h, le)))
  | no gt ↦ inl (omega (arith, gt), mod-eq_of_lt (omega (arith, gt)))
]

-- Two positions less than a round apart are different slots.
wrap-apart : (n h i j : ℕ) → h < n → i < j → j < n → (h + i) % n ≢ (h + j) % n
wrap-apart n h i j a b c e =
    apart (wrap n (h + i) (omega (arith, a, b, c))) (wrap n (h + j) (omega (arith, a, c)))
  where
    apart :
        ((h + i < n) × ((h + i) % n ≡ h + i)) ⊎ ((n ≤ h + i) × ((h + i) % n ≡ h + i - n))
        → ((h + j < n) × ((h + j) % n ≡ h + j)) ⊎ ((n ≤ h + j) × ((h + j) % n ≡ h + j - n))
        → ⊥
    apart (inl (p, q)) (inl (r, s)) = omega (arith, sym q ∙ e ∙ s, b)
    apart (inl (p, q)) (inr (r, s)) = omega (arith, sym q ∙ e ∙ s, b, c, a)
    apart (inr (p, q)) (inl (r, s)) = omega (arith, sym q ∙ e ∙ s, b, c, a, p, r)
    apart (inr (p, q)) (inr (r, s)) = omega (arith, sym q ∙ e ∙ s, b, c, a, p, r)

module _ {ℓ} {A : Type ℓ} where
  get_elem?-set : (xs : List A) (i : ℕ) (a : A) → i < length xs → get_elem? (set xs i a) i ≡ some a
  get_elem?-set [] i a h = absurd (omega arith)
  get_elem?-set (x ∷ xs) zero a h = refl
  get_elem?-set (x ∷ xs) (suc i) a h = get_elem?-set xs i a (omega arith)

  get_elem?-set_ne :
      (xs : List A) (i j : ℕ) (a : A) → i ≢ j → get_elem? (set xs i a) j ≡ get_elem? xs j
  get_elem?-set_ne [] i j a h = refl
  get_elem?-set_ne (x ∷ xs) zero zero a h = absurd (h refl)
  get_elem?-set_ne (x ∷ xs) zero (suc j) a h = refl
  get_elem?-set_ne (x ∷ xs) (suc i) zero a h = refl
  get_elem?-set_ne (x ∷ xs) (suc i) (suc j) a h = get_elem?-set_ne xs i j a (λ e. h (ap suc e))

  length-set : (xs : List A) (i : ℕ) (a : A) → length (set xs i a) ≡ length xs
  length-set [] i a = refl
  length-set (x ∷ xs) zero a = refl
  length-set (x ∷ xs) (suc i) a = ap suc (length-set xs i a)

  none-some : {a : A} → none ≢ some a
  none-some h = cc

  -- An element of a list with one more at its end.
  get_elem?-push :
      (xs : List A) (a : A) (k : ℕ) (x : A)
      → get_elem? (xs ++ (a ∷ [])) k ≡ some x
      → ((k < length xs) × (get_elem? xs k ≡ some x)) ⊎ ((k ≡ length xs) × (some a ≡ some x))
  get_elem?-push [] a zero x e = inr (refl, e)
  get_elem?-push [] a (suc k) x e = absurd (none-some e)
  get_elem?-push (y ∷ ys) a zero x e = inl (omega arith, e)
  get_elem?-push (y ∷ ys) a (suc k) x e = elim (get_elem?-push ys a k x e) [
    | inl (h, p) ↦ inl (omega (arith, h), p)
    | inr (h, p) ↦ inr (ap suc h, p)
  ]

  -- The queue holds these elements.
  pub record Holds (n : ℕ) (q : BoundedBlockQueue A) (xs : List A) : Type ℓ where
    pub sized : length q.slots ≡ n
    pub head_in : q.head < n
    pub room : length xs < n
    pub tail_at : q.tail ≡ (q.head + length xs) % n
    pub at :
        (k : ℕ) (x : A) → get_elem? xs k ≡ some x → get_elem? q.slots ((q.head + k) % n) ≡ some x

  module _ (n : ℕ) (q : BoundedBlockQueue A) (xs : List A) (h : Holds n q xs) where
    -- One step from a position, by the whole way from the head.
    step : (i k : ℕ) → i ≡ (q.head + k) % n → next n i ≡ (q.head + suc k) % n
    step i k e = ap (λ t. (t + 1) % n) e ∙ mod-add-mod (q.head + k) n 1 ∙ ap (λ t. t % n) (longer k)
      where
        longer : (k : ℕ) → q.head + k + 1 ≡ q.head + suc k
        longer k = omega arith

    full_test : is_full_no_lock n q ≡ (suc (length xs) == n)
    full_test =
        ap (λ t. t == q.head) (step q.tail (length xs) h.tail_at)
        ∙ elim (wrap n (q.head + suc (length xs)) (omega (arith, h.head_in, h.room))) [
          | inl (p, e) ↦
              rw
                (
                  e,
                  ne→== (q.head + suc (length xs)) q.head (λ f. omega (arith, f)),
                  ne→== (suc (length xs)) n (λ f. omega (arith, f, p)),
                )
                refl
          | inr (p, e) ↦ rw e (ground (arith, p, h.head_in, h.room))
        ]

    empty_test : is_empty_no_lock q ≡ (length xs == 0)
    empty_test =
        ap (λ t. q.head == t) h.tail_at
        ∙ elim (wrap n (q.head + length xs) (omega (arith, h.head_in, h.room))) [
          | inl (p, e) ↦ rw e (ground (arith, p, h.head_in, h.room))
          | inr (p, e) ↦ rw e (ground (arith, p, h.head_in, h.room))
        ]

    tail_in : q.tail < n
    tail_in =
        subst (λ t. t < n) (sym h.tail_at) (mod-lt (q.head + length xs) (omega (arith, h.head_in)))

    pushed : A → BoundedBlockQueue A
    pushed a = record q { slots = set q.slots q.tail a; tail = next n q.tail }

    pushed-Holds : (a : A) → suc (length xs) < n → Holds n (pushed a) (xs ++ (a ∷ []))
    unfolding pushed
    pushed-Holds a free = record {
      sized = length-set q.slots q.tail a ∙ h.sized;
      head_in = h.head_in;
      room = omega (arith, free, length-append xs (a ∷ []));
      tail_at = step q.tail (length xs) h.tail_at ∙ ap (λ t. (q.head + t) % n) (one_more xs);
      at = λ k x e. elim (get_elem?-push xs a k x e) [
        | inl (lt, p) ↦
            get_elem?-set_ne q.slots q.tail ((q.head + k) % n) a
              (λ f. wrap-apart n q.head k (length xs) h.head_in lt h.room (sym (sym h.tail_at ∙ f)))
            ∙ h.at k x p
        | inr (last, p) ↦
            ap (get_elem? (set q.slots q.tail a)) (ap (λ t. (q.head + t) % n) last ∙ sym h.tail_at)
            ∙ get_elem?-set q.slots q.tail a (omega (arith, tail_in, h.sized))
            ∙ p
      ];
    }
      where
        one_more : (ys : List A) → suc (length ys) ≡ length (ys ++ (a ∷ []))
        one_more ys = omega (arith, length-append ys (a ∷ []))

    -- `push` waits exactly while the queue holds one element less than it has slots; otherwise the
    -- new element comes behind the others.
    pub push-Holds :
        (a : A)
        → (suc (length xs) ≡ n → push n q a ≡ done none)
          × (suc (length xs) < n
              → (q' : BoundedBlockQueue A) × (push n q a ≡ done (some q'))
                × Holds n q' (xs ++ (a ∷ [])))
    unfolding push put write_slot pushed
    push-Holds a = (
      λ e. rw (full_test ∙ ap (λ t. t == n) e, ==_refl n) refl,
      λ free. (
        pushed a,
        rw
            (
              full_test,
              ne→== (suc (length xs)) n (λ e. omega (arith, e, free)),
              lt→ltb q.tail (length q.slots) (omega (arith, tail_in, h.sized)),
            )
            refl,
        pushed-Holds a free,
      ),
    )

  -- `pop` waits exactly while the queue is empty; otherwise it returns the first element and leaves
  -- the others.
  pub pop-Holds :
      (n : ℕ) (q : BoundedBlockQueue A)
      → (Holds n q [] → pop n q ≡ done none)
        × ((x : A) (xs : List A)
            → Holds n q (x ∷ xs)
            → (q' : BoundedBlockQueue A) × (pop n q ≡ done (some (x, q'))) × Holds n q' xs)
  unfolding pop get read_slot
  pop-Holds n q = (
    λ h. rw (empty_test n q [] h) refl,
    λ x xs h. (record q { head = next n q.head }, taken x xs h, rest x xs h),
  )
    where
      first : (x : A) (xs : List A) → Holds n q (x ∷ xs) → get_elem? q.slots q.head ≡ some x
      first x xs h =
          ap (get_elem? q.slots) (sym (mod-eq_of_lt h.head_in) ∙ ap (λ t. t % n) (sym plus))
          ∙ h.at 0 x refl
        where
          plus : q.head + 0 ≡ q.head
          plus = omega arith

      taken :
          (x : A) (xs : List A)
          → Holds n q (x ∷ xs)
          → pop n q ≡ done (some (x, record q { head = next n q.head }))
      taken x xs h =
          rw
            (
              empty_test n q (x ∷ xs) h ∙ ne→== (suc (length xs)) 0 (λ e. omega (arith, e)),
              first x xs h,
            )
            refl

      further : (k : ℕ) → ((q.head + 1) % n + k) % n ≡ (q.head + suc k) % n
      further k = mod-add-mod (q.head + 1) n k ∙ ap (λ t. t % n) sum
        where
          sum : q.head + 1 + k ≡ q.head + suc k
          sum = omega arith

      rest :
          (x : A) (xs : List A)
          → Holds n q (x ∷ xs)
          → Holds n (record q { head = next n q.head }) xs
      rest x xs h = record {
        sized = h.sized;
        head_in = mod-lt (q.head + 1) (omega (arith, h.head_in));
        room = omega (arith, h.room);
        tail_at = h.tail_at ∙ sym (further (length xs));
        at = λ k y e. ap (get_elem? q.slots) (further k) ∙ h.at (suc k) y e;
      }
