-- ===== src/Net/TimerQueue/Expiry.antt =====
-- `getExpired` of Net/TimerQueue.
use czy_net_frame.Common.{
  ℕ, ◌-◌, ◌^◌, ◌≤◌, ◌<◌, ◌≡◌, refl, sym, ap, ◌∙◌, subst, inl, inr, Bool, true, false, Option, List,
  [], ◌∷◌, ◌++◌, arith, ◌==◌, if◌then◌else◌, lt→ltb, Bool-cases, done, ==_refl,
}
use czy_net_frame.Net.TimerQueue.{
  Pair, before, set_erase, Timer, TimerQueue, deref, sizes_agree, split_at, is_later, erase_active,
  get_expired,
}
use czy_net_frame.Net.TimerQueue.Sets.{
  In, Sorted, In-head, In-tail, In-cases, same_refl, true≢false,
}
use czy_net_frame.Net.TimerQueue.Matching.{Match, erase-Match}

-- One step of `lower_bound`, by the test that it makes.
cut : Bool → Pair → Pair → List Pair → List Pair × List Pair
unfolding split_at
cut t x e xs = if t then (x ∷ (split_at e xs).0, (split_at e xs).1) else ([], x ∷ xs)

-- The two parts of `lower_bound`.
split-append : (e : Pair) (list : List Pair) → (split_at e list).0 ++ (split_at e list).1 ≡ list
unfolding split_at
split-append e [] = refl
split-append e (x ∷ xs) = elim (Bool-cases (before x e)) [
  | inl y ↦ rw y (ap (◌∷◌ x) (split-append e xs))
  | inr z ↦ rw z refl
]

split-before : (e y : Pair) (list : List Pair) → In y (split_at e list).0 → before y e ≡ true
unfolding split_at cut
split-before e y [] h = absurd (true≢false (sym h))
split-before e y (x ∷ xs) h = elim (Bool-cases (before x e)) [
  | inl b ↦ elim (In-cases y x (split_at e xs).0 (subst (λ t. In y (cut t x e xs).0) b h)) [
    | inl p ↦ subst (λ t. before t e ≡ true) (sym p) b
    | inr q ↦ split-before e y xs q
  ]
  | inr z ↦ absurd (true≢false (sym (subst (λ t. In y (cut t x e xs).0) z h)))
]

-- Behind the cut nothing comes before `e`.
split-after :
    (e y : Pair) (list : List Pair) → Sorted list → In y (split_at e list).1 → before y e ≡ false
unfolding split_at cut
split-after e y [] s h = absurd (true≢false (sym h))
split-after e y (x ∷ xs) (f, s) h = elim (Bool-cases (before x e)) [
  | inl b ↦ split-after e y xs s (subst (λ t. In y (cut t x e xs).1) b h)
  | inr z ↦ elim (In-cases y x xs (subst (λ t. In y (cut t x e xs).1) z h)) [
    | inl p ↦ subst (λ t. before t e ≡ false) (sym p) z
    | inr q ↦ behind x y e (f y q) z
  ]
]
  where
    behind : (x y e : Pair) → before x y ≡ true → before x e ≡ false → before y e ≡ false
    behind (a, b) (c, d) (g, h) p q = ground arith

-- The expired timers are active, and leave the active set one by one.
erase_active-Match :
    (timers : ℕ → Option Timer) (es rest active : List Pair)
    → Match timers (es ++ rest) active
    → (left : List Pair) × (erase_active timers es active ≡ done left) × Match timers rest left
unfolding erase_active deref
erase_active-Match timers [] rest active m = (active, refl, m)
erase_active-Match timers (e ∷ es) rest active m =
    let (t, p, x, k, _) = m.entries e (In-head e (es ++ rest)) in
    let key : ◌≡◌ {A = Pair} (t.expiration, e.1) e = λ i. (x i, e.1) in
    let less =
      erase-Match timers (e ∷ (es ++ rest)) active m e.1 t p
        (subst (λ y. In y (e ∷ (es ++ rest))) (sym key) (In-head e (es ++ rest))) k in
    let tail : set_erase (t.expiration, e.1) (e ∷ (es ++ rest)) ≡ es ++ rest =
      ap (λ y. set_erase y (e ∷ (es ++ rest))) key ∙ rw (same_refl e) refl in
    let (left, q, n) =
      erase_active-Match timers es rest (set_erase (e.1, t.sequence) active)
        (subst (λ l. Match timers l (set_erase (e.1, t.sequence) active)) tail less) in
    (left, rw (p, k) q, n)

-- `getExpired` passes all its assertions; it returns the timers whose expiration is not behind
-- `now`, the earliest first, and leaves those behind it, in both sets; no timer is deleted.
pub get_expired-Match :
    (q : TimerQueue) (now : ℕ)
    → Match q.timers q.time_list q.active
    → (expired : List Pair) × (q' : TimerQueue) × (get_expired q now ≡ done (expired, q'))
      × Match q'.timers q'.time_list q'.active
      × (expired ++ q'.time_list ≡ q.time_list)
      × (q'.timers ≡ q.timers)
      × ((e : Pair) → In e expired → e.0 ≤ now)
      × ((e : Pair) → In e q'.time_list → now < e.0)
unfolding get_expired sizes_agree is_later
get_expired-Match q now m =
    let (left, p, n) =
      erase_active-Match q.timers es rest q.active
        (subst (λ l. Match q.timers l q.active) (sym whole) m) in
    (
      es,
      record q { time_list = rest; active = left },
      rw (is_later_rest rest after, p, agree _ _ n.sizes) refl,
      n,
      whole,
      refl,
      λ e i. earlier e (split-before (now, 2 ^ 64 - 1) e q.time_list i),
      after,
    )
  where
    es : List Pair
    es = (split_at (now, 2 ^ 64 - 1) q.time_list).0

    rest : List Pair
    rest = (split_at (now, 2 ^ 64 - 1) q.time_list).1

    whole : es ++ rest ≡ q.time_list
    whole = split-append (now, 2 ^ 64 - 1) q.time_list

    earlier : (e : Pair) → before e (now, 2 ^ 64 - 1) ≡ true → e.0 ≤ now
    earlier (a, b) h = ground arith

    In-right : (e : Pair) (xs ys : List Pair) → In e ys → In e (xs ++ ys)
    In-right e [] ys h = h
    In-right e (x ∷ xs) ys h = In-tail e x (xs ++ ys) (In-right e xs ys h)

    later : (e : Pair) → e.1 < 2 ^ 64 - 1 → before e (now, 2 ^ 64 - 1) ≡ false → now < e.0
    later (a, b) low h = ground arith

    after : (e : Pair) → In e rest → now < e.0
    after e i =
        let (t, _, _, _, low) = m.entries e (subst (In e) whole (In-right e es rest i)) in
        later e low (split-after (now, 2 ^ 64 - 1) e q.time_list m.list_sorted i)

    is_later_rest : (ys : List Pair) → ((e : Pair) → In e ys → now < e.0) → is_later now ys ≡ true
    is_later_rest [] f = refl
    is_later_rest (y ∷ ys) f = lt→ltb now y.0 (f y (In-head y ys))

    agree : (a b : ℕ) → a ≡ b → (a == b) ≡ true
    agree a b p = rw p (==_refl b)
