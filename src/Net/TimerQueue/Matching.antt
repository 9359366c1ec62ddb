-- ===== src/Net/TimerQueue/Matching.antt =====
-- What it means that the two sets of Net/TimerQueue name the same timers.
use czy_net_frame.Common.{
  ℕ, suc, ◌-◌, ◌^◌, ◌<◌, ◌≡◌, refl, sym, ap, ◌∙◌, subst, inl, inr, false, Option, none, some, List,
  arith, length, update, update_ne,
}
use czy_net_frame.Net.TimerQueue.{Pair, has, set_insert, set_erase, Timer}
use czy_net_frame.Net.TimerQueue.Sets.{
  In, Sorted, In-insert, In-insert_self, In-insert_old, length-set_insert, Sorted-insert, In-erase,
  In-erase_other, length-set_erase, Sorted-erase, true≢false,
}

-- The timer of an entry, and what the other set says of it.
abbrev pub Entry : (ℕ → Option Timer) → List Pair → Pair → Type 0
Entry timers active e =
    (t : Timer) × (timers e.1 ≡ some t)
    × (t.expiration ≡ e.0)
    × In (e.1, t.sequence) active
    × (e.1 < 2 ^ 64 - 1)

abbrev pub Active : (ℕ → Option Timer) → List Pair → Pair → Type 0
Active timers list id =
    (t : Timer) × (timers id.0 ≡ some t) × (t.sequence ≡ id.1) × In (t.expiration, id.0) list

pub record Match (timers : ℕ → Option Timer) (list active : List Pair) : Type 0 where
  pub list_sorted : Sorted list
  pub active_sorted : Sorted active
  pub sizes : length list ≡ length active
  pub entries : (e : Pair) → In e list → Entry timers active e
  pub actives : (id : Pair) → In id active → Active timers list id

-- The timer at an address is one only.
pub timer_eq : (o : Option Timer) (t u : Timer) → o ≡ some t → o ≡ some u → t ≡ u
timer_eq o t u e f = ap (value t) (sym e ∙ f)
  where
    value : Timer → Option Timer → Timer
    value d none = d
    value d (some x) = x

module _ (timers : ℕ → Option Timer) (list active : List Pair) (m : Match timers list active) where
  -- A new timer, whose address is in neither set, comes into both.
  pub insert-Match :
      (a : ℕ) (t : Timer)
      → timers a ≡ some t
      → a < 2 ^ 64 - 1
      → has (t.expiration, a) list ≡ false
      → has (a, t.sequence) active ≡ false
      → Match timers (set_insert (t.expiration, a) list) (set_insert (a, t.sequence) active)
  insert-Match a t e low p q = record {
    list_sorted = Sorted-insert (t.expiration, a) list m.list_sorted;
    active_sorted = Sorted-insert (a, t.sequence) active m.active_sorted;
    sizes =
        length-set_insert (t.expiration, a) list p
        ∙ ap suc m.sizes
        ∙ sym (length-set_insert (a, t.sequence) active q);
    entries = λ x i. elim (In-insert (t.expiration, a) x list i) [
      | inl f ↦
          subst (Entry timers (set_insert (a, t.sequence) active)) (sym f)
            (t, e, refl, In-insert_self (a, t.sequence) active, low)
      | inr j ↦
          let (u, g, h, k, l) = m.entries x j in
          (u, g, h, In-insert_old (a, t.sequence) (x.1, u.sequence) active k, l)
    ];
    actives = λ x i. elim (In-insert (a, t.sequence) x active i) [
      | inl f ↦
          subst (Active timers (set_insert (t.expiration, a) list)) (sym f)
            (t, e, refl, In-insert_self (t.expiration, a) list)
      | inr j ↦
          let (u, g, h, k) = m.actives x j in
          (u, g, h, In-insert_old (t.expiration, a) (u.expiration, x.0) list k)
    ];
  }

  -- A timer leaves both sets.
  pub erase-Match :
      (a : ℕ) (t : Timer)
      → timers a ≡ some t
      → In (t.expiration, a) list
      → In (a, t.sequence) active
      → Match timers (set_erase (t.expiration, a) list) (set_erase (a, t.sequence) active)
  erase-Match a t e p q = record {
    list_sorted = Sorted-erase (t.expiration, a) list m.list_sorted;
    active_sorted = Sorted-erase (a, t.sequence) active m.active_sorted;
    sizes =
        shorter (length-set_erase (t.expiration, a) list p)
          (length-set_erase (a, t.sequence) active q);
    entries = λ x i.
        let (j, ne) = In-erase (t.expiration, a) x list m.list_sorted i in
        let (u, g, h, k, l) = m.entries x j in
        (
          u,
          g,
          h,
          In-erase_other (a, t.sequence) (x.1, u.sequence) active k
              (λ f. ne (other x u g h (ap (λ (r : Pair). r.0) f))),
          l,
        );
    actives = λ x i.
        let (j, ne) = In-erase (a, t.sequence) x active m.active_sorted i in
        let (u, g, h, k) = m.actives x j in
        (
          u,
          g,
          h,
          In-erase_other (t.expiration, a) (u.expiration, x.0) list k
              (λ f. ne (twin x u g h (ap (λ (r : Pair). r.1) f))),
        );
  }
    where
      shorter :
          suc (length (set_erase (t.expiration, a) list)) ≡ length list
          → suc (length (set_erase (a, t.sequence) active)) ≡ length active
          → length (set_erase (t.expiration, a) list) ≡ length (set_erase (a, t.sequence) active)
      shorter x y = omega (arith, x, y, m.sizes)

      other :
          (x : Pair) (u : Timer)
          → timers x.1 ≡ some u
          → u.expiration ≡ x.0
          → x.1 ≡ a
          → x ≡ (t.expiration, a)
      other x u g h f =
          let s : u ≡ t = timer_eq (timers a) u t (ap timers (sym f) ∙ g) e in
          λ i. ((sym h ∙ ap (λ (z : Timer). z.expiration) s) i, f i)

      twin :
          (x : Pair) (u : Timer)
          → timers x.0 ≡ some u
          → u.sequence ≡ x.1
          → x.0 ≡ a
          → x ≡ (a, t.sequence)
      twin x u g h f =
          let s : u ≡ t = timer_eq (timers a) u t (ap timers (sym f) ∙ g) e in
          λ i. (f i, (sym h ∙ ap (λ (z : Timer). z.sequence) s) i)

  -- A timer in neither set is deleted or changed.
  pub update-Match :
      (a : ℕ) (o : Option Timer)
      → ((time : ℕ) → has (time, a) list ≡ false)
      → Match (update timers a o) list active
  update-Match a o out = record {
    list_sorted = m.list_sorted;
    active_sorted = m.active_sorted;
    sizes = m.sizes;
    entries = λ x i.
        let (u, g, h, k, l) = m.entries x i in
        (
          u,
          update_ne timers a o x.1
                (λ f. true≢false (sym i ∙ ap (λ y. has (x.0, y) list) f ∙ out x.0))
              ∙ g,
          h,
          k,
          l,
        );
    actives = λ x i.
        let (u, g, h, k) = m.actives x i in
        (
          u,
          update_ne timers a o x.0 (λ f.
                true≢false (sym k ∙ ap (λ y. has (u.expiration, y) list) f ∙ out u.expiration))
              ∙ g,
          h,
          k,
        );
  }
