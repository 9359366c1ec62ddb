-- ===== src/Net/TimerQueue/Adding.antt =====
-- `addTimerInLoop` and `cancelInLoop` of Net/TimerQueue.
use czy_net_frame.Common.{
  ℕ, ◌-◌, ◌^◌, ◌≤◌, ◌<◌, ◌≡◌, refl, sym, ap, ◌∙◌, subst, ◌≢◌, ◌↔◌, ◌⊎◌, inl, inr, Bool, true, false,
  ◌&&◌, Option, none, some, List, [], ◌∷◌, arith, ltb, ◌==◌, if◌then◌else◌, ltb→le, Bool-cases,
  length, ◌>>=◌, Outcome, done, update, ==_refl,
}
use czy_net_frame.Net.TimerQueue.{
  Pair, before, same, has, set_insert, set_erase, Timer, TimerQueue, deref, sizes_agree,
  is_earliest, insert, add_timer_in_loop, cancel_active, cancel_other, cancel_in_loop,
}
use czy_net_frame.Net.TimerQueue.Sets.{
  In, Sorted, In-insert, In-insert_self, In-insert_old, In-erase, In-erase_other, In-head,
  true≢false,
}
use czy_net_frame.Net.TimerQueue.Matching.{Match, timer_eq, insert-Match, erase-Match, update-Match}

-- The descriptor is set for a time that is not behind the first expiration.
abbrev pub OnTime : Option ℕ → List Pair → Type 0
OnTime o [] = Unit
OnTime o (e ∷ es) = (u : ℕ) × (o ≡ some u) × (u ≤ e.0)

pub record Good (q : TimerQueue) : Type 0 where
  pub matching : Match q.timers q.time_list q.active
  pub on_time : OnTime q.armed q.time_list

insert-OnTime :
    (o : Option ℕ) (e : Pair) (list : List Pair)
    → OnTime o list
    → OnTime (if is_earliest e.0 list then some e.0 else o) (set_insert e list)
unfolding is_earliest
insert-OnTime o e [] h = (e.0, refl, omega arith)
insert-OnTime o e (x ∷ xs) h = elim (Bool-cases (ltb e.0 x.0)) [
  | inl y ↦ rw y (e.0, refl, omega arith)
  | inr z ↦ rw z (elim (Bool-cases ((e.0 == x.0) && ltb e.1 x.1)) [
    | inl c ↦ rw c (h.0, h.1, omega (arith, h.2, ltb→le e.0 x.0 z))
    | inr d ↦ rw d (elim (Bool-cases (before x e)) [ inl f ↦ rw f h | inr f ↦ rw f h ])
  ])
]

erase-OnTime :
    (o : Option ℕ) (e : Pair) (list : List Pair)
    → Sorted list
    → OnTime o list
    → OnTime o (set_erase e list)
erase-OnTime o e [] s h = tt
erase-OnTime o e (x ∷ xs) s h = elim (Bool-cases (same e x)) [
  | inl y ↦ rw y (next xs s.0)
  | inr z ↦ rw z h
]
  where
    earlier : (p q : Pair) → before p q ≡ true → p.0 ≤ q.0
    earlier (a, b) (c, d) k = ground arith

    next : (ys : List Pair) → ((y : Pair) → In y ys → before x y ≡ true) → OnTime o ys
    next [] f = tt
    next (y ∷ ys) f = (h.0, h.1, omega (arith, h.2, earlier x y (f y (In-head y ys))))

pub not-In : (e : Pair) (list : List Pair) → (In e list → ⊥) → has e list ≡ false
not-In e list f = elim (Bool-cases (has e list)) [ inl y ↦ absurd (f y) | inr z ↦ z ]

-- A timer with an address of its own, as `new Timer` gives it, is added on the loop's thread: no
-- assertion fails, the pending timers are the old ones and the new one, and the descriptor is set
-- for no later than the first of them.
pub add_timer_in_loop-Good :
    (q : TimerQueue) (a : ℕ) (t : Timer)
    → Good q
    → q.timers a ≡ some t
    → a < 2 ^ 64 - 1
    → has (a, t.sequence) q.active ≡ false
    → (q' : TimerQueue) × (add_timer_in_loop q a ≡ done q')
      × Good q'
      × (q'.timers ≡ q.timers)
      × ((e : Pair) → In e q'.time_list ↔ ((e ≡ (t.expiration, a)) ⊎ In e q.time_list))
unfolding add_timer_in_loop insert deref sizes_agree
add_timer_in_loop-Good q a t g e low fresh =
    elim (Bool-cases (is_earliest t.expiration q.time_list)) [
      | inl y ↦ (
        record added { armed = some t.expiration },
        passes ∙ rw (e, y) refl,
        record {
          matching = both;
          on_time =
              subst (λ b. OnTime (if b then some t.expiration else q.armed) added.time_list) y
                ready;
        },
        refl,
        members,
      )
      | inr z ↦ (
        added,
        passes ∙ rw (e, z) refl,
        record {
          matching = both;
          on_time =
              subst (λ b. OnTime (if b then some t.expiration else q.armed) added.time_list) z
                ready;
        },
        refl,
        members,
      )
    ]
  where
    added : TimerQueue
    added = record q {
      time_list = set_insert (t.expiration, a) q.time_list;
      active = set_insert (a, t.sequence) q.active;
    }

    out : has (t.expiration, a) q.time_list ≡ false
    out =
        not-In (t.expiration, a) q.time_list
          (λ i.
            let (u, p, _, k, _) = g.matching.entries (t.expiration, a) i in
            true≢false (
              sym (
                subst (λ (s : Timer). In (a, s.sequence) q.active) (timer_eq (q.timers a) u t p e)
                  k)
              ∙ fresh))

    both : Match q.timers added.time_list added.active
    both = insert-Match q.timers q.time_list q.active g.matching a t e low out fresh

    ready :
        OnTime
          (if is_earliest t.expiration q.time_list then some t.expiration else q.armed)
          added.time_list
    ready = insert-OnTime q.armed (t.expiration, a) q.time_list g.on_time

    members : (x : Pair) → In x added.time_list ↔ ((x ≡ (t.expiration, a)) ⊎ In x q.time_list)
    members x = (
      In-insert (t.expiration, a) x q.time_list,
      λ h. elim h [
        | inl f ↦
            subst (λ y. In y added.time_list) (sym f) (In-insert_self (t.expiration, a) q.time_list)
        | inr i ↦ In-insert_old (t.expiration, a) x q.time_list i
      ],
    )

    finish : Bool × TimerQueue → Outcome TimerQueue
    finish (changed, q') = deref (q'.timers a) >>= λ u.
        done (if changed then record q' { armed = some u.expiration } else q')

    agree : (m n : ℕ) → m ≡ n → (m == n) ≡ true
    agree m n p = rw p (==_refl n)

    passes : add_timer_in_loop q a ≡ finish (is_earliest t.expiration q.time_list, added)
    passes = rw (agree _ _ g.matching.sizes, e, out, fresh, agree _ _ both.sizes) (rw e refl)

-- In a consistent queue, cancelling an active timer deletes it, takes its entries out of both
-- sets and changes nothing else; cancelling any other timer is noted among the cancelled ones
-- while expired timers are being called, and otherwise changes nothing at all; no assertion
-- fails and the queue stays consistent, its descriptor in time.
pub cancel_in_loop-Good :
    (q : TimerQueue) (id : Pair)
    → Good q
    → (has id q.active ≡ true
        → (q' : TimerQueue) × (cancel_in_loop q id ≡ done q')
          × Good q'
          × (q'.timers ≡ update q.timers id.0 none)
          × ((e : Pair) → In e q'.time_list ↔ (In e q.time_list × (e.1 ≢ id.0)))
          × (q'.active ≡ set_erase id q.active)
          × (q'.canceling ≡ q.canceling)
          × (q'.calling_expired ≡ q.calling_expired)
          × (q'.armed ≡ q.armed))
      × (has id q.active ≡ false
          → (q' : TimerQueue) × (cancel_in_loop q id ≡ done q')
            × Good q'
            × (q.calling_expired ≡ true → q' ≡ record q { canceling = set_insert id q.canceling })
            × (q.calling_expired ≡ false → q' ≡ q))
unfolding cancel_in_loop cancel_active cancel_other deref sizes_agree
cancel_in_loop-Good q id g = (active, other)
  where
    agree : (m n : ℕ) → m ≡ n → (m == n) ≡ true
    agree m n p = rw p (==_refl n)

    active :
        has id q.active ≡ true
        → (q' : TimerQueue) × (cancel_in_loop q id ≡ done q')
          × Good q'
          × (q'.timers ≡ update q.timers id.0 none)
          × ((e : Pair) → In e q'.time_list ↔ (In e q.time_list × (e.1 ≢ id.0)))
          × (q'.active ≡ set_erase id q.active)
          × (q'.canceling ≡ q.canceling)
          × (q'.calling_expired ≡ q.calling_expired)
          × (q'.armed ≡ q.armed)
    active i =
        let (t, p, s, k) = g.matching.actives id i in
        let key : ◌≡◌ {A = Pair} (id.0, t.sequence) id = λ j. (id.0, s j) in
        let left : Match q.timers (set_erase (t.expiration, id.0) q.time_list)
            (set_erase id q.active) =
          subst
            (λ x.
              Match q.timers (set_erase (t.expiration, id.0) q.time_list) (set_erase x q.active))
            key
            (erase-Match q.timers q.time_list q.active g.matching id.0 t p k
              (subst (λ x. In x q.active) (sym key) i)) in
        let gone = gone_from t p in
        let m = update-Match q.timers _ _ left id.0 none (λ time.
          not-In (time, id.0) (set_erase (t.expiration, id.0) q.time_list)
            (λ j. gone (time, id.0) j refl)) in
        (
          record q {
            timers = update q.timers id.0 none;
            time_list = set_erase (t.expiration, id.0) q.time_list;
            active = set_erase id q.active;
          },
          rw (agree _ _ g.matching.sizes, i, p, k, agree _ _ left.sizes) refl,
          record {
            matching = m;
            on_time =
                erase-OnTime q.armed (t.expiration, id.0) q.time_list g.matching.list_sorted
                  g.on_time;
          },
          refl,
          λ e. (
            λ j. (
              (In-erase (t.expiration, id.0) e q.time_list g.matching.list_sorted j).0,
              gone e j,
            ),
            λ (j, ne).
                In-erase_other (t.expiration, id.0) e q.time_list j
                  (λ f. ne (ap (λ (x : Pair). x.1) f)),
          ),
          refl,
          refl,
          refl,
          refl,
        )
      where
        gone_from :
            (t : Timer)
            → q.timers id.0 ≡ some t
            → (e : Pair) → In e (set_erase (t.expiration, id.0) q.time_list)
            → e.1 ≢ id.0
        gone_from t p e j f =
            let (l, ne) = In-erase (t.expiration, id.0) e q.time_list g.matching.list_sorted j in
            let (u, r, h, _, _) = g.matching.entries e l in
            let same_timer : u ≡ t = timer_eq (q.timers id.0) u t (ap q.timers (sym f) ∙ r) p in
            ne (λ i. ((sym h ∙ ap (λ (x : Timer). x.expiration) same_timer) i, f i))

    other :
        has id q.active ≡ false
        → (q' : TimerQueue) × (cancel_in_loop q id ≡ done q')
          × Good q'
          × (q.calling_expired ≡ true → q' ≡ record q { canceling = set_insert id q.canceling })
          × (q.calling_expired ≡ false → q' ≡ q)
    other i = by_flag q.calling_expired refl
      where
        noted : Bool → TimerQueue
        noted b = if b then record q { canceling = set_insert id q.canceling } else q

        still : (b : Bool) → (length (noted b).time_list == length (noted b).active) ≡ true
        still true = agree _ _ g.matching.sizes
        still false = agree _ _ g.matching.sizes

        told : cancel_in_loop q id ≡ done (noted q.calling_expired)
        told = rw (agree _ _ g.matching.sizes, i, still q.calling_expired) refl

        by_flag :
            (b : Bool)
            → q.calling_expired ≡ b
            → (q' : TimerQueue) × (cancel_in_loop q id ≡ done q')
              × Good q'
              × (q.calling_expired ≡ true → q' ≡ record q { canceling = set_insert id q.canceling })
              × (q.calling_expired ≡ false → q' ≡ q)
        by_flag true y = (
          noted true,
          told ∙ ap (λ b. done (noted b)) y,
          record { matching = g.matching; on_time = g.on_time },
          λ _. refl,
          λ h. absurd (true≢false (sym y ∙ h)),
        )
        by_flag false z = (
          noted false,
          told ∙ ap (λ b. done (noted b)) z,
          g,
          λ h. absurd (true≢false (sym h ∙ z)),
          λ _. refl,
        )
