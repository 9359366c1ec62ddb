-- ===== src/Net/TimerQueue/Renewal.antt =====
-- The end of `handleRead` in Net/TimerQueue: expired timers begin again or are deleted.
use czy_net_frame.Common.{
  ℕ, ◌+◌, ◌-◌, ◌^◌, ◌<◌, ◌≡◌, refl, sym, ap, ◌∙◌, subst, ◌≢◌, inl, inr, Bool, true, false, not,
  ◌&&◌, Option, none, some, List, [], ◌∷◌, arith, ltb, ◌==◌, if◌then◌else◌, lt→ltb, Bool-cases,
  ◌>>=◌, Outcome, done, update, update_self, update_ne, ==_refl,
}
use czy_net_frame.Net.TimerQueue.{
  Pair, has, set_insert, Timer, TimerQueue, deref, sizes_agree, is_earliest, insert, restart, renew,
  rearm, reset, end_read,
}
use czy_net_frame.Net.TimerQueue.Sets.{In, In-insert, In-head, In-tail, true≢false}
use czy_net_frame.Net.TimerQueue.Renewed.{
  goes_again, Renewed, Renewed-nil, Renewed-begun, Renewed-deleted,
}
use czy_net_frame.Net.TimerQueue.Matching.{Match, insert-Match, update-Match}
use czy_net_frame.Net.TimerQueue.Adding.{OnTime, Good, not-In}

-- Timers that are there but in neither set, each once.
abbrev pub Detached : (ℕ → Option Timer) → List Pair → List Pair → Type 0
Detached timers active [] = Unit
Detached timers active (e ∷ es) =
    ((t : Timer) × (timers e.1 ≡ some t))
    × (e.1 < 2 ^ 64 - 1)
    × ((s : ℕ) → has (e.1, s) active ≡ false)
    × ((x : Pair) → In x es → x.1 ≢ e.1)
    × Detached timers active es

-- No pending timer has an expiration that is not valid.
abbrev pub IsValid : List Pair → Type 0
IsValid list = (e : Pair) → In e list → 0 < e.0

out_of_list :
    (timers : ℕ → Option Timer) (list active : List Pair) (a : ℕ)
    → Match timers list active
    → ((s : ℕ) → has (a, s) active ≡ false)
    → (time : ℕ) → has (time, a) list ≡ false
out_of_list timers list active a m out time =
    not-In (time, a) list
      (λ i. let (t, _, _, k, _) = m.entries (time, a) i in true≢false (sym k ∙ out t.sequence))

-- The other timers stay as they are.
Detached-update :
    (timers : ℕ → Option Timer) (active active' : List Pair) (a : ℕ) (o : Option Timer)
    (es : List Pair)
    → ((x : Pair) → In x es → x.1 ≢ a)
    → ((b s : ℕ) → b ≢ a → has (b, s) active ≡ false → has (b, s) active' ≡ false)
    → Detached timers active es
    → Detached (update timers a o) active' es
Detached-update timers active active' a o [] ne keep d = tt
Detached-update timers active active' a o (e ∷ es) ne keep (t, low, out, once, d) = (
  (t.0, update_ne timers a o e.1 (ne e (In-head e es)) ∙ t.1),
  low,
  λ s. keep e.1 s (ne e (In-head e es)) (out s),
  once,
  Detached-update timers active active' a o es (λ x i. ne x (In-tail x e es i)) keep d,
)

-- `insert` of a timer that is in neither set.
insert-passes :
    (q : TimerQueue) (a : ℕ) (t : Timer)
    → Match q.timers q.time_list q.active
    → q.timers a ≡ some t
    → a < 2 ^ 64 - 1
    → ((s : ℕ) → has (a, s) q.active ≡ false)
    → (insert q a
        ≡ done (
          is_earliest t.expiration q.time_list,
          record q {
            time_list = set_insert (t.expiration, a) q.time_list;
            active = set_insert (a, t.sequence) q.active;
          },
        ))
      × Match q.timers
          (set_insert (t.expiration, a) q.time_list)
          (set_insert (a, t.sequence) q.active)
unfolding insert deref sizes_agree
insert-passes q a t m e low out =
    let absent = out_of_list q.timers q.time_list q.active a m out t.expiration in
    let both = insert-Match q.timers q.time_list q.active m a t e low absent (out t.sequence) in
    (rw (agree _ _ m.sizes, e, absent, out t.sequence, agree _ _ both.sizes) refl, both)
  where
    agree : (m n : ℕ) → m ≡ n → (m == n) ≡ true
    agree m n p = rw p (==_refl n)

abbrev Renews : TimerQueue → List Pair → ℕ → Outcome TimerQueue → Type 0
Renews q es now o =
    (q' : TimerQueue) × (o ≡ done q')
    × Match q'.timers q'.time_list q'.active
    × IsValid q'.time_list
    × Renewed q es now q'

with_Renewed :
    (q q1 : TimerQueue) (es es1 : List Pair) (now : ℕ) (o : Outcome TimerQueue)
    → ((q' : TimerQueue) → Renewed q1 es1 now q' → Renewed q es now q')
    → Renews q1 es1 now o
    → Renews q es now o
with_Renewed q q1 es es1 now o f (q', e, m, v, r) = (q', e, m, v, f q' r)

-- What `renew` does with a timer once it is read.
onward : TimerQueue → Pair → List Pair → ℕ → Timer → Outcome TimerQueue
unfolding renew restart
onward q e es now t =
    (if t.repeat && not (has (e.1, t.sequence) q.canceling)
      then (insert (restart q e.1 t now) e.1 >>= λ r. done r.1)
      else done (record q { timers = update q.timers e.1 none }))
    >>= λ q'. renew q' es now

chosen :
    (q : TimerQueue) (e : Pair) (es : List Pair) (now : ℕ) (t : Timer) (z : TimerQueue)
    → (t.repeat && not (has (e.1, t.sequence) q.canceling)) ≡ true
    → (insert (restart q e.1 t now) e.1 >>= λ r. done r.1) ≡ done z
    → onward q e es now t ≡ renew z es now
unfolding onward
chosen q e es now t z y h = pick (t.repeat && not (has (e.1, t.sequence) q.canceling)) _ _ y h
  where
    pick :
        (b : Bool) (x o : Outcome TimerQueue)
        → b ≡ true
        → x ≡ done z
        → ((if b then x else o) >>= λ q'. renew q' es now) ≡ renew z es now
    pick b x o f g = rw (f, g) refl

dropped :
    (q : TimerQueue) (e : Pair) (es : List Pair) (now : ℕ) (t : Timer)
    → goes_again q e t ≡ false
    → onward q e es now t ≡ renew (record q { timers = update q.timers e.1 none }) es now
unfolding onward
dropped q e es now t z = pick (goes_again q e t) _ z
  where
    pick :
        (b : Bool) (x : Outcome TimerQueue)
        → b ≡ false
        → ((if b then x else done (record q { timers = update q.timers e.1 none })) >>= λ q'.
            renew q' es now)
          ≡ renew (record q { timers = update q.timers e.1 none }) es now
    pick b x f = rw f refl

renew-Match :
    (es : List Pair) (q : TimerQueue) (now : ℕ)
    → 0 < now
    → Match q.timers q.time_list q.active
    → IsValid q.time_list
    → Detached q.timers q.active es
    → Renews q es now (renew q es now)
unfolding renew deref restart onward
renew-Match [] q now positive m v d = (q, refl, m, v, Renewed-nil q now)
renew-Match (e ∷ es) q now positive m v ((t, p), low, out, once, d) =
    elim (Bool-cases (t.repeat && not (has (e.1, t.sequence) q.canceling))) [
      | inl y ↦
          let t' : Timer = record t { expiration = now + t.interval } in
          let q1 : TimerQueue = record q { timers = update q.timers e.1 (some t') } in
          let m1 = update-Match q.timers q.time_list q.active m e.1 (some t') absent in
          let (passes, m2) =
            insert-passes q1 e.1 t' m1 (update_self q.timers e.1 (some t')) low out in
          let q2 : TimerQueue = record q1 {
            time_list = set_insert (now + t.interval, e.1) q.time_list;
            active = set_insert (e.1, t.sequence) q.active;
          } in
          subst (Renews q (e ∷ es) now)
            (sym (
              first (q.timers e.1) t p
              ∙ chosen q e es now t q2 y (ap (λ o. o >>= λ r. done r.1) passes)))
            (with_Renewed q q2 (e ∷ es) es now (renew q2 es now)
              (Renewed-begun q e es now t p once y)
              (renew-Match es q2 now positive m2 (valid t.interval) (
                Detached-update q.timers q.active (set_insert (e.1, t.sequence) q.active) e.1
                  (some t') es once (kept t.sequence) d)))
      | inr z ↦
          let q1 : TimerQueue = record q { timers = update q.timers e.1 none } in
          subst (Renews q (e ∷ es) now) (sym (first (q.timers e.1) t p ∙ dropped q e es now t z)) (
            with_Renewed q q1 (e ∷ es) es now (renew q1 es now)
              (Renewed-deleted q e es now t p once z)
              (renew-Match es q1 now positive
                (update-Match q.timers q.time_list q.active m e.1 none absent) v
                (Detached-update q.timers q.active q.active e.1 none es once (λ b s ne h. h) d)))
    ]
  where
    first :
        (o : Option Timer) (t : Timer)
        → o ≡ some t
        → (deref o >>= onward q e es now) ≡ onward q e es now t
    first o t f = rw f refl

    absent : (time : ℕ) → has (time, e.1) q.time_list ≡ false
    absent = out_of_list q.timers q.time_list q.active e.1 m out

    valid : (interval : ℕ) → IsValid (set_insert (now + interval, e.1) q.time_list)
    valid interval x i = elim (In-insert (now + interval, e.1) x q.time_list i) [
      | inl f ↦ subst (λ (r : Pair). 0 < r.0) (sym f) (omega (arith, positive))
      | inr j ↦ v x j
    ]

    kept :
        (sequence b s : ℕ)
        → b ≢ e.1
        → has (b, s) q.active ≡ false
        → has (b, s) (set_insert (e.1, sequence) q.active) ≡ false
    kept sequence b s ne h =
        not-In (b, s) (set_insert (e.1, sequence) q.active)
          (λ i. elim (In-insert (e.1, sequence) (b, s) q.active i) [
            | inl f ↦ ne (ap (λ (r : Pair). r.0) f)
            | inr j ↦ true≢false (sym j ∙ h)
          ])

rearm-OnTime : (q : TimerQueue) (list : List Pair) → IsValid list → OnTime (rearm q list).armed list
unfolding rearm
rearm-OnTime q [] v = tt
rearm-OnTime q (e ∷ es) v = rw (lt→ltb 0 e.0 (v e (In-head e es))) (e.0, refl, omega arith)

rearm-same :
    (q : TimerQueue) (list : List Pair)
    → ((rearm q list).timers ≡ q.timers)
      × ((rearm q list).time_list ≡ q.time_list)
      × ((rearm q list).active ≡ q.active)
unfolding rearm
rearm-same q [] = (refl, refl, refl)
rearm-same q (e ∷ es) = elim (Bool-cases (ltb 0 e.0)) [
  | inl y ↦ rw y (refl, refl, refl)
  | inr z ↦ rw z (refl, refl, refl)
]

-- After the callbacks of the expired timers, which are still there and in neither set, whatever
-- else the callbacks added or cancelled: no assertion fails and no deleted timer is used; each
-- expired timer that repeats and was not cancelled is pending again at now and its interval,
-- each other one is deleted, and all other timers and entries stay; the two sets name the same
-- timers, and the descriptor is set for no later than the first of them. Times are above 0, as
-- those after the epoch are.
pub end_read-Good :
    (q : TimerQueue) (expired : List Pair) (now : ℕ)
    → 0 < now
    → Match q.timers q.time_list q.active
    → IsValid q.time_list
    → Detached q.timers q.active expired
    → (q' : TimerQueue) × (end_read q expired now ≡ done q') × Good q' × Renewed q expired now q'
unfolding end_read reset
end_read-Good q expired now positive m v d =
    let (q', p, n, w, c) =
      renew-Match expired (record q { calling_expired = false }) now positive m v d in
    let (s, l, u) = rearm-same q' q'.time_list in
    (
      rearm q' q'.time_list,
      rw p refl,
      record {
        matching =
            subst (λ (x : (ℕ → Option Timer) × List Pair × List Pair). Match x.0 x.1 x.2)
              (λ i. (sym s i, sym l i, sym u i)) n;
        on_time =
            subst (OnTime (rearm q' q'.time_list).armed) (sym l) (rearm-OnTime q' q'.time_list w);
      },
      record {
        begun = λ e t i f g.
            let b = c.begun e t i f g in
            (ap (λ h. h e.1) s ∙ b.0, subst (In (now + t.interval, e.1)) (sym l) b.1);
        deleted = λ e t i f g. ap (λ h. h e.1) s ∙ c.deleted e t i f g;
        others = λ a h. ap (λ g. g a) s ∙ c.others a h;
        stay = λ x i. subst (In x) (sym l) (c.stay x i);
        new = λ x i. c.new x (subst (In x) l i);
      },
    )
