-- ===== src/Net/TimerQueue/Renewed.antt =====
-- What becomes of the expired timers at the end of `handleRead` in Net/TimerQueue, one after another.
use czy_net_frame.Common.{
  ℕ, ◌+◌, ◌≡◌, refl, sym, ap, ap₂, ◌∙◌, subst, ◌≢◌, ◌⊎◌, inl, inr, Bool, true, false, not, ◌&&◌,
  Option, none, some, List, [], ◌∷◌, update, update_self, update_ne,
}
use czy_net_frame.Net.TimerQueue.{Pair, has, set_insert, Timer, TimerQueue}
use czy_net_frame.Net.TimerQueue.Sets.{
  In, In-cases, In-insert, In-insert_self, In-insert_old, In-head, In-tail, true≢false,
}
use czy_net_frame.Net.TimerQueue.Matching.{timer_eq}

-- An expired timer begins again if it repeats and was not cancelled.
abbrev pub goes_again : TimerQueue → Pair → Timer → Bool
goes_again q e t = t.repeat && not (has (e.1, t.sequence) q.canceling)

-- What `reset` makes of the expired timers of `es`, and of nothing else.
pub record Renewed (q : TimerQueue) (es : List Pair) (now : ℕ) (q' : TimerQueue) : Type 0 where
  pub begun :
      (e : Pair) (t : Timer)
      → In e es
      → q.timers e.1 ≡ some t
      → goes_again q e t ≡ true
      → (q'.timers e.1 ≡ some (record t { expiration = now + t.interval }))
        × In (now + t.interval, e.1) q'.time_list
  pub deleted :
      (e : Pair) (t : Timer)
      → In e es
      → q.timers e.1 ≡ some t
      → goes_again q e t ≡ false
      → q'.timers e.1 ≡ none
  pub others : (a : ℕ) → ((e : Pair) → In e es → e.1 ≢ a) → q'.timers a ≡ q.timers a
  pub stay : (x : Pair) → In x q.time_list → In x q'.time_list
  pub new :
      (x : Pair)
      → In x q'.time_list
      → In x q.time_list
        ⊎ ((e : Pair) × (t : Timer) × In e es
            × (q.timers e.1 ≡ some t)
            × (goes_again q e t ≡ true)
            × (x ≡ (now + t.interval, e.1)))

pub Renewed-nil : (q : TimerQueue) (now : ℕ) → Renewed q [] now q
Renewed-nil q now = record {
  begun = λ e t i. absurd (true≢false (sym i));
  deleted = λ e t i. absurd (true≢false (sym i));
  others = λ a h. refl;
  stay = λ x i. i;
  new = λ x i. inl i;
}

-- One timer, and then the others, from the queue that it leaves.
module _ (q : TimerQueue) (e : Pair) (es : List Pair) (now : ℕ) (t : Timer)
    (p : q.timers e.1 ≡ some t) (once : (x : Pair) → In x es → x.1 ≢ e.1) where
  abbrev pub again : Timer
  again = record t { expiration = now + t.interval }

  abbrev pub begun_one : TimerQueue
  begun_one = record q {
    timers = update q.timers e.1 (some again);
    time_list = set_insert (now + t.interval, e.1) q.time_list;
    active = set_insert (e.1, t.sequence) q.active;
  }

  abbrev pub deleted_one : TimerQueue
  deleted_one = record q { timers = update q.timers e.1 none }

  back : (o : Option Timer) (x : Pair) → In x es → update q.timers e.1 o x.1 ≡ q.timers x.1
  back o x i = update_ne q.timers e.1 o x.1 (once x i)

  timer_same : (x : Pair) (u : Timer) → x ≡ e → q.timers x.1 ≡ some u → u ≡ t
  timer_same x u s f = timer_eq (q.timers x.1) u t f (ap (λ (z : Pair). q.timers z.1) s ∙ p)

  again_same :
      (x : Pair) (u : Timer) → x ≡ e → q.timers x.1 ≡ some u → goes_again q x u ≡ goes_again q e t
  again_same x u s f = ap₂ (goes_again q) s (timer_same x u s f)

  pub Renewed-begun :
      goes_again q e t ≡ true
      → (q' : TimerQueue) → Renewed begun_one es now q'
      → Renewed q (e ∷ es) now q'
  Renewed-begun y q' r = record {
    begun = λ x u i f g. elim (In-cases x e es i) [
      | inl s ↦
          let kept = r.others e.1 once ∙ update_self q.timers e.1 (some again) in
          let there = r.stay _ (In-insert_self (now + t.interval, e.1) q.time_list) in
          subst
            (λ (z : Pair × Timer).
              (q'.timers z.0.1 ≡ some (record (z.1) { expiration = now + z.1.interval }))
              × In (now + z.1.interval, z.0.1) q'.time_list)
            (λ k. (sym s k, sym (timer_same x u s f) k)) (kept, there)
      | inr j ↦ r.begun x u j (back (some again) x j ∙ f) g
    ];
    deleted = λ x u i f g. elim (In-cases x e es i) [
      | inl s ↦ absurd (true≢false (sym y ∙ sym (again_same x u s f) ∙ g))
      | inr j ↦ r.deleted x u j (back (some again) x j ∙ f) g
    ];
    others = λ a h.
        r.others a (λ x i. h x (In-tail x e es i))
        ∙ update_ne q.timers e.1 (some again) a (λ s. h e (In-head e es) (sym s));
    stay = λ x i. r.stay x (In-insert_old (now + t.interval, e.1) x q.time_list i);
    new = λ x i. elim (r.new x i) [
      | inl j ↦ elim (In-insert (now + t.interval, e.1) x q.time_list j) [
        | inl s ↦ inr (e, t, In-head e es, p, y, s)
        | inr old ↦ inl old
      ]
      | inr (f, u, j, g, c, s) ↦ inr (f, u, In-tail f e es j, sym (back (some again) f j) ∙ g, c, s)
    ];
  }

  pub Renewed-deleted :
      goes_again q e t ≡ false
      → (q' : TimerQueue) → Renewed deleted_one es now q'
      → Renewed q (e ∷ es) now q'
  Renewed-deleted z q' r = record {
    begun = λ x u i f g. elim (In-cases x e es i) [
      | inl s ↦ absurd (true≢false (sym g ∙ again_same x u s f ∙ z))
      | inr j ↦ r.begun x u j (back none x j ∙ f) g
    ];
    deleted = λ x u i f g. elim (In-cases x e es i) [
      | inl s ↦
          subst (λ (x : Pair). q'.timers x.1 ≡ none) (sym s)
            (r.others e.1 once ∙ update_self q.timers e.1 none)
      | inr j ↦ r.deleted x u j (back none x j ∙ f) g
    ];
    others = λ a h.
        r.others a (λ x i. h x (In-tail x e es i))
        ∙ update_ne q.timers e.1 none a (λ s. h e (In-head e es) (sym s));
    stay = r.stay;
    new = λ x i. elim (r.new x i) [
      | inl j ↦ inl j
      | inr (f, u, j, g, c, s) ↦ inr (f, u, In-tail f e es j, sym (back none f j) ∙ g, c, s)
    ];
  }
