-- ===== src/Base/TimeZone/Lookup/Local.antt =====
-- The search by local time of Base/TimeZone/Lookup, and its return to UTC.
use mathlib.Core.Option.{some-injective}
use czy_net_frame.Common.{
  ℕ, zero, suc, ◌-◌, ◌≤◌, ◌<◌, ◌≡◌, refl, sym, ◌∙◌, subst, inl, inr, Bool, true, false, Option,
  none, some, List, [], ◌∷◌, arith, ◌==◌, if◌then◌else◌, ltb→lt, le→ltb, le→leb, Bool-cases, ==→eq,
  ==→ne, length, get_elem?, All, get_elem?-some, get_elem?-lt, done, ◌+ℤ◌, ◌-ℤ◌, ltb_ℤ, leb_ℤ, ◌≤ℤ◌,
  ◌<ℤ◌, +ℤ_parts, -ℤ_parts, ℤ, pos,
}
use czy_net_frame.Base.TimeZone.{Transition, LocalTime, Data}
use czy_net_frame.Base.TimeZone.Lookup.{
  later_utc, later_local, element, front_type, find_local_time_utc, prior_second, look_back,
  repeated_or_unique, found_local, search_local, choose,
}
use czy_net_frame.Base.TimeZone.Lookup.Bounds.{
  passed, passed_bound, passed-get_elem?, upper_bound-passed,
}
use czy_net_frame.Base.TimeZone.Lookup.Periods.{
  Ascending, IsCut-Ascending, is_before_all-passed, type_at-some, found_utc-suc,
}

-- Every transition names a type of the zone, of which there is one at least, and the transitions are
-- in order on both clocks.
pub record IsZone (d : Data) : Type 0 where
  pub has_type : 0 < length d.localtimes
  pub indices : All (λ t. t.localtime_idx < length d.localtimes) d.transitions
  pub utc_order : Ascending (λ t. t.utctime) d.transitions
  pub local_order : Ascending (λ t. t.localtime) d.transitions

element-done {ℓ} : {A : Type ℓ} (o : Option A) (a : A) → element o ≡ done a → o ≡ some a
unfolding element
element-done none a e = cc
element-done (some b) a e = cc

pub All-get_elem?_at :
    (n : ℕ) (ts : List Transition) (i : ℕ) (t : Transition)
    → All (λ s. s.localtime_idx < n) ts
    → get_elem? ts i ≡ some t
    → t.localtime_idx < n
All-get_elem?_at n [] i t h e = cc
All-get_elem?_at n (s ∷ ts) zero t h e = subst (λ r. r.localtime_idx < n) (some-injective s t e) h.0
All-get_elem?_at n (s ∷ ts) (suc i) t h e = All-get_elem?_at n ts i t h.1 e

module _ (d : Data) (z : IsZone d) where
  abbrev transitions : List Transition
  transitions = d.transitions

  pub type_of :
      (i : ℕ) (t : Transition)
      → get_elem? d.transitions i ≡ some t
      → (lt : LocalTime) × (get_elem? d.localtimes t.localtime_idx ≡ some lt)
  type_of i t e =
      get_elem?-some d.localtimes t.localtime_idx (All-get_elem?_at _ d.transitions i t z.indices e)

  -- The search by UTC, by the number of transitions that have passed.
  pub find_local_time_utc-zero :
      (u : ℤ) → passed (later_utc u) d.transitions ≡ 0 → find_local_time_utc u d ≡ front_type d
  unfolding find_local_time_utc
  find_local_time_utc-zero u e = rw (is_before_all-passed (later_utc u) d.transitions, e) refl

  pub find_local_time_utc-suc :
      (u : ℤ) (k : ℕ) (t : Transition)
      → passed (later_utc u) d.transitions ≡ suc k
      → get_elem? d.transitions k ≡ some t
      → find_local_time_utc u d ≡ element (get_elem? d.localtimes t.localtime_idx)
  unfolding find_local_time_utc
  find_local_time_utc-suc u k t e g =
      let p : (suc k == 0) ≡ false = ground arith in
      rw
        (
          is_before_all-passed (later_utc u) d.transitions,
          upper_bound-passed (later_utc u) d.transitions
              (IsCut-Ascending (λ t. t.utctime) u d.transitions z.utc_order),
          e,
          p,
        )
        (found_utc-suc d k ∙ type_at-some d k t g)

  pub search_local-zero :
      (l : ℤ) (post : Bool)
      → passed (later_local l) d.transitions ≡ 0
      → search_local l post d ≡ front_type d
  unfolding search_local
  search_local-zero l post e = rw (is_before_all-passed (later_local l) d.transitions, e) refl

  pub search_local-suc :
      (l : ℤ) (post : Bool) (k : ℕ)
      → passed (later_local l) d.transitions ≡ suc k
      → search_local l post d ≡ found_local l post d (suc k)
  unfolding search_local
  search_local-suc l post k e =
      let p : (suc k == 0) ≡ false = ground arith in
      rw
        (
          is_before_all-passed (later_local l) d.transitions,
          upper_bound-passed (later_local l) d.transitions
              (IsCut-Ascending (λ t. t.localtime) l d.transitions z.local_order),
          e,
          p,
        )
        refl

  -- Behind the last transition its type is found.
  pub found_local-last :
      (l : ℤ) (post : Bool) (k : ℕ) (t : Transition)
      → suc k ≡ length d.transitions
      → get_elem? d.transitions k ≡ some t
      → found_local l post d (suc k) ≡ element (get_elem? d.localtimes t.localtime_idx)
  unfolding found_local
  found_local-last l post k t e g =
      let p : (suc k == 0) ≡ false = ground arith in
      let q : (suc k == length d.transitions) ≡ true = ground arith in
      let r : length d.transitions - 1 ≡ k = omega (arith, e) in rw (p, q, r) (type_at-some d k t g)

  -- Between two transitions: the test for a skipped time, then the other two.
  pub found_local-between :
      (l : ℤ) (post : Bool) (k : ℕ) (t next : Transition) (lt : LocalTime)
      → get_elem? d.transitions k ≡ some t
      → get_elem? d.transitions (suc k) ≡ some next
      → get_elem? d.localtimes t.localtime_idx ≡ some lt
      → (let second = next.utctime -ℤ pos 1 +ℤ lt.utc_offset in
          found_local l post d (suc k) ≡ (
            if ltb_ℤ second l
            then choose d post next t
            else repeated_or_unique l post d k t second))
  unfolding found_local prior_second element
  found_local-between l post k t next lt g h e =
      let p : (suc k == 0) ≡ false = ground arith in
      let r : suc k - 1 ≡ k = omega arith in
      let q : (suc k == length d.transitions) ≡ false =
        ground (arith, get_elem?-lt d.transitions (suc k) next h) in
      rw (p, q, r, g, h, e) refl

  found_local-not_skipped :
      (l : ℤ) (post : Bool) (k : ℕ) (t next : Transition) (lt : LocalTime)
      → get_elem? d.transitions k ≡ some t
      → get_elem? d.transitions (suc k) ≡ some next
      → get_elem? d.localtimes t.localtime_idx ≡ some lt
      → ltb_ℤ (next.utctime -ℤ pos 1 +ℤ lt.utc_offset) l ≡ false
      → found_local l post d (suc k)
        ≡ repeated_or_unique l post d k t (next.utctime -ℤ pos 1 +ℤ lt.utc_offset)
  found_local-not_skipped l post k t next lt g h e n =
      let step = found_local-between l post k t next lt g h e in step ∙ rw n refl

  pub look_back-done :
      (k : ℕ) (t : Transition) (s : ℤ)
      → k < length d.transitions
      → t.localtime_idx < length d.localtimes
      → (b : Transition × ℤ) × (look_back d k t t s ≡ done b)
        × ((b.0).localtime_idx < length d.localtimes)
  unfolding look_back prior_second element
  look_back-done zero t s h i = ((t, s), refl, i)
  look_back-done (suc i) t s h _ =
      let p = get_elem?-some d.transitions i (omega (arith, h)) in
      let lt = type_of i p.0 p.1 in
      (
        (p.0, t.utctime -ℤ pos 1 +ℤ (lt.0).utc_offset),
        rw (p.1, lt.1) refl,
        All-get_elem?_at _ d.transitions i p.0 z.indices p.1,
      )

  -- The later of two equal local times, and a time that is not repeated.
  repeated_or_unique-later :
      (l s : ℤ) (k : ℕ) (t : Transition)
      → k < length d.transitions
      → t.localtime_idx < length d.localtimes
      → repeated_or_unique l true d k t s ≡ element (get_elem? d.localtimes t.localtime_idx)
  unfolding repeated_or_unique
  repeated_or_unique-later l s k t h i =
      let b = look_back-done k t s h i in
      rw b.1 (elim (Bool-cases (leb_ℤ l ((b.0).1))) [ inl p ↦ rw p refl | inr p ↦ rw p refl ])

  -- The next transition is still to come.
  next_is_later :
      (u : ℤ) (i : ℕ) (next : Transition)
      → passed (later_utc u) d.transitions ≤ i
      → get_elem? d.transitions i ≡ some next
      → u <ℤ next.utctime
  next_is_later u i next e g = ltb→lt _ _ (
      passed-get_elem? (later_utc u) d.transitions i next
        (IsCut-Ascending (λ t. t.utctime) u d.transitions z.utc_order) g
      ∙ le→leb _ _ e)

  still_before : (u at off : ℤ) → u <ℤ at → leb_ℤ (u +ℤ off) (at -ℤ pos 1 +ℤ off) ≡ true
  still_before u at off h =
      le→leb _ _ (omega (arith, +ℤ_parts u off, -ℤ_parts at (pos 1), +ℤ_parts (at -ℤ pos 1) off, h))

  not_skipped : (u at off : ℤ) → u <ℤ at → ltb_ℤ (at -ℤ pos 1 +ℤ off) (u +ℤ off) ≡ false
  not_skipped u at off h =
      le→ltb _ _ (omega (arith, +ℤ_parts u off, -ℤ_parts at (pos 1), +ℤ_parts (at -ℤ pos 1) off, h))

  -- The local time of a second finds, with `postTransition`, the type of that second, where as many
  -- transitions have passed by the local clock as by UTC.
  pub search_local-later :
      (u : ℤ) (lt : LocalTime)
      → find_local_time_utc u d ≡ done lt
      → passed (later_local (u +ℤ lt.utc_offset)) d.transitions ≡ passed (later_utc u) d.transitions
      → search_local (u +ℤ lt.utc_offset) true d ≡ done lt
  search_local-later u lt found same = by_passed (passed (later_utc u) d.transitions) refl
    where
      l : ℤ
      l = u +ℤ lt.utc_offset

      by_passed : (n : ℕ) → passed (later_utc u) d.transitions ≡ n → search_local l true d ≡ done lt
      by_passed zero e =
          search_local-zero l true (same ∙ e) ∙ sym (find_local_time_utc-zero u e) ∙ found
      by_passed (suc k) e = search_local-suc l true k (same ∙ e) ∙ after ∙ sym of_utc ∙ found
        where
          t : (t : Transition) × (get_elem? d.transitions k ≡ some t)
          t =
              get_elem?-some d.transitions k
                (omega (arith, e, passed_bound (later_utc u) d.transitions))

          of_utc : find_local_time_utc u d ≡ element (get_elem? d.localtimes (t.0).localtime_idx)
          of_utc = find_local_time_utc-suc u k t.0 e t.1

          after :
              found_local l true d (suc k) ≡ element (get_elem? d.localtimes (t.0).localtime_idx)
          after = elim (Bool-cases (suc k == length d.transitions)) [
            | inl p ↦ found_local-last l true k t.0 (==→eq _ _ p) t.1
            | inr p ↦ between (
                get_elem?-some d.transitions (suc k)
                  (omega (arith, ==→ne _ _ p, get_elem?-lt d.transitions k t.0 t.1)))
          ]
            where
              between :
                  (next : Transition) × (get_elem? d.transitions (suc k) ≡ some next)
                  → found_local l true d (suc k)
                    ≡ element (get_elem? d.localtimes (t.0).localtime_idx)
              between (next, g) =
                  found_local-not_skipped l true k t.0 next lt t.1 g
                    (element-done _ lt (sym of_utc ∙ found))
                    (not_skipped u next.utctime lt.utc_offset
                      (next_is_later u (suc k) next (omega (arith, e)) g))
                  ∙ repeated_or_unique-later l _ k t.0 (get_elem?-lt d.transitions k t.0 t.1)
                      (All-get_elem?_at _ d.transitions k t.0 z.indices t.1)

  -- Without postTransition a local time that a transition repeats gets the type from before
  -- it, where another transition follows and the repeated time ends before that.
  pub search_local-earlier :
      (u : ℤ) (k : ℕ) (lt lt_after : LocalTime) (after next : Transition)
      → find_local_time_utc u d ≡ done lt
      → passed (later_utc u) d.transitions ≡ suc k
      → passed (later_local (u +ℤ lt.utc_offset)) d.transitions ≡ suc (suc k)
      → get_elem? d.transitions (suc k) ≡ some after
      → get_elem? d.transitions (suc (suc k)) ≡ some next
      → get_elem? d.localtimes after.localtime_idx ≡ some lt_after
      → u +ℤ lt.utc_offset ≤ℤ next.utctime -ℤ pos 1 +ℤ lt_after.utc_offset
      → search_local (u +ℤ lt.utc_offset) false d ≡ done lt
  unfolding repeated_or_unique look_back prior_second element
  search_local-earlier u k lt lt_after after next found e e_local g g_next type fits =
      search_local-suc l false (suc k) e_local
      ∙ found_local-not_skipped l false (suc k) after next lt_after g g_next type (le→ltb _ _ fits)
      ∙ repeated
    where
      l : ℤ
      l = u +ℤ lt.utc_offset

      t : (t : Transition) × (get_elem? d.transitions k ≡ some t)
      t =
          get_elem?-some d.transitions k
            (omega (arith, e, passed_bound (later_utc u) d.transitions))

      of_utc : get_elem? d.localtimes (t.0).localtime_idx ≡ some lt
      of_utc = element-done _ lt (sym (find_local_time_utc-suc u k t.0 e t.1) ∙ found)

      repeated :
          repeated_or_unique l false d (suc k) after (next.utctime -ℤ pos 1 +ℤ lt_after.utc_offset)
          ≡ done lt
      repeated =
          rw
            (
              t.1,
              of_utc,
              still_before u after.utctime lt.utc_offset
                  (next_is_later u (suc k) after (omega (arith, e)) g),
              of_utc,
            )
            refl
