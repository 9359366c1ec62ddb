-- ===== src/Base/TimeZone/Reading/Tables.antt =====
-- The tables of a block of a zone file, laid out as RFC 8536 has it, and read by Base/TimeZone/Reading.
use czy_net_frame.Common.{
  ℕ, ◌+◌, ◌<◌, ◌≡◌, refl, sym, ap, ◌∙◌, false, some, List, [], ◌∷◌, ◌++◌, map, append_assoc,
  append-nil, arith, length, get_elem?, All, length-map, done, ◌+ℤ◌, ◌*ℤ◌, *ℤ-pos, ℤ, pos,
}
use czy_net_frame.Base.TimeZone.{
  Transition, LocalTime, Data, no_data, at_local_time, add_transition,
}
use czy_net_frame.Base.TimeZone.File.{File, read_bytes, read_uint8, skip}
use czy_net_frame.Base.TimeZone.Bytes.{
  advance, At, advance-At, skip-pos, read_exactly-At, Is64, int64, read_int64-At, read_uint8-At,
  read_to_end-rest,
}
use czy_net_frame.Base.TimeZone.Reading.{
  Counts, reserve, read_times, read_time, with_rest, add_transitions, time_size, finish_block,
  read_tables,
}
use czy_net_frame.Base.TimeZone.Reading.Format.{
  read_times-At, all_bytes, type_bytes, OkType, with_types, read_types-At,
}

-- The local time of a transition is that of the type it names.
abbrev pub Consistent : List LocalTime → Transition → Type 0
Consistent ls t =
    (lt : LocalTime) × (get_elem? ls t.localtime_idx ≡ some lt)
    × (t.utctime +ℤ lt.utc_offset ≡ t.localtime)

abbrev with_transitions : Data → List Transition → Data
with_transitions d ts = record d { transitions = d.transitions ++ ts }

add_transitions-map :
    (ts : List Transition) (d : Data)
    → All (Consistent d.localtimes) ts
    → add_transitions (map (λ t. t.utctime) ts) (map (λ t. t.localtime_idx) ts) d
      ≡ done (with_transitions d ts)
unfolding add_transitions add_transition at_local_time
add_transitions-map [] d h =
    ap (λ l. done (record d { transitions = l })) (sym (append-nil d.transitions))
add_transitions-map (t ∷ ts) d h =
    let ih = add_transitions-map ts (with_transitions d (t ∷ [])) h.1 in
    let same = h.0.2 in
    rw (h.0.1, same)
      (ih ∙ ap (λ l. done (record d { transitions = l })) (append_assoc d.transitions (t ∷ []) ts))

abbrev count {ℓ} : {A : Type ℓ} → List A → ℤ
count xs = pos (length xs)

abbrev pub counts_of : Data → Counts
counts_of z = record {
  isutccnt = pos 0;
  isstdcnt = pos 0;
  leapcnt = pos 0;
  timecnt = count z.transitions;
  typecnt = count z.localtimes;
  charcnt = count z.abbreviation;
}

-- What can be laid out.
pub record IsLaidOut (z : Data) : Type 0 where
  pub times : All Is64 (map (λ t. t.utctime) z.transitions)
  pub offsets : All OkType z.localtimes
  pub consistent : All (Consistent z.localtimes) z.transitions
  pub few :
      (length z.transitions < 2147483648)
      × (length z.localtimes < 2147483648)
      × (length z.abbreviation < 2147483648)

-- The tables of the block, without leap seconds and indicators.
unfoldable pub tables : Data → List ℕ
tables z =
    all_bytes int64 (map (λ t. t.utctime) z.transitions)
    ++ (all_bytes (λ i. i ∷ []) (map (λ t. t.localtime_idx) z.transitions)
        ++ (all_bytes type_bytes z.localtimes ++ (z.abbreviation ++ z.tzstring)))

All-Unit : (ns : List ℕ) → All (λ n. Unit {0}) ns
All-Unit [] = tt
All-Unit (n ∷ ns) = (tt, All-Unit ns)

read_transition_times :
    (z : Data) (f : File) (rest : List ℕ)
    → IsLaidOut z
    → At f (all_bytes int64 (map (λ t. t.utctime) z.transitions) ++ rest)
    → (g : File) × (read_times (read_time false) (length z.transitions) f
        ≡ done (map (λ t. t.utctime) z.transitions, g))
      × At g rest
unfolding read_time
read_transition_times z f rest h at =
    let r =
      read_times-At Is64 int64 (read_time false)
        (λ x f rest ok at. let r = read_int64-At x f rest ok at in (advance 8 f, r.0, r.1))
        (map (λ t. t.utctime) z.transitions) f rest h.times at in
    (
      r.0,
      ap (λ n. read_times (read_time false) n f) (sym (length-map (λ t. t.utctime) z.transitions))
          ∙ r.1,
      r.2,
    )

read_transition_types :
    (z : Data) (f : File) (rest : List ℕ)
    → At f (all_bytes (λ i. i ∷ []) (map (λ t. t.localtime_idx) z.transitions) ++ rest)
    → (g : File) × (read_times read_uint8 (length z.transitions) f
        ≡ done (map (λ t. t.localtime_idx) z.transitions, g))
      × At g rest
read_transition_types z f rest at =
    let r =
      read_times-At (λ n. Unit {0}) (λ i. i ∷ []) read_uint8
        (λ x f rest ok at. let r = read_uint8-At x f rest at in (advance 1 f, r.0, r.1))
        (map (λ t. t.localtime_idx) z.transitions) f rest
        (All-Unit (map (λ t. t.localtime_idx) z.transitions)) at in
    (
      r.0,
      ap (λ n. read_times read_uint8 n f) (sym (length-map (λ t. t.localtime_idx) z.transitions))
          ∙ r.1,
      r.2,
    )

skip_nothing : (n : ℤ) (f : File) (rest : List ℕ) → n ≡ pos 0 → At f rest → At (skip n f) rest
skip_nothing n f rest e at = rw (e, skip-pos 0 f) (advance-At 0 f [] rest refl at)

finish_block-rest :
    (d : Data) (f : File) (rest : List ℕ)
    → At f rest
    → finish_block false d f ≡ done (some (record d { tzstring = rest }))
unfolding finish_block
finish_block-rest d f rest at = ap (with_rest d) (read_to_end-rest f rest at).1

pub read_tables-tables :
    (z : Data) (f : File)
    → IsLaidOut z
    → At f (tables z)
    → read_tables false (counts_of z) no_data f ≡ done (some z)
unfolding read_tables reserve tables read_bytes
read_tables-tables z f h at =
    let r0 = read_transition_times z f _ h at in
    let r1 = read_transition_types z r0.0 _ r0.2 in
    let r2 = read_types-At z.localtimes no_data r1.0 _ h.offsets r1.2 in
    let filled = add_transitions-map z.transitions (with_types no_data z.localtimes) h.consistent in
    let r3 = read_exactly-At (length z.abbreviation) r2.0 z.abbreviation z.tzstring refl r2.2 in
    let behind = advance-At (length z.abbreviation) r2.0 z.abbreviation z.tzstring refl r2.2 in
    let leaps : pos 0 *ℤ (time_size false + 4) ≡ pos 0 =
      *ℤ-pos 0 (time_size false + 4) ∙ ap pos (omega arith) in
    let skipped = skip_nothing (pos 0) _ _ refl (
      skip_nothing (pos 0) _ _ refl
        (skip_nothing (pos 0 *ℤ (time_size false + 4)) _ _ leaps behind)) in
    rw (r0.1, r1.1, r2.1, filled, r3) (finish_block-rest _ _ z.tzstring skipped)
