-- ===== src/Base/TimeZone/Reading/Indices.antt =====
-- The types that the transitions of a file name, in Base/TimeZone/Reading.
use czy_net_frame.Common.{
  ℕ, zero, suc, ◌<◌, ◌≡◌, refl, ◌∙◌, inl, inr, Bool, true, false, not, Option, none, some, List, [],
  ◌∷◌, ◌==◌, Bool-cases, Option-cases, length, get_elem?, All, All-append, get_elem?-lt, Ensures,
  Ensures->>=, Ensures-done, Outcome, done, assert_failed, aborted, undefined, thrown, length_error,
  bad_function_call, out_of_range, logic_error, pos_part, ℤ, pos,
}
use czy_net_frame.Base.TimeZone.{Data, no_data, add_local_time, at_local_time, add_transition}
use czy_net_frame.Base.TimeZone.File.{File, read_uint8, read_bytes}
use czy_net_frame.Base.TimeZone.Reading.{
  Counts, read_counts, reserve, read_times, read_time, read_type, read_types, with_rest,
  add_transitions, are_readable, same_text, finish_block, read_tables, read_data_block, check_head,
  block_size, read_second, read_header, catch_logic_error, read_time_zone_file, load_zone_file,
}

-- Every transition names a type of the data.
abbrev pub IsIndexed : Data → Type 0
IsIndexed d = All (λ t. t.localtime_idx < length d.localtimes) d.transitions

abbrev pub IsIndexed? : Option Data → Type 0
IsIndexed? none = Unit
IsIndexed? (some d) = IsIndexed d

read_types-transitions :
    (n : ℕ) (d : Data) (f : File)
    → Ensures (λ r. r.0.transitions ≡ d.transitions) (read_types n d f)
unfolding read_types add_local_time
read_types-transitions zero d f = refl
read_types-transitions (suc n) d f =
    Ensures->>= (λ r. r.0.transitions ≡ d.transitions) (read_type f)
      (λ r. read_types n (add_local_time r.0.0 (not (r.0.1 == 0)) r.0.2 d) r.1)
      λ r p. read_types-transitions n (add_local_time r.0.0 (not (r.0.1 == 0)) r.0.2 d) r.1

add_transition-IsIndexed :
    (u : ℤ) (i : ℕ) (d : Data) → IsIndexed d → Ensures IsIndexed (add_transition u i d)
unfolding add_transition at_local_time
add_transition-IsIndexed u i d h = elim (Option-cases (get_elem? d.localtimes i)) [
  | inl e ↦ rw e tt
  | inr (lt, e) ↦ rw e (
      All-append (λ t. t.localtime_idx < length d.localtimes) d.transitions _ h
        (get_elem?-lt d.localtimes i lt e, tt))
]

add_transitions-IsIndexed :
    (ts : List ℤ) (ls : List ℕ) (d : Data)
    → IsIndexed d
    → Ensures IsIndexed (add_transitions ts ls d)
unfolding add_transitions
add_transitions-IsIndexed [] ls d h = h
add_transitions-IsIndexed (t ∷ ts) [] d h = tt
add_transitions-IsIndexed (t ∷ ts) (l ∷ ls) d h =
    Ensures->>= IsIndexed (add_transition t l d) (add_transitions ts ls) λ e p.
      add_transitions-IsIndexed ts ls e
        (Ensures-done IsIndexed (add_transition t l d) e (add_transition-IsIndexed t l d h) p)

with_rest-IsIndexed :
    (d : Data) (r : Option (List ℕ × File)) → IsIndexed d → Ensures IsIndexed? (with_rest d r)
with_rest-IsIndexed d none h = tt
with_rest-IsIndexed d (some r) h = h

finish_block-IsIndexed :
    (v1 : Bool) (d : Data) (f : File) → IsIndexed d → Ensures IsIndexed? (finish_block v1 d f)
unfolding finish_block
finish_block-IsIndexed true d f h = h
finish_block-IsIndexed false d f h = with_rest-IsIndexed d _ h

empty-IsIndexed : (d : Data) → d.transitions ≡ [] → IsIndexed d
empty-IsIndexed d e = rw e tt

read_tables-IsIndexed :
    (v1 : Bool) (c : Counts) (d : Data) (f : File)
    → d.transitions ≡ []
    → Ensures IsIndexed? (read_tables v1 c d f)
unfolding read_tables
read_tables-IsIndexed v1 c d f e = Ensures->>= IsIndexed? (reserve c.timecnt) _ λ _ _.
    Ensures->>= IsIndexed? (read_times (read_time v1) (pos_part c.timecnt) f) _ λ trans _.
      Ensures->>= IsIndexed? (reserve c.timecnt) _ λ _ _.
        Ensures->>= IsIndexed? (read_times read_uint8 (pos_part c.timecnt) trans.1) _ λ locals _.
          Ensures->>= IsIndexed? (reserve c.typecnt) _ λ _ _.
            Ensures->>= IsIndexed? (read_types (pos_part c.typecnt) d locals.1) _ λ types p.
              let none_yet =
                Ensures-done (λ r. r.0.transitions ≡ d.transitions)
                  (read_types (pos_part c.typecnt) d locals.1) types
                  (read_types-transitions (pos_part c.typecnt) d locals.1) p in
              Ensures->>= IsIndexed? (add_transitions trans.0 locals.0 types.0) _ λ filled q.
                Ensures->>= IsIndexed? (read_bytes c.charcnt types.1) _ λ chars _.
                  finish_block-IsIndexed v1 (record filled { abbreviation = chars.0 }) _
                    (Ensures-done IsIndexed (add_transitions trans.0 locals.0 types.0) filled
                      (add_transitions-IsIndexed trans.0 locals.0 types.0
                        (empty-IsIndexed types.0 (none_yet ∙ e)))
                      q)

read_data_block-IsIndexed :
    (v1 : Bool) (d : Data) (f : File)
    → d.transitions ≡ []
    → Ensures IsIndexed? (read_data_block v1 d f)
unfolding read_data_block
read_data_block-IsIndexed v1 d f e = Ensures->>= IsIndexed? (read_counts f) _ λ c _.
    elim (Bool-cases (are_readable c.0)) [
      | inl p ↦ rw p (read_tables-IsIndexed v1 c.0 d c.1 e)
      | inr p ↦ rw p tt
    ]

read_header-IsIndexed :
    (d : Data) (f : File) → d.transitions ≡ [] → Ensures IsIndexed? (read_header d f)
unfolding read_header read_second
read_header-IsIndexed d f e = Ensures->>= IsIndexed? (read_bytes (pos 4) f) _ λ head _.
    Ensures->>= IsIndexed? (check_head head.0) _ λ _ _.
      Ensures->>= IsIndexed? (read_bytes (pos 1) head.1) _ λ version _.
        Ensures->>= IsIndexed? (read_bytes (pos 15) version.1) _ λ reserved _.
          Ensures->>= IsIndexed? (read_counts reserved.1) _ λ counts _.
            elim (Bool-cases (same_text version.0 (50 ∷ []))) [
              | inl p ↦ rw p (
                  Ensures->>= IsIndexed? (block_size counts.0) _ λ size _.
                    Ensures->>= IsIndexed? (read_bytes (pos 4) _) _ λ again _.
                      Ensures->>= IsIndexed? (check_head again.0) _
                        λ _ _. read_data_block-IsIndexed false d _ e)
              | inr p ↦ rw p (read_data_block-IsIndexed true d _ e)
            ]

catch_logic_error-IsIndexed :
    (r : Outcome (Option Data)) → Ensures IsIndexed? r → Ensures IsIndexed? (catch_logic_error r)
unfolding catch_logic_error
catch_logic_error-IsIndexed (done r) h = h
catch_logic_error-IsIndexed assert_failed h = tt
catch_logic_error-IsIndexed aborted h = tt
catch_logic_error-IsIndexed undefined h = tt
catch_logic_error-IsIndexed (thrown length_error) h = tt
catch_logic_error-IsIndexed (thrown bad_function_call) h = tt
catch_logic_error-IsIndexed (thrown out_of_range) h = tt
catch_logic_error-IsIndexed (thrown logic_error) h = tt

load_zone_file-Ensures : (file : Option (List ℕ)) → Ensures IsIndexed? (load_zone_file file)
unfolding load_zone_file read_time_zone_file
load_zone_file-Ensures none = tt
load_zone_file-Ensures (some bytes) =
    catch_logic_error-IsIndexed _
      (read_header-IsIndexed no_data (record { bytes = bytes; position = 0 }) refl)

-- Whatever the bytes of a file are, in the data that loadZoneFile accepts every transition names
-- a type that is there.
pub load_zone_file-IsIndexed :
    (file : Option (List ℕ)) (d : Data) → load_zone_file file ≡ done (some d) → IsIndexed d
load_zone_file-IsIndexed file d e =
    Ensures-done IsIndexed? (load_zone_file file) (some d) (load_zone_file-Ensures file) e
