-- ===== src/Base/FileUnit/Writing.antt =====
-- The loop of AppendFile::append in src/base/FileUnit.cc.
use czy_net_frame.Common.{
  ℕ, zero, suc, ◌+◌, ◌≤◌, ◌<◌, min, ◌≡◌, refl, sym, ap, ap₂, ◌∙◌, ◌≢◌, ◌⊎◌, inl, inr, Bool, true,
  false, not, ◌&&◌, some, List, [], ◌∷◌, ◌++◌, append_assoc, arith, ◌==◌, Bool-cases, ==→eq, ==→ne,
  length, take, drop, length-append, length-take, length-drop, take-append-drop, done,
}
use czy_net_frame.Base.FileUnit.{AppendFile, Answer, Written, write_loop, add_written, append}

-- Every call takes something or fails.
abbrev pub MakesProgress : (ℕ → Answer) → Type 0
MakesProgress answers = (k : ℕ) → (0 < (answers k).amount) ⊎ ((answers k).failed ≡ true)

abbrev pub NeverFails : (ℕ → Answer) → Type 0
NeverFails answers = (k : ℕ) → (answers k).failed ≡ false

-- A part of the line from its beginning, no less than what is counted; all of it, all counted, where
-- no call fails.
pub record IsWritten (answers : ℕ → Answer) (rest : List ℕ) (w : Written) : Type 0 where
  pub left : List ℕ
  pub begins : w.taken ++ left ≡ rest
  pub counted : w.written ≤ length w.taken
  pub whole : NeverFails answers → (w.taken ≡ rest) × (w.written ≡ length rest)

later-IsWritten :
    (answers : ℕ → Answer) (rest : List ℕ) (n : ℕ) (w : Written)
    → n ≤ length rest
    → IsWritten answers (drop n rest) w
    → IsWritten answers rest (record { taken = take n rest ++ w.taken; written = n + w.written })
later-IsWritten answers rest n w h i = record {
  left = i.left;
  begins =
      append_assoc (take n rest) w.taken i.left
      ∙ ap (λ r. take n rest ++ r) i.begins
      ∙ take-append-drop n rest;
  counted = omega (arith, i.counted, length-append (take n rest) w.taken, length-take n rest, h);
  whole = λ never. (
    ap (λ r. take n rest ++ r) (i.whole never).0 ∙ take-append-drop n rest,
    omega (arith, (i.whole never).1, length-drop n rest, h),
  );
}

never_both : (b c : Bool) → c ≡ false → (b && c) ≡ true → ⊥
never_both true c p q = cc
never_both false c p q = cc

-- Without a stop a round takes something.
goes_on :
    (n len : ℕ) (failed : Bool)
    → (not (n == len) && failed) ≡ false
    → (0 < n) ⊎ (failed ≡ true)
    → (0 < n) ⊎ (n ≡ len)
goes_on n len failed s (inl q) = inl q
goes_on n len failed s (inr q) = elim (Bool-cases (n == len)) [
  | inl e ↦ inr (==→eq _ _ e)
  | inr e ↦ absurd (stuck (n == len) failed e q s)
]
  where
    stuck : (b c : Bool) → b ≡ false → c ≡ true → (not b && c) ≡ false → ⊥
    stuck true c p q s = cc
    stuck false true p q s = cc
    stuck false false p q s = cc

write_loop-IsWritten :
    (fuel : ℕ) (answers : ℕ → Answer) (k : ℕ) (rest : List ℕ)
    → MakesProgress answers
    → length rest < fuel
    → (w : Written) × (write_loop fuel answers k rest ≡ some w) × IsWritten answers rest w
unfolding write_loop
write_loop-IsWritten zero answers k rest p h = absurd (omega arith)
write_loop-IsWritten (suc fuel) answers k rest p h = elim (Bool-cases (length rest == 0)) [
  | inl e ↦ (
    record { taken = []; written = 0 },
    rw e refl,
    record {
      left = rest;
      begins = refl;
      counted = omega arith;
      whole = λ never. (sym (empty rest (==→eq _ _ e)), omega (arith, ==→eq _ _ e));
    },
  )
  | inr e ↦ elim (Bool-cases (not (n == length rest) && (answers k).failed)) [
    | inl s ↦ (
      record { taken = take n rest; written = 0 },
      rw (e, s) refl,
      record {
        left = drop n rest;
        begins = take-append-drop n rest;
        counted = omega arith;
        whole = λ never. absurd (contradiction never s);
      },
    )
    | inr s ↦
        let ih =
          write_loop-IsWritten fuel answers (k + 1) (drop n rest) p
            (shorter s (==→ne _ _ e) (p k)) in
        (
          record { taken = take n rest ++ ih.0.taken; written = n + ih.0.written },
          rw (e, s, ih.1) refl,
          later-IsWritten answers rest n ih.0 (omega arith) ih.2,
        )
  ]
]
  where
    n : ℕ
    n = min (answers k).amount (length rest)

    empty : (r : List ℕ) → length r ≡ 0 → r ≡ []
    empty [] e = refl
    empty (x ∷ r) e = absurd (omega arith)

    contradiction : NeverFails answers → (not (n == length rest) && (answers k).failed) ≡ true → ⊥
    contradiction never s = never_both _ _ (never k) s

    shorter :
        (not (n == length rest) && (answers k).failed) ≡ false
        → length rest ≢ 0
        → (0 < (answers k).amount) ⊎ ((answers k).failed ≡ true)
        → length (drop n rest) < fuel
    shorter s ne q = omega (arith, goes_on n (length rest) _ s (advances q), length-drop n rest, h)
      where
        advances :
            (0 < (answers k).amount) ⊎ ((answers k).failed ≡ true)
            → (0 < n) ⊎ ((answers k).failed ≡ true)
        advances (inl q) = inl (omega (arith, q, ne))
        advances (inr q) = inr q

-- Where every call of fwrite takes something or fails, the loop of append ends within as many
-- rounds as the line has bytes and one: a beginning of the line is then written and no more is
-- counted, and all of it is written and counted where no call fails.
pub append-IsWritten :
    (answers : ℕ → Answer) (line : List ℕ) (f : AppendFile)
    → MakesProgress answers
    → (w : Written) × IsWritten answers line w
      × (append answers line f
          ≡ done (record f {
            bytes = f.bytes ++ w.taken;
            written_bytes = f.written_bytes + w.written;
          }))
unfolding append
append-IsWritten answers line f p =
    let r = write_loop-IsWritten (suc (length line)) answers 0 line p (omega arith) in
    (r.0, r.2, ap (add_written f) r.1)

-- Where no call fails the whole line is written.
pub append-NeverFails :
    (answers : ℕ → Answer) (line : List ℕ) (f : AppendFile)
    → MakesProgress answers
    → NeverFails answers
    → append answers line f
      ≡ done (record f { bytes = f.bytes ++ line; written_bytes = f.written_bytes + length line })
append-NeverFails answers line f p never =
    let (w, i, e) = append-IsWritten answers line f p in
    e
    ∙ ap₂ (λ b n. done (record f { bytes = f.bytes ++ b; written_bytes = f.written_bytes + n }))
        ((i.whole never).0) ((i.whole never).1)
