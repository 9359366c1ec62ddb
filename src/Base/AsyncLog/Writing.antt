-- ===== src/Base/AsyncLog/Writing.antt =====
-- The second half of the writer's turn in Base/AsyncLog.
use czy_net_frame.Common.{
  ℕ, zero, suc, ◌≤◌, ◌<◌, ◌≡◌, refl, ◌⊎◌, inl, inr, true, false, Option, none, List, [], ◌∷◌, ◌++◌,
  append_assoc, arith, ltb, if◌then◌else◌, le→ltb, Bool-cases, length, take, All, length-take, done,
}
use czy_net_frame.Base.FixedBuffer.{FixedBuffer}
use czy_net_frame.Base.AsyncLog.{Writer, drop_excess, bytes_of, write_all, refill, write_out}
use czy_net_frame.Base.AsyncLog.Pipeline.{IsSized, IsFresh, Back, refill-Fresh}

All-take : (n : ℕ) (bs : List FixedBuffer) → All IsSized bs → All IsSized (take n bs)
All-take zero bs a = tt
All-take (suc n) [] a = tt
All-take (suc n) (b ∷ bs) (s, a) = (s, All-take n bs a)

-- The two buffers that the writer keeps for the next turn come out of those that it wrote.
kept_ready :
    (w : Writer) (bs : List FixedBuffer)
    → w.new_buffer1 ≡ none
    → All IsSized bs
    → (IsFresh w.new_buffer2 × (0 < length bs)) ⊎ ((w.new_buffer2 ≡ none) × (1 < length bs))
    → (first : Option FixedBuffer) × (rest : List FixedBuffer) × (second : Option FixedBuffer)
      × (others : List FixedBuffer) × (refill w.new_buffer1 bs ≡ done (first, rest))
      × (refill w.new_buffer2 rest ≡ done (second, others))
      × IsFresh first
      × IsFresh second
kept_ready w bs e all h =
    let (first, rest, p, fresh, s, n, _) =
      refill-Fresh w.new_buffer1 bs all (inr (e, some_kept h)) in
    let (second, others, q, fresh2, _, _, _) = refill-Fresh w.new_buffer2 rest s (still rest n h) in
    (first, rest, second, others, p, q, fresh, fresh2)
  where
    some_kept :
        (IsFresh w.new_buffer2 × (0 < length bs)) ⊎ ((w.new_buffer2 ≡ none) × (1 < length bs))
        → 0 < length bs
    some_kept (inl (f, n)) = n
    some_kept (inr (f, n)) = omega (arith, n)

    still :
        (rest : List FixedBuffer)
        → length bs ≤ suc (length rest)
        → (IsFresh w.new_buffer2 × (0 < length bs)) ⊎ ((w.new_buffer2 ≡ none) × (1 < length bs))
        → IsFresh w.new_buffer2 ⊎ ((w.new_buffer2 ≡ none) × (0 < length rest))
    still rest n (inl (f, m)) = inl f
    still rest n (inr (f, m)) = inr (f, omega (arith, n, m))

-- What `write_out` puts into the file.
abbrev pub written_by : List ℕ → List FixedBuffer → List ℕ
written_by notice bs = if ltb 25 (length bs) then notice ++ bytes_of (take 2 bs) else bytes_of bs

-- The second half of a turn passes its assertions, has written the bytes of all buffers that it was
-- handed, or, of more than 25, the notice and the bytes of the first two, and leaves two empty
-- buffers for the next turn.
pub write_out-Back :
    (notice : List ℕ) (w : Writer)
    → Back true w
    → (w' : Writer) × (write_out notice w ≡ done w')
      × Back false w'
      × (w'.file ≡ w.file ++ written_by notice w.to_write)
unfolding write_out drop_excess write_all
write_out-Back notice w (e, all, h) = elim (Bool-cases (ltb 25 (length w.to_write))) [
  | inl y ↦
      let few : ltb 2 (length (take 2 w.to_write)) ≡ false =
        le→ltb _ _ (omega (arith, length-take 2 w.to_write)) in
      let (first, rest, second, others, p, q, f, g) =
        kept_ready w (take 2 w.to_write) e (All-take 2 w.to_write all) (cut h) in
      rw (y, few, p, q)
        (
          record w {
            new_buffer1 = first;
            new_buffer2 = second;
            to_write = [];
            file = (w.file ++ notice) ++ bytes_of (take 2 w.to_write);
          },
          refl,
          (f, g, refl),
          append_assoc w.file notice _,
        )
  | inr z ↦ rw z (elim (Bool-cases (ltb 2 (length w.to_write))) [
    | inl y ↦
        let (first, rest, second, others, p, q, f, g) =
          kept_ready w (take 2 w.to_write) e (All-take 2 w.to_write all) (cut h) in
        rw (y, p, q)
          (
            record w {
              new_buffer1 = first;
              new_buffer2 = second;
              to_write = [];
              file = w.file ++ bytes_of w.to_write;
            },
            refl,
            (f, g, refl),
            refl,
          )
    | inr n ↦
        let (first, rest, second, others, p, q, f, g) = kept_ready w w.to_write e all h in
        rw (n, p, q)
          (
            record w {
              new_buffer1 = first;
              new_buffer2 = second;
              to_write = [];
              file = w.file ++ bytes_of w.to_write;
            },
            refl,
            (f, g, refl),
            refl,
          )
  ])
]
  where
    cut :
        (IsFresh w.new_buffer2 × (0 < length w.to_write))
          ⊎ ((w.new_buffer2 ≡ none) × (1 < length w.to_write))
        → (IsFresh w.new_buffer2 × (0 < length (take 2 w.to_write)))
          ⊎ ((w.new_buffer2 ≡ none) × (1 < length (take 2 w.to_write)))
    cut (inl (f, n)) = inl (f, omega (arith, n, length-take 2 w.to_write))
    cut (inr (f, n)) = inr (f, omega (arith, n, length-take 2 w.to_write))
