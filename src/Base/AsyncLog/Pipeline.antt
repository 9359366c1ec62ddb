-- ===== src/Base/AsyncLog/Pipeline.antt =====
-- The buffers of Base/AsyncLog on their way: what each of the three operations needs and leaves.
use czy_net_frame.Common.{
  ℕ, suc, ◌≤◌, ◌<◌, ◌≡◌, refl, sym, ap, ◌∙◌, ◌≢◌, ◌⊎◌, inl, inr, Bool, true, false, Option, none,
  some, List, [], ◌∷◌, ◌++◌, append_assoc, append-nil, arith, ltb, if◌then◌else◌, lt→ltb,
  Bool-cases, length, All, length-append, All-append, done,
}
use czy_net_frame.Base.FixedBuffer.{FixedBuffer, large_buffer, avail, reset}
use czy_net_frame.Base.AsyncLog.{
  AsyncLog, spare, append_line, Writer, is_fresh, is_null, exchange, exchange_from, take_buffers,
  bytes_of, pop_back, refill,
}

abbrev pub IsSized : FixedBuffer → Type 0
IsSized b = b.size ≡ large_buffer

-- A buffer that is there and empty.
abbrev pub IsFresh : Option FixedBuffer → Type 0
IsFresh o = (b : FixedBuffer) × (o ≡ some b) × IsSized b × (b.written ≡ [])

-- What holds while the mutex is free: the spare buffer is missing only while a full one waits.
pub record Front (l : AsyncLog) : Type 0 where
  pub sized : IsSized l.current
  pub all_sized : All IsSized l.vec
  pub spare : IsFresh l.next ⊎ ((l.next ≡ none) × (0 < length l.vec))

-- What holds for the writer's variables in front of the exchange, and in front of the writing.
abbrev pub Back : Bool → Writer → Type 0
Back false w = IsFresh w.new_buffer1 × IsFresh w.new_buffer2 × (w.to_write ≡ [])
Back true w =
    (w.new_buffer1 ≡ none)
    × All IsSized w.to_write
    × ((IsFresh w.new_buffer2 × (0 < length w.to_write))
        ⊎ ((w.new_buffer2 ≡ none) × (1 < length w.to_write)))

-- The bytes that were logged and not handed to the writer.
abbrev pub held : AsyncLog → List ℕ
held l = bytes_of l.vec ++ l.current.written

pub bytes_of-append : (bs cs : List FixedBuffer) → bytes_of (bs ++ cs) ≡ bytes_of bs ++ bytes_of cs
unfolding bytes_of
bytes_of-append [] cs = refl
bytes_of-append (b ∷ bs) cs =
    ap (◌++◌ b.written) (bytes_of-append bs cs) ∙ sym (append_assoc b.written _ _)

bytes_of-push :
    (bs : List FixedBuffer) (b : FixedBuffer) → bytes_of (bs ++ (b ∷ [])) ≡ bytes_of bs ++ b.written
unfolding bytes_of
bytes_of-push bs b = bytes_of-append bs (b ∷ []) ∙ ap (◌++◌ (bytes_of bs)) (append-nil b.written)

length-push : (bs : List FixedBuffer) (b : FixedBuffer) → 0 < length (bs ++ (b ∷ []))
length-push bs b = omega (arith, length-append bs (b ∷ []))

-- The buffer behind a full one is empty.
spare-Fresh :
    (o : Option FixedBuffer) (n : ℕ)
    → IsFresh o ⊎ ((o ≡ none) × (0 < n))
    → IsSized (spare o) × ((spare o).written ≡ [])
unfolding spare
spare-Fresh o n (inl (b, e, s, w)) = rw e (s, w)
spare-Fresh o n (inr (e, _)) = rw e (refl, refl)

-- A line that is shorter than a buffer is kept behind everything that was logged before.
pub append_line-Front :
    (l : AsyncLog) (line : List ℕ)
    → length line < large_buffer
    → Front l
    → Front (append_line l line) × (held (append_line l line) ≡ held l ++ line)
unfolding append_line
append_line-Front l line short f = elim (Bool-cases (ltb (length line) (avail l.current))) [
  | inl y ↦ rw y (
    record { sized = f.sized; all_sized = f.all_sized; spare = f.spare },
    sym (append_assoc (bytes_of l.vec) _ line),
  )
  | inr z ↦
      let (s, none_yet) = spare-Fresh l.next (length l.vec) f.spare in
      let fits : ltb (length line) (avail (spare l.next)) ≡ true =
        lt→ltb _ _ (omega (arith, short, s, ap length none_yet)) in
      rw (z, fits)
        (
          record {
            sized = s;
            all_sized = All-append IsSized l.vec (l.current ∷ []) f.all_sized (f.sized, tt);
            spare = inr (refl, length-push l.vec l.current);
          },
          ap (λ t. bytes_of (l.vec ++ (l.current ∷ [])) ++ (t ++ line)) none_yet
              ∙ ap (λ t. t ++ line) (bytes_of-push l.vec l.current),
        )
]

is_fresh-Fresh : (o : Option FixedBuffer) → IsFresh o → is_fresh o ≡ true
unfolding is_fresh
is_fresh-Fresh o (b, e, s, w) = rw (e, w) refl

-- The exchange under the mutex passes the three assertions, and hands all that is held to the writer.
pub take_buffers-Back :
    (l : AsyncLog) (w : Writer)
    → Front l
    → Back false w
    → (l' : AsyncLog) × (w' : Writer) × (take_buffers l w ≡ done (l', w'))
      × Front l'
      × Back true w'
      × (w'.file ≡ w.file)
      × (bytes_of w'.to_write ≡ held l)
      × (held l' ≡ [])
unfolding take_buffers exchange_from exchange is_null bytes_of
take_buffers-Back l w f (fresh1, fresh2, none_left) =
    let (b, e, s, z) = fresh1 in
    let (l', w') = exchange l w b in
    (
      l',
      w',
      rw (is_fresh-Fresh w.new_buffer1 fresh1, is_fresh-Fresh w.new_buffer2 fresh2, none_left, e)
          refl,
      record { sized = s; all_sized = tt; spare = inl (next_fresh f.spare) },
      (refl, All-append IsSized l.vec (l.current ∷ []) f.all_sized (f.sized, tt), second f.spare),
      refl,
      bytes_of-push l.vec l.current,
      z,
    )
  where
    next_fresh :
        IsFresh l.next ⊎ ((l.next ≡ none) × (0 < length l.vec))
        → IsFresh (if is_null l.next then w.new_buffer2 else l.next)
    next_fresh (inl (b, e, r, z)) = rw e (b, refl, r, z)
    next_fresh (inr (e, _)) = rw e fresh2

    second :
        IsFresh l.next ⊎ ((l.next ≡ none) × (0 < length l.vec))
        → (IsFresh (if is_null l.next then none else w.new_buffer2)
            × (0 < length (l.vec ++ (l.current ∷ []))))
          ⊎ (((if is_null l.next then none else w.new_buffer2) ≡ none)
              × (1 < length (l.vec ++ (l.current ∷ []))))
    second (inl (b, e, r, z)) = inl (rw e fresh2, length-push l.vec l.current)
    second (inr (e, n)) = inr (rw e refl, omega (arith, n, length-append l.vec (l.current ∷ [])))

-- `back` and `pop_back` of buffers that are there.
pop_back-Sized :
    (b : FixedBuffer) (bs : List FixedBuffer)
    → All IsSized (b ∷ bs)
    → (c : FixedBuffer) × (rest : List FixedBuffer) × (pop_back (b ∷ bs) ≡ done (c, rest))
      × IsSized c
      × All IsSized rest
      × (length rest ≡ length bs)
unfolding pop_back
pop_back-Sized b [] (s, t) = (b, [], refl, s, tt, refl)
pop_back-Sized b (c ∷ bs) (s, t) =
    let (d, rest, e, q, r, n) = pop_back-Sized c bs t in
    (d, b ∷ rest, rw e refl, q, (s, r), ap suc n)

pub refill-Fresh :
    (o : Option FixedBuffer) (bs : List FixedBuffer)
    → All IsSized bs
    → IsFresh o ⊎ ((o ≡ none) × (0 < length bs))
    → (first : Option FixedBuffer) × (rest : List FixedBuffer) × (refill o bs ≡ done (first, rest))
      × IsFresh first
      × All IsSized rest
      × (length bs ≤ suc (length rest))
      × (IsFresh o → rest ≡ bs)
unfolding refill
refill-Fresh o bs all (inl (b, e, r, z)) =
    (some b, bs, rw e refl, (b, refl, r, z), all, omega arith, λ _. refl)
refill-Fresh o [] all (inr (e, n)) = absurd (omega (arith, n))
refill-Fresh o (b ∷ bs) all (inr (e, n)) =
    let (c, rest, p, s, t, m) = pop_back-Sized b bs all in
    (
      some (reset c),
      rest,
      rw (e, p) refl,
      (reset c, refl, s, refl),
      t,
      omega (arith, m),
      λ h. absurd (none_some (sym e ∙ h.1)),
    )
  where
    none_some : {d : FixedBuffer} → none ≢ some d
    none_some h = cc
