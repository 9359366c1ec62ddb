-- ===== src/Net/Buffer/Room.antt =====
-- How `ensureWritableBytes` and `makeSpace` of src/net/Buffer.h find room: by growing the vector
-- or by moving the readable bytes to the front.
use czy_net_frame.Common.{
  ℕ, zero, ◌+◌, ◌-◌, ◌≤◌, ◌<◌, ◌≡◌, refl, sym, ap, ◌∙◌, subst, inl, inr, true, List, ◌++◌,
  append_assoc, arith, ltb, ◌==◌, ltb→lt, lt→ltb, le→ltb, ltb→le, le→leb, Bool-cases, length, take,
  drop, replicate, length-append, length-take, length-drop, length-replicate, take-append-drop,
  take_all, length-append₃, Outcome, done,
}
use czy_net_frame.Net.Buffer.{
  Buffer, cheap_prepend, max_size, add_size, readable_bytes, writable_bytes, read_at, copy_to,
  resize, compact, grow, make_space, ensure_writable_bytes,
}
use czy_net_frame.Net.Buffer.Contents.{
  Inv, contents, whole, used, free, eq_whole, IsSized, whole-Inv, contents-whole, parts-IsSized,
  readable-whole, writable-whole, read_at-middle, copy_to-middle,
}

-- The call returns a well-formed buffer that holds the bytes `m`.
abbrev pub Holds : Outcome Buffer → List ℕ → Type 0
Holds o m = (b : Buffer) × (o ≡ done b) × Inv b × (contents b ≡ m)

-- The call returns a buffer of the given contents with at least `n` free bytes.
abbrev pub Makes : Outcome Buffer → List ℕ → ℕ → Type 0
Makes o m n =
    (f : List ℕ) × (k : List ℕ) × (o ≡ done (whole f m k)) × IsSized f m k × (n ≤ length k)

pub whole-Holds :
    (f m k : List ℕ) (o : Outcome Buffer) → IsSized f m k → o ≡ done (whole f m k) → Holds o m
whole-Holds f m k o s e = (whole f m k, e, whole-Inv f m k s, contents-whole f m k)

module _ (f m k : List ℕ) (n : ℕ) (s : IsSized f m k) where
  -- Where the vector grows: behind `writer_index + n` there is nothing.
  grow-Makes :
      length f + (length m + n) ≤ max_size → length k ≤ n → Makes (grow (whole f m k) n) m n
  unfolding grow resize
  grow-Makes fit more = (f, k ++ replicate (n - length k) 0, grown, sized, omega (arith, size))
    where
      total : length (f ++ (m ++ k)) ≡ length f + (length m + length k)
      total = length-append₃ f m k

      target : ℕ
      target = add_size (length f + length m) n

      size : length (k ++ replicate (n - length k) 0) ≡ n
      size = omega (
        arith,
        length-append k (replicate (n - length k) 0),
        length-replicate (n - length k) (zero),
      )

      sized : IsSized f m (k ++ replicate (n - length k) 0)
      sized = record {
        has_prepend = omega (arith, size, s.has_prepend);
        fits = omega (arith, size, fit);
      }

      pad : target - length (f ++ (m ++ k)) ≡ n - length k
      pad = omega (arith, total, fit)

      grown : grow (whole f m k) n ≡ done (whole f m (k ++ replicate (n - length k) 0))
      grown = rw (
        le→ltb max_size target (omega (arith, fit)),
        pad,
        take_all target (f ++ (m ++ k)) (omega (arith, total, fit)),
        append_assoc f (m ++ k) (replicate (n - length k) 0),
        append_assoc m k (replicate (n - length k) 0),
      )

pub as_whole :
    (f m k : List ℕ) (b : Buffer)
    → b.buffer ≡ f ++ (m ++ k)
    → b.reader_index ≡ length f
    → b.writer_index ≡ length f + length m
    → b ≡ whole f m k
as_whole f m k b p q r = λ i. record { buffer = p i; reader_index = q i; writer_index = r i }

module _ (f m k : List ℕ) (s : IsSized f m k) (h : cheap_prepend < length f) where
  abbrev front : List ℕ
  front = take cheap_prepend f

  abbrev behind : List ℕ
  behind = drop cheap_prepend f ++ (m ++ k)

  abbrev rest : List ℕ
  rest = drop (length m) behind

  length-front : length front ≡ cheap_prepend
  length-front = omega (arith, length-take cheap_prepend f)

  length-rest : length rest + cheap_prepend ≡ length f + length k
  length-rest = omega (
    arith,
    length-drop (length m) behind,
    length-drop cheap_prepend f,
    length-append₃ (drop cheap_prepend f) m k,
  )

  same_bytes : f ++ (m ++ k) ≡ front ++ (take (length m) behind ++ rest)
  same_bytes = rw (
    take-append-drop (length m) behind,
    ← append_assoc front (drop cheap_prepend f) (m ++ k),
    take-append-drop cheap_prepend f,
  )

  kept_bytes : read_at (f ++ (m ++ k)) (length f) (readable_bytes (whole f m k)) ≡ done m
  kept_bytes = read_at-middle f m k (length f) _ refl (readable-whole f m k s)

  moved_bytes : copy_to (f ++ (m ++ k)) cheap_prepend m ≡ done (front ++ (m ++ rest))
  moved_bytes =
      ap (λ t. copy_to t cheap_prepend m) same_bytes
      ∙ copy_to-middle front (take (length m) behind) rest m cheap_prepend (sym length-front)
          (omega (arith, length-take (length m) behind, length-append₃ (drop cheap_prepend f) m k))

  rest-IsSized : IsSized front m rest
  rest-IsSized = record {
    has_prepend = omega (arith, length-front);
    fits = omega (arith, length-front, length-rest, s.fits);
  }

  compacted : Buffer
  compacted = record {
    buffer = front ++ (m ++ rest);
    reader_index = cheap_prepend;
    writer_index = add_size cheap_prepend (readable_bytes (whole f m k));
  }

  compacted-eq : compacted ≡ whole front m rest
  unfolding compacted
  compacted-eq =
      as_whole front m rest _ refl (sym length-front)
        (omega (arith, length-front, readable-whole f m k s, s.fits))

  readable-compacted : (readable_bytes (whole f m k) == readable_bytes compacted) ≡ true
  unfolding compacted
  readable-compacted = ground (arith, readable-whole f m k s, s.fits)

  compact_lem : compact (whole f m k) ≡ done (whole front m rest)
  unfolding compact compacted
  compact_lem =
      rw (lt→ltb cheap_prepend (length f) h, kept_bytes, moved_bytes, readable-compacted)
        (ap done compacted-eq)

  compact-Makes : Makes (compact (whole f m k)) m (length f + length k - cheap_prepend)
  compact-Makes = (front, rest, compact_lem, rest-IsSized, omega (arith, length-rest))

Makes-mono : (o : Outcome Buffer) (m : List ℕ) (i j : ℕ) → i ≤ j → Makes o m j → Makes o m i
Makes-mono o m i j h (f, k, e, s, le) = (f, k, e, s, omega arith)

-- Room for `n` more bytes, by whichever way the code takes; the contents stay.
module _ (f m k : List ℕ) (n : ℕ) (s : IsSized f m k)
    (fit : length f + (length m + n) ≤ max_size) where
  make_space-Makes : length k < n → Makes (make_space (whole f m k) n) m n
  unfolding make_space
  make_space-Makes more = elim (Bool-cases (ltb (length f + length k) (n + cheap_prepend))) [
    | inl few ↦ rw (wide, narrow, few) (grow-Makes f m k n s fit (omega arith))
    | inr enough ↦
        let room : n + cheap_prepend ≤ length f + length k = ltb→le _ _ enough in
        rw (wide, narrow, enough)
          (Makes-mono _ m n (length f + length k - cheap_prepend) (omega arith)
            (compact-Makes f m k s (omega arith)))
  ]
    where
      wide : add_size (writable_bytes (whole f m k)) (length f) ≡ length f + length k
      wide = omega (arith, writable-whole f m k s, s.fits)

      narrow : add_size n cheap_prepend ≡ n + cheap_prepend
      narrow = omega (arith, fit)

  pub ensure-Makes : Makes (ensure_writable_bytes (whole f m k) n) m n
  unfolding ensure_writable_bytes
  ensure-Makes = elim (Bool-cases (ltb (length k) n)) [
    | inl few ↦
        let (f', k', e, s', le) = make_space-Makes (ltb→lt _ _ few) in
        rw (writable-whole f m k s, few, e, writable-whole f' m k' s', le→leb n (length k') le)
          (f', k', refl, s', le)
    | inr enough ↦
        let le : n ≤ length k = ltb→le _ _ enough in
        rw (writable-whole f m k s, enough, writable-whole f m k s, le→leb n (length k) le)
          (f, k, refl, s, le)
  ]

-- Making room, on its own, leaves the contents as they are and ends with that room.
pub ensure_writable_bytes-contents :
    (b : Buffer) (n : ℕ)
    → Inv b
    → b.writer_index + n ≤ max_size
    → (c : Buffer) × (ensure_writable_bytes b n ≡ done c)
      × Inv c
      × (contents c ≡ contents b)
      × (n ≤ writable_bytes c)
ensure_writable_bytes-contents b n v fit =
    let (f, k, e, s, le) =
      subst (λ x. Makes (ensure_writable_bytes x n) (contents b) n) (sym (eq_whole b v))
        (ensure-Makes (used b) (contents b) (free b) n (parts-IsSized b v)
          (omega (arith, fit, ap (λ x. x.writer_index) (eq_whole b v)))) in
    (
      whole f (contents b) k,
      e,
      whole-Inv f _ k s,
      contents-whole f _ k,
      rw (writable-whole f (contents b) k s) le,
    )
