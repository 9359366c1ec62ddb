-- ===== src/Net/Buffer/Contents.antt =====
-- The abstract view of Net/Buffer: the bytes that a reader has not taken yet. A well-formed buffer
-- is a used part, the contents and a free part, and the methods are read off that shape.
use czy_net_frame.Common.{
  ℕ, ◌+◌, ◌-◌, ◌≤◌, ◌<◌, ◌≡◌, refl, sym, ap, ◌∙◌, List, ◌++◌, append_assoc, arith, le→leb, length,
  take, drop, length-take, length-drop, take-append-drop, take-length_append, drop-length_append,
  drop-append_add, length-append₃, done, to_int_32, pos,
}
use czy_net_frame.Net.Buffer.{
  Buffer, cheap_prepend, max_size, readable_bytes, writable_bytes, read_at, copy_to, peek_all,
  to_string_piece, size_of_int,
}

pub record Inv (b : Buffer) : Type 0 where
  pub in_order : b.reader_index ≤ b.writer_index
  pub in_bounds : b.writer_index ≤ length b.buffer
  pub has_prepend : cheap_prepend ≤ length b.buffer
  pub fits : length b.buffer ≤ max_size

-- The readable bytes.
abbrev pub contents : Buffer → List ℕ
contents b = take (b.writer_index - b.reader_index) (drop b.reader_index b.buffer)

abbrev pub whole : List ℕ → List ℕ → List ℕ → Buffer
whole f m k = record {
  buffer = f ++ (m ++ k);
  reader_index = length f;
  writer_index = length f + length m;
}

abbrev pub used : Buffer → List ℕ
used b = take b.reader_index b.buffer

abbrev pub free : Buffer → List ℕ
free b = drop (b.writer_index - b.reader_index) (drop b.reader_index b.buffer)

pub eq_whole : (b : Buffer) → Inv b → b ≡ whole (used b) (contents b) (free b)
eq_whole b v = λ i. record { buffer = bytes i; reader_index = reader i; writer_index = writer i }
  where
    bytes : b.buffer ≡ used b ++ (contents b ++ free b)
    bytes =
        sym (take-append-drop b.reader_index b.buffer)
        ∙ ap (λ t. used b ++ t)
            (sym
              (take-append-drop (b.writer_index - b.reader_index) (drop b.reader_index b.buffer)))

    reader : b.reader_index ≡ length (used b)
    reader = omega (arith, v.in_order, v.in_bounds, length-take b.reader_index b.buffer)

    writer : b.writer_index ≡ length (used b) + length (contents b)
    writer = omega (
      arith,
      v.in_order,
      v.in_bounds,
      reader,
      length-take (b.writer_index - b.reader_index) (drop b.reader_index b.buffer),
      length-drop b.reader_index b.buffer,
    )

-- The three parts fit into a vector and leave room for the cheap prepend.
pub record IsSized (f m k : List ℕ) : Type 0 where
  pub has_prepend : cheap_prepend ≤ length f + (length m + length k)
  pub fits : length f + (length m + length k) ≤ max_size

pub whole-Inv : (f m k : List ℕ) → IsSized f m k → Inv (whole f m k)
whole-Inv f m k s = record {
  in_order = omega arith;
  in_bounds = omega (arith, length-append₃ f m k);
  has_prepend = omega (arith, length-append₃ f m k, s.has_prepend);
  fits = omega (arith, length-append₃ f m k, s.fits);
}

pub contents-whole : (f m k : List ℕ) → contents (whole f m k) ≡ m
contents-whole f m k =
    let e : length f + length m - length f ≡ length m = omega arith in
    rw (drop-length_append f (m ++ k) (length f) refl, e) (take-length_append m k (length m) refl)

pub parts-IsSized : (b : Buffer) → Inv b → IsSized (used b) (contents b) (free b)
parts-IsSized b v = record {
  has_prepend = omega (arith, total, v.has_prepend);
  fits = omega (arith, total, v.fits);
}
  where
    total : length b.buffer ≡ length (used b) + (length (contents b) + length (free b))
    total = ap (λ t. length t.buffer) (eq_whole b v) ∙ length-append₃ (used b) (contents b) (free b)

module _ (f m k : List ℕ) (s : IsSized f m k) where
  pub readable-whole : readable_bytes (whole f m k) ≡ length m
  readable-whole = omega (arith, s.fits)

  pub writable-whole : writable_bytes (whole f m k) ≡ length k
  writable-whole = omega (arith, s.fits, length-append₃ f m k)

-- The number of readable bytes is the length of the contents.
pub readable-contents : (b : Buffer) → Inv b → readable_bytes b ≡ length (contents b)
readable-contents b v =
    ap readable_bytes (eq_whole b v)
    ∙ readable-whole (used b) (contents b) (free b) (parts-IsSized b v)

-- Reading and overwriting the middle of three parts.
pub read_at-middle :
    (f m k : List ℕ) (i n : ℕ) → i ≡ length f → n ≡ length m → read_at (f ++ (m ++ k)) i n ≡ done m
unfolding read_at
read_at-middle f m k i n p q =
    rw (le→leb (i + n) (length (f ++ (m ++ k))) (omega (arith, length-append₃ f m k)))
      (rw (drop-length_append f (m ++ k) i p, take-length_append m k n q))

pub copy_to-middle :
    (f m k d : List ℕ) (i : ℕ)
    → i ≡ length f
    → length d ≡ length m
    → copy_to (f ++ (m ++ k)) i d ≡ done (f ++ (d ++ k))
unfolding copy_to
copy_to-middle f m k d i p q =
    rw (le→leb (i + length d) (length (f ++ (m ++ k))) (omega (arith, length-append₃ f m k))) (
      rw (
        take-length_append f (m ++ k) i p,
        drop-append_add f (m ++ k) i (length d) p,
        drop-length_append m k (length d) q,
      ))

pub peek_all-contents : (b : Buffer) → Inv b → peek_all b ≡ done (contents b)
unfolding peek_all
peek_all-contents b v =
    ap peek_all (eq_whole b v)
    ∙ read_at-middle (used b) (contents b) (free b) _ _ refl
        (readable-whole (used b) (contents b) (free b) (parts-IsSized b v))

size_of_int-small : (n : ℕ) → n < 2147483648 → size_of_int (to_int_32 (pos n)) ≡ n
size_of_int-small n h = ground arith

pub to_string_piece-contents :
    (b : Buffer) → Inv b → length (contents b) < 2147483648 → to_string_piece b ≡ done (contents b)
unfolding to_string_piece
to_string_piece-contents b v small =
    ap (read_at b.buffer b.reader_index)
      (size_of_int-small (readable_bytes b) (omega (arith, small, readable-contents b v)))
    ∙ unfold peek_all in peek_all-contents b v

-- Reading `n` bytes at the reader gives the first `n` of the contents.
pub read_at-contents :
    (b : Buffer) (n : ℕ)
    → Inv b
    → n ≤ length (contents b)
    → read_at b.buffer b.reader_index n ≡ done (take n (contents b))
read_at-contents b n v le =
    ap (λ t. read_at t b.reader_index n)
      (ap (λ t. t.buffer) (eq_whole b v)
        ∙ ap (◌++◌ (used b)) (
            ap (λ t. t ++ free b) (sym (take-append-drop n (contents b)))
            ∙ append_assoc (take n (contents b)) (drop n (contents b)) (free b)))
    ∙ read_at-middle (used b) (take n (contents b)) (drop n (contents b) ++ free b) _ _
        (ap (λ t. t.reader_index) (eq_whole b v)) (omega (arith, length-take n (contents b)))
