-- ===== src/Net/Buffer/Write.antt =====
-- `append`, `prepend` and `shrink` of src/net/Buffer.h by their effect on the contents.
use czy_net_frame.Common.{
  ℕ, zero, ◌+◌, ◌-◌, ◌≤◌, ◌<◌, ◌≡◌, refl, sym, ap, ◌∙◌, subst, List, [], ◌++◌, append_assoc, arith,
  le→leb, length, take, drop, length-append, length-take, length-drop, length-replicate,
  take-append-drop, length-append₃, done,
}
use czy_net_frame.Net.Buffer.{
  Buffer, cheap_prepend, initial_size, max_size, add_size, sub_size, init, readable_bytes,
  writable_bytes, prependable_bytes, copy_to, has_written, append, prepend, shrink,
}
use czy_net_frame.Net.Buffer.Contents.{
  Inv, contents, whole, used, free, eq_whole, IsSized, parts-IsSized, readable-contents,
  to_string_piece-contents, copy_to-middle,
}
use czy_net_frame.Net.Buffer.Room.{
  Holds, whole-Holds, as_whole, ensure-Makes, ensure_writable_bytes-contents,
}

-- Writing into free space, the last two statements of `append`.
module _ (f m k d : List ℕ) (s : IsSized f m k) (le : length d ≤ length k) where
  abbrev pub left_over : List ℕ
  left_over = drop (length d) k

  sum-left_over : length d + length left_over ≡ length k
  sum-left_over = omega (arith, length-drop (length d) k)

  pub left_over-IsSized : IsSized f (m ++ d) left_over
  left_over-IsSized = record {
    has_prepend = omega (arith, length-append m d, sum-left_over, s.has_prepend);
    fits = omega (arith, length-append m d, sum-left_over, s.fits);
  }

  pub overwritten :
      copy_to (f ++ (m ++ k)) (length f + length m) d ≡ done ((f ++ m) ++ (d ++ left_over))
  overwritten =
      ap (λ t. copy_to t (length f + length m) d)
        (sym (append_assoc f m k) ∙ ap (λ t. (f ++ m) ++ t) (sym (take-append-drop (length d) k)))
      ∙ copy_to-middle (f ++ m) (take (length d) k) left_over d _ (omega (arith, length-append f m))
          (omega (arith, length-take (length d) k))

  unfoldable pub filled : Buffer
  filled = record {
    buffer = (f ++ m) ++ (d ++ left_over);
    reader_index = length f;
    writer_index = length f + length m;
  }

  pub length-filled : length ((f ++ m) ++ (d ++ left_over)) ≡ length f + (length m + length k)
  length-filled =
      omega (arith, sum-left_over, length-append f m, length-append₃ (f ++ m) d left_over)

  pub filled-eq :
      record filled { writer_index = add_size (length f + length m) (length d) }
      ≡ whole f (m ++ d) left_over
  unfolding filled
  filled-eq =
      as_whole f (m ++ d) left_over _
        (append_assoc f m (d ++ left_over) ∙ ap (◌++◌ f) (sym (append_assoc m d left_over))) refl
        (omega (arith, s.fits, le, length-append m d))

  has_written-filled : has_written filled (length d) ≡ done (whole f (m ++ d) left_over)
  unfolding has_written filled
  has_written-filled =
      rw (le→leb (length d) (writable_bytes filled) (omega (arith, length-filled, s.fits, le)))
        (ap done filled-eq)

-- `append` adds its bytes behind the contents, when the result can fit into a vector.
append-whole :
    (f m k d : List ℕ)
    → IsSized f m k
    → length f + (length m + length d) ≤ max_size
    → Holds (append (whole f m k) d) (m ++ d)
unfolding append
append-whole f m k d s fit =
    let (f', k', e, s', le) = ensure-Makes f m k (length d) s fit in
    rw (e, overwritten f' m k' d s' le)
      (whole-Holds f' (m ++ d) _ _ (left_over-IsSized f' m k' d s' le)
        (unfold filled in has_written-filled f' m k' d s' le))

-- Appending bytes to a well-formed buffer succeeds whenever the write position moved by their
-- number stays within the largest vector: no assertion fails, nothing is written out of bounds, and
-- the contents are the old ones followed by the new bytes.
pub append-contents :
    (b : Buffer) (d : List ℕ)
    → Inv b
    → b.writer_index + length d ≤ max_size
    → Holds (append b d) (contents b ++ d)
append-contents b d v fit =
    subst (λ x. Holds (append x d) (contents b ++ d)) (sym (eq_whole b v))
      (append-whole (used b) (contents b) (free b) d (parts-IsSized b v)
        (omega (arith, fit, ap (λ x. x.writer_index) (eq_whole b v))))

-- `prepend` writes over the last bytes of the used part.
prepend-whole :
    (f g m k d : List ℕ)
    → IsSized (f ++ g) m k
    → length d ≡ length g
    → Holds (prepend (whole (f ++ g) m k) d) (d ++ m)
unfolding prepend
prepend-whole f g m k d s e =
    rw (le→leb (length d) (length (f ++ g)) (omega (arith, length-append f g)), written)
      (whole-Holds f (d ++ m) k _ sized (
        ap done (
          as_whole f (d ++ m) k _ (ap (◌++◌ f) (sym (append_assoc d m k))) reader
            (omega (arith, length-append f g, length-append d m)))))
  where
    reader : sub_size (length (f ++ g)) (length d) ≡ length f
    reader = omega (arith, length-append f g, s.fits)

    written :
        copy_to ((f ++ g) ++ (m ++ k)) (sub_size (length (f ++ g)) (length d)) d
        ≡ done (f ++ (d ++ (m ++ k)))
    written =
        ap (λ t. copy_to t (sub_size (length (f ++ g)) (length d)) d) (append_assoc f g (m ++ k))
        ∙ copy_to-middle f g (m ++ k) d _ reader e

    sized : IsSized f (d ++ m) k
    sized = record {
      has_prepend = omega (arith, length-append f g, length-append d m, s.has_prepend);
      fits = omega (arith, length-append f g, length-append d m, s.fits);
    }

-- Prepending at most as many bytes as there are before the reader puts them in front of the
-- contents.
pub prepend-contents :
    (b : Buffer) (d : List ℕ)
    → Inv b
    → length d ≤ prependable_bytes b
    → Holds (prepend b d) (d ++ contents b)
prepend-contents b d v fit =
    subst (λ x. Holds (prepend x d) (d ++ contents b)) (sym (eq_whole b v ∙ parted))
      (prepend-whole (take n u) (drop n u) (contents b) (free b) d sized
        (omega (arith, size, length-drop n u)))
  where
    u : List ℕ
    u = used b

    n : ℕ
    n = b.reader_index - length d

    size : length u ≡ b.reader_index
    size = sym (ap (λ x. x.reader_index) (eq_whole b v))

    parted : whole u (contents b) (free b) ≡ whole (take n u ++ drop n u) (contents b) (free b)
    parted = ap (λ t. whole t (contents b) (free b)) (sym (take-append-drop n u))

    sized : IsSized (take n u ++ drop n u) (contents b) (free b)
    sized =
        subst (λ t. IsSized t (contents b) (free b)) (sym (take-append-drop n u))
          (parts-IsSized b v)

pub init-Inv : (size : ℕ) → cheap_prepend + size ≤ max_size → Inv (init size)
unfolding init
init-Inv size fit = record {
  in_order = omega arith;
  in_bounds = omega (arith, length-replicate (cheap_prepend + size) zero);
  has_prepend = omega (arith, length-replicate (cheap_prepend + size) zero);
  fits = omega (arith, length-replicate (cheap_prepend + size) zero, fit);
}

pub contents-init : (size : ℕ) → contents (init size) ≡ []
unfolding init
contents-init size = refl

-- `shrink` keeps the contents, of a length that an `int` holds, whatever room was asked for behind
-- them.
pub shrink-contents :
    (b : Buffer) (reserve : ℕ)
    → Inv b
    → cheap_prepend + initial_size + length (contents b) + reserve ≤ max_size
    → length (contents b) < 2147483648
    → Holds (shrink b reserve) (contents b)
unfolding shrink
shrink-contents b reserve v fit small =
    let (c, e, w, none_yet, room) =
      ensure_writable_bytes-contents (init initial_size) n (init-Inv initial_size (omega arith))
        start in
    rw (e, to_string_piece-contents b v small)
      (subst (λ t. Holds (append c (contents b)) (t ++ contents b))
        (none_yet ∙ contents-init initial_size)
        (append-contents c (contents b) w (omega (arith, room, w.in_bounds, w.fits, asked, fit))))
  where
    n : ℕ
    n = add_size (readable_bytes b) reserve

    asked : n ≡ length (contents b) + reserve
    asked = omega (arith, readable-contents b v, fit)

    start : (init initial_size).writer_index + n ≤ max_size
    start = omega (arith, asked, fit)
