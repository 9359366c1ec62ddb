-- ===== src/Base/TimeZone/File.antt =====
-- The class File of src/base/TimeZone.cc: the contents of an open file and the position in it.
-- The array of `readBytes` is taken to fit on the stack.
use czy_net_frame.Common.{
  ℕ, zero, suc, ◌+◌, ◌-◌, ◌*◌, Option, none, some, List, [], ◌∷◌, ◌++◌, ltb, ◌==◌, if◌then◌else◌,
  length, take, drop, ◌>>=◌, Outcome, done, undefined, thrown, logic_error, ◌+ℤ◌, signed_32, ℤ, pos,
  negsuc,
}

pub record File : Type 0 where
  pub bytes : List ℕ
  pub position : ℕ

-- `fread` of single bytes: what there is from the position on, at most so many.
abbrev pub fread : ℕ → File → List ℕ × File
fread n f =
    let got = take n (drop f.position f.bytes) in
    (got, record f { position = f.position + length got })

-- A read of exactly so many bytes, or `std::logic_error`.
unfoldable pub read_exactly : ℕ → File → Outcome (List ℕ × File)
read_exactly n f = if length ((fread n f).0) == n then done (fread n f) else thrown logic_error

-- An array of a negative length is undefined.
unfoldable pub read_bytes : ℤ → File → Outcome (List ℕ × File)
unfolding read_exactly
read_bytes (pos n) f = read_exactly n f
read_bytes (negsuc n) f = undefined

-- The number of bytes with the most significant one first, which `be32toh` and `be64toh` give on
-- every host.
abbrev pub big_endian : ℕ → List ℕ → ℕ
big_endian acc [] = acc
big_endian acc (b ∷ bs) = big_endian (acc * 256 + b) bs

abbrev pub signed_64 : ℕ → ℤ
signed_64 n = if ltb n 9223372036854775808 then pos n else negsuc (18446744073709551615 - n)

unfoldable pub read_int64 : File → Outcome (ℤ × File)
unfolding read_exactly
read_int64 f = do r ← read_exactly 8 f; done (signed_64 (big_endian 0 r.0), r.1)

unfoldable pub read_int32 : File → Outcome (ℤ × File)
unfolding read_exactly
read_int32 f = do r ← read_exactly 4 f; done (signed_32 (big_endian 0 r.0), r.1)

unfoldable pub read_uint8 : File → Outcome (ℕ × File)
unfolding read_exactly
read_uint8 f = do r ← read_exactly 1 f; done (big_endian 0 r.0, r.1)

-- The loop of `readToEnd`, with fuel for its rounds; `none` is fuel that ran out.
unfoldable pub read_chunks : ℕ → List ℕ → File → Option (List ℕ × File)
read_chunks zero result f = none
read_chunks (suc fuel) result f =
    let rest = read_chunks fuel (result ++ (fread 4096 f).0) ((fread 4096 f).1) in
    if length ((fread 4096 f).0) == 0 then some (result, (fread 4096 f).1) else rest

unfoldable pub read_to_end : File → Option (List ℕ × File)
unfolding read_chunks
read_to_end f = read_chunks (suc (length f.bytes)) [] f

-- `fseek` to a place; before the beginning it fails and leaves the position.
abbrev pub seek : ℤ → File → File
seek (pos p) f = record f { position = p }
seek (negsuc p) f = f

unfoldable pub skip : ℤ → File → File
skip n f = seek (pos f.position +ℤ n) f
