-- ===== src/Base/TimeZone/Bytes.antt =====
-- The reads of Base/TimeZone/File, of a file that goes on with given bytes.
use czy_net_frame.Common.{
  ℕ, zero, suc, ◌+◌, ◌-◌, ◌*◌, ◌/◌, ◌%◌, ◌≤◌, ◌<◌, ◌≡◌, refl, sym, ap, ◌∙◌, inl, inr, true, some,
  List, [], ◌∷◌, ◌++◌, append_assoc, append-nil, arith, ◌==◌, Bool-cases, ==→eq, ==→ne, length,
  take, drop, length-take, length-drop, take-append-drop, take-length_append, drop-length_append,
  done, pos_part, neg_part, +ℤ-pos, signed_32, ℤ, pos, negsuc,
}
use czy_net_frame.Base.TimeZone.File.{
  File, read_exactly, big_endian, signed_64, read_int64, read_int32, read_uint8, read_chunks,
  read_to_end, skip,
}

-- The position moved on.
abbrev pub advance : ℕ → File → File
advance n f = record f { position = f.position + n }

-- What stands from the position on.
abbrev pub At : File → List ℕ → Type 0
At f rest = drop f.position f.bytes ≡ rest

plus_suc : (p n : ℕ) → suc p + n ≡ suc (p + n)
plus_suc p n = omega arith

drop_add : (p n : ℕ) (xs : List ℕ) → drop (p + n) xs ≡ drop n (drop p xs)
drop_add zero n xs = ap (λ k. drop k xs) (omega arith)
drop_add (suc p) zero [] = rw (plus_suc p zero) refl
drop_add (suc p) (suc n) [] = rw (plus_suc p (suc n)) refl
drop_add (suc p) n (x ∷ xs) = rw (plus_suc p n) (drop_add p n xs)

pub advance-At :
    (n : ℕ) (f : File) (chunk rest : List ℕ)
    → n ≡ length chunk
    → At f (chunk ++ rest)
    → At (advance n f) rest
advance-At n f chunk rest e at =
    drop_add f.position n f.bytes ∙ ap (drop n) at ∙ drop-length_append chunk rest n e

pub skip-pos : (n : ℕ) (f : File) → skip (pos n) f ≡ advance n f
unfolding skip
skip-pos n f = rw (+ℤ-pos f.position n) refl

pub read_exactly-At :
    (n : ℕ) (f : File) (chunk rest : List ℕ)
    → n ≡ length chunk
    → At f (chunk ++ rest)
    → read_exactly n f ≡ done (chunk, advance n f)
unfolding read_exactly
read_exactly-At n f chunk rest e at =
    let got : take n (drop f.position f.bytes) ≡ chunk =
      ap (take n) at ∙ take-length_append chunk rest n e in
    let full : (length chunk == n) ≡ true = ground arith in rw (got, full, ← e) refl

-- The bytes of a number, the most significant one first.
abbrev pub bytes_32 : ℕ → List ℕ
bytes_32 v = (v / 16777216 % 256) ∷ (v / 65536 % 256) ∷ (v / 256 % 256) ∷ (v % 256) ∷ []

abbrev pub bytes_64 : ℕ → List ℕ
bytes_64 v = bytes_32 (v / 4294967296) ++ bytes_32 (v % 4294967296)

-- Two's complement.
abbrev pub code_32 : ℤ → ℕ
code_32 (pos n) = n
code_32 (negsuc n) = 4294967295 - n

abbrev pub code_64 : ℤ → ℕ
code_64 (pos n) = n
code_64 (negsuc n) = 18446744073709551615 - n

abbrev pub Is32 : ℤ → Type 0
Is32 z = (pos_part z < 2147483648) × (neg_part z ≤ 2147483648)

abbrev pub Is64 : ℤ → Type 0
Is64 z = (pos_part z < 9223372036854775808) × (neg_part z ≤ 9223372036854775808)

big_endian-bytes_32 :
    (acc v : ℕ) → v < 4294967296 → big_endian acc (bytes_32 v) ≡ acc * 4294967296 + v
big_endian-bytes_32 acc v h = omega arith

big_endian-bytes_64 : (v : ℕ) → v < 18446744073709551616 → big_endian 0 (bytes_64 v) ≡ v
big_endian-bytes_64 v h =
    let low = big_endian-bytes_32 (v / 4294967296) (v % 4294967296) (omega arith) in
    let high = big_endian-bytes_32 0 (v / 4294967296) (omega arith) in
    ap (λ a. big_endian a (bytes_32 (v % 4294967296))) (high ∙ omega arith) ∙ low ∙ omega arith

signed_32-code_32 : (z : ℤ) → Is32 z → signed_32 (code_32 z) ≡ z
signed_32-code_32 (pos n) h = ground arith
signed_32-code_32 (negsuc n) h = ground arith

signed_64-code_64 : (z : ℤ) → Is64 z → signed_64 (code_64 z) ≡ z
signed_64-code_64 (pos n) h = ground arith
signed_64-code_64 (negsuc n) h = ground arith

code_32_bound : (z : ℤ) → Is32 z → code_32 z < 4294967296
code_32_bound (pos n) h = omega arith
code_32_bound (negsuc n) h = omega arith

code_64_bound : (z : ℤ) → Is64 z → code_64 z < 18446744073709551616
code_64_bound (pos n) h = omega arith
code_64_bound (negsuc n) h = omega arith

pub int32 : ℤ → List ℕ
int32 z = bytes_32 (code_32 z)

pub int64 : ℤ → List ℕ
int64 z = bytes_64 (code_64 z)

pub read_int32-At :
    (z : ℤ) (f : File) (rest : List ℕ)
    → Is32 z
    → At f (int32 z ++ rest)
    → (read_int32 f ≡ done (z, advance 4 f)) × At (advance 4 f) rest
unfolding int32 read_int32
read_int32-At z f rest h at =
    let value = big_endian-bytes_32 0 (code_32 z) (code_32_bound z h) ∙ omega arith in
    (
      rw (read_exactly-At 4 f (int32 z) rest refl at)
          (ap (λ v. done (v, advance 4 f)) (ap signed_32 value ∙ signed_32-code_32 z h)),
      advance-At 4 f (int32 z) rest refl at,
    )

pub read_int64-At :
    (z : ℤ) (f : File) (rest : List ℕ)
    → Is64 z
    → At f (int64 z ++ rest)
    → (read_int64 f ≡ done (z, advance 8 f)) × At (advance 8 f) rest
unfolding int64 read_int64
read_int64-At z f rest h at = (
  rw (read_exactly-At 8 f (int64 z) rest refl at) (
      ap (λ v. done (v, advance 8 f))
        (ap signed_64 (big_endian-bytes_64 (code_64 z) (code_64_bound z h))
          ∙ signed_64-code_64 z h)),
  advance-At 8 f (int64 z) rest refl at,
)

pub read_uint8-At :
    (b : ℕ) (f : File) (rest : List ℕ)
    → At f (b ∷ rest)
    → (read_uint8 f ≡ done (b, advance 1 f)) × At (advance 1 f) rest
unfolding read_uint8
read_uint8-At b f rest at = (
  rw (read_exactly-At 1 f (b ∷ []) rest refl at) (ap (λ v. done (v, advance 1 f)) (omega arith)),
  advance-At 1 f (b ∷ []) rest refl at,
)

-- A read of up to so many bytes.
after_take :
    (n p : ℕ) (xs rest : List ℕ)
    → drop p xs ≡ rest
    → drop (p + length (take n rest)) xs ≡ drop n rest
after_take n p xs rest at =
    drop_add p (length (take n rest)) xs
    ∙ ap (drop (length (take n rest))) at
    ∙ drop-length_take n rest
  where
    drop-length_take : (n : ℕ) (r : List ℕ) → drop (length (take n r)) r ≡ drop n r
    drop-length_take zero r = refl
    drop-length_take (suc n) [] = refl
    drop-length_take (suc n) (x ∷ r) = drop-length_take n r

-- The rounds of `readToEnd` collect what is left.
read_chunks-rest :
    (fuel : ℕ) (result rest : List ℕ) (f : File)
    → At f rest
    → length rest < fuel
    → (g : File) × (read_chunks fuel result f ≡ some (result ++ rest, g))
unfolding read_chunks
read_chunks-rest zero result rest f at h = absurd (omega arith)
read_chunks-rest (suc fuel) result rest f at h = elim (Bool-cases (length (take 4096 rest) == 0)) [
  | inl p ↦
      let nothing : rest ≡ [] = empty rest (omega (arith, ==→eq _ _ p, length-take 4096 rest)) in
      (
        record f { position = f.position + length (take 4096 rest) },
        rw (at, p)
            (ap (λ r. some (r, record f { position = f.position + length (take 4096 rest) }))
              (sym (append-nil result) ∙ ap (λ r. result ++ r) (sym nothing))),
      )
  | inr p ↦
      let ih =
        read_chunks-rest fuel (result ++ take 4096 rest) (drop 4096 rest)
          (record f { position = f.position + length (take 4096 rest) })
          (after_take 4096 f.position f.bytes rest at)
          (omega (arith, h, ==→ne _ _ p, length-take 4096 rest, length-drop 4096 rest)) in
      (
        ih.0,
        rw (at, p)
            (ih.1
              ∙ ap (λ r. some (r, ih.0))
                  (append_assoc result (take 4096 rest) (drop 4096 rest)
                    ∙ ap (λ r. result ++ r) (take-append-drop 4096 rest))),
      )
]
  where
    empty : (r : List ℕ) → length r ≡ 0 → r ≡ []
    empty [] e = refl
    empty (x ∷ r) e = absurd (omega arith)

-- The loop of readToEnd ends, after no more rounds than the file has bytes and one, with all
-- that stands behind the position.
pub read_to_end-rest :
    (f : File) (rest : List ℕ) → At f rest → (g : File) × (read_to_end f ≡ some (rest, g))
unfolding read_to_end
read_to_end-rest f rest at =
    read_chunks-rest (suc (length f.bytes)) [] rest f at
      (omega (arith, ap length at, length-drop f.position f.bytes))
