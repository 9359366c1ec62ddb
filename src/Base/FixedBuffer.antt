-- ===== src/Base/FixedBuffer.antt =====
-- The class template FixedBuffer of src/base/LogStream.h: an array with a write position.
use czy_net_frame.Common.{
  ℕ, ◌-◌, ◌<◌, ◌≡◌, refl, List, [], ◌++◌, ltb, if◌then◌else◌, lt→ltb, length,
}

-- KSmallBuffer and KLargeBuffer.
abbrev pub small_buffer : ℕ
small_buffer = 4000

abbrev pub large_buffer : ℕ
large_buffer = 4000000

-- The bytes in front of `cur_`.
pub record FixedBuffer : Type 0 where
  pub size : ℕ
  pub written : List ℕ

abbrev pub empty : ℕ → FixedBuffer
empty size = record { size = size; written = [] }

abbrev pub avail : FixedBuffer → ℕ
avail b = b.size - length b.written

-- Bytes that do not fit, with one to spare, are left out as a whole.
unfoldable pub append : FixedBuffer → List ℕ → FixedBuffer
append b bytes =
    if ltb (length bytes) (avail b) then record b { written = b.written ++ bytes } else b

abbrev pub reset : FixedBuffer → FixedBuffer
reset b = record b { written = [] }

pub append-fits :
    (b : FixedBuffer) (bytes : List ℕ)
    → length bytes < avail b
    → append b bytes ≡ record b { written = b.written ++ bytes }
unfolding append
append-fits b bytes h = rw (lt→ltb _ _ h) refl
