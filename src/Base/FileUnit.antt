-- ===== src/Base/FileUnit.antt =====
-- The classes AppendFile and ReadSmallFile of src/base/FileUnit.h and FileUnit.cc. What stdio and the
-- kernel answer is an argument. `readToString` is left out: it calls methods of a pointer, so that no
-- instance of the template compiles.
pub mod Writing
use czy_net_frame.Common.{
  ℕ, zero, suc, ◌+◌, ◌-◌, ◌*◌, ◌/◌, ◌%◌, ◌^◌, ◌≤◌, ◌<◌, min, max, ◌≡◌, refl, sym, ap, ap₂, ◌∙◌,
  subst, ◌≢◌, ◌↔◌, ◌⊎◌, inl, inr, Bool, true, false, not, ◌&&◌, ◌||◌, Option, none, some, List, [],
  ◌∷◌, ◌++◌, map, append_assoc, append-nil, arith, ltb, leb, ◌==◌, if◌then◌else◌, ltb→lt, lt→ltb,
  le→ltb, ltb→le, leb→le, lt→leb, le→leb, Bool-cases, Option-cases, ==→eq, ==→ne, leb-suc, leb→lt,
  length, get_elem?, set, take, drop, replicate, reverse_onto, All, length-append, length-take,
  length-drop, length-replicate, take-append-drop, take-append, drop-append, take_all, drop_all,
  take-length_append, drop-length_append, drop-append_add, length-append₃, All-append,
  length-reverse_onto, get_elem?-some, get_elem?-lt, ◌>>=◌, ◌>>◌, assert, >>=-eq-done, Ensures,
  Ensures->>=, Ensures-done, done-injective, Exception, Outcome, done, assert_failed, aborted,
  undefined, thrown, length_error, bad_function_call, out_of_range, logic_error, update,
  update_self, update_ne, ==_refl, ne→==, magnitude, neg, is_negative, pos_part, neg_part, sub_ℕ,
  ◌+ℤ◌, ◌-ℤ◌, ◌*ℤ◌, quot, rem, ltb_ℤ, leb_ℤ, ◌≤ℤ◌, ◌<ℤ◌, +ℤ_parts, -ℤ_parts, *ℤ_parts, one_part,
  eq_of_parts, sub_ℕ-le, sub_ℕ-lt, +ℤ_assoc, +ℤ-sub, +ℤ-pos, -ℤ-pos, *ℤ-pos, signed_32, to_int_32,
  neg_parts, ℤ, pos, negsuc,
}

-- The bytes that stdio took, and the count that the object keeps. The number of bytes stays below
-- 2 ^ 63. A file is named by the second it was opened in.
pub record AppendFile : Type 0 where
  pub opened_at : ℕ
  pub bytes : List ℕ
  pub written_bytes : ℕ
  pub flushed : ℕ

-- The constructor, where `fopen` succeeded.
unfoldable pub open_file : Bool → ℕ → Outcome AppendFile
open_file true now = done (record { opened_at = now; bytes = []; written_bytes = 0; flushed = 0 })
open_file false now = assert_failed

-- The answer of a call of `fwrite_unlocked`: how much it wants to take, and whether `ferror` then
-- tells of an error. It takes no more than there is.
pub record Answer : Type 0 where
  pub amount : ℕ
  pub failed : Bool

-- What the loop of `append` comes to: the bytes that were taken, and `written`.
pub record Written : Type 0 where
  pub taken : List ℕ
  pub written : ℕ

abbrev pub more : List ℕ → ℕ → Option Written → Option Written
more got n none = none
more got n (some w) = some (record { taken = got ++ w.taken; written = n + w.written })

-- The loop, with the answers from the `k`-th call on and fuel for its rounds; `none` is fuel that ran
-- out. On an error the bytes of that call are not counted.
unfoldable pub write_loop : ℕ → (ℕ → Answer) → ℕ → List ℕ → Option Written
write_loop zero answers k rest = none
write_loop (suc fuel) answers k rest =
    let n = min (answers k).amount (length rest) in
    let later = more (take n rest) n (write_loop fuel answers (k + 1) (drop n rest)) in
    let stop = some (record { taken = take n rest; written = 0 }) in
    let round = if not (n == length rest) && (answers k).failed then stop else later in
    if length rest == 0 then some (record { taken = []; written = 0 }) else round

-- `append`; an endless loop is `undefined`.
abbrev pub add_written : AppendFile → Option Written → Outcome AppendFile
add_written f none = undefined
add_written f (some w) =
    done (record f { bytes = f.bytes ++ w.taken; written_bytes = f.written_bytes + w.written })

unfoldable pub append : (ℕ → Answer) → List ℕ → AppendFile → Outcome AppendFile
unfolding write_loop
append answers line f = add_written f (write_loop (suc (length line)) answers 0 line)

unfoldable pub flush : AppendFile → AppendFile
flush f = record f { flushed = length f.bytes }

-- KSmallBufferSize.
abbrev pub small_buffer_size : ℕ
small_buffer_size = 64 * 1024

-- `none` as `fd` is a file that was not opened.
pub record ReadSmallFile : Type 0 where
  pub fd : Option ℕ
  pub err : ℕ
  pub buffer : List ℕ

-- The constructor: what `open` gave, or its errno.
pub open_small : Option ℕ → ℕ → List ℕ → ReadSmallFile
open_small (some fd) errno memory = record { fd = some fd; err = 0; buffer = set memory 0 0 }
open_small none errno memory = record { fd = none; err = errno; buffer = set memory 0 0 }

-- What `pread` does to the buffer: bytes at its beginning, or nothing where it fails.
store_read : Option (List ℕ) → ReadSmallFile → Outcome (Option ℕ × ReadSmallFile)
store_read none f = undefined
store_read (some got) f =
    let n = length got in done (some n, record f { buffer = set (got ++ drop n f.buffer) n 0 })

-- `readToBuffer`: the error, the size if it is set, and the object. After a failed `pread` the write
-- of the 0 is in front of the buffer.
pub read_to_buffer : Option (List ℕ) → ℕ → ReadSmallFile → Outcome (ℕ × Option ℕ × ReadSmallFile)
unfolding store_read
read_to_buffer pread errno f = elim f.fd [
  | some fd ↦ do r ← store_read pread f; done (f.err, r.0, r.1)
  | none ↦ done (errno, none, f)
]
