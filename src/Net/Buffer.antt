-- ===== src/Net/Buffer.antt =====
-- The byte buffer of src/net/Buffer.h and Buffer.cc. A method that changes the object returns the
-- new object; a byte is a number, and a `size_t` wraps at 2 ^ 64.
pub mod Contents
pub mod Room
pub mod Write
pub mod Read
pub mod ReadFd
pub mod Search
pub mod Integers
pub mod Tests
use mathlib.Core.Option
use czy_net_frame.Common.{
  ℕ, zero, suc, ◌+◌, ◌-◌, ◌*◌, ◌/◌, ◌%◌, ◌^◌, ◌≤◌, ◌<◌, min, max, ◌≡◌, refl, sym, ap, ap₂, ◌∙◌,
  subst, ◌≢◌, ◌↔◌, ◌⊎◌, inl, inr, Bool, true, false, not, ◌&&◌, ◌||◌, Option, none, some, List, [],
  ◌∷◌, ◌++◌, map, append_assoc, append-nil, arith, ltb, leb, ◌==◌, if◌then◌else◌, ltb→lt, lt→ltb,
  le→ltb, ltb→le, leb→le, lt→leb, le→leb, Bool-cases, Option-cases, ==→eq, ==→ne, leb-suc, leb→lt,
  length, get_elem?, set, take, drop, replicate, reverse_onto, All, length-append, length-take,
  length-drop, length-replicate, take-append-drop, take-append, drop-append, take_all, drop_all,
  take-length_append, drop-length_append, drop-append_add, length-append₃, All-append,
  length-reverse_onto, get_elem?-some, get_elem?-lt, length-map, ◌>>=◌, ◌>>◌, assert, >>=-eq-done,
  Ensures, Ensures->>=, Ensures-done, done-injective, Exception, Outcome, done, assert_failed,
  aborted, undefined, thrown, length_error, bad_function_call, out_of_range, logic_error, update,
  update_self, update_ne, ==_refl, ne→==, magnitude, neg, is_negative, pos_part, neg_part, sub_ℕ,
  ◌+ℤ◌, ◌-ℤ◌, ◌*ℤ◌, quot, rem, ltb_ℤ, leb_ℤ, ◌≤ℤ◌, ◌<ℤ◌, +ℤ_parts, -ℤ_parts, *ℤ_parts, one_part,
  eq_of_parts, sub_ℕ-le, sub_ℕ-lt, +ℤ_assoc, +ℤ-sub, +ℤ-pos, -ℤ-pos, *ℤ-pos, signed_32, to_int_32,
  neg_parts, ℤ, pos, negsuc,
}

pub record Buffer : Type 0 where
  pub buffer : List ℕ
  pub reader_index : ℕ
  pub writer_index : ℕ

abbrev pub cheap_prepend : ℕ
cheap_prepend = 8

abbrev pub initial_size : ℕ
initial_size = 1024

-- `std::vector<char>::max_size()`; a larger `resize` throws `std::length_error`.
abbrev pub max_size : ℕ
max_size = 2 ^ 63 - 1

abbrev pub add_size : ℕ → ℕ → ℕ
add_size a b = (a + b) % 2 ^ 64

abbrev pub sub_size : ℕ → ℕ → ℕ
sub_size a b = (a + 2 ^ 64 - b) % 2 ^ 64

-- `buffer_(kCheapPrepend + initialSize)` and the two indices.
pub init : ℕ → Buffer
init size = record {
  buffer = replicate (cheap_prepend + size) 0;
  reader_index = cheap_prepend;
  writer_index = cheap_prepend;
}

abbrev pub readable_bytes : Buffer → ℕ
readable_bytes b = sub_size b.writer_index b.reader_index

abbrev pub writable_bytes : Buffer → ℕ
writable_bytes b = sub_size (length b.buffer) b.writer_index

abbrev pub prependable_bytes : Buffer → ℕ
prependable_bytes b = b.reader_index

-- The `len` bytes from index `i`; reading past the end is undefined.
pub read_at : List ℕ → ℕ → ℕ → Outcome (List ℕ)
read_at xs i len = if leb (i + len) (length xs) then done (take len (drop i xs)) else undefined

-- `std::copy` of `d` to index `i`; writing past the end is undefined.
pub copy_to : List ℕ → ℕ → List ℕ → Outcome (List ℕ)
copy_to xs i d =
    if leb (i + length d) (length xs)
    then done (take i xs ++ (d ++ drop (i + length d) xs))
    else undefined

-- `vector::resize`: new bytes are 0.
pub resize : List ℕ → ℕ → Outcome (List ℕ)
resize xs n =
    if ltb max_size n then thrown length_error else done (take n xs ++ replicate (n - length xs) 0)

pub retrieve_all : Buffer → Buffer
retrieve_all b = record b { reader_index = cheap_prepend; writer_index = cheap_prepend }

pub retrieve : Buffer → ℕ → Outcome Buffer
unfolding retrieve_all
retrieve b len = do
  assert (leb len (readable_bytes b))
  done (
      if ltb len (readable_bytes b)
      then record b { reader_index = add_size b.reader_index len }
      else retrieve_all b)

-- The returned string and the buffer behind it.
pub retrieve_as_string : Buffer → ℕ → Outcome (List ℕ × Buffer)
retrieve_as_string b len = do
  assert (leb len (readable_bytes b))
  result ← read_at b.buffer b.reader_index len
  b' ← retrieve b len
  done (result, b')

pub retrieve_all_as_string : Buffer → Outcome (List ℕ × Buffer)
retrieve_all_as_string b = retrieve_as_string b (readable_bytes b)

-- The `readableBytes()` bytes from `peek()` on.
pub peek_all : Buffer → Outcome (List ℕ)
peek_all b = read_at b.buffer b.reader_index (readable_bytes b)

-- A length of type `int` where a `size_t` is expected.
abbrev pub size_of_int : ℤ → ℕ
size_of_int (pos n) = n
size_of_int (negsuc n) = 2 ^ 64 - 1 - n

-- `toStringPiece`: the bytes of the piece, whose length is an `int`.
pub to_string_piece : Buffer → Outcome (List ℕ)
to_string_piece b =
    read_at b.buffer b.reader_index (size_of_int (to_int_32 (pos (readable_bytes b))))

pub has_written : Buffer → ℕ → Outcome Buffer
has_written b len = do
  assert (leb len (writable_bytes b))
  done (record b { writer_index = add_size b.writer_index len })

pub unwrite : Buffer → ℕ → Outcome Buffer
unwrite b len = do
  assert (leb len (readable_bytes b))
  done (record b { writer_index = sub_size b.writer_index len })

-- The second branch of `makeSpace`: the readable bytes go to the front.
pub compact : Buffer → Outcome Buffer
compact b = do
  assert (ltb cheap_prepend b.reader_index)
  let readable = readable_bytes b
  kept ← read_at b.buffer b.reader_index readable
  moved ← copy_to b.buffer cheap_prepend kept
  let b' : Buffer = record {
    buffer = moved;
    reader_index = cheap_prepend;
    writer_index = add_size cheap_prepend readable;
  }
  assert (readable == readable_bytes b')
  done b'

pub grow : Buffer → ℕ → Outcome Buffer
grow b len = do
  bytes ← resize b.buffer (add_size b.writer_index len)
  done (record b { buffer = bytes })

pub make_space : Buffer → ℕ → Outcome Buffer
unfolding grow compact
make_space b len =
    if ltb (add_size (writable_bytes b) (prependable_bytes b)) (add_size len cheap_prepend)
    then grow b len
    else compact b

pub ensure_writable_bytes : Buffer → ℕ → Outcome Buffer
ensure_writable_bytes b len = do
  b' ← if ltb (writable_bytes b) len then make_space b len else done b
  assert (leb len (writable_bytes b'))
  done b'

pub append : Buffer → List ℕ → Outcome Buffer
append b d = do
  b' ← ensure_writable_bytes b (length d)
  bytes ← copy_to b'.buffer b'.writer_index d
  has_written (record b' { buffer = bytes }) (length d)

pub prepend : Buffer → List ℕ → Outcome Buffer
prepend b d = do
  assert (leb (length d) (prependable_bytes b))
  let reader = sub_size b.reader_index (length d)
  bytes ← copy_to b.buffer reader d
  done (record b { buffer = bytes; reader_index = reader })

-- `shrink`: a fresh buffer takes the readable bytes, and is swapped in.
pub shrink : Buffer → ℕ → Outcome Buffer
unfolding init
shrink b reserve = do
  other ← ensure_writable_bytes (init initial_size) (add_size (readable_bytes b) reserve)
  piece ← to_string_piece b
  append other piece

-- `Buffer::swap`.
pub swap : Buffer → Buffer → Buffer × Buffer
swap b rhs = (rhs, b)

-- `retrieveUntil`: `end` is a pointer, given by its index in the vector.
pub retrieve_until : Buffer → ℕ → Outcome Buffer
retrieve_until b end = do
  assert (leb b.reader_index end)
  assert (leb end b.writer_index)
  retrieve b (sub_size end b.reader_index)

-- `std::search` for "\r\n": how far behind the start the first match lies.
pub search_crlf : List ℕ → Option ℕ
search_crlf [] = none
search_crlf (c ∷ []) = none
search_crlf (c ∷ d ∷ cs) =
    if (c == 13) && (d == 10) then some 0 else Option.map suc (search_crlf (d ∷ cs))

-- `memchr` for '\n'.
pub search_eol : List ℕ → Option ℕ
search_eol [] = none
search_eol (c ∷ cs) = if c == 10 then some 0 else Option.map suc (search_eol cs)

-- `findCRLF(start)` and `findEOL(start)`: pointers are indices, and NULL is `none`.
pub find_crlf_from : Buffer → ℕ → Outcome (Option ℕ)
find_crlf_from b start = do
  assert (leb b.reader_index start)
  assert (leb start b.writer_index)
  bytes ← read_at b.buffer start (sub_size b.writer_index start)
  done (Option.map (λ n. add_size start n) (search_crlf bytes))

pub find_eol_from : Buffer → ℕ → Outcome (Option ℕ)
find_eol_from b start = do
  assert (leb b.reader_index start)
  assert (leb start b.writer_index)
  bytes ← read_at b.buffer start (sub_size b.writer_index start)
  done (Option.map (λ n. add_size start n) (search_eol bytes))

-- `findCRLF()` and `findEOL()` start at `peek()`.
pub find_crlf : Buffer → Outcome (Option ℕ)
find_crlf b = do
  bytes ← read_at b.buffer b.reader_index (readable_bytes b)
  done (Option.map (λ n. add_size b.reader_index n) (search_crlf bytes))

pub find_eol : Buffer → Outcome (Option ℕ)
find_eol b = do
  bytes ← read_at b.buffer b.reader_index (readable_bytes b)
  done (Option.map (λ n. add_size b.reader_index n) (search_eol bytes))

-- What `readv` reports: an errno, or the bytes that it received.
pub data Received : Type 0 where
  failed : ℕ → Received
  received : List ℕ → Received

abbrev pub extra_size : ℕ
extra_size = 65536

-- The lengths of the buffers that are offered to `readv`: `extrabuf` joins the free part when that
-- is the shorter one.
pub offered : Buffer → List ℕ
offered b =
    if ltb (writable_bytes b) extra_size
    then writable_bytes b ∷ extra_size ∷ []
    else writable_bytes b ∷ []

-- What `readFd` returns (-1 as `none`), the errno that it saves, and the buffer. The kernel has
-- put the received bytes into the free part first and what is left into `extrabuf`.
pub record ReadResult : Type 0 where
  pub count : Option ℕ
  pub saved_errno : Option ℕ
  pub after : Buffer

-- The branches on what `readv` returned. The kernel has put the bytes into the free part first and
-- what is left over into `extrabuf`.
pub store_received : Buffer → Received → Outcome ReadResult
store_received b (failed errno) =
    done (record { count = none; saved_errno = some errno; after = b })
store_received b (received bytes) = do
  let writable = writable_bytes b
  let n = length bytes
  stored ← copy_to b.buffer b.writer_index (take writable bytes)
  let full : Buffer = record b { buffer = stored; writer_index = length stored }
  after ←
      if leb n writable
      then done (record b { buffer = stored; writer_index = add_size b.writer_index n })
      else append full (drop writable bytes)
  done (record { count = some n; saved_errno = none; after = after })

-- `readv` is given the lengths that it may fill.
pub read_fd : (List ℕ → Received) → Buffer → Outcome ReadResult
unfolding offered store_received
read_fd readv b = store_received b (readv (offered b))
