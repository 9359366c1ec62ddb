-- ===== src/Base/AsyncLog.antt =====
-- src/base/AsyncLog.h and AsyncLog.cc: the threads that log fill buffers under a mutex, and the
-- writer's thread takes the full ones and writes them to the file.
-- `m_currentBuffer` is never null when the mutex is free: the writer asserts that `newBuffer1` is
-- there before it moves it in. The file of src/base/LogFile.cc is the sequence of bytes it was given.
pub mod Pipeline
pub mod Writing
pub mod Runs
pub mod Tests
use czy_net_frame.Common.{
  ℕ, zero, suc, ◌+◌, ◌-◌, ◌*◌, ◌/◌, ◌%◌, ◌^◌, ◌≤◌, ◌<◌, min, max, ◌≡◌, refl, sym, ap, ap₂, ◌∙◌,
  subst, ◌≢◌, ◌↔◌, ◌⊎◌, inl, inr, Bool, true, false, not, ◌&&◌, ◌||◌, Option, none, some, List, [],
  ◌∷◌, ◌++◌, map, append_assoc, append-nil, arith, ltb, leb, ◌==◌, if◌then◌else◌, ltb→lt, lt→ltb,
  le→ltb, ltb→le, leb→le, lt→leb, le→leb, Bool-cases, Option-cases, length, get_elem?, set, take,
  drop, replicate, All, length-append, length-take, length-drop, length-replicate, take-append-drop,
  take-append, drop-append, take_all, drop_all, take-length_append, drop-length_append,
  drop-append_add, length-append₃, All-append, ◌>>=◌, ◌>>◌, assert, >>=-eq-done, Exception, Outcome,
  done, assert_failed, aborted, undefined, thrown, length_error, bad_function_call, out_of_range,
  logic_error, update, update_self, update_ne, ==_refl, ne→==,
}
use czy_net_frame.Base.FixedBuffer.{FixedBuffer, large_buffer, empty, avail, append, reset}

-- What the mutex guards.
pub record AsyncLog : Type 0 where
  pub current : FixedBuffer
  pub next : Option FixedBuffer
  pub vec : List FixedBuffer

pub init : AsyncLog
init = record { current = empty large_buffer; next = some (empty large_buffer); vec = [] }

-- The buffer that comes after a full one.
spare : Option FixedBuffer → FixedBuffer
spare (some b) = b
spare none = empty large_buffer

-- `append`, under the mutex.
pub append_line : AsyncLog → List ℕ → AsyncLog
unfolding spare append
append_line l line =
    if ltb (length line) (avail l.current)
    then record l { current = append l.current line }
    else record {
      current = append (spare l.next) line;
      next = none;
      vec = l.vec ++ (l.current ∷ []);
    }

-- The local variables of `threadFunc`, and the bytes that went to the file.
pub record Writer : Type 0 where
  pub new_buffer1 : Option FixedBuffer
  pub new_buffer2 : Option FixedBuffer
  pub to_write : List FixedBuffer
  pub file : List ℕ

pub init_writer : Writer
init_writer = record {
  new_buffer1 = some (empty large_buffer);
  new_buffer2 = some (empty large_buffer);
  to_write = [];
  file = [];
}

-- `newBuffer && newBuffer->length() == 0`.
is_fresh : Option FixedBuffer → Bool
is_fresh none = false
is_fresh (some b) = length b.written == 0

is_null : Option FixedBuffer → Bool
is_null none = true
is_null (some b) = false

-- What happens under the mutex, with `newBuffer1` moved to `m_currentBuffer`.
exchange : AsyncLog → Writer → FixedBuffer → AsyncLog × Writer
unfolding is_null
exchange l w first = (
  record { current = first; next = if is_null l.next then w.new_buffer2 else l.next; vec = [] },
  record w {
    new_buffer1 = none;
    new_buffer2 = if is_null l.next then none else w.new_buffer2;
    to_write = l.vec ++ (l.current ∷ []);
  },
)

exchange_from : Option FixedBuffer → AsyncLog → Writer → Outcome (AsyncLog × Writer)
unfolding exchange
exchange_from none l w = undefined
exchange_from (some first) l w = done (exchange l w first)

-- The first half of a turn of `threadFunc`.
pub take_buffers : AsyncLog → Writer → Outcome (AsyncLog × Writer)
unfolding is_fresh exchange_from
take_buffers l w = do
  assert (is_fresh w.new_buffer1)
  assert (is_fresh w.new_buffer2)
  assert (length w.to_write == 0)
  exchange_from w.new_buffer1 l w

-- More than 25 buffers: the rest is dropped behind the first two, and a notice is written.
pub drop_excess : List ℕ → Writer → Writer
drop_excess notice w =
    if ltb 25 (length w.to_write)
    then record w { to_write = take 2 w.to_write; file = w.file ++ notice }
    else w

pub bytes_of : List FixedBuffer → List ℕ
bytes_of [] = []
bytes_of (b ∷ bs) = b.written ++ bytes_of bs

pub write_all : Writer → Writer
unfolding bytes_of
write_all w = record w { file = w.file ++ bytes_of w.to_write }

-- `back` and `pop_back` of a vector that is asserted not to be empty.
pop_back : List FixedBuffer → Outcome (FixedBuffer × List FixedBuffer)
pop_back [] = assert_failed
pop_back (b ∷ []) = done (b, [])
pop_back (b ∷ c ∷ bs) = do (last, rest) ← pop_back (c ∷ bs); done (last, b ∷ rest)

-- A null buffer is replaced by one that was written.
pub refill : Option FixedBuffer → List FixedBuffer → Outcome (Option FixedBuffer × List FixedBuffer)
unfolding pop_back
refill (some b) bs = done (some b, bs)
refill none bs = do (last, rest) ← pop_back bs; done (some (reset last), rest)

-- The second half of a turn; `notice` is the text about dropped messages.
pub write_out : List ℕ → Writer → Outcome Writer
unfolding drop_excess write_all refill
write_out notice w = do
  let w1 = write_all (drop_excess notice w)
  let kept = if ltb 2 (length w1.to_write) then take 2 w1.to_write else w1.to_write
  (first, rest) ← refill w1.new_buffer1 kept
  (second, others) ← refill w1.new_buffer2 rest
  done (record w1 { new_buffer1 = first; new_buffer2 = second; to_write = [] })
