-- ===== src/Base/LogFile.antt =====
-- The class of src/base/LogFile.h and LogFile.cc. The clock is an argument of each call of it, and the
-- files that were closed are kept, the last one first. A file's name is the base name, the second and
-- the process, so the second stands for it. `fopen` is taken to succeed.
pub mod Rolling
pub mod Tests
use czy_net_frame.Common.{
  ℕ, zero, suc, ◌+◌, ◌-◌, ◌*◌, ◌/◌, ◌%◌, ◌^◌, ◌≤◌, ◌<◌, min, max, ◌≡◌, refl, sym, ap, ap₂, ◌∙◌,
  subst, ◌≢◌, ◌↔◌, ◌⊎◌, inl, inr, Bool, true, false, not, ◌&&◌, ◌||◌, Option, none, some, List, [],
  ◌∷◌, ◌++◌, map, append_assoc, append-nil, arith, ltb, leb, ◌==◌, if◌then◌else◌, ltb→lt, lt→ltb,
  le→ltb, ltb→le, leb→le, lt→leb, le→leb, Bool-cases, Option-cases, ==→eq, ==→ne, leb-suc, leb→lt,
  length, get_elem?, set, take, drop, replicate, reverse_onto, All, length-append, length-take,
  length-drop, length-replicate, take-append-drop, take-append, drop-append, take_all, drop_all,
  take-length_append, drop-length_append, drop-append_add, length-append₃, All-append,
  length-reverse_onto, get_elem?-some, get_elem?-lt, ◌>>=◌, ◌>>◌, assert, >>=-eq-done, Ensures,
  Ensures->>=, Ensures-done, done-injective, Exception, Outcome, done, assert_failed, aborted,
  undefined, thrown, length_error, bad_function_call, out_of_range, logic_error, update,
  update_self, update_ne, ==_refl, ne→==, magnitude, neg, is_negative, pos_part, neg_part, sub_ℕ,
  ◌+ℤ◌, ◌-ℤ◌, ◌*ℤ◌, quot, rem, ltb_ℤ, leb_ℤ, ◌≤ℤ◌, ◌<ℤ◌, +ℤ_parts, -ℤ_parts, *ℤ_parts, one_part,
  eq_of_parts, sub_ℕ-le, sub_ℕ-lt, +ℤ_assoc, +ℤ-sub, +ℤ-pos, -ℤ-pos, *ℤ-pos, signed_32, to_int_32,
  neg_parts, ℤ, pos, negsuc,
}
use czy_net_frame.Base.FileUnit.{AppendFile, Answer, open_file, append, flush}

-- `locked` says that the calling thread holds the mutex.
pub record LogFile : Type 0 where
  pub roll_size : ℕ
  pub flush_interval : ℕ
  pub check_every_n : ℕ
  pub count : ℕ
  pub start_of_period : ℕ
  pub last_roll : ℕ
  pub last_flush : ℕ
  pub thread_safe : Bool
  pub locked : Bool
  pub file : Option AppendFile
  pub closed : List AppendFile

-- KRollPerSeconds.
abbrev pub roll_per_seconds : ℕ
roll_per_seconds = 60 * 60 * 24

abbrev pub period_of : ℕ → ℕ
period_of now = now / roll_per_seconds * roll_per_seconds

abbrev pub closed_with : Option AppendFile → List AppendFile → List AppendFile
closed_with none fs = fs
closed_with (some f) fs = f ∷ fs

-- `rollFile` at the second `now`: the result and the object.
pub roll_file : ℕ → LogFile → Outcome (Bool × LogFile)
roll_file now l =
    if ltb l.last_roll now
    then (do
      f ← open_file true now
      done (
        true,
        record l {
          last_roll = now;
          last_flush = now;
          start_of_period = period_of now;
          file = some f;
          closed = closed_with l.file l.closed;
        },
      ))
    else done (false, l)

-- The constructor. `m_threadSafe` is not set, so it is what the memory holds.
pub construct : ℕ → ℕ → ℕ → Bool → Bool → ℕ → Outcome LogFile
construct roll_size flush_interval check_every_n has_slash memory now = do
  assert (not has_slash)
  r ← roll_file now (record {
    roll_size = roll_size;
    flush_interval = flush_interval;
    check_every_n = check_every_n;
    count = 0;
    start_of_period = 0;
    last_roll = 0;
    last_flush = 0;
    thread_safe = memory;
    locked = false;
    file = none;
    closed = [];
  })
  done (r.1)

-- A use of the file; of a null pointer it is undefined.
abbrev pub with_file :
    Option AppendFile → (AppendFile → Outcome AppendFile) → LogFile → Outcome LogFile
with_file none f l = undefined
with_file (some a) f l = f a >>= λ b. done (record l { file = some b })

-- A lock of a mutex that the thread holds already is undefined.
abbrev pub guarded : (LogFile → Outcome LogFile) → LogFile → Outcome LogFile
guarded body l =
    if l.thread_safe
    then if l.locked
      then undefined
      else (body (record l { locked = true }) >>= λ r. done (record r { locked = false }))
    else body l

pub flush_file : LogFile → Outcome LogFile
flush_file l = guarded (λ r. with_file r.file (λ a. done (flush a)) r) l

abbrev pub written_of : Option AppendFile → ℕ
written_of none = 0
written_of (some a) = a.written_bytes

-- The last part of `appendFileUnlock`, at every `m_checkEveryN`-th line. `now` and `then_now` are what
-- the clock says here and in `rollFile`.
pub check : ℕ → ℕ → LogFile → Outcome LogFile
check now then_now l =
    if not (period_of now == l.start_of_period)
    then (roll_file then_now l >>= λ r. done r.1)
    else if ltb (l.last_flush + l.flush_interval) now
    then flush_file (record l { last_flush = now })
    else done l

-- What `appendFileUnlock` does behind `m_file->append`.
pub after_append : ℕ → ℕ → LogFile → Outcome LogFile
after_append now then_now l =
    if ltb l.roll_size (written_of l.file)
    then (roll_file then_now l >>= λ r. done r.1)
    else if leb l.check_every_n (l.count + 1)
    then check now then_now (record l { count = 0 })
    else done (record l { count = l.count + 1 })

pub append_file_unlock : (ℕ → Answer) → ℕ → ℕ → List ℕ → LogFile → Outcome LogFile
append_file_unlock answers now then_now line l =
    with_file l.file (append answers line) l >>= after_append now then_now

-- `append`.
pub append_line : (ℕ → Answer) → ℕ → ℕ → List ℕ → LogFile → Outcome LogFile
append_line answers now then_now line l = guarded (append_file_unlock answers now then_now line) l
