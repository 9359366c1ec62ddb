-- ===== src/Base/LogFile/Rolling.antt =====
-- The lines in the files of Base/LogFile, over rolling and flushing.
use czy_net_frame.Common.{
  ℕ, ◌+◌, ◌≤◌, ◌<◌, ◌≡◌, refl, sym, ap, ap₂, ◌∙◌, subst, ◌⊎◌, inl, inr, Bool, true, false, not,
  some, List, [], ◌∷◌, ◌++◌, append_assoc, append-nil, arith, ltb, leb, ◌==◌, if◌then◌else◌, lt→ltb,
  le→ltb, ltb→le, le→leb, Bool-cases, length, ◌>>=◌, Outcome, done, undefined,
}
use czy_net_frame.Base.FileUnit.{AppendFile, Answer, open_file, flush}
use czy_net_frame.Base.FileUnit.Writing.{MakesProgress, NeverFails, append-NeverFails}
use czy_net_frame.Base.LogFile.{
  LogFile, closed_with, period_of, roll_file, guarded, flush_file, written_of, check, after_append,
  append_file_unlock, append_line,
}

-- The bytes of files, the last one first, in the order in which they were written.
abbrev pub bytes_in : List AppendFile → List ℕ
bytes_in [] = []
bytes_in (f ∷ fs) = bytes_in fs ++ f.bytes

abbrev pub all_bytes : LogFile → List ℕ
all_bytes l = bytes_in (closed_with l.file l.closed)

-- The object has a file, and after the call `l` all files hold `bytes`. No file is longer than the
-- limit, unless it was opened in the second in which the next one would be.
pub record Holds (before : LogFile) (then_now : ℕ) (bytes : List ℕ) (l : LogFile) : Type 0 where
  pub current : AppendFile
  pub has_file : l.file ≡ some current
  pub together : all_bytes l ≡ bytes
  pub limit : (current.written_bytes ≤ before.roll_size) ⊎ (then_now ≤ before.last_roll)

module _ (l : LogFile) (f : AppendFile) (has : l.file ≡ some f) where
  abbrev new_file : ℕ → AppendFile
  new_file now = record { opened_at = now; bytes = []; written_bytes = 0; flushed = 0 }

  abbrev rolled : ℕ → LogFile
  rolled now = record l {
    last_roll = now;
    last_flush = now;
    start_of_period = period_of now;
    file = some (new_file now);
    closed = closed_with l.file l.closed;
  }

  roll_file-Holds :
      (then_now : ℕ)
      → (l' : LogFile) × ((roll_file then_now l >>= λ r. done r.1) ≡ done l')
        × Holds l then_now (all_bytes l) l'
  unfolding roll_file open_file
  roll_file-Holds then_now = elim (Bool-cases (ltb l.last_roll then_now)) [
    | inl p ↦ (
      rolled then_now,
      rw p refl,
      record {
        current = new_file then_now;
        has_file = refl;
        together = append-nil (all_bytes l);
        limit = inl (omega arith);
      },
    )
    | inr p ↦ (
      l,
      rw p refl,
      record { current = f; has_file = has; together = refl; limit = inr (ltb→le _ _ p) },
    )
  ]

-- Flushing, where the mutex is not in the way.
flush_file-eq :
    (l : LogFile) (f : AppendFile)
    → l.file ≡ some f
    → l.thread_safe ≡ false
    → flush_file l ≡ done (record l { file = some (flush f) })
unfolding flush_file
flush_file-eq l f has unsafe = rw (unsafe, has) refl

module _ (l : LogFile) (f : AppendFile) (has : l.file ≡ some f) (unsafe : l.thread_safe ≡ false)
    (small : f.written_bytes ≤ l.roll_size) where
  check-Holds :
      (now then_now : ℕ)
      → (l' : LogFile) × (check now then_now l ≡ done l') × Holds l then_now (all_bytes l) l'
  unfolding check flush
  check-Holds now then_now = elim (Bool-cases (not (period_of now == l.start_of_period))) [
    | inl p ↦ let r = roll_file-Holds l f has then_now in (r.0, rw p r.1, r.2)
    | inr p ↦ elim (Bool-cases (ltb (l.last_flush + l.flush_interval) now)) [
      | inl q ↦
          let l1 : LogFile = record l { last_flush = now } in
          (
            record l1 { file = some (flush f) },
            rw (p, q) (flush_file-eq l1 f has unsafe),
            record {
              current = flush f;
              has_file = refl;
              together = ap (λ o. bytes_in (closed_with o l.closed)) (sym has);
              limit = inl small;
            },
          )
      | inr q ↦ (
        l,
        rw (p, q) refl,
        record { current = f; has_file = has; together = refl; limit = inl small },
      )
    ]
  ]

after_append-Holds :
    (l : LogFile) (f : AppendFile) (now then_now : ℕ)
    → l.file ≡ some f
    → l.thread_safe ≡ false
    → (l' : LogFile) × (after_append now then_now l ≡ done l') × Holds l then_now (all_bytes l) l'
unfolding after_append
after_append-Holds l f now then_now has unsafe =
    elim (Bool-cases (ltb l.roll_size (written_of l.file))) [
      | inl p ↦ let r = roll_file-Holds l f has then_now in (r.0, rw p r.1, r.2)
      | inr p ↦
          let small = subst (λ o. written_of o ≤ l.roll_size) has (ltb→le _ _ p) in
          elim (Bool-cases (leb l.check_every_n (l.count + 1))) [
            | inl q ↦
                let l1 : LogFile = record l { count = 0 } in
                let r = check-Holds l1 f has unsafe small now then_now in
                let h = r.2 in
                (
                  r.0,
                  rw (p, q) r.1,
                  record {
                    current = h.current;
                    has_file = h.has_file;
                    together = h.together;
                    limit = h.limit;
                  },
                )
            | inr q ↦ (
              record l { count = l.count + 1 },
              rw (p, q) refl,
              record { current = f; has_file = has; together = refl; limit = inl small },
            )
          ]
    ]

unlock : Outcome LogFile → Outcome LogFile
unlock m = m >>= λ r. done (record r { locked = false })

-- The three ways through a guarded section.
guarded-cases :
    (body : LogFile → Outcome LogFile) (l : LogFile) (safe held : Bool)
    → l.thread_safe ≡ safe
    → l.locked ≡ held
    → guarded body l ≡ (
        if safe
        then if held then undefined else unlock (body (record l { locked = true }))
        else body l)
unfolding unlock
guarded-cases body l safe held e h =
    ap₂
      (λ s o.
        if s then if o then undefined else unlock (body (record l { locked = true })) else body l)
      e h

abbrev longer : List ℕ → AppendFile → AppendFile
longer line f = record f { bytes = f.bytes ++ line; written_bytes = f.written_bytes + length line }

append_file_unlock-eq :
    (answers : ℕ → Answer) (now then_now : ℕ) (line : List ℕ) (l : LogFile) (f : AppendFile)
    → MakesProgress answers
    → NeverFails answers
    → l.file ≡ some f
    → append_file_unlock answers now then_now line l
      ≡ after_append now then_now (record l { file = some (longer line f) })
unfolding append_file_unlock
append_file_unlock-eq answers now then_now line l f progress never has =
    rw (has, append-NeverFails answers line f progress never) refl

-- A line appended to a log file that has a file and is not thread-safe stands behind all earlier
-- lines in its files, over rolling and flushing, and the current file is then no longer than the
-- limit, unless it was opened in the second in which the next would be; the calls of fwrite make
-- progress and do not fail.
pub append_line-Holds :
    (answers : ℕ → Answer) (now then_now : ℕ) (line : List ℕ) (l : LogFile) (f : AppendFile)
    → MakesProgress answers
    → NeverFails answers
    → l.file ≡ some f
    → l.thread_safe ≡ false
    → (l' : LogFile) × (append_line answers now then_now line l ≡ done l')
      × Holds l then_now (all_bytes l ++ line) l'
unfolding append_line
append_line-Holds answers now then_now line l f progress never has unsafe =
    let l1 : LogFile = record l { file = some (longer line f) } in
    let (l', e, h) = after_append-Holds l1 (longer line f) now then_now refl unsafe in
    (
      l',
      guarded-cases (append_file_unlock answers now then_now line) l false l.locked unsafe refl
          ∙ append_file_unlock-eq answers now then_now line l f progress never has
          ∙ e,
      record {
        current = h.current;
        has_file = h.has_file;
        together = h.together ∙ same_bytes;
        limit = h.limit;
      },
    )
  where
    same_bytes : bytes_in l.closed ++ (f.bytes ++ line) ≡ all_bytes l ++ line
    same_bytes =
        sym (append_assoc (bytes_in l.closed) f.bytes line)
        ∙ ap (λ o. bytes_in (closed_with o l.closed) ++ line) (sym has)

flush_file-locked :
    (l : LogFile) → l.thread_safe ≡ true → l.locked ≡ true → flush_file l ≡ undefined
unfolding flush_file
flush_file-locked l safe locked = rw (safe, locked) refl

check-flush :
    (now then_now : ℕ) (l : LogFile)
    → period_of now ≡ l.start_of_period
    → l.last_flush + l.flush_interval < now
    → check now then_now l ≡ flush_file (record l { last_flush = now })
unfolding check
check-flush now then_now l same late =
    let p : not (period_of now == l.start_of_period) ≡ false = ground (arith, same) in
    rw (p, lt→ltb _ _ late) refl

after_append-check :
    (now then_now : ℕ) (l : LogFile)
    → written_of l.file ≤ l.roll_size
    → l.check_every_n ≤ l.count + 1
    → after_append now then_now l ≡ check now then_now (record l { count = 0 })
unfolding after_append
after_append-check now then_now l small due = rw (le→ltb _ _ small, le→leb _ _ due) refl

-- A thread-safe log file locks its mutex twice when a line that does not fill the file is due
-- for a flush, on the day of the file and later than the interval.
pub append_line-deadlock :
    (answers : ℕ → Answer) (now then_now : ℕ) (line : List ℕ) (l : LogFile) (f : AppendFile)
    → MakesProgress answers
    → NeverFails answers
    → l.file ≡ some f
    → l.thread_safe ≡ true
    → l.locked ≡ false
    → f.written_bytes + length line ≤ l.roll_size
    → l.check_every_n ≤ l.count + 1
    → period_of now ≡ l.start_of_period
    → l.last_flush + l.flush_interval < now
    → append_line answers now then_now line l ≡ undefined
unfolding append_line unlock
append_line-deadlock answers now then_now line l f progress never has safe free small due same
      late =
    let l1 : LogFile = record l { locked = true } in
    let l2 : LogFile = record l1 { file = some (longer line f) } in
    let l3 : LogFile = record l2 { count = 0 } in
    let body =
      append_file_unlock-eq answers now then_now line l1 f progress never has
      ∙ after_append-check now then_now l2 small due
      ∙ check-flush now then_now l3 same late
      ∙ flush_file-locked (record l3 { last_flush = now }) safe refl in
    guarded-cases (append_file_unlock answers now then_now line) l true false safe free
    ∙ ap unlock body
