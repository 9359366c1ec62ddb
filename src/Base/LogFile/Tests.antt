-- ===== src/Base/LogFile/Tests.antt =====
-- Lines appended to a log file, given to the theorems on src/base/LogFile.cc and FileUnit.cc.
use czy_net_frame.Common.{
  ℕ, ◌+◌, ◌≡◌, refl, inl, Bool, true, false, some, [], ◌∷◌, ◌++◌, arith, done, undefined,
}
use czy_net_frame.Base.FileUnit.{AppendFile, Answer, Written, append}
use czy_net_frame.Base.FileUnit.Writing.{MakesProgress, IsWritten, append-IsWritten}
use czy_net_frame.Base.LogFile.{LogFile, append_line}
use czy_net_frame.Base.LogFile.Rolling.{Holds, append_line-Holds, append_line-deadlock}

-- Two bytes at a time, without an error.
abbrev in_pairs : ℕ → Answer
in_pairs k = record { amount = 2; failed = false }

in_pairs-MakesProgress : MakesProgress in_pairs
in_pairs-MakesProgress k = inl (omega arith)

abbrev file : AppendFile
file = record { opened_at = 90000; bytes = 1 ∷ 2 ∷ []; written_bytes = 2; flushed = 0 }

append-IsWritten_example :
    (w : Written) × IsWritten in_pairs (7 ∷ 8 ∷ 9 ∷ []) w
    × (append in_pairs (7 ∷ 8 ∷ 9 ∷ []) file
        ≡ done (record file {
          bytes = file.bytes ++ w.taken;
          written_bytes = file.written_bytes + w.written;
        }))
append-IsWritten_example = append-IsWritten in_pairs (7 ∷ 8 ∷ 9 ∷ []) file in_pairs-MakesProgress

-- A limit of 4 bytes, and a check at every line.
abbrev log_file : Bool → LogFile
log_file safe = record {
  roll_size = 4;
  flush_interval = 3;
  check_every_n = 1;
  count = 0;
  start_of_period = 86400;
  last_roll = 90000;
  last_flush = 90000;
  thread_safe = safe;
  locked = false;
  file = some file;
  closed = [];
}

append_line-Holds_example :
    (l' : LogFile) × (append_line in_pairs 90001 90001 (7 ∷ 8 ∷ 9 ∷ []) (log_file false) ≡ done l')
    × Holds (log_file false) 90001 (1 ∷ 2 ∷ 7 ∷ 8 ∷ 9 ∷ []) l'
append_line-Holds_example =
    append_line-Holds in_pairs 90001 90001 (7 ∷ 8 ∷ 9 ∷ []) (log_file false) file
      in_pairs-MakesProgress (λ k. refl) refl refl

append_line-deadlock_example : append_line in_pairs 90004 90004 (7 ∷ []) (log_file true) ≡ undefined
append_line-deadlock_example =
    append_line-deadlock in_pairs 90004 90004 (7 ∷ []) (log_file true) file in_pairs-MakesProgress
      (λ k. refl) refl refl refl (omega arith) (omega arith) refl (omega arith)
