-- ===== src/Base/AsyncLog/Tests.antt =====
-- Runs of the log, and the theorems at concrete ones.
use czy_net_frame.Common.{ℕ, ◌≡◌, refl, true, false, none, List, [], ◌∷◌, ◌++◌, arith, done}
use czy_net_frame.Base.FixedBuffer.{large_buffer}
use czy_net_frame.Base.AsyncLog.{
  AsyncLog, init, append_line, Writer, take_buffers, bytes_of, write_out,
}
use czy_net_frame.Base.AsyncLog.Pipeline.{held}
use czy_net_frame.Base.AsyncLog.Runs.{
  World, start, logs, Run, begins, goes_on, Run-stream, Run-writer,
}

-- One line was logged, and the writer has not come to it yet.
abbrev line1 : List ℕ
line1 = 104 ∷ 105 ∷ []

abbrev filled : World
filled = record start { shared = append_line init line1; logged = line1 }

filled-Run : Run filled
filled-Run = goes_on begins (logs line1 (omega arith))

run_stream_example :
    filled.writer.file ++ (bytes_of filled.writer.to_write ++ held filled.shared) ≡ line1
run_stream_example = Run-stream filled filled-Run refl

run_writer_example :
    (false ≡ false
      → (l : AsyncLog) × (w : Writer) × (take_buffers filled.shared filled.writer ≡ done (l, w)))
    × (false ≡ true → (w : Writer) × (write_out [] filled.writer ≡ done w))
run_writer_example = Run-writer filled [] filled-Run

-- A writer that was handed two buffers, and gave the spare one away.
abbrev laden : Writer
laden = record {
  new_buffer1 = none;
  new_buffer2 = none;
  to_write =
      record { size = large_buffer; written = 1 ∷ [] }
      ∷ record { size = large_buffer; written = 2 ∷ 3 ∷ [] }
      ∷ [];
  file = 9 ∷ [];
}
