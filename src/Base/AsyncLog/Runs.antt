-- ===== src/Base/AsyncLog/Runs.antt =====
-- Whole runs of the threads that log beside the writer of Base/AsyncLog.
use czy_net_frame.Common.{
  ℕ, ◌+◌, ◌<◌, ◌≡◌, refl, sym, ap, ◌∙◌, subst, inl, inr, Bool, true, false, List, [], ◌++◌,
  append_assoc, append-nil, arith, ltb, if◌then◌else◌, Bool-cases, length, Outcome, done,
}
use czy_net_frame.Base.FixedBuffer.{large_buffer, empty}
use czy_net_frame.Base.AsyncLog.{
  AsyncLog, init, append_line, Writer, init_writer, take_buffers, bytes_of, write_out,
}
use czy_net_frame.Base.AsyncLog.Pipeline.{Front, Back, held, append_line-Front, take_buffers-Back}
use czy_net_frame.Base.AsyncLog.Writing.{written_by, write_out-Back}

-- The whole of it: whether the writer is between its two halves, the bytes logged so far, and how
-- often buffers were dropped.
pub record World : Type 0 where
  pub shared : AsyncLog
  pub writer : Writer
  pub busy : Bool
  pub logged : List ℕ
  pub drops : ℕ

abbrev pub start : World
start = record { shared = init; writer = init_writer; busy = false; logged = []; drops = 0 }

abbrev pub drops_now : Writer → ℕ
drops_now w = if ltb 25 (length w.to_write) then 1 else 0

-- A line comes from a LogStream and is shorter than a large buffer.
pub data Step : World → World → Type 0 where
  logs :
      {v : World} (line : List ℕ)
      → length line < large_buffer
      → Step v (record v { shared = append_line v.shared line; logged = v.logged ++ line })
  takes :
      {v : World} {l : AsyncLog} {w : Writer}
      → v.busy ≡ false
      → take_buffers v.shared v.writer ≡ done (l, w)
      → Step v (record v { shared = l; writer = w; busy = true })
  writes :
      {v : World} {w : Writer} (notice : List ℕ)
      → v.busy ≡ true
      → write_out notice v.writer ≡ done w
      → Step v (record v { writer = w; busy = false; drops = v.drops + drops_now v.writer })

pub data Run : World → Type 0 where
  begins : Run start
  goes_on : {v w : World} → Run v → Step v w → Run w

pub record Good (v : World) : Type 0 where
  pub front : Front v.shared
  pub back : Back v.busy v.writer
  pub stream :
      v.drops ≡ 0 → v.writer.file ++ (bytes_of v.writer.to_write ++ held v.shared) ≡ v.logged

value_of {ℓ} : {A : Type ℓ} → A → Outcome A → A
value_of a (done b) = b
value_of a _ = a

same_done {ℓ} : {A : Type ℓ} (a b : A) → done a ≡ done b → a ≡ b
unfolding value_of
same_done a b e = ap (value_of a) e

log-Good :
    (v : World) (line : List ℕ)
    → length line < large_buffer
    → Good v
    → Good (record v { shared = append_line v.shared line; logged = v.logged ++ line })
log-Good v line short g =
    let (f, e) = append_line-Front v.shared line short g.front in
    record {
      front = f;
      back = g.back;
      stream = λ z.
          ap (λ t. v.writer.file ++ (bytes_of v.writer.to_write ++ t)) e
          ∙ ap (◌++◌ v.writer.file) (sym (append_assoc (bytes_of v.writer.to_write) _ line))
          ∙ sym (append_assoc v.writer.file _ line)
          ∙ ap (λ t. t ++ line) (g.stream z);
    }

take-Good :
    (v : World) (l : AsyncLog) (w : Writer)
    → v.busy ≡ false
    → take_buffers v.shared v.writer ≡ done (l, w)
    → Good v
    → Good (record v { shared = l; writer = w; busy = true })
unfolding bytes_of
take-Good v l w e h g =
    let b = subst (λ t. Back t v.writer) e g.back in
    let (l', w', p, f, b', file, out, empty_now) = take_buffers-Back v.shared v.writer g.front b in
    let same : ◌≡◌ {A = AsyncLog × Writer} (l', w') (l, w) =
      same_done (l', w') (l, w) (sym p ∙ h) in
    subst (λ (t : AsyncLog × Writer). Good (record v { shared = t.0; writer = t.1; busy = true }))
      same
      (record {
        front = f;
        back = b';
        stream = λ z.
            ap (λ t. t ++ (bytes_of w'.to_write ++ held l')) file
            ∙ ap (λ t. v.writer.file ++ (bytes_of w'.to_write ++ t)) empty_now
            ∙ ap (◌++◌ v.writer.file) (append-nil _ ∙ out)
            ∙ ap (λ t. v.writer.file ++ (bytes_of t ++ held v.shared)) (sym b.2)
            ∙ g.stream z;
      })

write-Good :
    (v : World) (w : Writer) (notice : List ℕ)
    → v.busy ≡ true
    → write_out notice v.writer ≡ done w
    → Good v
    → Good (record v { writer = w; busy = false; drops = v.drops + drops_now v.writer })
unfolding bytes_of
write-Good v w notice e h g =
    let b = subst (λ t. Back t v.writer) e g.back in
    let (w', p, b', file) = write_out-Back notice v.writer b in
    subst (λ t. Good (record v { writer = t; busy = false; drops = v.drops + drops_now v.writer }))
      (same_done w' w (sym p ∙ h))
      (record {
        front = g.front;
        back = b';
        stream = λ z.
            let (before, none_now) = no_drop z in
            ap (λ t. w'.file ++ (bytes_of t ++ held v.shared)) b'.2
            ∙ ap (λ t. t ++ held v.shared) (file ∙ ap (◌++◌ v.writer.file) none_now)
            ∙ append_assoc v.writer.file _ _
            ∙ g.stream before;
      })
  where
    no_drop :
        v.drops + drops_now v.writer ≡ 0
        → (v.drops ≡ 0) × (written_by notice v.writer.to_write ≡ bytes_of v.writer.to_write)
    no_drop z = elim (Bool-cases (ltb 25 (length v.writer.to_write))) [
      | inl y ↦ absurd (omega (arith, z, ap {B = ℕ} (λ t. if t then 1 else 0) y))
      | inr n ↦ (omega (arith, z), rw n refl)
    ]

Step-Good : (v w : World) → Step v w → Good v → Good w
Step-Good v w (logs line short) g = log-Good v line short g
Step-Good v w (takes {l = l} {w = x} e h) g = take-Good v l x e h g
Step-Good v w (writes {w = x} notice e h) g = write-Good v x notice e h g

pub Run-Good : (v : World) → Run v → Good v
unfolding init init_writer bytes_of
Run-Good v begins = record {
  front = record {
    sized = refl;
    all_sized = tt;
    spare = inl (empty large_buffer, refl, refl, refl);
  };
  back = ((empty large_buffer, refl, refl, refl), (empty large_buffer, refl, refl, refl), refl);
  stream = λ z. refl;
}
Run-Good w (goes_on {v = v} r s) = Step-Good v w s (Run-Good v r)

-- In whatever order the threads log and the writer takes its turns, as long as no buffers were
-- dropped: the bytes in the file, in the buffers being written and in the buffers being filled are
-- together all bytes logged, in the order of logging.
pub Run-stream :
    (v : World)
    → Run v
    → v.drops ≡ 0
    → v.writer.file ++ (bytes_of v.writer.to_write ++ held v.shared) ≡ v.logged
Run-stream v r = (Run-Good v r).stream

-- The writer is never stopped by one of its assertions, and never finds a null pointer: in every
-- state that can be reached the half of the turn that comes next succeeds, whatever notice is
-- written.
pub Run-writer :
    (v : World) (notice : List ℕ)
    → Run v
    → (v.busy ≡ false
        → (l : AsyncLog) × (w : Writer) × (take_buffers v.shared v.writer ≡ done (l, w)))
      × (v.busy ≡ true → (w : Writer) × (write_out notice v.writer ≡ done w))
Run-writer v notice r =
    let g = Run-Good v r in
    (
      λ e.
          let (l, w, p, _, _, _, _, _) =
            take_buffers-Back v.shared v.writer g.front (subst (λ t. Back t v.writer) e g.back) in
          (l, w, p),
      λ e.
          let (w, p, _, _) =
            write_out-Back notice v.writer (subst (λ t. Back t v.writer) e g.back) in
          (w, p),
    )
