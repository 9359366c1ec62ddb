-- ===== src/Net/TcpConnection/Lifetime/Runs.antt =====
-- The calls of Net/TcpConnection/Lifetime that a user makes, and whole runs.
use czy_net_frame.Common.{
  ℕ, suc, ◌≤◌, ◌<◌, ◌≡◌, refl, ap, ◌∙◌, subst, ◌⊎◌, inl, inr, Bool, true, false, not, ◌||◌, List,
  ◌∷◌, arith, if◌then◌else◌, Bool-cases, ◌>>=◌, >>=-eq-done, Outcome, done, assert_failed, aborted,
  undefined, thrown,
}
use czy_net_frame.Net.Buffer.{Buffer, to_string_piece, retrieve_all, retrieve_all_as_string}
use czy_net_frame.Net.Channel.{is_reading}
use czy_net_frame.Net.Poller.{Poller, enable_read, disable_read, disable_all, remove}
use czy_net_frame.Net.TcpConnection.{
  TcpConnection, ConnectionStat, connected, connecting, disconnected, disconnecting, Task,
  send_finish_task, high_water_task, send_task, shutdown_task, force_close_task, start_read_task,
  stop_read_task, up_or_down, Written, own_channel, add_event, queue_in_loop, is_stat, is_open,
  with_poller, shutdown_in_loop, shut_down, force_close, force_close_with_delay, start_read_in_loop,
  stop_read_in_loop, start_read, stop_read, tie_own, connection_established, connection_destroy,
}
use czy_net_frame.Net.TcpConnection.Sending.{send_in_loop, send, send_buffer}
use czy_net_frame.Net.TcpConnection.Tasks.{run_task}
use czy_net_frame.Net.TcpConnection.Lifetime.{
  rank, closes, Step, switches, reads, writes, sends, sends_buffer, shuts_down, forces_close,
  forces_close_later, starts_read, stops_read, establishes, destroys, runs, Run, stays, goes_on,
  Ages, AgesIn, Ages-same, Ages-done, Ages-if, Ages-assert, Ages-from, Ages-aged, Ages-poller,
  Ages-wired, is_stat-eq, is_open-rank,
}
use czy_net_frame.Net.TcpConnection.Lifetime.Calls.{
  Alike-done, on_loop, shutdown_in_loop-Ages, force_close_in_loop-Ages, handle_read-Ages,
  handle_write-Ages, send_in_loop-Ages,
}

shut_down-Ages : (c : TcpConnection) → AgesIn c (shut_down c)
unfolding shut_down
shut_down-Ages c =
    Ages-if c (is_stat c.stat connected) _ _ (λ h. shut h) (Alike-done c c (refl, refl))
  where
    d : TcpConnection
    d = record c { stat = disconnecting }

    older : is_stat c.stat connected ≡ true → rank c.stat ≤ 2
    older h = omega (arith, ap rank (is_stat-eq c.stat connected h))

    shut :
        is_stat c.stat connected ≡ true
        → AgesIn c
            (if c.on_loop_thread then shutdown_in_loop d else done (queue_in_loop d shutdown_task))
    shut h = Ages-aged c d _ (older h) refl (
        Ages-if d c.on_loop_thread _ _ (λ k. shutdown_in_loop-Ages d) (Alike-done d _ (refl, refl)))

send-Ages :
    (write : List ℕ → Written) (c : TcpConnection) (bytes : List ℕ) → AgesIn c (send write c bytes)
unfolding send
send-Ages write c bytes =
    Ages-if c (is_stat c.stat connected) _ _
      (λ h.
        Ages-if c c.on_loop_thread _ _ (λ k. send_in_loop-Ages write c bytes)
          (Alike-done c _ (refl, refl)))
      (Alike-done c c (refl, refl))

-- A call that also returns a buffer.
abbrev first_of : TcpConnection → Outcome (TcpConnection × Buffer) → TcpConnection
first_of d (done (x, y)) = x
first_of d _ = d

AgesWith : TcpConnection → Outcome (TcpConnection × Buffer) → Type 0
AgesWith c o = (d : TcpConnection) (b : Buffer) → o ≡ done (d, b) → Ages c d

AgesWith-done : (c x : TcpConnection) (y : Buffer) → Ages c x → AgesWith c (done (x, y))
unfolding AgesWith
AgesWith-done c x y a d b e = subst (Ages c) (ap (first_of d) e) a

AgesWith-if :
    (c : TcpConnection) (b : Bool) (x y : Outcome (TcpConnection × Buffer))
    → AgesWith c x
    → AgesWith c y
    → AgesWith c (if b then x else y)
AgesWith-if c true x y h k = h
AgesWith-if c false x y h k = k

AgesWith-then {ℓ} :
    {A : Type ℓ} (c : TcpConnection) (m : Outcome A) (f : A → Outcome (TcpConnection × Buffer))
    → ((a : A) → m ≡ done a → AgesWith c (f a))
    → AgesWith c (m >>= f)
unfolding AgesWith
AgesWith-then c m f h d b e = let (a, p, q) = >>=-eq-done m f e in h a p d b q

send_buffer-Ages :
    (write : List ℕ → Written) (c : TcpConnection) (b : Buffer) → AgesWith c (send_buffer write c b)
unfolding send_buffer
send_buffer-Ages write c b =
    AgesWith-if c (is_stat c.stat connected) _ _
      (AgesWith-if c c.on_loop_thread _ _
        (AgesWith-then c (to_string_piece b) _ (λ bytes e.
          AgesWith-then c (send_in_loop write c bytes) _
            (λ c' f. AgesWith-done c c' (retrieve_all b) (send_in_loop-Ages write c bytes c' f))))
        (AgesWith-then c (retrieve_all_as_string b) _
          (λ r e. AgesWith-done c _ r.1 (Ages-same c (queue_in_loop c (send_task r.0)) refl refl))))
      (AgesWith-done c c b (Ages-same c c refl refl))

force_close-Ages : (c : TcpConnection) → Ages c (force_close c) × Ages c (force_close_with_delay c)
unfolding force_close force_close_with_delay
force_close-Ages c = elim (Bool-cases (is_open c.stat)) [
  | inl y ↦ rw y (
    record { later = omega (arith, is_open-rank c.stat y); told = inl refl },
    record { later = omega (arith, is_open-rank c.stat y); told = inl refl },
  )
  | inr z ↦ rw z (Ages-same c c refl refl, Ages-same c c refl refl)
]

start_read_in_loop-Ages : (c : TcpConnection) → AgesIn c (start_read_in_loop c)
unfolding start_read_in_loop
start_read_in_loop-Ages c = on_loop c _ (
    Ages-if c (not c.reading || not (is_reading (own_channel c))) _ _
      (λ h.
        Ages-wired c c (enable_read c.poller c.channel) (λ c1. done (record c1 { reading = true }))
          (λ p. Alike-done c _ (refl, refl)))
      (Alike-done c c (refl, refl)))

stop_read_in_loop-Ages : (c : TcpConnection) → AgesIn c (stop_read_in_loop c)
unfolding stop_read_in_loop
stop_read_in_loop-Ages c = on_loop c _ (
    Ages-if c (c.reading || is_reading (own_channel c)) _ _
      (λ h.
        Ages-wired c c (disable_read c.poller c.channel)
          (λ c1. done (record c1 { reading = false })) (λ p. Alike-done c _ (refl, refl)))
      (Alike-done c c (refl, refl)))

start_read-Ages : (c : TcpConnection) → AgesIn c (start_read c)
unfolding start_read
start_read-Ages c =
    Ages-if c c.on_loop_thread _ _ (λ h. start_read_in_loop-Ages c) (Alike-done c _ (refl, refl))

stop_read-Ages : (c : TcpConnection) → AgesIn c (stop_read c)
unfolding stop_read
stop_read-Ages c =
    Ages-if c c.on_loop_thread _ _ (λ h. stop_read_in_loop-Ages c) (Alike-done c _ (refl, refl))

connection_established-Ages : (c : TcpConnection) → AgesIn c (connection_established c)
unfolding connection_established tie_own
connection_established-Ages c = on_loop c _ (
    Ages-assert c (is_stat c.stat connecting) _ (λ h.
      Ages-wired c c1 (enable_read c1.poller c.channel) (λ c2. done (add_event c2 up_or_down))
        (λ p. Ages-done c _ (record {
          later = omega (arith, ap rank (is_stat-eq c.stat connecting h));
          told = inl refl;
        }))))
  where
    c1 : TcpConnection
    c1 = tie_own (record c { stat = connected })

connection_destroy-Ages : (c : TcpConnection) → AgesIn c (connection_destroy c)
unfolding connection_destroy
connection_destroy-Ages c = on_loop c _ (by_stat (is_stat c.stat connected) refl)
  where
    removed : (d : TcpConnection) → AgesIn d (with_poller d (remove d.poller d.channel))
    removed d = Ages-poller d d _ refl refl

    older : is_stat c.stat connected ≡ true → rank c.stat ≤ 3
    older h = omega (arith, ap rank (is_stat-eq c.stat connected h))

    by_stat :
        (b : Bool)
        → is_stat c.stat connected ≡ b
        → AgesIn c (
            (if b
              then (with_poller (record c { stat = disconnected }) (disable_all c.poller c.channel)
                  >>= λ c2. done (add_event c2 up_or_down))
              else done c)
            >>= λ c1. with_poller c1 (remove c1.poller c1.channel))
    by_stat false h = removed c
    by_stat true h = down (disable_all c.poller c.channel)
      where
        down :
            (m : Outcome Poller)
            → AgesIn c (
                (with_poller (record c { stat = disconnected }) m >>= λ c2.
                done (add_event c2 up_or_down))
                >>= λ c1. with_poller c1 (remove c1.poller c1.channel))
        down (done p) d e =
            Ages-aged c (record c { stat = disconnected; poller = p; log = up_or_down ∷ c.log }) _
              (older h) refl (removed _) d e
        down assert_failed d e = cc
        down aborted d e = cc
        down undefined d e = cc
        down (thrown x) d e = cc

run_task-Ages :
    (write : List ℕ → Written) (c : TcpConnection) (t : Task) → AgesIn c (run_task write c t)
unfolding run_task
run_task-Ages write c send_finish_task = Alike-done c _ (refl, refl)
run_task-Ages write c (high_water_task n) = Alike-done c _ (refl, refl)
run_task-Ages write c (send_task bytes) = send_in_loop-Ages write c bytes
run_task-Ages write c shutdown_task = shutdown_in_loop-Ages c
run_task-Ages write c force_close_task = force_close_in_loop-Ages c
run_task-Ages write c start_read_task = start_read_in_loop-Ages c
run_task-Ages write c stop_read_task = stop_read_in_loop-Ages c

Step-Ages : (c d : TcpConnection) → Step c d → Ages c d
unfolding AgesWith
Step-Ages c d (switches b) = Ages-same c _ refl refl
Step-Ages c d (reads readv e) = handle_read-Ages readv c d e
Step-Ages c d (writes write e) = handle_write-Ages write c d e
Step-Ages c d (sends write bytes e) = send-Ages write c bytes d e
Step-Ages c d (sends_buffer write b b' e) = send_buffer-Ages write c b d b' e
Step-Ages c d (shuts_down own e) = shut_down-Ages c d e
Step-Ages c d (forces_close own) = (force_close-Ages c).0
Step-Ages c d (forces_close_later own) = (force_close-Ages c).1
Step-Ages c d (starts_read e) = start_read-Ages c d e
Step-Ages c d (stops_read e) = stop_read-Ages c d e
Step-Ages c d (establishes e) = connection_established-Ages c d e
Step-Ages c d (destroys e) = connection_destroy-Ages c d e
Step-Ages c d (runs write t rest p e) =
    Ages-from c (record c { pending = rest }) _ refl refl (run_task-Ages write _ t) d e

-- However the methods of a connection whose close callback was not called yet are called, those
-- that store the state on the thread of its loop and the others on any thread, and whatever the
-- kernel answers to each call: its state only moves on, from connecting to connected, to
-- disconnecting, to disconnected, and the close callback is called at most once, and only by a
-- connection that is then disconnected for good.
pub run_lem :
    (c d : TcpConnection)
    → Run c d
    → closes c.log ≡ 0
    → (rank c.stat ≤ rank d.stat)
      × ((closes d.log ≡ 0) ⊎ ((closes d.log ≡ 1) × (d.stat ≡ disconnected)))
run_lem c d stays none_yet = (omega arith, inl none_yet)
run_lem c e (goes_on {d = d} r s) none_yet =
    let (le, told) = run_lem c d r none_yet in
    let a = Step-Ages d e s in (omega (arith, le, a.later), after told a.told a.later)
  where
    last : (s : ConnectionStat) → 3 ≤ rank s → s ≡ disconnected
    last disconnected h = refl
    last connecting h = absurd (omega arith)
    last connected h = absurd (omega arith)
    last disconnecting h = absurd (omega arith)

    after :
        (closes d.log ≡ 0) ⊎ ((closes d.log ≡ 1) × (d.stat ≡ disconnected))
        → (closes e.log ≡ closes d.log)
          ⊎ ((closes e.log ≡ suc (closes d.log)) × (rank d.stat < 3) × (rank e.stat ≡ 3))
        → rank d.stat ≤ rank e.stat
        → (closes e.log ≡ 0) ⊎ ((closes e.log ≡ 1) × (e.stat ≡ disconnected))
    after (inl z) (inl p) h = inl (p ∙ z)
    after (inl z) (inr (p, q, r)) h = inr (p ∙ ap suc z, last e.stat (omega (arith, r)))
    after (inr (o, w)) (inl p) h = inr (p ∙ o, last e.stat (omega (arith, h, ap rank w)))
    after (inr (o, w)) (inr (p, q, r)) h = absurd (omega (arith, q, ap rank w))
