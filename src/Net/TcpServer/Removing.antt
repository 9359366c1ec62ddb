-- ===== src/Net/TcpServer/Removing.antt =====
-- A connection of Net/TcpServer that closes, and the tasks that loops run for it.
use czy_net_frame.Common.{
  ℕ, ◌≡◌, refl, sym, ap, ◌∙◌, subst, inl, inr, Bool, true, false, List, [], ◌∷◌, ◌++◌, ◌==◌,
  if◌then◌else◌, Bool-cases, ==→eq, All, All-append, done-injective, done, update,
}
use czy_net_frame.Net.TcpServer.{
  Connection, Task, establish, destroy, remove_in_loop, listen, TcpServer, erase, erased, post,
  remove_connection_in_loop, remove_connection, run_task,
}
use czy_net_frame.Net.TcpServer.Table.{
  removal, removals, removals-append, All-middle, IsKept, IsKept-close, IsKept-close_erase,
  IsKept-erase,
}
use czy_net_frame.Net.TcpServer.Consistency.{
  IsCreated, HasLoop, IsConsistent, IsConsistent-post_destroy, removed,
}

pub IsConsistent-close :
    (c : Connection) (s s' : TcpServer) (closed : ℕ → Bool)
    → IsCreated s c
    → closed c.name ≡ false
    → remove_connection c.io_loop c s ≡ done s'
    → IsConsistent s closed
    → IsConsistent s' (update closed c.name true)
unfolding remove_connection
IsConsistent-close c s s' closed made open_yet e k = elim (Bool-cases (c.io_loop == s.loop)) [
  | inl p ↦
      subst (λ r. IsConsistent r (update closed c.name true))
        (done-injective _ _ (sym (direct p) ∙ e))
        (IsConsistent-post_destroy c (record s { connections = erase c.name s.connections })
          (update closed c.name true)
          (record {
            kept =
                IsKept-close_erase s.next_conn_id s.connections closed c.name (removals s.posted)
                  made.0 made.1 open_yet k.kept;
            on_loop = k.on_loop;
          }))
  | inr p ↦
      subst (λ r. IsConsistent r (update closed c.name true))
        (done-injective _ _ (sym (posted p) ∙ e))
        (record {
          kept =
              subst (IsKept s.next_conn_id s.connections (update closed c.name true))
                (sym (removals-append s.posted ((s.loop, remove_in_loop c) ∷ [])))
                (IsKept-close s.next_conn_id s.connections closed c.name (removals s.posted) made.0
                  made.1 open_yet k.kept);
          on_loop =
              All-append (HasLoop s.loop) s.posted ((s.loop, remove_in_loop c) ∷ []) k.on_loop
                (refl, tt);
        })
]
  where
    direct :
        (c.io_loop == s.loop) ≡ true
        → remove_connection c.io_loop c s
          ≡ done
              (post c.io_loop (destroy c) (record s { connections = erase c.name s.connections }))
    direct p =
        ap
          (λ b.
            if b
            then remove_connection_in_loop c.io_loop c s
            else done (post s.loop (remove_in_loop c) s))
          p
        ∙ ap (λ l. remove_connection_in_loop l c s) (==→eq _ _ p)
        ∙ removed c s (k.kept.open_in c.name made.0 made.1 open_yet)

    posted :
        (c.io_loop == s.loop) ≡ false
        → remove_connection c.io_loop c s ≡ done (post s.loop (remove_in_loop c) s)
    posted p =
        ap
          (λ b.
            if b
            then remove_connection_in_loop c.io_loop c s
            else done (post s.loop (remove_in_loop c) s))
          p

module _ (loop : ℕ) (before after : List (ℕ × Task)) (s : TcpServer) (closed : ℕ → Bool) where
  abbrev others : TcpServer
  others = record s { posted = before ++ after }

  -- A task is taken out of those that wait.
  taken_out :
      (t : Task)
      → removal t ≡ []
      → s.posted ≡ before ++ ((loop, t) ∷ after)
      → IsConsistent s closed
      → IsConsistent others closed
  taken_out t e split k = record {
    kept = subst (IsKept s.next_conn_id s.connections closed) same k.kept;
    on_loop =
        (All-middle (HasLoop s.loop) before (loop, t) after
          (subst (All (HasLoop s.loop)) split k.on_loop)).1;
  }
    where
      same : removals s.posted ≡ removals (before ++ after)
      same =
          ap removals split
          ∙ removals-append before ((loop, t) ∷ after)
          ∙ ap (λ ns. removals before ++ (ns ++ removals after)) e
          ∙ sym (removals-append before after)

  -- A removal that waits finds its connection in the table.
  pub removal_runs :
      (c : Connection)
      → s.posted ≡ before ++ ((loop, remove_in_loop c) ∷ after)
      → IsConsistent s closed
      → (run_task loop (remove_in_loop c) others
          ≡ done (
              post c.io_loop
                (destroy c)
                (record others { connections = erase c.name s.connections })))
        × IsConsistent (record others { connections = erase c.name s.connections }) closed
  unfolding run_task
  removal_runs c split k = (
    ap (λ l. remove_connection_in_loop l c others) here.0 ∙ removed c others kept.0,
    record {
      kept =
          subst (IsKept s.next_conn_id (erase c.name s.connections) closed)
            (sym (removals-append before after)) kept.1;
      on_loop = here.1;
    },
  )
    where
      here : (loop ≡ s.loop) × All (HasLoop s.loop) (before ++ after)
      here =
          All-middle (HasLoop s.loop) before (loop, remove_in_loop c) after
            (subst (All (HasLoop s.loop)) split k.on_loop)

      kept :
          (erased c.name s.connections ≡ 1)
          × IsKept s.next_conn_id
              (erase c.name s.connections)
              closed
              (removals before ++ removals after)
      kept =
          IsKept-erase s.next_conn_id s.connections closed c.name (removals before) (removals after)
            (subst (IsKept s.next_conn_id s.connections closed)
              (ap removals split ∙ removals-append before ((loop, remove_in_loop c) ∷ after))
              k.kept)

  pub IsConsistent-run_task :
      (t : Task) (s' : TcpServer)
      → s.posted ≡ before ++ ((loop, t) ∷ after)
      → run_task loop t others ≡ done s'
      → IsConsistent s closed
      → IsConsistent s' closed
  unfolding run_task
  IsConsistent-run_task (establish c) s' split e k =
      let o = taken_out (establish c) refl split k in
      subst (λ r. IsConsistent r closed) (done-injective _ _ e)
        (record { kept = o.kept; on_loop = o.on_loop })
  IsConsistent-run_task (destroy c) s' split e k =
      let o = taken_out (destroy c) refl split k in
      subst (λ r. IsConsistent r closed) (done-injective _ _ e)
        (record { kept = o.kept; on_loop = o.on_loop })
  IsConsistent-run_task (remove_in_loop c) s' split e k =
      let r = removal_runs c split k in
      subst (λ r. IsConsistent r closed) (done-injective _ _ (sym r.0 ∙ e))
        (IsConsistent-post_destroy c _ closed r.1)
  IsConsistent-run_task listen s' split e k =
      let o = taken_out listen refl split k in
      subst (λ r. IsConsistent r closed) (done-injective _ _ e)
        (record { kept = o.kept; on_loop = o.on_loop })
