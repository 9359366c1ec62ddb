-- ===== src/Net/TcpServer/Consistency.antt =====
-- What the table of Net/TcpServer and the tasks that wait have in common while a server accepts.
use czy_net_frame.Common.{
  ℕ, ◌+◌, ◌<◌, ◌≡◌, refl, sym, ap, ◌∙◌, subst, inl, inr, Bool, List, [], ◌∷◌, ◌++◌, append-nil,
  ◌==◌, Bool-cases, All, All-append, >>=-eq-done, done-injective, done, ==_refl,
}
use czy_net_frame.Net.EventLoopThreadPool.{EventLoopThreadPool, get_next_loop}
use czy_net_frame.Net.TcpServer.{
  Connection, Task, establish, destroy, remove_in_loop, listen, TcpServer, erase, erased, put, post,
  run_in_loop, assert_in_loop_thread, new_connection, remove_connection_in_loop,
}
use czy_net_frame.Net.TcpServer.Table.{removal, removals, removals-append, IsKept, IsKept-put}

-- Every number below `m_nextConnId`, from 1 on, was given to a connection.
abbrev pub IsCreated : TcpServer → Connection → Type 0
IsCreated s c = (0 < c.name) × (c.name < s.next_conn_id)

-- The loops of the removals that wait are the server's.
abbrev pub HasLoop : ℕ → ℕ × Task → Type 0
HasLoop loop (l, establish c) = Unit
HasLoop loop (l, destroy c) = Unit
HasLoop loop (l, remove_in_loop c) = l ≡ loop
HasLoop loop (l, listen) = Unit

pub record IsConsistent (s : TcpServer) (closed : ℕ → Bool) : Type 0 where
  pub kept : IsKept s.next_conn_id s.connections closed (removals s.posted)
  pub on_loop : All (HasLoop s.loop) s.posted

-- A task that is not a removal may be run or posted.
IsConsistent-run_in_loop :
    (caller loop : ℕ) (t : Task) (s : TcpServer) (closed : ℕ → Bool)
    → removal t ≡ []
    → HasLoop s.loop (loop, t)
    → IsConsistent s closed
    → IsConsistent (run_in_loop caller loop t s) closed
IsConsistent-run_in_loop caller loop t s closed e h k = elim (Bool-cases (caller == loop)) [
  | inl p ↦ rw p (record { kept = k.kept; on_loop = k.on_loop })
  | inr p ↦ rw p (record {
    kept = subst (IsKept s.next_conn_id s.connections closed) (sym (same s.posted)) k.kept;
    on_loop = All-append (HasLoop s.loop) s.posted ((loop, t) ∷ []) k.on_loop (h, tt);
  })
]
  where
    same : (ts : List (ℕ × Task)) → removals (ts ++ ((loop, t) ∷ [])) ≡ removals ts
    same ts =
        removals-append ts ((loop, t) ∷ [])
        ∙ ap (λ ns. removals ts ++ (ns ++ [])) e
        ∙ append-nil (removals ts)

accepted :
    (caller sockfd : ℕ) (s s' : TcpServer)
    → new_connection caller sockfd s ≡ done s'
    → (c : Connection) × (pool : EventLoopThreadPool) × (c.name ≡ s.next_conn_id)
      × (s'
          ≡ run_in_loop caller c.io_loop (establish c) (record s {
            pool = pool;
            next_conn_id = s.next_conn_id + 1;
            connections = put c s.connections;
          }))
unfolding new_connection
accepted caller sockfd s s' e =
    let r = >>=-eq-done (assert_in_loop_thread caller s) _ e in
    let q = >>=-eq-done (get_next_loop (caller == s.loop) s.pool) _ r.2 in
    (
      record { name = s.next_conn_id; io_loop = q.0.0; sockfd = sockfd },
      q.0.1,
      refl,
      sym (done-injective _ _ q.2),
    )

pub IsConsistent-accept :
    (sockfd : ℕ) (s s' : TcpServer) (closed : ℕ → Bool)
    → new_connection s.loop sockfd s ≡ done s'
    → IsConsistent s closed
    → IsConsistent s' closed
IsConsistent-accept sockfd s s' closed e k =
    let (c, pool, number, shape) = accepted s.loop sockfd s s' e in
    let s1 : TcpServer = record s {
      pool = pool;
      next_conn_id = s.next_conn_id + 1;
      connections = put c s.connections;
    } in
    let k1 : IsConsistent s1 closed = record {
      kept = IsKept-put s.next_conn_id s.connections closed c (removals s.posted) number k.kept;
      on_loop = k.on_loop;
    } in
    subst (λ r. IsConsistent r closed) (sym shape)
      (IsConsistent-run_in_loop s.loop c.io_loop (establish c) s1 closed refl tt k1)

-- `queueInLoop` of connectionDestory.
pub IsConsistent-post_destroy :
    (c : Connection) (s : TcpServer) (closed : ℕ → Bool)
    → IsConsistent s closed
    → IsConsistent (post c.io_loop (destroy c) s) closed
IsConsistent-post_destroy c s closed k = record {
  kept =
      subst (IsKept s.next_conn_id s.connections closed)
        (sym
          (removals-append s.posted ((c.io_loop, destroy c) ∷ []) ∙ append-nil (removals s.posted)))
        k.kept;
  on_loop = All-append (HasLoop s.loop) s.posted ((c.io_loop, destroy c) ∷ []) k.on_loop (tt, tt);
}

-- A removal on the server's loop, of a connection in the table.
pub removed :
    (c : Connection) (s : TcpServer)
    → erased c.name s.connections ≡ 1
    → remove_connection_in_loop s.loop c s
      ≡ done (post c.io_loop (destroy c) (record s { connections = erase c.name s.connections }))
unfolding remove_connection_in_loop
removed c s e = rw (==_refl s.loop, e) refl
