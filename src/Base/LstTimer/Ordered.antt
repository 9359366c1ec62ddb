-- ===== src/Base/LstTimer/Ordered.antt =====
-- TimerManagerList of src/base/LstTimer.cc. A tick comes to the calls it makes, in order.
use czy_net_frame.Common.{
  ℕ, ◌≡◌, refl, Bool, true, false, Option, none, some, List, [], ◌∷◌, ◌++◌, if◌then◌else◌, ltb_ℤ,
  leb_ℤ, ℤ, pos,
}
use czy_net_frame.Base.LstTimer.{TimerNode, called, unlink}

abbrev pub is_empty : List TimerNode → Bool
is_empty [] = true
is_empty (n ∷ ns) = false

-- Behind a node with the time `expire`, in front of `ns`.
abbrev pub insert_behind : ℤ → List TimerNode → TimerNode → List TimerNode
insert_behind expire [] added = added ∷ []
insert_behind expire (n ∷ ns) added =
    let rest = insert_behind n.expire_time ns added in
    if leb_ℤ added.expire_time expire then added ∷ n ∷ ns else n ∷ rest

-- The head is a node with the time 0.
abbrev pub add_node : List TimerNode → Option TimerNode → List TimerNode
add_node ns none = ns
add_node ns (some added) = insert_behind (pos 0) ns added

abbrev pub delete_node_no_del : List TimerNode → TimerNode → List TimerNode
delete_node_no_del ns n = if is_empty ns then ns else unlink n.address ns

abbrev pub adjust_node : List TimerNode → TimerNode → List TimerNode
adjust_node ns n = add_node (delete_node_no_del ns n) (some n)

abbrev pub tick : (ℕ → Bool) → ℤ → List TimerNode → List (ℕ × ℕ) × List TimerNode
tick lock now [] = ([], [])
tick lock now (n ∷ ns) =
    let rest = tick lock now ns in
    if ltb_ℤ now n.expire_time
    then ([], n ∷ ns)
    else (called lock n.address n.client ++ rest.0, rest.1)

-- A timer put into a list whose first timer is not due yet waits for it, whatever its own time is.
add_node-late :
    (lock : ℕ → Bool) (now : ℤ) (n added : TimerNode) (ns : List TimerNode)
    → leb_ℤ added.expire_time (pos 0) ≡ false
    → ltb_ℤ now n.expire_time ≡ true
    → tick lock now (add_node (n ∷ ns) (some added)) ≡ ([], add_node (n ∷ ns) (some added))
add_node-late lock now n added ns positive early = rw (positive, early) refl
