-- ===== src/Base/LstTimer/Tests.antt =====
-- The timers of Base/LstTimer on concrete inputs.
use native.Mathlib.Decide.{ℕ_discrete}
use czy_net_frame.Common.{ℕ, ◌≡◌, refl, ap, Bool, true, some, [], ◌∷◌, arith, ◌-ℤ◌, pos}
use czy_net_frame.Base.LstTimer.{TimerNode, new_timer_node, bind_client_data}
use czy_net_frame.Base.LstTimer.Wheel.{is_due, new_wheel, add_bound, tick, run}
use czy_net_frame.Base.LstTimer.Wheel.Sweep.{of_address, calls_of}
use czy_net_frame.Base.LstTimer.Wheel.Turns.{Lacks, delay, add_bound-elsewhere, add_node-run}
use czy_net_frame.Base.LstTimer.Ordered

abbrev all_live : ℕ → Bool
all_live c = true

abbrev late : TimerNode
late = bind_client_data (new_timer_node 1 (pos 10)) 7

abbrev soon : TimerNode
soon = bind_client_data (new_timer_node 2 (pos 5)) 8

-- The timer that is due at 5 stands behind the one of 10.
ordered_late : (Ordered.tick all_live (pos 7) (Ordered.add_node (late ∷ []) (some soon))).0 ≡ []
ordered_late = refl

ordered_both :
    (Ordered.tick all_live (pos 10) (Ordered.add_node (late ∷ []) (some soon))).0
    ≡ (1, 7) ∷ (2, 8) ∷ []
ordered_both = refl

-- 60 ticks are one turn of the wheel, and the timer is called by the very next tick.
wheel_minute : (tick all_live (add_bound new_wheel 1 60 7)).0 ≡ (1, 7) ∷ []
unfolding is_due ◌-ℤ◌
wheel_minute = refl

wheel_two : (run all_live 3 (add_bound new_wheel 1 2 7)).0 ≡ (1, 7) ∷ []
unfolding is_due ◌-ℤ◌
wheel_two = refl

-- A wheel that has another timer.
wheel_used-Lacks : Lacks 2 (add_bound new_wheel 1 3 7)
wheel_used-Lacks i = elim (ℕ_discrete i 3) [
  | yes e ↦ ap (λ j. of_address 2 ((add_bound new_wheel 1 3 7).time_slots j)) e
  | no ne ↦ ap (of_address 2) (add_bound-elsewhere new_wheel 1 3 7 i ne)
]

add_node-run_example :
    let r = run all_live (delay 125) (add_bound (add_bound new_wheel 1 3 7) 2 125 8) in
    (calls_of 2 r.0 ≡ [])
    × (calls_of 2 (tick all_live r.1).0 ≡ (2, 8) ∷ [])
    × Lacks 2 (tick all_live r.1).1
add_node-run_example =
    add_node-run all_live (add_bound new_wheel 1 3 7) 2 125 8 (omega arith) wheel_used-Lacks refl
