-- ===== src/Base/BoundedBlockQueue/Tests.antt =====
-- The theorems about the bounded queue at a ring of four slots, whose elements go round its end.
use czy_net_frame.Common.{
  ℕ, zero, suc, ◌+◌, ◌%◌, ◌<◌, ◌≡◌, refl, none, some, List, [], ◌∷◌, arith, get_elem?, done,
}
use czy_net_frame.Base.BoundedBlockQueue.{BoundedBlockQueue, push, pop}
use czy_net_frame.Base.BoundedBlockQueue.Ring.{Holds, push-Holds, pop-Holds}

abbrev ring : BoundedBlockQueue ℕ
ring = record { slots = 6 ∷ 0 ∷ 0 ∷ 5 ∷ []; head = 3; tail = 1 }

ring-Holds : Holds 4 ring (5 ∷ 6 ∷ [])
ring-Holds = record {
  sized = refl;
  head_in = omega arith;
  room = omega arith;
  tail_at = refl;
  at = at;
}
  where
    at :
        (k x : ℕ)
        → get_elem? (5 ∷ 6 ∷ []) k ≡ some x
        → get_elem? (6 ∷ 0 ∷ 0 ∷ 5 ∷ []) ((3 + k) % 4) ≡ some x
    at zero x e = e
    at (suc zero) x e = e
    at (suc (suc k)) x e = cc e

push-Holds_example :
    (◌≡◌ {A = ℕ} 3 4 → push 4 ring 7 ≡ done none)
    × (3 < 4
        → (q' : BoundedBlockQueue ℕ) × (push 4 ring 7 ≡ done (some q'))
          × Holds 4 q' (5 ∷ 6 ∷ 7 ∷ []))
push-Holds_example = push-Holds 4 ring (5 ∷ 6 ∷ []) ring-Holds 7

pop-Holds_example :
    (Holds 4 ring [] → pop 4 ring ≡ done none)
    × ((x : ℕ) (xs : List ℕ)
        → Holds 4 ring (x ∷ xs)
        → (q' : BoundedBlockQueue ℕ) × (pop 4 ring ≡ done (some (x, q'))) × Holds 4 q' xs)
pop-Holds_example = pop-Holds 4 ring
