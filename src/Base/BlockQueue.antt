-- ===== src/Base/BlockQueue.antt =====
-- The class template of src/base/BlockQueue.h. A method is its critical section; `none` is the wait
-- on the condition, after which the test comes again.
use czy_net_frame.Common.{Option, none, some, List, [], ◌∷◌, ◌++◌}

abbrev pub push {ℓ} : {A : Type ℓ} → List A → A → List A
push q t = q ++ (t ∷ [])

abbrev pub pop {ℓ} : {A : Type ℓ} → List A → Option (A × List A)
pop [] = none
pop (front ∷ q) = some (front, q)
