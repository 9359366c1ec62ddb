-- ===== src/Base/BoundedBlockQueue.antt =====
-- The class template of src/base/BoundedBlockQueue.h: a ring of `n` slots, one of which stays free.
-- A method is its critical section; `none` is the wait on a condition, after which it begins again.
pub mod Ring
pub mod Tests
use czy_net_frame.Common.{
  ℕ, zero, suc, ◌+◌, ◌-◌, ◌*◌, ◌/◌, ◌%◌, ◌^◌, ◌≤◌, ◌<◌, min, max, ◌≡◌, refl, sym, ap, ap₂, ◌∙◌,
  subst, ◌≢◌, ◌↔◌, ◌⊎◌, inl, inr, Bool, true, false, not, ◌&&◌, ◌||◌, Option, none, some, List, [],
  ◌∷◌, ◌++◌, map, append_assoc, append-nil, arith, ltb, leb, ◌==◌, if◌then◌else◌, ltb→lt, lt→ltb,
  le→ltb, ltb→le, leb→le, lt→leb, le→leb, Bool-cases, Option-cases, length, get_elem?, set, take,
  drop, replicate, reverse_onto, All, length-append, length-take, length-drop, length-replicate,
  take-append-drop, take-append, drop-append, take_all, drop_all, take-length_append,
  drop-length_append, drop-append_add, length-append₃, All-append, length-reverse_onto, ◌>>=◌, ◌>>◌,
  assert, >>=-eq-done, Exception, Outcome, done, assert_failed, aborted, undefined, thrown,
  length_error, bad_function_call, out_of_range, logic_error, update, update_self, update_ne,
  ==_refl, ne→==,
}

pub record BoundedBlockQueue {ℓ} (A : Type ℓ) : Type ℓ where
  pub slots : List A
  pub head : ℕ
  pub tail : ℕ

-- The slot behind another one, of `n`.
abbrev pub next : ℕ → ℕ → ℕ
next n i = (i + 1) % n

module _ {ℓ} {A : Type ℓ} where
  abbrev pub is_empty_no_lock : BoundedBlockQueue A → Bool
  is_empty_no_lock q = q.head == q.tail

  abbrev pub is_full_no_lock : ℕ → BoundedBlockQueue A → Bool
  is_full_no_lock n q = next n q.tail == q.head

  -- An access to the array; outside of it, it is undefined.
  write_slot : List A → ℕ → A → Outcome (List A)
  write_slot xs i a = if ltb i (length xs) then done (set xs i a) else undefined

  read_slot : Option A → Outcome A
  read_slot none = undefined
  read_slot (some a) = done a

  put : ℕ → BoundedBlockQueue A → A → Outcome (BoundedBlockQueue A)
  unfolding write_slot
  put n q a = do
    assert (not (is_full_no_lock n q))
    slots ← write_slot q.slots q.tail a
    done (record q { slots = slots; tail = next n q.tail })

  pub push : ℕ → BoundedBlockQueue A → A → Outcome (Option (BoundedBlockQueue A))
  unfolding put
  push n q a = if is_full_no_lock n q then done none else (put n q a >>= λ q'. done (some q'))

  get : ℕ → BoundedBlockQueue A → Outcome (A × BoundedBlockQueue A)
  unfolding read_slot
  get n q = do
    assert (not (is_empty_no_lock q))
    front ← read_slot (get_elem? q.slots q.head)
    done (front, record q { head = next n q.head })

  pub pop : ℕ → BoundedBlockQueue A → Outcome (Option (A × BoundedBlockQueue A))
  unfolding get
  pop n q = if is_empty_no_lock q then done none else (get n q >>= λ r. done (some r))
