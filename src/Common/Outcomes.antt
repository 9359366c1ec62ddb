-- ===== src/Common/Outcomes.antt =====
-- What a call comes to: a value, or one of the ways in which the program stops. The build type is
-- Debug, so `assert` is live and aborts.
use mathlib.Core.Path.{◌≡◌, refl, subst}
use mathlib.Core.Bool.{Bool, true, false}

pub data Exception : Type 0 where
  length_error bad_function_call out_of_range logic_error : Exception

-- `aborted` is the end by `LOG_FATAL`; `undefined` stands for undefined behaviour, such as a write past the end of an array.
pub data Outcome {ℓ} (A : Type ℓ) : Type ℓ where
  done : A → Outcome A
  assert_failed aborted undefined : Outcome A
  thrown : Exception → Outcome A

infixl 5 ◌>>=◌ ◌>>◌
abbrev pub ◌>>=◌ {ℓ κ} : {A : Type ℓ} {B : Type κ} → Outcome A → (A → Outcome B) → Outcome B
done a >>= f = f a
assert_failed >>= f = assert_failed
aborted >>= f = aborted
undefined >>= f = undefined
thrown e >>= f = thrown e

abbrev pub ◌>>◌ {ℓ} : {B : Type ℓ} → Outcome (Unit {0}) → Outcome B → Outcome B
m >> k = m >>= λ _. k

-- `assert(b)`.
abbrev pub assert : Bool → Outcome (Unit {0})
assert true = done tt
assert false = assert_failed

pub >>=-eq-done {ℓ κ} :
    {A : Type ℓ} {B : Type κ} (m : Outcome A) (f : A → Outcome B) {b : B}
    → (m >>= f) ≡ done b
    → (a : A) × (m ≡ done a) × (f a ≡ done b)
>>=-eq-done (done a) f h = (a, refl, h)
>>=-eq-done assert_failed f h = cc
>>=-eq-done aborted f h = cc
>>=-eq-done undefined f h = cc
>>=-eq-done (thrown e) f h = cc

-- What holds of the value, if there is one.
abbrev pub Ensures {ℓ κ} : {A : Type ℓ} → (A → Type κ) → Outcome A → Type κ
Ensures P (done a) = P a
Ensures P assert_failed = Unit
Ensures P aborted = Unit
Ensures P undefined = Unit
Ensures P (thrown e) = Unit

pub Ensures->>= {ℓ κ μ} :
    {A : Type ℓ} {B : Type κ} (P : B → Type μ) (m : Outcome A) (f : A → Outcome B)
    → ((a : A) → m ≡ done a → Ensures P (f a))
    → Ensures P (m >>= f)
Ensures->>= P (done a) f h = h a refl
Ensures->>= P assert_failed f h = tt
Ensures->>= P aborted f h = tt
Ensures->>= P undefined f h = tt
Ensures->>= P (thrown e) f h = tt

pub Ensures-done {ℓ κ} :
    {A : Type ℓ} (P : A → Type κ) (m : Outcome A) (a : A) → Ensures P m → m ≡ done a → P a
Ensures-done P m a h e = subst (Ensures P) e h

pub done-injective {ℓ} : {A : Type ℓ} (a b : A) → ◌≡◌ {A = Outcome A} (done a) (done b) → a ≡ b
done-injective a b e = cc
