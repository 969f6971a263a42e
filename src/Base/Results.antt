-- ===== src/Base/Results.antt =====
-- What a call of the program comes to. The error codes are those of errno.h that the program
-- returns, negated; a call may also stop at a failed assertion, at an exception that nothing
-- catches, or at undefined behaviour, and all of these are a `fault`.
use mathlib.Core.Path.{◌≡◌, refl}
use mathlib.Core.Bool.{Bool, true, false}

pub data Errno : Type 0 where
  einval enoent eio eexist espipe enodata erange erofs eshutdown etimedout eintr estale : Errno

pub data Outcome {ℓ} (A : Type ℓ) : Type ℓ where
  fault : Outcome A
  err : Errno → Outcome A
  ok : A → Outcome A

-- `assert(b)`.
abbrev pub assert : Bool → Outcome (Unit {0})
assert false = fault
assert true = ok tt

infixl 5 ◌>>=◌ ◌>>◌
abbrev pub ◌>>=◌ {ℓ κ} : {R : Type ℓ} {S : Type κ} → Outcome R → (R → Outcome S) → Outcome S
fault >>= rest = fault
err code >>= rest = err code
ok result >>= rest = rest result

abbrev pub ◌>>◌ {ℓ} : {S : Type ℓ} → Outcome (Unit {0}) → Outcome S → Outcome S
first >> second = first >>= λ done. second

pub >>=-eq-ok {ℓ κ} :
    {A : Type ℓ} {B : Type κ} (m : Outcome A) (f : A → Outcome B) {b : B}
    → (m >>= f) ≡ ok b
    → (a : A) × (m ≡ ok a) × (f a ≡ ok b)
>>=-eq-ok fault f h = cc
>>=-eq-ok (err code) f h = cc
>>=-eq-ok (ok a) f h = (a, refl, h)

pub ok_inj {ℓ} : {A : Type ℓ} {a b : A} → ok a ≡ ok b → a ≡ b
ok_inj h = cc h
