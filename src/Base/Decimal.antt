-- ===== src/Base/Decimal.antt =====
-- How a stream prints an unsigned number: its decimal digits, with no leading zero.
use Prim.Native.Nat.{ℕ, zero, suc, ◌+◌, ◌-◌, ◌*◌, ◌/◌, ◌%◌, ◌<◌, ◌≤◌}
use mathlib.Core.Path.{◌≡◌, refl, ap, sym, ◌∙◌}
use mathlib.Core.List.{[], ◌∷◌, ◌++◌}
use native.Mathlib.Omega.{arith}
use zlog.Base.Tests.{ltb, if◌then◌else◌}
use zlog.Base.Lists.{Text, All, All-append}

-- The digits of a number below ten to the fuel.
unfoldable pub digits : ℕ → ℕ → Text
digits zero n = []
digits (suc fuel) n =
    let front = digits fuel (n / 10) in (if ltb n 10 then [] else front) ++ ((b'0' + n % 10) ∷ [])

-- A number has fewer digits than its successor counts, so the fuel does not run out.
unfoldable pub decimal : ℕ → Text
unfolding digits
decimal n = digits (suc n) n

abbrev pub IsDigit : ℕ → Type 0
IsDigit c = (b'0' ≤ c) × (c ≤ b'9')

-- What the digits stand for.
value_from : ℕ → Text → ℕ
value_from acc [] = acc
value_from acc (c ∷ s) = value_from (acc * 10 + (c - b'0')) s

value_from-snoc :
    (acc : ℕ) (s : Text) (c : ℕ)
    → value_from acc (s ++ (c ∷ [])) ≡ value_from acc s * 10 + (c - b'0')
unfolding value_from
value_from-snoc acc [] c = refl
value_from-snoc acc (d ∷ s) c = value_from-snoc (acc * 10 + (d - b'0')) s c

last_digit :
    (n : ℕ) (front : Text)
    → (10 ≤ n → value_from 0 front ≡ n / 10)
    → value_from 0 (if ltb n 10 then [] else front) * 10 + (b'0' + n % 10 - b'0') ≡ n
unfolding value_from
last_digit n front h = ground arith

value_from-digits : (fuel n : ℕ) → n < fuel → value_from 0 (digits fuel n) ≡ n
unfolding digits
value_from-digits zero n h = absurd (omega arith)
value_from-digits (suc fuel) n h =
    rw value_from-snoc
      (last_digit n (digits fuel (n / 10)) (λ big. value_from-digits fuel (n / 10) (omega arith)))

digits-IsDigit : (fuel n : ℕ) → All IsDigit (digits fuel n)
unfolding digits
digits-IsDigit zero n = tt
digits-IsDigit (suc fuel) n =
    All-append IsDigit (if ltb n 10 then [] else digits fuel (n / 10)) ((b'0' + n % 10) ∷ [])
      (ground (arith, digits-IsDigit fuel (n / 10))) (omega arith)

pub decimal-IsDigit : (n : ℕ) → All IsDigit (decimal n)
unfolding decimal
decimal-IsDigit n = digits-IsDigit (suc n) n

-- Different numbers print differently.
pub decimal_inj : (a b : ℕ) → decimal a ≡ decimal b → a ≡ b
unfolding decimal
decimal_inj a b e =
    sym (value_from-digits (suc a) a (omega arith))
    ∙ ap (value_from 0) e
    ∙ value_from-digits (suc b) b (omega arith)

-- Digits that a stop follows: the text splits in one way only.
pub split_at_stop :
    (stop : ℕ) (xs ys s t : Text)
    → stop < b'0'
    → All IsDigit xs
    → All IsDigit ys
    → xs ++ (stop ∷ s) ≡ ys ++ (stop ∷ t)
    → (xs ≡ ys) × (s ≡ t)
split_at_stop stop [] [] s t low hx hy e = ground arith
split_at_stop stop [] (y ∷ ys) s t low hx hy e = ground arith
split_at_stop stop (x ∷ xs) [] s t low hx hy e = ground arith
split_at_stop stop (x ∷ xs) (y ∷ ys) s t low hx hy e =
    ground (arith, split_at_stop stop xs ys s t low hx.1 hy.1)

abbrev pub zeros : ℕ → Text
zeros zero = []
zeros (suc n) = b'0' ∷ zeros n

value_from-zeros : (n : ℕ) (s : Text) → value_from 0 (zeros n ++ s) ≡ value_from 0 s
unfolding value_from
value_from-zeros zero s = refl
value_from-zeros (suc n) s = value_from-zeros n s

-- So do they with zeros in front.
pub zeros-decimal_inj : (m n a b : ℕ) → zeros m ++ decimal a ≡ zeros n ++ decimal b → a ≡ b
unfolding decimal
zeros-decimal_inj m n a b e =
    sym (value_from-digits (suc a) a (omega arith))
    ∙ sym (value_from-zeros m (decimal a))
    ∙ ap (value_from 0) e
    ∙ value_from-zeros n (decimal b)
    ∙ value_from-digits (suc b) b (omega arith)
