-- ===== src/ObjectMap/Aligned.antt =====
-- Positions of one stripe by their index, where the stripe starts at a multiple of its width.
use native.Mathlib.Nat.{
  mod-eq_of_lt, mod-add-mod, div-add-mod, le-div_iff_mul-le, div-lt_iff_lt-mul, mul-le-mul_left,
}
use zlog.Base.{ℕ, ◌+◌, ◌*◌, ◌/◌, ◌%◌, ◌≤◌, ◌<◌, ◌≡◌, sym, ap, ◌∙◌, arith}

pub aligned_index : (lo w i : ℕ) → lo % w ≡ 0 → i < w → (lo + i) % w ≡ i
aligned_index lo w i h lt =
    sym (mod-add-mod lo w i)
    ∙ ap (λ r. (r + i) % w) h
    ∙ ap (λ r. r % w) (omega arith)
    ∙ mod-eq_of_lt lt

multiple : (a w : ℕ) → a % w ≡ 0 → a ≡ w * (a / w)
multiple a w h = omega (arith, div-add-mod a w)

-- A position at or above a multiple of the width lies above it by its index at least.
pub above_index : (lo w p : ℕ) → 0 < w → lo % w ≡ 0 → lo ≤ p → lo + p % w ≤ p
above_index lo w p pos h le =
    let quotient =
      (le-div_iff_mul-le {k = w} {x = lo / w} {y = p} pos).1 (omega (arith, multiple lo w h)) in
    omega (arith, multiple lo w h, div-add-mod p w, mul-le-mul_left w quotient)

-- A position below a multiple of the width lies below it by the rest of the width at least.
pub below_index : (top w p : ℕ) → 0 < w → top % w ≡ 0 → p < top → p + w ≤ top + p % w
below_index top w p pos h lt =
    let quotient =
      (div-lt_iff_lt-mul {k = w} {x = p} {y = top / w} pos).1 (omega (arith, multiple top w h)) in
    omega (arith, multiple top w h, div-add-mod p w, mul-le-mul_left w quotient)
