-- ===== src/Ram/Order.antt =====
-- How the view of an object may change over time: epochs rise, and a cell is written once.
use zlog.Base.{
  ℕ, ◌≡◌, ◌≤◌, ◌<◌, refl, ◌∙◌, ◌⊎◌, inl, inr, true, false, Option, Text, ◌==◌, arith, Bool-cases,
  ==_iff,
}
use zlog.Ram.Cells.{Cell, unwritten, written, invalid, write_cell, fill_cell}
use zlog.Ram.Spec.{
  LogCall, writes, fills, trims, seals, View, absent, foreign, object, set_cell, below_limit,
}

-- A cell is written once, and an invalid cell stays invalid.
abbrev pub CellLater : Cell → Cell → Type 0
CellLater unwritten c = Unit
CellLater (written a) unwritten = ⊥
CellLater (written a) (written b) = a ≡ b
CellLater (written a) invalid = Unit
CellLater invalid unwritten = ⊥
CellLater invalid (written b) = ⊥
CellLater invalid invalid = Unit

abbrev pub Later : View → View → Type 0
Later absent w = Unit
Later foreign absent = ⊥
Later foreign foreign = Unit
Later foreign (object e l c) = ⊥
Later (object e l c) absent = ⊥
Later (object e l c) foreign = ⊥
Later (object e l c) (object e' l' c') = (e ≤ e') × ((q : ℕ) → CellLater (c q) (c' q))

pub CellLater-refl : (c : Cell) → CellLater c c
CellLater-refl unwritten = tt
CellLater-refl (written a) = refl
CellLater-refl invalid = tt

pub CellLater-invalid : (c : Cell) → CellLater c invalid
CellLater-invalid unwritten = tt
CellLater-invalid (written a) = tt
CellLater-invalid invalid = tt

pub CellLater-trans : (a b c : Cell) → CellLater a b → CellLater b c → CellLater a c
CellLater-trans unwritten b c h k = tt
CellLater-trans (written x) unwritten c h k = elim h [ ]
CellLater-trans (written x) (written y) unwritten h k = elim k [ ]
CellLater-trans (written x) (written y) (written z) h k = h ∙ k
CellLater-trans (written x) (written y) invalid h k = tt
CellLater-trans (written x) invalid unwritten h k = elim k [ ]
CellLater-trans (written x) invalid (written z) h k = elim k [ ]
CellLater-trans (written x) invalid invalid h k = tt
CellLater-trans invalid unwritten c h k = elim h [ ]
CellLater-trans invalid (written y) c h k = elim h [ ]
CellLater-trans invalid invalid c h k = k

pub Later-refl : (v : View) → Later v v
Later-refl absent = tt
Later-refl foreign = tt
Later-refl (object e l c) = (omega arith, λ q. CellLater-refl (c q))

pub Later-trans : (u v w : View) → Later u v → Later v w → Later u w
Later-trans absent v w h k = tt
Later-trans foreign absent w h k = elim h [ ]
Later-trans foreign foreign w h k = k
Later-trans foreign (object e l c) w h k = elim h [ ]
Later-trans (object e l c) absent w h k = elim h [ ]
Later-trans (object e l c) foreign w h k = elim h [ ]
Later-trans (object e l c) (object e' l' c') absent h k = elim k [ ]
Later-trans (object e l c) (object e' l' c') foreign h k = elim k [ ]
Later-trans (object e l c) (object e' l' c') (object f m d) h k =
    (omega (arith, h.0, k.0), λ q. CellLater-trans (c q) (c' q) (d q) (h.1 q) (k.1 q))

-- The obligation of clients: an object is used up to a last position, and a full trim covers that.
abbrev pub Within : ℕ → LogCall → Type 0
Within cap (writes content epoch p) = p ≤ cap
Within cap (fills epoch p) = p ≤ cap
Within cap (trims epoch p true true) = cap ≤ p
Within cap (trims epoch p false false) = p ≤ cap
Within cap (trims epoch p limit full) = Unit
Within cap (seals epoch) = Unit

-- Beyond its last position an object has only cells that are unwritten or below the trim limit.
abbrev pub UsedWithin : ℕ → View → Type 0
UsedWithin cap absent = Unit
UsedWithin cap foreign = Unit
UsedWithin cap (object e l c) = (q : ℕ) → cap < q → (c q ≡ unwritten) ⊎ (below_limit l q ≡ true)

pub write_cell-Later : (content : Text) (c : Cell) → CellLater c (write_cell content c).1
write_cell-Later content unwritten = tt
write_cell-Later content (written a) = refl
write_cell-Later content invalid = tt

pub fill_cell-Later : (c : Cell) → CellLater c (fill_cell c).1
fill_cell-Later unwritten = tt
fill_cell-Later (written a) = refl
fill_cell-Later invalid = tt

pub set_cell-Later :
    (cells : ℕ → Cell) (p : ℕ) (c : Cell)
    → CellLater (cells p) c
    → (q : ℕ) → CellLater (cells q) (set_cell cells p c q)
set_cell-Later cells p c h q = elim (Bool-cases (p == q)) [
  | inl e ↦ rw e (rw (← (==_iff p q).0 e) h)
  | inr e ↦ rw e (CellLater-refl (cells q))
]

pub set_cell-used :
    (cap : ℕ) (l : Option ℕ) (cells : ℕ → Cell) (p : ℕ) (c : Cell)
    → p ≤ cap
    → ((q : ℕ) → cap < q → (cells q ≡ unwritten) ⊎ (below_limit l q ≡ true))
    → (q : ℕ) → cap < q
    → (set_cell cells p c q ≡ unwritten) ⊎ (below_limit l q ≡ true)
set_cell-used cap l cells p c h used q over = rw (==_ne p q (omega arith)) (used q over)
  where
    ==_ne : (a b : ℕ) → a < b → (a == b) ≡ false
    ==_ne a b lt = ground arith
