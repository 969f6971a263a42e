-- ===== src/Ram/Holding.antt =====
-- What a position of a log object of src/storage/ram/ram.cc holds while clients call the backend.
use zlog.Base.{
  ◌≤◌, true, ℕ, ◌≡◌, refl, sym, subst, ◌⊎◌, inl, inr, Bool, false, Option, none, some, List, [],
  Text, Outcome, if◌then◌else◌, ltb, ◌==◌, arith, Bool-cases,
}
use zlog.Ram.{RamBackend}
use zlog.Ram.Cells.{Cell, unwritten, written, invalid, write_cell, fill_cell}
use zlog.Ram.Spec.{
  LogCall, writes, fills, trims, seals, View, absent, foreign, object, view, set_cell, below_limit,
  raise_limit, trim_cells, guarded, spec,
}
use zlog.Ram.Calls.{Call, run}
use zlog.Ram.Lasting.{EachOn, run_keeps}

abbrev pub Holds : Text → ℕ → View → Type 0
Holds content p absent = ⊥
Holds content p foreign = ⊥
Holds content p (object e l c) = c p ≡ written content

-- The cell still holds the content, or its position is trimmed.
abbrev pub KeepsCell : Text → Cell → Type 0
KeepsCell content c = (c ≡ written content) ⊎ (c ≡ invalid)

abbrev pub StillHolds : Text → ℕ → View → Type 0
StillHolds content p absent = ⊥
StillHolds content p foreign = ⊥
StillHolds content p (object e l c) = KeepsCell content (c p)

pub Holds-StillHolds :
    (content : Text) (p : ℕ) (v : View) → Holds content p v → StillHolds content p v
Holds-StillHolds content p absent h = h
Holds-StillHolds content p foreign h = h
Holds-StillHolds content p (object e l c) h = inl h

-- A trim to the full, which throws every entry away, is for a position not below this one.
abbrev pub SparesBelow : ℕ → LogCall → Type 0
SparesBelow p (writes content epoch q) = Unit
SparesBelow p (fills epoch q) = Unit
SparesBelow p (trims epoch q true true) = p ≤ q
SparesBelow p (trims epoch q true false) = Unit
SparesBelow p (trims epoch q false full) = Unit
SparesBelow p (seals epoch) = Unit

set-KeepsCell :
    (content : Text) (p : ℕ) (cells : ℕ → Cell) (q : ℕ) (new : Cell)
    → KeepsCell content (cells p)
    → (q ≡ p → KeepsCell content new)
    → KeepsCell content (set_cell cells q new p)
set-KeepsCell content p cells q new h at = elim (Bool-cases (q == p)) [
  | inl e ↦ rw e (at (ground (arith, e)))
  | inr e ↦ rw e h
]

write-KeepsCell :
    (content other : Text) (c : Cell)
    → KeepsCell content c
    → KeepsCell content (write_cell other c).1
write-KeepsCell content other unwritten h = elim h [ inl e ↦ cc e | inr e ↦ cc e ]
write-KeepsCell content other (written x) h = h
write-KeepsCell content other invalid h = h

fill-KeepsCell :
    (content : Text) (c : Cell) → KeepsCell content c → KeepsCell content (fill_cell c).1
fill-KeepsCell content unwritten h = elim h [ inl e ↦ cc e | inr e ↦ cc e ]
fill-KeepsCell content (written x) h = h
fill-KeepsCell content invalid h = h

below_raised : (limit : Option ℕ) (p q : ℕ) → p ≤ q → below_limit (raise_limit limit q) p ≡ true
below_raised none p q h = ground (arith, h)
below_raised (some limit) p q h = ground (arith, h)

trim-KeepsCell :
    (content : Text) (p : ℕ) (limit : Option ℕ) (cells : ℕ → Cell)
    → KeepsCell content (cells p)
    → KeepsCell content (trim_cells false limit cells p)
trim-KeepsCell content p limit cells h = elim (Bool-cases (below_limit limit p)) [
  | inl e ↦ rw e (inr refl)
  | inr e ↦ rw e h
]

trim_full-KeepsCell :
    (content : Text) (p q : ℕ) (limit : Option ℕ) (cells : ℕ → Cell)
    → p ≤ q
    → KeepsCell content (trim_cells true (raise_limit limit q) cells p)
trim_full-KeepsCell content p q limit cells h = rw (below_raised limit p q h) (inr refl)

-- A call that passes its guards leaves these cells.
guarded-StillHolds :
    (content : Text) (p epoch e : ℕ) (l next_limit : Option ℕ) (c next : ℕ → Cell)
    (r : Outcome (Unit {0}))
    → KeepsCell content (c p)
    → KeepsCell content (next p)
    → StillHolds content p (guarded epoch (object e l c) (λ x y z. (r, object x next_limit next))).1
guarded-StillHolds content p epoch e l next_limit c next r h ran = elim (Bool-cases (epoch == 0)) [
  | inl z ↦ rw z h
  | inr z ↦ elim (Bool-cases (ltb epoch e)) [ inl t ↦ rw (z, t) h | inr t ↦ rw (z, t) ran ]
]

spec-StillHolds :
    (content : Text) (p : ℕ) (blackhole : Bool) (call : LogCall) (v : View)
    → SparesBelow p call
    → StillHolds content p v
    → StillHolds content p (spec blackhole call v).1
spec-StillHolds content p blackhole call absent spares h = elim h [ ]
spec-StillHolds content p blackhole call foreign spares h = elim h [ ]
spec-StillHolds content p blackhole (writes other epoch q) (object e l c) spares h =
    guarded-StillHolds content p epoch e l _ c _ _ h (
      set-KeepsCell content p c q _ h λ same.
        write-KeepsCell content (if blackhole then [] else other) (c q)
          (subst (λ x. KeepsCell content (c x)) (sym same) h))
spec-StillHolds content p blackhole (fills epoch q) (object e l c) spares h =
    guarded-StillHolds content p epoch e l _ c _ _ h (
      set-KeepsCell content p c q _ h
        λ same. fill-KeepsCell content (c q) (subst (λ x. KeepsCell content (c x)) (sym same) h))
spec-StillHolds content p blackhole (trims epoch q true true) (object e l c) spares h =
    guarded-StillHolds content p epoch e l _ c _ _ h (trim_full-KeepsCell content p q l c spares)
spec-StillHolds content p blackhole (trims epoch q true false) (object e l c) spares h =
    guarded-StillHolds content p epoch e l _ c _ _ h
      (trim-KeepsCell content p (raise_limit l q) c h)
spec-StillHolds content p blackhole (trims epoch q false true) (object e l c) spares h = h
spec-StillHolds content p blackhole (trims epoch q false false) (object e l c) spares h =
    guarded-StillHolds content p epoch e l _ c _ _ h
      (set-KeepsCell content p c q invalid h (λ same. inr refl))
spec-StillHolds content p blackhole (seals epoch) (object e l c) spares h = ground (arith, h)

-- What a position of an object holds stays until it is trimmed, whoever calls what in between.
pub run-StillHolds :
    (content : Text) (p : ℕ) (oid : Text) (sequence : List Call) (b : RamBackend)
    → EachOn oid (SparesBelow p) sequence
    → StillHolds content p (view b oid)
    → StillHolds content p (view (run b sequence) oid)
run-StillHolds content p oid =
    run_keeps (StillHolds content p) (λ h. h) (λ h. h) (SparesBelow p) (spec-StillHolds content p)
      oid
