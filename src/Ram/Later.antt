-- ===== src/Ram/Later.antt =====
-- Each call on a log object moves its view forward.
use zlog.Base.{
  ℕ, ◌≡◌, ◌≤◌, ◌<◌, refl, inl, inr, Bool, true, false, Option, none, some, [], Outcome, ltb, leb,
  ◌==◌, if◌then◌else◌, arith, Bool-cases,
}
use zlog.Ram.Cells.{Cell, unwritten, invalid}
use zlog.Ram.Spec.{
  LogCall, writes, fills, trims, seals, View, absent, foreign, object, set_cell, below_limit,
  raise_limit, guarded, spec_seal, trim_cells, spec,
}
use zlog.Ram.Order.{
  CellLater, Later, CellLater-refl, CellLater-invalid, Later-refl, Within, UsedWithin,
  write_cell-Later, fill_cell-Later, set_cell-Later, set_cell-used,
}

-- What a call must do to a view for the object's history to be in order.
abbrev pub Forward : ℕ → View → View → Type 0
Forward cap v w = Later v w × UsedWithin cap w

below_limit-raise_limit :
    (l : Option ℕ) (p q : ℕ) → below_limit l q ≡ true → below_limit (raise_limit l p) q ≡ true
below_limit-raise_limit none p q h = cc h
below_limit-raise_limit (some l) p q h = ground (arith, h)

below_limit-new : (l : Option ℕ) (p q : ℕ) → below_limit (raise_limit l p) q ≡ false → p < q
below_limit-new none p q h = ground (arith, h)
below_limit-new (some l) p q h = ground (arith, h)

module _ (cap : ℕ) where
  module _ (epoch : ℕ) (f : ℕ → Option ℕ → (ℕ → Cell) → Outcome (Unit {0}) × View) where
    guarded-Forward :
        ((e : ℕ) (l : Option ℕ) (c : ℕ → Cell)
          → UsedWithin cap (object e l c)
          → Forward cap (object e l c) (f e l c).1)
        → (v : View) → UsedWithin cap v
        → Forward cap v (guarded epoch v f).1
    guarded-Forward step absent used = (tt, tt)
    guarded-Forward step foreign used = (tt, tt)
    guarded-Forward step (object e l c) used = elim (Bool-cases (epoch == 0)) [
      | inl z ↦ rw z (Later-refl (object e l c), used)
      | inr z ↦ elim (Bool-cases (ltb epoch e)) [
        | inl t ↦ rw (z, t) (Later-refl (object e l c), used)
        | inr t ↦ rw (z, t) (step e l c used)
      ]
    ]

  set_cell-Forward :
      (p : ℕ) (e : ℕ) (l : Option ℕ) (c : ℕ → Cell) (new : Cell)
      → p ≤ cap
      → CellLater (c p) new
      → UsedWithin cap (object e l c)
      → Forward cap (object e l c) (object e l (set_cell c p new))
  set_cell-Forward p e l c new h later used =
      ((omega arith, set_cell-Later c p new later), set_cell-used cap l c p new h used)

  limited-Later :
      (p : ℕ) (l : Option ℕ) (c : ℕ → Cell) (q : ℕ)
      → CellLater (c q) (trim_cells false (raise_limit l p) c q)
  limited-Later p l c q = elim (Bool-cases (below_limit (raise_limit l p) q)) [
    | inl t ↦ rw t (CellLater-invalid (c q))
    | inr t ↦ rw t (CellLater-refl (c q))
  ]

  limited-used :
      (p : ℕ) (full : Bool) (e : ℕ) (l : Option ℕ) (c : ℕ → Cell)
      → UsedWithin cap (object e l c)
      → UsedWithin cap (object e (raise_limit l p) (trim_cells full (raise_limit l p) c))
  limited-used p full e l c used q over = elim (Bool-cases (below_limit (raise_limit l p) q)) [
    | inl t ↦ inr t
    | inr t ↦ inl (above full t)
  ]
    where
      above :
          (full : Bool)
          → below_limit (raise_limit l p) q ≡ false
          → trim_cells full (raise_limit l p) c q ≡ unwritten
      above true t = rw t refl
      above false t = elim (used q over) [
        | inl u ↦ rw (t, u) refl
        | inr below ↦ cc (below_limit-raise_limit l p q below)
      ]

  full-Later :
      (p : ℕ) (e : ℕ) (l : Option ℕ) (c : ℕ → Cell)
      → cap ≤ p
      → UsedWithin cap (object e l c)
      → (q : ℕ) → CellLater (c q) (trim_cells true (raise_limit l p) c q)
  full-Later p e l c h used q = elim (Bool-cases (below_limit (raise_limit l p) q)) [
    | inl t ↦ rw t (CellLater-invalid (c q))
    | inr t ↦ rw t (elim (used q (omega (arith, below_limit-new l p q t))) [
      | inl u ↦ rw u tt
      | inr below ↦ cc (below_limit-raise_limit l p q below)
    ])
  ]

  trim-Forward :
      (p : ℕ) (full : Bool) (epoch : ℕ)
      → Within cap (trims epoch p true full)
      → (e : ℕ) (l : Option ℕ) (c : ℕ → Cell) → UsedWithin cap (object e l c)
      → Forward cap
          (object e l c)
          (object e (raise_limit l p) (trim_cells full (raise_limit l p) c))
  trim-Forward p true epoch h e l c used =
      ((omega arith, full-Later p e l c h used), limited-used p true e l c used)
  trim-Forward p false epoch h e l c used =
      ((omega arith, limited-Later p l c), limited-used p false e l c used)

  seal-Forward : (epoch : ℕ) (v : View) → UsedWithin cap v → Forward cap v (spec_seal epoch v).1
  seal-Forward epoch absent used = elim (Bool-cases (epoch == 0)) [
    | inl z ↦ rw z (tt, tt)
    | inr z ↦ rw z (tt, λ q over. inl refl)
  ]
  seal-Forward epoch foreign used = (tt, tt)
  seal-Forward epoch (object e l c) used = elim (Bool-cases (epoch == 0)) [
    | inl z ↦ rw z (Later-refl (object e l c), used)
    | inr z ↦ elim (Bool-cases (leb epoch e)) [
      | inl t ↦ rw (z, t) (Later-refl (object e l c), used)
      | inr t ↦ rw (z, t) ((ground (arith, t), λ q. CellLater-refl (c q)), used)
    ]
  ]

  pub spec-Forward :
      (blackhole : Bool) (call : LogCall) (v : View)
      → Within cap call
      → UsedWithin cap v
      → Forward cap v (spec blackhole call v).1
  spec-Forward blackhole (writes content epoch p) v h used =
      guarded-Forward epoch _
        (λ e l c u.
          set_cell-Forward p e l c _ h (write_cell-Later (if blackhole then [] else content) (c p))
            u)
        v used
  spec-Forward blackhole (fills epoch p) v h used =
      guarded-Forward epoch _ (λ e l c u. set_cell-Forward p e l c _ h (fill_cell-Later (c p)) u) v
        used
  spec-Forward blackhole (trims epoch p true full) v h used =
      guarded-Forward epoch _ (trim-Forward p full epoch h) v used
  spec-Forward blackhole (trims epoch p false true) v h used = (Later-refl v, used)
  spec-Forward blackhole (trims epoch p false false) v h used =
      guarded-Forward epoch _
        (λ e l c u. set_cell-Forward p e l c invalid h (CellLater-invalid (c p)) u) v used
  spec-Forward blackhole (seals epoch) v h used = seal-Forward epoch v used
