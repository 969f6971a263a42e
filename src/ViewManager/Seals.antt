-- ===== src/ViewManager/Seals.antt =====
-- The first loop of `ViewManager::seal_stripe` of src/libzlog/view_manager.cc on the in-memory backend:
-- each object that was sealed refuses older epochs.
use zlog.Base.{
  ℕ, ◌≡◌, ◌≢◌, ◌≤◌, refl, sym, ap, subst, ◌∙◌, true, Option, none, some, List, [], ◌∷◌, Text, Errno,
  espipe, Outcome, ok, err, fault, if◌then◌else◌, All, arith, Bool-cases, inl, inr, leb, leb→le,
  ◌==◌, text_eq, text_eq_iff,
}
use zlog.Ram.{RamBackend, seal}
use zlog.Ram.Cells.{unwritten}
use zlog.Ram.Spec.{seals, run_log_call, View, absent, foreign, object, view, view_object, spec_seal}
use zlog.Ram.Refinement.{run_log_call_refines}
use zlog.Ram.Calls.{calls, run, step, run_log_call_other}
use zlog.Ram.Sealing.{IsSealed, spec_seal-IsSealed}
use zlog.Ram.Bounds.{AllBounded, run-AllBounded}
use zlog.LogBackend.{LogBackend, prefixed_oid, ram_backend, log_seal}
use zlog.LogBackend.Apart.{prefixed-named}
use zlog.ViewManager.{is_espipe, seal_all}

-- The position is in use on the object.
abbrev pub IsUsed : View → ℕ → Type 0
IsUsed absent p = ⊥
IsUsed foreign p = ⊥
IsUsed (object e l c) p = c p ≢ unwritten

-- The position is at or below a maximum, which is there.
abbrev pub IsCovered : ℕ → Option ℕ → Type 0
IsCovered p none = ⊥
IsCovered p (some m) = p ≤ m

spec_seal_keeps :
    (epoch other : ℕ) (v : View) → IsSealed epoch v → IsSealed epoch (spec_seal other v).1
spec_seal_keeps epoch other absent h = elim h [ ]
spec_seal_keeps epoch other foreign h = elim h [ ]
spec_seal_keeps epoch other (object e l c) h = elim (Bool-cases (other == 0)) [
  | inl z ↦ rw z h
  | inr z ↦ elim (Bool-cases (leb other e)) [
    | inl t ↦ rw (z, t) h
    | inr t ↦ rw (z, t) (ground (arith, h, t))
  ]
]

spec_seal_old :
    (epoch : ℕ) (v : View)
    → (spec_seal epoch v).0 ≡ err espipe
    → IsSealed epoch (spec_seal epoch v).1
spec_seal_old epoch absent h = ground (arith, h)
spec_seal_old epoch foreign h = ground (arith, h)
spec_seal_old epoch (object e l c) h = elim (Bool-cases (epoch == 0)) [
  | inl z ↦ ground (arith, z, h)
  | inr z ↦ elim (Bool-cases (leb epoch e)) [
    | inl t ↦ rw (z, t) (leb→le epoch e t)
    | inr t ↦ ground (arith, z, t, h)
  ]
]

module _ (l : LogBackend) (epoch : ℕ) where
  abbrev pub sealed_after : RamBackend → Text → RamBackend
  sealed_after b oid = (seal b (prefixed_oid l oid) epoch).1

  pub seal_spec :
      (b : RamBackend) (oid : Text)
      → ((seal b (prefixed_oid l oid) epoch).0 ≡ (spec_seal epoch (view b (prefixed_oid l oid))).0)
        × (view (sealed_after b oid) (prefixed_oid l oid)
            ≡ (spec_seal epoch (view b (prefixed_oid l oid))).1)
  unfolding run_log_call
  seal_spec b oid =
      run_log_call_refines b (prefixed_oid l oid)
        (unfold prefixed_oid in prefixed-named l.prefix oid) (seals epoch)

  seal_ok :
      (b : RamBackend) (oid : Text)
      → (seal b (prefixed_oid l oid) epoch).0 ≡ ok tt
      → IsSealed epoch (view (sealed_after b oid) (prefixed_oid l oid))
  seal_ok b oid h =
      let s = seal_spec b oid in
      subst (IsSealed epoch) (sym s.1)
        (spec_seal-IsSealed epoch (view b (prefixed_oid l oid)) (sym s.0 ∙ h))

  seal_espipe :
      (b : RamBackend) (oid : Text)
      → (seal b (prefixed_oid l oid) epoch).0 ≡ err espipe
      → IsSealed epoch (view (sealed_after b oid) (prefixed_oid l oid))
  seal_espipe b oid h =
      let s = seal_spec b oid in
      subst (IsSealed epoch) (sym s.1)
        (spec_seal_old epoch (view b (prefixed_oid l oid)) (sym s.0 ∙ h))

  pub seal_keeps :
      (b : RamBackend) (oid other : Text)
      → IsSealed epoch (view b other)
      → IsSealed epoch (view (sealed_after b oid) other)
  seal_keeps b oid other h = elim (Bool-cases (text_eq (prefixed_oid l oid) other)) [
    | inl e ↦
        subst (λ o. IsSealed epoch (view (sealed_after b oid) o))
          ((text_eq_iff (prefixed_oid l oid) other).0 e)
          (subst (IsSealed epoch) (sym (seal_spec b oid).1) (
            spec_seal_keeps epoch epoch (view b (prefixed_oid l oid)) (
              subst (λ o. IsSealed epoch (view b o))
                (sym ((text_eq_iff (prefixed_oid l oid) other).0 e)) h)))
    | inr e ↦
        unfold view run_log_call in
        subst (λ r. IsSealed epoch (view_object r))
          (sym (run_log_call_other b (prefixed_oid l oid) other e (seals epoch))) h
  ]

  -- The first loop, from the outcome of its first seal on.
  abbrev pub next :
      RamBackend → Text → List Text → Outcome (Unit {0}) → Outcome (Unit {0}) × RamBackend
  next b oid oids r = elim r [
    | ok done ↦ seal_all ram_backend l (sealed_after b oid) oids epoch
    | err e ↦
        if is_espipe e
        then seal_all ram_backend l (sealed_after b oid) oids epoch
        else (err e, sealed_after b oid)
    | fault ↦ (fault, sealed_after b oid)
  ]

  pub seal_all_step :
      (b : RamBackend) (oid : Text) (oids : List Text)
      → seal_all ram_backend l b (oid ∷ oids) epoch
        ≡ next b oid oids (seal b (prefixed_oid l oid) epoch).0
  unfolding seal_all log_seal prefixed_oid
  seal_all_step b oid oids = refl

  module _ (P : RamBackend → Type 0)
      (keep : (b : RamBackend) (oid : Text) → P b → P (sealed_after b oid)) where
    next_keeps :
        (b : RamBackend) (oid : Text) (oids : List Text) (r : Outcome (Unit {0}))
        → P (sealed_after b oid)
        → P (seal_all ram_backend l (sealed_after b oid) oids epoch).1
        → P (next b oid oids r).1
    next_keeps b oid oids (ok done) now later = later
    next_keeps b oid oids (err e) now later = elim (Bool-cases (is_espipe e)) [
      | inl t ↦ rw t later
      | inr t ↦ rw t now
    ]
    next_keeps b oid oids fault now later = now

    pub seal_all_keeps :
        (b : RamBackend) (oids : List Text) → P b → P (seal_all ram_backend l b oids epoch).1
    unfolding seal_all
    seal_all_keeps b [] h = h
    seal_all_keeps b (oid ∷ oids) h =
        subst (λ r. P r.1) (sym (seal_all_step b oid oids))
          (next_keeps b oid oids (seal b (prefixed_oid l oid) epoch).0 (keep b oid h)
            (seal_all_keeps (sealed_after b oid) oids (keep b oid h)))

  pub seal-AllBounded :
      (b : RamBackend) (oid : Text) → AllBounded b → AllBounded (sealed_after b oid)
  unfolding run step run_log_call
  seal-AllBounded b oid all = run-AllBounded (calls (prefixed_oid l oid) (seals epoch) ∷ []) b all

  espipe_only : (e : Errno) → is_espipe e ≡ true → e ≡ espipe
  espipe_only e h = ground (arith, h)

  -- If the loop succeeds, it goes on after each object, and the object is sealed.
  goes_on :
      (b : RamBackend) (oid : Text) (oids : List Text) (r : Outcome (Unit {0}))
      → (seal b (prefixed_oid l oid) epoch).0 ≡ r
      → (next b oid oids r).0 ≡ ok tt
      → (next b oid oids r ≡ seal_all ram_backend l (sealed_after b oid) oids epoch)
        × IsSealed epoch (view (sealed_after b oid) (prefixed_oid l oid))
  goes_on b oid oids (ok tt) e done = (refl, seal_ok b oid e)
  goes_on b oid oids (err x) e done = elim (Bool-cases (is_espipe x)) [
    | inl t ↦ (rw t refl, seal_espipe b oid (e ∙ ap err (espipe_only x t)))
    | inr t ↦ cc (done, t)
  ]
  goes_on b oid oids fault e done = cc done

  pub seal_all_seals :
      (b : RamBackend) (oids : List Text)
      → (seal_all ram_backend l b oids epoch).0 ≡ ok tt
      → All
          (λ oid.
            IsSealed epoch (view (seal_all ram_backend l b oids epoch).1 (prefixed_oid l oid)))
          oids
  seal_all_seals b [] done = tt
  seal_all_seals b (oid ∷ oids) done =
      let on =
        goes_on b oid oids (seal b (prefixed_oid l oid) epoch).0 refl
          (ap (λ r. r.0) (sym (seal_all_step b oid oids)) ∙ done) in
      subst (λ r. All (λ o. IsSealed epoch (view r.1 (prefixed_oid l o))) (oid ∷ oids))
        (sym (seal_all_step b oid oids ∙ on.0))
        (
          seal_all_keeps (λ c. IsSealed epoch (view c (prefixed_oid l oid)))
              (λ c other h. seal_keeps c other (prefixed_oid l oid) h) (sealed_after b oid) oids
              on.1,
          seal_all_seals (sealed_after b oid) oids
              (ap (λ r. r.0) (sym (seal_all_step b oid oids ∙ on.0)) ∙ done),
        )
