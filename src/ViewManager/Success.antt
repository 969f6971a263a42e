-- ===== src/ViewManager/Success.antt =====
-- When `seal_stripe` of src/libzlog/view_manager.cc succeeds on the in-memory backend.
use zlog.Base.{
  ℕ, ◌≡◌, ◌<◌, refl, sym, ap, subst, ◌∙◌, false, Option, none, some, List, [], ◌∷◌, Text, espipe,
  Outcome, ok, err, fault, is_empty, All, arith, Bool-cases, inl, inr, leb, ◌==◌, text_eq,
  text_eq_iff, ◌⊎◌,
}
use zlog.Stripe.{Stripe}
use zlog.Ram.{RamBackend, Object, link, projection, log, find_object, seal, max_pos, max_pos_log}
use zlog.Ram.Sealing.{IsSealed}
use zlog.Ram.Spec.{seals, run_log_call, View, absent, foreign, object, view, view_object, spec_seal}
use zlog.Ram.Calls.{run_log_call_other}
use zlog.LogBackend.{LogBackend, prefixed_oid, ram_backend}
use zlog.LogBackend.Apart.{prefixed-named}
use zlog.ViewManager.{larger, seal_all, max_all, after_seals, seal_stripe}
use zlog.ViewManager.Seals.{sealed_after, seal_spec, next, seal_all_step, seal_all_seals}
use zlog.ViewManager.SealStripe.{max_next, max_all_step, seal_stripe_filled}

-- The name is free or belongs to a log object.
abbrev pub IsOurs : View → Type 0
IsOurs absent = Unit
IsOurs foreign = ⊥
IsOurs (object e l c) = Unit

-- The outcome of a seal on such a name.
spec_seal-IsOurs : (epoch : ℕ) (v : View) → IsOurs v → IsOurs (spec_seal epoch v).1
spec_seal-IsOurs epoch absent ours = elim (Bool-cases (epoch == 0)) [
  | inl z ↦ rw z tt
  | inr z ↦ rw z tt
]
spec_seal-IsOurs epoch foreign ours = elim ours [ ]
spec_seal-IsOurs epoch (object e l c) ours = elim (Bool-cases (epoch == 0)) [
  | inl z ↦ rw z tt
  | inr z ↦ elim (Bool-cases (leb epoch e)) [ inl t ↦ rw (z, t) tt | inr t ↦ rw (z, t) tt ]
]

abbrev Passes : Outcome (Unit {0}) → Type 0
Passes r = (r ≡ ok tt) ⊎ (r ≡ err espipe)

spec_seal-Passes : (epoch : ℕ) (v : View) → 0 < epoch → IsOurs v → Passes (spec_seal epoch v).0
spec_seal-Passes epoch absent h ours = inl (ground (arith, h))
spec_seal-Passes epoch foreign h ours = elim ours [ ]
spec_seal-Passes epoch (object e l c) h ours = elim (Bool-cases (leb epoch e)) [
  | inl t ↦ inr (ground (arith, h, t))
  | inr t ↦ inl (ground (arith, h, t))
]

module _ (l : LogBackend) (epoch : ℕ) (positive : 0 < epoch) where
  abbrev pub AllOurs : RamBackend → Type 0
  AllOurs b = (oid : Text) → IsOurs (view b (prefixed_oid l oid))

  seal-AllOurs : (b : RamBackend) (oid : Text) → AllOurs b → AllOurs (sealed_after l epoch b oid)
  seal-AllOurs b oid ours other =
      elim (Bool-cases (text_eq (prefixed_oid l oid) (prefixed_oid l other))) [
        | inl e ↦
            subst (λ o. IsOurs (view (sealed_after l epoch b oid) o))
              ((text_eq_iff (prefixed_oid l oid) (prefixed_oid l other)).0 e)
              (subst IsOurs (sym (seal_spec l epoch b oid).1)
                (spec_seal-IsOurs epoch (view b (prefixed_oid l oid)) (ours oid)))
        | inr e ↦
            unfold view run_log_call in
            subst (λ r. IsOurs (view_object r))
              (sym
                (run_log_call_other b (prefixed_oid l oid) (prefixed_oid l other) e (seals epoch)))
              (ours other)
      ]

  next-Passes :
      (b : RamBackend) (oid : Text) (oids : List Text) (r : Outcome (Unit {0}))
      → Passes r
      → next l epoch b oid oids r ≡ seal_all ram_backend l (sealed_after l epoch b oid) oids epoch
  next-Passes b oid oids r (inl e) = rw e refl
  next-Passes b oid oids r (inr e) = rw e refl

  seal_all_succeeds :
      (b : RamBackend) (oids : List Text)
      → AllOurs b
      → (seal_all ram_backend l b oids epoch).0 ≡ ok tt
  unfolding seal_all
  seal_all_succeeds b [] ours = refl
  seal_all_succeeds b (oid ∷ oids) ours =
      ap (λ r. r.0)
        (seal_all_step l epoch b oid oids
          ∙ next-Passes b oid oids (seal b (prefixed_oid l oid) epoch).0 (
              subst Passes (sym (seal_spec l epoch b oid).0)
                (spec_seal-Passes epoch (view b (prefixed_oid l oid)) positive (ours oid))))
      ∙ seal_all_succeeds (sealed_after l epoch b oid) oids (seal-AllOurs b oid ours)

  named : (oid : Text) → is_empty (prefixed_oid l oid) ≡ false
  unfolding prefixed_oid
  named oid = prefixed-named l.prefix oid

  max_pos_sealed :
      (b : RamBackend) (oid : Text)
      → IsSealed epoch (view b (prefixed_oid l oid))
      → (m : Option ℕ) × (max_pos b (prefixed_oid l oid) ≡ ok m)
  unfolding view
  max_pos_sealed b oid h = go (find_object b (prefixed_oid l oid)) refl h
    where
      go :
          (r : Option Object)
          → find_object b (prefixed_oid l oid) ≡ r
          → IsSealed epoch (view_object r)
          → (m : Option ℕ) × (max_pos b (prefixed_oid l oid) ≡ ok m)
      go none f u = elim u [ ]
      go (some (link x)) f u = elim u [ ]
      go (some (projection x)) f u = elim u [ ]
      go (some (log o)) f u = (max_pos_log o, unfold max_pos in rw (max_pos, named oid, f) refl)

  max_all_succeeds :
      (b : RamBackend) (oids : List Text) (so_far : Option ℕ)
      → All (λ oid. IsSealed epoch (view b (prefixed_oid l oid))) oids
      → (m : Option ℕ) × (max_all ram_backend l b oids so_far ≡ ok m)
  unfolding max_all
  max_all_succeeds b [] so_far h = (so_far, refl)
  max_all_succeeds b (oid ∷ oids) so_far h =
      let k = max_pos_sealed b oid h.0 in
      let rest = max_all_succeeds b oids (larger so_far k.0) h.1 in
      (rest.0, max_all_step l b oid oids so_far ∙ ap (max_next l b oids so_far) k.1 ∙ rest.1)

  -- On a backend where each name under the log's prefix is free or belongs to a log object, sealing a
  -- stripe at a positive epoch succeeds.
  pub seal_stripe_succeeds :
      (b : RamBackend) (stripe : Stripe)
      → AllOurs b
      → is_empty stripe.oids ≡ false
      → (m : Option ℕ) × ((seal_stripe ram_backend l b stripe epoch).0 ≡ ok m)
  seal_stripe_succeeds b stripe ours filled =
      let done = seal_all_succeeds b stripe.oids ours in
      let found =
        max_all_succeeds (seal_all ram_backend l b stripe.oids epoch).1 stripe.oids none
          (seal_all_seals l epoch b stripe.oids done) in
      (
        found.0,
        ap (λ r. r.0) (seal_stripe_filled l b stripe epoch filled)
            ∙ after stripe.oids (seal_all ram_backend l b stripe.oids epoch) done
            ∙ found.1,
      )
    where
      after :
          (oids : List Text) (r : Outcome (Unit {0}) × RamBackend)
          → r.0 ≡ ok tt
          → (after_seals ram_backend l oids r).0 ≡ max_all ram_backend l r.1 oids none
      after oids (ok tt, s) e = unfold after_seals in refl
      after oids (err x, s) e = cc e
      after oids (fault, s) e = cc e
