-- ===== src/ViewManager/SealLow.antt =====
-- What a seal of `ViewManager::seal_stripe` leaves alone: it makes no position used and raises no
-- maximum position (src/libzlog/view_manager.cc on the in-memory backend).
use zlog.Base.{
  ℕ, ◌≡◌, ◌≤◌, refl, sym, ap, subst, ◌∙◌, false, Bool-cases, inl, inr, Option, none, some, List, [],
  ◌∷◌, Text, Outcome, ok, err, fault, All, arith, ok_inj, is_empty, text_eq, text_eq_iff,
  text_eq_refl, leb, ◌==◌, if◌then◌else◌, einval,
}
use zlog.Stripe.{Stripe}
use zlog.Ram.{
  RamBackend, Object, link, projection, log, find_object, seal, max_pos, max_pos_found, empty_log,
}
use zlog.Ram.Cells.{unwritten}
use zlog.Ram.Spec.{View, absent, foreign, object, view, view_object, seals, run_log_call, spec_seal}
use zlog.Ram.Calls.{run_log_call_other}
use zlog.Ram.Refinement.{find_object-put_object}
use zlog.LogBackend.{LogBackend, ram_backend, prefixed_oid}
use zlog.ViewManager.{larger, max_all, after_seals, seal_all, seal_stripe}
use zlog.ViewManager.Seals.{IsUsed, sealed_after, seal_spec, seal_all_keeps}
use zlog.ViewManager.SealStripe.{
  seal_stripe_filled, seal_stripe_empty, finish, max_all_step, max_goes_on,
}

-- A seal makes no position used.
spec_seal_unused : (epoch : ℕ) (v : View) (p : ℕ) → IsUsed (spec_seal epoch v).1 p → IsUsed v p
spec_seal_unused epoch absent p used = elim (Bool-cases (epoch == 0)) [
  | inl z ↦
      let after : (spec_seal epoch absent).1 ≡ absent = rw z refl in
      subst (λ v. IsUsed v p) after used
  | inr z ↦
      let after : (spec_seal epoch absent).1 ≡ object epoch none (λ q. unwritten) = rw z refl in
      absurd (subst (λ v. IsUsed v p) after used refl)
]
spec_seal_unused epoch foreign p used = used
spec_seal_unused epoch (object e l c) p used = elim (Bool-cases (epoch == 0)) [
  | inl z ↦
      let after : (spec_seal epoch (object e l c)).1 ≡ object e l c = rw z refl in
      subst (λ v. IsUsed v p) after used
  | inr z ↦ elim (Bool-cases (leb epoch e)) [
    | inl t ↦
        let after : (spec_seal epoch (object e l c)).1 ≡ object e l c = rw (z, t) refl in
        subst (λ v. IsUsed v p) after used
    | inr t ↦
        let after : (spec_seal epoch (object e l c)).1 ≡ object epoch l c = rw (z, t) refl in
        subst (λ v. IsUsed v p) after used
  ]
]

seal_self-max_pos :
    (b : RamBackend) (name : Text) (epoch k : ℕ)
    → max_pos (seal b name epoch).1 name ≡ ok (some k)
    → max_pos b name ≡ ok (some k)
seal_self-max_pos b name epoch k h = elim (Bool-cases (is_empty name)) [
  | inl z ↦ unfold seal in rw z at h
  | inr n ↦ elim (Bool-cases (epoch == 0)) [
    | inl z ↦ unfold seal in rw (n, z) at h
    | inr z ↦ go (find_object b name) refl n z
  ]
]
  where
    go :
        (r : Option Object)
        → find_object b name ≡ r
        → is_empty name ≡ false
        → (epoch == 0) ≡ false
        → max_pos b name ≡ ok (some k)
    go none e n z =
        unfold seal max_pos in
        let made = find_object-put_object b name name (log (record empty_log { epoch = epoch })) in
        ground (arith, h, e, n, z, made, text_eq_refl name)
    go (some (link x)) e n z = unfold seal max_pos in ground (arith, h, e, n, z)
    go (some (projection x)) e n z = unfold seal max_pos in ground (arith, h, e, n, z)
    go (some (log o)) e n z =
        unfold seal max_pos in
        let made = find_object-put_object b name name (log (record o { epoch = epoch })) in
        ground (arith, h, e, n, z, made, text_eq_refl name)

module _ (l : LogBackend) (epoch : ℕ) where
  pub seal_unused :
      (b : RamBackend) (oid other : Text) (p : ℕ)
      → IsUsed (view (sealed_after l epoch b oid) other) p
      → IsUsed (view b other) p
  seal_unused b oid other p used = elim (Bool-cases (text_eq (prefixed_oid l oid) other)) [
    | inl e ↦
        let same : prefixed_oid l oid ≡ other = (text_eq_iff (prefixed_oid l oid) other).0 e in
        subst (λ o. IsUsed (view b o) p) same
          (spec_seal_unused epoch (view b (prefixed_oid l oid)) p (
            subst (λ v. IsUsed v p) (seal_spec l epoch b oid).1
              (subst (λ o. IsUsed (view (sealed_after l epoch b oid) o) p) (sym same) used)))
    | inr e ↦
        unfold view run_log_call in
        subst (λ r. IsUsed (view_object r) p)
          (run_log_call_other b (prefixed_oid l oid) other e (seals epoch)) used
  ]

  -- A seal raises no maximum position.
  seal-max_pos :
      (b : RamBackend) (oid other : Text) (k : ℕ)
      → max_pos (sealed_after l epoch b oid) other ≡ ok (some k)
      → max_pos b other ≡ ok (some k)
  seal-max_pos b oid other k h = elim (Bool-cases (text_eq (prefixed_oid l oid) other)) [
    | inl e ↦
        let same : prefixed_oid l oid ≡ other = (text_eq_iff (prefixed_oid l oid) other).0 e in
        subst (λ o. max_pos b o ≡ ok (some k)) same
          (seal_self-max_pos b (prefixed_oid l oid) epoch k
            (subst (λ o. max_pos (sealed_after l epoch b oid) o ≡ ok (some k)) (sym same) h))
    | inr e ↦
        unfold max_pos run_log_call in
        subst (λ r. (if is_empty other then err einval else max_pos_found r) ≡ ok (some k))
          (run_log_call_other b (prefixed_oid l oid) other e (seals epoch)) h
  ]

module _ (l : LogBackend) (epoch : ℕ) (P : RamBackend → Type 0)
    (keep : (b : RamBackend) (oid : Text) → P b → P (sealed_after l epoch b oid)) where
  after_seals_keeps :
      (oids : List Text) (r : Outcome (Unit {0}) × RamBackend)
      → P r.1
      → P (after_seals ram_backend l oids r).1
  unfolding after_seals
  after_seals_keeps oids (ok done, s) h = h
  after_seals_keeps oids (err e, s) h = h
  after_seals_keeps oids (fault, s) h = h

  pub seal_stripe_keeps :
      (b : RamBackend) (stripe : Stripe) → P b → P (seal_stripe ram_backend l b stripe epoch).1
  seal_stripe_keeps b stripe h = elim (Bool-cases (is_empty stripe.oids)) [
    | inl z ↦ subst (λ r. P r.1) (sym (seal_stripe_empty l b stripe epoch z)) h
    | inr z ↦
        subst (λ r. P r.1) (sym (seal_stripe_filled l b stripe epoch z))
          (after_seals_keeps stripe.oids (seal_all ram_backend l b stripe.oids epoch)
            (seal_all_keeps l epoch P keep b stripe.oids h))
  ]

-- The maximum positions of these objects are not below a position.
abbrev pub FromHere : LogBackend → RamBackend → ℕ → List Text → Type 0
FromHere l b low = All (λ oid. (k : ℕ) → max_pos b (prefixed_oid l oid) ≡ ok (some k) → low ≤ k)

pub FromHere-seal :
    (l : LogBackend) (epoch : ℕ) (b : RamBackend) (low : ℕ) (sealed : Text) (oids : List Text)
    → FromHere l b low oids
    → FromHere l (sealed_after l epoch b sealed) low oids
FromHere-seal l epoch b low sealed [] h = tt
FromHere-seal l epoch b low sealed (oid ∷ oids) h = (
  λ k e. h.0 k (seal-max_pos l epoch b sealed (prefixed_oid l oid) k e),
  FromHere-seal l epoch b low sealed oids h.1,
)

abbrev pub NotBelow : ℕ → Option ℕ → Type 0
NotBelow low none = Unit
NotBelow low (some k) = low ≤ k

larger_low :
    (low : ℕ) (a b : Option ℕ) → NotBelow low a → NotBelow low b → NotBelow low (larger a b)
larger_low low none b h k = k
larger_low low (some a) none h k = h
larger_low low (some a) (some b) h k = omega (arith, h, k)

-- The maximum over objects is one of theirs.
max_all_low :
    (l : LogBackend) (b : RamBackend) (low : ℕ) (oids : List Text) (so_far m : Option ℕ)
    → FromHere l b low oids
    → NotBelow low so_far
    → max_all ram_backend l b oids so_far ≡ ok m
    → NotBelow low m
max_all_low l b low [] so_far m h n e = unfold max_all in subst (NotBelow low) (ok_inj e) n
max_all_low l b low (oid ∷ oids) so_far m h n e =
    let on =
      max_goes_on l b oids so_far m (max_pos b (prefixed_oid l oid))
        (sym (max_all_step l b oid oids so_far) ∙ e) in
    max_all_low l b low oids (larger so_far on.0) m h.1
      (larger_low low so_far on.0 n (own on.0 on.1)) on.2
  where
    own : (k : Option ℕ) → max_pos b (prefixed_oid l oid) ≡ ok k → NotBelow low k
    own none e = tt
    own (some k) e = h.0 k e

pub seal_stripe_low :
    (l : LogBackend) (b : RamBackend) (stripe : Stripe) (epoch : ℕ) (m : Option ℕ)
    → FromHere l b stripe.min_position stripe.oids
    → (seal_stripe ram_backend l b stripe epoch).0 ≡ ok m
    → NotBelow stripe.min_position m
seal_stripe_low l b stripe epoch m h done = elim (Bool-cases (is_empty stripe.oids)) [
  | inl z ↦ cc (seal_stripe_empty l b stripe epoch z, done)
  | inr z ↦
      let f =
        finish l stripe.oids m (seal_all ram_backend l b stripe.oids epoch)
          (ap (λ r. r.0) (sym (seal_stripe_filled l b stripe epoch z)) ∙ done) in
      max_all_low l (seal_all ram_backend l b stripe.oids epoch).1 stripe.min_position stripe.oids
        none m
        (seal_all_keeps l epoch (λ b. FromHere l b stripe.min_position stripe.oids)
          (λ b oid. FromHere-seal l epoch b stripe.min_position oid stripe.oids) b stripe.oids h)
        (tt) f.1
]
