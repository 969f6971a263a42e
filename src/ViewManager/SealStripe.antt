-- ===== src/ViewManager/SealStripe.antt =====
-- A stripe that was sealed on the in-memory backend: its objects refuse older epochs, and the
-- position that was found covers all that is in use.
use zlog.Base.{
  ℕ, ok_inj, ◌≡◌, refl, sym, ap, subst, ◌∙◌, true, false, Option, none, some, List, [], ◌∷◌, Text,
  Outcome, ok, err, fault, is_empty, All, arith, Bool-cases, inl, inr,
}
use zlog.Stripe.{Stripe}
use zlog.Ram.{RamBackend, Object, link, projection, log, find_object, max_pos}
use zlog.Ram.Spec.{view, view_object}
use zlog.Ram.Sealing.{IsSealed}
use zlog.Ram.Bounds.{AllBounded}
use zlog.Ram.Maximum.{max_pos_covers}
use zlog.LogBackend.{LogBackend, prefixed_oid, ram_backend, log_max_pos}
use zlog.LogBackend.Apart.{prefixed-named}
use zlog.ViewManager.{larger, seal_all, max_all, after_seals, seal_stripe}
use zlog.ViewManager.Seals.{IsCovered, IsUsed, seal-AllBounded, seal_all_keeps, seal_all_seals}

larger_left : (p : ℕ) (a m : Option ℕ) → IsCovered p a → IsCovered p (larger a m)
larger_left p none m h = elim h [ ]
larger_left p (some k) none h = h
larger_left p (some k) (some m) h = omega (arith, h)

larger_right : (p : ℕ) (a m : Option ℕ) → IsCovered p m → IsCovered p (larger a m)
larger_right p none m h = h
larger_right p (some k) none h = elim h [ ]
larger_right p (some k) (some m) h = omega (arith, h)

module _ (l : LogBackend) (b : RamBackend) where
  abbrev pub max_next : List Text → Option ℕ → Outcome (Option ℕ) → Outcome (Option ℕ)
  max_next oids so_far r = elim r [
    | ok m ↦ max_all ram_backend l b oids (larger so_far m)
    | err e ↦ err e
    | fault ↦ fault
  ]

  pub max_all_step :
      (oid : Text) (oids : List Text) (so_far : Option ℕ)
      → max_all ram_backend l b (oid ∷ oids) so_far
        ≡ max_next oids so_far (max_pos b (prefixed_oid l oid))
  unfolding max_all log_max_pos prefixed_oid
  max_all_step oid oids so_far = refl

  pub max_goes_on :
      (oids : List Text) (so_far m : Option ℕ) (r : Outcome (Option ℕ))
      → max_next oids so_far r ≡ ok m
      → (k : Option ℕ) × (r ≡ ok k) × (max_all ram_backend l b oids (larger so_far k) ≡ ok m)
  max_goes_on oids so_far m (ok k) e = (k, refl, e)
  max_goes_on oids so_far m (err x) e = cc e
  max_goes_on oids so_far m fault e = cc e

module _ (l : LogBackend) (b : RamBackend) (all : AllBounded b) (p : ℕ) where
  max_pos_of :
      (oid : Text) (m : Option ℕ)
      → max_pos b (prefixed_oid l oid) ≡ ok m
      → IsUsed (view b (prefixed_oid l oid)) p
      → IsCovered p m
  unfolding view
  max_pos_of oid m e used = go (find_object b (prefixed_oid l oid)) refl used
    where
      go :
          (r : Option Object)
          → find_object b (prefixed_oid l oid) ≡ r
          → IsUsed (view_object r) p
          → IsCovered p m
      go none f u = elim u [ ]
      go (some (link h)) f u = elim u [ ]
      go (some (projection h)) f u = elim u [ ]
      go (some (log o)) f u =
          let c =
            max_pos_covers b (prefixed_oid l oid) o all
              (unfold prefixed_oid in prefixed-named l.prefix oid) f p u in
          subst (IsCovered p) (ok_inj (sym c.1 ∙ e)) c.2

  max_all_covers :
      (oids : List Text) (so_far m : Option ℕ)
      → max_all ram_backend l b oids so_far ≡ ok m
      → (IsCovered p so_far → IsCovered p m)
        × All (λ oid. IsUsed (view b (prefixed_oid l oid)) p → IsCovered p m) oids
  unfolding max_all
  max_all_covers [] so_far m e = (λ h. subst (IsCovered p) (ok_inj e) h, tt)
  max_all_covers (oid ∷ oids) so_far m e =
      let on =
        max_goes_on l b oids so_far m (max_pos b (prefixed_oid l oid))
          (sym (max_all_step l b oid oids so_far) ∙ e) in
      let rest = max_all_covers oids (larger so_far on.0) m on.2 in
      (
        λ h. rest.0 (larger_left p so_far on.0 h),
        (λ used. rest.0 (larger_right p so_far on.0 (max_pos_of oid on.0 on.1 used)), rest.1),
      )

-- What the objects of a stripe are after it was sealed: each refuses the calls of older epochs, and
-- no position that is in use on one of them lies above the maximum.
abbrev pub IsFenced : LogBackend → RamBackend → ℕ → Option ℕ → Text → Type 0
IsFenced l b epoch m oid =
    IsSealed epoch (view b (prefixed_oid l oid))
    × ((p : ℕ) → IsUsed (view b (prefixed_oid l oid)) p → IsCovered p m)

both :
    (l : LogBackend) (b : RamBackend) (epoch : ℕ) (m : Option ℕ) (oids : List Text)
    → All (λ oid. IsSealed epoch (view b (prefixed_oid l oid))) oids
    → ((p : ℕ) → All (λ oid. IsUsed (view b (prefixed_oid l oid)) p → IsCovered p m) oids)
    → All (IsFenced l b epoch m) oids
both l b epoch m [] s c = tt
both l b epoch m (oid ∷ oids) s c = ((s.0, λ p. (c p).0), both l b epoch m oids s.1 (λ p. (c p).1))

pub finish :
    (l : LogBackend) (oids : List Text) (m : Option ℕ) (r : Outcome (Unit {0}) × RamBackend)
    → (after_seals ram_backend l oids r).0 ≡ ok m
    → (r.0 ≡ ok tt)
      × (max_all ram_backend l r.1 oids none ≡ ok m)
      × ((after_seals ram_backend l oids r).1 ≡ r.1)
unfolding after_seals
finish l oids m (ok tt, s) e = (refl, e, refl)
finish l oids m (err x, s) e = cc e
finish l oids m (fault, s) e = cc e

pub seal_stripe_empty :
    (l : LogBackend) (b : RamBackend) (stripe : Stripe) (epoch : ℕ)
    → is_empty stripe.oids ≡ true
    → seal_stripe ram_backend l b stripe epoch ≡ (fault, b)
unfolding seal_stripe
seal_stripe_empty l b stripe epoch z = rw (seal_stripe, z) refl

pub seal_stripe_filled :
    (l : LogBackend) (b : RamBackend) (stripe : Stripe) (epoch : ℕ)
    → is_empty stripe.oids ≡ false
    → seal_stripe ram_backend l b stripe epoch
      ≡ after_seals ram_backend l stripe.oids (seal_all ram_backend l b stripe.oids epoch)
unfolding seal_stripe
seal_stripe_filled l b stripe epoch z = rw (seal_stripe, z) refl

-- If a stripe is sealed with success, then in the state that the call leaves each of its objects
-- refuses older epochs, and no position that is in use on one of them lies above the maximum that is
-- returned, if before the call no log object had an entry above its own maximum.
pub seal_stripe_lem :
    (l : LogBackend) (b : RamBackend) (stripe : Stripe) (epoch : ℕ) (m : Option ℕ)
    → AllBounded b
    → (seal_stripe ram_backend l b stripe epoch).0 ≡ ok m
    → All (IsFenced l (seal_stripe ram_backend l b stripe epoch).1 epoch m) stripe.oids
seal_stripe_lem l b stripe epoch m all done = elim (Bool-cases (is_empty stripe.oids)) [
  | inl z ↦ cc (seal_stripe_empty l b stripe epoch z, done)
  | inr z ↦
      let whole = seal_stripe_filled l b stripe epoch z in
      let f =
        finish l stripe.oids m (seal_all ram_backend l b stripe.oids epoch)
          (ap (λ r. r.0) (sym whole) ∙ done) in
      let bounded = seal_all_keeps l epoch AllBounded (seal-AllBounded l epoch) b stripe.oids all in
      subst (λ c. All (IsFenced l c epoch m) stripe.oids) (sym (ap (λ r. r.1) whole ∙ f.2))
        (both l (seal_all ram_backend l b stripe.oids epoch).1 epoch m stripe.oids
          (seal_all_seals l epoch b stripe.oids f.0)
          (λ p.
            (max_all_covers l (seal_all ram_backend l b stripe.oids epoch).1 bounded p stripe.oids
              none m f.1).1))
]
