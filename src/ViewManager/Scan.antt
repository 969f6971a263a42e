-- ===== src/ViewManager/Scan.antt =====
-- The scan of `ViewManager::propose_sequencer` of src/libzlog/view_manager.cc over the stripes, from
-- the last, on the in-memory backend.
use native.Mathlib.Decide.{ℕ_discrete}
use zlog.Base.{
  ok_inj, ℕ, zero, suc, ◌≡◌, ◌≤◌, ◌<◌, ◌⊎◌, refl, sym, ap, subst, ◌∙◌, inl, inr, Option, none, some,
  List, [], ◌∷◌, Text, Outcome, ok, err, fault, All, arith,
}
use zlog.Stripe.{Stripe}
use zlog.ObjectMap.{ObjectMap, stripe_by_id}
use zlog.Ram.{RamBackend}
use zlog.Ram.Bounds.{AllBounded}
use zlog.LogBackend.{LogBackend, ram_backend, prefixed_oid}
use zlog.ViewManager.{seal_stripe}
use zlog.ViewManager.Seals.{sealed_after, seal_keeps, seal-AllBounded}
use zlog.ViewManager.SealStripe.{IsFenced, seal_stripe_lem}
use zlog.ViewManager.Propose.{find_max}
use zlog.ViewManager.SealLow.{
  FromHere, FromHere-seal, seal_unused, seal_stripe_keeps, seal_stripe_low,
}

-- No object's maximum lies below the first position of its stripe.
abbrev pub AllFromHere : LogBackend → ObjectMap → RamBackend → Type 0
AllFromHere l om b =
    (id : ℕ) (stripe : Stripe)
    → stripe_by_id om id ≡ ok stripe
    → FromHere l b stripe.min_position stripe.oids

module _ (l : LogBackend) (om : ObjectMap) (epoch : ℕ) where
  abbrev Result : Type 0
  Result = Outcome (Option ℕ) × RamBackend

  -- A round of the scan, from the outcome of its seal on, and from its stripe on.
  abbrev after_sealing : ℕ → Result → Result
  after_sealing i r = elim r.0 [
    | err e ↦ (err e, r.1)
    | fault ↦ (fault, r.1)
    | ok m ↦ elim m [ some k ↦ (ok (some k), r.1) | none ↦ find_max ram_backend l r.1 om epoch i ]
  ]

  abbrev after_lookup : ℕ → RamBackend → Outcome Stripe → Result
  after_lookup i s o = elim o [
    | err e ↦ (err e, s)
    | fault ↦ (fault, s)
    | ok stripe ↦ after_sealing i (seal_stripe ram_backend l s stripe epoch)
  ]

  find_max_step :
      (s : RamBackend) (i : ℕ)
      → find_max ram_backend l s om epoch (suc i) ≡ after_lookup i s (stripe_by_id om i)
  unfolding find_max
  find_max_step s i = refl

  abbrev sealing : RamBackend → Stripe → Result
  sealing s stripe = seal_stripe ram_backend l s stripe epoch

  -- A round that goes well sealed a stripe, and returns its maximum unless there is none.
  record Round (s : RamBackend) (i : ℕ) (m : Option ℕ) (r : Result) : Type 0 where
    stripe : Stripe
    looked_up : stripe_by_id om i ≡ ok stripe
    next :
        ((k : ℕ) × ((sealing s stripe).0 ≡ ok (some k))
          × (m ≡ some k)
          × (r.1 ≡ (sealing s stripe).1))
        ⊎ (((sealing s stripe).0 ≡ ok none)
            × (r ≡ find_max ram_backend l (sealing s stripe).1 om epoch i))

  round_of :
      (s : RamBackend) (i : ℕ) (m : Option ℕ) (stripe : Stripe) (o : Outcome (Option ℕ))
      → stripe_by_id om i ≡ ok stripe
      → (sealing s stripe).0 ≡ o
      → (after_sealing i (o, (sealing s stripe).1)).0 ≡ ok m
      → Round s i m (after_sealing i (o, (sealing s stripe).1))
  round_of s i m stripe (ok (some k)) e f done = record {
    stripe = stripe;
    looked_up = e;
    next = inl (k, f, sym (ok_inj done), refl);
  }
  round_of s i m stripe (ok none) e f done = record {
    stripe = stripe;
    looked_up = e;
    next = inr (f, refl);
  }
  round_of s i m stripe (err x) e f done = cc done
  round_of s i m stripe fault e f done = cc done

  lookup_round :
      (s : RamBackend) (i : ℕ) (m : Option ℕ) (o : Outcome Stripe)
      → stripe_by_id om i ≡ o
      → (after_lookup i s o).0 ≡ ok m
      → Round s i m (after_lookup i s o)
  lookup_round s i m (ok stripe) e done = round_of s i m stripe (sealing s stripe).0 e refl done
  lookup_round s i m (err x) e done = cc done
  lookup_round s i m fault e done = cc done

  round_lem :
      (s : RamBackend) (i : ℕ) (m : Option ℕ)
      → (find_max ram_backend l s om epoch (suc i)).0 ≡ ok m
      → Round s i m (find_max ram_backend l s om epoch (suc i))
  round_lem s i m done =
      let step = find_max_step s i in
      subst (Round s i m) (sym step)
        (lookup_round s i m (stripe_by_id om i) refl (ap (λ r. r.0) (sym step) ∙ done))

  module _ (P : RamBackend → Type 0)
      (keep : (b : RamBackend) (oid : Text) → P b → P (sealed_after l epoch b oid)) where
    find_max_keeps :
        (s : RamBackend) (n : ℕ) (m : Option ℕ)
        → P s
        → (find_max ram_backend l s om epoch n).0 ≡ ok m
        → P (find_max ram_backend l s om epoch n).1
    find_max_keeps s zero m h done = unfold find_max in h
    find_max_keeps s (suc i) m h done =
        let r = round_lem s i m done in
        let now = seal_stripe_keeps l epoch P keep s r.stripe h in
        elim r.next [
          | inl x ↦ subst P (sym x.3) now
          | inr x ↦
              subst (λ r. P r.1) (sym x.1)
                (find_max_keeps (sealing s r.stripe).1 i m now (ap (λ r. r.0) (sym x.1) ∙ done))
        ]

  keep-IsFenced :
      (b : RamBackend) (sealed : Text) (oids : List Text)
      → All (IsFenced l b epoch none) oids
      → All (IsFenced l (sealed_after l epoch b sealed) epoch none) oids
  keep-IsFenced b sealed [] h = tt
  keep-IsFenced b sealed (oid ∷ oids) h = (
    (
      seal_keeps l epoch b sealed (prefixed_oid l oid) h.0.0,
      λ p used. h.0.1 p (seal_unused l epoch b sealed (prefixed_oid l oid) p used),
    ),
    keep-IsFenced b sealed oids h.1,
  )

  weaken-IsFenced :
      (b : RamBackend) (m : Option ℕ) (oids : List Text)
      → All (IsFenced l b epoch none) oids
      → All (IsFenced l b epoch m) oids
  weaken-IsFenced b m [] h = tt
  weaken-IsFenced b m (oid ∷ oids) h =
      ((h.0.0, λ p used. absurd (h.0.1 p used)), weaken-IsFenced b m oids h.1)

  AllFromHere-seal :
      (b : RamBackend) (oid : Text)
      → AllFromHere l om b
      → AllFromHere l om (sealed_after l epoch b oid)
  AllFromHere-seal b oid h id stripe e =
      FromHere-seal l epoch b stripe.min_position oid stripe.oids (h id stripe e)

  -- What the scan of the stripes below `n` leaves: from one of them on they are fenced, and if it is
  -- not the first, the maximum that was found is in it.
  pub record Scanned (n : ℕ) (m : Option ℕ) (b : RamBackend) : Type 0 where
    pub from : ℕ
    pub fenced :
        (id : ℕ) (stripe : Stripe)
        → from ≤ id
        → id < n
        → stripe_by_id om id ≡ ok stripe
        → All (IsFenced l b epoch m) stripe.oids
    pub reached :
        (from ≡ 0)
        ⊎ ((k : ℕ) × (stripe : Stripe) × (m ≡ some k)
            × (from < n)
            × (stripe_by_id om from ≡ ok stripe)
            × (stripe.min_position ≤ k))

  one_stripe :
      (i id : ℕ) (a b : Stripe)
      → id ≡ i
      → stripe_by_id om i ≡ ok a
      → stripe_by_id om id ≡ ok b
      → a ≡ b
  one_stripe i id a b same ea eb = cc (ap (stripe_by_id om) same, ea, eb)

  -- The scan ends at the stripe of a round.
  module _ (s : RamBackend) (i : ℕ) (stripe : Stripe) (all : AllBounded s)
      (here : AllFromHere l om s) (looked_up : stripe_by_id om i ≡ ok stripe) where
    seal_stripe-IsFenced :
        (m : Option ℕ) (id : ℕ) (other : Stripe)
        → (sealing s stripe).0 ≡ ok m
        → id ≡ i
        → stripe_by_id om id ≡ ok other
        → All (IsFenced l (sealing s stripe).1 epoch m) other.oids
    seal_stripe-IsFenced m id other e same found =
        subst (λ (o : Stripe). All (IsFenced l (sealing s stripe).1 epoch m) o.oids)
          (one_stripe i id stripe other same looked_up found)
          (seal_stripe_lem l s stripe epoch m all e)

    ends :
        (k : ℕ) → (sealing s stripe).0 ≡ ok (some k) → Scanned (suc i) (some k) (sealing s stripe).1
    ends k e = record {
      from = i;
      fenced = λ id other h j found. seal_stripe-IsFenced (some k) id other e (omega arith) found;
      reached = inr (
        k,
        stripe,
        refl,
        omega arith,
        looked_up,
        seal_stripe_low l s stripe epoch (some k) (here i stripe looked_up) e,
      );
    }

    -- The stripe has no position in use, and the scan goes on.
    goes_on :
        (m : Option ℕ)
        → (sealing s stripe).0 ≡ ok none
        → (find_max ram_backend l (sealing s stripe).1 om epoch i).0 ≡ ok m
        → Scanned i m (find_max ram_backend l (sealing s stripe).1 om epoch i).1
        → Scanned (suc i) m (find_max ram_backend l (sealing s stripe).1 om epoch i).1
    goes_on m e done rest = record {
      from = rest.from;
      fenced = λ id other h j found. elim (ℕ_discrete id i) [
        | no before ↦ rest.fenced id other h (omega arith) found
        | yes same ↦
            weaken-IsFenced (find_max ram_backend l (sealing s stripe).1 om epoch i).1 m other.oids
              (find_max_keeps (λ b. All (IsFenced l b epoch none) other.oids)
                (λ b oid. keep-IsFenced b oid other.oids) (sealing s stripe).1 i m
                (seal_stripe-IsFenced none id other e same found) done)
      ];
      reached = elim rest.reached [
        | inl first ↦ inl first
        | inr x ↦ inr (x.0, x.1, x.2, omega (arith, x.3), x.4, x.5)
      ];
    }

  pub find_max-Scanned :
      (s : RamBackend) (n : ℕ) (m : Option ℕ)
      → AllBounded s
      → AllFromHere l om s
      → (find_max ram_backend l s om epoch n).0 ≡ ok m
      → Scanned n m (find_max ram_backend l s om epoch n).1
  find_max-Scanned s zero m all here done = record {
    from = 0;
    fenced = λ id stripe h k e. absurd (omega arith);
    reached = inl refl;
  }
  find_max-Scanned s (suc i) m all here done =
      let r = round_lem s i m done in
      elim r.next [
        | inl x ↦
            subst (λ m. Scanned (suc i) m (find_max ram_backend l s om epoch (suc i)).1) (sym x.2)
              (subst (Scanned (suc i) (some x.0)) (sym x.3)
                (ends s i r.stripe all here r.looked_up x.0 x.1))
        | inr x ↦
            let outcome = ap (λ r. r.0) (sym x.1) ∙ done in
            subst (λ r. Scanned (suc i) m r.1) (sym x.1)
              (goes_on s i r.stripe all here r.looked_up m x.0 outcome (
                find_max-Scanned (sealing s r.stripe).1 i m
                  (seal_stripe_keeps l epoch AllBounded (seal-AllBounded l epoch) s r.stripe all)
                  (seal_stripe_keeps l epoch (AllFromHere l om) AllFromHere-seal s r.stripe here)
                  outcome))
      ]
