-- ===== src/ViewManager.antt =====
-- src/libzlog/view_manager.cc: `ViewManager::seal_stripe`, which fences a stripe off and finds the
-- position from which a new sequencer goes on. It runs over any backend.
pub mod Client
pub mod Propose
pub mod Mapping
pub mod SealLow
pub mod Scan
pub mod Seed
pub mod Seals
pub mod SealStripe
pub mod Success
mod Tests
use zlog.Base.{
  ℕ, Bool, true, false, Option, none, some, List, [], ◌∷◌, Text, Errno, espipe, Outcome, ok, err,
  fault, is_empty, max, if◌then◌else◌,
}
use zlog.Stripe.{Stripe}
use zlog.LogBackend.{Backend, LogBackend, log_seal, log_max_pos}

abbrev pub is_espipe : Errno → Bool
is_espipe espipe = true
is_espipe e = false

-- The larger of two maximum positions, of which each may be missing.
abbrev pub larger : Option ℕ → Option ℕ → Option ℕ
larger none m = m
larger (some k) none = some k
larger (some k) (some m) = some (max k m)

module _ {S : Type 0} (backend : Backend S) (l : LogBackend) where
  -- The first loop: every object is sealed; an object with this epoch or a newer one stays.
  unfoldable pub seal_all : S → List Text → ℕ → Outcome (Unit {0}) × S
  unfolding log_seal
  seal_all s [] epoch = (ok tt, s)
  seal_all s (oid ∷ oids) epoch =
      let r = log_seal backend s l oid epoch in
      let rest = seal_all r.1 oids epoch in
      elim r.0 [
        | ok done ↦ rest
        | err e ↦ if is_espipe e then rest else (err e, r.1)
        | fault ↦ (fault, r.1)
      ]

  -- The second loop, with the maximum so far, none while all objects are empty.
  unfoldable pub max_all : S → List Text → Option ℕ → Outcome (Option ℕ)
  unfolding log_max_pos
  max_all s [] so_far = ok so_far
  max_all s (oid ∷ oids) so_far = elim (log_max_pos backend s l oid) [
    | ok m ↦ max_all s oids (larger so_far m)
    | err e ↦ err e
    | fault ↦ fault
  ]

  unfoldable pub after_seals : List Text → Outcome (Unit {0}) × S → Outcome (Option ℕ) × S
  unfolding max_all
  after_seals oids (ok done, s) = (max_all s oids none, s)
  after_seals oids (err e, s) = (err e, s)
  after_seals oids (fault, s) = (fault, s)

  -- The maximum position of the stripe, none if it is empty, and the backend afterwards.
  unfoldable pub seal_stripe : S → Stripe → ℕ → Outcome (Option ℕ) × S
  unfolding seal_all after_seals
  seal_stripe s stripe epoch =
      if is_empty stripe.oids
      then (fault, s)
      else after_seals stripe.oids (seal_all s stripe.oids epoch)
