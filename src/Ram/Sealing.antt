-- ===== src/Ram/Sealing.antt =====
-- What `Seal` of src/storage/ram/ram.cc promises: older epochs are fenced off.
use zlog.Base.{
  ℕ, ◌≡◌, ◌≤◌, ◌<◌, refl, sym, subst, ◌∙◌, inl, inr, Bool, true, false, Option, none, some, List,
  [], ◌∷◌, Text, ok, err, espipe, leb, ◌==◌, is_empty, arith, Bool-cases,
}
use zlog.Ram.{
  RamBackend, Object, link, projection, log, find_object, write, read, check_epoch, on_log, fill,
  trim, seal,
}
use zlog.Ram.Spec.{
  LogCall, writes, fills, trims, seals, run_log_call, View, absent, foreign, object, view,
  view_object, spec_seal, spec,
}
use zlog.Ram.Refinement.{run_log_call_refines}
use zlog.Ram.Calls.{Call, calls, creates, links, proposes, draws, run}
use zlog.Ram.Lasting.{EachOn, run_keeps}
use zlog.Ram.Guarantees.{read_refines, spec_read}

-- The call carries an epoch from before the seal. A trim to the full is a trim to a limit.
abbrev pub IsOld : ℕ → LogCall → Type 0
IsOld sealed (writes content epoch p) = (0 < epoch) × (epoch < sealed)
IsOld sealed (fills epoch p) = (0 < epoch) × (epoch < sealed)
IsOld sealed (trims epoch p false true) = ⊥
IsOld sealed (trims epoch p limit full) = (0 < epoch) × (epoch < sealed)
IsOld sealed (seals epoch) = (0 < epoch) × (epoch ≤ sealed)

abbrev pub IsSealed : ℕ → View → Type 0
IsSealed epoch absent = ⊥
IsSealed epoch foreign = ⊥
IsSealed epoch (object e l c) = epoch ≤ e

spec-IsSealed :
    (epoch : ℕ) (blackhole : Bool) (call : LogCall) (v : View)
    → Unit {0}
    → IsSealed epoch v
    → IsSealed epoch (spec blackhole call v).1
spec-IsSealed epoch blackhole call absent free h = elim h [ ]
spec-IsSealed epoch blackhole call foreign free h = elim h [ ]
spec-IsSealed epoch blackhole (writes content x p) (object e l c) free h = ground (arith, h)
spec-IsSealed epoch blackhole (fills x p) (object e l c) free h = ground (arith, h)
spec-IsSealed epoch blackhole (trims x p true full) (object e l c) free h = ground (arith, h)
spec-IsSealed epoch blackhole (trims x p false true) (object e l c) free h = h
spec-IsSealed epoch blackhole (trims x p false false) (object e l c) free h = ground (arith, h)
spec-IsSealed epoch blackhole (seals x) (object e l c) free h = ground (arith, h)

each_free : (oid : Text) (sequence : List Call) → EachOn oid (λ call. Unit {0}) sequence
each_free oid [] = tt
each_free oid (calls target call ∷ rest) = (λ same. tt, each_free oid rest)
each_free oid (creates first key ∷ rest) = each_free oid rest
each_free oid (links name hoid prefix ∷ rest) = each_free oid rest
each_free oid (proposes hoid epoch new ∷ rest) = each_free oid rest
each_free oid (draws hoid ∷ rest) = each_free oid rest

-- No call of anyone lowers the epoch of an object.
pub run-IsSealed :
    (epoch : ℕ) (oid : Text) (sequence : List Call) (b : RamBackend)
    → IsSealed epoch (view b oid)
    → IsSealed epoch (view (run b sequence) oid)
run-IsSealed epoch oid sequence b =
    run_keeps (IsSealed epoch) (λ h. h) (λ h. h) (λ call. Unit {0}) (spec-IsSealed epoch) oid
      sequence b (each_free oid sequence)

pub spec_seal-IsSealed :
    (epoch : ℕ) (v : View) → (spec_seal epoch v).0 ≡ ok tt → IsSealed epoch (spec_seal epoch v).1
spec_seal-IsSealed epoch absent done = elim (Bool-cases (epoch == 0)) [
  | inl z ↦ ground (arith, z, done)
  | inr z ↦ rw z (omega arith)
]
spec_seal-IsSealed epoch foreign done = ground (arith, done)
spec_seal-IsSealed epoch (object e l c) done = elim (Bool-cases (epoch == 0)) [
  | inl z ↦ ground (arith, z, done)
  | inr z ↦ elim (Bool-cases (leb epoch e)) [
    | inl t ↦ ground (arith, z, t, done)
    | inr t ↦ rw (z, t) (omega arith)
  ]
]

-- The call is refused, and nothing changes.
abbrev pub IsRefused : RamBackend → Text → LogCall → Type 0
IsRefused b oid call = run_log_call b oid call ≡ (err espipe, b)

module _ (b : RamBackend) (oid : Text) (named : is_empty oid ≡ false) (sealed : ℕ)
    (is_sealed : IsSealed sealed (view b oid)) where
  refused : (call : LogCall) → IsOld sealed call → IsRefused b oid call
  unfolding view
  refused call old = go (find_object b oid) refl is_sealed
    where
      go :
          (r : Option Object)
          → find_object b oid ≡ r
          → IsSealed sealed (view_object r)
          → IsRefused b oid call
      go none e h = elim h [ ]
      go (some (link x)) e h = elim h [ ]
      go (some (projection x)) e h = elim h [ ]
      go (some (log o)) e h = at call old
        where
          at : (call : LogCall) → IsOld sealed call → IsRefused b oid call
          at (writes content epoch p) old =
              unfold run_log_call write on_log check_epoch in
              rw (named, e) (ground (arith, old.0, old.1, h))
          at (fills epoch p) old =
              unfold run_log_call fill on_log check_epoch in
              rw (named, e) (ground (arith, old.0, old.1, h))
          at (trims epoch p true true) old =
              unfold run_log_call trim on_log check_epoch in
              rw (named, e) (ground (arith, old.0, old.1, h))
          at (trims epoch p true false) old =
              unfold run_log_call trim on_log check_epoch in
              rw (named, e) (ground (arith, old.0, old.1, h))
          at (trims epoch p false true) old = elim old [ ]
          at (trims epoch p false false) old =
              unfold run_log_call trim on_log check_epoch in
              rw (named, e) (ground (arith, old.0, old.1, h))
          at (seals epoch) old =
              unfold run_log_call seal in rw (named, e) (ground (arith, old.0, old.1, h))

  refused_read : (epoch p : ℕ) → 0 < epoch → epoch < sealed → read b oid epoch p ≡ err espipe
  refused_read epoch p positive old =
      rw (read_refines b oid named epoch p) (go (view b oid) is_sealed)
    where
      go : (v : View) → IsSealed sealed v → spec_read v epoch p ≡ err espipe
      go absent h = elim h [ ]
      go foreign h = elim h [ ]
      go (object e l c) h = ground (arith, h, positive, old)

module _ (b : RamBackend) (oid : Text) (named : is_empty oid ≡ false) (sealed : ℕ)
    (done : (seal b oid sealed).0 ≡ ok tt) (sequence : List Call) where
  at_once : IsSealed sealed (view (seal b oid sealed).1 oid)
  unfolding run_log_call
  at_once =
      let s = run_log_call_refines b oid named (seals sealed) in
      subst (IsSealed sealed) (sym s.1) (spec_seal-IsSealed sealed (view b oid) (sym s.0 ∙ done))

  still : IsSealed sealed (view (run (seal b oid sealed).1 sequence) oid)
  still = run-IsSealed sealed oid sequence (seal b oid sealed).1 at_once

  -- Once an object is sealed at an epoch, then after any calls of any clients, on this object and on
  -- others, a write, a fill or a trim of the object with an older epoch that is not 0 is refused and
  -- changes nothing, and so is a seal at that epoch or an older one that is not 0. A trim to the full
  -- is one to a limit.
  pub seal_fences :
      (call : LogCall) → IsOld sealed call → IsRefused (run (seal b oid sealed).1 sequence) oid call
  seal_fences = refused (run (seal b oid sealed).1 sequence) oid named sealed still

  -- Once an object is sealed at an epoch, then after any calls of any clients, on this object and on
  -- others, a read of the object with an older epoch that is not 0 is refused.
  pub seal_fences_reads :
      (epoch p : ℕ)
      → 0 < epoch
      → epoch < sealed
      → read (run (seal b oid sealed).1 sequence) oid epoch p ≡ err espipe
  seal_fences_reads = refused_read (run (seal b oid sealed).1 sequence) oid named sealed still
