-- ===== src/LogOps/Ready.antt =====
-- A client of src/libzlog/log_impl.cc that has the sequencer and the latest view, and the calls that it
-- then makes on the in-memory backend.
use zlog.Base.{
  ℕ, suc, ◌≡◌, ◌≤◌, ◌<◌, refl, ◌∙◌, false, Option, none, some, Text, ok, err, enoent, arith,
  is_empty, u64_mod, ltb, ◌==◌,
}
use zlog.ObjectMap.Tiling.{IsTiled}
use zlog.View.{VersionedView, Sequencer}
use zlog.Ram.{RamBackend, write, seal, read}
use zlog.Ram.Cells.{Cell, unwritten, written}
use zlog.Ram.Spec.{View, absent, foreign, object, view, writes, seals, run_log_call, set_cell}
use zlog.Ram.Refinement.{run_log_call_refines}
use zlog.Ram.Guarantees.{read_refines}
use zlog.LogBackend.{LogBackend, prefixed_oid}
use zlog.ViewReader.{ViewReader}
use zlog.ViewManager.Client.{Client}

module _ (b : RamBackend) (oid : Text) (named : is_empty oid ≡ false) (epoch p : ℕ)
    (positive : 0 < epoch) where
  -- A write at a cell that is not written, with an epoch that is not too old.
  pub write_ready :
      (content : Text) (e : ℕ) (limit : Option ℕ) (cells : ℕ → Cell)
      → b.blackhole ≡ false
      → view b oid ≡ object e limit cells
      → e ≤ epoch
      → cells p ≡ unwritten
      → ((write b oid content epoch p).0 ≡ ok tt)
        × (view (write b oid content epoch p).1 oid
            ≡ object e limit (set_cell cells p (written content)))
  unfolding run_log_call
  write_ready content e limit cells stores v old free =
      let w = run_log_call_refines b oid named (writes content epoch p) in
      (w.0 ∙ rw (v, stores, z, t, free) refl, w.1 ∙ rw (v, stores, z, t, free) refl)
    where
      z : (epoch == 0) ≡ false
      z = ground (arith, positive)

      t : ltb epoch e ≡ false
      t = ground (arith, old)

  pub write_absent :
      (content : Text)
      → view b oid ≡ absent
      → ((write b oid content epoch p).0 ≡ err enoent)
        × (view (write b oid content epoch p).1 oid ≡ absent)
  unfolding run_log_call
  write_absent content v =
      let w = run_log_call_refines b oid named (writes content epoch p) in
      (w.0 ∙ rw (v, z) refl, w.1 ∙ rw v refl)
    where
      z : (epoch == 0) ≡ false
      z = ground (arith, positive)

  pub seal_absent :
      view b oid ≡ absent
      → ((seal b oid epoch).0 ≡ ok tt)
        × (view (seal b oid epoch).1 oid ≡ object epoch none (λ q. unwritten))
  unfolding run_log_call
  seal_absent v =
      let w = run_log_call_refines b oid named (seals epoch) in
      (w.0 ∙ rw (v, z) refl, w.1 ∙ rw (v, z) refl)
    where
      z : (epoch == 0) ≡ false
      z = ground (arith, positive)

  pub read_ready :
      (content : Text) (e : ℕ) (limit : Option ℕ) (cells : ℕ → Cell)
      → view b oid ≡ object e limit cells
      → e ≤ epoch
      → cells p ≡ written content
      → read b oid epoch p ≡ ok content
  read_ready content e limit cells v old holds =
      read_refines b oid named epoch p ∙ rw (v, z, t, holds) refl
    where
      z : (epoch == 0) ≡ false
      z = ground (arith, positive)

      t : ltb epoch e ≡ false
      t = ground (arith, old)

-- The object of the next position is free, or is a log object of the view's epoch or an older one
-- where the position is not written.
abbrev pub IsFree : ℕ → ℕ → View → Type 0
IsFree epoch p absent = Unit
IsFree epoch p foreign = ⊥
IsFree epoch p (object e limit cells) = (e ≤ epoch) × (cells p ≡ unwritten)

-- The client's view maps the next position of its sequencer.
pub record IsReady (l : LogBackend) (c : Client RamBackend) : Type 0 where
  pub v : VersionedView
  pub seq : Sequencer
  pub limit : ℕ
  pub looks : c.view_reader.view ≡ some v
  pub serves : v.seq ≡ some seq
  pub tiled : IsTiled v.view.object_map limit
  pub mapped : seq.position < limit
  pub current : 0 < v.epoch
  pub started : 0 < seq.epoch
  pub room : suc seq.position < u64_mod
  pub stores : c.store.blackhole ≡ false
  pub free : (oid : Text) → IsFree v.epoch seq.position (view c.store (prefixed_oid l oid))

-- The object holds the content, and its epoch is not newer than the view.
abbrev pub Kept : Text → LogBackend → Text → ℕ → ℕ → ViewReader → Client RamBackend → Type 0
Kept content l oid epoch p reader d =
    (d.view_reader ≡ reader)
    × (e : ℕ) × (limit : Option ℕ) × (cells : ℕ → Cell) × (view d.store (prefixed_oid l oid)
        ≡ object e limit cells)
    × (e ≤ epoch)
    × (cells p ≡ written content)
