-- ===== src/Ceph/Refinement.antt =====
-- The object of entries of src/storage/ceph/cls_zlog.cc implements the specification of log objects
-- that the in-memory backend implements too.
use zlog.Base.{ℕ, ◌≡◌, refl, sym, subst, Bool, true, false, some, ok}
use zlog.Ram.Cells.{Cell}
use zlog.Ram.Spec.{View, absent, foreign, object, LogCall, writes, fills, trims, seals, spec}
use zlog.Ceph.{Codecs, ObjectClass}
use zlog.Ceph.LogObject.{LogObjectHeader}
use zlog.Ceph.Entries.{write_op, invalidate_op}
use zlog.Ceph.Laws.{ClassLaws, CodecLaws}
use zlog.Ceph.Shows.{HeaderIs, CellIs, Shows}
use zlog.Ceph.Changes.{Refines}
use zlog.Ceph.Methods.{write_op_lem, fill_op_lem, trim_op_lem}
use zlog.Ceph.Calls.{class_call, IsFit, limit_op_lem, seal_there, seal_absent, guard_absent}

module _ {S : Type 0} (cls : ObjectClass S) (codecs : Codecs) (laws : ClassLaws cls)
    (coded : CodecLaws codecs) (unset : Bool) (unset_pos max_size : ℕ) where
  there :
      (s : S) (call : LogCall) (h : LogObjectHeader) (cells : ℕ → Cell)
      → HeaderIs cls codecs s h
      → ((p : ℕ) → CellIs cls codecs s h.trim_limit p (cells p))
      → IsFit cls codecs s call
      → Refines cls codecs
          (class_call cls codecs unset unset_pos max_size s call)
          (spec false call (object h.epoch h.trim_limit cells))
  unfolding class_call
  there s (writes content epoch p) h cells header entries fit =
      write_op_lem cls codecs laws coded s h header cells entries unset p content fit.1 fit.2 epoch
        (some content) refl fit.0
  there s (fills epoch p) h cells header entries fit =
      fill_op_lem cls codecs laws coded s h header cells entries unset p epoch fit
  there s (trims epoch p true false) h cells header entries fit =
      limit_op_lem cls codecs laws coded unset unset_pos max_size s h header cells entries p epoch
        fit.0 fit.2
  there s (trims epoch p limit true) h cells header entries fit = cc fit.1
  there s (trims epoch p false false) h cells header entries fit =
      trim_op_lem cls codecs laws coded s h header cells entries unset p epoch fit.0
  there s (seals epoch) h cells header entries fit =
      seal_there cls codecs laws coded unset unset_pos max_size s h header cells entries epoch fit

  missing :
      (s : S) (call : LogCall)
      → Shows cls codecs s absent
      → IsFit cls codecs s call
      → Refines cls codecs
          (class_call cls codecs unset unset_pos max_size s call)
          (spec false call absent)
  unfolding class_call write_op invalidate_op
  missing s (writes content epoch p) shows fit =
      guard_absent cls codecs laws coded unset unset_pos max_size s shows epoch _
        (λ e l c. (ok tt, absent)) fit.0
  missing s (fills epoch p) shows fit =
      guard_absent cls codecs laws coded unset unset_pos max_size s shows epoch _
        (λ e l c. (ok tt, absent)) fit
  missing s (trims epoch p true false) shows fit =
      guard_absent cls codecs laws coded unset unset_pos max_size s shows epoch _
        (λ e l c. (ok tt, absent)) fit.0
  missing s (trims epoch p limit true) shows fit = cc fit.1
  missing s (trims epoch p false false) shows fit =
      guard_absent cls codecs laws coded unset unset_pos max_size s shows epoch _
        (λ e l c. (ok tt, absent)) fit.0
  missing s (seals epoch) shows fit =
      seal_absent cls codecs laws coded unset unset_pos max_size s shows epoch fit

-- The calls of an object class change an object as documented, and tables decode to what was
-- encoded. If an object shows a view of the specification, then a fit call returns the outcome
-- that the specification says, errors included, and the object shows the view that it says.
pub class_call_refines :
    {S : Type 0} (cls : ObjectClass S) (codecs : Codecs)
    → ClassLaws cls
    → CodecLaws codecs
    → (unset : Bool) (unset_pos max_size : ℕ) (s : S) (call : LogCall) (v : View)
    → Shows cls codecs s v
    → IsFit cls codecs s call
    → ((class_call cls codecs unset unset_pos max_size s call).0 ≡ (spec false call v).0)
      × Shows cls codecs
          (class_call cls codecs unset unset_pos max_size s call).1
          (spec false call v).1
class_call_refines cls codecs laws coded unset unset_pos max_size s call absent shows fit =
    missing cls codecs laws coded unset unset_pos max_size s call shows fit
class_call_refines cls codecs laws coded unset unset_pos max_size s call foreign shows fit =
    elim shows [ ]
class_call_refines cls codecs laws coded unset unset_pos max_size s call (object epoch limit cells)
      shows fit =
    let h = shows.0 in
    subst
      (λ e.
        Refines cls codecs (class_call cls codecs unset unset_pos max_size s call)
          (spec false call (object e limit cells)))
      shows.2
      (subst
        (λ l.
          Refines cls codecs (class_call cls codecs unset unset_pos max_size s call)
            (spec false call (object h.epoch l cells)))
        shows.3
        (there cls codecs laws coded unset unset_pos max_size s call h cells shows.1
          (subst (λ l. (p : ℕ) → CellIs cls codecs s l p (cells p)) (sym shows.3) shows.4) fit))
