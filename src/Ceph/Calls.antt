-- ===== src/Ceph/Calls.antt =====
-- The methods of src/storage/ceph/cls_zlog.cc as calls on a log object: the trim limit, seals, and the
-- calls on an object that is not there.
use zlog.Base.{
  ℕ, ◌≡◌, ◌≤◌, ◌<◌, refl, sym, subst, ◌∙◌, inl, inr, Bool, true, false, Option, none, some, Outcome,
  ok, err, enoent, espipe, if◌then◌else◌, length, arith, Bool-cases, leb, u32_mod,
}
use zlog.Ram.Cells.{Cell, unwritten, invalid}
use zlog.Ram.Spec.{
  View, absent, object, LogCall, writes, fills, trims, seals, spec, below_limit, raise_limit,
  guarded, trim_cells, spec_seal,
}
use zlog.Ceph.{Codecs, ObjectClass, Effect, given, SealOp}
use zlog.Ceph.LogObject.{LogObjectHeader, new_header, read_header, decode_header, write_header}
use zlog.Ceph.Entries.{guarded_header, write_op, invalidate_op, seal_op, seal_read, seal_header}
use zlog.Ceph.Laws.{ClassLaws, CodecLaws}
use zlog.Ceph.Shows.{HeaderIs, CellIs, Shows}
use zlog.Ceph.Changes.{
  Refines, Rewritten-Refines, store_trim_limit-Rewritten, write_header-Rewritten,
}
use zlog.Ceph.Guard.{guard_lem}

below-raise_limit :
    (l : Option ℕ) (p q : ℕ) → below_limit l q ≡ true → below_limit (raise_limit l p) q ≡ true
below-raise_limit none p q h = cc h
below-raise_limit (some l) p q h = ground (arith, h)

trim_cells_lem :
    (l : Option ℕ) (p q : ℕ) (cells : ℕ → Cell) (entry : Cell)
    → cells q ≡ (if below_limit l q then invalid else entry)
    → trim_cells false (raise_limit l p) cells q
      ≡ (if below_limit (raise_limit l p) q then invalid else entry)
trim_cells_lem l p q cells entry e = elim (Bool-cases (below_limit (raise_limit l p) q)) [
  | inl t ↦ rw t refl
  | inr t ↦ rw t (elim (Bool-cases (below_limit l q)) [
    | inl below ↦ cc (below-raise_limit l p q below, t)
    | inr above ↦ e ∙ rw above refl
  ])
]

spec_seal_old :
    (epoch e : ℕ) (l : Option ℕ) (cells : ℕ → Cell)
    → 1 ≤ epoch
    → leb epoch e ≡ true
    → spec_seal epoch (object e l cells) ≡ (err espipe, object e l cells)
spec_seal_old epoch e l cells positive old = rw old (ground (arith, positive))

spec_seal_new :
    (epoch e : ℕ) (l : Option ℕ) (cells : ℕ → Cell)
    → 1 ≤ epoch
    → leb epoch e ≡ false
    → spec_seal epoch (object e l cells) ≡ (ok tt, object epoch l cells)
spec_seal_new epoch e l cells positive new = rw new (ground (arith, positive))

spec_seal_absent :
    (epoch : ℕ) → 1 ≤ epoch → spec_seal epoch absent ≡ (ok tt, object epoch none (λ q. unwritten))
spec_seal_absent epoch positive = ground (arith, positive)

module _ {S : Type 0} (cls : ObjectClass S) (codecs : Codecs) where
  -- The method of a call, with the size from which data is written behind the end, and the values
  -- of the fields that were never set.
  unfoldable pub class_call : Bool → ℕ → ℕ → S → LogCall → Effect S (Unit {0})
  unfolding write_op invalidate_op seal_op
  class_call unset unset_pos max_size s (writes content epoch p) =
      write_op cls codecs unset s (record { epoch = epoch; position = p; bytes = some content })
  class_call unset unset_pos max_size s (fills epoch p) =
      invalidate_op cls codecs unset s
        (record { epoch = epoch; position = p; force = false; limit = false })
  class_call unset unset_pos max_size s (trims epoch p limit full) =
      invalidate_op cls codecs unset s
        (record { epoch = epoch; position = p; force = true; limit = limit })
  class_call unset unset_pos max_size s (seals epoch) =
      seal_op cls codecs unset_pos s (record { epoch = epoch; omap_max_size = max_size })

  -- A call with an epoch, that does not ask for a full trim, whose trim limit is no negative
  -- int64_t, and whose data lies where a uint32_t can say where it is.
  abbrev pub IsFit : S → LogCall → Type 0
  IsFit s (writes content epoch p) =
      (1 ≤ epoch)
      × ((size : ℕ) → cls.stat s ≡ ok size → size < u32_mod)
      × (length content < u32_mod)
  IsFit s (fills epoch p) = 1 ≤ epoch
  IsFit s (trims epoch p limit full) = (1 ≤ epoch) × (full ≡ false) × (p < 9223372036854775808)
  IsFit s (seals epoch) = 1 ≤ epoch

  module _ (laws : ClassLaws cls) (coded : CodecLaws codecs) (unset : Bool)
      (unset_pos max_size : ℕ) where
    abbrev sealing : ℕ → ℕ → SealOp
    sealing epoch size = record { epoch = epoch; omap_max_size = size }

    both :
        {r r' : Effect S (Unit {0})} {v v' : Outcome (Unit {0}) × View}
        → r ≡ r'
        → v ≡ v'
        → Refines cls codecs r' v'
        → Refines cls codecs r v
    both {r' = r'} {v = v} e f x =
        subst (λ r. Refines cls codecs r v) (sym e) (subst (Refines cls codecs r') (sym f) x)

    module _ (s : S) (op : SealOp) where
      seal_old :
          (h : LogObjectHeader)
          → 1 ≤ op.epoch
          → read_header cls codecs s ≡ ok h
          → leb op.epoch h.epoch ≡ true
          → seal_op cls codecs unset_pos s op ≡ (err espipe, s)
      unfolding seal_op seal_read
      seal_old h positive found old = rw found (ground (arith, positive, old))

      seal_new :
          (h : LogObjectHeader)
          → 1 ≤ op.epoch
          → read_header cls codecs s ≡ ok h
          → leb op.epoch h.epoch ≡ false
          → seal_op cls codecs unset_pos s op
            ≡ write_header cls codecs s
                (record h { omap_max_size = op.omap_max_size; epoch = op.epoch })
      unfolding seal_op seal_read seal_header
      seal_new h positive found new = rw found (ground (arith, positive, new))

      seal_missing :
          1 ≤ op.epoch
          → read_header cls codecs s ≡ err enoent
          → seal_op cls codecs unset_pos s op
            ≡ write_header cls codecs s (record (new_header op.epoch unset_pos) {
              omap_max_size = op.omap_max_size;
              epoch = op.epoch;
            })
      unfolding seal_op seal_read seal_header
      seal_missing positive found = rw found (ground (arith, positive))

    module _ (s : S) (h : LogObjectHeader) (header : HeaderIs cls codecs s h) (cells : ℕ → Cell)
        (entries : (p : ℕ) → CellIs cls codecs s h.trim_limit p (cells p)) where
      pub limit_op_lem :
          (p epoch : ℕ)
          → 1 ≤ epoch
          → p < 9223372036854775808
          → Refines cls codecs
              (class_call unset unset_pos max_size s (trims epoch p true false))
              (spec false (trims epoch p true false) (object h.epoch h.trim_limit cells))
      unfolding class_call invalidate_op
      limit_op_lem p epoch positive fits =
          guard_lem cls codecs laws coded s h header cells entries epoch _
            (λ e limit cells. (
              ok tt,
              object e (raise_limit limit p) (trim_cells false (raise_limit limit p) cells),
            ))
            positive
            (Rewritten-Refines cls codecs s h.epoch (raise_limit h.trim_limit p)
              (trim_cells false (raise_limit h.trim_limit p) cells) _
              (store_trim_limit-Rewritten cls codecs laws coded s h p header fits)
              (λ q. (
                (entries q).0,
                (entries q).1,
                trim_cells_lem h.trim_limit p q cells (entries q).0 (entries q).2,
              )))

      pub seal_there :
          (epoch : ℕ)
          → 1 ≤ epoch
          → Refines cls codecs
              (class_call unset unset_pos max_size s (seals epoch))
              (spec_seal epoch (object h.epoch h.trim_limit cells))
      unfolding class_call
      seal_there epoch positive = elim (Bool-cases (leb epoch h.epoch)) [
        | inl old ↦
            both (seal_old s (sealing epoch max_size) h positive header.2 old)
              (spec_seal_old epoch h.epoch h.trim_limit cells positive old)
              (refl, (h, header, refl, refl, entries))
        | inr new ↦
            both (seal_new s (sealing epoch max_size) h positive header.2 new)
              (spec_seal_new epoch h.epoch h.trim_limit cells positive new)
              (Rewritten-Refines cls codecs s epoch h.trim_limit cells _
                (write_header-Rewritten cls codecs laws coded s
                  (record h { omap_max_size = max_size; epoch = epoch }) epoch h.trim_limit header.3
                  refl refl)
                entries)
      ]

    -- An object that is not there yet.
    module _ (s : S) (missing : Shows cls codecs s absent) where
      pub header_missing : read_header cls codecs s ≡ err enoent
      unfolding read_header
      header_missing = rw (missing.0, decode_header) refl

      pub seal_absent :
          (epoch : ℕ)
          → 1 ≤ epoch
          → Refines cls codecs
              (class_call unset unset_pos max_size s (seals epoch))
              (spec_seal epoch absent)
      unfolding class_call
      seal_absent epoch positive =
          both (seal_missing s (sealing epoch max_size) positive header_missing)
            (spec_seal_absent epoch positive)
            (unfold new_header in
              Rewritten-Refines cls codecs s epoch none (λ q. unwritten) _
                (write_header-Rewritten cls codecs laws coded s
                  (record (new_header epoch unset_pos) { omap_max_size = max_size; epoch = epoch })
                  epoch none tt refl refl)
                (λ q. (unwritten, missing.1 q, refl)))

      pub guard_absent :
          (epoch : ℕ) (rest : LogObjectHeader → Effect S (Unit {0}))
          (f : ℕ → Option ℕ → (ℕ → Cell) → Outcome (Unit {0}) × View)
          → 1 ≤ epoch
          → Refines cls codecs
              (given s (guarded_header cls codecs s epoch) rest)
              (guarded epoch absent f)
      unfolding guarded_header
      guard_absent epoch rest f positive =
          rw header_missing (ground (arith, positive), ground (arith, positive, missing))
