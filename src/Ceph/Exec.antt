-- ===== src/Ceph/Exec.antt =====
-- The calls of src/storage/ceph/cls_zlog_client.cc on the methods of src/storage/ceph/cls_zlog.cc
-- implement the specification of log objects.
use zlog.Base.{
  ℕ, ◌≡◌, ◌≤◌, refl, sym, subst, ap, ◌∙◌, inl, inr, Bool, true, false, Option, some, Text, Outcome,
  err, enoent, espipe, ltb, Bool-cases, arith,
}
use zlog.Ram.Cells.{Cell, unwritten, written, invalid, read_cell}
use zlog.Ram.Spec.{
  View, absent, foreign, object, LogCall, writes, fills, trims, seals, spec, below_limit,
}
use zlog.Ram.Guarantees.{spec_read}
use zlog.Ceph.{Codecs, ObjectClass, Effect}
use zlog.Ceph.LogObject.{LogObjectHeader, LogEntry, no_entry, read_header, decode_header}
use zlog.Ceph.Entries.{log_entry_read, read_op, read_found, guarded_header}
use zlog.Ceph.Laws.{ClassLaws, CodecLaws}
use zlog.Ceph.Shows.{HeaderIs, CellIs, Shows}
use zlog.Ceph.Lookup.{Looks, read_entry_of_lem, position_trimmed_lem, guarded_old, guarded_current}
use zlog.Ceph.Calls.{class_call, IsFit}
use zlog.Ceph.Refinement.{class_call_refines}
use zlog.Ceph.Client.{exec_write, exec_read, client_call, cls_zlog_read, omap_bits}

module _ {S : Type 0} (cls : ObjectClass S) (codecs : Codecs) (coded : CodecLaws codecs)
    (unset : Bool) (unset_pos : ℕ) (max_size : Option ℕ) where
  exec_client :
      (s : S) (call : LogCall)
      → exec_write cls codecs unset unset_pos s (client_call codecs max_size call)
        ≡ some (class_call cls codecs unset unset_pos (omap_bits max_size) s call)
  unfolding exec_write client_call class_call
  exec_client s (writes content epoch p) =
      rw (coded.write_entry_op (record { epoch = epoch; position = p; bytes = some content })) refl
  exec_client s (fills epoch p) =
      rw
        (coded.invalidate_entry_op
          (record { epoch = epoch; position = p; force = false; limit = false }))
        refl
  exec_client s (trims epoch p limit full) =
      rw
        (coded.invalidate_entry_op
          (record { epoch = epoch; position = p; force = true; limit = limit }))
        refl
  exec_client s (seals epoch) =
      rw (coded.seal_op (record { epoch = epoch; omap_max_size = omap_bits max_size })) refl

-- The calls by which an object class changes an object succeed and change it as documented, and tables
-- decode to what was encoded. If an object shows a view of the specification, then the method that a client's call
-- names returns the outcome that the specification says, errors included, and the object then
-- shows the view that it says. The call has a positive epoch and does not ask for a full trim; a
-- trim is of a position below 2^63; and for a write, the object's size and the length of the data
-- fit in 32 bits.
pub client_call_refines :
    {S : Type 0} (cls : ObjectClass S) (codecs : Codecs)
    → ClassLaws cls
    → CodecLaws codecs
    → (unset : Bool) (unset_pos : ℕ) (max_size : Option ℕ) (s : S) (call : LogCall) (v : View)
    → Shows cls codecs s v
    → IsFit cls codecs s call
    → (r : Effect S (Unit {0})) × (exec_write cls codecs unset unset_pos s
          (client_call codecs max_size call)
        ≡ some r)
      × (r.0 ≡ (spec false call v).0)
      × Shows cls codecs r.1 (spec false call v).1
client_call_refines cls codecs laws coded unset unset_pos max_size s call v shows fit =
    let r =
      class_call_refines cls codecs laws coded unset unset_pos (omap_bits max_size) s call v shows
        fit in
    (
      class_call cls codecs unset unset_pos (omap_bits max_size) s call,
      exec_client cls codecs coded unset unset_pos max_size s call,
      r.0,
      r.1,
    )

spec_read_old :
    (e epoch p : ℕ) (l : Option ℕ) (cells : ℕ → Cell)
    → 1 ≤ epoch
    → ltb epoch e ≡ true
    → spec_read (object e l cells) epoch p ≡ err espipe
spec_read_old e epoch p l cells positive old = rw old (ground (arith, positive))

spec_read_new :
    (e epoch p : ℕ) (l : Option ℕ) (cells : ℕ → Cell)
    → 1 ≤ epoch
    → ltb epoch e ≡ false
    → spec_read (object e l cells) epoch p ≡ read_cell (cells p)
spec_read_new e epoch p l cells positive new = rw new (ground (arith, positive))

spec_read_absent : (epoch p : ℕ) → 1 ≤ epoch → spec_read absent epoch p ≡ err enoent
spec_read_absent epoch p positive = ground (arith, positive)

module _ {S : Type 0} (cls : ObjectClass S) (codecs : Codecs) (unset : Bool) (s : S) (p epoch : ℕ)
    (positive : 1 ≤ epoch) where
  abbrev answer : Outcome Text
  answer = read_op cls codecs unset s (record { epoch = epoch; position = p })

  read_cell_lem :
      (c : Cell) (e : LogEntry)
      → Looks cls codecs unset s e c
      → read_found cls codecs s e ≡ read_cell c
  unfolding read_found no_entry
  read_cell_lem unwritten e looks = ap (read_found cls codecs s) looks
  read_cell_lem (written content) e looks = rw (looks.0, looks.1) looks.2
  read_cell_lem invalid e looks = rw (looks.0, looks.1) refl

  module _ (h : LogObjectHeader) (header : HeaderIs cls codecs s h) (cells : ℕ → Cell)
      (cell : CellIs cls codecs s h.trim_limit p (cells p)) where
    read_old : ltb epoch h.epoch ≡ true → answer ≡ err espipe
    unfolding read_op
    read_old old = rw (guarded_old cls codecs s h header epoch positive old) refl

    read_trimmed :
        ltb epoch h.epoch ≡ false → below_limit h.trim_limit p ≡ true → answer ≡ read_cell (cells p)
    unfolding read_op
    read_trimmed new t =
        let at_limit : cells p ≡ invalid = cell.2 ∙ rw t refl in
        rw
          (
            guarded_current cls codecs s h header epoch positive new,
            position_trimmed_lem cls codecs h p,
            t,
          )
          (sym (ap read_cell at_limit))

    read_entry_lem :
        ltb epoch h.epoch ≡ false
        → below_limit h.trim_limit p ≡ false
        → answer ≡ read_cell (cells p)
    unfolding read_op
    read_entry_lem new t =
        let found = read_entry_of_lem cls codecs unset s p cell.0 cell.1 in
        let at_entry : cells p ≡ cell.0 = cell.2 ∙ rw t refl in
        rw
          (
            guarded_current cls codecs s h header epoch positive new,
            position_trimmed_lem cls codecs h p,
            t,
            found.1,
          )
          (read_cell_lem cell.0 found.0 found.2 ∙ sym (ap read_cell at_entry))

    read_there : answer ≡ spec_read (object h.epoch h.trim_limit cells) epoch p
    read_there = elim (Bool-cases (ltb epoch h.epoch)) [
      | inl old ↦ read_old old ∙ sym (spec_read_old h.epoch epoch p h.trim_limit cells positive old)
      | inr new ↦ elim (Bool-cases (below_limit h.trim_limit p)) [
        | inl t ↦
            read_trimmed new t ∙ sym (spec_read_new h.epoch epoch p h.trim_limit cells positive new)
        | inr t ↦
            read_entry_lem new t
            ∙ sym (spec_read_new h.epoch epoch p h.trim_limit cells positive new)
      ]
    ]

  read_missing : Shows cls codecs s absent → answer ≡ err enoent
  unfolding read_op guarded_header read_header
  read_missing shows = rw (shows.0, decode_header) refl

exec_answer :
    {S : Type 0} (cls : ObjectClass S) (codecs : Codecs)
    → CodecLaws codecs
    → (unset : Bool) (unset_pos : ℕ) (s : S) (epoch p : ℕ) (positive : 1 ≤ epoch)
    → exec_read cls codecs unset unset_pos s (cls_zlog_read codecs epoch p)
      ≡ some (answer cls codecs unset s p epoch positive)
unfolding exec_read cls_zlog_read log_entry_read
exec_answer cls codecs coded unset unset_pos s epoch p positive =
    rw (coded.read_entry_op (record { epoch = epoch; position = p })) refl

-- Tables decode to what was encoded. If an object shows a view of the specification, then a reader
-- with a positive epoch is told what the view has at the position, errors included.
pub client_read_lem :
    {S : Type 0} (cls : ObjectClass S) (codecs : Codecs)
    → CodecLaws codecs
    → (unset : Bool) (unset_pos : ℕ) (s : S) (epoch p : ℕ) (v : View) → 1 ≤ epoch
    → Shows cls codecs s v
    → exec_read cls codecs unset unset_pos s (cls_zlog_read codecs epoch p)
      ≡ some (spec_read v epoch p)
client_read_lem cls codecs coded unset unset_pos s epoch p v positive shows =
    exec_answer cls codecs coded unset unset_pos s epoch p positive ∙ ap some (go v shows)
  where
    go :
        (v : View)
        → Shows cls codecs s v
        → answer cls codecs unset s p epoch positive ≡ spec_read v epoch p
    go absent shows =
        read_missing cls codecs unset s p epoch positive shows
        ∙ sym (spec_read_absent epoch p positive)
    go foreign shows = elim shows [ ]
    go (object e limit cells) shows =
        subst
          (λ e.
            answer cls codecs unset s p epoch positive ≡ spec_read (object e limit cells) epoch p)
          shows.2
          (read_there cls codecs unset s p epoch positive shows.0 shows.1 cells
            (subst (λ l. CellIs cls codecs s l p (cells p)) (sym shows.3) (shows.4 p)))
