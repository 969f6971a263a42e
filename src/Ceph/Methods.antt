-- ===== src/Ceph/Methods.antt =====
-- entry_write, entry_invalidate and entry_seal of src/storage/ceph/cls_zlog.cc on an object that is
-- there, beside the specification of log objects.
use zlog.Base.{
  ℕ, ◌≡◌, ◌≤◌, ◌<◌, refl, sym, ap, subst, ◌∙◌, inl, inr, Bool, true, false, Option, Text, Outcome,
  ok, err, erofs, if◌then◌else◌, length, arith, Bool-cases, u32_mod,
}
use zlog.Ram.Cells.{Cell, unwritten, written, invalid, write_cell, fill_cell}
use zlog.Ram.Spec.{View, object, below_limit, set_cell, guarded}
use zlog.Ceph.{Codecs, ObjectClass, Effect, given, after, WriteEntryOp, InvalidateEntryOp}
use zlog.Ceph.LogObject.{
  LogObjectHeader, LogEntry, bytes_of, no_entry, entry_table, invalidate, write_entry_of,
  read_entry_of, position_trimmed,
}
use zlog.Ceph.Entries.{write_op, write_new, invalidate_found, invalidate_op, store_max_pos}
use zlog.Ceph.Laws.{ClassLaws, CodecLaws}
use zlog.Ceph.Shows.{HeaderIs, CellIs}
use zlog.Ceph.Lookup.{Looks, read_entry_of_lem, position_trimmed_lem}
use zlog.Ceph.Changes.{
  Refines, Rewritten-Refines, set_cell-CellIs, Kept-HeaderIs, Kept-CellIs, store_max_pos-Rewritten,
}
use zlog.Ceph.Writes.{others, write_entry_of_lem}
use zlog.Ceph.Guard.{after_ok, stays_at, guard_lem, write_new_lem}

-- What the specification does to a cell, beside its outcome.
abbrev pub at_position :
    (Cell → Outcome (Unit {0}) × Cell) → ℕ → ℕ → Option ℕ → (ℕ → Cell) → Outcome (Unit {0}) × View
at_position out p e limit cells =
    ((out (cells p)).0, object e limit (set_cell cells p (out (cells p)).1))

abbrev pub void_cell : Cell → Outcome (Unit {0}) × Cell
void_cell c = (ok tt, invalid)

invalid_twice : (b : Bool) → invalid ≡ (if b then invalid else invalid)
invalid_twice true = refl
invalid_twice false = refl

module _ {S : Type 0} (cls : ObjectClass S) (codecs : Codecs) (laws : ClassLaws cls)
    (coded : CodecLaws codecs) (s : S) (h : LogObjectHeader) (header : HeaderIs cls codecs s h)
    (cells : ℕ → Cell) (entries : (p : ℕ) → CellIs cls codecs s h.trim_limit p (cells p))
    (unset : Bool) where
  abbrev Does : Effect S (Unit {0}) → Outcome (Unit {0}) × Cell → ℕ → Type 0
  Does r out p = Refines cls codecs r (out.0, object h.epoch h.trim_limit (set_cell cells p out.1))

  -- The cell of a trimmed position is invalid; otherwise the entry that is read decides.
  by_cell :
      (p : ℕ) (early : Effect S (Unit {0})) (rest : LogEntry → Effect S (Unit {0}))
      (out : Cell → Outcome (Unit {0}) × Cell)
      → (cells p ≡ invalid → Does early (out (cells p)) p)
      → ((c : Cell) (e : LogEntry)
          → below_limit h.trim_limit p ≡ false
          → cells p ≡ c
          → Looks cls codecs unset s e c
          → Does (rest e) (out (cells p)) p)
      → Does
          (if position_trimmed h p
            then early
            else given s (read_entry_of cls codecs unset s p) rest)
          (out (cells p))
          p
  by_cell p early rest out at_limit at_entry = elim (Bool-cases (below_limit h.trim_limit p)) [
    | inl t ↦ rw (position_trimmed_lem cls codecs h p, t) (at_limit ((entries p).2 ∙ rw t refl))
    | inr t ↦
        (let found = read_entry_of_lem cls codecs unset s p (entries p).0 (entries p).1 in
          rw (position_trimmed_lem cls codecs h p, t, found.1)
            (at_entry (entries p).0 found.0 t ((entries p).2 ∙ rw t refl) found.2))
  ]

  at_cell :
      (p : ℕ) (r : Outcome (Unit {0})) (out : Cell → Outcome (Unit {0}) × Cell) (c : Cell)
      → cells p ≡ c
      → out c ≡ (r, c)
      → Does (r, s) (out (cells p)) p
  at_cell p r out c e same =
      stays_at cls codecs laws coded s h header cells entries p r (out (cells p))
        (ap out e ∙ same ∙ ap (λ c. (r, c)) (sym e))

  module _ (p : ℕ) (content : Text) (small : (size : ℕ) → cls.stat s ≡ ok size → size < u32_mod)
      (fits : length content < u32_mod) (epoch : ℕ) (bytes : Option Text)
      (same : bytes_of bytes ≡ content) where
    abbrev writing : WriteEntryOp
    writing = record { epoch = epoch; position = p; bytes = bytes }

    write_found :
        (c : Cell) (e : LogEntry)
        → below_limit h.trim_limit p ≡ false
        → cells p ≡ c
        → Looks cls codecs unset s e c
        → Does
            (if e.exists then (err erofs, s) else write_new cls codecs s h e writing)
            (write_cell content (cells p))
            p
    unfolding no_entry
    write_found unwritten e u at looks =
        subst
          (λ e.
            Does (if e.exists then (err erofs, s) else write_new cls codecs s h e writing)
              (write_cell content (cells p)) p)
          (sym looks)
          (subst
            (λ c. Does (write_new cls codecs s h (no_entry unset) writing) (write_cell content c) p)
            (sym at)
            (write_new_lem cls codecs laws coded s h header cells entries p content u small fits
              unset epoch bytes same))
    write_found (written old) e u at looks =
        rw looks.0 (at_cell p (err erofs) (write_cell content) (written old) at refl)
    write_found invalid e u at looks =
        rw looks.0 (at_cell p (err erofs) (write_cell content) invalid at refl)

    pub write_op_lem :
        1 ≤ epoch
        → Refines cls codecs
            (write_op cls codecs unset s writing)
            (guarded epoch (object h.epoch h.trim_limit cells) (at_position (write_cell content) p))
    unfolding write_op
    write_op_lem positive =
        guard_lem cls codecs laws coded s h header cells entries epoch _
          (at_position (write_cell content) p) positive
          (by_cell p (err erofs, s) _ (write_cell content)
            (λ e. at_cell p (err erofs) (write_cell content) invalid e refl) write_found)

  module _ (p epoch : ℕ) (force : Bool) where
    abbrev voiding : InvalidateEntryOp
    voiding = record { epoch = epoch; position = p; force = force; limit = false }

    abbrev store : Unit {0} → S → Effect S (Unit {0})
    store done s = store_max_pos cls codecs s h p

    -- The entry is written back as an invalid one.
    void_entry :
        (e : LogEntry) (out : Outcome (Unit {0}) × Cell)
        → out ≡ (ok tt, invalid)
        → Does (after (write_entry_of cls codecs s p (invalidate e)) store) out p
    void_entry e out same =
        let w = write_entry_of_lem cls codecs laws coded s p (invalidate e) in
        let s2 = (write_entry_of cls codecs s p (invalidate e)).1 in
        subst (λ out. Does (after (write_entry_of cls codecs s p (invalidate e)) store) out p)
          (sym same)
          (subst
            (λ r.
              Refines cls codecs r (ok tt, object h.epoch h.trim_limit (set_cell cells p invalid)))
            (sym (after_ok (write_entry_of cls codecs s p (invalidate e)) store tt w.0))
            (Rewritten-Refines cls codecs s2 h.epoch h.trim_limit (set_cell cells p invalid) _
              (store_max_pos-Rewritten cls codecs laws coded s2 h p
                (Kept-HeaderIs cls codecs (others p) s s2 h w.2 header))
              (set_cell-CellIs cls codecs s2 h.trim_limit cells p invalid
                (
                  invalid,
                  (entry_table (invalidate e), w.1, unfold entry_table invalidate in refl),
                  invalid_twice (below_limit h.trim_limit p),
                )
                (λ q e.
                  Kept-CellIs cls codecs (others p) s s2 h.trim_limit q (cells q) w.2
                    (ground (arith, e)) (entries q)))))

  fill_found :
      (p epoch : ℕ) (c : Cell) (e : LogEntry)
      → cells p ≡ c
      → Looks cls codecs unset s e c
      → Does (invalidate_found cls codecs s h (voiding p epoch false) e) (fill_cell (cells p)) p
  unfolding invalidate_found
  fill_found p epoch unwritten e at looks =
      subst
        (λ e.
          Does (invalidate_found cls codecs s h (voiding p epoch false) e) (fill_cell (cells p)) p)
        (sym looks)
        (unfold no_entry in
          void_entry p epoch false (no_entry unset) (fill_cell (cells p)) (ap fill_cell at))
  fill_found p epoch (written old) e at looks =
      rw (looks.0, looks.1) (at_cell p (err erofs) fill_cell (written old) at refl)
  fill_found p epoch invalid e at looks =
      rw (looks.0, looks.1) (at_cell p (ok tt) fill_cell invalid at refl)

  trim_found :
      (p epoch : ℕ) (c : Cell) (e : LogEntry)
      → cells p ≡ c
      → Looks cls codecs unset s e c
      → Does (invalidate_found cls codecs s h (voiding p epoch true) e) (void_cell (cells p)) p
  unfolding invalidate_found
  trim_found p epoch unwritten e at looks =
      subst
        (λ e.
          Does (invalidate_found cls codecs s h (voiding p epoch true) e) (void_cell (cells p)) p)
        (sym looks)
        (unfold no_entry in void_entry p epoch true (no_entry unset) (ok tt, invalid) refl)
  trim_found p epoch (written old) e at looks =
      rw (looks.0, looks.1) (void_entry p epoch true e (ok tt, invalid) refl)
  trim_found p epoch invalid e at looks =
      rw (looks.0, looks.1) (at_cell p (ok tt) void_cell invalid at refl)

  pub fill_op_lem :
      (p epoch : ℕ)
      → 1 ≤ epoch
      → Refines cls codecs
          (invalidate_op cls codecs unset s (voiding p epoch false))
          (guarded epoch (object h.epoch h.trim_limit cells) (at_position fill_cell p))
  unfolding invalidate_op
  fill_op_lem p epoch positive =
      guard_lem cls codecs laws coded s h header cells entries epoch _ (at_position fill_cell p)
        positive
        (by_cell p (ok tt, s) _ fill_cell (λ e. at_cell p (ok tt) fill_cell invalid e refl)
          (λ c e u. fill_found p epoch c e))

  pub trim_op_lem :
      (p epoch : ℕ)
      → 1 ≤ epoch
      → Refines cls codecs
          (invalidate_op cls codecs unset s (voiding p epoch true))
          (guarded epoch (object h.epoch h.trim_limit cells) (at_position void_cell p))
  unfolding invalidate_op
  trim_op_lem p epoch positive =
      guard_lem cls codecs laws coded s h header cells entries epoch _ (at_position void_cell p)
        positive
        (by_cell p (ok tt, s) _ void_cell (λ e. at_cell p (ok tt) void_cell invalid e refl)
          (λ c e u. trim_found p epoch c e))
