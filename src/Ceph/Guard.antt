-- ===== src/Ceph/Guard.antt =====
-- One call of a method of src/storage/ceph/cls_zlog.cc on an object that is there, beside the
-- specification of log objects.
use zlog.Base.{
  ℕ, ◌≡◌, ◌≤◌, ◌<◌, refl, sym, ap, subst, ◌∙◌, inl, inr, Bool, true, false, Option, Text, Outcome,
  ok, err, fault, espipe, length, arith, Bool-cases, ltb, u32_mod,
}
use zlog.Ram.Cells.{Cell, written}
use zlog.Ram.Spec.{View, object, below_limit, set_cell, guarded}
use zlog.Ceph.{Codecs, ObjectClass, Effect, given, after}
use zlog.Ceph.LogObject.{
  LogObjectHeader, bytes_of, no_entry, entry_table, set_data, write_entry_of, max_inline,
}
use zlog.Ceph.Entries.{guarded_header, write_new}
use zlog.Ceph.Laws.{ClassLaws, CodecLaws}
use zlog.Ceph.Shows.{Holds, HeaderIs, CellIs, Shows}
use zlog.Ceph.Frame.{Holds-frame}
use zlog.Ceph.Lookup.{guarded_old, guarded_current}
use zlog.Ceph.Changes.{
  Refines, Rewritten-Refines, set_cell-CellIs, Kept-HeaderIs, Kept-CellIs, store_max_pos-Rewritten,
}
use zlog.Ceph.Writes.{others, set_data-DataSet, write_entry_of_lem}

pub after_ok :
    {S A B : Type 0} (r : Effect S A) (rest : A → S → Effect S B) (a : A)
    → r.0 ≡ ok a
    → after r rest ≡ rest a r.1
after_ok (ok b, s) rest a e = ap (λ x. rest x s) (ok_back e)
  where
    ok_back : ok b ≡ ok a → b ≡ a
    ok_back e = cc e
after_ok (err x, s) rest a e = cc e
after_ok (fault, s) rest a e = cc e

module _ {S : Type 0} (cls : ObjectClass S) (codecs : Codecs) (laws : ClassLaws cls)
    (coded : CodecLaws codecs) (s : S) (h : LogObjectHeader) (header : HeaderIs cls codecs s h)
    (cells : ℕ → Cell) (entries : (p : ℕ) → CellIs cls codecs s h.trim_limit p (cells p)) where
  abbrev shown : View
  shown = object h.epoch h.trim_limit cells

  abbrev stays : Shows cls codecs s shown
  stays = (h, header, refl, refl, entries)

  -- A call that writes what is there.
  same_cell : (p : ℕ) (q : ℕ) → CellIs cls codecs s h.trim_limit q (set_cell cells p (cells p) q)
  same_cell p =
      set_cell-CellIs cls codecs s h.trim_limit cells p (cells p) (entries p) (λ q e. entries q)

  pub stays_at :
      (p : ℕ) (r : Outcome (Unit {0})) (out : Outcome (Unit {0}) × Cell)
      → out ≡ (r, cells p)
      → Refines cls codecs (r, s) (out.0, object h.epoch h.trim_limit (set_cell cells p out.1))
  stays_at p r out e =
      subst
        (λ out.
          Refines cls codecs (r, s) (out.0, object h.epoch h.trim_limit (set_cell cells p out.1)))
        (sym e) (refl, (h, header, refl, refl, same_cell p))

  -- A call with an old epoch, or one that goes on.
  pub guard_lem :
      (epoch : ℕ) (rest : LogObjectHeader → Effect S (Unit {0}))
      (f : ℕ → Option ℕ → (ℕ → Cell) → Outcome (Unit {0}) × View)
      → 1 ≤ epoch
      → Refines cls codecs (rest h) (f h.epoch h.trim_limit cells)
      → Refines cls codecs
          (given s (guarded_header cls codecs s epoch) rest)
          (guarded epoch shown f)
  guard_lem epoch rest f positive here = elim (Bool-cases (ltb epoch h.epoch)) [
    | inl old ↦
        subst (λ r. Refines cls codecs (given s r rest) (guarded epoch shown f))
          (sym (guarded_old cls codecs s h header epoch positive old))
          (subst (Refines cls codecs (err espipe, s)) (sym (old_spec old)) (refl, stays))
    | inr new ↦
        subst (λ r. Refines cls codecs (given s r rest) (guarded epoch shown f))
          (sym (guarded_current cls codecs s h header epoch positive new))
          (subst (Refines cls codecs (rest h)) (sym (new_spec new)) here)
  ]
    where
      old_spec : ltb epoch h.epoch ≡ true → guarded epoch shown f ≡ (err espipe, shown)
      old_spec old = rw old (ground (arith, positive))

      new_spec : ltb epoch h.epoch ≡ false → guarded epoch shown f ≡ f h.epoch h.trim_limit cells
      new_spec new = rw new (ground (arith, positive))

  -- A new entry is written at a position that is not trimmed.
  module _ (p : ℕ) (content : Text) (untrimmed : below_limit h.trim_limit p ≡ false)
      (small : (size : ℕ) → cls.stat s ≡ ok size → size < u32_mod) (fits : length content < u32_mod)
      (unset : Bool) (epoch : ℕ) (bytes : Option Text) (same : bytes_of bytes ≡ content) where
    pub write_new_lem :
        Refines cls codecs
          (write_new cls codecs s h
            (no_entry unset)
            (record { epoch = epoch; position = p; bytes = bytes }))
          (ok tt, object h.epoch h.trim_limit (set_cell cells p (written content)))
    unfolding write_new
    write_new_lem =
        let d =
          set_data-DataSet cls codecs laws coded s (bytes_of bytes) unset (max_inline h) header.0
            header.1 small (rw same fits) in
        let s1 = (set_data cls codecs s (no_entry unset) (bytes_of bytes) (max_inline h)).1 in
        let w = write_entry_of_lem cls codecs laws coded s1 p d.entry in
        let s2 = (write_entry_of cls codecs s1 p d.entry).1 in
        let header1 = Kept-HeaderIs cls codecs _ s s1 h d.kept header in
        let header2 = Kept-HeaderIs cls codecs (others p) s1 s2 h w.2 header1 in
        subst
          (λ r.
            Refines cls codecs r
              (ok tt, object h.epoch h.trim_limit (set_cell cells p (written content))))
          (sym (after_ok _ _ d.entry d.done ∙ after_ok _ _ tt w.0))
          (Rewritten-Refines cls codecs s2 h.epoch h.trim_limit (set_cell cells p (written content))
            _ (store_max_pos-Rewritten cls codecs laws coded s2 h p header2)
            (set_cell-CellIs cls codecs s2 h.trim_limit cells p (written content)
              (
                written content,
                (
                  entry_table d.entry,
                  w.1,
                  subst (λ c. Holds cls codecs s2 c (entry_table d.entry)) same
                      (Holds-frame cls codecs s1 s2 (bytes_of bytes) (entry_table d.entry) w.2.reads
                        d.holds),
                ),
                rw untrimmed refl,
              )
              (λ q e.
                Kept-CellIs cls codecs (others p) s1 s2 h.trim_limit q (cells q) w.2
                  (ground (arith, e))
                  (Kept-CellIs cls codecs _ s s1 h.trim_limit q (cells q) d.kept refl
                    (entries q)))))
