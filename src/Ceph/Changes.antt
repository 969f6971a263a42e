-- ===== src/Ceph/Changes.antt =====
-- The changes that the methods of src/storage/ceph/cls_zlog.cc make to an object: the header, an entry
-- and data behind the end.
use zlog.Base.{
  ℕ, ◌≡◌, ◌<◌, refl, sym, ap, subst, ◌∙◌, inl, inr, Bool, true, false, Option, none, some, Text,
  Outcome, ok, arith, Bool-cases, ◌==◌, ==_iff,
}
use zlog.Ram.Cells.{Cell}
use zlog.Ram.Spec.{View, object, set_cell, raise_limit}
use zlog.Ceph.{Codecs, ObjectClass, Effect}
use zlog.Ceph.LogObject.{
  LogObjectHeader, data_hdr_key, entry_key, decode_header, read_header, write_header,
  update_max_pos, update_trim_limit,
}
use zlog.Ceph.Entries.{store_max_pos, store_trim_limit}
use zlog.Ceph.Laws.{ClassLaws, CodecLaws}
use zlog.Ceph.Shows.{EntryIs, Fits, HeaderIs, CellIs, Shows}
use zlog.Ceph.Frame.{ReadsOn, EntryIs-frame, write_header_lem, write_header-EntryIs}

raise_limit-Fits :
    (l : Option ℕ) (p : ℕ) → Fits l → p < 9223372036854775808 → Fits (raise_limit l p)
raise_limit-Fits none p h k = k
raise_limit-Fits (some l) p h k = omega (arith, h, k)

module _ {S : Type 0} (cls : ObjectClass S) (codecs : Codecs) where
  -- An object whose header was written, or not, and whose entries are the same.
  pub record Rewritten (s : S) (epoch : ℕ) (limit : Option ℕ) (r : Effect S (Unit {0}))
      : Type 0 where
    pub h : LogObjectHeader
    pub done : r.0 ≡ ok tt
    pub header : HeaderIs cls codecs r.1 h
    pub epoch_of : h.epoch ≡ epoch
    pub limit_of : h.trim_limit ≡ limit
    pub entries : (p : ℕ) (c : Cell) → EntryIs cls codecs s p c → EntryIs cls codecs r.1 p c

  abbrev pub Refines : Effect S (Unit {0}) → Outcome (Unit {0}) × View → Type 0
  Refines r v = (r.0 ≡ v.0) × Shows cls codecs r.1 v.1

  pub Rewritten-Refines :
      (s : S) (epoch : ℕ) (limit : Option ℕ) (cells : ℕ → Cell) (r : Effect S (Unit {0}))
      → Rewritten s epoch limit r
      → ((p : ℕ) → CellIs cls codecs s limit p (cells p))
      → Refines r (ok tt, object epoch limit cells)
  Rewritten-Refines s epoch limit cells r w cells_of = (
    w.done,
    (
      w.h,
      w.header,
      w.epoch_of,
      w.limit_of,
      λ p. ((cells_of p).0, w.entries p (cells_of p).0 (cells_of p).1, (cells_of p).2),
    ),
  )

  pub set_cell-CellIs :
      (s : S) (limit : Option ℕ) (cells : ℕ → Cell) (p : ℕ) (c : Cell)
      → CellIs cls codecs s limit p c
      → ((q : ℕ) → (p == q) ≡ false → CellIs cls codecs s limit q (cells q))
      → (q : ℕ) → CellIs cls codecs s limit q (set_cell cells p c q)
  set_cell-CellIs s limit cells p c here others q = elim (Bool-cases (p == q)) [
    | inl e ↦ rw e (subst (λ q. CellIs cls codecs s limit q c) ((==_iff p q).0 e) here)
    | inr e ↦ rw e (others q e)
  ]

  -- The object is as it was, but for the entries that do not pass the test.
  pub record Kept (same : ℕ → Bool) (s t : S) : Type 0 where
    pub header :
        (bl : Text) → cls.getxattr s data_hdr_key ≡ ok bl → cls.getxattr t data_hdr_key ≡ ok bl
    pub reads : ReadsOn cls codecs s t
    pub values :
        (q : ℕ) → same q ≡ true → cls.map_get_val t (entry_key q) ≡ cls.map_get_val s (entry_key q)

  pub Kept-HeaderIs :
      (same : ℕ → Bool) (s t : S) (h : LogObjectHeader)
      → Kept same s t
      → HeaderIs cls codecs s h
      → HeaderIs cls codecs t h
  unfolding read_header
  Kept-HeaderIs same s t h kept header = (
    header.0,
    kept.header header.0 header.1,
    ap (decode_header cls codecs) (kept.header header.0 header.1 ∙ sym header.1) ∙ header.2,
    header.3,
  )

  pub Kept-CellIs :
      (same : ℕ → Bool) (s t : S) (limit : Option ℕ) (q : ℕ) (c : Cell)
      → Kept same s t
      → same q ≡ true
      → CellIs cls codecs s limit q c
      → CellIs cls codecs t limit q c
  Kept-CellIs same s t limit q c kept h cell =
      (cell.0, EntryIs-frame cls codecs s t q cell.0 (kept.values q h) kept.reads cell.1, cell.2)

  module _ (laws : ClassLaws cls) (coded : CodecLaws codecs) where
    pub write_header-Rewritten :
        (s : S) (h : LogObjectHeader) (epoch : ℕ) (limit : Option ℕ)
        → Fits h.trim_limit
        → h.epoch ≡ epoch
        → h.trim_limit ≡ limit
        → Rewritten s epoch limit (write_header cls codecs s h)
    write_header-Rewritten s h epoch limit fits e l =
        let w = write_header_lem cls codecs laws coded s h fits in
        record {
          h = h;
          done = w.0;
          header = w.1;
          epoch_of = e;
          limit_of = l;
          entries = write_header-EntryIs cls codecs laws coded s h;
        }

    abbrev not_written :
        (s : S) (h : LogObjectHeader)
        → HeaderIs cls codecs s h
        → Rewritten s h.epoch h.trim_limit (ok tt, s)
    not_written s h header = record {
      h = h;
      done = refl;
      header = header;
      epoch_of = refl;
      limit_of = refl;
      entries = λ p c e. e;
    }

    update_max_pos_lem :
        (h : LogObjectHeader) (p : ℕ)
        → ((update_max_pos h p).1.epoch ≡ h.epoch)
          × ((update_max_pos h p).1.trim_limit ≡ h.trim_limit)
    unfolding update_max_pos
    update_max_pos_lem h p = ground arith

    pub store_max_pos-Rewritten :
        (s : S) (h : LogObjectHeader) (p : ℕ)
        → HeaderIs cls codecs s h
        → Rewritten s h.epoch h.trim_limit (store_max_pos cls codecs s h p)
    unfolding store_max_pos
    store_max_pos-Rewritten s h p header =
        let u = update_max_pos_lem h p in
        elim (Bool-cases (update_max_pos h p).0) [
          | inl t ↦ rw t (
              write_header-Rewritten s (update_max_pos h p).1 h.epoch h.trim_limit
                (subst Fits (sym u.1) header.3) u.0 u.1)
          | inr f ↦ rw f (not_written s h header)
        ]

    update_trim_limit_lem :
        (h : LogObjectHeader) (p : ℕ)
        → ((update_trim_limit h p).0 ≡ true
            → ((update_trim_limit h p).1.epoch ≡ h.epoch)
              × ((update_trim_limit h p).1.trim_limit ≡ raise_limit h.trim_limit p))
          × ((update_trim_limit h p).0 ≡ false → h.trim_limit ≡ raise_limit h.trim_limit p)
    unfolding update_trim_limit update_max_pos
    update_trim_limit_lem h p = go h.trim_limit refl
      where
        go :
            (l : Option ℕ)
            → h.trim_limit ≡ l
            → ((update_trim_limit h p).0 ≡ true
                → ((update_trim_limit h p).1.epoch ≡ h.epoch)
                  × ((update_trim_limit h p).1.trim_limit ≡ raise_limit h.trim_limit p))
              × ((update_trim_limit h p).0 ≡ false → h.trim_limit ≡ raise_limit h.trim_limit p)
        go none e = ground (arith, e)
        go (some l) e = ground (arith, e)

    pub store_trim_limit-Rewritten :
        (s : S) (h : LogObjectHeader) (p : ℕ)
        → HeaderIs cls codecs s h
        → p < 9223372036854775808
        → Rewritten s h.epoch (raise_limit h.trim_limit p) (store_trim_limit cls codecs s h p)
    unfolding store_trim_limit
    store_trim_limit-Rewritten s h p header fits =
        let u = update_trim_limit_lem h p in
        elim (Bool-cases (update_trim_limit h p).0) [
          | inl t ↦ rw t (
              write_header-Rewritten s (update_trim_limit h p).1 h.epoch
                (raise_limit h.trim_limit p)
                (subst Fits (sym (u.0 t).1) (raise_limit-Fits h.trim_limit p header.3 fits))
                (u.0 t).0 (u.0 t).1)
          | inr f ↦ rw f (record {
            h = h;
            done = refl;
            header = header;
            epoch_of = refl;
            limit_of = u.1 f;
            entries = λ p c e. e;
          })
        ]
