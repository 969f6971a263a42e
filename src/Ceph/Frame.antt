-- ===== src/Ceph/Frame.antt =====
-- What a change of an object leaves alone, and the header that is read after it was written
-- (src/storage/ceph/cls_zlog.h).
use zlog.Base.{
  ℕ, ◌≡◌, ◌<◌, refl, sym, ap, ◌∙◌, inl, inr, false, Option, none, some, [], ◌∷◌, ◌++◌, Text, ok,
  if◌then◌else◌, length, arith, Bool-cases, ◌==◌, text_eq, text_eq_iff, ltb, drop,
}
use zlog.Base.Decimal.{zeros-decimal_inj}
use zlog.Ram.Cells.{Cell, unwritten, written, invalid}
use zlog.Ceph.{LogEntryTable, Codecs, ObjectClass, u64tostr}
use zlog.Ceph.LogObject.{
  LogObjectHeader, decode_header, data_hdr_key, entry_key, entry_key_prefix, read_header,
  write_header, header_of, table_of, limit_bits,
}
use zlog.Ceph.Laws.{ClassLaws, CodecLaws}
use zlog.Ceph.Shows.{Holds, inline, streamed, EntryIs, Fits, HeaderIs}

drop-append : (xs ys : Text) → drop (length xs) (xs ++ ys) ≡ ys
drop-append [] ys = refl
drop-append (x ∷ xs) ys = drop-append xs ys

u64tostr_inj : (a b : ℕ) (prefix : Text) → u64tostr a prefix ≡ u64tostr b prefix → a ≡ b
unfolding u64tostr
u64tostr_inj a b prefix e =
    zeros-decimal_inj _ _ a b
      (sym (drop-append prefix _) ∙ ap (drop (length prefix)) e ∙ drop-append prefix _)

-- Different positions have different keys.
pub entry_key_other : (p q : ℕ) → (p == q) ≡ false → text_eq (entry_key p) (entry_key q) ≡ false
unfolding entry_key
entry_key_other p q h = elim (Bool-cases (text_eq (entry_key p) (entry_key q))) [
  | inr e ↦ e
  | inl e ↦
      let same : p ≡ q =
        u64tostr_inj p q entry_key_prefix ((text_eq_iff (entry_key p) (entry_key q)).0 e) in
      ground (arith, h, same)
]

limit_back :
    (l : Option ℕ)
    → Fits l
    → (if ltb (limit_bits l) 9223372036854775808 then some (limit_bits l) else none) ≡ l
limit_back none fits = refl
limit_back (some l) fits = ground arith

header_of-table_of : (h : LogObjectHeader) → Fits h.trim_limit → header_of (table_of h) ≡ h
unfolding header_of table_of
header_of-table_of h fits = ap (λ l. record h { trim_limit = l }) (limit_back h.trim_limit fits)

module _ {S : Type 0} (cls : ObjectClass S) (codecs : Codecs) where
  -- What could be read in full is read as before.
  abbrev pub ReadsOn : S → S → Type 0
  ReadsOn s t =
      (o n : ℕ) (d : Text)
      → length d ≡ n
      → 0 < n
      → cls.read_at s o n ≡ ok d
      → cls.read_at t o n ≡ ok d

  pub Holds-frame :
      (s t : S) (content : Text) (e : LogEntryTable)
      → ReadsOn s t
      → Holds cls codecs s content e
      → Holds cls codecs t content e
  Holds-frame s t content e reads (inline bytes same) = inline bytes same
  Holds-frame s t content e reads (streamed offset n (inl h)) = streamed offset n (inl h)
  Holds-frame s t content e reads (streamed offset n (inr h)) =
      streamed offset n (inr (reads offset n content h.1 h.2 h.0, h.1, h.2))

  pub EntryIs-frame :
      (s t : S) (p : ℕ) (c : Cell)
      → cls.map_get_val t (entry_key p) ≡ cls.map_get_val s (entry_key p)
      → ReadsOn s t
      → EntryIs cls codecs s p c
      → EntryIs cls codecs t p c
  EntryIs-frame s t p unwritten same reads h = same ∙ h
  EntryIs-frame s t p (written content) same reads h =
      (h.0, (h.1.0, same ∙ h.1.1, h.1.2), Holds-frame s t content h.0 reads h.2)
  EntryIs-frame s t p invalid same reads h = (h.0, (h.1.0, same ∙ h.1.1, h.1.2), h.2)

  module _ (laws : ClassLaws cls) (coded : CodecLaws codecs) where
    pub write_header_lem :
        (s : S) (h : LogObjectHeader)
        → Fits h.trim_limit
        → ((write_header cls codecs s h).0 ≡ ok tt)
          × HeaderIs cls codecs (write_header cls codecs s h).1 h
    unfolding write_header read_header decode_header
    write_header_lem s h fits =
        let bl = codecs.log_object_header.encode (table_of h) in
        let got = laws.getxattr_set s data_hdr_key bl in
        (
          laws.setxattr_ok s data_hdr_key bl,
          (
            bl,
            got,
            rw (got, decode_header, coded.log_object_header (table_of h), header_of-table_of h fits)
                refl,
            fits,
          ),
        )

    pub write_header-EntryIs :
        (s : S) (h : LogObjectHeader) (p : ℕ) (c : Cell)
        → EntryIs cls codecs s p c
        → EntryIs cls codecs (write_header cls codecs s h).1 p c
    unfolding write_header
    write_header-EntryIs s h p c e =
        EntryIs-frame s (write_header cls codecs s h).1 p c
          (laws.map_get_setxattr s data_hdr_key (codecs.log_object_header.encode (table_of h))
            (entry_key p))
          (λ o n d len some_data. laws.read_setxattr s data_hdr_key _ d o n) e
