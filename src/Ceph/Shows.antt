-- ===== src/Ceph/Shows.antt =====
-- An object of entries of src/storage/ceph/cls_zlog.cc as the specification of log objects sees it.
use zlog.Base.{
  ℕ, ◌+◌, ◌≡◌, ◌<◌, ◌⊎◌, refl, sym, ap, subst, ◌∙◌, inl, inr, Bool, true, false, not, Option, none,
  some, List, [], ◌∷◌, Text, Outcome, ok, err, fault, enoent, ◌>>=◌, if◌then◌else◌, length, arith,
  Bool-cases, ◌==◌,
}
use zlog.Ram.Cells.{Cell, unwritten, written, invalid}
use zlog.Ram.Spec.{View, absent, foreign, object, below_limit}
use zlog.Ceph.{LogEntryTable, Codecs, ObjectClass}
use zlog.Ceph.LogObject.{LogObjectHeader, data_hdr_key, entry_key, read_header, bytes_of}

-- The limit is not negative as an int64_t.
abbrev pub Fits : Option ℕ → Type 0
Fits none = Unit
Fits (some limit) = limit < 9223372036854775808

module _ {S : Type 0} (cls : ObjectClass S) (codecs : Codecs) where
  -- What a stored entry holds: its content in the table, or behind its offset.
  pub data Holds (s : S) (content : Text) : LogEntryTable → Type 0 where
    inline :
        (bytes : Option Text)
        → bytes_of bytes ≡ content
        → Holds s content
            (record { invalid = false; bytestream = false; bytes = bytes; offset = 0; length = 0 })
    streamed :
        (offset length : ℕ)
        → ((length ≡ 0) × (content ≡ []))
          ⊎ ((cls.read_at s offset length ≡ ok content)
              × (zlog.Base.length content ≡ length)
              × (0 < length))
        → Holds s content (record {
          invalid = false;
          bytestream = true;
          bytes = some [];
          offset = offset;
          length = length;
        })

  abbrev pub Stores : S → ℕ → LogEntryTable → Type 0
  Stores s p t =
      (bl : Text) × (cls.map_get_val s (entry_key p) ≡ ok bl)
      × (codecs.log_entry.decode bl ≡ some t)

  -- The entry at a position.
  abbrev pub EntryIs : S → ℕ → Cell → Type 0
  EntryIs s p unwritten = cls.map_get_val s (entry_key p) ≡ err enoent
  EntryIs s p (written content) = (t : LogEntryTable) × Stores s p t × Holds s content t
  EntryIs s p invalid = (t : LogEntryTable) × Stores s p t × (t.invalid ≡ true)

  -- The header of an object.
  abbrev pub HeaderIs : S → LogObjectHeader → Type 0
  HeaderIs s h =
      (bl : Text) × (cls.getxattr s data_hdr_key ≡ ok bl)
      × (read_header cls codecs s ≡ ok h)
      × Fits h.trim_limit

  abbrev pub CellIs : S → Option ℕ → ℕ → Cell → Type 0
  CellIs s limit p c =
      (entry : Cell) × EntryIs s p entry × (c ≡ (if below_limit limit p then invalid else entry))

  abbrev pub Shows : S → View → Type 0
  Shows s absent =
      (cls.getxattr s data_hdr_key ≡ err enoent)
      × ((p : ℕ) → cls.map_get_val s (entry_key p) ≡ err enoent)
  Shows s foreign = ⊥
  Shows s (object epoch limit cells) =
      (h : LogObjectHeader) × HeaderIs s h
      × (h.epoch ≡ epoch)
      × (h.trim_limit ≡ limit)
      × ((p : ℕ) → CellIs s limit p (cells p))
