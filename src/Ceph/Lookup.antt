-- ===== src/Ceph/Lookup.antt =====
-- What the methods of src/storage/ceph/cls_zlog.cc read of an object before they change it.
use zlog.Base.{
  ℕ, ◌≡◌, ◌≤◌, refl, sym, ap, inl, inr, Bool, true, false, Option, none, some, [], ◌∷◌, Text, ok,
  err, espipe, length, arith, Bool-cases, ◌==◌, ltb, leb,
}
use zlog.Ram.Cells.{Cell, unwritten, written, invalid}
use zlog.Ram.Spec.{below_limit}
use zlog.Ceph.{LogEntryTable, Codecs, ObjectClass}
use zlog.Ceph.LogObject.{
  LogObjectHeader, LogEntry, decode_entry, read_entry_of, read_data, entry_of, no_entry,
  epoch_guard, position_trimmed,
}
use zlog.Ceph.Entries.{guarded_header}
use zlog.Ceph.Shows.{Holds, inline, streamed, EntryIs, HeaderIs}

empty_text : (xs : Text) → length xs ≡ 0 → xs ≡ []
empty_text [] h = refl
empty_text (x ∷ xs) h = absurd (omega arith)

module _ {S : Type 0} (cls : ObjectClass S) (codecs : Codecs) where
  Holds-read_data :
      (s : S) (content : Text) (t : LogEntryTable)
      → Holds cls codecs s content t
      → (t.invalid ≡ false) × (read_data cls codecs s (entry_of t) ≡ ok content)
  unfolding read_data entry_of
  Holds-read_data s content t (inline bytes same) = (refl, ap ok same)
  Holds-read_data s content t (streamed offset n (inl h)) = (refl, ground (arith, h))
  Holds-read_data s content t (streamed offset n (inr h)) = (
    refl,
    elim (Bool-cases (n == 0)) [
      | inl z ↦ rw z (ap ok (sym (empty_text content (ground (arith, h.1, z)))))
      | inr z ↦ rw z h.0
    ],
  )

  -- The entry that is read, for the cell that it is.
  abbrev pub Looks : Bool → S → LogEntry → Cell → Type 0
  Looks unset s e unwritten = e ≡ no_entry unset
  Looks unset s e (written content) =
      (e.exists ≡ true) × (e.invalid ≡ false) × (read_data cls codecs s e ≡ ok content)
  Looks unset s e invalid = (e.exists ≡ true) × (e.invalid ≡ true)

  pub read_entry_of_lem :
      (unset : Bool) (s : S) (p : ℕ) (c : Cell)
      → EntryIs cls codecs s p c
      → (e : LogEntry) × (read_entry_of cls codecs unset s p ≡ ok e) × Looks unset s e c
  unfolding read_entry_of
  read_entry_of_lem unset s p unwritten h = (no_entry unset, rw (h, decode_entry) refl, refl)
  read_entry_of_lem unset s p (written content) h =
      let held = Holds-read_data s content h.0 h.2 in
      (
        entry_of h.0,
        rw (h.1.1, decode_entry, h.1.2) refl,
        (unfold entry_of in (refl, held.0, held.1)),
      )
  read_entry_of_lem unset s p invalid h =
      (entry_of h.0, rw (h.1.1, decode_entry, h.1.2) refl, (unfold entry_of in (refl, h.2)))

  module _ (s : S) (h : LogObjectHeader) (header : HeaderIs cls codecs s h) (epoch : ℕ)
      (positive : 1 ≤ epoch) where
    pub guarded_old : ltb epoch h.epoch ≡ true → guarded_header cls codecs s epoch ≡ err espipe
    unfolding guarded_header epoch_guard
    guarded_old old = rw (header.2, old) (ground (arith, positive))

    pub guarded_current : ltb epoch h.epoch ≡ false → guarded_header cls codecs s epoch ≡ ok h
    unfolding guarded_header epoch_guard
    guarded_current new = rw (header.2, new) (ground (arith, positive))

  pub position_trimmed_lem :
      (h : LogObjectHeader) (p : ℕ) → position_trimmed h p ≡ below_limit h.trim_limit p
  unfolding position_trimmed
  position_trimmed_lem h p = go h.trim_limit
    where
      go : (l : Option ℕ) → elim l [ none ↦ false | some limit ↦ leb p limit ] ≡ below_limit l p
      go none = refl
      go (some limit) = refl
