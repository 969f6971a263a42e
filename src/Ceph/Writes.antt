-- ===== src/Ceph/Writes.antt =====
-- An entry and its data as src/storage/ceph/cls_zlog.h writes them: inline, or behind the end of the
-- object.
use zlog.Base.{
  ◌⊎◌, [], ◌∷◌, ℕ, ◌%◌, ◌≡◌, ◌<◌, refl, sym, subst, inl, inr, Bool, true, false, not, Option, some,
  Text, ok, length, arith, Bool-cases, ◌==◌, u32_mod,
}
use zlog.Ceph.{Codecs, ObjectClass, Effect}
use zlog.Ceph.LogObject.{
  LogEntry, data_hdr_key, entry_key, write_entry_of, entry_table, set_data, append_data, no_entry,
  is_large,
}
use zlog.Ceph.Laws.{ClassLaws, CodecLaws}
use zlog.Ceph.Shows.{Holds, inline, streamed, Stores}
use zlog.Ceph.Frame.{entry_key_other}
use zlog.Ceph.Changes.{Kept}

mod_small : (n : ℕ) → n < u32_mod → n % u32_mod ≡ n
mod_small n h = omega arith

abbrev pub every : ℕ → Bool
every q = true

abbrev pub others : ℕ → ℕ → Bool
others p q = not (p == q)

module _ {S : Type 0} (cls : ObjectClass S) (codecs : Codecs) (laws : ClassLaws cls)
    (coded : CodecLaws codecs) where
  -- Data was set: the object has it, and is else as it was.
  pub record DataSet (s : S) (content : Text) (r : Effect S LogEntry) : Type 0 where
    pub entry : LogEntry
    pub done : r.0 ≡ ok entry
    pub holds : Holds cls codecs r.1 content (entry_table entry)
    pub kept : Kept cls codecs every s r.1

  inline_set :
      (s : S) (content : Text) (unset : Bool)
      → DataSet s content (ok (record (no_entry unset) { bytestream = false; bytes = content }), s)
  unfolding no_entry entry_table
  inline_set s content unset = record {
    entry = record (no_entry unset) { bytestream = false; bytes = content };
    done = refl;
    holds = inline (some content) refl;
    kept = record { header = λ bl e. e; reads = λ o n d l some_data e. e; values = λ q e. refl };
  }

  -- Data that was written behind the end of the object is there, or there was none to write.
  appended :
      (s : S) (content : Text) (size : ℕ)
      → cls.stat s ≡ ok size
      → ((length content ≡ 0) × (content ≡ []))
        ⊎ ((cls.read_at (cls.write_at s size (length content) content).1 size (length content)
              ≡ ok content)
            × (length content ≡ length content)
            × (0 < length content))
  appended s [] size at = inl (refl, refl)
  appended s (x ∷ content) size at =
      let some_data : 0 < length (x ∷ content) = omega arith in
      inr (laws.read_appended s size (x ∷ content) at some_data, refl, some_data)

  append_data-DataSet :
      (s : S) (content : Text) (unset : Bool) (size : ℕ)
      → cls.stat s ≡ ok size
      → size < u32_mod
      → length content < u32_mod
      → DataSet s content (append_data cls codecs s (no_entry unset) content size)
  unfolding append_data no_entry entry_table
  append_data-DataSet s content unset size at small fits =
      let held = appended s content size at in
      rw
        (
          mod_small size small,
          mod_small (length content) fits,
          laws.write_ok s size (length content) content,
        )
        (record {
          entry = record (no_entry unset) {
            offset = size;
            length = length content;
            bytestream = true;
          };
          done = refl;
          holds = streamed size (length content) held;
          kept = record {
            header = λ bl. laws.getxattr_write s size (length content) content data_hdr_key bl;
            reads = λ o n d l some_data e. laws.read_before s size content d o n at e l some_data;
            values = λ q e. laws.map_get_write s size (length content) content (entry_key q);
          };
        })

  small_data :
      (s : S) (content : Text) (unset : Bool) (max_size : Option ℕ)
      → is_large cls codecs content max_size ≡ false
      → set_data cls codecs s (no_entry unset) content max_size
        ≡ (ok (record (no_entry unset) { bytestream = false; bytes = content }), s)
  unfolding set_data no_entry
  small_data s content unset max_size e = rw e refl

  large_data :
      (s : S) (content : Text) (unset : Bool) (max_size : Option ℕ) (size : ℕ)
      → is_large cls codecs content max_size ≡ true
      → cls.stat s ≡ ok size
      → set_data cls codecs s (no_entry unset) content max_size
        ≡ append_data cls codecs s (no_entry unset) content size
  unfolding set_data no_entry
  large_data s content unset max_size size e at = rw (e, at) refl

  pub set_data-DataSet :
      (s : S) (content : Text) (unset : Bool) (max_size : Option ℕ) (bl : Text)
      → cls.getxattr s data_hdr_key ≡ ok bl
      → ((size : ℕ) → cls.stat s ≡ ok size → size < u32_mod)
      → length content < u32_mod
      → DataSet s content (set_data cls codecs s (no_entry unset) content max_size)
  set_data-DataSet s content unset max_size bl header small fits =
      elim (Bool-cases (is_large cls codecs content max_size)) [
        | inr e ↦
            subst (DataSet s content) (sym (small_data s content unset max_size e))
              (inline_set s content unset)
        | inl e ↦
            (let at = laws.stat_ok s data_hdr_key bl header in
              subst (DataSet s content) (sym (large_data s content unset max_size at.0 e at.1))
                (append_data-DataSet s content unset at.0 at.1 (small at.0 at.1) fits))
      ]

  -- The entry at a position is written, and the object is else as it was.
  pub write_entry_of_lem :
      (s : S) (p : ℕ) (e : LogEntry)
      → ((write_entry_of cls codecs s p e).0 ≡ ok tt)
        × Stores cls codecs (write_entry_of cls codecs s p e).1 p (entry_table e)
        × Kept cls codecs (others p) s (write_entry_of cls codecs s p e).1
  unfolding write_entry_of
  write_entry_of_lem s p e =
      let bl = codecs.log_entry.encode (entry_table e) in
      (
        laws.map_set_ok s (entry_key p) bl,
        (bl, laws.map_get_set s (entry_key p) bl, coded.log_entry (entry_table e)),
        record {
          header = λ v. laws.getxattr_map_set s (entry_key p) bl data_hdr_key v;
          reads = λ o n d l some_data. laws.read_map_set s (entry_key p) bl d o n;
          values = λ q h.
              laws.map_get_set_other s (entry_key p) bl (entry_key q)
                (entry_key_other p q (ground (arith, h)));
        },
      )
