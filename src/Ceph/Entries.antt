-- ===== src/Ceph/Entries.antt =====
-- The methods of src/storage/ceph/cls_zlog.cc on the object of entries. What the code reads of a
-- field that was never set is a parameter: `unset` and `unset_pos`.
use zlog.Base.{
  ℕ, Bool, not, ◌&&◌, Option, none, some, Text, Outcome, ok, err, fault, ◌>>=◌, ◌>>◌, einval,
  enoent, eio, espipe, enodata, erange, erofs, ltb, leb, if◌then◌else◌,
}
use zlog.Ceph.{
  ReadEntryOp, WriteEntryOp, InvalidateEntryOp, SealOp, Codecs, ObjectClass, Effect, given, after,
}
use zlog.Ceph.LogObject.{
  LogObjectHeader, LogEntry, new_header, epoch_guard, header_max_pos, update_max_pos, max_inline,
  update_trim_limit, position_trimmed, bytes_of, invalidate, read_header, write_header,
  read_entry_of, write_entry_of, set_data, read_data,
}

-- An operation that does not decode is invalid.
abbrev pub decoded : {T : Type 0} → Option T → Outcome T
decoded none = err einval
decoded (some op) = ok op

-- A header is read, and the epoch of the call is compared with it.
unfoldable pub guarded_header :
    {S : Type 0} → ObjectClass S → Codecs → S → ℕ → Outcome LogObjectHeader
unfolding read_header epoch_guard
guarded_header cls codecs s epoch = do
  header ← read_header cls codecs s
  epoch_guard header epoch
  ok header

module _ {S : Type 0} (cls : ObjectClass S) (codecs : Codecs) where
  unfoldable pub read_found : S → LogEntry → Outcome Text
  unfolding read_data
  read_found s entry =
      if not entry.exists
      then err erange
      else if entry.invalid
      then err enodata
      else read_data cls codecs s entry

  unfoldable pub read_op : Bool → S → ReadEntryOp → Outcome Text
  unfolding read_found guarded_header position_trimmed read_entry_of
  read_op unset s op = do
    header ← guarded_header cls codecs s op.epoch
    if position_trimmed header op.position
        then err enodata
        else (do entry ← read_entry_of cls codecs unset s op.position; read_found s entry)

  unfoldable pub log_entry_read : Bool → S → Text → Outcome Text
  unfolding read_op
  log_entry_read unset s input = do
    op ← decoded (codecs.read_entry_op.decode input)
    read_op unset s op

  -- The header is written only if it changed.
  unfoldable pub store_max_pos : S → LogObjectHeader → ℕ → Effect S (Unit {0})
  unfolding update_max_pos write_header
  store_max_pos s header position =
      let updated = update_max_pos header position in
      if updated.0 then write_header cls codecs s updated.1 else (ok tt, s)

  -- A new entry with its data is written, then the header.
  unfoldable pub write_new : S → LogObjectHeader → LogEntry → WriteEntryOp → Effect S (Unit {0})
  unfolding set_data write_entry_of max_inline store_max_pos
  write_new s header entry op =
      after (set_data cls codecs s entry (bytes_of op.bytes) (max_inline header)) (λ entry s.
        after (write_entry_of cls codecs s op.position entry)
          (λ done s. store_max_pos s header op.position))

  unfoldable pub write_op : Bool → S → WriteEntryOp → Effect S (Unit {0})
  unfolding guarded_header position_trimmed read_entry_of write_new
  write_op unset s op = given s (guarded_header cls codecs s op.epoch) (λ header.
      if position_trimmed header op.position
      then (err erofs, s)
      else given s (read_entry_of cls codecs unset s op.position)
          (λ entry. if entry.exists then (err erofs, s) else write_new s header entry op))

  unfoldable pub log_entry_write : Bool → S → Text → Effect S (Unit {0})
  unfolding write_op
  log_entry_write unset s input =
      given s (decoded (codecs.write_entry_op.decode input)) (write_op unset s)

  unfoldable pub store_trim_limit : S → LogObjectHeader → ℕ → Effect S (Unit {0})
  unfolding update_trim_limit write_header
  store_trim_limit s header position =
      let updated = update_trim_limit header position in
      if updated.0 then write_header cls codecs s updated.1 else (ok tt, s)

  unfoldable pub invalidate_found :
      S → LogObjectHeader → InvalidateEntryOp → LogEntry → Effect S (Unit {0})
  unfolding invalidate write_entry_of store_max_pos
  invalidate_found s header op entry =
      if entry.exists && entry.invalid
      then (ok tt, s)
      else if entry.exists && not op.force
      then (err erofs, s)
      else after (write_entry_of cls codecs s op.position (invalidate entry))
          (λ done s. store_max_pos s header op.position)

  unfoldable pub invalidate_op : Bool → S → InvalidateEntryOp → Effect S (Unit {0})
  unfolding guarded_header position_trimmed read_entry_of store_trim_limit invalidate_found
  invalidate_op unset s op =
      if op.limit && not op.force
      then (err eio, s)
      else given s (guarded_header cls codecs s op.epoch) (λ header.
        if op.limit
        then store_trim_limit s header op.position
        else if position_trimmed header op.position
        then (ok tt, s)
        else given s (read_entry_of cls codecs unset s op.position) (invalidate_found s header op))

  unfoldable pub log_entry_invalidate : Bool → S → Text → Effect S (Unit {0})
  unfolding invalidate_op
  log_entry_invalidate unset s input =
      given s (decoded (codecs.invalidate_entry_op.decode input)) (invalidate_op unset s)

  unfoldable pub seal_header : S → SealOp → LogObjectHeader → Effect S (Unit {0})
  unfolding write_header
  seal_header s op header =
      write_header cls codecs s
        (record header { omap_max_size = op.omap_max_size; epoch = op.epoch })

  unfoldable pub seal_read : ℕ → S → SealOp → Outcome LogObjectHeader → Effect S (Unit {0})
  unfolding seal_header new_header
  seal_read unset_pos s op (ok header) =
      if leb op.epoch header.epoch then (err espipe, s) else seal_header s op header
  seal_read unset_pos s op (err enoent) = seal_header s op (new_header op.epoch unset_pos)
  seal_read unset_pos s op (err e) = (err e, s)
  seal_read unset_pos s op fault = (fault, s)

  unfoldable pub seal_op : ℕ → S → SealOp → Effect S (Unit {0})
  unfolding seal_read read_header
  seal_op unset_pos s op =
      if ltb op.epoch 1
      then (err einval, s)
      else seal_read unset_pos s op (read_header cls codecs s)

  unfoldable pub log_entry_seal : ℕ → S → Text → Effect S (Unit {0})
  unfolding seal_op
  log_entry_seal unset_pos s input =
      given s (decoded (codecs.seal_op.decode input)) (seal_op unset_pos s)

  unfoldable pub log_entry_max_position : S → Text → Outcome Text
  unfolding read_header header_max_pos
  log_entry_max_position s input = do
    op ← decoded (codecs.read_max_pos_op.decode input)
    header ← read_header cls codecs s
    ok (codecs.read_max_pos_reply.encode (header_max_pos header))
