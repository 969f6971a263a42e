-- ===== src/Ceph/LogObject.antt =====
-- The classes LogObjectHeader and LogEntry of src/storage/ceph/cls_zlog.h.
use zlog.Base.{
  ℕ, ◌%◌, Bool, true, false, not, ◌||◌, Option, none, some, [], Text, codes, Outcome, ok, err,
  fault, assert, ◌>>◌, einval, enoent, eio, espipe, enodata, ltb, leb, ◌==◌, if◌then◌else◌,
  is_empty, length, u32_mod,
}
use zlog.Ceph.{
  LogEntryTable, LogObjectHeaderTable, Codecs, ObjectClass, Effect, given, after, u64tostr,
}

abbrev pub data_hdr_key : Text
data_hdr_key = codes "zlog.data.header"

abbrev pub entry_key_prefix : Text
entry_key_prefix = codes "zlog.data.entry."

unfoldable pub entry_key : ℕ → Text
unfolding u64tostr
entry_key position = u64tostr position entry_key_prefix

pub record LogObjectHeader : Type 0 where
  pub epoch : ℕ
  pub empty : Bool
  pub max_pos : ℕ
  pub omap_max_size : ℕ
  pub trim_limit : Option ℕ

-- A constructed header: `epoch_` and `max_pos_` are not set, and `omap_max_size_` is -1.
unfoldable pub new_header : ℕ → ℕ → LogObjectHeader
new_header unset_epoch unset_pos = record {
  epoch = unset_epoch;
  empty = true;
  max_pos = unset_pos;
  omap_max_size = 4294967295;
  trim_limit = none;
}

unfoldable pub header_of : LogObjectHeaderTable → LogObjectHeader
header_of t = record {
  epoch = t.epoch;
  empty = t.empty;
  max_pos = t.max_pos;
  omap_max_size = t.omap_max_size;
  trim_limit = if ltb t.trim_limit 9223372036854775808 then some t.trim_limit else none;
}

-- The limit as an int64_t, where -1 is no limit.
abbrev pub limit_bits : Option ℕ → ℕ
limit_bits none = 18446744073709551615
limit_bits (some limit) = limit

unfoldable pub table_of : LogObjectHeader → LogObjectHeaderTable
table_of h = record {
  epoch = h.epoch;
  empty = h.empty;
  max_pos = h.max_pos;
  omap_max_size = h.omap_max_size;
  trim_limit = limit_bits h.trim_limit;
}

unfoldable pub epoch_guard : LogObjectHeader → ℕ → Outcome (Unit {0})
epoch_guard h epoch =
    if ltb epoch 1 then err einval else if ltb epoch h.epoch then err espipe else ok tt

unfoldable pub header_max_pos : LogObjectHeader → Option ℕ
header_max_pos h = if not h.empty then some h.max_pos else none

-- Whether the header changed, and the header.
unfoldable pub update_max_pos : LogObjectHeader → ℕ → Bool × LogObjectHeader
unfolding header_max_pos
update_max_pos h pos =
    let raised = record h { max_pos = pos; empty = false } in
    elim (header_max_pos h) [
      | none ↦ (true, raised)
      | some m ↦ if ltb m pos then (true, raised) else (false, h)
    ]

unfoldable pub max_inline : LogObjectHeader → Option ℕ
max_inline h = if ltb h.omap_max_size 2147483648 then some h.omap_max_size else none

unfoldable pub update_trim_limit : LogObjectHeader → ℕ → Bool × LogObjectHeader
unfolding update_max_pos
update_trim_limit h position =
    let raised = (update_max_pos (record h { trim_limit = some position }) position).1 in
    elim h.trim_limit [
      | none ↦ (true, raised)
      | some limit ↦ if ltb limit position then (true, raised) else (false, h)
    ]

unfoldable pub position_trimmed : LogObjectHeader → ℕ → Bool
position_trimmed h position = elim h.trim_limit [ none ↦ false | some limit ↦ leb position limit ]

pub record LogEntry : Type 0 where
  pub exists : Bool
  pub invalid : Bool
  pub bytestream : Bool
  pub bytes : Text
  pub offset : ℕ
  pub length : ℕ

-- An entry that was looked for and is not there; `bytestream_` is not set.
unfoldable pub no_entry : Bool → LogEntry
no_entry unset = record {
  exists = false;
  invalid = false;
  bytestream = unset;
  bytes = [];
  offset = 0;
  length = 0;
}

abbrev pub bytes_of : Option Text → Text
bytes_of none = []
bytes_of (some bytes) = bytes

unfoldable pub entry_of : LogEntryTable → LogEntry
entry_of t = record {
  exists = true;
  invalid = t.invalid;
  bytestream = t.bytestream;
  bytes = bytes_of t.bytes;
  offset = t.offset;
  length = t.length;
}

unfoldable pub entry_table : LogEntry → LogEntryTable
entry_table e = record {
  invalid = e.invalid;
  bytestream = e.bytestream;
  bytes = some e.bytes;
  offset = e.offset;
  length = e.length;
}

unfoldable pub invalidate : LogEntry → LogEntry
invalidate e = record e { invalid = true }

module _ {S : Type 0} (cls : ObjectClass S) (codecs : Codecs) where
  unfoldable pub decode_header : Outcome Text → Outcome LogObjectHeader
  unfolding header_of
  decode_header (ok bl) = elim (codecs.log_object_header.decode bl) [
    | none ↦ err eio
    | some t ↦ ok (header_of t)
  ]
  decode_header (err enodata) = err eio
  decode_header (err e) = err e
  decode_header fault = fault

  unfoldable pub read_header : S → Outcome LogObjectHeader
  unfolding decode_header
  read_header s = decode_header (cls.getxattr s data_hdr_key)

  unfoldable pub write_header : S → LogObjectHeader → Effect S (Unit {0})
  unfolding table_of
  write_header s h = cls.setxattr s data_hdr_key (codecs.log_object_header.encode (table_of h))

  unfoldable pub decode_entry : Bool → Outcome Text → Outcome LogEntry
  unfolding entry_of no_entry
  decode_entry unset (ok bl) = elim (codecs.log_entry.decode bl) [
    | none ↦ err eio
    | some t ↦ ok (entry_of t)
  ]
  decode_entry unset (err enoent) = ok (no_entry unset)
  decode_entry unset (err e) = err e
  decode_entry unset fault = fault

  -- `LogEntry::read()` of a new entry.
  unfoldable pub read_entry_of : Bool → S → ℕ → Outcome LogEntry
  unfolding decode_entry entry_key
  read_entry_of unset s position = decode_entry unset (cls.map_get_val s (entry_key position))

  unfoldable pub write_entry_of : S → ℕ → LogEntry → Effect S (Unit {0})
  unfolding entry_table entry_key
  write_entry_of s position e =
      cls.map_set_val s (entry_key position) (codecs.log_entry.encode (entry_table e))

  abbrev pub is_large : Text → Option ℕ → Bool
  is_large bytes none = false
  is_large bytes (some max_size) = leb max_size (length bytes)

  -- The data behind the end of the object, whose size is given.
  unfoldable pub append_data : S → LogEntry → Text → ℕ → Effect S LogEntry
  append_data s e bytes obj_size =
      let offset = obj_size % u32_mod in
      let count = length bytes % u32_mod in
      after (cls.write_at s offset count bytes)
        (λ done s. (ok (record e { offset = offset; length = count; bytestream = true }), s))

  unfoldable pub set_data : S → LogEntry → Text → Option ℕ → Effect S LogEntry
  unfolding append_data
  set_data s e bytes max_size =
      given s (assert (e.offset == 0) >> (assert (e.length == 0) >> assert (is_empty e.bytes)))
        (λ done.
          if is_large bytes max_size
          then given s (cls.stat s) (append_data s e bytes)
          else (ok (record e { bytestream = false; bytes = bytes }), s))

  -- `LogEntry::read(out)`.
  unfoldable pub read_data : S → LogEntry → Outcome Text
  read_data s e =
      if e.bytestream
      then (if not (is_empty e.bytes)
          then err eio
          else if e.length == 0
          then ok []
          else cls.read_at s e.offset e.length)
      else if not (e.offset == 0) || not (e.length == 0)
      then err eio
      else ok e.bytes
