-- ===== src/Ceph/Laws.antt =====
-- What src/storage/ceph/cls_zlog.cc relies on: the documented behaviour of the calls on an object, and
-- that tables decode to what was encoded.
use zlog.Base.{ℕ, ◌<◌, ◌≡◌, false, some, Text, ok, text_eq, length}
use zlog.Ceph.{
  LogEntryTable, LogObjectHeaderTable, HeadObjectHeaderTable, ReadViewsOp, ReadEntryOp,
  WriteEntryOp, InvalidateEntryOp, SealOp, CreateViewOp, Codecs, ObjectClass,
}

-- The changes of an object succeed. An attribute or a value that was set is read back, and nothing
-- else of the object changes; data that is written behind the end of the object is read back, and
-- what could be read in full before is read as before. A read of length 0 is one of all data, and the
-- last two say nothing of it.
pub record ClassLaws {S : Type 0} (cls : ObjectClass S) : Type 0 where
  pub setxattr_ok : (s : S) (k v : Text) → (cls.setxattr s k v).0 ≡ ok tt
  pub map_set_ok : (s : S) (k v : Text) → (cls.map_set_val s k v).0 ≡ ok tt
  pub write_ok : (s : S) (o n : ℕ) (d : Text) → (cls.write_at s o n d).0 ≡ ok tt
  pub stat_ok : (s : S) (k v : Text) → cls.getxattr s k ≡ ok v → (n : ℕ) × (cls.stat s ≡ ok n)
  pub getxattr_set : (s : S) (k v : Text) → cls.getxattr (cls.setxattr s k v).1 k ≡ ok v
  pub getxattr_map_set :
      (s : S) (j w k v : Text)
      → cls.getxattr s k ≡ ok v
      → cls.getxattr (cls.map_set_val s j w).1 k ≡ ok v
  pub getxattr_write :
      (s : S) (o n : ℕ) (d k v : Text)
      → cls.getxattr s k ≡ ok v
      → cls.getxattr (cls.write_at s o n d).1 k ≡ ok v
  pub map_get_set : (s : S) (k v : Text) → cls.map_get_val (cls.map_set_val s k v).1 k ≡ ok v
  pub map_get_set_other :
      (s : S) (k v j : Text)
      → text_eq k j ≡ false
      → cls.map_get_val (cls.map_set_val s k v).1 j ≡ cls.map_get_val s j
  pub map_get_setxattr :
      (s : S) (k v j : Text) → cls.map_get_val (cls.setxattr s k v).1 j ≡ cls.map_get_val s j
  pub map_get_write :
      (s : S) (o n : ℕ) (d j : Text)
      → cls.map_get_val (cls.write_at s o n d).1 j ≡ cls.map_get_val s j
  pub read_setxattr :
      (s : S) (k v d : Text) (o n : ℕ)
      → cls.read_at s o n ≡ ok d
      → cls.read_at (cls.setxattr s k v).1 o n ≡ ok d
  pub read_map_set :
      (s : S) (k v d : Text) (o n : ℕ)
      → cls.read_at s o n ≡ ok d
      → cls.read_at (cls.map_set_val s k v).1 o n ≡ ok d
  pub read_appended :
      (s : S) (size : ℕ) (d : Text)
      → cls.stat s ≡ ok size
      → 0 < length d
      → cls.read_at (cls.write_at s size (length d) d).1 size (length d) ≡ ok d
  pub read_before :
      (s : S) (size : ℕ) (d e : Text) (o n : ℕ)
      → cls.stat s ≡ ok size
      → cls.read_at s o n ≡ ok e
      → length e ≡ n
      → 0 < n
      → cls.read_at (cls.write_at s size (length d) d).1 o n ≡ ok e

pub record CodecLaws (codecs : Codecs) : Type 0 where
  pub log_entry : (t : LogEntryTable) → codecs.log_entry.decode (codecs.log_entry.encode t) ≡ some t
  pub log_object_header :
      (t : LogObjectHeaderTable)
      → codecs.log_object_header.decode (codecs.log_object_header.encode t) ≡ some t
  pub head_object_header :
      (t : HeadObjectHeaderTable)
      → codecs.head_object_header.decode (codecs.head_object_header.encode t) ≡ some t
  pub unique_id : (id : ℕ) → codecs.unique_id.decode (codecs.unique_id.encode id) ≡ some id
  pub read_views_op :
      (t : ReadViewsOp) → codecs.read_views_op.decode (codecs.read_views_op.encode t) ≡ some t
  pub write_entry_op :
      (t : WriteEntryOp) → codecs.write_entry_op.decode (codecs.write_entry_op.encode t) ≡ some t
  pub invalidate_entry_op :
      (t : InvalidateEntryOp)
      → codecs.invalidate_entry_op.decode (codecs.invalidate_entry_op.encode t) ≡ some t
  pub seal_op : (t : SealOp) → codecs.seal_op.decode (codecs.seal_op.encode t) ≡ some t
  pub create_view_op :
      (t : CreateViewOp) → codecs.create_view_op.decode (codecs.create_view_op.encode t) ≡ some t
  pub read_entry_op :
      (t : ReadEntryOp) → codecs.read_entry_op.decode (codecs.read_entry_op.encode t) ≡ some t
