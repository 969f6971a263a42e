-- ===== src/Ceph.antt =====
-- What src/storage/ceph/cls_zlog.h and cls_zlog.cc stand on: the tables of
-- src/storage/ceph/cls_zlog.fbs, in a form of bytes that is the FlatBuffers library's, and the calls of
-- an object class on the object that it runs at, which are Ceph's.
pub mod LogObject
pub mod Entries
pub mod HeadObject
pub mod Laws
pub mod Shows
pub mod Frame
pub mod Lookup
pub mod Changes
pub mod Writes
pub mod Guard
pub mod Methods
pub mod Calls
pub mod Refinement
pub mod Client
pub mod Exec
pub mod Plain
pub mod Views
mod Tests
use zlog.Base.{
  ℕ, Bool, true, false, Option, none, some, List, [], ◌∷◌, ◌++◌, Text, Outcome, ok, err, fault,
  length, ◌-◌,
}
use zlog.Base.Decimal.{decimal, zeros}

-- Numbers with a sign are here the unsigned numbers of the same bits.
pub record LogEntryTable : Type 0 where
  pub invalid : Bool
  pub bytestream : Bool
  pub bytes : Option Text
  pub offset : ℕ
  pub length : ℕ

pub record LogObjectHeaderTable : Type 0 where
  pub epoch : ℕ
  pub empty : Bool
  pub max_pos : ℕ
  pub omap_max_size : ℕ
  pub trim_limit : ℕ

pub record HeadObjectHeaderTable : Type 0 where
  pub epoch : ℕ
  pub prefix : Option Text

pub record CreateViewOp : Type 0 where
  pub epoch : ℕ
  pub bytes : Option Text

pub record ReadViewsOp : Type 0 where
  pub epoch : ℕ
  pub max_views : ℕ

pub record StoredView : Type 0 where
  pub epoch : ℕ
  pub bytes : Text

pub record ReadEntryOp : Type 0 where
  pub epoch : ℕ
  pub position : ℕ

pub record WriteEntryOp : Type 0 where
  pub epoch : ℕ
  pub position : ℕ
  pub bytes : Option Text

pub record InvalidateEntryOp : Type 0 where
  pub epoch : ℕ
  pub position : ℕ
  pub force : Bool
  pub limit : Bool

pub record SealOp : Type 0 where
  pub epoch : ℕ
  pub omap_max_size : ℕ

-- A table's form as bytes: `fbs_bl_encode` of its builder, and `fbs_bl_decode`.
pub record Codec (T : Type 0) : Type 0 where
  pub encode : T → Text
  pub decode : Text → Option T

pub record Codecs : Type 0 where
  pub log_entry : Codec LogEntryTable
  pub log_object_header : Codec LogObjectHeaderTable
  pub head_object_header : Codec HeadObjectHeaderTable
  pub unique_id : Codec ℕ
  pub init_head_op : Codec (Option Text)
  pub create_view_op : Codec CreateViewOp
  pub read_views_op : Codec ReadViewsOp
  pub views : Codec (List StoredView)
  pub read_entry_op : Codec ReadEntryOp
  pub write_entry_op : Codec WriteEntryOp
  pub invalidate_entry_op : Codec InvalidateEntryOp
  pub seal_op : Codec SealOp
  pub read_max_pos_op : Codec (Unit {0})
  pub read_max_pos_reply : Codec (Option ℕ)

abbrev pub Effect : Type 0 → Type 0 → Type 0
Effect S A = Outcome A × S

-- The calls of src/storage/ceph's methods on an object whose state is of type `S`: `cls_cxx_getxattr`
-- and so on.
pub record ObjectClass (S : Type 0) : Type 0 where
  pub getxattr : S → Text → Outcome Text
  pub setxattr : S → Text → Text → Effect S (Unit {0})
  pub map_get_val : S → Text → Outcome Text
  pub map_set_val : S → Text → Text → Effect S (Unit {0})
  pub stat : S → Outcome ℕ
  pub write_at : S → ℕ → ℕ → Text → Effect S (Unit {0})
  pub read_at : S → ℕ → ℕ → Outcome Text

-- A method goes on with a value that it has read, or stops.
abbrev pub given : {S A B : Type 0} → S → Outcome A → (A → Effect S B) → Effect S B
given s (ok a) rest = rest a
given s (err e) rest = (err e, s)
given s fault rest = (fault, s)

-- A method goes on after a change of the object, or stops.
abbrev pub after : {S A B : Type 0} → Effect S A → (A → S → Effect S B) → Effect S B
after (ok a, s) rest = rest a s
after (err e, s) rest = (err e, s)
after (fault, s) rest = (fault, s)

-- `u64tostr`: the number fills 20 digits.
unfoldable pub u64tostr : ℕ → Text → Text
unfolding decimal
u64tostr value prefix = prefix ++ (zeros (20 - length (decimal value)) ++ decimal value)
