-- ===== src/Ceph/Client.antt =====
-- src/storage/ceph/cls_zlog_client.cc: the calls of a client, each the name of a method and its input;
-- and the methods under their names, as `__cls_init` of src/storage/ceph/cls_zlog.cc registers them.
use zlog.Base.{
  ℕ, Bool, true, false, Option, none, some, Text, codes, Outcome, if◌then◌else◌, text_eq,
}
use zlog.View.{c_str}
use zlog.Ram.Spec.{LogCall, writes, fills, trims, seals}
use zlog.Ceph.{Codecs, ObjectClass, Effect}
use zlog.Ceph.Entries.{
  log_entry_read, log_entry_write, log_entry_invalidate, log_entry_seal, log_entry_max_position,
}
use zlog.Ceph.HeadObject.{head_init, view_create, view_read, unique_id_read, unique_id_write}

pub record MethodCall : Type 0 where
  pub method : Text
  pub input : Text

abbrev pub omap_bits : Option ℕ → ℕ
omap_bits none = 4294967295
omap_bits (some size) = size

module _ (codecs : Codecs) where
  unfoldable pub cls_zlog_read : ℕ → ℕ → MethodCall
  cls_zlog_read epoch position = record {
    method = codes "entry_read";
    input = codecs.read_entry_op.encode (record { epoch = epoch; position = position });
  }

  unfoldable pub cls_zlog_write : ℕ → ℕ → Text → MethodCall
  cls_zlog_write epoch position bytes = record {
    method = codes "entry_write";
    input =
        codecs.write_entry_op.encode
          (record { epoch = epoch; position = position; bytes = some bytes });
  }

  unfoldable pub cls_zlog_invalidate : ℕ → ℕ → Bool → Bool → MethodCall
  cls_zlog_invalidate epoch position force limit = record {
    method = codes "entry_invalidate";
    input =
        codecs.invalidate_entry_op.encode
          (record { epoch = epoch; position = position; force = force; limit = limit });
  }

  unfoldable pub cls_zlog_seal : ℕ → Option ℕ → MethodCall
  cls_zlog_seal epoch omap_max_size = record {
    method = codes "entry_seal";
    input =
        codecs.seal_op.encode (record { epoch = epoch; omap_max_size = omap_bits omap_max_size });
  }

  unfoldable pub cls_zlog_max_position : MethodCall
  cls_zlog_max_position = record {
    method = codes "entry_max_position";
    input = codecs.read_max_pos_op.encode tt;
  }

  unfoldable pub cls_zlog_init_head : Text → MethodCall
  unfolding c_str
  cls_zlog_init_head prefix = record {
    method = codes "head_init";
    input = codecs.init_head_op.encode (some (c_str prefix));
  }

  unfoldable pub cls_zlog_create_view : ℕ → Text → MethodCall
  cls_zlog_create_view epoch bytes = record {
    method = codes "view_create";
    input = codecs.create_view_op.encode (record { epoch = epoch; bytes = some bytes });
  }

  unfoldable pub cls_zlog_read_view : ℕ → ℕ → MethodCall
  cls_zlog_read_view epoch max_views = record {
    method = codes "view_read";
    input = codecs.read_views_op.encode (record { epoch = epoch; max_views = max_views });
  }

  unfoldable pub cls_zlog_read_unique_id : MethodCall
  cls_zlog_read_unique_id = record { method = codes "unique_id_read"; input = codes "" }

  unfoldable pub cls_zlog_write_unique_id : ℕ → MethodCall
  cls_zlog_write_unique_id id = record {
    method = codes "unique_id_write";
    input = codecs.unique_id.encode id;
  }

module _ {S : Type 0} (cls : ObjectClass S) (codecs : Codecs) (unset : Bool) (unset_pos : ℕ) where
  -- The methods that only read, and those that write; none for another name.
  unfoldable pub exec_read : S → MethodCall → Option (Outcome Text)
  unfolding text_eq log_entry_read log_entry_max_position view_read unique_id_read
  exec_read s c =
      if text_eq c.method (codes "entry_read")
      then some (log_entry_read cls codecs unset s c.input)
      else if text_eq c.method (codes "entry_max_position")
      then some (log_entry_max_position cls codecs s c.input)
      else if text_eq c.method (codes "view_read")
      then some (view_read cls codecs s c.input)
      else if text_eq c.method (codes "unique_id_read")
      then some (unique_id_read cls codecs s)
      else none

  unfoldable pub exec_write : S → MethodCall → Option (Effect S (Unit {0}))
  unfolding text_eq log_entry_write log_entry_invalidate log_entry_seal head_init view_create
      unique_id_write
  exec_write s c =
      if text_eq c.method (codes "entry_write")
      then some (log_entry_write cls codecs unset s c.input)
      else if text_eq c.method (codes "entry_invalidate")
      then some (log_entry_invalidate cls codecs unset s c.input)
      else if text_eq c.method (codes "entry_seal")
      then some (log_entry_seal cls codecs unset_pos s c.input)
      else if text_eq c.method (codes "head_init")
      then some (head_init cls codecs s c.input)
      else if text_eq c.method (codes "view_create")
      then some (view_create cls codecs s c.input)
      else if text_eq c.method (codes "unique_id_write")
      then some (unique_id_write cls codecs s c.input)
      else none

-- The client's call for a call on a log object.
unfoldable pub client_call : Codecs → Option ℕ → LogCall → MethodCall
unfolding cls_zlog_write cls_zlog_invalidate cls_zlog_seal
client_call codecs max_size (writes content epoch p) = cls_zlog_write codecs epoch p content
client_call codecs max_size (fills epoch p) = cls_zlog_invalidate codecs epoch p false false
client_call codecs max_size (trims epoch p limit full) =
    cls_zlog_invalidate codecs epoch p true limit
client_call codecs max_size (seals epoch) = cls_zlog_seal codecs epoch max_size
