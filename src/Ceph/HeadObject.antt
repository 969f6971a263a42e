-- ===== src/Ceph/HeadObject.antt =====
-- The class HeadObject of src/storage/ceph/cls_zlog.h, and the methods of
-- src/storage/ceph/cls_zlog.cc on head objects.
use zlog.Base.{
  ℕ, zero, suc, not, ◌&&◌, Option, none, some, List, [], ◌∷◌, Text, codes, Outcome, ok, err, fault,
  ◌>>=◌, einval, enoent, eio, eexist, espipe, estale, enodata, ltb, leb, ◌==◌, if◌then◌else◌,
  is_empty, add64,
}
use zlog.View.{c_str}
use zlog.Ceph.{
  HeadObjectHeaderTable, CreateViewOp, StoredView, Codecs, ObjectClass, Effect, given, after,
  u64tostr,
}
use zlog.Ceph.LogObject.{bytes_of}
use zlog.Ceph.Entries.{decoded}

abbrev pub head_hdr_key : Text
head_hdr_key = codes "zlog.head.header"

abbrev pub view_key_prefix : Text
view_key_prefix = codes "zlog.head.view."

abbrev pub unique_id_key : Text
unique_id_key = codes "zlog.unique_id"

abbrev pub max_view_reads : ℕ
max_view_reads = 100

pub record HeadObject : Type 0 where
  pub epoch : ℕ
  pub prefix : Text

unfoldable pub view_key : ℕ → Text
unfolding u64tostr
view_key epoch = u64tostr epoch view_key_prefix

unfoldable pub head_of : Option HeadObjectHeaderTable → Outcome HeadObject
head_of none = err eio
head_of (some t) = elim t.prefix [
  | none ↦ err eio
  | some prefix ↦
      if is_empty prefix then err eio else ok (record { epoch = t.epoch; prefix = prefix })
]

unfoldable pub set_epoch : HeadObject → ℕ → Outcome HeadObject
set_epoch head epoch =
    if epoch == add64 head.epoch 1
    then ok (record head { epoch = epoch })
    else if ltb (add64 head.epoch 1) epoch
    then err einval
    else err espipe

abbrev pub view_or_eio : Outcome Text → Outcome Text
view_or_eio (ok bl) = ok bl
view_or_eio (err enoent) = err eio
view_or_eio (err e) = err e
view_or_eio fault = fault

abbrev pub first_epoch : HeadObject → ℕ → ℕ
first_epoch head epoch = if epoch == 0 then head.epoch else epoch

abbrev pub view_count : ℕ → ℕ
view_count max_views = if ltb max_view_reads max_views then max_view_reads else max_views

module _ {S : Type 0} (cls : ObjectClass S) (codecs : Codecs) where
  unfoldable pub decode_head : Outcome Text → Outcome HeadObject
  unfolding head_of
  decode_head (ok bl) = head_of (codecs.head_object_header.decode bl)
  decode_head (err enodata) = err eio
  decode_head (err e) = err e
  decode_head fault = fault

  unfoldable pub initialize_head : S → Outcome HeadObject
  unfolding decode_head
  initialize_head s = decode_head (cls.getxattr s head_hdr_key)

  unfoldable pub finalize : S → HeadObject → Effect S (Unit {0})
  unfolding c_str
  finalize s head = cls.setxattr s head_hdr_key (
      codecs.head_object_header.encode
        (record { epoch = head.epoch; prefix = some (c_str head.prefix) }))

  unfoldable pub init_stat : S → Text → Outcome ℕ → Effect S (Unit {0})
  unfolding finalize
  init_stat s prefix (err enoent) = finalize s (record { epoch = 0; prefix = prefix })
  init_stat s prefix (ok size) = (err eexist, s)
  init_stat s prefix (err e) = (err e, s)
  init_stat s prefix fault = (fault, s)

  unfoldable pub head_init : S → Text → Effect S (Unit {0})
  unfolding init_stat
  head_init s input = given s (decoded (codecs.init_head_op.decode input)) (λ op.
      given s (decoded op)
        (λ prefix. if is_empty prefix then (err einval, s) else init_stat s prefix (cls.stat s)))

  -- The view is written under the new epoch, then the header.
  unfoldable pub create_view_op : S → CreateViewOp → Effect S (Unit {0})
  unfolding initialize_head set_epoch finalize view_key
  create_view_op s op =
      if ltb op.epoch 1
      then (err einval, s)
      else given s (initialize_head s) (λ head. given s (set_epoch head op.epoch) (λ head.
        after (cls.map_set_val s (view_key head.epoch) (bytes_of op.bytes))
          (λ done s. finalize s head)))

  unfoldable pub view_create : S → Text → Effect S (Unit {0})
  unfolding create_view_op
  view_create s input = given s (decoded (codecs.create_view_op.decode input)) (create_view_op s)

  -- The loop, with the views still to take.
  unfoldable pub read_view_loop : S → ℕ → ℕ → ℕ → Outcome (List StoredView)
  unfolding view_key
  read_view_loop s last zero epoch = ok []
  read_view_loop s last (suc left) epoch =
      let rest = read_view_loop s last left (add64 epoch 1) in
      if ltb 0 epoch && leb epoch last
      then (do
        bl ← view_or_eio (cls.map_get_val s (view_key epoch))
        views ← rest
        ok (record { epoch = epoch; bytes = bl } ∷ views))
      else ok []

  unfoldable pub view_read : S → Text → Outcome Text
  unfolding initialize_head read_view_loop
  view_read s input = do
    op ← decoded (codecs.read_views_op.decode input)
    head ← initialize_head s
    views ← read_view_loop s head.epoch (view_count op.max_views) (first_epoch head op.epoch)
    ok (codecs.views.encode views)

  unfoldable pub decode_id : Outcome Text → Outcome ℕ
  decode_id (ok bl) = elim (codecs.unique_id.decode bl) [ none ↦ err eio | some id ↦ ok id ]
  decode_id (err e) = err e
  decode_id fault = fault

  unfoldable pub read_stored_id : S → Outcome ℕ
  unfolding decode_id
  read_stored_id s = decode_id (cls.getxattr s unique_id_key)

  unfoldable pub unique_id_read : S → Outcome Text
  unfolding read_stored_id
  unique_id_read s = do
    id ← read_stored_id s
    if id == 0 then err eio else ok (codecs.unique_id.encode id)

  -- The identifier so far: 0 if none is stored.
  unfoldable pub current_id : Outcome ℕ → Outcome ℕ
  current_id (err enoent) = ok 0
  current_id (err enodata) = ok 0
  current_id (err e) = err e
  current_id fault = fault
  current_id (ok id) = if id == 0 then err eio else ok id

  unfoldable pub write_id_op : S → ℕ → Effect S (Unit {0})
  unfolding current_id read_stored_id
  write_id_op s given_id = given s (current_id (read_stored_id s)) (λ id.
      if not (given_id == add64 id 1)
      then (err estale, s)
      else cls.setxattr s unique_id_key (codecs.unique_id.encode (add64 id 1)))

  unfoldable pub unique_id_write : S → Text → Effect S (Unit {0})
  unfolding write_id_op
  unique_id_write s input = given s (decoded (codecs.unique_id.decode input)) (write_id_op s)
