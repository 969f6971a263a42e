-- ===== src/Ceph/Tests.antt =====
-- A plain object that is sealed, written and read.
use zlog.Base.{
  ℕ, ◌≡◌, ◌<◌, ◌≤◌, ◌⊎◌, ◌≢◌, add64, refl, sym, subst, ap, ◌∙◌, Bool, true, false, Option, none,
  some, [], ◌∷◌, Text, codes, Outcome, ok, err, u32_mod, arith, ok_inj,
}
use zlog.Ram.Cells.{unwritten}
use zlog.Ram.Spec.{absent, object, LogCall, writes, seals, spec}
use zlog.View.{c_str}
use zlog.Ceph.{Effect, CreateViewOp}
use zlog.Ceph.HeadObject.{HeadObject, head_init, initialize_head, view_create}
use zlog.Ceph.Views.{IsCreated, IsRefused, view_create_lem}
use zlog.Ceph.LogObject.{header_of, table_of, new_header}
use zlog.Ceph.Calls.{class_call}
use zlog.Ceph.Shows.{Shows}
use zlog.Ceph.Client.{exec_write, exec_read, client_call, cls_zlog_read}
use zlog.Ceph.Refinement.{class_call_refines}
use zlog.Ceph.Exec.{client_call_refines, client_read_lem}
use zlog.Ceph.Plain.{PlainObject, plain_class, plain_class-Laws, plain_codecs, plain_codecs-Laws}

abbrev nothing : PlainObject
nothing = record { exists = false; xattrs = []; omap = []; bytes = [] }

nothing-Shows : Shows plain_class plain_codecs nothing absent
unfolding zlog.Base.Assoc.find
nothing-Shows = (refl, λ p. refl)

-- Data of one byte or more goes behind the end.
abbrev sealed : Effect PlainObject (Unit {0})
sealed = class_call plain_class plain_codecs false 0 1 nothing (seals 1)

sealed-Shows : Shows plain_class plain_codecs sealed.1 (object 1 none (λ q. unwritten))
sealed-Shows =
    (class_call_refines plain_class plain_codecs plain_class-Laws plain_codecs-Laws false 0 1
      nothing (seals 1) absent nothing-Shows (omega arith)).1

abbrev a_write : LogCall
a_write = writes (codes "ab") 1 5

seal_size : (size : ℕ) → plain_class.stat sealed.1 ≡ ok size → size < u32_mod
unfolding class_call
seal_size size e = omega (arith, ok_inj e)

client_call_refines_example :
    (r : Effect PlainObject (Unit {0})) × (exec_write plain_class plain_codecs false 0 sealed.1
        (client_call plain_codecs (some 1) a_write)
      ≡ some r)
    × (r.0 ≡ ok tt)
    × Shows plain_class plain_codecs r.1 (spec false a_write (object 1 none (λ q. unwritten))).1
client_call_refines_example =
    client_call_refines plain_class plain_codecs plain_class-Laws plain_codecs-Laws false 0 (some 1)
      sealed.1 a_write (object 1 none (λ q. unwritten)) sealed-Shows
      (omega arith, seal_size, omega arith)

abbrev wrote : Effect PlainObject (Unit {0})
wrote = class_call plain_class plain_codecs false 0 1 sealed.1 a_write

wrote-Shows :
    Shows plain_class plain_codecs wrote.1 (spec false a_write (object 1 none (λ q. unwritten))).1
wrote-Shows =
    (class_call_refines plain_class plain_codecs plain_class-Laws plain_codecs-Laws false 0 1
      sealed.1 a_write (object 1 none (λ q. unwritten)) sealed-Shows
      (omega arith, seal_size, omega arith)).1

client_read_lem_example :
    exec_read plain_class plain_codecs false 0 wrote.1 (cls_zlog_read plain_codecs 1 5)
    ≡ some (ok (codes "ab"))
client_read_lem_example =
    client_read_lem plain_class plain_codecs plain_codecs-Laws false 0 wrote.1 1 5
      (spec false a_write (object 1 none (λ q. unwritten))).1 (omega arith) wrote-Shows

-- The data stands in the object's bytes.
streamed_bytes : wrote.1.bytes ≡ codes "ab"
unfolding class_call zlog.Base.Assoc.find zlog.Base.Assoc.insert zlog.Base.text_eq
streamed_bytes = refl

-- A trim limit of 2^63 is negative as an int64_t, and is lost when the header is read again.
limit_lost :
    (header_of
      (table_of (record (new_header 1 0) { trim_limit = some 9223372036854775808 }))).trim_limit
    ≡ none
unfolding header_of table_of new_header
limit_lost = refl

-- A head object without a view.
abbrev new_head : Effect PlainObject (Unit {0})
new_head =
    head_init plain_class plain_codecs nothing
      (plain_codecs.init_head_op.encode (some (codes "zlog.data.k")))

abbrev first_head : HeadObject
first_head = record { epoch = 0; prefix = codes "zlog.data.k" }

abbrev view_1 : CreateViewOp
view_1 = record { epoch = 1; bytes = some (codes "view") }

new_head_found : initialize_head plain_class plain_codecs new_head.1 ≡ ok first_head
unfolding initialize_head head_init zlog.Base.Assoc.find zlog.Base.Assoc.insert zlog.Base.text_eq
new_head_found = refl

plain_prefix : c_str first_head.prefix ≡ first_head.prefix
unfolding c_str
plain_prefix = refl

view_create_lem_example :
    ((1 ≤ view_1.epoch)
      × (view_1.epoch ≡ add64 first_head.epoch 1)
      × IsCreated plain_class plain_codecs first_head view_1 (
          view_create plain_class plain_codecs new_head.1
            (plain_codecs.create_view_op.encode view_1)))
    ⊎ (((view_1.epoch ≡ 0) ⊎ (view_1.epoch ≢ add64 first_head.epoch 1))
        × IsRefused new_head.1 (
            view_create plain_class plain_codecs new_head.1
              (plain_codecs.create_view_op.encode view_1)))
view_create_lem_example =
    view_create_lem plain_class plain_codecs plain_class-Laws plain_codecs-Laws new_head.1
      first_head view_1 new_head_found plain_prefix refl
