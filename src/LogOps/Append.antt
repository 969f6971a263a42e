-- ===== src/LogOps/Append.antt =====
-- `AppendOp::run` of src/libzlog/log_impl.cc. The counters of its statistics are left out.
use zlog.Base.{
  ℕ, Bool, true, false, Option, none, some, Text, Outcome, ok, err, fault, enoent, eio, espipe,
  erofs, assert, ◌>>◌, ltb, ◌==◌, if◌then◌else◌,
}
use zlog.Options.{Options}
use zlog.View.{ViewTable, VersionedView}
use zlog.LogBackend.{Backend, LogBackend, log_write, log_seal}
use zlog.ViewManager.Client.{Client, view_of, map}
use zlog.ViewManager.Propose.{try_expand_view}
use zlog.LogOps.{Round, stop, go_on, Meanwhile, take_tail, after_expanding}

-- `position_` and `position_epoch_`; `retry` is the view and the object of the inner loop, if the
-- next round goes on there.
pub record AppendOp : Type 0 where
  pub position : ℕ
  pub position_epoch : Option ℕ
  pub retry : Option (VersionedView × Text)

-- The operation before its first round; `position_` has no value yet.
abbrev pub append_op : AppendOp
append_op = record { position = 0; position_epoch = none; retry = none }

abbrev pub is_epoch : Option ℕ → ℕ → Bool
is_epoch none e = false
is_epoch (some p) e = p == e

abbrev pub Appends : Type 0 → Type 0
Appends S = Round AppendOp ℕ × Client S

module _ {S : Type 0} where
  -- The position to append at: the one at hand, if the sequencer is the same, or the next.
  unfoldable pub take_position :
      Meanwhile S → AppendOp → Client S → Outcome (VersionedView × AppendOp × Client S)
  unfolding take_tail view_of
  take_position meanwhile op c = elim (view_of c) [
    | none ↦ fault
    | some v ↦ elim v.seq [
      | none ↦ err eio
      | some seq ↦
          if is_epoch op.position_epoch seq.epoch
          then assert (ltb 0 seq.epoch) >> ok (v, op, c)
          else elim (take_tail meanwhile c true) [
            | fault ↦ fault
            | err e ↦ err e
            | ok r ↦
                assert (ltb 0 seq.epoch)
                >> ok (v, record op { position = r.2; position_epoch = some seq.epoch }, r.3)
          ]
    ]
  ]

module _ (content : Text) (serialize : ViewTable → Text) (options : Options) {S : Type 0}
    (backend : Backend S) (l : LogBackend) (newer : ℕ → Client S → Client S) where
  -- The seal of an object that is not there yet; the write is tried again if it succeeds.
  unfoldable pub after_seal :
      AppendOp → VersionedView → Text → Client S → Outcome (Unit {0}) → Appends S
  after_seal op v oid c (ok done) = (go_on (record op { retry = some (v, oid) }), c)
  after_seal op v oid c (err espipe) = (go_on (record op { retry = none }), c)
  after_seal op v oid c (err e) = (stop (err e), c)
  after_seal op v oid c fault = (stop fault, c)

  unfoldable pub after_write :
      AppendOp → VersionedView → Text → Client S → Outcome (Unit {0}) → Appends S
  unfolding after_seal log_seal
  after_write op v oid c (ok done) = (stop (ok op.position), c)
  after_write op v oid c (err enoent) =
      let r = log_seal backend c.store l oid v.epoch in
      after_seal op v oid (record c { store = r.1 }) r.0
  after_write op v oid c (err espipe) = (go_on (record op { retry = none }), newer v.epoch c)
  after_write op v oid c (err erofs) =
      (go_on (record op { position_epoch = none; retry = none }), c)
  after_write op v oid c (err e) = (stop (err e), c)
  after_write op v oid c fault = (stop fault, c)

  -- The body of the inner loop.
  unfoldable pub write_at : AppendOp → VersionedView → Text → Client S → Appends S
  unfolding after_write log_write
  write_at op v oid c =
      let r = log_write backend c.store l oid content v.epoch op.position in
      after_write op v oid (record c { store = r.1 }) r.0

  unfoldable pub append_mapped :
      AppendOp → VersionedView → Outcome (Option Text) × Client S → Appends S
  unfolding write_at after_expanding try_expand_view
  append_mapped op v (ok (some oid), c) = write_at op v oid c
  append_mapped op v (ok none, c) =
      after_expanding serialize options backend l newer op
        (try_expand_view serialize options backend l newer op.position c)
  append_mapped op v (err e, c) = (stop (err e), c)
  append_mapped op v (fault, c) = (stop fault, c)

  unfoldable pub append_look : Meanwhile S → AppendOp → Client S → Appends S
  unfolding take_position append_mapped map
  append_look meanwhile op c = elim (take_position meanwhile op c) [
    | fault ↦ (stop fault, c)
    | err e ↦ (stop (err e), c)
    | ok r ↦ append_mapped r.1 r.0 (map r.2 r.0 r.1.position)
  ]

  unfoldable pub append_round : Meanwhile S → AppendOp → Client S → Appends S
  unfolding append_look write_at
  append_round meanwhile op c = elim op.retry [
    | none ↦ append_look meanwhile op c
    | some at ↦ write_at op at.0 at.1 c
  ]
