-- ===== src/LogOps/TrimTo.antt =====
-- `TrimToOp::run` of src/libzlog/log_impl.cc: the positions up to one are trimmed.
use zlog.Base.{
  ℕ, Bool, true, false, Option, none, some, List, [], ◌∷◌, Text, Outcome, ok, err, fault, enoent,
  espipe, leb, if◌then◌else◌, add64, Errno,
}
use zlog.Options.{Options}
use zlog.ObjectMap.MapTo
use zlog.View.{ViewTable, VersionedView}
use zlog.LogBackend.{Backend, LogBackend, log_trim, log_seal}
use zlog.ViewManager.Client.{Client, view_of, map_range}
use zlog.ViewManager.Propose.{try_expand_view, advance_min_valid_position}
use zlog.LogOps.{Round, stop, go_on, after_expanding, after_init}

-- Where the inner loop stands: the view, and the stripe that comes next.
abbrev pub Range : Type 0
Range = Option (VersionedView × ℕ)

abbrev pub Trims : Type 0 → Type 0
Trims S = Round Range (Unit {0}) × Client S

module _ (position : ℕ) (serialize : ViewTable → Text) (options : Options) {S : Type 0}
    (backend : Backend S) (l : LogBackend) (newer : ℕ → Client S → Client S) where
  unfoldable pub after_trim : VersionedView → Text → Client S → Errno → Trims S
  unfolding after_init log_seal
  after_trim v oid c espipe = (go_on none, newer v.epoch c)
  after_trim v oid c enoent =
      after_init serialize options backend l newer none c (log_seal backend c.store l oid v.epoch)
  after_trim v oid c e = (stop (err e), c)

  -- The objects of a stripe, each with whether all of its positions are trimmed.
  unfoldable pub trim_objects : VersionedView → ℕ → List (Text × Bool) → Client S → Trims S
  unfolding after_trim log_trim
  trim_objects v next_id [] c = (go_on (some (v, next_id)), c)
  trim_objects v next_id ((oid, trim_full) ∷ objects) c =
      let r = log_trim backend c.store l oid v.epoch position true trim_full in
      let next = record c { store = r.1 } in
      elim r.0 [
        | ok done ↦ trim_objects v next_id objects next
        | err e ↦ after_trim v oid next e
        | fault ↦ (stop fault, next)
      ]

  unfoldable pub trim_stripe : VersionedView → Client S → Outcome MapTo.Step → Trims S
  unfolding trim_objects after_expanding try_expand_view
  trim_stripe v c fault = (stop fault, c)
  trim_stripe v c (err e) = (stop (err e), c)
  trim_stripe v c (ok step) = if step.done then (stop (ok tt), c) else elim step.objects [
    | none ↦
        after_expanding serialize options backend l newer none
          (try_expand_view serialize options backend l newer position c)
    | some objects ↦ trim_objects v step.stripe_id objects c
  ]

  unfoldable pub trim_look : VersionedView → Client S → Trims S
  unfolding advance_min_valid_position after_expanding trim_stripe map_range
  trim_look v c =
      if leb v.view.object_map.min_valid_position position
      then after_expanding serialize options backend l newer none
          (advance_min_valid_position serialize options backend l newer (add64 position 1) c)
      else trim_stripe v c (map_range v position 0 false)

  unfoldable pub trim_to_round : Range → Client S → Trims S
  unfolding trim_look trim_stripe map_range view_of
  trim_to_round none c = elim (view_of c) [ none ↦ (stop fault, c) | some v ↦ trim_look v c ]
  trim_to_round (some at) c = trim_stripe at.0 c (map_range at.0 position at.1 false)
