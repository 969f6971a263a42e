-- ===== src/LogOps.antt =====
-- The operations of src/libzlog/log_impl.cc, as a finisher runs them: each is a loop over rounds
-- that begin with a look at the client's view.
pub mod Append
pub mod Seen
pub mod Stored
pub mod Stays
pub mod Ready
pub mod Quiet
pub mod TrimTo
pub mod Endless
mod Tests
use zlog.Base.{
  ℕ, zero, suc, Bool, true, false, not, Option, none, some, List, [], ◌∷◌, Text, Outcome, ok, err,
  fault, Errno, enoent, eio, espipe, erange, erofs, assert, ◌>>◌, ltb, leb, ◌==◌, if◌then◌else◌,
  add64,
}
use zlog.Options.{Options}
use zlog.ObjectMap.MapTo
use zlog.View.{ViewTable, VersionedView, Sequencer, check_tail}
use zlog.LogBackend.{Backend, LogBackend, log_read, log_write, log_fill, log_trim, log_seal}
use zlog.ViewManager.Client.{Client, view_of, map, map_range}
use zlog.ViewManager.Propose.{Effect, try_expand_view, advance_min_valid_position}

-- A round returns from the operation, or leaves the next round its state.
pub data Round (X A : Type 0) : Type 0 where
  stop : Outcome A → Round X A
  go_on : X → Round X A

-- The rounds of a loop, none if the fuel is too little. `others` is what the other threads of the
-- client, and other clients, do before a round.
module _ {S X A : Type 0} (others : Client S → Client S)
    (round : X → Client S → Round X A × Client S) where
  unfoldable pub after_round :
      (X → Client S → Option (Outcome A × Client S))
      → Round X A × Client S
      → Option (Outcome A × Client S)
  after_round more (stop r, c) = some (r, c)
  after_round more (go_on x, c) = more x c

  unfoldable pub rounds : ℕ → X → Client S → Option (Outcome A × Client S)
  unfolding after_round
  rounds zero x c = none
  rounds (suc fuel) x c = after_round (rounds fuel) (round x (others c))

-- The sequencer has moved: the client's view sees it if it is still this one, which it is if it started
-- at the same epoch.
unfoldable pub move_sequencer : {S : Type 0} → Client S → Sequencer → Client S
unfolding view_of
move_sequencer c seq = elim (view_of c) [
  | none ↦ c
  | some v ↦ elim v.seq [
    | none ↦ c
    | some current ↦
        if current.epoch == seq.epoch
        then record c {
          view_reader = record (c.view_reader) { view = some (record v { seq = some seq }) };
        }
        else c
  ]
]

-- What happens between a thread's look at the view and its call of the sequencer that it found there:
-- the sequencer may move, and the view may be replaced.
abbrev pub Meanwhile : Type 0 → Type 0
Meanwhile S = Sequencer → Client S → Sequencer × Client S

-- A look at the view, and the position that its sequencer hands out afterwards.
unfoldable pub take_tail :
    {S : Type 0}
    → Meanwhile S
    → Client S
    → Bool
    → Outcome (VersionedView × Sequencer × ℕ × Client S)
unfolding view_of check_tail move_sequencer
take_tail meanwhile c increment = elim (view_of c) [
  | none ↦ fault
  | some v ↦ elim v.seq [
    | none ↦ err eio
    | some seq ↦
        let m = meanwhile seq c in
        let r = check_tail m.0 increment in ok (v, m.0, r.0, move_sequencer m.1 r.1)
  ]
]

-- `TailOp::run`.
unfoldable pub run_tail : {S : Type 0} → Meanwhile S → Client S → Bool → Effect S ℕ
unfolding take_tail
run_tail meanwhile c increment = elim (take_tail meanwhile c increment) [
  | ok r ↦ (ok r.2, r.3)
  | err e ↦ (err e, c)
  | fault ↦ (fault, c)
]

module _ (serialize : ViewTable → Text) (options : Options) {S : Type 0} (backend : Backend S)
    (l : LogBackend) (newer : ℕ → Client S → Client S) where
  module _ {X A : Type 0} (x : X) where
    -- After `try_expand_view` the view is looked at again.
    unfoldable pub after_expanding : Effect S (Unit {0}) → Round X A × Client S
    after_expanding (ok done, c) = (go_on x, c)
    after_expanding (err e, c) = (stop (err e), c)
    after_expanding (fault, c) = (stop fault, c)

    -- After a call on an object that is not there yet, which is then sealed.
    unfoldable pub after_init : Client S → Outcome (Unit {0}) × S → Round X A × Client S
    after_init c (ok done, s) = (go_on x, record c { store = s })
    after_init c (err espipe, s) = (go_on x, record c { store = s })
    after_init c (err e, s) = (stop (err e), record c { store = s })
    after_init c (fault, s) = (stop fault, record c { store = s })

  -- An operation on one position: its call on an object, and what -ERANGE is reported as.
  module _ {A : Type 0} (call : S → Text → ℕ → Outcome A × S) (unwritten : Errno) where
    -- What a call on an object of a view returned.
    unfoldable pub after_call :
        VersionedView → Text → Client S → Outcome A → Round (Unit {0}) A × Client S
    unfolding after_init log_seal
    after_call v oid c (ok a) = (stop (ok a), c)
    after_call v oid c (err espipe) = (go_on tt, newer v.epoch c)
    after_call v oid c (err erange) = (stop (err unwritten), c)
    after_call v oid c (err enoent) = after_init tt c (log_seal backend c.store l oid v.epoch)
    after_call v oid c (err e) = (stop (err e), c)
    after_call v oid c fault = (stop fault, c)

    unfoldable pub on_mapped :
        ℕ → VersionedView → Outcome (Option Text) × Client S → Round (Unit {0}) A × Client S
    unfolding after_call after_expanding try_expand_view
    on_mapped position v (ok (some oid), c) =
        let r = call c.store oid v.epoch in after_call v oid (record c { store = r.1 }) r.0
    on_mapped position v (ok none, c) =
        after_expanding tt (try_expand_view serialize options backend l newer position c)
    on_mapped position v (err e, c) = (stop (err e), c)
    on_mapped position v (fault, c) = (stop fault, c)

    unfoldable pub position_round : ℕ → Unit {0} → Client S → Round (Unit {0}) A × Client S
    unfolding on_mapped map view_of
    position_round position x c = elim (view_of c) [
      | none ↦ (stop fault, c)
      | some v ↦ on_mapped position v (map c v position)
    ]

  -- A round of `ReadOp::run`, of `FillOp::run` and of `TrimOp::run`.
  unfoldable pub read_round : ℕ → Unit {0} → Client S → Round (Unit {0}) Text × Client S
  unfolding position_round log_read
  read_round position =
      position_round (λ s oid epoch. (log_read backend s l oid epoch position, s)) enoent position

  unfoldable pub fill_round : ℕ → Unit {0} → Client S → Round (Unit {0}) (Unit {0}) × Client S
  unfolding position_round log_fill
  fill_round position =
      position_round (λ s oid epoch. log_fill backend s l oid epoch position) erange position

  unfoldable pub trim_round : ℕ → Unit {0} → Client S → Round (Unit {0}) (Unit {0}) × Client S
  unfolding position_round log_trim
  trim_round position =
      position_round (λ s oid epoch. log_trim backend s l oid epoch position false false) erange
        position
