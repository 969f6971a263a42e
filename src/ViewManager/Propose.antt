-- ===== src/ViewManager/Propose.antt =====
-- The proposals of src/libzlog/view_manager.cc: `try_expand_view`, `advance_min_valid_position` and
-- `propose_sequencer`, with what the client and others do during a wait as a parameter.
use zlog.Base.{
  ℕ, zero, suc, Bool, true, false, Option, none, some, Text, Outcome, ok, err, fault, espipe,
  eshutdown, etimedout, eintr, ◌==◌, if◌then◌else◌, add64,
}
use zlog.Options.{Options}
use zlog.ObjectMap.{ObjectMap, empty, num_stripes, stripe_by_id}
use zlog.View.{
  View, ViewTable, VersionedView, SequencerConfig, encode_view, expand_view, advance_view,
  with_sequencer_config, same_config,
}
use zlog.LogBackend.{Backend, LogBackend, log_propose_view}
use zlog.ViewManager.{seal_stripe}
use zlog.ViewManager.Client.{Client, view_of, async_init_stripe}

abbrev pub Effect : Type 0 → Type 0 → Type 0
Effect S A = Outcome A × Client S

unfoldable pub sequencer_config : LogBackend → ℕ → Option ℕ → SequencerConfig
sequencer_config l epoch none = record { epoch = epoch; token = l.token; position = 0 }
sequencer_config l epoch (some max) = record {
  epoch = epoch;
  token = l.token;
  position = add64 max 1;
}

-- Whether another sequencer was not yet proposed, by the configurations before and after.
unfoldable pub worth_a_retry : Option SequencerConfig → Option SequencerConfig → Bool
unfolding same_config
worth_a_retry old none = true
worth_a_retry none (some new) = false
worth_a_retry (some old) (some new) = same_config new old

module _ {S : Type 0} (backend : Backend S) (l : LogBackend) where
  -- The loop over the stripes below an id, from the last: the maximum position of the first that is
  -- not empty.
  unfoldable pub find_max : S → ObjectMap → ℕ → ℕ → Outcome (Option ℕ) × S
  unfolding seal_stripe stripe_by_id
  find_max s om epoch zero = (ok none, s)
  find_max s om epoch (suc stripe_id) = elim (stripe_by_id om stripe_id) [
    | err e ↦ (err e, s)
    | fault ↦ (fault, s)
    | ok stripe ↦
        let r = seal_stripe backend l s stripe epoch in
        elim r.0 [
          | err e ↦ (err e, r.1)
          | fault ↦ (fault, r.1)
          | ok m ↦ elim m [ some k ↦ (ok (some k), r.1) | none ↦ find_max r.1 om epoch stripe_id ]
        ]
  ]

  -- The maximum position that is in use, none if the log is empty.
  unfoldable pub find_seed : Client S → VersionedView → Outcome (Option ℕ) × S
  unfolding find_max empty num_stripes
  find_seed c v =
      if empty v.view.object_map
      then (ok none, c.store)
      else if num_stripes v.view.object_map == 0
      then (fault, c.store)
      else find_max c.store v.view.object_map (add64 v.epoch 1) (num_stripes v.view.object_map)

-- `update_current_view`, with what happens until it returns: `newer epoch c` is the client when its
-- wait for a view newer than `epoch` is over.
module _ (serialize : ViewTable → Text) (options : Options) {S : Type 0} (backend : Backend S)
    (l : LogBackend) (newer : ℕ → Client S → Client S) where
  -- The proposal of a view as the next epoch: its outcome and the backend, unless an assertion fails.
  unfoldable pub propose : Client S → VersionedView → View → Outcome (Unit {0}) × S
  unfolding encode_view log_propose_view
  propose c v next = elim (encode_view serialize next) [
    | ok bytes ↦ log_propose_view backend c.store l (add64 v.epoch 1) bytes
    | err e ↦ (err e, c.store)
    | fault ↦ (fault, c.store)
  ]

  -- The end of a round of `try_expand_view`, with the retries left and the next round.
  unfoldable pub after_expand :
      ℕ
      → ℕ
      → (Client S → Effect S (Unit {0}))
      → Client S
      → VersionedView
      → Outcome (Unit {0})
      → Effect S (Unit {0})
  unfolding async_init_stripe
  after_expand position left again c v (ok done) =
      let next = newer v.epoch c in
      (ok tt, if options.init_stripe_on_create then async_init_stripe next position else next)
  after_expand position left again c v (err espipe) =
      let next = newer v.epoch c in
      elim left [
        | zero ↦ (ok tt, next)
        | suc k ↦ elim next.shutdown [ true ↦ (err eshutdown, next) | false ↦ again next ]
      ]
  after_expand position left again c v (err e) = (err e, c)
  after_expand position left again c v fault = (fault, c)

  unfoldable pub expand_to :
      ℕ
      → ℕ
      → (Client S → Effect S (Unit {0}))
      → Client S
      → VersionedView
      → Outcome (Option View)
      → Effect S (Unit {0})
  unfolding after_expand propose
  expand_to position left again c v (ok none) = (ok tt, c)
  expand_to position left again c v (ok (some next)) =
      let r = propose c v next in after_expand position left again (record c { store = r.1 }) v r.0
  expand_to position left again c v (err e) = (err e, c)
  expand_to position left again c v fault = (fault, c)

  -- The loop of `try_expand_view`, at most as often as said.
  unfoldable pub expand_tries : ℕ → ℕ → Client S → Effect S (Unit {0})
  unfolding expand_to expand_view view_of
  expand_tries zero position c = (ok tt, c)
  expand_tries (suc left) position c = elim (view_of c) [
    | none ↦ (fault, c)
    | some v ↦
        expand_to position left (expand_tries left position) c v
          (expand_view v.view position options)
  ]

  unfoldable pub try_expand_view : ℕ → Client S → Effect S (Unit {0})
  unfolding expand_tries
  try_expand_view position c = expand_tries 7 position c

  unfoldable pub advance_to : Client S → VersionedView → Outcome (Option View) → Effect S (Unit {0})
  unfolding propose
  advance_to c v (ok none) = (ok tt, c)
  advance_to c v (ok (some next)) =
      let r = propose c v next in
      elim r.0 [
        | ok done ↦ (ok tt, newer v.epoch (record c { store = r.1 }))
        | err e ↦ elim e [
          | espipe ↦ (ok tt, newer v.epoch (record c { store = r.1 }))
          | other ↦ (err other, record c { store = r.1 })
        ]
        | fault ↦ (fault, record c { store = r.1 })
      ]
  advance_to c v (err e) = (err e, c)
  advance_to c v fault = (fault, c)

  unfoldable pub advance_min_valid_position : ℕ → Client S → Effect S (Unit {0})
  unfolding advance_to advance_view view_of
  advance_min_valid_position position c = elim (view_of c) [
    | none ↦ (fault, c)
    | some v ↦ advance_to c v (advance_view v.view position)
  ]

  unfoldable pub after_propose :
      ℕ
      → (Client S → Effect S (Unit {0}))
      → Client S
      → VersionedView
      → Outcome (Unit {0})
      → Effect S (Unit {0})
  unfolding worth_a_retry view_of
  after_propose left again c v (ok done) = (ok tt, newer v.epoch c)
  after_propose left again c v (err espipe) =
      let next = newer v.epoch c in
      elim (view_of next) [
        | none ↦ (fault, next)
        | some updated ↦ elim (worth_a_retry v.view.seq_config updated.view.seq_config) [
          | false ↦ (err eintr, next)
          | true ↦ elim left [ zero ↦ (err etimedout, next) | suc k ↦ again next ]
        ]
      ]
  after_propose left again c v (err e) = (err e, c)
  after_propose left again c v fault = (fault, c)

  unfoldable pub propose_from :
      ℕ
      → (Client S → Effect S (Unit {0}))
      → Client S
      → VersionedView
      → Outcome (Option ℕ)
      → Effect S (Unit {0})
  unfolding after_propose propose sequencer_config with_sequencer_config
  propose_from left again c v (ok max) =
      let config = sequencer_config l (add64 v.epoch 1) max in
      let r = propose c v (with_sequencer_config v.view config) in
      after_propose left again (record c { store = r.1 }) v r.0
  propose_from left again c v (err e) = (err e, c)
  propose_from left again c v fault = (fault, c)

  -- The loop of `propose_sequencer`, at most as often as said.
  unfoldable pub propose_tries : ℕ → Client S → Effect S (Unit {0})
  unfolding propose_from find_seed view_of
  propose_tries zero c = (err etimedout, c)
  propose_tries (suc left) c = elim (view_of c) [
    | none ↦ (fault, c)
    | some v ↦
        let seed = find_seed backend l c v in
        propose_from left (propose_tries left) (record c { store = seed.1 }) v seed.0
  ]

  unfoldable pub propose_sequencer : Client S → Effect S (Unit {0})
  unfolding propose_tries
  propose_sequencer c = propose_tries 5 c
