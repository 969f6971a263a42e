-- ===== src/ViewReader.antt =====
-- src/libzlog/view_reader.cc: the latest view that a client knows, and the threads that wait for a
-- newer one. The times after which the refresh thread looks again are left out.
pub mod Served
pub mod Refresh
mod Tests
use zlog.Base.{
  ℕ, Bool, false, ◌&&◌, not, Option, none, some, List, [], ◌∷◌, ◌++◌, map, Text, Outcome, ok, err,
  fault, assert, ◌>>=◌, ◌>>◌, ltb, ◌==◌, if◌then◌else◌, text_eq,
}
use zlog.Base.OrdMap.{OrdMap, last}
use zlog.ObjectMap.{is_some}
use zlog.View.{ViewTable, VersionedView, Sequencer, SequencerConfig, versioned_view}
use zlog.LogBackend.{Backend, LogBackend, log_read_views}

-- A thread that waits for a view newer than an epoch.
pub record RefreshWaiter : Type 0 where
  pub thread : ℕ
  pub epoch : ℕ

pub record ViewReader : Type 0 where
  pub shutdown : Bool
  pub view : Option VersionedView
  pub refresh_waiters : List RefreshWaiter

unfoldable pub is_ours : LogBackend → SequencerConfig → Bool
is_ours l config = text_eq config.token l.token

-- Whether the view before has the sequencer that this configuration started.
unfoldable pub same_sequencer : LogBackend → Option VersionedView → SequencerConfig → Bool
unfolding is_ours
same_sequencer l none config = false
same_sequencer l (some v) config = elim v.view.seq_config [
  | none ↦ false
  | some old ↦ is_ours l old && (old.epoch == config.epoch)
]

unfoldable pub reuse : Option VersionedView → Outcome (Option Sequencer)
reuse none = fault
reuse (some v) = assert (is_some v.seq) >> ok v.seq

-- The sequencer of the latest view, if it is this client.
unfoldable pub sequencer_for :
    LogBackend → Option VersionedView → VersionedView → Outcome (Option Sequencer)
unfolding is_ours same_sequencer reuse
sequencer_for l before latest = elim latest.view.seq_config [
  | none ↦ ok none
  | some config ↦
      if not (is_ours l config)
      then ok none
      else if same_sequencer l before config
      then reuse before
      else ok (some (record { epoch = latest.epoch; position = config.position }))
]

unfoldable pub set_view : LogBackend → ViewReader → VersionedView → Outcome ViewReader
unfolding sequencer_for
set_view l r latest = sequencer_for l r.view latest >>= λ seq.
    ok (record r { view = some (record latest { seq = seq }) })

-- The part of `refresh_view` under the lock.
unfoldable pub install : LogBackend → ViewReader → VersionedView → Outcome ViewReader
unfolding set_view
install l r latest = elim r.view [
  | none ↦ set_view l r latest
  | some v ↦
      if ltb latest.epoch v.epoch
      then fault
      else if latest.epoch == v.epoch
      then ok r
      else set_view l r latest
]

-- `wait_for_newer_view` until it waits.
unfoldable pub wait_for_newer_view : ViewReader → ℕ → ℕ → ViewReader
wait_for_newer_view r thread epoch = if r.shutdown then r else record r {
  refresh_waiters = r.refresh_waiters ++ record { thread = thread; epoch = epoch } ∷ [];
}

-- The waiters that a view with this epoch wakes, and those that go on waiting.
unfoldable pub wake_waiters : ℕ → List RefreshWaiter → List ℕ × List RefreshWaiter
wake_waiters epoch [] = ([], [])
wake_waiters epoch (w ∷ ws) =
    let rest = wake_waiters epoch ws in
    if ltb w.epoch epoch then (w.thread ∷ rest.0, rest.1) else (rest.0, w ∷ rest.1)

unfoldable pub notify : ViewReader → List ℕ × ViewReader
unfolding wake_waiters
notify r = elim r.view [
  | none ↦ ([], r)
  | some v ↦
      let woken = wake_waiters v.epoch r.refresh_waiters in
      (woken.0, record r { refresh_waiters = woken.1 })
]

module _ (parse : Text → Option ViewTable) {S : Type 0} (backend : Backend S) (l : LogBackend) where
  unfoldable pub latest_of : Outcome (OrdMap Text) → Outcome (Option VersionedView)
  unfolding versioned_view
  latest_of fault = fault
  latest_of (err e) = ok none
  latest_of (ok views) = elim (last views) [
    | none ↦ ok none
    | some e ↦ versioned_view parse e.0 e.1 >>= λ v. ok (some v)
  ]

  unfoldable pub get_latest_view : S → Outcome (Option VersionedView)
  unfolding latest_of log_read_views
  get_latest_view s = latest_of (log_read_views backend s l 0 1)

  unfoldable pub refresh_view : S → ViewReader → Outcome ViewReader
  unfolding get_latest_view install
  refresh_view s r = get_latest_view s >>= λ latest. elim latest [
    | none ↦ ok r
    | some v ↦ assert (not (is_some v.seq)) >> install l r v
  ]

  -- A round of `refresh_entry_` once its wait is over: the threads that are woken, and the reader.
  unfoldable pub refresh_entry : S → ViewReader → Outcome (List ℕ × ViewReader)
  unfolding refresh_view notify
  refresh_entry s r =
      if r.shutdown
      then ok (map (λ w. w.thread) r.refresh_waiters, record r { refresh_waiters = [] })
      else refresh_view s r >>= λ next. ok (notify next)
