-- ===== src/OpQueue.antt =====
-- The queue of operations of src/libzlog/log_impl.cc: `queue_op` and `finisher_entry_`, split where
-- they hold or release the lock. An operation is a number. What an operation runs, its callback and
-- the number of finisher threads, with the end of an idle one at shutdown, are left out.
pub mod Admission
mod Tests
use zlog.Base.{
  ℕ, zero, suc, ◌-◌, Bool, true, false, Option, none, some, List, [], ◌∷◌, ◌++◌, leb, ltb, add32,
  if◌then◌else◌,
}

-- `queue_op_waiters_` from its back, the oldest, to its front: whether each was released, and its
-- operation. `running` holds the operations that finishers took, each with `do_shutdown`.
pub record OpQueue : Type 0 where
  pub max_inflight_ops : ℕ
  pub num_inflight_ops : ℕ
  pub queue_op_waiters : List (Bool × ℕ)
  pub pending_ops : List ℕ
  pub running : List (ℕ × Bool)
  pub shutdown : Bool

-- The end of `queue_op`.
unfoldable pub admit : OpQueue → ℕ → OpQueue
admit q op = record q {
  num_inflight_ops = add32 q.num_inflight_ops 1;
  pending_ops = q.pending_ops ++ op ∷ [];
}

-- `queue_op` until it returns or waits.
unfoldable pub queue_op : OpQueue → ℕ → OpQueue
unfolding admit
queue_op q op =
    if leb q.max_inflight_ops q.num_inflight_ops
    then record q { queue_op_waiters = q.queue_op_waiters ++ (false, op) ∷ [] }
    else admit q op

-- The waiters up to the first that was released, which wakes.
unfoldable pub take_released : List (Bool × ℕ) → Option (ℕ × List (Bool × ℕ))
take_released [] = none
take_released ((true, op) ∷ waiters) = some (op, waiters)
take_released ((false, op) ∷ waiters) = elim (take_released waiters) [
  | none ↦ none
  | some r ↦ some (r.0, (false, op) ∷ r.1)
]

-- A waiter of `queue_op` wakes.
unfoldable pub wake : OpQueue → Option OpQueue
unfolding take_released admit
wake q = elim (take_released q.queue_op_waiters) [
  | none ↦ none
  | some r ↦ some (admit (record q { queue_op_waiters = r.1 }) r.0)
]

-- A finisher takes the oldest operation, and with it `do_shutdown`.
unfoldable pub take_op : OpQueue → Option OpQueue
take_op q = elim q.pending_ops [
  | [] ↦ none
  | op ∷ ops ↦ some (record q { pending_ops = ops; running = q.running ++ (op, q.shutdown) ∷ [] })
]

-- `back().first = true`, if there is a waiter.
unfoldable pub release : List (Bool × ℕ) → List (Bool × ℕ)
release [] = []
release ((_, op) ∷ waiters) = (true, op) ∷ waiters

unfoldable pub remove_at : {A : Type 0} → ℕ → List A → Option (List A)
remove_at n [] = none
remove_at zero (_ ∷ xs) = some xs
remove_at (suc n) (x ∷ xs) = elim (remove_at n xs) [ none ↦ none | some r ↦ some (x ∷ r) ]

-- The running operation at an index ends, whichever finisher ran it. A failed assertion is no step.
unfoldable pub finish_op : OpQueue → ℕ → Option OpQueue
unfolding release remove_at
finish_op q n = elim (remove_at n q.running) [
  | none ↦ none
  | some running ↦
      if ltb 0 q.num_inflight_ops
      then some (record q {
        running = running;
        num_inflight_ops = q.num_inflight_ops - 1;
        queue_op_waiters = release q.queue_op_waiters;
      })
      else none
]

-- What holds the lock next: a client that queues an operation, a released waiter, a finisher that
-- takes an operation or ends one, or the destructor.
pub data Event : Type 0 where
  queues : ℕ → Event
  wakes : Event
  takes : Event
  finishes : ℕ → Event
  shuts_down : Event

unfoldable pub step : OpQueue → Event → Option OpQueue
unfolding queue_op wake take_op finish_op
step q (queues op) = some (queue_op q op)
step q wakes = wake q
step q takes = take_op q
step q (finishes n) = finish_op q n
step q shuts_down = some (record q { shutdown = true })

unfoldable pub run : OpQueue → List Event → Option OpQueue
unfolding step
run q [] = some q
run q (e ∷ es) = elim (step q e) [ none ↦ none | some next ↦ run next es ]

abbrev pub start : ℕ → OpQueue
start max_inflight_ops = record {
  max_inflight_ops = max_inflight_ops;
  num_inflight_ops = 0;
  queue_op_waiters = [];
  pending_ops = [];
  running = [];
  shutdown = false;
}
