-- ===== src/OpQueue/Tests.antt =====
-- A queue that lets one operation in.
use zlog.Base.{◌≡◌, ◌≤◌, ◌+◌, some, List, [], ◌∷◌, refl, false, length, arith}
use zlog.OpQueue.{OpQueue, Event, queues, wakes, takes, finishes, start, run}
use zlog.OpQueue.Admission.{num_inflight_ops_lem}

-- A second operation waits until the first ends; a third comes before the second wakes.
abbrev overtaken : List Event
overtaken = queues 7 ∷ queues 8 ∷ takes ∷ finishes 0 ∷ queues 9 ∷ wakes ∷ []

abbrev crowded : OpQueue
crowded = record {
  max_inflight_ops = 1;
  num_inflight_ops = 2;
  queue_op_waiters = [];
  pending_ops = 9 ∷ 8 ∷ [];
  running = [];
  shutdown = false;
}

-- Two operations are in flight, where `max_inflight_ops` is one.
overtaken-crowded : run (start 1) overtaken ≡ some crowded
unfolding run
overtaken-crowded = refl

num_inflight_ops_lem_example :
    (crowded.num_inflight_ops ≤ 2)
    × (crowded.num_inflight_ops ≡ length crowded.pending_ops + length crowded.running)
num_inflight_ops_lem_example =
    num_inflight_ops_lem 1 overtaken crowded (omega arith) overtaken-crowded
