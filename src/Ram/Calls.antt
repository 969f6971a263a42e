-- ===== src/Ram/Calls.antt =====
-- Sequences of calls on the in-memory backend of src/storage/ram/ram.cc.
use zlog.Base.{
  ℕ, ◌≡◌, refl, true, false, Option, none, some, List, [], ◌∷◌, Text, Outcome, ok, err, fault,
  is_empty, text_eq, arith,
}
use zlog.Ram.{
  RamBackend, Object, link, projection, log, LogObject, LogEffect, find_object, put_object, on_log,
  check_epoch, write, fill, trim, seal, empty_log,
}
use zlog.Ram.Head.{create_head, create_link, propose_view, next_unique_id}
use zlog.Ram.Refinement.{find_object-put_object}
use zlog.Ram.Spec.{LogCall, writes, fills, trims, seals, run_log_call, view}
use zlog.Ram.Order.{Within}

-- What the calls that change the backend do under its lock. `CreateLog` takes the lock twice, and
-- calls of others may come between.
pub data Call : Type 0 where
  calls : Text → LogCall → Call
  creates : Text → Text → Call
  links : Text → Text → Text → Call
  proposes : Text → ℕ → Text → Call
  draws : Text → Call

unfoldable pub step : RamBackend → Call → RamBackend
unfolding run_log_call create_head create_link propose_view next_unique_id
step b (calls oid call) = (run_log_call b oid call).1
step b (creates view key) = (create_head b view key).1
step b (links name hoid prefix) = (create_link b name hoid prefix).1
step b (proposes hoid epoch view) = (propose_view b hoid epoch view).1
step b (draws hoid) = (next_unique_id b hoid).1

unfoldable pub run : RamBackend → List Call → RamBackend
unfolding step
run b [] = b
run b (call ∷ rest) = run (step b call) rest

-- Each client uses an object up to its last position.
abbrev pub KeepsTo : (Text → ℕ) → List Call → Type 0
KeepsTo cap [] = Unit
KeepsTo cap (calls oid call ∷ rest) = Within (cap oid) call × KeepsTo cap rest
KeepsTo cap (creates view key ∷ rest) = KeepsTo cap rest
KeepsTo cap (links name hoid prefix ∷ rest) = KeepsTo cap rest
KeepsTo cap (proposes hoid epoch view ∷ rest) = KeepsTo cap rest
KeepsTo cap (draws hoid ∷ rest) = KeepsTo cap rest

-- What a call may do to another object: nothing.
module _ (b : RamBackend) (oid other : Text) (apart : text_eq oid other ≡ false) where
  pub find_object-put_object_other :
      (o : Object) → find_object (put_object b oid o) other ≡ find_object b other
  find_object-put_object_other o = rw (find_object-put_object b oid other o, apart) refl

  on_log_other :
      (epoch : ℕ) (f : LogObject → LogEffect)
      → find_object (on_log b oid epoch f).1 other ≡ find_object b other
  unfolding on_log
  on_log_other epoch f = go (check_epoch b epoch oid false) refl
    where
      go :
          (r : Outcome LogObject)
          → check_epoch b epoch oid false ≡ r
          → find_object (on_log b oid epoch f).1 other ≡ find_object b other
      go (ok o) e =
          unfold on_log in rw e (ground (arith, find_object-put_object_other (log (f o).1)))
      go (err x) e = unfold on_log in rw e (ground arith)
      go fault e = unfold on_log in rw e (ground arith)

  seal_other : (epoch : ℕ) → find_object (seal b oid epoch).1 other ≡ find_object b other
  seal_other epoch = go (find_object b oid) refl
    where
      go :
          (r : Option Object)
          → find_object b oid ≡ r
          → find_object (seal b oid epoch).1 other ≡ find_object b other
      go none e =
          unfold seal in
          rw e (
            ground (arith, find_object-put_object_other (log (record empty_log { epoch = epoch }))))
      go (some (link h)) e = unfold seal in rw e (ground arith)
      go (some (projection p)) e = unfold seal in rw e (ground arith)
      go (some (log o)) e =
          unfold seal in
          rw e (ground (arith, find_object-put_object_other (log (record o { epoch = epoch }))))

  -- A call on one object leaves every other object as it is.
  pub run_log_call_other :
      (call : LogCall) → find_object (run_log_call b oid call).1 other ≡ find_object b other
  unfolding run_log_call write fill trim
  run_log_call_other (writes content epoch p) = on_log_other epoch _
  run_log_call_other (fills epoch p) = on_log_other epoch _
  run_log_call_other (trims epoch p true true) = on_log_other epoch _
  run_log_call_other (trims epoch p true false) = on_log_other epoch _
  run_log_call_other (trims epoch p false true) = refl
  run_log_call_other (trims epoch p false false) = on_log_other epoch _
  run_log_call_other (seals epoch) = seal_other epoch

pub run_log_call_unnamed :
    (b : RamBackend) (oid : Text) (call : LogCall)
    → is_empty oid ≡ true
    → (run_log_call b oid call).1 ≡ b
unfolding run_log_call write fill trim on_log seal
run_log_call_unnamed b oid (writes content epoch p) h = rw h refl
run_log_call_unnamed b oid (fills epoch p) h = rw h refl
run_log_call_unnamed b oid (trims epoch p true true) h = rw h refl
run_log_call_unnamed b oid (trims epoch p true false) h = rw h refl
run_log_call_unnamed b oid (trims epoch p false true) h = refl
run_log_call_unnamed b oid (trims epoch p false false) h = rw h refl
run_log_call_unnamed b oid (seals epoch) h = rw h refl
