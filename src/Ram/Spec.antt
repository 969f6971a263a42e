-- ===== src/Ram/Spec.antt =====
-- What the operations on log objects promise: a specification over write-once cells.
use zlog.Base.{
  ℕ, max, Bool, true, false, Option, none, some, [], Text, Outcome, ok, err, fault, einval, enoent,
  espipe, ltb, leb, ◌==◌, if◌then◌else◌,
}
use zlog.Ram.{
  RamBackend, Effect, Object, link, projection, log, find_object, write, fill, trim, seal,
}
use zlog.Ram.Cells.{Cell, unwritten, invalid, cell, write_cell, fill_cell}

-- The calls that change a log object.
pub data LogCall : Type 0 where
  writes : Text → ℕ → ℕ → LogCall
  fills : ℕ → ℕ → LogCall
  trims : ℕ → ℕ → Bool → Bool → LogCall
  seals : ℕ → LogCall

unfoldable pub run_log_call : RamBackend → Text → LogCall → Effect (Unit {0})
run_log_call b oid (writes content epoch position) = write b oid content epoch position
run_log_call b oid (fills epoch position) = fill b oid epoch position
run_log_call b oid (trims epoch position limit full) = trim b oid epoch position limit full
run_log_call b oid (seals epoch) = seal b oid epoch

-- An object as a client sees it: its epoch, its trim limit and its cells. A name may also belong to
-- an object of another kind.
pub data View : Type 0 where
  absent : View
  foreign : View
  object : ℕ → Option ℕ → (ℕ → Cell) → View

abbrev pub view_object : Option Object → View
view_object none = absent
view_object (some (link hoid)) = foreign
view_object (some (projection p)) = foreign
view_object (some (log o)) = object o.epoch o.trim_limit (cell o)

unfoldable pub view : RamBackend → Text → View
view b oid = view_object (find_object b oid)

abbrev pub set_cell : (ℕ → Cell) → ℕ → Cell → ℕ → Cell
set_cell cells p c q = if p == q then c else cells q

abbrev pub below_limit : Option ℕ → ℕ → Bool
below_limit none q = false
below_limit (some limit) q = leb q limit

abbrev pub raise_limit : Option ℕ → ℕ → Option ℕ
raise_limit none p = some p
raise_limit (some limit) p = some (max p limit)

-- A call with an epoch that is too old, or none, changes nothing.
abbrev pub guarded :
    ℕ → View → (ℕ → Option ℕ → (ℕ → Cell) → Outcome (Unit {0}) × View) → Outcome (Unit {0}) × View
guarded epoch absent f = (if epoch == 0 then err einval else err enoent, absent)
guarded epoch foreign f = (if epoch == 0 then err einval else fault, foreign)
guarded epoch (object e limit cells) f =
    if epoch == 0
    then (err einval, object e limit cells)
    else if ltb epoch e
    then (err espipe, object e limit cells)
    else f e limit cells

abbrev pub spec_seal : ℕ → View → Outcome (Unit {0}) × View
spec_seal epoch absent =
    if epoch == 0 then (err einval, absent) else (ok tt, object epoch none (λ q. unwritten))
spec_seal epoch foreign = (if epoch == 0 then err einval else fault, foreign)
spec_seal epoch (object e limit cells) =
    if epoch == 0
    then (err einval, object e limit cells)
    else if leb epoch e
    then (err espipe, object e limit cells)
    else (ok tt, object epoch limit cells)

abbrev pub trim_cells : Bool → Option ℕ → (ℕ → Cell) → ℕ → Cell
trim_cells true limit cells q = if below_limit limit q then invalid else unwritten
trim_cells false limit cells q = if below_limit limit q then invalid else cells q

abbrev pub spec : Bool → LogCall → View → Outcome (Unit {0}) × View
spec blackhole (writes content epoch p) v = guarded epoch v (λ e limit cells. (
  (write_cell content (cells p)).0,
  object e limit (set_cell cells p (write_cell (if blackhole then [] else content) (cells p)).1),
))
spec blackhole (fills epoch p) v = guarded epoch v (λ e limit cells.
    ((fill_cell (cells p)).0, object e limit (set_cell cells p (fill_cell (cells p)).1)))
spec blackhole (trims epoch p true full) v = guarded epoch v (λ e limit cells.
    (ok tt, object e (raise_limit limit p) (trim_cells full (raise_limit limit p) cells)))
spec blackhole (trims epoch p false true) v = (err einval, v)
spec blackhole (trims epoch p false false) v =
    guarded epoch v (λ e limit cells. (ok tt, object e limit (set_cell cells p invalid)))
spec blackhole (seals epoch) v = spec_seal epoch v
