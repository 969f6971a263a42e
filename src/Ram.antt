-- ===== src/Ram.antt =====
-- src/storage/ram/ram.cc and src/include/zlog/backend/ram.h: the state of the in-memory backend,
-- and its operations on the objects that hold log entries. The lock makes each call atomic, but for
-- `CreateLog`, which takes it twice. A call returns its outcome and the next state; `boost::get` at
-- another kind of object throws an exception that nothing catches, a `fault`.
pub mod Head
pub mod Cells
pub mod Spec
pub mod Refinement
pub mod Order
pub mod Later
pub mod Calls
pub mod History
pub mod Lasting
pub mod Holding
pub mod Guarantees
pub mod Sealing
pub mod Views
pub mod Heads
pub mod Consensus
pub mod Bounds
pub mod Maximum
mod Tests
use zlog.Base.{
  ℕ, ◌+◌, ◌≤◌, max, Bool, true, false, ◌&&◌, ◌||◌, not, Option, none, some, List, [], ◌∷◌, Text,
  Outcome, ok, err, fault, einval, enoent, espipe, enodata, erange, erofs, ltb, leb, ◌==◌,
  if◌then◌else◌, is_empty, length, add64, u64_mod, ◌-◌,
}
use zlog.Base.Assoc.{Assoc, find, insert, number_key, text_key}
use zlog.Base.OrdMap.{OrdMap}

pub record LogEntry : Type 0 where
  pub trimmed : Bool
  pub invalidated : Bool
  pub content : Text

pub record LogObject : Type 0 where
  pub epoch : ℕ
  pub maxpos : ℕ
  pub entries : Assoc ℕ LogEntry
  pub trim_limit : Option ℕ

-- The head object of a log: its views by epoch.
pub record ProjectionObject : Type 0 where
  pub epoch : ℕ
  pub prefix : Text
  pub projections : OrdMap Text

pub data Object : Type 0 where
  link : Text → Object
  projection : ProjectionObject → Object
  log : LogObject → Object

pub record RamBackend : Type 0 where
  pub blackhole : Bool
  pub options : Assoc Text Text
  pub objects : Assoc Text Object
  -- The static counter of `uniqueId`.
  pub unique_id : ℕ

abbrev pub Effect : Type 0 → Type 0
Effect A = Outcome A × RamBackend

abbrev pub empty_log : LogObject
empty_log = record { epoch = 0; maxpos = 0; entries = []; trim_limit = none }

abbrev pub hole : LogEntry
hole = record { trimmed = true; invalidated = true; content = [] }

unfoldable pub find_object : RamBackend → Text → Option Object
unfolding find
find_object b oid = find oid b.objects

unfoldable pub put_object : RamBackend → Text → Object → RamBackend
unfolding insert
put_object b oid o = record b { objects = insert oid o b.objects }

unfoldable pub check_found : ℕ → Bool → Option Object → Outcome LogObject
check_found epoch eq none = err enoent
check_found epoch eq (some (link hoid)) = fault
check_found epoch eq (some (projection p)) = fault
check_found epoch eq (some (log o)) =
    if (if eq then not (epoch == o.epoch) else ltb epoch o.epoch) then err espipe else ok o

-- `CheckEpoch`.
unfoldable pub check_epoch : RamBackend → ℕ → Text → Bool → Outcome LogObject
unfolding find_object check_found
check_epoch b epoch oid eq = check_found epoch eq (find_object b oid)

unfoldable pub in_trim_range : LogObject → ℕ → Bool
in_trim_range o position = elim o.trim_limit [ none ↦ false | some limit ↦ leb position limit ]

unfoldable pub read_entry : Option LogEntry → Outcome Text
read_entry none = err erange
read_entry (some entry) =
    if entry.trimmed || entry.invalidated then err enodata else ok entry.content

-- The rest of `Read`, once the object is known.
unfoldable pub read_log : LogObject → ℕ → Outcome Text
unfolding in_trim_range read_entry find
read_log o position =
    if in_trim_range o position then err enodata else read_entry (find position o.entries)

unfoldable pub read : RamBackend → Text → ℕ → ℕ → Outcome Text
unfolding check_epoch read_log
read b oid epoch position =
    if is_empty oid
    then err einval
    else if epoch == 0
    then err einval
    else elim (check_epoch b epoch oid false) [
      | ok o ↦ read_log o position
      | err e ↦ err e
      | fault ↦ fault
    ]

-- An operation on a log object returns its outcome and the object as it leaves it.
abbrev pub LogEffect : Type 0
LogEffect = Outcome (Unit {0}) × LogObject

unfoldable pub add_entry : LogObject → ℕ → LogEntry → LogObject
unfolding insert
add_entry o position entry = record o {
  entries = insert position entry o.entries;
  maxpos = max o.maxpos position;
}

unfoldable pub write_entry : Bool → LogObject → Text → ℕ → Option LogEntry → LogEffect
unfolding add_entry
write_entry blackhole o content position none = (
  ok tt,
  add_entry o position (record {
    trimmed = false;
    invalidated = false;
    content = if blackhole then [] else content;
  }),
)
write_entry blackhole o content position (some entry) = (err erofs, o)

unfoldable pub write_log : Bool → LogObject → Text → ℕ → LogEffect
unfolding in_trim_range write_entry find
write_log blackhole o content position =
    if in_trim_range o position
    then (err erofs, o)
    else write_entry blackhole o content position (find position o.entries)

unfoldable pub fill_entry : LogObject → ℕ → Option LogEntry → LogEffect
unfolding add_entry
fill_entry o position none = (ok tt, add_entry o position hole)
fill_entry o position (some entry) =
    if entry.trimmed || entry.invalidated then (ok tt, o) else (err erofs, o)

unfoldable pub fill_log : LogObject → ℕ → LogEffect
unfolding in_trim_range fill_entry find
fill_log o position =
    if in_trim_range o position then (ok tt, o) else fill_entry o position (find position o.entries)

unfoldable pub raise_trim_limit : LogObject → ℕ → LogObject
raise_trim_limit o position = record o {
  trim_limit = elim o.trim_limit [ none ↦ some position | some limit ↦ some (max position limit) ];
}

unfoldable pub trim_entry : LogObject → ℕ → Option LogEntry → LogEffect
unfolding add_entry
trim_entry o position none = (ok tt, add_entry o position hole)
trim_entry o position (some entry) =
    (ok tt, add_entry o position (record entry { trimmed = true; content = [] }))

unfoldable pub trim_log : LogObject → ℕ → Bool → Bool → LogEffect
unfolding in_trim_range raise_trim_limit trim_entry find
trim_log o position trim_limit trim_full =
    let limited = if trim_limit then raise_trim_limit o position else o in
    if trim_full
    then (ok tt, record limited { entries = [] })
    else if in_trim_range limited position
    then (ok tt, limited)
    else if trim_limit || trim_full
    then (fault, limited)
    else trim_entry limited position (find position limited.entries)

-- What the operations on entries share: the arguments and the epoch are checked first.
unfoldable pub on_log : RamBackend → Text → ℕ → (LogObject → LogEffect) → Effect (Unit {0})
unfolding check_epoch put_object
on_log b oid epoch f =
    if is_empty oid
    then (err einval, b)
    else if epoch == 0
    then (err einval, b)
    else elim (check_epoch b epoch oid false) [
      | ok o ↦ ((f o).0, put_object b oid (log (f o).1))
      | err e ↦ (err e, b)
      | fault ↦ (fault, b)
    ]

unfoldable pub write : RamBackend → Text → Text → ℕ → ℕ → Effect (Unit {0})
unfolding on_log write_log
write b oid content epoch position =
    on_log b oid epoch (λ o. write_log b.blackhole o content position)

unfoldable pub fill : RamBackend → Text → ℕ → ℕ → Effect (Unit {0})
unfolding on_log fill_log
fill b oid epoch position = on_log b oid epoch (λ o. fill_log o position)

unfoldable pub trim : RamBackend → Text → ℕ → ℕ → Bool → Bool → Effect (Unit {0})
unfolding on_log trim_log
trim b oid epoch position trim_limit trim_full =
    if trim_full && not trim_limit
    then (err einval, b)
    else on_log b oid epoch (λ o. trim_log o position trim_limit trim_full)

unfoldable pub seal_object : RamBackend → Text → ℕ → Option Object → Effect (Unit {0})
unfolding put_object
seal_object b oid epoch none = (ok tt, put_object b oid (log (record empty_log { epoch = epoch })))
seal_object b oid epoch (some (log o)) =
    if leb epoch o.epoch
    then (err espipe, b)
    else (ok tt, put_object b oid (log (record o { epoch = epoch })))
seal_object b oid epoch (some _) = (fault, b)

unfoldable pub seal : RamBackend → Text → ℕ → Effect (Unit {0})
unfolding seal_object find_object
seal b oid epoch =
    if is_empty oid
    then (err einval, b)
    else if epoch == 0
    then (err einval, b)
    else seal_object b oid epoch (find_object b oid)

-- The maximum position of an object, none if it is empty.
unfoldable pub max_pos_log : LogObject → Option ℕ
max_pos_log o =
    if is_empty o.entries
    then o.trim_limit
    else elim o.trim_limit [ none ↦ some o.maxpos | some limit ↦ some (max o.maxpos limit) ]

unfoldable pub max_pos_found : Option Object → Outcome (Option ℕ)
unfolding max_pos_log
max_pos_found none = err enoent
max_pos_found (some (log o)) = ok (max_pos_log o)
max_pos_found (some _) = fault

unfoldable pub max_pos : RamBackend → Text → Outcome (Option ℕ)
unfolding max_pos_found find_object
max_pos b oid = if is_empty oid then err einval else max_pos_found (find_object b oid)

unfoldable pub size_of : Assoc ℕ LogEntry → ℕ
size_of [] = 0
size_of ((position, entry) ∷ rest) = add64 (length entry.content) (size_of rest)

unfoldable pub stat : RamBackend → Text → Outcome ℕ
unfolding check_epoch size_of
stat b oid = if is_empty oid then err einval else elim (check_epoch b (u64_mod - 1) oid false) [
  | ok o ↦ ok (size_of o.entries)
  | err e ↦ err e
  | fault ↦ fault
]
