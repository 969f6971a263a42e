-- ===== src/Ram/Head.antt =====
-- The operations of src/storage/ram/ram.cc on head objects and links: logs and their views.
use zlog.Base.{
  ℕ, zero, suc, Bool, true, false, ◌&&◌, ◌||◌, not, Option, none, some, List, [], ◌∷◌, ◌++◌, Text,
  codes, Outcome, ok, err, fault, assert, ◌>>=◌, ◌>>◌, einval, enoent, eio, eexist, espipe, ltb,
  ◌==◌, if◌then◌else◌, is_empty, length, drop, add64,
}
use zlog.Base.Assoc.{Assoc, find, text_key}
use zlog.Base.OrdMap.{OrdMap, emplace, last, find_from}
use zlog.Base.OrdMap
use zlog.Ram.{
  RamBackend, Effect, Object, link, projection, ProjectionObject, find_object, put_object,
}

abbrev pub head_prefix : Text
head_prefix = codes "head."

abbrev pub head_object_prefix : Text
head_object_prefix = codes "zlog.head."

abbrev pub data_object_prefix : Text
data_object_prefix = codes "zlog.data."

unfoldable pub is_yes : (Text → Text → Bool) → Option Text → Bool → Bool
is_yes iequals none old = old
is_yes iequals (some value) old = iequals value (codes "yes") || iequals value (codes "true")

-- `Initialize`; `iequals` is boost's comparison without regard to case.
unfoldable pub initialize : (Text → Text → Bool) → RamBackend → Assoc Text Text → Effect (Unit {0})
unfolding is_yes
initialize iequals b opts =
    (ok tt, record b { blackhole = is_yes iequals (find (codes "blackhole") opts) b.blackhole })

unfoldable pub meta : RamBackend → Assoc Text Text
meta b = b.options

unfoldable pub next_unique_id : RamBackend → Text → Effect ℕ
next_unique_id b hoid =
    if is_empty hoid
    then (err einval, b)
    else (ok b.unique_id, record b { unique_id = add64 b.unique_id 1 })

abbrev pub first_view : Text → Text → ProjectionObject
first_view prefix view = record { epoch = 1; prefix = prefix; projections = (1, view) ∷ [] }

-- The second half of `CreateLog`: the link from the log's name to its head object.
unfoldable pub create_link : RamBackend → Text → Text → Text → Effect (Text × Text)
unfolding find_object put_object
create_link b name hoid prefix = elim (find_object b (head_prefix ++ name)) [
  | some o ↦ (err eexist, b)
  | none ↦ (ok (hoid, prefix), put_object b (head_prefix ++ name) (link hoid))
]

-- The first half of `CreateLog`. The random key is an argument: to meet one that is there already
-- is a fault.
unfoldable pub create_head : RamBackend → Text → Text → Effect (Text × Text)
unfolding find_object put_object
create_head b view key = elim (find_object b (head_object_prefix ++ key)) [
  | some o ↦ (fault, b)
  | none ↦ (
    ok (head_object_prefix ++ key, data_object_prefix ++ key),
    put_object b (head_object_prefix ++ key)
        (projection (first_view (data_object_prefix ++ key) view)),
  )
]

unfoldable pub create_link_of : Text → Effect (Text × Text) → Effect (Text × Text)
unfolding create_link
create_link_of name (ok (hoid, prefix), b) = create_link b name hoid prefix
create_link_of name (err e, b) = (err e, b)
create_link_of name (fault, b) = (fault, b)

-- `CreateLog`, when no other call comes between its halves.
unfoldable pub create_log : RamBackend → Text → Text → Text → Effect (Text × Text)
unfolding create_head create_link_of
create_log b name view key =
    if is_empty name then (err einval, b) else create_link_of name (create_head b view key)

unfoldable pub open_head : Text → Option Object → Outcome (Text × Text)
open_head hoid none = err eio
open_head hoid (some (projection p)) = ok (hoid, p.prefix)
open_head hoid (some _) = fault

unfoldable pub open_link : RamBackend → Option Object → Outcome (Text × Text)
unfolding open_head find_object
open_link b none = err enoent
open_link b (some (link hoid)) = open_head hoid (find_object b hoid)
open_link b (some _) = fault

unfoldable pub open_log : RamBackend → Text → Outcome (Text × Text)
unfolding open_link find_object
open_log b name =
    if is_empty name then err einval else open_link b (find_object b (head_prefix ++ name))

unfoldable pub starts_with : Text → Text → Bool
starts_with s [] = true
starts_with [] (c ∷ prefix) = false
starts_with (d ∷ s) (c ∷ prefix) = (d == c) && starts_with s prefix

unfoldable pub contains : ℕ → Text → Bool
contains c [] = false
contains c (d ∷ s) = (d == c) || contains c s

-- The names of the objects that a test keeps.
unfoldable pub list_objects : (Text → Bool) → Assoc Text Object → List Text
list_objects keep [] = []
list_objects keep ((key, o) ∷ rest) =
    if keep key then key ∷ list_objects keep rest else list_objects keep rest

unfoldable pub list_links : RamBackend → List Text
unfolding list_objects starts_with
list_links b = list_objects (λ key. starts_with key head_prefix) b.objects

-- A head object's name has no dot behind its prefix.
unfoldable pub is_head : Text → Bool
unfolding starts_with contains
is_head key =
    starts_with key head_object_prefix && not (contains b'.' (drop (length head_object_prefix) key))

unfoldable pub list_heads : RamBackend → List Text
unfolding list_objects is_head
list_heads b = list_objects is_head b.objects

-- The loop of `ReadViews`, with the views still to take.
unfoldable pub take_views : ℕ → ℕ → OrdMap Text → Outcome (OrdMap Text)
take_views zero epoch views = ok []
take_views (suc left) epoch [] = ok []
take_views (suc left) epoch ((e, view) ∷ views) = do
  assert (e == epoch)
  rest ← take_views left (add64 epoch 1) views
  ok ((epoch, view) ∷ rest)

unfoldable pub latest_view : Option (ℕ × Text) → OrdMap Text
latest_view none = []
latest_view (some e) = e ∷ []

unfoldable pub read_views_of : ProjectionObject → ℕ → ℕ → Outcome (OrdMap Text)
unfolding take_views latest_view
read_views_of p epoch max_views =
    if ltb p.epoch epoch
    then ok []
    else if epoch == 0
    then ok (latest_view (last p.projections))
    else if is_empty (find_from epoch p.projections)
    then err eio
    else take_views max_views epoch (find_from epoch p.projections)

unfoldable pub read_views_found : Option Object → ℕ → ℕ → Outcome (OrdMap Text)
unfolding read_views_of
read_views_found none epoch max_views = err enoent
read_views_found (some (projection p)) epoch max_views = read_views_of p epoch max_views
read_views_found (some _) epoch max_views = fault

unfoldable pub read_views : RamBackend → Text → ℕ → ℕ → Outcome (OrdMap Text)
unfolding read_views_found find_object
read_views b hoid epoch max_views =
    if is_empty hoid then err einval else read_views_found (find_object b hoid) epoch max_views

unfoldable pub propose_to : ProjectionObject → ℕ → Text → Outcome ProjectionObject
propose_to p epoch view =
    if ltb (add64 p.epoch 1) epoch
    then err einval
    else if not (epoch == add64 p.epoch 1)
    then err espipe
    else elim (OrdMap.find epoch p.projections) [
      | some old ↦ err eexist
      | none ↦ ok (record p { projections = emplace epoch view p.projections; epoch = epoch })
    ]

unfoldable pub propose_found : RamBackend → Text → ℕ → Text → Option Object → Effect (Unit {0})
unfolding propose_to put_object
propose_found b hoid epoch view none = (err enoent, b)
propose_found b hoid epoch view (some (projection p)) = elim (propose_to p epoch view) [
  | ok q ↦ (ok tt, put_object b hoid (projection q))
  | err e ↦ (err e, b)
  | fault ↦ (fault, b)
]
propose_found b hoid epoch view (some _) = (fault, b)

unfoldable pub propose_view : RamBackend → Text → ℕ → Text → Effect (Unit {0})
unfolding propose_found find_object
propose_view b hoid epoch view =
    if is_empty hoid
    then (err einval, b)
    else if epoch == 0
    then (err einval, b)
    else propose_found b hoid epoch view (find_object b hoid)
