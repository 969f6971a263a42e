-- ===== src/ObjectMap.antt =====
-- src/libzlog/object_map.h and object_map.cc: which object holds which log position.
pub mod Tile
pub mod Tiling
pub mod Lookup
pub mod Objects
pub mod Order
pub mod Valid
pub mod ValidSound
pub mod Expand
pub mod MapTo
pub mod Grown
pub mod Rounds
pub mod Expansion
pub mod Stability
pub mod Coverage
pub mod Aligned
pub mod Reach
pub mod Iteration
mod Tests
use zlog.Base.{
  ℕ, zero, suc, ◌+◌, ◌-◌, ◌*◌, ◌/◌, Bool, true, false, ◌&&◌, not, Option, none, some, List, [], ◌∷◌,
  ◌++◌, Text, Outcome, ok, fault, assert, ◌>>=◌, ◌>>◌, ltb, leb, ◌==◌, if◌then◌else◌, add64, sub64,
  mul64, mul32, sub32, is_empty, get_elem?,
}
use zlog.Base.OrdMap.{OrdMap, emplace, floor, last, erase_last, find}
use zlog.Options.{Options}
use zlog.Stripe.{
  Stripe, MultiStripe, max_stripe_id, map_object, extend, stripe_at, same_multi_stripe,
  make_multi_stripe,
}

pub record ObjectMap : Type 0 where
  pub next_stripe_id : ℕ
  pub stripes_by_pos : OrdMap MultiStripe
  pub stripes_by_id : OrdMap MultiStripe
  pub min_valid_position : ℕ

-- The secondary index, as the constructor computes it and as `valid` computes it again.
unfoldable pub index_by_id : OrdMap MultiStripe → OrdMap MultiStripe → OrdMap MultiStripe
index_by_id acc [] = acc
index_by_id acc ((p, m) ∷ ms) = index_by_id (emplace m.base_id m acc) ms

unfoldable pub same_stripes : OrdMap MultiStripe → OrdMap MultiStripe → Bool
unfolding same_multi_stripe
same_stripes [] [] = true
same_stripes ((k, a) ∷ ms) ((j, b) ∷ ns) = (k == j) && same_multi_stripe a b && same_stripes ms ns
same_stripes _ _ = false

abbrev pub is_some {ℓ} : {A : Type ℓ} → Option A → Bool
is_some none = false
is_some (some a) = true

-- The first loop of `valid`: every base id is new, and every key is the minimum of its stripe.
unfoldable pub keys_agree : OrdMap MultiStripe → OrdMap MultiStripe → Bool
keys_agree tmp [] = true
keys_agree tmp ((p, m) ∷ ms) =
    not (is_some (find m.base_id tmp))
    && (p == m.min_position)
    && keys_agree (emplace m.base_id m tmp) ms

-- The id that follows the last stripe is the next id.
unfoldable pub next_id_agrees : ℕ → Option (ℕ × MultiStripe) → Bool
next_id_agrees next none = next == 0
next_id_agrees next (some (p, m)) = next == add64 (max_stripe_id m) 1

unfoldable pub starts_at_zero : OrdMap MultiStripe → Bool
starts_at_zero [] = true
starts_at_zero ((p, m) ∷ ms) = (p == 0) && (m.base_id == 0)

unfoldable pub adjacent_after : MultiStripe → OrdMap MultiStripe → Bool
adjacent_after m [] = true
adjacent_after m ((q, n) ∷ ms) =
    (add64 m.max_position 1 == q) && (add64 (max_stripe_id m) 1 == n.base_id) && adjacent_after n ms

-- The last loop of `valid`: each stripe starts where the one before it ends.
unfoldable pub adjacent : OrdMap MultiStripe → Bool
unfolding adjacent_after
adjacent [] = true
adjacent ((p, m) ∷ ms) = adjacent_after m ms

unfoldable pub valid : ObjectMap → Bool
unfolding keys_agree same_stripes index_by_id next_id_agrees starts_at_zero adjacent
valid om =
    keys_agree [] om.stripes_by_pos
    && same_stripes om.stripes_by_id (index_by_id [] om.stripes_by_pos)
    && next_id_agrees om.next_stripe_id (last om.stripes_by_pos)
    && starts_at_zero om.stripes_by_pos
    && adjacent om.stripes_by_pos

-- The constructor.
unfoldable pub make_object_map : ℕ → OrdMap MultiStripe → ℕ → Outcome ObjectMap
unfolding valid index_by_id
make_object_map next stripes min_valid = do
  let om : ObjectMap = record {
    next_stripe_id = next;
    stripes_by_pos = stripes;
    stripes_by_id = index_by_id [] stripes;
    min_valid_position = min_valid;
  }
  assert (valid om)
  ok om

-- The stripe id of a position in the multi-stripe at a key. A division by zero is a fault.
unfoldable pub stripe_id_of : ℕ → MultiStripe → ℕ → Outcome ℕ
stripe_id_of key m position = do
  let stripe_pos = sub64 position key
  let stripe_size = mul32 m.width m.slots
  assert (not (stripe_size == 0))
  ok (add64 m.base_id (stripe_pos / stripe_size))

-- The part of `map` below the iterator.
unfoldable pub map_at :
    ℕ → Option ((ℕ × MultiStripe) × OrdMap MultiStripe) → Outcome (Option Text × Bool)
unfolding stripe_id_of map_object max_stripe_id
map_at position none = fault
map_at position (some ((key, m), after)) = do
  assert (leb key position)
  if leb position m.max_position
      then (do
        stripe_id ← stripe_id_of key m position
        oid ← map_object m stripe_id position
        ok (some oid, is_empty after && (stripe_id == max_stripe_id m)))
      else ok (none, false)

-- `ObjectMap::map`.
unfoldable pub map_position : ObjectMap → ℕ → Outcome (Option Text × Bool)
unfolding map_at
map_position om position =
    if is_empty om.stripes_by_pos
    then ok (none, false)
    else map_at position (floor position om.stripes_by_pos)

unfoldable pub stripe_by_id_at :
    ℕ → Option ((ℕ × MultiStripe) × OrdMap MultiStripe) → Outcome Stripe
unfolding max_stripe_id stripe_at
stripe_by_id_at stripe_id none = fault
stripe_by_id_at stripe_id (some ((key, m), after)) = do
  assert (leb key stripe_id)
  assert (leb stripe_id (max_stripe_id m))
  stripe_at m stripe_id

-- `ObjectMap::stripe_by_id`.
unfoldable pub stripe_by_id : ObjectMap → ℕ → Outcome Stripe
unfolding stripe_by_id_at
stripe_by_id om stripe_id = do
  assert (not (is_empty om.stripes_by_id))
  stripe_by_id_at stripe_id (floor stripe_id om.stripes_by_id)

unfoldable pub map_stripe_at :
    ObjectMap → ℕ → Option ((ℕ × MultiStripe) × OrdMap MultiStripe) → Outcome (Option Stripe)
unfolding stripe_id_of stripe_by_id
map_stripe_at om position none = fault
map_stripe_at om position (some ((key, m), after)) = do
  assert (leb key position)
  if leb position m.max_position
      then (do stripe_id ← stripe_id_of key m position; s ← stripe_by_id om stripe_id; ok (some s))
      else ok none

-- `ObjectMap::map_stripe`.
unfoldable pub map_stripe : ObjectMap → ℕ → Outcome (Option Stripe)
unfolding map_stripe_at
map_stripe om position =
    if is_empty om.stripes_by_pos
    then ok none
    else map_stripe_at om position (floor position om.stripes_by_pos)

unfoldable pub max_position_at : Option (ℕ × MultiStripe) → Outcome ℕ
max_position_at none = fault
max_position_at (some (p, m)) = ok m.max_position

-- `ObjectMap::max_position`; undefined on an empty map.
unfoldable pub max_position : ObjectMap → Outcome ℕ
unfolding max_position_at
max_position om = max_position_at (last om.stripes_by_pos)

unfoldable pub empty : ObjectMap → Bool
empty om = is_empty om.stripes_by_pos

unfoldable pub num_stripes : ObjectMap → ℕ
num_stripes om = om.next_stripe_id

-- `ObjectMap::advance_min_valid_position`.
unfoldable pub advance_min_valid_position : ObjectMap → ℕ → Outcome (Option ObjectMap)
advance_min_valid_position om position =
    if leb position om.min_valid_position
    then ok none
    else do next ← make_object_map om.next_stripe_id om.stripes_by_pos position; ok (some next)
