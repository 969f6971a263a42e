-- ===== src/ObjectMap/Expand.antt =====
-- `ObjectMap::expand_mapping` of src/libzlog/object_map.cc.
use zlog.Base.{
  ℕ, zero, suc, Bool, true, false, Option, none, some, Outcome, ok, fault, assert, ◌>>=◌, ◌>>◌,
  ◌==◌, add64, mul32, sub32,
}
use zlog.Base.OrdMap.{OrdMap, emplace, last, erase_last}
use zlog.Options.{Options}
use zlog.Stripe.{MultiStripe, max_stripe_id, extend, make_multi_stripe}
use zlog.ObjectMap.{ObjectMap, make_object_map, map_position}

-- The stripes of the next round: the last stripe is extended, or the first one is made.
unfoldable pub grow :
    Options → ℕ → OrdMap MultiStripe → Option (ℕ × MultiStripe) → Outcome (OrdMap MultiStripe)
unfolding extend max_stripe_id make_multi_stripe
grow options stripe_id stripes (some (key, m)) = do
  new_stripe ← extend m
  assert (new_stripe.min_position == key)
  assert (max_stripe_id new_stripe == stripe_id)
  ok (emplace new_stripe.min_position new_stripe (erase_last stripes))
grow options stripe_id stripes none = do
  let width = options.stripe_width
  let slots = options.stripe_slots
  let max_position = sub32 (mul32 width slots) 1
  first ← make_multi_stripe stripe_id width slots 0 1 max_position
  assert (stripe_id == 0)
  ok (emplace 0 first stripes)

-- One round of the loop: the next object map, and whether it maps the position.
unfoldable pub expand_round : Options → ℕ → ObjectMap → Outcome (ObjectMap × Bool)
unfolding grow make_object_map map_position
expand_round options position om = do
  stripes ← grow options om.next_stripe_id om.stripes_by_pos (last om.stripes_by_pos)
  new_object_map ← make_object_map (add64 om.next_stripe_id 1) stripes om.min_valid_position
  mapping ← map_position new_object_map position
  elim mapping.0 [ none ↦ ok (new_object_map, false) | some oid ↦ ok (new_object_map, true) ]

-- `while (true)`, with fuel. To run out of it is a fault; one round for each position suffices.
unfoldable pub expand_loop : ℕ → Options → ℕ → ObjectMap → Outcome (Option ObjectMap)
expand_loop zero options position om = fault
expand_loop (suc fuel) options position om = expand_round options position om >>= λ next.
    elim next.1 [ true ↦ ok (some next.0) | false ↦ expand_loop fuel options position next.0 ]

unfoldable pub expand_mapping : ObjectMap → ℕ → Options → Outcome (Option ObjectMap)
unfolding map_position expand_loop
expand_mapping om position options = do
  mapping ← map_position om position
  elim mapping.0 [ some oid ↦ ok none | none ↦ expand_loop (suc position) options position om ]
