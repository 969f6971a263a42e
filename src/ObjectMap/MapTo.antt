-- ===== src/ObjectMap/MapTo.antt =====
-- `ObjectMap::map_to` of src/libzlog/object_map.cc: the objects of one stripe that hold positions
-- up to a limit. The arguments that the source takes by reference are returned.
use zlog.Base.{
  ℕ, zero, suc, Bool, true, false, not, Option, none, some, List, [], ◌∷◌, ◌++◌, Text, Outcome, ok,
  fault, assert, ◌>>=◌, ◌>>◌, ltb, leb, if◌then◌else◌, add64, sub64, sub32, get_elem?,
}
use zlog.Stripe.{Stripe}
use zlog.ObjectMap.{ObjectMap, map_position, num_stripes, stripe_by_id}

-- `oids[i]`; out of range it is undefined.
unfoldable pub oid_at : List Text → ℕ → Outcome Text
oid_at oids i = elim (get_elem? oids i) [ none ↦ fault | some oid ↦ ok oid ]

-- What the body of the loop pushes for one object.
unfoldable pub covered : ℕ → ℕ → ℕ → List Text → ℕ → Outcome (List (Text × Bool))
unfolding oid_at
covered position max_pos_base min_pos_base oids i =
    if leb (add64 max_pos_base i) position
    then (do oid ← oid_at oids i; ok ((oid, true) ∷ []))
    else if leb (add64 min_pos_base i) position
    then (do oid ← oid_at oids i; ok ((oid, false) ∷ []))
    else ok []

-- The loop over the objects with the indices from `i` on, `left` of them.
unfoldable pub cover : ℕ → ℕ → ℕ → List Text → ℕ → ℕ → Outcome (List (Text × Bool))
unfolding covered
cover position max_pos_base min_pos_base oids i zero = ok []
cover position max_pos_base min_pos_base oids i (suc left) = do
  pushed ← covered position max_pos_base min_pos_base oids i
  rest ← cover position max_pos_base min_pos_base oids (suc i) left
  ok (pushed ++ rest)

pub record Step : Type 0 where
  pub objects : Option (List (Text × Bool))
  pub stripe_id : ℕ
  pub done : Bool

-- The objects of the stripe that the iteration stands at.
unfoldable pub cover_stripe : Stripe → ℕ → Outcome (List (Text × Bool))
unfolding cover
cover_stripe stripe position =
    if ltb position stripe.min_position
    then ok []
    else cover position (sub64 stripe.max_position (sub32 stripe.width 1)) stripe.min_position
        stripe.oids 0 stripe.width

unfoldable pub map_to : ObjectMap → ℕ → ℕ → Bool → Outcome Step
unfolding map_position stripe_by_id cover_stripe num_stripes
map_to om position stripe_id done = do
  mapping ← map_position om position
  elim mapping.0 [
    | none ↦ ok (record { objects = none; stripe_id = stripe_id; done = done })
    | some oid ↦ (do
      assert (not done)
      if leb (num_stripes om) stripe_id
          then ok (record { objects = some []; stripe_id = stripe_id; done = true })
          else (do
            stripe ← stripe_by_id om stripe_id
            objects ← cover_stripe stripe position
            ok (record { objects = some objects; stripe_id = add64 stripe_id 1; done = done })))
  ]
