-- ===== src/ObjectMap/Lookup.antt =====
-- `map`, `map_stripe` and `stripe_by_id` on a tiled object map.
use zlog.Base.{
  ℕ, suc, ◌+◌, ◌-◌, ◌*◌, ◌/◌, ◌%◌, ◌≤◌, ◌<◌, ◌≡◌, refl, ◌≢◌, inl, inr, false, ◌&&◌, none, some, [],
  ◌∷◌, ok, arith, ◌==◌, is_empty, Bool-cases,
}
use zlog.Base.OrdMap.{OrdMap, floor}
use zlog.Stripe.{Stripe, MultiStripe, make_oid}
use zlog.ObjectMap.{
  ObjectMap, map_at, map_position, stripe_by_id, stripe_by_id_at, map_stripe, map_stripe_at,
}
use zlog.ObjectMap.Tile.{
  IsTile, span, size, stripe_in, stripe_id_of_tile, map_object_tile, max_stripe_id_tile,
  stripe_at_tile, quot_lt, quot_le, quot_above, size_pos,
}
use zlog.ObjectMap.Tiling.{Tiles, by_id, IsTiled, Found, find_tile, Tiles-grow, tile_grows}

-- Where a mapped position lies: its stripe, and what the two lookups by position return.
pub record Placed (om : ObjectMap) (position : ℕ) : Type 0 where
  pub stripe : Stripe
  pub above : stripe.min_position ≤ position
  pub below : position ≤ stripe.max_position
  pub width_pos : 0 < stripe.width
  pub known : stripe.stripe_id < om.next_stripe_id
  pub by_stripe_id : stripe_by_id om stripe.stripe_id ≡ ok stripe
  pub mapped :
      map_position om position
      ≡ ok (
        some (make_oid stripe.stripe_id (position % stripe.width)),
        (suc stripe.stripe_id == om.next_stripe_id),
      )
  pub mapped_stripe : map_stripe om position ≡ ok (some stripe)

floor_filled :
    (n : ℕ) (ms : OrdMap MultiStripe) (r : (ℕ × MultiStripe) × OrdMap MultiStripe)
    → floor n ms ≡ some r
    → is_empty ms ≡ false
unfolding floor
floor_filled n [] r e = cc
floor_filled n (x ∷ ms) r e = refl

Tiles-empty :
    (p i : ℕ) (ms : OrdMap MultiStripe) (q j : ℕ) → ms ≡ [] → Tiles p i ms q j → (p ≡ q) × (i ≡ j)
Tiles-empty p i [] q j e t = t
Tiles-empty p i (x ∷ ms) q j e t = cc

pub Tiles-filled :
    (p i : ℕ) (ms : OrdMap MultiStripe) (q j : ℕ) → Tiles p i ms q j → p < q → ms ≢ []
Tiles-filled p i ms q j t h e = absurd (omega (arith, (Tiles-empty p i ms q j e t).0))

pub filled_flag : (ms : OrdMap MultiStripe) → ms ≢ [] → is_empty ms ≡ false
filled_flag [] h = absurd (h refl)
filled_flag (x ∷ ms) h = refl

-- The stripe is the last one exactly if its id is the last.
last_flag :
    (p i : ℕ) (ms : OrdMap MultiStripe) (q j n : ℕ)
    → Tiles p i ms q j
    → n < i
    → (is_empty ms && (n == i - 1)) ≡ (suc n == j)
last_flag p i [] q j n t h = ground arith
last_flag p i ((k, m) ∷ ms) q j n t h =
    ground (arith, t.1.instances_pos, Tiles-grow (p + span m) (i + m.instances) ms q j t.2)

module _ {pos i : ℕ} {ms : OrdMap MultiStripe} {q j : ℕ} (f : Found pos i ms q j) where
  found_inside : pos < q → pos < f.key + span f.stripe
  found_inside h = elim f.high [
    | inl inside ↦ inside
    | inr e ↦ omega (
      arith,
      (Tiles-empty (f.key + span f.stripe) (f.id + f.stripe.instances) f.after q j e f.rest).0,
    )
  ]

  found_past : q ≤ pos → f.stripe.max_position < pos
  found_past h = omega (
    arith,
    f.tile.ends,
    tile_grows f.tile,
    (Tiles-grow (f.key + span f.stripe) (f.id + f.stripe.instances) f.after q j f.rest).0,
  )

-- The stripe that the secondary index gives.
pub stripe_by_id_found :
    (om : ObjectMap) (n : ℕ) {p i : ℕ} {m : MultiStripe} (after : OrdMap MultiStripe)
    (t : IsTile p i m)
    → floor n om.stripes_by_id ≡ some ((i, m), after)
    → i ≤ n
    → n < i + m.instances
    → stripe_by_id om n ≡ ok (stripe_in t n)
unfolding stripe_by_id stripe_by_id_at
stripe_by_id_found om n {p} {i} {m} after t found low high =
    rw (floor_filled n om.stripes_by_id ((i, m), after) found, found)
      (ground (arith, max_stripe_id_tile t, stripe_at_tile t n low high))

module _ {om : ObjectMap} {limit : ℕ} (t : IsTiled om limit) (position : ℕ) where
  pub found_at : om.stripes_by_pos ≢ [] → Found position 0 om.stripes_by_pos limit om.next_stripe_id
  found_at filled =
      find_tile position 0 0 om.stripes_by_pos limit om.next_stripe_id t.tiles filled (omega arith)

  -- A position past the limit is not mapped.
  pub map_position_past : limit ≤ position → map_position om position ≡ ok (none, false)
  unfolding map_position map_at
  map_position_past past = elim (Bool-cases (is_empty om.stripes_by_pos)) [
    | inl e ↦ rw e
    | inr e ↦
        (let f = found_at (λ c. cc) in rw (e, f.found) (ground (arith, f.low, found_past f past)))
  ]

cancel : (a b : ℕ) → a + b - a ≡ b
cancel a b = omega arith

module _ {om : ObjectMap} {limit : ℕ} (t : IsTiled om limit) (position : ℕ)
    (f : Found position 0 om.stripes_by_pos limit om.next_stripe_id)
    (inside : position < limit) where
  abbrev place_id : ℕ
  place_id = f.id + (position - f.key) / size f.stripe

  offset_lt : (position - f.key) / size f.stripe < f.stripe.instances
  offset_lt =
      quot_lt (position - f.key) f.stripe.instances (size f.stripe)
        (size_pos f.stripe.width f.stripe.slots f.tile.width_pos f.tile.slots_pos)
        (omega (arith, f.low, found_inside f inside))

  place_above : f.key + (place_id - f.id) * size f.stripe ≤ position
  place_above = rw (cancel f.id ((position - f.key) / size f.stripe)) (
      omega (
        arith,
        f.low,
        quot_le (position - f.key) (size f.stripe)
            (size_pos f.stripe.width f.stripe.slots f.tile.width_pos f.tile.slots_pos),
      ))

  place_below : position ≤ f.key + (place_id - f.id) * size f.stripe + size f.stripe - 1
  place_below = rw (cancel f.id ((position - f.key) / size f.stripe)) (
      omega (
        arith,
        f.low,
        quot_above (position - f.key) (size f.stripe)
            (size_pos f.stripe.width f.stripe.slots f.tile.width_pos f.tile.slots_pos),
      ))

  place_known : place_id < om.next_stripe_id
  place_known = omega (
    arith,
    offset_lt,
    Tiles-grow (f.key + span f.stripe) (f.id + f.stripe.instances) f.after limit om.next_stripe_id
        f.rest,
  )

  place_by_id : stripe_by_id om place_id ≡ ok (stripe_in f.tile place_id)
  place_by_id =
      stripe_by_id_found om place_id (by_id f.after) f.tile
        (rw t.indexed (f.same place_id (omega arith) (omega (arith, offset_lt)))) (omega arith)
        (omega (arith, offset_lt))

  filled : is_empty om.stripes_by_pos ≡ false
  filled = floor_filled position om.stripes_by_pos ((f.key, f.stripe), f.after) f.found

  pub place_mapped :
      map_position om position
      ≡ ok (
        some (make_oid place_id (position % f.stripe.width)),
        (suc place_id == om.next_stripe_id),
      )
  unfolding map_position map_at
  place_mapped =
      rw (filled, f.found)
        (ground (
          arith,
          f.low,
          f.tile.ends,
          found_inside f inside,
          stripe_id_of_tile f.tile position f.low (found_inside f inside),
          map_object_tile f.tile position f.low (found_inside f inside),
          max_stripe_id_tile f.tile,
          last_flag (f.key + span f.stripe) (f.id + f.stripe.instances) f.after limit
              om.next_stripe_id place_id f.rest (omega (arith, offset_lt)),
        ))

  place_mapped_stripe : map_stripe om position ≡ ok (some (stripe_in f.tile place_id))
  unfolding map_stripe map_stripe_at
  place_mapped_stripe =
      rw (filled, f.found)
        (ground (
          arith,
          f.low,
          f.tile.ends,
          found_inside f inside,
          stripe_id_of_tile f.tile position f.low (found_inside f inside),
          place_by_id,
        ))

  pub place_found : Placed om position
  place_found = record {
    stripe = stripe_in f.tile place_id;
    above = place_above;
    below = place_below;
    width_pos = f.tile.width_pos;
    known = place_known;
    by_stripe_id = place_by_id;
    mapped = place_mapped;
    mapped_stripe = place_mapped_stripe;
  }

-- Every position below the limit is placed.
pub place :
    {om : ObjectMap} {limit : ℕ}
    → IsTiled om limit
    → (position : ℕ) → position < limit
    → Placed om position
place {om} {limit} t position inside =
    place_found t position
      (found_at t position
        (Tiles-filled 0 0 om.stripes_by_pos limit om.next_stripe_id t.tiles (omega arith)))
      inside
