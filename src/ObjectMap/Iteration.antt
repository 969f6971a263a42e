-- ===== src/ObjectMap/Iteration.antt =====
-- One call of `map_to` on a tiled object map.
use mathlib.Core.Path.{subst}
use native.Mathlib.Decide.{dec_lt}
use zlog.Base.{
  ℕ, suc, ◌+◌, ◌%◌, ◌<◌, ◌≡◌, ◌↔◌, true, false, some, none, List, [], ok, arith, Text, Bool, leb,
  le→leb, u64_mod, ◌≤◌, ◌⊎◌, inl, inr,
}
use zlog.Stripe.{Stripe, make_oid}
use zlog.ObjectMap.{ObjectMap, stripe_by_id, num_stripes}
use zlog.ObjectMap.Tile.{stripe_in}
use zlog.ObjectMap.Tiling.{IsTiled, FoundId, find_id}
use zlog.ObjectMap.Lookup.{place, map_position_past, stripe_by_id_found}
use zlog.ObjectMap.MapTo.{map_to}
use zlog.ObjectMap.Coverage.{flag_of}
use zlog.ObjectMap.Reach.{
  Shaped, stripe_in-Shaped, reached, cover_stripe_lem, complete_iff, absent_iff,
}

module _ {om : ObjectMap} {limit : ℕ} (t : IsTiled om limit) (stripe_id : ℕ)
    (known : stripe_id < om.next_stripe_id) where
  at : FoundId stripe_id 0 om.stripes_by_pos limit
  at = find_id stripe_id 0 0 om.stripes_by_pos limit om.next_stripe_id t.tiles (omega arith) known

  known_stripe : stripe_by_id om stripe_id ≡ ok (stripe_in at.tile stripe_id)
  known_stripe =
      stripe_by_id_found om stripe_id at.after at.tile (rw t.indexed at.found) at.low at.high

  pub stripe-Shaped : (s : Stripe) → stripe_by_id om stripe_id ≡ ok s → Shaped s
  stripe-Shaped s e =
      subst Shaped (cc (known_stripe)) (stripe_in-Shaped at.tile stripe_id at.low at.high)

  stripe-id : (s : Stripe) → stripe_by_id om stripe_id ≡ ok s → s.stripe_id ≡ stripe_id
  stripe-id s e = cc (known_stripe)

  id_fits : suc stripe_id < u64_mod
  id_fits = omega (arith, at.low, at.high, at.tile.ids_fit)

  map_to_step :
      (position : ℕ) (s : Stripe)
      → position < limit
      → stripe_by_id om stripe_id ≡ ok s
      → (h : Shaped s)
      → map_to om position stripe_id false
        ≡ ok (record {
          objects = some (reached s h position);
          stripe_id = stripe_id + 1;
          done = false;
        })
  unfolding map_to num_stripes
  map_to_step position s inside e h =
      rw
        (
          (place t position inside).mapped,
          le→leb' om.next_stripe_id stripe_id known,
          e,
          cover_stripe_lem s h position,
        )
        (ground (arith, id_fits))
    where
      le→leb' : (a b : ℕ) → b < a → leb a b ≡ false
      le→leb' a b h = ground arith

-- A stripe of a tiled map that starts at a multiple of its width, and a mapped position: the call
-- lists an object of the stripe as complete exactly if all its positions in the stripe are at or
-- below the position, leaves it out exactly if all are above, and moves on to the next stripe.
pub map_to_covers :
    {om : ObjectMap} {limit : ℕ} (position stripe_id : ℕ) (s : Stripe)
    → IsTiled om limit
    → position < limit
    → stripe_id < om.next_stripe_id
    → stripe_by_id om stripe_id ≡ ok s
    → s.min_position % s.width ≡ 0
    → (objects : List (Text × Bool)) × (map_to om position stripe_id false
        ≡ ok (record { objects = some objects; stripe_id = stripe_id + 1; done = false }))
      × ((i : ℕ)
          → i < s.width
          → ((flag_of (make_oid stripe_id i) objects ≡ some true) ↔ (
              (p : ℕ) → s.min_position ≤ p → p ≤ s.max_position → p % s.width ≡ i → p ≤ position))
            × ((flag_of (make_oid stripe_id i) objects ≡ none) ↔ (
                (p : ℕ)
                → s.min_position ≤ p
                → p ≤ s.max_position
                → p % s.width ≡ i
                → position < p)))
map_to_covers position stripe_id s t inside known e aligned =
    let h = stripe-Shaped t stripe_id known s e in
    (
      reached s h position,
      map_to_step t stripe_id known position s inside e h,
      λ i lt.
          rw (← stripe-id t stripe_id known s e)
            (complete_iff s h position aligned i lt, absent_iff s h position aligned i lt),
    )

-- On a tiled map an iteration that is not done yet becomes done with a call exactly when the position
-- is mapped and the stripes are used up; at a stripe that is there the call gives a list and moves on
-- to the next stripe, and for a position that is not mapped it gives no list at all.
pub map_to_ends :
    {om : ObjectMap} {limit : ℕ} (position stripe_id : ℕ)
    → IsTiled om limit
    → ((limit ≤ position)
        × (map_to om position stripe_id false
            ≡ ok (record { objects = none; stripe_id = stripe_id; done = false })))
      ⊎ ((position < limit)
          × (om.next_stripe_id ≤ stripe_id)
          × (map_to om position stripe_id false
              ≡ ok (record { objects = some []; stripe_id = stripe_id; done = true })))
      ⊎ ((position < limit)
          × (stripe_id < om.next_stripe_id)
          × (objects : List (Text × Bool)) × (map_to om position stripe_id false
              ≡ ok (record { objects = some objects; stripe_id = stripe_id + 1; done = false })))
unfolding map_to num_stripes
map_to_ends {om} {limit} position stripe_id t = elim (dec_lt position limit) [
  | no past ↦ inl (omega arith, rw (map_position_past t position (omega arith)))
  | yes inside ↦ elim (dec_lt stripe_id om.next_stripe_id) [
    | yes known ↦
        let s = known_stripe t stripe_id known in
        let h = stripe-Shaped t stripe_id known _ s in
        inr (
          inr (
            inside,
            known,
            reached _ h position,
            map_to_step t stripe_id known position _ inside s h,
          ))
    | no over ↦ inr (
        inl (
          inside,
          omega arith,
          rw ((place t position inside).mapped, le→leb om.next_stripe_id stripe_id (omega arith)),
        ))
  ]
]
