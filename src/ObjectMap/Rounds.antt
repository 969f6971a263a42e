-- ===== src/ObjectMap/Rounds.antt =====
-- The loop of `expand_mapping` on a tiled object map: each round adds one stripe.
use native.Mathlib.Nat.{mul-le-mul_left}
use mathlib.Core.Path.{subst, subst₂}
use zlog.Base.{ℕ, ◌+◌, ◌≤◌, ◌<◌, ◌≡◌, refl, inl, inr, some, [], ◌∷◌, ◌++◌, ok, arith, u64_mod}
use zlog.Base.OrdMap.{
  OrdMap, last, erase_last, last_from, erase_last_from, emplace_above, last-snoc,
}
use zlog.Options.{Options}
use zlog.Stripe.{MultiStripe}
use zlog.ObjectMap.{ObjectMap, make_object_map, index_by_id}
use zlog.ObjectMap.Tile.{size, span, size_pos, max_stripe_id_tile}
use zlog.ObjectMap.Tiling.{Tiles, IsTiled, LastTile, last_tile}
use zlog.ObjectMap.Valid.{valid_tiled, index_by_id_tiled}
use zlog.ObjectMap.Expand.{grow}
use zlog.ObjectMap.Grown.{
  Grown, Sensible, SameShapes, SameShapes-replace, Tiles-snoc, Tiles-below, growth, longer,
  longer-IsTile, extend_tile, first_stripe, first-IsTile, grow_first,
}

-- A tiled map has no more stripes than positions.
pub ids_le : (p i : ℕ) (ms : OrdMap MultiStripe) (q j : ℕ) → Tiles p i ms q j → i ≤ p → j ≤ q
ids_le p i [] q j t h = omega arith
ids_le p i ((k, m) ∷ ms) q j t h = ids_le (p + span m) (i + m.instances) ms q j t.2 (
    omega (
      arith,
      mul-le-mul_left {m = 1} {n = size m} m.instances
          (size_pos m.width m.slots t.1.width_pos t.1.slots_pos),
    ))

module _ (options : Options) (k : ℕ) (m : MultiStripe) (ms : OrdMap MultiStripe) (q j : ℕ)
    (r : LastTile 0 0 ((k, m) ∷ ms) q j) where
  kept_last : last_from (k, m) ms ≡ (r.key, r.stripe)
  unfolding last
  kept_last = cc (r.is_last)

  abbrev extended : OrdMap MultiStripe
  extended = erase_last ((k, m) ∷ ms) ++ ((r.key, longer r.stripe) ∷ [])

  module _ (room : q + size r.stripe < u64_mod) (ids : j + 1 < u64_mod) where
    grow_last : grow options j ((k, m) ∷ ms) (some (r.key, r.stripe)) ≡ ok extended
    unfolding grow
    grow_last = ground (
      arith,
      extend_tile r.tile (omega (arith, r.end_position)) (omega (arith, r.end_id)),
      max_stripe_id_tile
          (longer-IsTile r.tile (omega (arith, r.end_position)) (omega (arith, r.end_id))),
      r.tile.starts,
      r.end_id,
      emplace_above r.key (longer r.stripe) (erase_last ((k, m) ∷ ms))
          (Tiles-below 0 0 (erase_last ((k, m) ∷ ms)) r.key r.id r.before),
    )

    extended-Tiles : Tiles 0 0 extended (q + size r.stripe) (j + 1)
    extended-Tiles =
        subst₂ (Tiles 0 0 extended) (omega (arith, r.end_position)) (omega (arith, r.end_id)) (
          Tiles-snoc 0 0 (erase_last ((k, m) ∷ ms)) r.key r.key r.id (longer r.stripe) r.before refl
            (longer-IsTile r.tile (omega (arith, r.end_position)) (omega (arith, r.end_id))))

    extended_shapes : SameShapes ((k, m) ∷ ms) extended
    unfolding erase_last
    extended_shapes =
        subst
          (λ e.
            SameShapes ((k, m) ∷ ms) (erase_last_from (k, m) ms ++ ((e.0, longer r.stripe) ∷ [])))
          kept_last
          (SameShapes-replace (k, m) ms (longer r.stripe) (rw kept_last (refl, refl, refl)))

    Grown-more : Grown options ((k, m) ∷ ms) q j
    Grown-more = record {
      stripes = extended;
      grown = rw r.is_last grow_last;
      tiles = rw r.is_last extended-Tiles;
      same_growth = rw (r.is_last, last-snoc (erase_last ((k, m) ∷ ms)) (r.key, longer r.stripe));
      shapes = inr extended_shapes;
    }

module _ (options : Options) (sensible : Sensible options) where
  pub growth_pos :
      (ms : OrdMap MultiStripe) (q j : ℕ) → Tiles 0 0 ms q j → 0 < growth options (last ms)
  growth_pos [] q j t =
      unfold last in
      size_pos options.stripe_width options.stripe_slots sensible.width_pos sensible.slots_pos
  growth_pos ((k, m) ∷ ms) q j t =
      let r = last_tile 0 0 k m ms q j t in
      rw r.is_last (size_pos r.stripe.width r.stripe.slots r.tile.width_pos r.tile.slots_pos)

  -- One stripe more, while the positions stay within 64 bits.
  pub grow_tiled :
      (ms : OrdMap MultiStripe) (q j : ℕ)
      → Tiles 0 0 ms q j
      → q + growth options (last ms) < u64_mod
      → Grown options ms q j
  grow_tiled [] q j t room = record {
    stripes = (0, first_stripe options) ∷ [];
    grown = unfold last in rw (← t.1) (grow_first options sensible);
    tiles = unfold last in rw (← t.0, ← t.1) (refl, first-IsTile options sensible, omega arith);
    same_growth = unfold last last_from in refl;
    shapes = inl refl;
  }
  grow_tiled ((k, m) ∷ ms) q j t room =
      let r = last_tile 0 0 k m ms q j t in
      Grown-more options k m ms q j r (rw r.is_last at room)
        (omega (arith, ids_le 0 0 ((k, m) ∷ ms) q j t, growth_pos ((k, m) ∷ ms) q j t))

abbrev pub object_map : ℕ → OrdMap MultiStripe → ℕ → ObjectMap
object_map next ms min_valid = record {
  next_stripe_id = next;
  stripes_by_pos = ms;
  stripes_by_id = index_by_id [] ms;
  min_valid_position = min_valid;
}

pub object_map-IsTiled :
    (next : ℕ) (ms : OrdMap MultiStripe) (min_valid limit : ℕ)
    → Tiles 0 0 ms limit next
    → IsTiled (object_map next ms min_valid) limit
object_map-IsTiled next ms min_valid limit t = record {
  tiles = t;
  indexed = index_by_id_tiled ms limit next t;
}

-- The constructor accepts a tiling.
pub make_object_map_tiled :
    (next : ℕ) (ms : OrdMap MultiStripe) (min_valid limit : ℕ)
    → Tiles 0 0 ms limit next
    → make_object_map next ms min_valid ≡ ok (object_map next ms min_valid)
unfolding make_object_map
make_object_map_tiled next ms min_valid limit t = rw (
    valid_tiled (object_map next ms min_valid) limit (object_map-IsTiled next ms min_valid limit t))
