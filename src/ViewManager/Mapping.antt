-- ===== src/ViewManager/Mapping.antt =====
-- `ViewManager::map` of src/libzlog/view_manager.cc on a well-formed object map.
use zlog.Base.{
  ℕ, ◌≡◌, ◌<◌, ◌≤◌, refl, Bool, none, some, [], ◌∷◌, Text, ok, arith, Bool-cases, inl, inr, suc,
  ◌==◌, ◌%◌, add64,
}
use zlog.Base.OrdMap.{OrdMap, last, last_from}
use zlog.Stripe.{MultiStripe, make_oid}
use zlog.ObjectMap.{ObjectMap, map_position, max_position}
use zlog.ObjectMap.Tiling.{IsTiled}
use zlog.ObjectMap.Lookup.{place, map_position_past}
use zlog.View.{VersionedView}
use zlog.ViewManager.Client.{Client, map, map_found, map_last, async_expand_view}

max_position_mapped :
    (om : ObjectMap) (position : ℕ) (oid : Text) (last_stripe : Bool)
    → map_position om position ≡ ok (some oid, last_stripe)
    → (k : ℕ) × (max_position om ≡ ok k)
unfolding map_position max_position last
max_position_mapped om position oid b h = go om.stripes_by_pos refl
  where
    go : (ms : OrdMap MultiStripe) → om.stripes_by_pos ≡ ms → (k : ℕ) × (max_position om ≡ ok k)
    go [] e = ground (arith, h, e)
    go (m ∷ ms) e = ((last_from m ms).1.max_position, rw e refl)

-- The object of a position that the map holds.
abbrev pub object_at : {om : ObjectMap} {limit : ℕ} → IsTiled om limit → (p : ℕ) → p < limit → Text
object_at t p inside =
    let found = place t p inside in make_oid found.stripe.stripe_id (p % found.stripe.width)

module _ {S : Type 0} (c : Client S) (v : VersionedView) where
  -- The same backend and view reader.
  abbrev pub SameClient : Client S → Type 0
  SameClient d = (d.store ≡ c.store) × (d.view_reader ≡ c.view_reader)

  async_expand_view-SameClient : (position : ℕ) → SameClient (async_expand_view c position)
  unfolding async_expand_view
  async_expand_view-SameClient position = ground arith

  -- The object of a mapped position; the client's view and backend stay.
  pub map_mapped :
      (position : ℕ) (limit : ℕ)
      → (t : IsTiled v.view.object_map limit) → (inside : position < limit)
      → (d : Client S) × (map c v position ≡ (ok (some (object_at t position inside)), d))
        × SameClient d
  unfolding map map_found map_last
  map_mapped position limit t inside =
      let p = place t position inside in
      elim (Bool-cases (suc p.stripe.stripe_id == v.view.object_map.next_stripe_id)) [
        | inr b ↦ (c, rw (p.mapped, b) refl, (refl, refl))
        | inl b ↦
            let m = max_position_mapped v.view.object_map position _ _ p.mapped in
            (
              async_expand_view c (add64 m.0 1),
              rw (p.mapped, b, m.1) refl,
              async_expand_view-SameClient _,
            )
      ]

  -- A position that is not mapped.
  pub map_past :
      (position limit : ℕ)
      → IsTiled v.view.object_map limit
      → limit ≤ position
      → map c v position ≡ (ok none, c)
  unfolding map map_found
  map_past position limit t over = rw (map_position_past t position over) refl
