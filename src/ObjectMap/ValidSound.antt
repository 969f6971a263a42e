-- ===== src/ObjectMap/ValidSound.antt =====
-- What `ObjectMap::valid` accepts is a tiling.
use mathlib.Core.Path.{subst, subst₂}
use zlog.Base.{ℕ, ◌+◌, ◌≡◌, ◌↔◌, refl, ◌∙◌, Bool, true, ◌&&◌, [], ◌∷◌, arith, All}
use zlog.Base.OrdMap.{OrdMap, emplace, last}
use zlog.Stripe.{MultiStripe}
use zlog.ObjectMap.{
  ObjectMap, index_by_id, same_stripes, keys_agree, next_id_agrees, starts_at_zero, adjacent_after,
  adjacent, valid,
}
use zlog.ObjectMap.Tile.{IsTile, span, max_stripe_id_tile}
use zlog.ObjectMap.Tiling.{Tiles, IsTiled, last_tile}
use zlog.ObjectMap.Valid.{IsBuilt, valid_tiled, same_stripes_sound, index_by_id_tiled}

abbrev IsKeyed : ℕ × MultiStripe → Type 0
IsKeyed e = e.0 ≡ e.1.min_position

keys_agree_sound : (tmp ms : OrdMap MultiStripe) → keys_agree tmp ms ≡ true → All IsKeyed ms
unfolding keys_agree
keys_agree_sound tmp [] h = tt
keys_agree_sound tmp ((k, m) ∷ ms) h =
    (ground arith, keys_agree_sound (emplace m.base_id m tmp) ms (ground arith))

next_position :
    (m : MultiStripe) (k : ℕ) (n : MultiStripe) (ms : OrdMap MultiStripe)
    → IsTile m.min_position m.base_id m
    → k ≡ n.min_position
    → adjacent_after m ((k, n) ∷ ms) ≡ true
    → (n.min_position ≡ m.min_position + span m)
      × (n.base_id ≡ m.base_id + m.instances)
      × (adjacent_after n ms ≡ true)
unfolding adjacent_after
next_position m k n ms t e h =
    ground (arith, t.ends, t.positions_fit, t.ids_fit, t.instances_pos, max_stripe_id_tile t)

abbrev Tiling : ℕ → ℕ → OrdMap MultiStripe → Type 0
Tiling p i ms = (q : ℕ) × (j : ℕ) × Tiles p i ms q j

tiles_of_adjacent :
    (k : ℕ) (m : MultiStripe) (ms : OrdMap MultiStripe)
    → IsTile m.min_position m.base_id m
    → All IsBuilt ms
    → k ≡ m.min_position
    → All IsKeyed ms
    → adjacent_after m ms ≡ true
    → Tiling m.min_position m.base_id ((k, m) ∷ ms)
tiles_of_adjacent k m [] t built e keyed h =
    (m.min_position + span m, m.base_id + m.instances, (e, t, (refl, refl)))
tiles_of_adjacent k m ((k', n) ∷ ms) t built e keyed h =
    let step = next_position m k' n ms t keyed.0 h in
    let rest = tiles_of_adjacent k' n ms built.0 built.1 keyed.0 keyed.1 step.2 in
    let moved = subst₂ (λ p i. Tiling p i ((k', n) ∷ ms)) step.0 step.1 rest in
    (moved.0, moved.1, (e, t, moved.2))

Tiling-of_checks :
    (ms : OrdMap MultiStripe)
    → All IsBuilt ms
    → All IsKeyed ms
    → starts_at_zero ms ≡ true
    → adjacent ms ≡ true
    → Tiling 0 0 ms
unfolding starts_at_zero adjacent
Tiling-of_checks [] built keyed s h = (0, 0, (refl, refl))
Tiling-of_checks ((k, m) ∷ ms) built keyed s h =
    subst₂ (λ p i. Tiling p i ((k, m) ∷ ms)) (ground (arith, keyed.0)) (ground arith)
      (tiles_of_adjacent k m ms built.0 built.1 keyed.0 keyed.1 h)

next_id_sound :
    (next : ℕ) (ms : OrdMap MultiStripe) (q j : ℕ)
    → Tiles 0 0 ms q j
    → next_id_agrees next (last ms) ≡ true
    → j ≡ next
unfolding next_id_agrees
next_id_sound next [] q j t h = unfold last in ground arith
next_id_sound next ((k, m) ∷ ms) q j t h =
    let r = last_tile 0 0 k m ms q j t in
    ground (
      arith,
      rw r.is_last at h,
      r.end_id,
      r.tile.ids_fit,
      r.tile.instances_pos,
      max_stripe_id_tile r.tile,
    )

-- The parts of an accepted map.
pub record Checked (om : ObjectMap) : Type 0 where
  pub keys : keys_agree [] om.stripes_by_pos ≡ true
  pub index : same_stripes om.stripes_by_id (index_by_id [] om.stripes_by_pos) ≡ true
  pub next_id : next_id_agrees om.next_stripe_id (last om.stripes_by_pos) ≡ true
  pub origin : starts_at_zero om.stripes_by_pos ≡ true
  pub contiguous : adjacent om.stripes_by_pos ≡ true

and_sound :
    (a b c d e : Bool)
    → (a && b && c && d && e) ≡ true
    → (a ≡ true) × (b ≡ true) × (c ≡ true) × (d ≡ true) × (e ≡ true)
and_sound a b c d e h = ground arith

checked : (om : ObjectMap) → valid om ≡ true → Checked om
unfolding valid
checked om h =
    let parts = and_sound _ _ _ _ _ h in
    record {
      keys = parts.0;
      index = parts.1;
      next_id = parts.2;
      origin = parts.3;
      contiguous = parts.4;
    }

IsTiled-of_Checked :
    (om : ObjectMap) → All IsBuilt om.stripes_by_pos → Checked om → (limit : ℕ) × IsTiled om limit
IsTiled-of_Checked om built c =
    let r =
      Tiling-of_checks om.stripes_by_pos built (keys_agree_sound [] om.stripes_by_pos c.keys)
        c.origin c.contiguous in
    let same = next_id_sound om.next_stripe_id om.stripes_by_pos r.0 r.1 r.2 c.next_id in
    (
      r.0,
      record {
        tiles = subst (Tiles 0 0 om.stripes_by_pos r.0) same r.2;
        indexed =
            same_stripes_sound om.stripes_by_id _ c.index
            ∙ index_by_id_tiled om.stripes_by_pos r.0 r.1 r.2;
      },
    )

-- Among the object maps whose multi-stripes were built within the limits of their number types,
-- `valid` accepts one exactly if its stripes fill the positions and the stripe ids from zero up
-- without a gap or an overlap, and its secondary index holds the same stripes under their ids.
pub valid_iff_IsTiled :
    (om : ObjectMap)
    → All IsBuilt om.stripes_by_pos
    → (valid om ≡ true) ↔ ((limit : ℕ) × IsTiled om limit)
valid_iff_IsTiled om built =
    (λ h. IsTiled-of_Checked om built (checked om h), λ t. valid_tiled om t.0 t.1)
