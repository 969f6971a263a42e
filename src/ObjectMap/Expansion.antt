-- ===== src/ObjectMap/Expansion.antt =====
-- `expand_mapping` on a tiled object map: it ends, maps the position, and moves nothing.
use native.Mathlib.Decide.{dec_lt}
use zlog.Base.{
  ℕ, zero, suc, ◌+◌, ◌≤◌, ◌<◌, ◌≡◌, refl, ◌∙◌, ◌≢◌, ◌⊎◌, inl, inr, true, false, Option, some, [],
  Outcome, ok, arith, u64_mod, add64, add64_lem,
}
use zlog.Base.OrdMap.{last}
use zlog.Options.{Options}
use zlog.ObjectMap.{ObjectMap, make_object_map}
use zlog.ObjectMap.Tiling.{IsTiled}
use zlog.ObjectMap.Lookup.{place, map_position_past, Tiles-filled}
use zlog.ObjectMap.Expand.{expand_round, expand_loop, expand_mapping}
use zlog.ObjectMap.Grown.{Grown, Sensible, SameShapes, SameShapes-trans, growth}
use zlog.ObjectMap.Rounds.{
  ids_le, grow_tiled, growth_pos, object_map, object_map-IsTiled, make_object_map_tiled,
}

-- A map that has the stripes of another, and perhaps more.
abbrev pub Extends : ObjectMap → ObjectMap → Type 0
Extends old new =
    ((old.stripes_by_pos ≡ []) ⊎ SameShapes old.stripes_by_pos new.stripes_by_pos)
    × (new.min_valid_position ≡ old.min_valid_position)

module _ (options : Options) (sensible : Sensible options) where
  pub record Round (om : ObjectMap) (limit : ℕ) : Type 0 where
    pub next : ObjectMap
    pub tiled : IsTiled next (limit + growth options (last om.stripes_by_pos))
    pub same_growth :
        growth options (last next.stripes_by_pos) ≡ growth options (last om.stripes_by_pos)
    pub extends : Extends om next
    pub filled : next.stripes_by_pos ≢ []
    pub mapped :
        (position : ℕ)
        → position < limit + growth options (last om.stripes_by_pos)
        → expand_round options position om ≡ ok (next, true)
    pub unmapped :
        (position : ℕ)
        → limit + growth options (last om.stripes_by_pos) ≤ position
        → expand_round options position om ≡ ok (next, false)

  module _ (om : ObjectMap) (limit : ℕ) (t : IsTiled om limit)
      (g : Grown options om.stripes_by_pos limit om.next_stripe_id)
      (room : limit + growth options (last om.stripes_by_pos) < u64_mod) where
    abbrev grown_map : ObjectMap
    grown_map = object_map (om.next_stripe_id + 1) g.stripes om.min_valid_position

    grown-IsTiled : IsTiled grown_map (limit + growth options (last om.stripes_by_pos))
    grown-IsTiled =
        object_map-IsTiled (om.next_stripe_id + 1) g.stripes om.min_valid_position _ g.tiles

    ids_fit : om.next_stripe_id + 1 < u64_mod
    ids_fit = omega (
      arith,
      ids_le 0 0 om.stripes_by_pos limit om.next_stripe_id t.tiles,
      growth_pos options sensible om.stripes_by_pos limit om.next_stripe_id t.tiles,
    )

    made :
        make_object_map (add64 om.next_stripe_id 1) g.stripes om.min_valid_position ≡ ok grown_map
    made =
        rw (add64_lem om.next_stripe_id 1 ids_fit)
          (make_object_map_tiled (om.next_stripe_id + 1) g.stripes om.min_valid_position _ g.tiles)

    round_mapped :
        (position : ℕ)
        → position < limit + growth options (last om.stripes_by_pos)
        → expand_round options position om ≡ ok (grown_map, true)
    unfolding expand_round
    round_mapped position h = rw (g.grown, made, (place grown-IsTiled position h).mapped)

    round_unmapped :
        (position : ℕ)
        → limit + growth options (last om.stripes_by_pos) ≤ position
        → expand_round options position om ≡ ok (grown_map, false)
    unfolding expand_round
    round_unmapped position h = rw (g.grown, made, map_position_past grown-IsTiled position h)

    round : Round om limit
    round = record {
      next = grown_map;
      tiled = grown-IsTiled;
      same_growth = g.same_growth;
      extends = (g.shapes, refl);
      filled =
          Tiles-filled 0 0 g.stripes (limit + growth options (last om.stripes_by_pos))
            (om.next_stripe_id + 1) g.tiles
            (omega (
              arith,
              growth_pos options sensible om.stripes_by_pos limit om.next_stripe_id t.tiles,
            ));
      mapped = round_mapped;
      unmapped = round_unmapped;
    }

  one-Round :
      (om : ObjectMap) (limit : ℕ)
      → IsTiled om limit
      → limit + growth options (last om.stripes_by_pos) < u64_mod
      → Round om limit
  one-Round om limit t room =
      round om limit t
        (grow_tiled options sensible om.stripes_by_pos limit om.next_stripe_id t.tiles room) room

  pub record Expanded (om : ObjectMap) (position : ℕ) (result : Outcome (Option ObjectMap))
      : Type 0 where
    pub next : ObjectMap
    pub limit : ℕ
    pub returns : result ≡ ok (some next)
    pub tiled : IsTiled next limit
    pub mapped : position < limit
    pub tight : limit ≤ position + growth options (last om.stripes_by_pos)
    pub extends : Extends om next

  Extends-trans :
      (a b c : ObjectMap) → b.stripes_by_pos ≢ [] → Extends a b → Extends b c → Extends a c
  Extends-trans a b c filled x y = (stripes x.0 y.0, y.1 ∙ x.1)
    where
      stripes :
          (a.stripes_by_pos ≡ []) ⊎ SameShapes a.stripes_by_pos b.stripes_by_pos
          → (b.stripes_by_pos ≡ []) ⊎ SameShapes b.stripes_by_pos c.stripes_by_pos
          → (a.stripes_by_pos ≡ []) ⊎ SameShapes a.stripes_by_pos c.stripes_by_pos
      stripes (inl e) y = inl e
      stripes (inr h) (inl e) = absurd (filled e)
      stripes (inr h) (inr k) =
          inr (SameShapes-trans a.stripes_by_pos b.stripes_by_pos c.stripes_by_pos h k)

  loop_expands :
      (fuel : ℕ) (om : ObjectMap) (limit position : ℕ)
      → IsTiled om limit
      → limit ≤ position
      → position < limit + fuel
      → position + growth options (last om.stripes_by_pos) < u64_mod
      → Expanded om position (expand_loop fuel options position om)
  unfolding expand_loop
  loop_expands zero om limit position t low enough room = absurd (omega arith)
  loop_expands (suc fuel) om limit position t low enough room =
      let r = one-Round om limit t (omega arith) in
      elim (dec_lt position (limit + growth options (last om.stripes_by_pos))) [
        | yes inside ↦ record {
          next = r.next;
          limit = limit + growth options (last om.stripes_by_pos);
          returns = rw (r.mapped position inside);
          tiled = r.tiled;
          mapped = inside;
          tight = omega arith;
          extends = r.extends;
        }
        | no outside ↦
            (let rest =
                loop_expands fuel r.next (limit + growth options (last om.stripes_by_pos)) position
                  r.tiled (omega arith)
                  (omega (
                    arith,
                    growth_pos options sensible om.stripes_by_pos limit om.next_stripe_id t.tiles,
                  ))
                  (omega (arith, r.same_growth)) in
              record {
                next = rest.next;
                limit = rest.limit;
                returns = rw (r.unmapped position (omega arith)) rest.returns;
                tiled = rest.tiled;
                mapped = rest.mapped;
                tight = omega (arith, rest.tight, r.same_growth);
                extends = Extends-trans om r.next rest.next r.filled r.extends rest.extends;
              })
      ]

  pub expand_mapping_expands :
      (om : ObjectMap) (limit position : ℕ)
      → IsTiled om limit
      → limit ≤ position
      → position + growth options (last om.stripes_by_pos) < u64_mod
      → Expanded om position (expand_mapping om position options)
  unfolding expand_mapping
  expand_mapping_expands om limit position t low room =
      rw (map_position_past t position low)
        (loop_expands (suc position) om limit position t low (omega arith) room)
