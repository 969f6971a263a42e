-- ===== src/ObjectMap/Stability.antt =====
-- Expanding an object map leaves every mapped position at its object.
use mathlib.Core.Path.{subst₂}
use zlog.Base.{
  ℕ, ◌+◌, ◌≤◌, ◌<◌, ◌≡◌, refl, ap, ◌⊎◌, inl, inr, Bool, true, false, Option, some, none, [], ◌∷◌,
  Outcome, ok, arith, u64_mod, Text, ◌>>=◌, ltb, if◌then◌else◌, Bool-cases, leb, leb→le,
}
use zlog.Base.OrdMap.{OrdMap, last, floor}
use zlog.Options.{Options}
use zlog.Stripe.{MultiStripe}
use zlog.ObjectMap.{ObjectMap, map_position, advance_min_valid_position}
use zlog.ObjectMap.Tiling.{IsTiled, Found}
use zlog.ObjectMap.Lookup.{Tiles-filled, found_at, place_mapped}
use zlog.ObjectMap.Expand.{expand_mapping}
use zlog.ObjectMap.Grown.{Sensible, SameShape, SameShapes, growth}
use zlog.ObjectMap.Rounds.{object_map, object_map-IsTiled, make_object_map_tiled}
use zlog.ObjectMap.Expansion.{Extends, expand_mapping_expands}

-- The object of a position, if there is one.
abbrev pub object_of : ObjectMap → ℕ → Outcome (Option Text)
object_of om position = map_position om position >>= λ r. ok r.0

abbrev Entry : Type 0
Entry = (ℕ × MultiStripe) × OrdMap MultiStripe

abbrev SameFound : Option Entry → Option Entry → Type 0
SameFound none none = Unit
SameFound none (some b) = ⊥
SameFound (some a) none = ⊥
SameFound (some ((k, m), xs)) (some ((j, n), ys)) = (k ≡ j) × SameShape m n

floor_guard :
    (c d : Bool) (x y : Option Entry)
    → c ≡ d
    → SameFound x y
    → SameFound (if c then none else x) (if d then none else y)
floor_guard true true x y e f = tt
floor_guard true false x y e f = cc
floor_guard false true x y e f = cc
floor_guard false false x y e f = f

floor_step :
    (p k j : ℕ) (a b : MultiStripe) (xs ys : OrdMap MultiStripe) (r s : Option Entry)
    → k ≡ j
    → SameShape a b
    → SameFound r s
    → SameFound
        (if ltb p k then none else elim r [ none ↦ some ((k, a), xs) | some e ↦ some e ])
        (if ltb p j then none else elim s [ none ↦ some ((j, b), ys) | some e ↦ some e ])
floor_step p k j a b xs ys none none e h f =
    floor_guard (ltb p k) (ltb p j) (some ((k, a), xs)) (some ((j, b), ys)) (ap (ltb p) e) (e, h)
floor_step p k j a b xs ys none (some s) e h f = elim f [ ]
floor_step p k j a b xs ys (some r) none e h f = elim f [ ]
floor_step p k j a b xs ys (some r) (some s) e h f =
    floor_guard (ltb p k) (ltb p j) (some r) (some s) (ap (ltb p) e) f

floor-SameShapes :
    (p : ℕ) (xs ys : OrdMap MultiStripe) → SameShapes xs ys → SameFound (floor p xs) (floor p ys)
unfolding floor
floor-SameShapes p [] [] h = tt
floor-SameShapes p [] (y ∷ ys) h = elim h [ ]
floor-SameShapes p (x ∷ xs) [] h = elim h [ ]
floor-SameShapes p ((k, a) ∷ xs) ((j, b) ∷ ys) h =
    floor_step p k j a b xs ys (floor p xs) (floor p ys) h.0 h.1 (floor-SameShapes p xs ys h.2)

module _ {a b : ObjectMap} {limit end : ℕ} (t : IsTiled a limit) (u : IsTiled b end)
    (shapes : SameShapes a.stripes_by_pos b.stripes_by_pos) (longer : limit ≤ end) (p : ℕ)
    (inside : p < limit) where
  here : Found p 0 a.stripes_by_pos limit a.next_stripe_id
  here =
      found_at t p (Tiles-filled 0 0 a.stripes_by_pos limit a.next_stripe_id t.tiles (omega arith))

  there : Found p 0 b.stripes_by_pos end b.next_stripe_id
  there =
      found_at u p (Tiles-filled 0 0 b.stripes_by_pos end b.next_stripe_id u.tiles (omega arith))

  same_found :
      SameFound
        (some ((here.key, here.stripe), here.after))
        (some ((there.key, there.stripe), there.after))
  same_found =
      subst₂ SameFound here.found there.found
        (floor-SameShapes p a.stripes_by_pos b.stripes_by_pos shapes)

  same_id : here.id ≡ there.id
  same_id = omega (arith, here.tile.based, there.tile.based, same_found.1.0)

  kept_object : object_of b p ≡ object_of a p
  kept_object =
      rw (place_mapped u p there (omega arith), place_mapped t p here inside)
        (cc (same_found.0, same_found.1.1, same_found.1.2, same_id))

object_of-Extends :
    {a b : ObjectMap} {limit end : ℕ}
    → IsTiled a limit
    → IsTiled b end
    → limit ≤ end
    → Extends a b
    → (p : ℕ) → p < limit
    → object_of b p ≡ object_of a p
object_of-Extends {a} {b} {limit} {end} t u le x p h = elim x.0 [
  | inl e ↦
      absurd (Tiles-filled 0 0 a.stripes_by_pos limit a.next_stripe_id t.tiles (omega arith) e)
  | inr shapes ↦ kept_object t u shapes le p h
]

-- A position that the map does not hold: the loop ends, with a tiled map that holds it, that has
-- no stripe more than this takes, keeps the trim point, and maps every position of the old map to
-- its old object.
pub expand_mapping_lem :
    (om : ObjectMap) (limit position : ℕ) (options : Options)
    → IsTiled om limit
    → Sensible options
    → limit ≤ position
    → position + growth options (last om.stripes_by_pos) < u64_mod
    → (next : ObjectMap) × (end : ℕ) × (expand_mapping om position options ≡ ok (some next))
      × IsTiled next end
      × (position < end)
      × (end ≤ position + growth options (last om.stripes_by_pos))
      × (next.min_valid_position ≡ om.min_valid_position)
      × ((p : ℕ) → p < limit → object_of next p ≡ object_of om p)
expand_mapping_lem om limit position options t sensible low room =
    let x = expand_mapping_expands options sensible om limit position t low room in
    (
      x.next,
      x.limit,
      x.returns,
      x.tiled,
      x.mapped,
      x.tight,
      x.extends.1,
      λ p h. object_of-Extends t x.tiled (omega (arith, x.mapped)) x.extends p h,
    )

-- The trim point only rises, and the layout stays.
pub advance_min_valid_position_lem :
    (om : ObjectMap) (limit position : ℕ)
    → IsTiled om limit
    → ((position ≤ om.min_valid_position) × (advance_min_valid_position om position ≡ ok none))
      ⊎ ((om.min_valid_position < position)
          × (next : ObjectMap) × (advance_min_valid_position om position ≡ ok (some next))
          × (next.min_valid_position ≡ position)
          × IsTiled next limit
          × ((p : ℕ) → map_position next p ≡ map_position om p))
unfolding advance_min_valid_position map_position
advance_min_valid_position_lem om limit position t =
    elim (Bool-cases (leb position om.min_valid_position)) [
      | inl low ↦ inl (leb→le position om.min_valid_position low, rw low)
      | inr high ↦ inr (
        ground arith,
        object_map om.next_stripe_id om.stripes_by_pos position,
        rw (high, make_object_map_tiled om.next_stripe_id om.stripes_by_pos position limit t.tiles),
        refl,
        object_map-IsTiled om.next_stripe_id om.stripes_by_pos position limit t.tiles,
        λ p. refl,
      )
    ]
