-- ===== src/ObjectMap/Tests.antt =====
-- The object map of src/libzlog/object_map.cc on one layout: two stripes of ten objects with five
-- slots, the default options, in one multi-stripe.
use zlog.Base.{
  ℕ, zero, suc, ◌+◌, ◌%◌, ◌*◌, ◌≤◌, ◌<◌, ◌≡◌, ◌↔◌, ◌⊎◌, inl, refl, true, false, Bool, Option, none,
  some, List, [], ◌∷◌, Text, codes, ok, arith, All, u64_mod, Outcome,
}
use zlog.Base.OrdMap.{last}
use zlog.Options.{Options}
use zlog.Stripe.{Stripe, MultiStripe, make_oid}
use zlog.ObjectMap.{ObjectMap, valid, map_position, stripe_by_id, advance_min_valid_position}
use zlog.ObjectMap.Expand.{expand_mapping}
use zlog.ObjectMap.MapTo.{map_to}
use zlog.ObjectMap.Tile.{IsTile}
use zlog.ObjectMap.Tiling.{IsTiled}
use zlog.ObjectMap.Grown.{Sensible, growth}
use zlog.ObjectMap.ValidSound.{valid_iff_IsTiled}
use zlog.ObjectMap.Objects.{map_position_same_object}
use zlog.ObjectMap.Stability.{object_of, expand_mapping_lem, advance_min_valid_position_lem}
use zlog.ObjectMap.Coverage.{flag_of}
use zlog.ObjectMap.Iteration.{map_to_covers, map_to_ends}

abbrev two_stripes : MultiStripe
two_stripes = record {
  base_id = 0;
  width = 10;
  slots = 5;
  min_position = 0;
  instances = 2;
  max_position = 99;
}

abbrev layout : ObjectMap
layout = record {
  next_stripe_id = 2;
  stripes_by_pos = (0, two_stripes) ∷ [];
  stripes_by_id = (0, two_stripes) ∷ [];
  min_valid_position = 3;
}

abbrev defaults : Options
defaults = record {
  create_initial_view_stripes = true;
  init_stripe_on_create = true;
  stripe_width = 10;
  stripe_slots = 5;
  max_inflight_ops = 1024;
}

two_stripes-IsTile : IsTile 0 0 two_stripes
two_stripes-IsTile = record {
  width_pos = omega arith;
  slots_pos = omega arith;
  instances_pos = omega arith;
  size_fits = omega arith;
  starts = refl;
  based = refl;
  ends = refl;
  positions_fit = omega arith;
  ids_fit = omega arith;
  origin = inl (refl, refl);
}

layout-IsTiled : IsTiled layout 100
layout-IsTiled = record { tiles = (refl, two_stripes-IsTile, (refl, refl)); indexed = refl }

defaults-Sensible : Sensible defaults
defaults-Sensible = omega arith

valid-layout : valid layout ≡ true
unfolding valid zlog.Base.OrdMap.find zlog.Base.OrdMap.emplace last zlog.Stripe.max_stripe_id
valid-layout = refl

maps_7 : map_position layout 7 ≡ ok (some (codes "0.7"), false)
unfolding map_position zlog.Base.OrdMap.floor make_oid zlog.Base.Decimal.decimal
maps_7 = refl

maps_17 : map_position layout 17 ≡ ok (some (codes "0.7"), false)
unfolding map_position zlog.Base.OrdMap.floor make_oid zlog.Base.Decimal.decimal
maps_17 = refl

maps_52 : map_position layout 52 ≡ ok (some (codes "1.2"), true)
unfolding map_position zlog.Base.OrdMap.floor make_oid zlog.Base.Decimal.decimal
maps_52 = refl

past_the_end : map_position layout 100 ≡ ok (none, false)
unfolding map_position zlog.Base.OrdMap.floor
past_the_end = refl

abbrev second : Stripe
second = record {
  stripe_id = 1;
  width = 10;
  min_position = 50;
  max_position = 99;
  oids =
      codes "1.0"
      ∷ codes "1.1"
      ∷ codes "1.2"
      ∷ codes "1.3"
      ∷ codes "1.4"
      ∷ codes "1.5"
      ∷ codes "1.6"
      ∷ codes "1.7"
      ∷ codes "1.8"
      ∷ codes "1.9"
      ∷ [];
}

finds_second : stripe_by_id layout 1 ≡ ok second
unfolding stripe_by_id zlog.Base.OrdMap.floor zlog.Stripe.make_stripe zlog.Stripe.make_oids make_oid
    zlog.Base.Decimal.decimal
finds_second = refl

valid_iff_IsTiled_example : (valid layout ≡ true) ↔ ((limit : ℕ) × IsTiled layout limit)
valid_iff_IsTiled_example = valid_iff_IsTiled layout (two_stripes-IsTile, tt)

map_position_same_object_example :
    (s : Stripe) × (stripe_by_id layout s.stripe_id ≡ ok s)
    × (s.min_position ≤ 7)
    × (7 ≤ s.max_position)
    × (s.min_position ≤ 17)
    × (17 ≤ s.max_position)
    × (7 % s.width ≡ 17 % s.width)
map_position_same_object_example =
    map_position_same_object 7 17 layout-IsTiled (omega arith) (omega arith) maps_7 maps_17

expand_mapping_lem_example :
    (next : ObjectMap) × (end : ℕ) × (expand_mapping layout 120 defaults ≡ ok (some next))
    × IsTiled next end
    × (120 < end)
    × (end ≤ 120 + growth defaults (last layout.stripes_by_pos))
    × (next.min_valid_position ≡ 3)
    × ((p : ℕ) → p < 100 → object_of next p ≡ object_of layout p)
expand_mapping_lem_example =
    expand_mapping_lem layout 100 120 defaults layout-IsTiled defaults-Sensible (omega arith) room
  where
    room : 120 + growth defaults (last layout.stripes_by_pos) < u64_mod
    room = unfold last in omega arith

advance_min_valid_position_lem_example :
    ((9 ≤ 3) × (advance_min_valid_position layout 9 ≡ ok none))
    ⊎ ((3 < 9)
        × (next : ObjectMap) × (advance_min_valid_position layout 9 ≡ ok (some next))
        × (next.min_valid_position ≡ 9)
        × IsTiled next 100
        × ((p : ℕ) → map_position next p ≡ map_position layout p))
advance_min_valid_position_lem_example = advance_min_valid_position_lem layout 100 9 layout-IsTiled

map_to_covers_example :
    (objects : List (Text × Bool)) × (map_to layout 52 1 false
      ≡ ok (record { objects = some objects; stripe_id = 2; done = false }))
    × ((i : ℕ)
        → i < 10
        → ((flag_of (make_oid 1 i) objects ≡ some true)
            ↔ ((p : ℕ) → 50 ≤ p → p ≤ 99 → p % 10 ≡ i → p ≤ 52))
          × ((flag_of (make_oid 1 i) objects ≡ none)
              ↔ ((p : ℕ) → 50 ≤ p → p ≤ 99 → p % 10 ≡ i → 52 < p)))
map_to_covers_example =
    map_to_covers 52 1 second layout-IsTiled (omega arith) (omega arith) finds_second refl

map_to_ends_example :
    ((100 ≤ 52)
      × (map_to layout 52 2 false ≡ ok (record { objects = none; stripe_id = 2; done = false })))
    ⊎ ((52 < 100)
        × (2 ≤ 2)
        × (map_to layout 52 2 false
            ≡ ok (record { objects = some []; stripe_id = 2; done = true })))
    ⊎ ((52 < 100)
        × (2 < 2)
        × (objects : List (Text × Bool)) × (map_to layout 52 2 false
            ≡ ok (record { objects = some objects; stripe_id = 3; done = false })))
map_to_ends_example = map_to_ends 52 2 layout-IsTiled
