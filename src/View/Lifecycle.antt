-- ===== src/View/Lifecycle.antt =====
-- From the initial view of a log to the views that follow it: src/libzlog/view.cc.
use zlog.Base.{
  ℕ, ◌+◌, ◌*◌, ◌≤◌, ◌<◌, ◌≡◌, refl, true, Option, none, some, [], ◌∷◌, Text, ok, arith, u64_mod,
  mul32_lem, if◌then◌else◌, inl, inr, Bool-cases,
}
use zlog.Base.OrdMap.{last, emplace}
use zlog.Options.{Options}
use zlog.Stripe.{make_multi_stripe}
use zlog.ObjectMap.{ObjectMap, make_object_map}
use zlog.ObjectMap.Tile.{size_pos}
use zlog.ObjectMap.Tiling.{IsTiled, Tiles}
use zlog.ObjectMap.Grown.{Sensible, growth, first_stripe, first-IsTile, product_lem}
use zlog.ObjectMap.Rounds.{object_map, object_map-IsTiled, make_object_map_tiled}
use zlog.ObjectMap.Stability.{object_of, expand_mapping_lem}
use zlog.View.{
  View, ViewTable, ObjectMapTable, create_initial, initial_stripes, initial_object_map, encode_view,
  decode_view, decode_table, decode_object_map, expand_view,
}
use zlog.View.Codec.{IsConfigured, decode_encode_object_map, decode_encode_view}

-- The positions that the initial view maps.
abbrev pub initial_limit : Options → ℕ
initial_limit options =
    if options.create_initial_view_stripes then options.stripe_width * options.stripe_slots else 0

initial_stripes_lem :
    (options : Options)
    → Sensible options
    → options.create_initial_view_stripes ≡ true
    → initial_stripes options ≡ ok ((0, first_stripe options) ∷ [])
unfolding initial_stripes make_multi_stripe emplace
initial_stripes_lem options sensible h = rw h (
    ground (
      arith,
      sensible.width_pos,
      sensible.slots_pos,
      sensible.size_fits,
      mul32_lem options.stripe_width options.stripe_slots,
      product_lem 1 options.stripe_width options.stripe_slots,
      size_pos options.stripe_width options.stripe_slots,
    ))

first-Tiles :
    (options : Options)
    → Sensible options
    → Tiles 0 0 ((0, first_stripe options) ∷ []) (options.stripe_width * options.stripe_slots) 1
first-Tiles options sensible = (refl, first-IsTile options sensible, (omega arith, refl))

module _ (options : Options) (sensible : Sensible options) where
  abbrev first_map : ObjectMap
  first_map = object_map 1 ((0, first_stripe options) ∷ []) 0

  first_map-IsTiled : IsTiled first_map (options.stripe_width * options.stripe_slots)
  first_map-IsTiled =
      object_map-IsTiled 1 ((0, first_stripe options) ∷ []) 0 _ (first-Tiles options sensible)

  made : make_object_map 1 ((0, first_stripe options) ∷ []) 0 ≡ ok first_map
  made = make_object_map_tiled 1 ((0, first_stripe options) ∷ []) 0 _ (first-Tiles options sensible)

  first_table :
      (t : ObjectMapTable) × (initial_object_map ((0, first_stripe options) ∷ []) ≡ ok t)
      × (decode_object_map (some t) ≡ ok first_map)
  unfolding initial_object_map
  first_table =
      let t = decode_encode_object_map first_map _ first_map-IsTiled in (t.0, rw (made) (t.1), t.2)

module _ (serialize : ViewTable → Text) (parse : Text → Option ViewTable)
    (finished : (t : ViewTable) → parse (serialize t) ≡ some t) where
  -- The initial view can be decoded: its object map is well formed and maps the positions of one
  -- stripe, or none if the options say so, and it has no sequencer.
  pub create_initial_lem :
      (options : Options)
      → Sensible options
      → (bytes : Text) × (view : View) × (create_initial serialize options ≡ ok bytes)
        × (decode_view parse bytes ≡ ok view)
        × IsTiled view.object_map (initial_limit options)
        × (view.seq_config ≡ none)
        × (view.object_map.min_valid_position ≡ 0)
  unfolding create_initial decode_view last
  create_initial_lem options sensible = elim (Bool-cases options.create_initial_view_stripes) [
    | inl made_one ↦
        let t = first_table options sensible in
        (
          serialize (record { object_map = some t.0; sequencer = none }),
          record { object_map = first_map options sensible; seq_config = none },
          rw (initial_stripes_lem options sensible made_one, t.1) refl,
          rw (finished (record { object_map = some t.0; sequencer = none }), decode_table, t.2)
              refl,
          rw made_one (first_map-IsTiled options sensible),
          refl,
          refl,
        )
    | inr made_none ↦ (
      serialize (record { object_map = some empty_table; sequencer = none }),
      record { object_map = object_map 0 [] 0; seq_config = none },
      rw (initial_stripes, made_none) refl,
      rw (finished (record { object_map = some empty_table; sequencer = none }), decode_table)
          (unfold decode_object_map make_object_map in refl),
      rw made_none (object_map-IsTiled 0 [] 0 0 (refl, refl)),
      refl,
      refl,
    )
  ]
    where
      empty_table : ObjectMapTable
      empty_table = record { next_stripe_id = 0; stripes = none; min_valid_position = 0 }

  -- A view that is expanded to a position that it does not map, and then stored and read again, maps
  -- that position, keeps every position that it mapped at its object, and keeps its sequencer.
  pub expand_view_stored :
      (view : View) (limit position : ℕ) (options : Options)
      → IsTiled view.object_map limit
      → IsConfigured view.seq_config
      → Sensible options
      → limit ≤ position
      → position + growth options (last view.object_map.stripes_by_pos) < u64_mod
      → (next : View) × (end : ℕ) × (bytes : Text) × (expand_view view position options
          ≡ ok (some next))
        × (encode_view serialize next ≡ ok bytes)
        × (decode_view parse bytes ≡ ok next)
        × IsTiled next.object_map end
        × (position < end)
        × (next.seq_config ≡ view.seq_config)
        × ((p : ℕ) → p < limit → object_of next.object_map p ≡ object_of view.object_map p)
  unfolding expand_view
  expand_view_stored view limit position options t configured sensible low room =
      let x = expand_mapping_lem view.object_map limit position options t sensible low room in
      let next : View = record { object_map = x.0; seq_config = view.seq_config } in
      let stored = decode_encode_view serialize parse finished next x.1 x.3 configured in
      (next, x.1, stored.0, rw (x.2) refl, stored.1, stored.2, x.3, x.4, refl, x.7)
