-- ===== src/View/Codec.antt =====
-- A view that is encoded and decoded is the same view.
use zlog.Base.{
  ℕ, ◌+◌, ◌*◌, ◌<◌, ◌≡◌, refl, sym, ap, ◌∙◌, false, Option, none, some, List, [], ◌∷◌, ◌++◌, Text,
  ok, is_empty, All, arith, ==_refl, lt→ltb,
}
use mathlib.Core.List.{append-nil, append_assoc}
use zlog.Base.OrdMap.{
  OrdMap, emplace, KeysBelow, KeysBelow-mono, KeysBelow-snoc, find_above, emplace_above,
}
use zlog.Stripe.{MultiStripe, make_multi_stripe}
use zlog.ObjectMap.{ObjectMap, make_object_map}
use zlog.ObjectMap.Tile.{IsTile, span, size_pos}
use zlog.ObjectMap.Tiling.{Tiles, IsTiled, tile_grows}
use zlog.ObjectMap.Grown.{product_lem}
use zlog.ObjectMap.Rounds.{object_map, make_object_map_tiled}
use zlog.ObjectMap.Valid.{index_by_id_tiled}
use zlog.View.{
  View, ViewTable, ObjectMapTable, SequencerTable, StripeTable, SequencerConfig, encode_stripe,
  decode_stripe, encode_stripes, decode_stripes, encode_object_map, decode_object_map, c_str,
  encode_config, decode_config, encode_view, decode_view, decode_table,
}

-- The token has no zero byte.
abbrev pub IsPlain : Text → Type 0
IsPlain = All (λ c. 0 < c)

pub record IsConfig (config : SequencerConfig) : Type 0 where
  pub epoch_pos : 0 < config.epoch
  pub named : is_empty config.token ≡ false
  pub plain : IsPlain config.token

abbrev pub IsConfigured : Option SequencerConfig → Type 0
IsConfigured none = Unit
IsConfigured (some config) = IsConfig config

decode_encode_stripe :
    {p i : ℕ} {m : MultiStripe} → IsTile p i m → decode_stripe (encode_stripe m) ≡ ok m
unfolding decode_stripe make_multi_stripe
decode_encode_stripe {p} {i} {m} t = ground (
  arith,
  t.width_pos,
  t.slots_pos,
  t.instances_pos,
  t.starts,
  t.based,
  t.ends,
  t.positions_fit,
  t.origin,
  product_lem m.instances m.width m.slots,
  size_pos m.instances (m.width * m.slots) t.instances_pos
      (size_pos m.width m.slots t.width_pos t.slots_pos),
)

encode_stripes_tiled :
    (p i : ℕ) (ms : OrdMap MultiStripe) (q j : ℕ)
    → Tiles p i ms q j
    → (ts : List StripeTable) × (encode_stripes ms ≡ ok ts)
      × ((acc : OrdMap MultiStripe) → KeysBelow p acc → decode_stripes acc ts ≡ ok (acc ++ ms))
unfolding encode_stripes decode_stripes
encode_stripes_tiled p i [] q j t = ([], refl, λ acc below. ap ok (sym (append-nil acc)))
encode_stripes_tiled p i ((key, m) ∷ ms) q j t =
    let rest = encode_stripes_tiled (p + span m) (i + m.instances) ms q j t.2 in
    (
      encode_stripe m ∷ rest.0,
      rw (starts, ==_refl key, rest.1) refl,
      λ acc below.
          rw
            (
              decode_encode_stripe t.1,
              find_above m.min_position acc (here acc below),
              placed acc below,
            )
            (rest.2 (acc ++ ((key, m) ∷ [])) (
                KeysBelow-snoc (p + span m) key m acc
                  (KeysBelow-mono p (p + span m) acc (omega arith) below) (before))
              ∙ ap ok (append_assoc acc ((key, m) ∷ []) ms)),
    )
  where
    starts : m.min_position ≡ key
    starts = omega (arith, t.0, t.1.starts)

    here : (acc : OrdMap MultiStripe) → KeysBelow p acc → KeysBelow m.min_position acc
    here acc below = KeysBelow-mono p m.min_position acc (omega (arith, t.1.starts)) below

    placed :
        (acc : OrdMap MultiStripe)
        → KeysBelow p acc
        → emplace m.min_position m acc ≡ acc ++ ((key, m) ∷ [])
    placed acc below =
        emplace_above m.min_position m acc (here acc below) ∙ ap (λ k. acc ++ ((k, m) ∷ [])) starts

    before : key < p + span m
    before = omega (arith, t.0, tile_grows t.1)

pub decode_encode_object_map :
    (om : ObjectMap) (limit : ℕ)
    → IsTiled om limit
    → (t : ObjectMapTable) × (encode_object_map om ≡ ok t) × (decode_object_map (some t) ≡ ok om)
unfolding encode_object_map decode_object_map
decode_encode_object_map om limit t =
    let s = encode_stripes_tiled 0 0 om.stripes_by_pos limit om.next_stripe_id t.tiles in
    (
      record {
        next_stripe_id = om.next_stripe_id;
        stripes = some s.0;
        min_valid_position = om.min_valid_position;
      },
      rw (s.1) refl,
      rw (s.2 [] tt) (made ∙ ap ok same),
    )
  where
    made :
        make_object_map om.next_stripe_id om.stripes_by_pos om.min_valid_position
        ≡ ok (object_map om.next_stripe_id om.stripes_by_pos om.min_valid_position)
    made =
        make_object_map_tiled om.next_stripe_id om.stripes_by_pos om.min_valid_position limit
          t.tiles

    same : object_map om.next_stripe_id om.stripes_by_pos om.min_valid_position ≡ om
    same =
        ap (λ ids. record om { stripes_by_id = ids })
          (index_by_id_tiled om.stripes_by_pos limit om.next_stripe_id t.tiles ∙ sym t.indexed)

c_str_plain : (s : Text) → IsPlain s → c_str s ≡ s
unfolding c_str
c_str_plain [] h = refl
c_str_plain (c ∷ s) h = ground (arith, h.0, c_str_plain s h.1)

decode_encode_config :
    (config : SequencerConfig)
    → IsConfig config
    → decode_config (some (encode_config config)) ≡ ok (some config)
unfolding decode_config encode_config
decode_encode_config config h =
    rw (c_str_plain config.token h.plain, lt→ltb 0 config.epoch h.epoch_pos, h.named) refl

module _ (serialize : ViewTable → Text) (parse : Text → Option ViewTable)
    (finished : (t : ViewTable) → parse (serialize t) ≡ some t) where
  abbrev table : Option SequencerConfig → Option SequencerTable
  table config = elim config [ none ↦ none | some c ↦ some (encode_config c) ]

  decode_config_of :
      (config : Option SequencerConfig)
      → IsConfigured config
      → decode_config (table config) ≡ ok config
  unfolding decode_config
  decode_config_of none h = refl
  decode_config_of (some config) h = decode_encode_config config h

  -- A view with a well-formed object map, and with a sequencer that has a positive epoch and a token
  -- without a zero byte, if it has one, can be encoded, and the bytes decode to the same view.
  pub decode_encode_view :
      (view : View) (limit : ℕ)
      → IsTiled view.object_map limit
      → IsConfigured view.seq_config
      → (bytes : Text) × (encode_view serialize view ≡ ok bytes)
        × (decode_view parse bytes ≡ ok view)
  unfolding encode_view decode_view
  decode_encode_view view limit t h =
      let om = decode_encode_object_map view.object_map limit t in
      (
        serialize (record { object_map = some om.0; sequencer = table view.seq_config }),
        rw (om.1) refl,
        rw
            (
              finished (record { object_map = some om.0; sequencer = table view.seq_config }),
              decode_table,
              om.2,
              decode_config_of view.seq_config h,
            )
            refl,
      )
