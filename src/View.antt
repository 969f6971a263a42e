-- ===== src/View.antt =====
-- src/libzlog/view.h, view.cc, sequencer.h and sequencer.cc: a view of a log, which is an object map
-- with the configuration of a sequencer, and its form as the tables of src/libzlog/zlog.fbs.
pub mod Codec
pub mod Lifecycle
pub mod Plain
mod Tests
use zlog.Base.{
  ℕ, ◌-◌, Bool, true, false, ◌&&◌, not, Option, none, some, List, [], ◌∷◌, Text, Outcome, ok, fault,
  assert, ◌>>=◌, ◌>>◌, ltb, ◌==◌, if◌then◌else◌, is_empty, text_eq, add64, sub32, mul32,
}
use zlog.Base.OrdMap.{OrdMap, emplace}
use zlog.Base.OrdMap
use zlog.Options.{Options}
use zlog.Stripe.{MultiStripe, make_multi_stripe}
use zlog.ObjectMap.{ObjectMap, make_object_map, advance_min_valid_position, is_some}
use zlog.ObjectMap.Expand.{expand_mapping}

-- The tables of the schema; what may be missing from a buffer is an option.
pub record StripeTable : Type 0 where
  pub base_id : ℕ
  pub width : ℕ
  pub slots : ℕ
  pub instances : ℕ
  pub min_position : ℕ
  pub max_position : ℕ

pub record ObjectMapTable : Type 0 where
  pub next_stripe_id : ℕ
  pub stripes : Option (List StripeTable)
  pub min_valid_position : ℕ

pub record SequencerTable : Type 0 where
  pub epoch : ℕ
  pub token : Option Text
  pub position : ℕ

pub record ViewTable : Type 0 where
  pub object_map : Option ObjectMapTable
  pub sequencer : Option SequencerTable

pub record SequencerConfig : Type 0 where
  pub epoch : ℕ
  pub token : Text
  pub position : ℕ

pub record View : Type 0 where
  pub object_map : ObjectMap
  pub seq_config : Option SequencerConfig

pub record Sequencer : Type 0 where
  pub epoch : ℕ
  pub position : ℕ

pub record VersionedView : Type 0 where
  pub view : View
  pub epoch : ℕ
  pub seq : Option Sequencer

unfoldable pub same_config : SequencerConfig → SequencerConfig → Bool
same_config a b = (a.epoch == b.epoch) && text_eq a.token b.token && (a.position == b.position)

-- `MultiStripe::encode` and `MultiStripe::decode`.
abbrev pub encode_stripe : MultiStripe → StripeTable
encode_stripe m = record {
  base_id = m.base_id;
  width = m.width;
  slots = m.slots;
  instances = m.instances;
  min_position = m.min_position;
  max_position = m.max_position;
}

unfoldable pub decode_stripe : StripeTable → Outcome MultiStripe
unfolding make_multi_stripe
decode_stripe t =
    make_multi_stripe t.base_id t.width t.slots t.min_position t.instances t.max_position

-- The loops of `ObjectMap::encode` and `ObjectMap::decode`.
unfoldable pub encode_stripes : OrdMap MultiStripe → Outcome (List StripeTable)
encode_stripes [] = ok []
encode_stripes ((key, m) ∷ ms) = do
  assert (m.min_position == key)
  rest ← encode_stripes ms
  ok (encode_stripe m ∷ rest)

unfoldable pub decode_stripes : OrdMap MultiStripe → List StripeTable → Outcome (OrdMap MultiStripe)
unfolding decode_stripe
decode_stripes acc [] = ok acc
decode_stripes acc (t ∷ ts) = decode_stripe t >>= λ m.
    assert (not (is_some (OrdMap.find m.min_position acc)))
    >> decode_stripes (emplace m.min_position m acc) ts

unfoldable pub encode_object_map : ObjectMap → Outcome ObjectMapTable
unfolding encode_stripes
encode_object_map om = do
  stripes ← encode_stripes om.stripes_by_pos
  ok (record {
    next_stripe_id = om.next_stripe_id;
    stripes = some stripes;
    min_valid_position = om.min_valid_position;
  })

abbrev pub stripes_of : Option (List StripeTable) → List StripeTable
stripes_of none = []
stripes_of (some stripes) = stripes

unfoldable pub decode_object_map : Option ObjectMapTable → Outcome ObjectMap
unfolding decode_stripes make_object_map
decode_object_map none = fault
decode_object_map (some t) = do
  stripes ← decode_stripes [] (stripes_of t.stripes)
  make_object_map t.next_stripe_id stripes t.min_valid_position

-- `c_str()` as a reader of the C string sees it: up to the first zero byte.
unfoldable pub c_str : Text → Text
c_str [] = []
c_str (c ∷ s) = if c == 0 then [] else c ∷ c_str s

-- `SequencerConfig::encode` and `SequencerConfig::decode`.
unfoldable pub encode_config : SequencerConfig → SequencerTable
unfolding c_str
encode_config config = record {
  epoch = config.epoch;
  token = some (c_str config.token);
  position = config.position;
}

abbrev pub token_of : Option Text → Text
token_of none = []
token_of (some token) = token

unfoldable pub decode_config : Option SequencerTable → Outcome (Option SequencerConfig)
decode_config none = ok none
decode_config (some t) = do
  assert (ltb 0 t.epoch)
  assert (not (is_empty (token_of t.token)))
  ok (some (record { epoch = t.epoch; token = token_of t.token; position = t.position }))

unfoldable pub initial_stripes : Options → Outcome (OrdMap MultiStripe)
unfolding make_multi_stripe
initial_stripes options =
    if options.create_initial_view_stripes
    then (do
      m ←
          make_multi_stripe 0 options.stripe_width options.stripe_slots 0 1
            (sub32 (mul32 options.stripe_width options.stripe_slots) 1)
      ok (emplace 0 m []))
    else ok []

unfoldable pub initial_object_map : OrdMap MultiStripe → Outcome ObjectMapTable
unfolding make_object_map encode_object_map
initial_object_map stripes =
    if is_empty stripes
    then ok (record { next_stripe_id = 0; stripes = none; min_valid_position = 0 })
    else (do om ← make_object_map 1 stripes 0; encode_object_map om)

-- The bytes of a table are the work of the FlatBuffers library: `serialize` finishes a buffer, and
-- `parse` verifies one and returns its root table, none if the verifier refuses it.
module _ (serialize : ViewTable → Text) where
  unfoldable pub encode_view : View → Outcome Text
  unfolding encode_object_map encode_config
  encode_view view = do
    object_map ← encode_object_map view.object_map
    ok (
        serialize (record {
          object_map = some object_map;
          sequencer = elim view.seq_config [
            | none ↦ none
            | some config ↦ some (encode_config config)
          ];
        }))

  unfoldable pub create_initial : Options → Outcome Text
  unfolding initial_stripes initial_object_map
  create_initial options = do
    stripes ← initial_stripes options
    object_map ← initial_object_map stripes
    ok (serialize (record { object_map = some object_map; sequencer = none }))

module _ (parse : Text → Option ViewTable) where
  unfoldable pub decode_table : Option ViewTable → Outcome View
  unfolding decode_object_map decode_config
  decode_table none = fault
  decode_table (some t) = do
    object_map ← decode_object_map t.object_map
    seq_config ← decode_config t.sequencer
    ok (record { object_map = object_map; seq_config = seq_config })

  unfoldable pub decode_view : Text → Outcome View
  unfolding decode_table
  decode_view bytes = decode_table (parse bytes)

  -- The constructor of `VersionedView`.
  unfoldable pub versioned_view : ℕ → Text → Outcome VersionedView
  unfolding decode_view
  versioned_view epoch bytes = do
    view ← decode_view bytes
    ok (record { view = view; epoch = epoch; seq = none })

abbrev with_object_map : View → Option ObjectMap → Option View
with_object_map view none = none
with_object_map view (some om) = some (record { object_map = om; seq_config = view.seq_config })

unfoldable pub expand_view : View → ℕ → Options → Outcome (Option View)
unfolding expand_mapping
expand_view view position options =
    expand_mapping view.object_map position options >>= λ next. ok (with_object_map view next)

unfoldable pub advance_view : View → ℕ → Outcome (Option View)
unfolding advance_min_valid_position
advance_view view position =
    advance_min_valid_position view.object_map position >>= λ next. ok (with_object_map view next)

unfoldable pub with_sequencer_config : View → SequencerConfig → View
with_sequencer_config view config = record view { seq_config = some config }

-- `Sequencer::check_tail`: the position, and the sequencer after it.
unfoldable pub check_tail : Sequencer → Bool → ℕ × Sequencer
check_tail s true = (s.position, record s { position = add64 s.position 1 })
check_tail s false = (s.position, s)
