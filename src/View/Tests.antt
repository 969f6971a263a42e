-- ===== src/View/Tests.antt =====
-- The views of src/libzlog/view.cc on small inputs, over a plain form of the tables.
use zlog.Base.{
  ℕ, ◌+◌, ◌≡◌, ◌<◌, refl, true, none, some, [], ◌∷◌, Text, codes, ok, arith, inl, u64_mod,
}
use zlog.Base.OrdMap.{last}
use zlog.Options.{Options}
use zlog.Stripe.{MultiStripe}
use zlog.ObjectMap.Tile.{IsTile}
use zlog.ObjectMap.Tiling.{IsTiled}
use zlog.ObjectMap.Grown.{Sensible, growth}
use zlog.ObjectMap.Stability.{object_of}
use zlog.View.{View, SequencerConfig, encode_view, decode_view, create_initial, expand_view}
use zlog.View.Plain.{put_table, get_table, get_table-put_table}
use zlog.View.Codec.{IsConfig, decode_encode_view}
use zlog.View.Lifecycle.{initial_limit, create_initial_lem, expand_view_stored}

abbrev one_stripe : MultiStripe
one_stripe = record {
  base_id = 0;
  width = 10;
  slots = 5;
  min_position = 0;
  instances = 1;
  max_position = 49;
}

abbrev config : SequencerConfig
config = record { epoch = 4; token = codes "secret"; position = 17 }

abbrev sample : View
sample = record {
  object_map = record {
    next_stripe_id = 1;
    stripes_by_pos = (0, one_stripe) ∷ [];
    stripes_by_id = (0, one_stripe) ∷ [];
    min_valid_position = 0;
  };
  seq_config = some config;
}

abbrev defaults : Options
defaults = record {
  create_initial_view_stripes = true;
  init_stripe_on_create = true;
  stripe_width = 10;
  stripe_slots = 5;
  max_inflight_ops = 1024;
}

one_stripe-IsTile : IsTile 0 0 one_stripe
one_stripe-IsTile = record {
  width_pos = omega arith;
  slots_pos = omega arith;
  instances_pos = omega arith;
  size_fits = omega arith;
  starts = refl;
  based = refl;
  ends = refl;
  positions_fit = omega arith;
  ids_fit = omega arith;
  origin = inl (refl, refl);
}

sample-IsTiled : IsTiled sample.object_map 50
sample-IsTiled = record { tiles = (refl, one_stripe-IsTile, (refl, refl)); indexed = refl }

config-IsConfig : IsConfig config
config-IsConfig = record { epoch_pos = omega arith; named = refl; plain = omega arith }

defaults-Sensible : Sensible defaults
defaults-Sensible = omega arith

decode_encode_view_example :
    (bytes : Text) × (encode_view put_table sample ≡ ok bytes)
    × (decode_view get_table bytes ≡ ok sample)
decode_encode_view_example =
    decode_encode_view put_table get_table get_table-put_table sample 50 sample-IsTiled
      config-IsConfig

create_initial_lem_example :
    (bytes : Text) × (view : View) × (create_initial put_table defaults ≡ ok bytes)
    × (decode_view get_table bytes ≡ ok view)
    × IsTiled view.object_map (initial_limit defaults)
    × (view.seq_config ≡ none)
    × (view.object_map.min_valid_position ≡ 0)
create_initial_lem_example =
    create_initial_lem put_table get_table get_table-put_table defaults defaults-Sensible

expand_view_stored_example :
    (next : View) × (end : ℕ) × (bytes : Text) × (expand_view sample 120 defaults ≡ ok (some next))
    × (encode_view put_table next ≡ ok bytes)
    × (decode_view get_table bytes ≡ ok next)
    × IsTiled next.object_map end
    × (120 < end)
    × (next.seq_config ≡ some config)
    × ((p : ℕ) → p < 50 → object_of next.object_map p ≡ object_of sample.object_map p)
expand_view_stored_example =
    expand_view_stored put_table get_table get_table-put_table sample 50 120 defaults sample-IsTiled
      config-IsConfig defaults-Sensible (omega arith) room
  where
    room : 120 + growth defaults (last sample.object_map.stripes_by_pos) < u64_mod
    room = unfold last in omega arith
