-- ===== src/LogOps/Tests.antt =====
-- A client that has the sequencer of an empty log.
use zlog.Base.{
  ℕ, ◌≡◌, ◌≤◌, ◌<◌, refl, Bool, true, false, Option, none, some, List, [], ◌∷◌, Text, codes,
  Outcome, ok, err, arith, inl, inr,
}
use zlog.Options.{Options}
use zlog.Stripe.{MultiStripe}
use zlog.ObjectMap.Tile.{IsTile}
use zlog.ObjectMap.Stability.{object_of}
use zlog.View.{View, VersionedView, Sequencer}
use zlog.View.Plain.{put_table}
use zlog.Ram.{RamBackend, read, find_object}
use zlog.Ram.Spec.{view, writes, seals}
use zlog.Ram.Calls.{Call, calls, run}
use zlog.LogBackend.{LogBackend, ram_backend, prefixed_oid}
use zlog.ViewManager.Client.{Client}
use zlog.LogOps.{rounds, read_round}
use zlog.LogOps.Append.{append_op, append_round}
use zlog.LogOps.TrimTo.{trim_to_round}
use zlog.LogOps.Endless.{last, trim_to_last_endless}
use zlog.LogOps.Stays.{Lasts, append_stays}
use zlog.LogOps.Ready.{IsReady}
use zlog.LogOps.Quiet.{append_then_read}

abbrev log_backend : LogBackend
log_backend = record { hoid = codes "zlog.head.k"; prefix = codes "zlog.data.k"; token = codes "t" }

abbrev options : Options
options = record {
  create_initial_view_stripes = true;
  init_stripe_on_create = true;
  stripe_width = 2;
  stripe_slots = 5;
  max_inflight_ops = 1024;
}

abbrev one_stripe : MultiStripe
one_stripe = record {
  base_id = 0;
  width = 2;
  slots = 5;
  min_position = 0;
  instances = 1;
  max_position = 9;
}

abbrev initial : VersionedView
initial = record {
  view = record {
    object_map = record {
      next_stripe_id = 1;
      stripes_by_pos = (0, one_stripe) ∷ [];
      stripes_by_id = (0, one_stripe) ∷ [];
      min_valid_position = 0;
    };
    seq_config = some (record { epoch = 2; token = codes "t"; position = 0 });
  };
  epoch = 2;
  seq = some (record { epoch = 2; position = 0 });
}

abbrev client : Client RamBackend
client = record {
  store = record { blackhole = false; options = []; objects = []; unique_id = 0 };
  view_reader = record { shutdown = false; view = some initial; refresh_waiters = [] };
  shutdown = false;
  expand_pos = none;
  stripe_init_pos = [];
}

-- Nothing happens during a wait.
abbrev still : ℕ → Client RamBackend → Client RamBackend
still epoch c = c

abbrev at_once : Sequencer → Client RamBackend → Sequencer × Client RamBackend
at_once seq c = (seq, c)

abbrev alone : Client RamBackend → Client RamBackend
alone c = c

one_stripe-IsTile : IsTile 0 0 one_stripe
one_stripe-IsTile = record {
  width_pos = omega arith;
  slots_pos = omega arith;
  instances_pos = omega arith;
  size_fits = omega arith;
  starts = refl;
  based = refl;
  ends = refl;
  positions_fit = omega arith;
  ids_fit = omega arith;
  origin = inl (refl, refl);
}

client-IsReady : IsReady log_backend client
unfolding view find_object
client-IsReady = record {
  v = initial;
  seq = record { epoch = 2; position = 0 };
  limit = 10;
  looks = refl;
  serves = refl;
  tiled = record { tiles = (refl, one_stripe-IsTile, (refl, refl)); indexed = refl };
  mapped = omega arith;
  current = omega arith;
  started = omega arith;
  room = omega arith;
  stores = refl;
  free = λ oid. tt;
}

append_then_read_example :
    (d e : Client RamBackend) × (rounds alone
        (append_round (codes "a") put_table options ram_backend log_backend still at_once)
        2
        append_op
        client
      ≡ some (ok 0, d))
    × (rounds alone (read_round put_table options ram_backend log_backend still 0) 1 tt d
        ≡ some (ok (codes "a"), e))
unfolding client-IsReady
append_then_read_example =
    append_then_read (codes "a") put_table options log_backend still client 0 client-IsReady

abbrev first_calls : List Call
first_calls =
    calls (codes "zlog.data.k.0.0") (seals 2)
    ∷ calls (codes "zlog.data.k.0.0") (writes (codes "a") 2 0)
    ∷ []

abbrev appended : Client RamBackend
appended = record {
  store = run client.store first_calls;
  view_reader = record {
    shutdown = false;
    view = some (record initial { seq = some (record { epoch = 2; position = 1 }) });
    refresh_waiters = [];
  };
  shutdown = false;
  expand_pos = some 10;
  stripe_init_pos = [];
}

appends_at_0 :
    rounds alone
      (append_round (codes "a") put_table options ram_backend log_backend still at_once)
      2
      append_op
      client
    ≡ some (ok 0, appended)
unfolding rounds append_round run zlog.Base.OrdMap.floor zlog.Base.OrdMap.last zlog.Ram.write
    zlog.Ram.seal zlog.Base.text_eq zlog.Stripe.make_oid zlog.Base.Decimal.decimal
appends_at_0 = refl

-- The client has no view but the one that it starts with.
abbrev Initial : View → Type 0
Initial v = v ≡ initial.view

append_stays_example :
    (v : VersionedView) × (oid : Text) × Initial v.view
    × (object_of v.view.object_map 0 ≡ ok (some oid))
    × Lasts (codes "a") 0 appended.store (prefixed_oid log_backend oid)
unfolding run zlog.Ram.write zlog.Ram.seal zlog.Base.text_eq
append_stays_example =
    append_stays (codes "a") put_table options log_backend still at_once alone 2 client appended 0
      appends_at_0 refl Initial refl (λ epoch d seen. seen) (λ seq d seen. seen) (λ d seen. seen)

trim_to_last_endless_example :
    rounds alone (trim_to_round last put_table options ram_backend log_backend still) 5 none client
    ≡ none
unfolding zlog.ViewManager.Client.view_of
trim_to_last_endless_example =
    trim_to_last_endless put_table options ram_backend log_backend still client initial refl
      (omega arith) alone refl 5
