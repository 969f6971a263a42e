-- ===== src/ViewManager/Tests.antt =====
-- A stripe of two objects on a backend where one of them holds an entry.
use zlog.Base.{
  ℕ, ◌≡◌, refl, Bool, false, Option, none, some, List, [], ◌∷◌, Text, codes, ok, err, fault, All,
  Outcome, ◌<◌, ◌⊎◌, arith, inl, inr, some_inj, ok_inj, zero, suc, ap, ◌∙◌, subst, sym,
}
use zlog.Stripe.{Stripe}
use zlog.Ram.{RamBackend, Object, find_object}
use zlog.Ram.Spec.{writes, seals}
use zlog.Ram.Calls.{Call, calls, run}
use zlog.Ram.Bounds.{AllBounded, run-AllBounded}
use zlog.LogBackend.{LogBackend, ram_backend, prefixed_oid}
use zlog.ViewManager.{seal_stripe}
use zlog.ViewManager.SealStripe.{IsFenced, seal_stripe_lem}
use zlog.ViewManager.Success.{IsOurs, seal_stripe_succeeds}
use zlog.Ram.Spec.{view}
use zlog.Stripe.{MultiStripe}
use zlog.ObjectMap.{ObjectMap, stripe_by_id}
use zlog.ObjectMap.Tile.{IsTile}
use zlog.ObjectMap.Tiling.{IsTiled}
use zlog.View.{VersionedView}
use zlog.ViewManager.Client.{Client}
use zlog.ViewManager.Propose.{find_seed, sequencer_config}
use zlog.ViewManager.Mapping.{object_at}
use zlog.ViewManager.SealLow.{FromHere}
use zlog.ViewManager.Scan.{AllFromHere}
use zlog.ViewManager.Seed.{IsFree, find_seed_lem}

abbrev log_backend : LogBackend
log_backend = record { hoid = codes "zlog.head.k"; prefix = codes "zlog.data.k"; token = codes "t" }

abbrev empty_backend : RamBackend
empty_backend = record { blackhole = false; options = []; objects = []; unique_id = 0 }

abbrev history : List Call
history =
    calls (codes "zlog.data.k.0.1") (seals 1)
    ∷ calls (codes "zlog.data.k.0.1") (writes (codes "a") 1 3)
    ∷ []

abbrev backend : RamBackend
backend = run empty_backend history

abbrev stripe : Stripe
stripe = record {
  stripe_id = 0;
  width = 2;
  min_position = 0;
  max_position = 9;
  oids = codes "0.0" ∷ codes "0.1" ∷ [];
}

nothing_found : (other : Text) (x : Object) → find_object empty_backend other ≡ some x → ⊥
unfolding find_object
nothing_found other x found = cc found

backend-AllBounded : AllBounded backend
backend-AllBounded =
    run-AllBounded history empty_backend (λ other x found. elim (nothing_found other x found) [ ])

finds_3 : (seal_stripe ram_backend log_backend backend stripe 2).0 ≡ ok (some 3)
unfolding seal_stripe zlog.Ram.seal run zlog.Ram.write zlog.Base.text_eq zlog.Ram.max_pos
finds_3 = refl

seal_stripe_lem_example :
    All
      (IsFenced log_backend (seal_stripe ram_backend log_backend backend stripe 2).1 2 (some 3))
      stripe.oids
seal_stripe_lem_example =
    seal_stripe_lem log_backend backend stripe 2 (some 3) backend-AllBounded finds_3

empty_backend-AllOurs : (oid : Text) → IsOurs (view empty_backend (prefixed_oid log_backend oid))
unfolding view find_object
empty_backend-AllOurs oid = tt

seal_stripe_succeeds_example :
    (m : Option ℕ) × ((seal_stripe ram_backend log_backend empty_backend stripe 2).0 ≡ ok m)
seal_stripe_succeeds_example =
    seal_stripe_succeeds log_backend 2 (omega arith) empty_backend stripe empty_backend-AllOurs refl

abbrev one_stripe : MultiStripe
one_stripe = record {
  base_id = 0;
  width = 2;
  slots = 5;
  min_position = 0;
  instances = 1;
  max_position = 9;
}

abbrev one_map : ObjectMap
one_map = record {
  next_stripe_id = 1;
  stripes_by_pos = (0, one_stripe) ∷ [];
  stripes_by_id = (0, one_stripe) ∷ [];
  min_valid_position = 0;
}

abbrev current : VersionedView
current = record {
  view = record { object_map = one_map; seq_config = none };
  epoch = 1;
  seq = none;
}

abbrev client : Client RamBackend
client = record {
  store = backend;
  view_reader = record { shutdown = false; view = some current; refresh_waiters = [] };
  shutdown = false;
  expand_pos = none;
  stripe_init_pos = [];
}

one_stripe-IsTile : IsTile 0 0 one_stripe
one_stripe-IsTile = record {
  width_pos = omega arith;
  slots_pos = omega arith;
  instances_pos = omega arith;
  size_fits = omega arith;
  starts = refl;
  based = refl;
  ends = refl;
  positions_fit = omega arith;
  ids_fit = omega arith;
  origin = inl (refl, refl);
}

one_map-IsTiled : IsTiled one_map 10
one_map-IsTiled = record { tiles = (refl, one_stripe-IsTile, (refl, refl)); indexed = refl }

FromHere-zero : (l : LogBackend) (b : RamBackend) (oids : List Text) → FromHere l b 0 oids
FromHere-zero l b [] = tt
FromHere-zero l b (oid ∷ oids) = (λ k e. omega arith, FromHere-zero l b oids)

abbrev stripe_0 : Stripe
stripe_0 = record {
  stripe_id = 0;
  width = 2;
  min_position = 0;
  max_position = 9;
  oids = codes "0.0" ∷ codes "0.1" ∷ [];
}

one_stripe_first :
    (id : ℕ) (stripe : Stripe) → stripe_by_id one_map id ≡ ok stripe → stripe.min_position ≡ 0
unfolding stripe_by_id zlog.Base.OrdMap.floor zlog.Stripe.make_stripe zlog.Stripe.make_oids
    zlog.Stripe.make_oid zlog.Base.Decimal.decimal
one_stripe_first zero stripe e = ap (λ (s : Stripe). s.min_position) (ok_inj (sym e ∙ first))
  where
    first : stripe_by_id one_map 0 ≡ ok stripe_0
    first = refl
one_stripe_first (suc id) stripe e = ground (arith, e)

backend-AllFromHere : AllFromHere log_backend one_map backend
backend-AllFromHere id stripe e =
    subst (λ low. FromHere log_backend backend low stripe.oids) (sym (one_stripe_first id stripe e))
      (FromHere-zero log_backend backend stripe.oids)

seeds_3 : (find_seed ram_backend log_backend client current).0 ≡ ok (some 3)
unfolding find_seed zlog.Base.OrdMap.floor zlog.Stripe.make_stripe zlog.Stripe.make_oids
    zlog.Ram.seal run zlog.Ram.write zlog.Base.text_eq zlog.Stripe.make_oid
    zlog.Base.Decimal.decimal zlog.Ram.max_pos
seeds_3 = refl

find_seed_lem_example :
    (7 < (sequencer_config log_backend 2 (some 3)).position)
    ⊎ IsFree log_backend
        (find_seed ram_backend log_backend client current).1
        2
        (object_at one_map-IsTiled 7 (omega arith))
        7
find_seed_lem_example =
    find_seed_lem log_backend client current 10 7 (some 3) one_map-IsTiled backend-AllBounded
      backend-AllFromHere seeds_3 (λ k e. omega (arith, some_inj e)) (omega arith)
