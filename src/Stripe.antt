-- ===== src/Stripe.antt =====
-- src/libzlog/stripe.h and stripe.cc: a stripe, and the compact form of a row of equal stripes.
-- A constructor or a method whose assertion fails is a `fault`. Widths and slots are uint32_t, all
-- other numbers uint64_t.
use zlog.Base.{
  ℕ, zero, suc, ◌%◌, Bool, ◌&&◌, List, [], ◌∷◌, ◌++◌, Text, Outcome, ok, assert, ◌>>◌, ltb, leb,
  ◌==◌, if◌then◌else◌, add64, sub64, mul64,
}
use zlog.Base.Decimal.{decimal}

pub record Stripe : Type 0 where
  pub stripe_id : ℕ
  pub width : ℕ
  pub min_position : ℕ
  pub max_position : ℕ
  pub oids : List Text

pub record MultiStripe : Type 0 where
  pub base_id : ℕ
  pub width : ℕ
  pub slots : ℕ
  pub min_position : ℕ
  pub instances : ℕ
  pub max_position : ℕ

-- The object with the given index in a stripe.
unfoldable pub make_oid : ℕ → ℕ → Text
make_oid stripe_id index = decimal stripe_id ++ (b'.' ∷ decimal index)

-- The object of a stripe that holds a position.
unfoldable pub make_oid_at : ℕ → ℕ → ℕ → Text
make_oid_at stripe_id width position = make_oid stripe_id (position % width)

-- The names with the indices from the given one on.
unfoldable pub make_oids_from : ℕ → ℕ → ℕ → List Text
make_oids_from stripe_id index zero = []
make_oids_from stripe_id index (suc left) =
    make_oid stripe_id index ∷ make_oids_from stripe_id (suc index) left

unfoldable pub make_oids : ℕ → ℕ → List Text
unfolding make_oids_from
make_oids stripe_id width = make_oids_from stripe_id 0 width

-- Position zero belongs to stripe zero, and to no other.
abbrev starts_at : ℕ → ℕ → Bool
starts_at id min_position = if ltb 0 id then ltb 0 min_position else min_position == 0

-- The constructor of `Stripe`.
unfoldable pub make_stripe : ℕ → ℕ → ℕ → ℕ → Outcome Stripe
make_stripe stripe_id width min_position max_position = do
  assert (ltb 0 width)
  assert (starts_at stripe_id min_position)
  assert (leb min_position max_position)
  assert (leb (sub64 (add64 min_position width) 1) max_position)
  assert (add64 (sub64 max_position min_position) 1 % width == 0)
  ok (record {
    stripe_id = stripe_id;
    width = width;
    min_position = min_position;
    max_position = max_position;
    oids = make_oids stripe_id width;
  })

-- The constructor of `MultiStripe`.
unfoldable pub make_multi_stripe : ℕ → ℕ → ℕ → ℕ → ℕ → ℕ → Outcome MultiStripe
make_multi_stripe base_id width slots min_position instances max_position = do
  assert (ltb 0 width)
  assert (ltb 0 slots)
  assert (ltb 0 instances)
  assert (starts_at base_id min_position)
  assert (leb min_position max_position)
  assert (max_position == sub64 (add64 min_position (mul64 (mul64 instances width) slots)) 1)
  ok (record {
    base_id = base_id;
    width = width;
    slots = slots;
    min_position = min_position;
    instances = instances;
    max_position = max_position;
  })

unfoldable pub max_stripe_id : MultiStripe → ℕ
max_stripe_id m = sub64 (add64 m.base_id m.instances) 1

-- `MultiStripe::map`.
unfoldable pub map_object : MultiStripe → ℕ → ℕ → Outcome Text
unfolding max_stripe_id make_oid_at
map_object m stripe_id position = do
  assert (leb m.base_id stripe_id)
  assert (leb stripe_id (max_stripe_id m))
  assert (leb m.min_position position)
  assert (leb position m.max_position)
  ok (make_oid_at stripe_id m.width position)

unfoldable pub extend : MultiStripe → Outcome MultiStripe
extend m =
    make_multi_stripe m.base_id m.width m.slots m.min_position (add64 m.instances 1)
      (add64 m.max_position (mul64 m.width m.slots))

-- `MultiStripe::stripe_by_id`.
unfoldable pub stripe_at : MultiStripe → ℕ → Outcome Stripe
unfolding max_stripe_id
stripe_at m stripe_id = do
  assert (leb m.base_id stripe_id)
  assert (leb stripe_id (max_stripe_id m))
  let stripe_offset = sub64 stripe_id m.base_id
  let entries_per_stripe = mul64 m.width m.slots
  let min_pos = add64 m.min_position (mul64 stripe_offset entries_per_stripe)
  let max_pos = sub64 (add64 min_pos entries_per_stripe) 1
  assert (ltb stripe_offset m.instances)
  assert (ltb 0 entries_per_stripe)
  assert (leb m.min_position min_pos)
  assert (leb max_pos m.max_position)
  make_stripe stripe_id m.width min_pos max_pos

-- `operator==`.
unfoldable pub same_multi_stripe : MultiStripe → MultiStripe → Bool
same_multi_stripe a b =
    (a.base_id == b.base_id)
    && (a.width == b.width)
    && (a.slots == b.slots)
    && (a.min_position == b.min_position)
    && (a.instances == b.instances)
    && (a.max_position == b.max_position)
