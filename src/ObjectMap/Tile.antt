-- ===== src/ObjectMap/Tile.antt =====
-- One multi-stripe that starts at a known position and stripe id: what its methods compute.
use native.Mathlib.Nat.{mul-mod_right, mul-le-mul_left}
use zlog.Base.{
  sub64, add64, mul64, sub64_lem, mul64_lem, ℕ, ◌+◌, ◌-◌, ◌*◌, ◌/◌, ◌%◌, ◌≤◌, ◌<◌, ◌≡◌, ◌⊎◌, ok,
  arith, u32_mod, u64_mod,
}
use zlog.Stripe.{
  Stripe, MultiStripe, make_oid, make_oids, make_stripe, map_object, max_stripe_id, stripe_at,
}
use zlog.ObjectMap.{stripe_id_of}

-- The positions of one stripe.
abbrev pub size : MultiStripe → ℕ
size m = m.width * m.slots

-- The positions of all its stripes.
abbrev pub span : MultiStripe → ℕ
span m = m.instances * (m.width * m.slots)

pub record IsTile (p i : ℕ) (m : MultiStripe) : Type 0 where
  pub width_pos : 0 < m.width
  pub slots_pos : 0 < m.slots
  pub instances_pos : 0 < m.instances
  pub size_fits : m.width * m.slots < u32_mod
  pub starts : m.min_position ≡ p
  pub based : m.base_id ≡ i
  pub ends : m.max_position + 1 ≡ p + m.instances * (m.width * m.slots)
  pub positions_fit : p + m.instances * (m.width * m.slots) < u64_mod
  pub ids_fit : i + m.instances < u64_mod
  pub origin : ((i ≡ 0) × (p ≡ 0)) ⊎ ((0 < i) × (0 < p))

pub size_pos : (w s : ℕ) → 0 < w → 0 < s → 0 < w * s
size_pos w s hw hs = grind arith

pub quot_lt : (a n e : ℕ) → 0 < e → a < n * e → a / e < n
quot_lt a n e he h = grind arith

pub quot_le : (a e : ℕ) → 0 < e → (a / e) * e ≤ a
quot_le a e he = grind arith

pub quot_above : (a e : ℕ) → 0 < e → a < (a / e) * e + e
quot_above a e he = grind arith

pub step_le : (d n e : ℕ) → d < n → d * e + e ≤ n * e
step_le d n e h = grind arith

count_lem : (a e : ℕ) → 0 < e → a + e < u64_mod → add64 (sub64 (a + e - 1) a) 1 ≡ e
count_lem a e h k = omega arith

zero_product : (d e : ℕ) → d ≡ 0 → d * e ≡ 0
zero_product d e h = rw h (omega arith)

module _ {p i : ℕ} {m : MultiStripe} (t : IsTile p i m) where
  pub max_stripe_id_tile : max_stripe_id m ≡ i + m.instances - 1
  unfolding max_stripe_id
  max_stripe_id_tile = omega (arith, t.instances_pos, t.ids_fit, t.based)

  module _ (position : ℕ) (low : p ≤ position) (high : position < p + span m) where
    pub stripe_id_of_tile : stripe_id_of p m position ≡ ok (i + (position - p) / size m)
    unfolding stripe_id_of
    stripe_id_of_tile = ground (
      arith,
      size_pos m.width m.slots t.width_pos t.slots_pos,
      t.size_fits,
      t.positions_fit,
      t.ids_fit,
      t.based,
      quot_lt (position - p) m.instances (m.width * m.slots),
    )

    pub map_object_tile :
        map_object m (i + (position - p) / size m) position
        ≡ ok (make_oid (i + (position - p) / size m) (position % m.width))
    unfolding map_object
    map_object_tile = ground (
      arith,
      max_stripe_id_tile,
      size_pos m.width m.slots t.width_pos t.slots_pos,
      t.ends,
      t.starts,
      t.positions_fit,
      t.ids_fit,
      t.based,
      quot_lt (position - p) m.instances (m.width * m.slots),
    )

  abbrev pub stripe_in : ℕ → Stripe
  stripe_in id = record {
    stripe_id = id;
    width = m.width;
    min_position = p + (id - i) * size m;
    max_position = p + (id - i) * size m + size m - 1;
    oids = make_oids id m.width;
  }

  module _ (id : ℕ) (low : i ≤ id) (high : id < i + m.instances) where
    offset_fits : (id - i) * size m + size m ≤ span m
    offset_fits = step_le (id - i) m.instances (size m) (omega arith)

    offset_lem : mul64 (sub64 id m.base_id) (mul64 m.width m.slots) ≡ (id - i) * size m
    offset_lem =
        rw
          (
            t.based,
            sub64_lem id i low (omega (arith, t.ids_fit)),
            mul64_lem m.width m.slots (omega (arith, t.size_fits)),
          )
          (mul64_lem (id - i) (size m) (omega (arith, offset_fits, t.positions_fit)))

    stripe_mod :
        add64 (sub64 (p + (id - i) * size m + size m - 1) (p + (id - i) * size m)) 1 % m.width ≡ 0
    stripe_mod =
        rw
          (count_lem (p + (id - i) * size m) (size m)
            (size_pos m.width m.slots t.width_pos t.slots_pos)
            (omega (arith, offset_fits, t.positions_fit)))
          (mul-mod_right m.width m.slots)

    stripe_fits :
        make_stripe id m.width (p + (id - i) * size m) (p + (id - i) * size m + size m - 1)
        ≡ ok (stripe_in id)
    unfolding make_stripe
    stripe_fits = ground (
      arith,
      size_pos m.width m.slots t.width_pos t.slots_pos,
      offset_fits,
      t.width_pos,
      t.positions_fit,
      t.origin,
      mul-mod_right m.width m.slots,
      mul-le-mul_left {m = 1} {n = m.slots} m.width,
      size_pos (id - i) (size m),
      zero_product (id - i) (size m),
      stripe_mod,
    )

    pub stripe_at_tile : stripe_at m id ≡ ok (stripe_in id)
    unfolding stripe_at
    stripe_at_tile = ground (
      arith,
      max_stripe_id_tile,
      offset_lem,
      offset_fits,
      stripe_fits,
      size_pos m.width m.slots t.width_pos t.slots_pos,
      t.width_pos,
      t.size_fits,
      t.ends,
      t.starts,
      t.positions_fit,
      t.ids_fit,
      t.based,
    )
