-- ===== src/ObjectMap/Reach.antt =====
-- The iteration of `map_to` on a tiled object map.
use native.Mathlib.Nat.{add-mul-mod_self_left, add-mod_right, mul-le-mul_left}
use zlog.Base.{
  ℕ, ◌+◌, ◌-◌, ◌*◌, ◌%◌, ◌≤◌, ◌<◌, ◌≡◌, ◌↔◌, refl, sym, ap, ◌∙◌, Bool, true, some, none, List, [],
  ok, arith, u64_mod, u32_mod, Text, ltb, if◌then◌else◌, sub64, sub32,
}
use zlog.Stripe.{Stripe, MultiStripe, make_oid, make_oids}
use zlog.ObjectMap.Tile.{IsTile, size, stripe_in, size_pos, step_le}
use zlog.ObjectMap.MapTo.{cover_stripe}
use zlog.ObjectMap.Coverage.{flag_at, expected, cover_lem, flag_of, flag_of-nil, flag_of-expected}
use zlog.ObjectMap.Aligned.{aligned_index, above_index, below_index}

-- What the proofs need of a stripe of the map.
pub record Shaped (s : Stripe) : Type 0 where
  pub rows : ℕ
  pub width_pos : 0 < s.width
  pub width_fits : s.width < u32_mod
  pub rows_pos : 0 < rows
  pub filled : s.max_position + 1 ≡ s.min_position + s.width * rows
  pub fits : s.max_position + 1 < u64_mod
  pub named : s.oids ≡ make_oids s.stripe_id s.width

pub stripe_in-Shaped :
    {p i : ℕ} {m : MultiStripe} (t : IsTile p i m) (id : ℕ)
    → i ≤ id
    → id < i + m.instances
    → Shaped (stripe_in t id)
stripe_in-Shaped {p} {i} {m} t id low high = record {
  rows = m.slots;
  width_pos = t.width_pos;
  width_fits = omega (arith, t.size_fits, mul-le-mul_left m.width t.slots_pos);
  rows_pos = t.slots_pos;
  filled = omega (arith, size_pos m.width m.slots t.width_pos t.slots_pos);
  fits = omega (
    arith,
    size_pos m.width m.slots t.width_pos t.slots_pos,
    t.positions_fit,
    step_le (id - i) m.instances (size m) (omega arith),
  );
  named = refl;
}

module _ (s : Stripe) (h : Shaped s) (position : ℕ) where
  abbrev pub last_row : ℕ
  last_row = s.max_position - (s.width - 1)

  row_fits : s.min_position + s.width ≤ s.max_position + 1
  row_fits = omega (arith, h.filled, mul-le-mul_left s.width h.rows_pos)

  last_row_lem : sub64 s.max_position (sub32 s.width 1) ≡ last_row
  last_row_lem = omega (arith, row_fits, h.width_pos, h.width_fits, h.fits)

  abbrev pub reached : List (Text × Bool)
  reached =
      if ltb position s.min_position
      then []
      else expected s.stripe_id last_row s.min_position position 0 s.width

  pub cover_stripe_lem : cover_stripe s position ≡ ok reached
  unfolding cover_stripe
  cover_stripe_lem =
      rw
        (
          last_row_lem,
          h.named,
          cover_lem s.stripe_id s.width last_row s.min_position position (omega (arith, row_fits))
              (omega (arith, row_fits, h.width_pos, h.fits)) 0 s.width (omega arith),
        )
        (ground arith)

  reached_flag :
      (i : ℕ)
      → i < s.width
      → flag_of (make_oid s.stripe_id i) reached
        ≡ (if ltb position s.min_position then none else flag_at last_row s.min_position position i)
  reached_flag i lt = ground (
    arith,
    flag_of-nil (make_oid s.stripe_id i),
    flag_of-expected s.stripe_id last_row s.min_position position i 0 s.width,
  )

  module _ (aligned : s.min_position % s.width ≡ 0) (i : ℕ) (lt : i < s.width) where
    -- The first and the last position of the object.
    first_index : (s.min_position + i) % s.width ≡ i
    first_index = aligned_index s.min_position s.width i aligned lt

    top_aligned : (s.max_position + 1) % s.width ≡ 0
    top_aligned = rw (h.filled, add-mul-mod_self_left s.min_position s.width h.rows) aligned

    last_row_aligned : last_row % s.width ≡ 0
    last_row_aligned =
        sym (add-mod_right last_row s.width)
        ∙ ap (λ n. n % s.width) (omega (arith, row_fits, h.width_pos))
        ∙ top_aligned

    last_index : (last_row + i) % s.width ≡ i
    last_index = aligned_index last_row s.width i last_row_aligned lt

    -- The object's positions lie between its first and its last.
    between :
        (p : ℕ)
        → s.min_position ≤ p
        → p ≤ s.max_position
        → p % s.width ≡ i
        → (s.min_position + i ≤ p) × (p ≤ last_row + i)
    between p low high e = omega (
      arith,
      above_index s.min_position s.width p h.width_pos aligned low,
      below_index (s.max_position + 1) s.width p h.width_pos top_aligned (omega arith),
    )

    pub complete_iff :
        (flag_of (make_oid s.stripe_id i) reached ≡ some true)
        ↔ ((p : ℕ) → s.min_position ≤ p → p ≤ s.max_position → p % s.width ≡ i → p ≤ position)
    complete_iff = (
      λ e p low high m. ground (arith, reached_flag i lt, between p low high m),
      λ all. ground (
        arith,
        reached_flag i lt,
        all (last_row + i) (omega (arith, row_fits)) (omega (arith, row_fits)) last_index,
        row_fits,
      ),
    )

    pub absent_iff :
        (flag_of (make_oid s.stripe_id i) reached ≡ none)
        ↔ ((p : ℕ) → s.min_position ≤ p → p ≤ s.max_position → p % s.width ≡ i → position < p)
    absent_iff = (
      λ e p low high m. ground (arith, reached_flag i lt, between p low high m, row_fits),
      λ all. ground (
        arith,
        reached_flag i lt,
        all (s.min_position + i) (omega arith) (omega (arith, row_fits)) first_index,
        row_fits,
      ),
    )
