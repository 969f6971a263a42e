-- ===== src/ObjectMap/Order.antt =====
-- The order of stripes: the ids of stripes grow with their positions.
use native.Mathlib.Decide.{dec_lt}
use zlog.Base.{ℕ, ◌+◌, ◌*◌, ◌-◌, ◌≤◌, ◌<◌, ◌≡◌, refl, subst, [], ◌∷◌, ok, arith}
use zlog.Base.OrdMap.{OrdMap}
use zlog.Stripe.{Stripe, MultiStripe}
use zlog.ObjectMap.{ObjectMap, stripe_by_id}
use zlog.ObjectMap.Tile.{IsTile, span, size, size_pos, step_le, stripe_in}
use zlog.ObjectMap.Tiling.{Tiles, IsTiled, FoundId, find_id, found_id_here, found_id_there}
use zlog.ObjectMap.Lookup.{stripe_by_id_found}

-- The stripes of two ids, side by side.
record Apart (n j p : ℕ) (ms : OrdMap MultiStripe) (q : ℕ) : Type 0 where
  left : FoundId n p ms q
  right : FoundId j p ms q
  apart : (stripe_in left.tile n).max_position < (stripe_in right.tile j).min_position

stripe_ends :
    {p i : ℕ} {m : MultiStripe} (t : IsTile p i m) (n j : ℕ)
    → i ≤ n
    → n < j
    → (stripe_in t n).max_position < p + (j - i) * size m
stripe_ends {p} {i} {m} t n j low h = omega (
  arith,
  step_le (n - i) (j - i) (size m) (omega arith),
  size_pos m.width m.slots t.width_pos t.slots_pos,
)

stripe_before :
    {p i : ℕ} {m : MultiStripe} (t : IsTile p i m) (n j : ℕ) {ms : OrdMap MultiStripe} {q : ℕ}
    → i ≤ n
    → n < i + m.instances
    → (f : FoundId j (p + span m) ms q)
    → (stripe_in t n).max_position < (stripe_in f.tile j).min_position
stripe_before {p} {i} {m} t n j low h f = omega (
  arith,
  step_le (n - i) m.instances (size m) (omega arith),
  size_pos m.width m.slots t.width_pos t.slots_pos,
  f.key_low,
)

find-Apart :
    (n j p i : ℕ) (ms : OrdMap MultiStripe) (q last : ℕ)
    → Tiles p i ms q last
    → i ≤ n
    → n < j
    → j < last
    → Apart n j p ms q
find-Apart n j p i [] q last t low h high = absurd (omega arith)
find-Apart n j p i ((k, m) ∷ ms) q last t low h high = rw t.0 (elim (dec_lt n (i + m.instances)) [
  | no past ↦
      (let rest =
          find-Apart n j (p + span m) (i + m.instances) ms q last t.2 (omega arith) h high in
        record {
          left = found_id_there n p i m ms q last (refl, t.1, t.2) (omega arith) rest.left;
          right = found_id_there j p i m ms q last (refl, t.1, t.2) (omega arith) rest.right;
          apart = rest.apart;
        })
  | yes before ↦ elim (dec_lt j (i + m.instances)) [
    | yes same ↦ record {
      left = found_id_here n p i m ms q last (refl, t.1, t.2) low before;
      right = found_id_here j p i m ms q last (refl, t.1, t.2) (omega arith) same;
      apart = stripe_ends t.1 n j low h;
    }
    | no other ↦
        (let f = find_id j (p + span m) (i + m.instances) ms q last t.2 (omega arith) high in
          record {
            left = found_id_here n p i m ms q last (refl, t.1, t.2) low before;
            right = found_id_there j p i m ms q last (refl, t.1, t.2) (omega arith) f;
            apart = stripe_before t.1 n j low before f;
          })
  ]
])

found_stripe :
    {om : ObjectMap} {limit : ℕ} (t : IsTiled om limit) (n : ℕ)
    (f : FoundId n 0 om.stripes_by_pos limit)
    → stripe_by_id om n ≡ ok (stripe_in f.tile n)
found_stripe {om} t n f = stripe_by_id_found om n f.after f.tile (rw t.indexed f.found) f.low f.high

-- The positions of a stripe lie below those of every stripe with a larger id.
pub stripe_by_id_order :
    {om : ObjectMap} {limit : ℕ} (n j : ℕ) (a b : Stripe)
    → IsTiled om limit
    → n < j
    → j < om.next_stripe_id
    → stripe_by_id om n ≡ ok a
    → stripe_by_id om j ≡ ok b
    → a.max_position < b.min_position
stripe_by_id_order {om} {limit} n j a b t h known ea eb =
    let f =
      find-Apart n j 0 0 om.stripes_by_pos limit om.next_stripe_id t.tiles (omega arith) h known in
    let left : stripe_in f.left.tile n ≡ a = cc (found_stripe t n f.left, ea) in
    let right : stripe_in f.right.tile j ≡ b = cc (found_stripe t j f.right, eb) in
    subst (λ (s : Stripe). s.max_position < b.min_position) left
      (subst (λ (s : Stripe). (stripe_in f.left.tile n).max_position < s.min_position) right
        f.apart)
