-- ===== src/ObjectMap/Objects.antt =====
-- The names of objects: which positions share an object.
use zlog.Base.{
  ℕ, suc, ◌+◌, ◌%◌, ◌≤◌, ◌<◌, ◌≡◌, sym, ap, ◌∙◌, Bool, Option, some, ok, arith, Text, Outcome, zero,
  get_elem?,
}
use zlog.Base.Decimal.{decimal, decimal_inj, decimal-IsDigit, split_at_stop}
use zlog.Stripe.{Stripe, make_oid, make_oids, make_oids_from}
use zlog.ObjectMap.{ObjectMap, map_position, stripe_by_id}
use zlog.ObjectMap.Tiling.{IsTiled}
use zlog.ObjectMap.Lookup.{Placed, place}

-- The name of an object tells its stripe and its index.
pub make_oid_inj : (a b i j : ℕ) → make_oid a i ≡ make_oid b j → (a ≡ b) × (i ≡ j)
unfolding make_oid
make_oid_inj a b i j e =
    let parts =
      split_at_stop b'.' (decimal a) (decimal b) (decimal i) (decimal j) (omega arith)
        (decimal-IsDigit a) (decimal-IsDigit b) e in
    (decimal_inj a b parts.0, decimal_inj i j parts.1)

pub get_elem?-make_oids_from :
    (id start left i : ℕ)
    → i < left
    → get_elem? (make_oids_from id start left) i ≡ some (make_oid id (start + i))
unfolding make_oids_from
get_elem?-make_oids_from id start zero i h = absurd (omega arith)
get_elem?-make_oids_from id start (suc left) zero h = ap (λ n. some (make_oid id n)) (omega arith)
get_elem?-make_oids_from id start (suc left) (suc i) h =
    get_elem?-make_oids_from id (suc start) left i (omega arith)
    ∙ ap (λ n. some (make_oid id n)) (omega arith)

pub get_elem?-make_oids :
    (id width i : ℕ) → i < width → get_elem? (make_oids id width) i ≡ some (make_oid id i)
unfolding make_oids
get_elem?-make_oids id width i h =
    get_elem?-make_oids_from id 0 width i h ∙ ap (λ n. some (make_oid id n)) (omega arith)

-- What a call returns is one thing.
mapped_oid :
    {r : Outcome (Option Text × Bool)} {oid named : Text} {a b : Bool}
    → r ≡ ok (some named, a)
    → r ≡ ok (some oid, b)
    → named ≡ oid
mapped_oid e f = cc

module _ {om : ObjectMap} {p q : ℕ} (a : Placed om p) (b : Placed om q) where
  same_stripe : a.stripe.stripe_id ≡ b.stripe.stripe_id → a.stripe ≡ b.stripe
  same_stripe e = cc (a.by_stripe_id, b.by_stripe_id, ap (stripe_by_id om) e)

  abbrev SharedStripe : Type 0
  SharedStripe =
      (s : Stripe) × (stripe_by_id om s.stripe_id ≡ ok s)
      × (s.min_position ≤ p)
      × (p ≤ s.max_position)
      × (s.min_position ≤ q)
      × (q ≤ s.max_position)
      × (p % s.width ≡ q % s.width)

  shared_stripe :
      make_oid a.stripe.stripe_id (p % a.stripe.width)
        ≡ make_oid b.stripe.stripe_id (q % b.stripe.width)
      → SharedStripe
  shared_stripe e =
      let parts =
        make_oid_inj a.stripe.stripe_id b.stripe.stripe_id (p % a.stripe.width) (q % b.stripe.width)
          e in
      let same = same_stripe parts.0 in
      (
        a.stripe,
        a.by_stripe_id,
        a.above,
        a.below,
        rw same b.above,
        rw same b.below,
        parts.1 ∙ ap (λ (s : Stripe). q % s.width) (sym same),
      )

-- Two positions that map to one object lie in one stripe, at the same distance modulo its width.
pub map_position_same_object :
    {om : ObjectMap} {limit : ℕ} (p q : ℕ) {oid : Text} {last_p last_q : Bool}
    → IsTiled om limit
    → p < limit
    → q < limit
    → map_position om p ≡ ok (some oid, last_p)
    → map_position om q ≡ ok (some oid, last_q)
    → (s : Stripe) × (stripe_by_id om s.stripe_id ≡ ok s)
      × (s.min_position ≤ p)
      × (p ≤ s.max_position)
      × (s.min_position ≤ q)
      × (q ≤ s.max_position)
      × (p % s.width ≡ q % s.width)
map_position_same_object p q t hp hq ep eq =
    let a = place t p hp in
    let b = place t q hq in
    shared_stripe a b (mapped_oid a.mapped ep ∙ sym (mapped_oid b.mapped eq))
