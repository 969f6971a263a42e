-- ===== src/ObjectMap/Grown.antt =====
-- One stripe more: what a round of `expand_mapping` does to the layout.
use native.Mathlib.Nat.{mul-le-mul_left}
use zlog.Base.{
  ℕ, ◌+◌, ◌-◌, ◌*◌, ◌<◌, ◌≡◌, refl, ◌∙◌, ◌⊎◌, inl, Option, some, none, [], ◌∷◌, ◌++◌, ok, arith,
  u32_mod, u64_mod, mul64, mul64_lem, add64_lem, mul32_lem,
}
use zlog.Base.OrdMap.{OrdMap, emplace, last, last_from, erase_last_from, KeysBelow}
use zlog.Options.{Options}
use zlog.Stripe.{MultiStripe, make_multi_stripe, extend}
use zlog.ObjectMap.Tile.{IsTile, size, span, size_pos}
use zlog.ObjectMap.Tiling.{Tiles, tile_grows, Tiles-grow}
use zlog.ObjectMap.Expand.{grow}

-- The multi-stripe with one instance more.
abbrev pub longer : MultiStripe → MultiStripe
longer m = record m { instances = m.instances + 1; max_position = m.max_position + size m }

pub span-longer : (m : MultiStripe) → span (longer m) ≡ span m + size m
span-longer m = omega arith

-- The product of the constructor's assertion, which is computed from the left.
pub product_lem : (n w s : ℕ) → 0 < s → n * (w * s) < u64_mod → mul64 (mul64 n w) s ≡ n * (w * s)
product_lem n w s h k =
    rw (mul64_lem n w (omega (arith, mul-le-mul_left {m = 1} {n = s} (n * w) h)))
      (mul64_lem (n * w) s (omega arith) ∙ omega arith)

module _ {p i : ℕ} {m : MultiStripe} (t : IsTile p i m) (room : p + span m + size m < u64_mod)
    (ids : i + m.instances + 1 < u64_mod) where
  pub longer-IsTile : IsTile p i (longer m)
  longer-IsTile = record {
    width_pos = t.width_pos;
    slots_pos = t.slots_pos;
    instances_pos = omega arith;
    size_fits = t.size_fits;
    starts = t.starts;
    based = t.based;
    ends = omega (arith, t.ends);
    positions_fit = omega arith;
    ids_fit = omega arith;
    origin = t.origin;
  }

  pub extend_tile : extend m ≡ ok (longer m)
  unfolding extend make_multi_stripe
  extend_tile = ground (
    arith,
    t.width_pos,
    t.slots_pos,
    t.size_fits,
    t.starts,
    t.based,
    t.ends,
    t.origin,
    t.ids_fit,
    t.instances_pos,
    mul64_lem m.width m.slots,
    product_lem (m.instances + 1) m.width m.slots,
    add64_lem m.instances 1,
    size_pos m.width m.slots t.width_pos t.slots_pos,
  )

-- The layout of a multi-stripe, which an extension keeps.
abbrev pub SameShape : MultiStripe → MultiStripe → Type 0
SameShape a b = (a.base_id ≡ b.base_id) × (a.width ≡ b.width) × (a.slots ≡ b.slots)

abbrev pub SameShapes : OrdMap MultiStripe → OrdMap MultiStripe → Type 0
SameShapes [] [] = Unit
SameShapes [] (y ∷ ys) = ⊥
SameShapes (x ∷ xs) [] = ⊥
SameShapes ((k, a) ∷ xs) ((j, b) ∷ ys) = (k ≡ j) × SameShape a b × SameShapes xs ys

pub SameShapes-refl : (ms : OrdMap MultiStripe) → SameShapes ms ms
SameShapes-refl [] = tt
SameShapes-refl ((k, m) ∷ ms) = (refl, (refl, refl, refl), SameShapes-refl ms)

pub SameShapes-trans :
    (xs ys zs : OrdMap MultiStripe) → SameShapes xs ys → SameShapes ys zs → SameShapes xs zs
SameShapes-trans [] [] [] a b = tt
SameShapes-trans [] [] (z ∷ zs) a b = elim b [ ]
SameShapes-trans [] (y ∷ ys) zs a b = elim a [ ]
SameShapes-trans (x ∷ xs) [] zs a b = elim a [ ]
SameShapes-trans (x ∷ xs) (y ∷ ys) [] a b = elim b [ ]
SameShapes-trans ((i, x) ∷ xs) ((j, y) ∷ ys) ((k, z) ∷ zs) a b =
    (a.0 ∙ b.0, (a.1.0 ∙ b.1.0, a.1.1 ∙ b.1.1, a.1.2 ∙ b.1.2), SameShapes-trans xs ys zs a.2 b.2)

pub SameShapes-replace :
    (e : ℕ × MultiStripe) (ms : OrdMap MultiStripe) (m : MultiStripe)
    → SameShape (last_from e ms).1 m
    → SameShapes (e ∷ ms) (erase_last_from e ms ++ (((last_from e ms).0, m) ∷ []))
unfolding last_from erase_last_from
SameShapes-replace (k, a) [] m h = (refl, h, tt)
SameShapes-replace (k, a) (d ∷ ms) m h = (refl, (refl, refl, refl), SameShapes-replace d ms m h)

pub Tiles-below : (p i : ℕ) (ms : OrdMap MultiStripe) (q j : ℕ) → Tiles p i ms q j → KeysBelow q ms
Tiles-below p i [] q j t = tt
Tiles-below p i ((k, m) ∷ ms) q j t = (
  omega (arith, tile_grows t.1, Tiles-grow (p + span m) (i + m.instances) ms q j t.2),
  Tiles-below (p + span m) (i + m.instances) ms q j t.2,
)

pub Tiles-snoc :
    (p i : ℕ) (ms : OrdMap MultiStripe) (k q j : ℕ) (m : MultiStripe)
    → Tiles p i ms q j
    → k ≡ q
    → IsTile q j m
    → Tiles p i (ms ++ ((k, m) ∷ [])) (q + span m) (j + m.instances)
Tiles-snoc p i [] k q j m t e tile = rw (t.0, t.1) (e, tile, (refl, refl))
Tiles-snoc p i ((k', m') ∷ ms) k q j m t e tile =
    (t.0, t.1, Tiles-snoc (p + span m') (i + m'.instances) ms k q j m t.2 e tile)

-- The number of positions that the next stripe adds.
abbrev pub growth : Options → Option (ℕ × MultiStripe) → ℕ
growth options none = options.stripe_width * options.stripe_slots
growth options (some e) = size e.1

pub record Grown (options : Options) (ms : OrdMap MultiStripe) (q j : ℕ) : Type 0 where
  pub stripes : OrdMap MultiStripe
  pub grown : grow options j ms (last ms) ≡ ok stripes
  pub tiles : Tiles 0 0 stripes (q + growth options (last ms)) (j + 1)
  pub same_growth : growth options (last stripes) ≡ growth options (last ms)
  pub shapes : (ms ≡ []) ⊎ SameShapes ms stripes

-- The options describe a stripe that can be built.
pub record Sensible (options : Options) : Type 0 where
  pub width_pos : 0 < options.stripe_width
  pub slots_pos : 0 < options.stripe_slots
  pub size_fits : options.stripe_width * options.stripe_slots < u32_mod

abbrev pub first_stripe : Options → MultiStripe
first_stripe o = record {
  base_id = 0;
  width = o.stripe_width;
  slots = o.stripe_slots;
  min_position = 0;
  instances = 1;
  max_position = o.stripe_width * o.stripe_slots - 1;
}

module _ (options : Options) (sensible : Sensible options) where
  pub first-IsTile : IsTile 0 0 (first_stripe options)
  first-IsTile = record {
    width_pos = sensible.width_pos;
    slots_pos = sensible.slots_pos;
    instances_pos = omega arith;
    size_fits = sensible.size_fits;
    starts = refl;
    based = refl;
    ends = omega (
      arith,
      size_pos options.stripe_width options.stripe_slots sensible.width_pos sensible.slots_pos,
    );
    positions_fit = omega (arith, sensible.size_fits);
    ids_fit = omega arith;
    origin = inl (refl, refl);
  }

  pub grow_first : grow options 0 [] none ≡ ok ((0, first_stripe options) ∷ [])
  unfolding grow make_multi_stripe emplace
  grow_first = ground (
    arith,
    sensible.width_pos,
    sensible.slots_pos,
    sensible.size_fits,
    mul32_lem options.stripe_width options.stripe_slots,
    product_lem 1 options.stripe_width options.stripe_slots,
    size_pos options.stripe_width options.stripe_slots,
  )
