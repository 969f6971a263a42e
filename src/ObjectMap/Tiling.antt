-- ===== src/ObjectMap/Tiling.antt =====
-- The layout that an object map keeps: multi-stripes side by side, in positions and in stripe ids.
use native.Mathlib.Decide.{dec_lt}
use zlog.Base.{
  ℕ, ◌+◌, ◌*◌, ◌≤◌, ◌<◌, ◌≡◌, refl, sym, subst, ◌≢◌, ◌⊎◌, inl, inr, none, some, [], ◌∷◌, arith,
}
use zlog.Base.OrdMap.{OrdMap, floor, last, erase_last}
use zlog.Stripe.{MultiStripe}
use zlog.ObjectMap.{ObjectMap}
use zlog.ObjectMap.Tile.{IsTile, span, size_pos}

-- The entries fill the positions from `p` to `q` and the stripe ids from `i` to `j`.
abbrev pub Tiles : ℕ → ℕ → OrdMap MultiStripe → ℕ → ℕ → Type 0
Tiles p i [] q j = (p ≡ q) × (i ≡ j)
Tiles p i ((k, m) ∷ ms) q j = (k ≡ p) × IsTile p i m × Tiles (p + span m) (i + m.instances) ms q j

-- The same entries under their base ids.
abbrev pub by_id : OrdMap MultiStripe → OrdMap MultiStripe
by_id [] = []
by_id ((k, m) ∷ ms) = (m.base_id, m) ∷ by_id ms

-- The map holds the positions below the limit.
pub record IsTiled (om : ObjectMap) (limit : ℕ) : Type 0 where
  pub tiles : Tiles 0 0 om.stripes_by_pos limit om.next_stripe_id
  pub indexed : om.stripes_by_id ≡ by_id om.stripes_by_pos

pub tile_grows : {p i : ℕ} {m : MultiStripe} → IsTile p i m → p < p + span m
tile_grows {p} {i} {m} t = omega (
  arith,
  size_pos m.instances (m.width * m.slots) t.instances_pos
      (size_pos m.width m.slots t.width_pos t.slots_pos),
)

pub Tiles-grow :
    (p i : ℕ) (ms : OrdMap MultiStripe) (q j : ℕ) → Tiles p i ms q j → (p ≤ q) × (i ≤ j)
Tiles-grow p i [] q j t = omega arith
Tiles-grow p i ((k, m) ∷ ms) q j t =
    omega (
      arith,
      tile_grows t.1,
      t.1.instances_pos,
      Tiles-grow (p + span m) (i + m.instances) ms q j t.2,
    )

-- No entry starts at or below a position before the first.
floor_before :
    (pos p i : ℕ) (ms : OrdMap MultiStripe) (q j : ℕ)
    → Tiles p i ms q j
    → pos < p
    → floor pos ms ≡ none
unfolding floor
floor_before pos p i [] q j t h = refl
floor_before pos p i ((k, m) ∷ ms) q j t h = ground arith

floor_id_before :
    (id p i : ℕ) (ms : OrdMap MultiStripe) (q j : ℕ)
    → Tiles p i ms q j
    → id < i
    → floor id (by_id ms) ≡ none
unfolding floor
floor_id_before id p i [] q j t h = refl
floor_id_before id p i ((k, m) ∷ ms) q j t h = ground (arith, t.1.based)

-- What the iterator at a position finds.
pub record Found (pos i : ℕ) (ms : OrdMap MultiStripe) (q j : ℕ) : Type 0 where
  pub key : ℕ
  pub id : ℕ
  pub stripe : MultiStripe
  pub after : OrdMap MultiStripe
  pub tile : IsTile key id stripe
  pub found : floor pos ms ≡ some ((key, stripe), after)
  pub low : key ≤ pos
  pub id_low : i ≤ id
  pub rest : Tiles (key + span stripe) (id + stripe.instances) after q j
  pub high : (pos < key + span stripe) ⊎ (after ≡ [])
  pub same :
      (n : ℕ)
      → id ≤ n
      → n < id + stripe.instances
      → floor n (by_id ms) ≡ some ((id, stripe), by_id after)

floor_here :
    (pos k : ℕ) (m : MultiStripe) (ms : OrdMap MultiStripe)
    → k ≤ pos
    → floor pos ms ≡ none
    → floor pos ((k, m) ∷ ms) ≡ some ((k, m), ms)
unfolding floor
floor_here pos k m ms h e = ground arith

pub floor_there :
    (pos k : ℕ) (m : MultiStripe) (ms : OrdMap MultiStripe)
    (r : (ℕ × MultiStripe) × OrdMap MultiStripe)
    → k ≤ pos
    → floor pos ms ≡ some r
    → floor pos ((k, m) ∷ ms) ≡ some r
unfolding floor
floor_there pos k m ms r h e = ground arith

pub floor_id_here :
    (n p i : ℕ) (m : MultiStripe) (ms : OrdMap MultiStripe) (q j : ℕ)
    → IsTile p i m
    → Tiles (p + span m) (i + m.instances) ms q j
    → i ≤ n
    → n < i + m.instances
    → floor n ((m.base_id, m) ∷ by_id ms) ≡ some ((i, m), by_id ms)
floor_id_here n p i m ms q j t rest low high =
    subst (λ b. floor n ((b, m) ∷ by_id ms) ≡ some ((i, m), by_id ms)) (sym t.based)
      (floor_here n i m (by_id ms) low
        (floor_id_before n (p + span m) (i + m.instances) ms q j rest high))

found_here :
    (pos p i : ℕ) (m : MultiStripe) (ms : OrdMap MultiStripe) (q j : ℕ)
    → IsTile p i m
    → Tiles (p + span m) (i + m.instances) ms q j
    → p ≤ pos
    → floor pos ms ≡ none
    → (pos < p + span m) ⊎ (ms ≡ [])
    → Found pos i ((p, m) ∷ ms) q j
found_here pos p i m ms q j t rest low e high = record {
  key = p;
  id = i;
  stripe = m;
  after = ms;
  tile = t;
  found = floor_here pos p m ms low e;
  low = low;
  id_low = omega arith;
  rest = rest;
  high = high;
  same = λ n a b. floor_id_here n p i m ms q j t rest a b;
}

found_there :
    (pos p i : ℕ) (m : MultiStripe) (ms : OrdMap MultiStripe) (q j : ℕ)
    → IsTile p i m
    → p ≤ pos
    → Found pos (i + m.instances) ms q j
    → Found pos i ((p, m) ∷ ms) q j
found_there pos p i m ms q j t low f = record {
  key = f.key;
  id = f.id;
  stripe = f.stripe;
  after = f.after;
  tile = f.tile;
  found = floor_there pos p m ms ((f.key, f.stripe), f.after) low f.found;
  low = f.low;
  id_low = omega (arith, f.id_low);
  rest = f.rest;
  high = f.high;
  same = λ n a b.
      floor_there n m.base_id m (by_id ms) ((f.id, f.stripe), by_id f.after)
        (omega (arith, t.based, f.id_low)) (f.same n a b);
}

-- Every position from the first on is found in the multi-stripe that holds it, or, past the limit,
-- in the last; the secondary index finds the same one under each of its ids.
pub find_tile :
    (pos p i : ℕ) (ms : OrdMap MultiStripe) (q j : ℕ)
    → Tiles p i ms q j
    → ms ≢ []
    → p ≤ pos
    → Found pos i ms q j
find_tile pos p i [] q j t filled h = absurd (filled refl)
find_tile pos p i ((k, m) ∷ []) q j t filled h =
    rw t.0 (found_here pos p i m [] q j t.1 t.2 h (unfold floor in refl) (inr refl))
find_tile pos p i ((k, m) ∷ e ∷ ms) q j t filled h = elim (dec_lt pos (p + span m)) [
  | yes before ↦ rw t.0 (
      found_here pos p i m (e ∷ ms) q j t.1 t.2 h
        (floor_before pos (p + span m) (i + m.instances) (e ∷ ms) q j t.2 before) (inl before))
  | no past ↦ rw t.0 (
      found_there pos p i m (e ∷ ms) q j t.1 h
        (find_tile pos (p + span m) (i + m.instances) (e ∷ ms) q j t.2 (λ c. cc) (omega arith)))
]

-- Every stripe id below the next one is found too.
pub record FoundId (n p : ℕ) (ms : OrdMap MultiStripe) (q : ℕ) : Type 0 where
  pub key : ℕ
  pub id : ℕ
  pub stripe : MultiStripe
  pub after : OrdMap MultiStripe
  pub tile : IsTile key id stripe
  pub found : floor n (by_id ms) ≡ some ((id, stripe), after)
  pub low : id ≤ n
  pub high : n < id + stripe.instances
  pub key_low : p ≤ key
  pub key_high : key + span stripe ≤ q

module _ (n p i : ℕ) (m : MultiStripe) (ms : OrdMap MultiStripe) (q j : ℕ)
    (t : Tiles p i ((p, m) ∷ ms) q j) where
  abbrev pub found_id_here : i ≤ n → n < i + m.instances → FoundId n p ((p, m) ∷ ms) q
  found_id_here low before = record {
    key = p;
    id = i;
    stripe = m;
    after = by_id ms;
    tile = t.1;
    found = floor_id_here n p i m ms q j t.1 t.2 low before;
    low = low;
    high = before;
    key_low = omega arith;
    key_high = (Tiles-grow (p + span m) (i + m.instances) ms q j t.2).0;
  }

  abbrev pub found_id_there :
      i + m.instances ≤ n → FoundId n (p + span m) ms q → FoundId n p ((p, m) ∷ ms) q
  found_id_there past f = record {
    key = f.key;
    id = f.id;
    stripe = f.stripe;
    after = f.after;
    tile = f.tile;
    found =
        floor_there n m.base_id m (by_id ms) ((f.id, f.stripe), f.after) (omega (arith, t.1.based))
          f.found;
    low = f.low;
    high = f.high;
    key_low = omega (arith, f.key_low);
    key_high = f.key_high;
  }

pub find_id :
    (n p i : ℕ) (ms : OrdMap MultiStripe) (q j : ℕ)
    → Tiles p i ms q j
    → i ≤ n
    → n < j
    → FoundId n p ms q
find_id n p i [] q j t low high = absurd (omega arith)
find_id n p i ((k, m) ∷ ms) q j t low high = rw t.0 (elim (dec_lt n (i + m.instances)) [
  | yes before ↦ found_id_here n p i m ms q j (refl, t.1, t.2) low before
  | no past ↦
      found_id_there n p i m ms q j (refl, t.1, t.2) (omega arith)
        (find_id n (p + span m) (i + m.instances) ms q j t.2 (omega arith) high)
])

-- The last entry, and what is left without it.
pub record LastTile (p i : ℕ) (ms : OrdMap MultiStripe) (q j : ℕ) : Type 0 where
  pub key : ℕ
  pub id : ℕ
  pub stripe : MultiStripe
  pub tile : IsTile key id stripe
  pub is_last : last ms ≡ some (key, stripe)
  pub end_position : key + span stripe ≡ q
  pub end_id : id + stripe.instances ≡ j
  pub before : Tiles p i (erase_last ms) key id

pub last_tile :
    (p i k : ℕ) (m : MultiStripe) (ms : OrdMap MultiStripe) (q j : ℕ)
    → Tiles p i ((k, m) ∷ ms) q j
    → LastTile p i ((k, m) ∷ ms) q j
unfolding last erase_last
last_tile p i k m [] q j t = record {
  key = k;
  id = i;
  stripe = m;
  tile = rw t.0 t.1;
  is_last = refl;
  end_position = omega arith;
  end_id = omega arith;
  before = omega arith;
}
last_tile p i k m ((k', m') ∷ ms) q j t =
    let r = last_tile (p + span m) (i + m.instances) k' m' ms q j t.2 in
    record {
      key = r.key;
      id = r.id;
      stripe = r.stripe;
      tile = r.tile;
      is_last = r.is_last;
      end_position = r.end_position;
      end_id = r.end_id;
      before = (t.0, t.1, r.before);
    }
