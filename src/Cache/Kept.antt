-- ===== src/Cache/Kept.antt =====
-- What src/libzlog/cache.cc keeps while entries are put and got.
use zlog.Base.{
  ℕ, suc, ◌≡◌, ◌≤◌, ◌<◌, ◌⊎◌, refl, sym, ap, ◌∙◌, true, false, ◌&&◌, Option, none, some, List, [],
  ◌∷◌, ◌==◌, ltb, length, Text, ok, arith, Bool, Bool-cases, inl, inr, ==_iff,
}
use zlog.Base.Assoc.{find, insert, erase, find-erase, find-insert, number_key}
use zlog.Cache.{
  Cache, Lru, cache_get_hit, cache_put_miss, splice_front, back, pop_back, is_missing, put, get,
  get_found,
}
use zlog.Cache.Recency.{
  node_at, position_of, Distinct, Taken, without, take_node-Taken, node_at-position_of,
  node_at-pop_back, pop_back-Distinct, position_of-pop_back, length-pop_back, back_found,
}
use zlog.Cache.Sizes.{Unique, length-insert, insert-Unique, length-erase, erase-Unique}

-- The list, the hash map and the cache hold the same positions, once each, and no more than fit.
pub record IsKept (c : Cache) : Type 0 where
  pub distinct : Distinct c.lru.order
  pub fresh : (n : ℕ) → c.lru.next_node ≤ n → position_of n c.lru.order ≡ none
  pub indexed : (p : ℕ) → find p c.lru.index ≡ node_at p c.lru.order
  pub cached : (p : ℕ) → is_missing (find p c.cache_map) ≡ is_missing (node_at p c.lru.order)
  pub unique : Unique c.lru.index
  pub counted : length c.lru.index ≡ length c.lru.order
  pub bounded : length c.lru.order ≤ c.cache_size

-- A position that is got moves to the front, and nothing else changes.
module _ (c : Cache) (kept : IsKept c) (p n : ℕ) (at : node_at p c.lru.order ≡ some n) where
  abbrev taken : Taken n p c.lru.order
  taken = take_node-Taken n p c.lru.order kept.distinct at

  abbrev moved : Lru
  moved = record c.lru { order = (n, p) ∷ taken.rest }

  hit : cache_get_hit c.lru p ≡ ok moved
  unfolding cache_get_hit splice_front
  hit = rw (cache_get_hit, kept.indexed p, at, taken.taken) refl

  moved_nodes : (q : ℕ) → node_at q moved.order ≡ node_at q c.lru.order
  moved_nodes q = ground (arith, taken.nodes q, at)

  moved-IsKept : IsKept (record c { lru = moved })
  moved-IsKept = record {
    distinct = (ground (arith, taken.nodes p), ground (arith, taken.positions n), taken.distinct);
    fresh = λ m h. ground (
      arith,
      taken.positions m,
      kept.fresh m h,
      node_at-position_of n p c.lru.order kept.distinct at,
    );
    indexed = λ q. kept.indexed q ∙ sym (moved_nodes q);
    cached = λ q. kept.cached q ∙ ap is_missing (sym (moved_nodes q));
    unique = kept.unique;
    counted = kept.counted ∙ sym (taken.shorter);
    bounded = omega (arith, taken.shorter, kept.bounded);
  }

-- A position that is not there changes nothing; one that is there moves to the front, the others stay
-- in their order.
abbrev pub Recent : ℕ → Cache → Cache → Type 0
Recent p c next =
    ((find p c.cache_map ≡ none) × (next ≡ c))
    ⊎ ((n : ℕ) × (node_at p c.lru.order ≡ some n)
        × (next ≡ record c { lru = record c.lru { order = (n, p) ∷ without n c.lru.order } }))

abbrev pub Gets : Cache → ℕ → Type 0
Gets c p =
    (next : Cache) × (get c p ≡ ok (find p c.cache_map, next)) × IsKept next × Recent p c next

-- On a cache in order `get` never fails: it returns what the cache holds at the position, and leaves
-- the cache in order. If the position is there it moves to the front of the list and the others keep
-- their order, and nothing else changes; if it is not there nothing changes.
pub get_lem : (c : Cache) → IsKept c → (p : ℕ) → Gets c p
unfolding get get_found
get_lem c kept p = go (find p c.cache_map) refl
  where
    found :
        (content : Text)
        → find p c.cache_map ≡ some content
        → (r : Option ℕ) → node_at p c.lru.order ≡ r
        → Gets c p
    found content e none at = cc (kept.cached p, e, at)
    found content e (some n) at = (
      record c { lru = moved c kept p n at },
      rw (get, e, hit c kept p n at) refl,
      moved-IsKept c kept p n at,
      inr (
        n,
        at,
        ap (λ rest. record c { lru = record c.lru { order = (n, p) ∷ rest } })
            (taken c kept p n at).others,
      ),
    )

    go : (r : Option Text) → find p c.cache_map ≡ r → Gets c p
    go none e = (c, rw (get, e) refl, kept, inl (e, refl))
    go (some content) e = found content e (node_at p c.lru.order) refl

-- A position that is not in the cache, put in front, and the last one dropped if there is no room.
module _ (c : Cache) (kept : IsKept c) (p : ℕ) (content : Text) (room : 0 < c.cache_size)
    (new : node_at p c.lru.order ≡ none) where
  abbrev node : ℕ
  node = c.lru.next_node

  abbrev wider : List (ℕ × ℕ)
  wider = (node, p) ∷ c.lru.order

  wider-Distinct : Distinct wider
  wider-Distinct = (new, kept.fresh node (omega arith), kept.distinct)

  index_missing : find p c.lru.index ≡ none
  index_missing = kept.indexed p ∙ new

  wider_indexed : (q : ℕ) → find q (insert p node c.lru.index) ≡ node_at q wider
  wider_indexed q = ground (arith, find-insert p q node c.lru.index, kept.indexed q)

  wider_counted : length (insert p node c.lru.index) ≡ suc (length c.lru.order)
  wider_counted = length-insert p node c.lru.index index_missing ∙ ap suc kept.counted

  wider_fresh : (n : ℕ) → suc node ≤ n → position_of n wider ≡ none
  wider_fresh n h = ground (arith, h, kept.fresh n (omega (arith, h)))

  abbrev stored : Cache
  stored = record (cache_put_miss c p) {
    cache_map = insert p content (cache_put_miss c p).cache_map;
  }

  miss_roomy :
      ltb c.cache_size (suc (length c.lru.order)) ≡ false
      → cache_put_miss c p ≡ record c {
        lru = record { order = wider; index = insert p node c.lru.index; next_node = suc node };
      }
  unfolding cache_put_miss
  miss_roomy fits = rw (cache_put_miss, wider_counted, fits) refl

  abbrev last : ℕ × ℕ
  last = back (node, p) c.lru.order

  miss_full :
      ltb c.cache_size (suc (length c.lru.order)) ≡ true
      → cache_put_miss c p ≡ record c {
        cache_map = erase last.1 c.cache_map;
        lru = record {
          order = pop_back (node, p) c.lru.order;
          index = erase last.1 (insert p node c.lru.index);
          next_node = suc node;
        };
      }
  unfolding cache_put_miss
  miss_full over = rw (cache_put_miss, wider_counted, over) refl

  last_other : ltb c.cache_size (suc (length c.lru.order)) ≡ true → (last.1 == p) ≡ false
  unfolding back
  last_other over = go c.lru.order new (ground (arith, over, room))
    where
      go :
          (order : List (ℕ × ℕ))
          → node_at p order ≡ none
          → 0 < length order
          → ((back (node, p) order).1 == p) ≡ false
      go [] missing h = ground (arith, h)
      go (y ∷ order) missing h =
          ground (arith, missing, back_found y order, ==_iff (back y order).1 p)

  roomy-IsKept : ltb c.cache_size (suc (length c.lru.order)) ≡ false → IsKept stored
  roomy-IsKept fits = rw (miss_roomy fits) (record {
    distinct = wider-Distinct;
    fresh = wider_fresh;
    indexed = wider_indexed;
    cached = λ q. ground (arith, find-insert p q content c.cache_map, kept.cached q);
    unique = insert-Unique p node c.lru.index kept.unique index_missing;
    counted = wider_counted;
    bounded = ground (arith, fits);
  })

  full-IsKept : ltb c.cache_size (suc (length c.lru.order)) ≡ true → IsKept stored
  full-IsKept over = rw (miss_full over) (record {
    distinct = pop_back-Distinct (node, p) c.lru.order wider-Distinct;
    fresh = λ n h. position_of-pop_back n (node, p) c.lru.order (wider_fresh n h);
    indexed = λ q. ground (
      arith,
      find-erase last.1 q (insert p node c.lru.index),
      wider_indexed q,
      node_at-pop_back q (node, p) c.lru.order wider-Distinct,
    );
    cached = λ q. ground (
      arith,
      find-insert p q content (erase last.1 c.cache_map),
      find-erase last.1 q c.cache_map,
      kept.cached q,
      node_at-pop_back q (node, p) c.lru.order wider-Distinct,
      last_other over,
    );
    unique =
        erase-Unique last.1 (insert p node c.lru.index)
          (insert-Unique p node c.lru.index kept.unique index_missing);
    counted = omega (
      arith,
      length-erase last.1 (insert p node c.lru.index)
          (insert-Unique p node c.lru.index kept.unique index_missing)
          (ap is_missing (wider_indexed last.1) ∙ back_found (node, p) c.lru.order),
      wider_counted,
      length-pop_back (node, p) c.lru.order,
    );
    bounded = omega (arith, length-pop_back (node, p) c.lru.order, kept.bounded);
  })

  stored-IsKept : IsKept stored
  stored-IsKept = elim (Bool-cases (ltb c.cache_size (suc (length c.lru.order)))) [
    | inl over ↦ full-IsKept over
    | inr fits ↦ roomy-IsKept fits
  ]

-- `put` leaves the cache in order, with no more entries than its size. If the position is not there
-- and the content is smaller than the size of the cache, the entry is stored; otherwise nothing
-- changes.
pub put_lem :
    (c : Cache)
    → IsKept c
    → (p : ℕ) (content : Text)
    → IsKept (put c p content).1
      × (((is_missing (find p c.cache_map) ≡ true)
            × (length content < c.cache_size)
            × ((put c p content).0 ≡ true)
            × (find p (put c p content).1.cache_map ≡ some content))
          ⊎ (((is_missing (find p c.cache_map) ≡ false) ⊎ (c.cache_size ≤ length content))
              × (put c p content ≡ (false, c))))
unfolding put
put_lem c kept p content = elim (Bool-cases (is_missing (find p c.cache_map))) [
  | inr there ↦
      rw (there, and_false (ltb 0 c.cache_size) (ltb (length content) c.cache_size))
        (kept, inr (inl refl, refl))
  | inl missing ↦ elim (Bool-cases (ltb (length content) c.cache_size)) [
    | inr large ↦
        let over : c.cache_size ≤ length content = ground (arith, large) in
        rw (missing, large, false_and (ltb 0 c.cache_size)) (kept, inr (inr over, refl))
    | inl small ↦
        let fits : length content < c.cache_size = ground (arith, small) in
        let new : node_at p c.lru.order ≡ none = ground (arith, missing, kept.cached p) in
        rw (missing, small, positive fits)
          (
            stored-IsKept c kept p content (omega (arith, fits)) new,
            inl (
              refl,
              fits,
              refl,
              ground (arith, find-insert p p content (cache_put_miss c p).cache_map),
            ),
          )
  ]
]
  where
    and_false : (a b : Bool) → (a && b && false) ≡ false
    and_false a b = ground arith

    false_and : (a : Bool) → (a && false && true) ≡ false
    false_and a = ground arith

    positive : length content < c.cache_size → ltb 0 c.cache_size ≡ true
    positive h = ground (arith, h)
