-- ===== src/Cache.antt =====
-- src/libzlog/cache.cc with the policy of src/eviction/lru.cc: the entries that a client keeps. The
-- list nodes of the source have identities, since its hash map holds iterators to them.
pub mod Recency
pub mod Sizes
pub mod Kept
mod Tests
use zlog.Base.{
  ℕ, ◌+◌, Bool, true, false, ◌&&◌, Option, none, some, List, [], ◌∷◌, Text, Outcome, ok, fault, ltb,
  ◌==◌, if◌then◌else◌, length, suc,
}
use zlog.Base.Assoc.{Assoc, find, insert, erase, number_key}

-- `eviction_list`, front first, with its nodes, and `eviction_hash_map`, from positions to nodes.
pub record Lru : Type 0 where
  pub order : List (ℕ × ℕ)
  pub index : Assoc ℕ ℕ
  pub next_node : ℕ

pub record Cache : Type 0 where
  pub cache_size : ℕ
  pub cache_map : Assoc ℕ Text
  pub lru : Lru

-- The node, and the others in their order.
unfoldable pub take_node : ℕ → List (ℕ × ℕ) → Option ((ℕ × ℕ) × List (ℕ × ℕ))
take_node node [] = none
take_node node ((n, p) ∷ order) =
    if n == node
    then some ((n, p), order)
    else elim (take_node node order) [ none ↦ none | some r ↦ some (r.0, (n, p) ∷ r.1) ]

-- `splice` of a node to the front; an iterator to no node is undefined.
unfoldable pub splice_front : Lru → Option ((ℕ × ℕ) × List (ℕ × ℕ)) → Outcome Lru
splice_front lru none = fault
splice_front lru (some r) = ok (record lru { order = r.0 ∷ r.1 })

-- `cache_get_hit`: a position that the hash map misses gives an iterator to no node.
unfoldable pub cache_get_hit : Lru → ℕ → Outcome Lru
unfolding splice_front take_node find
cache_get_hit lru position = elim (find position lru.index) [
  | none ↦ fault
  | some node ↦ splice_front lru (take_node node lru.order)
]

-- `back` and `pop_back` of a list that is not empty.
unfoldable pub back : ℕ × ℕ → List (ℕ × ℕ) → ℕ × ℕ
back n [] = n
back n (m ∷ order) = back m order

unfoldable pub pop_back : ℕ × ℕ → List (ℕ × ℕ) → List (ℕ × ℕ)
pop_back n [] = []
pop_back n (m ∷ order) = n ∷ pop_back m order

-- `cache_put_miss`, with the part of the cache that it changes.
unfoldable pub cache_put_miss : Cache → ℕ → Cache
unfolding back pop_back insert erase
cache_put_miss c position =
    let node = c.lru.next_node in
    let index = insert position node c.lru.index in
    if ltb c.cache_size (length index)
    then record c {
      cache_map = erase (back (node, position) c.lru.order).1 c.cache_map;
      lru = record {
        order = pop_back (node, position) c.lru.order;
        index = erase (back (node, position) c.lru.order).1 index;
        next_node = suc node;
      };
    }
    else record c {
      lru = record { order = (node, position) ∷ c.lru.order; index = index; next_node = suc node };
    }

-- `get_evicted`.
unfoldable pub get_evicted : Lru → Outcome (ℕ × Lru)
unfolding back pop_back erase
get_evicted (lru) = elim lru.order [
  | [] ↦ fault
  | n ∷ order ↦ ok (
    (back n order).1,
    record lru { order = pop_back n order; index = erase (back n order).1 lru.index },
  )
]

abbrev pub is_missing {ℓ} : {A : Type ℓ} → Option A → Bool
is_missing none = true
is_missing (some a) = false

-- `Cache::put`: whether the entry is stored, and the cache after it.
unfoldable pub put : Cache → ℕ → Text → Bool × Cache
unfolding cache_put_miss find insert
put c position content =
    if ltb 0 c.cache_size
      && ltb (length content) c.cache_size
      && is_missing (find position c.cache_map)
    then (
      true,
      record (cache_put_miss c position) {
        cache_map = insert position content (cache_put_miss c position).cache_map;
      },
    )
    else (false, c)

unfoldable pub get_found : Cache → Text → Outcome Lru → Outcome (Option Text × Cache)
get_found c content (ok lru) = ok (some content, record c { lru = lru })
get_found c content r = fault

-- `Cache::get`: the entry, if it is there, and the cache after it.
unfoldable pub get : Cache → ℕ → Outcome (Option Text × Cache)
unfolding get_found cache_get_hit find
get c position = elim (find position c.cache_map) [
  | none ↦ ok (none, c)
  | some content ↦ get_found c content (cache_get_hit c.lru position)
]

-- `Cache::remove`: whether there was an entry.
unfoldable pub remove : Cache → ℕ → Bool × Cache
unfolding find erase
remove c position =
    if is_missing (find position c.cache_map)
    then (false, c)
    else (true, record c { cache_map = erase position c.cache_map })
