-- ===== src/Cache/Tests.antt =====
-- A cache of two entries.
use zlog.Base.{length, ◌<◌, ◌≤◌, ◌⊎◌, ◌≡◌, refl, true, false, some, [], codes, fault, arith}
use zlog.Base.Assoc.{find, number_key}
use zlog.Cache.{is_missing, Cache, put, get, remove}
use zlog.Cache.Kept.{IsKept, Gets, get_lem, put_lem}

abbrev empty_cache : Cache
empty_cache = record {
  cache_size = 2;
  cache_map = [];
  lru = record { order = []; index = []; next_node = 0 };
}

empty_cache-IsKept : IsKept empty_cache
unfolding find
empty_cache-IsKept = record {
  distinct = tt;
  fresh = λ n h. refl;
  indexed = λ p. refl;
  cached = λ p. refl;
  unique = tt;
  counted = refl;
  bounded = omega arith;
}

abbrev filled : Cache
filled = (put (put empty_cache 1 (codes "a")).1 2 (codes "b")).1

filled-IsKept : IsKept filled
filled-IsKept =
    (put_lem (put empty_cache 1 (codes "a")).1
      (put_lem empty_cache empty_cache-IsKept 1 (codes "a")).0 2 (codes "b")).0

put_lem_example :
    IsKept (put filled 3 (codes "c")).1
    × (((is_missing (find 3 filled.cache_map) ≡ true)
          × (length (codes "c") < filled.cache_size)
          × ((put filled 3 (codes "c")).0 ≡ true)
          × (find 3 (put filled 3 (codes "c")).1.cache_map ≡ some (codes "c")))
        ⊎ (((is_missing (find 3 filled.cache_map) ≡ false)
              ⊎ (filled.cache_size ≤ length (codes "c")))
            × (put filled 3 (codes "c") ≡ (false, filled))))
put_lem_example = put_lem filled filled-IsKept 3 (codes "c")

get_lem_example : Gets filled 1
get_lem_example = get_lem filled filled-IsKept 1

-- The entry that was used last stays.
drops_the_oldest : find 2 (put filled 3 (codes "c")).1.cache_map ≡ some (codes "b")
unfolding find put
drops_the_oldest = refl

-- An entry that is removed keeps its node, and a second node for its position follows: when the first
-- is dropped, the cache loses track of the second.
abbrev removed : Cache
removed =
    let again = (put (remove (put empty_cache 1 (codes "a")).1 1).1 1 (codes "a")).1 in
    let more = (put (put again 2 (codes "b")).1 3 (codes "c")).1 in (put more 1 (codes "d")).1

remove_then_get : get removed 1 ≡ fault
unfolding get put remove
remove_then_get = refl
