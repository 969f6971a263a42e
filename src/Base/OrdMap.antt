-- ===== src/Base/OrdMap.antt =====
-- std::map with keys of type uint64_t: a list of entries in rising order of keys. An iterator is
-- the entry that it stands at with the entries that follow.
use Prim.Native.Nat.{ℕ, ◌<◌, ◌≤◌}
use mathlib.Core.Path.{◌≡◌, refl, ap}
use mathlib.Core.Option.{Option, none, some}
use mathlib.Core.List.{List, [], ◌∷◌, ◌++◌}
use native.Mathlib.Omega.{arith}
use zlog.Base.Tests.{◌==◌, ltb, if◌then◌else◌}

abbrev pub OrdMap {ℓ} : Type ℓ → Type ℓ
OrdMap V = List (ℕ × V)

module _ {ℓ} {V : Type ℓ} where
  unfoldable pub find : ℕ → OrdMap V → Option V
  find k [] = none
  find k ((j, v) ∷ m) = if j == k then some v else find k m

  -- The entries from the key on: `find` as an iterator, empty if the key is missing.
  unfoldable pub find_from : ℕ → OrdMap V → OrdMap V
  find_from k [] = []
  find_from k ((j, v) ∷ m) = if j == k then (j, v) ∷ m else find_from k m

  -- `emplace`: a key that is there already keeps its value.
  unfoldable pub emplace : ℕ → V → OrdMap V → OrdMap V
  emplace k v [] = (k, v) ∷ []
  emplace k v ((j, w) ∷ m) =
      if ltb k j then (k, v) ∷ (j, w) ∷ m else if j == k then (j, w) ∷ m else (j, w) ∷ emplace k v m

  -- `std::prev(m.upper_bound(k))`: the last entry whose key is at most `k`; none is the iterator
  -- before the first, which is undefined.
  unfoldable pub floor : ℕ → OrdMap V → Option ((ℕ × V) × OrdMap V)
  floor k [] = none
  floor k ((j, v) ∷ m) =
      if ltb k j then none else elim (floor k m) [ none ↦ some ((j, v), m) | some r ↦ some r ]

  unfoldable pub last_from : ℕ × V → OrdMap V → ℕ × V
  last_from e [] = e
  last_from e (d ∷ m) = last_from d m

  -- `rbegin`.
  unfoldable pub last : OrdMap V → Option (ℕ × V)
  unfolding last_from
  last [] = none
  last (e ∷ m) = some (last_from e m)

  unfoldable pub erase_last_from : ℕ × V → OrdMap V → OrdMap V
  erase_last_from e [] = []
  erase_last_from e (d ∷ m) = e ∷ erase_last_from d m

  -- `erase(std::prev(m.end()))`.
  unfoldable pub erase_last : OrdMap V → OrdMap V
  unfolding erase_last_from
  erase_last [] = []
  erase_last (e ∷ m) = erase_last_from e m

  -- Every key is below the bound.
  abbrev pub KeysBelow : ℕ → OrdMap V → Type 0
  KeysBelow n [] = Unit
  KeysBelow n ((k, m) ∷ ms) = (k < n) × KeysBelow n ms

  pub KeysBelow-mono : (a b : ℕ) (ms : OrdMap V) → a ≤ b → KeysBelow a ms → KeysBelow b ms
  KeysBelow-mono a b [] h k = tt
  KeysBelow-mono a b ((j, m) ∷ ms) h k = (omega arith, KeysBelow-mono a b ms h k.1)

  pub KeysBelow-snoc :
      (n k : ℕ) (m : V) (ms : OrdMap V) → KeysBelow n ms → k < n → KeysBelow n (ms ++ ((k, m) ∷ []))
  KeysBelow-snoc n k m [] b h = (h, tt)
  KeysBelow-snoc n k m ((j, x) ∷ ms) b h = (b.0, KeysBelow-snoc n k m ms b.1 h)

  pub find_above : (n : ℕ) (ms : OrdMap V) → KeysBelow n ms → find n ms ≡ none
  unfolding find
  find_above n [] b = refl
  find_above n ((k, m) ∷ ms) b = ground (arith, find_above n ms b.1)

  -- A key above all others goes to the end.
  pub emplace_above :
      (n : ℕ) (v : V) (ms : OrdMap V) → KeysBelow n ms → emplace n v ms ≡ ms ++ ((n, v) ∷ [])
  unfolding emplace
  emplace_above n v [] b = refl
  emplace_above n v ((k, m) ∷ ms) b = ground (arith, emplace_above n v ms b.1)

  pub last-snoc : (ms : OrdMap V) (e : ℕ × V) → last (ms ++ (e ∷ [])) ≡ some e
  unfolding last
  last-snoc [] e = refl
  last-snoc (d ∷ ms) e = ap some (last_from-snoc d ms e)
    where
      last_from-snoc : (d : ℕ × V) (ms : OrdMap V) (e : ℕ × V) → last_from d (ms ++ (e ∷ [])) ≡ e
      last_from-snoc d [] e = refl
      last_from-snoc d (c ∷ ms) e = last_from-snoc c ms e
