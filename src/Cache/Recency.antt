-- ===== src/Cache/Recency.antt =====
-- The list and the hash map of the least-recently-used policy agree: src/eviction/lru.cc.
use zlog.Base.{
  ℕ, suc, ◌≡◌, refl, false, Option, none, some, List, [], ◌∷◌, ◌==◌, if◌then◌else◌, length, arith,
  Bool-cases, inl, inr,
}
use zlog.Cache.{take_node, back, pop_back, is_missing}

-- The node of a position, and the position of a node.
abbrev pub node_at : ℕ → List (ℕ × ℕ) → Option ℕ
node_at p [] = none
node_at p ((n, q) ∷ order) = if q == p then some n else node_at p order

abbrev pub position_of : ℕ → List (ℕ × ℕ) → Option ℕ
position_of n [] = none
position_of n ((m, q) ∷ order) = if m == n then some q else position_of n order

-- No node and no position stands twice.
abbrev pub Distinct : List (ℕ × ℕ) → Type 0
Distinct [] = Unit
Distinct ((n, p) ∷ order) = (node_at p order ≡ none) × (position_of n order ≡ none) × Distinct order

-- The last entry is in the list.
pub back_found :
    (x : ℕ × ℕ) (order : List (ℕ × ℕ)) → is_missing (node_at (back x order).1 (x ∷ order)) ≡ false
unfolding back
back_found (n, p) [] = ground arith
back_found (n, p) ((m, q) ∷ order) = ground (arith, back_found (m, q) order)

pub node_at-pop_back :
    (p : ℕ) (x : ℕ × ℕ) (order : List (ℕ × ℕ))
    → Distinct (x ∷ order)
    → node_at p (pop_back x order) ≡ (if (back x order).1 == p then none else node_at p (x ∷ order))
unfolding back pop_back
node_at-pop_back p (n, q) [] d = ground arith
node_at-pop_back p (n, q) ((m, r) ∷ order) d =
    ground (arith, node_at-pop_back p (m, r) order d.2, back_found (m, r) order, d.0)

pub position_of-pop_back :
    (n : ℕ) (x : ℕ × ℕ) (order : List (ℕ × ℕ))
    → position_of n (x ∷ order) ≡ none
    → position_of n (pop_back x order) ≡ none
unfolding pop_back
position_of-pop_back n (m, q) [] h = refl
position_of-pop_back n (m, q) ((k, r) ∷ order) h =
    ground (arith, h, position_of-pop_back n (k, r) order)

missing-pop_back :
    (p : ℕ) (x : ℕ × ℕ) (order : List (ℕ × ℕ))
    → node_at p (x ∷ order) ≡ none
    → node_at p (pop_back x order) ≡ none
unfolding pop_back
missing-pop_back p (m, q) [] h = refl
missing-pop_back p (m, q) ((k, r) ∷ order) h = ground (arith, h, missing-pop_back p (k, r) order)

pub pop_back-Distinct :
    (x : ℕ × ℕ) (order : List (ℕ × ℕ)) → Distinct (x ∷ order) → Distinct (pop_back x order)
unfolding pop_back
pop_back-Distinct (n, p) [] d = tt
pop_back-Distinct (n, p) (y ∷ order) d = (
  missing-pop_back p y order d.0,
  position_of-pop_back n y order d.1,
  pop_back-Distinct y order d.2,
)

pub length-pop_back : (x : ℕ × ℕ) (order : List (ℕ × ℕ)) → length (pop_back x order) ≡ length order
unfolding pop_back
length-pop_back x [] = refl
length-pop_back x (y ∷ order) = omega (arith, length-pop_back y order)

pub node_at-position_of :
    (n p : ℕ) (order : List (ℕ × ℕ))
    → Distinct order
    → node_at p order ≡ some n
    → position_of n order ≡ some p
node_at-position_of n p [] d h = cc h
node_at-position_of n p ((m, q) ∷ order) d h = elim (Bool-cases (q == p)) [
  | inl e ↦ ground (arith, e, h)
  | inr e ↦
      let later : node_at p order ≡ some n = ground (arith, e, h) in
      ground (arith, e, later, node_at-position_of n p order d.2 later, d.1)
]

-- The list without the entries of a node.
abbrev pub without : ℕ → List (ℕ × ℕ) → List (ℕ × ℕ)
without n [] = []
without n ((m, q) ∷ order) = if m == n then without n order else (m, q) ∷ without n order

without_missing :
    (n : ℕ) (order : List (ℕ × ℕ)) → position_of n order ≡ none → without n order ≡ order
without_missing n [] h = refl
without_missing n ((m, q) ∷ order) h = ground (arith, h, without_missing n order)

-- What taking a node out of the list leaves.
pub record Taken (n p : ℕ) (order : List (ℕ × ℕ)) : Type 0 where
  pub rest : List (ℕ × ℕ)
  pub others : rest ≡ without n order
  pub taken : take_node n order ≡ some ((n, p), rest)
  pub nodes : (q : ℕ) → node_at q rest ≡ (if p == q then none else node_at q order)
  pub positions : (m : ℕ) → position_of m rest ≡ (if n == m then none else position_of m order)
  pub distinct : Distinct rest
  pub shorter : suc (length rest) ≡ length order

pub take_node-Taken :
    (n p : ℕ) (order : List (ℕ × ℕ)) → Distinct order → node_at p order ≡ some n → Taken n p order
unfolding take_node
take_node-Taken n p [] d h = cc h
take_node-Taken n p ((m, q) ∷ order) d h = elim (Bool-cases (q == p)) [
  | inl e ↦ record {
    rest = order;
    others = ground (arith, e, h, d.1, without_missing n order);
    taken = ground (arith, e, h);
    nodes = λ x. ground (arith, e, d.0);
    positions = λ x. ground (arith, e, h, d.1);
    distinct = d.2;
    shorter = refl;
  }
  | inr e ↦
      let later : node_at p order ≡ some n = ground (arith, e, h) in
      let t = take_node-Taken n p order d.2 later in
      let other : (m == n) ≡ false = ground (arith, node_at-position_of n p order d.2 later, d.1) in
      record {
        rest = (m, q) ∷ t.rest;
        others = ground (arith, other, t.others);
        taken = rw (other, t.taken) refl;
        nodes = λ x. ground (arith, e, t.nodes x);
        positions = λ x. ground (arith, other, t.positions x);
        distinct = (ground (arith, t.nodes q, d.0), ground (arith, t.positions m, d.1), t.distinct);
        shorter = omega (arith, t.shorter);
      }
]
