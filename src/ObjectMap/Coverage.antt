-- ===== src/ObjectMap/Coverage.antt =====
-- `map_to`: which objects of a stripe the trim of a prefix of the log reaches, and how far.
use zlog.Base.{
  ℕ, zero, suc, ◌+◌, ◌≤◌, ◌<◌, ◌≡◌, refl, Bool, true, false, Option, some, none, List, [], ◌∷◌,
  ◌++◌, ok, arith, u64_mod, Text, leb, ltb, if◌then◌else◌, ◌&&◌, ◌==◌, ==_iff, ==_refl, text_eq,
  text_eq_iff, text_eq_refl, Bool-cases, inl, inr, ◌≢◌,
}
use zlog.Stripe.{make_oid, make_oids}
use zlog.ObjectMap.Objects.{get_elem?-make_oids, make_oid_inj}
use zlog.ObjectMap.MapTo.{oid_at, covered, cover}

-- Whether the object with an index is reached, and whether to its end.
abbrev pub flag_at : ℕ → ℕ → ℕ → ℕ → Option Bool
flag_at hi lo position i =
    if leb (hi + i) position then some true else if leb (lo + i) position then some false else none

abbrev entry_at : Text → Option Bool → List (Text × Bool)
entry_at oid none = []
entry_at oid (some complete) = (oid, complete) ∷ []

pub expected : ℕ → ℕ → ℕ → ℕ → ℕ → ℕ → List (Text × Bool)
expected id hi lo position i zero = []
expected id hi lo position i (suc left) =
    entry_at (make_oid id i) (flag_at hi lo position i) ++ expected id hi lo position (suc i) left

module _ (id width hi lo position : ℕ) (narrow : lo ≤ hi) (fits : hi + width < u64_mod) where
  oid_at_lem : (i : ℕ) → i < width → oid_at (make_oids id width) i ≡ ok (make_oid id i)
  unfolding oid_at
  oid_at_lem i h = rw (oid_at, get_elem?-make_oids id width i h)

  covered_lem :
      (i : ℕ)
      → i < width
      → covered position hi lo (make_oids id width) i
        ≡ ok (entry_at (make_oid id i) (flag_at hi lo position i))
  unfolding covered
  covered_lem i h = ground (arith, oid_at_lem i h)

  pub cover_lem :
      (i left : ℕ)
      → i + left ≡ width
      → cover position hi lo (make_oids id width) i left ≡ ok (expected id hi lo position i left)
  unfolding cover expected
  cover_lem i zero e = refl
  cover_lem i (suc left) e = rw (covered_lem i (omega arith), cover_lem (suc i) left (omega arith))

-- The flag that a list gives an object.
pub flag_of : Text → List (Text × Bool) → Option Bool
flag_of oid [] = none
flag_of oid ((name, complete) ∷ rest) = if text_eq name oid then some complete else flag_of oid rest

pub flag_of-nil : (oid : Text) → flag_of oid [] ≡ none
unfolding flag_of
flag_of-nil oid = refl

flag_of-entry_at :
    (oid name : Text) (o : Option Bool) (rest : List (Text × Bool))
    → flag_of oid (entry_at name o ++ rest) ≡ (
        if text_eq name oid
        then elim o [ none ↦ flag_of oid rest | some c ↦ some c ]
        else flag_of oid rest)
unfolding flag_of
flag_of-entry_at oid name none rest = ground arith
flag_of-entry_at oid name (some c) rest = refl

module _ (id hi lo position : ℕ) where
  same_name : (i j : ℕ) → text_eq (make_oid id i) (make_oid id j) ≡ (i == j)
  same_name i j = elim (Bool-cases (i == j)) [
    | inl e ↦ rw ((==_iff i j).0 e, text_eq_refl (make_oid id j), ==_refl j)
    | inr e ↦ rw e (differ (λ same. ground (arith, (make_oid_inj id id i j same).1)))
  ]
    where
      differ : make_oid id i ≢ make_oid id j → text_eq (make_oid id i) (make_oid id j) ≡ false
      differ d = ground (arith, text_eq_iff (make_oid id i) (make_oid id j), d)

  pub flag_of-expected :
      (i j left : ℕ)
      → flag_of (make_oid id i) (expected id hi lo position j left)
        ≡ (if leb j i && ltb i (j + left) then flag_at hi lo position i else none)
  unfolding flag_of expected
  flag_of-expected i j zero = ground arith
  flag_of-expected i j (suc left) =
      rw
        (
          flag_of-entry_at (make_oid id i) (make_oid id j) (flag_at hi lo position j)
              (expected id hi lo position (suc j) left),
          same_name j i,
        )
        (ground (arith, flag_of-expected i (suc j) left))
