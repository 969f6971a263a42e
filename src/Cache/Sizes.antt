-- ===== src/Cache/Sizes.antt =====
-- The number of entries of a hash map of src/eviction/lru.cc after each change.
use zlog.Base.{
  ℕ, suc, ◌≡◌, refl, ap, false, none, [], ◌∷◌, ◌==◌, length, arith, Bool-cases, inl, inr, ==_iff,
}
use zlog.Base.Assoc.{Assoc, find, insert, erase, find-erase, find-insert, number_key}
use zlog.Cache.{is_missing}

-- No key stands twice.
abbrev pub Unique : {V : Type 0} → Assoc ℕ V → Type 0
Unique [] = Unit
Unique ((k, v) ∷ m) = (find k m ≡ none) × Unique m

module _ {V : Type 0} where
  pub length-insert :
      (k : ℕ) (v : V) (m : Assoc ℕ V) → find k m ≡ none → length (insert k v m) ≡ suc (length m)
  unfolding find insert
  length-insert k v [] h = refl
  length-insert k v ((j, w) ∷ m) h = elim (Bool-cases (j == k)) [
    | inl e ↦ ground (arith, e, h)
    | inr e ↦
        let later : find k m ≡ none = ground (arith, e, h) in
        rw e (ap suc (length-insert k v m later))
  ]

  pub insert-Unique :
      (k : ℕ) (v : V) (m : Assoc ℕ V) → Unique m → find k m ≡ none → Unique (insert k v m)
  unfolding find insert
  insert-Unique k v [] u h = (refl, tt)
  insert-Unique k v ((j, w) ∷ m) u h = elim (Bool-cases (j == k)) [
    | inl e ↦ ground (arith, e, h)
    | inr e ↦
        let later : find k m ≡ none = ground (arith, e, h) in
        rw e (ground (arith, e, find-insert k j v m, u.0), insert-Unique k v m u.1 later)
  ]

  pub erase_missing : (k : ℕ) (m : Assoc ℕ V) → find k m ≡ none → erase k m ≡ m
  unfolding find erase
  erase_missing k [] h = refl
  erase_missing k ((j, w) ∷ m) h = elim (Bool-cases (j == k)) [
    | inl e ↦ ground (arith, e, h)
    | inr e ↦
        let later : find k m ≡ none = ground (arith, e, h) in
        rw e (ap (λ x. (j, w) ∷ x) (erase_missing k m later))
  ]

  pub length-erase :
      (k : ℕ) (m : Assoc ℕ V)
      → Unique m
      → is_missing (find k m) ≡ false
      → suc (length (erase k m)) ≡ length m
  unfolding find erase
  length-erase k [] u h = cc h
  length-erase k ((j, w) ∷ m) u h = elim (Bool-cases (j == k)) [
    | inl e ↦
        let gone : find k m ≡ none = ground (arith, e, (==_iff j k).0 e, u.0) in
        rw (e, erase_missing k m gone) refl
    | inr e ↦
        let later : is_missing (find k m) ≡ false = ground (arith, e, h) in
        rw e (ap suc (length-erase k m u.1 later))
  ]

  pub erase-Unique : (k : ℕ) (m : Assoc ℕ V) → Unique m → Unique (erase k m)
  unfolding find erase
  erase-Unique k [] u = tt
  erase-Unique k ((j, w) ∷ m) u = elim (Bool-cases (j == k)) [
    | inl e ↦ rw e (erase-Unique k m u.1)
    | inr e ↦ rw e (ground (arith, find-erase k j m, u.0), erase-Unique k m u.1)
  ]
