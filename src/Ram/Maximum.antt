-- ===== src/Ram/Maximum.antt =====
-- What `MaxPos` of src/storage/ram/ram.cc promises: no position that is in use lies above it.
use zlog.Base.{
  ℕ, ◌≡◌, ◌≢◌, ◌≤◌, refl, ap, max, false, Option, none, some, [], ◌∷◌, Text, ok, leb, is_empty,
  Bool-cases, inl, inr, arith, leb→le,
}
use zlog.Base.Assoc.{Assoc, find, number_key}
use zlog.Ram.{
  RamBackend, log, LogEntry, LogObject, find_object, in_trim_range, max_pos, max_pos_log,
}
use zlog.Ram.Cells.{unwritten, cell}
use zlog.Ram.Bounds.{Bounded, AllBounded, none_found}

entered :
    (o : LogObject) (p : ℕ) (e : LogEntry) → find p o.entries ≡ some e → is_empty o.entries ≡ false
entered o p e found = go o.entries found
  where
    go : (m : Assoc ℕ LogEntry) → find p m ≡ some e → is_empty m ≡ false
    go [] h = elim (none_found p e h) [ ]
    go (x ∷ m) h = refl

-- A cell without an entry that is in use is below the trim limit.
trimmed_below :
    (o : LogObject) (p l : ℕ)
    → o.trim_limit ≡ some l
    → find p o.entries ≡ none
    → cell o p ≢ unwritten
    → p ≤ l
trimmed_below o p l e f used = elim (Bool-cases (leb p l)) [
  | inl t ↦ leb→le p l t
  | inr t ↦ elim (used (unfold cell in_trim_range in rw (e, f, t) refl)) [ ]
]

used_below :
    (o : LogObject)
    → Bounded o
    → (p : ℕ) → cell o p ≢ unwritten
    → (m : ℕ) × (max_pos_log o ≡ some m) × (p ≤ m)
used_below o bounded p used = go o.trim_limit refl (find p o.entries) refl
  where
    go :
        (limit : Option ℕ)
        → o.trim_limit ≡ limit
        → (r : Option LogEntry) → find p o.entries ≡ r
        → (m : ℕ) × (max_pos_log o ≡ some m) × (p ≤ m)
    go none e none f = elim (used (unfold cell in_trim_range in rw (e, f) refl)) [ ]
    go none e (some d) f =
        (o.maxpos, unfold max_pos_log in rw (e, entered o p d f) refl, bounded p d f)
    go (some l) e none f = elim (Bool-cases (is_empty o.entries)) [
      | inl z ↦ (l, unfold max_pos_log in rw (e, z) refl, trimmed_below o p l e f used)
      | inr z ↦ (
        max o.maxpos l,
        unfold max_pos_log in rw (e, z) refl,
        omega (arith, trimmed_below o p l e f used),
      )
    ]
    go (some l) e (some d) f = (
      max o.maxpos l,
      unfold max_pos_log in rw (e, entered o p d f) refl,
      omega (arith, bounded p d f),
    )

-- `MaxPos` covers every position of the object that is written, filled or trimmed.
pub max_pos_covers :
    (b : RamBackend) (oid : Text) (o : LogObject)
    → AllBounded b
    → is_empty oid ≡ false
    → find_object b oid ≡ some (log o)
    → (p : ℕ) → cell o p ≢ unwritten
    → (m : ℕ) × (max_pos b oid ≡ ok (some m)) × (p ≤ m)
max_pos_covers b oid o all named found p used =
    let m = used_below o (all oid (log o) found) p used in
    (m.0, unfold max_pos in rw (named, found) (ap ok m.1), m.2)
