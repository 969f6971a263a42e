-- ===== src/Ram/Views.antt =====
-- The views of a log on its head object: `ProposeView` and `ReadViews` of src/storage/ram/ram.cc
-- against a plain history of views.
use zlog.Base.{
  ℕ, zero, suc, ◌+◌, ◌-◌, ◌≡◌, ◌≤◌, ◌<◌, refl, sym, ap, subst, ◌∙◌, false, List, [], ◌∷◌, ◌++◌,
  Text, Outcome, ok, err, fault, einval, espipe, if◌then◌else◌, ltb, ◌==◌, length, length-append,
  drop, is_empty, arith, u64_mod, add64, Bool-cases, inl, inr, ==_iff, ==_refl, take,
}
use zlog.Base.OrdMap.{
  OrdMap, KeysBelow, KeysBelow-mono, find_above, emplace_above, find_from, last, last_from,
}
use zlog.Ram.{ProjectionObject}
use zlog.Ram.Head.{first_view, propose_to, read_views_of, take_views, latest_view}

-- The history from an epoch on, as the backend stores it.
abbrev pub number : ℕ → List Text → OrdMap Text
number epoch [] = []
number epoch (view ∷ views) = (epoch, view) ∷ number (suc epoch) views

-- The head object holds this history, from epoch 1 on.
abbrev pub Represents : ProjectionObject → List Text → Type 0
Represents p views = (p.projections ≡ number 1 views) × (p.epoch ≡ length views)

pub first_view-Represents : (prefix view : Text) → Represents (first_view prefix view) (view ∷ [])
first_view-Represents prefix view = (refl, refl)

number-KeysBelow :
    (epoch : ℕ) (views : List Text) → KeysBelow (epoch + length views) (number epoch views)
number-KeysBelow epoch [] = tt
number-KeysBelow epoch (view ∷ views) = (
  omega arith,
  KeysBelow-mono (suc epoch + length views) (epoch + suc (length views)) _ (omega arith)
      (number-KeysBelow (suc epoch) views),
)

number-snoc :
    (epoch : ℕ) (views : List Text) (view : Text)
    → number epoch (views ++ (view ∷ []))
      ≡ number epoch views ++ ((epoch + length views, view) ∷ [])
number-snoc epoch [] view = ap (λ e. (e, view) ∷ []) (omega arith)
number-snoc epoch (v ∷ views) view =
    ap (λ rest. (epoch, v) ∷ rest)
      (number-snoc (suc epoch) views view
        ∙ ap (λ e. number (suc epoch) views ++ ((e, view) ∷ [])) (omega arith))

-- The outcome of a proposal: the next epoch is taken, a later one is wrong and an earlier one is old.
abbrev pub spec_propose : ℕ → List Text → Text → Outcome (List Text)
spec_propose epoch views view =
    if epoch == (1 + length views)
    then ok (views ++ (view ∷ []))
    else if ltb (1 + length views) epoch
    then err einval
    else err espipe

-- The outcomes agree, and an object that results holds the history that results.
abbrev pub Agree : Outcome ProjectionObject → Outcome (List Text) → Type 0
Agree (ok p) (ok views) = Represents p views
Agree (err e) (err f) = e ≡ f
Agree fault fault = Unit
Agree p views = ⊥

module _ (p : ProjectionObject) (views : List Text) (holds : Represents p views) where
  keys_below : KeysBelow (1 + length views) p.projections
  keys_below = subst (KeysBelow (1 + length views)) (sym holds.0) (number-KeysBelow 1 views)

  abbrev appended : ℕ → Text → ProjectionObject
  appended epoch view = record p {
    projections = p.projections ++ ((epoch, view) ∷ []);
    epoch = epoch;
  }

  propose_to_lem :
      (epoch : ℕ) (view : Text)
      → 1 + length views < u64_mod
      → propose_to p epoch view ≡ (
          if epoch == (1 + length views)
          then ok (appended epoch view)
          else if ltb (1 + length views) epoch
          then err einval
          else err espipe)
  unfolding propose_to
  propose_to_lem epoch view small = ground (
    arith,
    holds.1,
    find_above (1 + length views) p.projections keys_below,
    emplace_above (1 + length views) view p.projections keys_below,
  )

  -- A proposal is a compare-and-swap on the length of the history.
  pub propose_to_refines :
      (epoch : ℕ) (view : Text)
      → 1 + length views < u64_mod
      → Agree (propose_to p epoch view) (spec_propose epoch views view)
  propose_to_refines epoch view small =
      rw (propose_to_lem epoch view small) (elim (Bool-cases (epoch == (1 + length views))) [
        | inl e ↦ rw e (taken ((==_iff epoch (1 + length views)).0 e))
        | inr e ↦ rw e (elim (Bool-cases (ltb (1 + length views) epoch)) [
          | inl t ↦ rw t refl
          | inr t ↦ rw t refl
        ])
      ])
    where
      taken : epoch ≡ 1 + length views → Represents (appended epoch view) (views ++ (view ∷ []))
      taken e = (
        rw (e, holds.0) (sym (number-snoc 1 views view)),
        e ∙ omega (arith, length-append views (view ∷ [])),
      )

-- The answer to a request for views: from the epoch on, or the latest if the epoch is 0.
abbrev pub spec_views : ℕ → ℕ → List Text → OrdMap Text
spec_views epoch max_views views =
    if ltb (length views) epoch
    then []
    else if epoch == 0
    then number (length views) (drop (length views - 1) views)
    else number epoch (take max_views (drop (epoch - 1) views))

find_from-number :
    (skipped first target : ℕ) (views : List Text)
    → target ≡ first + skipped
    → skipped < length views
    → find_from target (number first views) ≡ number target (drop skipped views)
unfolding find_from
find_from-number skipped first target [] e h = ground (arith, h)
find_from-number zero first target (view ∷ views) e h =
    let same : first ≡ target = omega (arith, e) in
    subst (λ t. find_from t (number first (view ∷ views)) ≡ number t (view ∷ views)) same
      (rw (==_refl first) refl)
find_from-number (suc skipped) first target (view ∷ views) e h =
    rw (first_ne)
      (find_from-number skipped (suc first) target views (omega (arith, e)) (omega (arith, h)))
  where
    first_ne : (first == target) ≡ false
    first_ne = ground (arith, e)

take_views-number :
    (max_views epoch expected : ℕ) (views : List Text)
    → expected ≡ epoch
    → epoch + length views < u64_mod
    → take_views max_views expected (number epoch views) ≡ ok (number epoch (take max_views views))
unfolding take_views
take_views-number zero epoch expected views e h = refl
take_views-number (suc left) epoch expected [] e h = refl
take_views-number (suc left) epoch expected (view ∷ views) e h =
    let next =
      take_views-number left (suc epoch) (add64 epoch 1) views (omega (arith, h))
        (omega (arith, h)) in
    rw (e, ==_refl epoch, next) refl

last-number :
    (skipped epoch target : ℕ) (views : List Text)
    → target ≡ epoch + skipped
    → length views ≡ suc skipped
    → latest_view (last (number epoch views)) ≡ number target (drop skipped views)
unfolding latest_view last last_from
last-number skipped epoch target [] e h = ground (arith, h)
last-number zero epoch target (view ∷ []) e h = ap (λ t. (t, view) ∷ []) (omega (arith, e))
last-number zero epoch target (view ∷ next ∷ views) e h = ground (arith, h)
last-number (suc skipped) epoch target (view ∷ []) e h = ground (arith, h)
last-number (suc skipped) epoch target (view ∷ next ∷ views) e h =
    last-number skipped (suc epoch) target (next ∷ views) (omega (arith, e)) (omega (arith, h))

drop-not_empty :
    (skipped epoch : ℕ) (views : List Text)
    → skipped < length views
    → is_empty (number epoch (drop skipped views)) ≡ false
drop-not_empty skipped epoch [] h = ground (arith, h)
drop-not_empty zero epoch (view ∷ views) h = refl
drop-not_empty (suc skipped) epoch (view ∷ views) h =
    drop-not_empty skipped epoch views (omega (arith, h))

length-drop : (n : ℕ) (views : List Text) → length (drop n views) ≤ length views - n
length-drop zero views = omega arith
length-drop (suc n) [] = omega arith
length-drop (suc n) (view ∷ views) = omega (arith, length-drop n views)

-- A request for views returns them in order, and at most as many as it asks for.
pub read_views_of_refines :
    (p : ProjectionObject) (views : List Text)
    → Represents p views
    → (epoch max_views : ℕ) → length views + 1 < u64_mod
    → read_views_of p epoch max_views ≡ ok (spec_views epoch max_views views)
unfolding read_views_of last
read_views_of_refines p views holds epoch max_views small =
    rw (holds.0, holds.1)
      (elim (Bool-cases (ltb (length views) epoch)) [
        | inl t ↦ rw t refl
        | inr t ↦ rw t (elim (Bool-cases (epoch == 0)) [
          | inl z ↦ rw z (ap ok (latest views refl))
          | inr z ↦
              rw (z, found t z, drop-not_empty (epoch - 1) epoch views (inside t z))
                (take_views-number max_views epoch epoch (drop (epoch - 1) views) refl
                  (omega (arith, length-drop (epoch - 1) views, small, inside t z)))
        ])
      ])
  where
    inside : ltb (length views) epoch ≡ false → (epoch == 0) ≡ false → epoch - 1 < length views
    inside t z = ground (arith, t, z)

    found :
        ltb (length views) epoch ≡ false
        → (epoch == 0) ≡ false
        → find_from epoch (number 1 views) ≡ number epoch (drop (epoch - 1) views)
    found t z = find_from-number (epoch - 1) 1 epoch views (ground (arith, z)) (inside t z)

    latest :
        (all : List Text)
        → all ≡ views
        → latest_view (last (number 1 all)) ≡ number (length all) (drop (length all - 1) all)
    latest [] e = refl
    latest (view ∷ rest) e =
        last-number (length (view ∷ rest) - 1) 1 (length (view ∷ rest)) (view ∷ rest) (omega arith)
          (omega arith)
