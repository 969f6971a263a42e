-- ===== src/Ram/Consensus.antt =====
-- Any number of clients that propose views: the history of a log only grows.
use zlog.Base.{
  ℕ, ◌+◌, ◌≡◌, ◌≤◌, ◌<◌, refl, sym, ap, subst, ◌∙◌, false, Option, none, some, List, [], ◌∷◌, ◌++◌,
  Text, Outcome, ok, err, fault, einval, espipe, ◌==◌, length, length-append, is_empty, text_eq,
  text_eq_iff, arith, u64_mod, Bool-cases, inl, inr, ◌⊎◌,
}
use native.Mathlib.Decide.{dec_lt}
use mathlib.Core.List.{append-nil, append_assoc}
use zlog.Ram.{
  RamBackend, Object, link, projection, log, ProjectionObject, find_object, put_object, write, fill,
  trim, seal, on_log, check_epoch,
}
use zlog.Ram.Head.{
  create_head, create_link, propose_view, propose_found, propose_to, next_unique_id, first_view,
  head_prefix, head_object_prefix, data_object_prefix,
}
use zlog.Ram.Spec.{LogCall, writes, fills, trims, seals, run_log_call}
use zlog.Ram.Calls.{
  Call, calls, creates, links, proposes, draws, step, run, run_log_call_other,
  find_object-put_object_other,
}
use zlog.Ram.History.{
  propose_found_ok, propose_found_err, propose_found_fault, create_link_free, create_link_taken,
  create_head_new, create_head_met,
}
use zlog.Ram.Views.{spec_propose}
use zlog.Ram.Heads.{HasViews, propose_view_lem, ProposeAgrees}

-- The history of the log's head is longer by some views, perhaps none.
abbrev pub Longer : RamBackend → Text → List Text → ℕ → Type 0
Longer b hoid views n = (more : List Text) × (length more ≤ n) × HasViews b hoid (views ++ more)

keeps_views :
    (b c : RamBackend) (hoid : Text) (views : List Text)
    → find_object c hoid ≡ find_object b hoid
    → HasViews b hoid views
    → HasViews c hoid views
keeps_views b c hoid views e has = (has.0, e ∙ has.1, has.2)

same_views :
    (b c : RamBackend) (hoid : Text) (views : List Text)
    → find_object c hoid ≡ find_object b hoid
    → HasViews b hoid views
    → Longer c hoid views 1
same_views b c hoid views e has = (
  [],
  omega arith,
  subst (HasViews c hoid) (sym (append-nil views)) (keeps_views b c hoid views e has),
)

-- A new object does not replace one that is there.
put_fresh :
    (b : RamBackend) (key hoid : Text) (o p : Object)
    → find_object b key ≡ none
    → find_object b hoid ≡ some p
    → find_object (put_object b key o) hoid ≡ find_object b hoid
put_fresh b key hoid o p free there = elim (Bool-cases (text_eq key hoid)) [
  | inl e ↦ cc (ap (find_object b) ((text_eq_iff key hoid).0 e))
  | inr e ↦ find_object-put_object_other b key hoid e o
]

module _ (b : RamBackend) (hoid : Text) (p : ProjectionObject)
    (there : find_object b hoid ≡ some (projection p)) where
  -- No operation on log objects changes a head object.
  log_call_same : (call : LogCall) → (run_log_call b hoid call).1 ≡ b
  log_call_same (writes content epoch q) =
      unfold run_log_call write on_log check_epoch in rw there (ground arith)
  log_call_same (fills epoch q) =
      unfold run_log_call fill on_log check_epoch in rw there (ground arith)
  log_call_same (trims epoch q limit full) =
      unfold run_log_call trim on_log check_epoch in rw there (ground arith)
  log_call_same (seals epoch) = unfold run_log_call seal in rw there (ground arith)

  create_link_same :
      (name head prefix : Text)
      → find_object (create_link b name head prefix).1 hoid ≡ find_object b hoid
  create_link_same name head prefix = go (find_object b (head_prefix ++ name)) refl
    where
      go :
          (r : Option Object)
          → find_object b (head_prefix ++ name) ≡ r
          → find_object (create_link b name head prefix).1 hoid ≡ find_object b hoid
      go none e =
          rw (create_link_free b name head prefix e)
            (put_fresh b (head_prefix ++ name) hoid (link head) (projection p) e there)
      go (some o) e = rw (create_link_taken b name head prefix o e) refl

  create_head_same :
      (view key : Text) → find_object (create_head b view key).1 hoid ≡ find_object b hoid
  create_head_same view key = go (find_object b (head_object_prefix ++ key)) refl
    where
      go :
          (r : Option Object)
          → find_object b (head_object_prefix ++ key) ≡ r
          → find_object (create_head b view key).1 hoid ≡ find_object b hoid
      go none e = rw (create_head_new b view key e) (
          put_fresh b (head_object_prefix ++ key) hoid
            (projection (first_view (data_object_prefix ++ key) view)) (projection p) e there)
      go (some o) e = rw (create_head_met b view key o e) refl

trichotomy : (a b : ℕ) → (a < b) ⊎ ((a ≡ b) ⊎ (b < a))
trichotomy a b = elim (dec_lt a b) [
  | yes less ↦ inl less
  | no some_more ↦ elim (dec_lt b a) [
    | yes more ↦ inr (inr more)
    | no some_less ↦ inr (inl (omega arith))
  ]
]

module _ (b : RamBackend) (hoid : Text) (views : List Text) (has : HasViews b hoid views)
    (small : length views + 1 < u64_mod) where
  propose_same :
      (target : Text) (epoch : ℕ) (view : Text)
      → text_eq target hoid ≡ false
      → find_object (propose_view b target epoch view).1 hoid ≡ find_object b hoid
  propose_same target epoch view apart = elim (Bool-cases (is_empty target)) [
    | inl z ↦ unfold propose_view in rw z refl
    | inr z ↦ elim (Bool-cases (epoch == 0)) [
      | inl t ↦ unfold propose_view in rw (z, t) refl
      | inr t ↦ unfold propose_view in rw (z, t) (go (find_object b target))
    ]
  ]
    where
      proposed :
          (q : ProjectionObject) (r : Outcome ProjectionObject)
          → propose_to q epoch view ≡ r
          → find_object (propose_found b target epoch view (some (projection q))).1 hoid
            ≡ find_object b hoid
      proposed q (ok n) e =
          rw (propose_found_ok b target epoch view q n e)
            (find_object-put_object_other b target hoid apart (projection n))
      proposed q (err x) e = rw (propose_found_err b target epoch view q x e) refl
      proposed q fault e = rw (propose_found_fault b target epoch view q e) refl

      go :
          (r : Option Object)
          → find_object (propose_found b target epoch view r).1 hoid ≡ find_object b hoid
      go none = unfold propose_found in refl
      go (some (link x)) = unfold propose_found in refl
      go (some (projection q)) = proposed q (propose_to q epoch view) refl
      go (some (log o)) = unfold propose_found in refl

  unchanged : (c : RamBackend) → c ≡ b → Longer c hoid views 1
  unchanged c e = same_views b c hoid views (ap (λ x. find_object x hoid) e) has

  agrees_with :
      (epoch : ℕ) (view : Text)
      → is_empty hoid ≡ false
      → 0 < epoch
      → (s : Outcome (List Text)) → spec_propose epoch views view ≡ s
      → ProposeAgrees b hoid views (propose_view b hoid epoch view) s
  agrees_with epoch view named positive s e =
      subst (ProposeAgrees b hoid views (propose_view b hoid epoch view)) e
        (propose_view_lem b hoid named views has epoch view positive small)

  module _ (epoch : ℕ) (view : Text) (named : is_empty hoid ≡ false) (positive : 0 < epoch) where
    pub propose_next :
        epoch ≡ 1 + length views
        → HasViews (propose_view b hoid epoch view).1 hoid (views ++ (view ∷ []))
    propose_next e =
        (agrees_with epoch view named positive (ok (views ++ (view ∷ []))) (ground (arith, e))).1

    pub propose_ahead : 1 + length views < epoch → propose_view b hoid epoch view ≡ (err einval, b)
    propose_ahead h = agrees_with epoch view named positive (err einval) (ground (arith, h))

    pub propose_behind : epoch < 1 + length views → propose_view b hoid epoch view ≡ (err espipe, b)
    propose_behind h = agrees_with epoch view named positive (err espipe) (ground (arith, h))

    pub propose_ok_epoch : (propose_view b hoid epoch view).0 ≡ ok tt → epoch ≡ 1 + length views
    propose_ok_epoch done = elim (trichotomy epoch (1 + length views)) [
      | inl less ↦ cc (propose_behind less)
      | inr (inl e) ↦ e
      | inr (inr more) ↦ cc (propose_ahead more)
    ]

    propose-Longer : Longer (propose_view b hoid epoch view).1 hoid views 1
    propose-Longer = elim (trichotomy epoch (1 + length views)) [
      | inl less ↦ unchanged _ (ap (λ r. r.1) (propose_behind less))
      | inr (inl e) ↦ (view ∷ [], omega arith, propose_next e)
      | inr (inr more) ↦ unchanged _ (ap (λ r. r.1) (propose_ahead more))
    ]

  proposes-Longer :
      (epoch : ℕ) (view : Text) → Longer (propose_view b hoid epoch view).1 hoid views 1
  proposes-Longer epoch view = elim (Bool-cases (is_empty hoid)) [
    | inl z ↦ unchanged _ (unfold propose_view in rw z refl)
    | inr z ↦ elim (Bool-cases (epoch == 0)) [
      | inl t ↦ unchanged _ (unfold propose_view in rw (z, t) refl)
      | inr t ↦ propose-Longer epoch view z (ground (arith, t))
    ]
  ]

  draw-Longer : (target : Text) → Longer (next_unique_id b target).1 hoid views 1
  draw-Longer target =
      same_views b _ hoid views (unfold next_unique_id find_object in ground arith) has

  step-Longer : (call : Call) → Longer (step b call) hoid views 1
  unfolding step
  step-Longer (calls target call) = elim (Bool-cases (text_eq target hoid)) [
    | inl e ↦ unchanged _ (
        subst (λ t. (run_log_call b t call).1 ≡ b) (sym ((text_eq_iff target hoid).0 e))
          (log_call_same b hoid has.0 has.1 call))
    | inr e ↦
        same_views b (run_log_call b target call).1 hoid views
          (run_log_call_other b target hoid e call) has
  ]
  step-Longer (creates view key) =
      same_views b (create_head b view key).1 hoid views
        (create_head_same b hoid has.0 has.1 view key) has
  step-Longer (links name head prefix) =
      same_views b (create_link b name head prefix).1 hoid views
        (create_link_same b hoid has.0 has.1 name head prefix) has
  step-Longer (proposes target epoch view) = elim (Bool-cases (text_eq target hoid)) [
    | inl e ↦
        subst (λ t. Longer (propose_view b t epoch view).1 hoid views 1)
          (sym ((text_eq_iff target hoid).0 e)) (proposes-Longer epoch view)
    | inr e ↦
        same_views b (propose_view b target epoch view).1 hoid views
          (propose_same target epoch view e) has
  ]
  step-Longer (draws target) = draw-Longer target

-- Whatever clients call, in whatever order, the history of a log is only added to.
pub run-Longer :
    (sequence : List Call) (b : RamBackend) (hoid : Text) (views : List Text)
    → HasViews b hoid views
    → length views + length sequence + 1 < u64_mod
    → Longer (run b sequence) hoid views (length sequence)
unfolding run
run-Longer [] b hoid views has small =
    ([], omega arith, subst (HasViews b hoid) (sym (append-nil views)) has)
run-Longer (call ∷ rest) b hoid views has small =
    let first = step-Longer b hoid views has (omega (arith, small)) call in
    let others =
      run-Longer rest (step b call) hoid (views ++ first.0) first.2
        (omega (arith, length-append views first.0, first.1, small)) in
    (
      first.0 ++ others.0,
      omega (arith, length-append first.0 others.0, first.1, others.1),
      subst (HasViews (run (step b call) rest) hoid) (append_assoc views first.0 others.0) others.2,
    )

-- Of the proposals of one epoch at most one succeeds: after one that did, and any calls, another
-- fails.
pub propose_once :
    (b : RamBackend) (hoid : Text) (views : List Text)
    → is_empty hoid ≡ false
    → HasViews b hoid views
    → (epoch : ℕ) (view : Text) → 0 < epoch
    → (propose_view b hoid epoch view).0 ≡ ok tt
    → (sequence : List Call) → length views + length sequence + 2 < u64_mod
    → (other : Text)
    → (propose_view (run (propose_view b hoid epoch view).1 sequence) hoid epoch other).0
      ≡ err espipe
propose_once b hoid views named has epoch view positive done sequence small other =
    ap (λ r. r.0)
      (propose_behind (run (propose_view b hoid epoch view).1 sequence) hoid
        ((views ++ (view ∷ [])) ++ longer.0) longer.2
        (omega (arith, length-append (views ++ (view ∷ [])) longer.0, one_more, longer.1, small))
        epoch other named positive
        (omega (arith, length-append (views ++ (view ∷ [])) longer.0, one_more, next)))
  where
    next : epoch ≡ 1 + length views
    next = propose_ok_epoch b hoid views has (omega (arith, small)) epoch view named positive done

    one_more : length (views ++ (view ∷ [])) ≡ length views + 1
    one_more = omega (arith, length-append views (view ∷ []))

    longer :
        Longer
          (run (propose_view b hoid epoch view).1 sequence)
          hoid
          (views ++ (view ∷ []))
          (length sequence)
    longer =
        run-Longer sequence (propose_view b hoid epoch view).1 hoid (views ++ (view ∷ []))
          (propose_next b hoid views has (omega (arith, small)) epoch view named positive next)
          (omega (arith, one_more, small))
