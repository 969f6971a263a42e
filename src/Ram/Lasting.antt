-- ===== src/Ram/Lasting.antt =====
-- What stays true of one log object while clients call the backend of src/storage/ram/ram.cc.
use zlog.Base.{
  ℕ, ◌≡◌, refl, sym, subst, Bool, Option, none, some, List, [], ◌∷◌, ◌++◌, Text, Outcome, ok, err,
  fault, is_empty, text_eq, text_eq_iff, Bool-cases, inl, inr, ◌==◌,
}
use zlog.Ram.{RamBackend, Object, link, projection, log, ProjectionObject, find_object, put_object}
use zlog.Ram.Head.{
  create_head, create_link, propose_view, propose_to, next_unique_id, first_view, propose_found,
  head_prefix, head_object_prefix, data_object_prefix,
}
use zlog.Ram.Refinement.{run_log_call_refines}
use zlog.Ram.Spec.{LogCall, run_log_call, View, absent, foreign, view, view_object, spec}
use zlog.Ram.Calls.{
  Call, calls, creates, links, proposes, draws, step, run, find_object-put_object_other,
  run_log_call_other, run_log_call_unnamed,
}
use zlog.Ram.History.{
  create_link_free, create_link_taken, create_head_new, create_head_met, propose_found_ok,
  propose_found_err, propose_found_fault,
}

-- Each call of the sequence on this object is of this kind. Calls on other objects are free.
abbrev pub EachOn : Text → (LogCall → Type 0) → List Call → Type 0
EachOn oid Allowed [] = Unit
EachOn oid Allowed (calls target call ∷ rest) =
    (target ≡ oid → Allowed call) × EachOn oid Allowed rest
EachOn oid Allowed (creates first key ∷ rest) = EachOn oid Allowed rest
EachOn oid Allowed (links name hoid prefix ∷ rest) = EachOn oid Allowed rest
EachOn oid Allowed (proposes hoid epoch new ∷ rest) = EachOn oid Allowed rest
EachOn oid Allowed (draws hoid ∷ rest) = EachOn oid Allowed rest

module _ (P : View → Type 0) (no_absent : P absent → ⊥) (no_foreign : P foreign → ⊥)
    (Allowed : LogCall → Type 0)
    (keep : (blackhole : Bool) (call : LogCall) (v : View)
      → Allowed call
      → P v
      → P (spec blackhole call v).1)
    (oid : Text) where
  abbrev Keeps : RamBackend → RamBackend → Type 0
  Keeps b c = P (view b oid) → P (view c oid)

  same-Keeps : (b c : RamBackend) → find_object c oid ≡ find_object b oid → Keeps b c
  unfolding view
  same-Keeps b c e h = rw e h

  -- An object is put at a name that has no such object.
  put-Keeps :
      (b : RamBackend) (key : Text) (o : Object)
      → (P (view b key) → ⊥)
      → Keeps b (put_object b key o)
  put-Keeps b key o apart h = elim (Bool-cases (text_eq key oid)) [
    | inl e ↦ absurd (apart (subst (λ k. P (view b k)) (sym ((text_eq_iff key oid).0 e)) h))
    | inr e ↦ same-Keeps b (put_object b key o) (find_object-put_object_other b key oid e o) h
  ]

  not_free : (b : RamBackend) (key : Text) → find_object b key ≡ none → P (view b key) → ⊥
  unfolding view
  not_free b key e h = no_absent (subst (λ r. P (view_object r)) e h)

  not_head :
      (b : RamBackend) (key : Text) (p : ProjectionObject)
      → find_object b key ≡ some (projection p)
      → P (view b key)
      → ⊥
  unfolding view
  not_head b key p e h = no_foreign (subst (λ r. P (view_object r)) e h)

  calls-Keeps :
      (b : RamBackend) (target : Text) (call : LogCall)
      → (target ≡ oid → Allowed call)
      → Keeps b (run_log_call b target call).1
  calls-Keeps b target call allowed h = elim (Bool-cases (text_eq target oid)) [
    | inr e ↦ same-Keeps b (run_log_call b target call).1 (run_log_call_other b target oid e call) h
    | inl e ↦ elim (Bool-cases (is_empty target)) [
      | inl z ↦ rw (run_log_call_unnamed b target call z) h
      | inr z ↦
          let same = (text_eq_iff target oid).0 e in
          subst (λ o. P (view (run_log_call b target call).1 o)) same
            (subst P (sym (run_log_call_refines b target z call).1) (
              keep b.blackhole call (view b target) (allowed same)
                (subst (λ o. P (view b o)) (sym same) h)))
    ]
  ]

  create_link-Keeps :
      (b : RamBackend) (name hoid prefix : Text) → Keeps b (create_link b name hoid prefix).1
  create_link-Keeps b name hoid prefix = go (find_object b (head_prefix ++ name)) refl
    where
      go :
          (r : Option Object)
          → find_object b (head_prefix ++ name) ≡ r
          → Keeps b (create_link b name hoid prefix).1
      go none e =
          subst (λ r. Keeps b r.1) (sym (create_link_free b name hoid prefix e))
            (put-Keeps b (head_prefix ++ name) (link hoid) (not_free b (head_prefix ++ name) e))
      go (some o) e =
          subst (λ r. Keeps b r.1) (sym (create_link_taken b name hoid prefix o e)) (λ h. h)

  create_head-Keeps : (b : RamBackend) (first key : Text) → Keeps b (create_head b first key).1
  create_head-Keeps b first key = go (find_object b (head_object_prefix ++ key)) refl
    where
      go :
          (r : Option Object)
          → find_object b (head_object_prefix ++ key) ≡ r
          → Keeps b (create_head b first key).1
      go none e =
          subst (λ r. Keeps b r.1) (sym (create_head_new b first key e))
            (put-Keeps b (head_object_prefix ++ key)
              (projection (first_view (data_object_prefix ++ key) first))
              (not_free b (head_object_prefix ++ key) e))
      go (some o) e = subst (λ r. Keeps b r.1) (sym (create_head_met b first key o e)) (λ h. h)

  propose_view-Keeps :
      (b : RamBackend) (hoid : Text) (epoch : ℕ) (new : Text)
      → Keeps b (propose_view b hoid epoch new).1
  propose_view-Keeps b hoid epoch new h = elim (Bool-cases (is_empty hoid)) [
    | inl z ↦ unfold propose_view in rw z h
    | inr z ↦ elim (Bool-cases (epoch == 0)) [
      | inl t ↦ unfold propose_view in rw (z, t) h
      | inr t ↦ unfold propose_view in rw (z, t) (go (find_object b hoid) refl h)
    ]
  ]
    where
      proposed :
          (p : ProjectionObject)
          → find_object b hoid ≡ some (projection p)
          → (r : Outcome ProjectionObject) → propose_to p epoch new ≡ r
          → Keeps b (propose_found b hoid epoch new (some (projection p))).1
      proposed p e (ok q) f =
          subst (λ r. Keeps b r.1) (sym (propose_found_ok b hoid epoch new p q f))
            (put-Keeps b hoid (projection q) (not_head b hoid p e))
      proposed p e (err x) f =
          subst (λ r. Keeps b r.1) (sym (propose_found_err b hoid epoch new p x f)) (λ h. h)
      proposed p e fault f =
          subst (λ r. Keeps b r.1) (sym (propose_found_fault b hoid epoch new p f)) (λ h. h)

      go :
          (r : Option Object)
          → find_object b hoid ≡ r
          → Keeps b (propose_found b hoid epoch new r).1
      go none e = unfold propose_found in λ h. h
      go (some (link x)) e = unfold propose_found in λ h. h
      go (some (projection p)) e = proposed p e (propose_to p epoch new) refl
      go (some (log o)) e = unfold propose_found in λ h. h

  draw-Keeps : (b : RamBackend) (hoid : Text) → Keeps b (next_unique_id b hoid).1
  unfolding next_unique_id view find_object
  draw-Keeps b hoid h = elim (Bool-cases (is_empty hoid)) [ inl z ↦ rw z h | inr z ↦ rw z h ]

  -- What each allowed call on the object keeps, any sequence of calls of any clients keeps.
  pub run_keeps :
      (sequence : List Call) (b : RamBackend)
      → EachOn oid Allowed sequence
      → P (view b oid)
      → P (view (run b sequence) oid)
  unfolding run step
  run_keeps [] b each h = h
  run_keeps (calls target call ∷ rest) b each h =
      run_keeps rest (step b (calls target call)) each.1 (calls-Keeps b target call each.0 h)
  run_keeps (creates first key ∷ rest) b each h =
      run_keeps rest (step b (creates first key)) each (create_head-Keeps b first key h)
  run_keeps (links name hoid prefix ∷ rest) b each h =
      run_keeps rest (step b (links name hoid prefix)) each (create_link-Keeps b name hoid prefix h)
  run_keeps (proposes hoid epoch new ∷ rest) b each h =
      run_keeps rest (step b (proposes hoid epoch new)) each (propose_view-Keeps b hoid epoch new h)
  run_keeps (draws hoid ∷ rest) b each h =
      run_keeps rest (step b (draws hoid)) each (draw-Keeps b hoid h)
