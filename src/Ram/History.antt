-- ===== src/Ram/History.antt =====
-- What a sequence of calls does to one object's view.
use zlog.Base.{
  ℕ, ◌≡◌, refl, sym, subst, Option, none, some, List, [], ◌∷◌, ◌++◌, Text, Outcome, ok, err, fault,
  is_empty, text_eq, text_eq_iff, Bool-cases, inl, inr, ◌==◌, eexist, Errno,
}
use zlog.Ram.{RamBackend, Object, link, projection, log, ProjectionObject, find_object, put_object}
use zlog.Ram.Head.{
  create_head, create_link, propose_view, propose_to, next_unique_id, first_view, propose_found,
  head_prefix, head_object_prefix, data_object_prefix,
}
use zlog.Ram.Refinement.{find_object-put_object, run_log_call_refines}
use zlog.Ram.Spec.{LogCall, run_log_call, foreign, view, view_object}
use zlog.Ram.Order.{Later, Later-refl, Later-trans, Within, UsedWithin}
use zlog.Ram.Later.{Forward, spec-Forward}
use zlog.Ram.Calls.{
  Call, calls, creates, links, proposes, draws, step, run, KeepsTo, find_object-put_object_other,
  run_log_call_other, run_log_call_unnamed,
}

pub create_link_free :
    (b : RamBackend) (name hoid prefix : Text)
    → find_object b (head_prefix ++ name) ≡ none
    → create_link b name hoid prefix
      ≡ (ok (hoid, prefix), put_object b (head_prefix ++ name) (link hoid))
unfolding create_link
create_link_free b name hoid prefix e = rw (create_link, e) refl

pub create_link_taken :
    (b : RamBackend) (name hoid prefix : Text) (o : Object)
    → find_object b (head_prefix ++ name) ≡ some o
    → create_link b name hoid prefix ≡ (err eexist, b)
unfolding create_link
create_link_taken b name hoid prefix o e = rw (create_link, e) refl

pub create_head_new :
    (b : RamBackend) (first key : Text)
    → find_object b (head_object_prefix ++ key) ≡ none
    → create_head b first key ≡ (
      ok (head_object_prefix ++ key, data_object_prefix ++ key),
      put_object b
          (head_object_prefix ++ key)
          (projection (first_view (data_object_prefix ++ key) first)),
    )
unfolding create_head
create_head_new b first key e = rw (create_head, e) refl

pub create_head_met :
    (b : RamBackend) (first key : Text) (o : Object)
    → find_object b (head_object_prefix ++ key) ≡ some o
    → create_head b first key ≡ (fault, b)
unfolding create_head
create_head_met b first key o e = rw (create_head, e) refl

pub propose_found_ok :
    (b : RamBackend) (hoid : Text) (epoch : ℕ) (new : Text) (p q : ProjectionObject)
    → propose_to p epoch new ≡ ok q
    → propose_found b hoid epoch new (some (projection p))
      ≡ (ok tt, put_object b hoid (projection q))
unfolding propose_found
propose_found_ok b hoid epoch new p q e = rw (propose_found, e) refl

pub propose_found_err :
    (b : RamBackend) (hoid : Text) (epoch : ℕ) (new : Text) (p : ProjectionObject) (x : Errno)
    → propose_to p epoch new ≡ err x
    → propose_found b hoid epoch new (some (projection p)) ≡ (err x, b)
unfolding propose_found
propose_found_err b hoid epoch new p x e = rw (propose_found, e) refl

pub propose_found_fault :
    (b : RamBackend) (hoid : Text) (epoch : ℕ) (new : Text) (p : ProjectionObject)
    → propose_to p epoch new ≡ fault
    → propose_found b hoid epoch new (some (projection p)) ≡ (fault, b)
unfolding propose_found
propose_found_fault b hoid epoch new p e = rw (propose_found, e) refl

module _ (cap : Text → ℕ) (oid : Text) where
  abbrev Moves : RamBackend → RamBackend → Type 0
  Moves b c = Forward (cap oid) (view b oid) (view c oid)

  same-Moves :
      (b c : RamBackend)
      → find_object c oid ≡ find_object b oid
      → UsedWithin (cap oid) (view b oid)
      → Moves b c
  unfolding view
  same-Moves b c e used = rw e (Later-refl (view b oid), used)

  -- An object of another kind is put at a name that is free or belongs to such an object.
  put-Moves :
      (b : RamBackend) (key : Text) (o : Object)
      → view_object (some o) ≡ foreign
      → Later (view b key) foreign
      → UsedWithin (cap oid) (view b oid)
      → Moves b (put_object b key o)
  put-Moves b key o kind free used = elim (Bool-cases (text_eq key oid)) [
    | inl e ↦
        unfold view in
        rw (find_object-put_object b key oid o, e, kind)
          (
            subst (λ k. Later (view_object (find_object b k)) foreign) ((text_eq_iff key oid).0 e)
                free,
            tt,
          )
    | inr e ↦ same-Moves b (put_object b key o) (find_object-put_object_other b key oid e o) used
  ]

  calls-Moves :
      (b : RamBackend) (target : Text) (call : LogCall)
      → Within (cap target) call
      → UsedWithin (cap oid) (view b oid)
      → Moves b (run_log_call b target call).1
  calls-Moves b target call h used = elim (Bool-cases (text_eq target oid)) [
    | inr e ↦
        same-Moves b (run_log_call b target call).1 (run_log_call_other b target oid e call) used
    | inl e ↦ elim (Bool-cases (is_empty target)) [
      | inl z ↦ rw (run_log_call_unnamed b target call z) (Later-refl (view b oid), used)
      | inr z ↦
          subst (λ o. Forward (cap o) (view b o) (view (run_log_call b target call).1 o))
            ((text_eq_iff target oid).0 e)
            (rw ((run_log_call_refines b target z call).1) (
              spec-Forward (cap target) b.blackhole call (view b target) h (
                subst (λ o. UsedWithin (cap o) (view b o)) (sym ((text_eq_iff target oid).0 e))
                  used)))
    ]
  ]

  absent_before :
      (b : RamBackend) (key : Text) → find_object b key ≡ none → Later (view b key) foreign
  unfolding view
  absent_before b key e = rw e tt

  create_link-Moves :
      (b : RamBackend) (name hoid prefix : Text)
      → UsedWithin (cap oid) (view b oid)
      → Moves b (create_link b name hoid prefix).1
  create_link-Moves b name hoid prefix used = go (find_object b (head_prefix ++ name)) refl
    where
      go :
          (r : Option Object)
          → find_object b (head_prefix ++ name) ≡ r
          → Moves b (create_link b name hoid prefix).1
      go none e =
          subst (λ r. Moves b r.1) (sym (create_link_free b name hoid prefix e))
            (put-Moves b (head_prefix ++ name) (link hoid) refl
              (absent_before b (head_prefix ++ name) e) used)
      go (some o) e =
          subst (λ r. Moves b r.1) (sym (create_link_taken b name hoid prefix o e))
            (Later-refl (view b oid), used)

  create_head-Moves :
      (b : RamBackend) (first key : Text)
      → UsedWithin (cap oid) (view b oid)
      → Moves b (create_head b first key).1
  create_head-Moves b first key used = go (find_object b (head_object_prefix ++ key)) refl
    where
      go :
          (r : Option Object)
          → find_object b (head_object_prefix ++ key) ≡ r
          → Moves b (create_head b first key).1
      go none e =
          subst (λ r. Moves b r.1) (sym (create_head_new b first key e))
            (put-Moves b (head_object_prefix ++ key)
              (projection (first_view (data_object_prefix ++ key) first)) refl
              (absent_before b (head_object_prefix ++ key) e) used)
      go (some o) e =
          subst (λ r. Moves b r.1) (sym (create_head_met b first key o e))
            (Later-refl (view b oid), used)

  propose_view-Moves :
      (b : RamBackend) (hoid : Text) (epoch : ℕ) (new : Text)
      → UsedWithin (cap oid) (view b oid)
      → Moves b (propose_view b hoid epoch new).1
  propose_view-Moves b hoid epoch new used = elim (Bool-cases (is_empty hoid)) [
    | inl z ↦ unfold propose_view in rw z (Later-refl (view b oid), used)
    | inr z ↦ elim (Bool-cases (epoch == 0)) [
      | inl t ↦ unfold propose_view in rw (z, t) (Later-refl (view b oid), used)
      | inr t ↦ unfold propose_view in rw (z, t) (go (find_object b hoid) refl)
    ]
  ]
    where
      proposed :
          (p : ProjectionObject)
          → find_object b hoid ≡ some (projection p)
          → (r : Outcome ProjectionObject) → propose_to p epoch new ≡ r
          → Moves b (propose_found b hoid epoch new (some (projection p))).1
      proposed p e (ok q) f =
          subst (λ r. Moves b r.1) (sym (propose_found_ok b hoid epoch new p q f))
            (put-Moves b hoid (projection q) refl (unfold view in rw e tt) used)
      proposed p e (err x) f =
          subst (λ r. Moves b r.1) (sym (propose_found_err b hoid epoch new p x f))
            (Later-refl (view b oid), used)
      proposed p e fault f =
          subst (λ r. Moves b r.1) (sym (propose_found_fault b hoid epoch new p f))
            (Later-refl (view b oid), used)

      go :
          (r : Option Object)
          → find_object b hoid ≡ r
          → Moves b (propose_found b hoid epoch new r).1
      go none e = unfold propose_found in (Later-refl (view b oid), used)
      go (some (link h)) e = unfold propose_found in (Later-refl (view b oid), used)
      go (some (projection p)) e = proposed p e (propose_to p epoch new) refl
      go (some (log o)) e = unfold propose_found in (Later-refl (view b oid), used)

  draw-Moves :
      (b : RamBackend) (hoid : Text)
      → UsedWithin (cap oid) (view b oid)
      → Moves b (next_unique_id b hoid).1
  unfolding next_unique_id view find_object
  draw-Moves b hoid used = elim (Bool-cases (is_empty hoid)) [
    | inl z ↦ rw z (Later-refl (view b oid), used)
    | inr z ↦ rw z (Later-refl (view b oid), used)
  ]

  -- What a first call does and what the rest does.
  Moves-trans :
      (b c d : RamBackend) → Moves b c → (UsedWithin (cap oid) (view c oid) → Moves c d) → Moves b d
  Moves-trans b c d first rest = (
    Later-trans (view b oid) (view c oid) (view d oid) first.0 (rest first.1).0,
    (rest first.1).1,
  )

  -- Whatever clients call, in whatever order: an object's epoch never falls, a cell that is written
  -- keeps its content until it is trimmed, and an invalid cell stays so, if each call keeps to the
  -- last position of its object.
  pub run_forward :
      (sequence : List Call) (b : RamBackend)
      → KeepsTo cap sequence
      → UsedWithin (cap oid) (view b oid)
      → Later (view b oid) (view (run b sequence) oid)
        × UsedWithin (cap oid) (view (run b sequence) oid)
  unfolding run step
  run_forward [] b keeps used = (Later-refl (view b oid), used)
  run_forward (calls target call ∷ rest) b keeps used =
      Moves-trans b (step b (calls target call)) (run (step b (calls target call)) rest)
        (calls-Moves b target call keeps.0 used)
        (run_forward rest (step b (calls target call)) keeps.1)
  run_forward (creates first key ∷ rest) b keeps used =
      Moves-trans b (step b (creates first key)) (run (step b (creates first key)) rest)
        (create_head-Moves b first key used) (run_forward rest (step b (creates first key)) keeps)
  run_forward (links name hoid prefix ∷ rest) b keeps used =
      Moves-trans b (step b (links name hoid prefix)) (run (step b (links name hoid prefix)) rest)
        (create_link-Moves b name hoid prefix used)
        (run_forward rest (step b (links name hoid prefix)) keeps)
  run_forward (proposes hoid epoch new ∷ rest) b keeps used =
      Moves-trans b (step b (proposes hoid epoch new)) (run (step b (proposes hoid epoch new)) rest)
        (propose_view-Moves b hoid epoch new used)
        (run_forward rest (step b (proposes hoid epoch new)) keeps)
  run_forward (draws hoid ∷ rest) b keeps used =
      Moves-trans b (step b (draws hoid)) (run (step b (draws hoid)) rest) (draw-Moves b hoid used)
        (run_forward rest (step b (draws hoid)) keeps)
