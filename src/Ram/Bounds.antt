-- ===== src/Ram/Bounds.antt =====
-- The maximum position that each log object of src/storage/ram/ram.cc keeps bounds its entries.
use zlog.Base.{
  ℕ, ◌≡◌, ◌≤◌, refl, sym, subst, ◌∙◌, Bool, true, false, Option, none, some, List, [], ◌∷◌, ◌++◌,
  Text, Outcome, ok, err, fault, ltb, leb, is_empty, text_eq, Bool-cases, inl, inr, ◌==◌, ◌||◌,
  arith, ==_iff,
}
use zlog.Base.Assoc.{find, find-insert, number_key}
use zlog.Ram.{
  RamBackend, Object, link, projection, log, LogEntry, LogObject, LogEffect, ProjectionObject,
  find_object, put_object, on_log, check_epoch, write, fill, trim, seal, add_entry, write_log,
  write_entry, fill_log, fill_entry, trim_log, trim_entry, raise_trim_limit, in_trim_range, hole,
}
use zlog.Ram.Head.{
  create_head, create_link, propose_view, propose_to, propose_found, next_unique_id, head_prefix,
  head_object_prefix,
}
use zlog.Ram.Refinement.{find_object-put_object}
use zlog.Ram.Spec.{LogCall, writes, fills, trims, seals, run_log_call}
use zlog.Ram.Calls.{Call, calls, creates, links, proposes, draws, step, run}
use zlog.Ram.History.{
  propose_found_ok, propose_found_err, propose_found_fault, create_link_free, create_link_taken,
  create_head_new, create_head_met,
}

-- No entry lies above the maximum position that the object keeps.
abbrev pub Bounded : LogObject → Type 0
Bounded o = (q : ℕ) (e : LogEntry) → find q o.entries ≡ some e → q ≤ o.maxpos

abbrev BoundedObject : Object → Type 0
BoundedObject (link hoid) = Unit
BoundedObject (projection p) = Unit
BoundedObject (log o) = Bounded o

abbrev pub AllBounded : RamBackend → Type 0
AllBounded b = (oid : Text) (x : Object) → find_object b oid ≡ some x → BoundedObject x

add_entry-Bounded : (o : LogObject) (p : ℕ) (e : LogEntry) → Bounded o → Bounded (add_entry o p e)
unfolding add_entry
add_entry-Bounded o p e bounded q d found = elim (Bool-cases (p == q)) [
  | inl same ↦ omega (arith, (==_iff p q).0 same)
  | inr other ↦
      let before : find q o.entries ≡ some d =
        ground (arith, find-insert p q e o.entries, other, found) in
      omega (arith, bounded q d before)
]

write_log-Bounded :
    (blackhole : Bool) (o : LogObject) (content : Text) (p : ℕ)
    → Bounded o
    → Bounded (write_log blackhole o content p).1
unfolding write_log
write_log-Bounded blackhole o content p bounded = elim (Bool-cases (in_trim_range o p)) [
  | inl t ↦ rw t bounded
  | inr t ↦ rw t (go (find p o.entries))
]
  where
    go : (r : Option LogEntry) → Bounded (write_entry blackhole o content p r).1
    go none = unfold write_entry in add_entry-Bounded o p _ bounded
    go (some e) = unfold write_entry in bounded

fill_log-Bounded : (o : LogObject) (p : ℕ) → Bounded o → Bounded (fill_log o p).1
unfolding fill_log
fill_log-Bounded o p bounded = elim (Bool-cases (in_trim_range o p)) [
  | inl t ↦ rw t bounded
  | inr t ↦ rw t (go (find p o.entries))
]
  where
    go : (r : Option LogEntry) → Bounded (fill_entry o p r).1
    go none = unfold fill_entry in add_entry-Bounded o p hole bounded
    go (some e) = elim (Bool-cases (e.trimmed || e.invalidated)) [
      | inl t ↦ unfold fill_entry in rw t bounded
      | inr t ↦ unfold fill_entry in rw t bounded
    ]

trim_entry-Bounded :
    (o : LogObject) (p : ℕ) (r : Option LogEntry) → Bounded o → Bounded (trim_entry o p r).1
unfolding trim_entry
trim_entry-Bounded o p none bounded = add_entry-Bounded o p hole bounded
trim_entry-Bounded o p (some e) bounded = add_entry-Bounded o p _ bounded

pub none_found : (q : ℕ) (e : LogEntry) → find q [] ≡ some e → ⊥
unfolding find
none_found q e h = cc h

trim_log-Bounded :
    (o : LogObject) (p : ℕ) (limit full : Bool) → Bounded o → Bounded (trim_log o p limit full).1
unfolding trim_log raise_trim_limit
trim_log-Bounded o p limit true bounded = λ q e found. elim (none_found q e found) [ ]
trim_log-Bounded o p true false bounded =
    elim (Bool-cases (in_trim_range (raise_trim_limit o p) p)) [
      | inl t ↦ rw t bounded
      | inr t ↦ rw t bounded
    ]
trim_log-Bounded o p false false bounded = elim (Bool-cases (in_trim_range o p)) [
  | inl t ↦ rw t bounded
  | inr t ↦ rw t (trim_entry-Bounded o p (find p o.entries) bounded)
]

abbrev BoundedFound : Option Object → Type 0
BoundedFound none = Unit
BoundedFound (some x) = BoundedObject x

put-AllBounded :
    (b : RamBackend) (key : Text) (x : Object)
    → AllBounded b
    → BoundedObject x
    → AllBounded (put_object b key x)
put-AllBounded b key x all new oid y found = subst BoundedFound found (
    rw (find_object-put_object b key oid x) (elim (Bool-cases (text_eq key oid)) [
      | inl e ↦ rw e new
      | inr e ↦ rw e (before (find_object b oid) refl)
    ]))
  where
    before : (r : Option Object) → find_object b oid ≡ r → BoundedFound r
    before none e = tt
    before (some z) e = all oid z e

module _ (b : RamBackend) (all : AllBounded b) where
  on_log-AllBounded :
      (oid : Text) (epoch : ℕ) (f : LogObject → LogEffect)
      → ((o : LogObject) → Bounded o → Bounded (f o).1)
      → AllBounded (on_log b oid epoch f).1
  on_log-AllBounded oid epoch f keep = elim (Bool-cases (is_empty oid)) [
    | inl z ↦ unfold on_log in rw z all
    | inr z ↦ elim (Bool-cases (epoch == 0)) [
      | inl t ↦ unfold on_log in rw (z, t) all
      | inr t ↦ go (find_object b oid) refl z t
    ]
  ]
    where
      go :
          (r : Option Object)
          → find_object b oid ≡ r
          → is_empty oid ≡ false
          → (epoch == 0) ≡ false
          → AllBounded (on_log b oid epoch f).1
      go none e z t = unfold on_log check_epoch in rw (z, t, e) all
      go (some (link h)) e z t = unfold on_log check_epoch in rw (z, t, e) all
      go (some (projection p)) e z t = unfold on_log check_epoch in rw (z, t, e) all
      go (some (log o)) e z t = elim (Bool-cases (ltb epoch o.epoch)) [
        | inl old ↦ unfold on_log check_epoch in rw (z, t, e, old) all
        | inr new ↦
            unfold on_log check_epoch in
            rw (z, t, e, new) (put-AllBounded b oid (log (f o).1) all (keep o (all oid (log o) e)))
      ]

  seal-AllBounded : (oid : Text) (epoch : ℕ) → AllBounded (seal b oid epoch).1
  seal-AllBounded oid epoch = elim (Bool-cases (is_empty oid)) [
    | inl z ↦ unfold seal in rw z all
    | inr z ↦ elim (Bool-cases (epoch == 0)) [
      | inl t ↦ unfold seal in rw (z, t) all
      | inr t ↦ go (find_object b oid) refl z t
    ]
  ]
    where
      go :
          (r : Option Object)
          → find_object b oid ≡ r
          → is_empty oid ≡ false
          → (epoch == 0) ≡ false
          → AllBounded (seal b oid epoch).1
      go none e z t =
          unfold seal in
          rw (z, t, e) (put-AllBounded b oid _ all (λ q d found. elim (none_found q d found) [ ]))
      go (some (link h)) e z t = unfold seal in rw (z, t, e) all
      go (some (projection p)) e z t = unfold seal in rw (z, t, e) all
      go (some (log o)) e z t = elim (Bool-cases (leb epoch o.epoch)) [
        | inl old ↦ unfold seal in rw (z, t, e, old) all
        | inr new ↦
            unfold seal in rw (z, t, e, new) (put-AllBounded b oid _ all (all oid (log o) e))
      ]

  run_log_call-AllBounded : (oid : Text) (call : LogCall) → AllBounded (run_log_call b oid call).1
  unfolding run_log_call write fill trim
  run_log_call-AllBounded oid (writes content epoch p) =
      on_log-AllBounded oid epoch _ (λ o. write_log-Bounded b.blackhole o content p)
  run_log_call-AllBounded oid (fills epoch p) =
      on_log-AllBounded oid epoch _ (λ o. fill_log-Bounded o p)
  run_log_call-AllBounded oid (trims epoch p true true) =
      on_log-AllBounded oid epoch _ (λ o. trim_log-Bounded o p true true)
  run_log_call-AllBounded oid (trims epoch p true false) =
      on_log-AllBounded oid epoch _ (λ o. trim_log-Bounded o p true false)
  run_log_call-AllBounded oid (trims epoch p false true) = all
  run_log_call-AllBounded oid (trims epoch p false false) =
      on_log-AllBounded oid epoch _ (λ o. trim_log-Bounded o p false false)
  run_log_call-AllBounded oid (seals epoch) = seal-AllBounded oid epoch

  create_link-AllBounded : (name hoid prefix : Text) → AllBounded (create_link b name hoid prefix).1
  create_link-AllBounded name hoid prefix = go (find_object b (head_prefix ++ name)) refl
    where
      go :
          (r : Option Object)
          → find_object b (head_prefix ++ name) ≡ r
          → AllBounded (create_link b name hoid prefix).1
      go none e =
          rw (create_link_free b name hoid prefix e)
            (put-AllBounded b (head_prefix ++ name) (link hoid) all tt)
      go (some o) e = rw (create_link_taken b name hoid prefix o e) all

  create_head-AllBounded : (view key : Text) → AllBounded (create_head b view key).1
  create_head-AllBounded view key = go (find_object b (head_object_prefix ++ key)) refl
    where
      go :
          (r : Option Object)
          → find_object b (head_object_prefix ++ key) ≡ r
          → AllBounded (create_head b view key).1
      go none e =
          rw (create_head_new b view key e) (put-AllBounded b (head_object_prefix ++ key) _ all tt)
      go (some o) e = rw (create_head_met b view key o e) all

  propose_view-AllBounded :
      (hoid : Text) (epoch : ℕ) (view : Text) → AllBounded (propose_view b hoid epoch view).1
  propose_view-AllBounded hoid epoch view = elim (Bool-cases (is_empty hoid)) [
    | inl z ↦ unfold propose_view in rw z all
    | inr z ↦ elim (Bool-cases (epoch == 0)) [
      | inl t ↦ unfold propose_view in rw (z, t) all
      | inr t ↦ unfold propose_view in rw (z, t) (go (find_object b hoid))
    ]
  ]
    where
      proposed :
          (q : ProjectionObject) (r : Outcome ProjectionObject)
          → propose_to q epoch view ≡ r
          → AllBounded (propose_found b hoid epoch view (some (projection q))).1
      proposed q (ok n) e =
          rw (propose_found_ok b hoid epoch view q n e)
            (put-AllBounded b hoid (projection n) all tt)
      proposed q (err x) e = rw (propose_found_err b hoid epoch view q x e) all
      proposed q fault e = rw (propose_found_fault b hoid epoch view q e) all

      go : (r : Option Object) → AllBounded (propose_found b hoid epoch view r).1
      go none = unfold propose_found in all
      go (some (link x)) = unfold propose_found in all
      go (some (projection q)) = proposed q (propose_to q epoch view) refl
      go (some (log o)) = unfold propose_found in all

drawn :
    (b : RamBackend) (hoid oid : Text)
    → find_object (next_unique_id b hoid).1 oid ≡ find_object b oid
unfolding next_unique_id find_object
drawn b hoid oid = ground arith

step-AllBounded : (b : RamBackend) → AllBounded b → (call : Call) → AllBounded (step b call)
unfolding step
step-AllBounded b all (calls oid call) = run_log_call-AllBounded b all oid call
step-AllBounded b all (creates view key) = create_head-AllBounded b all view key
step-AllBounded b all (links name hoid prefix) = create_link-AllBounded b all name hoid prefix
step-AllBounded b all (proposes hoid epoch view) = propose_view-AllBounded b all hoid epoch view
step-AllBounded b all (draws hoid) = λ oid x found. all oid x (sym (drawn b hoid oid) ∙ found)

-- Whatever clients call, no object has an entry above the maximum position that it keeps.
pub run-AllBounded :
    (sequence : List Call) (b : RamBackend) → AllBounded b → AllBounded (run b sequence)
unfolding run
run-AllBounded [] b all = all
run-AllBounded (call ∷ rest) b all = run-AllBounded rest (step b call) (step-AllBounded b all call)
