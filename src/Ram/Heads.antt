-- ===== src/Ram/Heads.antt =====
-- Logs on the in-memory backend as a whole: `CreateLog`, `OpenLog`, `ProposeView` and `ReadViews`.
use zlog.Base.{
  ℕ, ◌+◌, ◌≡◌, ◌<◌, refl, ap, ◌∙◌, false, none, some, List, [], ◌∷◌, ◌++◌, Text, Outcome, ok, err,
  fault, eexist, ◌==◌, length, is_empty, text_eq, text_eq_refl, arith, u64_mod,
}
use zlog.Ram.{RamBackend, Object, link, projection, ProjectionObject, find_object, put_object}
use zlog.Ram.Head.{
  first_view, create_log, open_log, open_head, propose_view, propose_found, propose_to, read_views,
  head_prefix, head_object_prefix, data_object_prefix,
}
use zlog.Ram.Refinement.{find_object-put_object}
use zlog.Ram.History.{
  propose_found_ok, propose_found_err, propose_found_fault, create_link_free, create_link_taken,
  create_head_new,
}
use zlog.Ram.Views.{
  Represents, spec_propose, Agree, propose_to_refines, spec_views, read_views_of_refines,
}

-- The object of this name is a log's head with this history of views.
abbrev pub HasViews : RamBackend → Text → List Text → Type 0
HasViews b hoid views =
    (p : ProjectionObject) × (find_object b hoid ≡ some (projection p)) × Represents p views

-- A proposal adds its view to the history, or fails and leaves the history.
abbrev pub ProposeAgrees :
    RamBackend → Text → List Text → Outcome (Unit {0}) × RamBackend → Outcome (List Text) → Type 0
ProposeAgrees b hoid views r (ok longer) = (r.0 ≡ ok tt) × HasViews r.1 hoid longer
ProposeAgrees b hoid views r (err e) = r ≡ (err e, b)
ProposeAgrees b hoid views r fault = r ≡ (fault, b)

pub put-HasViews :
    (b : RamBackend) (hoid : Text) (p : ProjectionObject) (views : List Text)
    → Represents p views
    → HasViews (put_object b hoid (projection p)) hoid views
put-HasViews b hoid p views holds =
    (p, (find_object-put_object b hoid hoid (projection p) ∙ rw (text_eq_refl hoid) refl), holds)

module _ (b : RamBackend) (hoid : Text) (named : is_empty hoid ≡ false) (views : List Text)
    (has : HasViews b hoid views) where
  -- `ProposeView` adds the view if its epoch is the next one. A later epoch is invalid, an earlier
  -- one is out of date, and then nothing changes.
  pub propose_view_lem :
      (epoch : ℕ) (view : Text)
      → 0 < epoch
      → length views + 1 < u64_mod
      → ProposeAgrees b hoid views (propose_view b hoid epoch view) (spec_propose epoch views view)
  propose_view_lem epoch view positive small =
      unfold propose_view in
      rw (named, zero_ne, has.1)
        (go (propose_to has.0 epoch view) refl (spec_propose epoch views view)
          (propose_to_refines has.0 views has.2 epoch view (omega (arith, small))))
    where
      zero_ne : (epoch == 0) ≡ false
      zero_ne = ground (arith, positive)

      go :
          (r : Outcome ProjectionObject)
          → propose_to has.0 epoch view ≡ r
          → (s : Outcome (List Text)) → Agree r s
          → ProposeAgrees b hoid views (propose_found b hoid epoch view (some (projection has.0))) s
      go (ok q) e (ok longer) agree =
          rw (propose_found_ok b hoid epoch view has.0 q e)
            (refl, put-HasViews b hoid q longer agree)
      go (ok q) e (err x) agree = elim agree [ ]
      go (ok q) e fault agree = elim agree [ ]
      go (err x) e (ok longer) agree = elim agree [ ]
      go (err x) e (err y) agree =
          propose_found_err b hoid epoch view has.0 x e ∙ ap (λ z. (err z, b)) agree
      go (err x) e fault agree = elim agree [ ]
      go fault e (ok longer) agree = elim agree [ ]
      go fault e (err y) agree = elim agree [ ]
      go fault e fault agree = propose_found_fault b hoid epoch view has.0 e

  -- `ReadViews` returns the views from an epoch on, in order.
  pub read_views_lem :
      (epoch max_views : ℕ)
      → length views + 1 < u64_mod
      → read_views b hoid epoch max_views ≡ ok (spec_views epoch max_views views)
  read_views_lem epoch max_views small =
      unfold read_views in
      rw (named, has.1) (read_views_of_refines has.0 views has.2 epoch max_views small)

module _ (b : RamBackend) (name view key : Text) (named : is_empty name ≡ false)
    (fresh : find_object b (head_object_prefix ++ key) ≡ none) where
  abbrev hoid : Text
  hoid = head_object_prefix ++ key

  abbrev with_head : RamBackend
  with_head = put_object b hoid (projection (first_view (data_object_prefix ++ key) view))

  abbrev with_link : RamBackend
  with_link = put_object with_head (head_prefix ++ name) (link hoid)

  link_unchanged : find_object with_head (head_prefix ++ name) ≡ find_object b (head_prefix ++ name)
  unfolding text_eq
  link_unchanged =
      find_object-put_object b hoid (head_prefix ++ name)
        (projection (first_view (data_object_prefix ++ key) view))

  link_found : find_object with_link (head_prefix ++ name) ≡ some (link hoid)
  link_found =
      find_object-put_object with_head (head_prefix ++ name) (head_prefix ++ name) (link hoid)
      ∙ rw (text_eq_refl (head_prefix ++ name)) refl

  head_unchanged : find_object with_link hoid ≡ find_object with_head hoid
  unfolding text_eq
  head_unchanged = find_object-put_object with_head (head_prefix ++ name) hoid (link hoid)

  head_put :
      find_object with_head hoid ≡ some (projection (first_view (data_object_prefix ++ key) view))
  head_put =
      find_object-put_object b hoid hoid (projection (first_view (data_object_prefix ++ key) view))
      ∙ rw (text_eq_refl hoid) refl

  created :
      find_object b (head_prefix ++ name) ≡ none
      → create_log b name view key ≡ (ok (hoid, data_object_prefix ++ key), with_link)
  unfolding create_log
  created free =
      rw (named, create_head_new b view key fresh)
        (create_link_free with_head name hoid (data_object_prefix ++ key) (link_unchanged ∙ free))

  -- A log that is created under a free name can be opened under its name, and its head holds the
  -- first view alone.
  pub create_log_opens :
      find_object b (head_prefix ++ name) ≡ none
      → ((create_log b name view key).0 ≡ ok (hoid, data_object_prefix ++ key))
        × (open_log (create_log b name view key).1 name ≡ (create_log b name view key).0)
        × HasViews (create_log b name view key).1 hoid (view ∷ [])
  create_log_opens free = rw (created free) (
    refl,
    opened,
    (first_view (data_object_prefix ++ key) view, head_unchanged ∙ head_put, (refl, refl)),
  )
    where
      opened : open_log with_link name ≡ ok (hoid, data_object_prefix ++ key)
      opened =
          unfold open_log in
          rw (named, link_found, head_unchanged, head_put) (unfold open_head in refl)

  -- Under a name that is taken nothing is created but the head object, which stays behind.
  pub create_log_taken :
      (o : Object)
      → find_object b (head_prefix ++ name) ≡ some o
      → create_log b name view key ≡ (err eexist, with_head)
  unfolding create_log
  create_log_taken o taken =
      rw (named, create_head_new b view key fresh)
        (create_link_taken with_head name hoid (data_object_prefix ++ key) o
          (link_unchanged ∙ taken))
