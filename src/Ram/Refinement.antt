-- ===== src/Ram/Refinement.antt =====
-- The operations on log objects implement their specification.
use mathlib.Core.Path.{fun_ext}
use zlog.Base.{
  ℕ, ◌≡◌, refl, ap, ◌∙◌, Bool, true, false, Option, none, some, [], Text, Outcome, leb,
  if◌then◌else◌, is_empty, arith, text_eq, text_eq_refl,
}
use zlog.Base.Assoc.{find-insert, text_key}
use zlog.Ram.{
  RamBackend, Effect, Object, link, projection, log, LogObject, LogEffect, find_object, put_object,
  on_log, check_epoch, write, fill, trim, seal, empty_log, write_log, fill_log, trim_log,
  raise_trim_limit, in_trim_range,
}
use zlog.Ram.Cells.{
  Cell, unwritten, invalid, cell, write_cell, fill_cell, write_log-cell, fill_log-cell,
  trim_log-cell, limit_log_cell, full_log_cell,
}
use zlog.Ram.Spec.{
  LogCall, writes, fills, trims, seals, run_log_call, View, object, view, view_object, set_cell,
  raise_limit, guarded, spec_seal, trim_cells, spec,
}

pub find_object-put_object :
    (b : RamBackend) (oid other : Text) (o : Object)
    → find_object (put_object b oid o) other
      ≡ (if text_eq oid other then some o else find_object b other)
unfolding find_object put_object
find_object-put_object b oid other o = find-insert oid other o b.objects

pub view-put_object :
    (b : RamBackend) (oid : Text) (o : LogObject)
    → view (put_object b oid (log o)) oid ≡ object o.epoch o.trim_limit (cell o)
unfolding view
view-put_object b oid o = rw (find_object-put_object b oid oid (log o), text_eq_refl oid)

object_path :
    {e e' : ℕ} {l l' : Option ℕ} {c c' : ℕ → Cell}
    → e ≡ e'
    → l ≡ l'
    → ((q : ℕ) → c q ≡ c' q)
    → object e l c ≡ object e' l' c'
object_path a b c = cc (fun_ext c)

abbrev log_view : LogObject → View
log_view o = object o.epoch o.trim_limit (cell o)

write_log_view :
    (blackhole : Bool) (o : LogObject) (content : Text) (p : ℕ)
    → log_view (write_log blackhole o content p).1
      ≡ object o.epoch o.trim_limit
          (set_cell (cell o) p (write_cell (if blackhole then [] else content) (cell o p)).1)
unfolding write_log
write_log_view blackhole o content p =
    object_path (ground arith) (ground arith) (λ q. (write_log-cell o p q blackhole content).1)

fill_log_view :
    (o : LogObject) (p : ℕ)
    → log_view (fill_log o p).1
      ≡ object o.epoch o.trim_limit (set_cell (cell o) p (fill_cell (cell o p)).1)
unfolding fill_log
fill_log_view o p = object_path (ground arith) (ground arith) (λ q. (fill_log-cell o p q).1)

trim_log_view :
    (o : LogObject) (p : ℕ)
    → log_view (trim_log o p false false).1
      ≡ object o.epoch o.trim_limit (set_cell (cell o) p invalid)
unfolding trim_log
trim_log_view o p = object_path (ground arith) (ground arith) (λ q. (trim_log-cell o p q).1)

limited_cell :
    (o : LogObject) (p q : ℕ)
    → cell (trim_log o p true false).1 q ≡ trim_cells false (raise_limit o.trim_limit p) (cell o) q
limited_cell o p q = (limit_log_cell o p q).1 ∙ bridge
  where
    bridge :
        (if leb q p then invalid else cell o q)
        ≡ trim_cells false (raise_limit o.trim_limit p) (cell o) q
    bridge = unfold cell in_trim_range in ground arith

full_cell :
    (o : LogObject) (p q : ℕ)
    → cell (trim_log o p true true).1 q ≡ trim_cells true (raise_limit o.trim_limit p) (cell o) q
full_cell o p q = (full_log_cell o p q).1 ∙ bridge
  where
    bridge :
        (if leb q p then invalid else if in_trim_range o q then invalid else unwritten)
        ≡ trim_cells true (raise_limit o.trim_limit p) (cell o) q
    bridge = unfold in_trim_range in ground arith

limit_log_view :
    (o : LogObject) (p : ℕ) (full : Bool)
    → log_view (trim_log o p true full).1
      ≡ object o.epoch
          (raise_limit o.trim_limit p)
          (trim_cells full (raise_limit o.trim_limit p) (cell o))
unfolding trim_log raise_trim_limit in_trim_range
limit_log_view o p true = object_path refl (ground arith) (full_cell o p)
limit_log_view o p false = object_path (ground arith) (ground arith) (limited_cell o p)

abbrev Refines : Outcome (Unit {0}) × View → RamBackend → Text → Effect (Unit {0}) → Type 0
Refines s b oid r = (r.0 ≡ s.0) × (view r.1 oid ≡ s.1)

empty_cells : (epoch : ℕ) → cell (record empty_log { epoch = epoch }) ≡ (λ q. unwritten)
unfolding cell
empty_cells epoch = refl

same_cells : (o : LogObject) (epoch : ℕ) → cell (record o { epoch = epoch }) ≡ cell o
unfolding cell
same_cells o epoch = refl

module _ (b : RamBackend) (oid : Text) (named : is_empty oid ≡ false) where
  view_found : (r : Option Object) → find_object b oid ≡ r → view b oid ≡ view_object r
  unfolding view
  view_found r e = ap view_object e

  on_log-Refines :
      (epoch : ℕ) (f : LogObject → LogEffect)
      (g : ℕ → Option ℕ → (ℕ → Cell) → Outcome (Unit {0}) × View)
      → ((o : LogObject)
          → ((f o).0 ≡ (g o.epoch o.trim_limit (cell o)).0)
            × (log_view (f o).1 ≡ (g o.epoch o.trim_limit (cell o)).1))
      → Refines (guarded epoch (view b oid) g) b oid (on_log b oid epoch f)
  on_log-Refines epoch f g same = go (find_object b oid) refl
    where
      go :
          (r : Option Object)
          → find_object b oid ≡ r
          → Refines (guarded epoch (view b oid) g) b oid (on_log b oid epoch f)
      go none e =
          unfold on_log check_epoch in
          rw (named, e, view_found none e) (ground (arith, view_found none e))
      go (some (link hoid)) e =
          unfold on_log check_epoch in
          rw (named, e, view_found (some (link hoid)) e)
            (ground (arith, view_found (some (link hoid)) e))
      go (some (projection p)) e =
          unfold on_log check_epoch in
          rw (named, e, view_found (some (projection p)) e)
            (ground (arith, view_found (some (projection p)) e))
      go (some (log o)) e =
          unfold on_log check_epoch in
          rw (named, e, view_found (some (log o)) e)
            (ground (arith, view_found (some (log o)) e, same o, view-put_object b oid (f o).1))

  seal-Refines : (epoch : ℕ) → Refines (spec_seal epoch (view b oid)) b oid (seal b oid epoch)
  seal-Refines epoch = go (find_object b oid) refl
    where
      go :
          (r : Option Object)
          → find_object b oid ≡ r
          → Refines (spec_seal epoch (view b oid)) b oid (seal b oid epoch)
      go none e =
          unfold seal in
          rw (named, e, view_found none e)
            (ground (
              arith,
              view_found none e,
              view-put_object b oid (record empty_log { epoch = epoch }),
              empty_cells epoch,
            ))
      go (some (link hoid)) e =
          unfold seal in
          rw (named, e, view_found (some (link hoid)) e)
            (ground (arith, view_found (some (link hoid)) e))
      go (some (projection p)) e =
          unfold seal in
          rw (named, e, view_found (some (projection p)) e)
            (ground (arith, view_found (some (projection p)) e))
      go (some (log o)) e =
          unfold seal in
          rw (named, e, view_found (some (log o)) e)
            (ground (
              arith,
              view_found (some (log o)) e,
              view-put_object b oid (record o { epoch = epoch }),
              same_cells o epoch,
            ))

  -- Every call on a log object returns what its specification says of the object's view, and leaves
  -- the view that the specification says.
  pub run_log_call_refines :
      (call : LogCall)
      → ((run_log_call b oid call).0 ≡ (spec b.blackhole call (view b oid)).0)
        × (view (run_log_call b oid call).1 oid ≡ (spec b.blackhole call (view b oid)).1)
  unfolding run_log_call
  run_log_call_refines (writes content epoch p) =
      unfold write in
      on_log-Refines epoch _ _
        λ o. ((write_log-cell o p 0 b.blackhole content).0, write_log_view b.blackhole o content p)
  run_log_call_refines (fills epoch p) =
      unfold fill in on_log-Refines epoch _ _ λ o. ((fill_log-cell o p 0).0, fill_log_view o p)
  run_log_call_refines (trims epoch p true true) =
      unfold trim in
      on_log-Refines epoch _ _ λ o. ((full_log_cell o p 0).0, limit_log_view o p true)
  run_log_call_refines (trims epoch p true false) =
      unfold trim in
      on_log-Refines epoch _ _ λ o. ((limit_log_cell o p 0).0, limit_log_view o p false)
  run_log_call_refines (trims epoch p false true) = unfold trim in (refl, refl)
  run_log_call_refines (trims epoch p false false) =
      unfold trim in on_log-Refines epoch _ _ λ o. ((trim_log-cell o p 0).0, trim_log_view o p)
  run_log_call_refines (seals epoch) = seal-Refines epoch
