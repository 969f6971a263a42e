-- ===== src/LogOps/Seen.antt =====
-- The views that a client of src/libzlog/log_impl.cc has while it appends: none but its first and those
-- that others and its waits give it.
use zlog.Base.{
  ℕ, zero, suc, ◌≡◌, refl, subst, Bool, true, false, Option, none, some, Text, Outcome, ok, err,
  fault, espipe, inl, inr, arith, Option-cases, Bool-cases, ◌==◌,
}
use zlog.Options.{Options}
use zlog.ObjectMap.{max_position}
use zlog.View.{View, ViewTable, VersionedView, Sequencer, expand_view}
use zlog.Ram.{RamBackend}
use zlog.LogBackend.{LogBackend, ram_backend}
use zlog.ViewManager.Client.{
  Client, map_found, map_last, view_of, async_expand_view, async_init_stripe,
}
use zlog.ViewManager.Propose.{Effect, after_expand, expand_to, expand_tries, try_expand_view}
use zlog.LogOps.{move_sequencer}

-- The view that a client has, if any, satisfies this.
abbrev pub SeenIn : (View → Type 0) → Option VersionedView → Type 0
SeenIn Q none = Unit
SeenIn Q (some v) = Q v.view

abbrev pub Seen : (View → Type 0) → Client RamBackend → Type 0
Seen Q c = SeenIn Q c.view_reader.view

-- A new position of the sequencer changes no view.
pub move_sequencer-Seen :
    (Q : View → Type 0) (c : Client RamBackend) (seq : Sequencer)
    → Seen Q c
    → Seen Q (move_sequencer c seq)
unfolding move_sequencer view_of
move_sequencer-Seen Q c seq seen = go c.view_reader.view refl
  where
    go : (w : Option VersionedView) → c.view_reader.view ≡ w → Seen Q (move_sequencer c seq)
    go none e = rw e tt
    go (some v) e = elim (Option-cases v.seq) [
      | inl idle ↦ rw (e, idle) (subst (SeenIn Q) e seen)
      | inr (current, has) ↦ elim (Bool-cases (current.epoch == seq.epoch)) [
        | inl z ↦ rw (e, has, z) (subst (SeenIn Q) e seen)
        | inr z ↦ rw (e, has, z) (subst (SeenIn Q) e seen)
      ]
    ]

map_last-Seen :
    (Q : View → Type 0) (c : Client RamBackend) (v : VersionedView) (oid : Text) (max : Outcome ℕ)
    → Seen Q c
    → Seen Q (map_last c v oid max).1
unfolding map_last async_expand_view
map_last-Seen Q c v oid (ok k) seen = ground (arith, seen)
map_last-Seen Q c v oid (err e) seen = seen
map_last-Seen Q c v oid fault seen = seen

pub map_found-Seen :
    (Q : View → Type 0) (c : Client RamBackend) (v : VersionedView)
    (m : Outcome (Option Text × Bool))
    → Seen Q c
    → Seen Q (map_found c v m).1
unfolding map_found
map_found-Seen Q c v (ok (some oid, false)) seen = seen
map_found-Seen Q c v (ok (some oid, true)) seen =
    map_last-Seen Q c v oid (max_position v.view.object_map) seen
map_found-Seen Q c v (ok (none, last)) seen = seen
map_found-Seen Q c v (err e) seen = seen
map_found-Seen Q c v fault seen = seen

module _ (serialize : ViewTable → Text) (options : Options) (l : LogBackend)
    (newer : ℕ → Client RamBackend → Client RamBackend) (Q : View → Type 0)
    (shown : (epoch : ℕ) (c : Client RamBackend) → Seen Q c → Seen Q (newer epoch c)) where
  -- What expanding the view leaves the client with.
  after_expand-Seen :
      (position left : ℕ) (again : Client RamBackend → Effect RamBackend (Unit {0}))
      (c : Client RamBackend) (v : VersionedView) (r : Outcome (Unit {0}))
      → ((d : Client RamBackend) → Seen Q d → Seen Q (again d).1)
      → Seen Q c
      → Seen Q (after_expand serialize options ram_backend l newer position left again c v r).1
  unfolding after_expand async_init_stripe
  after_expand-Seen position left again c v (ok done) more seen =
      elim (Bool-cases options.init_stripe_on_create) [
        | inl init ↦ rw init (shown v.epoch c seen)
        | inr lazy ↦ rw lazy (shown v.epoch c seen)
      ]
  after_expand-Seen position zero again c v (err espipe) more seen = shown v.epoch c seen
  after_expand-Seen position (suc left) again c v (err espipe) more seen =
      elim (Bool-cases (newer v.epoch c).shutdown) [
        | inl stopped ↦ rw (after_expand, stopped) (shown v.epoch c seen)
        | inr running ↦ rw (after_expand, running) (more (newer v.epoch c) (shown v.epoch c seen))
      ]
  after_expand-Seen position left again c v (err e) more seen = seen
  after_expand-Seen position left again c v fault more seen = seen

  expand_to-Seen :
      (position left : ℕ) (again : Client RamBackend → Effect RamBackend (Unit {0}))
      (c : Client RamBackend) (v : VersionedView) (r : Outcome (Option View))
      → ((d : Client RamBackend) → Seen Q d → Seen Q (again d).1)
      → Seen Q c
      → Seen Q (expand_to serialize options ram_backend l newer position left again c v r).1
  unfolding expand_to
  expand_to-Seen position left again c v (ok none) more seen = seen
  expand_to-Seen position left again c v (ok (some next)) more seen =
      after_expand-Seen position left again _ v _ more seen
  expand_to-Seen position left again c v (err e) more seen = seen
  expand_to-Seen position left again c v fault more seen = seen

  abbrev expand_look :
      ℕ → ℕ → Client RamBackend → Option VersionedView → Effect RamBackend (Unit {0})
  expand_look left position c none = (fault, c)
  expand_look left position c (some v) =
      expand_to serialize options ram_backend l newer position left
        (expand_tries serialize options ram_backend l newer left position) c v
        (expand_view v.view position options)

  expand_tries-Seen :
      (left position : ℕ) (c : Client RamBackend)
      → Seen Q c
      → Seen Q (expand_tries serialize options ram_backend l newer left position c).1
  unfolding expand_tries view_of
  expand_tries-Seen zero position c seen = seen
  expand_tries-Seen (suc left) position c seen =
      go (expand_tries-Seen left position) c.view_reader.view
    where
      go :
          ((d : Client RamBackend)
            → Seen Q d
            → Seen Q (expand_tries serialize options ram_backend l newer left position d).1)
          → (w : Option VersionedView) → Seen Q (expand_look left position c w).1
      go more none = seen
      go more (some v) =
          expand_to-Seen position left
            (expand_tries serialize options ram_backend l newer left position) c v
            (expand_view v.view position options) more seen

  -- Nor does `try_expand_view` show the client any view but those that a wait gives it.
  pub try_expand_view-Seen :
      (position : ℕ) (c : Client RamBackend)
      → Seen Q c
      → Seen Q (try_expand_view serialize options ram_backend l newer position c).1
  unfolding try_expand_view
  try_expand_view-Seen position c = expand_tries-Seen 7 position c
