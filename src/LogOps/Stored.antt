-- ===== src/LogOps/Stored.antt =====
-- What an append of src/libzlog/log_impl.cc that succeeds leaves on the in-memory backend.
use zlog.Base.{
  ℕ, zero, suc, ◌≡◌, refl, sym, ap, subst, ◌∙◌, Bool, true, false, Option, none, some, Text,
  Outcome, ok, err, fault, enoent, espipe, erofs, ◌>>=◌, ok_inj, some_inj, inl, inr, arith,
  Option-cases, Bool-cases, ltb,
}
use zlog.Options.{Options}
use zlog.ObjectMap.{map_position, max_position}
use zlog.ObjectMap.Stability.{object_of}
use zlog.View.{View, ViewTable, VersionedView, Sequencer, check_tail}
use zlog.Ram.{RamBackend, LogObject, LogEffect, write, seal, on_log, put_object}
use zlog.Ram.Spec.{view}
use zlog.Ram.Holding.{Holds}
use zlog.Ram.Guarantees.{write-Holds}
use zlog.LogBackend.{LogBackend, ram_backend, prefixed_oid, log_write}
use zlog.LogBackend.Apart.{prefixed_oid-named}
use zlog.ViewManager.Client.{Client, map, map_found, map_last, view_of}
use zlog.ViewManager.Propose.{Effect}
use zlog.LogOps.{
  stop, go_on, rounds, after_round, after_expanding, Meanwhile, move_sequencer, take_tail,
}
use zlog.LogOps.Seen.{SeenIn, Seen, move_sequencer-Seen, map_found-Seen, try_expand_view-Seen}
use zlog.LogOps.Append.{
  AppendOp, Appends, is_epoch, take_position, after_seal, after_write, write_at, append_mapped,
  append_look, append_round,
}

on_log-blackhole :
    (b : RamBackend) (oid : Text) (epoch : ℕ) (f : LogObject → LogEffect)
    → (on_log b oid epoch f).1.blackhole ≡ b.blackhole
unfolding on_log put_object
on_log-blackhole b oid epoch f = ground arith

pub seal-blackhole :
    (b : RamBackend) (oid : Text) (epoch : ℕ) → (seal b oid epoch).1.blackhole ≡ b.blackhole
unfolding seal put_object
seal-blackhole b oid epoch = ground arith

pub write-blackhole :
    (b : RamBackend) (oid content : Text) (epoch p : ℕ)
    → (write b oid content epoch p).1.blackhole ≡ b.blackhole
unfolding write
write-blackhole b oid content epoch p = on_log-blackhole b oid epoch _

-- The object that the client's manager finds is that of the view's object map.
abbrev MapsTo : Outcome (Option Text × Bool) → Outcome (Option Text) → Type 0
MapsTo m (ok (some oid)) = (m >>= λ r. ok r.0) ≡ ok (some oid)
MapsTo m r = Unit

map_last-MapsTo :
    (c : Client RamBackend) (v : VersionedView) (oid : Text) (max : Outcome ℕ)
    → MapsTo (ok (some oid, true)) (map_last c v oid max).0
unfolding map_last
map_last-MapsTo c v oid (ok k) = refl
map_last-MapsTo c v oid (err e) = tt
map_last-MapsTo c v oid fault = tt

map_found-MapsTo :
    (c : Client RamBackend) (v : VersionedView) (m : Outcome (Option Text × Bool))
    → MapsTo m (map_found c v m).0
unfolding map_found
map_found-MapsTo c v (ok (some oid, false)) = refl
map_found-MapsTo c v (ok (some oid, true)) =
    map_last-MapsTo c v oid (max_position v.view.object_map)
map_found-MapsTo c v (ok (none, true)) = tt
map_found-MapsTo c v (ok (none, false)) = tt
map_found-MapsTo c v (err e) = tt
map_found-MapsTo c v fault = tt

-- The object to which a view that satisfies this maps a position holds the content there.
abbrev pub Stored : (View → Type 0) → LogBackend → Text → ℕ → RamBackend → Type 0
Stored Q l content p b =
    (v : VersionedView) × (oid : Text) × Q v.view
    × (object_of v.view.object_map p ≡ ok (some oid))
    × Holds content p (view b (prefixed_oid l oid))

-- The inner loop goes on at the object of its position.
abbrev pub PlacedAt : (View → Type 0) → ℕ → Option (VersionedView × Text) → Type 0
PlacedAt Q position none = Unit
PlacedAt Q position (some at) =
    Q (at.0).view × (object_of (at.0).view.object_map position ≡ ok (some at.1))

abbrev pub IsPlaced : (View → Type 0) → AppendOp → Type 0
IsPlaced Q op = PlacedAt Q op.position op.retry

module _ (content : Text) (serialize : ViewTable → Text) (options : Options) (l : LogBackend)
    (newer : ℕ → Client RamBackend → Client RamBackend) where
  abbrev pub look_next :
      AppendOp
      → Client RamBackend
      → Outcome (VersionedView × AppendOp × Client RamBackend)
      → Appends RamBackend
  look_next op c r = elim r [
    | fault ↦ (stop fault, c)
    | err e ↦ (stop (err e), c)
    | ok r ↦
        append_mapped content serialize options ram_backend l newer r.1 r.0
          (map r.2 r.0 r.1.position)
  ]

  module _ (Q : View → Type 0)
      (shown : (epoch : ℕ) (c : Client RamBackend) → Seen Q c → Seen Q (newer epoch c)) where
    abbrev Good : Appends RamBackend → Type 0
    Good (stop (ok p), c) = c.store.blackhole ≡ false → Stored Q l content p c.store
    Good (stop (err e), c) = Unit
    Good (stop fault, c) = Unit
    Good (go_on op, c) = IsPlaced Q op × Seen Q c

    module _ (op : AppendOp) (v : VersionedView) (oid : Text) (of : Q v.view)
        (placed : object_of v.view.object_map op.position ≡ ok (some oid)) where
      after_seal-Good :
          (c : Client RamBackend) (r : Outcome (Unit {0}))
          → Seen Q c
          → Good (after_seal content serialize options ram_backend l newer op v oid c r)
      unfolding after_seal
      after_seal-Good c (ok done) seen = ((of, placed), seen)
      after_seal-Good c (err espipe) seen = (tt, seen)
      after_seal-Good c (err e) seen = tt
      after_seal-Good c fault seen = tt

      after_write-Good :
          (c : Client RamBackend) (r : Outcome (Unit {0}))
          → Seen Q c
          → (r ≡ ok tt
              → c.store.blackhole ≡ false
              → Holds content op.position (view c.store (prefixed_oid l oid)))
          → Good (after_write content serialize options ram_backend l newer op v oid c r)
      unfolding after_write
      after_write-Good c (ok tt) seen holds = λ stores. (v, oid, of, placed, holds refl stores)
      after_write-Good c (err enoent) seen holds = after_seal-Good _ _ seen
      after_write-Good c (err espipe) seen holds = (tt, shown v.epoch c seen)
      after_write-Good c (err erofs) seen holds = (tt, seen)
      after_write-Good c (err e) seen holds = tt
      after_write-Good c fault seen holds = tt

      write_at-Good :
          (c : Client RamBackend)
          → Seen Q c
          → Good (write_at content serialize options ram_backend l newer op v oid c)
      unfolding write_at log_write
      write_at-Good c seen = after_write-Good _ _ seen λ done stores.
          write-Holds c.store (prefixed_oid l oid) (prefixed_oid-named l oid) content v.epoch
            op.position
            (sym (write-blackhole c.store (prefixed_oid l oid) content v.epoch op.position)
              ∙ stores)
            done

    abbrev NoRetry : AppendOp → Type 0
    NoRetry op = op.retry ≡ none

    unplaced : (op : AppendOp) → NoRetry op → IsPlaced Q op
    unplaced op e = subst (PlacedAt Q op.position) (sym e) tt

    expanding-Good :
        (op : AppendOp) (r : Effect RamBackend (Unit {0}))
        → NoRetry op
        → Seen Q r.1
        → Good (after_expanding serialize options ram_backend l newer op r)
    unfolding after_expanding
    expanding-Good op (ok done, c) e seen = (unplaced op e, seen)
    expanding-Good op (err x, c) e seen = tt
    expanding-Good op (fault, c) e seen = tt

    append_mapped-Good :
        (op : AppendOp) (v : VersionedView) (m : Outcome (Option Text) × Client RamBackend)
        → NoRetry op
        → Q v.view
        → MapsTo (map_position v.view.object_map op.position) m.0
        → Seen Q m.1
        → Good (append_mapped content serialize options ram_backend l newer op v m)
    unfolding append_mapped
    append_mapped-Good op v (ok (some oid), c) e of placed seen =
        write_at-Good op v oid of placed c seen
    append_mapped-Good op v (ok none, c) e of placed seen =
        expanding-Good op _ e
          (try_expand_view-Seen serialize options l newer Q shown op.position c seen)
    append_mapped-Good op v (err x, c) e of placed seen = tt
    append_mapped-Good op v (fault, c) e of placed seen = tt

    module _ (meanwhile : Meanwhile RamBackend)
        (looked : (seq : Sequencer) (c : Client RamBackend)
          → Seen Q c
          → Seen Q (meanwhile seq c).1) where
      -- The position that is taken, with the view that was looked at.
      take_position_lem :
          (op : AppendOp) (c : Client RamBackend) (r : VersionedView × AppendOp × Client RamBackend)
          → take_position meanwhile op c ≡ ok r
          → NoRetry op
          → Seen Q c
          → NoRetry r.1 × Q (r.0).view × Seen Q r.2
      unfolding take_position take_tail view_of
      take_position_lem op c r h e seen = elim (Option-cases c.view_reader.view) [
        | inl none_yet ↦ ground (arith, h, none_yet)
        | inr (v, f) ↦ elim (Option-cases v.seq) [
          | inl idle ↦ ground (arith, h, f, idle)
          | inr (seq, g) ↦
              let of : Q v.view = subst (SeenIn Q) f seen in
              elim (Bool-cases (is_epoch op.position_epoch seq.epoch)) [
                | inl same ↦ elim (Bool-cases (ltb 0 seq.epoch)) [
                  | inr low ↦ ground (arith, h, f, g, same, low)
                  | inl started ↦
                      let is : (v, op, c) ≡ r = ground (arith, h, f, g, same, started) in
                      subst (λ r. NoRetry r.1 × Q (r.0).view × Seen Q r.2) is (e, of, seen)
                ]
                | inr new ↦ elim (Bool-cases (ltb 0 seq.epoch)) [
                  | inr low ↦ ground (arith, h, f, g, new, low)
                  | inl started ↦
                      let m = meanwhile seq c in
                      let t = check_tail m.0 true in
                      let is : (
                        v,
                        record op { position = t.0; position_epoch = some seq.epoch },
                        move_sequencer m.1 t.1,
                      )
                          ≡ r =
                        ground (arith, h, f, g, new, started) in
                      subst (λ r. NoRetry r.1 × Q (r.0).view × Seen Q r.2) is
                        (e, of, move_sequencer-Seen Q m.1 t.1 (looked seq c seen))
                ]
              ]
        ]
      ]

      append_look-Good :
          (op : AppendOp) (c : Client RamBackend)
          → NoRetry op
          → Seen Q c
          → Good (append_look content serialize options ram_backend l newer meanwhile op c)
      unfolding append_look map
      append_look-Good op c e seen = go (take_position meanwhile op c) refl
        where
          go :
              (r : Outcome (VersionedView × AppendOp × Client RamBackend))
              → take_position meanwhile op c ≡ r
              → Good (look_next op c r)
          go fault t = tt
          go (err x) t = tt
          go (ok r) t =
              let k = take_position_lem op c r t e seen in
              append_mapped-Good r.1 r.0 (map r.2 r.0 r.1.position) k.0 k.1
                (map_found-MapsTo r.2 r.0 (map_position (r.0).view.object_map r.1.position))
                (map_found-Seen Q r.2 r.0 (map_position (r.0).view.object_map r.1.position) k.2)

      append_round-Good :
          (op : AppendOp) (c : Client RamBackend)
          → IsPlaced Q op
          → Seen Q c
          → Good (append_round content serialize options ram_backend l newer meanwhile op c)
      unfolding append_round
      append_round-Good op c placed seen = go op.retry refl placed
        where
          go :
              (retry : Option (VersionedView × Text))
              → op.retry ≡ retry
              → PlacedAt Q op.position retry
              → Good (elim retry [
                | none ↦ append_look content serialize options ram_backend l newer meanwhile op c
                | some at ↦ write_at content serialize options ram_backend l newer op at.0 at.1 c
              ])
          go none e placed = append_look-Good op c e seen
          go (some at) e placed = write_at-Good op at.0 at.1 placed.0 placed.1 c seen

      abbrev round : AppendOp → Client RamBackend → Appends RamBackend
      round = append_round content serialize options ram_backend l newer meanwhile

      -- If an append returns a position, then at that moment the object to which a view that the
      -- client looked at maps this position holds the content there, whatever other threads and
      -- clients did before and during its waits.
      pub append-Stored :
          (others : Client RamBackend → Client RamBackend)
          → ((c : Client RamBackend) → Seen Q c → Seen Q (others c))
          → (fuel : ℕ) (op : AppendOp) (c last : Client RamBackend) (p : ℕ) → IsPlaced Q op
          → Seen Q c
          → rounds others round fuel op c ≡ some (ok p, last)
          → last.store.blackhole ≡ false
          → Stored Q l content p last.store
      unfolding rounds after_round
      append-Stored others keep zero op c last p placed seen h stores = cc h
      append-Stored others keep (suc fuel) op c last p placed seen h stores =
          go (append-Stored others keep fuel) (round op (others c))
            (append_round-Good op (others c) placed (keep c seen)) h
        where
          go :
              ((op : AppendOp) (c last : Client RamBackend) (p : ℕ)
                → IsPlaced Q op
                → Seen Q c
                → rounds others round fuel op c ≡ some (ok p, last)
                → last.store.blackhole ≡ false
                → Stored Q l content p last.store)
              → (r : Appends RamBackend) → Good r
              → after_round others round (rounds others round fuel) r ≡ some (ok p, last)
              → Stored Q l content p last.store
          go more (stop (ok q), c) good h =
              let ended = some_inj h in
              let same_position : q ≡ p = ok_inj (ap (λ x. x.0) ended) in
              let same : c ≡ last = ap (λ x. x.1) ended in
              subst (λ q. Stored Q l content q last.store) same_position
                (subst (λ c. Stored Q l content q c.store) same
                  (good (ap (λ c. c.store.blackhole) same ∙ stores)))
          go more (stop (err e), c) good h = cc h
          go more (stop fault, c) good h = cc h
          go more (go_on op, c) good h = more op c last p good.0 good.1 h stores
