-- ===== src/LogOps/Quiet.antt =====
-- A client of src/libzlog/log_impl.cc that has the sequencer and the latest view, while nobody else
-- calls: its appends and reads come to an end.
use zlog.Base.{
  ℕ, suc, ◌≡◌, ◌≤◌, ◌<◌, refl, sym, ap, subst, ◌∙◌, false, Option, none, some, Text, Outcome, ok,
  err, fault, enoent, arith, add64, ==_refl,
}
use zlog.Options.{Options}
use zlog.ObjectMap.Tiling.{IsTiled}
use zlog.View.{ViewTable, VersionedView, Sequencer, check_tail}
use zlog.Ram.{RamBackend, write, read}
use zlog.Ram.Cells.{Cell, unwritten, written}
use zlog.Ram.Spec.{View, absent, foreign, object, view, set_cell}
use zlog.LogBackend.{LogBackend, ram_backend, prefixed_oid, log_write, log_seal, log_read}
use zlog.LogBackend.Apart.{prefixed_oid-named}
use zlog.ViewManager.Client.{Client, view_of, map}
use zlog.ViewManager.Mapping.{object_at, map_mapped}
use zlog.LogOps.{
  Round, stop, go_on, rounds, after_round, read_round, position_round, on_mapped, after_call,
  take_tail, move_sequencer, Meanwhile,
}
use zlog.LogOps.Stored.{look_next, write-blackhole, seal-blackhole}
use zlog.LogOps.Append.{
  AppendOp, append_op, Appends, take_position, after_seal, after_write, write_at, append_mapped,
  append_look, append_round,
}
use zlog.LogOps.Ready.{write_ready, write_absent, seal_absent, read_ready, IsFree, IsReady, Kept}

module _ (content : Text) (serialize : ViewTable → Text) (options : Options) (l : LogBackend)
    (newer : ℕ → Client RamBackend → Client RamBackend) where
  -- Nothing happens between a look at the view and the call of its sequencer.
  abbrev at_once : Meanwhile RamBackend
  at_once seq c = (seq, c)

  abbrev append : AppendOp → Client RamBackend → Appends RamBackend
  append = append_round content serialize options ram_backend l newer at_once

  module _ (op : AppendOp) (v : VersionedView) (oid : Text) (c : Client RamBackend)
      (positive : 0 < v.epoch) where
    write_done :
        (log_write ram_backend c.store l oid content v.epoch op.position).0 ≡ ok tt
        → write_at content serialize options ram_backend l newer op v oid c ≡ (
          stop (ok op.position),
          record c { store = (log_write ram_backend c.store l oid content v.epoch op.position).1 },
        )
    unfolding write_at after_write
    write_done h = rw h refl

    write_init :
        (log_write ram_backend c.store l oid content v.epoch op.position).0 ≡ err enoent
        → (log_seal ram_backend
            (log_write ram_backend c.store l oid content v.epoch op.position).1
            l
            oid
            v.epoch).0
          ≡ ok tt
        → write_at content serialize options ram_backend l newer op v oid c ≡ (
          go_on (record op { retry = some (v, oid) }),
          record c {
            store =
                (log_seal ram_backend
                  (log_write ram_backend c.store l oid content v.epoch op.position).1
                  l
                  oid
                  v.epoch).1;
          },
        )
    unfolding write_at after_write after_seal
    write_init h g = rw (h, g) refl

    write_object :
        (e : ℕ) (limit : Option ℕ) (cells : ℕ → Cell)
        → c.store.blackhole ≡ false
        → view c.store (prefixed_oid l oid) ≡ object e limit cells
        → e ≤ v.epoch
        → cells op.position ≡ unwritten
        → (d : Client RamBackend) × (write_at content serialize options ram_backend l newer op v oid
              c
            ≡ (stop (ok op.position), d))
          × Kept content l oid v.epoch op.position c.view_reader d
    write_object e limit cells stores held old unused =
        let w =
          write_ready c.store (prefixed_oid l oid) (prefixed_oid-named l oid) v.epoch op.position
            positive content e limit cells stores held old unused in
        (
          record c { store = (log_write ram_backend c.store l oid content v.epoch op.position).1 },
          write_done (unfold log_write in w.0),
          (
            refl,
            e,
            limit,
            set_cell cells op.position (written content),
            unfold log_write in w.1,
            old,
            rw (==_refl op.position) refl,
          ),
        )

  abbrev quiet : Client RamBackend → Client RamBackend
  quiet c = c

  -- A write at a free position, and the object's seal before it if that is missing.
  write_free :
      (op : AppendOp) (v : VersionedView) (oid : Text) (c : Client RamBackend) (fuel : ℕ)
      → 0 < v.epoch
      → c.store.blackhole ≡ false
      → IsFree v.epoch op.position (view c.store (prefixed_oid l oid))
      → (d : Client RamBackend) × (after_round quiet append
            (rounds quiet append (suc fuel))
            (write_at content serialize options ram_backend l newer op v oid c)
          ≡ some (ok op.position, d))
        × Kept content l oid v.epoch op.position c.view_reader d
  unfolding after_round rounds append_round
  write_free op v oid c fuel positive stores unused =
      go (view c.store (prefixed_oid l oid)) refl unused
    where
      go :
          (w : View)
          → view c.store (prefixed_oid l oid) ≡ w
          → IsFree v.epoch op.position w
          → (d : Client RamBackend) × (after_round quiet append
                (rounds quiet append (suc fuel))
                (write_at content serialize options ram_backend l newer op v oid c)
              ≡ some (ok op.position, d))
            × Kept content l oid v.epoch op.position c.view_reader d
      go absent e h =
          let w =
            write_absent c.store (prefixed_oid l oid) (prefixed_oid-named l oid) v.epoch op.position
              positive content e in
          let s =
            seal_absent (log_write ram_backend c.store l oid content v.epoch op.position).1
              (prefixed_oid l oid) (prefixed_oid-named l oid) v.epoch op.position positive
              (unfold log_write in w.1) in
          let sealed =
            log_seal ram_backend (log_write ram_backend c.store l oid content v.epoch op.position).1
              l oid v.epoch in
          let again =
            write_object (record op { retry = some (v, oid) }) v oid (record c { store = sealed.1 })
              positive v.epoch none (λ q. unwritten)
              (unfold log_seal log_write in
                seal-blackhole (write c.store (prefixed_oid l oid) content v.epoch op.position).1
                  (prefixed_oid l oid) v.epoch
                ∙ write-blackhole c.store (prefixed_oid l oid) content v.epoch op.position
                ∙ stores)
              (unfold log_seal in s.1) (omega arith) refl in
          (
            again.0,
            rw (write_init op v oid c positive (unfold log_write in w.0) (unfold log_seal in s.0))
                (rw (again.1) refl),
            again.2,
          )
      go foreign e h = elim h [ ]
      go (object e limit cells) held h =
          let w = write_object op v oid c positive e limit cells stores held h.0 h.1 in
          (w.0, rw (w.1) refl, w.2)

  take_ready :
      (c : Client RamBackend) (v : VersionedView) (seq : Sequencer)
      → c.view_reader.view ≡ some v
      → v.seq ≡ some seq
      → 0 < seq.epoch
      → take_position at_once append_op c
        ≡ ok (
          v,
          record { position = seq.position; position_epoch = some seq.epoch; retry = none },
          record c {
            view_reader = record (c.view_reader) {
              view =
                  some (record v { seq = some (record seq { position = add64 seq.position 1 }) });
            };
          },
        )
  unfolding take_position take_tail view_of check_tail move_sequencer
  take_ready c v seq looks serves started = ground (arith, looks, serves, started)

  append_first :
      (c taken d : Client RamBackend) (op : AppendOp) (v : VersionedView) (oid : Text)
      → take_position at_once append_op c ≡ ok (v, op, taken)
      → map taken v op.position ≡ (ok (some oid), d)
      → append append_op c ≡ write_at content serialize options ram_backend l newer op v oid d
  unfolding append_round append_look append_mapped
  append_first c taken d op v oid t m =
      ap (look_next content serialize options l newer append_op c) t
      ∙ ap (append_mapped content serialize options ram_backend l newer op v) m

  -- A client with the sequencer appends at its next position.
  append_ready :
      (c : Client RamBackend) (fuel : ℕ)
      → (r : IsReady l c)
      → (d : Client RamBackend) × (rounds quiet append (suc (suc fuel)) append_op c
          ≡ some (ok r.seq.position, d))
        × Kept content l
            (object_at r.tiled r.seq.position r.mapped)
            r.v.epoch
            r.seq.position
            (record (c.view_reader) {
              view = some (record (r.v) {
                seq = some (record (r.seq) { position = add64 r.seq.position 1 });
              });
            })
            d
  unfolding rounds
  append_ready c fuel r =
      let op : AppendOp = record {
        position = r.seq.position;
        position_epoch = some r.seq.epoch;
        retry = none;
      } in
      let taken : Client RamBackend = record c {
        view_reader = record (c.view_reader) {
          view =
              some (record (r.v) {
                seq = some (record (r.seq) { position = add64 r.seq.position 1 });
              });
        };
      } in
      let m = map_mapped taken r.v r.seq.position r.limit r.tiled r.mapped in
      let w =
        write_free op r.v (object_at r.tiled r.seq.position r.mapped) m.0 fuel r.current
          (subst (λ s. s.blackhole ≡ false) (sym m.2.0) r.stores)
          (subst
            (λ s.
              IsFree r.v.epoch r.seq.position
                (view s (prefixed_oid l (object_at r.tiled r.seq.position r.mapped))))
            (sym m.2.0) (r.free _)) in
      (
        w.0,
        ap (after_round quiet append (rounds quiet append (suc fuel))) (
              append_first c taken m.0 op r.v (object_at r.tiled r.seq.position r.mapped)
                (take_ready c r.v r.seq r.looks r.serves r.started) m.1)
            ∙ w.1,
        subst
            (λ reader.
              Kept content l (object_at r.tiled r.seq.position r.mapped) r.v.epoch r.seq.position
                reader w.0)
            m.2.1 w.2,
      )

  abbrev read_at :
      ℕ
      → VersionedView
      → Outcome (Option Text) × Client RamBackend
      → Round (Unit {0}) Text × Client RamBackend
  read_at p v m =
      on_mapped serialize options ram_backend l newer
        (λ s oid epoch. (log_read ram_backend s l oid epoch p, s)) enoent p v m

  abbrev read_look :
      ℕ → Client RamBackend → Option VersionedView → Round (Unit {0}) Text × Client RamBackend
  read_look p d w = elim w [ none ↦ (stop fault, d) | some v ↦ read_at p v (map d v p) ]

  read_round_mapped :
      (d m : Client RamBackend) (v : VersionedView) (oid : Text) (p : ℕ)
      → d.view_reader.view ≡ some v
      → map d v p ≡ (ok (some oid), m)
      → read m.store (prefixed_oid l oid) v.epoch p ≡ ok content
      → read_round serialize options ram_backend l newer p tt d ≡ (stop (ok content), m)
  unfolding read_round position_round on_mapped after_call view_of log_read
  read_round_mapped d m v oid p looks mapped answer =
      ap (read_look p d) looks ∙ ap (read_at p v) mapped ∙ rw answer refl

  -- A read of a position whose object holds the content.
  read-Kept :
      (v : VersionedView) (limit p : ℕ) (d : Client RamBackend) (fuel : ℕ)
      → (t : IsTiled v.view.object_map limit) → (inside : p < limit) → 0 < v.epoch
      → d.view_reader.view ≡ some v
      → Kept content l (object_at t p inside) v.epoch p d.view_reader d
      → (e : Client RamBackend) × (rounds quiet
            (read_round serialize options ram_backend l newer p)
            (suc fuel)
            tt
            d
          ≡ some (ok content, e))
  unfolding rounds after_round
  read-Kept v limit p d fuel t inside positive looks kept =
      let m = map_mapped d v p limit t inside in
      let answer : read d.store (prefixed_oid l (object_at t p inside)) v.epoch p ≡ ok content =
        read_ready d.store (prefixed_oid l (object_at t p inside))
          (prefixed_oid-named l (object_at t p inside)) v.epoch p positive content kept.1 kept.2
          kept.3 kept.4 kept.5 kept.6 in
      let moved : read (m.0).store (prefixed_oid l (object_at t p inside)) v.epoch p ≡ ok content =
        ap (λ s. read s (prefixed_oid l (object_at t p inside)) v.epoch p) m.2.0 ∙ answer in
      (
        m.0,
        ap
            (after_round quiet (read_round serialize options ram_backend l newer p)
              (rounds quiet (read_round serialize options ram_backend l newer p) fuel))
            (read_round_mapped d m.0 v (object_at t p inside) p looks m.1 moved),
      )

  -- While nobody else calls, a client of a backend that keeps contents appends in two rounds at the
  -- position that its sequencer hands out next, and then reads the content there in one round. The
  -- conditions: its view's object map is tiled and maps this position, which is below 2^64 - 1; the
  -- epochs of the view and of the sequencer are positive; each name with the log's prefix is free, or
  -- is an object of entries whose epoch is not newer than the view's and whose cell at this position is
  -- unwritten, so not trimmed.
  pub append_then_read :
      (c : Client RamBackend) (fuel : ℕ)
      → (r : IsReady l c)
      → (d e : Client RamBackend) × (rounds quiet append (suc (suc fuel)) append_op c
          ≡ some (ok r.seq.position, d))
        × (rounds quiet
              (read_round serialize options ram_backend l newer r.seq.position)
              (suc fuel)
              tt
              d
            ≡ some (ok content, e))
  append_then_read c fuel r =
      let a = append_ready c fuel r in
      let v : VersionedView = record (r.v) {
        seq = some (record (r.seq) { position = add64 r.seq.position 1 });
      } in
      let x =
        read-Kept v r.limit r.seq.position a.0 fuel r.tiled r.mapped r.current
          (ap (λ reader. reader.view) a.2.0) (refl, a.2.1, a.2.2, a.2.3, a.2.4, a.2.5, a.2.6) in
      (a.0, x.0, a.1, x.1)
