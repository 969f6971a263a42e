-- ===== src/ViewReader/Served.antt =====
-- What `refresh_view` and the waiters of src/libzlog/view_reader.cc are left with after a refresh.
use zlog.Base.{
  ℕ, ◌≤◌, ◌≡◌, ◌⊎◌, refl, sym, subst, ◌∙◌, inl, inr, Bool, true, false, ◌&&◌, Option, none, some,
  some_inj, List, [], ◌∷◌, map, ok, arith, Option-cases, Bool-cases, ltb, leb, ◌==◌, text_eq,
  text_eq_iff, if◌then◌else◌,
}
use zlog.ObjectMap.{is_some}
use zlog.View.{VersionedView, Sequencer, SequencerConfig}
use zlog.LogBackend.{LogBackend}
use zlog.ViewReader.{
  RefreshWaiter, ViewReader, is_ours, same_sequencer, reuse, sequencer_for, set_view, install,
  wake_waiters, notify,
}

-- A view whose sequencer is this client has the sequencer's state.
abbrev pub ServedBy : LogBackend → Option SequencerConfig → Option Sequencer → Type 0
ServedBy l none seq = Unit
ServedBy l (some config) seq = is_ours l config ≡ true → is_some seq ≡ true

abbrev pub IsServed : LogBackend → Option VersionedView → Type 0
IsServed l none = Unit
IsServed l (some v) = ServedBy l v.view.seq_config v.seq

abbrev pub NotNewer : Option VersionedView → ℕ → Type 0
NotNewer none epoch = Unit
NotNewer (some v) epoch = v.epoch ≤ epoch

abbrev pub HasEpoch : ℕ → Option VersionedView → Type 0
HasEpoch epoch none = ⊥
HasEpoch epoch (some v) = v.epoch ≡ epoch

abbrev pub filter : (RefreshWaiter → Bool) → List RefreshWaiter → List RefreshWaiter
filter test [] = []
filter test (w ∷ ws) = if test w then w ∷ filter test ws else filter test ws

-- Who waits with an older epoch than this is woken, in order, and the others go on waiting.
abbrev pub IsWoken : ℕ → List ℕ → List RefreshWaiter → List RefreshWaiter → Type 0
IsWoken epoch woken left waiters =
    (woken ≡ map (λ w. w.thread) (filter (λ w. ltb w.epoch epoch) waiters))
    × (left ≡ filter (λ w. leb epoch w.epoch) waiters)

pub wake_waiters_lem :
    (epoch : ℕ) (waiters : List RefreshWaiter)
    → IsWoken epoch (wake_waiters epoch waiters).0 (wake_waiters epoch waiters).1 waiters
unfolding wake_waiters
wake_waiters_lem epoch [] = (refl, refl)
wake_waiters_lem epoch (w ∷ ws) =
    let rest = wake_waiters_lem epoch ws in
    elim (Bool-cases (ltb w.epoch epoch)) [
      | inl t ↦ (ground (arith, t, rest.0), ground (arith, t, rest.1))
      | inr t ↦ (ground (arith, t, rest.0), ground (arith, t, rest.1))
    ]

-- The view says that this client is the sequencer.
abbrev pub Names : LogBackend → Option SequencerConfig → SequencerConfig → Type 0
Names l o config = (o ≡ some config) × (config.token ≡ l.token)

-- The view before has the sequencer that this configuration started.
abbrev pub Started :
    LogBackend → Option VersionedView → SequencerConfig → VersionedView → SequencerConfig → Type 0
Started l before config v old =
    (before ≡ some v) × Names l v.view.seq_config old × (old.epoch ≡ config.epoch)

-- The sequencer of a view that is taken: none if the view names another client or none, the one that
-- runs if the view before had it, and else a new one from the view's position.
abbrev pub Sequenced : LogBackend → Option VersionedView → VersionedView → Option Sequencer → Type 0
Sequenced l before latest seq =
    (((config : SequencerConfig) → Names l latest.view.seq_config config → ⊥) × (seq ≡ none))
    ⊎ ((config : SequencerConfig) × Names l latest.view.seq_config config
        × (((v : VersionedView) × (old : SequencerConfig) × Started l before config v old
              × (seq ≡ v.seq)
              × (is_some seq ≡ true))
            ⊎ (((v : VersionedView) (old : SequencerConfig) → Started l before config v old → ⊥)
                × (seq ≡ some (record { epoch = latest.epoch; position = config.position })))))

-- A reader that has a view of this epoch keeps it, and another takes the latest one.
abbrev pub IsLatest :
    LogBackend → VersionedView → Option VersionedView → Option VersionedView → Type 0
IsLatest l latest before after =
    (HasEpoch latest.epoch before × (after ≡ before))
    ⊎ ((HasEpoch latest.epoch before → ⊥)
        × (seq : Option Sequencer) × (after ≡ some (record latest { seq = seq }))
        × Sequenced l before latest seq)

reuse_lem :
    (l : LogBackend) (w : Option VersionedView) (config : SequencerConfig)
    → IsServed l w
    → same_sequencer l w config ≡ true
    → (seq : Sequencer) × (v : VersionedView) × (old : SequencerConfig) × Started l w config v old
      × (v.seq ≡ some seq)
      × (reuse w ≡ ok (some seq))
unfolding same_sequencer reuse is_ours
reuse_lem l none config h e = cc e
reuse_lem l (some v) config h e = elim (Option-cases v.view.seq_config) [
  | inl z ↦ ground (arith, e, z)
  | inr (old, z) ↦
      let both : (text_eq old.token l.token && (old.epoch == config.epoch)) ≡ true =
        ground (arith, e, z) in
      let ours : text_eq old.token l.token ≡ true = ground (arith, both) in
      let epochs : old.epoch ≡ config.epoch = ground (arith, both) in
      let served : is_some v.seq ≡ true = subst (λ o. ServedBy l o v.seq) z h ours in
      elim (Option-cases v.seq) [
        | inl n ↦ ground (arith, served, n)
        | inr (seq, n) ↦
            (seq, v, old, (refl, (z, (text_eq_iff old.token l.token).0 ours), epochs), n, rw n refl)
      ]
]

different :
    (l : LogBackend) (w : Option VersionedView) (config : SequencerConfig)
    → same_sequencer l w config ≡ false
    → (v : VersionedView) (old : SequencerConfig) → Started l w config v old
    → ⊥
unfolding same_sequencer is_ours
different l w config e v old s =
    let ours : text_eq old.token l.token ≡ true = (text_eq_iff old.token l.token).1 (s.1).1 in
    let at : same_sequencer l (some v) config ≡ false =
      subst (λ w. same_sequencer l w config ≡ false) s.0 e in
    ground (arith, at, (s.1).0, ours, s.2)

-- The sequencer of a newer view is found, whatever the view says.
sequencer_for_lem :
    (l : LogBackend) (w : Option VersionedView) (latest : VersionedView)
    → IsServed l w
    → (seq : Option Sequencer) × (sequencer_for l w latest ≡ ok seq)
      × IsServed l (some (record latest { seq = seq }))
      × Sequenced l w latest seq
unfolding sequencer_for is_ours
sequencer_for_lem l w latest h = elim (Option-cases latest.view.seq_config) [
  | inl e ↦ (
    none,
    rw e refl,
    subst (λ o. ServedBy l o none) (sym e) tt,
    inl (λ config n. cc (n.0, e), refl),
  )
  | inr (config, e) ↦ elim (Bool-cases (text_eq config.token l.token)) [
    | inr other ↦ (
      none,
      rw (e, other) refl,
      subst (λ o. ServedBy l o none) (sym e) (λ o. cc (o, other)),
      inl (λ named n. other_client config named e other n, refl),
    )
    | inl ours ↦
        let named : Names l latest.view.seq_config config =
          (e, (text_eq_iff config.token l.token).0 ours) in
        elim (Bool-cases (same_sequencer l w config)) [
          | inl same ↦
              let (seq, v, old, started, has, q) = reuse_lem l w config h same in
              (
                some seq,
                rw (e, ours, same, q) refl,
                subst (λ o. ServedBy l o (some seq)) (sym e) (λ o. refl),
                inr (config, named, inl (v, old, started, sym has, refl)),
              )
          | inr new ↦ (
            some (record { epoch = latest.epoch; position = config.position }),
            rw (e, ours, new) refl,
            subst
                (λ o.
                  ServedBy l o (some (record { epoch = latest.epoch; position = config.position })))
                (sym e) (λ o. refl),
            inr (config, named, inr (different l w config new, refl)),
          )
        ]
  ]
]
  where
    other_client :
        (config named : SequencerConfig)
        → latest.view.seq_config ≡ some config
        → text_eq config.token l.token ≡ false
        → Names l latest.view.seq_config named
        → ⊥
    other_client config named e other n =
        let same : config ≡ named = some_inj (sym e ∙ n.0) in
        let is : text_eq named.token l.token ≡ true = (text_eq_iff named.token l.token).1 n.1 in
        cc (subst (λ x. text_eq x.token l.token ≡ false) same other, is)

-- What a reader is after it took a view.
pub record Took (l : LogBackend) (r : ViewReader) (latest : VersionedView) (next : ViewReader)
    : Type 0 where
  pub has_epoch : HasEpoch latest.epoch next.view
  pub served : IsServed l next.view
  pub is_latest : IsLatest l latest r.view next.view
  pub same_waiters : next.refresh_waiters ≡ r.refresh_waiters

set_view-Took :
    (l : LogBackend) (r : ViewReader) (latest : VersionedView)
    → IsServed l r.view
    → (HasEpoch latest.epoch r.view → ⊥)
    → (next : ViewReader) × (set_view l r latest ≡ ok next) × Took l r latest next
unfolding set_view
set_view-Took l r latest h newer =
    let s = sequencer_for_lem l r.view latest h in
    (
      record r { view = some (record latest { seq = s.0 }) },
      rw (s.1) refl,
      record {
        has_epoch = refl;
        served = s.2;
        is_latest = inr (newer, s.0, refl, s.3);
        same_waiters = refl;
      },
    )

pub install-Took :
    (l : LogBackend) (r : ViewReader) (latest : VersionedView)
    → IsServed l r.view
    → NotNewer r.view latest.epoch
    → (next : ViewReader) × (install l r latest ≡ ok next) × Took l r latest next
unfolding install
install-Took l r latest h n = go r.view refl
  where
    go :
        (w : Option VersionedView)
        → r.view ≡ w
        → (next : ViewReader) × (install l r latest ≡ ok next) × Took l r latest next
    go none e =
        let s = set_view-Took l r latest h (λ has. absurd (subst (HasEpoch latest.epoch) e has)) in
        (s.0, ground (arith, e, s.1), s.2)
    go (some v) e =
        let old : v.epoch ≤ latest.epoch = subst (λ w. NotNewer w latest.epoch) e n in
        elim (Bool-cases (latest.epoch == v.epoch)) [
          | inl z ↦
              let has : HasEpoch latest.epoch r.view =
                subst (HasEpoch latest.epoch) (sym e) (ground (arith, z)) in
              (
                r,
                ground (arith, e, z, old),
                record {
                  has_epoch = has;
                  served = h;
                  is_latest = inl (has, refl);
                  same_waiters = refl;
                },
              )
          | inr z ↦
              let s =
                set_view-Took l r latest h
                  (λ has. newer v z (subst (HasEpoch latest.epoch) e has)) in
              (s.0, ground (arith, e, z, old, s.1), s.2)
        ]
      where
        newer : (v : VersionedView) → (latest.epoch == v.epoch) ≡ false → v.epoch ≡ latest.epoch → ⊥
        newer v z same = ground (arith, z, same)

pub notify_epoch :
    (r : ViewReader) (epoch : ℕ)
    → HasEpoch epoch r.view
    → notify r ≡ (
      (wake_waiters epoch r.refresh_waiters).0,
      record r { refresh_waiters = (wake_waiters epoch r.refresh_waiters).1 },
    )
unfolding notify
notify_epoch r epoch h = go r.view refl
  where
    go :
        (w : Option VersionedView)
        → r.view ≡ w
        → notify r ≡ (
          (wake_waiters epoch r.refresh_waiters).0,
          record r { refresh_waiters = (wake_waiters epoch r.refresh_waiters).1 },
        )
    go none e = absurd (subst (HasEpoch epoch) e h)
    go (some v) e = let same = subst (HasEpoch epoch) e h in ground (arith, e, same)
