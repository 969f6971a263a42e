-- ===== src/LogOps/Endless.antt =====
-- `TrimToOp::run` of src/libzlog/log_impl.cc at the last position of 64 bits.
use zlog.Base.{
  ℕ, zero, suc, ◌≡◌, ◌≤◌, refl, none, some, Text, ok, fault, ap, ◌∙◌, arith, ◌-◌, u64_mod, le→leb,
}
use zlog.Options.{Options}
use zlog.ObjectMap.{advance_min_valid_position}
use zlog.View.{ViewTable, VersionedView, advance_view}
use zlog.LogBackend.{Backend, LogBackend}
use zlog.ViewManager.Client.{Client, view_of}
use zlog.LogOps.{rounds, go_on, stop, after_expanding}
use zlog.LogOps.TrimTo.{Trims, trim_to_round, trim_look}
use zlog.ViewManager.Propose
use zlog.ViewManager.Propose.{advance_to}

abbrev pub last : ℕ
last = u64_mod - 1

module _ (serialize : ViewTable → Text) (options : Options) {S : Type 0} (backend : Backend S)
    (l : LogBackend) (newer : ℕ → Client S → Client S) (c : Client S) (v : VersionedView)
    (looks : view_of c ≡ some v) (valid : v.view.object_map.min_valid_position ≤ last) where
  not_advanced :
      Propose.advance_min_valid_position serialize options backend l newer 0 c ≡ (ok tt, c)
  unfolding Propose.advance_min_valid_position advance_view advance_min_valid_position advance_to
  not_advanced = rw (looks, le→leb 0 v.view.object_map.min_valid_position (omega arith)) refl

  abbrev look : Trims S
  look = trim_look last serialize options backend l newer v c

  round_looks : trim_to_round last serialize options backend l newer none c ≡ look
  unfolding trim_to_round
  round_looks =
      ap
        (λ o. elim o [
          | none ↦ (stop fault, c)
          | some v ↦ trim_look last serialize options backend l newer v c
        ])
        looks

  advances :
      look
      ≡ after_expanding serialize options backend l newer none
          (Propose.advance_min_valid_position serialize options backend l newer 0 c)
  unfolding trim_look Propose.advance_min_valid_position
  advances = rw (le→leb v.view.object_map.min_valid_position last valid) refl

  round_stays : trim_to_round last serialize options backend l newer none c ≡ (go_on none, c)
  unfolding after_expanding
  round_stays =
      round_looks
      ∙ advances
      ∙ ap (after_expanding serialize options backend l newer none) not_advanced

  -- A client that has a view trims up to the last number of 64 bits, while nothing else happens.
  -- However many rounds are run, the trim has not ended: the position after the last wraps to 0,
  -- to which no view is advanced.
  pub trim_to_last_endless :
      (others : Client S → Client S)
      → others c ≡ c
      → (fuel : ℕ)
      → rounds others (trim_to_round last serialize options backend l newer) fuel none c ≡ none
  unfolding rounds
  trim_to_last_endless others alone zero = refl
  trim_to_last_endless others alone (suc fuel) =
      rw (alone, round_stays) (trim_to_last_endless others alone fuel)
