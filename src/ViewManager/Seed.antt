-- ===== src/ViewManager/Seed.antt =====
-- Where the sequencer that `ViewManager::propose_sequencer` proposes starts, on the in-memory backend
-- (src/libzlog/view_manager.cc).
use native.Mathlib.Decide.{dec_lt}
use zlog.Base.{
  ℕ, zero, suc, ◌≡◌, ◌<◌, ◌⊎◌, ◌%◌, refl, sym, ap, subst, ◌∙◌, inl, inr, false, Option, none, some,
  List, [], ◌∷◌, Text, ok, All, arith, get_elem?, ◌==◌, add64, u64_mod, some_inj,
}
use zlog.ObjectMap.{ObjectMap, empty, num_stripes}
use zlog.ObjectMap.Tiling.{IsTiled}
use zlog.ObjectMap.Lookup.{place, Tiles-filled, filled_flag}
use zlog.ObjectMap.Objects.{get_elem?-make_oids}
use zlog.ObjectMap.Order.{stripe_by_id_order}
use zlog.ObjectMap.Iteration.{stripe-Shaped}
use zlog.Ram.{RamBackend}
use zlog.Ram.Spec.{view}
use zlog.Ram.Sealing.{IsSealed}
use zlog.Ram.Bounds.{AllBounded}
use zlog.View.{VersionedView}
use zlog.LogBackend.{LogBackend, ram_backend, prefixed_oid}
use zlog.ViewManager.Seals.{IsUsed, IsCovered}
use zlog.ViewManager.SealStripe.{IsFenced}
use zlog.ViewManager.Client.{Client}
use zlog.ViewManager.Propose.{find_max, find_seed, sequencer_config}
use zlog.ViewManager.Mapping.{object_at}
use zlog.ViewManager.Scan.{AllFromHere, Scanned, find_max-Scanned}

All-at :
    (P : Text → Type 0) (xs : List Text) (i : ℕ) (x : Text)
    → All P xs
    → get_elem? xs i ≡ some x
    → P x
All-at P [] i x h e = cc e
All-at P (y ∷ xs) zero x h e = subst P (some_inj e) h.0
All-at P (y ∷ xs) (suc i) x h e = All-at P xs i x h.1 e

-- The object of the position refuses the epochs before, and does not hold the position.
abbrev pub IsFree : LogBackend → RamBackend → ℕ → Text → ℕ → Type 0
IsFree l b epoch oid p =
    IsSealed epoch (view b (prefixed_oid l oid)) × ¬ (IsUsed (view b (prefixed_oid l oid)) p)

covered_below :
    (l : LogBackend) (epoch p : ℕ) (m : Option ℕ)
    → ((k : ℕ) → m ≡ some k → suc k < u64_mod)
    → IsCovered p m
    → p < (sequencer_config l epoch m).position
unfolding sequencer_config
covered_below l epoch p none fits c = elim c [ ]
covered_below l epoch p (some k) fits c = omega (arith, fits k refl)

module _ {om : ObjectMap} {limit : ℕ} (t : IsTiled om limit) (l : LogBackend) (epoch : ℕ)
    (b : RamBackend) (m : Option ℕ) (fits : (k : ℕ) → m ≡ some k → suc k < u64_mod) (p : ℕ)
    (inside : p < limit) where
  Below : Type 0
  Below = p < (sequencer_config l epoch m).position

  by_fence :
      IsFenced l b epoch m (object_at t p inside)
      → Below ⊎ IsFree l b epoch (object_at t p inside) p
  unfolding Below
  by_fence fenced = elim (dec_lt p (sequencer_config l epoch m).position) [
    | yes below ↦ inl below
    | no above ↦
        inr (fenced.0, λ used. absurd (above (covered_below l epoch p m fits (fenced.1 p used))))
  ]

  fenced_at :
      Scanned l om epoch om.next_stripe_id m b → Below ⊎ IsFree l b epoch (object_at t p inside) p
  unfolding Below
  fenced_at scan =
      let at = place t p inside in
      elim (dec_lt at.stripe.stripe_id scan.from) [
        | no on ↦
            (let shaped = stripe-Shaped t at.stripe.stripe_id at.known at.stripe at.by_stripe_id in
              by_fence (
                All-at (IsFenced l b epoch m) at.stripe.oids (p % at.stripe.width)
                  (object_at t p inside)
                  (scan.fenced at.stripe.stripe_id at.stripe (omega arith) at.known at.by_stripe_id)
                  (ap (λ oids. get_elem? oids (p % at.stripe.width)) shaped.named
                    ∙ get_elem?-make_oids at.stripe.stripe_id at.stripe.width (p % at.stripe.width)
                        (omega (arith, at.width_pos)))))
        | yes before ↦ elim scan.reached [
          | inl first ↦ absurd (omega arith)
          | inr x ↦ inl (
              covered_below l epoch p m fits (
                subst (IsCovered p) (sym x.2) (
                  omega (
                    arith,
                    at.below,
                    x.5,
                    stripe_by_id_order at.stripe.stripe_id scan.from at.stripe x.1 t before x.3
                        at.by_stripe_id x.4,
                  ))))
        ]
      ]

find_seed_scans :
    (l : LogBackend) (c : Client RamBackend) (v : VersionedView) (limit : ℕ)
    → IsTiled v.view.object_map limit
    → (p : ℕ) → p < limit
    → find_seed ram_backend l c v
      ≡ find_max ram_backend l c.store v.view.object_map
          (add64 v.epoch 1)
          v.view.object_map.next_stripe_id
unfolding find_seed empty num_stripes
find_seed_scans l c v limit t p inside =
    let om = v.view.object_map in
    let filled =
      filled_flag om.stripes_by_pos
        (Tiles-filled 0 0 om.stripes_by_pos limit om.next_stripe_id t.tiles (omega arith)) in
    rw
      (
        filled,
        not_zero om.next_stripe_id (place t p inside).stripe.stripe_id (place t p inside).known,
      )
      refl
  where
    not_zero : (n i : ℕ) → i < n → (n == 0) ≡ false
    not_zero n i h = ground arith

-- A view whose map holds the positions below a limit, and a backend where each maximum bounds the
-- entries of its object and none lies below the object's stripe. When the scan for the start of a
-- new sequencer succeeds, with a maximum that is not the last number of 64 bits, then every position
-- below the limit lies below the position at which the sequencer starts, or it is unused and its
-- object refuses all calls of earlier epochs than that of the new view.
pub find_seed_lem :
    (l : LogBackend) (c : Client RamBackend) (v : VersionedView) (limit p : ℕ) (m : Option ℕ)
    → (t : IsTiled v.view.object_map limit) → AllBounded c.store
    → AllFromHere l v.view.object_map c.store
    → (find_seed ram_backend l c v).0 ≡ ok m
    → ((k : ℕ) → m ≡ some k → suc k < u64_mod)
    → (inside : p < limit)
    → (p < (sequencer_config l (add64 v.epoch 1) m).position)
      ⊎ IsFree l (find_seed ram_backend l c v).1 (add64 v.epoch 1) (object_at t p inside) p
find_seed_lem l c v limit p m t all here done fits inside =
    let scans = find_seed_scans l c v limit t p inside in
    subst
      (λ r.
        (p < (sequencer_config l (add64 v.epoch 1) m).position)
        ⊎ IsFree l r.1 (add64 v.epoch 1) (object_at t p inside) p)
      (sym scans)
      (unfold Below in
        fenced_at t l (add64 v.epoch 1) _ m fits p inside (
          find_max-Scanned l v.view.object_map (add64 v.epoch 1) c.store
            v.view.object_map.next_stripe_id m all here (ap (λ r. r.0) (sym scans) ∙ done)))
