-- ===== src/ViewManager/Client.antt =====
-- The state of src/libzlog/view_manager.cc and its view reader beside the backend's, and what the
-- operations of a log ask of it without a wait.
use zlog.Base.{
  ℕ, Bool, true, false, not, Option, none, some, List, [], ◌∷◌, ◌++◌, Text, Outcome, ok, err, fault,
  assert, ◌>>◌, ◌>>=◌, ltb, if◌then◌else◌, add64, is_empty,
}
use zlog.Stripe.{Stripe}
use zlog.ObjectMap.{map_position, max_position, map_stripe}
use zlog.ObjectMap.MapTo
use zlog.ObjectMap.MapTo.{map_to}
use zlog.View.{VersionedView}
use zlog.ViewReader.{ViewReader}
use zlog.LogBackend.{Backend, LogBackend, log_seal}

-- A client of a log, over a backend whose state is of type `S`: the positions that wait for the
-- threads `expander_entry_` and `stripe_init_entry_` stand beside the view reader.
pub record Client (S : Type 0) : Type 0 where
  pub store : S
  pub view_reader : ViewReader
  pub shutdown : Bool
  pub expand_pos : Option ℕ
  pub stripe_init_pos : List ℕ

unfoldable pub map_range : VersionedView → ℕ → ℕ → Bool → Outcome MapTo.Step
unfolding map_to
map_range v position stripe_id done = map_to v.view.object_map position stripe_id done

module _ {S : Type 0} where
  unfoldable pub view_of : Client S → Option VersionedView
  view_of c = c.view_reader.view

  unfoldable pub async_expand_view : Client S → ℕ → Client S
  async_expand_view c position = elim c.expand_pos [
    | none ↦ record c { expand_pos = some position }
    | some old ↦ if ltb old position then record c { expand_pos = some position } else c
  ]

  unfoldable pub async_init_stripe : Client S → ℕ → Client S
  async_init_stripe c position = record c { stripe_init_pos = c.stripe_init_pos ++ position ∷ [] }

  unfoldable pub map_last :
      Client S → VersionedView → Text → Outcome ℕ → Outcome (Option Text) × Client S
  unfolding async_expand_view
  map_last c v oid (ok max) = (ok (some oid), async_expand_view c (add64 max 1))
  map_last c v oid (err e) = (err e, c)
  map_last c v oid fault = (fault, c)

  unfoldable pub map_found :
      Client S → VersionedView → Outcome (Option Text × Bool) → Outcome (Option Text) × Client S
  unfolding map_last max_position
  map_found c v (ok (some oid, false)) = (ok (some oid), c)
  map_found c v (ok (some oid, true)) = map_last c v oid (max_position v.view.object_map)
  map_found c v (ok (none, last)) = (assert (not last) >> ok none, c)
  map_found c v (err e) = (err e, c)
  map_found c v fault = (fault, c)

  -- The object of a position; if it lies in the last stripe, the next one is asked for.
  unfoldable pub map : Client S → VersionedView → ℕ → Outcome (Option Text) × Client S
  unfolding map_found map_position
  map c v position = map_found c v (map_position v.view.object_map position)

  module _ (backend : Backend S) (l : LogBackend) where
    -- The loop of `stripe_init_entry_` over the objects: the code that a seal returns is dropped, and
    -- an exception ends the thread.
    unfoldable pub init_objects : S → List Text → ℕ → Outcome S
    unfolding log_seal
    init_objects s [] epoch = ok s
    init_objects s (oid ∷ oids) epoch =
        let sealed = log_seal backend s l oid epoch in
        let rest = init_objects sealed.1 oids epoch in
        elim sealed.0 [ ok done ↦ rest | err e ↦ rest | fault ↦ fault ]

    unfoldable pub init_stripe :
        Client S → VersionedView → Outcome (Option Stripe) → Outcome (Client S)
    unfolding init_objects
    init_stripe c v fault = fault
    init_stripe c v (err e) = err e
    init_stripe c v (ok none) = ok c
    init_stripe c v (ok (some stripe)) =
        assert (not (is_empty stripe.oids))
        >> (init_objects c.store stripe.oids v.epoch >>= λ store. ok (record c { store = store }))

    -- A round of `stripe_init_entry_` while the log is open: the first position that waits.
    unfoldable pub stripe_init_entry : Client S → Outcome (Client S)
    unfolding init_stripe map_stripe view_of
    stripe_init_entry c = elim c.stripe_init_pos [
      | [] ↦ ok c
      | position ∷ rest ↦ elim (view_of c) [
        | none ↦ fault
        | some v ↦
            init_stripe (record c { stripe_init_pos = rest }) v
              (map_stripe v.view.object_map position)
      ]
    ]
