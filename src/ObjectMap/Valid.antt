-- ===== src/ObjectMap/Valid.antt =====
-- `ObjectMap::valid` accepts the tiled object maps, and no others, among those whose multi-stripes
-- were built within the limits of their number types.
use mathlib.Core.List.{append-nil, append_assoc}
use zlog.Base.{ℕ, ◌+◌, ◌≡◌, refl, sym, ◌∙◌, true, none, [], ◌∷◌, ◌++◌, arith}
use zlog.Base.OrdMap.{
  OrdMap, find, emplace, last, KeysBelow, KeysBelow-mono, KeysBelow-snoc, find_above, emplace_above,
}
use zlog.Stripe.{MultiStripe}
use zlog.ObjectMap.{
  ObjectMap, index_by_id, same_stripes, keys_agree, next_id_agrees, starts_at_zero, adjacent_after,
  adjacent, valid,
}
use zlog.ObjectMap.Tile.{IsTile, span, max_stripe_id_tile}
use zlog.ObjectMap.Tiling.{Tiles, by_id, IsTiled, last_tile}

module _ (p i : ℕ) (k : ℕ) (m : MultiStripe) (tmp : OrdMap MultiStripe) (t : IsTile p i m)
    (b : KeysBelow i tmp) where
  emplace_tile : emplace m.base_id m tmp ≡ tmp ++ ((m.base_id, m) ∷ [])
  emplace_tile =
      emplace_above m.base_id m tmp (KeysBelow-mono i m.base_id tmp (omega (arith, t.based)) b)

  below_tile : KeysBelow (i + m.instances) (tmp ++ ((m.base_id, m) ∷ []))
  below_tile =
      KeysBelow-snoc (i + m.instances) m.base_id m tmp
        (KeysBelow-mono i (i + m.instances) tmp (omega arith) b)
        (omega (arith, t.based, t.instances_pos))

  find_tile_id : find m.base_id tmp ≡ none
  find_tile_id =
      find_above m.base_id tmp (KeysBelow-mono i m.base_id tmp (omega (arith, t.based)) b)

-- The constructor's secondary index holds every entry under its base id.
index_by_id-Tiles :
    (p i : ℕ) (ms tmp : OrdMap MultiStripe) (q j : ℕ)
    → Tiles p i ms q j
    → KeysBelow i tmp
    → index_by_id tmp ms ≡ tmp ++ by_id ms
unfolding index_by_id
index_by_id-Tiles p i [] tmp q j t b = sym (append-nil tmp)
index_by_id-Tiles p i ((k, m) ∷ ms) tmp q j t b = rw (emplace_tile p i k m tmp t.1 b) (
    index_by_id-Tiles (p + span m) (i + m.instances) ms (tmp ++ ((m.base_id, m) ∷ [])) q j t.2
      (below_tile p i k m tmp t.1 b)
    ∙ append_assoc tmp ((m.base_id, m) ∷ []) (by_id ms))

keys_agree-Tiles :
    (p i : ℕ) (ms tmp : OrdMap MultiStripe) (q j : ℕ)
    → Tiles p i ms q j
    → KeysBelow i tmp
    → keys_agree tmp ms ≡ true
unfolding keys_agree
keys_agree-Tiles p i [] tmp q j t b = refl
keys_agree-Tiles p i ((k, m) ∷ ms) tmp q j t b =
    rw (find_tile_id p i k m tmp t.1 b, emplace_tile p i k m tmp t.1 b)
      (ground (
        arith,
        t.0,
        t.1.starts,
        keys_agree-Tiles (p + span m) (i + m.instances) ms (tmp ++ ((m.base_id, m) ∷ [])) q j t.2
            (below_tile p i k m tmp t.1 b),
      ))

pub same_stripes_refl : (ms : OrdMap MultiStripe) → same_stripes ms ms ≡ true
unfolding same_stripes
same_stripes_refl [] = refl
same_stripes_refl ((k, m) ∷ ms) = ground (arith, same_stripes_refl ms)

pub same_stripes_sound : (xs ys : OrdMap MultiStripe) → same_stripes xs ys ≡ true → xs ≡ ys
unfolding same_stripes
same_stripes_sound [] [] h = refl
same_stripes_sound [] (y ∷ ys) h = cc
same_stripes_sound (x ∷ xs) [] h = cc
same_stripes_sound ((k, a) ∷ xs) ((j, b) ∷ ys) h = ground (arith, same_stripes_sound xs ys)

next_id_agrees-Tiles :
    (ms : OrdMap MultiStripe) (q j : ℕ) → Tiles 0 0 ms q j → next_id_agrees j (last ms) ≡ true
unfolding next_id_agrees
next_id_agrees-Tiles [] q j t = unfold last in ground arith
next_id_agrees-Tiles ((k, m) ∷ ms) q j t =
    let r = last_tile 0 0 k m ms q j t in
    rw r.is_last
      (ground (arith, r.end_id, r.tile.ids_fit, r.tile.instances_pos, max_stripe_id_tile r.tile))

starts_at_zero-Tiles :
    (ms : OrdMap MultiStripe) (q j : ℕ) → Tiles 0 0 ms q j → starts_at_zero ms ≡ true
unfolding starts_at_zero
starts_at_zero-Tiles [] q j t = refl
starts_at_zero-Tiles ((k, m) ∷ ms) q j t = ground (arith, t.0, t.1.based)

adjacent_after-Tiles :
    (p i : ℕ) (m : MultiStripe) (ms : OrdMap MultiStripe) (q j : ℕ)
    → IsTile p i m
    → Tiles (p + span m) (i + m.instances) ms q j
    → adjacent_after m ms ≡ true
unfolding adjacent_after
adjacent_after-Tiles p i m [] q j t r = refl
adjacent_after-Tiles p i m ((k, n) ∷ ms) q j t r = ground (
  arith,
  t.ends,
  t.positions_fit,
  t.ids_fit,
  t.instances_pos,
  max_stripe_id_tile t,
  r.0,
  r.1.based,
  adjacent_after-Tiles (p + span m) (i + m.instances) n ms q j r.1 r.2,
)

adjacent-Tiles : (ms : OrdMap MultiStripe) (q j : ℕ) → Tiles 0 0 ms q j → adjacent ms ≡ true
unfolding adjacent
adjacent-Tiles [] q j t = refl
adjacent-Tiles ((k, m) ∷ ms) q j t = adjacent_after-Tiles 0 0 m ms q j t.1 t.2

pub index_by_id_tiled :
    (ms : OrdMap MultiStripe) (q j : ℕ) → Tiles 0 0 ms q j → index_by_id [] ms ≡ by_id ms
index_by_id_tiled ms q j t = index_by_id-Tiles 0 0 ms [] q j t tt

pub valid_tiled : (om : ObjectMap) (limit : ℕ) → IsTiled om limit → valid om ≡ true
unfolding valid
valid_tiled om limit t =
    let ms = om.stripes_by_pos in
    let j = om.next_stripe_id in
    rw (
      keys_agree-Tiles 0 0 ms [] limit j t.tiles tt,
      t.indexed,
      index_by_id_tiled ms limit j t.tiles,
      same_stripes_refl (by_id ms),
      next_id_agrees-Tiles ms limit j t.tiles,
      starts_at_zero-Tiles ms limit j t.tiles,
      adjacent-Tiles ms limit j t.tiles,
    )

-- The multi-stripe was built within the limits of its number types.
abbrev pub IsBuilt : ℕ × MultiStripe → Type 0
IsBuilt e = IsTile e.1.min_position e.1.base_id e.1
