-- ===== src/Ceph/Views.antt =====
-- The chain of views on a head object: view_create and view_read of src/storage/ceph/cls_zlog.cc.
use native.Mathlib.Decide.{dec_le, ℕ_discrete}
use zlog.Base.{
  ℕ, suc, zero, ◌-◌, ◌≡◌, ◌≤◌, ◌<◌, ◌⊎◌, ◌≢◌, refl, sym, subst, ◌∙◌, inl, inr, true, false, ◌&&◌,
  some, [], ◌∷◌, ok, err, einval, espipe, arith, Bool-cases, ◌==◌, ==_iff, ltb, leb, is_empty,
  add64, u64_mod,
}
use zlog.View.{c_str}
use zlog.Ceph.{CreateViewOp, StoredView, Codecs, ObjectClass, Effect}
use zlog.Ceph.LogObject.{bytes_of}
use zlog.Ceph.HeadObject.{
  HeadObject, head_hdr_key, view_key, head_of, decode_head, initialize_head, finalize, set_epoch,
  create_view_op, view_create, read_view_loop, view_read, view_count, first_epoch,
}
use zlog.Ceph.Laws.{ClassLaws, CodecLaws}

module _ {S : Type 0} (cls : ObjectClass S) (codecs : Codecs) (laws : ClassLaws cls)
    (coded : CodecLaws codecs) (s : S) (head : HeadObject)
    (found : initialize_head cls codecs s ≡ ok head) where
  abbrev Follows : ℕ → Type 0
  Follows epoch = (1 ≤ epoch) × (epoch ≡ add64 head.epoch 1)

  -- The head object after the view was written.
  module _ (op : CreateViewOp) (follows : Follows op.epoch) where
    abbrev next : HeadObject
    next = record head { epoch = op.epoch }

    abbrev stored : Effect S (Unit {0})
    stored = cls.map_set_val s (view_key op.epoch) (bytes_of op.bytes)

    created : create_view_op cls codecs s op ≡ finalize cls codecs stored.1 next
    unfolding create_view_op set_epoch
    created =
        rw (found)
          (ground (arith, follows, laws.map_set_ok s (view_key op.epoch) (bytes_of op.bytes)))

    abbrev made : Effect S (Unit {0})
    made = finalize cls codecs stored.1 next

    made_ok : made.0 ≡ ok tt
    unfolding finalize
    made_ok = laws.setxattr_ok stored.1 head_hdr_key _

    made_head :
        c_str head.prefix ≡ head.prefix
        → is_empty head.prefix ≡ false
        → initialize_head cls codecs made.1 ≡ ok next
    unfolding initialize_head finalize
    made_head plain filled =
        rw
          (
            laws.getxattr_set stored.1 head_hdr_key (
                codecs.head_object_header.encode
                  (record { epoch = op.epoch; prefix = some (c_str head.prefix) })),
            decode_head,
            coded.head_object_header
                (record { epoch = op.epoch; prefix = some (c_str head.prefix) }),
            head_of,
            plain,
            filled,
          )
          refl

    made_view : cls.map_get_val made.1 (view_key op.epoch) ≡ ok (bytes_of op.bytes)
    unfolding finalize
    made_view =
        laws.map_get_setxattr stored.1 head_hdr_key _ (view_key op.epoch)
        ∙ laws.map_get_set s (view_key op.epoch) (bytes_of op.bytes)

    -- The loop stops behind the latest view.
    stops : (n : ℕ) → read_view_loop cls codecs made.1 op.epoch n (add64 op.epoch 1) ≡ ok []
    unfolding read_view_loop
    stops zero = refl
    stops (suc n) = rw (past op.epoch follows.0 (below head.epoch op.epoch follows.1)) refl
      where
        below : (e f : ℕ) → f ≡ add64 e 1 → f < u64_mod
        below e f h = omega arith

        past : (e : ℕ) → 1 ≤ e → e < u64_mod → (ltb 0 (add64 e 1) && leb (add64 e 1) e) ≡ false
        past e h k = elim (Bool-cases (ltb 0 (add64 e 1))) [
          | inl t ↦ rw t (ground (arith, t))
          | inr t ↦ rw t refl
        ]

    abbrev latest : StoredView
    latest = record { epoch = op.epoch; bytes = bytes_of op.bytes }

    reads_latest :
        (n : ℕ) → read_view_loop cls codecs made.1 op.epoch (suc n) op.epoch ≡ ok (latest ∷ [])
    unfolding read_view_loop
    reads_latest n = rw (at_latest op.epoch follows.0, made_view, stops n) refl
      where
        at_latest : (e : ℕ) → 1 ≤ e → (ltb 0 e && leb e e) ≡ true
        at_latest e h = ground arith

    reads_created :
        (e n : ℕ)
        → (e ≡ 0) ⊎ (e ≡ op.epoch)
        → 1 ≤ n
        → c_str head.prefix ≡ head.prefix
        → is_empty head.prefix ≡ false
        → view_read cls codecs made.1
            (codecs.read_views_op.encode (record { epoch = e; max_views = n }))
          ≡ ok (codecs.views.encode (latest ∷ []))
    unfolding view_read
    reads_created e n asked some_views plain filled =
        let count = view_count_pos n some_views in
        rw
          (
            coded.read_views_op (record { epoch = e; max_views = n }),
            made_head plain filled,
            count.1,
            first e asked,
            reads_latest count.0,
          )
          refl
      where
        view_count_pos : (n : ℕ) → 1 ≤ n → (m : ℕ) × (view_count n ≡ suc m)
        view_count_pos n h = elim (Bool-cases (ltb 100 n)) [
          | inl t ↦ (99, rw t refl)
          | inr t ↦ (n - 1, rw t (omega (arith, h)))
        ]

        first : (e : ℕ) → (e ≡ 0) ⊎ (e ≡ op.epoch) → first_epoch next e ≡ op.epoch
        first e (inl z) = rw z refl
        first e (inr same) = ground (arith, same)

  refused :
      (op : CreateViewOp)
      → ¬ (Follows op.epoch)
      → ((create_view_op cls codecs s op ≡ (err einval, s))
          ⊎ (create_view_op cls codecs s op ≡ (err espipe, s)))
  unfolding create_view_op set_epoch
  refused op stale = elim (Bool-cases (ltb op.epoch 1)) [
    | inl none_given ↦ inl (rw none_given refl)
    | inr given_one ↦ elim (Bool-cases (op.epoch == add64 head.epoch 1)) [
      | inl same ↦
          absurd (stale (ground (arith, given_one), (==_iff op.epoch (add64 head.epoch 1)).0 same))
      | inr other ↦ elim (Bool-cases (ltb (add64 head.epoch 1) op.epoch)) [
        | inl far ↦ inl (rw (given_one, found, other, far) refl)
        | inr near ↦ inr (rw (given_one, found, other, near) refl)
      ]
    ]
  ]

-- What a proposal of a view comes to.
abbrev pub IsCreated :
    {S : Type 0} → ObjectClass S → Codecs → HeadObject → CreateViewOp → Effect S (Unit {0}) → Type 0
IsCreated cls codecs head op r =
    (r.0 ≡ ok tt)
    × (initialize_head cls codecs r.1 ≡ ok (record head { epoch = op.epoch }))
    × ((e n : ℕ)
        → (e ≡ 0) ⊎ (e ≡ op.epoch)
        → 1 ≤ n
        → view_read cls codecs r.1
            (codecs.read_views_op.encode (record { epoch = e; max_views = n }))
          ≡ ok (codecs.views.encode (record { epoch = op.epoch; bytes = bytes_of op.bytes } ∷ [])))

abbrev pub IsRefused : {S : Type 0} → S → Effect S (Unit {0}) → Type 0
IsRefused s r = ((r.0 ≡ err einval) ⊎ (r.0 ≡ err espipe)) × (r.1 ≡ s)

view_create-op :
    {S : Type 0} (cls : ObjectClass S) (codecs : Codecs)
    → CodecLaws codecs
    → (s : S) (op : CreateViewOp)
    → view_create cls codecs s (codecs.create_view_op.encode op) ≡ create_view_op cls codecs s op
unfolding view_create
view_create-op cls codecs coded s op = rw (coded.create_view_op op) refl

-- The calls by which an object class changes an object succeed and change it as documented, and tables
-- decode to what was encoded; the head object was initialised, with a prefix without a zero byte. A view whose epoch
-- follows the head's is created: the head then has its epoch, and a read of at least one view from
-- the latest epoch, named or not, gives exactly this view. Any other is refused with an error, and
-- nothing changes.
pub view_create_lem :
    {S : Type 0} (cls : ObjectClass S) (codecs : Codecs)
    → ClassLaws cls
    → CodecLaws codecs
    → (s : S) (head : HeadObject) (op : CreateViewOp) → initialize_head cls codecs s ≡ ok head
    → c_str head.prefix ≡ head.prefix
    → is_empty head.prefix ≡ false
    → ((1 ≤ op.epoch)
        × (op.epoch ≡ add64 head.epoch 1)
        × IsCreated cls codecs head op (view_create cls codecs s (codecs.create_view_op.encode op)))
      ⊎ (((op.epoch ≡ 0) ⊎ (op.epoch ≢ add64 head.epoch 1))
          × IsRefused s (view_create cls codecs s (codecs.create_view_op.encode op)))
view_create_lem cls codecs laws coded s head op found plain filled = elim (dec_le 1 op.epoch) [
  | no none_given ↦ inr (inl (omega (arith, none_given)), stays (λ f. none_given f.0))
  | yes positive ↦ elim (ℕ_discrete op.epoch (add64 head.epoch 1)) [
    | no other ↦ inr (inr other, stays (λ f. other f.1))
    | yes same ↦ inl (
      positive,
      same,
      subst (IsCreated cls codecs head op)
          (sym (
            view_create-op cls codecs coded s op
            ∙ created cls codecs laws coded s head found op (positive, same)))
          (
            made_ok cls codecs laws coded s head found op (positive, same),
            made_head cls codecs laws coded s head found op (positive, same) plain filled,
            λ e n asked some_views.
                reads_created cls codecs laws coded s head found op (positive, same) e n asked
                  some_views plain filled,
          ),
    )
  ]
]
  where
    stays :
        ¬ ((1 ≤ op.epoch) × (op.epoch ≡ add64 head.epoch 1))
        → IsRefused s (view_create cls codecs s (codecs.create_view_op.encode op))
    stays stale =
        subst (IsRefused s) (sym (view_create-op cls codecs coded s op))
          (elim (refused cls codecs laws coded s head found op stale) [
            | inl e ↦ subst (IsRefused s) (sym e) (inl refl, refl)
            | inr e ↦ subst (IsRefused s) (sym e) (inr refl, refl)
          ])
