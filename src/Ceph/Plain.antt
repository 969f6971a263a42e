-- ===== src/Ceph/Plain.antt =====
-- A plain object with the calls that src/storage/ceph/cls_zlog.cc makes, and a plain form of its tables,
-- for the tests.
use zlog.Base.{
  ℕ, zero, suc, ◌≡◌, refl, ap, subst, ◌∙◌, Bool, true, false, Option, none, some, List, [], ◌∷◌,
  ◌++◌, Text, Outcome, ok, err, enoent, enodata, if◌then◌else◌, length, take, drop, arith, ok_inj,
}
use zlog.Base.Assoc.{Assoc, find, insert, find-insert, find-insert_self, text_key}
use zlog.Ceph.{
  LogEntryTable, LogObjectHeaderTable, HeadObjectHeaderTable, StoredView, Codecs, ObjectClass,
}
use zlog.Ceph.Laws.{ClassLaws, CodecLaws}

pub record PlainObject : Type 0 where
  pub exists : Bool
  pub xattrs : Assoc Text Text
  pub omap : Assoc Text Text
  pub bytes : Text

abbrev found_or : Option Text → Outcome Text → Outcome Text
found_or none other = other
found_or (some v) other = ok v

abbrev pub plain_class : ObjectClass PlainObject
plain_class = record {
  getxattr = λ s k. if s.exists then found_or (find k s.xattrs) (err enodata) else err enoent;
  setxattr = λ s k v. (ok tt, record s { exists = true; xattrs = insert k v s.xattrs });
  map_get_val = λ s k. found_or (find k s.omap) (err enoent);
  map_set_val = λ s k v. (ok tt, record s { exists = true; omap = insert k v s.omap });
  stat = λ s. if s.exists then ok (length s.bytes) else err enoent;
  write_at = λ s o n d. (ok tt, record s { exists = true; bytes = take o s.bytes ++ d });
  read_at = λ s o n. if s.exists then ok (take n (drop o s.bytes)) else err enoent;
}

take_all : (xs ys : Text) → take (length xs) (xs ++ ys) ≡ xs
take_all [] ys = refl
take_all (x ∷ xs) ys = ap (λ s. x ∷ s) (take_all xs ys)

take_self : (xs : Text) → take (length xs) xs ≡ xs
take_self [] = refl
take_self (x ∷ xs) = ap (λ s. x ∷ s) (take_self xs)

drop_all : (xs ys : Text) → drop (length xs) (xs ++ ys) ≡ ys
drop_all [] ys = refl
drop_all (x ∷ xs) ys = drop_all xs ys

-- What lies inside a text is not changed by what is appended.
take-append : (n : ℕ) (xs ys : Text) → length (take n xs) ≡ n → take n (xs ++ ys) ≡ take n xs
take-append zero xs ys h = refl
take-append (suc n) [] ys h = absurd (omega arith)
take-append (suc n) (x ∷ xs) ys h = ap (λ s. x ∷ s) (take-append n xs ys (omega (arith, h)))

inside :
    (o n : ℕ) (xs ys : Text)
    → length (take n (drop o xs)) ≡ n
    → take n (drop o (xs ++ ys)) ≡ take n (drop o xs)
inside zero n xs ys h = take-append n xs ys h
inside (suc o) zero [] ys h = refl
inside (suc o) (suc n) [] ys h = absurd (omega arith)
inside (suc o) n (x ∷ xs) ys h = inside o n xs ys h

appended :
    (size : ℕ) (xs d : Text)
    → length xs ≡ size
    → take (length d) (drop size (take size xs ++ d)) ≡ d
appended size xs d h =
    subst (λ n. take (length d) (drop n (take n xs ++ d)) ≡ d) h
      (rw (take_self xs, drop_all xs d) (take_self d))

before :
    (size o n : ℕ) (xs d : Text)
    → length xs ≡ size
    → length (take n (drop o xs)) ≡ n
    → take n (drop o (take size xs ++ d)) ≡ take n (drop o xs)
before size o n xs d h k =
    subst (λ m. take n (drop o (take m xs ++ d)) ≡ take n (drop o xs)) h
      (rw (take_self xs) (inside o n xs d k))

when_there :
    {A : Type 0} (b : Bool) (x : A) (v : A) → (if b then ok x else err enoent) ≡ ok v → x ≡ v
when_there true x v e = ok_inj e
when_there false x v e = cc e

kept_text :
    (b : Bool) (r : Outcome Text) (x : Text) → (if b then r else err enoent) ≡ ok x → r ≡ ok x
kept_text true r x e = e
kept_text false r x e = cc e

is_there :
    (b : Bool) (r : Outcome Text) (v : Text) (n : ℕ)
    → (if b then r else err enoent) ≡ ok v
    → (m : ℕ) × ((if b then ok n else err enoent) ≡ ok m)
is_there true r v n e = (n, refl)
is_there false r v n e = cc e

pub plain_class-Laws : ClassLaws plain_class
plain_class-Laws = record {
  setxattr_ok = λ s k v. refl;
  map_set_ok = λ s k v. refl;
  write_ok = λ s o n d. refl;
  stat_ok =
      λ s k v e. is_there s.exists (found_or (find k s.xattrs) (err enodata)) v (length s.bytes) e;
  getxattr_set = λ s k v. rw (find-insert_self k v s.xattrs) refl;
  getxattr_map_set =
      λ s j w k v e. kept_text s.exists (found_or (find k s.xattrs) (err enodata)) v e;
  getxattr_write =
      λ s o n d k v e. kept_text s.exists (found_or (find k s.xattrs) (err enodata)) v e;
  map_get_set = λ s k v. rw (find-insert_self k v s.omap) refl;
  map_get_set_other = λ s k v j other. rw (find-insert k j v s.omap, other) refl;
  map_get_setxattr = λ s k v j. refl;
  map_get_write = λ s o n d j. refl;
  read_setxattr = λ s k v d o n e. ap ok (when_there s.exists (take n (drop o s.bytes)) d e);
  read_map_set = λ s k v d o n e. ap ok (when_there s.exists (take n (drop o s.bytes)) d e);
  read_appended = λ s size d e some_data.
      ap ok (appended size s.bytes d (when_there s.exists (length s.bytes) size e));
  read_before = λ s size d e o n at was full some_data.
      let same = when_there s.exists (take n (drop o s.bytes)) e was in
      ap ok (
        before size o n s.bytes d (when_there s.exists (length s.bytes) size at)
          (ap length same ∙ full)
        ∙ same);
}

abbrev bit : Bool → ℕ
bit false = 0
bit true = 1

abbrev unbit : ℕ → Bool
unbit zero = false
unbit (suc n) = true

unbit-bit : (b : Bool) → unbit (bit b) ≡ b
unbit-bit true = refl
unbit-bit false = refl

abbrev put_bytes : Option Text → Text
put_bytes none = []
put_bytes (some bytes) = 1 ∷ bytes

abbrev get_bytes : Text → Option Text
get_bytes [] = none
get_bytes (x ∷ bytes) = some bytes

get_bytes-put_bytes : (o : Option Text) → get_bytes (put_bytes o) ≡ o
get_bytes-put_bytes none = refl
get_bytes-put_bytes (some bytes) = refl

abbrev get_entry : Text → Option LogEntryTable
get_entry (i ∷ b ∷ o ∷ n ∷ rest) = some (record {
  invalid = unbit i;
  bytestream = unbit b;
  bytes = get_bytes rest;
  offset = o;
  length = n;
})
get_entry other = none

abbrev get_header : Text → Option LogObjectHeaderTable
get_header (e ∷ b ∷ m ∷ n ∷ t ∷ []) =
    some (record { epoch = e; empty = unbit b; max_pos = m; omap_max_size = n; trim_limit = t })
get_header other = none

abbrev get_head : Text → Option HeadObjectHeaderTable
get_head (e ∷ rest) = some (record { epoch = e; prefix = get_bytes rest })
get_head other = none

abbrev get_number : Text → Option ℕ
get_number (n ∷ []) = some n
get_number other = none

abbrev put_views : List StoredView → Text
put_views [] = []
put_views (v ∷ views) = v.epoch ∷ length v.bytes ∷ (v.bytes ++ put_views views)

-- At most as many views as said.
abbrev get_views : ℕ → Text → Option (List StoredView)
get_views zero s = some []
get_views (suc n) (e ∷ l ∷ rest) = elim (get_views n (drop l rest)) [
  | none ↦ none
  | some views ↦ some (record { epoch = e; bytes = take l rest } ∷ views)
]
get_views (suc n) other = some []

abbrev pub plain_codecs : Codecs
plain_codecs = record {
  log_entry = record {
    encode = λ t. bit t.invalid ∷ bit t.bytestream ∷ t.offset ∷ t.length ∷ put_bytes t.bytes;
    decode = get_entry;
  };
  log_object_header = record {
    encode = λ t. t.epoch ∷ bit t.empty ∷ t.max_pos ∷ t.omap_max_size ∷ t.trim_limit ∷ [];
    decode = get_header;
  };
  head_object_header = record { encode = λ t. t.epoch ∷ put_bytes t.prefix; decode = get_head };
  unique_id = record { encode = λ id. id ∷ []; decode = get_number };
  init_head_op = record { encode = put_bytes; decode = λ s. some (get_bytes s) };
  create_view_op = record {
    encode = λ t. t.epoch ∷ put_bytes t.bytes;
    decode =
        λ s. elim s [ [] ↦ none | e ∷ rest ↦ some (record { epoch = e; bytes = get_bytes rest }) ];
  };
  read_views_op = record {
    encode = λ t. t.epoch ∷ t.max_views ∷ [];
    decode = λ s. elim s [ e ∷ m ∷ [] ↦ some (record { epoch = e; max_views = m }) | other ↦ none ];
  };
  views = record { encode = put_views; decode = λ s. get_views (length s) s };
  read_entry_op = record {
    encode = λ t. t.epoch ∷ t.position ∷ [];
    decode = λ s. elim s [ e ∷ p ∷ [] ↦ some (record { epoch = e; position = p }) | other ↦ none ];
  };
  write_entry_op = record {
    encode = λ t. t.epoch ∷ t.position ∷ put_bytes t.bytes;
    decode = λ s. elim s [
      | e ∷ p ∷ rest ↦ some (record { epoch = e; position = p; bytes = get_bytes rest })
      | other ↦ none
    ];
  };
  invalidate_entry_op = record {
    encode = λ t. t.epoch ∷ t.position ∷ bit t.force ∷ bit t.limit ∷ [];
    decode = λ s. elim s [
      | e ∷ p ∷ f ∷ l ∷ [] ↦
          some (record { epoch = e; position = p; force = unbit f; limit = unbit l })
      | other ↦ none
    ];
  };
  seal_op = record {
    encode = λ t. t.epoch ∷ t.omap_max_size ∷ [];
    decode =
        λ s. elim s [ e ∷ m ∷ [] ↦ some (record { epoch = e; omap_max_size = m }) | other ↦ none ];
  };
  read_max_pos_op = record { encode = λ t. []; decode = λ s. some tt };
  read_max_pos_reply = record {
    encode = λ o. elim o [ none ↦ [] | some p ↦ p ∷ [] ];
    decode = λ s. elim s [ [] ↦ some none | p ∷ rest ↦ some (some p) ];
  };
}

pub plain_codecs-Laws : CodecLaws plain_codecs
plain_codecs-Laws = record {
  log_entry =
      λ t. rw (unbit-bit t.invalid, unbit-bit t.bytestream, get_bytes-put_bytes t.bytes) refl;
  log_object_header = λ t. rw (unbit-bit t.empty) refl;
  head_object_header = λ t. rw (get_bytes-put_bytes t.prefix) refl;
  unique_id = λ id. refl;
  read_views_op = λ t. refl;
  write_entry_op = λ t. rw (get_bytes-put_bytes t.bytes) refl;
  invalidate_entry_op = λ t. rw (unbit-bit t.force, unbit-bit t.limit) refl;
  seal_op = λ t. refl;
  read_entry_op = λ t. refl;
  create_view_op = λ t. rw (get_bytes-put_bytes t.bytes) refl;
}
