-- ===== src/View/Plain.antt =====
-- A plain form of the tables of src/libzlog/zlog.fbs, for the tests.
use zlog.Base.{ℕ, zero, suc, ◌≡◌, refl, Option, none, some, List, [], ◌∷◌, Text, length}
use zlog.View.{ViewTable, ObjectMapTable, StripeTable, SequencerTable}

-- A concrete form of the tables: their fields in a row, a list behind its length.
put_stripes : List StripeTable → Text → Text
put_stripes [] rest = rest
put_stripes (t ∷ ts) rest =
    t.base_id
    ∷ t.width
    ∷ t.slots
    ∷ t.instances
    ∷ t.min_position
    ∷ t.max_position
    ∷ put_stripes ts rest

get_stripes : ℕ → Text → Option (List StripeTable × Text)
get_stripes zero s = some ([], s)
get_stripes (suc n) (a ∷ b ∷ c ∷ d ∷ e ∷ f ∷ s) = elim (get_stripes n s) [
  | none ↦ none
  | some r ↦ some (
    record { base_id = a; width = b; slots = c; instances = d; min_position = e; max_position = f }
        ∷ r.0,
    r.1,
  )
]
get_stripes (suc n) s = none

get-put_stripes :
    (ts : List StripeTable) (rest : Text)
    → get_stripes (length ts) (put_stripes ts rest) ≡ some (ts, rest)
unfolding get_stripes put_stripes
get-put_stripes [] rest = refl
get-put_stripes (t ∷ ts) rest = rw (get-put_stripes ts rest) refl

put_stripe_list : Option (List StripeTable) → Text → Text
put_stripe_list none rest = 0 ∷ rest
put_stripe_list (some ts) rest = 1 ∷ length ts ∷ put_stripes ts rest

get_stripe_list : Text → Option (Option (List StripeTable) × Text)
get_stripe_list (zero ∷ s) = some (none, s)
get_stripe_list (suc k ∷ n ∷ s) = elim (get_stripes n s) [
  | none ↦ none
  | some r ↦ some (some r.0, r.1)
]
get_stripe_list s = none

get-put_stripe_list :
    (ts : Option (List StripeTable)) (rest : Text)
    → get_stripe_list (put_stripe_list ts rest) ≡ some (ts, rest)
unfolding get_stripe_list put_stripe_list
get-put_stripe_list none rest = refl
get-put_stripe_list (some ts) rest = rw (get_stripe_list, get-put_stripes ts rest) refl

put_object_map : Option ObjectMapTable → Text → Text
unfolding put_stripe_list
put_object_map none rest = 0 ∷ rest
put_object_map (some t) rest =
    1 ∷ t.next_stripe_id ∷ t.min_valid_position ∷ put_stripe_list t.stripes rest

get_object_map : Text → Option (Option ObjectMapTable × Text)
unfolding get_stripe_list
get_object_map (zero ∷ s) = some (none, s)
get_object_map (suc k ∷ next ∷ min_valid ∷ s) = elim (get_stripe_list s) [
  | none ↦ none
  | some r ↦
      some (
        some (record { next_stripe_id = next; stripes = r.0; min_valid_position = min_valid }),
        r.1,
      )
]
get_object_map s = none

get-put_object_map :
    (t : Option ObjectMapTable) (rest : Text)
    → get_object_map (put_object_map t rest) ≡ some (t, rest)
unfolding get_object_map put_object_map
get-put_object_map none rest = refl
get-put_object_map (some t) rest = rw (get_object_map, get-put_stripe_list t.stripes rest) refl

put_token : Option Text → Text
put_token none = []
put_token (some token) = 1 ∷ token

get_token : Text → Option Text
get_token [] = none
get_token (k ∷ token) = some token

get-put_token : (token : Option Text) → get_token (put_token token) ≡ token
unfolding get_token put_token
get-put_token none = refl
get-put_token (some token) = refl

put_sequencer : Option SequencerTable → Text
put_sequencer none = []
put_sequencer (some t) = t.epoch ∷ t.position ∷ put_token t.token

get_sequencer : Text → Option SequencerTable
get_sequencer (epoch ∷ position ∷ token) =
    some (record { epoch = epoch; token = get_token token; position = position })
get_sequencer s = none

get-put_sequencer : (t : Option SequencerTable) → get_sequencer (put_sequencer t) ≡ t
unfolding get_sequencer put_sequencer
get-put_sequencer none = refl
get-put_sequencer (some t) = rw (get-put_token t.token) refl

unfoldable pub put_table : ViewTable → Text
unfolding put_object_map put_stripe_list put_stripes put_sequencer put_token
put_table t = put_object_map t.object_map (put_sequencer t.sequencer)

unfoldable pub get_table : Text → Option ViewTable
unfolding get_object_map get_stripe_list get_stripes get_sequencer get_token
get_table s = elim (get_object_map s) [
  | none ↦ none
  | some r ↦ some (record { object_map = r.0; sequencer = get_sequencer r.1 })
]

pub get_table-put_table : (t : ViewTable) → get_table (put_table t) ≡ some t
unfolding get_table put_table
get_table-put_table t =
    rw
      (
        get_table,
        get-put_object_map t.object_map (put_sequencer t.sequencer),
        get-put_sequencer t.sequencer,
      )
      refl
