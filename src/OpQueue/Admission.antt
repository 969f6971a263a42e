-- ===== src/OpQueue/Admission.antt =====
-- How many operations src/libzlog/log_impl.cc lets in.
use zlog.Base.{
  ℕ, zero, suc, ◌+◌, ◌-◌, ◌≤◌, ◌<◌, ◌≡◌, refl, sym, ap, subst, ◌∙◌, Bool, true, false, ◌&&◌, not,
  Option, none, some, List, [], ◌∷◌, ◌++◌, leb, ltb, add32, add32_lem, u32_mod, length, arith,
  Bool-cases, inl, inr, ◌⊎◌, Option-cases, length-append,
}
use zlog.OpQueue.{
  OpQueue, Event, queues, wakes, takes, finishes, shuts_down, step, run, start, admit, queue_op,
  take_released, wake, take_op, remove_at, release, finish_op,
}

unfoldable all_wait : List (Bool × ℕ) → Bool
all_wait [] = true
all_wait ((released, _) ∷ waiters) = not released && all_wait waiters

-- Only the oldest waiter can be released.
unfoldable rest_wait : List (Bool × ℕ) → Bool
unfolding all_wait
rest_wait [] = true
rest_wait (_ ∷ waiters) = all_wait waiters

unfoldable credit : List (Bool × ℕ) → ℕ
credit [] = 0
credit ((true, _) ∷ _) = 1
credit ((false, _) ∷ _) = 0

record IsAdmitted (max_ops : ℕ) (q : OpQueue) : Type 0 where
  pub limit : q.max_inflight_ops ≡ max_ops
  pub rest : rest_wait q.queue_op_waiters ≡ true
  pub bounded : q.num_inflight_ops + credit q.queue_op_waiters ≤ suc max_ops
  pub counted : q.num_inflight_ops ≡ length q.pending_ops + length q.running

all_wait-push : (w : List (Bool × ℕ)) (op : ℕ) → all_wait (w ++ (false, op) ∷ []) ≡ all_wait w
unfolding all_wait
all_wait-push [] op = refl
all_wait-push ((b, o) ∷ w) op = ap (λ t. not b && t) (all_wait-push w op)

rest_wait-push :
    (w : List (Bool × ℕ)) (op : ℕ) → rest_wait w ≡ true → rest_wait (w ++ (false, op) ∷ []) ≡ true
unfolding rest_wait all_wait
rest_wait-push [] op h = refl
rest_wait-push (_ ∷ w) op h = cc (all_wait-push w op, h)

credit-push : (w : List (Bool × ℕ)) (op : ℕ) → credit (w ++ (false, op) ∷ []) ≡ credit w
unfolding credit
credit-push [] op = refl
credit-push ((true, _) ∷ _) op = refl
credit-push ((false, _) ∷ _) op = refl

credit_le : (w : List (Bool × ℕ)) → credit w ≤ 1
unfolding credit
credit_le [] = omega arith
credit_le ((true, _) ∷ _) = omega arith
credit_le ((false, _) ∷ _) = omega arith

all_wait-take : (w : List (Bool × ℕ)) → all_wait w ≡ true → take_released w ≡ none
unfolding all_wait take_released
all_wait-take [] h = refl
all_wait-take ((true, _) ∷ w) h = ground (arith, h)
all_wait-take ((false, op) ∷ w) h = rw (all_wait-take w h) refl

all_wait-credit : (w : List (Bool × ℕ)) → all_wait w ≡ true → credit w ≡ 0
unfolding all_wait credit
all_wait-credit [] h = refl
all_wait-credit ((true, _) ∷ w) h = ground (arith, h)
all_wait-credit ((false, op) ∷ w) h = refl

all_wait-rest : (w : List (Bool × ℕ)) → all_wait w ≡ true → rest_wait w ≡ true
unfolding all_wait rest_wait
all_wait-rest [] h = refl
all_wait-rest ((true, _) ∷ w) h = ground (arith, h)
all_wait-rest ((false, op) ∷ w) h = h

-- The waiter that wakes is the oldest.
take_released-rest :
    (w : List (Bool × ℕ)) (r : ℕ × List (Bool × ℕ))
    → rest_wait w ≡ true
    → take_released w ≡ some r
    → (w ≡ (true, r.0) ∷ r.1) × (all_wait r.1 ≡ true)
unfolding rest_wait take_released
take_released-rest [] r h t = ground (arith, t)
take_released-rest ((true, op) ∷ w) r h t = ground (arith, h, t)
take_released-rest ((false, op) ∷ w) r h t = ground (arith, t, all_wait-take w h)

rest_wait-release : (w : List (Bool × ℕ)) → rest_wait w ≡ true → rest_wait (release w) ≡ true
unfolding rest_wait release
rest_wait-release [] h = refl
rest_wait-release ((_, _) ∷ w) h = h

credit-release : (w : List (Bool × ℕ)) → credit (release w) ≤ 1
credit-release w = credit_le (release w)

length-remove_at :
    {A : Type 0} → (n : ℕ) (xs r : List A) → remove_at n xs ≡ some r → length xs ≡ suc (length r)
unfolding remove_at
length-remove_at n [] r h = ground (arith, h)
length-remove_at zero (_ ∷ xs) r h = ground (arith, h)
length-remove_at (suc n) (x ∷ xs) r h = elim (Option-cases (remove_at n xs)) [
  | inl t ↦ ground (arith, h, t)
  | inr (s, t) ↦ ground (arith, h, t, length-remove_at n xs s t)
]

admit-IsAdmitted :
    (m : ℕ) (q : OpQueue) (w : List (Bool × ℕ)) (op : ℕ)
    → suc m < u32_mod
    → q.max_inflight_ops ≡ m
    → rest_wait w ≡ true
    → q.num_inflight_ops + credit w ≤ m
    → q.num_inflight_ops ≡ length q.pending_ops + length q.running
    → IsAdmitted m (admit (record q { queue_op_waiters = w }) op)
unfolding admit
admit-IsAdmitted m q w op small limit rest bounded counted = record {
  limit = limit;
  rest = rest;
  bounded = omega (arith, bounded, one);
  counted = omega (arith, counted, one, length-append q.pending_ops (op ∷ []));
}
  where
    one : add32 q.num_inflight_ops 1 ≡ suc q.num_inflight_ops
    one = add32_lem q.num_inflight_ops 1 (omega (arith, bounded, small)) ∙ omega arith

some_inj : {x y : OpQueue} → some x ≡ some y → x ≡ y
some_inj h = cc h

-- A step's result has what holds of the state that it computes.
reached :
    (m : ℕ) (o : Option OpQueue) (found next : OpQueue)
    → o ≡ some found
    → o ≡ some next
    → IsAdmitted m found
    → IsAdmitted m next
reached m o found next f h s = subst (IsAdmitted m) (some_inj (sym f ∙ h)) s

queue_op-IsAdmitted :
    (m : ℕ) (q : OpQueue) (op : ℕ) → suc m < u32_mod → IsAdmitted m q → IsAdmitted m (queue_op q op)
unfolding queue_op
queue_op-IsAdmitted m q op small s = elim (Bool-cases (leb q.max_inflight_ops q.num_inflight_ops)) [
  | inl full ↦ rw full (record {
    limit = s.limit;
    rest = rest_wait-push q.queue_op_waiters op s.rest;
    bounded = omega (arith, s.bounded, credit-push q.queue_op_waiters op);
    counted = s.counted;
  })
  | inr room ↦
      let less : q.num_inflight_ops < m = ground (arith, room, s.limit) in
      rw room (
        admit-IsAdmitted m q q.queue_op_waiters op small s.limit s.rest
          (omega (arith, less, credit_le q.queue_op_waiters)) s.counted)
]

wake-IsAdmitted :
    (m : ℕ) (q next : OpQueue)
    → suc m < u32_mod
    → IsAdmitted m q
    → wake q ≡ some next
    → IsAdmitted m next
unfolding wake credit
wake-IsAdmitted m q next small s h = elim (Option-cases (take_released q.queue_op_waiters)) [
  | inl t ↦ ground (arith, h, t)
  | inr (r, t) ↦
      let front = take_released-rest q.queue_op_waiters r s.rest t in
      let new : IsAdmitted m (admit (record q { queue_op_waiters = r.1 }) r.0) =
        admit-IsAdmitted m q r.1 r.0 small s.limit (all_wait-rest r.1 front.1) (waking r front)
          s.counted in
      reached m (wake q) (admit (record q { queue_op_waiters = r.1 }) r.0) next (rw (wake, t) refl)
        h new
]
  where
    waking :
        (r : ℕ × List (Bool × ℕ))
        → (q.queue_op_waiters ≡ (true, r.0) ∷ r.1) × (all_wait r.1 ≡ true)
        → q.num_inflight_ops + credit r.1 ≤ m
    waking r front =
        let one : credit q.queue_op_waiters ≡ 1 = ap credit front.0 in
        omega (arith, one, s.bounded, all_wait-credit r.1 front.1)

List-cases : (xs : List ℕ) → (xs ≡ []) ⊎ ((x : ℕ) × (rest : List ℕ) × (xs ≡ x ∷ rest))
List-cases [] = inl refl
List-cases (x ∷ xs) = inr (x, xs, refl)

take_op-IsAdmitted :
    (m : ℕ) (q next : OpQueue) → IsAdmitted m q → take_op q ≡ some next → IsAdmitted m next
unfolding take_op
take_op-IsAdmitted m q next s h = elim (List-cases q.pending_ops) [
  | inl t ↦ ground (arith, h, t)
  | inr (op, ops, t) ↦
      reached m (take_op q)
        (record q { pending_ops = ops; running = q.running ++ (op, q.shutdown) ∷ [] }) next
        (rw t refl) h
        (record {
          limit = s.limit;
          rest = s.rest;
          bounded = s.bounded;
          counted =
              let size : length q.pending_ops ≡ suc (length ops) = ap length t ∙ refl in
              omega (arith, s.counted, size, length-append q.running ((op, q.shutdown) ∷ []));
        })
]

finish_op-IsAdmitted :
    (m : ℕ) (q next : OpQueue) (n : ℕ)
    → IsAdmitted m q
    → finish_op q n ≡ some next
    → IsAdmitted m next × (0 < q.num_inflight_ops)
unfolding finish_op
finish_op-IsAdmitted m q next n s h = elim (Option-cases (remove_at n q.running)) [
  | inl t ↦ ground (arith, h, t)
  | inr (r, t) ↦
      let counts = length-remove_at n q.running r t in
      (
        reached m (finish_op q n)
            (record q {
              running = r;
              num_inflight_ops = q.num_inflight_ops - 1;
              queue_op_waiters = release q.queue_op_waiters;
            })
            next (rw (finish_op, t, positive r t) refl) h
            (record {
              limit = s.limit;
              rest = rest_wait-release q.queue_op_waiters s.rest;
              bounded =
                  omega (arith, s.bounded, s.counted, counts, credit-release q.queue_op_waiters);
              counted = omega (arith, s.counted, counts);
            }),
        omega (arith, s.counted, counts),
      )
]
  where
    positive :
        (r : List (ℕ × Bool)) → remove_at n q.running ≡ some r → ltb 0 q.num_inflight_ops ≡ true
    positive r t = ground (arith, s.counted, length-remove_at n q.running r t)

step-IsAdmitted :
    (m : ℕ) (q next : OpQueue) (e : Event)
    → suc m < u32_mod
    → IsAdmitted m q
    → step q e ≡ some next
    → IsAdmitted m next
unfolding step
step-IsAdmitted m q next (queues op) small s h =
    subst (IsAdmitted m) (some_inj h) (queue_op-IsAdmitted m q op small s)
step-IsAdmitted m q next wakes small s h = wake-IsAdmitted m q next small s h
step-IsAdmitted m q next takes small s h = take_op-IsAdmitted m q next s h
step-IsAdmitted m q next (finishes n) small s h = (finish_op-IsAdmitted m q next n s h).0
step-IsAdmitted m q next shuts_down small s h =
    subst (IsAdmitted m) (some_inj h)
      (record { limit = s.limit; rest = s.rest; bounded = s.bounded; counted = s.counted })

run-IsAdmitted :
    (m : ℕ) (q next : OpQueue) (es : List Event)
    → suc m < u32_mod
    → IsAdmitted m q
    → run q es ≡ some next
    → IsAdmitted m next
unfolding run
run-IsAdmitted m q next [] small s h = subst (IsAdmitted m) (some_inj h) s
run-IsAdmitted m q next (e ∷ es) small s h = elim (Option-cases (step q e)) [
  | inl t ↦ ground (arith, h, t)
  | inr (p, t) ↦
      run-IsAdmitted m p next es small (step-IsAdmitted m q p e small s t) (cc (after p t, h))
]
  where
    after : (p : OpQueue) → step q e ≡ some p → run q (e ∷ es) ≡ run p es
    after p t = rw (run, t) refl

start-IsAdmitted : (m : ℕ) → IsAdmitted m (start m)
unfolding rest_wait credit
start-IsAdmitted m = record { limit = refl; rest = refl; bounded = omega arith; counted = refl }

-- If one more than `max_inflight_ops` is less than 2 ^ 32, then however clients, waiters and
-- finishers are ordered, the operations that are counted are those
-- that are pending or running, and they are at most one more than `max_inflight_ops`.
pub num_inflight_ops_lem :
    (max_ops : ℕ) (events : List Event) (q : OpQueue)
    → suc max_ops < u32_mod
    → run (start max_ops) events ≡ some q
    → (q.num_inflight_ops ≤ suc max_ops)
      × (q.num_inflight_ops ≡ length q.pending_ops + length q.running)
num_inflight_ops_lem m events q small h =
    let s = run-IsAdmitted m (start m) q events small (start-IsAdmitted m) h in
    (omega (arith, s.bounded), s.counted)
