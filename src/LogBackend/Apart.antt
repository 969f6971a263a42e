-- ===== src/LogBackend/Apart.antt =====
-- The objects of a log, and those of different logs, do not meet: src/libzlog/log_backend.h over the
-- in-memory backend.
use zlog.Base.{
  ◌≡◌, ◌≢◌, ◌⊎◌, inl, inr, refl, true, false, [], ◌∷◌, ◌++◌, Text, is_empty, length, text_eq,
  text_eq_iff, arith, Bool-cases,
}
use zlog.Ram.{RamBackend, find_object}
use zlog.Ram.Spec.{LogCall, writes, fills, trims, seals, run_log_call}
use zlog.Ram.Calls.{run_log_call_other}
use zlog.LogBackend.{LogBackend, prefixed_oid, ram_backend, log_call}

-- Two names that are one have the same parts, if their prefixes have one length.
append_inj :
    (p q a b : Text) → length p ≡ length q → p ++ (b'.' ∷ a) ≡ q ++ (b'.' ∷ b) → (p ≡ q) × (a ≡ b)
append_inj [] [] a b h e = (refl, cc e)
append_inj [] (y ∷ q) a b h e = ground (arith, h)
append_inj (x ∷ p) [] a b h e = ground (arith, h)
append_inj (x ∷ p) (y ∷ q) a b h e =
    let rest : p ++ (b'.' ∷ a) ≡ q ++ (b'.' ∷ b) = cc e in
    let head : x ≡ y = cc e in
    let tail = append_inj p q a b (omega (arith, h)) rest in (cc (head, tail.0), tail.1)

pub prefixed-named : (p : Text) (a : Text) → is_empty (p ++ (b'.' ∷ a)) ≡ false
prefixed-named [] a = refl
prefixed-named (x ∷ p) a = refl

pub prefixed_oid-named : (l : LogBackend) (oid : Text) → is_empty (prefixed_oid l oid) ≡ false
unfolding prefixed_oid
prefixed_oid-named l oid = prefixed-named l.prefix oid

log_call_run :
    (b : RamBackend) (l : LogBackend) (oid : Text) (call : LogCall)
    → log_call ram_backend b l oid call ≡ run_log_call b (prefixed_oid l oid) call
unfolding log_call run_log_call
log_call_run b l oid (writes content epoch position) = refl
log_call_run b l oid (fills epoch position) = refl
log_call_run b l oid (trims epoch position limit full) = refl
log_call_run b l oid (seals epoch) = refl

-- A call on one object of a log changes no other object of the log, and none of a log with another
-- prefix of the same length.
pub log_call_apart :
    (b : RamBackend) (l m : LogBackend) (oid other : Text) (call : LogCall)
    → length l.prefix ≡ length m.prefix
    → (l.prefix ≢ m.prefix) ⊎ (oid ≢ other)
    → find_object (log_call ram_backend b l oid call).1 (prefixed_oid m other)
      ≡ find_object b (prefixed_oid m other)
unfolding prefixed_oid
log_call_apart b l m oid other call same apart =
    rw (log_call_run b l oid call)
      (run_log_call_other b (prefixed_oid l oid) (prefixed_oid m other) different call)
  where
    meet : text_eq (prefixed_oid l oid) (prefixed_oid m other) ≡ true → ⊥
    meet e =
        let parts =
          append_inj l.prefix m.prefix oid other same
            ((text_eq_iff (prefixed_oid l oid) (prefixed_oid m other)).0 e) in
        elim apart [ inl p ↦ p parts.0 | inr o ↦ o parts.1 ]

    different : text_eq (prefixed_oid l oid) (prefixed_oid m other) ≡ false
    different = elim (Bool-cases (text_eq (prefixed_oid l oid) (prefixed_oid m other))) [
      | inl e ↦ elim (meet e) [ ]
      | inr e ↦ e
    ]
