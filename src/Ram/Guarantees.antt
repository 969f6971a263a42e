-- ===== src/Ram/Guarantees.antt =====
-- What clients of log objects rely on: reads, write-once positions and seals.
use zlog.Base.{
  ℕ, ◌≡◌, ◌≢◌, refl, sym, subst, ◌∙◌, ◌⊎◌, inl, inr, Bool, false, Option, none, some, List, Text,
  Outcome, ok, err, fault, einval, enoent, espipe, enodata, if◌then◌else◌, ltb, ◌==◌, is_empty,
  arith, Bool-cases, ==_refl,
}
use zlog.Ram.{RamBackend, Object, link, projection, log, find_object, write, read, check_epoch}
use zlog.Ram.Cells.{Cell, unwritten, written, invalid, read_cell, write_cell, read_log-cell}
use zlog.Ram.Spec.{writes, run_log_call, View, absent, foreign, object, view, set_cell, spec}
use zlog.Ram.Refinement.{run_log_call_refines}
use zlog.Ram.Calls.{Call, run}
use zlog.Ram.Lasting.{EachOn}
use zlog.Ram.Holding.{Holds, KeepsCell, StillHolds, Holds-StillHolds, SparesBelow, run-StillHolds}

abbrev pub spec_read : View → ℕ → ℕ → Outcome Text
spec_read absent epoch p = if epoch == 0 then err einval else err enoent
spec_read foreign epoch p = if epoch == 0 then err einval else fault
spec_read (object e l c) epoch p =
    if epoch == 0 then err einval else if ltb epoch e then err espipe else read_cell (c p)

-- The answers to a read at a position that held this content once.
abbrev pub KeptOrTrimmed : Text → Outcome Text → Type 0
KeptOrTrimmed content r = (r ≡ ok content) ⊎ (r ≡ err enodata) ⊎ (r ≡ err espipe) ⊎ (r ≡ err einval)

pub spec_written :
    (content : Text) (epoch p : ℕ) (v : View)
    → (spec false (writes content epoch p) v).0 ≡ ok tt
    → Holds content p (spec false (writes content epoch p) v).1
spec_written content epoch p absent done = ground (arith, done)
spec_written content epoch p foreign done = ground (arith, done)
spec_written content epoch p (object e l c) done = elim (Bool-cases (epoch == 0)) [
  | inl z ↦ ground (arith, z, done)
  | inr z ↦ elim (Bool-cases (ltb epoch e)) [
    | inl t ↦ ground (arith, z, t, done)
    | inr t ↦ rw (z, t) (new (c p) (ground (arith, z, t, done)))
  ]
]
  where
    new :
        (old : Cell)
        → (write_cell content old).0 ≡ ok tt
        → set_cell c p (write_cell content old).1 p ≡ written content
    new unwritten h = rw (==_refl p) refl
    new (written other) h = cc h
    new invalid h = cc h

kept : (content : Text) (c : Cell) → KeepsCell content c → KeptOrTrimmed content (read_cell c)
kept content c (inl e) = rw e (inl refl)
kept content c (inr e) = rw e (inr (inl refl))

pub StillHolds-read :
    (content : Text) (p : ℕ) (v : View)
    → StillHolds content p v
    → (epoch : ℕ) → KeptOrTrimmed content (spec_read v epoch p)
StillHolds-read content p absent h epoch = elim h [ ]
StillHolds-read content p foreign h epoch = elim h [ ]
StillHolds-read content p (object e l c) h epoch = elim (Bool-cases (epoch == 0)) [
  | inl z ↦ rw z (inr (inr (inr refl)))
  | inr z ↦ elim (Bool-cases (ltb epoch e)) [
    | inl t ↦ rw (z, t) (inr (inr (inl refl)))
    | inr t ↦ rw (z, t) (kept content (c p) h)
  ]
]

taken : (content other : Text) (c : Cell) → KeepsCell content c → (write_cell other c).0 ≢ ok tt
taken content other c (inl e) done = cc (subst (λ c. (write_cell other c).0 ≡ ok tt) e done)
taken content other c (inr e) done = cc (subst (λ c. (write_cell other c).0 ≡ ok tt) e done)

StillHolds-write :
    (content : Text) (p : ℕ) (v : View)
    → StillHolds content p v
    → (blackhole : Bool) (other : Text) (epoch : ℕ)
    → (spec blackhole (writes other epoch p) v).0 ≢ ok tt
StillHolds-write content p absent h blackhole other epoch done = elim h [ ]
StillHolds-write content p foreign h blackhole other epoch done = elim h [ ]
StillHolds-write content p (object e l c) h blackhole other epoch done =
    elim (Bool-cases (epoch == 0)) [
      | inl z ↦ ground (arith, z, done)
      | inr z ↦ elim (Bool-cases (ltb epoch e)) [
        | inl t ↦ ground (arith, z, t, done)
        | inr t ↦ taken content other (c p) h (ground (arith, z, t, done))
      ]
    ]

module _ (b : RamBackend) (oid : Text) (named : is_empty oid ≡ false) where
  -- A read answers from the object's view: what the cell holds, unless the epoch is too old.
  pub read_refines : (epoch p : ℕ) → read b oid epoch p ≡ spec_read (view b oid) epoch p
  read_refines epoch p = go (find_object b oid) refl
    where
      go :
          (r : Option Object)
          → find_object b oid ≡ r
          → read b oid epoch p ≡ spec_read (view b oid) epoch p
      go none e = unfold read check_epoch view in rw (named, e) (ground arith)
      go (some (link h)) e = unfold read check_epoch view in rw (named, e) (ground arith)
      go (some (projection h)) e = unfold read check_epoch view in rw (named, e) (ground arith)
      go (some (log o)) e =
          unfold read check_epoch view in rw (named, e) (ground (arith, read_log-cell o p))

module _ (b : RamBackend) (oid : Text) (named : is_empty oid ≡ false) where
  module _ (content : Text) (epoch p : ℕ) (stores : b.blackhole ≡ false)
      (done : (write b oid content epoch p).0 ≡ ok tt) where
    -- A write that succeeds leaves its content in its cell.
    pub write-Holds : Holds content p (view (write b oid content epoch p).1 oid)
    unfolding run_log_call
    write-Holds =
        let w = run_log_call_refines b oid named (writes content epoch p) in
        let ran =
          subst (λ h. (spec h (writes content epoch p) (view b oid)).0 ≡ ok tt) stores
            (sym w.0 ∙ done) in
        subst (Holds content p) (sym w.1) (
          subst (λ h. Holds content p (spec h (writes content epoch p) (view b oid)).1) (sym stores)
            (spec_written content epoch p (view b oid) ran))

    module _ (sequence : List Call) (spares : EachOn oid (SparesBelow p) sequence) where
      still : StillHolds content p (view (run (write b oid content epoch p).1 sequence) oid)
      still =
          run-StillHolds content p oid sequence (write b oid content epoch p).1 spares
            (Holds-StillHolds content p _ write-Holds)

      -- Once a write has succeeded on a backend that keeps contents, then after any calls of any
      -- clients, on this object and on others, a read at its position returns its content or says
      -- that it is trimmed, that the reader's epoch is too old or that it is none, if no call trims
      -- this object to the full for a position below.
      pub write_stays :
          (reader : ℕ)
          → KeptOrTrimmed content (read (run (write b oid content epoch p).1 sequence) oid reader p)
      write_stays reader =
          subst (KeptOrTrimmed content)
            (sym (read_refines (run (write b oid content epoch p).1 sequence) oid named reader p))
            (StillHolds-read content p _ still reader)

      -- Once a write has succeeded on a backend that keeps contents, then after any calls of any
      -- clients, on this object and on others, no write at its position succeeds, if no call trims
      -- this object to the full for a position below.
      pub write_once :
          (other : Text) (writer : ℕ)
          → (write (run (write b oid content epoch p).1 sequence) oid other writer p).0 ≢ ok tt
      unfolding run_log_call
      write_once other writer again =
          StillHolds-write content p _ still
            (run (write b oid content epoch p).1 sequence).blackhole other writer
            (sym
                (run_log_call_refines (run (write b oid content epoch p).1 sequence) oid named
                  (writes other writer p)).0
              ∙ again)
