-- ===== src/Ram/Tests.antt =====
-- The in-memory backend of src/storage/ram/ram.cc on small runs.
use zlog.Base.{
  text_eq, text_eq_iff, ℕ, ◌+◌, ◌≡◌, ◌≢◌, ◌≤◌, ◌<◌, ◌⊎◌, inl, inr, refl, Bool, true, false, Option,
  none, some, List, [], ◌∷◌, Text, codes, Outcome, ok, err, fault, einval, enoent, espipe, enodata,
  erange, erofs, eexist, arith, is_empty, ◌++◌,
}
use zlog.Ram.{
  RamBackend, Object, link, projection, log, LogObject, find_object, put_object, write, seal, read,
  max_pos,
}
use zlog.Ram.Head.{create_log, open_log, propose_view, read_views, first_view}
use zlog.Ram.Cells.{cell, unwritten}
use zlog.Ram.Spec.{writes, trims, seals, run_log_call, view, spec}
use zlog.Ram.Refinement.{run_log_call_refines}
use zlog.Ram.Order.{Later, UsedWithin}
use zlog.Ram.Calls.{Call, calls, creates, links, proposes, run, KeepsTo}
use zlog.Ram.History.{run_forward}
use zlog.Ram.Lasting.{EachOn}
use zlog.Ram.Holding.{SparesBelow}
use zlog.Ram.Guarantees.{read_refines, spec_read, KeptOrTrimmed, write_stays, write_once}
use zlog.Ram.Sealing.{IsRefused, seal_fences, seal_fences_reads}
use zlog.Ram.Views.{spec_views, spec_propose}
use zlog.Ram.Heads.{
  HasViews, ProposeAgrees, propose_view_lem, read_views_lem, create_log_opens, create_log_taken,
}
use zlog.Ram.Consensus.{Longer, run-Longer, propose_once}
use zlog.Ram.Bounds.{AllBounded, run-AllBounded}
use zlog.Ram.Maximum.{max_pos_covers}

abbrev fresh : RamBackend
fresh = record { blackhole = false; options = []; objects = []; unique_id = 0 }

abbrev oid : Text
oid = codes "d.0.7"

-- The object is sealed at epoch 2.
abbrev sealed : RamBackend
sealed = (seal fresh oid 2).1

-- A second client that is behind writes to it, seals it again, and trims it.
abbrev others : List Call
others =
    calls oid (writes (codes "b") 1 7)
    ∷ calls oid (seals 3)
    ∷ calls oid (trims 3 7 false false)
    ∷ []

abbrev up_to_7 : Text → ℕ
up_to_7 other = 7

sealed-UsedWithin : UsedWithin 7 (view sealed oid)
unfolding view find_object seal zlog.Base.text_eq cell
sealed-UsedWithin q over = inl refl

others-KeepsTo : KeepsTo up_to_7 others
others-KeepsTo = (omega arith, (tt, (omega arith, tt)))

-- Others that also trim the object, and another object, to the full.
abbrev trimmers : List Call
trimmers =
    calls oid (trims 3 4 true false)
    ∷ calls oid (trims 3 7 true true)
    ∷ creates (codes "v1") (codes "key")
    ∷ calls (codes "d.0.8") (trims 3 1 true true)
    ∷ others

trimmers_spare : EachOn oid (SparesBelow 7) trimmers
unfolding text_eq
trimmers_spare = (
  λ same. tt,
  (
    λ same. omega arith,
    (
      λ same. absurd (cc ((text_eq_iff (codes "d.0.8") oid).1 same)),
      (λ same. tt, (λ same. tt, (λ same. tt, tt))),
    ),
  ),
)

sealed_stores : sealed.blackhole ≡ false
unfolding seal
sealed_stores = refl

write_7 : (write sealed oid (codes "a") 2 7).0 ≡ ok tt
unfolding write seal zlog.Base.text_eq
write_7 = refl

run_log_call_refines_example :
    ((run_log_call sealed oid (writes (codes "a") 2 7)).0
      ≡ (spec false (writes (codes "a") 2 7) (view sealed oid)).0)
    × (view (run_log_call sealed oid (writes (codes "a") 2 7)).1 oid
        ≡ (spec false (writes (codes "a") 2 7) (view sealed oid)).1)
unfolding seal
run_log_call_refines_example = run_log_call_refines sealed oid refl (writes (codes "a") 2 7)

read_refines_example : read sealed oid 2 7 ≡ spec_read (view sealed oid) 2 7
read_refines_example = read_refines sealed oid refl 2 7

run_forward_example :
    Later (view sealed oid) (view (run sealed others) oid)
    × UsedWithin 7 (view (run sealed others) oid)
run_forward_example = run_forward up_to_7 oid others sealed others-KeepsTo sealed-UsedWithin

write_stays_example :
    KeptOrTrimmed (codes "a") (read (run (write sealed oid (codes "a") 2 7).1 trimmers) oid 3 7)
write_stays_example =
    write_stays sealed oid refl (codes "a") 2 7 sealed_stores write_7 trimmers trimmers_spare 3

write_once_example :
    (write (run (write sealed oid (codes "a") 2 7).1 trimmers) oid (codes "c") 3 7).0 ≢ ok tt
write_once_example =
    write_once sealed oid refl (codes "a") 2 7 sealed_stores write_7 trimmers trimmers_spare
      (codes "c") 3

seals_fresh : (seal fresh oid 2).0 ≡ ok tt
unfolding seal
seals_fresh = refl

seal_fences_example : IsRefused (run sealed trimmers) oid (writes (codes "late") 1 8)
seal_fences_example =
    seal_fences fresh oid refl 2 seals_fresh trimmers (writes (codes "late") 1 8)
      (omega arith, omega arith)

seal_fences_reads_example : read (run sealed trimmers) oid 1 7 ≡ err espipe
seal_fences_reads_example =
    seal_fences_reads fresh oid refl 2 seals_fresh trimmers 1 7 (omega arith) (omega arith)

-- A log with one view.
abbrev created : RamBackend
created = (create_log fresh (codes "mylog") (codes "v1") (codes "key")).1

abbrev hoid : Text
hoid = codes "zlog.head.key"

created-HasViews : HasViews created hoid (codes "v1" ∷ [])
unfolding find_object create_log zlog.Base.text_eq
created-HasViews = (first_view (codes "zlog.data.key") (codes "v1"), refl, (refl, refl))

create_log_opens_example :
    ((create_log fresh (codes "mylog") (codes "v1") (codes "key")).0
      ≡ ok (hoid, codes "zlog.data.key"))
    × (open_log created (codes "mylog")
        ≡ (create_log fresh (codes "mylog") (codes "v1") (codes "key")).0)
    × HasViews created hoid (codes "v1" ∷ [])
unfolding find_object
create_log_opens_example =
    create_log_opens fresh (codes "mylog") (codes "v1") (codes "key") refl refl refl

create_log_taken_example : create_log created (codes "mylog") (codes "v1") (codes "key2") ≡ (
  err eexist,
  put_object created
      (codes "zlog.head.key2")
      (projection (first_view (codes "zlog.data.key2") (codes "v1"))),
)
unfolding find_object create_log zlog.Base.text_eq
create_log_taken_example =
    create_log_taken created (codes "mylog") (codes "v1") (codes "key2") refl refl (link hoid) refl

propose_view_lem_example :
    ProposeAgrees created hoid
      (codes "v1" ∷ [])
      (propose_view created hoid 2 (codes "v2"))
      (spec_propose 2 (codes "v1" ∷ []) (codes "v2"))
propose_view_lem_example =
    propose_view_lem created hoid refl (codes "v1" ∷ []) created-HasViews 2 (codes "v2")
      (omega arith) (omega arith)

read_views_lem_example : read_views created hoid 1 20 ≡ ok (spec_views 1 20 (codes "v1" ∷ []))
read_views_lem_example =
    read_views_lem created hoid refl (codes "v1" ∷ []) created-HasViews 1 20 (omega arith)

abbrev proposals : List Call
proposals =
    proposes hoid 2 (codes "x")
    ∷ proposes hoid 3 (codes "y")
    ∷ creates (codes "v") (codes "k")
    ∷ links (codes "mylog") hoid (codes "p")
    ∷ []

run-Longer_example : Longer (run created proposals) hoid (codes "v1" ∷ []) 4
run-Longer_example =
    run-Longer proposals created hoid (codes "v1" ∷ []) created-HasViews (omega arith)

propose_2 : (propose_view created hoid 2 (codes "v2")).0 ≡ ok tt
unfolding propose_view create_log zlog.Base.text_eq zlog.Base.OrdMap.find
propose_2 = refl

propose_once_example :
    (propose_view
      (run (propose_view created hoid 2 (codes "v2")).1 proposals)
      hoid
      2
      (codes "other")).0
    ≡ err espipe
propose_once_example =
    propose_once created hoid (codes "v1" ∷ []) refl created-HasViews 2 (codes "v2") (omega arith)
      propose_2 proposals (omega arith) (codes "other")

nothing_found : (other : Text) (x : Object) → find_object fresh other ≡ some x → ⊥
unfolding find_object
nothing_found other x found = cc found

fresh-AllBounded : AllBounded fresh
fresh-AllBounded other x found = elim (nothing_found other x found) [ ]

run-AllBounded_example :
    AllBounded (run fresh (calls oid (seals 1) ∷ calls oid (writes (codes "a") 1 7) ∷ []))
run-AllBounded_example =
    run-AllBounded (calls oid (seals 1) ∷ calls oid (writes (codes "a") 1 7) ∷ []) fresh
      fresh-AllBounded

-- The object after a write at position 7.
abbrev entry_7 : LogObject
entry_7 = record {
  epoch = 2;
  maxpos = 7;
  entries = (7, record { trimmed = false; invalidated = false; content = codes "a" }) ∷ [];
  trim_limit = none;
}

abbrev after_write : RamBackend
after_write = run fresh (calls oid (seals 2) ∷ calls oid (writes (codes "a") 2 7) ∷ [])

finds_entry_7 : find_object after_write oid ≡ some (log entry_7)
unfolding find_object run write seal zlog.Base.text_eq
finds_entry_7 = refl

used_7 : cell entry_7 7 ≢ unwritten
unfolding cell
used_7 e = cc e

max_pos_covers_example : (m : ℕ) × (max_pos after_write oid ≡ ok (some m)) × (7 ≤ m)
max_pos_covers_example =
    max_pos_covers after_write oid entry_7 (run-AllBounded _ fresh fresh-AllBounded) refl
      finds_entry_7 7 used_7
