-- ===== src/LogOps/Stays.antt =====
-- An append of src/libzlog/log_impl.cc and the reads after it.
use zlog.Base.{ℕ, ◌≡◌, sym, subst, false, some, List, Text, ok}
use zlog.Options.{Options}
use zlog.ObjectMap.Stability.{object_of}
use zlog.View.{View, ViewTable, VersionedView, Sequencer}
use zlog.Ram.{RamBackend, read}
use zlog.Ram.Calls.{Call, run}
use zlog.Ram.Lasting.{EachOn}
use zlog.Ram.Holding.{SparesBelow, Holds-StillHolds, run-StillHolds}
use zlog.Ram.Guarantees.{KeptOrTrimmed, StillHolds-read, read_refines}
use zlog.LogBackend.{LogBackend, ram_backend, prefixed_oid}
use zlog.LogBackend.Apart.{prefixed_oid-named}
use zlog.ViewManager.Client.{Client}
use zlog.LogOps.{Meanwhile, rounds}
use zlog.LogOps.Append.{append_op, append_round}
use zlog.LogOps.Seen.{Seen}
use zlog.LogOps.Stored.{append-Stored}

-- After any calls, if none of them trims the object to the full for a position below, a read at the
-- position returns the content or says that it is trimmed, that the reader's epoch is too old or that
-- it is none.
abbrev pub Lasts : Text → ℕ → RamBackend → Text → Type 0
Lasts content p b oid =
    (sequence : List Call) (reader : ℕ)
    → EachOn oid (SparesBelow p) sequence
    → KeptOrTrimmed content (read (run b sequence) oid reader p)

-- If an append returns a position on a backend that keeps contents, whatever other threads and clients
-- did before and during its waits, then a view that the client had maps the position to an object such
-- that after any further calls of any clients, if none of them trims this object to the full for a
-- position below, a read there returns the content, or says that it is trimmed, that the reader's
-- epoch is too old or that it is none. That the client had the view is said by any property that its
-- first view has and that no wait and nothing that others do takes from its view: this view has it.
pub append_stays :
    (content : Text) (serialize : ViewTable → Text) (options : Options) (l : LogBackend)
    (newer : ℕ → Client RamBackend → Client RamBackend) (meanwhile : Meanwhile RamBackend)
    (others : Client RamBackend → Client RamBackend) (fuel : ℕ) (c last : Client RamBackend) (p : ℕ)
    → rounds others
        (append_round content serialize options ram_backend l newer meanwhile)
        fuel
        append_op
        c
      ≡ some (ok p, last)
    → last.store.blackhole ≡ false
    → (Had : View → Type 0) → Seen Had c
    → ((epoch : ℕ) (d : Client RamBackend) → Seen Had d → Seen Had (newer epoch d))
    → ((seq : Sequencer) (d : Client RamBackend) → Seen Had d → Seen Had (meanwhile seq d).1)
    → ((d : Client RamBackend) → Seen Had d → Seen Had (others d))
    → (v : VersionedView) × (oid : Text) × Had v.view
      × (object_of v.view.object_map p ≡ ok (some oid))
      × Lasts content p last.store (prefixed_oid l oid)
append_stays content serialize options l newer meanwhile others fuel c last p h stores Had first
      shown looked kept =
    let s =
      append-Stored content serialize options l newer Had shown meanwhile looked others kept fuel
        append_op c last p tt first h stores in
    (
      s.0,
      s.1,
      s.2,
      s.3,
      λ sequence reader spares.
          subst (KeptOrTrimmed content)
            (sym (
              read_refines (run last.store sequence) (prefixed_oid l s.1) (prefixed_oid-named l s.1)
                reader p))
            (StillHolds-read content p _
              (run-StillHolds content p (prefixed_oid l s.1) sequence last.store spares
                (Holds-StillHolds content p _ s.4))
              reader),
    )
