-- ===== src/ViewReader/Refresh.antt =====
-- A round of the refresh thread of src/libzlog/view_reader.cc on the in-memory backend: it takes the
-- latest view of the log, and wakes the threads that wait for it.
use zlog.Base.{
  ℕ, ◌≡◌, refl, ap, ◌∙◌, false, Option, none, some, List, Text, ok, arith, ltb, is_empty,
}
use zlog.Base.OrdMap.{last}
use zlog.View.{View, ViewTable, VersionedView, decode_view, versioned_view}
use zlog.Ram.{RamBackend, ProjectionObject, projection, find_object}
use zlog.Ram.Head.{read_views, read_views_found, read_views_of, latest_view}
use zlog.LogBackend.{LogBackend, ram_backend, log_read_views}
use zlog.ViewReader.{
  RefreshWaiter, ViewReader, install, wake_waiters, notify, latest_of, get_latest_view,
  refresh_view, refresh_entry,
}
use zlog.ViewReader.Served.{
  IsLatest, IsServed, IsWoken, NotNewer, install-Took, notify_epoch, wake_waiters_lem,
}

module _ (parse : Text → Option ViewTable) (l : LogBackend) (b : RamBackend) (p : ProjectionObject)
    (epoch : ℕ) (bytes : Text) (view : View) (named : is_empty l.hoid ≡ false)
    (head : find_object b l.hoid ≡ some (projection p))
    (newest : last p.projections ≡ some (epoch, bytes))
    (decodes : decode_view parse bytes ≡ ok view) where
  latest : VersionedView
  latest = record { view = view; epoch = epoch; seq = none }

  get_latest_view_newest : get_latest_view parse ram_backend l b ≡ ok (some latest)
  unfolding latest get_latest_view log_read_views read_views read_views_found read_views_of
      latest_view latest_of versioned_view last
  get_latest_view_newest = rw (named, head, newest, low) (rw decodes refl)
    where
      low : ltb p.epoch 0 ≡ false
      low = ground arith

  refresh_view_newest :
      (r next : ViewReader)
      → install l r latest ≡ ok next
      → refresh_view parse ram_backend l b r ≡ ok next
  unfolding refresh_view latest
  refresh_view_newest r next e = rw (refresh_view, get_latest_view_newest, e) refl

  refresh_entry_open :
      (r next : ViewReader)
      → r.shutdown ≡ false
      → install l r latest ≡ ok next
      → refresh_entry parse ram_backend l b r ≡ ok (notify next)
  unfolding refresh_entry
  refresh_entry_open r next opened e = rw (opened, refresh_view_newest r next e) refl

  -- On the in-memory backend, if the log's head object is there and its latest view decodes, a refresh
  -- of an open reader, whose view is not newer than the latest of
  -- the log and has a sequencer if it names this client, keeps a view of the latest epoch and else
  -- takes the latest view. That one has no sequencer unless it names this client; it has the one that
  -- runs if the reader's view named this client from the same epoch, and else a new one at the view's
  -- epoch and position. The threads that wait with an epoch older than the view's are woken, in
  -- their order, and no others: those go on waiting.
  pub refresh_entry_wakes :
      (r : ViewReader)
      → r.shutdown ≡ false
      → IsServed l r.view
      → NotNewer r.view epoch
      → (woken : List ℕ) × (next : ViewReader) × (refresh_entry parse ram_backend l b r
          ≡ ok (woken, next))
        × IsLatest l (record { view = view; epoch = epoch; seq = none }) r.view next.view
        × IsServed l next.view
        × IsWoken epoch woken next.refresh_waiters r.refresh_waiters
  unfolding latest
  refresh_entry_wakes r opened served old =
      let t = install-Took l r latest served old in
      (
        (wake_waiters epoch r.refresh_waiters).0,
        record (t.0) { refresh_waiters = (wake_waiters epoch r.refresh_waiters).1 },
        refresh_entry_open r t.0 opened t.1
            ∙ ap ok (notify_epoch t.0 epoch t.2.has_epoch ∙ ap notified t.2.same_waiters),
        t.2.is_latest,
        t.2.served,
        wake_waiters_lem epoch r.refresh_waiters,
      )
    where
      notified : List RefreshWaiter → List ℕ × ViewReader
      notified ws = (
        (wake_waiters epoch ws).0,
        record ((install-Took l r latest served old).0) {
          refresh_waiters = (wake_waiters epoch ws).1;
        },
      )
