-- ===== src/ViewReader/Tests.antt =====
-- A reader of a log with two views, the second of which makes the client its sequencer.
use zlog.Base.{
  ℕ, ◌≡◌, ◌≤◌, ◌<◌, refl, Bool, true, false, Option, none, some, List, [], ◌∷◌, Text, codes,
  Outcome, ok, arith,
}
use zlog.View.{View, ViewTable, VersionedView}
use zlog.Ram.{RamBackend, ProjectionObject, projection}
use zlog.LogBackend.{LogBackend, ram_backend}
use zlog.ViewReader.{ViewReader, refresh_entry}
use zlog.ViewReader.Served.{IsLatest, IsServed, IsWoken}
use zlog.ViewReader.Refresh.{refresh_entry_wakes}

abbrev log_backend : LogBackend
log_backend = record { hoid = codes "h"; prefix = codes "p"; token = codes "t" }

-- A parser to which every text is the same table.
abbrev parse : Text → Option ViewTable
parse bytes = some (record {
  object_map = some (record { next_stripe_id = 0; stripes = none; min_valid_position = 0 });
  sequencer = some (record { epoch = 2; token = some (codes "t"); position = 17 });
})

abbrev view : View
view = record {
  object_map = record {
    next_stripe_id = 0;
    stripes_by_pos = [];
    stripes_by_id = [];
    min_valid_position = 0;
  };
  seq_config = some (record { epoch = 2; token = codes "t"; position = 17 });
}

abbrev head : ProjectionObject
head = record { epoch = 2; prefix = codes "p"; projections = (1, codes "a") ∷ (2, codes "b") ∷ [] }

abbrev backend : RamBackend
backend = record {
  blackhole = false;
  options = [];
  objects = (codes "h", projection head) ∷ [];
  unique_id = 0;
}

abbrev reader : ViewReader
reader = record {
  shutdown = false;
  view = some (record { view = record view { seq_config = none }; epoch = 1; seq = none });
  refresh_waiters = record { thread = 5; epoch = 1 } ∷ record { thread = 6; epoch = 2 } ∷ [];
}

refresh_entry_wakes_example :
    (woken : List ℕ) × (next : ViewReader) × (refresh_entry parse ram_backend log_backend backend
        reader
      ≡ ok (woken, next))
    × IsLatest log_backend (record { view = view; epoch = 2; seq = none }) reader.view next.view
    × IsServed log_backend next.view
    × IsWoken 2 woken next.refresh_waiters reader.refresh_waiters
unfolding zlog.Ram.find_object zlog.Base.text_eq zlog.Base.OrdMap.last zlog.View.decode_view
refresh_entry_wakes_example =
    refresh_entry_wakes parse log_backend backend head 2 (codes "b") view refl refl refl refl reader
      refl tt (omega arith)
