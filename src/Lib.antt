-- ===== src/Lib.antt =====
-- zlog: a shared log over object storage. A log is a sequence of entries at positions 0, 1, 2 and
-- so on; its object map says which object of the storage backend holds which position, and its
-- views, of which an object map is a part, are numbered by epochs and proposed one after another
-- to the backend. Clients seal the objects when the view changes, so that a client with an old view
-- is refused.
--
-- The modules and what they are about:
--
--   Base          the names that the others share: Boolean tests, machine words with their
--                 wrap-around, texts as lists of bytes, `Outcome` for what a call comes to, and
--                 models of the standard library's ordered and unordered maps (OrdMap, Assoc) and of
--                 the printing of numbers (Decimal).
--   Options       src/include/zlog/options.h.
--   Stripe        src/libzlog/stripe.h and stripe.cc: `make_stripe` and `make_multi_stripe` are the
--                 constructors, `map_object` is MultiStripe::map and `stripe_at` is
--                 MultiStripe::stripe_by_id.
--   ObjectMap     src/libzlog/object_map.h and object_map.cc: `map_position` is ObjectMap::map, the
--                 other operations keep their names; expand_mapping is in ObjectMap/Expand and
--                 map_to in ObjectMap/MapTo. ObjectMap/Tiling says what a well-formed map is, the
--                 other modules prove what the operations do on one.
--   Ram           src/storage/ram/ram.cc and src/include/zlog/backend/ram.h: the in-memory backend.
--                 Ram.antt has the operations on log objects, Ram/Head those on head objects and
--                 links. Ram/Cells and Ram/Spec are the specification of a log object, Ram/Views that
--                 of a head object. Ram/Calls has sequences of calls, and the modules below it prove
--                 what holds after any such sequence.
--   OpQueue       src/libzlog/log_impl.cc: the queue of operations, queue_op and finisher_entry_. Each
--                 stretch of code that holds the lock is a step, and the threads that run at the same
--                 time are a sequence of steps.
--   ViewReader    src/libzlog/view_reader.cc: the latest view that a client knows and the threads that
--                 wait for a newer one.
--   ViewManager   src/libzlog/view_manager.cc: seal_stripe and, in ViewManager/Client and
--                 ViewManager/Propose, the other operations, over any backend.
--   LogOps        src/libzlog/log_impl.cc: the operations of a log as loops of rounds. LogOps/Append is
--                 AppendOp::run and LogOps/TrimTo is TrimToOp::run; the other loops are in LogOps.
--   Ceph          src/storage/ceph/cls_zlog.h, cls_zlog.cc, cls_zlog.fbs and cls_zlog_client.cc: the
--                 methods that run at an object of Ceph and the calls of their client. The calls that
--                 Ceph gives a method (`ObjectClass`) and the tables' form as bytes (`Codecs`) are
--                 parameters; Ceph/Laws says what is relied on, and Ceph/Plain is an instance of it.
--                 Ceph.antt has the tables, Ceph/LogObject the classes LogObjectHeader and LogEntry,
--                 Ceph/Entries the methods on entries, Ceph/HeadObject the class and the methods of
--                 head objects, and Ceph/Client the client and the methods under their names.
--   Cache         src/libzlog/cache.cc and src/include/zlog/cache.h with src/eviction/lru.cc and
--                 src/include/zlog/eviction/lru.h: a cache of entries with the least-recently-used
--                 policy. Nothing in the repository calls it yet.
--   View          src/libzlog/view.h, view.cc, sequencer.h and sequencer.cc: views over the tables of
--                 src/libzlog/zlog.fbs. The form of a table as bytes is the work of the FlatBuffers
--                 library: `serialize` and `parse` are parameters, and what is relied on is that
--                 what was serialized parses to the same table.
--   LogBackend    src/libzlog/log_backend.h: the objects of one log under its prefix, over the
--                 interface `Backend`, of which the in-memory backend is one.
--
-- How the code is written here. A failed assertion, an exception that nothing catches and undefined
-- behaviour are the outcome `fault`; error codes are `err`. uint32_t and uint64_t are natural numbers
-- with the wrap-around of each operation written out (`add64`, `mul32` and so on). An operation that
-- changes its object returns the next one. The in-memory backend holds a lock for the whole of each
-- call, so clients that run at the same time are a sequence of calls; CreateLog, which takes the lock
-- twice, is two calls of such a sequence. Its random key is an argument, and the comparison without
-- regard to case of the Boost library is a parameter.
--
-- A field that the Ceph object class reads before it was ever set is a parameter, and the transaction
-- of Ceph that undoes a method which fails is not modelled: the methods fail before they change
-- anything unless Ceph itself fails. Signed numbers there are the unsigned numbers of the same bits.
--
-- A wait for a newer view, and what other threads and clients do meanwhile, is a function of the
-- client's state that the definitions take as an argument. So is what happens between a thread's look
-- at the view and its call of the sequencer that it found there, which holds no lock: the sequencer may
-- move, and the view may be replaced by one that has this sequencer or another.
--
-- The loop of expand_mapping has `suc position` rounds of fuel, which are enough because each round
-- maps at least one position more (ObjectMap/Expansion), and to run out is a fault. The rounds of the
-- operations of a log have fuel as well, since others can keep an operation from its end; to run out
-- is `none`.
--
-- Not modelled: src/libzlog/log.cc and the expander thread of the view manager, the ARC policy of the
-- cache, whose target is a floating-point number, the LMDB backend (src/storage/lmdb), the part of the
-- Ceph backend that calls librados (src/storage/ceph/ceph.cc), the sequencer server, statistics, JSON
-- dumps, the bindings and the command line tools.
pub mod Base
pub mod Cache
pub mod Ceph
pub mod LogBackend
pub mod LogOps
pub mod ObjectMap
pub mod OpQueue
pub mod Options
pub mod Ram
pub mod Stripe
pub mod View
pub mod ViewManager
pub mod ViewReader
