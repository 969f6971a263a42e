-- ===== src/LogBackend/Tests.antt =====
-- Two logs on one in-memory backend.
use zlog.Base.{◌≡◌, ◌≢◌, inl, refl, [], codes, false, text_eq, text_eq_iff}
use zlog.Ram.{RamBackend, find_object}
use zlog.Ram.Spec.{seals}
use zlog.LogBackend.{LogBackend, prefixed_oid, ram_backend, log_call}
use zlog.LogBackend.Apart.{log_call_apart}

abbrev fresh : RamBackend
fresh = record { blackhole = false; options = []; objects = []; unique_id = 0 }

abbrev first_log : LogBackend
first_log = record { hoid = codes "zlog.head.k1"; prefix = codes "zlog.data.k1"; token = codes "t" }

abbrev second_log : LogBackend
second_log = record {
  hoid = codes "zlog.head.k2";
  prefix = codes "zlog.data.k2";
  token = codes "t";
}

prefixes_differ : first_log.prefix ≢ second_log.prefix
unfolding text_eq
prefixes_differ e = cc ((text_eq_iff first_log.prefix second_log.prefix).1 e)

log_call_apart_example :
    find_object
      (log_call ram_backend fresh first_log (codes "0.1") (seals 1)).1
      (prefixed_oid second_log (codes "0.1"))
    ≡ find_object fresh (prefixed_oid second_log (codes "0.1"))
log_call_apart_example =
    log_call_apart fresh first_log second_log (codes "0.1") (codes "0.1") (seals 1) refl
      (inl prefixes_differ)
