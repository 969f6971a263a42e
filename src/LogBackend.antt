-- ===== src/LogBackend.antt =====
-- src/libzlog/log_backend.h: the objects of one log on a backend, each under the prefix of its log,
-- and the interface of the backend that it uses, src/include/zlog/backend.h.
pub mod Apart
mod Tests
use zlog.Base.{
  ℕ, Bool, not, List, [], ◌∷◌, ◌++◌, Text, Outcome, ok, assert, ◌>>=◌, ◌>>◌, is_empty, Option,
}
use zlog.Base.OrdMap.{OrdMap}
use zlog.Ram.{RamBackend, read, write, fill, trim, seal, max_pos, stat}
use zlog.Ram.Head.{read_views, propose_view}
use zlog.Ram.Spec.{LogCall, writes, fills, trims, seals}

-- The operations of a backend whose state is of type `S`.
pub record Backend (S : Type 0) : Type 0 where
  pub views_read : S → Text → ℕ → ℕ → Outcome (OrdMap Text)
  pub view_propose : S → Text → ℕ → Text → Outcome (Unit {0}) × S
  pub entry_read : S → Text → ℕ → ℕ → Outcome Text
  pub entry_write : S → Text → Text → ℕ → ℕ → Outcome (Unit {0}) × S
  pub entry_fill : S → Text → ℕ → ℕ → Outcome (Unit {0}) × S
  pub entry_trim : S → Text → ℕ → ℕ → Bool → Bool → Outcome (Unit {0}) × S
  pub object_seal : S → Text → ℕ → Outcome (Unit {0}) × S
  pub object_max_pos : S → Text → Outcome (Option ℕ)
  pub object_stat : S → Text → Outcome ℕ

abbrev pub ram_backend : Backend RamBackend
ram_backend = record {
  views_read = read_views;
  view_propose = propose_view;
  entry_read = read;
  entry_write = write;
  entry_fill = fill;
  entry_trim = trim;
  object_seal = seal;
  object_max_pos = max_pos;
  object_stat = stat;
}

pub record LogBackend : Type 0 where
  pub hoid : Text
  pub prefix : Text
  pub token : Text

-- The constructor.
unfoldable pub make_log_backend : Text → Text → Text → Outcome LogBackend
make_log_backend hoid prefix token = do
  assert (not (is_empty hoid))
  assert (not (is_empty prefix))
  assert (not (is_empty token))
  ok (record { hoid = hoid; prefix = prefix; token = token })

unfoldable pub prefixed_oid : LogBackend → Text → Text
prefixed_oid l oid = l.prefix ++ (b'.' ∷ oid)

module _ {S : Type 0} (backend : Backend S) (s : S) (l : LogBackend) where
  unfoldable pub log_read_views : ℕ → ℕ → Outcome (OrdMap Text)
  log_read_views epoch max_views = backend.views_read s l.hoid epoch max_views

  unfoldable pub log_propose_view : ℕ → Text → Outcome (Unit {0}) × S
  log_propose_view epoch view = backend.view_propose s l.hoid epoch view

  unfoldable pub log_read : Text → ℕ → ℕ → Outcome Text
  unfolding prefixed_oid
  log_read oid epoch position = backend.entry_read s (prefixed_oid l oid) epoch position

  unfoldable pub log_write : Text → Text → ℕ → ℕ → Outcome (Unit {0}) × S
  unfolding prefixed_oid
  log_write oid content epoch position =
      backend.entry_write s (prefixed_oid l oid) content epoch position

  unfoldable pub log_fill : Text → ℕ → ℕ → Outcome (Unit {0}) × S
  unfolding prefixed_oid
  log_fill oid epoch position = backend.entry_fill s (prefixed_oid l oid) epoch position

  unfoldable pub log_trim : Text → ℕ → ℕ → Bool → Bool → Outcome (Unit {0}) × S
  unfolding prefixed_oid
  log_trim oid epoch position trim_limit trim_full =
      backend.entry_trim s (prefixed_oid l oid) epoch position trim_limit trim_full

  unfoldable pub log_seal : Text → ℕ → Outcome (Unit {0}) × S
  unfolding prefixed_oid
  log_seal oid epoch = backend.object_seal s (prefixed_oid l oid) epoch

  unfoldable pub log_max_pos : Text → Outcome (Option ℕ)
  unfolding prefixed_oid
  log_max_pos oid = backend.object_max_pos s (prefixed_oid l oid)

  unfoldable pub log_stat : Text → Outcome ℕ
  unfolding prefixed_oid
  log_stat oid = backend.object_stat s (prefixed_oid l oid)

  -- One of the calls that change an object of the log.
  unfoldable pub log_call : Text → LogCall → Outcome (Unit {0}) × S
  unfolding log_write log_fill log_trim log_seal
  log_call oid (writes content epoch position) = log_write oid content epoch position
  log_call oid (fills epoch position) = log_fill oid epoch position
  log_call oid (trims epoch position trim_limit trim_full) =
      log_trim oid epoch position trim_limit trim_full
  log_call oid (seals epoch) = log_seal oid epoch
