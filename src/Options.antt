-- ===== src/Options.antt =====
-- src/include/zlog/options.h: the options that the modelled code reads.
use zlog.Base.{ℕ, Bool}

pub record Options : Type 0 where
  pub create_initial_view_stripes : Bool
  pub init_stripe_on_create : Bool
  pub stripe_width : ℕ
  pub stripe_slots : ℕ
  pub max_inflight_ops : ℕ
