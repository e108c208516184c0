-- ===== src/Point.antt =====
-- `CoveragePoint` of internal/instrument/types.go.
use pgcov.Base.{ℕ, Bool, Bytes}

pub record CoveragePoint : Type 0 where
  pub file : Bytes
  pub start_pos : ℕ
  pub len : ℕ
  pub signal_id : Bytes
  pub implicit_coverage : Bool
