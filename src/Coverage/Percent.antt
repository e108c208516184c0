-- ===== src/Coverage/Percent.antt =====
-- The percentages of internal/coverage/model.go. A `float64` is an `F`; its operations are a
-- parameter.
use pgcov.Base.{ℕ, ◌==◌, if◌then◌else◌, Bytes}
use pgcov.Coverage.{
  Coverage, entries, index_file, count_file, executable_position_counts, implicit_position_counts,
}

-- `0.0`, and `float64(covered) / float64(total) * 100.0`.
pub record Floats (F : Type 0) : Type 0 where
  pub zero_percent : F
  pub ratio : ℕ → ℕ → F

module _ {F : Type 0} (floats : Floats F) where
  abbrev pub percent : ℕ × ℕ → F
  percent (covered, total) = if total == 0 then floats.zero_percent else floats.ratio covered total

  unfoldable pub position_coverage_percent : Coverage → Bytes → F
  unfolding index_file count_file
  position_coverage_percent c file =
      percent (count_file (entries (index_file file c.positions)) (0, 0))

  abbrev pub total_position_coverage_percent : Coverage → F
  total_position_coverage_percent c = percent (executable_position_counts c)

  abbrev pub total_implicit_coverage_percent : Coverage → F
  total_implicit_coverage_percent c = percent (implicit_position_counts c)
