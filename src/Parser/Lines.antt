-- ===== src/Parser/Lines.antt =====
-- Line numbers count the newlines before an offset.
use pgcov.Base.{
  ℕ, zero, suc, ◌+◌, ◌≤◌, ◌<◌, [], ◌∷◌, ◌==◌, ltb, if◌then◌else◌, Bytes, length, take, take_all,
  ◌≡◌, ap, ◌∙◌, inl, inr, arith, Bool-cases,
}
use pgcov.Parser.{count_lines, calculate_line_number}

unfoldable pub newlines : Bytes → ℕ
newlines [] = 0
newlines (c ∷ s) = (if c == b'\n' then 1 else 0) + newlines s

count_lines-newlines :
    (n : ℕ) (s : Bytes) (line : ℕ) → count_lines n s line ≡ line + newlines (take n s)
unfolding count_lines newlines
count_lines-newlines zero s line = omega arith
count_lines-newlines (suc n) [] line = omega arith
count_lines-newlines (suc n) (c ∷ s) line = elim (Bool-cases (c == b'\n')) [
  | inl e ↦ rw e (omega (arith, count_lines-newlines n s (line + 1)))
  | inr e ↦ rw e (omega (arith, count_lines-newlines n s line))
]

-- Within the text, the line of an offset is one more than the newlines in front of it; behind the
-- end it is the last line.
calculate_line_number_lem :
    (s : Bytes) (offset : ℕ)
    → (offset ≤ length s → calculate_line_number s offset ≡ 1 + newlines (take offset s))
      × (length s < offset → calculate_line_number s offset ≡ 1 + newlines s)
unfolding calculate_line_number
calculate_line_number_lem s offset = elim (Bool-cases (ltb (length s) offset)) [
  | inl e ↦ (
    λ h. absurd (ground (arith, e)),
    λ h. rw e (count_lines-newlines (length s) s 1 ∙ ap (λ t. 1 + newlines t) (take_all s)),
  )
  | inr e ↦ (λ h. rw e (count_lines-newlines offset s 1), λ h. absurd (ground (arith, e)))
]
