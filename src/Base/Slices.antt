-- ===== src/Base/Slices.antt =====
-- How slices of one text join.
use Prim.Native.Nat.{ℕ, zero, suc, ◌+◌, ◌-◌, ◌≤◌, ◌<◌}
use Prim.Native.Nat.add
use mathlib.Core.Path.{◌≡◌, refl, sym, ap, ◌∙◌}
use mathlib.Core.List.{List, [], ◌∷◌, ◌++◌}
use native.Mathlib.Omega.{arith}
use pgcov.Base.Lists.{
  length, take, drop, get_or, slice, drop-drop, take_all, length-take, length-drop,
}

module _ {ℓ} {A : Type ℓ} where
  take_add : (m n : ℕ) (t : List A) → take m t ++ take n (drop m t) ≡ take (m + n) t
  take_add zero n t = rw add.zero
  take_add (suc m) zero [] = rw add.suc
  take_add (suc m) (suc n) [] = rw add.suc
  take_add (suc m) n (x ∷ t) = rw add.suc (ap (◌∷◌ x) (take_add m n t))

  -- Two slices that meet are one.
  pub slice_join :
      (s : List A) (a b c : ℕ) → a ≤ b → b ≤ c → slice s a b ++ slice s b c ≡ slice s a c
  slice_join s a b c h k =
      let e : b ≡ a + (b - a) = omega arith in
      let d : drop b s ≡ drop (b - a) (drop a s) =
        ap (λ n. drop n s) e ∙ sym (drop-drop (b - a) a s) in
      let n : b - a + (c - b) ≡ c - a = omega arith in
      rw d (take_add (b - a) (c - b) (drop a s)) ∙ ap (λ i. take i (drop a s)) n

  pub slice_empty : (s : List A) (a : ℕ) → slice s a a ≡ []
  slice_empty s a = let z : a - a ≡ 0 = omega arith in rw z

  pub slice_all : (s : List A) → slice s 0 (length s) ≡ s
  slice_all s = let z : length s - 0 ≡ length s = omega arith in rw z (take_all s)

  -- The rest of a text from `a` on.
  pub slice_rest : (s : List A) (a : ℕ) → a ≤ length s → slice s a (length s) ≡ drop a s
  slice_rest s a h =
      let n : length s - a ≡ length (drop a s) = sym (length-drop a s) in rw n (take_all (drop a s))

  pub length-slice : (s : List A) (a b : ℕ) → a ≤ b → b ≤ length s → length (slice s a b) ≡ b - a
  length-slice s a b h k = length-take (b - a) (drop a s) (omega (arith, length-drop a s))

  slice_at_drop :
      (s : List A) (i : ℕ) (d : A) → i < length s → take 1 (drop i s) ≡ get_or s i d ∷ []
  slice_at_drop [] i d h = absurd (omega arith)
  slice_at_drop (x ∷ s) zero d h = refl
  slice_at_drop (x ∷ s) (suc i) d h = slice_at_drop s i d (omega arith)

  -- A slice of one element.
  pub slice_one :
      (s : List A) (i : ℕ) (d : A) → i < length s → slice s i (i + 1) ≡ get_or s i d ∷ []
  slice_one s i d h = let n : i + 1 - i ≡ 1 = omega arith in rw n (slice_at_drop s i d h)
