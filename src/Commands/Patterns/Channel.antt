-- ===== src/Commands/Patterns/Channel.antt =====
-- The channel that is generated for a run.
use pgcov.Base.{
  ℕ, ◌≤◌, ◌++◌, Bytes, codes, length, ok, All, All_map, ◌≡◌, refl, ◌⊎◌, inl, inr, arith,
}
use pgcov.Text.Hex.{
  encode_hex, IsByte, IsHexDigit, encode_hex-IsHexDigit, length-encode_hex, encode_hex-inj,
}
use pgcov.Commands.Patterns.{generate_coverage_channel}

-- A letter in lower case, a digit or an underscore.
pub IsNameByte : ℕ → Type 0
IsNameByte c = ((b'a' ≤ c) × (c ≤ b'z')) ⊎ (((b'0' ≤ c) × (c ≤ b'9')) ⊎ (c ≡ b'_'))

IsHexDigit-IsNameByte : (c : ℕ) → IsHexDigit c → IsNameByte c
unfolding IsNameByte
IsHexDigit-IsNameByte c (inl h) = inr (inl h)
IsHexDigit-IsNameByte c (inr h) = inl (h.0, omega (arith, h.1))

prefixed : (s : Bytes) → All IsNameByte s → All IsNameByte (codes "pgcov_" ++ s)
unfolding IsNameByte
prefixed s h =
    let letter : (c : ℕ) → b'a' ≤ c → c ≤ b'z' → IsNameByte c = λ c a z. inl (a, z) in
    (
      letter b'p' (omega arith) (omega arith),
      (
        letter b'g' (omega arith) (omega arith),
        (
          letter b'c' (omega arith) (omega arith),
          (
            letter b'o' (omega arith) (omega arith),
            (letter b'v' (omega arith) (omega arith), (inr (inr refl), h)),
          ),
        ),
      ),
    )

-- For four random bytes the channel has 14 bytes, each a letter in lower case, a digit or an
-- underscore, and no four other bytes give the same channel.
generate_coverage_channel_lem :
    (b : Bytes)
    → length b ≡ 4
    → All IsByte b
    → (channel : Bytes) × (generate_coverage_channel (ok b) ≡ ok channel)
      × (length channel ≡ 14)
      × All IsNameByte channel
      × ((b' : Bytes) → All IsByte b' → generate_coverage_channel (ok b') ≡ ok channel → b' ≡ b)
unfolding generate_coverage_channel
generate_coverage_channel_lem b four h = (
  codes "pgcov_" ++ encode_hex b,
  refl,
  omega (arith, length-encode_hex b, four),
  prefixed (encode_hex b) (
      All_map IsHexDigit IsNameByte IsHexDigit-IsNameByte (encode_hex b)
        (encode_hex-IsHexDigit b h)),
  λ b' h' e. encode_hex-inj b' b h' h (cc),
)
