-- ===== src/Login5/Tests.antt =====
-- Witnesses for the token scan, at a payload with a token of five characters.
use espconnect.Common.{ℕ, ◌≡◌, ◌≢◌, ◌<◌, [], ◌∷◌, ◌++◌, Bytes, codes, All, arith}
use espconnect.Login5.{found, extract_token}
use espconnect.Login5.Tokens.{
  IsTokenChar, capital, small, digit, dash, underscore, dot, equals_sign, extract_token-token,
}

abbrev payload : Bytes
payload = (10 ∷ 5 ∷ []) ++ (b'B' ∷ b'Q' ∷ b'C' ∷ (codes "x-" ++ (0x12 ∷ (0 ∷ 1 ∷ []))))

not_b : All (λ (c : ℕ). c ≢ b'B') (10 ∷ 5 ∷ [])
not_b = omega arith

rest-IsTokenChar : All IsTokenChar (codes "x-")
rest-IsTokenChar = (small b'x' (omega arith) (omega arith), (dash, tt))

not-IsTokenChar : (c : ℕ) → c < 45 → ¬ IsTokenChar c
not-IsTokenChar _ h (capital c low high) = absurd (omega arith)
not-IsTokenChar _ h (small c low high) = absurd (omega arith)
not-IsTokenChar _ h (digit c low high) = absurd (omega arith)
not-IsTokenChar _ h dash = absurd (omega arith)
not-IsTokenChar _ h underscore = absurd (omega arith)
not-IsTokenChar _ h dot = absurd (omega arith)
not-IsTokenChar _ h equals_sign = absurd (omega arith)

extract_token-token_example : extract_token payload 10 ≡ found (b'B' ∷ b'Q' ∷ b'C' ∷ codes "x-")
extract_token-token_example =
    extract_token-token (10 ∷ 5 ∷ []) (codes "x-") (0 ∷ 1 ∷ []) b'C' 0x12 10 not_b (omega arith)
      (omega arith) rest-IsTokenChar (not-IsTokenChar 0x12 (omega arith)) (omega arith)
      (omega arith) (omega arith)
