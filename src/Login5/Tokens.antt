-- ===== src/Login5/Tokens.antt =====
-- What the token scan finds.
use espconnect.Common.{
  ℕ, zero, suc, ◌+◌, ◌-◌, ◌^◌, ◌≤◌, ◌<◌, ◌≡◌, ◌≢◌, refl, ap, ◌∙◌, true, false, [], ◌∷◌, ◌++◌,
  length, Bytes, u64, ltb, leb, ◌&&◌, ◌||◌, ◌==◌, All, arith, Bool-cases, inl, inr, length-append,
}
use mathlib.Core.Path.{subst}
use espconnect.Login5.{
  Scan, found, not_found, between, is_token_char, copy_token, third, second, at_start, scan,
  extract_token,
}

-- A character of a token: a letter, a digit or one of four marks.
pub data IsTokenChar : ℕ → Type 0 where
  capital : (c : ℕ) → 65 ≤ c → c ≤ 90 → IsTokenChar c
  small : (c : ℕ) → 97 ≤ c → c ≤ 122 → IsTokenChar c
  digit : (c : ℕ) → 48 ≤ c → c ≤ 57 → IsTokenChar c
  dash : IsTokenChar 45
  underscore : IsTokenChar 95
  dot : IsTokenChar 46
  equals_sign : IsTokenChar 61

is_token_char-IsTokenChar : {c : ℕ} → IsTokenChar c → is_token_char c ≡ true
unfolding is_token_char between
is_token_char-IsTokenChar (capital c h k) = ground arith
is_token_char-IsTokenChar (small c h k) = ground arith
is_token_char-IsTokenChar (digit c h k) = ground arith
is_token_char-IsTokenChar dash = refl
is_token_char-IsTokenChar underscore = refl
is_token_char-IsTokenChar dot = refl
is_token_char-IsTokenChar equals_sign = refl

-- The test and the alphabet are one.
IsTokenChar-is_token_char : (c : ℕ) → is_token_char c ≡ true → IsTokenChar c
unfolding is_token_char between
IsTokenChar-is_token_char c e = elim (Bool-cases (leb 65 c && leb c 90)) [
  | inl a ↦ capital c (ground (arith, a)) (ground (arith, a))
  | inr a ↦ elim (Bool-cases (leb 97 c && leb c 122)) [
    | inl b ↦ small c (ground (arith, b)) (ground (arith, b))
    | inr b ↦ elim (Bool-cases (leb 48 c && leb c 57)) [
      | inl d ↦ digit c (ground (arith, d)) (ground (arith, d))
      | inr d ↦ mark (rw (a, b, d) at e)
    ]
  ]
]
  where
    at : (k : ℕ) → (c == k) ≡ true → IsTokenChar k → IsTokenChar c
    at k h t = let same : k ≡ c = ground (arith, h) in subst IsTokenChar same t

    mark : ((c == b'-') || (c == b'_') || (c == b'.') || (c == b'=')) ≡ true → IsTokenChar c
    mark h = elim (Bool-cases (c == 45)) [
      | inl p ↦ at 45 p dash
      | inr p ↦ elim (Bool-cases (c == 95)) [
        | inl q ↦ at 95 q underscore
        | inr q ↦ elim (Bool-cases (c == 46)) [
          | inl r ↦ at 46 r dot
          | inr r ↦ at 61 (ground (arith, p, q, r, h)) equals_sign
        ]
      ]
    ]

-- The result is a token of at most `limit` characters, or that there is none.
pub data IsAnswer (limit : ℕ) : Scan → Type 0 where
  a_token :
      (text : Bytes) → All IsTokenChar text → length text ≤ limit → IsAnswer limit (found text)
  none_there : IsAnswer limit not_found

copy_token-IsTokenChar :
    (limit : ℕ) (text : Bytes)
    → All IsTokenChar (copy_token limit text) × (length (copy_token limit text) ≤ limit)
unfolding copy_token
copy_token-IsTokenChar limit [] = (tt, omega arith)
copy_token-IsTokenChar zero (c ∷ cs) = (tt, omega arith)
copy_token-IsTokenChar (suc limit) (c ∷ cs) =
    let ih = copy_token-IsTokenChar limit cs in
    elim (Bool-cases (is_token_char c)) [
      | inl e ↦ rw e ((IsTokenChar-is_token_char c e, ih.0), omega (arith, ih.1))
      | inr e ↦ rw e (tt, omega arith)
    ]

at_start-IsAnswer :
    (limit : ℕ) (here next : Scan) (text : Bytes)
    → 3 ≤ length text
    → IsAnswer limit here
    → IsAnswer limit next
    → IsAnswer limit (at_start here next text)
unfolding at_start second third
at_start-IsAnswer limit here next [] h p q = absurd (omega arith)
at_start-IsAnswer limit here next (a ∷ []) h p q = absurd (omega arith)
at_start-IsAnswer limit here next (a ∷ b ∷ []) h p q = absurd (omega arith)
at_start-IsAnswer limit here next (a ∷ b ∷ c ∷ cs) h p q = elim (Bool-cases (a == b'B')) [
  | inl e ↦ rw e (elim (Bool-cases (b == b'Q')) [
    | inl f ↦ rw f (elim (Bool-cases (between b'A' b'Z' c)) [ inl g ↦ rw g p | inr g ↦ rw g q ])
    | inr f ↦ rw f q
  ])
  | inr e ↦ rw e q
]

scan-IsAnswer : (limit : ℕ) (text : Bytes) → IsAnswer limit (scan false limit text)
unfolding scan
scan-IsAnswer limit [] = none_there
scan-IsAnswer limit (c ∷ cs) = elim (Bool-cases (ltb 5 (length (c ∷ cs)))) [
  | inl e ↦
      let copied = copy_token-IsTokenChar limit (c ∷ cs) in
      rw e (
        at_start-IsAnswer limit _ _ (c ∷ cs) (ground arith) (a_token _ copied.0 copied.1)
          (scan-IsAnswer limit cs))
  | inr e ↦ rw e none_there
]

-- From a payload of 5 bytes at least, spotify_login5_extract_token gives a token of characters of
-- the alphabet that fits a buffer which is not empty with its NUL, or says that there is none; it
-- reads nothing past the payload.
pub extract_token-IsAnswer :
    (payload : Bytes) (max_len : ℕ)
    → 5 ≤ length payload
    → 1 ≤ max_len
    → max_len < 2 ^ 64
    → IsAnswer (max_len - 1) (extract_token payload max_len)
unfolding extract_token
extract_token-IsAnswer payload max_len long room fits =
    let unwrapped : ltb (length payload) 5 ≡ false = ground arith in
    let limit : u64 (max_len + (2 ^ 64 - 1)) ≡ max_len - 1 = omega arith in
    rw (unwrapped, limit) (scan-IsAnswer (max_len - 1) payload)

copy_token_whole :
    (limit : ℕ) (token after : Bytes) (stop : ℕ)
    → All IsTokenChar token
    → length token ≤ limit
    → is_token_char stop ≡ false
    → copy_token limit (token ++ (stop ∷ after)) ≡ token
unfolding copy_token
copy_token_whole zero [] after stop h room e = refl
copy_token_whole (suc limit) [] after stop h room e = rw e
copy_token_whole zero (c ∷ token) after stop h room e = absurd (omega arith)
copy_token_whole (suc limit) (c ∷ token) after stop h room e =
    rw (is_token_char-IsTokenChar h.0)
      (ap (λ r. c ∷ r) (copy_token_whole limit token after stop h.1 (omega arith) e))

at_start-other :
    (here next : Scan) (c : ℕ) (cs : Bytes) → c ≢ b'B' → at_start here next (c ∷ cs) ≡ next
unfolding at_start
at_start-other here next c cs h = let e : (c == b'B') ≡ false = ground arith in rw e

at_start-token :
    (here next : Scan) (x : ℕ) (cs : Bytes)
    → between b'A' b'Z' x ≡ true
    → at_start here next (b'B' ∷ b'Q' ∷ x ∷ cs) ≡ here
unfolding at_start second third
at_start-token here next x cs e = rw e

-- Text without the first letter of a token is passed over.
scan-before :
    (limit : ℕ) (before text : Bytes)
    → All (λ c. c ≢ b'B') before
    → 6 ≤ length text
    → scan false limit (before ++ text) ≡ scan false limit text
unfolding scan
scan-before limit [] text h long = refl
scan-before limit (c ∷ before) text h long =
    let more : ltb 5 (length ((c ∷ before) ++ text)) ≡ true =
      ground (arith, length-append before text) in
    rw more (at_start-other _ _ c (before ++ text) h.0 ∙ scan-before limit before text h.1 long)

scan-token :
    (limit x : ℕ) (cs : Bytes)
    → between b'A' b'Z' x ≡ true
    → 3 ≤ length cs
    → scan false limit (b'B' ∷ b'Q' ∷ x ∷ cs) ≡ found (copy_token limit (b'B' ∷ b'Q' ∷ x ∷ cs))
unfolding scan
scan-token limit x cs e long =
    let more : ltb 5 (length (b'B' ∷ b'Q' ∷ x ∷ cs)) ≡ true = ground arith in
    rw more (at_start-token _ _ x cs e)

ends_token : (c : ℕ) → ¬ IsTokenChar c → is_token_char c ≡ false
ends_token c h = elim (Bool-cases (is_token_char c)) [
  | inl e ↦ absurd (h (IsTokenChar-is_token_char c e))
  | inr e ↦ e
]

-- Spotify_login5_extract_token finds a token that begins with BQ and any capital letter, behind
-- bytes of which none is a B, whole where the buffer takes it with its NUL, up to the first byte
-- that is no letter, digit, dash, underscore, dot or equals sign; at least two more bytes must
-- stand in what is left of the token and behind that byte.
pub extract_token-token :
    (before rest after : Bytes) (x stop max_len : ℕ)
    → All (λ c. c ≢ b'B') before
    → 65 ≤ x
    → x ≤ 90
    → All IsTokenChar rest
    → ¬ IsTokenChar stop
    → length (b'B' ∷ b'Q' ∷ x ∷ rest) < max_len
    → max_len < 2 ^ 64
    → 2 ≤ length rest + length after
    → extract_token (before ++ (b'B' ∷ b'Q' ∷ x ∷ (rest ++ (stop ∷ after)))) max_len
      ≡ found (b'B' ∷ b'Q' ∷ x ∷ rest)
unfolding extract_token between
extract_token-token before rest after x stop max_len other low high chars ends room fits more =
    let text = b'B' ∷ b'Q' ∷ x ∷ (rest ++ (stop ∷ after)) in
    let len = length-append rest (stop ∷ after) in
    let unwrapped : ltb (length (before ++ text)) 5 ≡ false =
      ground (arith, length-append before text, len) in
    let limit : u64 (max_len + (2 ^ 64 - 1)) ≡ max_len - 1 = omega arith in
    let is_capital : between b'A' b'Z' x ≡ true = ground arith in
    rw (unwrapped, limit)
      (scan-before (max_len - 1) before text other (omega (arith, len))
        ∙ scan-token (max_len - 1) x (rest ++ (stop ∷ after)) is_capital (omega (arith, len))
        ∙ ap found (
            copy_token_whole (max_len - 1) (b'B' ∷ b'Q' ∷ x ∷ rest) after stop
              (
                capital b'B' (omega arith) (omega arith),
                (capital b'Q' (omega arith) (omega arith), (capital x low high, chars)),
              )
              (omega arith) (ends_token stop ends)))
