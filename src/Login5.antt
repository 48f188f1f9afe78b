-- ===== src/Login5.antt =====
-- The token scan of src/spotify_login5_parse.c. The byte before the token, which the source also reads
-- and does not use, is left out.
pub mod Answer
pub mod Tokens
mod Tests
use espconnect.Common.{
  ℕ, zero, suc, ◌+◌, ◌-◌, ◌^◌, Bool, true, false, [], ◌∷◌, length, Bytes, u64, ltb, leb, ◌==◌, ◌&&◌,
  ◌||◌, if◌then◌else◌,
}

-- `beyond` is a read past the payload.
pub data Scan : Type 0 where
  found : Bytes → Scan
  not_found : Scan
  beyond : Scan

unfoldable pub between : ℕ → ℕ → ℕ → Bool
between low high c = leb low c && leb c high

-- Letters, digits, and the four marks.
unfoldable pub is_token_char : ℕ → Bool
is_token_char c =
    between b'A' b'Z' c
    || between b'a' b'z' c
    || between b'0' b'9' c
    || (c == b'-')
    || (c == b'_')
    || (c == b'.')
    || (c == b'=')

-- The copy, by how many characters the buffer still takes.
pub copy_token : ℕ → Bytes → Bytes
copy_token limit [] = []
copy_token zero (c ∷ cs) = []
copy_token (suc limit) (c ∷ cs) =
    let rest = copy_token limit cs in if is_token_char c then c ∷ rest else []

-- payload[i] == 'B' && payload[i+1] == 'Q' && 'A' <= payload[i+2] <= 'Z', each read when the ones before
-- it hold; `here` and `next` are what follows, and a missing byte is read past the payload.
third : Scan → Scan → Bytes → Scan
third here next [] = beyond
third here next (c ∷ cs) = if between b'A' b'Z' c then here else next

second : Scan → Scan → Bytes → Scan
second here next [] = beyond
second here next (c ∷ cs) = let on = third here next cs in if c == b'Q' then on else next

pub at_start : Scan → Scan → Bytes → Scan
at_start here next [] = beyond
at_start here next (c ∷ cs) = let on = second here next cs in if c == b'B' then on else next

-- for (i = 0; i < payload_len - 5; i++), from the rest of the payload at i. For a payload of less than
-- 5 bytes the bound has wrapped and the loop does not stop at the end.
pub scan : Bool → ℕ → Bytes → Scan
scan wrapped limit [] = if wrapped then beyond else not_found
scan wrapped limit (c ∷ cs) =
    let next = scan wrapped limit cs in
    let here = at_start (found (copy_token limit (c ∷ cs))) next (c ∷ cs) in
    if wrapped || ltb 5 (length (c ∷ cs)) then here else not_found

-- spotify_login5_extract_token; `max_len - 1` is computed on 64 bits.
pub extract_token : Bytes → ℕ → Scan
extract_token payload max_len = scan (ltb (length payload) 5) (u64 (max_len + (2 ^ 64 - 1))) payload
