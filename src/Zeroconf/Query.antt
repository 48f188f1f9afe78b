-- ===== src/Zeroconf/Query.antt =====
-- hex_char_val, url_decode and get_query_param of src/zeroconf.c, on C strings without their NUL.
pub mod Decoding
pub mod Pairs
mod Tests
use espconnect.Common.{
  ℕ, zero, suc, ◌+◌, ◌-◌, ◌*◌, ◌^◌, Bool, true, false, List, [], ◌∷◌, ◌++◌, Option, none, some,
  bit_or, take, u8, Bytes, leb, ◌==◌, ◌&&◌, if◌then◌else◌, ◌>>=◌, behind, before_byte,
}

-- `none` is the result -1.
unfoldable pub hex_char_val : ℕ → Option ℕ
hex_char_val c =
    if leb b'0' c && leb c b'9'
    then some (c - b'0')
    else if leb b'a' c && leb c b'f'
    then some (c - b'a' + 10)
    else if leb b'A' c && leb c b'F'
    then some (c - b'A' + 10)
    else none

-- '%' and two hexadecimal digits.
unfoldable pub escape : ℕ → ℕ → ℕ → Option ℕ
escape c h l =
    let value = (do hi ← hex_char_val h; lo ← hex_char_val l; some (u8 (bit_or (hi * 2 ^ 4) lo))) in
    if c == b'%' then value else none

unfoldable pub plus_to_space : ℕ → ℕ
plus_to_space c = if c == b'+' then b' ' else c

-- The loop of url_decode with `room` bytes left in front of the NUL.
unfoldable pub decode_loop : ℕ → Bytes → Bytes
decode_loop zero src = []
decode_loop (suc room) [] = []
decode_loop (suc room) (c ∷ []) = plus_to_space c ∷ []
decode_loop (suc room) (c ∷ h ∷ []) = plus_to_space c ∷ decode_loop room (h ∷ [])
decode_loop (suc room) (c ∷ h ∷ l ∷ rest) = elim (escape c h l) [
  | none ↦ plus_to_space c ∷ decode_loop room (h ∷ l ∷ rest)
  | some b ↦ b ∷ decode_loop room rest
]

-- url_decode into a buffer of `dst_size` bytes, which is never 0.
unfoldable pub url_decode : Bytes → ℕ → Bytes
url_decode src dst_size = decode_loop (dst_size - 1) src

-- while (p && p - query < qlen): `starts` tells that `p` stands at this position.
unfoldable pub query_from : Bytes → Bool → Bytes → Option Bytes
query_from key starts [] = none
query_from key starts (c ∷ cs) =
    let next = query_from key (c == b'&') cs in
    let here : Option Bytes = elim (behind (key ++ (b'=' ∷ [])) (c ∷ cs)) [
      | none ↦ next
      | some rest ↦ some (url_decode (take 4095 (before_byte b'&' rest)) 4096)
    ] in
    if starts then here else next

unfoldable pub get_query_param : Bytes → Bytes → Option Bytes
get_query_param query key = query_from key true query
