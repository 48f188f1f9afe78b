-- ===== src/Https.antt =====
-- The HTTPS client of src/platform_posix.c: platform_https_get over the TLS library, which is an
-- argument, with the stdio functions of C that it calls. The same text stands in
-- src/platform_esp32.c, lines 717 to 782. The timeout is not used by the source.
pub mod Received
pub mod Parsed
pub mod Requests
pub mod Windows
mod Tests
use espconnect.Common.{
  ℕ, zero, suc, ◌+◌, ◌-◌, ◌*◌, ◌≤◌, ◌<◌, ◌≡◌, ◌^◌, Bool, List, [], ◌∷◌, ◌++◌, Option, none, some,
  length, drop, Bytes, codes, c_string, behind, find_at, u32, ltb, leb, ◌==◌, ◌&&◌, ◌||◌,
  if◌then◌else◌,
}
use espconnect.Spclient.{Response}

-- What the code takes from the TLS library. `write` gives how many bytes SSL_write took, 0 for a
-- failure; `read` gives what SSL_read stored, nothing for a result of 0 or a failure.
pub record Tls : Type 1 where
  pub Conn : Type 0
  pub connect : Bytes → ℕ → Option Conn
  pub write : Conn → Bytes → ℕ × Conn
  pub read : Conn → ℕ → Bytes × Conn

-- What SSL_read promises: a connection holds a stream, each read with room for a byte takes a front
-- part of it, and not the empty one before its end.
pub record IsStream (tls : Tls) : Type 0 where
  pub stream : tls.Conn → Bytes
  pub front :
      (c : tls.Conn) (n : ℕ) → 0 < n → (tls.read c n).0 ++ stream (tls.read c n).1 ≡ stream c
  pub some_byte :
      (c : tls.Conn) (n : ℕ) → 0 < n → 0 < length (stream c) → 1 ≤ length (tls.read c n).0
  pub fits : (c : tls.Conn) (n : ℕ) → length (tls.read c n).0 ≤ n

-- sizeof(req) and sizeof(buf).
abbrev pub req_size : ℕ
req_size = 4096

abbrev pub buf_size : ℕ
buf_size = 8192

pub header_lines : List Bytes → Bytes
header_lines [] = []
header_lines (h ∷ hs) = h ++ (codes "\r\n" ++ header_lines hs)

-- The text of the request.
pub request : Bytes → Bytes → List Bytes → Bytes
request host path headers =
    codes "GET "
    ++ (path
        ++ (codes " HTTP/1.1\r\nHost: "
            ++ (host
                ++ (codes "\r\nUser-Agent: ESPConnect/1.0\r\nAccept: */*\r\nConnection: close\r\n"
                    ++ (header_lines headers ++ codes "\r\n")))))

-- while ((n = platform_tls_read(...)) > 0) with a buffer of `size` bytes: each round but the last takes
-- one byte at least, so that `size` rounds are enough.
pub read_loop : (tls : Tls) → ℕ → ℕ → Bytes → tls.Conn → Bytes × tls.Conn
read_loop tls size zero got c = (got, c)
read_loop tls size (suc fuel) got c =
    let (xs, c') = tls.read c (size - length got - 1) in
    let got' = got ++ xs in
    let rest = read_loop tls size fuel got' c' in
    if length xs == 0 then (got, c') else if leb (size - 1) (length got') then (got', c') else rest

-- isspace.
pub is_space : ℕ → Bool
is_space c = (c == 32) || (leb 9 c && leb c 13)

pub skip_spaces : Bytes → Bytes
skip_spaces [] = []
skip_spaces (c ∷ cs) = if is_space c then skip_spaces cs else c ∷ cs

-- What stands behind the next word.
pub skip_word : Bytes → Bytes
skip_word [] = []
skip_word (c ∷ cs) = if is_space c then c ∷ cs else skip_word cs

pub is_digit : ℕ → Bool
is_digit c = leb 48 c && leb c 57

-- The value of the digits in front, behind those that were read.
pub digits_value : ℕ → Bytes → ℕ
digits_value n [] = n
digits_value n (c ∷ cs) = if is_digit c then digits_value (n * 10 + (c - 48)) cs else n

-- The digits of %d; without one the conversion fails. An int is taken modulo 2^32.
pub scan_digits : Bytes → Option ℕ
scan_digits [] = none
scan_digits (c ∷ cs) = if is_digit c then some (u32 (digits_value 0 (c ∷ cs))) else none

pub negated : Option ℕ → Option ℕ
negated none = none
negated (some n) = some (u32 (2 ^ 32 - n))

-- The number with its sign.
pub signed : Bytes → Option ℕ
signed [] = none
signed (c ∷ cs) =
    if c == b'-'
    then negated (scan_digits cs)
    else if c == b'+'
    then scan_digits cs
    else scan_digits (c ∷ cs)

-- %d, which skips white space and takes a sign.
pub scan_int : Bytes → Option ℕ
scan_int text = signed (skip_spaces text)

-- %*s needs a word, and %d a number behind it.
pub scan_word_int : Bytes → Option ℕ
scan_word_int [] = none
scan_word_int (c ∷ cs) = scan_int (skip_word (c ∷ cs))

-- sscanf(buf, "HTTP/%*s %d", &code)
pub scan_status : Bytes → Option ℕ
scan_status text = elim (behind (codes "HTTP/") text) [
  | none ↦ none
  | some rest ↦ scan_word_int (skip_spaces rest)
]

abbrev pub no_response : Response
no_response = record { status_code = 0; body = none }

-- The parsing of what was received. The functions on strings stop at the first NUL; the body goes on
-- to the end of what was received.
pub body_of : Bytes → Option Bytes
body_of buf = elim (find_at (codes "\r\n\r\n") (c_string buf)) [
  | none ↦ none
  | some at ↦ some (drop (length (c_string buf) - length at + 4) buf)
]

pub parse_response : Bytes → Response
parse_response buf =
    let parsed : Response = elim (scan_status (c_string buf)) [
      | none ↦ no_response
      | some code ↦ record { status_code = code; body = body_of buf }
    ] in
    if ltb (length buf) 12 then no_response else parsed

-- The request and its response, over the size of the buffer and the parsing in which the ports differ;
-- `none` where the request does not fit its buffer, in which case the source writes and reads outside
-- of it.
module _ (size : ℕ) (parse : Bytes → Response) where
  pub exchange_by : (tls : Tls) → Bytes → tls.Conn → Option Response
  exchange_by tls req c =
      let (w, c') = tls.write c req in
      let (buf, c'') = read_loop tls size size [] c' in
      if leb req_size (length req)
      then none
      else if w == length req
      then some (parse buf)
      else some no_response

pub exchange : (tls : Tls) → Bytes → tls.Conn → Option Response
exchange = exchange_by buf_size parse_response

-- platform_https_get.
pub https_get : Tls → Bytes → Bytes → List Bytes → Option Response
https_get tls host path headers = elim (tls.connect host 443) [
  | none ↦ some no_response
  | some c ↦ exchange tls (request host path headers) c
]
