-- ===== src/Zeroconf/Http.antt =====
-- The text of an HTTP request and the fixed answers in bell_handle_request of src/zeroconf.c: the words
-- that sscanf takes, the number after Content-Length, and the reading of the rest of a body.
use espconnect.Common.{
  ℕ, zero, suc, ◌+◌, ◌-◌, ◌*◌, ◌^◌, Bool, [], ◌∷◌, ◌++◌, none, some, length, Bytes, codes, c_string,
  find_behind, u32, ltb, leb, ◌==◌, ◌&&◌, ◌||◌, if◌then◌else◌,
}
use espconnect.Tcp.{Conn, recv}

abbrev is_space : ℕ → Bool
is_space c = c == b' ' || (leb 9 c && leb c 13)

unfoldable pub skip_space : Bytes → Bytes
skip_space [] = []
skip_space (c ∷ cs) = if is_space c then skip_space cs else c ∷ cs

-- The bytes that "%<max>s" of sscanf stores, behind the white space, and what it leaves.
unfoldable pub word_at : ℕ → Bytes → Bytes × Bytes
word_at zero cs = ([], cs)
word_at (suc max) [] = ([], [])
word_at (suc max) (c ∷ cs) =
    let (taken, rest) = word_at max cs in if is_space c then ([], c ∷ cs) else (c ∷ taken, rest)

unfoldable pub word : ℕ → Bytes → Bytes × Bytes
word max cs = word_at max (skip_space cs)

digits_from : ℕ → Bytes → ℕ
digits_from n [] = n
digits_from n (c ∷ cs) =
    let more = digits_from (n * 10 + (c - b'0')) cs in if leb b'0' c && leb c b'9' then more else n

-- An int of 32 bits that is compared with a count: one below 0 starts no round of the loop, and is 0 here.
at_least_zero : ℕ → ℕ
at_least_zero n = if ltb n (2 ^ 31) then n else 0

-- atoi is the int of strtol, whose numbers stop at their bounds: those of the POSIX systems, where a long
-- has 64 bits.
positive : ℕ → ℕ
positive n = at_least_zero (u32 (if ltb n (2 ^ 63) then n else 2 ^ 63 - 1))

negative : ℕ → ℕ
negative n = at_least_zero (u32 (2 ^ 64 - (if ltb n (2 ^ 63) then n else 2 ^ 63)))

-- The number behind its sign.
by_sign : Bytes → ℕ
by_sign [] = 0
by_sign (c ∷ cs) =
    if c == b'-'
    then negative (digits_from 0 cs)
    else if c == b'+'
    then positive (digits_from 0 cs)
    else positive (digits_from 0 (c ∷ cs))

pub atoi : Bytes → ℕ
atoi cs = by_sign (skip_space cs)

-- while (body_got < expected_len && body_got >= 0): the buffer of 8191 bytes with what has arrived.
-- Each round but the last one adds a byte, so that 8192 rounds are enough.
pub read_rest : ℕ → ℕ → ℕ → Bytes → Conn → Bytes × Conn
read_rest zero expected_len body_got buf c = (buf, c)
read_rest (suc fuel) expected_len body_got buf c =
    let (r, c') = recv c (8190 - length buf) in
    let next : Bytes × Conn = elim r [
      | none ↦ (buf, c')
      | some [] ↦ (buf, c')
      | some (x ∷ xs) ↦
          read_rest fuel expected_len (body_got + length (x ∷ xs)) (buf ++ (x ∷ xs)) c'
    ] in
    if ltb body_got expected_len then next else (buf, c)

abbrev pub blank_line : Bytes
blank_line = codes "\r\n\r\n"

-- The body is read on where the request has both a Content-Length and the end of its header.
unfoldable pub whole_request : Bytes → Conn → Bytes × Conn
whole_request buf c =
    let req = c_string buf in
    elim (find_behind (codes "Content-Length:") req) [
      | none ↦ (buf, c)
      | some number ↦ elim (find_behind blank_line req) [
        | none ↦ (buf, c)
        | some body ↦ read_rest 8192 (atoi number) (length buf - (length req - length body)) buf c
      ]
    ]

abbrev pub ok_response : Bytes
ok_response =
    codes "HTTP/1.1 200 OK\r\nContent-Type: application/json\r\nContent-Length: 42\r\n"
    ++ codes "Access-Control-Allow-Origin: *\r\n\r\n"
    ++ codes "{\"status\":101,\"spotifyError\":0,\"statusString\":\"OK\"}"

abbrev pub not_found : Bytes
not_found = codes "HTTP/1.1 404 Not Found\r\nContent-Length: 9\r\n\r\nNot Found"
