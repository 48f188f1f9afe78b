-- ===== src/Login5/Answer.antt =====
-- The answer to the request of spotify_login5_get_token in src/spotify_login5.c: the reads from
-- mbedTLS, which is an argument, the search for the empty line and the copy of what stands behind it.
pub mod Once
pub mod Parts
mod Tests
use espconnect.Common.{
  ℕ, zero, suc, ◌+◌, ◌-◌, ◌≤◌, ◌<◌, ◌≡◌, refl, sym, ap, ◌∙◌, Bool, true, false, Bool-cases, List,
  [], ◌∷◌, ◌++◌, append-nil, append_assoc, length, length-append, take, drop, take-append_length,
  take-append_le, Option, none, some, ◌⊎◌, inl, inr, Bytes, ltb, leb, ◌==◌, ◌&&◌, if◌then◌else◌,
  arith,
}

-- What mbedtls_ssl_read says: to call again (WANT_READ, WANT_WRITE, a new session ticket), that it is
-- over (0, the peer's notice or an error), or the bytes that it stored.
pub data Read : Type 0 where
  again : Read
  over : Read
  stored : Bytes → Read

pub record Reader : Type 1 where
  pub Conn : Type 0
  pub read : Conn → ℕ → Read × Conn

-- One read with room for n bytes: `again` and bytes leave less to come, at most n bytes are stored and
-- one at least, and `over`, where there was room, means that nothing more arrives.
pub data Reads (reader : Reader) (rank : reader.Conn → ℕ) (stream : reader.Conn → Bytes)
    (c : reader.Conn) (n : ℕ) : Read × reader.Conn → Type 0 where
  waits :
      (c' : reader.Conn)
      → rank c' < rank c
      → stream c' ≡ stream c
      → Reads reader rank stream c n (again, c')
  ends : (c' : reader.Conn) → (0 < n → stream c ≡ []) → Reads reader rank stream c n (over, c')
  gives :
      (xs : Bytes) (c' : reader.Conn)
      → rank c' < rank c
      → length xs ≤ n
      → 1 ≤ length xs
      → xs ++ stream c' ≡ stream c
      → Reads reader rank stream c n (stored xs, c')

-- What mbedtls_ssl_read promises of a connection on which finitely many reads give something.
pub record IsReader (reader : Reader) : Type 0 where
  pub rank : reader.Conn → ℕ
  pub stream : reader.Conn → Bytes
  pub reads : (c : reader.Conn) (n : ℕ) → Reads reader rank stream c n (reader.read c n)

-- An empty line in front, with a byte behind it at least: i < total_recv - 4.
pub breaks : Bytes → Bool
breaks (c0 ∷ c1 ∷ c2 ∷ c3 ∷ c4 ∷ rest) = (c0 == 13) && ((c1 == 10) && ((c2 == 13) && (c3 == 10)))
breaks _ = false

abbrev pub one_on : Option ℕ → Option ℕ
one_on none = none
one_on (some n) = some (suc n)

-- payload_offset, by the loop over i.
pub payload_offset : Bytes → Option ℕ
payload_offset [] = none
payload_offset (c ∷ cs) =
    let later = payload_offset cs in if breaks (c ∷ cs) then some 4 else one_on later

-- The search after a read. For less than 4 bytes its bound has wrapped and it reads past what was
-- received; that is `none`.
pub search_after : Bytes → Option ℕ → Option (Option ℕ)
search_after total (some n) = some (some n)
search_after total none = if ltb (length total) 4 then none else some (payload_offset total)

-- `outside` is a read past what was received, `hang` a loop that has not ended within its fuel.
pub data Gathered : Type 0 where
  gathered : Bytes → Option ℕ → Gathered
  outside : Gathered
  hang : Gathered

-- sizeof(buf) - 1.
abbrev pub room : ℕ
room = 2047

-- do { ... } while (1)
pub gather : (reader : Reader) → ℕ → Bytes → Option ℕ → reader.Conn → Gathered
gather reader zero got off c = hang
gather reader (suc fuel) got off c =
    let (r, c') = reader.read c (room - length got) in
    elim r [
      | again ↦ gather reader fuel got off c'
      | over ↦ gathered got off
      | stored xs ↦ elim (search_after (got ++ xs) off) [
        | none ↦ outside
        | some off' ↦ gather reader fuel (got ++ xs) off' c'
      ]
    ]

-- The end of spotify_login5_get_token: `none` is -1.
pub copy_payload : ℕ → Bytes → Option ℕ → Option Bytes
copy_payload capacity got none = none
copy_payload capacity got (some n) =
    let payload = drop n got in if ltb capacity (length payload) then none else some payload
