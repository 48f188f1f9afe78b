-- ===== src/Mercury.antt =====
-- The session of src/mercury.c: TCP framing, the HMAC challenge, mercury_send and mercury_recv, and the
-- accessors. A function of the source that takes the session takes it as a state and returns it; the
-- pointer to it is never null, and `sock` is `none` for PLATFORM_SOCKET_INVALID.
pub mod Framing
pub mod Sending
pub mod EndToEnd
pub mod Response
pub mod Login
mod Tests
use espconnect.Common.{
  ℕ, zero, suc, ◌+◌, ◌-◌, ◌*◌, ◌/◌, ◌%◌, ◌^◌, Bool, true, false, not, List, [], ◌∷◌, ◌++◌, Option,
  none, some, bit_and, bit_or, length, get_or, replicate, u8, u16, u32, Bytes, ltb, leb, ◌==◌, ◌||◌,
  if◌then◌else◌, be16, be32, read_be32, read_u16_be,
}
use espconnect.Crypto.{Crypto}
use espconnect.Shannon
use espconnect.Shannon.{Cipher}
use espconnect.Tcp.{Conn, tcp_read, tcp_write}

pub record Session : Type 0 where
  pub sock : Option Conn
  pub connected : Bool
  pub dh_public : Bytes
  pub dh_private : Bytes
  -- The first `shared_len` bytes of `shared_key`.
  pub shared_key : Bytes
  pub send_cipher : Cipher
  pub recv_cipher : Cipher
  pub send_nonce : ℕ
  pub recv_nonce : ℕ
  -- The bytes before the terminating NUL that the code stores, and the first `stored_cred_len` bytes.
  pub canonical_username : Bytes
  pub stored_cred : Bytes

-- `fail n` is the result -n; `hang` is a loop that has not ended within its fuel.
pub data Outcome {ℓ} (A : Type ℓ) : Type ℓ where
  ok : A → Outcome A
  fail : ℕ → Outcome A
  hang : Outcome A

-- A step of a function on the session that may return early.
abbrev pub M {ℓ} : Type ℓ → Type ℓ
M A = Session → Outcome A × Session

abbrev pub resume {ℓ κ} : {A : Type ℓ} {B : Type κ} → (A → M B) → Outcome A → M B
resume f (ok a) s = f a s
resume f (fail n) s = (fail n, s)
resume f hang s = (hang, s)

infixl 5 ◌>>=◌ ◌>>◌
abbrev pub ◌>>=◌ {ℓ κ} : {A : Type ℓ} {B : Type κ} → M A → (A → M B) → M B
◌>>=◌ m f s = resume f (m s).0 (m s).1

abbrev pub ◌>>◌ {ℓ κ} : {A : Type ℓ} {B : Type κ} → M A → M B → M B
m >> k = m >>= λ _. k

abbrev pub pure {ℓ} : {A : Type ℓ} → A → M A
pure a s = (ok a, s)

abbrev pub stop {ℓ} : {A : Type ℓ} → ℕ → M A
stop n s = (fail n, s)

abbrev pub read : M Session
read s = (ok s, s)

abbrev pub modify : (Session → Session) → M (Unit {0})
modify f s = (ok tt, f s)

abbrev pub guard : Bool → ℕ → M (Unit {0})
guard true n s = (ok tt, s)
guard false n s = (fail n, s)

-- platform_tcp_write and platform_tcp_read on the session's socket; -1 of either is the result -code.
write_on : Option Conn → Bytes → ℕ → M (Unit {0})
write_on none xs code s = (fail code, s)
write_on (some c) xs code s =
    let (done, c') = tcp_write c xs in
    (if done then ok tt else fail code, record s { sock = some c' })

pub write : Bytes → ℕ → M (Unit {0})
write xs code s = write_on s.sock xs code s

read_on : Option Conn → ℕ → ℕ → M Bytes
read_on none n code s = (fail code, s)
read_on (some c) n code s =
    let (got, c') = tcp_read c n in
    (elim got [ none ↦ fail code | some xs ↦ ok xs ], record s { sock = some c' })

pub read_exactly : ℕ → ℕ → M Bytes
read_exactly n code s = read_on s.sock n code s

-- calloc, with two ciphers from platform_shannon_new.
unfoldable pub init : Session
init = record {
  sock = none;
  connected = false;
  dh_public = replicate 96 0;
  dh_private = replicate 96 0;
  shared_key = [];
  send_cipher = Shannon.new;
  recv_cipher = Shannon.new;
  send_nonce = 0;
  recv_nonce = 0;
  canonical_username = [];
  stored_cred = [];
}

pub is_open : Option Conn → Bool
is_open none = false
is_open (some c) = true

-- [prefix][4 bytes of length, big endian][data]; the length counts the prefix and itself.
pub packet : Bytes → Bytes → Bytes
packet front body = front ++ (be32 (u32 (4 + length front + length body)) ++ body)

-- tcp_send_packet, which also hands the packet to the caller.
pub tcp_send_packet : Bytes → Bytes → ℕ → M Bytes
tcp_send_packet front body code = do let pkt = packet front body; write pkt code; pure pkt

abbrev byte_at : Bytes → ℕ → ℕ
byte_at xs i = get_or xs i 0

-- tcp_recv_packet: the packet with its length field, or the result -1 or -2.
pub tcp_recv_packet : ℕ → M Bytes
tcp_recv_packet max = do
  hdr ← read_exactly 4 1
  let total = read_be32 (byte_at hdr 0) (byte_at hdr 1) (byte_at hdr 2) (byte_at hdr 3)
  guard (not (ltb total 4 || ltb max total)) 2
  rest ← read_exactly (total - 4) 1
  pure (hdr ++ rest)

-- What mercury_send encrypts: the command, the length in 16 bits, the payload.
pub frame : ℕ → Bytes → Bytes
frame cmd payload = u8 cmd ∷ (be16 (u16 (length payload)) ++ payload)

-- mercury_send.
pub send : ℕ → Bytes → M (Unit {0})
send cmd payload = do
  s ← read
  guard (is_open s.sock) 1
  let (c, masked) =
      Shannon.encrypt (Shannon.set_nonce s.send_cipher (be32 s.send_nonce)) (frame cmd payload)
  modify (λ t. record t { send_cipher = c; send_nonce = u32 (s.send_nonce + 1) })
  write masked 2
  let (c', mac) = Shannon.finish c
  modify (λ t. record t { send_cipher = c' })
  write mac 3

-- The payload of a packet: nothing is read where its length is 0.
recv_body : ℕ → M Bytes
recv_body zero = pure []
recv_body (suc n) = do
  masked ← read_exactly (suc n) 1
  t ← read
  let (c, plain) = Shannon.decrypt t.recv_cipher masked
  modify (λ u. record u { recv_cipher = c })
  pure plain

-- mercury_recv: the command and the payload, of which at most `max` bytes are read. The MAC that was
-- received is compared with the one computed only to write a message.
pub recv : ℕ → M (ℕ × Bytes)
recv max = do
  s ← read
  guard (is_open s.sock) 1
  hdr ← read_exactly 3 1
  let (c, plain) = Shannon.decrypt (Shannon.set_nonce s.recv_cipher (be32 s.recv_nonce)) hdr
  modify (λ t. record t { recv_cipher = c; recv_nonce = u32 (s.recv_nonce + 1) })
  let pkt_len = read_u16_be (byte_at plain 1) (byte_at plain 2)
  body ← recv_body (if ltb max pkt_len then max else pkt_len)
  mac ← read_exactly 4 1
  modify (λ t. record t { recv_cipher = (Shannon.finish t.recv_cipher).0 })
  pure (byte_at plain 0, body)

-- shannon_init: both ciphers start afresh, each from its own key.
pub shannon_init : Bytes → Bytes → M (Unit {0})
shannon_init sk rk = modify λ s. record s {
  send_cipher = Shannon.set_key s.send_cipher sk;
  recv_cipher = Shannon.set_key s.recv_cipher rk;
}

-- compute_auth_challenge: five HMACs over a counter byte and both packets, one behind the other, then
-- the first is replaced by the HMAC of the packets under it.
pub auth_challenge : Crypto → Bytes → Bytes → Bytes → Bytes
auth_challenge crypto shared hello_pkt ap_resp =
    let cb = hello_pkt ++ ap_resp in
    let round = λ (x : ℕ). crypto.hmac_sha1 shared (x ∷ cb) in
    crypto.hmac_sha1 (round 1) cb ++ (round 2 ++ (round 3 ++ (round 4 ++ round 5)))

-- mercury_get_canonical_username and mercury_get_stored_cred; `none` is NULL.
pub get_canonical_username : Session → Option Bytes
get_canonical_username s =
    if byte_at s.canonical_username 0 == 0 then none else some s.canonical_username

pub get_stored_cred : Session → Option Bytes
get_stored_cred s = if length s.stored_cred == 0 then none else some s.stored_cred

-- mercury_is_connected, mercury_disconnect and what is left of the session by mercury_destroy.
unfoldable pub is_connected : Session → Bool
is_connected s = s.connected

unfoldable pub disconnect : Session → Session
disconnect s = record s { sock = none; connected = false }
