-- ===== src/Mercury/Login.antt =====
-- mercury_login5 of src/mercury.c, in the order of its comments. The inputs from outside are the
-- addresses that getaddrinfo gives for a host and a port, the DH key pair and the nonce. The dumps to stderr and to
-- login5_dump.txt are left out; they write secrets, and change no state of the program.
pub mod Kept
pub mod Connected
use espconnect.Common.{
  ℕ, zero, suc, ◌+◌, ◌-◌, ◌%◌, Bool, true, false, not, List, [], ◌∷◌, ◌++◌, Option, none, some,
  length, take, drop, replicate, Bytes, ltb, leb, ◌==◌, ◌||◌, if◌then◌else◌,
}
use mathlib.Core.List.{map}
use espconnect.Crypto.{Crypto, compute_shared}
use espconnect.Proto.{Buf}
use espconnect.Proto.Messages.{build_client_hello, build_client_resp, build_login_request}
use espconnect.Tcp.{Address, tcp_connect}
use espconnect.Mercury.{
  Session, Outcome, ok, fail, hang, M, ◌>>=◌, ◌>>◌, pure, stop, read, modify, guard, write, send,
  recv, tcp_send_packet, tcp_recv_packet, auth_challenge, shannon_init,
}
use espconnect.Mercury.Response.{find_server_dh, parse_welcome}

-- '-' to '+' and '_' to '/'.
pub plain_base64 : ℕ → ℕ
plain_base64 c = if c == b'-' then b'+' else if c == b'_' then b'/' else c

-- while (b64_len % 4 != 0) '=', which three rounds end.
pub pad_base64 : Bytes → Bytes
pad_base64 xs = xs ++ replicate ((4 - length xs % 4) % 4) b'='

-- The token itself for AUTHENTICATION_SPOTIFY_TOKEN, else the decoded text; each cut to its buffer.
pub auth_data : Crypto → ℕ → Bytes → Bytes
auth_data crypto auth_type text =
    if auth_type == 2
    then take 2048 text
    else crypto.base64_decode (pad_base64 (map plain_base64 (take 2043 text))) 2048

-- A builder's buffer; a write past it is not a result of the function, and `hang` stands for it.
pub built : Option Buf → M Bytes
built none s = (hang, s)
built (some b) s = (ok b.bytes, s)

-- A parser's result, which is missing where its loop does not end.
pub ended {ℓ} : {A : Type ℓ} → Option A → M A
ended none s = (hang, s)
ended (some a) s = (ok a, s)

pub found_or {ℓ} : {A : Type ℓ} → Option A → ℕ → M A
found_or none code s = (fail code, s)
found_or (some a) code s = (ok a, s)

-- One round of the loop that waits for the answer, by what mercury_recv returned. A PING is
-- answered, and whether the answer was sent is not looked at.
pub after_recv : (ℕ → Bytes → M (ℕ × Bytes)) → Outcome (ℕ × Bytes) → M (ℕ × Bytes)
after_recv next (fail n) s = (fail 9, s)
after_recv next hang s = (hang, s)
after_recv next (ok (cmd, rx)) s =
    let more = next cmd rx (if cmd == 0x04 then (send 0x49 [] s).1 else s) in
    if cmd == 0xAC || cmd == 0xAD then (ok (cmd, rx), s) else more

-- for (retry = 0; retry < 10; retry++): the last command, and the payload that came with it.
pub wait_auth : ℕ → ℕ → Bytes → M (ℕ × Bytes)
wait_auth zero cmd rx s = (ok (cmd, rx), s)
wait_auth (suc left) cmd rx s = after_recv (wait_auth left) (recv 4096 s).0 (recv 4096 s).1

pub record Inputs : Type 0 where
  pub resolve : Bytes → ℕ → Option (List Address)
  pub new_public : Bytes
  pub new_private : Bytes
  pub nonce : Bytes

-- TCP connect and the DH key pair.
pub connect : Inputs → Bytes → ℕ → M (Unit {0})
connect i host port = do
  let connection = tcp_connect (i.resolve host port)
  modify (λ s. record s { sock = connection })
  conn ← found_or connection 3
  modify (λ s. record s { dh_public = i.new_public; dh_private = i.new_private })

-- tcp_recv_packet with every failure, and a packet of less than 8 bytes, as -5.
pub recv_response : M Bytes
recv_response s =
    let (r, s') = tcp_recv_packet 4096 s in
    elim r [
      | fail n ↦ (fail 5, s')
      | hang ↦ (hang, s')
      | ok ar ↦ (if ltb (length ar) 8 then fail 5 else ok ar, s')
    ]

-- ClientHello, APResponse, the shared secret and the challenge: the 100 bytes of the answer and keys.
pub key_exchange : Crypto → ℕ → Inputs → M Bytes
key_exchange crypto fuel i = do
  ch ← built (build_client_hello i.new_public i.nonce)
  hello_pkt ← tcp_send_packet (0x00 ∷ 0x04 ∷ []) ch 4
  ar ← recv_response
  dh ← ended (find_server_dh fuel ar (length ar))
  server_dh ← found_or dh 6
  s ← read
  let shared = compute_shared crypto s.dh_private server_dh
  modify (λ t. record t { shared_key = shared })
  pure (auth_challenge crypto shared hello_pkt ar)

-- mercury_send with every failure as -8.
pub send_request : Bytes → M (Unit {0})
send_request lr s =
    let (r, s') = send 0xAB lr s in
    elim r [ ok u ↦ (ok u, s') | fail n ↦ (fail 8, s') | hang ↦ (hang, s') ]

-- ClientResponse in the clear, the two ciphers and the LoginRequest.
pub send_login : Bytes → Bytes → ℕ → Option Bytes → Bytes → M (Unit {0})
send_login challenge credentials auth_type username device_id = do
  cr ← built (build_client_resp (take 20 challenge))
  write cr 7
  shannon_init (take 32 (drop 20 challenge)) (take 32 (drop 52 challenge))
  modify (λ s. record s { send_nonce = 0; recv_nonce = 0 })
  lr ← built (build_login_request credentials auth_type username device_id)
  send_request lr

-- The APWelcome is stored and the session connected, if the command is AUTH_OK.
pub finish_login : ℕ → ℕ × Bytes → M (Unit {0})
finish_login fuel (cmd, rx) = do
  guard (cmd == 0xAC) 10
  s ← read
  w ← ended (
      parse_welcome fuel rx
        (record { canonical_username = s.canonical_username; stored_cred = s.stored_cred }))
  modify (λ t. record t {
    canonical_username = w.canonical_username;
    stored_cred = w.stored_cred;
    connected = true;
  })

-- The arguments: those that may be null are options; a port of 0 stands for every `ap_port <= 0`.
pub record Args : Type 0 where
  pub username : Option Bytes
  pub auth_text : Option Bytes
  pub auth_type : ℕ
  pub device_id : Option Bytes
  pub ap_host : Option Bytes
  pub ap_port : ℕ

pub login5 : Crypto → ℕ → Inputs → Args → M (Unit {0})
login5 crypto fuel i a = do
  text ← found_or a.auth_text 1
  device ← found_or a.device_id 1
  host ← found_or a.ap_host 1
  let credentials = auth_data crypto a.auth_type text
  guard (not (ltb (length credentials) 10)) 2
  connect i host (if a.ap_port == 0 then 443 else a.ap_port)
  challenge ← key_exchange crypto fuel i
  send_login challenge credentials a.auth_type a.username device
  answer ← wait_auth 10 0 []
  finish_login fuel answer
