-- ===== src/Mercury/Tests.antt =====
-- Witnesses for packets and for the login: a session that is not connected and constant functions in
-- place of the libraries.
use espconnect.Common.{◌≡◌, ◌↔◌, refl, true, [], ◌∷◌, some, replicate}
use espconnect.Common.{ℕ, Bytes, zero, suc, ◌+◌, ◌++◌, append-nil, ap, length, u32, arith}
use espconnect.Crypto.{Crypto}
use espconnect.Shannon
use espconnect.Tcp.{Conn}
use espconnect.Tcp.Stream.{stream, stream_of}
use espconnect.Mercury.{send, fail}
use espconnect.Common.{◌⊎◌}
use espconnect.Mercury.Sending.{masked, mac_of, send-outbox}
use espconnect.Mercury.Framing.{on, head, wanted, content, tcp_recv_packet-packet, recv-stream}
use espconnect.Mercury.EndToEnd.{recv-send_short}
use espconnect.Shannon.Keys.{set_key-IsValid}
use espconnect.Mercury.{Session, init, ok, packet, byte_at, tcp_recv_packet, recv}
use espconnect.Mercury.Login.{Inputs, Args, login5}
use espconnect.Mercury.Login.Connected.{login5-connected_iff}

abbrev constant : Crypto
constant = record {
  sha1 = λ _. replicate 20 0;
  hmac_sha1 = λ _ _. replicate 20 0;
  pbkdf2_sha1 = λ _ _ _ n. replicate n 0;
  aes_ctr128 = λ _ _ d. d;
  aes_ecb_decrypt192 = λ _ d. d;
  dh_compute_key = λ _ _. some (5 ∷ []);
  base64_decode = λ t _. t;
  base64_encode = λ b _. b;
}

-- A host with one address, whose connection takes a few bytes.
abbrev inputs : Inputs
inputs = record {
  resolve = λ _ _. some (
      record {
        inet = true;
        socket_opens = true;
        connects =
            some (record { inbox = (0 ∷ 0 ∷ 0 ∷ 9 ∷ []) ∷ []; quota = 500 ∷ []; outbox = [] });
      }
      ∷ []);
  new_public = replicate 96 2;
  new_private = replicate 96 3;
  nonce = replicate 16 4;
}

abbrev args : Args
args = record {
  username = some (97 ∷ []);
  auth_text = some (replicate 12 65);
  auth_type = 1;
  device_id = some (98 ∷ []);
  ap_host = some (99 ∷ []);
  ap_port = 443;
}

login5-connected_iff_example :
    ((login5 constant 64 inputs args init).1.connected ≡ true)
    ↔ ((login5 constant 64 inputs args init).0 ≡ ok tt)
unfolding init
login5-connected_iff_example = login5-connected_iff constant 64 inputs args init refl

-- A connection on which a framed packet arrives in two pieces, with a byte behind it.
abbrev framed : Conn
framed = record { inbox = (0 ∷ 0 ∷ []) ∷ (0 ∷ 6 ∷ 8 ∷ 9 ∷ 7 ∷ []) ∷ []; quota = []; outbox = [] }

tcp_recv_packet-packet_example :
    (c' : Conn) × (tcp_recv_packet 64 (on init framed) ≡ (ok (packet [] (8 ∷ 9 ∷ [])), on init c'))
    × (stream c' ≡ 7 ∷ [])
unfolding stream stream_of packet
tcp_recv_packet-packet_example =
    tcp_recv_packet-packet init framed 64 (8 ∷ 9 ∷ []) (7 ∷ []) (omega arith) (omega arith) refl

-- A header, as much payload as it says once it is decrypted (16 bytes at most), and a MAC.
abbrev three : Bytes
three = 1 ∷ 2 ∷ 3 ∷ []

abbrev four : Bytes
four = 4 ∷ 5 ∷ 6 ∷ 7 ∷ []

abbrev payload : Bytes
payload = replicate (wanted 16 (head init three).1) 8

abbrev packet_arrives : Conn
packet_arrives = record {
  inbox = (three ++ (payload ++ (four ++ []))) ∷ [];
  quota = [];
  outbox = [];
}

length-payload : (n : ℕ) → length {A = ℕ} (replicate n 8) ≡ n
length-payload zero = refl
length-payload (suc n) = ap suc (length-payload n)

recv-stream_example :
    (c' : Conn) × (recv 16 (on init packet_arrives) ≡ (
      ok (byte_at (head init three).1 0, (content init three payload).1),
      record init {
        sock = some c';
        recv_cipher = (Shannon.finish (content init three payload).0).0;
        recv_nonce = u32 (init.recv_nonce + 1);
      },
    ))
    × (stream c' ≡ [])
unfolding stream stream_of
recv-stream_example =
    recv-stream init packet_arrives 16 three payload four [] refl
      (length-payload (wanted 16 (head init three).1)) refl (append-nil _)

-- A connection that takes three bytes and then fails.
abbrev narrow : Conn
narrow = record { inbox = []; quota = 3 ∷ []; outbox = [] }

send-outbox_example :
    (((send 0x49 four (on init narrow)).0 ≡ ok tt)
      × ((c' : Conn) × ((send 0x49 four (on init narrow)).1.sock ≡ some c')
          × (c'.outbox ≡ (masked init 0x49 four).1 ++ mac_of init 0x49 four))
      × ((send 0x49 four (on init narrow)).1.send_nonce ≡ u32 (init.send_nonce + 1)))
    ⊎ (((send 0x49 four (on init narrow)).0 ≡ fail 2)
        ⊎ ((send 0x49 four (on init narrow)).0 ≡ fail 3))
send-outbox_example = send-outbox init narrow 0x49 four

-- Two sessions with the same key, and a stream with a packet of one byte and a byte behind it.
abbrev sender : Session
sender = record init { send_cipher = Shannon.set_key Shannon.new four }

abbrev receiver : Session
receiver = record init { recv_cipher = Shannon.set_key Shannon.new four }

abbrev pong : Bytes
pong = 9 ∷ []

abbrev pong_arrives : Conn
pong_arrives = record {
  inbox = (((masked sender 0x49 pong).1 ++ mac_of sender 0x49 pong) ++ (7 ∷ [])) ∷ [];
  quota = [];
  outbox = [];
}

one_segment : (xs : Bytes) → stream_of (xs ∷ []) ≡ xs
unfolding stream_of
one_segment [] = refl
one_segment (x ∷ xs) = append-nil (x ∷ xs)

recv-send_short_example :
    ((recv 16 (on receiver pong_arrives)).0 ≡ ok (0x49, pong))
    × ((c' : Conn) × ((recv 16 (on receiver pong_arrives)).1.sock ≡ some c') × (stream c' ≡ 7 ∷ []))
    × ((recv 16 (on receiver pong_arrives)).1.recv_nonce ≡ 1)
unfolding stream init
recv-send_short_example =
    recv-send_short sender receiver pong_arrives 16 0x49 pong (7 ∷ [])
      (set_key-IsValid four (omega arith)) refl (omega arith) (omega arith) (omega arith)
      (one_segment (((masked sender 0x49 pong).1 ++ mac_of sender 0x49 pong) ++ (7 ∷ [])))
