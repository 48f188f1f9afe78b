-- ===== src/Mercury/Framing.antt =====
-- What the packet functions of src/mercury.c give where the stream has the bytes.
use espconnect.Common.{
  ℕ, zero, suc, ◌+◌, ◌-◌, ◌^◌, ◌≤◌, ◌<◌, ◌≡◌, refl, sym, ap, ◌∙◌, true, not, [], ◌∷◌, ◌++◌, some,
  length, Bytes, ltb, ◌||◌, if◌then◌else◌, be32, u32, read_be32, read_u16_be, u8, or_disjoint, ◌*◌,
  ◌/◌, arith,
}
use espconnect.Shannon
use espconnect.Shannon.{Cipher}
use espconnect.Shannon.RoundTrip.{decrypt_nil}
use espconnect.Tcp.{Conn}
use espconnect.Tcp.Stream.{stream, tcp_read-ReadTo}
use espconnect.Mercury.{
  Session, ok, M, ◌>>=◌, ◌>>◌, pure, guard, is_open, byte_at, read_on, read_exactly, packet,
  tcp_recv_packet, recv_body, recv,
}

-- The session with another connection.
abbrev pub on : Session → Conn → Session
on s c = record s { sock = some c }

read_exactly-stream :
    (s : Session) (c : Conn) (n code : ℕ) (xs rest : Bytes)
    → length xs ≡ n
    → stream c ≡ xs ++ rest
    → (c' : Conn) × (read_exactly n code (on s c) ≡ (ok xs, on s c')) × (stream c' ≡ rest)
unfolding read_exactly read_on
read_exactly-stream s c n code xs rest len e =
    let (c', run, to) = tcp_read-ReadTo c n xs rest len e in (c', rw run refl, to.remaining)

bind_ok {ℓ κ} :
    {A : Type ℓ} {B : Type κ} (m : M A) (f : A → M B) (s s' : Session) (a : A)
    → m s ≡ (ok a, s')
    → (m >>= f) s ≡ f a s'
bind_ok m f s s' a e = rw e refl

read_be32-be32 :
    (v : ℕ) → v < 2 ^ 32 → read_be32 (u8 (v / 2 ^ 24)) (u8 (v / 2 ^ 16)) (u8 (v / 2 ^ 8)) (u8 v) ≡ v
read_be32-be32 v h =
    let b0 = u8 (v / 2 ^ 24) in
    let b1 = u8 (v / 2 ^ 16) in
    let b2 = u8 (v / 2 ^ 8) in
    ground (
      arith,
      or_disjoint 24 b0 (b1 * 2 ^ 16),
      or_disjoint 16 (b0 * 2 ^ 8 + b1) (b2 * 2 ^ 8),
      or_disjoint 8 (b0 * 2 ^ 16 + b1 * 2 ^ 8 + b2) (u8 v),
    )

-- tcp_recv_packet after its header.
received : ℕ → Bytes → ℕ → M Bytes
received max hdr total =
    guard (not (ltb total 4 || ltb max total)) 2
    >> (read_exactly (total - 4) 1 >>= λ rest. pure (hdr ++ rest))

-- A packet framed without a prefix that fits a buffer of less than 2^32 bytes is what
-- tcp_recv_packet gives from a stream that starts with it, and the rest of the stream is left.
pub tcp_recv_packet-packet :
    (s : Session) (c : Conn) (max : ℕ) (body rest : Bytes)
    → 4 + length body ≤ max
    → max < 2 ^ 32
    → stream c ≡ packet [] body ++ rest
    → (c' : Conn) × (tcp_recv_packet max (on s c) ≡ (ok (packet [] body), on s c'))
      × (stream c' ≡ rest)
unfolding tcp_recv_packet packet received
tcp_recv_packet-packet s c max body rest fits small e =
    let v = u32 (4 + 0 + length body) in
    let (c1, r1, e1) = read_exactly-stream s c 4 1 (be32 v) (body ++ rest) refl e in
    let total = read_be32-be32 v (omega arith) in
    let (c2, r2, e2) = read_exactly-stream s c1 (v - 4) 1 body rest (omega arith) e1 in
    let open_ : not (ltb v 4 || ltb max v) ≡ true = ground arith in
    (
      c2,
      bind_ok (read_exactly 4 1) _ (on s c) (on s c1) (be32 v) r1
          ∙ ap (λ t. received max (be32 v) t (on s c1)) total
          ∙ rw open_ (rw r2 refl),
      e2,
    )

recv_body-stream :
    (s : Session) (c : Conn) (n : ℕ) (masked rest : Bytes)
    → length masked ≡ n
    → stream c ≡ masked ++ rest
    → (c' : Conn) × (recv_body n (on s c) ≡ (
      ok (Shannon.decrypt s.recv_cipher masked).1,
      on (record s { recv_cipher = (Shannon.decrypt s.recv_cipher masked).0 }) c',
    ))
      × (stream c' ≡ rest)
unfolding recv_body
recv_body-stream s c zero [] rest len e = (
  c,
  ap (λ d. (ok d.1, on (record s { recv_cipher = d.0 }) c)) (sym (decrypt_nil s.recv_cipher)),
  e,
)
recv_body-stream s c (suc n) [] rest len e = absurd (omega arith)
recv_body-stream s c zero (x ∷ xs) rest len e = absurd (omega arith)
recv_body-stream s c (suc n) (x ∷ xs) rest len e =
    let (c', run, left) = read_exactly-stream s c (suc n) 1 (x ∷ xs) rest len e in
    (c', rw (recv_body, run) refl, left)

-- The receiving cipher at the start of a packet, and what mercury_recv makes of the header and of the
-- payload that it reads: the command, the payload, and the cipher before the MAC.
abbrev fresh : Session → Cipher
fresh s = Shannon.set_nonce s.recv_cipher (be32 s.recv_nonce)

abbrev pub head : Session → Bytes → Cipher × Bytes
head s hdr = Shannon.decrypt (fresh s) hdr

abbrev pub wanted : ℕ → Bytes → ℕ
wanted max plain =
    let len = read_u16_be (byte_at plain 1) (byte_at plain 2) in if ltb max len then max else len

abbrev pub content : Session → Bytes → Bytes → Cipher × Bytes
content s hdr body = Shannon.decrypt (head s hdr).0 body

-- Where the stream has a header, as many bytes of payload as the decrypted header says (or the
-- buffer takes) and four more, mercury_recv succeeds with the decrypted command and payload,
-- whatever the four bytes of the MAC are, moves the nonce on and leaves the rest of the stream.
pub recv-stream :
    (s : Session) (c : Conn) (max : ℕ) (hdr body mac rest : Bytes)
    → length hdr ≡ 3
    → length body ≡ wanted max (head s hdr).1
    → length mac ≡ 4
    → stream c ≡ hdr ++ (body ++ (mac ++ rest))
    → (c' : Conn) × (recv max (on s c) ≡ (
      ok (byte_at (head s hdr).1 0, (content s hdr body).1),
      record s {
        sock = some c';
        recv_cipher = (Shannon.finish (content s hdr body).0).0;
        recv_nonce = u32 (s.recv_nonce + 1);
      },
    ))
      × (stream c' ≡ rest)
unfolding recv is_open
recv-stream s c max hdr body mac rest l3 lb l4 e =
    let (c1, r1, e1) = read_exactly-stream s c 3 1 hdr (body ++ (mac ++ rest)) l3 e in
    let t = record s { recv_cipher = (head s hdr).0; recv_nonce = u32 (s.recv_nonce + 1) } in
    let (c2, r2, e2) = recv_body-stream t c1 (wanted max (head s hdr).1) body (mac ++ rest) lb e1 in
    let u = record t { recv_cipher = (content s hdr body).0 } in
    let (c3, r3, e3) = read_exactly-stream u c2 4 1 mac rest l4 e2 in
    (c3, rw (recv, is_open, r1) (rw r2 (rw r3 refl)), e3)
