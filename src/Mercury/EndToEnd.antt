-- ===== src/Mercury/EndToEnd.antt =====
-- What mercury_recv gives where its stream has what mercury_send of the other end put out.
use espconnect.Common.{
  ℕ, zero, suc, ◌+◌, ◌≤◌, ◌/◌, ◌^◌, ◌≡◌, refl, sym, ap, ◌∙◌, [], ◌∷◌, ◌++◌, append_assoc, some,
  length, All, IsByte, Bytes, ltb, if◌then◌else◌, be32, u8, u16, u32, bit_and, read_u16_be, arith,
}
use espconnect.Shannon
use espconnect.Shannon.{Cipher}
use espconnect.Shannon.Valid.{IsValid}
use espconnect.Shannon.Keys.{set_nonce-IsValid}
use espconnect.Shannon.Header.{ReadBack, header-ReadBack, length-finish, nbuf-set_nonce}
use espconnect.Tcp.{Conn}
use espconnect.Tcp.Stream.{stream}
use espconnect.Mercury.{Session, ok, frame, recv}
use espconnect.Mercury.Framing.{on, wanted, recv-stream}
use espconnect.Mercury.Sending.{masked, mac_of}

-- The length that is read from the two bytes of a payload of at most one byte.
be16_short : (n : ℕ) → n ≤ 1 → read_u16_be (u8 (u16 n / 2 ^ 8)) (u8 (bit_and (u16 n) 0xFF)) ≡ n
be16_short zero h = refl
be16_short (suc zero) h = refl
be16_short (suc (suc n)) h = absurd (omega arith)

be32-IsByte : (v : ℕ) → All IsByte (be32 v)
be32-IsByte v = (omega arith, (omega arith, (omega arith, (omega arith, tt))))

-- The number of bytes of payload that are read, once the header says how many there are.
wanted_all :
    (max n : ℕ) (plain : Bytes) (cmd hi lo : ℕ)
    → plain ≡ cmd ∷ hi ∷ lo ∷ []
    → read_u16_be hi lo ≡ n
    → n ≤ max
    → wanted max plain ≡ n
wanted_all max n plain cmd hi lo e size fits =
    ap (wanted max) e ∙ ap (λ (l : ℕ). if ltb max l then max else l) size ∙ ground arith

-- A receiver whose cipher is the sender's, on a stream with a packet that reads back.
recv_back :
    (receiver : Session) (c : Conn) (max : ℕ) (s0 : Cipher) (cmd hi lo : ℕ)
    (payload mac rest : Bytes)
    → Shannon.set_nonce receiver.recv_cipher (be32 receiver.recv_nonce) ≡ s0
    → ReadBack s0 cmd hi lo payload
    → read_u16_be hi lo ≡ length payload
    → length payload ≤ max
    → length mac ≡ 4
    → stream c ≡ ((Shannon.encrypt s0 (cmd ∷ hi ∷ lo ∷ payload)).1 ++ mac) ++ rest
    → ((recv max (on receiver c)).0 ≡ ok (cmd, payload))
      × ((c' : Conn) × ((recv max (on receiver c)).1.sock ≡ some c') × (stream c' ≡ rest))
      × ((recv max (on receiver c)).1.recv_nonce ≡ u32 (receiver.recv_nonce + 1))
recv_back receiver c max s0 cmd hi lo payload mac rest same back size fits len4 arrives =
    let plain = ap (λ k. (Shannon.decrypt k back.hdr).1) same ∙ back.plain_hdr in
    let plain_body =
      ap (λ k. (Shannon.decrypt (Shannon.decrypt k back.hdr).0 back.body).1) same
      ∙ back.plain_body in
    let len = wanted_all max (length payload) _ cmd hi lo plain size fits in
    let parts =
      ap (λ m. (m ++ mac) ++ rest) back.parts
      ∙ append_assoc (back.hdr ++ back.body) mac rest
      ∙ append_assoc back.hdr back.body (mac ++ rest) in
    let (c', run, left) =
      recv-stream receiver c max back.hdr back.body mac rest back.length_hdr
        (back.length_body ∙ sym len) len4 (arrives ∙ parts) in
    (
      ap (λ r. r.0) run ∙ rw (plain, plain_body) refl,
      (c', ap (λ r. r.1.sock) run, left),
      ap (λ r. r.1.recv_nonce) run,
    )

-- Where the receiver, once its nonce is set, has the cipher that the sender has, and the sender's
-- cipher is valid, the masked packet and its MAC, as mercury_send puts them out (see
-- Mercury.Sending), with a payload of at most one byte, and no more than fits, come back from
-- mercury_recv: the command, the payload, the bytes behind the packet left on the stream, and the
-- nonce moved on.
pub recv-send_short :
    (sender receiver : Session) (c : Conn) (max cmd : ℕ) (payload rest : Bytes)
    → IsValid sender.send_cipher
    → Shannon.set_nonce receiver.recv_cipher (be32 receiver.recv_nonce)
      ≡ Shannon.set_nonce sender.send_cipher (be32 sender.send_nonce)
    → All IsByte payload
    → length payload ≤ 1
    → length payload ≤ max
    → stream c ≡ ((masked sender cmd payload).1 ++ mac_of sender cmd payload) ++ rest
    → ((recv max (on receiver c)).0 ≡ ok (u8 cmd, payload))
      × ((c' : Conn) × ((recv max (on receiver c)).1.sock ≡ some c') × (stream c' ≡ rest))
      × ((recv max (on receiver c)).1.recv_nonce ≡ u32 (receiver.recv_nonce + 1))
unfolding frame
recv-send_short sender receiver c max cmd payload rest v same bytes short fits arrives =
    let n = u16 (length payload) in
    recv_back receiver c max _ (u8 cmd) (u8 (n / 2 ^ 8)) (u8 (bit_and n 0xFF)) payload
      (mac_of sender cmd payload) rest same
      (header-ReadBack _ (u8 cmd) (u8 (n / 2 ^ 8)) (u8 (bit_and n 0xFF)) payload
        (set_nonce-IsValid _ _ v (be32-IsByte sender.send_nonce))
        (nbuf-set_nonce sender.send_cipher (be32 sender.send_nonce))
        (omega arith, (omega arith, (omega arith, tt))) bytes short)
      (be16_short (length payload) short) fits (length-finish _) arrives
