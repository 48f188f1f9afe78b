-- ===== src/Mercury/Sending.antt =====
-- What mercury_send puts on the wire.
use espconnect.Common.{
  ℕ, ◌+◌, ◌≡◌, refl, sym, ap, ◌∙◌, Bool, true, false, ◌++◌, append_assoc, append-nil, some, ◌⊎◌,
  inl, inr, Bytes, be32, u32, if◌then◌else◌,
}
use espconnect.Shannon
use espconnect.Shannon.{Cipher}
use espconnect.Tcp.{Conn, tcp_write}
use espconnect.Tcp.Write.{Sent, tcp_write-Sent}
use espconnect.Mercury.{
  Session, Outcome, ok, fail, M, ◌>>◌, modify, frame, is_open, write, write_on, send,
}
use espconnect.Mercury.Framing.{on}

-- What mercury_send masks, with the cipher after it, and the MAC behind it.
abbrev pub masked : Session → ℕ → Bytes → Cipher × Bytes
masked s cmd payload =
    Shannon.encrypt (Shannon.set_nonce s.send_cipher (be32 s.send_nonce)) (frame cmd payload)

abbrev pub mac_of : Session → ℕ → Bytes → Bytes
mac_of s cmd payload = (Shannon.finish (masked s cmd payload).0).1

-- What platform_tcp_write makes of the session.
abbrev wrote : Session → ℕ → Bool × Conn → Outcome (Unit {0}) × Session
wrote s code r = (if r.0 then ok tt else fail code, on s r.1)

-- A write has either failed, or put all its bytes out.
Wrote : Session → Conn → Bytes → ℕ → Outcome (Unit {0}) × Session → Type 0
Wrote s c xs code r =
    ((c' : Conn) × (r ≡ (ok tt, on s c')) × (c'.outbox ≡ c.outbox ++ xs)) ⊎ (r.0 ≡ fail code)

decided-Wrote :
    (s : Session) (c : Conn) (xs : Bytes) (code : ℕ) (r : Bool × Conn)
    → Sent c xs r
    → Wrote s c xs code (wrote s code r)
unfolding Wrote
decided-Wrote s c xs code (true, c') sent =
    let whole =
      sent.parts ∙ ap (λ l. sent.taken ++ l) (sent.whole.0 refl) ∙ append-nil sent.taken in
    inl (c', refl, sent.out ∙ ap (λ t. c.outbox ++ t) (sym whole))
decided-Wrote s c xs code (false, c') sent = inr refl

write-Wrote :
    (s : Session) (c : Conn) (xs : Bytes) (code : ℕ) → Wrote s c xs code (write xs code (on s c))
unfolding write write_on
write-Wrote s c xs code = decided-Wrote s c xs code (tcp_write c xs) (tcp_write-Sent c xs)

first_fails :
    (m k : M (Unit {0})) (s : Session) (code : ℕ) → (m s).0 ≡ fail code → ((m >> k) s).0 ≡ fail code
first_fails m k s code e = rw e refl

-- On an open socket, mercury_send either returns 0 and has put on the wire the masked command,
-- length and payload and behind them their MAC, whole and nothing else, and has moved the nonce on;
-- or it returns -2 or -3.
pub send-outbox :
    (s : Session) (c : Conn) (cmd : ℕ) (payload : Bytes)
    → (((send cmd payload (on s c)).0 ≡ ok tt)
        × ((c' : Conn) × ((send cmd payload (on s c)).1.sock ≡ some c')
            × (c'.outbox ≡ c.outbox ++ ((masked s cmd payload).1 ++ mac_of s cmd payload)))
        × ((send cmd payload (on s c)).1.send_nonce ≡ u32 (s.send_nonce + 1)))
      ⊎ (((send cmd payload (on s c)).0 ≡ fail 2) ⊎ ((send cmd payload (on s c)).0 ≡ fail 3))
unfolding send is_open Wrote
send-outbox s c cmd payload =
    let d = masked s cmd payload in
    let mac = Shannon.finish d.0 in
    let t = record s { send_cipher = d.0; send_nonce = u32 (s.send_nonce + 1) } in
    let u = record t { send_cipher = mac.0 } in
    let rest : M (Unit {0}) = modify (λ v. record v { send_cipher = mac.0 }) >> write mac.1 3 in
    elim (write-Wrote t c d.1 2) [
      | inl (c1, r1, o1) ↦ elim (write-Wrote u c1 mac.1 3) [
        | inl (c2, r2, o2) ↦
            let run : send cmd payload (on s c) ≡ (ok tt, on u c2) = rw (send, is_open, r1) r2 in
            inl (
              ap (λ r. r.0) run,
              (
                c2,
                ap (λ r. r.1.sock) run,
                o2 ∙ ap (λ o. o ++ mac.1) o1 ∙ append_assoc c.outbox d.1 mac.1,
              ),
              ap (λ r. r.1.send_nonce) run,
            )
        | inr bad ↦ inr (inr (rw (send, is_open, r1) bad))
      ]
      | inr bad ↦ inr (inl (first_fails (write d.1 2) rest (on t c) 2 bad))
    ]
