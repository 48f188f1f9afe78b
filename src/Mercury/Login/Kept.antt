-- ===== src/Mercury/Login/Kept.antt =====
-- The steps of a session that leave its mark of being connected alone.
use espconnect.Common.{
  ℕ, zero, suc, ◌≡◌, refl, ◌∙◌, Bool, true, false, [], Option, none, some, Bytes, ltb, ◌==◌, ◌||◌,
  if◌then◌else◌, Bool-cases, inl, inr, length,
}
use espconnect.Crypto.{Crypto}
use espconnect.Proto.{Buf}
use espconnect.Tcp.{Conn}
use espconnect.Mercury.{
  Session, Outcome, ok, fail, hang, M, ◌>>=◌, ◌>>◌, resume, guard, write, write_on, read_exactly,
  read_on, recv_body, send, recv, tcp_send_packet, tcp_recv_packet, shannon_init,
}
use espconnect.Mercury.Login.{
  Inputs, built, ended, found_or, connect, recv_response, key_exchange, send_request, send_login,
  after_recv, wait_auth,
}

-- A step that leaves the mark alone, whatever it returns.
abbrev pub Keeps {ℓ} : {A : Type ℓ} → M A → Type 0
Keeps m = (s : Session) → (m s).1.connected ≡ s.connected

resume_keeps {ℓ κ} :
    {A : Type ℓ} {B : Type κ} (f : A → M B) (r : Outcome A)
    → ((a : A) → Keeps (f a))
    → Keeps (resume f r)
resume_keeps f (ok a) h s = h a s
resume_keeps f (fail n) h s = refl
resume_keeps f hang h s = refl

bind_keeps {ℓ κ} :
    {A : Type ℓ} {B : Type κ} (m : M A) (f : A → M B)
    → Keeps m
    → ((a : A) → Keeps (f a))
    → Keeps (m >>= f)
bind_keeps m f hm hf s = resume_keeps f (m s).0 hf (m s).1 ∙ hm s

write-keeps : (xs : Bytes) (code : ℕ) → Keeps (write xs code)
unfolding write
write-keeps xs code s = on_socket s.sock
  where
    on_socket : (c : Option Conn) → (write_on c xs code s).1.connected ≡ s.connected
    on_socket none = unfold write_on in refl
    on_socket (some c) = unfold write_on in refl

read-keeps : (n code : ℕ) → Keeps (read_exactly n code)
unfolding read_exactly
read-keeps n code s = on_socket s.sock
  where
    on_socket : (c : Option Conn) → (read_on c n code s).1.connected ≡ s.connected
    on_socket none = unfold read_on in refl
    on_socket (some c) = unfold read_on in refl

pub guard-keeps : (b : Bool) (n : ℕ) → Keeps (guard b n)
guard-keeps true n s = refl
guard-keeps false n s = refl

pub found_or-keeps {ℓ} : {A : Type ℓ} (o : Option A) (n : ℕ) → Keeps (found_or o n)
unfolding found_or
found_or-keeps none n s = refl
found_or-keeps (some a) n s = refl

pub ended-keeps {ℓ} : {A : Type ℓ} (o : Option A) → Keeps (ended o)
unfolding ended
ended-keeps none s = refl
ended-keeps (some a) s = refl

guard_keeps {ℓ} : {A : Type ℓ} (b : Bool) (n : ℕ) (m : M A) → Keeps m → Keeps (guard b n >> m)
guard_keeps b n m h = bind_keeps (guard b n) (λ _. m) (guard-keeps b n) (λ _. h)

write_keeps {ℓ} : {A : Type ℓ} (xs : Bytes) (n : ℕ) (m : M A) → Keeps m → Keeps (write xs n >> m)
write_keeps xs n m h = bind_keeps (write xs n) (λ _. m) (write-keeps xs n) (λ _. h)

pub send-keeps : (cmd : ℕ) (payload : Bytes) → Keeps (send cmd payload)
unfolding send
send-keeps cmd payload s = guard_keeps _ 1 _ (λ t. write_keeps _ 2 _ (λ u. write-keeps _ 3 _) _) s

recv_body-keeps : (n : ℕ) → Keeps (recv_body n)
unfolding recv_body
recv_body-keeps zero s = refl
recv_body-keeps (suc n) s =
    bind_keeps (read_exactly (suc n) 1) _ (read-keeps (suc n) 1) (λ masked t. refl) s

pub recv-keeps : (max : ℕ) → Keeps (recv max)
unfolding recv
recv-keeps max s =
    guard_keeps _ 1 _
      (bind_keeps (read_exactly 3 1) _ (read-keeps 3 1) (λ hdr t.
        bind_keeps (recv_body _) _ (recv_body-keeps _)
          (λ body. bind_keeps (read_exactly 4 1) _ (read-keeps 4 1) (λ mac u. refl)) _))
      s

built-keeps : (b : Option Buf) → Keeps (built b)
unfolding built
built-keeps none s = refl
built-keeps (some b) s = refl

tcp_send_packet-keeps : (front body : Bytes) (code : ℕ) → Keeps (tcp_send_packet front body code)
unfolding tcp_send_packet
tcp_send_packet-keeps front body code = write_keeps _ code _ (λ s. refl)

tcp_recv_packet-keeps : (max : ℕ) → Keeps (tcp_recv_packet max)
unfolding tcp_recv_packet
tcp_recv_packet-keeps max =
    bind_keeps (read_exactly 4 1) _ (read-keeps 4 1)
      (λ hdr. guard_keeps _ 2 _ (bind_keeps (read_exactly _ 1) _ (read-keeps _ 1) (λ rest s. refl)))

recv_response-keeps : Keeps recv_response
unfolding recv_response
recv_response-keeps s =
    by_result (tcp_recv_packet 4096 s).0 (tcp_recv_packet 4096 s).1 (tcp_recv_packet-keeps 4096 s)
  where
    by_result :
        (r : Outcome Bytes) (s' : Session)
        → s'.connected ≡ s.connected
        → (let x : Outcome Bytes × Session = elim r [
          | fail n ↦ (fail 5, s')
          | hang ↦ (hang, s')
          | ok ar ↦ (if ltb (length ar) 8 then fail 5 else ok ar, s')
        ] in
            x.1.connected ≡ s.connected)
    by_result (ok a) s' h = h
    by_result (fail n) s' h = h
    by_result hang s' h = h

send_request-keeps : (lr : Bytes) → Keeps (send_request lr)
unfolding send_request
send_request-keeps lr s = by_result (send 0xAB lr s).0 (send 0xAB lr s).1 (send-keeps 0xAB lr s)
  where
    by_result :
        (r : Outcome (Unit {0})) (s' : Session)
        → s'.connected ≡ s.connected
        → (let x : Outcome (Unit {0}) × Session = elim r [
          | ok u ↦ (ok u, s')
          | fail n ↦ (fail 8, s')
          | hang ↦ (hang, s')
        ] in
            x.1.connected ≡ s.connected)
    by_result (ok a) s' h = h
    by_result (fail n) s' h = h
    by_result hang s' h = h

pub connect-keeps : (i : Inputs) (host : Bytes) (port : ℕ) → Keeps (connect i host port)
unfolding connect
connect-keeps i host port s = bind_keeps (found_or _ 3) _ (found_or-keeps _ 3) (λ c t. refl) _

pub key_exchange-keeps :
    (crypto : Crypto) (fuel : ℕ) (i : Inputs) → Keeps (key_exchange crypto fuel i)
unfolding key_exchange
key_exchange-keeps crypto fuel i = bind_keeps (built _) _ (built-keeps _) (λ ch.
    bind_keeps (tcp_send_packet _ ch 4) _ (tcp_send_packet-keeps _ ch 4) (λ pkt.
      bind_keeps recv_response _ recv_response-keeps (λ ar.
        bind_keeps (ended _) _ (ended-keeps _)
          (λ dh. bind_keeps (found_or dh 6) _ (found_or-keeps dh 6) (λ key s. refl)))))

pub send_login-keeps :
    (challenge credentials : Bytes) (auth_type : ℕ) (username : Option Bytes) (device : Bytes)
    → Keeps (send_login challenge credentials auth_type username device)
unfolding send_login shannon_init
send_login-keeps challenge credentials auth_type username device =
    bind_keeps (built _) _ (built-keeps _) (λ cr.
      write_keeps cr 7 _
        (λ s. bind_keeps (built _) _ (built-keeps _) (λ lr. send_request-keeps lr) _))

after_recv-keeps :
    (next : ℕ → Bytes → M (ℕ × Bytes)) (r : Outcome (ℕ × Bytes))
    → ((cmd : ℕ) (rx : Bytes) → Keeps (next cmd rx))
    → Keeps (after_recv next r)
unfolding after_recv
after_recv-keeps next (fail n) h s = refl
after_recv-keeps next hang h s = refl
after_recv-keeps next (ok (cmd, rx)) h s = elim (Bool-cases (cmd == 0xAC || cmd == 0xAD)) [
  | inl e ↦ rw e refl
  | inr e ↦ rw e (h cmd rx _ ∙ ponged (cmd == 0x04))
]
  where
    ponged : (b : Bool) → (if b then (send 0x49 [] s).1 else s).connected ≡ s.connected
    ponged true = send-keeps 0x49 [] s
    ponged false = refl

pub wait_auth-keeps : (left cmd : ℕ) (rx : Bytes) → Keeps (wait_auth left cmd rx)
unfolding wait_auth
wait_auth-keeps zero cmd rx s = refl
wait_auth-keeps (suc left) cmd rx s =
    after_recv-keeps (wait_auth left) (recv 4096 s).0 (wait_auth-keeps left) (recv 4096 s).1
    ∙ recv-keeps 4096 s
