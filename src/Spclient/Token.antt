-- ===== src/Spclient/Token.antt =====
-- The wait for the client token leaves the session connected, or not, as it was.
use espconnect.Common.{
  ℕ, zero, suc, ◌≡◌, refl, ◌∙◌, Option, none, some, Bytes, [], ◌==◌, ◌||◌, Bool-cases, inl, inr,
  ltb,
}
use espconnect.Mercury.{Session, Outcome, ok, fail, hang, M, send, recv}
use espconnect.Mercury.Login.Kept.{Keeps, send-keeps, recv-keeps}
use espconnect.Spclient.{
  find_token, after_token, wait_token, token_after, token_request, get_client_token,
}

after_token-keeps :
    (size : ℕ) (next : M Bytes) (r : Outcome (ℕ × Bytes))
    → Keeps next
    → Keeps (after_token size next r)
unfolding after_token
after_token-keeps size next (fail n) h s = h s
after_token-keeps size next hang h s = refl
after_token-keeps size next (ok (cmd, payload)) h s =
    elim (Bool-cases (cmd == 0x00 || cmd == 0x04)) [
      | inl e ↦ rw e (h (send 0x4a [] s).1 ∙ send-keeps 0x4a [] s)
      | inr e ↦ rw e (found (find_token size payload))
    ]
  where
    found :
        (o : Option Bytes)
        → (elim o as (λ _. Outcome Bytes × Session) [
          | none ↦ next s
          | some token ↦ (ok token, s)
        ]).1.connected
          ≡ s.connected
    found none = h s
    found (some token) = refl

wait_token-keeps : (size left : ℕ) → Keeps (wait_token size left)
unfolding wait_token
wait_token-keeps size zero s = refl
wait_token-keeps size (suc left) s =
    after_token-keeps size (wait_token size left) (recv 4096 s).0 (wait_token-keeps size left)
      (recv 4096 s).1
    ∙ recv-keeps 4096 s

token_after-keeps : (size : ℕ) (r : Outcome (Unit {0})) → Keeps (token_after size r)
unfolding token_after
token_after-keeps size (ok u) s = wait_token-keeps size 20 s
token_after-keeps size (fail n) s = refl
token_after-keeps size hang s = refl

pub get_client_token-keeps : (size : ℕ) → Keeps (get_client_token size)
unfolding get_client_token
get_client_token-keeps size s = elim (Bool-cases (ltb size 4)) [
  | inl e ↦ rw e refl
  | inr e ↦ rw e (
      token_after-keeps size (send 0xb2 token_request s).0 (send 0xb2 token_request s).1
      ∙ send-keeps 0xb2 token_request s)
]
