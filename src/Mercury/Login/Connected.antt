-- ===== src/Mercury/Login/Connected.antt =====
-- When mercury_login5 marks the session connected.
use espconnect.Common.{ℕ, ◌≡◌, ◌↔◌, refl, ◌∙◌, true, false, [], Bytes, ◌==◌}
use espconnect.Crypto.{Crypto}
use espconnect.Mercury.{Session, Outcome, ok, fail, hang, M, ◌>>=◌, resume, guard}
use espconnect.Mercury.Login.{
  Inputs, Args, ended, found_or, connect, key_exchange, send_login, wait_auth, finish_login, login5,
}
use espconnect.Mercury.Login.Kept.{
  Keeps, guard-keeps, found_or-keeps, ended-keeps, connect-keeps, key_exchange-keeps,
  send_login-keeps, wait_auth-keeps,
}

-- From an unconnected session: marked exactly on success.
record Marks (r : Outcome (Unit {0}) × Session) : Type 0 where
  marked : (r.1.connected ≡ true) ↔ (r.0 ≡ ok tt)

abbrev MarksFrom : M (Unit {0}) → Type 0
MarksFrom m = (s : Session) → s.connected ≡ false → Marks (m s)

resume_marks {ℓ} :
    {A : Type ℓ} (f : A → M (Unit {0})) (r : Outcome A)
    → ((a : A) → MarksFrom (f a))
    → MarksFrom (resume f r)
resume_marks f (ok a) h s e = h a s e
resume_marks f (fail n) h s e = record { marked = ((λ p. cc), λ p. cc) }
resume_marks f hang h s e = record { marked = ((λ p. cc), λ p. cc) }

bind_marks {ℓ} :
    {A : Type ℓ} (m : M A) (f : A → M (Unit {0}))
    → Keeps m
    → ((a : A) → MarksFrom (f a))
    → MarksFrom (m >>= f)
bind_marks m f k h s e = resume_marks f (m s).0 h (m s).1 (k s ∙ e)

finish_login-marks : (fuel : ℕ) (answer : ℕ × Bytes) → MarksFrom (finish_login fuel answer)
unfolding finish_login
finish_login-marks fuel (cmd, rx) =
    bind_marks (guard (cmd == 0xAC) 10) _ (guard-keeps _ 10) (λ _ s e.
      bind_marks (ended _) _ (ended-keeps _) (λ w t f. record { marked = ((λ p. refl), λ p. refl) })
        s e)

-- From a session that is not connected, mercury_login5 leaves it connected exactly when it returns
-- 0, for every server, network, library and fuel.
pub login5-connected_iff :
    (crypto : Crypto) (fuel : ℕ) (i : Inputs) (a : Args) (s : Session)
    → s.connected ≡ false
    → ((login5 crypto fuel i a s).1.connected ≡ true) ↔ ((login5 crypto fuel i a s).0 ≡ ok tt)
unfolding login5
login5-connected_iff crypto fuel i a s e = all.marked
  where
    all : Marks (login5 crypto fuel i a s)
    all =
        bind_marks (found_or a.auth_text 1) _ (found_or-keeps _ 1)
          (λ text. bind_marks (found_or a.device_id 1) _ (found_or-keeps _ 1) (λ device.
            bind_marks (found_or a.ap_host 1) _ (found_or-keeps _ 1) (λ host.
              bind_marks (guard _ 2) _ (guard-keeps _ 2) (λ _.
                bind_marks (connect i host _) _ (connect-keeps i host _) (λ _.
                  bind_marks (key_exchange crypto fuel i) _ (key_exchange-keeps crypto fuel i)
                    (λ ch.
                      bind_marks (send_login ch _ a.auth_type a.username device) _
                        (send_login-keeps ch _ a.auth_type a.username device)
                        (λ _.
                          bind_marks (wait_auth 10 0 []) _ (wait_auth-keeps 10 0 [])
                            (finish_login-marks fuel))))))))
          s e
