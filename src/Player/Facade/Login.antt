-- ===== src/Player/Facade/Login.antt =====
-- What the result of esp_spotify_login says of the session.
use espconnect.Common.{
  ℕ, ◌≡◌, ◌↔◌, refl, sym, ◌∙◌, true, Option, none, some, Bytes, inl, inr, length, if◌then◌else◌,
  ◌==◌, Bool-cases,
}
use espconnect.Crypto.{Crypto}
use espconnect.Mercury
use espconnect.Mercury.{Outcome, ok, fail, hang}
use espconnect.Mercury.Login.{Inputs, login5}
use espconnect.Mercury.Login.Connected.{login5-connected_iff}
use espconnect.Spclient.{get_client_token}
use espconnect.Spclient.Token.{get_client_token-keeps}
use espconnect.Player.Facade.{Player, login_args, login_as, login, is_connected, token_or}

-- What one run of esp_spotify_login leaves, by the result and the session of mercury_login5.
after_login :
    (h : Player) (r : Outcome (Unit {0})) (s s' : Mercury.Session) (token : Bytes)
    → s.connected ≡ s'.connected
    → ((s.connected ≡ true) ↔ (r ≡ ok tt))
    → (let out : Outcome (Unit {0}) × Player = elim r [
      | ok u ↦ (ok tt, record h { mercury = some s'; client_token = token })
      | fail n ↦ (fail n, record h { mercury = some s })
      | hang ↦ (hang, record h { mercury = some s })
    ] in
        (is_connected (some out.1) ≡ true) ↔ (out.0 ≡ ok tt))
unfolding is_connected Mercury.is_connected
after_login h (ok u) s s' token e iff = ((λ p. refl), λ p. sym e ∙ iff.1 refl)
after_login h (fail n) s s' token e iff = iff
after_login h hang s s' token e iff = iff

login_as_iff :
    (crypto : Crypto) (fuel : ℕ) (i : Inputs) (username : Bytes) (h : Player)
    → (is_connected (some (login_as crypto fuel i username h).1) ≡ true)
      ↔ ((login_as crypto fuel i username h).0 ≡ ok tt)
unfolding login_as Mercury.init
login_as_iff crypto fuel i username h =
    let run = login5 crypto fuel i (login_args username h) Mercury.init in
    let asked = get_client_token 2048 run.1 in
    after_login h run.0 run.1 asked.1 (token_or asked.0 h.client_token)
      (sym (get_client_token-keeps 2048 run.1))
      (login5-connected_iff crypto fuel i (login_args username h) Mercury.init refl)

not_yet :
    (h : Player)
    → (is_connected (some (record h { mercury = some Mercury.init })) ≡ true)
      ↔ (◌≡◌ {A = Outcome (Unit {0})} (fail 3) (ok tt))
unfolding is_connected Mercury.is_connected Mercury.init
not_yet h = ((λ p. absurd (cc)), λ p. absurd (cc))

-- Whatever the handle was, after esp_spotify_login the session counts as connected exactly when the
-- result is 0, for every server, network, library and fuel.
pub login-is_connected_iff :
    (crypto : Crypto) (fuel : ℕ) (i : Inputs) (h : Player)
    → (is_connected (some (login crypto fuel i h).1) ≡ true) ↔ ((login crypto fuel i h).0 ≡ ok tt)
unfolding login
login-is_connected_iff crypto fuel i h = by_name h.config.username
  where
    by_name :
        (o : Option Bytes)
        → (let out : Outcome (Unit {0}) × Player = elim o [
          | none ↦ (fail 3, record h { mercury = some Mercury.init })
          | some username ↦
              if length h.auth_data == 0
              then (fail 3, record h { mercury = some Mercury.init })
              else login_as crypto fuel i username h
        ] in
            (is_connected (some out.1) ≡ true) ↔ (out.0 ≡ ok tt))
    by_name none = not_yet h
    by_name (some username) = elim (Bool-cases (length h.auth_data == 0)) [
      | inl e ↦ rw e (not_yet h)
      | inr e ↦ rw e (login_as_iff crypto fuel i username h)
    ]
