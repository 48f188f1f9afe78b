-- ===== src/Player/Facade/Tests.antt =====
-- Witnesses for the facade, at a new player.
use espconnect.Common.{◌≡◌, ◌↔◌, [], ◌∷◌, some, none, true}
use espconnect.Mercury.{ok}
use espconnect.Mercury.Login.{Inputs}
use espconnect.Crypto.{Crypto}
use espconnect.Player.Facade.{Player, init, start, stop, pair, login, audio_key, is_connected}
use espconnect.Player.Facade.Login.{login-is_connected_iff}
use espconnect.Player.Facade.Reached.{
  made, started, paired, logged_in, stopped, asked, IsSound, Reached-IsSound,
}

abbrev nothing : Crypto
nothing = record {
  sha1 = λ _. [];
  hmac_sha1 = λ _ _. [];
  pbkdf2_sha1 = λ _ _ _ _. [];
  aes_ctr128 = λ _ _ d. d;
  aes_ecb_decrypt192 = λ _ d. d;
  dh_compute_key = λ _ _. none;
  base64_decode = λ t _. t;
  base64_encode = λ b _. b;
}

abbrev fresh : Player
fresh = init (record {
  device_name = none;
  device_id = none;
  username = none;
  ap_host = none;
  ap_port = 0;
  bell_port = 0;
})

-- Nothing is resolved.
abbrev offline : Inputs
offline = record { resolve = λ _ _. none; new_public = []; new_private = []; nonce = [] }

login-is_connected_iff_example :
    (is_connected (some (login nothing 5 offline fresh).1) ≡ true)
    ↔ ((login nothing 5 offline fresh).0 ≡ ok tt)
login-is_connected_iff_example = login-is_connected_iff nothing 5 offline fresh

abbrev waited : Player
waited = (pair nothing (none ∷ none ∷ []) (start [] [] true true fresh)).1

Reached-IsSound_example : IsSound (audio_key [] [] (stop (login nothing 5 offline waited).1)).1
Reached-IsSound_example =
    Reached-IsSound (audio_key [] [] (stop (login nothing 5 offline waited).1)).1 (
      asked (stop (login nothing 5 offline waited).1) [] [] (
        stopped (login nothing 5 offline waited).1 (
          logged_in waited nothing 5 offline (
            paired (start [] [] true true fresh) nothing (none ∷ none ∷ []) (
              started fresh [] [] true true (
                made (record {
                  device_name = none;
                  device_id = none;
                  username = none;
                  ap_host = none;
                  ap_port = 0;
                  bell_port = 0;
                })))))))
