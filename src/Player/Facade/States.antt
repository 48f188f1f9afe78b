-- ===== src/Player/Facade/States.antt =====
-- What the facade promises across its functions.
use espconnect.Common.{
  ℕ, zero, suc, ◌≡◌, refl, ap, Bool, false, Option, none, some, List, [], ◌∷◌, Bytes, arith,
}
use espconnect.Crypto.{Crypto}
use espconnect.Mercury
use espconnect.Zeroconf.Blob.{Result, done}
use espconnect.Zeroconf.Blob
use espconnect.Zeroconf.Session
use espconnect.Zeroconf.Session.{Credentials, poll, get_credentials}
use espconnect.Player.Facade.{
  Player, connected, idle, start, stop, store, or_else, after_poll, pair_loop, pair, get_state,
  is_connected,
}

-- Where the HTTP server does not start, esp_spotify_start leaves the state connected all the same,
-- and esp_spotify_pair, with at least one second to wait, then ends with -1.
pub pair-start_failed :
    (crypto : Crypto) (new_public new_private : Bytes) (mdns_starts : Bool) (h : Player)
    (client : Option Session.Client) (later : List (Option Session.Client))
    → (get_state (some (start new_public new_private false mdns_starts h)) ≡ connected)
      × ((pair crypto (client ∷ later) (start new_public new_private false mdns_starts h)).0 ≡ 1)
unfolding get_state start pair pair_loop after_poll Session.start Session.init Session.poll
pair-start_failed crypto new_public new_private mdns_starts h client later = (refl, refl)

-- After esp_spotify_stop the state is idle, the session does not count as connected, and
-- esp_spotify_pair, with at least one second to wait, ends with -1.
pub stop-is_connected :
    (crypto : Crypto) (h : Player) (client : Option Session.Client)
    (later : List (Option Session.Client))
    → (get_state (some (stop h)) ≡ idle)
      × (is_connected (some (stop h)) ≡ false)
      × ((pair crypto (client ∷ later) (stop h)).0 ≡ 1)
unfolding get_state stop is_connected pair pair_loop after_poll Session.stop Session.poll
    Mercury.disconnect Mercury.is_connected
stop-is_connected crypto h client later = (refl, without h.mercury, ended h.zeroconf)
  where
    without :
        (m : Option Mercury.Session) → is_connected (some (stop (record h { mercury = m }))) ≡ false
    without none = refl
    without (some s) = refl

    ended :
        (z : Option Session.Session)
        → (pair crypto (client ∷ later) (stop (record h { zeroconf = z }))).0 ≡ 1
    ended none = refl
    ended (some z) = refl

pub data IsGiven : Option Bytes → Type 0 where
  given : (text : Bytes) → IsGiven (some text)

pub or_else-IsGiven : (o : Option Bytes) (text : Bytes) → IsGiven (or_else o text)
unfolding or_else
or_else-IsGiven none text = given text
or_else-IsGiven (some old) text = given old

after_poll-IsGiven :
    (ret : Option ℕ) (creds : Result Credentials) (h : Player)
    → (after_poll ret creds h).0 ≡ some 0
    → IsGiven (after_poll ret creds h).1.config.username
unfolding after_poll store
after_poll-IsGiven none creds h e = absurd (ground arith)
after_poll-IsGiven (some zero) creds h e = absurd (ground arith)
after_poll-IsGiven (some (suc n)) (done creds) h e =
    or_else-IsGiven h.config.username creds.username
after_poll-IsGiven (some (suc n)) (Blob.fail code) h e = absurd (ground arith)

-- A round either ends the wait or hands over to the next one.
round-IsGiven :
    (stop : Option ℕ) (h : Player) (next : ℕ × Player)
    → (stop ≡ some 0 → IsGiven h.config.username)
    → (next.0 ≡ 0 → IsGiven next.1.config.username)
    → (elim stop as (λ _. ℕ × Player) [ none ↦ next | some code ↦ (code, h) ]).0 ≡ 0
    → IsGiven
        (elim stop as (λ _. ℕ × Player) [ none ↦ next | some code ↦ (code, h) ]).1.config.username
round-IsGiven none h next here later e = later e
round-IsGiven (some code) h next here later e = here (ap some e)

loop-IsGiven :
    (crypto : Crypto) (clients : List (Option Session.Client)) (z : Session.Session) (h : Player)
    → (pair_loop crypto clients z h).0 ≡ 0
    → IsGiven (pair_loop crypto clients z h).1.config.username
unfolding pair_loop
loop-IsGiven crypto [] z h e = absurd (omega arith)
loop-IsGiven crypto (client ∷ later) z h e =
    let r = poll crypto client z in
    let creds = get_credentials crypto r.1 in
    let h1 = record h { zeroconf = some r.1 } in
    let a = after_poll r.0 creds h1 in
    round-IsGiven a.0 a.1 (pair_loop crypto later r.1 a.1) (after_poll-IsGiven r.0 creds h1)
      (loop-IsGiven crypto later r.1 a.1) e

-- When esp_spotify_pair ends with 0, the player has a user name, which esp_spotify_login asks for.
pub pair-IsGiven :
    (crypto : Crypto) (clients : List (Option Session.Client)) (h : Player)
    → (pair crypto clients h).0 ≡ 0
    → IsGiven (pair crypto clients h).1.config.username
unfolding pair
pair-IsGiven crypto clients h = by_zeroconf h.zeroconf
  where
    by_zeroconf :
        (z : Option Session.Session)
        → (elim z as (λ _. ℕ × Player) [
          | none ↦ (1, h)
          | some z' ↦ pair_loop crypto clients z' h
        ]).0
          ≡ 0
        → IsGiven
            (elim z as (λ _. ℕ × Player) [
              | none ↦ (1, h)
              | some z' ↦ pair_loop crypto clients z' h
            ]).1.config.username
    by_zeroconf none e = absurd (omega arith)
    by_zeroconf (some z) e = loop-IsGiven crypto clients z h e
