-- ===== src/Player/Facade/Reached.antt =====
-- The handles that the functions of src/esp_spotify.c make, in any order, and what holds of each.
use espconnect.Common.{
  ℕ, zero, suc, ◌≡◌, ◌≢◌, refl, sym, ap, ◌∙◌, Bool, true, false, Option, none, some, List, [], ◌∷◌,
  Bytes, ◌⊎◌, inl, inr, length, if◌then◌else◌, ◌==◌, Bool-cases,
}
use espconnect.Crypto.{Crypto}
use espconnect.Mercury
use espconnect.Mercury.{Outcome, ok, fail, hang}
use espconnect.Mercury.Login.{Inputs}
use espconnect.Player.Audio.{get_audio_key}
use espconnect.Player.Audio.Kept.{get_audio_key-keeps}
use espconnect.Zeroconf.Blob.{Result, done}
use espconnect.Zeroconf.Blob
use espconnect.Zeroconf.Session
use espconnect.Zeroconf.Session.{Credentials, poll, get_credentials}
use espconnect.Player.Facade.{
  Player, Config, connected, idle, init, start, stop, store, after_poll, pair_loop, pair, login_as,
  login, audio_key, is_connected,
}
use espconnect.Player.Facade.States.{IsGiven, or_else-IsGiven}

-- The handles that the functions make.
pub data Reached : Player → Type 0 where
  made : (config : Config) → Reached (init config)
  started :
      (h : Player) (new_public new_private : Bytes) (bell_starts mdns_starts : Bool)
      → Reached h
      → Reached (start new_public new_private bell_starts mdns_starts h)
  paired :
      (h : Player) (crypto : Crypto) (clients : List (Option Session.Client))
      → Reached h
      → Reached (pair crypto clients h).1
  logged_in :
      (h : Player) (crypto : Crypto) (fuel : ℕ) (i : Inputs)
      → Reached h
      → Reached (login crypto fuel i h).1
  asked :
      (h : Player) (track_id file_id : Bytes) → Reached h → Reached (audio_key track_id file_id h).1
  stopped : (h : Player) → Reached h → Reached (stop h)

-- The state is one of two, and a session that counts as connected has a user name.
pub record IsSound (h : Player) : Type 0 where
  pub settled : (h.state ≡ idle) ⊎ (h.state ≡ connected)
  pub named : is_connected (some h) ≡ true → IsGiven h.config.username

-- What esp_spotify_pair leaves alone, and that it takes no user name away.
record Paired (h h' : Player) : Type 0 where
  same_state : h'.state ≡ h.state
  same_session : h'.mercury ≡ h.mercury
  keeps_name : IsGiven h.config.username → IsGiven h'.config.username

Paired-refl : (h : Player) (z : Option Session.Session) → Paired h (record h { zeroconf = z })
Paired-refl h z = record { same_state = refl; same_session = refl; keeps_name = λ g. g }

Paired-trans : (h h1 h2 : Player) → Paired h h1 → Paired h1 h2 → Paired h h2
Paired-trans h h1 h2 p q = record {
  same_state = q.same_state ∙ p.same_state;
  same_session = q.same_session ∙ p.same_session;
  keeps_name = λ g. q.keeps_name (p.keeps_name g);
}

after_poll-Paired :
    (ret : Option ℕ) (creds : Result Credentials) (h : Player) → Paired h (after_poll ret creds h).1
unfolding after_poll store
after_poll-Paired none creds h = Paired-refl h h.zeroconf
after_poll-Paired (some zero) creds h = Paired-refl h h.zeroconf
after_poll-Paired (some (suc n)) (done creds) h = record {
  same_state = refl;
  same_session = refl;
  keeps_name = λ g. or_else-IsGiven h.config.username creds.username;
}
after_poll-Paired (some (suc n)) (Blob.fail code) h = Paired-refl h h.zeroconf

round-Paired :
    (h h' : Player) (stop : Option ℕ) (next : ℕ × Player)
    → Paired h h'
    → Paired h next.1
    → Paired h (elim stop as (λ _. ℕ × Player) [ none ↦ next | some code ↦ (code, h') ]).1
round-Paired h h' none next p q = q
round-Paired h h' (some code) next p q = p

loop-Paired :
    (crypto : Crypto) (clients : List (Option Session.Client)) (z : Session.Session) (h : Player)
    → Paired h (pair_loop crypto clients z h).1
unfolding pair_loop
loop-Paired crypto [] z h = Paired-refl h (some z)
loop-Paired crypto (client ∷ later) z h =
    let r = poll crypto client z in
    let h1 = record h { zeroconf = some r.1 } in
    let a = after_poll r.0 (get_credentials crypto r.1) h1 in
    let one =
      Paired-trans h h1 a.1 (Paired-refl h (some r.1))
        (after_poll-Paired r.0 (get_credentials crypto r.1) h1) in
    round-Paired h a.1 a.0 (pair_loop crypto later r.1 a.1) one
      (Paired-trans h a.1 _ one (loop-Paired crypto later r.1 a.1))

pair-Paired :
    (crypto : Crypto) (clients : List (Option Session.Client)) (h : Player)
    → Paired h (pair crypto clients h).1
unfolding pair
pair-Paired crypto clients h = by_zeroconf h.zeroconf
  where
    by_zeroconf :
        (z : Option Session.Session)
        → Paired h
            (elim z as (λ _. ℕ × Player) [
              | none ↦ (1, h)
              | some z' ↦ pair_loop crypto clients z' h
            ]).1
    by_zeroconf none = Paired-refl h h.zeroconf
    by_zeroconf (some z) = loop-Paired crypto clients z h

is_connected-by :
    (h : Player) (m : Option Mercury.Session)
    → h.mercury ≡ m
    → is_connected (some h) ≡ is_connected (some (record h { mercury = m }))
unfolding is_connected
is_connected-by h m e = ap (λ o. is_connected (some (record h { mercury = o }))) e

-- A handle with the state of a sound one, and a name where it is connected.
IsSound-by :
    (h h' : Player)
    → IsSound h
    → h'.state ≡ h.state
    → (is_connected (some h') ≡ true → IsGiven h'.config.username)
    → IsSound h'
IsSound-by h h' v e named = record {
  settled = elim v.settled [ inl p ↦ inl (e ∙ p) | inr p ↦ inr (e ∙ p) ];
  named = named;
}

Paired-IsSound : (h h' : Player) → Paired h h' → IsSound h → IsSound h'
unfolding is_connected
Paired-IsSound h h' p v =
    IsSound-by h h' v p.same_state
      (λ on. p.keeps_name (v.named (is_connected-by h h'.mercury (sym p.same_session) ∙ on)))

not_connected :
    (h : Player) → is_connected (some (record h { mercury = some Mercury.init })) ≡ false
unfolding is_connected Mercury.is_connected Mercury.init
not_connected h = refl

logged :
    (h : Player) (r : Outcome (Unit {0})) (s s' : Mercury.Session) (token : Bytes)
    → IsSound h
    → IsGiven h.config.username
    → IsSound
        (elim r as (λ _. Outcome (Unit {0}) × Player) [
          | ok u ↦ (ok tt, record h { mercury = some s'; client_token = token })
          | fail n ↦ (fail n, record h { mercury = some s })
          | hang ↦ (hang, record h { mercury = some s })
        ]).1
logged h (ok u) s s' token v g = IsSound-by h _ v refl (λ p. g)
logged h (fail n) s s' token v g = IsSound-by h _ v refl (λ p. g)
logged h hang s s' token v g = IsSound-by h _ v refl (λ p. g)

unconnected :
    (h : Player)
    → is_connected (some h) ≡ false
    → is_connected (some h) ≡ true
    → IsGiven h.config.username
unconnected h e p = absurd (true-false (sym p ∙ e))
  where
    true-false : true ≢ false
    true-false e = absurd (cc)

unlogged : (h : Player) → IsSound h → IsSound (record h { mercury = some Mercury.init })
unlogged h v =
    IsSound-by h _ v refl (unconnected (record h { mercury = some Mercury.init }) (not_connected h))

login-IsSound :
    (crypto : Crypto) (fuel : ℕ) (i : Inputs) (h : Player)
    → IsSound h
    → IsSound (login crypto fuel i h).1
unfolding login login_as
login-IsSound crypto fuel i h v = by_name h.config.username refl
  where
    by_name :
        (o : Option Bytes)
        → h.config.username ≡ o
        → IsSound
            (elim o as (λ _. Outcome (Unit {0}) × Player) [
              | none ↦ (fail 3, record h { mercury = some Mercury.init })
              | some username ↦
                  if length h.auth_data == 0
                  then (fail 3, record h { mercury = some Mercury.init })
                  else login_as crypto fuel i username h
            ]).1
    by_name none e = unlogged h v
    by_name (some username) e = elim (Bool-cases (length h.auth_data == 0)) [
      | inl f ↦ rw f (unlogged h v)
      | inr f ↦ rw f (logged h _ _ _ _ v (rw e (IsGiven.given username)))
    ]

audio_key-IsSound :
    (track_id file_id : Bytes) (h : Player) → IsSound h → IsSound (audio_key track_id file_id h).1
unfolding audio_key is_connected Mercury.is_connected
audio_key-IsSound track_id file_id h v = by_session h.mercury refl
  where
    by_session :
        (m : Option Mercury.Session)
        → h.mercury ≡ m
        → IsSound
            (elim m as (λ _. Outcome Bytes × Player) [
              | none ↦ (fail 1, h)
              | some s ↦
                  let (r, s') = get_audio_key track_id file_id s in
                  (r, record h { mercury = some s' })
            ]).1
    by_session none e = v
    by_session (some s) e = IsSound-by h _ v refl (λ p.
        v.named (is_connected-by h (some s) e ∙ sym (get_audio_key-keeps track_id file_id s) ∙ p))

stop-ends : (h : Player) → is_connected (some (stop h)) ≡ false
unfolding stop is_connected Mercury.is_connected Mercury.disconnect
stop-ends h = ended h.mercury
  where
    ended :
        (m : Option Mercury.Session) → is_connected (some (stop (record h { mercury = m }))) ≡ false
    ended none = refl
    ended (some s) = refl

stop-IsSound : (h : Player) → IsSound (stop h)
unfolding stop
stop-IsSound h = record { settled = inl refl; named = unconnected (stop h) (stop-ends h) }

init-IsSound : (config : Config) → IsSound (init config)
unfolding init is_connected
init-IsSound config = record { settled = inl refl; named = unconnected (init config) refl }

start-IsSound :
    (h : Player) (new_public new_private : Bytes) (bell_starts mdns_starts : Bool)
    → IsSound h
    → IsSound (start new_public new_private bell_starts mdns_starts h)
unfolding start is_connected
start-IsSound h new_public new_private bell_starts mdns_starts v = record {
  settled = inr refl;
  named = v.named;
}

-- In every handle that esp_spotify_init, start, pair, login, get_audio_key and stop make, in any
-- order, the state is IDLE or CONNECTED, and a session that counts as connected has a user name.
pub Reached-IsSound : (h : Player) → Reached h → IsSound h
Reached-IsSound h (made config) = init-IsSound config
Reached-IsSound h (started g new_public new_private bell mdns r) =
    start-IsSound g new_public new_private bell mdns (Reached-IsSound g r)
Reached-IsSound h (paired g crypto clients r) =
    Paired-IsSound g _ (pair-Paired crypto clients g) (Reached-IsSound g r)
Reached-IsSound h (logged_in g crypto fuel i r) =
    login-IsSound crypto fuel i g (Reached-IsSound g r)
Reached-IsSound h (asked g track_id file_id r) =
    audio_key-IsSound track_id file_id g (Reached-IsSound g r)
Reached-IsSound h (stopped g r) = stop-IsSound g
