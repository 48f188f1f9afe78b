-- ===== src/Player/Facade.antt =====
-- The session of src/esp_spotify.c. A handle is never null here, except for the query functions, where
-- `none` is the null handle; the settings that only the caller's memory depends on (client_id and
-- client_secret) are left out, as nothing reads them.
pub mod States
pub mod Login
pub mod Reached
mod Tests
use espconnect.Common.{
  ℕ, zero, suc, ◌+◌, ◌-◌, Bool, true, false, List, [], ◌∷◌, Option, none, some, length, take, Bytes,
  codes, ◌==◌, if◌then◌else◌,
}
use espconnect.Crypto.{Crypto}
use espconnect.Mercury
use espconnect.Mercury.{Outcome, ok, fail, hang}
use espconnect.Mercury.Login.{Inputs, Args, login5}
use espconnect.Player.Audio
use espconnect.Player.Audio.{get_audio_key}
use espconnect.Spclient
use espconnect.Spclient.Metadata.{File, get_track_metadata}
use espconnect.Spclient.{HttpsGet, resolve_cdn_url, get_client_token}
use espconnect.Tcp.{Conn}
use espconnect.Zeroconf.Blob.{Result, done}
use espconnect.Zeroconf.Blob
use espconnect.Zeroconf.Session
use espconnect.Zeroconf.Session.{Credentials}

pub data State : Type 0 where
  idle : State
  connecting : State
  connected : State
  authenticated : State
  playing : State
  error : State

-- A port of 0 in what the caller passes stands for the default.
pub record Config : Type 0 where
  pub device_name : Option Bytes
  pub device_id : Option Bytes
  pub username : Option Bytes
  pub ap_host : Option Bytes
  pub ap_port : ℕ
  pub bell_port : ℕ

pub record Player : Type 0 where
  pub config : Config
  pub state : State
  pub zeroconf : Option Session.Session
  pub auth_data : Bytes
  pub auth_type : ℕ
  pub mercury : Option Mercury.Session
  pub client_token : Bytes

-- esp_spotify_init.
pub init : Config → Player
init config = record {
  config = record config {
    ap_port = if config.ap_port == 0 then 443 else config.ap_port;
    bell_port = if config.bell_port == 0 then 7864 else config.bell_port;
  };
  state = idle;
  zeroconf = none;
  auth_data = [];
  auth_type = 0;
  mercury = none;
  client_token = [];
}

-- esp_spotify_start, by the key pair and whether the two servers start. The result of zeroconf_start
-- is not looked at.
pub start : Bytes → Bytes → Bool → Bool → Player → Player
start new_public new_private bell_starts mdns_starts h =
    let z =
      Session.init
        (record {
          device_name = h.config.device_name;
          device_id = h.config.device_id;
          brand_display = some (codes "ESPConnect");
          model_display = h.config.device_name;
          bell_port = h.config.bell_port;
        })
        new_public new_private in
    record h { zeroconf = some (Session.start bell_starts mdns_starts z).1; state = connected }

pub or_else : Option Bytes → Bytes → Option Bytes
or_else none text = some text
or_else (some old) text = some old

-- What esp_spotify_pair stores of the credentials.
pub store : Credentials → Player → Player
store creds h = record h {
  auth_data = take 4095 creds.auth_data;
  auth_type = creds.auth_type;
  config = record h.config { username = or_else h.config.username creds.username };
}

-- One round of the wait, by what zeroconf_poll and zeroconf_get_credentials gave; `some n` ends it
-- with the result -n.
pub after_poll : Option ℕ → Result Credentials → Player → Option ℕ × Player
after_poll none creds h = (some 1, h)
after_poll (some zero) creds h = (none, h)
after_poll (some (suc n)) (done creds) h = (some 0, store creds h)
after_poll (some (suc n)) (Blob.fail code) h = (none, h)

-- for (waited = 0; waited < timeout_seconds; waited++), with the connections that each round accepts:
-- the result -2 is the timeout.
pub pair_loop : Crypto → List (Option Session.Client) → Session.Session → Player → ℕ × Player
pair_loop crypto [] z h = (2, record h { zeroconf = some z })
pair_loop crypto (client ∷ later) z h =
    let (ret, z') = Session.poll crypto client z in
    let (stop, h') =
      after_poll ret (Session.get_credentials crypto z') (record h { zeroconf = some z' }) in
    let next = pair_loop crypto later z' h' in elim stop [ none ↦ next | some code ↦ (code, h') ]

-- esp_spotify_pair, with one element of the list to each second.
pub pair : Crypto → List (Option Session.Client) → Player → ℕ × Player
pair crypto clients h = elim h.zeroconf [ none ↦ (1, h) | some z ↦ pair_loop crypto clients z h ]

abbrev given : Option Bytes → Bytes → Bytes
given none default = default
given (some text) default = text

-- What the token request leaves in client_token: a failure changes nothing.
token_or : Outcome Bytes → Bytes → Bytes
token_or (ok token) old = token
token_or (fail n) old = old
token_or hang old = old

-- What esp_spotify_login passes to mercury_login5.
pub login_args : Bytes → Player → Args
login_args username h = record {
  username = some username;
  auth_text = some h.auth_data;
  auth_type = h.auth_type;
  device_id = some (given h.config.device_id (codes "142137fd329622137a14901634264e6f332e2411"));
  ap_host = some (given h.config.ap_host (codes "ap-gew4.spotify.com"));
  ap_port = h.config.ap_port;
}

-- The login and, if it succeeded, the request of the client token, whose failure is passed over.
pub login_as : Crypto → ℕ → Inputs → Bytes → Player → Outcome (Unit {0}) × Player
login_as crypto fuel i username h =
    let (r, s) = login5 crypto fuel i (login_args username h) Mercury.init in
    let (token, s') = get_client_token 2048 s in
    elim r [
      | ok u ↦ (ok tt, record h { mercury = some s'; client_token = token_or token h.client_token })
      | fail n ↦ (fail n, record h { mercury = some s })
      | hang ↦ (hang, record h { mercury = some s })
    ]

-- esp_spotify_login.
pub login : Crypto → ℕ → Inputs → Player → Outcome (Unit {0}) × Player
login crypto fuel i h = elim h.config.username [
  | none ↦ (fail 3, record h { mercury = some Mercury.init })
  | some username ↦
      if length h.auth_data == 0
      then (fail 3, record h { mercury = some Mercury.init })
      else login_as crypto fuel i username h
]

-- The requests of esp_spotify_get_track_meta and esp_spotify_resolve_cdn, which need the token.
pub with_token {ℓ} : {A : Type ℓ} → Player → (Bytes → Outcome A) → Outcome A
with_token h request = if length h.client_token == 0 then fail 4 else request h.client_token

-- esp_spotify_get_track_meta.
pub track_meta : HttpsGet → Bytes → Player → Outcome (List File)
track_meta https_get track_id h =
    with_token h (λ token. get_track_metadata https_get token track_id)

-- esp_spotify_resolve_cdn.
pub resolve_cdn : HttpsGet → Bytes → ℕ → Player → Outcome Bytes
resolve_cdn https_get file_id_hex url_size h =
    with_token h (λ token. resolve_cdn_url https_get token file_id_hex url_size)

-- esp_spotify_download_audio and esp_spotify_decrypt_audio, which do not look at the handle.
pub download_audio : HttpsGet → Bytes → ℕ → ℕ → ℕ → Outcome Bytes
download_audio https_get cdn_url offset len buffer_size =
    Spclient.download_audio https_get cdn_url offset len buffer_size

pub decrypt_audio : Crypto → Bytes → Bytes → Bytes → Option Bytes
decrypt_audio crypto buffer key file_id = Audio.decrypt_audio crypto buffer key file_id

-- esp_spotify_get_audio_key.
pub audio_key : Bytes → Bytes → Player → Outcome Bytes × Player
audio_key track_id file_id h = elim h.mercury [
  | none ↦ (fail 1, h)
  | some s ↦ let (r, s') = get_audio_key track_id file_id s in (r, record h { mercury = some s' })
]

-- esp_spotify_get_state, esp_spotify_is_connected and esp_spotify_get_username.
pub get_state : Option Player → State
get_state none = error
get_state (some h) = h.state

pub is_connected : Option Player → Bool
is_connected none = false
is_connected (some h) = elim h.mercury [ none ↦ false | some s ↦ Mercury.is_connected s ]

pub get_username : Option Player → Option Bytes
get_username none = none
get_username (some h) = elim h.mercury [ none ↦ none | some s ↦ Mercury.get_canonical_username s ]

-- esp_spotify_stop, which is what esp_spotify_destroy does before it frees everything.
pub stop : Player → Player
stop h = record h {
  state = idle;
  zeroconf = elim h.zeroconf [ none ↦ none | some z ↦ some (Session.stop z) ];
  mercury = elim h.mercury [ none ↦ none | some s ↦ some (Mercury.disconnect s) ];
}
