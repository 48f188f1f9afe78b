-- ===== src/Zeroconf/Session.antt =====
-- The session of src/zeroconf.c: its configuration, the handler of one HTTP request, and the functions
-- of its interface. What the operating system does (the server socket, the mDNS responder, the
-- connection that is accepted) is an argument. The members auth_data_b64, auth_type and
-- timeout_seconds, which no function reads, are left out; the texts are C strings without their NUL.
pub mod Captured
pub mod Paired
mod Tests
use espconnect.Common.{
  ℕ, zero, suc, ◌+◌, ◌-◌, ◌*◌, ◌/◌, ◌%◌, Bool, true, false, not, List, [], ◌∷◌, ◌++◌, Option, none,
  some, length, replicate, take, Bytes, codes, c_string, decimal, same_bytes, find_behind,
  before_byte, ltb, leb, ◌==◌, ◌&&◌, ◌||◌, if◌then◌else◌,
}
use espconnect.Crypto.{Crypto, compute_shared}
use espconnect.Tcp.{Conn, recv, tcp_write}
use espconnect.Zeroconf.Blob.{Result, done, fail, Auth, process_blob}
use espconnect.Zeroconf.Http.{word, whole_request, blank_line, ok_response, not_found}
use espconnect.Zeroconf.Query.{get_query_param}

-- A null pointer is `none`; a port of 0 stands for the default.
pub record Config : Type 0 where
  pub device_name : Option Bytes
  pub device_id : Option Bytes
  pub brand_display : Option Bytes
  pub model_display : Option Bytes
  pub bell_port : ℕ

-- `bell` and `mdns` tell whether the pointers to the two servers are set.
pub record Session : Type 0 where
  pub device_name : Bytes
  pub device_id : Bytes
  pub brand_display : Bytes
  pub model_display : Bytes
  pub bell_port : ℕ
  pub dh_public : Bytes
  pub dh_private : Bytes
  pub dh_ready : Bool
  pub username : Bytes
  pub blob_b64 : Bytes
  pub client_key_b64 : Bytes
  pub creds_captured : Bool
  pub bell : Bool
  pub mdns : Bool
  pub running : Bool

abbrev pub default_device_id : Bytes
default_device_id = codes "142137fd329622137a1490161234567890123456"

-- strncpy of a setting, or of its default, into a zeroed buffer of `size` bytes.
pub setting : Option Bytes → Bytes → ℕ → Bytes
setting none default size = take (size - 1) default
setting (some text) default size = take (size - 1) text

-- zeroconf_init with the key pair that was generated.
unfoldable pub init : Config → Bytes → Bytes → Session
init config new_public new_private =
    let name = setting config.device_name (codes "ESPConnect") 128 in
    record {
      device_name = name;
      device_id = setting config.device_id default_device_id 64;
      brand_display = setting config.brand_display (codes "cspot") 64;
      model_display = setting config.model_display name 128;
      bell_port = if config.bell_port == 0 then 7864 else config.bell_port;
      dh_public = new_public;
      dh_private = new_private;
      dh_ready = true;
      username = [];
      blob_b64 = [];
      client_key_b64 = [];
      creds_captured = false;
      bell = false;
      mdns = false;
      running = false;
    }

-- zeroconf_start: the first number is the result without its sign; the Booleans tell whether the HTTP
-- server and the mDNS responder start.
unfoldable pub start : Bool → Bool → Session → ℕ × Session
start bell_starts mdns_starts s =
    if not s.dh_ready
    then (1, s)
    else if not bell_starts
    then (2, record s { bell = false })
    else (0, record s { bell = true; mdns = mdns_starts; running = true })

-- strncpy over the buffer of a field, which keeps its value where the parameter is missing.
pub stored : Option Bytes → ℕ → Bytes → Bytes
stored none size old = old
stored (some text) size old = take (size - 1) (c_string text)

-- if (!u) u = get_query_param(body_start, "username")
pub find_user : Bytes → Option Bytes
find_user body = elim (get_query_param body (codes "userName")) [
  | none ↦ get_query_param body (codes "username")
  | some u ↦ some u
]

abbrev is_empty : Bytes → Bool
is_empty [] = true
is_empty (x ∷ xs) = false

-- What a POST stores, and whether all three texts are there.
pub store_credentials : Bytes → Session → Session
store_credentials body s =
    let u = stored (find_user body) 256 s.username in
    let b = stored (get_query_param body (codes "blob")) 4096 s.blob_b64 in
    let k = stored (get_query_param body (codes "clientKey")) 1024 s.client_key_b64 in
    let all_there = not (is_empty u) && (not (is_empty b) && not (is_empty k)) in
    record s {
      username = u;
      blob_b64 = b;
      client_key_b64 = k;
      creds_captured = if all_there then true else s.creds_captured;
    }

-- The JSON text of GET /spotify_info. The texts of a session are shorter than the buffers of the
-- handler leave room for, so that no snprintf cuts.
pub device_info : Crypto → Session → Bytes
device_info crypto s =
    codes
      "{\"accountReq\":\"PREMIUM\",\"activeUser\":\"\",\"availability\":\"\",\"brandDisplayName\":\""
    ++ s.brand_display
    ++ codes "\",\"deviceID\":\""
    ++ s.device_id
    ++ codes "\",\"deviceType\":\"SPEAKER\",\"groupStatus\":\"NONE\",\"libraryVersion\":\"1.0.0\","
    ++ codes "\"modelDisplayName\":\""
    ++ s.model_display
    ++ codes "\",\"productID\":0,\"publicKey\":\""
    ++ crypto.base64_encode s.dh_public 256
    ++ codes "\",\"remoteName\":\""
    ++ s.device_name
    ++ codes "\",\"resolverVersion\":\"0\",\"scope\":\"streaming,client-authorization-universal\","
    ++ codes "\"spotifyError\":0,\"status\":101,\"statusString\":\"OK\",\"tokenType\":\"default\","
    ++ codes "\"version\":\"2.7.1\",\"voiceSupport\":\"NO\"}"

pub info_response : Crypto → Session → Bytes
info_response crypto s =
    let text = device_info crypto s in
    codes "HTTP/1.1 200 OK\r\nContent-Type: application/json\r\nContent-Length: "
    ++ decimal 10 (length text)
    ++ codes "\r\nAccess-Control-Allow-Origin: *\r\n\r\n"
    ++ text

-- platform_http_server_write, whose result is not looked at; the SIGPIPE that a failing send may raise,
-- which would end the process, is left out.
abbrev answer : Bytes → Session → Conn → Session × Conn
answer text s c = (s, (tcp_write c text).1)

-- The POST branch.
pub handle_post : Bytes → Session → Conn → Session × Conn
handle_post buf s c =
    let (whole, c') = whole_request buf c in
    elim (find_behind blank_line (c_string whole)) [
      | none ↦ (s, c')
      | some body ↦ answer ok_response (store_credentials body s) c'
    ]

-- A connection that was accepted, and the bytes that stand behind the last one written of the local array
-- path_only while its request is handled, which nothing has set.
pub record Client : Type 0 where
  pub conn : Conn
  pub unset : Bytes

-- path_only, as strstr reads it: of a path of 511 bytes without a '?', strncpy writes no NUL, and the text
-- goes on with what is not set.
pub path_only : Bytes → Bytes → Bytes
path_only unset path = elim (find_behind (codes "?") path) [
  | none ↦ if leb 511 (length path) then path ++ c_string unset else path
  | some query ↦ before_byte b'?' path
]

-- What is done with the first bytes of a request.
pub handle_bytes : Crypto → Bytes → Bytes → Session → Conn → Session × Conn
handle_bytes crypto unset buf s c =
    let (method, rest) = word 15 (c_string buf) in
    let (path, unread) = word 511 rest in
    let about_info : Bool = elim (find_behind (codes "/spotify_info") (path_only unset path)) [
      | none ↦ false
      | some tail ↦ true
    ] in
    if same_bytes method (codes "GET") && about_info
    then answer (info_response crypto s) s c
    else if same_bytes method (codes "POST") && about_info
    then handle_post buf s c
    else answer not_found s c

-- bell_handle_request: nothing is done where nothing arrives.
pub bell_handle_request : Crypto → Session → Client → Session × Conn
bell_handle_request crypto s client =
    let c = client.conn in
    let (r, c') = recv c 8190 in
    elim r [
      | none ↦ (s, c')
      | some [] ↦ (s, c')
      | some (x ∷ xs) ↦ handle_bytes crypto client.unset (x ∷ xs) s c'
    ]

-- zeroconf_poll with the connection that was accepted, if any: `none` is the result -1.
unfoldable pub poll : Crypto → Option Client → Session → Option ℕ × Session
poll crypto client s =
    let s' : Session = elim client [ none ↦ s | some c ↦ (bell_handle_request crypto s c).0 ] in
    if not s.running
    then (none, s)
    else if s.creds_captured
    then (some 1, s)
    else (some (if s'.creds_captured then 1 else 0), s')

pub record Credentials : Type 0 where
  pub username : Bytes
  pub auth_data : Bytes
  pub auth_type : ℕ

-- The credentials that process_blob gives, copied by strdup.
pub credentials : Bytes → Result Auth → Result Credentials
credentials username (fail n) = fail n
credentials username (done a) =
    done (record { username = username; auth_data = c_string a.auth_data; auth_type = a.auth_type })

-- zeroconf_get_credentials. Where the DH computation fails, the shared secret is the 96 zeros that
-- platform_dh_compute_shared starts from, and it is used.
pub get_credentials : Crypto → Session → Result Credentials
get_credentials crypto s =
    let client_key = crypto.base64_decode s.client_key_b64 128 in
    let shared = compute_shared crypto s.dh_private client_key in
    let secret = if length shared == 0 then replicate 96 0 else shared in
    if not s.creds_captured
    then fail 2
    else if length client_key == 0
    then fail 3
    else credentials s.username (process_blob crypto s.blob_b64 s.username s.device_id secret 4096)

-- zeroconf_stop.
unfoldable pub stop : Session → Session
stop s = record s { running = false; mdns = false; bell = false }
