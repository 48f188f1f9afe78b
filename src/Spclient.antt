-- ===== src/Spclient.antt =====
-- src/spclient.c: the requests over HTTP and the client token. platform_https_get is an argument: from
-- the host, the path, the header lines and the timeout to the response. Pointers are never null.
-- The AudioKey request is in Player.Audio, the track metadata in the child Metadata.
pub mod Cdn
pub mod Token
pub mod Metadata
mod Tests
use espconnect.Common.{
  ℕ, zero, suc, ◌+◌, ◌-◌, ◌^◌, Bool, true, false, not, List, [], ◌∷◌, ◌++◌, Option, none, some,
  length, take, drop, Bytes, codes, c_string, behind, find_at, before_byte, decimal, u64, ltb, leb,
  ◌==◌, ◌&&◌, ◌||◌, if◌then◌else◌,
}
use espconnect.Mercury.{Session, Outcome, ok, fail, hang, M, send, recv}

-- `body` is `none` for the null pointer.
pub record Response : Type 0 where
  pub status_code : ℕ
  pub body : Option Bytes

abbrev pub HttpsGet : Type 0
HttpsGet = Bytes → Bytes → List Bytes → ℕ → Response

abbrev quote : ℕ
quote = b'"'

-- What the copy of a URL takes: up to the next quotation mark, cut to the buffer.
pub copy_url : ℕ → Bytes → Bytes
copy_url url_size text = take (url_size - 1) (before_byte quote text)

-- The URL in the JSON text: where the key is found, 10 bytes behind the start of the key.
pub parse_cdn_url : ℕ → Bytes → Outcome Bytes
parse_cdn_url url_size json = elim (find_at (codes "\"cdnurl\":[\"") json) [
  | some url_start ↦ ok (copy_url url_size (drop 10 url_start))
  | none ↦ elim (find_at (codes "http") json) [
    | none ↦ fail 3
    | some url_start ↦ ok (copy_url url_size url_start)
  ]
]

-- What is made of the response.
pub cdn_response : ℕ → Response → Outcome Bytes
cdn_response url_size resp = elim resp.body [
  | none ↦ fail 2
  | some body ↦ if resp.status_code == 200 then parse_cdn_url url_size (c_string body) else fail 2
]

-- The Authorization header, cut to its buffer.
pub bearer : Bytes → Bytes
bearer client_token = take 1023 (codes "Authorization: Bearer " ++ client_token)

-- spclient_resolve_cdn_url: the text in cdn_url_out.
pub resolve_cdn_url : HttpsGet → Bytes → Bytes → ℕ → Outcome Bytes
resolve_cdn_url https_get client_token file_id_hex url_size =
    let path = take 511 (
      codes "/storage-resolve/files/audio/interactive/"
      ++ (file_id_hex ++ codes "?product=9&alt=json")) in
    let resp =
      https_get (codes "spclient.wg.spotify.com") path
        (bearer client_token ∷ codes "Accept: application/json" ∷ []) 10 in
    if ltb url_size 256 then fail 1 else cdn_response url_size resp

-- The URL without "https://".
pub without_scheme : Bytes → Bytes
without_scheme url = elim (behind (codes "https://") url) [ none ↦ url | some rest ↦ rest ]

-- spclient_download_audio: the bytes stored at the front of the buffer, as many as it returns. The end of the
-- range is computed on 64 bits.
pub download_audio : HttpsGet → Bytes → ℕ → ℕ → ℕ → Outcome Bytes
download_audio https_get cdn_url offset len buffer_size =
    let url = without_scheme cdn_url in
    let host = before_byte b'/' url in
    let path = drop (length host) url in
    let range = take 127 (
      codes "Range: bytes="
      ++ (decimal 20 offset ++ (b'-' ∷ decimal 20 (u64 (offset + len + (2 ^ 64 - 1)))))) in
    let resp = https_get host path (range ∷ codes "Accept: */*" ∷ []) 15 in
    let received : Bytes = elim resp.body [ none ↦ [] | some body ↦ take buffer_size body ] in
    if ltb buffer_size len
    then fail 1
    else if length path == 0 || leb 256 (length host)
    then fail 2
    else if not (resp.status_code == 200) && not (resp.status_code == 206)
    then fail 3
    else ok received

-- The request for the client token: the Mercury header, the URI and the protobuf payload.
pub token_request : Bytes
token_request =
    0x00
    ∷ 0x01
    ∷ 0x04
    ∷ 0x01
    ∷ (codes "hm://keymaster/client/token" ++ (0x08 ∷ 0x01 ∷ 0x12 ∷ 0x00 ∷ []))

-- The text up to a quotation mark, if there is one.
pub quoted : Bytes → Option Bytes
quoted text =
    let token = before_byte quote text in
    if ltb (length token) (length text) then some token else none

-- for (j = 0; j + 15 < len; j++): the first token that ends and fits. The search for the closing mark
-- ends with the payload, where the source goes on into the rest of its buffer.
pub find_token : ℕ → Bytes → Option Bytes
find_token token_size [] = none
find_token token_size (c ∷ cs) =
    let later = find_token token_size cs in
    let here : Option Bytes = elim (behind (codes "\"token\":\"") (c ∷ cs)) [
      | none ↦ later
      | some start ↦ elim (quoted (c_string start)) [
        | none ↦ later
        | some token ↦ if ltb (length token) token_size then some token else later
      ]
    ] in
    if ltb 15 (length (c ∷ cs)) then here else none

-- One round of the wait for the token.
pub after_token : ℕ → M Bytes → Outcome (ℕ × Bytes) → M Bytes
after_token token_size next (fail n) s = next s
after_token token_size next hang s = (hang, s)
after_token token_size next (ok (cmd, payload)) s =
    let ponged = next (send 0x4a [] s).1 in
    let later = next s in
    let found : Outcome Bytes × Session = elim (find_token token_size payload) [
      | none ↦ later
      | some token ↦ (ok token, s)
    ] in
    if cmd == 0x00 || cmd == 0x04 then ponged else found

-- for (i = 0; i < 20; i++)
pub wait_token : ℕ → ℕ → M Bytes
wait_token token_size zero s = (fail 3, s)
wait_token token_size (suc left) s =
    let (r, s') = recv 4096 s in after_token token_size (wait_token token_size left) r s'

pub token_after : ℕ → Outcome (Unit {0}) → M Bytes
token_after token_size (ok u) s = wait_token token_size 20 s
token_after token_size (fail n) s = (fail 2, s)
token_after token_size hang s = (hang, s)

-- spclient_get_client_token.
pub get_client_token : ℕ → M Bytes
get_client_token token_size s =
    let (r, s') = send 0xb2 token_request s in
    let (r', s'') = token_after token_size r s' in
    if ltb token_size 4 then (fail 1, s) else (r', s'')
