-- ===== src/Zeroconf/Session/Tests.antt =====
-- A witness for the pairing: a session that was started and has taken one POST.
use espconnect.Common.{
  ◌≡◌, ◌≤◌, ◌<◌, ◌+◌, refl, sym, Bool, true, not, [], ◌∷◌, ◌++◌, some, none, length, replicate,
  Bytes, codes, ◌==◌, ◌&&◌, arith,
}
use mathlib.Core.Path.{subst}
use espconnect.Crypto.{Crypto, compute_shared}
use espconnect.Proto.Varint.{last}
use espconnect.Zeroconf.Blob.Sealed.{chain, chain_from}
use espconnect.Zeroconf.Blob.Credentials.{IsCredentials}
use espconnect.Zeroconf.Blob.Opened.{IsCodec, inner_text, masked_text, seal}
use espconnect.Zeroconf.Query.Decoding.{IsEncoded, plain}
use espconnect.Zeroconf.Query.Decoding.{done as end_of_text}
use espconnect.Zeroconf.Blob.{done}
use espconnect.Tcp.{Conn, recv, recv_from}
use espconnect.Zeroconf.Query.{
  get_query_param, query_from, url_decode, decode_loop, escape, hex_char_val, plus_to_space,
}
use espconnect.Zeroconf.Http.{word, word_at, skip_space, whole_request}
use espconnect.Zeroconf.Session.{
  Config, Session, Client, path_only, setting, init, start, poll, bell_handle_request, handle_bytes,
  handle_post, store_credentials, stored, find_user, default_device_id, get_credentials,
}
use espconnect.Zeroconf.Session.Paired.{IsSent, form, get_credentials-form}
use espconnect.Zeroconf.Session.Captured.{by_init, by_start, by_poll, HasTexts, captured-HasTexts}

abbrev config : Config
config = record {
  device_name = none;
  device_id = none;
  brand_display = none;
  model_display = none;
  bell_port = 0;
}

abbrev nothing : Crypto
nothing = record {
  sha1 = λ _. [];
  hmac_sha1 = λ _ _. [];
  pbkdf2_sha1 = λ _ _ _ _. [];
  aes_ctr128 = λ _ _ d. d;
  aes_ecb_decrypt192 = λ _ d. d;
  dh_compute_key = λ _ _. none;
  base64_decode = λ t _. t;
  base64_encode = λ b _. b;
}

abbrev request : Conn
request = record {
  inbox = codes "POST /spotify_info HTTP/1.1\r\n\r\nuserName=u&blob=b&clientKey=k" ∷ [];
  quota = [];
  outbox = [];
}

abbrev client : Client
client = record { conn = request; unset = [] }

abbrev started : Session
started = (start true true (init config [] [])).1

abbrev paired : Session
paired = (poll nothing (some client) started).1

captured-HasTexts_example : HasTexts paired
unfolding init start poll bell_handle_request handle_bytes handle_post whole_request
    store_credentials stored find_user path_only word word_at skip_space recv recv_from
    get_query_param query_from url_decode decode_loop escape hex_char_val plus_to_space setting
captured-HasTexts_example =
    captured-HasTexts paired
      (by_poll nothing (some client) started (by_start true true _ (by_init config [] []))) refl

-- A phone that sends "u", a sealed block and the key "key", with libraries that do nothing.
abbrev idle : Crypto
idle = record {
  sha1 = λ _. replicate 20 1;
  hmac_sha1 = λ _ _. replicate 20 1;
  pbkdf2_sha1 = λ _ _ _ n. replicate n 1;
  aes_ctr128 = λ _ _ d. d;
  aes_ecb_decrypt192 = λ _ d. d;
  dh_compute_key = λ _ _. some (5 ∷ []);
  base64_decode = λ t _. t;
  base64_encode = λ b _. b;
}

idle-IsCodec : IsCodec idle (λ bs. bs) (λ key bs. bs)
idle-IsCodec = record {
  decodes = λ bs cap h. refl;
  hmac_length = λ key bs. refl;
  ctr_length = λ key iv bs. refl;
  ctr_twice = λ key iv bs. refl;
  ecb_length = λ key bs. refl;
  ecb_undone = λ key bs h. refl;
}

-- The name "u", the type 2, the data "abc" and six bytes that fill the block.
abbrev block : Bytes
block = 0x0a ∷ 1 ∷ b'u' ∷ 0x10 ∷ 2 ∷ 0x1a ∷ 3 ∷ (codes "abc" ++ replicate 6 9)

block-IsCredentials : IsCredentials (codes "u") (codes "abc") 2 block
block-IsCredentials = record {
  name_field = 0x0a ∷ 1 ∷ b'u' ∷ [];
  type_field = 0x10 ∷ 2 ∷ [];
  data_field = 0x1a ∷ 3 ∷ codes "abc";
  pad = replicate 6 9;
  parts = refl;
  name_valid = record {
    tag_bytes = 0x0a ∷ [];
    length_bytes = 1 ∷ [];
    parts = refl;
    tag_valid = last 10 (omega arith);
    length_valid = last 1 (omega arith);
  };
  type_valid = record {
    tag_bytes = 0x10 ∷ [];
    value_bytes = 2 ∷ [];
    parts = refl;
    tag_valid = last 16 (omega arith);
    value_valid = last 2 (omega arith);
  };
  data_valid = record {
    tag_bytes = 0x1a ∷ [];
    length_bytes = 3 ∷ [];
    parts = refl;
    tag_valid = last 26 (omega arith);
    length_valid = last 3 (omega arith);
  };
  name_short = omega arith;
  type_small = omega arith;
  data_short = omega arith;
  whole_blocks = refl;
}

-- Bytes that stand for themselves.
abbrev is_plain : Bytes → Bool
is_plain [] = true
is_plain (c ∷ cs) = not (c == b'%') && (not (c == b'+') && is_plain cs)

is_plain-IsEncoded : (cs : Bytes) → is_plain cs ≡ true → IsEncoded cs cs
is_plain-IsEncoded [] h = end_of_text
is_plain-IsEncoded (c ∷ cs) h =
    plain c cs cs (ground (arith, h)) (ground (arith, h))
      (is_plain-IsEncoded cs (ground (arith, h)))

abbrev sealed : Bytes
sealed = replicate 16 7 ++ (block ++ replicate 20 1)

sealed_whole :
    seal idle
      (λ bs. bs)
      (λ key bs. bs)
      (compute_shared idle [] (codes "key"))
      (replicate 16 7)
      (inner_text idle (λ bs. bs) (λ key bs. bs) (codes "u") default_device_id block)
    ≡ sealed
unfolding seal masked_text inner_text chain chain_from
sealed_whole = refl

block_small :
    length (inner_text idle (λ bs. bs) (λ key bs. bs) (codes "u") default_device_id block) + 36
    ≤ 8192
unfolding inner_text chain chain_from
block_small = omega arith

secret_there : 0 < length (compute_shared idle [] (codes "key"))
unfolding compute_shared
secret_there = omega arith

user-IsSent : IsSent 256 (codes "u") (codes "u")
user-IsSent = record {
  encoded = is_plain-IsEncoded (codes "u") refl;
  piece = omega arith;
  text_fits = omega arith;
  no_nul = refl;
  fits = omega arith;
  size_fits = omega arith;
  something = refl;
}

sealed-IsSent : IsSent 4096 sealed sealed
sealed-IsSent = record {
  encoded = is_plain-IsEncoded sealed refl;
  piece = omega arith;
  text_fits = omega arith;
  no_nul = refl;
  fits = omega arith;
  size_fits = omega arith;
  something = refl;
}

key-IsSent : IsSent 1024 (codes "key") (codes "key")
key-IsSent = record {
  encoded = is_plain-IsEncoded (codes "key") refl;
  piece = omega arith;
  text_fits = omega arith;
  no_nul = refl;
  fits = omega arith;
  size_fits = omega arith;
  something = refl;
}

get_credentials-form_example :
    get_credentials idle (
      store_credentials
        (form (codes "u") sealed (codes "key") (codes "tokenType=default" ∷ []))
        (init config [] []))
    ≡ done (record { username = codes "u"; auth_data = codes "abc"; auth_type = 2 })
unfolding init setting
get_credentials-form_example =
    get_credentials-form idle (λ bs. bs) (λ key bs. bs) (init config [] []) (codes "u")
      (codes "key") (replicate 16 7) block (codes "u") (codes "abc") (codes "u") sealed
      (codes "key") 2 (codes "tokenType=default" ∷ []) idle-IsCodec block-IsCredentials user-IsSent
      (subst (λ v. IsSent 4096 v sealed) (sym sealed_whole) sealed-IsSent) key-IsSent (omega arith)
      (omega arith) (omega arith) secret_there refl (omega arith) block_small (omega arith)
