-- ===== src/Zeroconf/Session/Paired.antt =====
-- A pairing from the form that a phone posts to the credentials that the session gives.
use espconnect.Common.{
  ℕ, zero, suc, ◌+◌, ◌-◌, ◌≤◌, ◌<◌, ◌≡◌, refl, sym, ap, ◌∙◌, ◌≢◌, true, false, List, [], ◌∷◌, ◌++◌,
  some, All, All-append, length, take, take-append_le, append-nil, Bytes, codes, c_string, ◌==◌,
  arith,
}
use espconnect.Crypto.{Crypto, compute_shared}
use espconnect.Zeroconf.Blob.{done, Auth, process_blob}
use espconnect.Zeroconf.Blob.Credentials.{IsCredentials}
use espconnect.Zeroconf.Blob.Opened.{IsCodec, inner_text, seal, process_blob-seal}
use espconnect.Zeroconf.Query.{url_decode, get_query_param}
use espconnect.Zeroconf.Query.Decoding.{IsEncoded, url_decode-IsEncoded}
use espconnect.Zeroconf.Query.Pairs.{IsPiece, after, first_value, get_query_param-first_value}
use espconnect.Zeroconf.Session.{
  Session, stored, find_user, is_empty, store_credentials, credentials, get_credentials,
}

-- A text as it stands in a form: encoded, without an &, and within the buffers of the decoding and of its
-- field of `size` bytes. The text is not empty and has no NUL.
pub record IsSent (size : ℕ) (value text : Bytes) : Type 0 where
  pub encoded : IsEncoded value text
  pub piece : IsPiece text
  pub text_fits : length text ≤ 4095
  pub no_nul : c_string value ≡ value
  pub fits : length value < size
  pub size_fits : size ≤ 4096
  pub something : is_empty value ≡ false

take_nothing : (n : ℕ) → ◌≡◌ {A = Bytes} (take n []) []
take_nothing zero = refl
take_nothing (suc n) = refl

take_all : (n : ℕ) (xs : Bytes) → length xs ≤ n → take n xs ≡ xs
take_all n xs h = ap (take n) (sym (append-nil xs)) ∙ take-append_le xs [] n h ∙ rest
  where
    rest : xs ++ take (n - length xs) [] ≡ xs
    rest = ap (λ t. xs ++ t) (take_nothing (n - length xs)) ∙ append-nil xs

-- What get_query_param gives for it, and what is stored.
decoded :
    {size : ℕ} {value text : Bytes}
    → IsSent size value text
    → url_decode (take 4095 text) 4096 ≡ value
decoded {size} {value} {text} v =
    ap (λ t. url_decode t 4096) (take_all 4095 text v.text_fits)
    ∙ url_decode-IsEncoded 4096 v.encoded (omega (arith, v.fits, v.size_fits))

stored_whole :
    {size : ℕ} {value text : Bytes} (old : Bytes)
    → IsSent size value text
    → stored (some (url_decode (take 4095 text) 4096)) size old ≡ value
unfolding stored
stored_whole {size} {value} {text} old v =
    rw (decoded v, v.no_nul) (take_all (size - 1) value (omega (arith, v.fits)))

-- The form of a phone: the three parameters first, then any others.
pub form : Bytes → Bytes → Bytes → List Bytes → Bytes
form user blob key others =
    (codes "userName=" ++ user)
    ++ after ((codes "blob=" ++ blob) ∷ (codes "clientKey=" ++ key) ∷ others)

module _ (u b k tu tb tk : Bytes) (others : List Bytes) (vu : IsSent 256 u tu)
    (vb : IsSent 4096 b tb) (vk : IsSent 1024 k tk) (vo : All IsPiece others) where
  -- What the form has at a key.
  at_key :
      (key : Bytes)
      → IsPiece key
      → get_query_param (form tu tb tk others) key
        ≡ first_value key (
            (codes "userName=" ++ tu) ∷ (codes "blob=" ++ tb) ∷ (codes "clientKey=" ++ tk) ∷ others)
  unfolding form
  at_key key h =
      get_query_param-first_value key (codes "userName=" ++ tu)
        ((codes "blob=" ++ tb) ∷ (codes "clientKey=" ++ tk) ∷ others) h
        (All-append (λ (c : ℕ). c ≢ b'&') (codes "userName=") tu (omega arith) vu.piece)
        (
          All-append (λ (c : ℕ). c ≢ b'&') (codes "blob=") tb (omega arith) vb.piece,
          (All-append (λ (c : ℕ). c ≢ b'&') (codes "clientKey=") tk (omega arith) vk.piece, vo),
        )

  user_found : find_user (form tu tb tk others) ≡ some (url_decode (take 4095 tu) 4096)
  unfolding find_user first_value
  user_found = rw (at_key (codes "userName") (omega arith), find_user) refl

  blob_found :
      get_query_param (form tu tb tk others) (codes "blob") ≡ some (url_decode (take 4095 tb) 4096)
  unfolding first_value
  blob_found = at_key (codes "blob") (omega arith)

  key_found :
      get_query_param (form tu tb tk others) (codes "clientKey")
      ≡ some (url_decode (take 4095 tk) 4096)
  unfolding first_value
  key_found = at_key (codes "clientKey") (omega arith)

  pub store_credentials-form :
      (s : Session)
      → store_credentials (form tu tb tk others) s
        ≡ record s { username = u; blob_b64 = b; client_key_b64 = k; creds_captured = true }
  unfolding store_credentials
  store_credentials-form s =
      rw (user_found, blob_found, key_found, store_credentials)
        (rw
          (stored_whole s.username vu, stored_whole s.blob_b64 vb, stored_whole s.client_key_b64 vk)
          (rw (vu.something, vb.something, vk.something) refl))

-- The credentials of a session that has captured the sealed blob and the key of the phone.
credentials_of :
    (crypto : Crypto) (s : Session) (client_key secret : Bytes) (a : Auth)
    → s.creds_captured ≡ true
    → crypto.base64_decode s.client_key_b64 128 ≡ client_key
    → 0 < length client_key
    → compute_shared crypto s.dh_private client_key ≡ secret
    → 0 < length secret
    → process_blob crypto s.blob_b64 s.username s.device_id secret 4096 ≡ done a
    → get_credentials crypto s
      ≡ done (record {
        username = s.username;
        auth_data = c_string a.auth_data;
        auth_type = a.auth_type;
      })
unfolding get_credentials credentials
credentials_of crypto s client_key secret a captured key has_key shared has_secret opened =
    let k0 : (length client_key == 0) ≡ false = ground arith in
    let s0 : (length secret == 0) ≡ false = ground arith in
    rw (captured, key) (rw (k0, shared) (rw s0 (rw opened refl)))

module _ (crypto : Crypto) (encode : Bytes → Bytes) (encrypt : Bytes → Bytes → Bytes) where
  -- Under the laws of the libraries that IsCodec names, when a POST brings a form with an encoded
  -- user name, a blob that a phone has sealed for that name and the device of the session under the
  -- shared secret, and the coded key of the phone, then any other pieces, zeroconf_get_credentials
  -- gives the user name, the type and the data up to its first NUL; each text fits its buffers and is
  -- free of NULs, the key has 1 to 128 bytes and the secret is not empty.
  pub get_credentials-form :
      (s : Session) (user client_key iv plain name content tu tb tk : Bytes) (t : ℕ)
      (others : List Bytes)
      → let secret = compute_shared crypto s.dh_private client_key in
        let text = inner_text crypto encode encrypt user s.device_id plain in
        IsCodec crypto encode encrypt
        → IsCredentials name content t plain
        → IsSent 256 user tu
        → IsSent 4096 (seal crypto encode encrypt secret iv text) tb
        → IsSent 1024 (encode client_key) tk
        → All IsPiece others
        → 0 < length client_key
        → length client_key ≤ 128
        → 0 < length secret
        → length iv ≡ 16
        → length plain ≤ 8192
        → length text + 36 ≤ 8192
        → length content < 4096
        → get_credentials crypto (store_credentials (form tu tb tk others) s)
          ≡ done (record { username = user; auth_data = c_string content; auth_type = t })
  get_credentials-form s user client_key iv plain name content tu tb tk t others laws c vu vb vk vo
        has_key key_fits has_secret l16 plain_fits text_fits content_fits =
      let secret = compute_shared crypto s.dh_private client_key in
      let text = inner_text crypto encode encrypt user s.device_id plain in
      let blob = seal crypto encode encrypt secret iv text in
      let s' = record s {
        username = user;
        blob_b64 = blob;
        client_key_b64 = encode client_key;
        creds_captured = true;
      } in
      let opened =
        process_blob-seal crypto encode encrypt user s.device_id secret iv plain name content t 4096
          laws c l16 plain_fits text_fits content_fits in
      ap (get_credentials crypto)
        (store_credentials-form user blob (encode client_key) tu tb tk others vu vb vk vo s)
      ∙ credentials_of crypto s' client_key secret (record { auth_data = content; auth_type = t })
          refl (laws.decodes client_key 128 key_fits) has_key refl has_secret opened
