-- ===== src/Mercury/Response/Tests.antt =====
-- Witnesses for the parsers of what the server sends.
use espconnect.Common.{
  ℕ, ◌+◌, ◌*◌, ◌<◌, ◌≡◌, refl, inl, [], ◌∷◌, ◌++◌, some, length, replicate, Bytes, arith,
}
use mathlib.Core.Path.{sym, subst}
use espconnect.Proto.Varint.{IsVarint, last}
use espconnect.Proto.Fields.{IsVarintField, IsBytesField}
use espconnect.Proto.Message.{number, content, IsMessage}
use espconnect.Mercury.Response.{Welcome, find_server_dh, parse_welcome}
use espconnect.Mercury.Response.Found.{IsResponse, find_server_dh-IsResponse}
use espconnect.Mercury.Response.Welcomed.{parse_welcome-IsMessage}

-- A field whose tag and length take one byte.
small-IsBytesField :
    (fn n : ℕ) (d : Bytes)
    → fn * 8 + 2 < 128
    → length d ≡ n
    → n < 128
    → IsBytesField fn d ((fn * 8 + 2) ∷ (n ∷ d))
small-IsBytesField fn n d h e small = record {
  tag_bytes = (fn * 8 + 2) ∷ [];
  length_bytes = n ∷ [];
  parts = refl;
  tag_valid = last (fn * 8 + 2) h;
  length_valid = subst (λ l. IsVarint l (n ∷ [])) (sym e) (last n small);
}

abbrev server_key : Bytes
server_key = replicate 96 3

abbrev key_field : Bytes
key_field = 82 ∷ 96 ∷ server_key

abbrev dh_field : Bytes
dh_field = 82 ∷ 98 ∷ key_field

abbrev crypto_field : Bytes
crypto_field = 82 ∷ 100 ∷ dh_field

-- The message, and one more byte.
abbrev response : Bytes
response = (0 ∷ 0 ∷ 0 ∷ 109 ∷ []) ++ ((82 ∷ 102 ∷ crypto_field) ++ (1 ∷ []))

response-IsResponse : IsResponse server_key response
response-IsResponse = record {
  header = 0 ∷ 0 ∷ 0 ∷ 109 ∷ [];
  field0 = 82 ∷ 102 ∷ crypto_field;
  field1 = crypto_field;
  field2 = dh_field;
  field3 = key_field;
  rest0 = 1 ∷ [];
  rest1 = [];
  rest2 = [];
  rest3 = [];
  parts = refl;
  length_header = refl;
  valid0 = small-IsBytesField 10 102 crypto_field (omega arith) refl (omega arith);
  valid1 = small-IsBytesField 10 100 dh_field (omega arith) refl (omega arith);
  valid2 = small-IsBytesField 10 98 key_field (omega arith) refl (omega arith);
  valid3 = small-IsBytesField 10 96 server_key (omega arith) refl (omega arith);
}

find_server_dh-IsResponse_example :
    find_server_dh 2 response (length response) ≡ some (some server_key)
find_server_dh-IsResponse_example =
    find_server_dh-IsResponse 2 server_key response (omega arith) response-IsResponse refl
      (omega arith)

-- An APWelcome with a name, an account type and credentials.
abbrev welcome : Bytes
welcome = 0x0a ∷ 1 ∷ b'u' ∷ 0x10 ∷ 7 ∷ 0x32 ∷ 2 ∷ 5 ∷ 6 ∷ []

account_type-IsVarintField : IsVarintField 2 7 (0x10 ∷ 7 ∷ [])
account_type-IsVarintField = record {
  tag_bytes = 0x10 ∷ [];
  value_bytes = 7 ∷ [];
  parts = refl;
  tag_valid = last 16 (omega arith);
  value_valid = last 7 (omega arith);
}

welcome-IsMessage :
    IsMessage (content 1 (b'u' ∷ []) ∷ number 2 7 ∷ content 6 (5 ∷ 6 ∷ []) ∷ []) welcome
welcome-IsMessage = (
  0x0a ∷ 1 ∷ b'u' ∷ [],
  0x10 ∷ 7 ∷ 0x32 ∷ 2 ∷ 5 ∷ 6 ∷ [],
  refl,
  small-IsBytesField 1 1 (b'u' ∷ []) (omega arith) refl (omega arith),
  (
    0x10 ∷ 7 ∷ [],
    0x32 ∷ 2 ∷ 5 ∷ 6 ∷ [],
    refl,
    account_type-IsVarintField,
    (
      0x32 ∷ 2 ∷ 5 ∷ 6 ∷ [],
      [],
      refl,
      small-IsBytesField 6 2 (5 ∷ 6 ∷ []) (omega arith) refl (omega arith),
      refl,
    ),
  ),
)

abbrev old : Welcome
old = record { canonical_username = []; stored_cred = [] }

parse_welcome-IsMessage_example :
    parse_welcome 4 welcome old
    ≡ some (record { canonical_username = b'u' ∷ []; stored_cred = 5 ∷ 6 ∷ [] })
parse_welcome-IsMessage_example =
    parse_welcome-IsMessage 4 (content 1 (b'u' ∷ []) ∷ number 2 7 ∷ content 6 (5 ∷ 6 ∷ []) ∷ [])
      welcome old (omega arith) welcome-IsMessage
      (
        (omega arith, λ h. omega arith, λ h. omega arith),
        ((inl refl, omega arith), ((omega arith, λ h. omega arith, λ h. omega arith), tt)),
      )
      (omega arith)
