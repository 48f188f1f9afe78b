-- ===== src/Shannon/Esp32/Tests.antt =====
-- Witnesses for the properties of the ESP32 cipher, at the new cipher, keyed and in the middle of a
-- word.
use espconnect.Common.{◌≡◌, [], ◌∷◌, Bytes, IsByte, arith, All}
use espconnect.Shannon.{Cipher, new}
use espconnect.Shannon.Valid.{IsValid}
use espconnect.Shannon.Keys.{new-IsValid}
use espconnect.Shannon.Esp32.{set_key, encrypt, decrypt}
use espconnect.Shannon.Esp32.Keys.{set_key-set_nonce-IsValid, encrypt-decrypt-finish-IsValid}
use espconnect.Shannon.Esp32.RoundTrip.{decrypt-encrypt_pending}

abbrev five : Bytes
five = 1 ∷ 2 ∷ 3 ∷ 4 ∷ 250 ∷ []

five-bytes : All IsByte five
five-bytes = omega arith

abbrev keyed : Cipher
keyed = set_key new five

-- In a message: one byte of a word is used up.
abbrev pending : Cipher
pending = (encrypt keyed five).0

keyed-IsValid : IsValid keyed
keyed-IsValid = (set_key-set_nonce-IsValid new five five new-IsValid five-bytes five-bytes).0

pending-IsValid : IsValid pending
pending-IsValid = (encrypt-decrypt-finish-IsValid keyed five keyed-IsValid five-bytes).0

decrypt-encrypt_pending_example :
    decrypt pending (encrypt pending five).1 ≡ ((encrypt pending five).0, five)
decrypt-encrypt_pending_example = decrypt-encrypt_pending pending five pending-IsValid five-bytes
