-- ===== src/Shannon/Tests.antt =====
-- Witnesses for the properties of the cipher, at a cipher keyed with four bytes, and at the new one.
use espconnect.Common.{
  ◌+◌, ◌*◌, ◌%◌, length, ◌≡◌, refl, [], ◌∷◌, ◌++◌, ◌↔◌, IsByte, Bytes, u8, arith, All,
}
use espconnect.Shannon.{Cipher, cycle, set_key, new, encrypt, decrypt, finish}
use espconnect.Shannon.Valid.{IsValid}
use espconnect.Shannon.Keys.{set_key-IsValid}
use espconnect.Shannon.Pending.{nbuf-encrypt-decrypt}
use espconnect.Shannon.Bytewise.{Same, bytewise}
use espconnect.Shannon.Bytewise.Streams.{encrypt-bytewise, encrypt-append}
use espconnect.Shannon.RoundTrip.{AgreeButMbuf, decrypt-encrypt, decrypt-encrypt-mbuf_iff}

abbrev four : Bytes
four = 1 ∷ 2 ∷ 3 ∷ 4 ∷ []

abbrev six : Bytes
six = 250 ∷ 5 ∷ 0 ∷ 17 ∷ 99 ∷ 255 ∷ []

abbrev keyed : Cipher
keyed = set_key new four

four-bytes : All IsByte four
four-bytes = omega arith

six-bytes : All IsByte six
six-bytes = omega arith

keyed-IsValid : IsValid keyed
keyed-IsValid = set_key-IsValid four four-bytes

nbuf-keyed : keyed.nbuf ≡ 0
unfolding set_key
nbuf-keyed = refl

-- Two bytes of a word are pending.
abbrev half : Cipher
half = record keyed { nbuf = 16 }

nbuf-encrypt-decrypt_example :
    ((encrypt half six).0.nbuf ≡ (16 + 24 * length six) % 32)
    × ((decrypt half six).0.nbuf ≡ (16 + 24 * length six) % 32)
    × ((finish half).0.nbuf ≡ 0)
nbuf-encrypt-decrypt_example = nbuf-encrypt-decrypt half six (omega arith) refl

decrypt-encrypt_example :
    ((decrypt keyed (encrypt keyed six).1).1 ≡ six)
    × AgreeButMbuf (decrypt keyed (encrypt keyed six).1).0 (encrypt keyed six).0
decrypt-encrypt_example = decrypt-encrypt keyed six keyed-IsValid nbuf-keyed six-bytes

decrypt-encrypt-mbuf_iff_example :
    ((decrypt keyed (encrypt keyed (7 ∷ [])).1).0.mbuf ≡ (encrypt keyed (7 ∷ [])).0.mbuf)
    ↔ (u8 (cycle keyed).sbuf ≡ 0)
decrypt-encrypt-mbuf_iff_example = decrypt-encrypt-mbuf_iff keyed 7 nbuf-keyed (omega arith)

encrypt-bytewise_example : Same (encrypt keyed six) (bytewise keyed six)
encrypt-bytewise_example = encrypt-bytewise keyed six six-bytes

encrypt-append_example : Same (encrypt keyed (six ++ four)) (
  (encrypt (encrypt keyed six).0 four).0,
  (encrypt keyed six).1 ++ (encrypt (encrypt keyed six).0 four).1,
)
encrypt-append_example = encrypt-append keyed six four six-bytes four-bytes
