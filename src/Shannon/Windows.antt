-- ===== src/Shannon/Windows.antt =====
-- The cipher of src/platform_windows.c. Its state, macros, registers, key schedule and the text of its two
-- directions are those of the POSIX one; it has the initial constant and the finish of the ESP32 one.
use espconnect.Common.{ℕ, ◌∷◌, bit_xor, Bytes, ◌==◌, if◌then◌else◌}
use espconnect.Shannon.{
  Cipher, word2byte, at, cycle, addkey, macfunc, fib_words, load_key, save_state, reload_state,
  genkonst, pair_up, crypt, encrypt_byte, encrypt_word, decrypt_byte, decrypt_word,
}

abbrev pub initkonst : ℕ
initkonst = 0x6996c53a

unfoldable pub init_state : Cipher → Cipher
init_state s = record s { r = 1 ∷ 1 ∷ fib_words 14 1 1; konst = initkonst }

pub set_key : Cipher → Bytes → Cipher
set_key s key = record (save_state (genkonst (load_key cycle addkey (init_state s) key))) {
  nbuf = 0;
}

unfoldable pub key_pair : Cipher → Cipher → Bytes → Bytes → Cipher × Cipher
key_pair = pair_up init_state initkonst

unfoldable pub set_nonce : Cipher → Bytes → Cipher
set_nonce s nonce =
    record (genkonst
      (load_key cycle addkey (record (reload_state s) { konst = initkonst }) nonce)) { nbuf = 0 }

unfoldable pub encrypt : Cipher → Bytes → Cipher × Bytes
encrypt = crypt cycle encrypt_byte encrypt_word

unfoldable pub decrypt : Cipher → Bytes → Cipher × Bytes
decrypt = crypt cycle decrypt_byte decrypt_word

-- The state after it, and the four bytes of the MAC; `nbuf` stays as it is.
unfoldable pub finish : Cipher → Cipher × Bytes
finish s =
    let s1 = if s.nbuf == 0 then s else macfunc s s.mbuf in
    let s2 = cycle s1 in
    let t = bit_xor (bit_xor (bit_xor (at s2.crc 0) (at s2.crc 2)) (at s2.crc 15)) initkonst in
    (s2, word2byte t)
