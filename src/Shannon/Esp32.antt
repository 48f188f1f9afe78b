-- ===== src/Shannon/Esp32.antt =====
-- The cipher of src/platform_esp32.c. It shares with the POSIX one the state, the word macros, the
-- rotation, the CRC register and the shape of the loops, and differs in the two nonlinear functions,
-- the initial constant, ADDKEY, what a completed word does, what `decrypt` collects, and the finish.
pub mod Keys
pub mod RoundTrip
mod Tests
use espconnect.Common.{
  ℕ, ◌∷◌, ◌++◌, [], bit_or, bit_xor, set, Bytes, Bool, true, false, ◌&&◌, ◌==◌, if◌then◌else◌,
}
use espconnect.Shannon.{load_key as scheduled}
use espconnect.Shannon.{
  Cipher, rotl32, word2byte, at, shift_in, macfunc, keyp, fib_words, save_state, reload_state,
  genkonst, pad_byte, mac_byte, fill, blocks,
}

abbrev pub initkonst : ℕ
initkonst = 0x6996c53a

pub sbox1 : ℕ → ℕ
sbox1 w =
    let w' = bit_xor w (bit_or (rotl32 w 5) (rotl32 w 7)) in
    bit_xor w' (bit_or (rotl32 w' 19) (rotl32 w' 22))

pub sbox2 : ℕ → ℕ
sbox2 w =
    let w' = bit_xor w (bit_or (rotl32 w 7) (rotl32 w 22)) in
    bit_xor w' (bit_or (rotl32 w' 5) (rotl32 w' 19))

unfoldable pub cycle : Cipher → Cipher
cycle s =
    let t = bit_xor (bit_xor (at s.r 12) (at s.r 13)) s.konst in
    let t' = bit_xor (sbox1 t) (rotl32 (at s.r 0) 1) in
    let r' = shift_in s.r t' in
    let u = sbox2 (bit_xor (at r' 2) (at r' 15)) in
    let r'' = set r' 0 (bit_xor (at r' 0) u) in
    record s { r = r''; sbuf = bit_xor (bit_xor u (at r'' 8)) (at r'' 12) }

pub init_state : Cipher → Cipher
init_state s = record s { r = 1 ∷ 1 ∷ fib_words 14 1 1; konst = initkonst }

-- ADDKEY, which stirs one word.
unfoldable pub addkey : Cipher → ℕ → Cipher
addkey s k = record s { r = set s.r keyp (bit_xor (at s.r keyp) k) }

unfoldable pub load_key : Cipher → Bytes → Cipher
load_key = scheduled cycle addkey

pub set_key : Cipher → Bytes → Cipher
set_key s key = record (save_state (genkonst (load_key (init_state s) key))) { nbuf = 0 }

unfoldable pub set_nonce : Cipher → Bytes → Cipher
set_nonce s nonce =
    record (genkonst (load_key (record (reload_state s) { konst = initkonst }) nonce)) { nbuf = 0 }

-- Both collect the plain byte: `encrypt` before it masks it, `decrypt` after it unmasked it.
unfoldable pub encrypt_byte : Cipher → ℕ → Cipher × ℕ
encrypt_byte s b = (mac_byte s b, bit_xor b (pad_byte s))

unfoldable pub decrypt_byte : Cipher → ℕ → Cipher × ℕ
decrypt_byte s b = let plain = bit_xor b (pad_byte s) in (mac_byte s plain, plain)

unfoldable pub encrypt_word : Cipher → ℕ → Cipher × ℕ
encrypt_word s t = let s1 = cycle s in let s2 = macfunc s1 t in (s2, bit_xor t s2.sbuf)

unfoldable pub decrypt_word : Cipher → ℕ → Cipher × ℕ
decrypt_word s w = let s1 = cycle s in let t = bit_xor w s1.sbuf in (macfunc s1 t, t)

pub empty : Bytes → Bool
empty [] = true
empty (b ∷ bs) = false

-- What `encrypt` and `decrypt` share; a word that the first loop completed is not given to the MAC.
unfoldable pub crypt :
    (Cipher → ℕ → Cipher × ℕ) → (Cipher → ℕ → Cipher × ℕ) → Cipher → Bytes → Cipher × Bytes
crypt on_byte on_word s buf =
    let (s', out, rest) = fill on_byte s buf in
    let (s'', out') = blocks cycle on_byte on_word s' rest in
    if (s'.nbuf == 0) && empty rest then (s', out) else (s'', out ++ out')

unfoldable pub encrypt : Cipher → Bytes → Cipher × Bytes
encrypt = crypt encrypt_byte encrypt_word

unfoldable pub decrypt : Cipher → Bytes → Cipher × Bytes
decrypt = crypt decrypt_byte decrypt_word

-- The state after it, and the four bytes of the MAC; `nbuf` stays as it is.
unfoldable pub finish : Cipher → Cipher × Bytes
finish s =
    let s1 = if s.nbuf == 0 then s else macfunc s s.mbuf in
    let s2 = cycle s1 in
    let t = bit_xor (bit_xor (bit_xor (at s2.crc 0) (at s2.crc 2)) (at s2.crc 15)) initkonst in
    (s2, word2byte t)
