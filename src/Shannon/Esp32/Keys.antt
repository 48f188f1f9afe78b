-- ===== src/Shannon/Esp32/Keys.antt =====
-- Every operation of the ESP32 cipher keeps the invariant that the POSIX one keeps.
use espconnect.Common.{
  bit_xor, All, IsU32, IsByte, Bytes, ℕ, arith, or-lt, ◌==◌, Bool-cases, inl, inr, bit_or, ◌&&◌,
}
use espconnect.Shannon.{Cipher, keyp, fill}
use espconnect.Shannon.Valid.{
  IsValid, xor-IsU32, at-IsU32, rotl32-IsU32, set-IsWords, shift_in-IsWords, macfunc-IsValid,
  with_r, clocked-IsValid,
}
use espconnect.Shannon.Keys.{
  load_key-IsValid, keyed-IsValid, nonced-IsValid, reload-IsValid, first_words,
}
use espconnect.Shannon.Loops.{mac_byte-IsValid, fill-IsValid, blocks-IsValid, Keeps, KeepsPending}
use espconnect.Shannon.Esp32.{
  initkonst, load_key, sbox1, sbox2, cycle, init_state, addkey, set_key, set_nonce, encrypt_byte,
  decrypt_byte, encrypt_word, decrypt_word, empty, crypt, encrypt, decrypt, finish,
}

or_xor-IsU32 : (w a b : ℕ) → IsU32 w → IsU32 a → IsU32 b → IsU32 (bit_xor w (bit_or a b))
or_xor-IsU32 w a b h p q = xor-IsU32 w _ h (or-lt 32 a b p q)

sbox1-IsU32 : (w : ℕ) → IsU32 w → IsU32 (sbox1 w)
unfolding sbox1
sbox1-IsU32 w h = search (or_xor-IsU32, rotl32-IsU32, h)

sbox2-IsU32 : (w : ℕ) → IsU32 w → IsU32 (sbox2 w)
unfolding sbox2
sbox2-IsU32 w h = search (or_xor-IsU32, rotl32-IsU32, h)

pub cycle-IsValid : (s : Cipher) → IsValid s → IsValid (cycle s)
unfolding cycle
cycle-IsValid s v =
    let tap = xor-IsU32 _ _ (at-IsU32 s.r 12 v.r_words) (at-IsU32 s.r 13 v.r_words) in
    let mixed = sbox1-IsU32 _ (xor-IsU32 _ s.konst tap v.konst_word) in
    let word = xor-IsU32 _ _ mixed (rotl32-IsU32 _ 1 (at-IsU32 s.r 0 v.r_words)) in
    let moved = shift_in-IsWords s.r _ v.r_words word in
    let u = sbox2-IsU32 _ (xor-IsU32 _ _ (at-IsU32 _ 2 moved) (at-IsU32 _ 15 moved)) in
    let stirred = set-IsWords _ 0 _ moved (xor-IsU32 _ _ (at-IsU32 _ 0 moved) u) in
    clocked-IsValid s _ _ v stirred
      (xor-IsU32 _ _ (xor-IsU32 _ _ u (at-IsU32 _ 8 stirred)) (at-IsU32 _ 12 stirred))

addkey-IsValid : (s : Cipher) (k : ℕ) → IsValid s → IsU32 k → IsValid (addkey s k)
unfolding addkey
addkey-IsValid s k v h =
    with_r s _ v (set-IsWords s.r keyp _ v.r_words (xor-IsU32 _ _ (at-IsU32 s.r keyp v.r_words) h))

scheduled-IsValid :
    (s : Cipher) (key : Bytes) → IsValid s → All IsByte key → IsValid (load_key s key)
unfolding load_key
scheduled-IsValid = load_key-IsValid cycle addkey cycle-IsValid addkey-IsValid

-- The ESP32 platform_shannon_key and platform_shannon_nonce, each with bytes, keep a state valid.
pub set_key-set_nonce-IsValid :
    (s : Cipher) (key nonce : Bytes)
    → IsValid s
    → All IsByte key
    → All IsByte nonce
    → IsValid (set_key s key) × IsValid (set_nonce s nonce)
unfolding set_key init_state set_nonce
set_key-set_nonce-IsValid s key nonce v h k = (
  keyed-IsValid _ (scheduled-IsValid _ key (first_words s initkonst v (omega arith)) h),
  nonced-IsValid _ (scheduled-IsValid _ nonce (reload-IsValid s initkonst v (omega arith)) k),
)

module _ (on_byte on_word : Cipher → ℕ → Cipher × ℕ) (byte_ok : KeepsPending on_byte)
    (word_ok : Keeps on_word IsU32) where
  crypt-IsValid :
      (s : Cipher) (bs : Bytes) → IsValid s → All IsByte bs → IsValid (crypt on_byte on_word s bs).0
  unfolding crypt
  crypt-IsValid s bs v h =
      let (filled, left) = fill-IsValid on_byte byte_ok s bs v h in
      let full =
        blocks-IsValid cycle on_byte on_word cycle-IsValid byte_ok word_ok _ _ filled left in
      elim (Bool-cases (((fill on_byte s bs).0.nbuf == 0) && empty (fill on_byte s bs).2)) [
        | inl e ↦ rw e filled
        | inr e ↦ rw e full
      ]

pub encrypt-IsValid :
    (s : Cipher) (bs : Bytes) → IsValid s → All IsByte bs → IsValid (encrypt s bs).0
unfolding encrypt encrypt_byte encrypt_word
encrypt-IsValid s bs v h =
    crypt-IsValid encrypt_byte encrypt_word (λ s b w k e. mac_byte-IsValid s b w e)
      (λ s t w k. macfunc-IsValid _ t (cycle-IsValid s w) k) s bs v h

decrypt-IsValid : (s : Cipher) (bs : Bytes) → IsValid s → All IsByte bs → IsValid (decrypt s bs).0
unfolding decrypt decrypt_byte decrypt_word
decrypt-IsValid s bs v h =
    crypt-IsValid decrypt_byte decrypt_word (λ s b w k e. mac_byte-IsValid s _ w e)
      (λ s t w k. let c = cycle-IsValid s w in macfunc-IsValid _ _ c (xor-IsU32 _ _ k c.sbuf_word))
      s bs v h

finish-IsValid : (s : Cipher) → IsValid s → IsValid (finish s).0
unfolding finish
finish-IsValid s v = elim (Bool-cases (s.nbuf == 0)) [
  | inl e ↦ rw e (cycle-IsValid s v)
  | inr e ↦ rw e (cycle-IsValid _ (macfunc-IsValid s s.mbuf v v.mbuf_word))
]

-- On a valid state, the ESP32 encrypt and decrypt of any bytes, and its finish, each leave a valid
-- state, whatever part of a word is pending.
pub encrypt-decrypt-finish-IsValid :
    (s : Cipher) (bs : Bytes)
    → IsValid s
    → All IsByte bs
    → IsValid (encrypt s bs).0 × IsValid (decrypt s bs).0 × IsValid (finish s).0
encrypt-decrypt-finish-IsValid s bs v h =
    (encrypt-IsValid s bs v h, decrypt-IsValid s bs v h, finish-IsValid s v)
