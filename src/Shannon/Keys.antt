-- ===== src/Shannon/Keys.antt =====
-- Every operation of the cipher keeps the invariant, from the state that `platform_shannon_key`
-- sets up on.
use espconnect.Common.{
  ℕ, zero, suc, ◌≡◌, refl, List, [], ◌∷◌, length, All, IsU32, IsByte, Bytes, u32, arith, ◌∙◌,
}
use espconnect.Shannon.{
  Cipher, byte2word, cycle, keyp, init_state, fib_words, initkonst, addkey, load_words, xor_words,
  load_key, diffuse_rounds, save_state, reload_state, genkonst, new, set_key, set_nonce,
}
use espconnect.Shannon.Valid.{
  IsValid, xor-IsU32, at-IsU32, set-IsWords, cycle-IsValid, byte2word-IsU32, clocked-IsValid,
  with_r, with_crc, with_konst, with_nbuf,
}

addkey-IsValid : (s : Cipher) (k : ℕ) → IsValid s → IsU32 k → IsValid (addkey s k)
unfolding addkey
addkey-IsValid s k v h =
    let first = set-IsWords s.r 0 _ v.r_words (xor-IsU32 _ _ (at-IsU32 s.r 0 v.r_words) h) in
    clocked-IsValid s _ k v (set-IsWords _ keyp _ first (xor-IsU32 _ _ (at-IsU32 _ keyp first) h)) h

xor_words-length : (xs ys : List ℕ) → length (xor_words xs ys) ≡ length xs
unfolding xor_words
xor_words-length [] ys = refl
xor_words-length (x ∷ xs) [] = refl
xor_words-length (x ∷ xs) (y ∷ ys) = omega (arith, xor_words-length xs ys)

xor_words-All : (xs ys : List ℕ) → All IsU32 xs → All IsU32 ys → All IsU32 (xor_words xs ys)
unfolding xor_words
xor_words-All [] ys h k = tt
xor_words-All (x ∷ xs) [] h k = h
xor_words-All (x ∷ xs) (y ∷ ys) h k = (xor-IsU32 x y h.0 k.0, xor_words-All xs ys h.1 k.1)

module _ (clock : Cipher → Cipher) (stir : Cipher → ℕ → Cipher)
    (clock_ok : (s : Cipher) → IsValid s → IsValid (clock s))
    (stir_ok : (s : Cipher) (k : ℕ) → IsValid s → IsU32 k → IsValid (stir s k)) where
  load_word : (s : Cipher) (k : ℕ) → IsValid s → IsU32 k → IsValid (clock (stir s k))
  load_word s k v h = clock_ok _ (stir_ok s k v h)

  load_words-IsValid :
      (s : Cipher) (key : Bytes)
      → IsValid s
      → All IsByte key
      → IsValid (load_words clock stir s key)
  unfolding load_words
  load_words-IsValid s [] v h = v
  load_words-IsValid s (b0 ∷ []) v h =
      load_word s _ v (byte2word-IsU32 b0 0 0 0 h.0 (omega arith) (omega arith) (omega arith))
  load_words-IsValid s (b0 ∷ b1 ∷ []) v h =
      load_word s _ v (byte2word-IsU32 b0 b1 0 0 h.0 h.1.0 (omega arith) (omega arith))
  load_words-IsValid s (b0 ∷ b1 ∷ b2 ∷ []) v h =
      load_word s _ v (byte2word-IsU32 b0 b1 b2 0 h.0 h.1.0 h.1.1.0 (omega arith))
  load_words-IsValid s (b0 ∷ b1 ∷ b2 ∷ b3 ∷ rest) v h =
      load_words-IsValid (clock (stir s (byte2word b0 b1 b2 b3))) rest
        (load_word s _ v (byte2word-IsU32 b0 b1 b2 b3 h.0 h.1.0 h.1.1.0 h.1.1.1.0)) h.1.1.1.1

  diffuse_rounds-IsValid :
      (n : ℕ) (s : Cipher) → IsValid s → IsValid (diffuse_rounds clock stir n s)
  unfolding diffuse_rounds
  diffuse_rounds-IsValid zero s v = v
  diffuse_rounds-IsValid (suc n) s v = diffuse_rounds-IsValid n (clock s) (clock_ok s v)

  pub load_key-IsValid :
      (s : Cipher) (key : Bytes) → IsValid s → All IsByte key → IsValid (load_key clock stir s key)
  unfolding load_key
  load_key-IsValid s key v h =
      let s1 = load_word _ (u32 (length key)) (load_words-IsValid s key v h) (omega arith) in
      let s2 = diffuse_rounds-IsValid 16 _ (with_crc _ _ s1 s1.r_words) in
      with_r _ _ s2 (record {
        sixteen = xor_words-length _ _ ∙ s2.r_words.sixteen;
        words = xor_words-All _ _ s2.r_words.words s2.crc_words.words;
      })

-- Generating the constant and saving, and only the former, with `nbuf = 0`.
pub keyed-IsValid :
    (s : Cipher) → IsValid s → IsValid (record (save_state (genkonst s)) { nbuf = 0 })
unfolding save_state genkonst
keyed-IsValid s loaded = record {
  r_words = loaded.r_words;
  crc_words = loaded.crc_words;
  init_words = loaded.r_words;
  konst_word = at-IsU32 _ 0 loaded.r_words;
  sbuf_word = loaded.sbuf_word;
  mbuf_word = loaded.mbuf_word;
  nbuf_fits = omega arith;
  nbuf_bytes = refl;
}

pub nonced-IsValid : (s : Cipher) → IsValid s → IsValid (record (genkonst s) { nbuf = 0 })
unfolding genkonst
nonced-IsValid s loaded =
    with_nbuf _ _ 0 (with_konst _ _ loaded (at-IsU32 _ 0 loaded.r_words)) loaded.mbuf_word
      (omega arith) (omega arith)

pub reload-IsValid :
    (s : Cipher) (k : ℕ) → IsValid s → IsU32 k → IsValid (record (reload_state s) { konst = k })
unfolding reload_state
reload-IsValid s k v h = with_konst _ k (with_r s s.init_r v v.init_words) h

pub new-IsValid : IsValid new
unfolding new
new-IsValid = record {
  r_words = record { sixteen = refl; words = omega arith };
  crc_words = record { sixteen = refl; words = omega arith };
  init_words = record { sixteen = refl; words = omega arith };
  konst_word = omega arith;
  sbuf_word = omega arith;
  mbuf_word = omega arith;
  nbuf_fits = omega arith;
  nbuf_bytes = refl;
}

pub first_words :
    (s : Cipher) (k : ℕ)
    → IsValid s
    → IsU32 k
    → IsValid (record s { r = 1 ∷ 1 ∷ fib_words 14 1 1; konst = k })
unfolding fib_words
first_words s k v h =
    with_konst _ k (with_r s _ v (record { sixteen = refl; words = omega arith })) h

abbrev schedule :
    (s : Cipher) (key : Bytes) → IsValid s → All IsByte key → IsValid (load_key cycle addkey s key)
schedule = load_key-IsValid cycle addkey cycle-IsValid addkey-IsValid

set_key-keeps : (s : Cipher) (key : Bytes) → IsValid s → All IsByte key → IsValid (set_key s key)
unfolding set_key init_state
set_key-keeps s key v h =
    keyed-IsValid _ (schedule _ key (first_words s initkonst v (omega arith)) h)

-- platform_shannon_key with a key of bytes makes a valid state out of a new cipher.
pub set_key-IsValid : (key : Bytes) → All IsByte key → IsValid (set_key new key)
set_key-IsValid key h = set_key-keeps new key new-IsValid h

-- platform_shannon_nonce with a nonce of bytes keeps the state valid.
pub set_nonce-IsValid :
    (s : Cipher) (nonce : Bytes) → IsValid s → All IsByte nonce → IsValid (set_nonce s nonce)
unfolding set_nonce
set_nonce-IsValid s nonce v h =
    nonced-IsValid _ (schedule _ nonce (reload-IsValid s initkonst v (omega arith)) h)
