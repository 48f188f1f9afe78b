-- ===== src/Shannon/Loops.antt =====
-- The loops of `encrypt` and `decrypt`, and the finish, keep the invariant of the cipher.
use espconnect.Common.{
  ℕ, ◌≡◌, refl, List, [], ◌∷◌, ◌++◌, bit_xor, ◌≤◌, All, set, IsU32, IsByte, Bytes, arith, ◌==◌,
  Bool-cases, inl, inr, true, false,
}
use espconnect.Shannon.{
  Cipher, byte2word, word2byte, at, cycle, keyp, initkonst, mac_byte, encrypt_byte, decrypt_byte,
  encrypt_word, decrypt_word, fill, partial, blocks, crypt, encrypt, decrypt, mix_crc, finish,
}
use espconnect.Shannon.Valid.{
  IsValid, xor-IsU32, at-IsU32, set-IsWords, cycle-IsValid, macfunc-IsValid, byte2word-IsU32,
  byte2word-word2byte, with_r, with_konst, with_nbuf,
}

pub mac_byte-IsValid :
    (s : Cipher) (b : ℕ) → IsValid s → (s.nbuf == 0) ≡ false → IsValid (mac_byte s b)
unfolding mac_byte
mac_byte-IsValid s b v pending =
    let some_bits : 8 ≤ s.nbuf = ground (arith, v.nbuf_bytes, pending) in
    with_nbuf s _ _ v (xor-IsU32 _ _ v.mbuf_word (omega arith))
      (omega (arith, some_bits, v.nbuf_fits)) (omega (arith, some_bits, v.nbuf_fits, v.nbuf_bytes))

-- A step on one byte or one word that keeps the state valid.
abbrev pub Keeps : (Cipher → ℕ → Cipher × ℕ) → (ℕ → Type 0) → Type 0
Keeps step P = (s : Cipher) (i : ℕ) → IsValid s → P i → IsValid (step s i).0

-- The same for a byte of a word that is pending.
abbrev pub KeepsPending : (Cipher → ℕ → Cipher × ℕ) → Type 0
KeepsPending step =
    (s : Cipher) (b : ℕ) → IsValid s → IsByte b → (s.nbuf == 0) ≡ false → IsValid (step s b).0

module _ (on_byte : Cipher → ℕ → Cipher × ℕ) (byte_ok : KeepsPending on_byte) where
  pub fill-IsValid :
      (s : Cipher) (bs : Bytes)
      → IsValid s
      → All IsByte bs
      → IsValid (fill on_byte s bs).0 × All IsByte (fill on_byte s bs).2
  unfolding fill
  fill-IsValid s [] v h = (v, tt)
  fill-IsValid s (b ∷ bs) v h = elim (Bool-cases (s.nbuf == 0)) [
    | inl e ↦ rw e (v, h)
    | inr e ↦ rw e (fill-IsValid (on_byte s b).0 bs (byte_ok s b v h.0 e) h.1)
  ]

module _ (clock : Cipher → Cipher) (on_byte on_word : Cipher → ℕ → Cipher × ℕ)
    (clock_ok : (s : Cipher) → IsValid s → IsValid (clock s)) (byte_ok : KeepsPending on_byte)
    (word_ok : Keeps on_word IsU32) where
  partial-IsValid :
      (s : Cipher) (bs : Bytes)
      → IsValid s
      → All IsByte bs
      → IsValid (partial clock on_byte on_word s bs).0
  unfolding partial
  partial-IsValid s bs v h =
      (fill-IsValid on_byte byte_ok _ bs
        (with_nbuf _ 0 32 (clock_ok s v) (omega arith) (omega arith) refl) h).0

  pub blocks-IsValid :
      (s : Cipher) (bs : Bytes)
      → IsValid s
      → All IsByte bs
      → IsValid (blocks clock on_byte on_word s bs).0
  unfolding blocks
  blocks-IsValid s [] v h = v
  blocks-IsValid s (b0 ∷ []) v h = partial-IsValid s _ v h
  blocks-IsValid s (b0 ∷ b1 ∷ []) v h = partial-IsValid s _ v h
  blocks-IsValid s (b0 ∷ b1 ∷ b2 ∷ []) v h = partial-IsValid s _ v h
  blocks-IsValid s (b0 ∷ b1 ∷ b2 ∷ b3 ∷ rest) v h =
      let word = byte2word-IsU32 b0 b1 b2 b3 h.0 h.1.0 h.1.1.0 h.1.1.1.0 in
      blocks-IsValid (on_word s (byte2word b0 b1 b2 b3)).0 rest (word_ok s _ v word) h.1.1.1.1

  crypt-IsValid :
      (s : Cipher) (bs : Bytes)
      → IsValid s
      → All IsByte bs
      → IsValid (crypt clock on_byte on_word s bs).0
  unfolding crypt
  crypt-IsValid s bs v h =
      let (filled, left) = fill-IsValid on_byte byte_ok s bs v h in
      let full = blocks-IsValid _ _ (macfunc-IsValid _ _ filled filled.mbuf_word) left in
      elim (Bool-cases (s.nbuf == 0)) [
        | inl e ↦ rw e (blocks-IsValid s bs v h)
        | inr e ↦ rw e (elim (Bool-cases ((fill on_byte s bs).0.nbuf == 0)) [
          | inl f ↦ rw f full
          | inr f ↦ rw f filled
        ])
      ]

encrypt-keeps : (s : Cipher) (bs : Bytes) → IsValid s → All IsByte bs → IsValid (encrypt s bs).0
unfolding encrypt encrypt_byte encrypt_word
encrypt-keeps s bs v h =
    crypt-IsValid cycle encrypt_byte encrypt_word cycle-IsValid
      (λ s b w k e. mac_byte-IsValid s b w e) (λ s t w k. macfunc-IsValid _ t (cycle-IsValid s w) k)
      s bs v h

decrypt-keeps : (s : Cipher) (bs : Bytes) → IsValid s → All IsByte bs → IsValid (decrypt s bs).0
unfolding decrypt decrypt_byte decrypt_word
decrypt-keeps s bs v h =
    crypt-IsValid cycle decrypt_byte decrypt_word cycle-IsValid
      (λ s b w k e. mac_byte-IsValid s b w e)
      (λ s t w k. let c = cycle-IsValid s w in macfunc-IsValid _ _ c (xor-IsU32 _ _ k c.sbuf_word))
      s bs v h

mix_crc-IsValid : (s : Cipher) (cs : List ℕ) → IsValid s → All IsU32 cs → IsValid (mix_crc s cs)
unfolding mix_crc
mix_crc-IsValid s [] v h = v
mix_crc-IsValid s (c ∷ cs) v h =
    let words =
      set-IsWords s.r keyp _ v.r_words (xor-IsU32 _ _ (at-IsU32 s.r keyp v.r_words) h.0) in
    mix_crc-IsValid (cycle (record s { r = set s.r keyp (bit_xor (at s.r keyp) c) })) cs
      (cycle-IsValid _ (with_r s _ v words)) h.1

finish-keeps : (s : Cipher) → IsValid s → IsValid (finish s).0
unfolding finish
finish-keeps s v = elim (Bool-cases (s.nbuf == 0)) [
  | inl e ↦ rw e (mix_crc-IsValid _ _ (with_konst s initkonst v (omega arith)) v.crc_words.words)
  | inr e ↦
      let m = macfunc-IsValid s s.mbuf v v.mbuf_word in
      let flushed = with_nbuf _ _ 0 m m.mbuf_word (omega arith) refl in
      rw e
        (mix_crc-IsValid _ _ (with_konst _ initkonst flushed (omega arith)) flushed.crc_words.words)
]

-- One round of the main loop on the four bytes of a word.
pub blocks-word2byte :
    (clock : Cipher → Cipher) (on_byte on_word : Cipher → ℕ → Cipher × ℕ) (s : Cipher) (w : ℕ)
    (rest : Bytes)
    → IsU32 w
    → blocks clock on_byte on_word s (word2byte w ++ rest) ≡ (
      (blocks clock on_byte on_word (on_word s w).0 rest).0,
      word2byte (on_word s w).1 ++ (blocks clock on_byte on_word (on_word s w).0 rest).1,
    )
unfolding blocks word2byte
blocks-word2byte clock f g s w rest h = rw (byte2word-word2byte w h)

-- The two ways on for the first loop.
pub fill-stop :
    (f : Cipher → ℕ → Cipher × ℕ) (s : Cipher) (bs : Bytes)
    → (s.nbuf == 0) ≡ true
    → fill f s bs ≡ (s, [], bs)
unfolding fill
fill-stop f s [] e = refl
fill-stop f s (b ∷ bs) e = rw e

pub fill-step :
    (f : Cipher → ℕ → Cipher × ℕ) (s : Cipher) (b : ℕ) (bs : Bytes)
    → (s.nbuf == 0) ≡ false
    → fill f s (b ∷ bs)
      ≡ ((fill f (f s b).0 bs).0, (f s b).1 ∷ (fill f (f s b).0 bs).1, (fill f (f s b).0 bs).2)
unfolding fill
fill-step f s b bs e = rw e
