-- ===== src/Shannon/Pending.antt =====
-- How many bits of a word are pending after `encrypt` and `decrypt`.
use espconnect.Common.{
  ℕ, ◌+◌, ◌-◌, ◌*◌, ◌%◌, ◌≤◌, ◌<◌, ◌≡◌, ◌⊎◌, refl, ◌∙◌, List, [], ◌∷◌, length, Bytes, arith, set,
  bit_xor, ◌==◌, Bool-cases, inl, inr,
}
use espconnect.Shannon.{
  Cipher, byte2word, cycle, macfunc, crcfunc, mac_byte, encrypt_byte, decrypt_byte, encrypt_word,
  decrypt_word, fill, partial, blocks, crypt, encrypt, decrypt, finish, mix_crc, keyp, initkonst,
  at,
}

module _ (on_byte on_word : Cipher → ℕ → Cipher × ℕ)
    (byte_takes : (s : Cipher) (b : ℕ)
      → 8 ≤ s.nbuf
      → s.nbuf ≤ 32
      → (on_byte s b).0.nbuf ≡ s.nbuf - 8)
    (word_keeps : (s : Cipher) (t : ℕ) → (on_word s t).0.nbuf ≡ s.nbuf) where
  -- The first loop takes a byte for each eight bits, until one of them is used up.
  record Taken (s : Cipher) (bs : Bytes) (left : ℕ) (rest : Bytes) : Type 0 where
    balance : left + 8 * length bs ≡ s.nbuf + 8 * length rest
    ended : (left ≡ 0) ⊎ (length rest ≡ 0)
    below : left ≤ s.nbuf

  fill-Taken :
      (s : Cipher) (bs : Bytes)
      → s.nbuf ≤ 32
      → s.nbuf % 8 ≡ 0
      → Taken s bs ((fill on_byte s bs).0.nbuf) (fill on_byte s bs).2
  unfolding fill
  fill-Taken s [] h k = record { balance = refl; ended = inr refl; below = omega arith }
  fill-Taken s (b ∷ bs) h k = elim (Bool-cases (s.nbuf == 0)) [
    | inl e ↦
        let none_left : s.nbuf ≡ 0 = ground (arith, e) in
        rw e (record { balance = refl; ended = inl none_left; below = omega arith })
    | inr e ↦
        let some_bits : 8 ≤ s.nbuf = ground (arith, e, k) in
        let t = byte_takes s b some_bits h in
        let ih =
          fill-Taken (on_byte s b).0 bs (omega (arith, t, h)) (omega (arith, t, k, some_bits)) in
        rw e (record {
          balance = omega (arith, ih.balance, t, some_bits);
          ended = ih.ended;
          below = omega (arith, ih.below, t);
        })
  ]

  -- Less than a word behind the last whole one leaves bits of it.
  partial-nbuf :
      (s : Cipher) (bs : Bytes)
      → 1 ≤ length bs
      → length bs ≤ 3
      → (partial cycle on_byte on_word s bs).0.nbuf ≡ (24 * length bs) % 32
  unfolding partial
  partial-nbuf s bs some_bytes few =
      let t = fill-Taken (record (cycle s) { mbuf = 0; nbuf = 32 }) bs (omega arith) refl in
      ground (arith, t.balance, t.ended, t.below)

  blocks-nbuf :
      (s : Cipher) (bs : Bytes)
      → s.nbuf ≡ 0
      → (blocks cycle on_byte on_word s bs).0.nbuf ≡ (24 * length bs) % 32
  unfolding blocks
  blocks-nbuf s [] e = e
  blocks-nbuf s (b0 ∷ []) e = partial-nbuf s (b0 ∷ []) (omega arith) (omega arith)
  blocks-nbuf s (b0 ∷ b1 ∷ []) e = partial-nbuf s (b0 ∷ b1 ∷ []) (omega arith) (omega arith)
  blocks-nbuf s (b0 ∷ b1 ∷ b2 ∷ []) e =
      partial-nbuf s (b0 ∷ b1 ∷ b2 ∷ []) (omega arith) (omega arith)
  blocks-nbuf s (b0 ∷ b1 ∷ b2 ∷ b3 ∷ rest) e =
      let w = byte2word b0 b1 b2 b3 in
      omega (arith, blocks-nbuf (on_word s w).0 rest (word_keeps s w ∙ e))

  crypt-nbuf :
      (s : Cipher) (bs : Bytes)
      → s.nbuf < 32
      → s.nbuf % 8 ≡ 0
      → (crypt cycle on_byte on_word s bs).0.nbuf ≡ (s.nbuf + 24 * length bs) % 32
  unfolding crypt macfunc crcfunc
  crypt-nbuf s bs h k = elim (Bool-cases (s.nbuf == 0)) [
    | inl e ↦
        let none_left : s.nbuf ≡ 0 = ground (arith, e) in
        rw e (omega (arith, none_left, blocks-nbuf s bs none_left))
    | inr e ↦
        let s' = (fill on_byte s bs).0 in
        let rest = (fill on_byte s bs).2 in
        let t = fill-Taken s bs (omega arith) k in
        elim (Bool-cases (s'.nbuf == 0)) [
          | inl e' ↦
              let none_left : s'.nbuf ≡ 0 = ground (arith, e') in
              let later = blocks-nbuf (macfunc s' s'.mbuf) rest none_left in
              rw (e, e') (omega (arith, later, t.balance, none_left))
          | inr e' ↦
              let all_taken : length rest ≡ 0 = ground (arith, t.ended, e') in
              rw (e, e') (omega (arith, t.balance, all_taken, t.below))
        ]
  ]

mac_byte-nbuf : (s : Cipher) (b : ℕ) → 8 ≤ s.nbuf → s.nbuf ≤ 32 → (mac_byte s b).nbuf ≡ s.nbuf - 8
unfolding mac_byte
mac_byte-nbuf s b h k = omega arith

mix_crc-nbuf : (s : Cipher) (cs : List ℕ) → (mix_crc s cs).nbuf ≡ s.nbuf
unfolding mix_crc cycle
mix_crc-nbuf s [] = refl
mix_crc-nbuf s (c ∷ cs) =
    mix_crc-nbuf (cycle (record s { r = set s.r keyp (bit_xor (at s.r keyp) c) })) cs

finish-nbuf : (s : Cipher) → (finish s).0.nbuf ≡ 0
unfolding finish
finish-nbuf s = elim (Bool-cases (s.nbuf == 0)) [
  | inl e ↦
      let none_left : s.nbuf ≡ 0 = ground (arith, e) in
      rw e (mix_crc-nbuf (record s { konst = initkonst }) s.crc ∙ none_left)
  | inr e ↦ rw e (mix_crc-nbuf (record (macfunc s s.mbuf) { nbuf = 0; konst = initkonst }) _)
]

-- Where nbuf is the bits of less than a word, in whole bytes, encrypting or decrypting n bytes
-- leaves nbuf at (nbuf + 24 n) modulo 32: each byte takes eight of the bits that are pending, a new
-- word starts at 32 and a whole one leaves none; and finishing leaves nbuf at 0.
pub nbuf-encrypt-decrypt :
    (s : Cipher) (bs : Bytes)
    → s.nbuf < 32
    → s.nbuf % 8 ≡ 0
    → ((encrypt s bs).0.nbuf ≡ (s.nbuf + 24 * length bs) % 32)
      × ((decrypt s bs).0.nbuf ≡ (s.nbuf + 24 * length bs) % 32)
      × ((finish s).0.nbuf ≡ 0)
unfolding encrypt decrypt encrypt_byte decrypt_byte encrypt_word decrypt_word cycle macfunc crcfunc
nbuf-encrypt-decrypt s bs h k = (
  crypt-nbuf encrypt_byte encrypt_word (λ t b p q. mac_byte-nbuf t b p q) (λ t w. refl) s bs h k,
  crypt-nbuf decrypt_byte decrypt_word (λ t b p q. mac_byte-nbuf t b p q) (λ t w. refl) s bs h k,
  finish-nbuf s,
)
