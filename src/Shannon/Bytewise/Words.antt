-- ===== src/Shannon/Bytewise/Words.antt =====
-- The main loop of `platform_shannon_encrypt`, from a word boundary on, against the specification.
use espconnect.Common.{
  ℕ, ◌+◌, ◌<◌, ◌*◌, ◌/◌, ◌%◌, ◌^◌, ◌≡◌, refl, sym, ap, ◌∙◌, [], ◌∷◌, ◌++◌, bit_xor, All, IsByte,
  Bytes, u8, u32, arith, byte-xor, xor_disjoint, zero-xor,
}
use espconnect.Shannon.{
  Cipher, byte2word, word2byte, cycle, macfunc, crcfunc, pad_byte, mac_byte, encrypt_byte,
  encrypt_word, fill, partial, blocks,
}
use espconnect.Shannon.Valid.{byte2word-eq}
use espconnect.Shannon.Bytewise.{ready, collect, step, bytewise, settled, Same, bytewise-settled}

abbrev fresh : Cipher → Cipher
fresh c = record c { mbuf = 0; nbuf = 32 }

bytewise-fresh :
    (s : Cipher) (b : ℕ) (bs : Bytes)
    → s.nbuf ≡ 0
    → bytewise s (b ∷ bs) ≡ bytewise (fresh (cycle s)) (b ∷ bs)
unfolding bytewise step ready
bytewise-fresh s b bs e = rw e

cycle-nbuf : (s : Cipher) → (cycle s).nbuf ≡ s.nbuf
unfolding cycle
cycle-nbuf s = refl

-- A whole word at a boundary: what the four bytes collect is the word.
module _ (b0 b1 b2 b3 : ℕ) (h0 : IsByte b0) (h1 : IsByte b1) (h2 : IsByte b2) (h3 : IsByte b3) where
  abbrev loaded : ℕ
  loaded = byte2word b0 b1 b2 b3

  collected :
      bit_xor
        (bit_xor (bit_xor (bit_xor 0 (u32 (b0 * 1))) (u32 (b1 * 2 ^ 8))) (u32 (b2 * 2 ^ 16)))
        (u32 (b3 * 2 ^ 24))
      ≡ loaded
  collected =
      rw
        (
          fits b0 1 (omega arith),
          fits b1 (2 ^ 8) (omega arith),
          fits b2 (2 ^ 16) (omega arith),
          fits b3 (2 ^ 24) (omega arith),
          zero-xor (b0 * 1),
          xor_disjoint 8 b1 (b0 * 1) (omega arith),
          xor_disjoint 16 b2 (b1 * 2 ^ 8 + b0 * 1) (omega arith),
          xor_disjoint 24 b3 (b2 * 2 ^ 16 + (b1 * 2 ^ 8 + b0 * 1)) (omega arith),
        )
        (omega (arith, byte2word-eq b0 b1 b2 b3 h0 h1 h2 h3))
    where
      fits : (b m : ℕ) → b * m < 2 ^ 32 → u32 (b * m) ≡ b * m
      fits b m h = omega arith

  byte_at :
      (k i b : ℕ)
      → loaded / 2 ^ i % 2 ^ 8 ≡ b
      → u8 (bit_xor loaded k / 2 ^ i) ≡ bit_xor b (u8 (k / 2 ^ i))
  byte_at k i b e = byte-xor i loaded k ∙ ap (λ x. bit_xor x (u8 (k / 2 ^ i))) e

  masked :
      (k : ℕ)
      → word2byte (bit_xor loaded k)
        ≡ bit_xor b0 (u8 (k / 1))
          ∷ bit_xor b1 (u8 (k / 2 ^ 8))
          ∷ bit_xor b2 (u8 (k / 2 ^ 16))
          ∷ bit_xor b3 (u8 (k / 2 ^ 24))
          ∷ []
  masked k =
      let sum = byte2word-eq b0 b1 b2 b3 h0 h1 h2 h3 in
      unfold word2byte in
      rw (
        whole (bit_xor loaded k),
        byte_at k 0 b0 (omega (arith, sum)),
        byte_at k 8 b1 (omega (arith, sum)),
        byte_at k 16 b2 (omega (arith, sum)),
        byte_at k 24 b3 (omega (arith, sum)),
      )
    where
      whole : (x : ℕ) → u8 x ≡ u8 (x / 2 ^ 0)
      whole x = omega arith

  -- The cipher after a word, by bytes; `c` has been clocked.
  abbrev worded : Cipher → Cipher
  worded c = macfunc (record c { mbuf = loaded; nbuf = 0 }) loaded

  four_steps :
      (c : Cipher) (rest : Bytes)
      → bytewise (fresh c) (b0 ∷ b1 ∷ b2 ∷ b3 ∷ rest) ≡ (
        (bytewise (worded c) rest).0,
        word2byte (bit_xor loaded c.sbuf) ++ (bytewise (worded c) rest).1,
      )
  unfolding bytewise step ready collect mac_byte pad_byte
  four_steps c rest = rw (masked c.sbuf, sym collected)

  worded-settled :
      (s : Cipher) → s.nbuf ≡ 0 → settled (encrypt_word s loaded).0 ≡ settled (worded (cycle s))
  unfolding settled encrypt_word macfunc crcfunc
  worded-settled s e = rw (cycle-nbuf s ∙ e)

abbrev pub encrypt_blocks : Cipher → Bytes → Cipher × Bytes
encrypt_blocks = blocks cycle encrypt_byte encrypt_word

nbuf-encrypt_word : (s : Cipher) (t : ℕ) → s.nbuf ≡ 0 → (encrypt_word s t).0.nbuf ≡ 0
unfolding encrypt_word macfunc crcfunc cycle
nbuf-encrypt_word s t e = e

encrypt_word-masks : (s : Cipher) (t : ℕ) → (encrypt_word s t).1 ≡ bit_xor t (cycle s).sbuf
unfolding encrypt_word macfunc crcfunc
encrypt_word-masks s t = refl

Same-trans : (p q r : Cipher × Bytes) → Same p q → Same q r → Same p r
Same-trans p q r h k = record {
  same_bytes = h.same_bytes ∙ k.same_bytes;
  same_state = h.same_state ∙ k.same_state;
}

pub blocks-Same :
    (s : Cipher) (bs : Bytes)
    → s.nbuf ≡ 0
    → All IsByte bs
    → Same (encrypt_blocks s bs) (bytewise s bs)
unfolding blocks
blocks-Same s [] e h = unfold bytewise in record { same_bytes = refl; same_state = refl }
blocks-Same s (b0 ∷ []) e h = rw (bytewise-fresh s b0 [] e) (
    unfold bytewise step ready collect partial fill encrypt_byte mac_byte pad_byte in
    record { same_bytes = refl; same_state = refl })
blocks-Same s (b0 ∷ b1 ∷ []) e h = rw (bytewise-fresh s b0 (b1 ∷ []) e) (
    unfold bytewise step ready collect partial fill encrypt_byte mac_byte pad_byte in
    record { same_bytes = refl; same_state = refl })
blocks-Same s (b0 ∷ b1 ∷ b2 ∷ []) e h = rw (bytewise-fresh s b0 (b1 ∷ b2 ∷ []) e) (
    unfold bytewise step ready collect partial fill encrypt_byte mac_byte pad_byte in
    record { same_bytes = refl; same_state = refl })
blocks-Same s (b0 ∷ b1 ∷ b2 ∷ b3 ∷ rest) e (h0, (h1, (h2, (h3, hs)))) =
    let t = byte2word b0 b1 b2 b3 in
    let s1 = (encrypt_word s t).0 in
    let u = worded b0 b1 b2 b3 h0 h1 h2 h3 (cycle s) in
    let ih = blocks-Same s1 rest (nbuf-encrypt_word s t e) hs in
    let on =
      Same-trans _ _ _ ih
        (bytewise-settled s1 u rest (worded-settled b0 b1 b2 b3 h0 h1 h2 h3 s e)) in
    let run =
      bytewise-fresh s b0 (b1 ∷ b2 ∷ b3 ∷ rest) e
      ∙ four_steps b0 b1 b2 b3 h0 h1 h2 h3 (cycle s) rest in
    record {
      same_bytes =
          rw (encrypt_word-masks s t)
            (ap (λ r. word2byte (bit_xor t (cycle s).sbuf) ++ r) on.same_bytes)
          ∙ sym (ap (λ r. r.1) run);
      same_state = on.same_state ∙ sym (ap (λ r. settled r.0) run);
    }
