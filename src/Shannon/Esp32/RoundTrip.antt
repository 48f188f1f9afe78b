-- ===== src/Shannon/Esp32/RoundTrip.antt =====
-- What the ESP32 `platform_shannon_decrypt` does to the output of its `platform_shannon_encrypt`.
use espconnect.Common.{
  ◌==◌, ◌&&◌, Bool-cases, inl, inr, ℕ, ◌≡◌, refl, sym, ap, ◌∙◌, [], ◌∷◌, ◌++◌, append-nil, All,
  IsU32, IsByte, Bytes, xor_cancel, if◌then◌else◌,
}
use espconnect.Shannon.{
  Cipher, byte2word, macfunc, crcfunc, pad_byte, mac_byte, fill, blocks, partial,
}
use espconnect.Shannon.Valid.{
  IsValid, xor-IsU32, byte2word-IsU32, word2byte-byte2word, macfunc-IsValid,
}
use espconnect.Shannon.Loops.{
  blocks-word2byte, fill-IsValid, mac_byte-IsValid, fill-stop, fill-step,
}
use espconnect.Shannon.Esp32.{
  cycle, encrypt_byte, decrypt_byte, encrypt_word, decrypt_word, empty, crypt, encrypt, decrypt,
}
use espconnect.Shannon.Esp32.Keys.{cycle-IsValid}

abbrev encrypt_blocks : Cipher → Bytes → Cipher × Bytes
encrypt_blocks = blocks cycle encrypt_byte encrypt_word

abbrev decrypt_blocks : Cipher → Bytes → Cipher × Bytes
decrypt_blocks = blocks cycle decrypt_byte decrypt_word

-- Without the early return, which leaves out only a loop over nothing.
pub crypt-blocks :
    (f g : Cipher → ℕ → Cipher × ℕ) (s : Cipher) (bs : Bytes)
    → crypt f g s bs ≡ (
      (blocks cycle f g (fill f s bs).0 (fill f s bs).2).0,
      (fill f s bs).1 ++ (blocks cycle f g (fill f s bs).0 (fill f s bs).2).1,
    )
unfolding crypt
crypt-blocks f g s bs = by_rest (fill f s bs).0 (fill f s bs).1 (fill f s bs).2
  where
    by_rest :
        (t : Cipher) (out rest : Bytes)
        → ◌≡◌ {A = Cipher × Bytes}
            (if (t.nbuf == 0) && empty rest
              then (t, out)
              else ((blocks cycle f g t rest).0, out ++ (blocks cycle f g t rest).1))
            ((blocks cycle f g t rest).0, out ++ (blocks cycle f g t rest).1)
    by_rest t out [] = elim (Bool-cases (t.nbuf == 0)) [
      | inl e ↦ rw e (unfold blocks empty in ap (λ o. (t, o)) (sym (append-nil out)))
      | inr e ↦ rw e
    ]
    by_rest t out (x ∷ rest) = elim (Bool-cases (t.nbuf == 0)) [
      | inl e ↦ rw e (unfold empty in refl)
      | inr e ↦ rw e
    ]

decrypt_byte-encrypt_byte :
    (s : Cipher) (b : ℕ) → decrypt_byte s (encrypt_byte s b).1 ≡ ((encrypt_byte s b).0, b)
unfolding decrypt_byte encrypt_byte
decrypt_byte-encrypt_byte s b = rw xor_cancel

decrypt_word-encrypt_word :
    (s : Cipher) (t : ℕ) → decrypt_word s (encrypt_word s t).1 ≡ ((encrypt_word s t).0, t)
unfolding decrypt_word encrypt_word macfunc crcfunc
decrypt_word-encrypt_word s t = rw xor_cancel

-- The first loop: what `decrypt` makes of the bytes that it wrote, before any that follow them.
record Filled (s : Cipher) (bs ys : Bytes) : Type 0 where
  plain : Bytes
  parts : bs ≡ plain ++ (fill encrypt_byte s bs).2
  back :
      fill decrypt_byte s ((fill encrypt_byte s bs).1 ++ ys)
      ≡ ((fill encrypt_byte s bs).0, plain, ys)

abbrev EndsWith : Cipher → Bytes → Bytes → Type 0
EndsWith s bs ys = (fill encrypt_byte s bs).2 ≡ [] → ys ≡ []

fill-Filled : (s : Cipher) (bs ys : Bytes) → EndsWith s bs ys → Filled s bs ys
fill-Filled s [] ys h = unfold fill in record { plain = []; parts = refl; back = rw (h refl) }
fill-Filled s (b ∷ bs) ys h = elim (Bool-cases (s.nbuf == 0)) [
  | inl e ↦
      let stop = fill-stop encrypt_byte s (b ∷ bs) e in
      record {
        plain = [];
        parts = sym (ap (λ r. r.2) stop);
        back = rw stop (fill-stop decrypt_byte s ys e);
      }
  | inr e ↦
      let step = fill-step encrypt_byte s b bs e in
      let ih = fill-Filled (encrypt_byte s b).0 bs ys (λ p. h (ap (λ r. r.2) step ∙ p)) in
      record {
        plain = b ∷ ih.plain;
        parts = rw step (ap (λ r. b ∷ r) ih.parts);
        back = rw step (
            fill-step decrypt_byte s _ _ e
            ∙ rw decrypt_byte-encrypt_byte (ap (λ r. (r.0, b ∷ r.1, r.2)) ih.back));
      }
]

encrypt_word-IsU32 : (s : Cipher) (t : ℕ) → IsValid s → IsU32 t → IsU32 (encrypt_word s t).1
unfolding encrypt_word macfunc crcfunc
encrypt_word-IsU32 s t v h = xor-IsU32 _ _ h (cycle-IsValid s v).sbuf_word

encrypt_word-IsValid : (s : Cipher) (t : ℕ) → IsValid s → IsU32 t → IsValid (encrypt_word s t).0
unfolding encrypt_word
encrypt_word-IsValid s t v h = macfunc-IsValid _ t (cycle-IsValid s v) h

blocks-back :
    (s : Cipher) (bs : Bytes)
    → IsValid s
    → All IsByte bs
    → decrypt_blocks s (encrypt_blocks s bs).1 ≡ ((encrypt_blocks s bs).0, bs)
unfolding blocks partial fill encrypt_byte decrypt_byte mac_byte pad_byte
blocks-back s [] v h = refl
blocks-back s (b0 ∷ []) v h = simp xor_cancel
blocks-back s (b0 ∷ b1 ∷ []) v h = simp xor_cancel
blocks-back s (b0 ∷ b1 ∷ b2 ∷ []) v h = simp xor_cancel
blocks-back s (b0 ∷ b1 ∷ b2 ∷ b3 ∷ rest) v (h0, (h1, (h2, (h3, hs)))) =
    let word = byte2word-IsU32 b0 b1 b2 b3 h0 h1 h2 h3 in
    let t = byte2word b0 b1 b2 b3 in
    let ih = blocks-back (encrypt_word s t).0 rest (encrypt_word-IsValid s t v word) hs in
    blocks-word2byte cycle decrypt_byte decrypt_word s (encrypt_word s t).1
      (encrypt_blocks (encrypt_word s t).0 rest).1 (encrypt_word-IsU32 s t v word)
    ∙ rw (decrypt_word-encrypt_word, word2byte-byte2word b0 b1 b2 b3 h0 h1 h2 h3)
        (ap (λ r. (r.0, b0 ∷ b1 ∷ b2 ∷ b3 ∷ r.1)) ih)

nothing_left : (s : Cipher) (bs : Bytes) → bs ≡ [] → (encrypt_blocks s bs).1 ≡ []
unfolding blocks
nothing_left s bs e = rw e

-- On a valid state of the ESP32 cipher, whatever part of a word is pending, decrypting what
-- encrypting any bytes gave brings the bytes back and leaves the very state that encrypting left.
pub decrypt-encrypt_pending :
    (s : Cipher) (bs : Bytes)
    → IsValid s
    → All IsByte bs
    → decrypt s (encrypt s bs).1 ≡ ((encrypt s bs).0, bs)
unfolding encrypt decrypt
decrypt-encrypt_pending s bs v h =
    let first = fill encrypt_byte s bs in
    let (filled, left) =
      fill-IsValid encrypt_byte (λ s b w k e. unfold encrypt_byte in mac_byte-IsValid s b w e) s bs
        v h in
    let f = fill-Filled s bs (encrypt_blocks first.0 first.2).1 (nothing_left first.0 first.2) in
    rw (crypt-blocks encrypt_byte encrypt_word s bs) (
      crypt-blocks decrypt_byte decrypt_word s _
      ∙ rw (f.back, blocks-back first.0 first.2 filled left)
          (ap (λ r. ((encrypt_blocks first.0 first.2).0, r)) (sym f.parts)))
