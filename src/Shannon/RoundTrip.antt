-- ===== src/Shannon/RoundTrip.antt =====
-- What `platform_shannon_decrypt` does to the output of `platform_shannon_encrypt` from the same
-- state, at a word boundary.
use espconnect.Common.{
  ◌==◌, Bool-cases, inl, inr, ℕ, ◌*◌, ◌/◌, ◌%◌, ◌<◌, ◌≡◌, ◌↔◌, refl, sym, ap, ◌∙◌, [], ◌∷◌, ◌++◌,
  bit_xor, length, All, IsU32, IsByte, Bytes, u8, u32, arith, xor_cancel, xor_comm, zero-xor,
  xor-lt,
}
use espconnect.Shannon.{
  Cipher, byte2word, word2byte, cycle, macfunc, crcfunc, pad_byte, mac_byte, encrypt_byte,
  decrypt_byte, encrypt_word, decrypt_word, fill, partial, blocks, crypt, encrypt, decrypt,
}
use espconnect.Shannon.Valid.{
  IsValid, xor-IsU32, cycle-IsValid, macfunc-IsValid, byte2word-IsU32, word2byte-byte2word,
}
use espconnect.Shannon.Loops.{blocks-word2byte}

-- The two states are one but for the pending word of the MAC.
abbrev pub AgreeButMbuf : Cipher → Cipher → Type 0
AgreeButMbuf a b = record a { mbuf = 0 } ≡ record b { mbuf = 0 }

encrypt_blocks : Cipher → Bytes → Cipher × Bytes
encrypt_blocks = blocks cycle encrypt_byte encrypt_word

decrypt_blocks : Cipher → Bytes → Cipher × Bytes
decrypt_blocks = blocks cycle decrypt_byte decrypt_word

decrypt_word-encrypt_word :
    (s : Cipher) (t : ℕ) → decrypt_word s (encrypt_word s t).1 ≡ ((encrypt_word s t).0, t)
unfolding decrypt_word encrypt_word macfunc crcfunc
decrypt_word-encrypt_word s t = rw xor_cancel

decrypt_round :
    (s : Cipher) (w : ℕ) (rest : Bytes)
    → IsU32 w
    → decrypt_blocks s (word2byte w ++ rest) ≡ (
      (decrypt_blocks (decrypt_word s w).0 rest).0,
      word2byte (decrypt_word s w).1 ++ (decrypt_blocks (decrypt_word s w).0 rest).1,
    )
unfolding decrypt_blocks
decrypt_round = blocks-word2byte cycle decrypt_byte decrypt_word

encrypt_word-IsU32 : (s : Cipher) (t : ℕ) → IsValid s → IsU32 t → IsU32 (encrypt_word s t).1
unfolding encrypt_word macfunc crcfunc
encrypt_word-IsU32 s t v h = xor-IsU32 _ _ h (cycle-IsValid s v).sbuf_word

encrypt_word-IsValid : (s : Cipher) (t : ℕ) → IsValid s → IsU32 t → IsValid (encrypt_word s t).0
unfolding encrypt_word
encrypt_word-IsValid s t v h = macfunc-IsValid _ t (cycle-IsValid s v) h

module _ (s : Cipher) (b0 b1 b2 b3 : ℕ) (v : IsValid s) (h0 : IsByte b0) (h1 : IsByte b1)
    (h2 : IsByte b2) (h3 : IsByte b3) where
  abbrev loaded : ℕ
  loaded = byte2word b0 b1 b2 b3

  abbrev after : Cipher
  after = (encrypt_word s loaded).0

  -- A word of `encrypt` and the same word of `decrypt` leave the rest of the message to one state.
  round_trip_word :
      (rest : Bytes)
      → decrypt_blocks s (encrypt_blocks s (b0 ∷ b1 ∷ b2 ∷ b3 ∷ rest)).1 ≡ (
        (decrypt_blocks after (encrypt_blocks after rest).1).0,
        b0 ∷ b1 ∷ b2 ∷ b3 ∷ (decrypt_blocks after (encrypt_blocks after rest).1).1,
      )
  round_trip_word rest =
      let w = encrypt_word-IsU32 s loaded v (byte2word-IsU32 b0 b1 b2 b3 h0 h1 h2 h3) in
      unfold encrypt_blocks blocks in
      decrypt_round s (encrypt_word s loaded).1 (encrypt_blocks after rest).1 w
      ∙ rw (decrypt_word-encrypt_word, word2byte-byte2word b0 b1 b2 b3 h0 h1 h2 h3)

-- The states differ in what they collected; the bytes come back.
RoundTrips : Cipher → Bytes → Type 0
unfolding encrypt_blocks decrypt_blocks
RoundTrips s bs =
    ((decrypt_blocks s (encrypt_blocks s bs).1).1 ≡ bs)
    × AgreeButMbuf (decrypt_blocks s (encrypt_blocks s bs).1).0 (encrypt_blocks s bs).0

tail_one : (s : Cipher) (b0 : ℕ) → RoundTrips s (b0 ∷ [])
unfolding RoundTrips blocks partial fill encrypt_byte decrypt_byte mac_byte pad_byte
tail_one s b0 = (rw xor_cancel, refl)

tail_two : (s : Cipher) (b0 b1 : ℕ) → RoundTrips s (b0 ∷ b1 ∷ [])
unfolding RoundTrips blocks partial fill encrypt_byte decrypt_byte mac_byte pad_byte
tail_two s b0 b1 = (simp xor_cancel, refl)

tail_three : (s : Cipher) (b0 b1 b2 : ℕ) → RoundTrips s (b0 ∷ b1 ∷ b2 ∷ [])
unfolding RoundTrips blocks partial fill encrypt_byte decrypt_byte mac_byte pad_byte
tail_three s b0 b1 b2 = (simp xor_cancel, refl)

RoundTrips-blocks : (s : Cipher) (bs : Bytes) → IsValid s → All IsByte bs → RoundTrips s bs
unfolding RoundTrips
RoundTrips-blocks s [] v h = unfold blocks in (refl, refl)
RoundTrips-blocks s (b0 ∷ []) v h = tail_one s b0
RoundTrips-blocks s (b0 ∷ b1 ∷ []) v h = tail_two s b0 b1
RoundTrips-blocks s (b0 ∷ b1 ∷ b2 ∷ []) v h = tail_three s b0 b1 b2
RoundTrips-blocks s (b0 ∷ b1 ∷ b2 ∷ b3 ∷ rest) v (h0, (h1, (h2, (h3, hs)))) =
    let word = byte2word-IsU32 b0 b1 b2 b3 h0 h1 h2 h3 in
    let ih =
      RoundTrips-blocks (encrypt_word s (byte2word b0 b1 b2 b3)).0 rest
        (encrypt_word-IsValid s _ v word) hs in
    let same = round_trip_word s b0 b1 b2 b3 v h0 h1 h2 h3 rest in
    (
      ap (λ r. r.1) same ∙ ap (λ r. b0 ∷ b1 ∷ b2 ∷ b3 ∷ r) ih.0,
      ap (λ r. record (r.0) { mbuf = 0 }) same ∙ ih.1 ∙ unfold blocks in refl,
    )

-- At a whole number of words the states agree outright.
Exact_blocks :
    (s : Cipher) (bs : Bytes)
    → IsValid s
    → All IsByte bs
    → length bs % 4 ≡ 0
    → decrypt_blocks s (encrypt_blocks s bs).1 ≡ ((encrypt_blocks s bs).0, bs)
unfolding encrypt_blocks decrypt_blocks
Exact_blocks s [] v h e = unfold blocks in refl
Exact_blocks s (b0 ∷ []) v h e = absurd (omega arith)
Exact_blocks s (b0 ∷ b1 ∷ []) v h e = absurd (omega arith)
Exact_blocks s (b0 ∷ b1 ∷ b2 ∷ []) v h e = absurd (omega arith)
Exact_blocks s (b0 ∷ b1 ∷ b2 ∷ b3 ∷ rest) v (h0, (h1, (h2, (h3, hs)))) e =
    let word = byte2word-IsU32 b0 b1 b2 b3 h0 h1 h2 h3 in
    let ih =
      Exact_blocks (encrypt_word s (byte2word b0 b1 b2 b3)).0 rest (encrypt_word-IsValid s _ v word)
        hs (omega arith) in
    round_trip_word s b0 b1 b2 b3 v h0 h1 h2 h3 rest
    ∙ ap (λ r. (r.0, b0 ∷ b1 ∷ b2 ∷ b3 ∷ r.1)) ih
    ∙ unfold blocks in refl

at_boundary :
    (s : Cipher) (bs : Bytes)
    → s.nbuf ≡ 0
    → (encrypt s bs ≡ encrypt_blocks s bs) × (decrypt s bs ≡ decrypt_blocks s bs)
unfolding encrypt decrypt crypt encrypt_blocks decrypt_blocks
at_boundary s bs e = (rw e, rw e)

-- On a valid cipher state at a word boundary, decrypting what encrypting any bytes from that state
-- gave brings the bytes back, however many, and the two states after it differ at most in mbuf.
pub decrypt-encrypt :
    (s : Cipher) (bs : Bytes)
    → IsValid s
    → s.nbuf ≡ 0
    → All IsByte bs
    → ((decrypt s (encrypt s bs).1).1 ≡ bs)
      × AgreeButMbuf (decrypt s (encrypt s bs).1).0 (encrypt s bs).0
unfolding RoundTrips
decrypt-encrypt s bs v e h =
    rw ((at_boundary s bs e).0, (at_boundary s (encrypt_blocks s bs).1 e).1)
      (RoundTrips-blocks s bs v h)

-- On a valid state at a word boundary, with a whole number of words, decrypting what was encrypted
-- gives the bytes and the very same state, MAC registers included.
pub decrypt-encrypt_words :
    (s : Cipher) (bs : Bytes)
    → IsValid s
    → s.nbuf ≡ 0
    → All IsByte bs
    → length bs % 4 ≡ 0
    → decrypt s (encrypt s bs).1 ≡ ((encrypt s bs).0, bs)
decrypt-encrypt_words s bs v e h whole =
    rw ((at_boundary s bs e).0, (at_boundary s (encrypt_blocks s bs).1 e).1)
      (Exact_blocks s bs v h whole)

tail_mbuf :
    (s : Cipher) (b : ℕ)
    → IsByte b
    → ((encrypt_blocks s (b ∷ [])).0.mbuf ≡ b)
      × ((decrypt_blocks s (encrypt_blocks s (b ∷ [])).1).0.mbuf ≡ bit_xor b (u8 (cycle s).sbuf))
unfolding encrypt_blocks decrypt_blocks blocks partial fill encrypt_byte decrypt_byte mac_byte
    pad_byte
tail_mbuf s b h =
    let k = u8 ((cycle s).sbuf / 1) in
    let masked = xor-lt 8 b k h (omega arith) in
    (
      zero-xor (u32 (b * 1)) ∙ omega arith,
      zero-xor (u32 (bit_xor b k * 1)) ∙ fits b k masked ∙ ap (bit_xor b) (omega arith),
    )
  where
    fits : (x y : ℕ) → bit_xor x y < 256 → u32 (bit_xor x y * 1) ≡ bit_xor x y
    fits x y h = omega arith

xor_fixed : (b k : ℕ) → bit_xor b k ≡ b → k ≡ 0
xor_fixed b k e = sym (xor_cancel k b) ∙ ap (λ x. bit_xor x b) (xor_comm k b ∙ e) ∙ xor_self b
  where
    xor_self : (x : ℕ) → bit_xor x x ≡ 0
    xor_self x = ap (λ y. bit_xor y x) (sym (zero-xor x)) ∙ xor_cancel 0 x

-- For one byte at a word boundary, decrypting its masked form from the same state collects for the
-- MAC what encrypting it collected exactly when the key byte is 0.
pub decrypt-encrypt-mbuf_iff :
    (s : Cipher) (b : ℕ)
    → s.nbuf ≡ 0
    → IsByte b
    → ((decrypt s (encrypt s (b ∷ [])).1).0.mbuf ≡ (encrypt s (b ∷ [])).0.mbuf)
      ↔ (u8 (cycle s).sbuf ≡ 0)
decrypt-encrypt-mbuf_iff s b e h =
    rw ((at_boundary s (b ∷ []) e).0, (at_boundary s (encrypt_blocks s (b ∷ [])).1 e).1)
      (rw ((tail_mbuf s b h).0, (tail_mbuf s b h).1)
        (xor_fixed b _, λ z. rw z (xor_comm b 0 ∙ zero-xor b)))

-- Nothing to decrypt changes nothing, whatever part of a word is pending.
pub decrypt_nil : (s : Cipher) → decrypt s [] ≡ (s, [])
unfolding decrypt crypt fill blocks
decrypt_nil s = elim (Bool-cases (s.nbuf == 0)) [ inl e ↦ rw e refl | inr e ↦ rw e refl ]
