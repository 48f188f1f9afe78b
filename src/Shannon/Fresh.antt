-- ===== src/Shannon/Fresh.antt =====
-- The key schedule reads of a state the registers and the constant only, so that a nonce leaves nothing
-- of the packets that went through the cipher.
use espconnect.Common.{ℕ, zero, suc, ◌≡◌, refl, sym, ap, ◌∙◌, [], ◌∷◌, Bytes, u32, length}
use mathlib.Core.Path.{ap₂}
use espconnect.Shannon.{
  Cipher, at, byte2word, load_words, load_key, diffuse_rounds, xor_words, reload_state, genkonst,
}
use espconnect.Shannon.RoundTrip.{AgreeButMbuf}

-- Two states with the same registers and constant.
pub record Alike (s t : Cipher) : Type 0 where
  pub r : s.r ≡ t.r
  pub konst : s.konst ≡ t.konst

-- What the clocking and ADDKEY of a port read and leave alone.
pub record IsClocking (clock : Cipher → Cipher) (stir : Cipher → ℕ → Cipher) : Type 0 where
  pub clock_alike : (s t : Cipher) → Alike s t → Alike (clock s) (clock t)
  pub clock_sbuf : (s t : Cipher) → Alike s t → (clock s).sbuf ≡ (clock t).sbuf
  pub clock_crc : (s : Cipher) → (clock s).crc ≡ s.crc
  pub clock_init : (s : Cipher) → (clock s).init_r ≡ s.init_r
  pub stir_alike : (s t : Cipher) (k : ℕ) → Alike s t → Alike (stir s k) (stir t k)
  pub stir_init : (s : Cipher) (k : ℕ) → (stir s k).init_r ≡ s.init_r

pub fields-AgreeButMbuf :
    (s t : Cipher)
    → s.r ≡ t.r
    → s.crc ≡ t.crc
    → s.init_r ≡ t.init_r
    → s.konst ≡ t.konst
    → s.sbuf ≡ t.sbuf
    → s.nbuf ≡ t.nbuf
    → AgreeButMbuf s t
fields-AgreeButMbuf s t er ec ei ek es en = λ i. record {
  r = er i;
  crc = ec i;
  init_r = ei i;
  konst = ek i;
  sbuf = es i;
  mbuf = 0;
  nbuf = en i;
}

module _ (clock : Cipher → Cipher) (stir : Cipher → ℕ → Cipher) (laws : IsClocking clock stir) where
  word-Alike : (s t : Cipher) (k : ℕ) → Alike s t → Alike (clock (stir s k)) (clock (stir t k))
  word-Alike s t k h = laws.clock_alike _ _ (laws.stir_alike s t k h)

  word_init : (s : Cipher) (k : ℕ) → (clock (stir s k)).init_r ≡ s.init_r
  word_init s k = laws.clock_init (stir s k) ∙ laws.stir_init s k

  load_words-Alike :
      (s t : Cipher) (key : Bytes)
      → Alike s t
      → Alike (load_words clock stir s key) (load_words clock stir t key)
  unfolding load_words
  load_words-Alike s t [] h = h
  load_words-Alike s t (b0 ∷ []) h = word-Alike s t _ h
  load_words-Alike s t (b0 ∷ b1 ∷ []) h = word-Alike s t _ h
  load_words-Alike s t (b0 ∷ b1 ∷ b2 ∷ []) h = word-Alike s t _ h
  load_words-Alike s t (b0 ∷ b1 ∷ b2 ∷ b3 ∷ rest) h =
      load_words-Alike (clock (stir s (byte2word b0 b1 b2 b3)))
        (clock (stir t (byte2word b0 b1 b2 b3))) rest (word-Alike s t _ h)

  load_words-init : (s : Cipher) (key : Bytes) → (load_words clock stir s key).init_r ≡ s.init_r
  unfolding load_words
  load_words-init s [] = refl
  load_words-init s (b0 ∷ []) = word_init s _
  load_words-init s (b0 ∷ b1 ∷ []) = word_init s _
  load_words-init s (b0 ∷ b1 ∷ b2 ∷ []) = word_init s _
  load_words-init s (b0 ∷ b1 ∷ b2 ∷ b3 ∷ rest) =
      load_words-init (clock (stir s (byte2word b0 b1 b2 b3))) rest ∙ word_init s _

  diffuse-Alike :
      (n : ℕ) (s t : Cipher)
      → Alike s t
      → Alike (diffuse_rounds clock stir n s) (diffuse_rounds clock stir n t)
  unfolding diffuse_rounds
  diffuse-Alike zero s t h = h
  diffuse-Alike (suc n) s t h = diffuse-Alike n _ _ (laws.clock_alike s t h)

  diffuse-sbuf :
      (n : ℕ) (s t : Cipher)
      → Alike s t
      → (diffuse_rounds clock stir (suc n) s).sbuf ≡ (diffuse_rounds clock stir (suc n) t).sbuf
  unfolding diffuse_rounds
  diffuse-sbuf zero s t h = laws.clock_sbuf s t h
  diffuse-sbuf (suc n) s t h = diffuse-sbuf n _ _ (laws.clock_alike s t h)

  diffuse-crc : (n : ℕ) (s : Cipher) → (diffuse_rounds clock stir n s).crc ≡ s.crc
  unfolding diffuse_rounds
  diffuse-crc zero s = refl
  diffuse-crc (suc n) s = diffuse-crc n (clock s) ∙ laws.clock_crc s

  diffuse-init : (n : ℕ) (s : Cipher) → (diffuse_rounds clock stir n s).init_r ≡ s.init_r
  unfolding diffuse_rounds
  diffuse-init zero s = refl
  diffuse-init (suc n) s = diffuse-init n (clock s) ∙ laws.clock_init s

  -- What is the same after the same key, whatever the CRC register and the pending words were.
  pub record Loaded (s t : Cipher) : Type 0 where
    pub alike : Alike s t
    pub crc : s.crc ≡ t.crc
    pub sbuf : s.sbuf ≡ t.sbuf

  pub load_key-Loaded :
      (s t : Cipher) (key : Bytes)
      → Alike s t
      → Loaded (load_key clock stir s key) (load_key clock stir t key)
  unfolding load_key
  load_key-Loaded s t key h =
      let s0 = clock (stir (load_words clock stir s key) (u32 (length key))) in
      let t0 = clock (stir (load_words clock stir t key) (u32 (length key))) in
      let front = word-Alike _ _ (u32 (length key)) (load_words-Alike s t key h) in
      let copied : Alike (record s0 { crc = s0.r }) (record t0 { crc = t0.r }) = record {
        r = front.r;
        konst = front.konst;
      } in
      let back = diffuse-Alike 16 _ _ copied in
      let crcs = diffuse-crc 16 _ ∙ front.r ∙ sym (diffuse-crc 16 _) in
      record {
        alike = record { r = ap₂ xor_words back.r crcs; konst = back.konst };
        crc = crcs;
        sbuf = diffuse-sbuf 15 _ _ copied;
      }

  pub load_key-init : (s : Cipher) (key : Bytes) → (load_key clock stir s key).init_r ≡ s.init_r
  unfolding load_key
  load_key-init s key = diffuse-init 16 _ ∙ word_init _ (u32 (length key)) ∙ load_words-init s key

  -- A nonce over an initial constant, as platform_shannon_nonce sets it.
  abbrev pub nonced : ℕ → Cipher → Bytes → Cipher
  nonced k s nonce =
      record (genkonst (load_key clock stir (record (reload_state s) { konst = k }) nonce)) {
        nbuf = 0;
      }

  pub nonced-AgreeButMbuf :
      (k : ℕ) (s t : Cipher) (nonce : Bytes)
      → s.init_r ≡ t.init_r
      → AgreeButMbuf (nonced k s nonce) (nonced k t nonce)
  unfolding reload_state genkonst
  nonced-AgreeButMbuf k s t nonce same =
      let s' = record (reload_state s) { konst = k } in
      let t' = record (reload_state t) { konst = k } in
      let l = load_key-Loaded s' t' nonce (record { r = same; konst = refl }) in
      let kept = load_key-init s' nonce ∙ same ∙ sym (load_key-init t' nonce) in
      fields-AgreeButMbuf (nonced k s nonce) (nonced k t nonce) l.alike.r l.crc kept
        (ap (λ r. at r 0) l.alike.r) l.sbuf refl

  pub nonced-init : (k : ℕ) (s : Cipher) (nonce : Bytes) → (nonced k s nonce).init_r ≡ s.init_r
  unfolding reload_state genkonst
  nonced-init k s nonce = load_key-init (record (reload_state s) { konst = k }) nonce
