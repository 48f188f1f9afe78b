-- ===== src/Shannon/Ports/Keep.antt =====
-- What the calls of each port leave of the key, and that a nonce needs nothing else.
use espconnect.Common.{
  ℕ, ◌≡◌, refl, ◌∙◌, List, [], ◌∷◌, Bytes, set, bit_xor, if◌then◌else◌, ◌==◌, ◌&&◌, Bool-cases, inl,
  inr,
}
use espconnect.Shannon.{
  Cipher, byte2word, keyp, cycle, addkey, macfunc, crcfunc, mac_byte, encrypt_byte, decrypt_byte,
  encrypt_word, decrypt_word, fill, partial, blocks, crypt, encrypt, decrypt, mix_crc, finish, at,
  set_nonce, initkonst,
}
use espconnect.Shannon.Esp32
use espconnect.Shannon.Windows
use espconnect.Shannon.RoundTrip.{AgreeButMbuf}
use espconnect.Shannon.Fresh.{IsClocking, nonced-init, nonced-AgreeButMbuf}
use espconnect.Shannon.Ports.{
  Port, Os, posix, esp32, windows, port, Used, fresh, by_nonce, by_mask, by_unmask, by_close,
}

pub posix_clock : IsClocking cycle addkey
unfolding cycle addkey
posix_clock = record {
  clock_alike = λ s t h. record {
    r = λ i. (cycle (record s { r = h.r i; konst = h.konst i })).r;
    konst = h.konst;
  };
  clock_sbuf = λ s t h i. (cycle (record s { r = h.r i; konst = h.konst i })).sbuf;
  clock_crc = λ s. refl;
  clock_init = λ s. refl;
  stir_alike =
      λ s t k h. record { r = λ i. (addkey (record s { r = h.r i }) k).r; konst = h.konst };
  stir_init = λ s k. refl;
}

esp32_clock : IsClocking Esp32.cycle Esp32.addkey
unfolding Esp32.cycle Esp32.addkey
esp32_clock = record {
  clock_alike = λ s t h. record {
    r = λ i. (Esp32.cycle (record s { r = h.r i; konst = h.konst i })).r;
    konst = h.konst;
  };
  clock_sbuf = λ s t h i. (Esp32.cycle (record s { r = h.r i; konst = h.konst i })).sbuf;
  clock_crc = λ s. refl;
  clock_init = λ s. refl;
  stir_alike =
      λ s t k h. record { r = λ i. (Esp32.addkey (record s { r = h.r i }) k).r; konst = h.konst };
  stir_init = λ s k. refl;
}

-- Steps that leave the key alone.
abbrev KeepsKey : (Cipher → ℕ → Cipher × ℕ) → Type 0
KeepsKey step = (s : Cipher) (b : ℕ) → (step s b).0.init_r ≡ s.init_r

module _ (clock : Cipher → Cipher) (on_byte on_word : Cipher → ℕ → Cipher × ℕ)
    (clock_keeps : (s : Cipher) → (clock s).init_r ≡ s.init_r) (byte_keeps : KeepsKey on_byte)
    (word_keeps : KeepsKey on_word) where
  fill-init : (s : Cipher) (bs : Bytes) → (fill on_byte s bs).0.init_r ≡ s.init_r
  unfolding fill
  fill-init s [] = refl
  fill-init s (b ∷ bs) = elim (Bool-cases (s.nbuf == 0)) [
    | inl e ↦ rw e refl
    | inr e ↦ rw e (fill-init (on_byte s b).0 bs ∙ byte_keeps s b)
  ]

  partial-init :
      (s : Cipher) (bs : Bytes) → (partial clock on_byte on_word s bs).0.init_r ≡ s.init_r
  unfolding partial
  partial-init s bs = fill-init (record (clock s) { mbuf = 0; nbuf = 32 }) bs ∙ clock_keeps s

  blocks-init : (s : Cipher) (bs : Bytes) → (blocks clock on_byte on_word s bs).0.init_r ≡ s.init_r
  unfolding blocks
  blocks-init s [] = refl
  blocks-init s (b0 ∷ []) = partial-init s (b0 ∷ [])
  blocks-init s (b0 ∷ b1 ∷ []) = partial-init s (b0 ∷ b1 ∷ [])
  blocks-init s (b0 ∷ b1 ∷ b2 ∷ []) = partial-init s (b0 ∷ b1 ∷ b2 ∷ [])
  blocks-init s (b0 ∷ b1 ∷ b2 ∷ b3 ∷ rest) =
      let t = byte2word b0 b1 b2 b3 in blocks-init (on_word s t).0 rest ∙ word_keeps s t

  crypt-init : (s : Cipher) (bs : Bytes) → (crypt clock on_byte on_word s bs).0.init_r ≡ s.init_r
  unfolding crypt macfunc crcfunc
  crypt-init s bs =
      let filled = fill-init s bs in
      let s' = (fill on_byte s bs).0 in
      let later = blocks-init (macfunc s' s'.mbuf) (fill on_byte s bs).2 ∙ filled in
      elim (Bool-cases (s.nbuf == 0)) [
        | inl e ↦ rw e (blocks-init s bs)
        | inr e ↦ elim (Bool-cases (s'.nbuf == 0)) [
          | inl e' ↦ rw (e, e') later
          | inr e' ↦ rw (e, e') filled
        ]
      ]

module _ (on_byte on_word : Cipher → ℕ → Cipher × ℕ) (byte_keeps : KeepsKey on_byte)
    (word_keeps : KeepsKey on_word) where
  esp32_crypt-init :
      (s : Cipher) (bs : Bytes) → (Esp32.crypt on_byte on_word s bs).0.init_r ≡ s.init_r
  unfolding Esp32.crypt
  esp32_crypt-init s bs =
      let clocks = esp32_clock.clock_init in
      let filled = fill-init Esp32.cycle on_byte on_word clocks byte_keeps word_keeps s bs in
      let s' = (fill on_byte s bs).0 in
      let rest = (fill on_byte s bs).2 in
      let later = blocks-init Esp32.cycle on_byte on_word clocks byte_keeps word_keeps s' rest in
      elim (Bool-cases ((s'.nbuf == 0) && Esp32.empty rest)) [
        | inl e ↦ rw e filled
        | inr e ↦ rw e (later ∙ filled)
      ]

mix_crc-init : (s : Cipher) (cs : List ℕ) → (mix_crc s cs).init_r ≡ s.init_r
unfolding mix_crc cycle
mix_crc-init s [] = refl
mix_crc-init s (c ∷ cs) =
    mix_crc-init (cycle (record s { r = set s.r keyp (bit_xor (at s.r keyp) c) })) cs

finish-init : (s : Cipher) → (finish s).0.init_r ≡ s.init_r
unfolding finish macfunc crcfunc
finish-init s = elim (Bool-cases (s.nbuf == 0)) [
  | inl e ↦ rw e (mix_crc-init (record s { konst = initkonst }) s.crc)
  | inr e ↦ rw e (mix_crc-init (record (macfunc s s.mbuf) { nbuf = 0; konst = initkonst }) _)
]

-- A finish that clocks once.
short_finish-init :
    (clock : Cipher → Cipher) (s : Cipher)
    → ((t : Cipher) → (clock t).init_r ≡ t.init_r)
    → (clock (if s.nbuf == 0 then s else macfunc s s.mbuf)).init_r ≡ s.init_r
unfolding macfunc crcfunc
short_finish-init clock s keeps = elim (Bool-cases (s.nbuf == 0)) [
  | inl e ↦ rw e (keeps s)
  | inr e ↦ rw e (keeps (macfunc s s.mbuf))
]

-- Each call of a port leaves the saved registers alone.
record IsKeeping (p : Port) : Type 0 where
  nonce_keeps : (s : Cipher) (n : Bytes) → (p.nonce s n).init_r ≡ s.init_r
  mask_keeps : (s : Cipher) (bs : Bytes) → (p.mask s bs).0.init_r ≡ s.init_r
  unmask_keeps : (s : Cipher) (bs : Bytes) → (p.unmask s bs).0.init_r ≡ s.init_r
  close_keeps : (s : Cipher) → (p.close s).0.init_r ≡ s.init_r
  nonce_alone :
      (s t : Cipher) (n : Bytes) → s.init_r ≡ t.init_r → AgreeButMbuf (p.nonce s n) (p.nonce t n)

port-IsKeeping : (os : Os) → IsKeeping (port os)
unfolding port set_nonce encrypt decrypt cycle macfunc crcfunc encrypt_byte decrypt_byte
    encrypt_word decrypt_word mac_byte Esp32.set_nonce Esp32.load_key Esp32.encrypt Esp32.decrypt
    Esp32.finish Esp32.cycle Esp32.encrypt_byte Esp32.decrypt_byte Esp32.encrypt_word
    Esp32.decrypt_word Windows.set_nonce Windows.encrypt Windows.decrypt Windows.finish
port-IsKeeping posix = record {
  nonce_keeps = nonced-init cycle addkey posix_clock initkonst;
  mask_keeps = crypt-init cycle encrypt_byte encrypt_word (λ s. refl) (λ s b. refl) (λ s t. refl);
  unmask_keeps = crypt-init cycle decrypt_byte decrypt_word (λ s. refl) (λ s b. refl) (λ s t. refl);
  close_keeps = finish-init;
  nonce_alone = nonced-AgreeButMbuf cycle addkey posix_clock initkonst;
}
port-IsKeeping esp32 = record {
  nonce_keeps = nonced-init Esp32.cycle Esp32.addkey esp32_clock Esp32.initkonst;
  mask_keeps = esp32_crypt-init Esp32.encrypt_byte Esp32.encrypt_word (λ s b. refl) (λ s t. refl);
  unmask_keeps = esp32_crypt-init Esp32.decrypt_byte Esp32.decrypt_word (λ s b. refl) (λ s t. refl);
  close_keeps = λ s. short_finish-init Esp32.cycle s (λ t. refl);
  nonce_alone = nonced-AgreeButMbuf Esp32.cycle Esp32.addkey esp32_clock Esp32.initkonst;
}
port-IsKeeping windows = record {
  nonce_keeps = nonced-init cycle addkey posix_clock Windows.initkonst;
  mask_keeps = crypt-init cycle encrypt_byte encrypt_word (λ s. refl) (λ s b. refl) (λ s t. refl);
  unmask_keeps = crypt-init cycle decrypt_byte decrypt_word (λ s. refl) (λ s b. refl) (λ s t. refl);
  close_keeps = λ s. short_finish-init cycle s (λ t. refl);
  nonce_alone = nonced-AgreeButMbuf cycle addkey posix_clock Windows.initkonst;
}

used-init : (os : Os) (s t : Cipher) → Used (port os) s t → t.init_r ≡ s.init_r
used-init os s _ fresh = refl
used-init os s _ (by_nonce t n u) = (port-IsKeeping os).nonce_keeps t n ∙ used-init os s t u
used-init os s _ (by_mask t bs u) = (port-IsKeeping os).mask_keeps t bs ∙ used-init os s t u
used-init os s _ (by_unmask t bs u) = (port-IsKeeping os).unmask_keeps t bs ∙ used-init os s t u
used-init os s _ (by_close t u) = (port-IsKeeping os).close_keeps t ∙ used-init os s t u

-- On each of the three ports, after any calls of nonce, encrypt, decrypt and finish,
-- platform_shannon_nonce leaves the state that it leaves on the state before those calls, but for
-- mbuf: the cipher of a packet hangs on the key and the nonce alone, whatever traffic went before.
pub nonce-AgreeButMbuf :
    (os : Os) (s t : Cipher) (n : Bytes)
    → Used (port os) s t
    → AgreeButMbuf ((port os).nonce t n) ((port os).nonce s n)
nonce-AgreeButMbuf os s t n u = (port-IsKeeping os).nonce_alone t s n (used-init os s t u)
