-- ===== src/Shannon/Header.antt =====
-- What becomes of a message that is encrypted in one call and decrypted in two, first three bytes and
-- then the rest: the way in which mercury.c sends and receives a packet.
use espconnect.Common.{
  ℕ, ◌≤◌, ◌≡◌, refl, ap, ◌∙◌, [], ◌∷◌, ◌++◌, length, bit_xor, All, IsByte, Bytes, arith, xor_cancel,
}
use espconnect.Shannon.{
  Cipher, pad_byte, mac_byte, encrypt_byte, decrypt_byte, fill, partial, blocks, crypt, encrypt,
  decrypt, finish, word2byte, set_nonce,
}
use espconnect.Shannon.Valid.{IsValid}
use espconnect.Shannon.RoundTrip.{AgreeButMbuf, decrypt-encrypt, decrypt_nil}
use espconnect.Shannon.Bytewise.{length-bytewise}
use espconnect.Shannon.Bytewise.Streams.{encrypt-bytewise, encrypt-append}

-- Encrypting keeps the length.
pub length-encrypt : (s : Cipher) (bs : Bytes) → All IsByte bs → length (encrypt s bs).1 ≡ length bs
length-encrypt s bs h = ap length (encrypt-bytewise s bs h).same_bytes ∙ length-bytewise s bs

-- The MAC has four bytes.
pub length-finish : (s : Cipher) → length (finish s).1 ≡ 4
unfolding finish word2byte
length-finish s = refl

-- A nonce starts at a word boundary.
pub nbuf-set_nonce : (s : Cipher) (nonce : Bytes) → (set_nonce s nonce).nbuf ≡ 0
unfolding set_nonce
nbuf-set_nonce s nonce = refl

-- One byte in the middle of a word, in both directions.
encrypt-one :
    (s : Cipher) (b : ℕ) → s.nbuf ≡ 8 → (encrypt s (b ∷ [])).1 ≡ bit_xor b (pad_byte s) ∷ []
unfolding encrypt crypt fill encrypt_byte mac_byte blocks
encrypt-one s b e = rw e

decrypt-one :
    (s : Cipher) (b : ℕ) → s.nbuf ≡ 8 → (decrypt s (b ∷ [])).1 ≡ bit_xor b (pad_byte s) ∷ []
unfolding decrypt crypt fill decrypt_byte mac_byte blocks
decrypt-one s b e = rw e

nbuf-three : (s : Cipher) (b0 b1 b2 : ℕ) → s.nbuf ≡ 0 → (encrypt s (b0 ∷ b1 ∷ b2 ∷ [])).0.nbuf ≡ 8
unfolding encrypt crypt blocks partial fill encrypt_byte mac_byte
nbuf-three s b0 b1 b2 e = rw e

encrypt_nil : (s : Cipher) → (encrypt s []).1 ≡ []
encrypt_nil s = nothing (encrypt s []).1 (length-encrypt s [] tt)
  where
    nothing : (xs : Bytes) → length xs ≡ 0 → xs ≡ []
    nothing [] e = refl
    nothing (x ∷ xs) e = absurd (omega arith)

pad_byte-mbuf : (s t : Cipher) → AgreeButMbuf s t → (s.nbuf ≡ t.nbuf) × (pad_byte s ≡ pad_byte t)
unfolding pad_byte
pad_byte-mbuf s t e = (ap (λ c. c.nbuf) e, ap pad_byte e)

-- Behind the three bytes of a header, the rest of at most one byte comes back.
rest_back :
    (sender receiver : Cipher) (rest : Bytes)
    → sender.nbuf ≡ 8
    → AgreeButMbuf receiver sender
    → length rest ≤ 1
    → (decrypt receiver (encrypt sender rest).1).1 ≡ rest
rest_back sender receiver [] e agree h =
    rw (encrypt_nil sender) (ap (λ r. r.1) (decrypt_nil receiver))
rest_back sender receiver (b ∷ []) e agree h =
    let same = pad_byte-mbuf receiver sender agree in
    rw (encrypt-one sender b e)
      (decrypt-one receiver (bit_xor b (pad_byte sender)) (same.0 ∙ e) ∙ rw (same.1, xor_cancel))
rest_back sender receiver (b ∷ c ∷ rest) e agree h = absurd (omega arith)

-- A message, as it is masked and as it is read again.
pub record ReadBack (s : Cipher) (b0 b1 b2 : ℕ) (rest : Bytes) : Type 0 where
  pub hdr : Bytes
  pub body : Bytes
  pub parts : (encrypt s (b0 ∷ b1 ∷ b2 ∷ rest)).1 ≡ hdr ++ body
  pub length_hdr : length hdr ≡ 3
  pub length_body : length body ≡ length rest
  pub plain_hdr : (decrypt s hdr).1 ≡ b0 ∷ b1 ∷ b2 ∷ []
  pub plain_body : (decrypt (decrypt s hdr).0 body).1 ≡ rest

pub header-ReadBack :
    (s : Cipher) (b0 b1 b2 : ℕ) (rest : Bytes)
    → IsValid s
    → s.nbuf ≡ 0
    → All IsByte (b0 ∷ b1 ∷ b2 ∷ [])
    → All IsByte rest
    → length rest ≤ 1
    → ReadBack s b0 b1 b2 rest
header-ReadBack s b0 b1 b2 rest v e h k short =
    let hdr = b0 ∷ b1 ∷ b2 ∷ [] in
    let sender = (encrypt s hdr).0 in
    let back = decrypt-encrypt s hdr v e h in
    record {
      hdr = (encrypt s hdr).1;
      body = (encrypt sender rest).1;
      parts = (encrypt-append s hdr rest h k).same_bytes;
      length_hdr = length-encrypt s hdr h;
      length_body = length-encrypt sender rest k;
      plain_hdr = back.0;
      plain_body =
          rest_back sender (decrypt s (encrypt s hdr).1).0 rest (nbuf-three s b0 b1 b2 e) back.1
            short;
    }
