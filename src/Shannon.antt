-- ===== src/Shannon.antt =====
-- The Shannon stream cipher of src/platform_posix.c: the words of the state, the clocking of the
-- registers, and the six operations that mercury.c calls.
-- An `int` or `size_t` of the source is a natural number, and `nbuf`, from which is subtracted, wraps on
-- the 32 bits of its int; an index of a fixed array is read with
-- `get_or`, and `IsValid` in the child Valid says that the arrays have their sixteen words.
pub mod Valid
pub mod Keys
pub mod Loops
pub mod Pending
pub mod RoundTrip
pub mod Bytewise
pub mod Header
pub mod Fresh
pub mod Ports
pub mod Windows
pub mod Esp32
mod Tests
use espconnect.Common.{
  ℕ, zero, suc, ◌+◌, ◌-◌, ◌*◌, ◌/◌, ◌^◌, List, [], ◌∷◌, ◌++◌, bit_and, bit_or, bit_xor, length,
  get_or, set, drop, take, replicate, u8, u32, Bytes, ◌==◌, if◌then◌else◌,
}

abbrev pub initkonst : ℕ
initkonst = 0x6996c75a

abbrev pub keyp : ℕ
keyp = 13

pub record Cipher : Type 0 where
  pub r : List ℕ
  pub crc : List ℕ
  pub init_r : List ℕ
  pub konst : ℕ
  pub sbuf : ℕ
  pub mbuf : ℕ
  pub nbuf : ℕ

-- `c &= 31` and the two shifts; the calls have `c` from 1 to 22.
pub rotl32 : ℕ → ℕ → ℕ
rotl32 n c = let k = bit_and c 31 in bit_or (u32 (n * 2 ^ k)) (n / 2 ^ (32 - k))

pub sbox : ℕ → ℕ
sbox w =
    bit_xor (bit_xor (bit_xor (bit_xor w (rotl32 w 5)) (rotl32 w 7)) (rotl32 w 19)) (rotl32 w 22)

-- BYTE2WORD at the bytes b[0] to b[3].
pub byte2word : ℕ → ℕ → ℕ → ℕ → ℕ
byte2word b0 b1 b2 b3 = bit_or (bit_or (bit_or (b3 * 2 ^ 24) (b2 * 2 ^ 16)) (b1 * 2 ^ 8)) b0

-- WORD2BYTE: what it stores at b[0] to b[3].
pub word2byte : ℕ → Bytes
word2byte w = u8 w ∷ u8 (w / 2 ^ 8) ∷ u8 (w / 2 ^ 16) ∷ u8 (w / 2 ^ 24) ∷ []

abbrev pub at : List ℕ → ℕ → ℕ
at xs i = get_or xs i 0

-- Each word moves down by one place and `t` becomes the last.
pub shift_in : List ℕ → ℕ → List ℕ
shift_in xs t = drop 1 xs ++ (t ∷ [])

pub cycle : Cipher → Cipher
cycle s =
    let t = bit_xor (bit_xor (at s.r 12) (at s.r 13)) s.konst in
    let t' = bit_xor (sbox t) (rotl32 (at s.r 0) 1) in
    let r' = shift_in s.r t' in
    let u = sbox (bit_xor (at r' 2) (at r' 15)) in
    let r'' = set r' 0 (bit_xor (at r' 0) u) in
    record s { r = r''; sbuf = bit_xor (bit_xor u (at r'' 8)) (at r'' 12) }

pub crcfunc : Cipher → ℕ → Cipher
crcfunc s i = record s {
  crc = shift_in s.crc (bit_xor (bit_xor (bit_xor (at s.crc 0) (at s.crc 2)) (at s.crc 15)) i);
}

pub macfunc : Cipher → ℕ → Cipher
macfunc s i = let s' = crcfunc s i in record s' { r = set s'.r keyp (bit_xor (at s'.r keyp) i) }

-- R[i] = R[i-1] + R[i-2] for the rounds left, from the two last words.
pub fib_words : ℕ → ℕ → ℕ → List ℕ
fib_words zero a b = []
fib_words (suc n) a b = let c = u32 (b + a) in c ∷ fib_words n b c

pub init_state : Cipher → Cipher
init_state s = record s { r = 1 ∷ 1 ∷ fib_words 14 1 1; konst = initkonst }

pub save_state : Cipher → Cipher
save_state s = record s { init_r = s.r }

pub reload_state : Cipher → Cipher
reload_state s = record s { r = s.init_r }

pub genkonst : Cipher → Cipher
genkonst s = record s { konst = at s.r 0 }

-- ADDKEY; `R[0] ^= k` stands before `R[13] ^= k`.
pub addkey : Cipher → ℕ → Cipher
addkey s k =
    let r' = set s.r 0 (bit_xor (at s.r 0) k) in
    record s { r = set r' keyp (bit_xor (at r' keyp) k); sbuf = k }

-- R[i] ^= CRC[i] for every word.
pub xor_words : List ℕ → List ℕ → List ℕ
xor_words [] ys = []
xor_words (x ∷ xs) [] = x ∷ xs
xor_words (x ∷ xs) (y ∷ ys) = bit_xor x y ∷ xor_words xs ys

-- The key schedule, over the clocking of the registers and ADDKEY: the ports differ in those two.
module _ (clock : Cipher → Cipher) (stir : Cipher → ℕ → Cipher) where
  diffuse_rounds : ℕ → Cipher → Cipher
  diffuse_rounds zero s = s
  diffuse_rounds (suc n) s = diffuse_rounds n (clock s)

  -- The words of the key, and the last one filled up with zeros.
  pub load_words : Cipher → Bytes → Cipher
  load_words s (b0 ∷ b1 ∷ b2 ∷ b3 ∷ rest) = load_words (clock (stir s (byte2word b0 b1 b2 b3))) rest
  load_words s (b0 ∷ b1 ∷ b2 ∷ []) = clock (stir s (byte2word b0 b1 b2 0))
  load_words s (b0 ∷ b1 ∷ []) = clock (stir s (byte2word b0 b1 0 0))
  load_words s (b0 ∷ []) = clock (stir s (byte2word b0 0 0 0))
  load_words s [] = s

  pub load_key : Cipher → Bytes → Cipher
  load_key s key =
      let s1 = clock (stir (load_words s key) (u32 (length key))) in
      let s2 = diffuse_rounds 16 (record s1 { crc = s1.r }) in
      record s2 { r = xor_words s2.r s2.crc }

-- `calloc`: a state of zeros.
pub new : Cipher
new = record {
  r = replicate 16 0;
  crc = replicate 16 0;
  init_r = replicate 16 0;
  konst = 0;
  sbuf = 0;
  mbuf = 0;
  nbuf = 0;
}

pub set_key : Cipher → Bytes → Cipher
set_key s key = record (save_state (genkonst (load_key cycle addkey (init_state s) key))) {
  nbuf = 0;
}

pub set_nonce : Cipher → Bytes → Cipher
set_nonce s nonce =
    record (genkonst
      (load_key cycle addkey (record (reload_state s) { konst = initkonst }) nonce)) { nbuf = 0 }

-- platform_shannon_key_pair on two states, over the initial state and constant in which the ports differ:
-- the sending and the receiving one. The source reads 32 bytes of each key.
module _ (start : Cipher → Cipher) (first_konst : ℕ) where
  pub pair_up : Cipher → Cipher → Bytes → Bytes → Cipher × Cipher
  pair_up snd rcv send_key recv_key =
      let s1 = genkonst (save_state (load_key cycle addkey (start snd) (take 32 send_key))) in
      let s2 = load_key cycle addkey s1 (take 32 recv_key) in
      let rcv1 = record rcv { r = s2.r; crc = s2.crc; konst = s2.konst; sbuf = s2.sbuf } in
      let s3 = genkonst (record (reload_state s2) { konst = first_konst }) in
      let s4 = save_state (load_key cycle addkey s3 (take 32 send_key)) in
      (record s4 { nbuf = 0 }, record (save_state rcv1) { nbuf = 0 })

pub key_pair : Cipher → Cipher → Bytes → Bytes → Cipher × Cipher
key_pair = pair_up init_state initkonst

-- The key byte for the next byte of a partial word: (uint8_t)(sbuf >> (32 - nbuf)).
pub pad_byte : Cipher → ℕ
pad_byte s = u8 (s.sbuf / 2 ^ (32 - s.nbuf))

-- mbuf ^= b << (32 - nbuf); nbuf -= 8, on the 32 bits of an int.
pub mac_byte : Cipher → ℕ → Cipher
mac_byte s b = record s {
  mbuf = bit_xor s.mbuf (u32 (b * 2 ^ (32 - s.nbuf)));
  nbuf = u32 (s.nbuf + 2 ^ 32 - 8);
}

-- `encrypt` collects the byte before it is masked.
pub encrypt_byte : Cipher → ℕ → Cipher × ℕ
encrypt_byte s b = (mac_byte s b, bit_xor b (pad_byte s))

-- `decrypt` collects the byte as it stands in the buffer, which is the masked one.
pub decrypt_byte : Cipher → ℕ → Cipher × ℕ
decrypt_byte s b = (mac_byte s b, bit_xor b (pad_byte s))

-- One word of the main loop: `encrypt` feeds the plain word to the MAC before it masks it.
pub encrypt_word : Cipher → ℕ → Cipher × ℕ
encrypt_word s t = let s1 = cycle s in let s2 = macfunc s1 t in (s2, bit_xor t s2.sbuf)

-- `decrypt` unmasks first.
pub decrypt_word : Cipher → ℕ → Cipher × ℕ
decrypt_word s t = let s1 = cycle s in let t' = bit_xor t s1.sbuf in (macfunc s1 t', t')

-- while (nbuf != 0 && n != 0), over the step for one byte: the bytes written, and those that are
-- left.
module _ (on_byte : Cipher → ℕ → Cipher × ℕ) where
  pub fill : Cipher → Bytes → Cipher × Bytes × Bytes
  fill s [] = (s, [], [])
  fill s (b ∷ bs) =
      let (s', c) = on_byte s b in
      let (s'', out, rest) = fill s' bs in
      if s.nbuf == 0 then (s, [], b ∷ bs) else (s'', c ∷ out, rest)

-- What `encrypt` and `decrypt` share, over the clocking and the steps for one byte and for one word.
module _ (clock : Cipher → Cipher) (on_byte on_word : Cipher → ℕ → Cipher × ℕ) where
  -- The one to three bytes behind the last whole word.
  pub partial : Cipher → Bytes → Cipher × Bytes
  partial s bs =
      let (s', out, rest) = fill on_byte (record (clock s) { mbuf = 0; nbuf = 32 }) bs in (s', out)

  -- The words, then the partial word.
  pub blocks : Cipher → Bytes → Cipher × Bytes
  blocks s (b0 ∷ b1 ∷ b2 ∷ b3 ∷ rest) =
      let (s', t) = on_word s (byte2word b0 b1 b2 b3) in
      let (s'', out) = blocks s' rest in (s'', word2byte t ++ out)
  blocks s [] = (s, [])
  blocks s bs = partial s bs

  pub crypt : Cipher → Bytes → Cipher × Bytes
  crypt s buf =
      let (s', out, rest) = fill on_byte s buf in
      let (s'', out') = blocks (macfunc s' s'.mbuf) rest in
      if s.nbuf == 0 then blocks s buf else if s'.nbuf == 0 then (s'', out ++ out') else (s', out)

pub encrypt : Cipher → Bytes → Cipher × Bytes
encrypt = crypt cycle encrypt_byte encrypt_word

pub decrypt : Cipher → Bytes → Cipher × Bytes
decrypt = crypt cycle decrypt_byte decrypt_word

-- for (i = 0; i < 16; i++) { R[13] ^= CRC[i]; cycle }
mix_crc : Cipher → List ℕ → Cipher
mix_crc s [] = s
mix_crc s (c ∷ cs) = mix_crc (cycle (record s { r = set s.r keyp (bit_xor (at s.r keyp) c) })) cs

-- The state after it, and the four bytes of the MAC.
pub finish : Cipher → Cipher × Bytes
finish s =
    let s1 = if s.nbuf == 0 then s else record (macfunc s s.mbuf) { nbuf = 0 } in
    let s2 = mix_crc (record s1 { konst = initkonst }) s1.crc in (s2, word2byte s2.sbuf)
