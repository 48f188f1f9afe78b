-- ===== src/Shannon/Valid.antt =====
-- The invariant of the cipher's state: the arrays have sixteen words, every word fits 32 bits, and
-- the count of key bits left is a whole number of bytes.
use espconnect.Common.{
  ℕ, ◌+◌, ◌-◌, ◌*◌, ◌/◌, ◌%◌, ◌^◌, ◌≤◌, ◌<◌, ◌≡◌, List, [], ◌∷◌, bit_and, bit_xor, length,
  length-set, length-append, length-drop, All, All-set, All-get_or, All-append, All-drop, set,
  IsU32, IsByte, u8, arith, xor-lt, or-lt, or_disjoint, drop,
}
use espconnect.Shannon.{
  Cipher, rotl32, sbox, byte2word, word2byte, at, shift_in, cycle, crcfunc, macfunc, keyp,
}

pub record IsWords (xs : List ℕ) : Type 0 where
  pub sixteen : length xs ≡ 16
  pub words : All IsU32 xs

pub record IsValid (s : Cipher) : Type 0 where
  pub r_words : IsWords s.r
  pub crc_words : IsWords s.crc
  pub init_words : IsWords s.init_r
  pub konst_word : IsU32 s.konst
  pub sbuf_word : IsU32 s.sbuf
  pub mbuf_word : IsU32 s.mbuf
  pub nbuf_fits : s.nbuf ≤ 32
  pub nbuf_bytes : s.nbuf % 8 ≡ 0

pub xor-IsU32 : (a b : ℕ) → IsU32 a → IsU32 b → IsU32 (bit_xor a b)
xor-IsU32 a b p q = xor-lt 32 a b p q

pub at-IsU32 : (xs : List ℕ) (i : ℕ) → IsWords xs → IsU32 (at xs i)
at-IsU32 xs i h = All-get_or IsU32 xs i 0 h.words (omega arith)

pub rotl32-IsU32 : (n c : ℕ) → IsU32 n → IsU32 (rotl32 n c)
unfolding rotl32
rotl32-IsU32 n c h = or-lt 32 _ _ (omega arith) (shifted (bit_and c 31))
  where
    shifted : (k : ℕ) → n / 2 ^ (32 - k) < 2 ^ 32
    shifted k = grind arith

pub sbox-IsU32 : (w : ℕ) → IsU32 w → IsU32 (sbox w)
unfolding sbox
sbox-IsU32 w h = search (xor-IsU32, rotl32-IsU32, h)

pub set-IsWords : (xs : List ℕ) (i v : ℕ) → IsWords xs → IsU32 v → IsWords (set xs i v)
set-IsWords xs i v h p = record {
  sixteen = rw length-set h.sixteen;
  words = All-set IsU32 xs i v h.words p;
}

pub shift_in-IsWords : (xs : List ℕ) (t : ℕ) → IsWords xs → IsU32 t → IsWords (shift_in xs t)
unfolding shift_in
shift_in-IsWords xs t h p = record {
  sixteen = omega (arith, length-append (drop 1 xs) (t ∷ []), length-drop 1 xs, h.sixteen);
  words = All-append IsU32 (drop 1 xs) (t ∷ []) (All-drop IsU32 1 xs h.words) (p, tt);
}

pub clocked-IsValid :
    (s : Cipher) (xs : List ℕ) (w : ℕ)
    → IsValid s
    → IsWords xs
    → IsU32 w
    → IsValid (record s { r = xs; sbuf = w })
clocked-IsValid s xs w v h k = record {
  r_words = h;
  crc_words = v.crc_words;
  init_words = v.init_words;
  konst_word = v.konst_word;
  sbuf_word = k;
  mbuf_word = v.mbuf_word;
  nbuf_fits = v.nbuf_fits;
  nbuf_bytes = v.nbuf_bytes;
}

pub cycle-IsValid : (s : Cipher) → IsValid s → IsValid (cycle s)
unfolding cycle
cycle-IsValid s v =
    let tap = xor-IsU32 _ _ (at-IsU32 s.r 12 v.r_words) (at-IsU32 s.r 13 v.r_words) in
    let mixed = sbox-IsU32 _ (xor-IsU32 _ s.konst tap v.konst_word) in
    let word = xor-IsU32 _ _ mixed (rotl32-IsU32 _ 1 (at-IsU32 s.r 0 v.r_words)) in
    let moved = shift_in-IsWords s.r _ v.r_words word in
    let u = sbox-IsU32 _ (xor-IsU32 _ _ (at-IsU32 _ 2 moved) (at-IsU32 _ 15 moved)) in
    let stirred = set-IsWords _ 0 _ moved (xor-IsU32 _ _ (at-IsU32 _ 0 moved) u) in
    clocked-IsValid s _ _ v stirred
      (xor-IsU32 _ _ (xor-IsU32 _ _ u (at-IsU32 _ 8 stirred)) (at-IsU32 _ 12 stirred))

pub macfunc-IsValid : (s : Cipher) (i : ℕ) → IsValid s → IsU32 i → IsValid (macfunc s i)
unfolding macfunc crcfunc
macfunc-IsValid s i v h =
    let c = v.crc_words in
    let sum =
      xor-IsU32 _ _ (xor-IsU32 _ _ (at-IsU32 s.crc 0 c) (at-IsU32 s.crc 2 c))
        (at-IsU32 s.crc 15 c) in
    record {
      r_words = set-IsWords s.r keyp _ v.r_words (xor-IsU32 _ _ (at-IsU32 s.r keyp v.r_words) h);
      crc_words = shift_in-IsWords s.crc _ c (xor-IsU32 _ _ sum h);
      init_words = v.init_words;
      konst_word = v.konst_word;
      sbuf_word = v.sbuf_word;
      mbuf_word = v.mbuf_word;
      nbuf_fits = v.nbuf_fits;
      nbuf_bytes = v.nbuf_bytes;
    }

-- BYTE2WORD as a sum.
pub byte2word-eq :
    (b0 b1 b2 b3 : ℕ)
    → IsByte b0
    → IsByte b1
    → IsByte b2
    → IsByte b3
    → byte2word b0 b1 b2 b3 ≡ b0 + b1 * 2 ^ 8 + b2 * 2 ^ 16 + b3 * 2 ^ 24
unfolding byte2word
byte2word-eq b0 b1 b2 b3 h0 h1 h2 h3 = ground (
  arith,
  or_disjoint 24 b3 (b2 * 2 ^ 16),
  or_disjoint 16 (b3 * 2 ^ 8 + b2) (b1 * 2 ^ 8),
  or_disjoint 8 (b3 * 2 ^ 16 + b2 * 2 ^ 8 + b1) b0,
)

-- Storing a word and loading it again, and the other way round.
pub byte2word-word2byte :
    (w : ℕ) → IsU32 w → byte2word (u8 w) (u8 (w / 2 ^ 8)) (u8 (w / 2 ^ 16)) (u8 (w / 2 ^ 24)) ≡ w
byte2word-word2byte w h =
    omega (arith, byte2word-eq (u8 w) (u8 (w / 2 ^ 8)) (u8 (w / 2 ^ 16)) (u8 (w / 2 ^ 24)))

pub word2byte-byte2word :
    (b0 b1 b2 b3 : ℕ)
    → IsByte b0
    → IsByte b1
    → IsByte b2
    → IsByte b3
    → word2byte (byte2word b0 b1 b2 b3) ≡ b0 ∷ b1 ∷ b2 ∷ b3 ∷ []
unfolding word2byte
word2byte-byte2word b0 b1 b2 b3 h0 h1 h2 h3 = ground (arith, byte2word-eq b0 b1 b2 b3)

pub byte2word-IsU32 :
    (b0 b1 b2 b3 : ℕ)
    → IsByte b0
    → IsByte b1
    → IsByte b2
    → IsByte b3
    → IsU32 (byte2word b0 b1 b2 b3)
byte2word-IsU32 b0 b1 b2 b3 h0 h1 h2 h3 = omega (arith, byte2word-eq b0 b1 b2 b3)

-- The invariant, when one field is written.
pub with_r : (s : Cipher) (xs : List ℕ) → IsValid s → IsWords xs → IsValid (record s { r = xs })
with_r s xs v h = record {
  r_words = h;
  crc_words = v.crc_words;
  init_words = v.init_words;
  konst_word = v.konst_word;
  sbuf_word = v.sbuf_word;
  mbuf_word = v.mbuf_word;
  nbuf_fits = v.nbuf_fits;
  nbuf_bytes = v.nbuf_bytes;
}

pub with_crc : (s : Cipher) (xs : List ℕ) → IsValid s → IsWords xs → IsValid (record s { crc = xs })
with_crc s xs v h = record {
  r_words = v.r_words;
  crc_words = h;
  init_words = v.init_words;
  konst_word = v.konst_word;
  sbuf_word = v.sbuf_word;
  mbuf_word = v.mbuf_word;
  nbuf_fits = v.nbuf_fits;
  nbuf_bytes = v.nbuf_bytes;
}

pub with_konst : (s : Cipher) (k : ℕ) → IsValid s → IsU32 k → IsValid (record s { konst = k })
with_konst s k v h = record {
  r_words = v.r_words;
  crc_words = v.crc_words;
  init_words = v.init_words;
  konst_word = h;
  sbuf_word = v.sbuf_word;
  mbuf_word = v.mbuf_word;
  nbuf_fits = v.nbuf_fits;
  nbuf_bytes = v.nbuf_bytes;
}

pub with_nbuf :
    (s : Cipher) (m n : ℕ)
    → IsValid s
    → IsU32 m
    → n ≤ 32
    → n % 8 ≡ 0
    → IsValid (record s { mbuf = m; nbuf = n })
with_nbuf s m n v h p q = record {
  r_words = v.r_words;
  crc_words = v.crc_words;
  init_words = v.init_words;
  konst_word = v.konst_word;
  sbuf_word = v.sbuf_word;
  mbuf_word = h;
  nbuf_fits = p;
  nbuf_bytes = q;
}
