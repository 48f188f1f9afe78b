-- ===== src/Spclient/Metadata/Keys.antt =====
-- Where the keys of a JSON text stand: the searches of spclient_get_track_metadata.
use espconnect.Common.{
  ℕ, ◌≤◌, ◌≡◌, ◌≢◌, refl, ap, ◌∙◌, [], ◌∷◌, ◌++◌, append_assoc, none, length, Bytes, behind,
  find_at, before_byte, arith, All, Bool-cases, inl, inr, ◌==◌, true, false, ltb, length-append,
}
use espconnect.Spclient.Metadata.{file_key, count_keys, quoted_length}

-- No key begins in `xs`, where `rest` follows it.
unfoldable pub Skips : Bytes → Bytes → Bytes → Type 0
Skips key [] rest = Unit
Skips key (x ∷ xs) rest = (behind key ((x ∷ xs) ++ rest) ≡ none) × Skips key xs rest

pub Skips-append :
    (key xs ys rest : Bytes)
    → Skips key xs (ys ++ rest)
    → Skips key ys rest
    → Skips key (xs ++ ys) rest
unfolding Skips
Skips-append key [] ys rest h k = k
Skips-append key (x ∷ xs) ys rest h k =
    (ap (behind key) (append_assoc (x ∷ xs) ys rest) ∙ h.0, Skips-append key xs ys rest h.1 k)

pub find_at-Skips :
    (key xs rest : Bytes) → Skips key xs rest → find_at key (xs ++ rest) ≡ find_at key rest
unfolding Skips
find_at-Skips key [] rest h = refl
find_at-Skips key (x ∷ xs) rest h = rw (h.0, find_at) (find_at-Skips key xs rest h.1)

pub count_keys-Skips :
    (xs rest : Bytes) → Skips file_key xs rest → count_keys (xs ++ rest) ≡ count_keys rest
unfolding Skips count_keys
count_keys-Skips [] rest h = refl
count_keys-Skips (x ∷ xs) rest h = rw (h.0, count_keys) (count_keys-Skips xs rest h.1)

-- A character of a JSON string without escapes.
unfoldable pub IsPlain : ℕ → Type 0
IsPlain c = (1 ≤ c) × (c ≢ 34)

-- A key that begins with a quotation mark does not begin in text without one.
pub Skips-plain : (key xs rest : Bytes) → All IsPlain xs → Skips (34 ∷ key) xs rest
unfolding Skips IsPlain
Skips-plain key [] rest h = tt
Skips-plain key (x ∷ xs) rest h =
    let other : (34 == x) ≡ false = ground arith in
    (rw (other, behind), Skips-plain key xs rest h.1)

-- Behind a quotation mark, text up to another one that no colon follows is not the key.
pub unlike :
    (key fmt more rest : Bytes) (z : ℕ)
    → z ≢ 58
    → All IsPlain key
    → All IsPlain fmt
    → behind (key ++ (34 ∷ 58 ∷ more)) (fmt ++ (34 ∷ z ∷ rest)) ≡ none
unfolding IsPlain
unlike [] [] more rest z h k f = let other : (58 == z) ≡ false = ground arith in rw (other, behind)
unlike [] (y ∷ fmt) more rest z h k f =
    let other : (34 == y) ≡ false = ground arith in rw (other, behind)
unlike (x ∷ key) [] more rest z h k f =
    let other : (x == 34) ≡ false = ground arith in rw (other, behind)
unlike (x ∷ key) (y ∷ fmt) more rest z h k f = elim (Bool-cases (x == y)) [
  | inl e ↦ rw (e, behind) (unlike key fmt more rest z h k.1 f.1)
  | inr e ↦ rw (e, behind)
]

pub before_byte-plain : (xs rest : Bytes) → All IsPlain xs → before_byte 34 (xs ++ (34 ∷ rest)) ≡ xs
unfolding IsPlain
before_byte-plain [] rest h = refl
before_byte-plain (x ∷ xs) rest h =
    let other : (34 == x) ≡ false = ground arith in
    rw (other, before_byte) (ap (λ r. x ∷ r) (before_byte-plain xs rest h.1))

pub quoted_length-plain :
    (xs rest : Bytes) → All IsPlain xs → quoted_length (xs ++ (34 ∷ rest)) ≡ length xs
unfolding quoted_length
quoted_length-plain xs rest h =
    let shorter : ltb (length xs) (length (xs ++ (34 ∷ rest))) ≡ true =
      ground (arith, length-append xs (34 ∷ rest)) in
    rw (before_byte-plain xs rest h, shorter)
