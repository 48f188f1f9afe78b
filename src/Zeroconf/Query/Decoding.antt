-- ===== src/Zeroconf/Query/Decoding.antt =====
-- url_decode against the encoding that it undoes.
use espconnect.Common.{
  ℕ, zero, suc, ◌+◌, ◌-◌, ◌*◌, ◌≤◌, ◌<◌, ◌≡◌, refl, ap, ◌∙◌, false, [], ◌∷◌, none, some,
  or_disjoint, length, Option-cases, inl, inr, Bytes, ◌==◌, arith, leb, ◌&&◌, true,
}
use espconnect.Zeroconf.Query.{hex_char_val, escape, plus_to_space, decode_loop, url_decode}

-- A hexadecimal digit and its value.
pub data IsHex : ℕ → ℕ → Type 0 where
  decimal : (d : ℕ) → d < 10 → IsHex (48 + d) d
  lower : (d : ℕ) → d < 6 → IsHex (97 + d) (10 + d)
  upper : (d : ℕ) → d < 6 → IsHex (65 + d) (10 + d)

-- The text `text` is a form-urlencoding of the bytes `bs`: a byte stands for itself, a '+' for a space, a
-- '%' with two hexadecimal digits for any byte.
pub data IsEncoded : Bytes → Bytes → Type 0 where
  done : IsEncoded [] []
  plain :
      (c : ℕ) (bs text : Bytes)
      → (c == b'%') ≡ false
      → (c == b'+') ≡ false
      → IsEncoded bs text
      → IsEncoded (c ∷ bs) (c ∷ text)
  space : (bs text : Bytes) → IsEncoded bs text → IsEncoded (b' ' ∷ bs) (b'+' ∷ text)
  percent :
      (h l hi lo : ℕ) (bs text : Bytes)
      → IsHex h hi
      → IsHex l lo
      → IsEncoded bs text
      → IsEncoded ((hi * 16 + lo) ∷ bs) (b'%' ∷ h ∷ l ∷ text)

no_escape : (c h l : ℕ) → (c == b'%') ≡ false → escape c h l ≡ none
unfolding escape
no_escape c h l e = rw e refl

-- A byte that is no '%' is copied, or turned into a space.
decode_plain :
    (room c : ℕ) (cs : Bytes)
    → (c == b'%') ≡ false
    → decode_loop (suc room) (c ∷ cs) ≡ plus_to_space c ∷ decode_loop room cs
unfolding decode_loop
decode_plain zero c [] e = refl
decode_plain (suc room) c [] e = refl
decode_plain room c (h ∷ []) e = refl
decode_plain room c (h ∷ l ∷ rest) e = rw (decode_loop, no_escape c h l e) refl

hex_char_val-IsHex : {c v : ℕ} → IsHex c v → (hex_char_val c ≡ some v) × (v < 16)
unfolding hex_char_val
hex_char_val-IsHex (decimal d h) =
    let digit : (leb b'0' (48 + d) && leb (48 + d) b'9') ≡ true = ground arith in
    (rw digit (ap some (omega arith)), omega arith)
hex_char_val-IsHex (lower d h) =
    let digit : (leb b'0' (97 + d) && leb (97 + d) b'9') ≡ false = ground arith in
    let letter : (leb b'a' (97 + d) && leb (97 + d) b'f') ≡ true = ground arith in
    (rw (digit, letter) (ap some (omega arith)), omega arith)
hex_char_val-IsHex (upper d h) =
    let digit : (leb b'0' (65 + d) && leb (65 + d) b'9') ≡ false = ground arith in
    let small : (leb b'a' (65 + d) && leb (65 + d) b'f') ≡ false = ground arith in
    let letter : (leb b'A' (65 + d) && leb (65 + d) b'F') ≡ true = ground arith in
    (rw (digit, small, letter) (ap some (omega arith)), omega arith)

escape_value : (h l hi lo : ℕ) → IsHex h hi → IsHex l lo → escape b'%' h l ≡ some (hi * 16 + lo)
unfolding escape
escape_value h l hi lo p q =
    let (eh, ph) = hex_char_val-IsHex p in
    let (el, pl) = hex_char_val-IsHex q in
    rw (eh, el) (ap some (omega (arith, or_disjoint 4 hi lo pl)))

decode_percent :
    (room h l b : ℕ) (rest : Bytes)
    → escape b'%' h l ≡ some b
    → decode_loop (suc room) (b'%' ∷ h ∷ l ∷ rest) ≡ b ∷ decode_loop room rest
unfolding decode_loop
decode_percent room h l b rest e = rw (decode_loop, e) refl

-- In a buffer with room for the bytes and the NUL, url_decode gives the bytes of which the text is
-- a form encoding, whatever the mixture of plain bytes, plus signs and escapes with digits and
-- letters of either case.
pub url_decode-IsEncoded :
    {bs text : Bytes} (size : ℕ) → IsEncoded bs text → length bs < size → url_decode text size ≡ bs
unfolding url_decode decode_loop plus_to_space
url_decode-IsEncoded size t h = decodes t (size - 1) (omega arith)
  where
    copied : (c : ℕ) → (c == b'+') ≡ false → plus_to_space c ≡ c
    copied c e = rw e refl

    decodes :
        {bs text : Bytes}
        → IsEncoded bs text
        → (room : ℕ) → length bs ≤ room
        → decode_loop room text ≡ bs
    decodes done zero h = refl
    decodes done (suc room) h = refl
    decodes (plain c bs text np nplus t) (suc room) h =
        decode_plain room c text np
        ∙ ap (λ x. x ∷ decode_loop room text) (copied c nplus)
        ∙ ap (λ xs. c ∷ xs) (decodes t room (omega arith))
    decodes (space bs text t) (suc room) h =
        decode_plain room b'+' text refl ∙ ap (λ xs. b' ' ∷ xs) (decodes t room (omega arith))
    decodes (percent h' l hi lo bs text p q t) (suc room) h =
        decode_percent room h' l (hi * 16 + lo) text (escape_value h' l hi lo p q)
        ∙ ap (λ xs. (hi * 16 + lo) ∷ xs) (decodes t room (omega arith))
    decodes (plain c bs text np nplus t) zero h = elim h [ ]
    decodes (space bs text t) zero h = elim h [ ]
    decodes (percent h' l hi lo bs text p q t) zero h = elim h [ ]

-- On every text, url_decode leaves the last byte of a buffer that is not empty for the NUL.
pub length-url_decode : (src : Bytes) (size : ℕ) → 0 < size → length (url_decode src size) < size
unfolding url_decode decode_loop
length-url_decode src size h =
    let room : length (url_decode src size) ≤ size - 1 = within_room (size - 1) src in omega arith
  where
    within_room : (room : ℕ) (src : Bytes) → length (decode_loop room src) ≤ room
    within_room zero src = omega arith
    within_room (suc room) [] = omega arith
    within_room (suc room) (c ∷ []) = omega arith
    within_room (suc room) (c ∷ h ∷ []) = omega (arith, within_room room (h ∷ []))
    within_room (suc room) (c ∷ h ∷ l ∷ rest) =
        let copied = within_room room (h ∷ l ∷ rest) in
        let skipped = within_room room rest in
        elim (Option-cases (escape c h l)) [
          | inl e ↦ rw (decode_loop, e) (omega (arith, copied))
          | inr (b, e) ↦ rw (decode_loop, e) (omega (arith, skipped))
        ]
