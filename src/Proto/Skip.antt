-- ===== src/Proto/Skip.antt =====
-- Where pb_skip does not move behind the field: varints, and lengths near 2^64.
use espconnect.Common.{
  ℕ, zero, suc, ◌+◌, ◌-◌, ◌*◌, ◌^◌, ◌≤◌, ◌<◌, ◌≡◌, refl, sym, ap, ◌∙◌, ◌++◌, append_assoc, some,
  bit_and, and_128, length, length-append, drop, IsU64, Bytes, arith,
}
use mathlib.Core.Path.{subst}
use native.Mathlib.Nat.{add-zero}
use espconnect.Proto.{Reader, read_varint_raw, read_tag, skip, skip_varint, byte_at}
use espconnect.Proto.Varint.{
  IsVarint, last, more, read_varint_raw-IsVarint, byte_at-drop, IsVarint-length,
}
use espconnect.Proto.Fields.{IsVarintField, Holds, moved, read_tag_at, drop_past}

-- The last byte of a varint has its top bit clear.
last_byte :
    {v : ℕ} {ts : Bytes}
    → IsVarint v ts
    → (p : ℕ) (d rest : Bytes) → drop p d ≡ ts ++ rest
    → bit_and (byte_at d (p + length ts - 1)) 128 ≡ 0
last_byte (last v h) p d rest e =
    let here = (byte_at-drop d p v rest e).0 in
    let at_p : p + 1 - 1 ≡ p = omega arith in rw (at_p, here, and_128 v) (omega arith)
last_byte (more v q g xs split h pos t) p d rest e =
    let next = (byte_at-drop d p (g + 128) (xs ++ rest) e).1 in
    let shift : p + 1 + length xs - 1 ≡ p + suc (length xs) - 1 = omega arith in
    ap (λ n. bit_and (byte_at d n) 128) (sym shift) ∙ last_byte t (p + 1) d rest next

stays : (left p : ℕ) (d : Bytes) → bit_and (byte_at d (p - 1)) 128 ≡ 0 → skip_varint left d p ≡ p
unfolding skip_varint
stays zero p d e = refl
stays (suc left) p d e = rw e

-- At a field of wire type 0 inside the input, pb_skip leaves the reader where pb_read_tag has put
-- it, in front of the value of the field.
pub skip-IsVarintField :
    (r : Reader) (fn v : ℕ) (xs rest : Bytes)
    → IsVarintField fn v xs
    → fn < 2 ^ 32
    → Holds r xs rest
    → (r1 : Reader) × (read_tag r ≡ some (fn, 0, r1)) × (skip r1 0 ≡ r1) × (r1.p < r.p + length xs)
unfolding skip
skip-IsVarintField r fn v xs rest f h holds =
    let r1 = moved r (length f.tag_bytes) in
    let e =
      holds.here ∙ ap (λ ys. ys ++ rest) f.parts ∙ append_assoc f.tag_bytes f.value_bytes rest in
    let len : length xs ≡ length f.tag_bytes + length f.value_bytes =
      omega (arith, ap length f.parts, length-append f.tag_bytes f.value_bytes) in
    let tag_valid = subst (λ t. IsVarint t f.tag_bytes) (sym (add-zero (fn * 8))) f.tag_valid in
    (
      r1,
      read_tag_at r fn 0 _ tag_valid h (omega arith) e (omega (arith, len, holds.inside)),
      ap (λ n. record r1 { p = n })
          (stays (r1.s - r1.p) r1.p r1.d (last_byte f.tag_valid r.p r.d _ e)),
      omega (arith, len, IsVarint-length f.value_valid),
    )

wraps :
    (r1 r2 : Reader) (n p : ℕ)
    → read_varint_raw r1 ≡ (n, r2)
    → r2.p + n ≡ p + 2 ^ 64
    → p ≤ r2.s
    → IsU64 r2.s
    → skip r1 2 ≡ record r2 { p = p }
unfolding skip
wraps r1 r2 n p run sum low fits = rw run (ground arith)

-- At a field of wire type 2 whose length is 2^64 less the bytes of its tag and of that length,
-- pb_skip puts the reader back in front of the field.
pub skip_back :
    (r : Reader) (fn n : ℕ) (ts ls rest : Bytes)
    → fn < 2 ^ 32
    → IsVarint (fn * 8 + 2) ts
    → IsVarint n ls
    → n + (length ts + length ls) ≡ 2 ^ 64
    → Holds r (ts ++ ls) rest
    → (r1 : Reader) × (read_tag r ≡ some (fn, 2, r1)) × (skip r1 2 ≡ r)
skip_back r fn n ts ls rest h tag_valid length_valid sum holds =
    let e = holds.here ∙ append_assoc ts ls rest in
    let len = length-append ts ls in
    let inside : r.p + length ts + length ls ≤ r.s = omega (arith, len, holds.inside) in
    let r1 = moved r (length ts) in
    let run =
      read_varint_raw-IsVarint r1 rest length_valid (omega (arith, IsVarint-length tag_valid))
        (drop_past r.p r.d ts (ls ++ rest) e) inside in
    (
      r1,
      read_tag_at r fn 2 _ tag_valid h (omega arith) e (omega arith),
      wraps r1 _ n r.p run (omega arith) (omega arith) holds.end_fits,
    )
