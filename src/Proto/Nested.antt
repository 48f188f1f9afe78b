-- ===== src/Proto/Nested.antt =====
-- A field that holds a message: the reader that pb_read_ldelim gives over it.
use espconnect.Common.{
  ℕ, ◌+◌, ◌*◌, ◌^◌, ◌≤◌, ◌<◌, ◌≡◌, sym, ap, ◌∙◌, ◌++◌, append_assoc, none, some, length,
  length-append, drop, IsU64, Bytes, arith,
}
use espconnect.Proto.{Reader, read_varint_raw, read_tag, read_ldelim}
use mathlib.Core.Path.{subst}
use native.Mathlib.Nat.{add-zero}
use espconnect.Proto.Varint.{IsVarint, read_varint_raw-IsVarint}
use espconnect.Proto.Fields.{
  IsVarintField, IsBytesField, Holds, moved, read_tag_at, drop_past, read_length, ldelim_at,
}

-- A reader that holds a text holds its front.
pub Holds-front :
    {r : Reader} (xs ys rest : Bytes) → Holds r (xs ++ ys) rest → Holds r xs (ys ++ rest)
Holds-front xs ys rest h = record {
  here = h.here ∙ append_assoc xs ys rest;
  inside = omega (arith, h.inside, length-append xs ys);
  end_fits = h.end_fits;
}

-- At a field of wire type 2 inside the input, pb_read_tag and pb_read_ldelim give a reader that holds the
-- content of the field, up to its end, and move behind the field.
pub sub_at :
    (r : Reader) (fn : ℕ) (d xs rest : Bytes)
    → IsBytesField fn d xs
    → fn < 2 ^ 32
    → Holds r xs rest
    → (r1 : Reader) × (sub : Reader) × (read_tag r ≡ some (fn, 2, r1))
      × (read_ldelim r1 ≡ (moved r (length xs), sub))
      × Holds sub d rest
      × (sub.s ≡ sub.p + length d)
sub_at r fn d xs rest f h holds =
    let r1 = moved r (length f.tag_bytes) in
    let len : length xs ≡ length f.tag_bytes + (length f.length_bytes + length d) = omega (
      arith,
      ap length f.parts,
      length-append f.tag_bytes (f.length_bytes ++ d),
      length-append f.length_bytes d,
    ) in
    let e =
      holds.here
      ∙ ap (λ ys. ys ++ rest) f.parts
      ∙ append_assoc f.tag_bytes (f.length_bytes ++ d) rest in
    let (run, behind, all) = read_length r1 d f.length_bytes rest f.length_valid (record {
      here = drop_past r.p r.d f.tag_bytes _ e;
      inside = omega (arith, len, length-append f.length_bytes d, holds.inside);
      end_fits = holds.end_fits;
    }) in
    let end = moved (moved r1 (length f.length_bytes)) (length d) in
    let place : end ≡ moved r (length xs) = ap (λ n. record r { p = n }) (omega (arith, len)) in
    let sub : Reader = record {
      d = drop (r1.p + length f.length_bytes) r1.d;
      p = 0;
      s = length d;
    } in
    (
      r1,
      sub,
      read_tag_at r fn 2 _ f.tag_valid h (omega arith) e (omega (arith, len, holds.inside)),
      ldelim_at r1 _ (length d) run all holds.end_fits ∙ ap (λ q. (q, sub)) place,
      record { here = behind; inside = omega arith; end_fits = omega (arith, all, holds.end_fits) },
      omega arith,
    )

-- Behind its front, a reader holds what is left.
pub Holds-behind :
    (r : Reader) (xs ys rest : Bytes)
    → Holds r (xs ++ ys) rest
    → Holds (moved r (length xs)) ys rest
Holds-behind r xs ys rest h = record {
  here = drop_past r.p r.d xs (ys ++ rest) (h.here ∙ append_assoc xs ys rest);
  inside = omega (arith, h.inside, length-append xs ys);
  end_fits = h.end_fits;
}

pub read_tag_end : (r : Reader) → r.s ≤ r.p → read_tag r ≡ none
unfolding read_tag
read_tag_end r h = ground arith

-- At a field of wire type 0, pb_read_tag and pb_read_varint_raw give its number and its value, and move
-- behind it.
pub number_at :
    (r : Reader) (fn v : ℕ) (xs rest : Bytes)
    → IsVarintField fn v xs
    → fn < 2 ^ 32
    → IsU64 v
    → Holds r xs rest
    → (r1 : Reader) × (read_tag r ≡ some (fn, 0, r1))
      × (read_varint_raw r1 ≡ (v, moved r (length xs)))
number_at r fn v xs rest f h small holds =
    let r1 = moved r (length f.tag_bytes) in
    let e =
      holds.here ∙ ap (λ ys. ys ++ rest) f.parts ∙ append_assoc f.tag_bytes f.value_bytes rest in
    let len : length xs ≡ length f.tag_bytes + length f.value_bytes =
      omega (arith, ap length f.parts, length-append f.tag_bytes f.value_bytes) in
    let tag_valid = subst (λ t. IsVarint t f.tag_bytes) (sym (add-zero (fn * 8))) f.tag_valid in
    let run =
      read_varint_raw-IsVarint r1 rest f.value_valid small
        (drop_past r.p r.d f.tag_bytes (f.value_bytes ++ rest) e)
        (omega (arith, len, holds.inside)) in
    (
      r1,
      read_tag_at r fn 0 _ tag_valid h (omega arith) e (omega (arith, len, holds.inside)),
      run ∙ ap (λ n. (v, record r { p = n })) (omega (arith, len)),
    )
