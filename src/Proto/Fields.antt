-- ===== src/Proto/Fields.antt =====
-- Fields: what the writers append, on any buffer, and what the readers make of it.
use espconnect.Common.{
  ℕ, ◌+◌, ◌*◌, ◌^◌, ◌≤◌, ◌<◌, ◌≡◌, refl, ap, ◌∙◌, [], ◌∷◌, ◌++◌, append_assoc, some, bit_or,
  and_seven, or_disjoint, length, length-append, take, drop, take-append_length, u64, IsU64, Bytes,
  arith,
}
use mathlib.Core.Path.{subst}
use native.Mathlib.Nat.{add-zero}
use espconnect.Proto.{
  Buf, grow, store, put_varint, tag, varint, bytes, Reader, read_varint_raw, read_tag, read_ldelim,
  read_bytes_copy, skip,
}
use espconnect.Proto.Varint.{
  IsVarint, varint_enc-IsVarint, read_varint_raw-IsVarint, byte_at-drop, IsVarint-length,
}

-- `xs` is the field `fn` of wire type 0 with the value `v`.
pub record IsVarintField (fn v : ℕ) (xs : Bytes) : Type 0 where
  pub tag_bytes : Bytes
  pub value_bytes : Bytes
  pub parts : xs ≡ tag_bytes ++ value_bytes
  pub tag_valid : IsVarint (fn * 8) tag_bytes
  pub value_valid : IsVarint v value_bytes

-- `xs` is the field `fn` of wire type 2 with the bytes `d`.
pub record IsBytesField (fn : ℕ) (d xs : Bytes) : Type 0 where
  pub tag_bytes : Bytes
  pub length_bytes : Bytes
  pub parts : xs ≡ tag_bytes ++ (length_bytes ++ d)
  pub tag_valid : IsVarint (fn * 8 + 2) tag_bytes
  pub length_valid : IsVarint (length d) length_bytes

grow_room :
    (b : Buf) (n : ℕ)
    → ((grow b n).bytes ≡ b.bytes) × (length (grow b n).bytes + n ≤ (grow b n).capacity)
unfolding grow
grow_room b n = ground arith

store_fits :
    (b : Buf) (xs : Bytes)
    → length b.bytes + length xs ≤ b.capacity
    → store b xs ≡ some (record b { bytes = b.bytes ++ xs })
unfolding store
store_fits b xs h = ground arith

put_varint_fits :
    (b : Buf) (v : ℕ)
    → IsU64 v
    → length b.bytes + 10 ≤ b.capacity
    → (xs : Bytes) × (put_varint b v ≡ some (record b { bytes = b.bytes ++ xs }))
      × IsVarint v xs
      × (length xs ≤ 10)
unfolding put_varint
put_varint_fits b v h room =
    let (xs, run, valid, short) = varint_enc-IsVarint v h in
    (xs, rw run (store_fits b xs (omega arith)), valid, short)

-- A growing write of a varint to any buffer.
grow-put_varint :
    (b : Buf) (v n : ℕ)
    → IsU64 v
    → 10 ≤ n
    → (xs : Bytes) × (put_varint (grow b n) v ≡ some (record (grow b n) { bytes = b.bytes ++ xs }))
      × IsVarint v xs
      × (length xs ≤ 10)
grow-put_varint b v n h big =
    let (same, room) = grow_room b n in
    let (xs, run, valid, short) = put_varint_fits (grow b n) v h (omega arith) in
    (xs, run ∙ ap (λ ys. some (record (grow b n) { bytes = ys ++ xs })) same, valid, short)

tag_writes :
    (b : Buf) (fn wt : ℕ)
    → fn < 2 ^ 61
    → wt < 8
    → (xs : Bytes) × (tag b fn wt ≡ some (record (grow b 10) { bytes = b.bytes ++ xs }))
      × IsVarint (fn * 8 + wt) xs
unfolding tag
tag_writes b fn wt h small =
    let value : bit_or (u64 (fn * 2 ^ 3)) wt ≡ fn * 8 + wt =
      ap (λ t. bit_or t wt) (omega arith) ∙ or_disjoint 3 fn wt small in
    let (xs, run, valid, short) = grow-put_varint b (fn * 8 + wt) 10 (omega arith) (omega arith) in
    (xs, ap (put_varint (grow b 10)) value ∙ run, valid)

-- pb_varint appends one field of wire type 0 to any buffer, for a field number below 2^61 and a
-- uint64_t, and never writes past the capacity.
pub varint-IsVarintField :
    (b : Buf) (fn v : ℕ)
    → fn < 2 ^ 61
    → IsU64 v
    → (out : Buf) × (xs : Bytes) × (varint b fn v ≡ some out)
      × (out.bytes ≡ b.bytes ++ xs)
      × IsVarintField fn v xs
unfolding varint
varint-IsVarintField b fn v h hv =
    let (ts, run, tag_valid) = tag_writes b fn 0 h (omega arith) in
    let b1 = record (grow b 10) { bytes = b.bytes ++ ts } in
    let (vs, run', value_valid, _) = grow-put_varint b1 v 10 hv (omega arith) in
    (
      record (grow b1 10) { bytes = (b.bytes ++ ts) ++ vs },
      ts ++ vs,
      rw run run',
      append_assoc b.bytes ts vs,
      record {
        tag_bytes = ts;
        value_bytes = vs;
        parts = refl;
        tag_valid = subst (λ t. IsVarint t ts) (add-zero (fn * 8)) tag_valid;
        value_valid = value_valid;
      },
    )

-- pb_bytes appends one field of wire type 2 to any buffer, for a field number below 2^61 and a
-- length that fits 64 bits, and never writes past the capacity.
pub bytes-IsBytesField :
    (b : Buf) (fn : ℕ) (d : Bytes)
    → fn < 2 ^ 61
    → IsU64 (length d)
    → (out : Buf) × (xs : Bytes) × (bytes b fn d ≡ some out)
      × (out.bytes ≡ b.bytes ++ xs)
      × IsBytesField fn d xs
unfolding bytes
bytes-IsBytesField b fn d h hd =
    let (ts, run, tag_valid) = tag_writes b fn 2 h (omega arith) in
    let b1 = record (grow b 10) { bytes = b.bytes ++ ts } in
    let (same, room) = grow_room b1 (10 + length d) in
    let (ls, run', length_valid, short) =
      grow-put_varint b1 (length d) (10 + length d) hd (omega arith) in
    let b2 = record (grow b1 (10 + length d)) { bytes = b1.bytes ++ ls } in
    let fits : length b2.bytes + length d ≤ b2.capacity =
      omega (arith, length-append b1.bytes ls, ap length same) in
    (
      record b2 { bytes = b2.bytes ++ d },
      ts ++ (ls ++ d),
      rw run (rw run' (store_fits b2 d fits)),
      simp append_assoc,
      record {
        tag_bytes = ts;
        length_bytes = ls;
        parts = refl;
        tag_valid = tag_valid;
        length_valid = length_valid;
      },
    )

-- The readers.
pub read_tag_at :
    (r : Reader) (fn wt : ℕ) {ts : Bytes} (rest : Bytes)
    → IsVarint (fn * 8 + wt) ts
    → fn < 2 ^ 32
    → wt < 8
    → drop r.p r.d ≡ ts ++ rest
    → r.p + length ts ≤ r.s
    → read_tag r ≡ some (fn, wt, record r { p = r.p + length ts })
unfolding read_tag
read_tag_at r fn wt {ts} rest valid h small e fits =
    let run = read_varint_raw-IsVarint r rest valid (omega arith) e fits in
    rw run (ground (arith, and_seven (fn * 8 + wt), IsVarint-length valid))

pub drop_past : (p : ℕ) (d xs rest : Bytes) → drop p d ≡ xs ++ rest → drop (p + length xs) d ≡ rest
drop_past p d [] rest e = rw add-zero e
drop_past p d (x ∷ xs) rest e =
    let next = (byte_at-drop d p x (xs ++ rest) e).1 in
    ap (λ n. drop n d) (omega arith) ∙ drop_past (p + 1) d xs rest next

-- What stands at the reader's position, and room for it below a 64-bit end.
pub record Holds (r : Reader) (xs rest : Bytes) : Type 0 where
  pub here : drop r.p r.d ≡ xs ++ rest
  pub inside : r.p + length xs ≤ r.s
  pub end_fits : IsU64 r.s

abbrev pub moved : Reader → ℕ → Reader
moved r n = record r { p = r.p + n }

pub read_length :
    (r : Reader) (d ls rest : Bytes)
    → IsVarint (length d) ls
    → Holds r (ls ++ d) rest
    → (read_varint_raw r ≡ (length d, moved r (length ls)))
      × (drop (r.p + length ls) r.d ≡ d ++ rest)
      × (r.p + length ls + length d ≤ r.s)
read_length r d ls rest valid h =
    let all : r.p + length ls + length d ≤ r.s = omega (arith, length-append ls d, h.inside) in
    let e = h.here ∙ append_assoc ls d rest in
    let small : IsU64 (length d) = omega (arith, h.end_fits) in
    (
      read_varint_raw-IsVarint r (d ++ rest) valid small e (omega arith),
      drop_past r.p r.d ls (d ++ rest) e,
      all,
    )

-- The three readers, behind the length `n` that they have read.
module _ (r1 r2 : Reader) (n : ℕ) where
  pub copy_at :
      (max : ℕ)
      → read_varint_raw r1 ≡ (n, r2)
      → n ≤ max
      → r2.p + n ≤ r2.s
      → IsU64 r2.s
      → read_bytes_copy r1 max ≡ (take n (drop r2.p r2.d), moved r2 n)
  unfolding read_bytes_copy
  copy_at max run room all fits = rw run (ground arith)

  pub skip_at : read_varint_raw r1 ≡ (n, r2) → r2.p + n ≤ r2.s → IsU64 r2.s → skip r1 2 ≡ moved r2 n
  unfolding skip
  skip_at run all fits = rw run (ground arith)

  pub ldelim_at :
      read_varint_raw r1 ≡ (n, r2)
      → r2.p + n ≤ r2.s
      → IsU64 r2.s
      → read_ldelim r1 ≡ (moved r2 n, record { d = drop r2.p r2.d; p = 0; s = n })
  unfolding read_ldelim
  ldelim_at run all fits = rw run (ground arith)

-- At a field of wire type 2 inside the input, with a number below 2^32, pb_read_tag gives its
-- number and type, pb_read_bytes_copy into a buffer large enough gives its bytes, pb_read_ldelim a
-- reader over them, and each of these and pb_skip moves exactly behind the field.
pub read-IsBytesField :
    (r : Reader) (fn max : ℕ) (d xs rest : Bytes)
    → IsBytesField fn d xs
    → fn < 2 ^ 32
    → Holds r xs rest
    → length d ≤ max
    → (r1 : Reader) × (read_tag r ≡ some (fn, 2, r1))
      × (read_bytes_copy r1 max ≡ (d, moved r (length xs)))
      × (skip r1 2 ≡ moved r (length xs))
      × ((read_ldelim r1).0 ≡ moved r (length xs))
      × (take (read_ldelim r1).1.s (read_ldelim r1).1.d ≡ d)
read-IsBytesField r fn max d xs rest f h holds room =
    let r1 = moved r (length f.tag_bytes) in
    let len : length xs ≡ length f.tag_bytes + (length f.length_bytes + length d) = omega (
      arith,
      ap length f.parts,
      length-append f.tag_bytes (f.length_bytes ++ d),
      length-append f.length_bytes d,
    ) in
    let e =
      holds.here
      ∙ ap (λ ys. ys ++ rest) f.parts
      ∙ append_assoc f.tag_bytes (f.length_bytes ++ d) rest in
    let (run, behind, all) = read_length r1 d f.length_bytes rest f.length_valid (record {
      here = drop_past r.p r.d f.tag_bytes _ e;
      inside = omega (arith, len, length-append f.length_bytes d, holds.inside);
      end_fits = holds.end_fits;
    }) in
    let end = moved (moved r1 (length f.length_bytes)) (length d) in
    let place : end ≡ moved r (length xs) = ap (λ n. record r { p = n }) (omega (arith, len)) in
    let sub = ldelim_at r1 _ (length d) run all holds.end_fits in
    let content = take-append_length d rest (length d) refl in
    (
      r1,
      read_tag_at r fn 2 _ f.tag_valid h (omega arith) e (omega (arith, len, holds.inside)),
      copy_at r1 _ (length d) max run room all holds.end_fits
          ∙ ap (λ ys. (ys, end)) (ap (take (length d)) behind ∙ content)
          ∙ ap (λ q. (d, q)) place,
      skip_at r1 _ (length d) run all holds.end_fits ∙ place,
      ap (λ q. q.0) sub ∙ place,
      ap (λ q. take q.1.s q.1.d) sub ∙ ap (take (length d)) behind ∙ content,
    )
