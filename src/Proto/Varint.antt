-- ===== src/Proto/Varint.antt =====
-- Varints: what the writer stores, described by a relation, and what the reader makes of it.
use espconnect.Common.{
  ℕ, zero, suc, ◌+◌, ◌-◌, ◌*◌, ◌/◌, ◌%◌, ◌^◌, ◌≤◌, ◌<◌, ◌≡◌, ap, ◌∙◌, [], ◌∷◌, ◌++◌, some, bit_and,
  bit_or, and_127, and_128, or_comm, or_disjoint, length, drop, u8, u64, IsU64, Bytes, ltb,
  Bool-cases, inl, inr, arith,
}
use espconnect.Proto.{varint_groups, varint_enc, varint_loop, byte_at, Reader, read_varint_raw}
use native.Mathlib.Numerals.{towards_suc}

-- `xs` is the varint of `v`: seven bits to a byte, lowest first, the top bit set on all but the last.
pub data IsVarint : ℕ → Bytes → Type 0 where
  last : (v : ℕ) → v < 128 → IsVarint v (v ∷ [])
  more :
      (v q g : ℕ) (xs : Bytes)
      → v ≡ g + q * 128
      → g < 128
      → 0 < q
      → IsVarint q xs
      → IsVarint v ((g + 128) ∷ xs)

inner_group : (v : ℕ) → u8 (bit_or (bit_and v 127) 128) ≡ v % 128 + 128
inner_group v =
    rw (and_127 v, or_comm (v % 128) 128, or_disjoint 7 1 (v % 128) (omega arith)) (omega arith)

last_group : (v : ℕ) → v < 128 → u8 (bit_and v 127) ≡ v
last_group v h = omega (arith, and_127 v)

varint_groups-IsVarint :
    (k v : ℕ)
    → v < 128 ^ suc k
    → (xs : Bytes) × (varint_groups (suc k) v ≡ some xs) × IsVarint v xs × (length xs ≤ suc k)
unfolding varint_groups
varint_groups-IsVarint zero v h =
    (v ∷ [], ground (arith, last_group v), last v (omega arith), omega arith)
varint_groups-IsVarint (suc k) v h = elim (Bool-cases (ltb 127 v)) [
  | inl e ↦
      let (xs, run, valid, short) = varint_groups-IsVarint k (v / 128) (ground arith) in
      (
        (v % 128 + 128) ∷ xs,
        rw (e, run, inner_group v),
        more v (v / 128) (v % 128) xs (omega arith) (omega arith) (ground arith) valid,
        omega arith,
      )
  | inr e ↦ (v ∷ [], rw (e, last_group v (ground arith)), last v (ground arith), omega arith)
]

-- On every uint64_t the loop of pb_varint_enc ends and writes the varint of the number, in at most
-- ten bytes.
pub varint_enc-IsVarint :
    (v : ℕ) → IsU64 v → (xs : Bytes) × (varint_enc v ≡ some xs) × IsVarint v xs × (length xs ≤ 10)
unfolding varint_enc
varint_enc-IsVarint v h = varint_groups-IsVarint 9 v (omega arith)

pub byte_at-drop :
    (d : Bytes) (p x : ℕ) (xs : Bytes)
    → drop p d ≡ x ∷ xs
    → (byte_at d p ≡ x) × (drop (p + 1) d ≡ xs)
byte_at-drop [] zero x xs e = cc
byte_at-drop [] (suc p) x xs e = cc
byte_at-drop (y ∷ d) zero x xs e = ground arith
byte_at-drop (y ∷ d) (suc p) x xs e =
    let ih = byte_at-drop d p x xs e in (ih.0, simp towards_suc (simp towards_suc at ih.1))

-- Reading a group of seven bits into an accumulator below it.
group_or :
    (acc g sh : ℕ)
    → acc < 2 ^ sh
    → acc + g * 2 ^ sh < 2 ^ 64
    → bit_or acc (u64 (g * 2 ^ sh)) ≡ acc + g * 2 ^ sh
group_or acc g sh h fits = ground (arith, or_comm acc (g * 2 ^ sh), or_disjoint sh g acc)

shift_seven : (s : ℕ) → 2 ^ (s + 7) ≡ 128 * 2 ^ s
shift_seven s = simp towards_suc (omega arith)

split_group : (v q g sh : ℕ) → v ≡ g + q * 128 → v * 2 ^ sh ≡ g * 2 ^ sh + q * 2 ^ (sh + 7)
split_group v q g sh e =
    omega (arith, ap (λ (t : ℕ). t * 2 ^ sh) e, ap (λ (t : ℕ). q * t) (shift_seven sh))

-- One round on a byte with the top bit set.
inner_round :
    (left p acc sh g : ℕ) (d : Bytes)
    → byte_at d p ≡ g + 128
    → g < 128
    → acc < 2 ^ sh
    → acc + g * 2 ^ sh < 2 ^ 64
    → varint_loop (suc left) d p acc sh ≡ varint_loop left d (p + 1) (acc + g * 2 ^ sh) (sh + 7)
unfolding varint_loop
inner_round left p acc sh g d here h low high =
    ground (arith, and_127 (g + 128), and_128 (g + 128), group_or acc g sh)

varint_loop-IsVarint :
    {v : ℕ} {xs : Bytes}
    → IsVarint v xs
    → (left p acc sh : ℕ) (d rest : Bytes) → drop p d ≡ xs ++ rest
    → length xs ≤ left
    → acc < 2 ^ sh
    → acc + v * 2 ^ sh < 2 ^ 64
    → varint_loop left d p acc sh ≡ (acc + v * 2 ^ sh, p + length xs)
unfolding varint_loop
varint_loop-IsVarint (last v h) zero p acc sh d rest e fits low high = absurd (omega arith)
varint_loop-IsVarint (last v h) (suc left) p acc sh d rest e fits low high =
    let here = byte_at-drop d p v rest e in
    ground (arith, here.0, and_127 v, and_128 v, group_or acc v sh)
varint_loop-IsVarint (more v q g xs split h pos t) zero p acc sh d rest e fits low high =
    absurd (omega arith)
varint_loop-IsVarint (more v q g xs split h pos t) (suc left) p acc sh d rest e fits low high =
    let here = byte_at-drop d p (g + 128) (xs ++ rest) e in
    let whole = split_group v q g sh split in
    let room : acc + g * 2 ^ sh < 2 ^ (sh + 7) = grind (arith, shift_seven sh) in
    inner_round left p acc sh g d here.0 h low (omega arith)
    ∙ varint_loop-IsVarint t left (p + 1) (acc + g * 2 ^ sh) (sh + 7) d rest here.1 (omega arith)
        room (omega arith)
    ∙ ap (λ a. (a, p + 1 + length xs)) (omega arith)
    ∙ ap (λ a. (acc + v * 2 ^ sh, a)) (omega arith)

-- pb_read_varint_raw reads back the varint of a uint64_t that stands at its position inside the
-- input, and moves behind it.
pub read_varint_raw-IsVarint :
    {v : ℕ} {xs : Bytes} (r : Reader) (rest : Bytes)
    → IsVarint v xs
    → IsU64 v
    → drop r.p r.d ≡ xs ++ rest
    → r.p + length xs ≤ r.s
    → read_varint_raw r ≡ (v, record r { p = r.p + length xs })
unfolding read_varint_raw
read_varint_raw-IsVarint {v} {xs} r rest valid h e fits =
    let run =
      varint_loop-IsVarint valid (r.s - r.p) r.p 0 0 r.d rest e (omega arith) (omega arith)
        (omega arith) in
    ap (λ a. (a.0, record r { p = a.1 })) run
    ∙ ap (λ a. (a, record r { p = r.p + length xs })) (omega arith)

pub IsVarint-length : {v : ℕ} {xs : Bytes} → IsVarint v xs → 1 ≤ length xs
IsVarint-length (last v h) = omega arith
IsVarint-length (more v q g xs e h pos t) = omega arith
