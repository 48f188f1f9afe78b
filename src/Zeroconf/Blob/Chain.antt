-- ===== src/Zeroconf/Blob/Chain.antt =====
-- The in-place XOR of process_blob against the chain it undoes: each byte with the one 16 before it.
use espconnect.Common.{
  ℕ, zero, suc, ◌+◌, ◌-◌, ◌≤◌, ◌<◌, ◌≡◌, ◌≢◌, refl, sym, ap, ◌∙◌, ◌⊎◌, inl, inr, [], ◌∷◌, bit_xor,
  length, length-set, get_or, set, Bytes, arith,
}
use espconnect.Zeroconf.Blob.{xor_loop, xor_blocks}

get_or-set_same : (xs : Bytes) (i v : ℕ) → i < length xs → get_or (set xs i v) i 0 ≡ v
get_or-set_same [] i v h = omega arith
get_or-set_same (x ∷ xs) zero v h = refl
get_or-set_same (x ∷ xs) (suc i) v h = get_or-set_same xs i v (omega arith)

get_or-set_other : (xs : Bytes) (i j v : ℕ) → i ≢ j → get_or (set xs i v) j 0 ≡ get_or xs j 0
get_or-set_other [] i j v h = refl
get_or-set_other (x ∷ xs) zero zero v h = elim (h refl) [ ]
get_or-set_other (x ∷ xs) zero (suc j) v h = refl
get_or-set_other (x ∷ xs) (suc i) zero v h = refl
get_or-set_other (x ∷ xs) (suc i) (suc j) v h = get_or-set_other xs i j v (omega arith)

pub below_or_not : (a b : ℕ) → (a < b) ⊎ (b ≤ a)
below_or_not a b = ground arith

round :
    (n left i : ℕ) (blob : Bytes)
    → suc left + i + 16 ≡ n
    → xor_loop n (suc left) i blob
      ≡ xor_loop n left
          (i + 1)
          (set blob (left + 16) (bit_xor (get_or blob (left + 16) 0) (get_or blob left 0)))
unfolding xor_loop
round n left i blob e =
    let here : n - i - 1 ≡ left + 16 = omega arith in
    let there : n - i - 17 ≡ left = omega arith in
    ap
      (λ a.
        xor_loop n left (i + 1)
          (set blob a (bit_xor (get_or blob a 0) (get_or blob (n - i - 17) 0))))
      here
    ∙ ap
        (λ a.
          xor_loop n left (i + 1)
            (set blob (left + 16) (bit_xor (get_or blob (left + 16) 0) (get_or blob a 0))))
        there

loop_outside :
    (n left i j : ℕ) (blob : Bytes)
    → left + i + 16 ≡ n
    → (j < 16) ⊎ (16 + left ≤ j)
    → get_or (xor_loop n left i blob) j 0 ≡ get_or blob j 0
unfolding xor_loop
loop_outside n zero i j blob e out = refl
loop_outside n (suc left) i j blob e out =
    ap (λ b. get_or b j 0) (round n left i blob e)
    ∙ loop_outside n left (i + 1) j _ (omega arith) (ground arith)
    ∙ get_or-set_other blob (left + 16) j _ (ground arith)

loop_inside :
    (n left i k : ℕ) (blob : Bytes)
    → left + i + 16 ≡ n
    → n ≤ length blob
    → k < left
    → get_or (xor_loop n left i blob) (k + 16) 0
      ≡ bit_xor (get_or blob (k + 16) 0) (get_or blob k 0)
loop_inside n zero i k blob e fits h = elim h [ ]
loop_inside n (suc left) i k blob e fits h =
    let last = bit_xor (get_or blob (left + 16) 0) (get_or blob left 0) in
    let blob' = set blob (left + 16) last in
    let start = ap (λ b. get_or b (k + 16) 0) (round n left i blob e) in
    elim (below_or_not k left) [
      | inl lower ↦
          start
          ∙ loop_inside n left (i + 1) k blob' (omega arith)
              (omega (arith, length-set blob (left + 16) last)) lower
          ∙ ap (λ x. bit_xor x (get_or blob' k 0))
              (get_or-set_other blob (left + 16) (k + 16) last (omega arith))
          ∙ ap (λ x. bit_xor (get_or blob (k + 16) 0) x)
              (get_or-set_other blob (left + 16) k last (omega arith))
      | inr upper ↦
          let same : left ≡ k = omega arith in
          start
          ∙ loop_outside n left (i + 1) (k + 16) blob' (omega arith) (inr (omega arith))
          ∙ ap (λ x. get_or (set blob (left + 16) last) (x + 16) 0) (sym same)
          ∙ get_or-set_same blob (left + 16) last (omega arith)
          ∙ ap (λ x. bit_xor (get_or blob (x + 16) 0) (get_or blob x 0)) same
    ]

-- The XOR loop of process_blob, which runs in place over a block, gives at each place from 16 on
-- the byte that stood there XOR the one 16 places before it, and leaves every other byte as it was.
pub get_or-xor_blocks :
    (n : ℕ) (blob : Bytes)
    → n ≤ length blob
    → ((k : ℕ)
        → k + 16 < n
        → get_or (xor_blocks n blob) (k + 16) 0
          ≡ bit_xor (get_or blob (k + 16) 0) (get_or blob k 0))
      × ((j : ℕ) → (j < 16) ⊎ (n ≤ j) → get_or (xor_blocks n blob) j 0 ≡ get_or blob j 0)
unfolding xor_blocks xor_loop
get_or-xor_blocks n blob fits = (
  λ k h. loop_inside n (n - 16) 0 k blob (omega arith) fits (omega arith),
  λ j out. elim (below_or_not 16 n) [
    | inl long ↦ loop_outside n (n - 16) 0 j blob (omega arith) (ground arith)
    | inr short ↦ short_block j short
  ],
)
  where
    short_block : (j : ℕ) → n ≤ 16 → get_or (xor_loop n (n - 16) 0 blob) j 0 ≡ get_or blob j 0
    short_block j short =
        let none_left : n - 16 ≡ 0 = omega arith in
        ap (λ left. get_or (xor_loop n left 0 blob) j 0) none_left
