-- ===== src/Zeroconf/Blob/Sealed.antt =====
-- The other end of process_blob: how a phone makes the block that it sends. Each byte of the plain block
-- is masked with the one that came out 16 places before it.
use espconnect.Common.{
  ℕ, zero, suc, ◌+◌, ◌-◌, ◌≤◌, ◌<◌, ◌≡◌, refl, sym, ap, ◌∙◌, inl, inr, [], ◌∷◌, ◌++◌, append_assoc,
  bit_xor, length, length-append, length-set, get_or, drop, replicate, Bytes, arith, xor_cancel,
  xor_comm, zero-xor,
}
use native.Mathlib.Nat.{zero-add}
use espconnect.Zeroconf.Blob.{xor_loop, xor_blocks}
use espconnect.Zeroconf.Blob.Chain.{below_or_not, get_or-xor_blocks}

-- The last 16 bytes that came out are in front.
unfoldable pub chain_from : Bytes → Bytes → Bytes
chain_from window [] = []
chain_from window (p ∷ ps) =
    let c = bit_xor p (get_or window 0 0) in c ∷ chain_from (drop 1 window ++ (c ∷ [])) ps

unfoldable pub chain : Bytes → Bytes
chain plain = chain_from (replicate 16 0) plain

length-chain_from : (w ps : Bytes) → length (chain_from w ps) ≡ length ps
unfolding chain_from
length-chain_from w [] = refl
length-chain_from w (p ∷ ps) =
    ap suc (length-chain_from (drop 1 w ++ (bit_xor p (get_or w 0 0) ∷ [])) ps)

pub length-chain : (ps : Bytes) → length (chain ps) ≡ length ps
unfolding chain
length-chain ps = length-chain_from (replicate 16 0) ps

get_or-chain_from :
    (w ps : Bytes) (j : ℕ)
    → 1 ≤ length w
    → j < length ps
    → get_or (chain_from w ps) j 0 ≡ bit_xor (get_or ps j 0) (get_or (w ++ chain_from w ps) j 0)
unfolding chain_from
get_or-chain_from [] ps j one h = absurd (omega arith)
get_or-chain_from (w ∷ ws) [] j one h = absurd (omega arith)
get_or-chain_from (w ∷ ws) (p ∷ ps) zero one h = refl
get_or-chain_from (w ∷ ws) (p ∷ ps) (suc j) one h =
    let c = bit_xor p w in
    let next = chain_from (ws ++ (c ∷ [])) ps in
    get_or-chain_from (ws ++ (c ∷ [])) ps j (omega (arith, length-append ws (c ∷ []))) (omega arith)
    ∙ ap (λ l. bit_xor (get_or ps j 0) (get_or l j 0)) (append_assoc ws (c ∷ []) next)

get_or-append_left : (xs ys : Bytes) (j : ℕ) → j < length xs → get_or (xs ++ ys) j 0 ≡ get_or xs j 0
get_or-append_left [] ys j h = absurd (omega arith)
get_or-append_left (x ∷ xs) ys zero h = refl
get_or-append_left (x ∷ xs) ys (suc j) h = get_or-append_left xs ys j (omega arith)

suc_out : (n k : ℕ) → suc n + k ≡ suc (n + k)
suc_out n k = omega arith

get_or-append_right : (xs ys : Bytes) (k : ℕ) → get_or (xs ++ ys) (length xs + k) 0 ≡ get_or ys k 0
get_or-append_right [] ys k = ap (λ j. get_or ys j 0) (zero-add k)
get_or-append_right (x ∷ xs) ys k =
    ap (λ j. get_or (x ∷ (xs ++ ys)) j 0) (suc_out (length xs) k) ∙ get_or-append_right xs ys k

get_or-zeros : (n j : ℕ) → get_or {A = ℕ} (replicate n 0) j 0 ≡ 0
get_or-zeros zero j = refl
get_or-zeros (suc n) zero = refl
get_or-zeros (suc n) (suc j) = get_or-zeros n j

length-xor_loop : (n left i : ℕ) (blob : Bytes) → length (xor_loop n left i blob) ≡ length blob
unfolding xor_loop
length-xor_loop n zero i blob = refl
length-xor_loop n (suc left) i blob =
    length-xor_loop n left (i + 1) _ ∙ length-set blob (n - i - 1) _

same_places :
    (xs ys : Bytes)
    → length xs ≡ length ys
    → ((j : ℕ) → j < length ys → get_or xs j 0 ≡ get_or ys j 0)
    → xs ≡ ys
same_places [] [] e h = refl
same_places [] (y ∷ ys) e h = absurd (omega arith)
same_places (x ∷ xs) [] e h = absurd (omega arith)
same_places (x ∷ xs) (y ∷ ys) e h =
    ap (λ z. z ∷ xs) (h 0 (omega arith))
    ∙ ap (λ zs. y ∷ zs) (same_places xs ys (omega arith) (λ j k. h (suc j) (omega arith)))

-- What stands at a place of the masked block, before 16 and behind.
chain_front : (ps : Bytes) (j : ℕ) → j < length ps → j < 16 → get_or (chain ps) j 0 ≡ get_or ps j 0
unfolding chain
chain_front ps j h low =
    let c = chain_from (replicate 16 0) ps in
    get_or-chain_from (replicate 16 0) ps j (omega arith) h
    ∙ ap (bit_xor (get_or ps j 0)) (get_or-append_left (replicate 16 0) c j low ∙ get_or-zeros 16 j)
    ∙ (xor_comm (get_or ps j 0) 0 ∙ zero-xor (get_or ps j 0))

chain_behind :
    (ps : Bytes) (k : ℕ)
    → 16 + k < length ps
    → get_or (chain ps) (16 + k) 0 ≡ bit_xor (get_or ps (16 + k) 0) (get_or (chain ps) k 0)
unfolding chain
chain_behind ps k h =
    let c = chain_from (replicate 16 0) ps in
    get_or-chain_from (replicate 16 0) ps (16 + k) (omega arith) h
    ∙ ap (bit_xor (get_or ps (16 + k) 0)) (get_or-append_right (replicate 16 0) c k)

unmasked :
    (plain : Bytes) (j : ℕ)
    → j < length plain
    → get_or (xor_blocks (length plain) (chain plain)) j 0 ≡ get_or plain j 0
unmasked plain j h =
    let out = get_or-xor_blocks (length plain) (chain plain) (omega (arith, length-chain plain)) in
    elim (below_or_not j 16) [
      | inl low ↦ out.1 j (inl low) ∙ chain_front plain j h low
      | inr high ↦
          let k = j - 16 in
          let there : j ≡ 16 + k = omega arith in
          let here : k + 16 ≡ 16 + k = omega arith in
          ap (λ i. get_or (xor_blocks (length plain) (chain plain)) i 0) (there ∙ sym here)
          ∙ out.0 k (omega arith)
          ∙ ap (λ i. bit_xor (get_or (chain plain) i 0) (get_or (chain plain) k 0)) here
          ∙ ap (λ v. bit_xor v (get_or (chain plain) k 0)) (chain_behind plain k (omega arith))
          ∙ xor_cancel (get_or plain (16 + k) 0) (get_or (chain plain) k 0)
          ∙ ap (λ i. get_or plain i 0) (sym there)
    ]

length-xor_blocks : (n : ℕ) (blob : Bytes) → length (xor_blocks n blob) ≡ length blob
unfolding xor_blocks
length-xor_blocks n blob = length-xor_loop n (n - 16) 0 blob

-- The XOR loop of process_blob undoes the masking.
pub xor_blocks-chain : (plain : Bytes) → xor_blocks (length plain) (chain plain) ≡ plain
xor_blocks-chain plain =
    same_places _ plain (length-xor_blocks (length plain) (chain plain) ∙ length-chain plain)
      (unmasked plain)
