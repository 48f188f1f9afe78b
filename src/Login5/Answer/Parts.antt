-- ===== src/Login5/Answer/Parts.antt =====
-- What spotify_login5_get_token copies out of the answer.
use espconnect.Common.{
  ℕ, suc, ◌≤◌, ◌≡◌, refl, sym, ap, Bool, true, false, [], ◌∷◌, ◌++◌, length, drop, Option, none,
  some, Bytes, ltb, if◌then◌else◌, arith,
}
use espconnect.Login5.Answer.{breaks, one_on, payload_offset, copy_payload}

-- An empty line that ends at n, with a byte behind it.
Parts : Bytes → ℕ → Type 0
Parts xs n =
    (head : Bytes) × (xs ≡ head ++ (13 ∷ 10 ∷ 13 ∷ 10 ∷ drop n xs)) × (1 ≤ length (drop n xs))

some_injective : (m n : ℕ) → ◌≡◌ {A = Option ℕ} (some m) (some n) → m ≡ n
some_injective m n e = ap (λ (o : Option ℕ). elim o [ none ↦ 0 | some k ↦ k ]) e

breaks-Parts : (xs : Bytes) → breaks xs ≡ true → Parts xs 4
unfolding breaks Parts
breaks-Parts [] e = absurd (cc)
breaks-Parts (a ∷ []) e = absurd (cc)
breaks-Parts (a ∷ b ∷ []) e = absurd (cc)
breaks-Parts (a ∷ b ∷ c ∷ []) e = absurd (cc)
breaks-Parts (a ∷ b ∷ c ∷ d ∷ []) e = absurd (cc)
breaks-Parts (a ∷ b ∷ c ∷ d ∷ x ∷ xs) e =
    let ea : a ≡ 13 = ground arith in
    let eb : b ≡ 10 = ground arith in
    let ec : c ≡ 13 = ground arith in
    let ed : d ≡ 10 = ground arith in ([], rw (ea, eb, ec, ed) refl, omega arith)

parted :
    (c : ℕ) (cs : Bytes) (n : ℕ) (b : Bool) (o : Option ℕ)
    → (b ≡ true → Parts (c ∷ cs) 4)
    → ((m : ℕ) → o ≡ some m → Parts cs m)
    → (if b then some 4 else one_on o) ≡ some n
    → Parts (c ∷ cs) n
unfolding Parts
parted c cs n true o f g e = rw (sym (some_injective 4 n e)) (f refl)
parted c cs n false none f g e = absurd (cc)
parted c cs n false (some m) f g e =
    let (head, parts, more) = g m refl in
    rw (sym (some_injective (suc m) n e)) (c ∷ head, ap (λ t. c ∷ t) parts, more)

payload_offset-Parts : (xs : Bytes) (n : ℕ) → payload_offset xs ≡ some n → Parts xs n
unfolding payload_offset
payload_offset-Parts [] n e = absurd (cc)
payload_offset-Parts (c ∷ cs) n e =
    parted c cs n (breaks (c ∷ cs)) (payload_offset cs) (breaks-Parts (c ∷ cs))
      (payload_offset-Parts cs) e

copied :
    (b : Bool) (body payload : Bytes)
    → (if b then none else some body) ≡ some payload
    → (b ≡ false) × (body ≡ payload)
copied true body payload e = absurd (cc)
copied false body payload e =
    (refl, ap (λ (o : Option Bytes). elim o [ none ↦ [] | some xs ↦ xs ]) e)

-- What spotify_login5_get_token copies to its caller, at the offset that its search finds, is what
-- stands behind an empty line up to the end of what was received; it is not empty and it fits the
-- buffer.
pub copy_payload-payload_offset :
    (capacity : ℕ) (got payload : Bytes)
    → copy_payload capacity got (payload_offset got) ≡ some payload
    → ((head : Bytes) × (got ≡ head ++ (13 ∷ 10 ∷ 13 ∷ 10 ∷ payload)))
      × ((1 ≤ length payload) × (length payload ≤ capacity))
unfolding copy_payload Parts
copy_payload-payload_offset capacity got payload e = by_offset (payload_offset got) refl e
  where
    by_offset :
        (o : Option ℕ)
        → payload_offset got ≡ o
        → copy_payload capacity got o ≡ some payload
        → ((head : Bytes) × (got ≡ head ++ (13 ∷ 10 ∷ 13 ∷ 10 ∷ payload)))
          × ((1 ≤ length payload) × (length payload ≤ capacity))
    by_offset none at e = absurd (cc)
    by_offset (some n) at e =
        let (head, parts, more) = payload_offset-Parts got n at in
        let (fits, same) = copied (ltb capacity (length (drop n got))) (drop n got) payload e in
        rw (sym same) ((head, parts), (more, ground arith))
