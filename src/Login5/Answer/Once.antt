-- ===== src/Login5/Answer/Once.antt =====
-- The search for the empty line, made again after each read, against one search of the whole answer.
use espconnect.Common.{
  ℕ, zero, suc, ◌-◌, ◌≤◌, ◌<◌, ◌≡◌, refl, sym, ap, ◌∙◌, Bool, true, false, Bool-cases, [], ◌∷◌,
  ◌++◌, append-nil, append_assoc, length, length-append, take, take-append_le, Option, none, some,
  ◌⊎◌, inl, inr, Bytes, ltb, if◌then◌else◌, arith,
}
use espconnect.Login5.Answer.{
  Reader, Read, again, over, stored, Reads, waits, ends, gives, IsReader, breaks, one_on,
  payload_offset, search_after, Gathered, gathered, outside, room, gather,
}

chosen :
    (b : Bool) (n : ℕ) (o p : Option ℕ)
    → ((m : ℕ) → o ≡ some m → p ≡ some m)
    → (if b then some 4 else one_on o) ≡ some n
    → (if b then some 4 else one_on p) ≡ some n
chosen true n o p f e = e
chosen false n none p f e = absurd (cc)
chosen false n (some m) p f e = rw (f m refl) e

-- More bytes do not change where the payload begins, once that is found.
payload_offset-append :
    (xs ys : Bytes) (n : ℕ) → payload_offset xs ≡ some n → payload_offset (xs ++ ys) ≡ some n
unfolding payload_offset breaks
payload_offset-append [] ys n e = absurd (cc)
payload_offset-append (a ∷ []) ys n e = absurd (cc)
payload_offset-append (a ∷ b ∷ []) ys n e = absurd (cc)
payload_offset-append (a ∷ b ∷ c ∷ []) ys n e = absurd (cc)
payload_offset-append (a ∷ b ∷ c ∷ d ∷ []) ys n e = absurd (cc)
payload_offset-append (a ∷ b ∷ c ∷ d ∷ x ∷ xs) ys n e =
    chosen (breaks (a ∷ b ∷ c ∷ d ∷ x ∷ xs)) n (payload_offset (b ∷ c ∷ d ∷ x ∷ xs)) _
      (payload_offset-append (b ∷ c ∷ d ∷ x ∷ xs) ys) e

-- A search after a read goes past what was received, or finds what a search of all of it finds.
search_after-payload_offset :
    (xs ys : Bytes)
    → (search_after (xs ++ ys) (payload_offset xs) ≡ none)
      ⊎ (search_after (xs ++ ys) (payload_offset xs) ≡ some (payload_offset (xs ++ ys)))
unfolding search_after
search_after-payload_offset xs ys = by_offset (payload_offset xs) refl
  where
    by_offset :
        (o : Option ℕ)
        → payload_offset xs ≡ o
        → (search_after (xs ++ ys) o ≡ none)
          ⊎ (search_after (xs ++ ys) o ≡ some (payload_offset (xs ++ ys)))
    by_offset (some n) e = inr (ap some (sym (payload_offset-append xs ys n e)))
    by_offset none e = elim (Bool-cases (ltb (length (xs ++ ys)) 4)) [
      | inl short ↦ inl (rw short refl)
      | inr enough ↦ inr (rw enough refl)
    ]

-- What the loop gives: it stops outside, or it has what arrived and where the payload begins in it.
abbrev pub Whole : Bytes → Gathered → Type 0
Whole total g = (g ≡ outside) ⊎ (g ≡ gathered total (payload_offset total))

take_none : (n : ℕ) (ys : Bytes) → (0 < n → ys ≡ []) → take n ys ≡ []
take_none zero ys h = refl
take_none (suc n) ys h = rw (h (omega arith)) refl

-- What was gathered with one more read, and what is gathered behind it.
total :
    (got xs whole later : Bytes)
    → length xs ≤ room - length got
    → xs ++ later ≡ whole
    → (got ++ xs) ++ take (room - length (got ++ xs)) later ≡ got ++ take (room - length got) whole
total got xs whole later short front =
    append_assoc got xs _
    ∙ ap (λ t. got ++ t)
        (ap (λ k. xs ++ take k later) (omega (arith, length-append got xs))
          ∙ sym (take-append_le xs later (room - length got) short)
          ∙ ap (take (room - length got)) front)

module _ (reader : Reader) (laws : IsReader reader) where
  -- What the rounds behind a read give.
  Later : ℕ → Type 0
  Later fuel =
      (got : Bytes) (c : reader.Conn)
      → length got ≤ room
      → laws.rank c < fuel
      → Whole (got ++ take (room - length got) (laws.stream c))
          (gather reader fuel got (payload_offset got) c)

  round-Whole :
      (fuel : ℕ) (got : Bytes) (c : reader.Conn) (r : Read × reader.Conn)
      → Later fuel
      → length got ≤ room
      → laws.rank c < suc fuel
      → Reads reader laws.rank laws.stream c (room - length got) r
      → Whole (got ++ take (room - length got) (laws.stream c)) (elim r.0 [
        | again ↦ gather reader fuel got (payload_offset got) r.1
        | over ↦ gathered got (payload_offset got)
        | stored xs ↦ elim (search_after (got ++ xs) (payload_offset got)) [
          | none ↦ outside
          | some off' ↦ gather reader fuel (got ++ xs) off' r.1
        ]
      ])
  unfolding Later
  round-Whole fuel got c _ later fits enough (waits c' less same) =
      rw (sym same) (later got c' fits (omega arith))
  round-Whole fuel got c _ later fits enough (ends c' nothing) =
      let none_left = take_none (room - length got) (laws.stream c) nothing in
      inr (
        ap (λ t. gathered t (payload_offset t))
          (sym (append-nil got) ∙ ap (λ t. got ++ t) (sym none_left)))
  round-Whole fuel got c _ later fits enough (gives xs c' less short one front) =
      elim (search_after-payload_offset got xs) [
        | inl e ↦ inl (rw e refl)
        | inr e ↦
            rw (e, sym (total got xs (laws.stream c) (laws.stream c') short front))
              (later (got ++ xs) c' (omega (arith, length-append got xs)) (omega arith))
      ]

  gather-Later : (fuel : ℕ) → Later fuel
  unfolding gather Later
  gather-Later zero got c fits enough = absurd (omega arith)
  gather-Later (suc fuel) got c fits enough =
      round-Whole fuel got c (reader.read c (room - length got)) (gather-Later fuel) fits enough
        (laws.reads c (room - length got))

  -- Where each read but the last gives something or lowers what is left, and the fuel is more than
  -- the rounds left, the read loop of spotify_login5_get_token, which searches again after each read,
  -- either searches past what was received or ends with the first 2047 bytes that arrive and with the
  -- offset that one search of all of them finds.
  pub gather-once :
      (fuel : ℕ) (c : reader.Conn)
      → laws.rank c < fuel
      → Whole (take 2047 (laws.stream c)) (gather reader fuel [] none c)
  unfolding payload_offset Later
  gather-once fuel c enough = gather-Later fuel [] c (omega arith) enough
