-- ===== src/Mercury/Response/Welcomed.antt =====
-- What mercury_login5 stores of an APWelcome, field by field.
use espconnect.Common.{
  ℕ, zero, suc, ◌+◌, ◌^◌, ◌≤◌, ◌<◌, ◌≡◌, refl, sym, ap, ◌⊎◌, inl, inr, Bool, Bool-cases, true,
  false, ◌||◌, ◌==◌, ◌&&◌, List, [], ◌∷◌, ◌++◌, append-nil, some, length, length-append, IsU64,
  Bytes, arith, if◌then◌else◌,
}
use mathlib.Core.Path.{subst}
use espconnect.Proto.{Reader, reader_init, read_tag}
use espconnect.Proto.Fields.{Holds, moved, read-IsBytesField}
use espconnect.Proto.Message.{Field, number, content, IsField, IsMessage}
use espconnect.Proto.Nested.{Holds-front, Holds-behind, read_tag_end, number_at}
use espconnect.Mercury.Response.{Welcome, welcome_field, welcome_loop, parse_welcome}

-- The fields that the loop reads right: the numbers 2 and 5, and bytes that fit their buffer, if they
-- have one.
abbrev pub IsHandled : Field → Type 0
IsHandled (number fn v) = ((fn ≡ 2) ⊎ (fn ≡ 5)) × IsU64 v
IsHandled (content fn d) = (fn < 2 ^ 32) × (fn ≡ 1 → length d ≤ 255) × (fn ≡ 6 → length d ≤ 2048)

abbrev pub AllHandled : List Field → Type 0
AllHandled [] = Unit
AllHandled (f ∷ fs) = IsHandled f × AllHandled fs

-- What one field stores, and all of them in turn: the last one of a kind counts.
abbrev pub stored : Field → Welcome → Welcome
stored (number fn v) w = w
stored (content fn d) w =
    if fn == 1
    then record w { canonical_username = d }
    else if fn == 6
    then record w { stored_cred = d }
    else w

abbrev pub all_stored : List Field → Welcome → Welcome
all_stored [] w = w
all_stored (f ∷ fs) w = all_stored fs (stored f w)

no_number : (b : Bool) → (b && false) ≡ false
no_number true = refl
no_number false = refl

-- One round of the loop at a field.
Round : Reader → Welcome → Field → Bytes → Type 0
Round r w f xs =
    (fn : ℕ) × (wt : ℕ) × (r1 : Reader) × (read_tag r ≡ some (fn, wt, r1))
    × (welcome_field fn wt r1 w ≡ (moved r (length xs), stored f w))

field-Round :
    (r : Reader) (w : Welcome) (f : Field) (xs rest : Bytes)
    → IsField f xs
    → IsHandled f
    → Holds r xs rest
    → Round r w f xs
unfolding Round welcome_field
field-Round r w (number fn v) xs rest valid (inl e, small) holds =
    let (r1, tag, run) = number_at r fn v xs rest valid (omega arith) small holds in
    (fn, 0, r1, tag, rw e (ap (λ q. (q.1, w)) run))
field-Round r w (number fn v) xs rest valid (inr e, small) holds =
    let (r1, tag, run) = number_at r fn v xs rest valid (omega arith) small holds in
    (fn, 0, r1, tag, rw e (ap (λ q. (q.1, w)) run))
field-Round r w (content fn d) xs rest valid (small, one, six) holds = elim (Bool-cases (fn == 1)) [
  | inl e ↦
      let (r1, tag, copied, _, _, _) =
        read-IsBytesField r fn 255 d xs rest valid small holds (one (ground arith)) in
      (fn, 2, r1, tag, rw (e, copied) refl)
  | inr e ↦ elim (Bool-cases (fn == 6)) [
    | inl e' ↦
        let (r1, tag, copied, _, _, _) =
          read-IsBytesField r fn 2048 d xs rest valid small holds (six (ground arith)) in
        (fn, 2, r1, tag, rw (e, no_number (fn == 2 || fn == 5), e') (rw copied refl))
    | inr e' ↦
        let (r1, tag, _, skipped, _, _) =
          read-IsBytesField r fn (length d) d xs rest valid small holds (omega arith) in
        (fn, 2, r1, tag, rw (e, no_number (fn == 2 || fn == 5), e') (rw skipped refl))
  ]
]

loop_stores :
    (fuel : ℕ) (r : Reader) (w : Welcome) (fs : List Field) (xs : Bytes)
    → length fs < fuel
    → IsMessage fs xs
    → AllHandled fs
    → Holds r xs []
    → r.s ≡ r.p + length xs
    → welcome_loop fuel r w ≡ some (all_stored fs w)
unfolding welcome_loop Round
loop_stores zero r w fs xs enough valid handled holds end = absurd (omega arith)
loop_stores (suc fuel) r w [] xs enough valid handled holds end =
    rw (read_tag_end r (omega (arith, ap length valid)), welcome_loop) refl
loop_stores (suc fuel) r w (f ∷ fs) xs enough (front, rest, parts, field, valid) (ok, handled) holds
      end =
    let both : Holds r (front ++ rest) [] = subst (λ t. Holds r t []) parts holds in
    let (fn, wt, r1, tag, run) =
      field-Round r w f front (rest ++ []) field ok (Holds-front front rest [] both) in
    let len : length xs ≡ length front + length rest =
      omega (arith, ap length parts, length-append front rest) in
    rw (tag, welcome_loop)
      (rw run (
        loop_stores fuel (moved r (length front)) (stored f w) fs rest (omega arith) valid handled
          (Holds-behind r front rest [] both) (omega (arith, len))))

-- On a message of less than 2^64 bytes whose fields are numbers 2 and 5 of wire type 0 and fields
-- of wire type 2, of which the name has at most 255 bytes and the credentials at most 2048, the
-- APWelcome loop ends with any fuel above the number of fields, and has stored the last field 1 as
-- the name and the last field 6 as the credentials.
pub parse_welcome-IsMessage :
    (fuel : ℕ) (fs : List Field) (rx : Bytes) (w : Welcome)
    → length fs < fuel
    → IsMessage fs rx
    → AllHandled fs
    → IsU64 (length rx)
    → parse_welcome fuel rx w ≡ some (all_stored fs w)
unfolding parse_welcome reader_init
parse_welcome-IsMessage fuel fs rx w enough valid handled fits =
    loop_stores fuel (reader_init rx (length rx)) w fs rx enough valid handled
      (record { here = sym (append-nil rx); inside = omega arith; end_fits = fits }) (omega arith)
