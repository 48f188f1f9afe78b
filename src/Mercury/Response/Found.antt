-- ===== src/Mercury/Response/Found.antt =====
-- The search of mercury_login5 for the DH key of the server, on an APResponse as a server makes it.
use espconnect.Common.{
  ℕ, zero, suc, ◌≤◌, ◌≡◌, refl, sym, ap, ◌∙◌, true, false, ◌==◌, ◌&&◌, ◌++◌, append-nil, Option,
  none, some, length, length-append, drop, replicate, drop-append_length, IsU64, Bytes, arith,
  if◌then◌else◌,
}
use espconnect.Proto.{Reader, reader_init_slice, read_tag, skip}
use espconnect.Proto.Fields.{IsBytesField, Holds, moved, read-IsBytesField}
use espconnect.Proto.Nested.{Holds-front, sub_at}
use espconnect.Mercury.Response.{Search, AtField, scan, copy_key, within, find_server_dh}

-- At a field 10 with these bytes, the step gives `st'`.
Reaches : AtField → Bytes → Search → Search → Type 0
Reaches at_field field st st' =
    (r : Reader) (rest : Bytes)
    → Holds r field rest
    → (r1 : Reader) × (r2 : Reader) × (read_tag r ≡ some (10, 2, r1))
      × (at_field r1 st ≡ some (r2, st'))

-- On a message with these bytes in front, the loop gives `st'`.
Scans : AtField → ℕ → Bytes → Search → Search → Type 0
Scans at_field fuel front st st' =
    (r : Reader) (rest : Bytes) → Holds r front rest → scan at_field fuel r st ≡ some st'

ends_found :
    (at_field : AtField) (fuel : ℕ) (r : Reader) (st : Search)
    → st.found ≡ true
    → scan at_field (suc fuel) r st ≡ some st
unfolding scan
ends_found at_field fuel r st e = by_tag (read_tag r)
  where
    by_tag :
        (o : Option (ℕ × ℕ × Reader))
        → (elim o as (λ _. Option Search) [
          | none ↦ some st
          | some (fn, wt, r1) ↦
              let next : Option (Reader × Search) =
                if fn == 10 && wt == 2 then at_field r1 st else some (skip r1 wt, st) in
              let rest : Option Search = elim next [
                | none ↦ none
                | some (r2, st') ↦ scan at_field fuel r2 st'
              ] in
              if st.found then some st else rest
        ])
          ≡ some st
    by_tag none = refl
    by_tag (some (fn, wt, r1)) = rw e refl

-- One field of a level, which ends its loop.
scan-Scans :
    (at_field : AtField) (fuel : ℕ) (field : Bytes) (st st' : Search)
    → Reaches at_field field st st'
    → st.found ≡ false
    → st'.found ≡ true
    → Scans at_field (suc (suc fuel)) field st st'
unfolding Reaches Scans scan
scan-Scans at_field fuel field st st' step unfound found r rest holds =
    let (r1, r2, tag, run) = step r rest holds in
    rw (tag, scan) (rw run (rw unfound (ends_found at_field fuel r2 st' found)))

-- A field that holds a message, of which the front is what the loop one level down goes over.
within-Reaches :
    (at_field : AtField) (fuel : ℕ) (front back field : Bytes) (st st' : Search)
    → Scans at_field fuel front st st'
    → IsBytesField 10 (front ++ back) field
    → Reaches (within at_field fuel) field st st'
unfolding Reaches Scans within
within-Reaches at_field fuel front back field st st' scans valid r rest holds =
    let (r1, sub, tag, opened, inner, _) =
      sub_at r 10 (front ++ back) field rest valid (omega arith) holds in
    let run = scans sub (back ++ rest) (Holds-front front back rest inner) in
    (r1, moved r (length field), tag, rw opened (rw run refl))

copy_key-Reaches :
    (key field : Bytes)
    → length key ≡ 96
    → IsBytesField 10 key field
    → Reaches copy_key field
        (record { server_dh = replicate 96 0; found = false })
        (record { server_dh = key; found = true })
unfolding Reaches copy_key
copy_key-Reaches key field len valid r rest holds =
    let (r1, tag, copied, _, _, _) =
      read-IsBytesField r 10 96 key field rest valid (omega arith) holds (omega arith) in
    let whole : (length key == 96) ≡ true = ground arith in
    let over : key ++ drop (length key) (replicate 96 0) ≡ key =
      ap (λ n. key ++ drop n (replicate 96 0)) len ∙ append-nil key in
    (r1, moved r (length field), tag, rw copied (rw (whole, over) refl))

-- An APResponse: a header of four bytes, and four fields 10 inside one another, each the first one of its
-- message, around the key.
pub record IsResponse (key ar : Bytes) : Type 0 where
  pub header : Bytes
  pub field0 : Bytes
  pub field1 : Bytes
  pub field2 : Bytes
  pub field3 : Bytes
  pub rest0 : Bytes
  pub rest1 : Bytes
  pub rest2 : Bytes
  pub rest3 : Bytes
  pub parts : ar ≡ header ++ (field0 ++ rest0)
  pub length_header : length header ≡ 4
  pub valid0 : IsBytesField 10 (field1 ++ rest1) field0
  pub valid1 : IsBytesField 10 (field2 ++ rest2) field1
  pub valid2 : IsBytesField 10 (field3 ++ rest3) field2
  pub valid3 : IsBytesField 10 key field3

start-Holds :
    {key ar : Bytes} (v : IsResponse key ar)
    → IsU64 (length ar)
    → Holds (reader_init_slice ar 4 (length ar)) v.field0 v.rest0
unfolding reader_init_slice
start-Holds {key} {ar} v fits = record {
  here =
      ap (drop 4) v.parts
      ∙ drop-append_length v.header (v.field0 ++ v.rest0) 4 (sym v.length_header);
  inside = omega (
    arith,
    ap length v.parts,
    v.length_header,
    length-append v.header (v.field0 ++ v.rest0),
    length-append v.field0 v.rest0,
  );
  end_fits = fits;
}

-- In an answer of less than 2^64 bytes that has, behind four bytes, four fields 10 inside one
-- another, each the first one of its message, around a key of 96 bytes, the search ends with fuel 2
-- or more, and it finds the key, whatever stands behind each field.
pub find_server_dh-IsResponse :
    (fuel : ℕ) (key ar : Bytes)
    → 2 ≤ fuel
    → IsResponse key ar
    → length key ≡ 96
    → IsU64 (length ar)
    → find_server_dh fuel ar (length ar) ≡ some (some key)
unfolding find_server_dh Scans
find_server_dh-IsResponse zero key ar enough v len fits = absurd (omega arith)
find_server_dh-IsResponse (suc zero) key ar enough v len fits = absurd (omega arith)
find_server_dh-IsResponse (suc (suc fuel)) key ar enough v len fits =
    let st : Search = record { server_dh = replicate 96 0; found = false } in
    let st' : Search = record { server_dh = key; found = true } in
    let deep = suc (suc fuel) in
    let step3 = copy_key-Reaches key v.field3 len v.valid3 in
    let loop3 = scan-Scans copy_key fuel v.field3 st st' step3 refl refl in
    let at2 = within copy_key deep in
    let step2 = within-Reaches copy_key deep v.field3 v.rest3 v.field2 st st' loop3 v.valid2 in
    let loop2 = scan-Scans at2 fuel v.field2 st st' step2 refl refl in
    let at1 = within at2 deep in
    let step1 = within-Reaches at2 deep v.field2 v.rest2 v.field1 st st' loop2 v.valid1 in
    let loop1 = scan-Scans at1 fuel v.field1 st st' step1 refl refl in
    let step0 = within-Reaches at1 deep v.field1 v.rest1 v.field0 st st' loop1 v.valid0 in
    let loop0 = scan-Scans (within at1 deep) fuel v.field0 st st' step0 refl refl in
    rw (loop0 (reader_init_slice ar 4 (length ar)) v.rest0 (start-Holds v fits)) refl
