-- ===== src/Proto/Tests.antt =====
-- Witnesses for the properties of the wire format, at short fields.
use espconnect.Common.{◌≡◌, ◌<◌, ◌+◌, ◌*◌, refl, ℕ, [], ◌∷◌, ◌++◌, some, Bytes, take, arith}
use espconnect.Proto.{Reader, read_tag, read_bytes_copy, read_ldelim, skip, reader_init}
use espconnect.Proto.Varint.{IsVarint, last, more}
use espconnect.Proto.Fields.{IsVarintField, IsBytesField, Holds, moved, read-IsBytesField}

-- 300 is 44 + 2 * 128.
IsVarint-300 : IsVarint 300 (172 ∷ 2 ∷ [])
IsVarint-300 = more 300 2 44 (2 ∷ []) refl (omega arith) (omega arith) (last 2 (omega arith))

abbrev at_300 : Reader
at_300 = reader_init (172 ∷ 2 ∷ 7 ∷ []) 3

-- Field 10 of wire type 2 with the bytes 1 and 2, and one byte behind it.
abbrev two_bytes : Bytes
two_bytes = 82 ∷ 2 ∷ 1 ∷ 2 ∷ []

abbrev at_two_bytes : Reader
at_two_bytes = reader_init (two_bytes ++ (9 ∷ [])) 5

two_bytes-IsBytesField : IsBytesField 10 (1 ∷ 2 ∷ []) two_bytes
two_bytes-IsBytesField = record {
  tag_bytes = 82 ∷ [];
  length_bytes = 2 ∷ [];
  parts = refl;
  tag_valid = last 82 (omega arith);
  length_valid = last 2 (omega arith);
}

at_two_bytes-Holds : Holds at_two_bytes two_bytes (9 ∷ [])
unfolding reader_init
at_two_bytes-Holds = record { here = refl; inside = omega arith; end_fits = omega arith }

read-IsBytesField_example :
    (r1 : Reader) × (read_tag at_two_bytes ≡ some (10, 2, r1))
    × (read_bytes_copy r1 2 ≡ (1 ∷ 2 ∷ [], moved at_two_bytes 4))
    × (skip r1 2 ≡ moved at_two_bytes 4)
    × ((read_ldelim r1).0 ≡ moved at_two_bytes 4)
    × (take (read_ldelim r1).1.s (read_ldelim r1).1.d ≡ 1 ∷ 2 ∷ [])
read-IsBytesField_example =
    read-IsBytesField at_two_bytes 10 2 (1 ∷ 2 ∷ []) two_bytes (9 ∷ []) two_bytes-IsBytesField
      (omega arith) at_two_bytes-Holds (omega arith)

-- Field 2 of wire type 0 with the value 300.
abbrev number : Bytes
number = 16 ∷ 172 ∷ 2 ∷ []

abbrev at_number : Reader
at_number = reader_init number 3

number-IsVarintField : IsVarintField 2 300 number
number-IsVarintField = record {
  tag_bytes = 16 ∷ [];
  value_bytes = 172 ∷ 2 ∷ [];
  parts = refl;
  tag_valid = last 16 (omega arith);
  value_valid = IsVarint-300;
}

at_number-Holds : Holds at_number number []
unfolding reader_init
at_number-Holds = record { here = refl; inside = omega arith; end_fits = omega arith }

-- A length of 2^64 - 11 behind a tag of one byte.
abbrev huge : ℕ
huge = 18446744073709551605

abbrev huge_bytes : Bytes
huge_bytes = 245 ∷ 255 ∷ 255 ∷ 255 ∷ 255 ∷ 255 ∷ 255 ∷ 255 ∷ 255 ∷ 1 ∷ []

ones : (v q : ℕ) (xs : Bytes) → v ≡ 127 + q * 128 → 0 < q → IsVarint q xs → IsVarint v (255 ∷ xs)
ones v q xs e pos t = more v q 127 xs e (omega arith) pos t

huge-IsVarint : IsVarint huge huge_bytes
huge-IsVarint =
    let top = last 1 (omega arith) in
    let t1 = ones 255 1 _ refl (omega arith) top in
    let t2 = ones 32767 255 _ refl (omega arith) t1 in
    let t3 = ones 4194303 32767 _ refl (omega arith) t2 in
    let t4 = ones 536870911 4194303 _ refl (omega arith) t3 in
    let t5 = ones 68719476735 536870911 _ refl (omega arith) t4 in
    let t6 = ones 8796093022207 68719476735 _ refl (omega arith) t5 in
    let t7 = ones 1125899906842623 8796093022207 _ refl (omega arith) t6 in
    let t8 = ones 144115188075855871 1125899906842623 _ refl (omega arith) t7 in
    more huge 144115188075855871 117 _ refl (omega arith) (omega arith) t8

abbrev at_huge : Reader
at_huge = reader_init (82 ∷ huge_bytes) 11

at_huge-Holds : Holds at_huge ((82 ∷ []) ++ huge_bytes) []
unfolding reader_init
at_huge-Holds = record { here = refl; inside = omega arith; end_fits = omega arith }
