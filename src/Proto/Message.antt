-- ===== src/Proto/Message.antt =====
-- Messages: what a sequence of fields is on the wire, and that the writers append to one.
use espconnect.Common.{
  ℕ, ◌+◌, ◌*◌, ◌^◌, ◌≤◌, ◌<◌, ◌≡◌, refl, sym, ap, ◌∙◌, List, [], ◌∷◌, ◌++◌, append_assoc,
  append-nil, Option, some, length, length-append, IsU64, Bytes, arith,
}
use espconnect.Proto.{Buf, init, varint, bytes}
use espconnect.Proto.Varint.{IsVarint, last, more}
use espconnect.Proto.Fields.{IsVarintField, IsBytesField, varint-IsVarintField, bytes-IsBytesField}

-- A field number with a number or with bytes.
pub data Field : Type 0 where
  number : ℕ → ℕ → Field
  content : ℕ → Bytes → Field

abbrev pub IsField : Field → Bytes → Type 0
IsField (number fn v) xs = IsVarintField fn v xs
IsField (content fn d) xs = IsBytesField fn d xs

-- The fields one behind the other, and nothing else.
abbrev pub IsMessage : List Field → Bytes → Type 0
IsMessage [] xs = xs ≡ []
IsMessage (f ∷ fs) xs =
    (front : Bytes) × (rest : Bytes) × (xs ≡ front ++ rest) × IsField f front × IsMessage fs rest

-- One more field at the end.
IsMessage-append :
    (fs : List Field) (f : Field) (xs ys : Bytes)
    → IsMessage fs xs
    → IsField f ys
    → IsMessage (fs ++ (f ∷ [])) (xs ++ ys)
IsMessage-append [] f xs ys m h = (ys, [], ap (λ t. t ++ ys) m ∙ sym (append-nil ys), h, refl)
IsMessage-append (g ∷ fs) f xs ys (front, rest, parts, k, m) h = (
  front,
  rest ++ ys,
  ap (λ t. t ++ ys) parts ∙ append_assoc front rest ys,
  k,
  IsMessage-append fs f rest ys m h,
)

IsVarint-length_le : {v : ℕ} {xs : Bytes} → IsVarint v xs → length xs ≤ v + 1
IsVarint-length_le (last v h) = omega arith
IsVarint-length_le (more v q g xs e h pos t) = omega (arith, IsVarint-length_le t)

-- A bound for the bytes of a message, which is far from tight.
abbrev pub field_bound : Field → ℕ
field_bound (number fn v) = fn * 8 + v + 2
field_bound (content fn d) = fn * 8 + 4 + 2 * length d

abbrev pub bound : List Field → ℕ
bound [] = 0
bound (f ∷ fs) = field_bound f + bound fs

field_bound_lem : (f : Field) (xs : Bytes) → IsField f xs → length xs ≤ field_bound f
field_bound_lem (number fn v) xs h = omega (
  arith,
  ap length h.parts,
  length-append h.tag_bytes h.value_bytes,
  IsVarint-length_le h.tag_valid,
  IsVarint-length_le h.value_valid,
)
field_bound_lem (content fn d) xs h = omega (
  arith,
  ap length h.parts,
  length-append h.tag_bytes (h.length_bytes ++ d),
  length-append h.length_bytes d,
  IsVarint-length_le h.tag_valid,
  IsVarint-length_le h.length_valid,
)

pub length-le-bound : (fs : List Field) (xs : Bytes) → IsMessage fs xs → length xs ≤ bound fs
length-le-bound [] xs e = omega (arith, ap length e)
length-le-bound (f ∷ fs) xs (front, rest, parts, h, m) = omega (
  arith,
  ap length parts,
  length-append front rest,
  field_bound_lem f front h,
  length-le-bound fs rest m,
)

-- A builder that ends, with a message of these fields.
abbrev pub Writes : Option Buf → List Field → Type 0
Writes m fs = (out : Buf) × (m ≡ some out) × IsMessage fs out.bytes

pub init-IsMessage : (n : ℕ) → IsMessage [] (init n).bytes
unfolding init
init-IsMessage n = refl

pub bytes-Writes :
    (b : Buf) (fs : List Field) (fn : ℕ) (d : Bytes)
    → fn < 2 ^ 61
    → IsU64 (length d)
    → IsMessage fs b.bytes
    → Writes (bytes b fn d) (fs ++ (content fn d ∷ []))
bytes-Writes b fs fn d small fits valid =
    let (out, xs, run, appended, field) = bytes-IsBytesField b fn d small fits in
    (out, run, rw appended (IsMessage-append fs (content fn d) b.bytes xs valid field))

pub varint-Writes :
    (b : Buf) (fs : List Field) (fn v : ℕ)
    → fn < 2 ^ 61
    → IsU64 v
    → IsMessage fs b.bytes
    → Writes (varint b fn v) (fs ++ (number fn v ∷ []))
varint-Writes b fs fn v small fits valid =
    let (out, xs, run, appended, field) = varint-IsVarintField b fn v small fits in
    (out, run, rw appended (IsMessage-append fs (number fn v) b.bytes xs valid field))
