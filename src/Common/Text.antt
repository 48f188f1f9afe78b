-- ===== src/Common/Text.antt =====
-- C strings: the bytes of a literal, and what the string functions of the C library compute, on
-- lists of bytes.
use Prim.Native.Nat.{ℕ, zero, suc, ◌+◌, ◌/◌, ◌%◌}
use Prim.Native.Char.{code}
use Prim.Native.String.{String}
use mathlib.Core.List.{List, [], ◌∷◌, ◌++◌}
use mathlib.Core.Bool.{Bool, true, false, ◌&&◌}
use mathlib.Core.Option.{Option, none, some}
use espconnect.Common.Tests.{◌==◌, if◌then◌else◌}

-- The code points of a literal, its bytes where it is ASCII.
abbrev pub codes : String → List ℕ
codes String.[] = []
codes (String.◌∷◌ c s) = code c ∷ codes s

-- The C string that starts at the head of a buffer: the bytes before the first NUL.
abbrev pub c_string : List ℕ → List ℕ
c_string [] = []
c_string (zero ∷ cs) = []
c_string (suc c ∷ cs) = suc c ∷ c_string cs

-- memcmp(xs, ys, n) == 0 on buffers of n bytes.
abbrev pub same_bytes : List ℕ → List ℕ → Bool
same_bytes [] [] = true
same_bytes [] (y ∷ ys) = false
same_bytes (x ∷ xs) [] = false
same_bytes (x ∷ xs) (y ∷ ys) = (x == y) && same_bytes xs ys

-- What stands behind a prefix.
abbrev pub behind : List ℕ → List ℕ → Option (List ℕ)
behind [] ys = some ys
behind (x ∷ xs) [] = none
behind (x ∷ xs) (y ∷ ys) = if x == y then behind xs ys else none

-- strstr: what stands behind the first occurrence of a text.
abbrev pub find_behind : List ℕ → List ℕ → Option (List ℕ)
find_behind needle [] = behind needle []
find_behind needle (y ∷ ys) = elim (behind needle (y ∷ ys)) [
  | none ↦ find_behind needle ys
  | some rest ↦ some rest
]

-- The bytes before the first occurrence of one, and what stands behind it (strchr).
abbrev pub before_byte : ℕ → List ℕ → List ℕ
before_byte x [] = []
before_byte x (y ∷ ys) = if x == y then [] else y ∷ before_byte x ys

-- strstr: the text from the first occurrence on.
abbrev pub find_at : List ℕ → List ℕ → Option (List ℕ)
find_at needle [] = elim (behind needle []) [ none ↦ none | some rest ↦ some [] ]
find_at needle (y ∷ ys) = elim (behind needle (y ∷ ys)) [
  | none ↦ find_at needle ys
  | some rest ↦ some (y ∷ ys)
]

-- The decimal digits of a number below 10 to the power of the fuel, without leading zeros.
abbrev pub decimal : ℕ → ℕ → List ℕ
decimal zero n = []
decimal (suc fuel) n =
    let front = decimal fuel (n / 10) in
    let digit = (48 + n % 10) ∷ [] in if n / 10 == 0 then digit else front ++ digit
