-- ===== src/Login5/Answer/Tests.antt =====
-- Witnesses for the answer to the login request, at a connection that stores whatever there is room for.
use espconnect.Common.{
  ℕ, zero, suc, ◌≡◌, refl, ap, [], ◌∷◌, length, length-take, length-drop, take, drop,
  take-append-drop, some, none, Bytes, arith,
}
use espconnect.Login5.Answer.{
  Read, over, stored, Reader, Reads, ends, gives, IsReader, gather, payload_offset, copy_payload,
  breaks,
}
use espconnect.Login5.Answer.Once.{Whole, gather-once}

read_all : Bytes → ℕ → Read × Bytes
read_all c zero = (over, c)
read_all [] (suc n) = (over, [])
read_all (x ∷ xs) (suc n) = (stored (x ∷ take n xs), drop n xs)

abbrev at_once : Reader
at_once = record { Conn = Bytes; read = read_all }

read_all-Reads : (c : Bytes) (n : ℕ) → Reads at_once length (λ d. d) c n (read_all c n)
unfolding read_all
read_all-Reads c zero = ends c (λ h. absurd (omega arith))
read_all-Reads [] (suc n) = ends [] (λ h. refl)
read_all-Reads (x ∷ xs) (suc n) =
    gives (x ∷ take n xs) (drop n xs) (omega (arith, length-drop n xs))
      (omega (arith, length-take n xs)) (omega arith) (ap (λ t. x ∷ t) (take-append-drop n xs))

abbrev all_laws : IsReader at_once
all_laws = record { rank = length; stream = λ c. c; reads = read_all-Reads }

abbrev short_answer : Bytes
short_answer = 72 ∷ 13 ∷ 10 ∷ 13 ∷ 10 ∷ 8 ∷ 9 ∷ []

gather-once_example : Whole (take 2047 short_answer) (gather at_once 100 [] none short_answer)
gather-once_example = gather-once at_once all_laws 100 short_answer (omega arith)

copy_payload_run : copy_payload 4 short_answer (payload_offset short_answer) ≡ some (8 ∷ 9 ∷ [])
unfolding copy_payload payload_offset breaks
copy_payload_run = refl
