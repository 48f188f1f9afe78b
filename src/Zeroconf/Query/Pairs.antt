-- ===== src/Zeroconf/Query/Pairs.antt =====
-- get_query_param against the form that the query encodes: pieces, with & between them.
use espconnect.Common.{
  ℕ, ◌≡◌, ◌≢◌, refl, ap, ◌∙◌, Bool-cases, true, false, inl, inr, List, [], ◌∷◌, ◌++◌, Option, none,
  some, All, All-append, take, Bytes, ◌==◌, behind, before_byte, arith,
}
use mathlib.Core.Path.{subst}
use espconnect.Zeroconf.Query.{url_decode, query_from, get_query_param}

-- Text without an &.
abbrev pub IsPiece : Bytes → Type 0
IsPiece xs = All (λ (c : ℕ). c ≢ b'&') xs

-- The pieces behind the first one, each with its &.
pub after : List Bytes → Bytes
after [] = []
after (p ∷ ps) = b'&' ∷ (p ++ after ps)

-- The value of the first piece that is the key, an = and the value.
unfoldable pub first_value : Bytes → List Bytes → Option Bytes
first_value key [] = none
first_value key (p ∷ ps) = elim (behind (key ++ (b'=' ∷ [])) p) [
  | none ↦ first_value key ps
  | some value ↦ some (url_decode (take 4095 value) 4096)
]

abbrev longer : Bytes → Option Bytes → Option Bytes
longer rest none = none
longer rest (some v) = some (v ++ rest)

behind-append :
    (pat p : Bytes) (ps : List Bytes)
    → IsPiece pat
    → behind pat (p ++ after ps) ≡ longer (after ps) (behind pat p)
unfolding after
behind-append [] p ps h = refl
behind-append (x ∷ xs) [] [] h = refl
behind-append (x ∷ xs) [] (q ∷ ps) (other, h) = ground (arith, other)
behind-append (x ∷ xs) (y ∷ ys) ps (other, h) = elim (Bool-cases (x == y)) [
  | inl e ↦ rw e (behind-append xs ys ps h)
  | inr e ↦ rw e refl
]

before-append : (v : Bytes) (ps : List Bytes) → IsPiece v → before_byte b'&' (v ++ after ps) ≡ v
unfolding after
before-append [] [] h = refl
before-append [] (q ∷ ps) h = refl
before-append (x ∷ xs) ps (other, h) =
    let e : (b'&' == x) ≡ false = ground arith in rw e (ap (λ t. x ∷ t) (before-append xs ps h))

behind-IsPiece : (pat p v : Bytes) → behind pat p ≡ some v → IsPiece p → IsPiece v
behind-IsPiece [] p v e h =
    subst IsPiece (ap (λ (o : Option Bytes). elim o [ none ↦ [] | some xs ↦ xs ]) e) h
behind-IsPiece (x ∷ xs) [] v e h = absurd (cc)
behind-IsPiece (x ∷ xs) (y ∷ ys) v e (other, h) = elim (Bool-cases (x == y)) [
  | inl e' ↦ behind-IsPiece xs ys v (rw e' at e) h
  | inr e' ↦ absurd (cc (rw e' at e))
]

-- What is left to look at behind a piece that has been passed over.
rest_from : Bytes → List Bytes → Option Bytes
rest_from key [] = none
rest_from key (q ∷ ps) = query_from key true (q ++ after ps)

passes :
    (key cs : Bytes) (ps : List Bytes)
    → IsPiece cs
    → query_from key false (cs ++ after ps) ≡ rest_from key ps
unfolding after rest_from query_from
passes key [] [] h = refl
passes key [] (q ∷ ps) h = refl
passes key (c ∷ cs) ps (other, h) =
    let e : (c == b'&') ≡ false = ground arith in rw e (passes key cs ps h)

-- `key=`, which is not in front of nothing.
abbrev pattern_of : Bytes → Bytes
pattern_of key = key ++ (b'=' ∷ [])

pattern_of-IsPiece : (key : Bytes) → IsPiece key → IsPiece (pattern_of key)
pattern_of-IsPiece key h = All-append (λ (c : ℕ). c ≢ b'&') key (b'=' ∷ []) h (omega arith)

nothing_behind : (key : Bytes) → behind (pattern_of key) [] ≡ none
nothing_behind [] = refl
nothing_behind (c ∷ cs) = refl

-- The value of a piece, or what the pieces behind it give.
abbrev value_or : Option Bytes → Option Bytes → Option Bytes
value_or later none = later
value_or later (some value) = some (url_decode (take 4095 value) 4096)

first_piece :
    (key p : Bytes) (ps : List Bytes)
    → IsPiece key
    → IsPiece p
    → query_from key true (p ++ after ps) ≡ value_or (rest_from key ps) (behind (pattern_of key) p)
unfolding query_from after rest_from
first_piece key [] [] h hp = rw (nothing_behind key) refl
first_piece key [] (q ∷ ps) h hp =
    rw (behind-append (pattern_of key) [] (q ∷ ps) (pattern_of-IsPiece key h), nothing_behind key)
      refl
first_piece key (c ∷ cs) ps h (other, hp) = by_front (behind (pattern_of key) (c ∷ cs)) refl
  where
    by_front :
        (o : Option Bytes)
        → behind (pattern_of key) (c ∷ cs) ≡ o
        → query_from key true (c ∷ (cs ++ after ps)) ≡ value_or (rest_from key ps) o
    by_front none e =
        let split = behind-append (pattern_of key) (c ∷ cs) ps (pattern_of-IsPiece key h) in
        let not_and : (c == b'&') ≡ false = ground arith in
        rw (split ∙ ap (longer (after ps)) e) (rw not_and (passes key cs ps hp))
    by_front (some v) e =
        let split = behind-append (pattern_of key) (c ∷ cs) ps (pattern_of-IsPiece key h) in
        let whole = before-append v ps (behind-IsPiece (pattern_of key) (c ∷ cs) v e (other, hp)) in
        rw (split ∙ ap (longer (after ps)) e) (rw whole refl)

rests :
    (key : Bytes) (ps : List Bytes)
    → IsPiece key
    → All IsPiece ps
    → rest_from key ps ≡ first_value key ps
unfolding rest_from first_value
rests key [] h hps = refl
rests key (q ∷ ps) h (hq, hps) =
    first_piece key q ps h hq ∙ by_value (behind (pattern_of key) q) (rests key ps h hps)
  where
    by_value :
        (o : Option Bytes)
        → rest_from key ps ≡ first_value key ps
        → value_or (rest_from key ps) o ≡ elim o [
          | none ↦ first_value key ps
          | some value ↦ some (url_decode (take 4095 value) 4096)
        ]
    by_value none e = e
    by_value (some v) e = refl

-- On pieces without an & that are joined by &, for a key without one, get_query_param gives the
-- decoded value, cut to 4095 bytes, of the first piece that is the key, an = and a value, and
-- nothing where there is no such piece.
pub get_query_param-first_value :
    (key p : Bytes) (ps : List Bytes)
    → IsPiece key
    → IsPiece p
    → All IsPiece ps
    → get_query_param (p ++ after ps) key ≡ first_value key (p ∷ ps)
unfolding get_query_param rest_from
get_query_param-first_value key p ps h hp hps = rests key (p ∷ ps) h (hp, hps)
