-- ===== src/Spclient/Cdn.antt =====
-- What resolving a CDN URL gives where the server sends one.
use espconnect.Common.{
  ℕ, zero, suc, ◌-◌, ◌≡◌, ◌≤◌, refl, sym, ap, ◌∙◌, true, false, none, some, Option-cases, inl, inr,
  List, [], ◌∷◌, ◌++◌, drop, take, Bytes, codes, c_string, behind, find_at, ltb, ◌==◌, arith,
}
use espconnect.Mercury.{ok}
use espconnect.Spclient.{HttpsGet, copy_url, parse_cdn_url, cdn_response, resolve_cdn_url}

behind-append : (xs ys rest : Bytes) → behind xs ys ≡ some rest → ys ≡ xs ++ rest
behind-append [] ys rest e = ground arith
behind-append (x ∷ xs) [] rest e = absurd (cc)
behind-append (x ∷ xs) (y ∷ ys) rest e =
    let (head, tail) : (x ≡ y) × (behind xs ys ≡ some rest) = ground arith in
    ap (λ z. z ∷ ys) (sym head) ∙ ap (λ zs. x ∷ zs) (behind-append xs ys rest tail)

behind_self : (xs rest : Bytes) → behind xs (xs ++ rest) ≡ some rest
behind_self [] rest = refl
behind_self (x ∷ xs) rest =
    let same : (x == x) ≡ true = ground arith in rw same (behind_self xs rest)

find_at_here : (needle ys r : Bytes) → behind needle ys ≡ some r → find_at needle ys ≡ some ys
find_at_here needle [] r e = rw (find_at, e) refl
find_at_here needle (y ∷ ys) r e = rw (find_at, e) refl

find_at_later :
    (needle : Bytes) (y : ℕ) (ys : Bytes)
    → behind needle (y ∷ ys) ≡ none
    → find_at needle (y ∷ ys) ≡ find_at needle ys
find_at_later needle y ys e = rw (find_at, e) refl

-- Where a text occurs, strstr finds a place at which it stands.
find_at-occurs :
    (x : ℕ) (xs front rest : Bytes)
    → (t : Bytes) × (find_at (x ∷ xs) (front ++ ((x ∷ xs) ++ rest)) ≡ some t)
      × ((r : Bytes) × (behind (x ∷ xs) t ≡ some r))
find_at-occurs x xs [] rest =
    let here = behind_self (x ∷ xs) rest in
    ((x ∷ xs) ++ rest, find_at_here (x ∷ xs) ((x ∷ xs) ++ rest) rest here, (rest, here))
find_at-occurs x xs (y ∷ front) rest =
    let whole = y ∷ (front ++ ((x ∷ xs) ++ rest)) in
    elim (Option-cases (behind (x ∷ xs) whole)) [
      | inl nothing ↦
          let (t, found, at) = find_at-occurs x xs front rest in
          (t, find_at_later (x ∷ xs) y (front ++ ((x ∷ xs) ++ rest)) nothing ∙ found, at)
      | inr (r, here) ↦ (whole, find_at_here (x ∷ xs) whole r here, (r, here))
    ]

-- The text that the source searches for.
abbrev key : Bytes
key = codes "\"cdnurl\":[\""

empty_at : (size : ℕ) (t r : Bytes) → behind key t ≡ some r → copy_url size (drop 10 t) ≡ []
unfolding copy_url
empty_at size t r e = rw (behind-append key t r e) (nothing (size - 1))
  where
    nothing : (n : ℕ) → take {A = ℕ} n [] ≡ []
    nothing zero = refl
    nothing (suc n) = refl

parse_empty :
    (front rest : Bytes) (url_size : ℕ) → parse_cdn_url url_size (front ++ (key ++ rest)) ≡ ok []
unfolding parse_cdn_url
parse_empty front rest url_size =
    let (t, found, (r, here)) = find_at-occurs b'"' (codes "cdnurl\":[\"") front rest in
    rw (parse_cdn_url, found) (ap ok (empty_at url_size t r here))

-- Where the server answers with status 200 and a text that has "cdnurl":[" anywhere, and the buffer
-- has 256 bytes at least, spclient_resolve_cdn_url succeeds with the empty URL, whatever stands
-- behind the key.
pub resolve_cdn_url-empty :
    (https_get : HttpsGet) (client_token file_id_hex body front rest : Bytes) (url_size : ℕ)
    → 256 ≤ url_size
    → ((host path : Bytes) (headers : List Bytes) (timeout : ℕ)
        → https_get host path headers timeout ≡ record { status_code = 200; body = some body })
    → c_string body ≡ front ++ (key ++ rest)
    → resolve_cdn_url https_get client_token file_id_hex url_size ≡ ok []
unfolding resolve_cdn_url cdn_response
resolve_cdn_url-empty https_get client_token file_id_hex body front rest url_size room answers
      text =
    let big : ltb url_size 256 ≡ false = ground arith in
    rw big (rw (answers _ _ _ _) (rw text (parse_empty front rest url_size)))
