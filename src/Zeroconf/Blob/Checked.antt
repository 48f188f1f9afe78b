-- ===== src/Zeroconf/Blob/Checked.antt =====
-- When process_blob accepts a blob.
use espconnect.Common.{
  ℕ, ◌+◌, ◌-◌, ◌≤◌, ◌<◌, ◌≡◌, refl, ap, ◌∙◌, Bool, true, false, [], ◌∷◌, length, length-take, take,
  drop, Bytes, codes, same_bytes, ltb, leb, if◌then◌else◌, arith,
}
use espconnect.Crypto.{Crypto}
use espconnect.Zeroconf.Blob.{
  Result, done, fail, ◌>>=◌, guard, Auth, read_varint, open_blob, parse_auth, process_blob,
}

bind_done {ℓ κ} :
    {A : Type ℓ} {B : Type κ} (r : Result A) (f : A → Result B) (b : B)
    → (r >>= f) ≡ done b
    → (a : A) × (r ≡ done a) × (f a ≡ done b)
bind_done (done a) f b e = (a, refl, e)
bind_done (fail n) f b e = absurd (cc)

guard_passed {ℓ} :
    {B : Type ℓ} (test : Bool) (n : ℕ) (k : Result B) (b : B)
    → (guard test n >>= λ _. k) ≡ done b
    → (test ≡ true) × (k ≡ done b)
guard_passed true n k b e = (refl, e)
guard_passed false n k b e = absurd (cc)

same_bytes-equal : (xs ys : Bytes) → same_bytes xs ys ≡ true → xs ≡ ys
same_bytes-equal [] [] e = refl
same_bytes-equal [] (y ∷ ys) e = absurd (cc)
same_bytes-equal (x ∷ xs) [] e = absurd (cc)
same_bytes-equal (x ∷ xs) (y ∷ ys) e =
    let (head, tail) : (x ≡ y) × (same_bytes xs ys ≡ true) = ground arith in
    ap (λ z. z ∷ xs) head ∙ ap (λ zs. y ∷ zs) (same_bytes-equal xs ys tail)

-- The parts of the outer blob, and the key of its checksum.
abbrev pub encrypted_part : Bytes → Bytes
encrypted_part blob = take (length blob - 36) (drop 16 blob)

abbrev pub checksum_part : Bytes → Bytes
checksum_part blob = drop (length blob - 20) blob

abbrev pub checksum_key : Crypto → Bytes → Bytes
checksum_key crypto secret = crypto.hmac_sha1 (take 16 (crypto.sha1 secret)) (codes "checksum")

stored : Result Auth → Bytes
stored (done a) = a.auth_data
stored (fail n) = []

parse_auth-fits :
    (inner : Bytes) (n size : ℕ) (a : Auth)
    → 0 < size
    → parse_auth inner n size ≡ done a
    → length a.auth_data < size
unfolding parse_auth stored
parse_auth-fits inner n size a pos e =
    let p2 = (read_varint inner 1 n).1 + (read_varint inner 1 n).0 in
    let p3 = (read_varint inner (p2 + 1) n).1 in
    let (ad_len, p4) = read_varint inner (p3 + 1) n in
    let cut = if leb size ad_len then size - 1 else ad_len in
    let (_, e1) = guard_passed (ltb 0 n) 4 _ a e in
    let (_, e2) = guard_passed (ltb p2 n) 4 _ a e1 in
    let (_, e3) = guard_passed (ltb p3 n) 4 _ a e2 in
    let (_, e4) = guard_passed (leb (p4 + ad_len) n) 4 _ a e3 in
    let same : length (take cut (drop p4 inner)) ≡ length a.auth_data =
      ap (λ r. length (stored r)) e4 in
    ground (arith, same, length-take cut (drop p4 inner))

-- If process_blob succeeds with a buffer that is not empty, the decoded blob has 36 bytes at least,
-- its last 20 bytes are the HMAC of the encrypted part under the key from the shared secret, and
-- the credentials fit the buffer with their NUL.
pub process_blob-checked :
    (crypto : Crypto) (blob_b64 username device_id secret : Bytes) (size : ℕ) (a : Auth)
    → 0 < size
    → process_blob crypto blob_b64 username device_id secret size ≡ done a
    → (36 ≤ length (crypto.base64_decode blob_b64 8192))
      × (crypto.hmac_sha1
            (checksum_key crypto secret)
            (encrypted_part (crypto.base64_decode blob_b64 8192))
          ≡ checksum_part (crypto.base64_decode blob_b64 8192))
      × (length a.auth_data < size)
unfolding process_blob open_blob
process_blob-checked crypto blob_b64 username device_id secret size a pos e =
    let (text, opened, rest) = bind_done (open_blob crypto blob_b64 secret) _ a e in
    let (long, checked) = guard_passed _ 1 _ text opened in
    let (equal, _) = guard_passed _ 2 _ text checked in
    let (_, _, parsed) =
      bind_done (guard (ltb 0 (length (crypto.base64_decode text 8192))) 3) _ a rest in
    (ground arith, same_bytes-equal _ _ equal, parse_auth-fits _ _ size a pos parsed)
