-- ===== src/Zeroconf/Blob/Credentials.antt =====
-- The fields of the credentials under a blob, and what parse_auth reads from them.
use espconnect.Common.{
  ℕ, ◌+◌, ◌%◌, ◌^◌, ◌<◌, ◌≡◌, refl, ap, ◌∙◌, true, false, [], ◌∷◌, ◌++◌, append_assoc, length,
  length-append, take, drop, take-append_length, Bytes, ltb, leb, arith,
}
use espconnect.Proto.Varint.{IsVarint, last, more, IsVarint-length}
use espconnect.Proto.Fields.{IsVarintField, IsBytesField, drop_past}
use espconnect.Zeroconf.Blob.{done, parse_auth}
use espconnect.Zeroconf.Blob.Numbers.{read_varint-IsVarint}

-- The three fields by their parts, each behind a tag of one byte.
parse_auth-parts :
    (plain : Bytes) (t1 t2 t3 t size : ℕ) (l1 name v2 l3 content pad : Bytes)
    → plain ≡ t1 ∷ (l1 ++ (name ++ (t2 ∷ (v2 ++ (t3 ∷ (l3 ++ (content ++ pad)))))))
    → IsVarint (length name) l1
    → IsVarint t v2
    → IsVarint (length content) l3
    → length name < 2 ^ 14
    → t < 2 ^ 14
    → length content < 2 ^ 14
    → length content < size
    → parse_auth plain (length plain) size ≡ done (record { auth_data = content; auth_type = t })
unfolding parse_auth
parse_auth-parts plain t1 t2 t3 t size l1 name v2 l3 content pad e h1 h2 h3 s1 s2 s3 room =
    let n = length plain in
    let a3 = l3 ++ (content ++ pad) in
    let a2 = v2 ++ (t3 ∷ a3) in
    let a1 = name ++ (t2 ∷ a2) in
    let p2 = 1 + length l1 + length name in
    let p3 = p2 + 1 + length v2 in
    let p4 = p3 + 1 + length l3 in
    let total : n ≡ p4 + length content + length pad = omega (
      arith,
      ap length e,
      length-append l1 a1,
      length-append name (t2 ∷ a2),
      length-append v2 (t3 ∷ a3),
      length-append l3 (content ++ pad),
      length-append content pad,
    ) in
    let d1 : drop 1 plain ≡ l1 ++ a1 = drop_past 0 plain (t1 ∷ []) (l1 ++ a1) e in
    let d2 = drop_past 1 plain l1 a1 d1 in
    let d3 = drop_past (1 + length l1) plain name (t2 ∷ a2) d2 in
    let d4 = drop_past p2 plain (t2 ∷ []) a2 d3 in
    let d5 = drop_past (p2 + 1) plain v2 (t3 ∷ a3) d4 in
    let d6 = drop_past p3 plain (t3 ∷ []) a3 d5 in
    let d7 = drop_past (p3 + 1) plain l3 (content ++ pad) d6 in
    let r1 = read_varint-IsVarint plain a1 1 n h1 s1 d1 (omega (arith, total)) in
    let r2 = read_varint-IsVarint plain (t3 ∷ a3) (p2 + 1) n h2 s2 d4 (omega (arith, total)) in
    let r3 =
      read_varint-IsVarint plain (content ++ pad) (p3 + 1) n h3 s3 d6 (omega (arith, total)) in
    let g1 : ltb 0 n ≡ true = ground (arith, total) in
    let g2 : ltb p2 n ≡ true = ground (arith, total) in
    let g3 : ltb p3 n ≡ true = ground (arith, total) in
    let g4 : leb (p4 + length content) n ≡ true = ground (arith, total) in
    let whole : leb size (length content) ≡ false = ground arith in
    rw (g1, r1)
      (rw (g2, r2)
        (rw (g3, r3)
          (rw (g4, whole)
            (ap (λ c. done (record { auth_data = c; auth_type = t }))
              (ap (take (length content)) d7
                ∙ take-append_length content pad (length content) refl)))))

one_byte : {v : ℕ} {ts : Bytes} → IsVarint v ts → v < 128 → ts ≡ v ∷ []
one_byte (last v h) low = refl
one_byte (more v q g xs e h pos t) low = absurd (omega arith)

-- The fields of the credentials: username, type and data, and bytes that fill the last block.
pub record IsCredentials (name content : Bytes) (t : ℕ) (plain : Bytes) : Type 0 where
  pub name_field : Bytes
  pub type_field : Bytes
  pub data_field : Bytes
  pub pad : Bytes
  pub parts : plain ≡ name_field ++ (type_field ++ (data_field ++ pad))
  pub name_valid : IsBytesField 1 name name_field
  pub type_valid : IsVarintField 2 t type_field
  pub data_valid : IsBytesField 3 content data_field
  pub name_short : length name < 2 ^ 14
  pub type_small : t < 2 ^ 14
  pub data_short : length content < 2 ^ 14
  pub whole_blocks : length plain % 16 ≡ 0

pub parse_auth-IsCredentials :
    (plain name content : Bytes) (t size : ℕ)
    → IsCredentials name content t plain
    → length content < size
    → parse_auth plain (length plain) size ≡ done (record { auth_data = content; auth_type = t })
parse_auth-IsCredentials plain name content t size c room =
    let n = c.name_valid in
    let y = c.type_valid in
    let d = c.data_valid in
    let e1 : c.name_field ≡ 10 ∷ (n.length_bytes ++ name) =
      n.parts ∙ ap (λ b. b ++ (n.length_bytes ++ name)) (one_byte n.tag_valid (omega arith)) in
    let e2 : c.type_field ≡ 16 ∷ y.value_bytes =
      y.parts ∙ ap (λ b. b ++ y.value_bytes) (one_byte y.tag_valid (omega arith)) in
    let e3 : c.data_field ≡ 26 ∷ (d.length_bytes ++ content) =
      d.parts ∙ ap (λ b. b ++ (d.length_bytes ++ content)) (one_byte d.tag_valid (omega arith)) in
    parse_auth-parts plain 10 16 26 t size n.length_bytes name y.value_bytes d.length_bytes content
      c.pad (c.parts ∙ rw (e1, e2, e3) (simp append_assoc)) n.length_valid y.value_valid
      d.length_valid c.name_short c.type_small c.data_short room

pub IsCredentials-length :
    {name content plain : Bytes} {t : ℕ} → IsCredentials name content t plain → 0 < length plain
IsCredentials-length {name} {content} {plain} {t} c =
    let n = c.name_valid in
    omega (
      arith,
      ap length c.parts,
      length-append c.name_field (c.type_field ++ (c.data_field ++ c.pad)),
      ap length n.parts,
      length-append n.tag_bytes (n.length_bytes ++ name),
      IsVarint-length n.tag_valid,
    )
