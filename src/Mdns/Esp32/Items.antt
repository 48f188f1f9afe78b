-- ===== src/Mdns/Esp32/Items.antt =====
-- The items that the registration reads from well-formed records.
use espconnect.Common.{
  ℕ, zero, suc, ◌≡◌, ◌≢◌, ◌≤◌, refl, ap, List, [], ◌∷◌, ◌++◌, some, All, length, take, Bytes, codes,
  u16, false, ◌==◌, arith, leb, get_or, length-append, take-append_length, ltb, ◌-◌, ◌∙◌, true,
}
use espconnect.Mdns.{service_type, service_records}
use espconnect.Mdns.Esp32.{split_record, items_from, txt_items, service, without_dot}

-- A record of a key and a value, as DNS-SD writes it.
pub print_record : Bytes × Bytes → Bytes
print_record kv = kv.0 ++ (b'=' ∷ kv.1)

pub print_records : List (Bytes × Bytes) → List Bytes
print_records [] = []
print_records (kv ∷ kvs) = print_record kv ∷ print_records kvs

-- A key has no '='.
abbrev pub IsKey : Bytes × Bytes → Type 0
IsKey kv = All (λ (c : ℕ). c ≢ b'=') (kv.0)

split_record-print :
    (key value : Bytes)
    → All (λ (c : ℕ). c ≢ b'=') key
    → split_record (key ++ (b'=' ∷ value)) ≡ some (key, value)
unfolding split_record
split_record-print [] value h = refl
split_record-print (c ∷ cs) value (other, h) =
    let e : (c == b'=') ≡ false = ground arith in rw e (rw (split_record-print cs value h) refl)

items_from-print :
    (room : ℕ) (kvs : List (Bytes × Bytes))
    → All IsKey kvs
    → items_from room (print_records kvs) ≡ take room kvs
unfolding items_from print_records print_record
items_from-print zero kvs h = refl
items_from-print (suc room) [] h = refl
items_from-print (suc room) (kv ∷ kvs) (key, h) =
    rw (items_from, split_record-print (kv.0) (kv.1) key)
      (ap (λ l. kv ∷ l) (items_from-print room kvs h))

-- A type, and what stands in front of the dot at its end, if there is one.
pub data Undotted : Bytes → Bytes → Type 0 where
  empty : Undotted [] []
  dotted : (text : Bytes) → Undotted (text ++ (46 ∷ [])) text
  undotted : (text : Bytes) (c : ℕ) → c ≢ 46 → Undotted (text ++ (c ∷ [])) (text ++ (c ∷ []))

last_byte : (text : Bytes) (c : ℕ) → get_or (text ++ (c ∷ [])) (length (text ++ (c ∷ [])) - 1) 0 ≡ c
last_byte text c =
    ap (λ n. get_or (text ++ (c ∷ [])) n 0) (omega (arith, length-append text (c ∷ [])))
    ∙ behind_text text
  where
    behind_text : (xs : Bytes) → get_or (xs ++ (c ∷ [])) (length xs) 0 ≡ c
    behind_text [] = refl
    behind_text (x ∷ xs) = behind_text xs

without_dot-Undotted :
    {type_text text : Bytes} → Undotted type_text text → without_dot type_text ≡ text
unfolding without_dot
without_dot-Undotted empty = refl
without_dot-Undotted (dotted text) =
    let some_byte : ltb 0 (length (text ++ (46 ∷ []))) ≡ true =
      ground (arith, length-append text (46 ∷ [])) in
    rw (some_byte, last_byte text 46)
      (take-append_length text (46 ∷ []) (length (text ++ (46 ∷ [])) - 1)
        (omega (arith, length-append text (46 ∷ []))))
without_dot-Undotted (undotted text c other) =
    let some_byte : ltb 0 (length (text ++ (c ∷ []))) ≡ true =
      ground (arith, length-append text (c ∷ [])) in
    let no_dot : (c == b'.') ≡ false = ground (arith, other) in
    rw (some_byte, last_byte text c) (rw no_dot refl)

-- For a type of at most 62 bytes and records that are printed from pairs whose keys have no =,
-- platform_mdns_register_service of the ESP32 hands mdns_service_add the first sixteen of these
-- pairs in their order, with the name, the port modulo 2^16 and the type: without its last byte if
-- that is a dot, as it is if not.
pub service-print_records :
    (name type_text text : Bytes) (port : ℕ) (kvs : List (Bytes × Bytes))
    → Undotted type_text text
    → All IsKey kvs
    → length type_text ≤ 62
    → service name type_text port (some (print_records kvs))
      ≡ some (record { name = name; type_text = text; port = u16 port; items = take 16 kvs })
unfolding service txt_items
service-print_records name type_text text port kvs u h short =
    let fits : leb 63 (length type_text) ≡ false = ground arith in
    rw (fits, items_from-print 16 kvs h, without_dot-Undotted u) refl

-- What zeroconf_start registers. The type keeps its domain, which mdns_service_add does not expect.
pub service-zeroconf :
    (name : Bytes) (port : ℕ)
    → service name service_type port (some service_records)
      ≡ some (record {
        name = name;
        type_text = codes "_spotify-connect._tcp.local";
        port = u16 port;
        items =
            (codes "VERSION", codes "1.0")
            ∷ (codes "CPath", codes "/spotify_info")
            ∷ (codes "Stack", codes "SP")
            ∷ [];
      })
unfolding service txt_items items_from split_record without_dot
service-zeroconf name port = refl
