-- ===== src/Mdns/Esp32.antt =====
-- The registration of a service in src/platform_esp32.c: what mdns_service_add of ESP-IDF is given.
pub mod Items
use espconnect.Common.{
  ℕ, zero, suc, ◌-◌, Bool, List, [], ◌∷◌, ◌++◌, Option, none, some, length, take, get_or, Bytes,
  codes, u16, ltb, leb, ◌==◌, ◌&&◌, if◌then◌else◌,
}

-- strchr(kv, '='): the key and the value of a record.
pub split_record : Bytes → Option (Bytes × Bytes)
split_record [] = none
split_record (c ∷ cs) =
    let later : Option (Bytes × Bytes) = elim (split_record cs) [
      | none ↦ none
      | some kv ↦ some (c ∷ kv.0, kv.1)
    ] in
    if c == b'=' then some ([], cs) else later

-- for (i = 0; txt_records[i] && txt_count < 16; i++), by the items that still fit.
pub items_from : ℕ → List Bytes → List (Bytes × Bytes)
items_from zero records = []
items_from (suc room) [] = []
items_from (suc room) (t ∷ ts) = elim (split_record t) [
  | none ↦ items_from (suc room) ts
  | some kv ↦ kv ∷ items_from room ts
]

pub txt_items : Option (List Bytes) → List (Bytes × Bytes)
txt_items none = []
txt_items (some records) = items_from 16 records

-- if (tlen > 0 && type_buf[tlen - 1] == '.') type_buf[tlen - 1] = '\0'
pub without_dot : Bytes → Bytes
without_dot text =
    if ltb 0 (length text) && (get_or text (length text - 1) 0 == b'.')
    then take (length text - 1) text
    else text

pub record Service : Type 0 where
  pub name : Bytes
  pub type_text : Bytes
  pub port : ℕ
  pub items : List (Bytes × Bytes)

-- The service of a name, type, port and records. `none` where strncpy leaves the buffer of the type,
-- which is not zeroed, without a NUL.
pub service : Bytes → Bytes → ℕ → Option (List Bytes) → Option Service
service name type_text port records =
    if leb 63 (length type_text)
    then none
    else some (record {
      name = name;
      type_text = without_dot type_text;
      port = u16 port;
      items = txt_items records;
    })
