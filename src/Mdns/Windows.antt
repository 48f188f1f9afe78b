-- ===== src/Mdns/Windows.antt =====
-- The mDNS responder of src/platform_windows.c. Sending a packet and listening to the socket are calls of
-- the library mdns.h: what is sent is the records that mdns_announce_multicast is given, and what is heard
-- is a list of questions for each round of the thread. The texts are C strings without their NUL.
pub mod Runs
pub mod Asked
use espconnect.Common.{
  ℕ, zero, suc, Bool, true, false, List, [], ◌∷◌, ◌++◌, Option, none, some, length, take, Bytes,
  codes, c_string, u16, leb, ◌==◌, ◌&&◌, ◌||◌, if◌then◌else◌,
}

-- The members of mdns_record_t that the source sets, by its type.
pub data Rdata : Type 0 where
  ptr_data : Bytes → Rdata
  srv_data : Bytes → ℕ → ℕ → ℕ → Rdata
  a_data : Bytes → Rdata
  txt_data : Bytes → Bytes → Rdata

pub record Record : Type 0 where
  pub name : Bytes
  pub rdata : Rdata

-- `addr` is the address that getsockname gave; sock and thread are handles of the system.
pub record Mdns : Type 0 where
  pub addr : Bytes
  pub hostname : Bytes
  pub service_name : Bytes
  pub service_type : Bytes
  pub port : ℕ
  pub running : Bool
  pub txt_records : List Bytes

-- The Boolean tells whether the socket of mdns.h opens.
unfoldable pub start : Bytes → Bool → Bytes → Option Mdns
start addr opens hostname =
    if opens
    then some (record {
      addr = addr;
      hostname = take 63 hostname;
      service_name = [];
      service_type = [];
      port = 0;
      running = false;
      txt_records = [];
    })
    else none

-- while (txt_records && txt_records[txt_count] && txt_count < 16)
pub copy_records : Option (List Bytes) → List Bytes
copy_records none = []
copy_records (some records) = take 16 records

-- platform_mdns_register_service, which starts the thread.
unfoldable pub register_service : Mdns → Bytes → Bytes → ℕ → Option (List Bytes) → Mdns
register_service m name type_text port records = record m {
  service_name = take 63 name;
  service_type = take 63 type_text;
  port = port;
  txt_records = copy_records records;
  running = true;
}

pub create_ptr_record : Bytes → Bytes → Record
create_ptr_record service instance_name = record { name = service; rdata = ptr_data instance_name }

-- The port is an uint16_t of the record.
pub create_srv_record : Mdns → Bytes → Bytes → Record
create_srv_record m instance_name host = record {
  name = instance_name;
  rdata = srv_data host (u16 m.port) 0 0;
}

pub create_a_record : Mdns → Bytes → Record
create_a_record m host = record { name = host; rdata = a_data m.addr }

pub create_txt_record : Bytes → Bytes → Record
create_txt_record instance_name keyval = record { name = instance_name; rdata = txt_data keyval [] }

pub txt_list : Bytes → List Bytes → List Record
txt_list instance_name [] = []
txt_list instance_name (t ∷ ts) = create_txt_record instance_name t ∷ txt_list instance_name ts

pub record Announcement : Type 0 where
  pub answer : Record
  pub additional : List Record

-- snprintf of the type and a dot into 128 bytes.
pub dotted_type : Mdns → Bytes
dotted_type m = take 127 (m.service_type ++ codes ".")

-- send_announcement: what mdns_announce_multicast is given.
pub announcement : Mdns → Announcement
announcement m =
    let svc = dotted_type m in
    let inst = take 255 (m.service_name ++ (codes "." ++ svc)) in
    let host = take 127 (m.hostname ++ codes ".local.") in
    record {
      answer = create_ptr_record svc inst;
      additional =
          create_srv_record m inst host ∷ create_a_record m host ∷ txt_list inst m.txt_records;
    }

-- strncmp(a, b, n) == 0; the end of a list is the NUL.
pub same_front : ℕ → Bytes → Bytes → Bool
same_front zero xs ys = true
same_front (suc n) [] [] = true
same_front (suc n) [] (y ∷ ys) = false
same_front (suc n) (x ∷ xs) [] = false
same_front (suc n) (x ∷ xs) (y ∷ ys) = (x == y) && same_front n xs ys

-- A question: the name that mdns_string_extract gives, and its type.
pub record Question : Type 0 where
  pub name : Bytes
  pub rtype : ℕ

-- MDNS_RECORDTYPE_PTR and MDNS_RECORDTYPE_ANY.
abbrev pub type_ptr : ℕ
type_ptr = 12

abbrev pub type_any : ℕ
type_any = 255

pub is_asked : Mdns → Question → Bool
is_asked m q =
    ((q.rtype == type_ptr) || (q.rtype == type_any))
    && same_front (length q.name) (c_string q.name) (dotted_type m)

-- mdns_query_callback: what it sends.
pub query_callback : Mdns → Question → List Announcement
query_callback m q = if is_asked m q then announcement m ∷ [] else []

-- mdns_socket_listen calls it for each question of a round.
pub answers : Mdns → List Question → List Announcement
answers m [] = []
answers m (q ∷ qs) = query_callback m q ++ answers m qs

-- One round of the thread: what it sends, and the counter behind it.
pub round : Mdns → ℕ → List Question → List Announcement × ℕ
round m loop_counter heard =
    if leb 3 (suc loop_counter)
    then (answers m heard ++ (announcement m ∷ []), 0)
    else (answers m heard, suc loop_counter)

-- while (m->running): the rounds until platform_mdns_stop clears it, with what each of them hears.
pub thread_loop : Mdns → ℕ → List (List Question) → List Announcement
thread_loop m loop_counter [] = []
thread_loop m loop_counter (heard ∷ later) =
    let (sent, next) = round m loop_counter heard in sent ++ thread_loop m next later

pub mdns_thread : Mdns → List (List Question) → List Announcement
mdns_thread m rounds = announcement m ∷ thread_loop m 0 rounds
