-- ===== src/Mdns/Tests.antt =====
-- Witnesses for the advertisement: what zeroconf_start registers for a device "x".
use espconnect.Common.{
  ◌≡◌, ◌+◌, ◌/◌, ◌↔◌, ◌⊎◌, refl, suc, List, [], ◌∷◌, ◌++◌, some, length, Bytes, All, codes, true,
  arith,
}
use espconnect.Mdns.{service_type, service_records}
use espconnect.Mdns.Windows.{
  Mdns, Question, announcement, query_callback, mdns_thread, dotted_type, type_ptr, type_any,
}
use espconnect.Mdns.Windows.Runs.{asked_in, mdns_thread-asked_in}
use espconnect.Mdns.Windows.Asked.{Begins, query_callback-asks_iff}
use espconnect.Mdns.Esp32.{service}
use espconnect.Mdns.Esp32.Items.{dotted, print_records, service-print_records}

abbrev responder : Mdns
responder = record {
  addr = codes "10.0.0.2";
  hostname = codes "x";
  service_name = codes "x";
  service_type = service_type;
  port = 7864;
  running = true;
  txt_records = service_records;
}

abbrev question : Question
question = record { name = codes "_spotify-connect._tcp.local."; rtype = type_ptr }

-- Four rounds, of which the second hears the question.
abbrev rounds : List (List Question)
rounds = [] ∷ (question ∷ []) ∷ [] ∷ [] ∷ []

mdns_thread-asked_in_example :
    (length (mdns_thread responder rounds) ≡ suc (asked_in responder rounds + length rounds / 3))
    × All (λ a. a ≡ announcement responder) (mdns_thread responder rounds)
mdns_thread-asked_in_example = mdns_thread-asked_in responder rounds

query_callback-asks_iff_example :
    (query_callback responder question ≡ announcement responder ∷ []) ↔ (
      ((question.rtype ≡ type_ptr) ⊎ (question.rtype ≡ type_any))
      × Begins question.name (dotted_type responder))
query_callback-asks_iff_example = query_callback-asks_iff responder question refl

abbrev pairs : List (Bytes × Bytes)
pairs = (codes "VERSION", codes "1.0") ∷ (codes "Stack", codes "a=b") ∷ []

service-print_records_example :
    service
      (codes "x")
      (codes "_spotify-connect._tcp" ++ (46 ∷ []))
      7864
      (some (print_records pairs))
    ≡ some (record {
      name = codes "x";
      type_text = codes "_spotify-connect._tcp";
      port = 7864;
      items = pairs;
    })
service-print_records_example =
    service-print_records (codes "x") _ (codes "_spotify-connect._tcp") 7864 pairs
      (dotted (codes "_spotify-connect._tcp")) (omega arith) (omega arith)
