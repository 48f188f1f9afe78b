-- ===== src/Mdns.antt =====
-- The advertisement of the pairing service over mDNS: src/platform_windows.c, which answers by itself over
-- the library mdns.h, and src/platform_esp32.c, which hands the service to the one of ESP-IDF. The POSIX
-- port does nothing.
pub mod Windows
pub mod Esp32
mod Tests
use espconnect.Common.{List, [], ◌∷◌, Bytes, codes}

-- What zeroconf_start registers, besides the device name and the port.
abbrev pub service_type : Bytes
service_type = codes "_spotify-connect._tcp.local"

abbrev pub service_records : List Bytes
service_records = codes "VERSION=1.0" ∷ codes "CPath=/spotify_info" ∷ codes "Stack=SP" ∷ []
