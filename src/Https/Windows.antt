-- ===== src/Https/Windows.antt =====
-- The HTTPS client of src/platform_windows.c: the request and the read loop of the POSIX one, over a buffer
-- of 32768 bytes, and a parsing that takes the body whether or not there is a status.
pub mod Answers
use espconnect.Common.{ℕ, List, Option, none, some, length, Bytes, c_string, ltb, if◌then◌else◌}
use espconnect.Spclient.{Response}
use espconnect.Https.{Tls, request, no_response, scan_status, body_of, exchange_by}

abbrev pub buf_size : ℕ
buf_size = 32768

-- resp.status_code stays 0 where sscanf does not read a number.
pub status_of : Option ℕ → ℕ
status_of none = 0
status_of (some code) = code

pub parse_response : Bytes → Response
parse_response buf =
    if ltb (length buf) 12
    then no_response
    else record { status_code = status_of (scan_status (c_string buf)); body = body_of buf }

pub https_get : Tls → Bytes → Bytes → List Bytes → Option Response
https_get tls host path headers = elim (tls.connect host 443) [
  | none ↦ some no_response
  | some c ↦ exchange_by buf_size parse_response tls (request host path headers) c
]
