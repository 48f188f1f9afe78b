-- ===== src/Https/Windows/Answers.antt =====
-- platform_https_get of Windows against a server that answers with a well-formed response, and its parsing
-- against that of POSIX.
use espconnect.Common.{
  ℕ, ◌+◌, ◌-◌, ◌≤◌, ◌<◌, ◌≡◌, refl, ◌∙◌, Option, List, some, length, take, Bytes, c_string, ltb,
  All, arith, Bool-cases, inl, inr,
}
use espconnect.Spclient.{Response}
use espconnect.Https.{Tls, IsStream, req_size, request, scan_status, exchange_by}
use espconnect.Https.{parse_response as posix_parse_response}
use espconnect.Https.Parsed.{
  IsText, IsLine, print_head, print_response, scan_status-print, parse_response-print,
}
use espconnect.Https.Requests.{exchange_by-print}
use espconnect.Https.Windows.{buf_size, status_of, parse_response, https_get}

-- Where there is a status, the parsing of the two ports is one.
pub parse_response-posix :
    (buf : Bytes) (code : ℕ)
    → scan_status (c_string buf) ≡ some code
    → parse_response buf ≡ posix_parse_response buf
unfolding parse_response posix_parse_response status_of
parse_response-posix buf code e = elim (Bool-cases (ltb (length buf) 12)) [
  | inl short ↦ rw short refl
  | inr long ↦ rw (long, e) refl
]

run :
    (tls : Tls) (c : tls.Conn) (host path : Bytes) (headers : List Bytes) (r : Option Response)
    → tls.connect host 443 ≡ some c
    → exchange_by buf_size parse_response tls (request host path headers) c ≡ r
    → https_get tls host path headers ≡ r
unfolding https_get
run tls c host path headers r connected answered = rw (connected, https_get) answered

-- On Windows, against a server that sends a status below 1000, a reason and header lines of text
-- and any body, with the head below the size of the buffer of 32768 bytes, a request that fits its
-- buffer and is written whole is answered by that status and the body, cut to what the buffer holds
-- behind the head, however the TLS library splits the stream.
pub windows_https_get-print_response :
    (tls : Tls) (laws : IsStream tls) (c c' : tls.Conn) (host path : Bytes) (headers : List Bytes)
    (code : ℕ) (reason : Bytes) (lines : List Bytes) (body : Bytes)
    → tls.connect host 443 ≡ some c
    → length (request host path headers) < req_size
    → tls.write c (request host path headers) ≡ (length (request host path headers), c')
    → laws.stream c' ≡ print_response code reason lines body
    → code < 1000
    → All IsText reason
    → All IsLine lines
    → length (print_head code reason lines) + 4 ≤ 32767
    → https_get tls host path headers
      ≡ some (record {
        status_code = code;
        body = some (take (32767 - (length (print_head code reason lines) + 4)) body);
      })
windows_https_get-print_response tls laws c c' host path headers code reason lines body connected
      fits written sent small text ok_lines room =
    run tls c host path headers _ connected (
      exchange_by-print buf_size parse_response tls laws c c' (request host path headers) code
        reason lines body fits written sent (omega arith) room
        (λ rest.
          parse_response-posix (print_response code reason lines rest) code
            (scan_status-print code reason lines small text ok_lines rest)
          ∙ parse_response-print code reason lines small text ok_lines rest))
