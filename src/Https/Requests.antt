-- ===== src/Https/Requests.antt =====
-- platform_https_get against a server that answers with a well-formed response.
use espconnect.Common.{
  ℕ, ◌+◌, ◌-◌, ◌≤◌, ◌<◌, ◌≡◌, sym, ap, ◌∙◌, Option, List, [], ◌++◌, append_assoc, length, take,
  Bytes, length-append, take-append_le, codes, arith, All, leb, ◌==◌, true, false, some,
}
use espconnect.Https.{
  Tls, IsStream, req_size, buf_size, request, read_loop, parse_response, exchange_by, exchange,
  https_get,
}
use espconnect.Spclient.{Response}
use espconnect.Https.Received.{read_loop-stream}
use espconnect.Https.Parsed.{IsText, IsLine, print_head, print_response, parse_response-print}

-- The response with the head whole and as much of the body as a buffer of `room` bytes has room for.
take-print :
    (room code : ℕ) (reason : Bytes) (lines : List Bytes) (body : Bytes)
    → length (print_head code reason lines) + 4 ≤ room
    → take room (print_response code reason lines body)
      ≡ print_response code reason lines
          (take (room - (length (print_head code reason lines) + 4)) body)
unfolding print_response
take-print room code reason lines body h =
    let head = print_head code reason lines in
    let blank = codes "\r\n\r\n" in
    let len = length-append head blank in
    ap (take room) (sym (append_assoc head blank body))
    ∙ take-append_le (head ++ blank) body room (omega (arith, len))
    ∙ append_assoc head blank _
    ∙ ap (λ n. head ++ (blank ++ take n body)) (omega (arith, len))

exchange_by-run :
    (size : ℕ) (parse : Bytes → Response) (tls : Tls) (c c' : tls.Conn) (req : Bytes)
    → length req < req_size
    → tls.write c req ≡ (length req, c')
    → exchange_by size parse tls req c ≡ some (parse (read_loop tls size size [] c').0)
unfolding exchange_by
exchange_by-run size parse tls c c' req fits written =
    let room : leb req_size (length req) ≡ false = ground arith in
    let all : (length req == length req) ≡ true = ground arith in rw (room, written, all)

-- The exchange with such a server, for a parsing that reads printed responses.
pub exchange_by-print :
    (size : ℕ) (parse : Bytes → Response) (tls : Tls) (laws : IsStream tls) (c c' : tls.Conn)
    (req : Bytes) (code : ℕ) (reason : Bytes) (lines : List Bytes) (body : Bytes)
    → length req < req_size
    → tls.write c req ≡ (length req, c')
    → laws.stream c' ≡ print_response code reason lines body
    → 2 ≤ size
    → length (print_head code reason lines) + 4 ≤ size - 1
    → ((rest : Bytes)
        → parse (print_response code reason lines rest)
          ≡ record { status_code = code; body = some rest })
    → exchange_by size parse tls req c
      ≡ some (record {
        status_code = code;
        body = some (take (size - 1 - (length (print_head code reason lines) + 4)) body);
      })
exchange_by-print size parse tls laws c c' req code reason lines body fits written sent two room
      reads =
    exchange_by-run size parse tls c c' req fits written
    ∙ ap (λ b. some (parse b))
        (read_loop-stream tls laws size size c' two (omega arith)
          ∙ ap (take (size - 1)) sent
          ∙ take-print (size - 1) code reason lines body room)
    ∙ ap some (reads _)

https_get-run :
    (tls : Tls) (c : tls.Conn) (host path : Bytes) (headers : List Bytes) (r : Option Response)
    → tls.connect host 443 ≡ some c
    → exchange tls (request host path headers) c ≡ r
    → https_get tls host path headers ≡ r
unfolding https_get
https_get-run tls c host path headers r connected answered = rw (connected, https_get) answered

-- Against a server that sends a status below 1000, a reason and header lines of text and any body,
-- with the head below the size of the buffer, a request that fits its buffer and is written whole
-- is answered by that status and the body, cut to what the buffer holds behind the head, however
-- the TLS library splits the stream.
pub https_get-print_response :
    (tls : Tls) (laws : IsStream tls) (c c' : tls.Conn) (host path : Bytes) (headers : List Bytes)
    (code : ℕ) (reason : Bytes) (lines : List Bytes) (body : Bytes)
    → tls.connect host 443 ≡ some c
    → length (request host path headers) < req_size
    → tls.write c (request host path headers) ≡ (length (request host path headers), c')
    → laws.stream c' ≡ print_response code reason lines body
    → code < 1000
    → All IsText reason
    → All IsLine lines
    → length (print_head code reason lines) + 4 ≤ 8191
    → https_get tls host path headers
      ≡ some (record {
        status_code = code;
        body = some (take (8191 - (length (print_head code reason lines) + 4)) body);
      })
unfolding exchange
https_get-print_response tls laws c c' host path headers code reason lines body connected fits
      written sent small text ok_lines room =
    https_get-run tls c host path headers _ connected (
      exchange_by-print buf_size parse_response tls laws c c' (request host path headers) code
        reason lines body fits written sent (omega arith) room
        (parse_response-print code reason lines small text ok_lines))
