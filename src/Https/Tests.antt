-- ===== src/Https/Tests.antt =====
-- Witnesses for the properties of the HTTPS client, at a connection that gives five bytes at most to
-- each read and answers every request with one response.
use espconnect.Common.{
  ℕ, ◌+◌, ◌-◌, ◌≤◌, ◌<◌, ◌≡◌, refl, List, [], ◌∷◌, length, take, drop, Bytes, codes, arith, some,
  All, length-take, take-append-drop,
}
use Prim.Native.Nat.{min}
use espconnect.Https.{Tls, IsStream, https_get, request, header_lines}
use espconnect.Https.Parsed.{IsText, IsLine, print_head, print_lines, print_response}
use espconnect.Https.Requests.{https_get-print_response}
use espconnect.Https.Windows
use espconnect.Https.Windows.Answers.{windows_https_get-print_response}

abbrev lines : List Bytes
lines = codes "Content-Length: 2" ∷ []

abbrev answer : Bytes
answer = print_response 206 (codes "OK") lines (7 ∷ 0 ∷ [])

abbrev five_at_most : Tls
five_at_most = record {
  Conn = Bytes;
  connect = λ host port. some [];
  write = λ c req. (length req, answer);
  read = λ c n. (take (min 5 n) c, drop (min 5 n) c);
}

take-length_le : (k n : ℕ) (c : Bytes) → k ≤ n → length (take k c) ≤ n
take-length_le k n c h = omega (arith, length-take k c)

abbrev five_stream : IsStream five_at_most
five_stream = record {
  stream = λ c. c;
  front = λ c n h. take-append-drop (min 5 n) c;
  some_byte = λ c n h more. omega (arith, length-take (min 5 n) c);
  fits = λ c n. take-length_le (min 5 n) n c (omega arith);
}

lines-IsLine : All IsLine lines
unfolding IsLine IsText
lines-IsLine = omega arith

ok-IsText : All IsText (codes "OK")
unfolding IsText
ok-IsText = omega arith

request-small : length (request (codes "h") (codes "/p") []) < 4096
unfolding request header_lines
request-small = omega arith

head-small : length (print_head 206 (codes "OK") lines) + 4 ≤ 8191
unfolding print_head print_lines
head-small = omega arith

https_get-print_response_example :
    https_get five_at_most (codes "h") (codes "/p") []
    ≡ some (record {
      status_code = 206;
      body = some (take (8191 - (length (print_head 206 (codes "OK") lines) + 4)) (7 ∷ 0 ∷ []));
    })
https_get-print_response_example =
    https_get-print_response five_at_most five_stream [] answer (codes "h") (codes "/p") [] 206
      (codes "OK") lines (7 ∷ 0 ∷ []) refl request-small refl refl (omega arith) ok-IsText
      lines-IsLine head-small

head_small-windows : length (print_head 206 (codes "OK") lines) + 4 ≤ 32767
unfolding print_head print_lines
head_small-windows = omega arith

windows_https_get-print_response_example :
    Windows.https_get five_at_most (codes "h") (codes "/p") []
    ≡ some (record {
      status_code = 206;
      body = some (take (32767 - (length (print_head 206 (codes "OK") lines) + 4)) (7 ∷ 0 ∷ []));
    })
windows_https_get-print_response_example =
    windows_https_get-print_response five_at_most five_stream [] answer (codes "h") (codes "/p") []
      206 (codes "OK") lines (7 ∷ 0 ∷ []) refl request-small refl refl (omega arith) ok-IsText
      lines-IsLine head_small-windows
