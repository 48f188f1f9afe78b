-- ===== src/Https/Parsed.antt =====
-- What the parsing in platform_https_get makes of a well-formed response.
use espconnect.Common.{
  ℕ, zero, suc, ◌+◌, ◌-◌, ◌*◌, ◌/◌, ◌%◌, ◌≤◌, ◌<◌, ◌≡◌, ◌≢◌, refl, sym, ap, ◌∙◌, List, [], ◌∷◌,
  ◌++◌, append_assoc, length, Bytes, length-append, drop, drop-append_length, codes, c_string,
  behind, find_at, arith, ltb, All, All-append, ◌^◌, ◌==◌, true, false, none, some, Option,
}
use espconnect.Https.{
  is_space, skip_spaces, skip_word, is_digit, digits_value, scan_digits, signed, scan_int,
  scan_word_int, scan_status, body_of, parse_response,
}

-- A character that a line may hold: neither NUL nor a carriage return.
unfoldable pub IsText : ℕ → Type 0
IsText c = (1 ≤ c) × (c ≢ 13)

-- A header line is text, and not empty.
unfoldable pub IsLine : Bytes → Type 0
IsLine line = All IsText line × (1 ≤ length line)

unfoldable pub print_lines : List Bytes → Bytes
print_lines [] = []
print_lines (line ∷ lines) = 13 ∷ 10 ∷ (line ++ print_lines lines)

-- A response up to its body: the status line, the header lines and the empty one.
unfoldable pub print_head : ℕ → Bytes → List Bytes → Bytes
print_head code reason lines =
    codes "HTTP/1.1 "
    ++ ((48 + code / 100)
        ∷ (48 + code / 10 % 10)
        ∷ (48 + code % 10)
        ∷ 32
        ∷ (reason ++ print_lines lines))

unfoldable pub print_response : ℕ → Bytes → List Bytes → Bytes → Bytes
print_response code reason lines body = print_head code reason lines ++ (codes "\r\n\r\n" ++ body)

abbrev blank : Bytes
blank = codes "\r\n\r\n"

find_at-none :
    (needle : Bytes) (c : ℕ) (cs : Bytes)
    → behind needle (c ∷ cs) ≡ none
    → find_at needle (c ∷ cs) ≡ find_at needle cs
find_at-none needle c cs e = ap by_case e
  where
    by_case : Option Bytes → Option Bytes
    by_case o = elim o [ none ↦ find_at needle cs | some rest ↦ some (c ∷ cs) ]

find_at-skip : (c : ℕ) (cs : Bytes) → c ≢ 13 → find_at blank (c ∷ cs) ≡ find_at blank cs
find_at-skip c cs h =
    let e : (13 == c) ≡ false = ground arith in find_at-none blank c cs (rw (e, behind))

find_at-break :
    (x : ℕ) (cs : Bytes) → x ≢ 13 → find_at blank (13 ∷ 10 ∷ x ∷ cs) ≡ find_at blank (10 ∷ x ∷ cs)
find_at-break x cs h =
    let e : (13 == x) ≡ false = ground arith in find_at-none blank 13 (10 ∷ x ∷ cs) (rw (e, behind))

find_at-text : (xs rest : Bytes) → All IsText xs → find_at blank (xs ++ rest) ≡ find_at blank rest
unfolding IsText
find_at-text [] rest h = refl
find_at-text (x ∷ xs) rest h = find_at-skip x (xs ++ rest) h.0.1 ∙ find_at-text xs rest h.1

find_at-lines :
    (lines : List Bytes) (rest : Bytes)
    → All IsLine lines
    → find_at blank (print_lines lines ++ (blank ++ rest)) ≡ some (blank ++ rest)
unfolding print_lines IsLine IsText
find_at-lines [] rest h = refl
find_at-lines ([] ∷ lines) rest h = absurd (omega (arith, h.0.1))
find_at-lines ((x ∷ xs) ∷ lines) rest h =
    find_at-break x ((xs ++ print_lines lines) ++ (blank ++ rest)) h.0.0.0.1
    ∙ find_at-skip 10 (x ∷ ((xs ++ print_lines lines) ++ (blank ++ rest))) (omega arith)
    ∙ ap (find_at blank) (append_assoc (x ∷ xs) (print_lines lines) (blank ++ rest))
    ∙ find_at-text (x ∷ xs) _ h.0.0
    ∙ find_at-lines lines rest h.1

c_string-text : (xs rest : Bytes) → All IsText xs → c_string (xs ++ rest) ≡ xs ++ c_string rest
unfolding IsText
c_string-text [] rest h = refl
c_string-text (zero ∷ xs) rest h = absurd (omega (arith, h.0.0))
c_string-text (suc x ∷ xs) rest h = ap (λ r. suc x ∷ r) (c_string-text xs rest h.1)

c_string-lines :
    (lines : List Bytes) (rest : Bytes)
    → All IsLine lines
    → c_string (print_lines lines ++ rest) ≡ print_lines lines ++ c_string rest
unfolding print_lines IsLine
c_string-lines [] rest h = refl
c_string-lines (line ∷ lines) rest h =
    ap (λ r. 13 ∷ 10 ∷ r)
      (ap c_string (append_assoc line (print_lines lines) rest)
        ∙ c_string-text line (print_lines lines ++ rest) h.0.0
        ∙ ap (λ r. line ++ r) (c_string-lines lines rest h.1)
        ∙ sym (append_assoc line (print_lines lines) (c_string rest)))

is_digit-digit : (d : ℕ) → d < 10 → is_digit (48 + d) ≡ true
unfolding is_digit
is_digit-digit d h = ground arith

skip_spaces-digit : (d : ℕ) (cs : Bytes) → d < 10 → skip_spaces (32 ∷ (48 + d) ∷ cs) ≡ (48 + d) ∷ cs
unfolding skip_spaces is_space
skip_spaces-digit d cs h = rw (not_space d h)
  where
    not_space : (d : ℕ) → d < 10 → is_space (48 + d) ≡ false
    not_space d h = ground arith

signed-digit : (d : ℕ) (cs : Bytes) → d < 10 → signed ((48 + d) ∷ cs) ≡ scan_digits ((48 + d) ∷ cs)
unfolding signed
signed-digit d cs h =
    let minus : ((48 + d) == 45) ≡ false = ground arith in
    let plus : ((48 + d) == 43) ≡ false = ground arith in rw (minus, plus)

digits_value-digit :
    (n d : ℕ) (cs : Bytes) → d < 10 → digits_value n ((48 + d) ∷ cs) ≡ digits_value (n * 10 + d) cs
unfolding digits_value
digits_value-digit n d cs h =
    rw (is_digit-digit d h) (ap (λ k. digits_value (n * 10 + k) cs) (omega arith))

-- %d at three digits and a space.
scan_int-digits :
    (d0 d1 d2 : ℕ) (cs : Bytes)
    → d0 < 10
    → d1 < 10
    → d2 < 10
    → scan_int (32 ∷ (48 + d0) ∷ (48 + d1) ∷ (48 + d2) ∷ 32 ∷ cs) ≡ some (d0 * 100 + d1 * 10 + d2)
unfolding scan_int
scan_int-digits d0 d1 d2 cs h0 h1 h2 =
    ap signed (skip_spaces-digit d0 _ h0)
    ∙ signed-digit d0 _ h0
    ∙ (unfold scan_digits in
        rw (is_digit-digit d0 h0) (ap (λ n. some (n % 2 ^ 32)) valued ∙ ap some (omega arith)))
  where
    valued : digits_value 0 ((48 + d0) ∷ (48 + d1) ∷ (48 + d2) ∷ 32 ∷ cs) ≡ (d0 * 10 + d1) * 10 + d2
    valued =
        digits_value-digit 0 d0 _ h0
        ∙ digits_value-digit _ d1 _ h1
        ∙ digits_value-digit _ d2 _ h2
        ∙ (unfold digits_value is_digit in omega arith)

printable : (c : ℕ) → 14 ≤ c → IsText c
unfolding IsText
printable c h = (omega arith, λ e. absurd (omega arith))

protocol-IsText : All IsText (codes "HTTP/1.1 ")
unfolding IsText
protocol-IsText = omega arith

body_of-at :
    (buf text at : Bytes)
    → c_string buf ≡ text
    → find_at blank text ≡ some at
    → body_of buf ≡ some (drop (length text - length at + 4) buf)
unfolding body_of
body_of-at buf text at e f = ap in_text e ∙ ap behind_head f
  where
    behind_head : Option Bytes → Option Bytes
    behind_head o = elim o [
      | none ↦ none
      | some rest ↦ some (drop (length text - length rest + 4) buf)
    ]

    in_text : Bytes → Option Bytes
    in_text t = elim (find_at blank t) [
      | none ↦ none
      | some rest ↦ some (drop (length t - length rest + 4) buf)
    ]

parse_response-code :
    (buf : Bytes) (code : ℕ)
    → 12 ≤ length buf
    → scan_status (c_string buf) ≡ some code
    → parse_response buf ≡ record { status_code = code; body = body_of buf }
unfolding parse_response
parse_response-code buf code h e =
    let long : ltb (length buf) 12 ≡ false = ground arith in rw (long, e)

module _ (code : ℕ) (reason : Bytes) (lines : List Bytes) (small : code < 1000)
    (text : All IsText reason) (ok_lines : All IsLine lines) where
  abbrev status : Bytes
  status =
      codes "HTTP/1.1 "
      ++ ((48 + code / 100) ∷ (48 + code / 10 % 10) ∷ (48 + code % 10) ∷ 32 ∷ reason)

  status-IsText : All IsText status
  status-IsText =
      All-append IsText (codes "HTTP/1.1 ")
        ((48 + code / 100) ∷ (48 + code / 10 % 10) ∷ (48 + code % 10) ∷ 32 ∷ reason) protocol-IsText
        (
          printable _ (omega arith),
          (
            printable _ (omega arith),
            (printable _ (omega arith), (printable 32 (omega arith), text)),
          ),
        )

  head-split : print_head code reason lines ≡ status ++ print_lines lines
  unfolding print_head
  head-split = refl

  scanned : (rest : Bytes) → scan_status (status ++ rest) ≡ some code
  unfolding scan_status skip_spaces skip_word scan_word_int is_space
  scanned rest =
      scan_int-digits (code / 100) (code / 10 % 10) (code % 10) (reason ++ rest) (omega arith)
        (omega arith) (omega arith)
      ∙ ap some (omega arith)

  abbrev head : Bytes
  head = print_head code reason lines

  before_body : (rest : Bytes) → head ++ rest ≡ status ++ (print_lines lines ++ rest)
  before_body rest = ap (λ r. r ++ rest) head-split ∙ append_assoc status (print_lines lines) rest

  text_of : (body : Bytes) → c_string (head ++ (blank ++ body)) ≡ head ++ (blank ++ c_string body)
  text_of body =
      ap c_string (before_body (blank ++ body))
      ∙ c_string-text status _ status-IsText
      ∙ ap (λ r. status ++ r) (c_string-lines lines (blank ++ body) ok_lines)
      ∙ sym (before_body (blank ++ c_string body))

  found : (rest : Bytes) → find_at blank (head ++ (blank ++ rest)) ≡ some (blank ++ rest)
  found rest =
      ap (find_at blank) (before_body (blank ++ rest))
      ∙ find_at-text status _ status-IsText
      ∙ find_at-lines lines rest ok_lines

  -- Where the body starts.
  body_of-print : (body : Bytes) → body_of (print_response code reason lines body) ≡ some body
  unfolding print_response
  body_of-print body =
      let after = blank ++ c_string body in
      let n = length (head ++ after) - length after + 4 in
      let len = length-append head after in
      body_of-at (head ++ (blank ++ body)) (head ++ after) after (text_of body)
        (found (c_string body))
      ∙ ap some (
          ap (drop n) (sym (append_assoc head blank body))
          ∙ drop-append_length (head ++ blank) body n
              (omega (arith, len, length-append head blank)))

  pub scan_status-print :
      (body : Bytes) → scan_status (c_string (print_response code reason lines body)) ≡ some code
  unfolding print_response
  scan_status-print body =
      ap scan_status (text_of body ∙ before_body (blank ++ c_string body)) ∙ scanned _

  pub length-print : (body : Bytes) → 12 ≤ length (print_response code reason lines body)
  unfolding print_response
  length-print body = omega (
    arith,
    length-append status (print_lines lines ++ (blank ++ body)),
    ap length (before_body (blank ++ body)),
  )

  -- The parsing gives the status and the whole body of a printed response, whatever bytes the body has.
  pub parse_response-print :
      (body : Bytes)
      → parse_response (print_response code reason lines body)
        ≡ record { status_code = code; body = some body }
  parse_response-print body =
      parse_response-code (print_response code reason lines body) code (length-print body)
        (scan_status-print body)
      ∙ ap (λ b. record { status_code = code; body = b }) (body_of-print body)
