-- ===== src/Tcp/Stream.antt =====
-- A connection as a stream of bytes, whatever way the kernel splits it.
use espconnect.Common.{
  ℕ, zero, suc, ◌+◌, ◌-◌, ◌≤◌, ◌<◌, ◌≡◌, refl, sym, ap, ◌∙◌, false, List, [], ◌∷◌, ◌++◌,
  append_assoc, append-nil, Option, none, some, length, length-append, take, drop, take-append-drop,
  Bytes, leb, ◌==◌, Bool-cases, inl, inr, arith, ◌⊎◌,
}
use espconnect.Tcp.{Conn, recv, recv_from, read_loop, tcp_read}

-- What will arrive before the first failure.
unfoldable pub stream_of : List Bytes → Bytes
stream_of [] = []
stream_of ([] ∷ later) = []
stream_of ((x ∷ xs) ∷ later) = (x ∷ xs) ++ stream_of later

unfoldable pub stream : Conn → Bytes
stream c = stream_of c.inbox

-- The connection after some bytes were read: only the inbox is another.
pub record ReadTo (c c' : Conn) (rest : Bytes) : Type 0 where
  pub remaining : stream c' ≡ rest
  pub same_quota : c'.quota ≡ c.quota
  pub same_outbox : c'.outbox ≡ c.outbox

append_split :
    (ys xs later rest : Bytes)
    → ys ++ later ≡ xs ++ rest
    → length ys ≤ length xs
    → (zs : Bytes) × (xs ≡ ys ++ zs) × (later ≡ zs ++ rest)
append_split [] xs later rest e h = (xs, refl, e)
append_split (y ∷ ys) [] later rest e h = absurd (omega arith)
append_split (y ∷ ys) (x ∷ xs) later rest e h =
    let (zs, p, q) = append_split ys xs later rest (cc) (omega arith) in (zs, cc, q)

stream_of-cons :
    (xs : Bytes) (later : List Bytes)
    → 0 < length xs
    → stream_of (xs ∷ later) ≡ xs ++ stream_of later
unfolding stream_of
stream_of-cons [] later h = absurd (omega arith)
stream_of-cons (x ∷ xs) later h = refl

take-length :
    (n : ℕ) (xs : Bytes)
    → n ≤ length xs
    → (length (take n xs) ≡ n) × (length (drop n xs) + n ≡ length xs)
take-length zero xs h = (refl, omega arith)
take-length (suc n) [] h = absurd (omega arith)
take-length (suc n) (x ∷ xs) h =
    let ih = take-length n xs (omega arith) in (omega (arith, ih.0), omega (arith, ih.1))

-- What a `recv` that found something gives back.
record Received (c : Conn) (n : ℕ) (before : Bytes) (r : Option Bytes × Conn) : Type 0 where
  got : Bytes
  after : Conn
  returns : r ≡ (some got, after)
  splits : got ++ stream after ≡ before
  some_byte : 1 ≤ length got
  fits : length got ≤ n
  same_quota : after.quota ≡ c.quota
  same_outbox : after.outbox ≡ c.outbox

recv_from-Received :
    (c : Conn) (n : ℕ) (l : List Bytes)
    → 0 < n
    → 0 < length (stream_of l)
    → Received c n (stream_of l) (recv_from c n l)
unfolding recv_from stream_of stream
recv_from-Received c n [] pos have = absurd (omega arith)
recv_from-Received c n ([] ∷ later) pos have = absurd (omega arith)
recv_from-Received c n ((x ∷ xs) ∷ later) pos have = elim (Bool-cases (leb (suc (length xs)) n)) [
  | inl e ↦ record {
    got = x ∷ xs;
    after = record c { inbox = later };
    returns = rw e;
    splits = refl;
    some_byte = omega arith;
    fits = ground arith;
    same_quota = refl;
    same_outbox = refl;
  }
  | inr e ↦
      let short : n < length (x ∷ xs) = ground arith in
      let parts = take-length n (x ∷ xs) (omega arith) in
      record {
        got = take n (x ∷ xs);
        after = record c { inbox = drop n (x ∷ xs) ∷ later };
        returns = rw e;
        splits =
            ap (λ ys. take n (x ∷ xs) ++ ys)
              (stream_of-cons (drop n (x ∷ xs)) later (omega (arith, parts.1)))
            ∙ sym (append_assoc (take n (x ∷ xs)) (drop n (x ∷ xs)) (stream_of later))
            ∙ ap (λ ys. ys ++ stream_of later) (take-append-drop n (x ∷ xs));
        some_byte = omega (arith, parts.0);
        fits = omega (arith, parts.0);
        same_quota = refl;
        same_outbox = refl;
      }
]

recv-Received :
    (c : Conn) (n : ℕ) → 0 < n → 0 < length (stream c) → Received c n (stream c) (recv c n)
unfolding recv stream
recv-Received c n pos have = recv_from-Received c n c.inbox pos have

recv-none : (c : Conn) (n : ℕ) → stream c ≡ [] → (recv c n).0 ≡ none
unfolding recv stream recv_from stream_of
recv-none c n e = by_inbox c.inbox e
  where
    by_inbox : (l : List Bytes) → stream_of l ≡ [] → (recv_from c n l).0 ≡ none
    by_inbox [] e = refl
    by_inbox ([] ∷ later) e = refl
    by_inbox ((x ∷ xs) ∷ later) e = cc

-- One round of the loop.
read_round :
    (fuel need : ℕ) (got xs : Bytes) (c c' : Conn)
    → 0 < need
    → recv c need ≡ (some xs, c')
    → read_loop (suc fuel) need got c ≡ read_loop fuel (need - length xs) (got ++ xs) c'
unfolding read_loop
read_round fuel need got xs c c' pos e =
    let more : (need == 0) ≡ false = ground arith in
    let next : Option Bytes × Conn → Option Bytes × Conn = λ r. elim r.0 [
      | none ↦ (none, r.1)
      | some ys ↦ read_loop fuel (need - length ys) (got ++ ys) r.1
    ] in
    rw more (ap next e)

read_done : (fuel : ℕ) (got : Bytes) (c : Conn) → read_loop fuel 0 got c ≡ (some got, c)
unfolding read_loop
read_done zero got c = refl
read_done (suc fuel) got c = refl

read_loop-ReadTo :
    (fuel : ℕ) (got xs rest : Bytes) (c : Conn)
    → length xs ≤ fuel
    → stream c ≡ xs ++ rest
    → (c' : Conn) × (read_loop fuel (length xs) got c ≡ (some (got ++ xs), c')) × ReadTo c c' rest
read_loop-ReadTo fuel got [] rest c h e = (
  c,
  read_done fuel got c ∙ ap (λ g. (some g, c)) (sym (append-nil got)),
  record { remaining = e; same_quota = refl; same_outbox = refl },
)
read_loop-ReadTo zero got (x ∷ xs) rest c h e = absurd (omega arith)
read_loop-ReadTo (suc fuel) got (x ∷ xs) rest c h e =
    let r = recv-Received c (length (x ∷ xs)) (omega arith) (rw e (omega arith)) in
    let (zs, left, later) =
      append_split r.got (x ∷ xs) (stream r.after) rest (r.splits ∙ e) r.fits in
    let len : length (x ∷ xs) ≡ length r.got + length zs =
      ap length left ∙ length-append r.got zs in
    let (c', run, to) =
      read_loop-ReadTo fuel (got ++ r.got) zs rest r.after (omega (arith, len, r.some_byte))
        later in
    (
      c',
      read_round fuel (length (x ∷ xs)) got r.got c r.after (omega arith) r.returns
          ∙ ap (λ n. read_loop fuel n (got ++ r.got) r.after) (omega (arith, len))
          ∙ run
          ∙ ap (λ g. (some g, c')) (append_assoc got r.got zs ∙ ap (λ g. got ++ g) (sym left)),
      record {
        remaining = to.remaining;
        same_quota = to.same_quota ∙ r.same_quota;
        same_outbox = to.same_outbox ∙ r.same_outbox;
      },
    )

-- platform_tcp_read gives the next n bytes of the stream whenever the stream has them, however the
-- kernel splits it, leaves the rest of the stream and does not touch the sending side.
pub tcp_read-ReadTo :
    (c : Conn) (n : ℕ) (xs rest : Bytes)
    → length xs ≡ n
    → stream c ≡ xs ++ rest
    → (c' : Conn) × (tcp_read c n ≡ (some xs, c')) × ReadTo c c' rest
unfolding tcp_read
tcp_read-ReadTo c n xs rest len e =
    rw (← len) (read_loop-ReadTo (length xs) [] xs rest c (omega arith) e)

read_ends :
    (fuel need : ℕ) (got : Bytes) (c : Conn)
    → 0 < need
    → (recv c need).0 ≡ none
    → (read_loop (suc fuel) need got c).0 ≡ none
unfolding read_loop
read_ends fuel need got c pos e =
    let more : (need == 0) ≡ false = ground arith in
    let next : Option Bytes → Option Bytes × Conn = λ r. elim r [
      | none ↦ (none, (recv c need).1)
      | some ys ↦ read_loop fuel (need - length ys) (got ++ ys) (recv c need).1
    ] in
    rw more (ap (λ r. (next r).0) e)

short_read :
    (fuel need : ℕ) (got : Bytes) (c : Conn)
    → length (stream c) < need
    → (read_loop fuel need got c).0 ≡ none
short_read zero need got c h = unfold read_loop in ground arith
short_read (suc fuel) need got c h = elim (nil_or_more (stream c)) [
  | inl e ↦ read_ends fuel need got c (omega arith) (recv-none c need e)
  | inr more ↦
      let r = recv-Received c need (omega arith) more in
      let len : length r.got + length (stream r.after) ≡ length (stream c) =
        sym (length-append r.got (stream r.after)) ∙ ap length r.splits in
      ap (λ q. q.0) (read_round fuel need got r.got c r.after (omega arith) r.returns)
      ∙ short_read fuel (need - length r.got) (got ++ r.got) r.after (omega (arith, len, r.fits))
]
  where
    nil_or_more : (xs : Bytes) → (xs ≡ []) ⊎ (0 < length xs)
    nil_or_more [] = inl refl
    nil_or_more (x ∷ xs) = inr (omega arith)

-- platform_tcp_read returns -1 where the stream ends before n bytes.
pub tcp_read-none : (c : Conn) (n : ℕ) → length (stream c) < n → (tcp_read c n).0 ≡ none
unfolding tcp_read
tcp_read-none c n h = short_read n n [] c h
