-- ===== src/Tcp/Write.antt =====
-- What platform_tcp_write has sent when it returns.
use espconnect.Common.{
  ℕ, zero, suc, ◌≤◌, ◌≡◌, refl, sym, ap, ◌∙◌, ◌↔◌, Bool, true, false, List, [], ◌∷◌, ◌++◌,
  append_assoc, append-nil, Option, none, some, length, length-drop, take, drop, take-append-drop,
  Bytes, arith,
}
use espconnect.Tcp.{Conn, send, send_by, write_loop, tcp_write}

-- A front part of `xs` has been sent, all of it exactly when the result is 0; what will arrive is
-- untouched.
pub record Sent (c : Conn) (xs : Bytes) (r : Bool × Conn) : Type 0 where
  pub taken : Bytes
  pub left : Bytes
  pub parts : xs ≡ taken ++ left
  pub out : r.1.outbox ≡ c.outbox ++ taken
  pub whole : (r.0 ≡ true) ↔ (left ≡ [])
  pub same_inbox : r.1.inbox ≡ c.inbox

nothing :
    (c c' : Conn) (x : ℕ) (xs : Bytes)
    → c'.outbox ≡ c.outbox
    → c'.inbox ≡ c.inbox
    → Sent c (x ∷ xs) (false, c')
nothing c c' x xs e f = record {
  taken = [];
  left = x ∷ xs;
  parts = refl;
  out = e ∙ sym (append-nil c.outbox);
  whole = ((λ p. cc), λ p. cc);
  same_inbox = f;
}

-- One `send` of a list that is not empty takes a front part of it, and not the empty one.
pub record Took (c : Conn) (xs : Bytes) (n : ℕ) (c' : Conn) : Type 0 where
  out : c'.outbox ≡ c.outbox ++ take n xs
  same_inbox : c'.inbox ≡ c.inbox
  pub some_byte : 1 ≤ n
  pub fits : n ≤ length xs

-- Either `send` failed, or it took something.
pub data Step (c : Conn) (xs : Bytes) : Option ℕ × Conn → Type 0 where
  failed : (c' : Conn) → c'.outbox ≡ c.outbox → c'.inbox ≡ c.inbox → Step c xs (none, c')
  took : (n : ℕ) (c' : Conn) → Took c xs n c' → Step c xs (some n, c')

send_by-Step : (c : Conn) (x : ℕ) (xs : Bytes) (l : List ℕ) → Step c (x ∷ xs) (send_by c (x ∷ xs) l)
unfolding send_by
send_by-Step c x xs [] = failed c refl refl
send_by-Step c x xs (zero ∷ later) = failed (record c { quota = later }) refl refl
send_by-Step c x xs (suc q ∷ later) =
    took _ _
      (record { out = refl; same_inbox = refl; some_byte = ground arith; fits = ground arith })

pub send-Step : (c : Conn) (x : ℕ) (xs : Bytes) → Step c (x ∷ xs) (send c (x ∷ xs))
unfolding send
send-Step c x xs = send_by-Step c x xs c.quota

-- What the rest of the loop sent, behind what this round took.
later_sent :
    (c c' : Conn) (n : ℕ) (xs : Bytes) (r : Bool × Conn)
    → Took c xs n c'
    → Sent c' (drop n xs) r
    → Sent c xs r
later_sent c c' n xs r t s = record {
  taken = take n xs ++ s.taken;
  left = s.left;
  parts =
      sym (take-append-drop n xs)
      ∙ ap (λ ys. take n xs ++ ys) s.parts
      ∙ sym (append_assoc (take n xs) s.taken s.left);
  out = s.out ∙ ap (λ ys. ys ++ s.taken) t.out ∙ append_assoc c.outbox (take n xs) s.taken;
  whole = s.whole;
  same_inbox = s.same_inbox ∙ t.same_inbox;
}

write_rest : ℕ → Bytes → Option ℕ × Conn → Bool × Conn
write_rest fuel xs r = elim r.0 [ none ↦ (false, r.1) | some n ↦ write_loop fuel (drop n xs) r.1 ]

round_sent :
    (fuel x : ℕ) (xs : Bytes) (c : Conn)
    → ((ys : Bytes) (c' : Conn) → length ys ≤ fuel → Sent c' ys (write_loop fuel ys c'))
    → length (x ∷ xs) ≤ suc fuel
    → (r : Option ℕ × Conn) → Step c (x ∷ xs) r
    → Sent c (x ∷ xs) (write_rest fuel (x ∷ xs) r)
unfolding write_rest
round_sent fuel x xs c ih h r (failed c' e f) = nothing c c' x xs e f
round_sent fuel x xs c ih h r (took n c' t) =
    let shorter : length (drop n (x ∷ xs)) ≤ fuel =
      omega (arith, length-drop n (x ∷ xs), t.some_byte) in
    later_sent c c' n (x ∷ xs) _ t (ih (drop n (x ∷ xs)) c' shorter)

write_loop-Sent :
    (fuel : ℕ) (xs : Bytes) (c : Conn) → length xs ≤ fuel → Sent c xs (write_loop fuel xs c)
unfolding write_loop write_rest
write_loop-Sent zero [] c h = record {
  taken = [];
  left = [];
  parts = refl;
  out = sym (append-nil c.outbox);
  whole = ((λ p. refl), λ p. refl);
  same_inbox = refl;
}
write_loop-Sent zero (x ∷ xs) c h = absurd (omega arith)
write_loop-Sent (suc fuel) [] c h = record {
  taken = [];
  left = [];
  parts = refl;
  out = sym (append-nil c.outbox);
  whole = ((λ p. refl), λ p. refl);
  same_inbox = refl;
}
write_loop-Sent (suc fuel) (x ∷ xs) c h =
    round_sent fuel x xs c (write_loop-Sent fuel) h (send c (x ∷ xs)) (send-Step c x xs)

-- platform_tcp_write has always sent a front part of the buffer, and all of it exactly when it
-- returns 0, and reads nothing.
pub tcp_write-Sent : (c : Conn) (xs : Bytes) → Sent c xs (tcp_write c xs)
unfolding tcp_write
tcp_write-Sent c xs = write_loop-Sent (length xs) xs c (omega arith)
