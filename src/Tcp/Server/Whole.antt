-- ===== src/Tcp/Server/Whole.antt =====
-- platform_http_server_write against platform_tcp_write.
use espconnect.Common.{
  ℕ, zero, suc, ◌+◌, ◌≡◌, refl, ap, ◌∙◌, Bool, true, false, Option, none, some, length, length-drop,
  drop, u32, Bytes, [], ◌∷◌, arith,
}
use espconnect.Tcp.{Conn, send, write_loop, tcp_write}
use espconnect.Tcp.Write.{Step, took, send-Step}
use espconnect.Tcp.Write.{failed as none_taken}
use espconnect.Tcp.Server.{
  Written, killed, failed, written, broken, server_write_loop, server_write,
}

-- The result of the one loop by that of the other, which raises no signal.
pub counted : Bool → ℕ → Bool × Conn → Written × Conn
counted raises n (true, c) = (written (u32 n), c)
counted true n (false, c) = (killed, c)
counted false n (false, c) = (failed, c)

abbrev next_server : Bool → ℕ → ℕ → Bytes → Option ℕ × Conn → Written × Conn
next_server raises fuel off xs r = elim r.0 [
  | none ↦ (broken raises, r.1)
  | some n ↦ server_write_loop raises fuel (off + n) (drop n xs) r.1
]

abbrev next_tcp : ℕ → Bytes → Option ℕ × Conn → Bool × Conn
next_tcp fuel xs r = elim r.0 [ none ↦ (false, r.1) | some n ↦ write_loop fuel (drop n xs) r.1 ]

broken-counted :
    (raises : Bool) (n : ℕ) (c : Conn) → (broken raises, c) ≡ counted raises n (false, c)
unfolding broken counted
broken-counted true n c = refl
broken-counted false n c = refl

whole-counted :
    (raises : Bool) (off : ℕ) (c : Conn)
    → (written (u32 off), c) ≡ counted raises (off + 0) (true, c)
unfolding counted
whole-counted raises off c = ap (λ k. (written (u32 k), c)) (omega arith)

next-counted :
    (raises : Bool) (fuel off : ℕ) (xs : Bytes) (c : Conn)
    → ((o : ℕ) (ys : Bytes) (c' : Conn)
        → server_write_loop raises fuel o ys c'
          ≡ counted raises (o + length ys) (write_loop fuel ys c'))
    → (r : Option ℕ × Conn) → Step c xs r
    → next_server raises fuel off xs r ≡ counted raises (off + length xs) (next_tcp fuel xs r)
next-counted raises fuel off xs c ih r (none_taken c' e f) = broken-counted raises _ c'
next-counted raises fuel off xs c ih r (took n c' t) =
    ih (off + n) (drop n xs) c'
    ∙ ap (λ k. counted raises k (write_loop fuel (drop n xs) c'))
        (omega (arith, length-drop n xs, t.fits))

loop-counted :
    (raises : Bool) (fuel off : ℕ) (xs : Bytes) (c : Conn)
    → server_write_loop raises fuel off xs c
      ≡ counted raises (off + length xs) (write_loop fuel xs c)
unfolding server_write_loop write_loop
loop-counted raises zero off [] c = whole-counted raises off c
loop-counted raises zero off (x ∷ xs) c = broken-counted raises _ c
loop-counted raises (suc fuel) off [] c = whole-counted raises off c
loop-counted raises (suc fuel) off (x ∷ xs) c =
    next-counted raises fuel off (x ∷ xs) c (loop-counted raises fuel) (send c (x ∷ xs))
      (send-Step c x xs)

-- On POSIX, platform_http_server_write does to the connection what platform_tcp_write does; it
-- gives the number of bytes, as an int, where that gives 0, and where that fails it gives -1, or
-- SIGPIPE ends the process if the failing send raises it.
pub server_write-tcp_write :
    (raises : Bool) (c : Conn) (xs : Bytes)
    → server_write raises c xs ≡ counted raises (length xs) (tcp_write c xs)
unfolding server_write tcp_write
server_write-tcp_write raises c xs =
    loop-counted raises (length xs) 0 xs c
    ∙ ap (λ k. counted raises k (write_loop (length xs) xs c)) (omega arith)
