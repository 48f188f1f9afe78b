-- ===== src/Tcp.antt =====
-- The sockets of src/platform_posix.c: platform_tcp_connect, platform_tcp_read, platform_tcp_write and
-- platform_tcp_close, over what the kernel does at each call.
-- A connection lists what the kernel will do: each element of `inbox` is what one `recv` finds, an
-- empty one (and the end of the list) stands for a result of 0 or -1; each element of `quota` is how
-- many bytes one `send` takes at most, 0 (and the end) for a failure. `outbox` is what has been sent.
-- The lists are arbitrary, so every way in which the kernel splits the stream is covered.
pub mod Stream
pub mod Write
pub mod Server
mod Tests
use espconnect.Common.{
  ℕ, zero, suc, ◌+◌, ◌-◌, Bool, true, false, List, [], ◌∷◌, ◌++◌, Option, none, some, length, take,
  drop, Bytes, leb, ◌==◌, ◌&&◌, if◌then◌else◌,
}

pub record Conn : Type 0 where
  pub inbox : List Bytes
  pub quota : List ℕ
  pub outbox : Bytes

-- recv(sock, buf, n, 0), by what it finds.
unfoldable pub recv_from : Conn → ℕ → List Bytes → Option Bytes × Conn
recv_from c n [] = (none, c)
recv_from c n ([] ∷ later) = (none, record c { inbox = later })
recv_from c n ((x ∷ xs) ∷ later) =
    if leb (length (x ∷ xs)) n
    then (some (x ∷ xs), record c { inbox = later })
    else (some (take n (x ∷ xs)), record c { inbox = drop n (x ∷ xs) ∷ later })

unfoldable pub recv : Conn → ℕ → Option Bytes × Conn
recv c n = recv_from c n c.inbox

-- send(sock, buf, n, MSG_NOSIGNAL): how many bytes it took, by its quota.
send_by : Conn → Bytes → List ℕ → Option ℕ × Conn
send_by c xs [] = (none, c)
send_by c xs (zero ∷ later) = (none, record c { quota = later })
send_by c xs (suc q ∷ later) =
    let n = if leb (length xs) (suc q) then length xs else suc q in
    (some n, record c { quota = later; outbox = c.outbox ++ take n xs })

pub send : Conn → Bytes → Option ℕ × Conn
send c xs = send_by c xs c.quota

-- while (off < n) of platform_tcp_read: `need` is `n - off`, and each round with it positive takes
-- one byte at least, so that `n` rounds are enough. `none` is the result -1.
read_loop : ℕ → ℕ → Bytes → Conn → Option Bytes × Conn
read_loop zero need got c = (if need == 0 then some got else none, c)
read_loop (suc fuel) need got c =
    let (r, c') = recv c need in
    let next : Option Bytes × Conn = elim r [
      | none ↦ (none, c')
      | some xs ↦ read_loop fuel (need - length xs) (got ++ xs) c'
    ] in
    if need == 0 then (some got, c) else next

pub tcp_read : Conn → ℕ → Option Bytes × Conn
tcp_read c n = read_loop n n [] c

-- platform_tcp_write, in the same way; `true` is the result 0.
write_loop : ℕ → Bytes → Conn → Bool × Conn
write_loop zero [] c = (true, c)
write_loop zero (x ∷ xs) c = (false, c)
write_loop (suc fuel) [] c = (true, c)
write_loop (suc fuel) (x ∷ xs) c =
    let (w, c') = send c (x ∷ xs) in
    elim w [ none ↦ (false, c') | some n ↦ write_loop fuel (drop n (x ∷ xs)) c' ]

pub tcp_write : Conn → Bytes → Bool × Conn
tcp_write c xs = write_loop (length xs) xs c

-- One address that getaddrinfo returned: whether its family is AF_INET, whether `socket` succeeds on
-- it, and the connection if `connect` does.
pub record Address : Type 0 where
  pub inet : Bool
  pub socket_opens : Bool
  pub connects : Option Conn

-- The loop of platform_tcp_connect over the addresses; `none` is PLATFORM_SOCKET_INVALID.
connect_loop : List Address → Option Conn
connect_loop [] = none
connect_loop (a ∷ rest) =
    let next = connect_loop rest in
    if a.inet && a.socket_opens then elim a.connects [ none ↦ next | some c ↦ some c ] else next

-- `none` as the argument: getaddrinfo failed.
pub tcp_connect : Option (List Address) → Option Conn
tcp_connect none = none
tcp_connect (some addresses) = connect_loop addresses
