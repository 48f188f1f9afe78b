-- ===== src/Tcp/Server.antt =====
-- The HTTP server of the pairing in src/platform_posix.c, platform_http_server_start, _stop, _accept, _read
-- and _write, and the _write of the other two ports. What the kernel does at a call is an argument; the
-- number of sockets that are open is passed along.
pub mod Whole
pub mod Balance
use espconnect.Common.{
  ℕ, zero, suc, ◌+◌, ◌-◌, Bool, true, not, Option, none, some, length, drop, u32, Bytes, [], ◌∷◌,
  if◌then◌else◌,
}
use espconnect.Tcp.{Conn, recv, send}

pub record Server : Type 0 where
  pub running : Bool

-- Whether the socket opens, whether bind succeeds and whether listen does; each failure but the first
-- closes the socket.
pub server_start : Bool → Bool → Bool → ℕ → Option Server × ℕ
server_start opens binds listens sockets =
    if not opens
    then (none, sockets)
    else if not binds
    then (none, suc sockets - 1)
    else if not listens
    then (none, suc sockets - 1)
    else (some (record { running = true }), suc sockets)

pub server_stop : Option Server → ℕ → ℕ
server_stop none sockets = sockets
server_stop (some srv) sockets = sockets - 1

-- Whether poll finds something before its time is over, and what accept gives.
pub server_accept : Bool → Option Conn → ℕ → Option Conn × ℕ
server_accept ready none sockets = (none, sockets)
server_accept ready (some c) sockets = if not ready then (none, sockets) else (some c, suc sockets)

-- recv of one byte less than the buffer has.
pub server_read : Conn → ℕ → Option Bytes × Conn
server_read c max_len = recv c (max_len - 1)

-- What becomes of a write: SIGPIPE ends the process, -1 is returned, or the number of bytes as an int, on
-- its 32 bits.
pub data Written : Type 0 where
  killed : Written
  failed : Written
  written : ℕ → Written

-- A send that fails. Its flags are 0, so that on a connection that the other end has closed it raises
-- SIGPIPE: `raises` tells whether that is why it fails, and the signal is not ignored.
pub broken : Bool → Written
broken raises = if raises then killed else failed

-- while (off < len), on the bytes behind off: each round takes one at least, so that as many rounds as
-- bytes are enough.
pub server_write_loop : Bool → ℕ → ℕ → Bytes → Conn → Written × Conn
server_write_loop raises zero off [] c = (written (u32 off), c)
server_write_loop raises zero off (x ∷ xs) c = (broken raises, c)
server_write_loop raises (suc fuel) off [] c = (written (u32 off), c)
server_write_loop raises (suc fuel) off (x ∷ xs) c =
    let (w, c') = send c (x ∷ xs) in
    elim w [
      | none ↦ (broken raises, c')
      | some n ↦ server_write_loop raises fuel (off + n) (drop n (x ∷ xs)) c'
    ]

pub server_write : Bool → Conn → Bytes → Written × Conn
server_write raises c xs = server_write_loop raises (length xs) 0 xs c

-- platform_http_server_write of src/platform_esp32.c and src/platform_windows.c: one send, where no signal
-- is raised.
pub write_once : Conn → Bytes → Written × Conn
write_once c xs =
    let (w, c') = send c xs in elim w [ none ↦ (failed, c') | some n ↦ (written (u32 n), c') ]
