-- ===== src/Tcp/Tests.antt =====
-- Witnesses for the properties of the sockets, at a connection that gives its bytes in pieces.
use espconnect.Common.{◌≡◌, refl, [], ◌∷◌, none, some, true, arith}
use espconnect.Tcp.{Conn, tcp_read, tcp_write}
use espconnect.Tcp.Stream.{stream, stream_of, ReadTo, tcp_read-ReadTo, tcp_read-none}
use espconnect.Tcp.Write.{Sent, tcp_write-Sent}
use espconnect.Tcp.Server.{server_write, server_start, server_stop}
use espconnect.Tcp.Server.Whole.{counted, server_write-tcp_write}
use espconnect.Tcp.Server.Balance.{server_stop-server_start}

-- Two pieces arrive before a failure, and a send takes two bytes, then three.
abbrev pieces : Conn
pieces = record {
  inbox = (1 ∷ 2 ∷ []) ∷ (3 ∷ 4 ∷ 5 ∷ []) ∷ [] ∷ (9 ∷ []) ∷ [];
  quota = 2 ∷ 3 ∷ [];
  outbox = [];
}

tcp_read-ReadTo_example :
    (c' : Conn) × (tcp_read pieces 3 ≡ (some (1 ∷ 2 ∷ 3 ∷ []), c')) × ReadTo pieces c' (4 ∷ 5 ∷ [])
unfolding stream stream_of
tcp_read-ReadTo_example = tcp_read-ReadTo pieces 3 (1 ∷ 2 ∷ 3 ∷ []) (4 ∷ 5 ∷ []) refl refl

tcp_read-none_example : (tcp_read pieces 6).0 ≡ none
unfolding stream stream_of
tcp_read-none_example = tcp_read-none pieces 6 (omega arith)

tcp_write-Sent_example : Sent pieces (7 ∷ 8 ∷ 9 ∷ []) (tcp_write pieces (7 ∷ 8 ∷ 9 ∷ []))
tcp_write-Sent_example = tcp_write-Sent pieces (7 ∷ 8 ∷ 9 ∷ [])

server_write-tcp_write_example :
    server_write true pieces (1 ∷ 2 ∷ 3 ∷ 4 ∷ 5 ∷ 6 ∷ [])
    ≡ counted true 6 (tcp_write pieces (1 ∷ 2 ∷ 3 ∷ 4 ∷ 5 ∷ 6 ∷ []))
server_write-tcp_write_example = server_write-tcp_write true pieces (1 ∷ 2 ∷ 3 ∷ 4 ∷ 5 ∷ 6 ∷ [])

server_stop-server_start_example :
    server_stop (server_start true true true 4).0 (server_start true true true 4).1 ≡ 4
server_stop-server_start_example = server_stop-server_start true true true 4
