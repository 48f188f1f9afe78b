-- ===== src/Tcp/Server/Balance.antt =====
-- The sockets that the HTTP server holds.
use espconnect.Common.{ℕ, ◌≡◌, refl, Bool, true, false, arith}
use espconnect.Tcp.Server.{server_start, server_stop}

-- Whatever fails in platform_http_server_start on POSIX, platform_http_server_stop of what it gave
-- leaves as many sockets open as there were before it.
pub server_stop-server_start :
    (opens binds listens : Bool) (sockets : ℕ)
    → server_stop
        (server_start opens binds listens sockets).0
        (server_start opens binds listens sockets).1
      ≡ sockets
unfolding server_start server_stop
server_stop-server_start false binds listens sockets = refl
server_stop-server_start true false listens sockets = omega arith
server_stop-server_start true true false sockets = omega arith
server_stop-server_start true true true sockets = omega arith
