-- ===== src/Proto/Messages/Tests.antt =====
-- Witnesses for the messages, with a short username and key.
use espconnect.Common.{◌≡◌, [], ◌∷◌, some, Bytes, codes, arith}
use espconnect.Proto.{Buf}
use espconnect.Proto.Message.{number, content, IsMessage}
use espconnect.Proto.Messages.{build_client_hello, build_login_request}
use espconnect.Proto.Messages.Built.{build_login_request-IsMessage, build_client_hello-IsMessage}

build_login_request-IsMessage_example :
    (out : Buf) × (credentials : Bytes) × (system : Bytes) × (build_login_request
        (codes "abc")
        1
        (some (codes "u"))
        (codes "d")
      ≡ some out)
    × IsMessage
        (content 10 credentials ∷ content 50 system ∷ content 70 (codes "cspot-1.1") ∷ [])
        out.bytes
    × IsMessage (content 10 (codes "u") ∷ number 20 1 ∷ content 30 (codes "abc") ∷ []) credentials
    × IsMessage
        (number 10 0
          ∷ number 60 0
          ∷ content 90 (codes "cspot-player")
          ∷ content 100 (codes "d")
          ∷ [])
        system
build_login_request-IsMessage_example =
    build_login_request-IsMessage (codes "abc") 1 (some (codes "u")) (codes "d") (omega arith)
      (omega arith) (omega arith) (omega arith)

build_client_hello-IsMessage_example :
    (out : Buf) × (info : Bytes) × (hello : Bytes) × (dh : Bytes) × (features : Bytes)
    × (build_client_hello (7 ∷ 8 ∷ []) (9 ∷ []) ≡ some out)
    × IsMessage
        (content 10 info
          ∷ number 30 0
          ∷ content 50 hello
          ∷ content 60 (9 ∷ [])
          ∷ content 70 (0x1E ∷ [])
          ∷ content 80 features
          ∷ [])
        out.bytes
    × IsMessage (number 10 0 ∷ number 30 2 ∷ number 40 0x10800000000 ∷ []) info
    × IsMessage (content 10 dh ∷ []) hello
    × IsMessage (content 10 (7 ∷ 8 ∷ []) ∷ number 20 1 ∷ []) dh
    × IsMessage (number 1 1 ∷ []) features
build_client_hello-IsMessage_example =
    build_client_hello-IsMessage (7 ∷ 8 ∷ []) (9 ∷ []) (omega arith) (omega arith)
