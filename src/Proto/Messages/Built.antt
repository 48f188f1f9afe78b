-- ===== src/Proto/Messages/Built.antt =====
-- The fields of the messages that src/mercury.c builds, whatever is put into them.
use espconnect.Common.{
  ℕ, ◌+◌, ◌^◌, ◌≤◌, ◌<◌, ◌≡◌, refl, sym, ap, ◌∙◌, append_assoc, List, [], ◌∷◌, ◌++◌, Option, none,
  some, codes, length, u64, Bytes, arith, ◌==◌, if◌then◌else◌, Bool-cases, inl, inr,
}
use espconnect.Proto.{Buf, init, varint, enum}
use espconnect.Proto.Message.{
  Field, number, content, IsMessage, Writes, bound, length-le-bound, init-IsMessage, bytes-Writes,
  varint-Writes,
}
use espconnect.Proto.Messages.{
  str, build_info, crypto_hello, build_client_hello, put_username, login_credentials, system_info,
  build_login_request,
}

-- The username, where there is one.
abbrev pub username_fields : Option Bytes → List Field
username_fields none = []
username_fields (some []) = []
username_fields (some (c ∷ cs)) = if c == 0 then [] else content 10 (c ∷ cs) ∷ []

abbrev pub Short : Option Bytes → Type 0
Short none = Unit
Short (some cs) = length cs < 2 ^ 32

username_bound :
    (username : Option Bytes) (fs : List Field)
    → Short username
    → bound (username_fields username ++ fs) ≤ 2 ^ 34 + bound fs
username_bound none fs h = omega arith
username_bound (some []) fs h = omega arith
username_bound (some (c ∷ cs)) fs h = elim (Bool-cases (c == 0)) [
  | inl e ↦ rw e (omega arith)
  | inr e ↦ rw e (omega arith)
]

put_username-Writes :
    (n : ℕ) (username : Option Bytes)
    → Short username
    → Writes (put_username (init n) username) (username_fields username)
unfolding put_username str
put_username-Writes n none h = (init n, refl, init-IsMessage n)
put_username-Writes n (some []) h = (init n, refl, init-IsMessage n)
put_username-Writes n (some (c ∷ cs)) h = elim (Bool-cases (c == 0)) [
  | inl e ↦ rw e (init n, refl, init-IsMessage n)
  | inr e ↦
      rw e (bytes-Writes (init n) [] 10 (c ∷ cs) (omega arith) (omega arith) (init-IsMessage n))
]

login_credentials-Writes :
    (auth_data : Bytes) (auth_type : ℕ) (username : Option Bytes)
    → length auth_data < 2 ^ 32
    → auth_type < 2 ^ 31
    → Short username
    → Writes
        (login_credentials auth_data auth_type username)
        (username_fields username ++ (number 20 auth_type ∷ content 30 auth_data ∷ []))
unfolding login_credentials enum
login_credentials-Writes auth_data auth_type username short small h =
    let us = username_fields username in
    let (b1, r1, m1) = put_username-Writes 256 username h in
    let same : u64 auth_type ≡ auth_type = omega arith in
    let (b2, r2, m2) = varint-Writes b1 us 20 auth_type (omega arith) (omega arith) m1 in
    let (b3, r3, m3) =
      bytes-Writes b2 (us ++ (number 20 auth_type ∷ [])) 30 auth_data (omega arith) (omega arith)
        m2 in
    (
      b3,
      rw r1 (rw (ap (varint b1 20) same ∙ r2) r3),
      rw (sym (append_assoc us (number 20 auth_type ∷ []) (content 30 auth_data ∷ []))) m3,
    )

system_info-Writes :
    (device_id : Bytes)
    → length device_id < 2 ^ 32
    → Writes
        (system_info device_id)
        (number 10 0 ∷ number 60 0 ∷ content 90 (codes "cspot-player") ∷ content 100 device_id ∷ [])
unfolding system_info enum str
system_info-Writes device_id h =
    let (b1, r1, m1) =
      varint-Writes (init 128) [] 10 0 (omega arith) (omega arith) (init-IsMessage 128) in
    let (b2, r2, m2) = varint-Writes b1 (number 10 0 ∷ []) 60 0 (omega arith) (omega arith) m1 in
    let (b3, r3, m3) =
      bytes-Writes b2 (number 10 0 ∷ number 60 0 ∷ []) 90 (codes "cspot-player") (omega arith)
        (omega arith) m2 in
    let (b4, r4, m4) =
      bytes-Writes b3 (number 10 0 ∷ number 60 0 ∷ content 90 (codes "cspot-player") ∷ []) 100
        device_id (omega arith) (omega arith) m3 in
    (b4, rw r1 (rw r2 (rw r3 r4)), m4)

-- For credentials, a username and a device of less than 2^32 bytes each and a type below 2^31,
-- build_login_request ends without a write past a buffer, and what it gives is a message of the
-- fields 10, 50 and 70, of which the first holds the username if there is one, the type and the
-- credentials, and the second the system information with the device.
pub build_login_request-IsMessage :
    (auth_data : Bytes) (auth_type : ℕ) (username : Option Bytes) (device_id : Bytes)
    → length auth_data < 2 ^ 32
    → auth_type < 2 ^ 31
    → Short username
    → length device_id < 2 ^ 32
    → (out : Buf) × (credentials : Bytes) × (system : Bytes) × (build_login_request auth_data
          auth_type username device_id
        ≡ some out)
      × IsMessage
          (content 10 credentials ∷ content 50 system ∷ content 70 (codes "cspot-1.1") ∷ [])
          out.bytes
      × IsMessage
          (username_fields username ++ (number 20 auth_type ∷ content 30 auth_data ∷ []))
          credentials
      × IsMessage
          (number 10 0
            ∷ number 60 0
            ∷ content 90 (codes "cspot-player")
            ∷ content 100 device_id
            ∷ [])
          system
unfolding build_login_request str
build_login_request-IsMessage auth_data auth_type username device_id h1 h2 h3 h4 =
    let us = username_fields username in
    let (lc, r1, m1) = login_credentials-Writes auth_data auth_type username h1 h2 h3 in
    let (o1, r2, m2) =
      bytes-Writes (init 512) [] 10 lc.bytes (omega arith)
        (omega (
          arith,
          length-le-bound (us ++ (number 20 auth_type ∷ content 30 auth_data ∷ [])) lc.bytes m1,
          username_bound username (number 20 auth_type ∷ content 30 auth_data ∷ []) h3,
        ))
        (init-IsMessage 512) in
    let (si, r3, m3) = system_info-Writes device_id h4 in
    let (o2, r4, m4) =
      bytes-Writes o1 (content 10 lc.bytes ∷ []) 50 si.bytes (omega arith)
        (omega (
          arith,
          length-le-bound
              (number 10 0
                ∷ number 60 0
                ∷ content 90 (codes "cspot-player")
                ∷ content 100 device_id
                ∷ [])
              si.bytes m3,
        ))
        m2 in
    let (o3, r5, m5) =
      bytes-Writes o2 (content 10 lc.bytes ∷ content 50 si.bytes ∷ []) 70 (codes "cspot-1.1")
        (omega arith) (omega arith) m4 in
    (o3, lc.bytes, si.bytes, rw r1 (rw r2 (rw r3 (rw r4 r5))), m5, m1, m3)

crypto_hello-Writes :
    (dh_pub : Bytes)
    → length dh_pub < 2 ^ 32
    → (out : Buf) × (dh : Bytes) × (crypto_hello dh_pub ≡ some out)
      × IsMessage (content 10 dh ∷ []) out.bytes
      × IsMessage (content 10 dh_pub ∷ number 20 1 ∷ []) dh
unfolding crypto_hello
crypto_hello-Writes dh_pub h =
    let (b1, r1, m1) =
      bytes-Writes (init 256) [] 10 dh_pub (omega arith) (omega arith) (init-IsMessage 256) in
    let (b2, r2, m2) =
      varint-Writes b1 (content 10 dh_pub ∷ []) 20 1 (omega arith) (omega arith) m1 in
    let small = length-le-bound (content 10 dh_pub ∷ number 20 1 ∷ []) b2.bytes m2 in
    let (b3, r3, m3) =
      bytes-Writes (init 32) [] 10 b2.bytes (omega arith) (omega (arith, small))
        (init-IsMessage 32) in
    (b3, b2.bytes, rw r1 (rw r2 r3), m3, m2)

build_info-Writes : Writes build_info (number 10 0 ∷ number 30 2 ∷ number 40 0x10800000000 ∷ [])
unfolding build_info enum
build_info-Writes =
    let (b1, r1, m1) =
      varint-Writes (init 64) [] 10 0 (omega arith) (omega arith) (init-IsMessage 64) in
    let (b2, r2, m2) = varint-Writes b1 (number 10 0 ∷ []) 30 2 (omega arith) (omega arith) m1 in
    let (b3, r3, m3) =
      varint-Writes b2 (number 10 0 ∷ number 30 2 ∷ []) 40 0x10800000000 (omega arith) (omega arith)
        m2 in
    (b3, rw r1 (rw r2 r3), m3)

-- For a public key and a nonce of less than 2^32 bytes each, build_client_hello ends without a
-- write past a buffer, and what it gives is a message of the fields 10, 30, 50, 60, 70 and 80, with
-- the build information, the key inside two messages, the nonce and the feature set.
pub build_client_hello-IsMessage :
    (dh_pub nonce : Bytes)
    → length dh_pub < 2 ^ 32
    → length nonce < 2 ^ 32
    → (out : Buf) × (info : Bytes) × (hello : Bytes) × (dh : Bytes) × (features : Bytes)
      × (build_client_hello dh_pub nonce ≡ some out)
      × IsMessage
          (content 10 info
            ∷ number 30 0
            ∷ content 50 hello
            ∷ content 60 nonce
            ∷ content 70 (0x1E ∷ [])
            ∷ content 80 features
            ∷ [])
          out.bytes
      × IsMessage (number 10 0 ∷ number 30 2 ∷ number 40 0x10800000000 ∷ []) info
      × IsMessage (content 10 dh ∷ []) hello
      × IsMessage (content 10 dh_pub ∷ number 20 1 ∷ []) dh
      × IsMessage (number 1 1 ∷ []) features
unfolding build_client_hello enum
build_client_hello-IsMessage dh_pub nonce h1 h2 =
    let (bi, r0, m0) = build_info-Writes in
    let s0 =
      length-le-bound (number 10 0 ∷ number 30 2 ∷ number 40 0x10800000000 ∷ []) bi.bytes m0 in
    let (o1, r1, m1) =
      bytes-Writes (init 512) [] 10 bi.bytes (omega arith) (omega (arith, s0))
        (init-IsMessage 512) in
    let f1 = content 10 bi.bytes ∷ [] in
    let (o2, r2, m2) =
      varint-Writes o1 (content 10 bi.bytes ∷ []) 30 0 (omega arith) (omega arith) m1 in
    let (un, dh, r3, m3, m3') = crypto_hello-Writes dh_pub h1 in
    let s1 = length-le-bound (content 10 dh_pub ∷ number 20 1 ∷ []) dh m3' in
    let s2 = length-le-bound (content 10 dh ∷ []) un.bytes m3 in
    let (o3, r4, m4) =
      bytes-Writes o2 (content 10 bi.bytes ∷ number 30 0 ∷ []) 50 un.bytes (omega arith)
        (omega (arith, s1, s2)) m2 in
    let (o4, r5, m5) =
      bytes-Writes o3 (content 10 bi.bytes ∷ number 30 0 ∷ content 50 un.bytes ∷ []) 60 nonce
        (omega arith) (omega arith) m4 in
    let (o5, r6, m6) =
      bytes-Writes o4
        (content 10 bi.bytes ∷ number 30 0 ∷ content 50 un.bytes ∷ content 60 nonce ∷ []) 70
        (0x1E ∷ []) (omega arith) (omega arith) m5 in
    let (fs, r7, m7) =
      varint-Writes (init 16) [] 1 1 (omega arith) (omega arith) (init-IsMessage 16) in
    let s3 = length-le-bound (number 1 1 ∷ []) fs.bytes m7 in
    let (o6, r8, m8) =
      bytes-Writes o5
        (content 10 bi.bytes
          ∷ number 30 0
          ∷ content 50 un.bytes
          ∷ content 60 nonce
          ∷ content 70 (0x1E ∷ [])
          ∷ [])
        80 fs.bytes (omega arith) (omega (arith, s3)) m6 in
    (
      o6,
      bi.bytes,
      un.bytes,
      dh,
      fs.bytes,
      rw r0 (rw r1 (rw r2 (rw r3 (rw r4 (rw r5 (rw r6 (rw r7 r8))))))),
      m8,
      m0,
      m3,
      m3',
      m7,
    )
