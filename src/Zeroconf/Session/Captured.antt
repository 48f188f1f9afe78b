-- ===== src/Zeroconf/Session/Captured.antt =====
-- The captured credentials along every run of the session's functions.
use espconnect.Common.{
  arith, c_string, find_behind, ◌≡◌, refl, sym, ◌∙◌, Bool, true, false, not, [], ◌∷◌, Option, none,
  some, Bytes, ◌&&◌, if◌then◌else◌,
}
use espconnect.Crypto.{Crypto}
use espconnect.Tcp.{Conn, recv}
use espconnect.Zeroconf.Http.{whole_request, blank_line}
use espconnect.Zeroconf.Session.{
  Config, Session, Client, init, start, poll, stop, store_credentials, is_empty, handle_post,
  handle_bytes, bell_handle_request,
}

-- The sessions that the functions of the interface can make, in any order, with any requests.
pub data IsReachable : Session → Type 0 where
  by_init :
      (config : Config) (new_public new_private : Bytes)
      → IsReachable (init config new_public new_private)
  by_start : (b m : Bool) (s : Session) → IsReachable s → IsReachable (start b m s).1
  by_poll :
      (crypto : Crypto) (client : Option Client) (s : Session)
      → IsReachable s
      → IsReachable (poll crypto client s).1
  by_stop : (s : Session) → IsReachable s → IsReachable (stop s)

-- The three texts are there.
pub record HasTexts (s : Session) : Type 0 where
  pub has_username : is_empty s.username ≡ false
  pub has_blob : is_empty s.blob_b64 ≡ false
  pub has_key : is_empty s.client_key_b64 ≡ false

IsComplete : Session → Type 0
IsComplete s = s.creds_captured ≡ true → HasTexts s

all_three :
    (u b k old : Bool)
    → old ≡ false
    → (if not u && (not b && not k) then true else old) ≡ true
    → (u ≡ false) × (b ≡ false) × (k ≡ false)
all_three u b k old unset e = ground arith

store-IsComplete :
    (body : Bytes) (s : Session) → s.creds_captured ≡ false → IsComplete (store_credentials body s)
unfolding IsComplete store_credentials
store-IsComplete body s e captured =
    let t = store_credentials body s in
    let (u, b, k) =
      all_three (is_empty t.username) (is_empty t.blob_b64) (is_empty t.client_key_b64)
        s.creds_captured e captured in
    record { has_username = u; has_blob = b; has_key = k }

same-IsComplete : (s : Session) → s.creds_captured ≡ false → IsComplete s
unfolding IsComplete
same-IsComplete s e captured = ground (arith, sym e ∙ captured)

option-IsComplete :
    {A : Type 0} (o : Option A) (absent : Session × Conn) (f : A → Session × Conn)
    → IsComplete absent.0
    → ((a : A) → IsComplete (f a).0)
    → IsComplete (elim o as (λ _. Session × Conn) [ none ↦ absent | some a ↦ f a ]).0
option-IsComplete none absent f p q = p
option-IsComplete (some a) absent f p q = q a

if-IsComplete :
    (b : Bool) (x y : Session × Conn)
    → IsComplete x.0
    → IsComplete y.0
    → IsComplete (if b then x else y).0
if-IsComplete true x y p q = p
if-IsComplete false x y p q = q

post-IsComplete :
    (buf : Bytes) (s : Session) (c : Conn)
    → s.creds_captured ≡ false
    → IsComplete (handle_post buf s c).0
unfolding handle_post
post-IsComplete buf s c e =
    option-IsComplete (find_behind blank_line (c_string (whole_request buf c).0)) _ _
      (same-IsComplete s e) (λ body. store-IsComplete body s e)

bytes-IsComplete :
    (crypto : Crypto) (unset buf : Bytes) (s : Session) (c : Conn)
    → s.creds_captured ≡ false
    → IsComplete (handle_bytes crypto unset buf s c).0
unfolding handle_bytes
bytes-IsComplete crypto unset buf s c e =
    if-IsComplete _ _ _ (same-IsComplete s e)
      (if-IsComplete _ _ _ (post-IsComplete buf s c e) (same-IsComplete s e))

request-IsComplete :
    (crypto : Crypto) (s : Session) (c : Client)
    → s.creds_captured ≡ false
    → IsComplete (bell_handle_request crypto s c).0
unfolding bell_handle_request
request-IsComplete crypto s c e = received (recv c.conn 8190).0
  where
    received :
        (r : Option Bytes)
        → IsComplete
            (elim r as (λ _. Session × Conn) [
              | none ↦ (s, (recv c.conn 8190).1)
              | some [] ↦ (s, (recv c.conn 8190).1)
              | some (x ∷ xs) ↦ handle_bytes crypto c.unset (x ∷ xs) s (recv c.conn 8190).1
            ]).0
    received none = same-IsComplete s e
    received (some []) = same-IsComplete s e
    received (some (x ∷ xs)) = bytes-IsComplete crypto c.unset (x ∷ xs) s (recv c.conn 8190).1 e

unless :
    {A : Type 0} (b : Bool) (x y : A × Session)
    → IsComplete x.1
    → (b ≡ false → IsComplete y.1)
    → IsComplete (if b then x else y).1
unless true x y p q = p
unless false x y p q = q refl

-- A poll keeps the property: where the credentials were captured already, no request is taken.
poll-IsComplete :
    (crypto : Crypto) (client : Option Client) (s : Session)
    → IsComplete s
    → IsComplete (poll crypto client s).1
unfolding poll
poll-IsComplete crypto client s h =
    unless (not s.running) _ _ h
      (λ _. unless s.creds_captured _ _ h (λ fresh. accepted client fresh))
  where
    accepted :
        (o : Option Client)
        → s.creds_captured ≡ false
        → IsComplete
            (elim o as (λ _. Session) [ none ↦ s | some c ↦ (bell_handle_request crypto s c).0 ])
    accepted none e = same-IsComplete s e
    accepted (some c) e = request-IsComplete crypto s c e

servers-IsComplete :
    (s : Session) (bell mdns running : Bool)
    → IsComplete s
    → IsComplete (record s { bell = bell; mdns = mdns; running = running })
unfolding IsComplete
servers-IsComplete s bell mdns running h captured =
    let texts = h captured in
    record { has_username = texts.has_username; has_blob = texts.has_blob; has_key = texts.has_key }

start-IsComplete : (b m : Bool) (s : Session) → IsComplete s → IsComplete (start b m s).1
unfolding start
start-IsComplete b m s h = unless (not s.dh_ready) _ _ h (λ _.
    unless (not b) _ _ (servers-IsComplete s false s.mdns s.running h)
      (λ _. servers-IsComplete s true m true h))

-- In every session that zeroconf_init, zeroconf_start, zeroconf_poll and zeroconf_stop make, in any
-- order and whatever arrives, captured credentials have a user name, a blob and a client key.
pub captured-HasTexts : (s : Session) → IsReachable s → s.creds_captured ≡ true → HasTexts s
unfolding stop IsComplete init
captured-HasTexts _ (by_init config new_public new_private) captured =
    same-IsComplete _ refl captured
captured-HasTexts _ (by_start b m s r) captured =
    start-IsComplete b m s (captured-HasTexts s r) captured
captured-HasTexts _ (by_poll crypto client s r) captured =
    poll-IsComplete crypto client s (captured-HasTexts s r) captured
captured-HasTexts _ (by_stop s r) captured =
    servers-IsComplete s false false false (captured-HasTexts s r) captured
