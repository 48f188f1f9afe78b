-- ===== src/Mercury/Response.antt =====
-- What mercury_login5 reads from the server: the nested search for the server's DH key in the
-- APResponse, and the fields of the APWelcome. Each `while (pb_read_tag ...)` takes fuel; `none` is a
-- loop that has not ended. Extends src/mercury.c's parser of the same names.
pub mod Found
pub mod Welcomed
mod Tests
use espconnect.Common.{
  ℕ, zero, suc, Bool, false, ◌++◌, Option, none, some, length, drop, replicate, Bytes, ◌==◌, ◌&&◌,
  ◌||◌, if◌then◌else◌, ◌>>=◌,
}
use espconnect.Proto.{
  Reader, reader_init, reader_init_slice, read_tag, read_ldelim, read_bytes_copy, read_varint_raw,
  skip,
}

-- The buffer server_dh and the flag `found`.
pub record Search : Type 0 where
  pub server_dh : Bytes
  pub found : Bool

-- What is done at a field 10 of wire type 2.
abbrev pub AtField : Type 0
AtField = Reader → Search → Option (Reader × Search)

-- while (pb_read_tag(&r, &fn, &wt) && !found), at each of the four levels.
pub scan : AtField → ℕ → Reader → Search → Option Search
scan at_field zero r st = none
scan at_field (suc fuel) r st = elim (read_tag r) [
  | none ↦ some st
  | some (fn, wt, r1) ↦
      let next : Option (Reader × Search) =
        if fn == 10 && wt == 2 then at_field r1 st else some (skip r1 wt, st) in
      let rest : Option Search = elim next [
        | none ↦ none
        | some (r2, st') ↦ scan at_field fuel r2 st'
      ] in
      if st.found then some st else rest
]

-- The innermost field: its bytes are copied over the front of server_dh.
pub copy_key : AtField
copy_key r st =
    let (xs, r') = read_bytes_copy r 96 in
    some (
      r',
      record {
        server_dh = xs ++ drop (length xs) st.server_dh;
        found = st.found || length xs == 96;
      },
    )

-- A field that holds a message: the loop one level down goes over it.
pub within : AtField → ℕ → AtField
within at_field fuel r st = do
  let (r', sub) = read_ldelim r
  st' ← scan at_field fuel sub st
  some (r', st')

-- The four loops. The key is `some` when it was found.
pub find_server_dh : ℕ → Bytes → ℕ → Option (Option Bytes)
find_server_dh fuel ar_buf ar_len = do
  let start : Search = record { server_dh = replicate 96 0; found = false }
  let level3 = within copy_key fuel
  st ← scan (within (within level3 fuel) fuel) fuel (reader_init_slice ar_buf 4 ar_len) start
  some (if st.found then some st.server_dh else none)

-- What the APWelcome loop stores into the session.
pub record Welcome : Type 0 where
  pub canonical_username : Bytes
  pub stored_cred : Bytes

-- One field: where the reader goes on, and what has been stored.
pub welcome_field : ℕ → ℕ → Reader → Welcome → Reader × Welcome
welcome_field fn wt r w =
    if fn == 1 && wt == 2
    then (let (xs, r') = read_bytes_copy r 255 in (r', record w { canonical_username = xs }))
    else if (fn == 2 || fn == 5) && wt == 0
    then ((read_varint_raw r).1, w)
    else if fn == 6 && wt == 2
    then (let (xs, r') = read_bytes_copy r 2048 in (r', record w { stored_cred = xs }))
    else (skip r wt, w)

pub welcome_loop : ℕ → Reader → Welcome → Option Welcome
welcome_loop zero r w = none
welcome_loop (suc fuel) r w = elim (read_tag r) [
  | none ↦ some w
  | some (fn, wt, r1) ↦ let (r2, w') = welcome_field fn wt r1 w in welcome_loop fuel r2 w'
]

pub parse_welcome : ℕ → Bytes → Welcome → Option Welcome
parse_welcome fuel rx_data w = welcome_loop fuel (reader_init rx_data (length rx_data)) w
