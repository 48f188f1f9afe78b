-- ===== src/Spclient/Metadata.antt =====
-- spclient_get_track_metadata of src/spclient.c, with hex_encode: the request for the files of a track
-- and the scan of the JSON text that answers it.
pub mod Keys
pub mod Printed
mod Tests
use espconnect.Common.{
  ℕ, zero, suc, ◌+◌, ◌-◌, ◌/◌, ◌%◌, List, [], ◌∷◌, ◌++◌, Option, none, some, length, take, drop,
  replicate, Bytes, codes, c_string, behind, find_at, before_byte, ltb, ◌==◌, if◌then◌else◌,
}
use espconnect.Mercury.{Outcome, ok, fail}
use espconnect.Spclient.{Response, HttpsGet, bearer}

-- spclient_file_t: the strings of its two arrays.
pub record File : Type 0 where
  pub file_id_hex : Bytes
  pub format : Bytes

-- What `calloc` leaves.
abbrev pub no_file : File
no_file = record { file_id_hex = []; format = [] }

pub hex_digit : ℕ → ℕ
hex_digit n = if ltb n 10 then 48 + n else 87 + n

pub hex_encode : Bytes → Bytes
hex_encode [] = []
hex_encode (b ∷ bs) = hex_digit (b / 16) ∷ hex_digit (b % 16) ∷ hex_encode bs

abbrev pub file_key : Bytes
file_key = codes "\"file_id\":\""

abbrev pub format_key : Bytes
format_key = codes "\"format\":\""

-- while ((scan = strstr(scan, ...))) { count++; scan++; }: one for each place where the key stands.
pub count_keys : Bytes → ℕ
count_keys [] = 0
count_keys (c ∷ cs) =
    let later = count_keys cs in
    elim (behind file_key (c ∷ cs)) [ none ↦ later | some rest ↦ suc later ]

-- The length of the text up to a quotation mark, 0 without one.
pub quoted_length : Bytes → ℕ
quoted_length text = let n = length (before_byte b'"' text) in if ltb n (length text) then n else 0

-- The format behind its key: it is copied where it fits the array of 8 with its NUL.
pub format_of : Bytes → Bytes
format_of scan = elim (find_at format_key scan) [
  | none ↦ []
  | some at ↦
      let fmt = drop 10 at in
      let flen = quoted_length fmt in if ltb flen 8 then take flen fmt else []
]

-- memcpy of 20 bytes and the NUL behind them. Where the text ends before, the source reads past its
-- end; the string is then what the text had.
pub file_of : Bytes → File
file_of scan = record { file_id_hex = take 20 scan; format = format_of scan }

-- for (i = 0; i < count; i++), with the `break` where no further key is found: the files that are left
-- stay as `calloc` made them.
pub extract : ℕ → Bytes → List File
extract zero scan = []
extract (suc left) scan = elim (find_at file_key scan) [
  | none ↦ replicate (suc left) no_file
  | some at ↦ file_of (drop 11 at) ∷ extract left (drop 11 at)
]

-- The files in the JSON text.
pub parse_files : Bytes → Outcome (List File)
parse_files json = elim (find_at (codes "\"file\":[") json) [
  | none ↦ fail 3
  | some arr_start ↦ ok (extract (count_keys arr_start) arr_start)
]

pub metadata_response : Response → Outcome (List File)
metadata_response resp = elim resp.body [
  | none ↦ fail 2
  | some body ↦ if resp.status_code == 200 then parse_files (c_string body) else fail 2
]

pub track_path : Bytes → Bytes
track_path track_id =
    take 255 (codes "/metadata/4/track/" ++ (hex_encode track_id ++ codes "?product=9&country=ID"))

-- spclient_get_track_metadata; pointers are never null.
pub get_track_metadata : HttpsGet → Bytes → Bytes → Outcome (List File)
get_track_metadata https_get client_token track_id = metadata_response (
    https_get (codes "spclient.wg.spotify.com") (track_path track_id)
      (bearer client_token ∷ codes "Accept: application/json" ∷ []) 10)
