-- ===== src/Spclient/Metadata/Tests.antt =====
-- A witness for the property of the track metadata: two files, one with a format that does not fit.
use espconnect.Common.{◌≡◌, refl, List, [], ◌∷◌, ◌++◌, Bytes, codes, All, arith}
use espconnect.Mercury.{ok}
use espconnect.Spclient.Metadata.{file_key, parse_files}
use espconnect.Spclient.Metadata.Keys.{Skips, IsPlain}
use espconnect.Spclient.Metadata.Printed.{
  IsFile, array_key, print_files, stored_files, parse_files-print_files,
}

abbrev two_files : List (Bytes × Bytes)
two_files =
    (codes "0123456789abcdef0123456789abcdef01234567", codes "OGG_VORBIS_320")
    ∷ (codes "76543210fedcba9876543210", codes "AAC_24")
    ∷ []

abbrev open_brace : Bytes
open_brace = codes "{"

two_files-IsFile : All IsFile two_files
unfolding IsFile IsPlain
two_files-IsFile = omega arith

-- What follows the array.
abbrev more_fields : Bytes
more_fields = codes ",\"duration\":1}"

open_brace-Skips : Skips array_key open_brace (array_key ++ print_files two_files more_fields)
unfolding Skips
open_brace-Skips = (refl, tt)

more_fields-Skips : Skips file_key more_fields []
unfolding Skips
more_fields-Skips = (
  refl,
  (
    refl,
    (
      refl,
      (refl, (refl, (refl, (refl, (refl, (refl, (refl, (refl, (refl, (refl, (refl, tt))))))))))),
    ),
  ),
)

parse_files-print_files_example :
    parse_files (open_brace ++ (array_key ++ print_files two_files more_fields))
    ≡ ok (stored_files two_files)
parse_files-print_files_example =
    parse_files-print_files open_brace more_fields two_files open_brace-Skips more_fields-Skips
      two_files-IsFile
