-- ===== src/Spclient/Metadata/Printed.antt =====
-- What the scan of spclient_get_track_metadata finds in a list of files as a server prints it.
use espconnect.Common.{
  ℕ, zero, suc, ◌≤◌, ◌≡◌, refl, ap, ◌∙◌, List, [], ◌∷◌, ◌++◌, append_assoc, append-nil, sym, Option,
  none, some, length, take, drop, replicate, Bytes, codes, behind, find_at, arith, All, ltb,
  if◌then◌else◌, take-append_length,
}
use espconnect.Mercury.{Outcome, ok, fail}
use espconnect.Spclient.Metadata.{
  File, no_file, file_key, format_key, count_keys, quoted_length, format_of, file_of, extract,
  parse_files,
}
use espconnect.Spclient.Metadata.Keys.{
  Skips, IsPlain, Skips-append, find_at-Skips, count_keys-Skips, Skips-plain, unlike,
  quoted_length-plain,
}

-- One file as the server prints it: its identifier and its format.
pub print_file : Bytes × Bytes → Bytes
print_file (id, format) =
    codes "{\"file_id\":\"" ++ (id ++ (codes "\",\"format\":\"" ++ (format ++ codes "\"}")))

-- The files behind the first one, the end of the array, and what follows it.
pub print_more : List (Bytes × Bytes) → Bytes → Bytes
print_more [] after = codes "]" ++ after
print_more (file ∷ files) after = 44 ∷ (print_file file ++ print_more files after)

-- The array from behind its opening bracket on, and what follows it.
pub print_files : List (Bytes × Bytes) → Bytes → Bytes
print_files [] after = codes "]" ++ after
print_files (file ∷ files) after = print_file file ++ print_more files after

-- What the arrays of one file hold.
pub stored : Bytes × Bytes → File
stored (id, format) = record {
  file_id_hex = take 20 id;
  format = if ltb (length format) 8 then format else [];
}

pub stored_files : List (Bytes × Bytes) → List File
stored_files [] = []
stored_files (file ∷ files) = stored file ∷ stored_files files

-- Strings without quotation marks, the identifier of 20 characters at least.
unfoldable pub IsFile : Bytes × Bytes → Type 0
IsFile (id, format) = All IsPlain id × (20 ≤ length id) × All IsPlain format

file_id-IsPlain : All IsPlain (codes "file_id")
unfolding IsPlain
file_id-IsPlain = omega arith

abbrev separator : Bytes
separator = codes "\",\"format\":"

separator-Skips : (rest : Bytes) → Skips file_key separator rest
unfolding Skips
separator-Skips rest =
    (refl, (refl, (refl, (refl, (refl, (refl, (refl, (refl, (refl, (refl, (refl, tt)))))))))))

end-Skips : (rest : Bytes) → Skips file_key (codes "\"}") rest
unfolding Skips
end-Skips rest = (refl, (refl, tt))

-- From the identifier on, what a file is printed as.
abbrev tail : Bytes → Bytes → Bytes
tail id format = id ++ (separator ++ (34 ∷ (format ++ codes "\"}")))

format-Skips :
    (format rest : Bytes) → All IsPlain format → Skips file_key (34 ∷ (format ++ codes "\"}")) rest
unfolding Skips
format-Skips format rest k = (
  ap (behind file_key) (ap (λ r. 34 ∷ r) (append_assoc format (codes "\"}") rest))
      ∙ unlike (codes "file_id") format (34 ∷ []) rest 125 (λ e. absurd (omega arith))
          file_id-IsPlain k,
  Skips-append file_key format (codes "\"}") rest (Skips-plain (drop 1 file_key) format _ k)
      (end-Skips rest),
)

-- No other file begins in it.
tail-Skips :
    (id format rest : Bytes)
    → All IsPlain id
    → All IsPlain format
    → Skips file_key (tail id format) rest
tail-Skips id format rest h k =
    Skips-append file_key id _ rest (Skips-plain (drop 1 file_key) id _ h)
      (Skips-append file_key separator _ rest (separator-Skips _) (format-Skips format rest k))

find_at-file :
    (id format rest : Bytes)
    → find_at file_key (print_file (id, format) ++ rest)
      ≡ some (file_key ++ (tail id format ++ rest))
unfolding print_file
find_at-file id format rest = refl

count_keys-file :
    (id format rest : Bytes)
    → count_keys (print_file (id, format) ++ rest)
      ≡ suc (count_keys (drop 1 file_key ++ (tail id format ++ rest)))
unfolding print_file count_keys
count_keys-file id format rest = refl

-- Nor in the rest of its own key.
key-Skips :
    (id format rest : Bytes)
    → All IsPlain id
    → Skips file_key (drop 1 file_key) (tail id format ++ rest)
unfolding Skips
key-Skips id format rest h =
    (refl, (refl, (refl, (refl, (refl, (refl, (refl, (refl, (refl, (own, tt))))))))))
  where
    own : behind file_key (34 ∷ (tail id format ++ rest)) ≡ none
    own =
        ap (behind file_key) (ap (λ r. 34 ∷ r) (append_assoc id _ rest))
        ∙ unlike (codes "file_id") id (34 ∷ []) _ 44 (λ e. absurd (omega arith)) file_id-IsPlain h

find_at-tail :
    (id format rest : Bytes)
    → All IsPlain id
    → All IsPlain format
    → find_at file_key (tail id format ++ rest) ≡ find_at file_key rest
find_at-tail id format rest h k =
    find_at-Skips file_key (tail id format) rest (tail-Skips id format rest h k)

count_keys-one :
    (id format rest : Bytes)
    → All IsPlain id
    → All IsPlain format
    → count_keys (print_file (id, format) ++ rest) ≡ suc (count_keys rest)
count_keys-one id format rest h k =
    count_keys-file id format rest
    ∙ ap suc (
        count_keys-Skips (drop 1 file_key) (tail id format ++ rest) (key-Skips id format rest h)
        ∙ count_keys-Skips (tail id format) rest (tail-Skips id format rest h k))

count_keys-comma : (cs : Bytes) → count_keys (44 ∷ cs) ≡ count_keys cs
unfolding count_keys
count_keys-comma cs = refl

count_keys-bracket : (cs : Bytes) → count_keys (93 ∷ cs) ≡ count_keys cs
unfolding count_keys
count_keys-bracket cs = refl

-- Text in which no file begins.
no_keys : (after : Bytes) → Skips file_key after [] → count_keys after ≡ 0
no_keys after h =
    ap count_keys (sym (append-nil after))
    ∙ count_keys-Skips after [] h
    ∙ (unfold count_keys in refl)

count_keys-more :
    (files : List (Bytes × Bytes)) (after : Bytes)
    → Skips file_key after []
    → All IsFile files
    → count_keys (print_more files after) ≡ length files
unfolding print_more IsFile
count_keys-more [] after others h = count_keys-bracket after ∙ no_keys after others
count_keys-more ((id, format) ∷ files) after others h =
    count_keys-comma _
    ∙ count_keys-one id format (print_more files after) h.0.0 h.0.2
    ∙ ap suc (count_keys-more files after others h.1)

find_at-format :
    (id format rest : Bytes)
    → All IsPlain id
    → find_at format_key (tail id format ++ rest)
      ≡ some (format_key ++ (format ++ (34 ∷ 125 ∷ rest)))
find_at-format id format rest h =
    ap (find_at format_key) (append_assoc id _ rest)
    ∙ find_at-Skips format_key id _ (Skips-plain (drop 1 format_key) id _ h)
    ∙ ap (λ r. some (format_key ++ r)) (append_assoc format (codes "\"}") rest)

format_of-at :
    (scan behind_key : Bytes) (n : ℕ)
    → find_at format_key scan ≡ some (format_key ++ behind_key)
    → quoted_length behind_key ≡ n
    → format_of scan ≡ (if ltb n 8 then take n behind_key else [])
unfolding format_of
format_of-at scan behind_key n e f =
    ap in_text e ∙ ap (λ k. if ltb k 8 then take k behind_key else []) f
  where
    in_text : Option Bytes → Bytes
    in_text o = elim o [
      | none ↦ []
      | some at ↦
          let flen = quoted_length (drop 10 at) in if ltb flen 8 then take flen (drop 10 at) else []
    ]

-- The format behind the identifier, where it fits.
format_of-tail :
    (id format rest : Bytes)
    → All IsPlain id
    → All IsPlain format
    → format_of (tail id format ++ rest) ≡ (if ltb (length format) 8 then format else [])
format_of-tail id format rest h k =
    format_of-at _ (format ++ (34 ∷ 125 ∷ rest)) (length format) (find_at-format id format rest h)
      (quoted_length-plain format (125 ∷ rest) k)
    ∙ ap (λ r. if ltb (length format) 8 then r else [])
        (take-append_length format (34 ∷ 125 ∷ rest) (length format) refl)

take-short : (xs ys : Bytes) (n : ℕ) → n ≤ length xs → take n (xs ++ ys) ≡ take n xs
take-short xs ys zero h = refl
take-short [] ys (suc n) h = absurd (omega arith)
take-short (x ∷ xs) ys (suc n) h = ap (λ r. x ∷ r) (take-short xs ys n (omega arith))

file_of-tail :
    (id format rest : Bytes)
    → IsFile (id, format)
    → file_of (tail id format ++ rest) ≡ stored (id, format)
unfolding file_of stored IsFile
file_of-tail id format rest h =
    let id_part = ap (take 20) (append_assoc id _ rest) ∙ take-short id _ 20 h.1 in
    let format_part = format_of-tail id format rest h.0 h.2 in
    ap (λ i. record { file_id_hex = i; format = format_of (tail id format ++ rest) }) id_part
    ∙ ap (λ f. record { file_id_hex = take 20 id; format = f }) format_part

extract-find :
    (n : ℕ) (x y : Bytes) → find_at file_key x ≡ find_at file_key y → extract n x ≡ extract n y
unfolding extract
extract-find zero x y e = refl
extract-find (suc n) x y e = ap going_on e
  where
    going_on : Option Bytes → List File
    going_on o = elim o [
      | none ↦ replicate (suc n) no_file
      | some at ↦ file_of (drop 11 at) ∷ extract n (drop 11 at)
    ]

extract-one :
    (n : ℕ) (scan rest : Bytes)
    → find_at file_key scan ≡ some (file_key ++ rest)
    → extract (suc n) scan ≡ file_of rest ∷ extract n rest
unfolding extract
extract-one n scan rest e = ap going_on e
  where
    going_on : Option Bytes → List File
    going_on o = elim o [
      | none ↦ replicate (suc n) no_file
      | some at ↦ file_of (drop 11 at) ∷ extract n (drop 11 at)
    ]

extract-more :
    (files : List (Bytes × Bytes)) (after : Bytes)
    → All IsFile files
    → extract (length files) (print_more files after) ≡ stored_files files
unfolding print_more stored_files IsFile
extract-more [] after h = unfold extract in refl
extract-more ((id, format) ∷ files) after h =
    let later = print_more files after in
    extract-one (length files) _ (tail id format ++ later) (find_at-file id format later)
    ∙ ap (λ f. f ∷ extract (length files) (tail id format ++ later))
        (file_of-tail id format later h.0)
    ∙ ap (λ r. stored (id, format) ∷ r)
        (extract-find (length files) _ later (find_at-tail id format later h.0.0 h.0.2)
          ∙ extract-more files after h.1)

abbrev pub array_key : Bytes
array_key = codes "\"file\":["

print_files-more :
    (files : List (Bytes × Bytes)) (after : Bytes)
    → (find_at file_key (print_files files after) ≡ find_at file_key (print_more files after))
      × (count_keys (print_files files after) ≡ count_keys (print_more files after))
unfolding print_files print_more count_keys
print_files-more [] after = (refl, refl)
print_files-more (file ∷ files) after = (refl, refl)

array_key-skipped :
    (rest : Bytes)
    → (find_at file_key (array_key ++ rest) ≡ find_at file_key rest)
      × (count_keys (array_key ++ rest) ≡ count_keys rest)
unfolding count_keys
array_key-skipped rest = (refl, refl)

extract-array :
    (files : List (Bytes × Bytes)) (after : Bytes)
    → Skips file_key after []
    → All IsFile files
    → extract
        (count_keys (array_key ++ print_files files after))
        (array_key ++ print_files files after)
      ≡ stored_files files
extract-array files after others h =
    let printed = print_files files after in
    let text = array_key ++ printed in
    ap (λ n. extract n text)
      ((array_key-skipped printed).1
        ∙ (print_files-more files after).1
        ∙ count_keys-more files after others h)
    ∙ extract-find (length files) text (print_more files after)
        ((array_key-skipped printed).0 ∙ (print_files-more files after).0)
    ∙ extract-more files after h

parse_files-at :
    (json rest : Bytes)
    → find_at array_key json ≡ some rest
    → parse_files json ≡ ok (extract (count_keys rest) rest)
unfolding parse_files
parse_files-at json rest e = ap going_on e
  where
    going_on : Option Bytes → Outcome (List File)
    going_on o = elim o [
      | none ↦ fail 3
      | some arr_start ↦ ok (extract (count_keys arr_start) arr_start)
    ]

-- On a text of anything in which the key of the array does not begin, then the array of files, each
-- printed without spaces as its identifier and its format, both without quotation marks and NULs,
-- and then anything in which no key of a file begins, the scan of spclient_get_track_metadata finds
-- the files of the array in their order, as many as there are: of each the first 20 characters of
-- its identifier, which has 20 at least, and its format where that has less than 8 characters, else
-- none.
pub parse_files-print_files :
    (before after : Bytes) (files : List (Bytes × Bytes))
    → Skips array_key before (array_key ++ print_files files after)
    → Skips file_key after []
    → All IsFile files
    → parse_files (before ++ (array_key ++ print_files files after)) ≡ ok (stored_files files)
parse_files-print_files before after files fresh others h =
    parse_files-at _ (array_key ++ print_files files after)
      (find_at-Skips array_key before (array_key ++ print_files files after) fresh)
    ∙ ap ok (extract-array files after others h)
