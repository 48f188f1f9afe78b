-- ===== src/Zeroconf/Query/Tests.antt =====
-- Witnesses for url_decode.
use espconnect.Zeroconf.Query.Pairs.{after, first_value, get_query_param-first_value}
use espconnect.Common.{[], ◌∷◌, ◌++◌, ◌≡◌, refl, codes, arith}
use espconnect.Zeroconf.Query.{url_decode, get_query_param}
use espconnect.Zeroconf.Query.Decoding.{
  plain, space, percent, done, decimal, upper, url_decode-IsEncoded,
}

-- "a+%2B" stands for "a +".
url_decode-IsEncoded_example : url_decode (codes "a+%2B") 8 ≡ codes "a +"
url_decode-IsEncoded_example =
    url_decode-IsEncoded 8
      (plain b'a' _ _ refl refl (
        space _ _
          (percent b'2' b'B' 2 11 _ _ (decimal 2 (omega arith)) (upper 1 (omega arith)) done)))
      (omega arith)

-- "a=1&key=b%20c&key=d"
get_query_param-first_value_example :
    get_query_param (codes "a=1" ++ after (codes "key=b%20c" ∷ codes "key=d" ∷ [])) (codes "key")
    ≡ first_value (codes "key") (codes "a=1" ∷ codes "key=b%20c" ∷ codes "key=d" ∷ [])
get_query_param-first_value_example =
    get_query_param-first_value (codes "key") (codes "a=1") (codes "key=b%20c" ∷ codes "key=d" ∷ [])
      (omega arith) (omega arith) (omega arith)
