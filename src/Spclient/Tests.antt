-- ===== src/Spclient/Tests.antt =====
-- A witness for the CDN request: a server that answers with a text of the form that the source names.
use espconnect.Common.{some, Bytes, codes}
use espconnect.Spclient.{HttpsGet}

abbrev json : Bytes
json = codes "{\"cdnurl\":[\"https://a.b/c\"]}"

abbrev server : HttpsGet
server = λ _ _ _ _. record { status_code = 200; body = some json }
