-- ===== src/Hc/StaticTable.antt =====
-- hc/statictable.go: the static tables of HPACK (numbered from 1) and of QPACK (from 0).
use minhq.Base.{ℕ, List, [], ◌∷◌}
use minhq.Base.Names.{Name, codes}
use Prim.Native.String.{String}

pub record StaticEntry : Type 0 where
  pub index : ℕ
  pub name : Name
  pub value : Name

abbrev static : ℕ → String → String → StaticEntry
static i n v = record { index = i; name = codes n; value = codes v }

abbrev pub hpack_static_table : List StaticEntry
hpack_static_table =
    static 1 ":authority" ""
    ∷ static 2 ":method" "GET"
    ∷ static 3 ":method" "POST"
    ∷ static 4 ":path" "/"
    ∷ static 5 ":path" "/index.html"
    ∷ static 6 ":scheme" "http"
    ∷ static 7 ":scheme" "https"
    ∷ static 8 ":status" "200"
    ∷ static 9 ":status" "204"
    ∷ static 10 ":status" "206"
    ∷ static 11 ":status" "304"
    ∷ static 12 ":status" "400"
    ∷ static 13 ":status" "404"
    ∷ static 14 ":status" "500"
    ∷ static 15 "accept-charset" ""
    ∷ static 16 "accept-encoding" "gzip, deflate"
    ∷ static 17 "accept-language" ""
    ∷ static 18 "accept-ranges" ""
    ∷ static 19 "accept" ""
    ∷ static 20 "access-control-allow-origin" ""
    ∷ static 21 "age" ""
    ∷ static 22 "allow" ""
    ∷ static 23 "authorization" ""
    ∷ static 24 "cache-control" ""
    ∷ static 25 "content-disposition" ""
    ∷ static 26 "content-encoding" ""
    ∷ static 27 "content-language" ""
    ∷ static 28 "content-length" ""
    ∷ static 29 "content-location" ""
    ∷ static 30 "content-range" ""
    ∷ static 31 "content-type" ""
    ∷ static 32 "cookie" ""
    ∷ static 33 "date" ""
    ∷ static 34 "etag" ""
    ∷ static 35 "expect" ""
    ∷ static 36 "expires" ""
    ∷ static 37 "from" ""
    ∷ static 38 "host" ""
    ∷ static 39 "if-match" ""
    ∷ static 40 "if-modified-since" ""
    ∷ static 41 "if-none-match" ""
    ∷ static 42 "if-range" ""
    ∷ static 43 "if-unmodified-since" ""
    ∷ static 44 "last-modified" ""
    ∷ static 45 "link" ""
    ∷ static 46 "location" ""
    ∷ static 47 "max-forwards" ""
    ∷ static 48 "proxy-authenticate" ""
    ∷ static 49 "proxy-authorization" ""
    ∷ static 50 "range" ""
    ∷ static 51 "referer" ""
    ∷ static 52 "refresh" ""
    ∷ static 53 "retry-after" ""
    ∷ static 54 "server" ""
    ∷ static 55 "set-cookie" ""
    ∷ static 56 "strict-transport-security" ""
    ∷ static 57 "transfer-encoding" ""
    ∷ static 58 "user-agent" ""
    ∷ static 59 "vary" ""
    ∷ static 60 "via" ""
    ∷ static 61 "www-authenticate" ""
    ∷ []

abbrev pub qpack_static_table : List StaticEntry
qpack_static_table =
    static 0 ":authority" ""
    ∷ static 1 ":path" "/"
    ∷ static 2 "age" "0"
    ∷ static 3 "content-disposition" ""
    ∷ static 4 "content-length" "0"
    ∷ static 5 "cookie" ""
    ∷ static 6 "date" ""
    ∷ static 7 "etag" ""
    ∷ static 8 "if-modified-since" ""
    ∷ static 9 "if-none-match" ""
    ∷ static 10 "last-modified" ""
    ∷ static 11 "link" ""
    ∷ static 12 "location" ""
    ∷ static 13 "referer" ""
    ∷ static 14 "set-cookie" ""
    ∷ static 15 ":method" "CONNECT"
    ∷ static 16 ":method" "DELETE"
    ∷ static 17 ":method" "GET"
    ∷ static 18 ":method" "HEAD"
    ∷ static 19 ":method" "OPTIONS"
    ∷ static 20 ":method" "POST"
    ∷ static 21 ":method" "PUT"
    ∷ static 22 ":scheme" "http"
    ∷ static 23 ":scheme" "https"
    ∷ static 24 ":status" "103"
    ∷ static 25 ":status" "200"
    ∷ static 26 ":status" "304"
    ∷ static 27 ":status" "404"
    ∷ static 28 ":status" "503"
    ∷ static 29 "accept" "*/*"
    ∷ static 30 "accept" "application/dns-message"
    ∷ static 31 "accept-encoding" "gzip, deflate, br"
    ∷ static 32 "accept-ranges" "bytes"
    ∷ static 33 "access-control-allow-headers" "cache-control"
    ∷ static 34 "access-control-allow-headers" "content-type"
    ∷ static 35 "access-control-allow-origin" "*"
    ∷ static 36 "cache-control" "max-age=0"
    ∷ static 37 "cache-control" "max-age=2592000"
    ∷ static 38 "cache-control" "max-age=604800"
    ∷ static 39 "cache-control" "no-cache"
    ∷ static 40 "cache-control" "no-store"
    ∷ static 41 "cache-control" "public, max-age=31536000"
    ∷ static 42 "content-encoding" "br"
    ∷ static 43 "content-encoding" "gzip"
    ∷ static 44 "content-type" "application/dns-message"
    ∷ static 45 "content-type" "application/javascript"
    ∷ static 46 "content-type" "application/json"
    ∷ static 47 "content-type" "application/x-www-form-urlencoded"
    ∷ static 48 "content-type" "image/gif"
    ∷ static 49 "content-type" "image/jpeg"
    ∷ static 50 "content-type" "image/png"
    ∷ static 51 "content-type" "text/css"
    ∷ static 52 "content-type" "text/html; charset=utf-8"
    ∷ static 53 "content-type" "text/plain"
    ∷ static 54 "content-type" "text/plain;charset=utf-8"
    ∷ static 55 "range" "bytes=0-"
    ∷ static 56 "strict-transport-security" "max-age=31536000"
    ∷ static 57 "strict-transport-security" "max-age=31536000; includesubdomains"
    ∷ static 58 "strict-transport-security" "max-age=31536000; includesubdomains; preload"
    ∷ static 59 "vary" "accept-encoding"
    ∷ static 60 "vary" "origin"
    ∷ static 61 "x-content-type-options" "nosniff"
    ∷ static 62 "x-xss-protection" "1; mode=block"
    ∷ static 63 ":status" "100"
    ∷ static 64 ":status" "204"
    ∷ static 65 ":status" "206"
    ∷ static 66 ":status" "302"
    ∷ static 67 ":status" "400"
    ∷ static 68 ":status" "403"
    ∷ static 69 ":status" "421"
    ∷ static 70 ":status" "425"
    ∷ static 71 ":status" "500"
    ∷ static 72 "accept-language" ""
    ∷ static 73 "access-control-allow-credentials" "FALSE"
    ∷ static 74 "access-control-allow-credentials" "TRUE"
    ∷ static 75 "access-control-allow-headers" "*"
    ∷ static 76 "access-control-allow-methods" "get"
    ∷ static 77 "access-control-allow-methods" "get, post, options"
    ∷ static 78 "access-control-allow-methods" "options"
    ∷ static 79 "access-control-expose-headers" "content-length"
    ∷ static 80 "access-control-request-headers" "content-type"
    ∷ static 81 "access-control-request-method" "get"
    ∷ static 82 "access-control-request-method" "post"
    ∷ static 83 "alt-svc" "clear"
    ∷ static 84 "authorization" ""
    ∷ static 85 "content-security-policy" "script-src 'none'; object-src 'none'; base-uri 'none'"
    ∷ static 86 "early-data" "1"
    ∷ static 87 "expect-ct" ""
    ∷ static 88 "forwarded" ""
    ∷ static 89 "if-range" ""
    ∷ static 90 "origin" ""
    ∷ static 91 "purpose" "prefetch"
    ∷ static 92 "server" ""
    ∷ static 93 "timing-allow-origin" "*"
    ∷ static 94 "upgrade-insecure-requests" "1"
    ∷ static 95 "user-agent" ""
    ∷ static 96 "x-forwarded-for" ""
    ∷ static 97 "x-frame-options" "deny"
    ∷ static 98 "x-frame-options" "sameorigin"
    ∷ []
