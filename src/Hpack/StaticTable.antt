-- ===== src/Hpack/StaticTable.antt =====
-- The static table of src/http2/hpack.js, with its placeholder at index 0.
use tunnelfetch.Prelude.{List, [], ◌∷◌}
pub use tunnelfetch.Prelude.Texts.{Text}
use Prim.Native.Char.{code}
use Prim.Native.String.{String}

abbrev pub units : String → Text
units String.[] = []
units (String.◌∷◌ c s) = code c ∷ units s

unfoldable pub static_table : List (Text × Text)
static_table =
    (units "", units "")
    ∷ (units ":authority", units "")
    ∷ (units ":method", units "GET")
    ∷ (units ":method", units "POST")
    ∷ (units ":path", units "/")
    ∷ (units ":path", units "/index.html")
    ∷ (units ":scheme", units "http")
    ∷ (units ":scheme", units "https")
    ∷ (units ":status", units "200")
    ∷ (units ":status", units "204")
    ∷ (units ":status", units "206")
    ∷ (units ":status", units "304")
    ∷ (units ":status", units "400")
    ∷ (units ":status", units "404")
    ∷ (units ":status", units "500")
    ∷ (units "accept-charset", units "")
    ∷ (units "accept-encoding", units "gzip, deflate")
    ∷ (units "accept-language", units "")
    ∷ (units "accept-ranges", units "")
    ∷ (units "accept", units "")
    ∷ (units "access-control-allow-origin", units "")
    ∷ (units "age", units "")
    ∷ (units "allow", units "")
    ∷ (units "authorization", units "")
    ∷ (units "cache-control", units "")
    ∷ (units "content-disposition", units "")
    ∷ (units "content-encoding", units "")
    ∷ (units "content-language", units "")
    ∷ (units "content-length", units "")
    ∷ (units "content-location", units "")
    ∷ (units "content-range", units "")
    ∷ (units "content-type", units "")
    ∷ (units "cookie", units "")
    ∷ (units "date", units "")
    ∷ (units "etag", units "")
    ∷ (units "expect", units "")
    ∷ (units "expires", units "")
    ∷ (units "from", units "")
    ∷ (units "host", units "")
    ∷ (units "if-match", units "")
    ∷ (units "if-modified-since", units "")
    ∷ (units "if-none-match", units "")
    ∷ (units "if-range", units "")
    ∷ (units "if-unmodified-since", units "")
    ∷ (units "last-modified", units "")
    ∷ (units "link", units "")
    ∷ (units "location", units "")
    ∷ (units "max-forwards", units "")
    ∷ (units "proxy-authenticate", units "")
    ∷ (units "proxy-authorization", units "")
    ∷ (units "range", units "")
    ∷ (units "referer", units "")
    ∷ (units "refresh", units "")
    ∷ (units "retry-after", units "")
    ∷ (units "server", units "")
    ∷ (units "set-cookie", units "")
    ∷ (units "strict-transport-security", units "")
    ∷ (units "transfer-encoding", units "")
    ∷ (units "user-agent", units "")
    ∷ (units "vary", units "")
    ∷ (units "via", units "")
    ∷ (units "www-authenticate", units "")
    ∷ []
