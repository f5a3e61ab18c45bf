-- ===== src/Snarf/Tests.antt =====
-- Runs on small inputs, and the theorems at concrete inputs.
use cse.Base.{ℕ, ◌≡◌, refl, false, Option, some, List, [], ◌∷◌, codes, arith}
use cse.Snarf.Url.{
  Url, url_parse, parse_parts, parse_absolute, parse_host, parse_port, host_prefix, digit_prefix,
  or_root, url_init,
}
use cse.Snarf.Strings.{strchr, same_nocase, tolower}
use cse.Snarf.Http.{HdrNode, http_open, http_request, http_parse_headers, url_text}
use cse.Snarf.Http.Request.{full_url, url_parse-url_text}
use cse.Snarf.Http.HeadersRoundTrip.{IsHeader, header_block, http_parse_headers-header_block}
use cse.Snarf.Http.Session.{reply_of, after_reply, read_document, http_response-reply_of}

-- Without a port number, `http` gives port 80.
default_port :
    url_parse (some (codes "HTTP://a.b/c"))
    ≡ some (record {
      method = some (codes "HTTP");
      hostname = some (codes "a.b");
      port = 80;
      path = codes "/c";
      dnsdone = false;
      addr = 0;
    })
unfolding url_parse parse_parts parse_absolute parse_host parse_port host_prefix digit_prefix
    or_root url_init strchr same_nocase tolower
default_port = refl

url_parse-url_text_example :
    url_parse (some (url_text (full_url (codes "http") (codes "a.b") 8080 (codes "x"))))
    ≡ some (full_url (codes "http") (codes "a.b") 8080 (codes "x"))
url_parse-url_text_example =
    url_parse-url_text (codes "http") (codes "a.b") 8080 (codes "x") ground arith

abbrev agent : HdrNode
agent = record { key = codes "Ab"; value = codes "c" }

agent-IsHeader : IsHeader agent
agent-IsHeader = record {
  key_text = ground arith;
  value_text = ground arith;
  no_colon = ground arith;
  key_start = ground arith;
  value_start = ground arith;
}

http_parse_headers-header_block_example :
    http_parse_headers (header_block (agent ∷ []) (codes "body"))
    ≡ (record { nodes = agent ∷ []; dangling = false }, codes "body")
http_parse_headers-header_block_example =
    http_parse_headers-header_block (agent ∷ []) (codes "body") (agent-IsHeader, tt)

abbrev scan : List ℕ → Option (List ℕ × ℕ)
scan line = some (codes "1.0", 200)

abbrev server : List ℕ
server = reply_of (codes "HTTP/1.0 200 OK") (agent ∷ []) (codes "body")

abbrev page : Url
page = full_url (codes "http") (codes "a.b") 8080 (codes "x")

http_response-reply_of_example :
    ((http_request false (http_open server) page).0 ≡ false)
    × ((after_reply scan page server).0 ≡ false)
    × ((after_reply scan page server).1.code ≡ 200)
    × ((after_reply scan page server).1.headers.nodes ≡ agent ∷ [])
    × (read_document 5 (after_reply scan page server).1 ≡ some (codes "body"))
http_response-reply_of_example =
    http_response-reply_of scan page (codes "HTTP/1.0 200 OK") (agent ∷ []) (codes "body")
      (codes "1.0") 200 (ground arith) (agent-IsHeader, tt) refl
