-- ===== src/Snarf/Http.antt =====
-- `snarf/src/http.c`: a connection and its state. The stream of a connection is the bytes sent so far
-- and the bytes that the server will still send; whether a write to it fails is an argument. Memory
-- is taken to be there.
pub mod Request
pub mod HeadersRoundTrip
pub mod Session
use cse.Base.{
  ℕ, zero, suc, ◌+◌, ◌-◌, ◌^◌, Bool, true, false, not, ◌&&◌, ◌||◌, Option, none, some, List, [],
  ◌∷◌, ◌++◌, ◌==◌, ltb, codes, if◌then◌else◌, take, drop, get_or, length, reverse,
}
use cse.Snarf.Strings.{same_nocase, decimal}
use cse.Snarf.Url.{Url}

pub data HttpState : Type 0 where
  st_req st_hdrs st_body st_done : HttpState

-- `struct HDRNODE`
pub record HdrNode : Type 0 where
  pub key : List ℕ
  pub value : List ℕ

-- The list of headers. `dangling` says that the pointer after the last node, or `head` where there is
-- none, points to a node that was freed.
pub record Headers : Type 0 where
  pub nodes : List HdrNode
  pub dangling : Bool

-- `struct http`, its stream as `sent` and `incoming`.
pub record Http : Type 0 where
  pub sent : List ℕ
  pub incoming : List ℕ
  pub state : HttpState
  pub code : ℕ
  pub version : List ℕ
  pub response : List ℕ
  pub headers : Headers

abbrev no_headers : Headers
no_headers = record { nodes = []; dangling = false }

-- `http_open` on a connection that was made: `incoming` is what the server sends.
unfoldable pub http_open : List ℕ → Http
http_open incoming = record {
  sent = [];
  incoming = incoming;
  state = st_req;
  code = 0;
  version = [];
  response = [];
  headers = no_headers;
}

-- `%s` of a string or of NULL.
unfoldable pub print_string : Option (List ℕ) → List ℕ
print_string none = codes "(null)"
print_string (some s) = s

-- `%d` of an int.
unfoldable pub signed_decimal : ℕ → List ℕ
signed_decimal n = if ltb n (2 ^ 31) then decimal n else b'-' ∷ decimal (2 ^ 32 - n)

-- `%s://%s:%d%s`
unfoldable pub url_text : Url → List ℕ
url_text up =
    print_string up.method
    ++ (codes "://"
        ++ (print_string up.hostname ++ (codes ":" ++ (signed_decimal up.port ++ up.path))))

unfoldable pub request_text : Url → List ℕ
request_text up =
    codes "GET "
    ++ (url_text up ++ (codes " HTTP/1.0\r\nHost: " ++ (print_string up.hostname ++ codes "\r\n")))

abbrev pub is_state : HttpState → HttpState → Bool
is_state st_req st_req = true
is_state st_hdrs st_hdrs = true
is_state st_body st_body = true
is_state st_done st_done = true
is_state s t = false

-- The returned int as a Bool that is true for a failure, and the connection.
unfoldable pub http_request : Bool → Http → Url → Bool × Http
http_request fails http up =
    if not (is_state http.state st_req) || fails
    then (true, http)
    else (false, record http { sent = http.sent ++ request_text up; state = st_hdrs })

-- `getline`: the next line with its end, and the rest; the line is empty only at the end of input.
unfoldable pub getline : List ℕ → List ℕ × List ℕ
getline [] = ([], [])
getline (c ∷ s) =
    let (line, rest) = getline s in if c == b'\n' then (c ∷ [], s) else (c ∷ line, rest)

-- The line without the `\r` and `\n` at its end.
unfoldable pub chomp : List ℕ → List ℕ
chomp [] = []
chomp (c ∷ s) = join c (chomp s)
  where
    join : ℕ → List ℕ → List ℕ
    join c [] = if c == b'\n' || c == b'\r' then [] else c ∷ []
    join c (d ∷ s) = c ∷ d ∷ s

unfoldable pub skip_spaces : List ℕ → List ℕ
skip_spaces [] = []
skip_spaces (c ∷ s) = let rest = skip_spaces s in if c == b' ' then rest else c ∷ s

-- The loop `*cp != ':' && *cp != '\0'`: what it passes.
unfoldable pub key_prefix : List ℕ → List ℕ
key_prefix [] = []
key_prefix (c ∷ s) = let rest = key_prefix s in if c == b':' then [] else c ∷ rest

-- A header line that is not empty, or none where it has no colon with a space after it.
unfoldable pub parse_line : List ℕ → Option HdrNode
parse_line l =
    let s = skip_spaces l in
    let key = key_prefix s in
    let cp = drop (length key) s in
    if get_or cp 0 0 == 0 || not (get_or cp 1 0 == b' ')
    then none
    else some (record { key = key; value = skip_spaces (drop 1 cp) })

-- A node is linked before its line is parsed; where the line is refused it is freed, and stays
-- linked until the next node takes its place.
unfoldable pub link_node : Option HdrNode → Headers → Headers
link_node none hs = record { nodes = hs.nodes; dangling = true }
link_node (some node) hs = record { nodes = hs.nodes ++ (node ∷ []); dangling = false }

-- The loop over the lines, with fuel for them: the headers, and the input after them.
unfoldable pub header_loop : ℕ → List ℕ → Headers → Headers × List ℕ
header_loop zero input hs = (hs, input)
header_loop (suc fuel) input hs =
    let (line, rest) = getline input in
    let l = chomp line in
    let more = header_loop fuel rest (link_node (parse_line l) hs) in
    if length line == 0 || length l == 0 then (hs, rest) else more

-- Each line has a byte at least, so the length of the input is enough fuel.
unfoldable pub http_parse_headers : List ℕ → Headers × List ℕ
http_parse_headers input = header_loop (suc (length input)) input no_headers

unfoldable pub find_header : List HdrNode → List ℕ → Option HdrNode
find_header [] key = none
find_header (n ∷ ns) key =
    let rest = find_header ns key in if same_nocase n.key key then some n else rest

-- What `http_headers_lookup` finds; `wild` is an access to a freed node.
pub data Lookup : Type 0 where
  found : List ℕ → Lookup
  missing wild : Lookup

unfoldable pub lookup_result : Bool → Option HdrNode → Lookup
lookup_result dangling (some n) = found n.value
lookup_result true none = wild
lookup_result false none = missing

unfoldable pub http_headers_lookup : Http → List ℕ → Lookup
http_headers_lookup http key =
    lookup_result http.headers.dangling (find_header http.headers.nodes key)

module _ (scan_status : List ℕ → Option (List ℕ × ℕ)) where
  -- The end of `http_response`, from what `sscanf` reads of the status line: the version and the
  -- code, or none where it does not read both.
  unfoldable pub read_reply : Option (List ℕ × ℕ) → List ℕ → List ℕ → Http → Bool × Http
  read_reply none line rest http = (true, record http { response = line; incoming = rest })
  read_reply (some (version, code)) line rest http =
      let (hs, body) = http_parse_headers rest in
      (
        false,
        record http {
          response = line;
          incoming = body;
          version = version;
          code = code;
          headers = hs;
          state = st_body;
        },
      )

  unfoldable pub http_response : Bool → Http → Bool × Http
  http_response fails http =
      let (line, rest) = getline http.incoming in
      let asked = record http { sent = http.sent ++ codes "\r\n" } in
      let reply = read_reply (scan_status (chomp line)) (chomp line) rest asked in
      if not (is_state http.state st_hdrs) || fails
      then (true, http)
      else if length line == 0
      then (true, asked)
      else reply

unfoldable pub http_status : Http → Option (List ℕ × ℕ)
http_status http = if is_state http.state st_body then some (http.response, http.code) else none

unfoldable pub next_byte : List ℕ → Http → Option ℕ × Http
next_byte [] http = (none, http)
next_byte (c ∷ rest) http = (some c, record http { incoming = rest })

-- `none` is EOF.
unfoldable pub http_getc : Http → Option ℕ × Http
http_getc http =
    let read = next_byte http.incoming http in
    if is_state http.state st_body then read else (none, http)
