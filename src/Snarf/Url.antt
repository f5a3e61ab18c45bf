-- ===== src/Snarf/Url.antt =====
-- `snarf/src/url.c`: a URL in its parts. Memory for it is taken to be there. A pointer into the
-- working copy is the string that it points to.
use cse.Base.{
  ℕ, ◌+◌, Bool, true, false, ◌&&◌, ◌||◌, Option, none, some, List, [], ◌∷◌, ◌==◌, ltb, codes,
  if◌then◌else◌, take, drop, get_or, length,
}
use cse.Snarf.Strings.{strchr, is_digit, atoi, same_nocase}

-- `struct url`; `stuff` only holds the bytes that the other fields point to.
pub record Url : Type 0 where
  pub method : Option (List ℕ)
  pub hostname : Option (List ℕ)
  pub port : ℕ
  pub path : List ℕ
  pub dnsdone : Bool
  pub addr : ℕ

unfoldable pub url_init : Url
url_init = record { method = none; hostname = none; port = 0; path = []; dnsdone = false; addr = 0 }

-- The loop `*cp != '\0' && *cp != ':' && *cp != '/'`: what it passes.
unfoldable pub host_prefix : List ℕ → List ℕ
host_prefix [] = []
host_prefix (c ∷ s) = let rest = host_prefix s in if c == b':' || c == b'/' then [] else c ∷ rest

-- The loop `isdigit(*cp)`: what it passes.
unfoldable pub digit_prefix : List ℕ → List ℕ
digit_prefix [] = []
digit_prefix (c ∷ s) = let rest = digit_prefix s in if is_digit c then c ∷ rest else []

-- The port number where `cp` is at a colon: the port and the rest.
unfoldable pub parse_port : ℕ → List ℕ → ℕ × List ℕ
parse_port port cp =
    let cp1 = drop 1 cp in
    let digits = digit_prefix cp1 in
    if get_or cp 0 0 == b':' then (atoi digits, drop (length digits) cp1) else (port, cp)

-- After `//` at index `slash`: the host name, the port and the rest.
unfoldable pub parse_host : List ℕ → ℕ → ℕ → List ℕ × ℕ × List ℕ
parse_host s slash port =
    let start = drop (slash + 2) s in
    let host = host_prefix start in
    let (port', cp) = parse_port port (drop (length host) start) in (host, port', cp)

unfoldable pub or_root : List ℕ → List ℕ
or_root [] = codes "/"
or_root (c ∷ s) = c ∷ s

-- The branch with a colon and a slash, at these indices.
unfoldable pub parse_absolute : List ℕ → ℕ → ℕ → Url
parse_absolute s slash colon =
    let before = ltb colon slash in
    let name = take colon s in
    let method = if before then some name else none in
    let port = if before && same_nocase name (codes "http") then 80 else 0 in
    let cp = if before then drop (colon + 1) s else s in
    let (host, port', cp') = parse_host s slash port in
    if get_or s (slash + 1) 0 == b'/'
    then (record url_init {
      method = method;
      hostname = some host;
      port = port';
      path = or_root cp';
    })
    else (record url_init { method = method; port = port; path = or_root cp })

unfoldable pub parse_parts : List ℕ → Option ℕ → Option ℕ → Url
parse_parts s (some slash) (some colon) = parse_absolute s slash colon
parse_parts s none colon = record url_init { path = s }
parse_parts s (some slash) none = record url_init { path = s }

-- A NULL argument gives NULL.
unfoldable pub url_parse : Option (List ℕ) → Option Url
url_parse none = none
url_parse (some s) = some (parse_parts s (strchr s b'/') (strchr s b':'))

unfoldable pub url_method : Option Url → Option (List ℕ)
url_method none = none
url_method (some up) = up.method

unfoldable pub url_hostname : Option Url → Option (List ℕ)
url_hostname none = none
url_hostname (some up) = up.hostname

-- EOF is -1.
unfoldable pub url_port : Option Url → ℕ
url_port none = 0xffffffff
url_port (some up) = up.port

unfoldable pub url_path : Option Url → Option (List ℕ)
url_path none = none
url_path (some up) = some up.path

-- `url_address` with the result of `gethostbyname` for a host name: the address returned, and the
-- URL with its cache.
unfoldable pub resolve : Option ℕ → Url → Option ℕ × Url
resolve none up = (none, up)
resolve (some a) up = (some a, record up { addr = a; dnsdone = true })

unfoldable pub lookup_host : (List ℕ → Option ℕ) → Option (List ℕ) → Url → Option ℕ × Url
lookup_host dns none up = (some up.addr, record up { dnsdone = true })
lookup_host dns (some []) up = (some up.addr, record up { dnsdone = true })
lookup_host dns (some (c ∷ s)) up = resolve (dns (c ∷ s)) up

unfoldable pub url_address : (List ℕ → Option ℕ) → Option Url → Option ℕ × Option Url
url_address dns none = (none, none)
url_address dns (some up) =
    let (a, up') = lookup_host dns up.hostname up in
    if up.dnsdone then (some up.addr, some up) else (a, some up')
