-- ===== src/Snarf/Http/Session.antt =====
-- A whole exchange on a connection: request, reply, and the document byte by byte.
use cse.Base.{
  ℕ, zero, suc, ◌<◌, ◌≡◌, refl, Bool, false, Option, none, some, List, [], ◌∷◌, ◌++◌, ◌==◌, codes,
  length, All, arith, length-append,
}
use cse.Snarf.Url.{Url}
use cse.Snarf.Http.{
  st_hdrs, st_body, HdrNode, Http, http_open, http_request, request_text, http_response, read_reply,
  http_getc, next_byte,
}
use cse.Snarf.Http.HeadersRoundTrip.{
  IsText, IsHeader, header_block, line_end, chomp-text, http_parse_headers-header_block,
}

-- `http_getc` until EOF, with fuel: the document, or none where the fuel runs out.
abbrev pub read_document : ℕ → Http → Option (List ℕ)
read_document zero http = none
read_document (suc fuel) http = collect (http_getc http).0 (read_document fuel (http_getc http).1)
  where
    collect : Option ℕ → Option (List ℕ) → Option (List ℕ)
    collect none rest = some []
    collect (some c) none = none
    collect (some c) (some s) = some (c ∷ s)

read_document-incoming :
    (fuel : ℕ) (s : List ℕ) (http : Http)
    → length s < fuel
    → read_document fuel (record http { incoming = s; state = st_body }) ≡ some s
unfolding http_getc next_byte
read_document-incoming zero s http l = absurd (omega arith)
read_document-incoming (suc fuel) [] http l = refl
read_document-incoming (suc fuel) (c ∷ s) http l =
    rw (read_document-incoming fuel s http (omega arith)) refl

-- What the server sends: a status line, the header lines, and the document.
abbrev pub reply_of : List ℕ → List HdrNode → List ℕ → List ℕ
reply_of line ns body = line ++ (b'\r' ∷ b'\n' ∷ header_block ns body)

module _ (scan_status : List ℕ → Option (List ℕ × ℕ)) where
  -- The connection after the request and the reply.
  abbrev pub after_reply : Url → List ℕ → Bool × Http
  after_reply up incoming =
      http_response scan_status false (http_request false (http_open incoming) up).1

  response_lem :
      (http : Http) (line : List ℕ) (ns : List HdrNode) (body version : List ℕ) (code : ℕ)
      → http.state ≡ st_hdrs
      → IsText line
      → All IsHeader ns
      → scan_status line ≡ some (version, code)
      → http_response scan_status false (record http { incoming = reply_of line ns body }) ≡ (
        false,
        record http {
          sent = http.sent ++ codes "\r\n";
          response = line;
          incoming = body;
          version = version;
          code = code;
          headers = record { nodes = ns; dangling = false };
          state = st_body;
        },
      )
  unfolding http_response read_reply
  response_lem http line ns body version code e t h s =
      rw
        (
          e,
          line_end line (header_block ns body) t,
          chomp-text line t,
          s,
          http_parse_headers-header_block ns body h,
          more,
        )
        refl
    where
      more : (length (line ++ (b'\r' ∷ b'\n' ∷ [])) == 0) ≡ false
      more = ground (arith, length-append line (b'\r' ∷ b'\n' ∷ []))

  -- A request and the reply of a server that sends a status line which `sscanf` reads, header lines
  -- and a document: both calls succeed, the code and the headers are those that were sent, and
  -- `http_getc` until EOF gives the document.
  pub http_response-reply_of :
      (up : Url) (line : List ℕ) (ns : List HdrNode) (body version : List ℕ) (code : ℕ)
      → IsText line
      → All IsHeader ns
      → scan_status line ≡ some (version, code)
      → ((http_request false (http_open (reply_of line ns body)) up).0 ≡ false)
        × ((after_reply up (reply_of line ns body)).0 ≡ false)
        × ((after_reply up (reply_of line ns body)).1.code ≡ code)
        × ((after_reply up (reply_of line ns body)).1.headers.nodes ≡ ns)
        × (read_document (suc (length body)) (after_reply up (reply_of line ns body)).1 ≡ some body)
  unfolding http_request http_open
  http_response-reply_of up line ns body version code t h s =
      rw
        (response_lem (record (http_open []) { sent = request_text up; state = st_hdrs }) line ns
          body version code refl t h s)
        (
          refl,
          refl,
          refl,
          refl,
          read_document-incoming (suc (length body)) body
              (record (http_open []) {
                sent = request_text up ++ codes "\r\n";
                response = line;
                version = version;
                code = code;
                headers = record { nodes = ns; dangling = false };
              })
              (omega arith),
        )
