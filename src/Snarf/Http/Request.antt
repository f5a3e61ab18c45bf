-- ===== src/Snarf/Http/Request.antt =====
-- `url_parse` reads the URL that `http_request` prints.
use cse.Base.{
  ℕ, zero, suc, ◌+◌, ◌^◌, ◌<◌, ◌≡◌, refl, sym, ap, ◌∙◌, true, false, ◌||◌, some, List, [], ◌∷◌,
  ◌++◌, ◌==◌, ltb, codes, if◌then◌else◌, drop, get_or, length, arith, length-append,
}
use mathlib.Core.List.{append_assoc}
use cse.Snarf.Strings.{strchr, same_nocase, decimal}
use cse.Snarf.Strings.Laws.{
  Lacks, Lacks-append, strchr-append, take-append, drop-append, Digits, decimal-Digits,
  atoi-decimal,
}
use cse.Snarf.Url.{
  Url, url_init, url_parse, parse_parts, parse_absolute, parse_host, parse_port, host_prefix,
  digit_prefix, or_root,
}
use cse.Snarf.Http.{url_text, print_string, signed_decimal}

host_prefix-append :
    (h t : List ℕ) → Lacks b':' h → Lacks b'/' h → host_prefix (h ++ (b':' ∷ t)) ≡ h
unfolding host_prefix
host_prefix-append [] t c s = refl
host_prefix-append (d ∷ h) t c s = rw (passes, host_prefix-append h t c.1 s.1) refl
  where
    passes : (d == b':' || d == b'/') ≡ false
    passes = ground (arith, c.0, s.0)

digit_prefix-append : (ds t : List ℕ) → Digits ds → digit_prefix (ds ++ (b'/' ∷ t)) ≡ ds
unfolding digit_prefix
digit_prefix-append [] t h = refl
digit_prefix-append (d ∷ ds) t h = rw (h.0, digit_prefix-append ds t h.1) refl

get_or-append : (s t : List ℕ) (i j : ℕ) → j ≡ length s + i → get_or (s ++ t) j 0 ≡ get_or t i 0
get_or-append [] t i j e = ap (λ k. get_or t k 0) (e ∙ omega arith)
get_or-append (c ∷ s) t i zero e = absurd (omega arith)
get_or-append (c ∷ s) t i (suc j) e = get_or-append s t i j (omega arith)

drop-append_add : (s t : List ℕ) (i j : ℕ) → j ≡ length s + i → drop j (s ++ t) ≡ drop i t
drop-append_add [] t i j e = ap (λ k. drop k t) (e ∙ omega arith)
drop-append_add (c ∷ s) t i zero e = absurd (omega arith)
drop-append_add (c ∷ s) t i (suc j) e = drop-append_add s t i j (omega arith)

-- Method and host name without a colon or a slash, a port, and a path from the root.
abbrev pub IsFull : List ℕ → List ℕ → ℕ → Type 0
IsFull m h port = Lacks b':' m × Lacks b'/' m × Lacks b':' h × Lacks b'/' h × (port < 2 ^ 31)

abbrev pub full_url : List ℕ → List ℕ → ℕ → List ℕ → Url
full_url m h port p = record {
  method = some m;
  hostname = some h;
  port = port;
  path = b'/' ∷ p;
  dnsdone = false;
  addr = 0;
}

-- What follows the method.
tail : List ℕ → ℕ → List ℕ → List ℕ
tail h port p = b'/' ∷ b'/' ∷ (h ++ (b':' ∷ (decimal port ++ (b'/' ∷ p))))

parse_port-decimal :
    (n port : ℕ) (p : List ℕ)
    → port < 2 ^ 32
    → parse_port n (b':' ∷ (decimal port ++ (b'/' ∷ p))) ≡ (port, b'/' ∷ p)
unfolding parse_port
parse_port-decimal n port p l =
    rw
      (
        digit_prefix-append (decimal port) p (decimal-Digits port),
        atoi-decimal port l,
        drop-append (decimal port) (b'/' ∷ p),
      )
      refl

parse_host-tail :
    (m h : List ℕ) (n port : ℕ) (p : List ℕ)
    → Lacks b':' h
    → Lacks b'/' h
    → port < 2 ^ 32
    → parse_host (m ++ (b':' ∷ tail h port p)) (length m + 1) n ≡ (h, port, b'/' ∷ p)
unfolding parse_host tail
parse_host-tail m h n port p c d l =
    rw
      (
        drop-append_add m (b':' ∷ tail h port p) 3 (length m + 1 + 2) (omega arith),
        host_prefix-append h (decimal port ++ (b'/' ∷ p)) c d,
        drop-append h (b':' ∷ (decimal port ++ (b'/' ∷ p))),
        parse_port-decimal n port p l,
      )
      refl

slash_at :
    (m h : List ℕ) (port : ℕ) (p : List ℕ)
    → Lacks b'/' m
    → strchr (m ++ (b':' ∷ tail h port p)) b'/' ≡ some (length m + 1)
unfolding tail
slash_at m h port p b =
    ap (λ s. strchr s b'/') (sym (append_assoc m (b':' ∷ []) (tail h port p)))
    ∙ strchr-append (m ++ (b':' ∷ [])) (b'/' ∷ (h ++ (b':' ∷ (decimal port ++ (b'/' ∷ p))))) b'/'
        (Lacks-append b'/' m (b':' ∷ []) b ((ground arith), tt))
    ∙ ap some (length-append m (b':' ∷ []))

parse_absolute-tail :
    (m h : List ℕ) (port : ℕ) (p : List ℕ)
    → Lacks b':' h
    → Lacks b'/' h
    → port < 2 ^ 32
    → parse_absolute (m ++ (b':' ∷ tail h port p)) (length m + 1) (length m) ≡ full_url m h port p
unfolding parse_absolute url_init or_root tail
parse_absolute-tail m h port p c d l =
    rw
      (
        before,
        take-append m (b':' ∷ tail h port p),
        slashes,
        parse_host-tail m h (if same_nocase m (codes "http") then 80 else 0) port p c d l,
      )
      refl
  where
    before : ltb (length m) (length m + 1) ≡ true
    before = ground arith

    slashes : (get_or (m ++ (b':' ∷ tail h port p)) (length m + 1 + 1) 0 == b'/') ≡ true
    slashes = rw (get_or-append m (b':' ∷ tail h port p) 2 (length m + 1 + 1) (omega arith)) refl

signed_decimal-decimal : (n : ℕ) → n < 2 ^ 31 → signed_decimal n ≡ decimal n
unfolding signed_decimal
signed_decimal-decimal n l = rw below refl
  where
    below : ltb n (2 ^ 31) ≡ true
    below = ground (arith, l)

-- A URL with a method and a host name that have no colon and no slash, a port below 2 ^ 31 and a
-- path from the root is what url_parse gives for the text that http_request prints of it.
pub url_parse-url_text :
    (m h : List ℕ) (port : ℕ) (p : List ℕ)
    → IsFull m h port
    → url_parse (some (url_text (full_url m h port p))) ≡ some (full_url m h port p)
unfolding url_parse url_text print_string parse_parts tail
url_parse-url_text m h port p f =
    rw
      (
        signed_decimal-decimal port f.4,
        slash_at m h port p f.1,
        strchr-append m (tail h port p) b':' f.0,
        parse_absolute-tail m h port p f.2 f.3 (omega (arith, f.4)),
      )
      refl
