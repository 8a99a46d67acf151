-- ===== src/Client/Endpoint/Print.antt =====
-- A URL that is put together from its parts is taken apart again.
use nanofish.Client.Endpoint.{
  u16_max, scheme_of, head_of, host_and_port, default_port_of, parse_endpoint,
}
use nanofish.Prelude.{
  ℕ, ◌+◌, ◌≤◌, ◌≢◌, Bool, true, false, [], ◌∷◌, ◌++◌, Option, none, some, ◌≡◌, refl, ap, ◌∙◌,
  if◌then◌else◌, Bytes, length, is_empty, codes, arith, All, All-append, take_append, drop_append,
  drop-append_add, append-nil, bytes_eq,
}
use nanofish.Protocol.{default_http_port, default_https_port}
use nanofish.Response.Write.Decimal.{decimal}
use nanofish.Result.{ok}
use nanofish.Text.Number.Print.{IsDigit, print_radix-IsDigit, from_str_radix-print_radix}
use nanofish.Text.Split.Plain.{Lacks, split_on_of_Lacks}
use nanofish.Text.Split.{split_on, rfind_byte, strip_prefix}

abbrev pub scheme_text : Bool → Bytes
scheme_text secure = if secure then codes "https" else codes "http"

abbrev pub port_text : Option ℕ → Bytes
port_text none = []
port_text (some port) = b':' ∷ decimal port

abbrev pub port_or_default : Bool → Option ℕ → ℕ
port_or_default secure (some port) = port
port_or_default secure none = if secure then default_https_port else default_http_port

-- An authority ends at a slash or with the URL.
abbrev pub IsPath : Bytes → Type 0
IsPath [] = Unit
IsPath (b ∷ path) = b ≡ b'/'

-- A port is a `u16`.
abbrev pub IsPort : Option ℕ → Type 0
IsPort none = Unit
IsPort (some port) = port ≤ u16_max

rfind_byte-none : (c : ℕ) (s : Bytes) → Lacks c s → rfind_byte c s ≡ none
unfolding rfind_byte
rfind_byte-none c [] h = refl
rfind_byte-none c (a ∷ s) (h, hs) = rw (rfind_byte-none c s hs) (ground arith)

rfind_byte_last : (c : ℕ) (s t : Bytes) → Lacks c t → rfind_byte c (s ++ c ∷ t) ≡ some (length s)
unfolding rfind_byte
rfind_byte_last c [] t h = rw (rfind_byte-none c t h) (ground arith)
rfind_byte_last c (a ∷ s) t h = rw (rfind_byte_last c s t h) refl

split_on_first : (c : ℕ) (s t : Bytes) → Lacks c s → split_on c (s ++ c ∷ t) ≡ s ∷ split_on c t
unfolding split_on
split_on_first c [] t h = ground arith
split_on_first c (a ∷ s) t (h, hs) = ground (arith, split_on_first c s t hs)

head_of-split_on :
    (s path : Bytes) → Lacks b'/' s → IsPath path → head_of (split_on b'/' (s ++ path)) ≡ some s
head_of-split_on s [] h k =
    ap (λ t. head_of (split_on b'/' t)) (append-nil s) ∙ ap head_of (split_on_of_Lacks b'/' s h)
head_of-split_on s (b ∷ path) h k =
    ap (λ c. head_of (split_on b'/' (s ++ c ∷ path))) k ∙ ap head_of (split_on_first b'/' s path h)

All_imp_digit : (c : ℕ) (s : Bytes) → ((b : ℕ) → IsDigit b → b ≢ c) → All IsDigit s → Lacks c s
All_imp_digit c [] f h = tt
All_imp_digit c (b ∷ s) f h = (f b h.0, All_imp_digit c s f h.1)

digits : (port : ℕ) → All IsDigit (decimal port)
digits port = print_radix-IsDigit 10 (omega arith) (omega arith) port

abbrev pub IsHost : Bytes → Option ℕ → Type 0
IsHost host none = Lacks b'/' host × Lacks b':' host
IsHost host (some port) = Lacks b'/' host

authority-Lacks :
    (host : Bytes) (port : Option ℕ) → IsHost host port → Lacks b'/' (host ++ port_text port)
authority-Lacks host none h = All-append (λ b. b ≢ b'/') host [] h.0 tt
authority-Lacks host (some port) h =
    All-append (λ b. b ≢ b'/') host (b':' ∷ decimal port) h
      (omega arith, All_imp_digit b'/' (decimal port) (λ b d. omega arith) (digits port))

host_and_port-text :
    (secure : Bool) (host : Bytes) (port : Option ℕ)
    → IsHost host port
    → IsPort port
    → host_and_port (host ++ port_text port) (port_or_default secure none)
      ≡ (host, port_or_default secure port)
unfolding host_and_port
host_and_port-text secure host none h k =
    rw (append-nil host) (rw (rfind_byte-none b':' host h.1, host_and_port) refl)
host_and_port-text secure host (some port) h k =
    rw
      (
        rfind_byte_last b':' host (decimal port)
            (All_imp_digit b':' (decimal port) (λ b d. omega arith) (digits port)),
        host_and_port,
      )
      (rw (drop-append_add host (b':' ∷ decimal port) (length host + 1) 1 refl, host_and_port)
        (rw
          (from_str_radix-print_radix 10 u16_max port (omega arith) (omega arith) k, host_and_port)
          (ap (λ s. (s, port)) (take_append host (b':' ∷ decimal port) (length host) refl))))

scheme_of-text :
    (secure : Bool) (rest : Bytes)
    → scheme_of (scheme_text secure ++ (codes "://" ++ rest)) ≡ ok (scheme_text secure, rest)
unfolding scheme_of strip_prefix
scheme_of-text true rest = refl
scheme_of-text false rest = refl

default_port-text :
    (secure : Bool) → default_port_of (scheme_text secure) ≡ port_or_default secure none
unfolding default_port_of bytes_eq
default_port-text true = refl
default_port-text false = refl

-- A URL of either scheme, with a host without a slash, a port or none, and a path that is empty or
-- begins with a slash, is taken apart into these parts, with the default port of the scheme for no
-- port, if the host has no colon then, and a slash for an empty path.
pub parse_endpoint-text :
    (secure : Bool) (host : Bytes) (port : Option ℕ) (path : Bytes)
    → IsHost host port
    → IsPort port
    → IsPath path
    → parse_endpoint (scheme_text secure ++ (codes "://" ++ ((host ++ port_text port) ++ path)))
      ≡ ok (record {
        scheme = scheme_text secure;
        host = host;
        port = port_or_default secure port;
        path = if is_empty path then b'/' ∷ [] else path;
      })
unfolding parse_endpoint
parse_endpoint-text secure host port path h k l =
    let authority = host ++ port_text port in
    rw (scheme_of-text secure (authority ++ path)) (
      rw (head_of-split_on authority path (authority-Lacks host port h) l) (
        rw (drop_append authority path (length authority) refl)
          (rw (default_port-text secure) (rw (host_and_port-text secure host port h k) refl))))
