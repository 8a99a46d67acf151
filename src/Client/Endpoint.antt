-- ===== src/Client/Endpoint.antt =====
-- `parse_endpoint` of src/client/io.rs.
pub mod Print
use nanofish.Prelude.{
  ℕ, ◌+◌, List, [], ◌∷◌, Option, none, some, if◌then◌else◌, Bytes, take, drop, length, is_empty,
  codes, bytes_eq,
}
use nanofish.Protocol.{default_http_port, default_https_port}
use nanofish.Result.{Result, ok, err, ◌>>=◌, ok_or, invalid_url}
use nanofish.Text.Number.{parse_uint}
use nanofish.Text.Split.{strip_prefix, split_on, rfind_byte}

pub record HttpEndpoint : Type 0 where
  pub scheme : Bytes
  pub host : Bytes
  pub port : ℕ
  pub path : Bytes

abbrev pub u16_max : ℕ
u16_max = 0xffff

-- The scheme, and what stands behind it.
unfoldable pub scheme_of : Bytes → Result (Bytes × Bytes)
unfolding strip_prefix
scheme_of endpoint = elim (strip_prefix (codes "http://") endpoint) [
  | some rest ↦ ok (codes "http", rest)
  | none ↦ elim (strip_prefix (codes "https://") endpoint) [
    | some rest ↦ ok (codes "https", rest)
    | none ↦ err invalid_url
  ]
]

abbrev pub head_of : List Bytes → Option Bytes
head_of [] = none
head_of (part ∷ parts) = some part

-- The host and the port, unless what stands behind the last colon is no port.
unfoldable pub host_and_port : Bytes → ℕ → Bytes × ℕ
unfolding rfind_byte
host_and_port host default_port = elim (rfind_byte b':' host) [
  | none ↦ (host, default_port)
  | some colon_pos ↦ elim (parse_uint u16_max (drop (colon_pos + 1) host)) [
    | none ↦ (host, default_port)
    | some port ↦ (take colon_pos host, port)
  ]
]

-- `if scheme == "https"`, of the two schemes.
default_port_of : Bytes → ℕ
default_port_of scheme =
    if bytes_eq scheme (codes "https") then default_https_port else default_http_port

unfoldable pub parse_endpoint : Bytes → Result HttpEndpoint
unfolding scheme_of host_and_port split_on default_port_of
parse_endpoint endpoint = do
  (scheme, host_port) ← scheme_of endpoint
  host ← ok_or (head_of (split_on b'/' host_port)) invalid_url
  let path = drop (length host) host_port
  let named = host_and_port host (default_port_of scheme)
  ok (record {
    scheme = scheme;
    host = named.0;
    port = named.1;
    path = if is_empty path then b'/' ∷ [] else path;
  })
