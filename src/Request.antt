-- ===== src/Request.antt =====
-- src/request.rs: requests, their query strings, and the reader of requests.
pub mod Decode
pub mod Query
pub mod Find
pub mod Indexed
pub mod Ends
use nanofish.Header.{HttpHeader, content_type_name, content_length_name}
use nanofish.Heapless.{Heapless}
use nanofish.Method
use nanofish.Method.{HttpMethod}
use nanofish.Prelude.{
  ℕ, zero, suc, ◌+◌, Bool, true, false, List, [], ◌∷◌, Option, none, some, and_then, ◌==◌,
  if◌then◌else◌, Bytes, take, drop, is_empty, codes, bytes_eq, length,
}
use nanofish.Protocol.{find_double_crlf, double_crlf_len, max_headers, split_header}
use nanofish.Response.{find_header}
use nanofish.Result.{Result, ok, err, ◌>>=◌, ok_or, invalid_response}
use nanofish.Text.Number.{parse_uint}
use nanofish.Text.Space.{split_whitespace}
use nanofish.Text.Split.{split_once, split_on, strip_prefix, strip_suffix, lines}
use nanofish.Text.Utf8.{from_utf8}
use mathlib.Core.Option

pub record QueryPair : Type 0 where
  pub name : Bytes
  pub value : Bytes

pub record HttpRequest : Type 0 where
  pub method : HttpMethod
  pub path : Bytes
  pub version : Bytes
  pub headers : List HttpHeader
  pub body : Bytes

split_pair : Bytes → Option (Bytes × Bytes) → QueryPair
split_pair segment none = record { name = segment; value = [] }
split_pair segment (some (name, value)) = record { name = name; value = value }

-- The pair of one segment between `&`s.
unfoldable pub pair_of : Bytes → QueryPair
unfolding split_pair split_once
pair_of segment = split_pair segment (split_once b'=' segment)

segment_and_rest : Bytes → Option (Bytes × Bytes) → Bytes × Bytes
segment_and_rest s none = (s, [])
segment_and_rest s (some cut) = cut

-- One round of the loop of `QueryPairs::next`: the next segment and what remains.
unfoldable pub next_segment : Bytes → Bytes × Bytes
unfolding segment_and_rest split_once
next_segment remaining = segment_and_rest remaining (split_once b'&' remaining)

-- The loop of `QueryPairs::next`, on fuel: the pair and what remains behind it.
unfoldable pub next_pair : ℕ → Bytes → Option (QueryPair × Bytes)
unfolding next_segment pair_of
next_pair zero remaining = none
next_pair (suc fuel) remaining =
    let cut = next_segment remaining in
    let again = next_pair fuel cut.1 in
    if is_empty cut.0 then if is_empty cut.1 then none else again else some (pair_of cut.0, cut.1)

-- What the iterator yields until its first `None`, on fuel.
unfoldable pub collect_pairs : ℕ → Bytes → List QueryPair
unfolding next_pair
collect_pairs zero remaining = []
collect_pairs (suc fuel) remaining = elim (next_pair (suc fuel) remaining) [
  | none ↦ []
  | some found ↦ found.0 ∷ collect_pairs fuel found.1
]

-- `find` and then the value.
unfoldable pub find_pair : (QueryPair → Bool) → List QueryPair → Option Bytes
find_pair wanted [] = none
find_pair wanted (p ∷ ps) = if wanted p then some p.value else find_pair wanted ps

-- `filter` and then the values.
unfoldable pub values_where : (QueryPair → Bool) → List QueryPair → List Bytes
values_where wanted [] = []
values_where wanted (p ∷ ps) =
    let rest = values_where wanted ps in if wanted p then p.value ∷ rest else rest

-- `QueryValues::next`, on the pairs that are still to come: the next value, and the pairs behind it.
unfoldable pub next_value : Bytes → List QueryPair → Option (Bytes × List QueryPair)
unfolding bytes_eq
next_value name [] = none
next_value name (p ∷ ps) = if bytes_eq p.name name then some (p.value, ps) else next_value name ps

-- What that iterator yields until its first `None`, on fuel.
unfoldable pub collect_values : ℕ → Bytes → List QueryPair → List Bytes
unfolding next_value
collect_values zero name ps = []
collect_values (suc fuel) name ps = elim (next_value name ps) [
  | none ↦ []
  | some found ↦ found.0 ∷ collect_values fuel name found.1
]

abbrev pub last : List Bytes → Option Bytes
last [] = none
last (v ∷ []) = some v
last (v ∷ w ∷ vs) = last (w ∷ vs)

abbrev pub is_named : Bytes → QueryPair → Bool
is_named name p = bytes_eq p.name name

index_text : Bytes → Bytes → Option Bytes
unfolding strip_prefix strip_suffix
index_text query_name name =
    and_then (strip_prefix name query_name)
      λ rest. and_then (strip_prefix (b'[' ∷ []) rest) λ rest. strip_suffix (b']' ∷ []) rest

-- `parse().ok() == Some(index)`.
is_index : Option ℕ → ℕ → Bool
is_index none index = false
is_index (some i) index = i == index

unfoldable pub query_name_matches_index : ℕ → Bytes → Bytes → ℕ → Bool
unfolding index_text is_index
query_name_matches_index usize_max query_name name index =
    is_index (and_then (index_text query_name name) (parse_uint usize_max)) index

module _ (r : HttpRequest) where
  unfoldable pub route_path : Bytes
  unfolding segment_and_rest split_once
  route_path = (segment_and_rest r.path (split_once b'?' r.path)).0

  unfoldable pub query_string : Option Bytes
  unfolding split_once
  query_string = Option.map (λ cut. cut.1) (split_once b'?' r.path)

  unfoldable pub query_pairs : List QueryPair
  unfolding query_string collect_pairs
  query_pairs = elim query_string [
    | none ↦ collect_pairs 1 []
    | some query ↦ collect_pairs (suc (length query)) query
  ]

  -- `query`, `query_param` and `query_first`.
  unfoldable pub query_first : Bytes → Option Bytes
  unfolding query_pairs find_pair
  query_first name = find_pair (is_named name) query_pairs

  unfoldable pub query_last : Bytes → Option Bytes
  unfolding query_pairs values_where
  query_last name = last (values_where (is_named name) query_pairs)

  unfoldable pub query_all : Bytes → List Bytes
  unfolding query_pairs collect_values
  query_all name = collect_values (suc (length query_pairs)) name query_pairs

  unfoldable pub query_indexed : ℕ → Bytes → ℕ → Option Bytes
  unfolding query_pairs find_pair query_name_matches_index
  query_indexed usize_max name index =
      find_pair (λ p. query_name_matches_index usize_max p.name name index) query_pairs

  abbrev pub header : Bytes → Option Bytes
  header name = find_header name r.headers

  unfoldable pub body_str : Result Bytes
  unfolding from_utf8
  body_str = ok_or (from_utf8 r.body) (invalid_response "Invalid UTF-8 in request body")

  abbrev pub content_type : Option Bytes
  content_type = header content_type_name

  abbrev pub content_length : ℕ → Option ℕ
  content_length usize_max = and_then (header content_length_name) (parse_uint usize_max)

module _ (hp : Heapless) where
  -- The loop over the header lines, up to an empty one.
  unfoldable pub collect_lines : List HttpHeader → List Bytes → Result (List HttpHeader)
  unfolding split_header
  collect_lines headers [] = ok headers
  collect_lines headers (line ∷ lines) = elim (is_empty line) [
    | true ↦ ok headers
    | false ↦ elim (split_header line) [
      | none ↦ collect_lines headers lines
      | some h ↦
          ok_or (hp.push HttpHeader max_headers headers h) (invalid_response "Too many headers")
          >>= λ more. collect_lines more lines
    ]
  ]

  -- The three parts of the request line, each with its own error.
  unfoldable pub request_parts : List Bytes → Result (Bytes × Bytes × Bytes)
  request_parts [] = err (invalid_response "Missing method")
  request_parts (method ∷ []) = err (invalid_response "Missing path")
  request_parts (method ∷ path ∷ []) = err (invalid_response "Missing version")
  request_parts (method ∷ path ∷ version ∷ rest) = ok (method, path, version)

  -- The lines, the first of them the request line.
  unfoldable pub parse_lines : List Bytes → Bytes → Result HttpRequest
  unfolding collect_lines request_parts
  parse_lines [] body = err (invalid_response "Missing request line")
  parse_lines (request_line ∷ lines) body = do
    (method_str, path, version) ← request_parts (split_whitespace request_line)
    method ← ok_or (Method.try_from_str method_str) (invalid_response "Unknown HTTP method")
    headers ← collect_lines [] lines
    ok (record { method = method; path = path; version = version; headers = headers; body = body })

  unfoldable pub parse_from : Bytes → Bytes → Result HttpRequest
  unfolding parse_lines lines
  parse_from headers_str body = parse_lines (lines headers_str) body

  -- `TryFrom<&[u8]>`. Both slices are within the buffer, since the search found the four bytes.
  unfoldable pub try_from : Bytes → Result HttpRequest
  unfolding parse_from
  try_from buffer = do
    end_of_headers ← ok_or (find_double_crlf buffer) (invalid_response "Incomplete request headers")
    headers_str ←
        ok_or (from_utf8 (take end_of_headers buffer)) (invalid_response "Invalid UTF-8 in request")
    parse_from headers_str (drop (end_of_headers + double_crlf_len) buffer)
