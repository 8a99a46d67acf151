-- ===== src/Request/Ends.antt =====
-- How `TryFrom<&[u8]>` of a request ends, in src/request.rs.
use nanofish.Header.{HttpHeader}
use nanofish.Heapless.{Heapless}
use nanofish.Method
use nanofish.Prelude.{
  ◌+◌, List, [], ◌∷◌, inl, inr, Bytes, is_empty, take, drop, Bool-cases, Option-cases,
}
use nanofish.Protocol.{find_double_crlf, double_crlf_len, max_headers, split_header}
use nanofish.Request.{HttpRequest, collect_lines, request_parts, parse_lines, parse_from, try_from}
use nanofish.Result.Ending.{Ending, ending, asked, ◌>>=◌}
use nanofish.Result.Ends.{Ends, chain-Ends, ok_or-Ends}
use nanofish.Result.{ok, ok_or, invalid_response}
use nanofish.Text.Space.{split_whitespace}
use nanofish.Text.Split.{lines}
use nanofish.Text.Utf8.{from_utf8}

module _ (Panic : Type 0) (hp : Heapless) where
  collect_lines-Ends :
      (headers : List HttpHeader) (rest : List Bytes) → Ends Panic (collect_lines hp headers rest)
  unfolding collect_lines Ends
  collect_lines-Ends headers [] = tt
  collect_lines-Ends headers (line ∷ rest) = elim (Bool-cases (is_empty line)) [
    | inl end ↦ rw (end, collect_lines) tt
    | inr more ↦ elim (Option-cases (split_header line)) [
      | inl other ↦ rw (more, collect_lines) (rw other (collect_lines-Ends headers rest))
      | inr (h, is_header) ↦
          rw (more, collect_lines)
            (rw is_header (
              chain-Ends Panic
                (ok_or (hp.push HttpHeader max_headers headers h)
                  (invalid_response "Too many headers"))
                _ (ok_or-Ends Panic (hp.push HttpHeader max_headers headers h) _)
                λ longer. collect_lines-Ends longer rest))
    ]
  ]

  request_parts-Ends : (words : List Bytes) → Ends Panic (request_parts hp words)
  unfolding request_parts Ends
  request_parts-Ends [] = tt
  request_parts-Ends (a ∷ []) = tt
  request_parts-Ends (a ∷ b ∷ []) = tt
  request_parts-Ends (a ∷ b ∷ c ∷ rest) = tt

  parse_lines-Ends : (all : List Bytes) (body : Bytes) → Ends Panic (parse_lines hp all body)
  unfolding parse_lines Ends
  parse_lines-Ends [] body = tt
  parse_lines-Ends (request_line ∷ rest) body =
      let all : Ending Panic HttpRequest = do
        (method_str, path, version) ←
            ending (request_parts hp (split_whitespace request_line))
              (request_parts-Ends (split_whitespace request_line))
        method ← asked (Method.try_from_str method_str) (invalid_response "Unknown HTTP method")
        headers ← ending (collect_lines hp [] rest) (collect_lines-Ends [] rest)
        ending
            (ok (record {
              method = method;
              path = path;
              version = version;
              headers = headers;
              body = body;
            }))
            tt
      in all.ends

  pub try_from-Ends : (buffer : Bytes) → Ends Panic (try_from hp buffer)
  unfolding try_from parse_from
  try_from-Ends buffer =
      let all : Ending Panic HttpRequest = do
        end_of_headers ←
            asked (find_double_crlf buffer) (invalid_response "Incomplete request headers")
        headers_str ←
            asked (from_utf8 (take end_of_headers buffer))
              (invalid_response "Invalid UTF-8 in request")
        let body = drop (end_of_headers + double_crlf_len) buffer
        ending (parse_from hp headers_str body) (parse_lines-Ends (lines headers_str) body)
      in all.ends
