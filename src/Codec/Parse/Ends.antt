-- ===== src/Codec/Parse/Ends.antt =====
-- How `parse_resp` of src/codec.rs ends.
use nanofish.Codec.Dechunk.{slice}
use nanofish.Codec.Parse.{second, status_of_line, collect_headers, parse_body, parse_resp}
use nanofish.Heapless.{Heapless}
use nanofish.Prelude.{
  ◌+◌, ◌-◌, Bool, true, false, ltb, leb, if◌then◌else◌, [], Bytes, take, drop, length,
}
use nanofish.Protocol.{find_crlf, find_double_crlf, crlf_len, double_crlf_len}
use nanofish.Response.{HttpResponse}
use nanofish.Result.Ending.{Ending, ending, asked, ◌>>=◌, ◌>>◌}
use nanofish.Result.Ends.{Ends}
use nanofish.Result.{ok, assert, invalid_response}
use nanofish.StatusCode
use nanofish.StatusCode.{StatusCode}
use nanofish.StatusCode.Ends.{try_from_str-Ends}
use nanofish.Text.Space.{split_whitespace}
use nanofish.Text.Split.{split_crlf}
use nanofish.Text.Utf8.{from_utf8}

status_of_line-Ends : (Panic : Type 0) (line : Bytes) → Ends Panic (status_of_line line)
unfolding status_of_line
status_of_line-Ends Panic line =
    let all : Ending Panic StatusCode = do
      s ← asked (second (split_whitespace line)) (invalid_response "Invalid HTTP status line")
      ending (StatusCode.try_from_str s) (try_from_str-Ends Panic s)
    in all.ends

assert-Ends : (b : Bool) → Ends (Unit {0}) (assert b)
unfolding Ends
assert-Ends true = tt
assert-Ends false = tt

pub parse_resp-Ends : (hp : Heapless) (s : Bytes) → Ends (Unit {0}) (parse_resp hp s)
unfolding parse_resp Ends
parse_resp-Ends hp s =
    let all : Ending (Unit {0}) HttpResponse = do
      pos ← asked (find_double_crlf s) (invalid_response "Invalid HTTP response format")
      let header_bytes = take (pos + double_crlf_len) s
      response_str ←
          asked (from_utf8 header_bytes) (invalid_response "Invalid HTTP response encoding")
      line_end ← asked (find_crlf header_bytes) (invalid_response "Invalid HTTP response format")
      status ←
          ending (status_of_line (take line_end response_str))
            (status_of_line-Ends Unit (take line_end response_str))
      ending _ (assert-Ends (leb (line_end + crlf_len) (pos + double_crlf_len - double_crlf_len)))
      let section =
          slice (line_end + crlf_len) (pos + double_crlf_len - double_crlf_len) response_str
      let headers = collect_headers hp [] (split_crlf section)
      let headers_end = pos + double_crlf_len
      let body_data = if ltb headers_end (length s) then drop headers_end s else []
      ending
          (ok (record {
            status_code = status;
            headers = headers;
            body = parse_body headers body_data;
          }))
          tt
    in all.ends
