-- ===== src/Codec/Build/Ends.antt =====
-- How `build_req` of src/codec.rs ends.
use nanofish.Codec.Build.{
  try_push, push_request_line, push_headers, push_length, push_auto_length, build_req,
}
use nanofish.Header.{HttpHeader, content_length_name}
use nanofish.Heapless.{Heapless}
use nanofish.Method
use nanofish.Method.{HttpMethod}
use nanofish.Prelude.{
  ℕ, Bool, inl, inr, true, false, not, ◌&&◌, List, [], ◌∷◌, Option, is_some, if◌then◌else◌, Bytes,
  codes, Bool-cases,
}
use nanofish.Protocol.{http_version_line_suffix, crlf, header_separator, connection_close_end}
use nanofish.Result.Ending.{Ending, ending, ◌>>=◌}
use nanofish.Result.Ends.{Ends, ok_or-Ends}
use nanofish.Result.{buffer_overflow}
use nanofish.Text.Case.{eq_ignore_case}
use nanofish.Text.Number.Print.{print_radix}

module _ (Panic : Type 0) (hp : Heapless) where
  pushed : (rq : ℕ) (req s : Bytes) → Ending Panic Bytes
  unfolding try_push
  pushed rq req s =
      ending (try_push hp rq req s) (ok_or-Ends Panic (hp.push_str rq req s) buffer_overflow)

  module _ (rq : ℕ) where
    push_request_line-Ends :
        (req : Bytes) (method : HttpMethod) (host path : Bytes)
        → Ends Panic (push_request_line hp rq req method host path)
    unfolding push_request_line pushed
    push_request_line-Ends req method host path =
        let all : Ending Panic Bytes = do
          req ← pushed rq req (Method.as_str method)
          req ← pushed rq req (codes " ")
          req ← pushed rq req path
          req ← pushed rq req http_version_line_suffix
          req ← pushed rq req (codes "Host: ")
          req ← pushed rq req host
          pushed rq req crlf
        in all.ends

    push_headers-Ends :
        (req : Bytes) (has_len : Bool) (headers : List HttpHeader)
        → Ends Panic (push_headers hp rq req has_len headers)
    unfolding push_headers pushed Ends
    push_headers-Ends req has_len [] = tt
    push_headers-Ends req has_len (h ∷ hs) =
        let all : Ending Panic (Bytes × Bool) = do
          req ← pushed rq req h.name
          req ← pushed rq req header_separator
          req ← pushed rq req h.value
          req ← pushed rq req crlf
          let sized = if eq_ignore_case h.name content_length_name then true else has_len
          ending (push_headers hp rq req sized hs) (push_headers-Ends req sized hs)
        in all.ends

    push_length-Ends : (req : Bytes) (body_len : ℕ) → Ends Panic (push_length hp rq req body_len)
    unfolding push_length pushed
    push_length-Ends req body_len =
        let all : Ending Panic Bytes = do
          req ← pushed rq req content_length_name
          req ← pushed rq req header_separator
          len ← pushed 8 [] (print_radix 10 body_len)
          req ← pushed rq req len
          pushed rq req crlf
        in all.ends

    push_auto_length-Ends :
        (req : Bytes) (has_len : Bool) (body : Option Bytes)
        → Ends Panic (push_auto_length hp rq req has_len body)
    unfolding push_auto_length Ends
    push_auto_length-Ends req has_len body = elim (Bool-cases (not has_len && is_some body)) [
      | inl wanted ↦ rw wanted (push_length-Ends req _)
      | inr none_due ↦ rw none_due tt
    ]

    pub build_req-Ends :
        (method : HttpMethod) (host path : Bytes) (headers : List HttpHeader) (body : Option Bytes)
        → Ends Panic (build_req hp rq method host path headers body)
    unfolding build_req pushed
    build_req-Ends method host path headers body =
        let all : Ending Panic Bytes = do
          req ←
              ending (push_request_line hp rq [] method host path)
                (push_request_line-Ends [] method host path)
          (req, has_len) ←
              ending (push_headers hp rq req false headers) (push_headers-Ends req false headers)
          req ←
              ending (push_auto_length hp rq req has_len body)
                (push_auto_length-Ends req has_len body)
          pushed rq req connection_close_end
        in all.ends
