-- ===== src/Tests/Answer.antt =====
-- Answers of the server, the framing of responses, and the builder of responses.
use nanofish.Codec.Framing.Complete.{Whole, complete_iff}
use nanofish.Codec.Framing.{chunked, complete}
use nanofish.Codec.Parse.{parse_resp}
use nanofish.Handler.{handle_request}
use nanofish.Header.{HttpHeader, new_header}
use nanofish.Heapless.{bounded}
use nanofish.Method
use nanofish.Prelude.{ℕ, ◌↔◌, ◌⊎◌, true, List, [], ◌∷◌, ◌++◌, some, ◌≡◌, refl, Bytes, codes, arith}
use nanofish.Protocol.{chunked_end_marker, find_double_crlf}
use nanofish.Request.{HttpRequest}
use nanofish.Response.Builder.Dedup.{KeepsLast, build-KeepsLast}
use nanofish.Response.Builder.{HttpResponseBuilder, build, or_empty}
use nanofish.Response.{HttpResponse, ResponseBody, text, as_bytes}
use nanofish.Result.{ok, err, no_response}
use nanofish.Server.{respond}
use nanofish.StatusCode
use nanofish.StatusCode.{ok_status}
use nanofish.Wire.Answer.{handle_request-status, respond-parse_resp, failure}
use nanofish.Wire.RoundTrip.{sent_headers}

abbrev health : HttpRequest
health = record {
  method = Method.get;
  path = codes "/health";
  version = codes "HTTP/1.1";
  headers = [];
  body = [];
}

handle_request-status_example :
    (r : HttpResponse) × (handle_request bounded health ≡ ok r)
    × ((r.status_code ≡ ok_status) ↔ ((health.path ≡ codes "/") ⊎ (health.path ≡ codes "/health")))
    × ((r.status_code ≡ ok_status) ⊎ (r.status_code ≡ StatusCode.not_found))
handle_request-status_example = handle_request-status bounded health

respond-parse_resp_example :
    (bytes : Bytes) × (body : ResponseBody) × (respond bounded 1024 (err no_response) ≡ ok bytes)
    × (parse_resp bounded bytes
        ≡ ok (record {
          status_code = StatusCode.internal_server_error;
          headers = sent_headers failure;
          body = body;
        }))
    × (as_bytes body ≡ codes "Internal Server Error")
respond-parse_resp_example = respond-parse_resp bounded 1024 no_response (omega arith)

-- The marker stands in the headers; no chunk has been read.
abbrev early : Bytes
early = codes "HTTP/1.1 200 OK\r\nTransfer-Encoding: chunked\r\nAge: "

abbrev early_marker : Bytes
early_marker = early ++ chunked_end_marker

early_complete : complete 255 early_marker ≡ true
unfolding chunked complete find_double_crlf
early_complete = refl

complete_iff_example :
    (complete 255 early_marker ≡ true)
    ↔ ((pos : ℕ) × (find_double_crlf early_marker ≡ some pos) × Whole 255 early_marker pos)
complete_iff_example = complete_iff 255 early_marker

abbrev built : HttpResponseBuilder
built = record {
  status = ok_status;
  headers = new_header (codes "A") (codes "1") ∷ new_header (codes "a") (codes "2") ∷ [];
  body = some (text (codes "x"));
}

build-KeepsLast_example :
    (left : List HttpHeader) × (build bounded built
      ≡ ok (record {
        status_code = built.status;
        headers = left;
        body = or_empty bounded built.body;
      }))
    × KeepsLast built.headers left
build-KeepsLast_example = build-KeepsLast bounded built (omega arith)
