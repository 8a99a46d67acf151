-- ===== src/Handler.antt =====
-- src/handler.rs: `SimpleHandler`.
use nanofish.Header.{HttpHeader, content_type_header, html_type, json_type, text_type}
use nanofish.Heapless.{Heapless}
use nanofish.Prelude.{List, [], Option, none, some, if◌then◌else◌, Bytes, codes, bytes_eq}
use nanofish.Protocol.{max_headers}
use nanofish.Request.{HttpRequest}
use nanofish.Response.{HttpResponse, text}
use nanofish.Result.{Result, ok}
use nanofish.StatusCode.{StatusCode, ok_status}

module _ (hp : Heapless) where
  abbrev pushed : Option (List HttpHeader) → List HttpHeader
  pushed none = []
  pushed (some headers) = headers

  abbrev typed : StatusCode → Bytes → Bytes → HttpResponse
  typed status media body = record {
    status_code = status;
    headers = pushed (hp.push HttpHeader max_headers [] (content_type_header media));
    body = text body;
  }

  -- The request target is compared whole, its query included.
  unfoldable pub handle_request : HttpRequest → Result HttpResponse
  unfolding bytes_eq
  handle_request request =
      if bytes_eq request.path (codes "/")
      then ok (typed ok_status html_type (codes "<h1>Hello from nanofish HTTP server!</h1>"))
      else if bytes_eq request.path (codes "/health")
      then ok (typed ok_status json_type (codes "{\"status\":\"ok\"}"))
      else ok (typed StatusCode.not_found text_type (codes "404 Not Found"))
