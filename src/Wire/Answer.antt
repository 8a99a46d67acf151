-- ===== src/Wire/Answer.antt =====
-- The answers of the server, and what the client reads from them.
use nanofish.Handler.{handle_request}
use nanofish.Header.{HttpHeader, content_type_header, text_type}
use nanofish.Heapless.{Heapless}
use nanofish.Prelude.{
  ℕ, ◌^◌, ◌≤◌, ◌<◌, ◌≢◌, ◌↔◌, ◌⊎◌, inl, inr, false, [], ◌∷◌, ◌≡◌, refl, ◌∙◌, Bytes, length, codes,
  arith, All, bytes_eq, bytes_eq_iff, Bool-cases,
}
use nanofish.Protocol.{max_headers}
use nanofish.Request.{HttpRequest}
use nanofish.Response.{HttpResponse, ResponseBody, text, as_bytes, find_header}
use nanofish.Result.{Error, ok, err}
use nanofish.Codec.Parse.{parse_resp}
use nanofish.Response.Write.Render.{render}
use nanofish.Response.Write.{build_bytes}
use nanofish.Server.{respond, text_error}
use nanofish.Text.Case.{eq_ignore_case}
use nanofish.Text.Number.Print.{print_radix}
use nanofish.Text.Space.{trim}
use nanofish.Wire.Lines.{IsSendable}
use nanofish.Wire.RoundTrip.{build_bytes-parse_resp, sent_headers}
use nanofish.StatusCode
use nanofish.StatusCode.{StatusCode, ok_status}

neither :
    {path a b : Bytes} {B : Type 0}
    → bytes_eq path a ≡ false
    → bytes_eq path b ≡ false
    → (path ≡ a) ⊎ (path ≡ b)
    → B
neither {path} {a} {b} f g (inl e) = let t = (bytes_eq_iff path a).1 e in cc
neither {path} {a} {b} f g (inr e) = let t = (bytes_eq_iff path b).1 e in cc

module _ (hp : Heapless) (request : HttpRequest) where
  -- `SimpleHandler` always answers; the status is 200 exactly for the targets `/` and `/health`, and
  -- 404 otherwise.
  pub handle_request-status :
      (r : HttpResponse) × (handle_request hp request ≡ ok r)
      × ((r.status_code ≡ ok_status)
          ↔ ((request.path ≡ codes "/") ⊎ (request.path ≡ codes "/health")))
      × ((r.status_code ≡ ok_status) ⊎ (r.status_code ≡ StatusCode.not_found))
  unfolding handle_request
  handle_request-status = elim (Bool-cases (bytes_eq request.path (codes "/"))) [
    | inl root ↦
        rw (root, handle_request)
          (_, refl, (λ e. inl ((bytes_eq_iff _ _).0 root), λ e. refl), inl refl)
    | inr other ↦ elim (Bool-cases (bytes_eq request.path (codes "/health"))) [
      | inl health ↦
          rw (other, handle_request)
            (rw (health, handle_request)
              (_, refl, (λ e. inr ((bytes_eq_iff _ _).0 health), λ e. refl), inl refl))
      | inr unknown ↦
          rw (other, handle_request)
            (rw (unknown, handle_request) (_, refl, (λ e. cc, neither other unknown), inr refl))
    ]
  ]

-- The response to a failure of the handler.
abbrev pub failure : HttpResponse
failure = record {
  status_code = StatusCode.internal_server_error;
  headers = content_type_header text_type ∷ [];
  body = text (codes "Internal Server Error");
}

failure_bytes : length (render failure) ≤ 128
unfolding as_bytes find_header eq_ignore_case StatusCode.as_u16 StatusCode.text print_radix
failure_bytes = omega arith

failure_headers : (sent_headers failure ≢ []) × (length (sent_headers failure) ≤ max_headers)
unfolding as_bytes find_header eq_ignore_case
failure_headers = (cc, omega arith)

pub failure-IsSendable : All IsSendable failure.headers
unfolding trim
failure-IsSendable = (
  record {
    named = cc;
    name_visible = omega arith;
    name_no_colon = omega arith;
    value_plain = omega arith;
    value_trimmed = refl;
  },
  tt,
)

failure_body : length (as_bytes failure.body) < 10 ^ 10
unfolding as_bytes
failure_body = omega arith

module _ (hp : Heapless) (n : ℕ) where
  respond-failure : (e : Error) → respond hp n (err e) ≡ build_bytes hp n failure
  unfolding respond text_error
  respond-failure e =
      rw (hp.push_lem HttpHeader max_headers [] (content_type_header text_type)) refl

  -- Whatever error the handler fails with, a buffer of 128 bytes or more takes the answer, and the
  -- client reads from it the status 500, the headers that were sent, and the text of the answer.
  pub respond-parse_resp :
      (e : Error)
      → 128 ≤ n
      → (bytes : Bytes) × (body : ResponseBody) × (respond hp n (err e) ≡ ok bytes)
        × (parse_resp hp bytes
            ≡ ok (record {
              status_code = StatusCode.internal_server_error;
              headers = sent_headers failure;
              body = body;
            }))
        × (as_bytes body ≡ codes "Internal Server Error")
  unfolding as_bytes
  respond-parse_resp e room =
      let (bytes, body, written, read, same) =
        build_bytes-parse_resp hp n failure tt failure-IsSendable failure_headers.0
          failure_headers.1 failure_body (omega (arith, failure_bytes, room)) in
      (bytes, body, respond-failure e ∙ written, read, same)
