-- ===== src/StatusCode.antt =====
-- src/status_code.rs: the status codes, their numbers and texts, and the two readers.
pub mod Laws
pub mod Ends
use nanofish.Prelude.{
  ℕ, Bool, ◌&&◌, List, [], ◌∷◌, Option, none, some, ltb, leb, ◌==◌, if◌then◌else◌, Bytes, codes,
}
use nanofish.Result.{Result, ok, err, invalid_status_code}
use nanofish.Text.Number.{parse_uint}

-- `enum StatusCode`; `other` is `Other(u16)`.
pub data StatusCode : Type 0 where
  continue : StatusCode
  switching_protocols : StatusCode
  ok_status : StatusCode
  created : StatusCode
  accepted : StatusCode
  non_authoritative_information : StatusCode
  no_content : StatusCode
  reset_content : StatusCode
  partial_content : StatusCode
  multiple_choices : StatusCode
  moved_permanently : StatusCode
  found : StatusCode
  see_other : StatusCode
  not_modified : StatusCode
  use_proxy : StatusCode
  temporary_redirect : StatusCode
  bad_request : StatusCode
  unauthorized : StatusCode
  payment_required : StatusCode
  forbidden : StatusCode
  not_found : StatusCode
  method_not_allowed : StatusCode
  not_acceptable : StatusCode
  proxy_authentication_required : StatusCode
  request_timeout : StatusCode
  conflict : StatusCode
  gone : StatusCode
  length_required : StatusCode
  precondition_failed : StatusCode
  request_entity_too_large : StatusCode
  request_uri_too_long : StatusCode
  unsupported_media_type : StatusCode
  requested_range_not_satisfiable : StatusCode
  expectation_failed : StatusCode
  internal_server_error : StatusCode
  not_implemented : StatusCode
  bad_gateway : StatusCode
  service_unavailable : StatusCode
  gateway_timeout : StatusCode
  http_version_not_supported : StatusCode
  other : ℕ → StatusCode

unfoldable pub as_u16 : StatusCode → ℕ
as_u16 continue = 100
as_u16 switching_protocols = 101
as_u16 ok_status = 200
as_u16 created = 201
as_u16 accepted = 202
as_u16 non_authoritative_information = 203
as_u16 no_content = 204
as_u16 reset_content = 205
as_u16 partial_content = 206
as_u16 multiple_choices = 300
as_u16 moved_permanently = 301
as_u16 found = 302
as_u16 see_other = 303
as_u16 not_modified = 304
as_u16 use_proxy = 305
as_u16 temporary_redirect = 307
as_u16 bad_request = 400
as_u16 unauthorized = 401
as_u16 payment_required = 402
as_u16 forbidden = 403
as_u16 not_found = 404
as_u16 method_not_allowed = 405
as_u16 not_acceptable = 406
as_u16 proxy_authentication_required = 407
as_u16 request_timeout = 408
as_u16 conflict = 409
as_u16 gone = 410
as_u16 length_required = 411
as_u16 precondition_failed = 412
as_u16 request_entity_too_large = 413
as_u16 request_uri_too_long = 414
as_u16 unsupported_media_type = 415
as_u16 requested_range_not_satisfiable = 416
as_u16 expectation_failed = 417
as_u16 internal_server_error = 500
as_u16 not_implemented = 501
as_u16 bad_gateway = 502
as_u16 service_unavailable = 503
as_u16 gateway_timeout = 504
as_u16 http_version_not_supported = 505
as_u16 (other code) = code

unfoldable pub text : StatusCode → Bytes
text continue = codes "Continue"
text switching_protocols = codes "Switching Protocols"
text ok_status = codes "OK"
text created = codes "Created"
text accepted = codes "Accepted"
text non_authoritative_information = codes "Non-Authoritative Information"
text no_content = codes "No Content"
text reset_content = codes "Reset Content"
text partial_content = codes "Partial Content"
text multiple_choices = codes "Multiple Choices"
text moved_permanently = codes "Moved Permanently"
text found = codes "Found"
text see_other = codes "See Other"
text not_modified = codes "Not Modified"
text use_proxy = codes "Use Proxy"
text temporary_redirect = codes "Temporary Redirect"
text bad_request = codes "Bad Request"
text unauthorized = codes "Unauthorized"
text payment_required = codes "Payment Required"
text forbidden = codes "Forbidden"
text not_found = codes "Not Found"
text method_not_allowed = codes "Method Not Allowed"
text not_acceptable = codes "Not Acceptable"
text proxy_authentication_required = codes "Proxy Authentication Required"
text request_timeout = codes "Request Timeout"
text conflict = codes "Conflict"
text gone = codes "Gone"
text length_required = codes "Length Required"
text precondition_failed = codes "Precondition Failed"
text request_entity_too_large = codes "Request Entity Too Large"
text request_uri_too_long = codes "Request-URI Too Long"
text unsupported_media_type = codes "Unsupported Media Type"
text requested_range_not_satisfiable = codes "Requested Range Not Satisfiable"
text expectation_failed = codes "Expectation Failed"
text internal_server_error = codes "Internal Server Error"
text not_implemented = codes "Not Implemented"
text bad_gateway = codes "Bad Gateway"
text service_unavailable = codes "Service Unavailable"
text gateway_timeout = codes "Gateway Timeout"
text http_version_not_supported = codes "HTTP Version Not Supported"
text (other code) = codes "Other"

-- `(lo..hi).contains(&code)`.
abbrev within : ℕ → ℕ → ℕ → Bool
within lo hi code = leb lo code && ltb code hi

unfoldable pub is_success : StatusCode → Bool
is_success s = within 200 300 (as_u16 s)

unfoldable pub is_client_error : StatusCode → Bool
is_client_error s = within 400 500 (as_u16 s)

unfoldable pub is_server_error : StatusCode → Bool
is_server_error s = within 500 600 (as_u16 s)

-- The arms of `From<u16>` in order; the first that fits is taken.
unfoldable pub from_u16_arms : List (ℕ × StatusCode)
from_u16_arms =
    (100, continue)
    ∷ (101, switching_protocols)
    ∷ (200, ok_status)
    ∷ (201, created)
    ∷ (202, accepted)
    ∷ (203, non_authoritative_information)
    ∷ (204, no_content)
    ∷ (205, reset_content)
    ∷ (206, partial_content)
    ∷ (300, multiple_choices)
    ∷ (301, moved_permanently)
    ∷ (302, found)
    ∷ (303, see_other)
    ∷ (304, not_modified)
    ∷ (305, use_proxy)
    ∷ (307, temporary_redirect)
    ∷ (400, bad_request)
    ∷ (401, unauthorized)
    ∷ (402, payment_required)
    ∷ (403, forbidden)
    ∷ (404, not_found)
    ∷ (405, method_not_allowed)
    ∷ (406, not_acceptable)
    ∷ (407, proxy_authentication_required)
    ∷ (408, request_timeout)
    ∷ (409, conflict)
    ∷ (410, gone)
    ∷ (411, length_required)
    ∷ (412, precondition_failed)
    ∷ (413, request_entity_too_large)
    ∷ (414, request_uri_too_long)
    ∷ (415, unsupported_media_type)
    ∷ (416, requested_range_not_satisfiable)
    ∷ (417, expectation_failed)
    ∷ (500, internal_server_error)
    ∷ (501, not_implemented)
    ∷ (502, bad_gateway)
    ∷ (503, service_unavailable)
    ∷ (504, gateway_timeout)
    ∷ (505, http_version_not_supported)
    ∷ []

pub first_arm : ℕ → List (ℕ × StatusCode) → StatusCode
first_arm code [] = other code
first_arm code ((k, s) ∷ arms) = if code == k then s else first_arm code arms

unfoldable pub from_u16 : ℕ → StatusCode
unfolding first_arm from_u16_arms
from_u16 code = first_arm code from_u16_arms

pub status_of : Option ℕ → Result StatusCode
status_of none = err invalid_status_code
status_of (some code) = ok (from_u16 code)

-- `TryFrom<&str>`.
unfoldable pub try_from_str : Bytes → Result StatusCode
unfolding status_of
try_from_str value = status_of (parse_uint 65535 value)
