-- ===== src/Header.antt =====
-- src/header.rs: header names, MIME types and `HttpHeader`.
use nanofish.Prelude.{Bytes, codes}

-- `mod headers`.
abbrev pub content_type_name : Bytes
content_type_name = codes "Content-Type"

abbrev pub authorization_name : Bytes
authorization_name = codes "Authorization"

abbrev pub user_agent_name : Bytes
user_agent_name = codes "User-Agent"

abbrev pub accept_name : Bytes
accept_name = codes "Accept"

abbrev pub cache_control_name : Bytes
cache_control_name = codes "Cache-Control"

abbrev pub connection_name : Bytes
connection_name = codes "Connection"

abbrev pub api_key_name : Bytes
api_key_name = codes "X-API-Key"

abbrev pub content_length_name : Bytes
content_length_name = codes "Content-Length"

-- `mod mime_types`, as far as the library itself uses it.
abbrev pub event_stream_type : Bytes
event_stream_type = codes "text/event-stream"

abbrev pub json_type : Bytes
json_type = codes "application/json"

abbrev pub problem_json_type : Bytes
problem_json_type = codes "application/problem+json"

abbrev pub text_type : Bytes
text_type = codes "text/plain"

abbrev pub html_type : Bytes
html_type = codes "text/html"

pub record HttpHeader : Type 0 where
  pub name : Bytes
  pub value : Bytes

-- `HttpHeader::new` and `HttpHeader::content_type`.
abbrev pub new_header : Bytes → Bytes → HttpHeader
new_header name value = record { name = name; value = value }

abbrev pub content_type_header : Bytes → HttpHeader
content_type_header value = new_header content_type_name value

abbrev pub authorization : Bytes → HttpHeader
authorization value = new_header authorization_name value

abbrev pub user_agent : Bytes → HttpHeader
user_agent value = new_header user_agent_name value

abbrev pub cache_control : Bytes → HttpHeader
cache_control value = new_header cache_control_name value

abbrev pub connection : Bytes → HttpHeader
connection value = new_header connection_name value

abbrev pub accept : Bytes → HttpHeader
accept value = new_header accept_name value

abbrev pub api_key : Bytes → HttpHeader
api_key value = new_header api_key_name value

abbrev pub event_stream : HttpHeader
event_stream = new_header content_type_name event_stream_type
