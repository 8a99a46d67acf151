-- ===== src/Response/Builder.antt =====
-- `HttpResponseBuilder` of src/response.rs.
pub mod Dedup
use nanofish.Header.{HttpHeader, new_header, content_type_header, json_type, problem_json_type}
use nanofish.Heapless.{Heapless}
use nanofish.Prelude.{
  Bool, false, ◌||◌, List, [], ◌∷◌, Option, none, some, if◌then◌else◌, Bytes, reverse,
}
use nanofish.Protocol.{max_headers}
use nanofish.Response.{ResponseBody, text, binary, empty, HttpResponse}
use nanofish.Result.{Result, ok, ◌>>=◌, ok_or, buffer_overflow}
use nanofish.StatusCode.{StatusCode, ok_status}
use nanofish.Text.Case.{eq_ignore_case}

pub record HttpResponseBuilder : Type 0 where
  pub status : StatusCode
  pub headers : List HttpHeader
  pub body : Option ResponseBody

abbrev pub with_status : StatusCode → HttpResponseBuilder
with_status s = record { status = s; headers = []; body = none }

-- `new`, and `Default`.
abbrev pub new : HttpResponseBuilder
new = with_status ok_status

abbrev pub set_status : HttpResponseBuilder → StatusCode → HttpResponseBuilder
set_status b s = record b { status = s }

abbrev pub set_body : HttpResponseBuilder → ResponseBody → HttpResponseBuilder
set_body b r = record b { body = some r }

-- `text`, `binary` and `empty_body`.
abbrev pub with_text : HttpResponseBuilder → Bytes → HttpResponseBuilder
with_text b body = set_body b (text body)

abbrev pub with_binary : HttpResponseBuilder → Bytes → HttpResponseBuilder
with_binary b body = set_body b (binary body)

abbrev pub empty_body : HttpResponseBuilder → HttpResponseBuilder
empty_body b = set_body b empty

-- `acc.iter().any(|existing| existing.name.eq_ignore_ascii_case(h.name))`.
unfoldable pub any_named : Bytes → List HttpHeader → Bool
any_named name [] = false
any_named name (h ∷ hs) = eq_ignore_case h.name name || any_named name hs

or_kept : List HttpHeader → Option (List HttpHeader) → List HttpHeader
or_kept acc none = acc
or_kept acc (some more) = more

module _ (hp : Heapless) where
  open hp use {push}

  add_header : HttpResponseBuilder → HttpHeader → Result HttpResponseBuilder
  add_header b h = do
    hs ← ok_or (push HttpHeader max_headers b.headers h) buffer_overflow
    ok (record b { headers = hs })

  unfoldable pub header : HttpResponseBuilder → Bytes → Bytes → Result HttpResponseBuilder
  unfolding add_header
  header b name value = add_header b (new_header name value)

  unfoldable pub add_headers : HttpResponseBuilder → List HttpHeader → Result HttpResponseBuilder
  unfolding add_header
  add_headers b [] = ok b
  add_headers b (h ∷ hs) = do b' ← add_header b (new_header h.name h.value); add_headers b' hs

  unfoldable pub content_type : HttpResponseBuilder → Bytes → Result HttpResponseBuilder
  unfolding add_header
  content_type b ct = add_header b (content_type_header ct)

  unfoldable pub json : HttpResponseBuilder → Bytes → Result HttpResponseBuilder
  unfolding add_header
  json b body = do b' ← add_header b (content_type_header json_type); ok (set_body b' (text body))

  unfoldable pub problem_json : HttpResponseBuilder → Bytes → Result HttpResponseBuilder
  unfolding add_header
  problem_json b body = do
    b' ← add_header b (content_type_header problem_json_type)
    ok (set_body b' (text body))

  -- One round of the `fold`; a push that fails is passed over.
  keep_first : List HttpHeader → HttpHeader → List HttpHeader
  keep_first acc h =
      if any_named h.name acc then acc else or_kept acc (push HttpHeader max_headers acc h)

  fold_headers : List HttpHeader → List HttpHeader → List HttpHeader
  fold_headers acc [] = acc
  fold_headers acc (h ∷ hs) = fold_headers (keep_first acc h) hs

  abbrev pub or_empty : Option ResponseBody → ResponseBody
  or_empty none = empty
  or_empty (some r) = r

  unfoldable pub build : HttpResponseBuilder → Result HttpResponse
  unfolding fold_headers keep_first or_kept
  build b = ok (record {
    status_code = b.status;
    headers = reverse (fold_headers [] (reverse b.headers));
    body = or_empty b.body;
  })
