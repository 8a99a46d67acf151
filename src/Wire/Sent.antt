-- ===== src/Wire/Sent.antt =====
-- The head of a request as lines, and the headers that are sent with it.
use nanofish.Codec.Build.{body_length}
use nanofish.Codec.Parse.Joined.{joined}
use nanofish.Codec.Parse.Lines.{IsAsciiLine}
use nanofish.Header.{HttpHeader, new_header, content_length_name}
use nanofish.Method
use nanofish.Method.{HttpMethod}
use nanofish.Prelude.{
  ℕ, ◌≤◌, ◌≢◌, inl, inr, false, not, ◌&&◌, List, [], ◌∷◌, ◌++◌, Option, ◌≡◌, refl, ap, ◌∙◌,
  if◌then◌else◌, Bytes, arith, All, All-append, is_some, is_empty, Bool-cases, codes,
}
use nanofish.Response.Write.Decimal.{decimal}
use nanofish.Response.{find_header}
use nanofish.Text.Space.Plain.{IsVisible}
use nanofish.Text.Number.Print.{IsDigit, print_radix-IsDigit}
use nanofish.Text.Space.{trim}
use nanofish.Text.Split.Breaks.{lines-line, lines-last}
use nanofish.Text.Split.Plain.{Lacks}
use nanofish.Text.Split.{lines}
use nanofish.Wire.Lines.{
  All_imp, IsSendable, header_line, header_lines, append_ne_nil, line_of_plain,
}
use nanofish.Wire.RoundTrip.{auto_length-IsSendable}

-- The headers on the wire: the host, the caller's, a length for a body that has none, and the
-- closing of the connection.
abbrev pub length_headers : List HttpHeader → Option Bytes → List HttpHeader
length_headers headers body =
    if not (is_some (find_header content_length_name headers)) && is_some body
    then new_header content_length_name (decimal (body_length body)) ∷ []
    else []

abbrev pub close_header : HttpHeader
close_header = new_header (codes "Connection") (codes "close")

abbrev pub request_headers : Bytes → List HttpHeader → Option Bytes → List HttpHeader
request_headers host headers body =
    new_header (codes "Host") host ∷ (headers ++ (length_headers headers body ++ close_header ∷ []))

abbrev pub request_line : HttpMethod → Bytes → Bytes
request_line method path = Method.as_str method ++ (b' ' ∷ (path ++ (b' ' ∷ codes "HTTP/1.1")))

-- A header whose value has no line feed either.
abbrev pub IsOneLine : HttpHeader → Type 0
IsOneLine h = IsSendable h × Lacks b'\n' h.value

pub sendable : (hs : List HttpHeader) → All IsOneLine hs → All IsSendable hs
sendable [] k = tt
sendable (h ∷ hs) k = (k.0.0, sendable hs k.1)

pub lines-joined :
    (l : Bytes) (ls : List Bytes)
    → All (λ m. Lacks b'\n' m × (m ≢ [])) (l ∷ ls)
    → lines (joined l ls) ≡ l ∷ ls
lines-joined l [] h = lines-last l h.0.0 h.0.1
lines-joined l (m ∷ ms) h =
    lines-line l (joined m ms) h.0.0 ∙ ap (λ ks. l ∷ ks) (lines-joined m ms h.1)

pub header_line-one :
    (h : HttpHeader) → IsOneLine h → Lacks b'\n' (header_line h) × (header_line h ≢ [])
header_line-one h k = (
  All-append (λ b. b ≢ b'\n') h.name _
      (All_imp IsVisible _ h.name (λ b v. omega arith) k.0.name_visible)
      (omega arith, (omega arith, k.1)),
  append_ne_nil h.name _ k.0.named,
)

pub header_lines-one :
    (hs : List HttpHeader)
    → All IsOneLine hs
    → All (λ m. Lacks b'\n' m × (m ≢ [])) (header_lines hs)
header_lines-one [] k = tt
header_lines-one (h ∷ hs) k = (header_line-one h k.0, header_lines-one hs k.1)

pub not_empty : (s : Bytes) → s ≢ [] → is_empty s ≡ false
not_empty [] h = absurd (h refl)
not_empty (a ∷ s) h = refl

pub as_str-IsVisible : (m : HttpMethod) → All IsVisible (Method.as_str m)
unfolding Method.as_str
as_str-IsVisible HttpMethod.get = omega arith
as_str-IsVisible _ = omega arith

pub as_str_ne_nil : (m : HttpMethod) → Method.as_str m ≢ []
unfolding Method.as_str
as_str_ne_nil HttpMethod.get = cc
as_str_ne_nil _ = cc

-- A visible character or a blank.
abbrev pub IsPrinted : ℕ → Type 0
IsPrinted b = (b' ' ≤ b) × (b ≤ b'~')

pub request_line-IsPrinted :
    (method : HttpMethod) (path : Bytes)
    → All IsVisible path
    → All IsPrinted (request_line method path)
request_line-IsPrinted method path h =
    All-append IsPrinted (Method.as_str method) _
      (All_imp IsVisible IsPrinted _ (λ b v. omega arith) (as_str-IsVisible method))
      (
        omega arith,
        All-append IsPrinted path _ (All_imp IsVisible IsPrinted path (λ b v. omega arith) h)
            (omega arith),
      )

pub request_line_ne_nil : (method : HttpMethod) (path : Bytes) → request_line method path ≢ []
request_line_ne_nil method path = append_ne_nil (Method.as_str method) _ (as_str_ne_nil method)

pub request_line-IsAsciiLine :
    (method : HttpMethod) (path : Bytes)
    → All IsVisible path
    → IsAsciiLine (request_line method path)
request_line-IsAsciiLine method path h =
    line_of_plain (request_line method path)
      (All_imp IsPrinted _ _ (λ b v. omega arith) (request_line-IsPrinted method path h))
      (request_line_ne_nil method path)

pub length_headers-IsOneLine :
    (headers : List HttpHeader) (body : Option Bytes) → All IsOneLine (length_headers headers body)
length_headers-IsOneLine headers body =
    elim (Bool-cases (not (is_some (find_header content_length_name headers)) && is_some body)) [
      | inl added ↦ rw added (
        (
          auto_length-IsSendable (body_length body),
          All_imp IsDigit _ _ (λ b d. omega arith)
              (print_radix-IsDigit 10 (omega arith) (omega arith) (body_length body)),
        ),
        tt,
      )
      | inr absent ↦ rw absent tt
    ]

pub close_header-IsOneLine : IsOneLine close_header
unfolding trim
close_header-IsOneLine = (
  record {
    named = cc;
    name_visible = omega arith;
    name_no_colon = omega arith;
    value_plain = omega arith;
    value_trimmed = refl;
  },
  omega arith,
)

pub request_headers-IsOneLine :
    (host : Bytes) (headers : List HttpHeader) (body : Option Bytes)
    → IsOneLine (new_header (codes "Host") host)
    → All IsOneLine headers
    → All IsOneLine (request_headers host headers body)
request_headers-IsOneLine host headers body h k = (
  h,
  All-append IsOneLine headers _ k (
      All-append IsOneLine (length_headers headers body) (close_header ∷ [])
        (length_headers-IsOneLine headers body) (close_header-IsOneLine, tt)),
)
