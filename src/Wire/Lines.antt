-- ===== src/Wire/Lines.antt =====
-- The written head of a response as lines, and what the reader makes of each line.
use nanofish.Codec.Parse.Joined.{joined}
use nanofish.Codec.Parse.Lines.{IsAsciiLine}
use nanofish.Codec.Parse.{status_of_line, collect_headers}
use nanofish.Header.{HttpHeader}
use nanofish.Heapless.{Heapless}
use nanofish.Prelude.{
  ℕ, ◌+◌, ◌≤◌, ◌<◌, ◌≢◌, true, List, [], ◌∷◌, ◌++◌, some, ◌≡◌, refl, sym, ap, ◌∙◌, ltb, Bytes,
  length, arith, All, All-append, codes, append_assoc, append-nil, length-append, take_append,
  drop-append_add, lt→ltb,
}
use nanofish.Protocol.{
  crlf, double_crlf, header_separator, http_version_prefix, max_headers, split_header,
}
use nanofish.Response.Write.Decimal.{decimal}
use nanofish.Response.Write.Render.{render_headers}
use nanofish.Result.{ok}
use nanofish.StatusCode
use nanofish.StatusCode.Laws.{IsCanonical, try_from_str-decimal, text_plain}
use nanofish.StatusCode.{StatusCode}
use nanofish.Text.Number.Print.{IsDigit, print_radix-IsDigit, print_radix_ne_nil}
use nanofish.Text.Space.Plain.{IsVisible, trim_of_All}
use nanofish.Text.Space.Words.{trim-blank, split_whitespace-word}
use nanofish.Text.Space.{trim}
use nanofish.Text.Split.Plain.{Lacks, find_byte_of_Lacks}

abbrev pub status_line : StatusCode → Bytes
status_line s = http_version_prefix ++ (decimal (StatusCode.as_u16 s) ++ (b' ' ∷ StatusCode.text s))

abbrev pub header_line : HttpHeader → Bytes
header_line h = h.name ++ (header_separator ++ h.value)

abbrev pub header_lines : List HttpHeader → List Bytes
header_lines [] = []
header_lines (h ∷ hs) = header_line h ∷ header_lines hs

-- ASCII without a carriage return.
abbrev pub IsPlain : Bytes → Type 0
IsPlain = All (λ b. (b < 0x80) × (b ≢ b'\r'))

-- A header that survives the wire: a name of visible characters without a colon, and a value of
-- ASCII without a carriage return and with nothing to trim.
pub record IsSendable (h : HttpHeader) : Type 0 where
  pub named : h.name ≢ []
  pub name_visible : All IsVisible h.name
  pub name_no_colon : Lacks b':' h.name
  pub value_plain : IsPlain h.value
  pub value_trimmed : trim h.value ≡ h.value

abbrev pub All_imp : (P Q : ℕ → Type 0) (s : Bytes) → ((b : ℕ) → P b → Q b) → All P s → All Q s
All_imp P Q [] f h = tt
All_imp P Q (b ∷ s) f (h, hs) = (f b h, All_imp P Q s f hs)

decimal-IsDigit : (n : ℕ) → All IsDigit (decimal n)
decimal-IsDigit n = print_radix-IsDigit 10 (omega arith) (omega arith) n

status_line-IsPlain : (s : StatusCode) → IsPlain (status_line s)
status_line-IsPlain s = All-append _ http_version_prefix _ (omega arith) (
    All-append _ (decimal (StatusCode.as_u16 s)) _
      (All_imp IsDigit _ _ (λ b d. omega arith) (decimal-IsDigit (StatusCode.as_u16 s)))
      (omega arith, text_plain s))

pub line_of_plain : (l : Bytes) → IsPlain l → l ≢ [] → IsAsciiLine l
line_of_plain l h ne = (All_imp _ _ l (λ b d. d.0) h, (All_imp _ _ l (λ b d. d.1) h, ne))

pub status_line-IsAsciiLine : (s : StatusCode) → IsAsciiLine (status_line s)
status_line-IsAsciiLine s = line_of_plain (status_line s) (status_line-IsPlain s) cc

-- The client reads the status from the written status line.
pub status_of_line-status_line :
    (s : StatusCode) → IsCanonical s → status_of_line (status_line s) ≡ ok s
unfolding status_of_line
status_of_line-status_line s h =
    let code = decimal (StatusCode.as_u16 s) in
    let rest = StatusCode.text s in
    let first = split_whitespace-word (codes "HTTP/1.1") (code ++ (b' ' ∷ rest)) (omega arith) cc in
    let next =
      split_whitespace-word code rest
        (All_imp IsDigit IsVisible code (λ b d. omega arith)
          (decimal-IsDigit (StatusCode.as_u16 s)))
        (print_radix_ne_nil 10 (StatusCode.as_u16 s)) in
    rw first (rw next (try_from_str-decimal s h))

pub append_ne_nil : (s t : Bytes) → s ≢ [] → s ++ t ≢ []
append_ne_nil [] t h = absurd (h refl)
append_ne_nil (a ∷ s) t h = cc

pub header_line-IsAsciiLine : (h : HttpHeader) → IsSendable h → IsAsciiLine (header_line h)
header_line-IsAsciiLine h k =
    line_of_plain (header_line h)
      (All-append _ h.name _ (All_imp IsVisible _ h.name (λ b d. omega arith) k.name_visible)
        (omega arith, (omega arith, k.value_plain)))
      (append_ne_nil h.name _ k.named)

pub split_header-header_line :
    (h : HttpHeader) → IsSendable h → split_header (header_line h) ≡ some h
unfolding split_header
split_header-header_line h k =
    let found = find_byte_of_Lacks b':' h.name (b' ' ∷ h.value) k.name_no_colon in
    rw (found, split_header)
      (rw (take_append h.name (header_separator ++ h.value) (length h.name) refl) (
        rw (drop-append_add h.name (header_separator ++ h.value) (length h.name + 1) 1 refl)
          (rw (trim_of_All h.name k.name_visible) (rw (trim-blank h.value) (rw k.value_trimmed)))))

pub header_lines-IsAsciiLine :
    (hs : List HttpHeader) → All IsSendable hs → All IsAsciiLine (header_lines hs)
header_lines-IsAsciiLine [] k = tt
header_lines-IsAsciiLine (h ∷ hs) k =
    (header_line-IsAsciiLine h k.0, header_lines-IsAsciiLine hs k.1)

module _ (hp : Heapless) where
  -- All the written headers are collected, in order, up to the sixteen that there is room for.
  pub collect_headers-header_lines :
      (acc hs : List HttpHeader)
      → All IsSendable hs
      → length acc + length hs ≤ max_headers
      → collect_headers hp acc (header_lines hs) ≡ acc ++ hs
  unfolding collect_headers
  collect_headers-header_lines acc [] k room = sym (append-nil acc)
  collect_headers-header_lines acc (h ∷ hs) k room =
      let fits : ltb (length acc) max_headers ≡ true = lt→ltb _ _ (omega arith) in
      rw (split_header-header_line h k.0, collect_headers)
        (rw (hp.push_lem HttpHeader max_headers acc h) (
          rw fits (
            collect_headers-header_lines (acc ++ h ∷ []) hs k.1
              (omega (arith, length-append acc (h ∷ [])))
            ∙ append_assoc acc (h ∷ []) hs)))

header_behind :
    (h : HttpHeader) (later rest : Bytes)
    → (h.name ++ (header_separator ++ (h.value ++ (crlf ++ later)))) ++ rest
      ≡ header_line h ++ (crlf ++ (later ++ rest))
header_behind h later rest = simp append_assoc

-- The head as the writer makes it, cut into lines.
pub render_headers-joined :
    (l : Bytes) (hs : List HttpHeader) (rest : Bytes)
    → l ++ (crlf ++ (render_headers hs ++ (crlf ++ rest)))
      ≡ joined l (header_lines hs) ++ (double_crlf ++ rest)
render_headers-joined l [] rest = refl
render_headers-joined l (h ∷ hs) rest =
    ap (λ w. l ++ (crlf ++ w))
      (header_behind h (render_headers hs) (crlf ++ rest)
        ∙ render_headers-joined (header_line h) hs rest)
    ∙ sym (append_assoc l (crlf ++ joined (header_line h) (header_lines hs)) (double_crlf ++ rest))
