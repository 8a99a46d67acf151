-- ===== src/Codec/Parse/Lines.antt =====
-- `parse_resp` on lines joined by line breaks and a body behind an empty line.
use nanofish.Codec.Dechunk.{slice}
use nanofish.Codec.Parse.Joined.{joined, IsLine, split_crlf-joined, find_double_crlf-joined}
use nanofish.Codec.Parse.{status_of_line, collect_headers, parse_resp, parse_body}
use nanofish.Heapless.{Heapless}
use nanofish.Prelude.{
  ℕ, ◌+◌, ◌-◌, ◌<◌, true, false, List, [], ◌∷◌, ◌++◌, some, ◌≡◌, refl, sym, ap, ◌∙◌, fun_ext, ltb,
  leb, if◌then◌else◌, Bytes, take, drop, length, arith, All, All-append, append_assoc,
  length-append, take_append, take-append_add, drop-append_add, drop_append, le→leb, lt→leb, lt→ltb,
  le→ltb,
}
use nanofish.Protocol.{crlf, double_crlf, find_crlf, find_double_crlf}
use nanofish.Response.{HttpResponse}
use nanofish.Result.{Result, ok, panic, ◌>>=◌}
use nanofish.StatusCode.{StatusCode}
use nanofish.Text.Split.Plain.{Lacks, find_window_of_Lacks}
use nanofish.Text.Split.{find_window}
use nanofish.Text.Utf8.{from_utf8, from_utf8_ascii, IsAscii}

-- A line that is ASCII, not empty, and has no carriage return.
abbrev pub IsAsciiLine : Bytes → Type 0
IsAsciiLine l = IsAscii l × IsLine l

pub IsAscii-joined :
    (l : Bytes) (ls : List Bytes) → All IsAsciiLine (l ∷ ls) → IsAscii (joined l ls)
IsAscii-joined l [] h = h.0.0
IsAscii-joined l (m ∷ ms) h =
    All-append (λ b. b < 0x80) l (crlf ++ joined m ms) h.0.0
      (omega arith, (omega arith, IsAscii-joined m ms h.1))

pub lines_of_All : (ls : List Bytes) → All IsAsciiLine ls → All IsLine ls
lines_of_All [] h = tt
lines_of_All (l ∷ ls) h = (h.0.1, lines_of_All ls h.1)

pub Lacks-of_All : (ls : List Bytes) → All IsAsciiLine ls → All (Lacks b'\r') ls
Lacks-of_All [] h = tt
Lacks-of_All (l ∷ ls) h = (h.0.1.0, Lacks-of_All ls h.1)

body_behind :
    (head body : Bytes) (n : ℕ)
    → n ≡ length head
    → (if ltb n (length (head ++ body)) then drop n (head ++ body) else []) ≡ body
body_behind head [] n e = rw (le→ltb n (length (head ++ [])) (omega (arith, length-append head [])))
body_behind head (b ∷ body) n e =
    rw (lt→ltb n (length (head ++ b ∷ body)) (omega (arith, length-append head (b ∷ body))))
      (drop_append head (b ∷ body) n e)

module _ (hp : Heapless) (l : Bytes) (body : Bytes) where
  abbrev message : List Bytes → Bytes
  message ls = joined l ls ++ (double_crlf ++ body)

  abbrev head_of : List Bytes → Bytes
  head_of ls = joined l ls ++ double_crlf

  module _ (ls : List Bytes) (h : All IsAsciiLine (l ∷ ls)) where
    headers_end : find_double_crlf (message ls) ≡ some (length (joined l ls))
    unfolding find_double_crlf
    headers_end = find_double_crlf-joined l ls body (lines_of_All (l ∷ ls) h)

    header_bytes : take (length (joined l ls) + 4) (message ls) ≡ head_of ls
    header_bytes = take-append_add (joined l ls) (double_crlf ++ body) _ 4 refl

    header_text : from_utf8 (head_of ls) ≡ some (head_of ls)
    header_text =
        from_utf8_ascii (head_of ls) (
          All-append (λ b. b < 0x80) (joined l ls) double_crlf (IsAscii-joined l ls h)
            (omega arith))

    body_data :
        (if ltb (length (joined l ls) + 4) (length (message ls))
          then drop (length (joined l ls) + 4) (message ls)
          else [])
        ≡ body
    body_data =
        ap
          (λ s.
            if ltb (length (joined l ls) + 4) (length s)
            then drop (length (joined l ls) + 4) s
            else [])
          (sym (append_assoc (joined l ls) double_crlf body))
        ∙ body_behind (head_of ls) body _ (omega (arith, length-append (joined l ls) double_crlf))

  status_line_end : (ls : List Bytes) → Lacks b'\r' l → find_crlf (head_of ls) ≡ some (length l)
  unfolding find_crlf
  status_line_end [] h = find_window_of_Lacks l _ h
  status_line_end (m ∷ ms) h =
      ap (find_window crlf) (append_assoc l (crlf ++ joined m ms) double_crlf)
      ∙ find_window_of_Lacks l _ h

  status_line : (ls : List Bytes) → take (length l) (head_of ls) ≡ l
  status_line [] = take_append l double_crlf _ refl
  status_line (m ∷ ms) =
      ap (take (length l)) (append_assoc l (crlf ++ joined m ms) double_crlf)
      ∙ take_append l _ _ refl

  section_bytes :
      (m : Bytes) (ms : List Bytes)
      → slice (length l + 2) (length (joined l (m ∷ ms)) + 4 - 4) (head_of (m ∷ ms)) ≡ joined m ms
  section_bytes m ms =
      let rest = joined m ms in
      let size = length-append l (crlf ++ rest) in
      ap (λ s. slice (length l + 2) (length (joined l (m ∷ ms)) + 4 - 4) s)
        (append_assoc l (crlf ++ rest) double_crlf)
      ∙ ap (take (length (joined l (m ∷ ms)) + 4 - 4 - (length l + 2)))
          (drop-append_add l (crlf ++ (rest ++ double_crlf)) _ 2 refl)
      ∙ take_append rest double_crlf _ (omega (arith, size))

  -- A response with at least one header: the status is read from the first line, the headers from
  -- the other lines in order, and the body from the bytes behind the empty line.
  pub parse_resp-joined :
      (m : Bytes) (ms : List Bytes)
      → All IsAsciiLine (l ∷ m ∷ ms)
      → parse_resp hp (message (m ∷ ms)) ≡ (
          status_of_line l >>= λ s. ok (record {
            status_code = s;
            headers = collect_headers hp [] (m ∷ ms);
            body = parse_body (collect_headers hp [] (m ∷ ms)) body;
          }))
  unfolding parse_resp
  parse_resp-joined m ms h =
      let ls = m ∷ ms in
      let room : leb (length l + 2) (length (joined l ls) + 4 - 4) ≡ true =
        le→leb _ _ (omega (arith, length-append l (crlf ++ joined m ms))) in
      rw (headers_end ls h) (
        rw (header_bytes ls h) (
          rw (header_text ls h) (
            rw (status_line_end ls h.0.1.0) (
              rw (status_line ls) (
                ap (λ (f : StatusCode → Result HttpResponse). status_of_line l >>= f)
                  (fun_ext λ s. rw room (
                    rw (section_bytes m ms) (
                      rw (split_crlf-joined m ms (Lacks-of_All ls h.1))
                        (rw (body_data ls h))))))))))

  -- A response with no header at all makes `parse_resp` panic, if its status line is read.
  pub parse_resp_no_header :
      IsAsciiLine l → parse_resp hp (message []) ≡ (status_of_line l >>= λ s. panic)
  unfolding parse_resp
  parse_resp_no_header h =
      let none_left : leb (length l + 2) (length l + 4 - 4) ≡ false = lt→leb _ _ (omega arith) in
      rw (headers_end [] (h, tt)) (
        rw (header_bytes [] (h, tt)) (
          rw (header_text [] (h, tt)) (
            rw (status_line_end [] h.1.0) (
              rw (status_line []) (
                ap (λ (f : StatusCode → Result HttpResponse). status_of_line l >>= f)
                  (fun_ext λ s. rw none_left))))))
