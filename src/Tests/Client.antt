-- ===== src/Tests/Client.antt =====
-- A stream that follows a script, and the client on it.
use nanofish.Client.Arrive.{Arrives, last, more, again, read_response-Arrives, Reads}
use nanofish.Client.Endpoint.Print.{
  scheme_text, port_text, port_or_default, IsHost, IsPort, IsPath, parse_endpoint-text,
}
use nanofish.Client.Endpoint.{parse_endpoint}
use nanofish.Client.Read.{IsReceived, read_response-IsReceived}
use nanofish.Client.{read_response}
use nanofish.Codec.Framing.{complete}
use nanofish.Io.{Stream}
use nanofish.Prelude.{
  is_empty, if◌then◌else◌, ℕ, ◌≤◌, true, false, ap, List, [], ◌∷◌, ◌++◌, Option, none, some, ◌≡◌,
  refl, Bytes, codes, length, take, take_all, length-take, arith,
}
use nanofish.Result.{ok}

-- What the next reads give; a read takes what it has room for of the first piece.
abbrev pub script_read : List (Option Bytes) → ℕ → Option Bytes × List (Option Bytes)
script_read [] room = (some [], [])
script_read (none ∷ script) room = (none, script)
script_read (some piece ∷ script) room = (some (take room piece), script)

pub script_read_lem :
    (script : List (Option Bytes)) (room : ℕ) (bytes : Bytes)
    → (script_read script room).0 ≡ some bytes
    → length bytes ≤ room
script_read_lem [] room bytes e = ground arith
script_read_lem (none ∷ script) room bytes e = cc
script_read_lem (some piece ∷ script) room bytes e = ground (arith, length-take room piece)

abbrev pub scripted : Stream
scripted = record {
  State = List (Option Bytes);
  read = script_read;
  write_all = λ st bytes. (true, st);
  flush = λ st. (true, st);
  read_lem = script_read_lem;
}

pub script-Reads :
    (usize_max : ℕ) (piece : Bytes) (script : List (Option Bytes))
    → Reads usize_max scripted (λ st. st) 100 (some piece ∷ script) piece script
script-Reads usize_max piece script room h =
    ap (λ bytes. (some bytes, script)) (take_all room piece h)

abbrev first_piece : Bytes
first_piece = codes "HTTP/1.1 200 OK\r\nContent-Length: 2\r"

abbrev last_piece : Bytes
last_piece = codes "\n\r\nab"

abbrev script : List (Option Bytes)
script = some first_piece ∷ none ∷ some last_piece ∷ []

read_response-IsReceived_example :
    IsReceived 255 100 (read_response 255 scripted (λ st. st) 100 2 script).0
read_response-IsReceived_example = read_response-IsReceived 255 scripted (λ st. st) 100 2 script

abbrev whole : Bytes
whole = first_piece ++ last_piece

read_response-Arrives_example :
    (read_response 255 scripted (λ st. st) 100 2 script).0 ≡ ok (first_piece ++ last_piece)
unfolding complete
read_response-Arrives_example =
    let open_end : complete 255 first_piece ≡ false = refl in
    let done : complete 255 whole ≡ true = refl in
    let third : Arrives 255 scripted (λ st. st) 100 first_piece 1 (some last_piece ∷ []) whole =
      last first_piece last_piece 1 (some last_piece ∷ []) [] (λ e. cc) (omega arith) (omega arith)
        (script-Reads 255 last_piece []) done in
    let second : Arrives 255 scripted (λ st. st) 100 first_piece 2 (none ∷ some last_piece ∷ [])
        whole =
      again first_piece 2 (none ∷ some last_piece ∷ []) (some last_piece ∷ []) whole (omega arith)
        (omega arith) (λ room. refl) third in
    let begin : Arrives 255 scripted (λ st. st) 100 [] 2 script whole =
      more [] first_piece 2 script (none ∷ some last_piece ∷ []) whole (λ e. cc) (omega arith)
        (omega arith) (script-Reads 255 first_piece (none ∷ some last_piece ∷ [])) open_end
        second in
    read_response-Arrives 255 scripted (λ st. st) 100 2 script whole begin

parse_endpoint-text_example :
    parse_endpoint
      (scheme_text true ++ (codes "://" ++ ((codes "a.b" ++ port_text (some 8443)) ++ codes "/x")))
    ≡ ok (record {
      scheme = scheme_text true;
      host = codes "a.b";
      port = port_or_default true (some 8443);
      path = if is_empty (codes "/x") then b'/' ∷ [] else codes "/x";
    })
parse_endpoint-text_example =
    let host : IsHost (codes "a.b") (some 8443) = omega arith in
    let port : IsPort (some 8443) = omega arith in
    let path : IsPath (codes "/x") = refl in
    parse_endpoint-text true (codes "a.b") (some 8443) (codes "/x") host port path
