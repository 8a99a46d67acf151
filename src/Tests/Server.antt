-- ===== src/Tests/Server.antt =====
-- The server on a stream that follows a script.
use nanofish.Prelude.{List, [], ◌∷◌, Option, some, Bytes, codes, arith}
use nanofish.Server.Read.{IsWholeRequest, read_request-IsWholeRequest}
use nanofish.Server.{read_request}
use nanofish.Tests.Client.{scripted}

abbrev script : List (Option Bytes)
script =
    some (codes "POST /a HTTP/1.1\r\nContent-Length: 2\r\n\r")
    ∷ some (codes "\na")
    ∷ some (codes "b")
    ∷ []

read_request-IsWholeRequest_example :
    IsWholeRequest 255 100 (read_request 255 scripted 100 script).0
read_request-IsWholeRequest_example =
    read_request-IsWholeRequest 255 100 scripted script (omega arith)
