-- ===== src/Method.antt =====
-- src/method.rs: the request methods and their names.
pub mod Laws
use nanofish.Prelude.{Option, none, some, if◌then◌else◌, Bytes, codes, bytes_eq}

pub data HttpMethod : Type 0 where
  get post put delete patch connect options trace head : HttpMethod

unfoldable pub as_str : HttpMethod → Bytes
as_str get = codes "GET"
as_str post = codes "POST"
as_str put = codes "PUT"
as_str delete = codes "DELETE"
as_str patch = codes "PATCH"
as_str connect = codes "CONNECT"
as_str options = codes "OPTIONS"
as_str trace = codes "TRACE"
as_str head = codes "HEAD"

-- Both `TryFrom<&str>` and `TryFrom<&[u8]>`, which have the same arms; `none` is
-- `InvalidHttpMethod`.
unfoldable pub try_from_str : Bytes → Option HttpMethod
unfolding bytes_eq
try_from_str value =
    if bytes_eq value (codes "GET")
    then some get
    else if bytes_eq value (codes "POST")
    then some post
    else if bytes_eq value (codes "PUT")
    then some put
    else if bytes_eq value (codes "DELETE")
    then some delete
    else if bytes_eq value (codes "PATCH")
    then some patch
    else if bytes_eq value (codes "HEAD")
    then some head
    else if bytes_eq value (codes "OPTIONS")
    then some options
    else if bytes_eq value (codes "TRACE")
    then some trace
    else if bytes_eq value (codes "CONNECT")
    then some connect
    else none
