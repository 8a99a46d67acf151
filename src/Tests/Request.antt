-- ===== src/Tests/Request.antt =====
-- Queries and escapes.
use nanofish.Method
use nanofish.Prelude.{
  ℕ, ◌≢◌, Bool, true, ◌&&◌, List, [], reverse, some, Bytes, ◌≡◌, ◌↔◌, refl, leb, if◌then◌else◌,
  codes, length, arith,
}
use nanofish.Request.Decode.RoundTrip.{percent_encode, percent_decode-percent_encode}
use nanofish.Request.Decode.{percent_decode}
use nanofish.Request.Find.{first, Values, query-Values}
use nanofish.Request.Indexed.{FirstOf, Indexed, query_indexed_iff}
use nanofish.Request.Query.{pairs_in, query_text, query_pairs_lem}
use nanofish.Request.{
  HttpRequest, query_pairs, query_first, query_last, query_all, query_indexed, query_string,
  query_name_matches_index,
}
use nanofish.Result.{ok, err, buffer_overflow}
use nanofish.Text.Number.{from_str_radix}
use nanofish.Text.Utf8.{from_utf8}

abbrev search : HttpRequest
search = record {
  method = Method.get;
  path = codes "/find?a=1&&b&a=2";
  version = codes "HTTP/1.1";
  headers = [];
  body = [];
}

-- The letters, kept by an encoder.
abbrev letter : ℕ → Bool
letter b = leb b'a' b && leb b b'z'

query_pairs_lem_example : query_pairs search ≡ pairs_in (query_text search)
query_pairs_lem_example = query_pairs_lem search

query-Values_example :
    (vs : List Bytes) × Values (codes "a") (pairs_in (query_text search)) vs
    × (query_all search (codes "a") ≡ vs)
    × (query_first search (codes "a") ≡ first vs)
    × (query_last search (codes "a") ≡ first (reverse vs))
query-Values_example = query-Values search (codes "a")

abbrev indexed : HttpRequest
indexed = record {
  method = Method.get;
  path = codes "/find?f[1]=x&f[0]=y&f[00]=z";
  version = codes "HTTP/1.1";
  headers = [];
  body = [];
}

query_indexed_iff_example :
    (query_indexed indexed 255 (codes "f") 0 ≡ some (codes "y"))
    ↔ FirstOf (Indexed 255 (codes "f") 0) (pairs_in (query_text indexed)) (codes "y")
query_indexed_iff_example = query_indexed_iff indexed 255 (codes "f") 0 (codes "y")

found_indexed : query_indexed indexed 255 (codes "f") 0 ≡ some (codes "y")
unfolding query_indexed query_pairs query_string query_name_matches_index from_str_radix
found_indexed = refl

letter-kept : (b : ℕ) → letter b ≡ true → (b ≢ b'%') × (b ≢ b'+')
letter-kept b h = ground arith

percent_decode-percent_encode_example :
    percent_decode 4 (percent_encode letter (codes "a +b"))
    ≡ (if leb (length (codes "a +b")) 4 then ok (codes "a +b") else err buffer_overflow)
unfolding from_utf8
percent_decode-percent_encode_example =
    percent_decode-percent_encode letter letter-kept 4 (codes "a +b") (omega arith) refl
