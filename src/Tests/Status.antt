-- ===== src/Tests/Status.antt =====
-- Status codes and methods.
use nanofish.Method
use nanofish.Method.Laws.{try_from_str_iff}
use nanofish.Prelude.{◌/◌, ◌↔◌, true, some, ◌≡◌, codes, arith}
use nanofish.Result.{ok}
use nanofish.StatusCode
use nanofish.StatusCode.Laws.{from_u16_iff, try_from_str-decimal, classes_by_hundreds}
use nanofish.StatusCode.{as_u16, from_u16, other}
use nanofish.Text.Number.Print.{print_radix}

from_u16_iff_example : (from_u16 306 ≡ other 306) ↔ (306 ≡ as_u16 (other 306))
unfolding StatusCode.from_u16_arms
from_u16_iff_example = from_u16_iff 306 (other 306) (omega arith)

try_from_str-decimal_example :
    StatusCode.try_from_str (print_radix 10 (as_u16 (other 306))) ≡ ok (other 306)
unfolding StatusCode.from_u16_arms
try_from_str-decimal_example = try_from_str-decimal (other 306) (omega arith)

classes_by_hundreds_example :
    ((StatusCode.is_success (other 299) ≡ true) ↔ (as_u16 (other 299) / 100 ≡ 2))
    × ((StatusCode.is_client_error (other 299) ≡ true) ↔ (as_u16 (other 299) / 100 ≡ 4))
    × ((StatusCode.is_server_error (other 299) ≡ true) ↔ (as_u16 (other 299) / 100 ≡ 5))
classes_by_hundreds_example = classes_by_hundreds (other 299)

try_from_str_iff_example :
    (Method.try_from_str (codes "TRACE") ≡ some Method.trace)
    ↔ (codes "TRACE" ≡ Method.as_str Method.trace)
try_from_str_iff_example = try_from_str_iff (codes "TRACE") Method.trace
