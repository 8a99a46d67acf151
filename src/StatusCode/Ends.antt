-- ===== src/StatusCode/Ends.antt =====
-- How `TryFrom<&str>` of a status code ends, in src/status_code.rs.
use nanofish.Prelude.{ℕ, Option, none, some, Bytes}
use nanofish.Result.Ends.{Ends}
use nanofish.StatusCode.{status_of, try_from_str}
use nanofish.Text.Number.{parse_uint}

status_of-Ends : (Panic : Type 0) (o : Option ℕ) → Ends Panic (status_of o)
unfolding status_of Ends
status_of-Ends Panic none = tt
status_of-Ends Panic (some code) = tt

pub try_from_str-Ends : (Panic : Type 0) (value : Bytes) → Ends Panic (try_from_str value)
unfolding try_from_str
try_from_str-Ends Panic value = status_of-Ends Panic (parse_uint 65535 value)
