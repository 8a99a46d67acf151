-- ===== src/Options.antt =====
-- src/options.rs: durations and the options of a client.
use nanofish.Prelude.{ℕ, ◌*◌, min}

-- `u64::MAX`.
abbrev pub u64_max : ℕ
u64_max = 0xffff_ffff_ffff_ffff

pub record TimeoutDuration : Type 0 where
  pub millis : ℕ

abbrev pub from_millis : ℕ → TimeoutDuration
from_millis millis = record { millis = millis }

-- `saturating_mul`.
unfoldable pub from_secs : ℕ → TimeoutDuration
from_secs secs = record { millis = min (secs * 1000) u64_max }

pub record HttpClientOptions : Type 0 where
  pub max_retries : ℕ
  pub socket_timeout : TimeoutDuration
  pub retry_delay : TimeoutDuration
  pub socket_close_delay : TimeoutDuration

-- `Default`.
unfoldable pub default_options : HttpClientOptions
unfolding from_secs
default_options = record {
  max_retries = 5;
  socket_timeout = from_secs 60;
  retry_delay = from_millis 200;
  socket_close_delay = from_millis 100;
}
