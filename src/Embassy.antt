-- ===== src/Embassy.antt =====
-- src/client/embassy.rs and src/server/embassy.rs: the client and the server on the network stack of
-- embassy. This file is what both call of the crates embassy-net and embassy-time.
pub mod Client
pub mod Server
pub mod Rng
pub mod Trace
use nanofish.Io.{Stream}
use nanofish.Prelude.{ℕ, Bool, List, Option, Bytes}

-- `embassy_net::dns::DnsQueryType`, as far as it is used.
pub data DnsQueryType : Type 0 where
  a aaaa : DnsQueryType

-- The network stack with the one socket that is in use, and the timer. A call takes the state of both.
-- `TcpSocket` is a stream; `new_socket` is `TcpSocket::new`, after which the calls are on the new
-- socket. `query` returns no addresses for an error, `connect` and `accept` whether they succeed.
-- Durations are in milliseconds.
pub record Network : Type 1 where
  pub stream : Stream
  pub IpAddress : Type 0
  pub new_socket : stream.State → stream.State
  pub set_timeout : ℕ → stream.State → stream.State
  pub query : Bytes → DnsQueryType → stream.State → Option (List IpAddress) × stream.State
  pub connect : IpAddress × ℕ → stream.State → Bool × stream.State
  pub accept : ℕ → stream.State → Bool × stream.State
  pub abort : stream.State → stream.State
  pub close : stream.State → stream.State
  -- `Timer::after`, and `Instant::now().as_ticks()`.
  pub timer : ℕ → stream.State → stream.State
  pub ticks : stream.State → ℕ
