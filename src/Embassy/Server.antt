-- ===== src/Embassy/Server.antt =====
-- src/server/embassy.rs: the server that accepts connections one after the other.
pub mod Timeout
pub mod Order
use nanofish.Embassy.{Network}
use nanofish.Header.{text_type}
use nanofish.Heapless.{Heapless}
use nanofish.Io.{Io, act, attempt, continue, lift, ◌>>=◌, ◌>>◌}
use nanofish.Options.{TimeoutDuration, from_secs}
use nanofish.Prelude.{ℕ, zero, suc, Bool, true, false, Option, none, some, codes}
use nanofish.Request.{HttpRequest}
use nanofish.Response.Builder.{new, set_status, content_type, with_text, build}
use nanofish.Response.{HttpResponse}
use nanofish.Result.{Result, ok}
use nanofish.Result
use nanofish.Server.{handle_connection}
use nanofish.StatusCode.{StatusCode}

pub record ServerTimeouts : Type 0 where
  pub accept_timeout : TimeoutDuration
  pub read_timeout : TimeoutDuration
  pub handler_timeout : TimeoutDuration

-- `Default`, and `ServerTimeouts::new`.
unfoldable pub default_timeouts : ServerTimeouts
unfolding from_secs
default_timeouts = record {
  accept_timeout = from_secs 10;
  read_timeout = from_secs 30;
  handler_timeout = from_secs 60;
}

abbrev pub new_timeouts : TimeoutDuration → TimeoutDuration → TimeoutDuration → ServerTimeouts
new_timeouts accept_timeout read_timeout handler_timeout = record {
  accept_timeout = accept_timeout;
  read_timeout = read_timeout;
  handler_timeout = handler_timeout;
}

pub record EmbassyHttpServer : Type 0 where
  pub port : ℕ
  pub timeouts : ServerTimeouts

abbrev pub with_timeouts : ℕ → ServerTimeouts → EmbassyHttpServer
with_timeouts port timeouts = record { port = port; timeouts = timeouts }

unfoldable pub new_server : ℕ → EmbassyHttpServer
unfolding default_timeouts
new_server port = with_timeouts port default_timeouts

module _ (hp : Heapless) where
  -- The response to a request whose handler was stopped.
  unfoldable pub timeout_response : Result HttpResponse
  unfolding content_type build
  timeout_response =
      Result.◌>>=◌ (content_type hp (set_status new StatusCode.request_timeout) text_type)
        λ b. build hp (with_text b (codes "Request Timeout"))

  abbrev pub timeout_match :
      {State : Type 0} → Option (Result HttpResponse) × State → Result HttpResponse × State
  timeout_match (some result, st) = (result, st)
  timeout_match (none, st) = (timeout_response, st)

  -- `with_timeout` of embassy-time runs a call for at most so many milliseconds, and returns its
  -- result, or nothing if it stopped it.
  module _ {State : Type 0}
      (with_timeout : ℕ
        → Io State HttpResponse
        → State
        → Option (Result HttpResponse) × State) where
    -- `TimeoutHandler::handle_request`.
    unfoldable pub handle_request :
        TimeoutDuration
        → (HttpRequest → Io State HttpResponse)
        → HttpRequest
        → Io State HttpResponse
    unfolding timeout_response
    handle_request timeout inner request st =
        timeout_match (with_timeout timeout.millis (inner request) st)

module _ (hp : Heapless) (usize_max : ℕ) (net : Network)
    (with_timeout : ℕ
      → Io net.stream.State HttpResponse
      → net.stream.State
      → Option (Result HttpResponse) × net.stream.State)
    (handler : HttpRequest → Io net.stream.State HttpResponse) (req_size max_response_size : ℕ)
    (self : EmbassyHttpServer) where
  open net use {stream}

  abbrev accept : Io stream.State Bool
  accept st = let outcome = net.accept self.port st in (ok outcome.0, outcome.1)

  -- A round of the loop behind `accept`: an error of the connection is only logged.
  unfoldable pub serve_match : Bool → Io stream.State (Unit {0})
  unfolding handle_connection handle_request
  serve_match false = act (net.timer 100)
  serve_match true = do
    act (net.set_timeout self.timeouts.read_timeout.millis)
    result ← attempt (
        handle_connection hp usize_max stream
          (handle_request hp with_timeout self.timeouts.handler_timeout handler) req_size
          max_response_size)
    act net.close

  unfoldable pub serve_round : Io stream.State (Unit {0})
  unfolding serve_match
  serve_round = do
    act net.new_socket
    act (net.set_timeout self.timeouts.accept_timeout.millis)
    accepted ← accept
    serve_match accepted

  -- The first `rounds` rounds of `serve`, whose loop has no end.
  unfoldable pub serve : ℕ → Io stream.State (Unit {0})
  unfolding serve_round
  serve zero = act (λ st. st)
  serve (suc rounds) = do serve_round; serve rounds
