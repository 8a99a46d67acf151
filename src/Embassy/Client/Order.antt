-- ===== src/Embassy/Client/Order.antt =====
-- The order in which the client uses its socket.
use nanofish.Client.Ends.{request_with_retry_delay-Ends}
use nanofish.Client.Frame.{request_with_retry_delay-Keeps}
use nanofish.Client.{request_with_retry_delay}
use nanofish.Embassy.Client.{EmbassyHttpClient, connected, make_http_request}
use nanofish.Embassy.Client.Connecting.{
  open_socket, finished, next, advance, stage, At, IsUnconnected, Connected, connected-Connected,
}
use nanofish.Embassy.Trace.{Event, closed, slept, traced}
use nanofish.Embassy.{Network}
use nanofish.Header.{HttpHeader}
use nanofish.Heapless.{Heapless}
use nanofish.Io.Keeps.{StreamKeeps}
use nanofish.Io.{Io, caught, continue}
use nanofish.Method.{HttpMethod}
use nanofish.Options.{HttpClientOptions}
use nanofish.Prelude.{ℕ, List, [], ◌∷◌, Option, some, Bytes, ==_refl, ◌≡◌, refl, ◌⊎◌, inl, inr}
use nanofish.Result.Ends.{Ends}
use nanofish.Result.{Result, ok, err, panic, out_of_fuel}

module _ (options : HttpClientOptions) (net : Network) where
  open traced net use {stream}

  -- How a request ends: with its socket closed and the pause behind that over, or before there was a
  -- connection; a panic leaves the socket open.
  pub Ended : {A : Type 0} → Result A × stream.State → Type 0
  Ended (ok answer, st) = At options net finished st
  Ended (err e, st) = At options net finished st ⊎ IsUnconnected options net e st
  Ended (panic, st) = At options net open_socket st
  Ended (out_of_fuel, st) = ⊥

  -- Reads, writes and the pauses between retries.
  pub used-StreamKeeps : StreamKeeps stream (At options net open_socket)
  unfolding stage advance next
  used-StreamKeeps = record {
    reads = λ st room h. rw h refl;
    writes = λ st bytes h. rw h refl;
    flushes = λ st h. rw h refl;
  }

  pub waited-At :
      (log : List Event)
      → stage options log ≡ some open_socket
      → stage options (slept options.retry_delay.millis ∷ log) ≡ some open_socket
  unfolding stage advance next
  waited-At log h = rw h (rw ==_refl refl)

  pub closed-At :
      (log : List Event)
      → stage options log ≡ some open_socket
      → stage options (slept options.socket_close_delay.millis ∷ closed ∷ log) ≡ some finished
  unfolding stage advance next
  closed-At log h = rw h (rw ==_refl refl)

  -- The end of a request, behind its exchange on the open socket.
  exchanged-Ended :
      {A : Type 0} (m : Result A × stream.State)
      → At options net open_socket m.1
      → Ends (Unit {0}) m.0
      → Ended (
          continue (caught m) λ result st. (
            result,
            (
              net.timer options.socket_close_delay.millis (net.close st.0),
              slept options.socket_close_delay.millis ∷ closed ∷ st.1,
            ),
          ))
  unfolding Ended Ends
  exchanged-Ended (ok answer, st) h k = closed-At st.1 h
  exchanged-Ended (err e, st) h k = inl (closed-At st.1 h)
  exchanged-Ended (panic, st) h k = h
  exchanged-Ended (out_of_fuel, st) h k = k

  behind_connecting :
      {A : Type 0} (m : Result (Unit {0}) × stream.State) (f : Io stream.State A)
      → Connected options net m
      → ((st : stream.State) → At options net open_socket st → Ended (f st))
      → Ended (continue m λ _. f)
  unfolding Connected Ended
  behind_connecting (ok done, st) f h k = k st h
  behind_connecting (err e, st) f h k = inr h
  behind_connecting (panic, st) f h k = elim h [ ]
  behind_connecting (out_of_fuel, st) f h k = elim h [ ]

module _ (hp : Heapless) (usize_max rq : ℕ) (self : EmbassyHttpClient) (net : Network) where
  -- On any network, a plain request uses its socket in this order: it makes one, sets the timeout of
  -- the options, queries, connects, reads and writes with pauses of `retry_delay`, closes, and pauses
  -- for `socket_close_delay`. A response or an error behind the connection comes after all of it; any
  -- other error is one of the resolution, before `connect`, or of `connect`, and then the socket was
  -- aborted.
  pub make_http_request-Ended :
      (method : HttpMethod) (host_port : Bytes × ℕ) (path : Bytes) (headers : List HttpHeader)
      (body : Option Bytes) (response_buffer : Bytes) (st : net.stream.State)
      → Ended self.options net (
          make_http_request
            (traced net)
            hp
            usize_max
            rq
            self
            method
            host_port
            path
            headers
            body
            response_buffer
            (st, []))
  unfolding make_http_request
  make_http_request-Ended method host_port path headers body response_buffer st =
      behind_connecting self.options net (connected (traced net) self.options host_port (st, [])) _
        (connected-Connected self.options net host_port st)
        λ st h.
          exchanged-Ended self.options net
            (request_with_retry_delay hp usize_max rq (traced net).stream self.options
              ((traced net).timer self.options.retry_delay.millis)
              (record {
                method = method;
                host = host_port.0;
                path = path;
                headers = headers;
                body = body;
              })
              response_buffer st)
            (request_with_retry_delay-Keeps usize_max (traced net).stream
              ((traced net).timer self.options.retry_delay.millis) (At self.options net open_socket)
              (used-StreamKeeps self.options net) (λ st h. waited-At self.options net st.1 h) hp rq
              self.options _ response_buffer st h)
            (request_with_retry_delay-Ends hp usize_max rq (traced net).stream self.options
              ((traced net).timer self.options.retry_delay.millis) _ response_buffer st)
