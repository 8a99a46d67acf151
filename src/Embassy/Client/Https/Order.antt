-- ===== src/Embassy/Client/Https/Order.antt =====
-- The order in which a request over TLS uses its socket.
use nanofish.Client.Ends.{request_with_retry_delay-Ends}
use nanofish.Client.Frame.{request_with_retry_delay-Keeps}
use nanofish.Client.{HttpClientRequest, request_with_retry_delay}
use nanofish.Embassy.Client.Https.{open_seeded, exchange_over_tls, make_https_request}
use nanofish.Embassy.Client.Connecting.{
  open_socket, stage, At, IsUnconnected, Connected, connected-Connected,
}
use nanofish.Embassy.Client.Order.{used-StreamKeeps, waited-At}
use nanofish.Embassy.Client.{EmbassyHttpClient, connected}
use nanofish.Embassy.Rng.{XorShift32Rng, tls_seed}
use nanofish.Embassy.Rng
use nanofish.Embassy.Trace.{Event, slept, traced}
use nanofish.Embassy.{Network}
use nanofish.Header.{HttpHeader}
use nanofish.Heapless.{Heapless}
use nanofish.Io.Keeps.{StreamKeeps}
use nanofish.Io.{Io, caught, continue}
use nanofish.Method.{HttpMethod}
use nanofish.Options.{HttpClientOptions}
use nanofish.Prelude.{ℕ, List, [], ◌∷◌, Option, none, some, Bytes, ◌≡◌, refl, ◌⊎◌, inl, inr}
use nanofish.Result.Ends.{Ends}
use nanofish.Result.{Result, ok, err, panic, out_of_fuel, tls_error}
use nanofish.Tls.{Tls, CallsOnly, connection, opened_match, within}

abbrev outside : {Session S A : Type 0} → Result A × (Session × S) → Result A × S
outside m = (m.0, m.1.1)

module _ (options : HttpClientOptions) (net : Network)
    (tls : Tls (traced net).stream XorShift32Rng (Unit {0})) where
  -- The last event is the pause, and before it there was only traffic on the open socket.
  abbrev IsPaused : List Event → Type 0
  IsPaused log =
      (before : List Event) × (log ≡ slept options.socket_close_delay.millis ∷ before)
      × (stage options before ≡ some open_socket)

  -- How the part over TLS ends; only the handshake returns without the pause.
  EndedInside : {A : Type 0} → Result A × (traced net).stream.State → Type 0
  EndedInside (ok answer, st) = IsPaused st.1
  EndedInside (err e, st) =
      IsPaused st.1 ⊎ (((x : ℕ) × (e ≡ tls_error x)) × At options net open_socket st)
  EndedInside (panic, st) = At options net open_socket st
  EndedInside (out_of_fuel, st) = ⊥

  pub EndedOverTls : {A : Type 0} → Result A × (traced net).stream.State → Type 0
  EndedOverTls (ok answer, st) = IsPaused st.1
  EndedOverTls (err e, st) =
      IsPaused st.1
      ⊎ (((x : ℕ) × (e ≡ tls_error x)) × At options net open_socket st)
      ⊎ IsUnconnected options net e st
  EndedOverTls (panic, st) = At options net open_socket st
  EndedOverTls (out_of_fuel, st) = ⊥

  inside-EndedOverTls :
      {A : Type 0} (m : Result A × (traced net).stream.State) → EndedInside m → EndedOverTls m
  unfolding EndedInside EndedOverTls
  inside-EndedOverTls (ok answer, st) h = h
  inside-EndedOverTls (err e, st) (inl h) = inl h
  inside-EndedOverTls (err e, st) (inr h) = inr (inl h)
  inside-EndedOverTls (panic, st) h = h
  inside-EndedOverTls (out_of_fuel, st) h = h

  module _ (only : CallsOnly tls) where
    open only use {opens_unsecure, calls, closes}

    abbrev used : StreamKeeps (traced net).stream (At options net open_socket)
    used = used-StreamKeeps options net

    abbrev InsideState : Type 0
    InsideState = tls.Session × (traced net).stream.State

    pause-Ended :
        {A : Type 0} (m : Result A × InsideState)
        → At options net open_socket m.1.1
        → Ends (Unit {0}) m.0
        → EndedInside (
            outside (
              continue (caught m) λ result st. (
                result,
                (
                  (tls.close st).1.0,
                  (traced net).timer options.socket_close_delay.millis (tls.close st).1.1,
                ),
              )))
    unfolding EndedInside Ends
    pause-Ended (ok answer, st) h k = (_, refl, closes (At options net open_socket) used st h)
    pause-Ended (err e, st) h k = inl (_, refl, closes (At options net open_socket) used st h)
    pause-Ended (panic, st) h k = h
    pause-Ended (out_of_fuel, st) h k = k

    opened-Ended :
        {A : Type 0} (refusal : Option ℕ) (st : InsideState) (f : Io InsideState A)
        → At options net open_socket st.1
        → ((st : InsideState) → At options net open_socket st.1 → EndedInside (outside (f st)))
        → EndedInside (outside (continue (opened_match refusal st) λ _. f))
    unfolding EndedInside
    opened-Ended none st f h k = k st h
    opened-Ended (some x) st f h k = inr ((x, refl), h)

    behind_connecting :
        {A : Type 0} (m : Result (Unit {0}) × (traced net).stream.State)
        (f : Io (traced net).stream.State A)
        → Connected options net m
        → ((st : (traced net).stream.State) → At options net open_socket st → EndedInside (f st))
        → EndedOverTls (continue m λ _. f)
    unfolding Connected EndedOverTls
    behind_connecting (ok done, st) f h k = inside-EndedOverTls (f st) (k st h)
    behind_connecting (err e, st) f h k = inr (inr h)
    behind_connecting (panic, st) f h k = elim h [ ]
    behind_connecting (out_of_fuel, st) f h k = elim h [ ]

module _ (hp : Heapless) (usize_max rq : ℕ) (self : EmbassyHttpClient) (net : Network)
    (tls : Tls (traced net).stream XorShift32Rng (Unit {0})) (only : CallsOnly tls) where
  exchange_over_tls-Ended :
      (request : HttpClientRequest) (response_buffer : Bytes) (st : (traced net).stream.State)
      → At self.options net open_socket st
      → EndedInside self.options net tls (
          within tls.new
            (exchange_over_tls (traced net) tls hp usize_max rq self request response_buffer)
            st)
  unfolding exchange_over_tls open_seeded
  exchange_over_tls-Ended request response_buffer st h =
      let handshake =
        tls.open_unsecure (Rng.new (tls_seed ((traced net).ticks st))) request.host (tls.new, st) in
      opened-Ended self.options net tls only handshake.0.0 handshake.1 _
        (only.opens_unsecure (At self.options net open_socket) (used-StreamKeeps self.options net) _
          _ (tls.new, st) h)
        λ st h.
          pause-Ended self.options net tls only
            (request_with_retry_delay hp usize_max rq (connection tls) self.options
              (λ st. (st.0, (traced net).timer self.options.retry_delay.millis st.1)) request
              response_buffer st)
            (request_with_retry_delay-Keeps usize_max (connection tls)
              (λ st. (st.0, (traced net).timer self.options.retry_delay.millis st.1))
              (λ st. At self.options net open_socket st.1)
              (only.calls (At self.options net open_socket) (used-StreamKeeps self.options net))
              (λ st h. waited-At self.options net st.1.1 h) hp rq self.options request
              response_buffer st h)
            (request_with_retry_delay-Ends hp usize_max rq (connection tls) self.options
              (λ st. (st.0, (traced net).timer self.options.retry_delay.millis st.1)) request
              response_buffer st)

  -- On any network, and with an implementation of TLS that does nothing to the stream but its calls, a
  -- request over TLS makes its socket, sets the timeout of the options, queries and connects as a plain
  -- one does; then there are only reads, writes and pauses of `retry_delay` on the open socket, and
  -- last the pause of `socket_close_delay`, with no `close` of the socket. A response comes after all
  -- of it; an error comes after all of it, from the handshake, or before there was a connection.
  pub make_https_request-Ended :
      (method : HttpMethod) (host_port : Bytes × ℕ) (path : Bytes) (headers : List HttpHeader)
      (body : Option Bytes) (response_buffer : Bytes) (st : net.stream.State)
      → EndedOverTls self.options net tls (
          make_https_request
            (traced net)
            tls
            hp
            usize_max
            rq
            self
            method
            host_port
            path
            headers
            body
            response_buffer
            (st, []))
  unfolding make_https_request
  make_https_request-Ended method host_port path headers body response_buffer st =
      behind_connecting self.options net tls only
        (connected (traced net) self.options host_port (st, [])) _
        (connected-Connected self.options net host_port st)
        (exchange_over_tls-Ended _ response_buffer)
