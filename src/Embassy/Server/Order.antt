-- ===== src/Embassy/Server/Order.antt =====
-- The order in which the server uses its sockets, and that it goes on after any error.
use nanofish.Embassy.Server.Timeout.{timeout_response-IsAnswer}
use nanofish.Embassy.Server.{
  EmbassyHttpServer, handle_request, timeout_match, serve_match, serve_round, serve,
}
use nanofish.Embassy.Trace.{Event, made, timed, accepts, io, closed, slept, traced}
use nanofish.Embassy.{Network}
use nanofish.Heapless.{Heapless}
use nanofish.Io.Keeps.{StreamKeeps}
use nanofish.Io.{Io, caught, continue}
use nanofish.Prelude.{
  ℕ, zero, suc, Bool, true, false, List, [], ◌∷◌, Option, none, some, if◌then◌else◌, ◌<◌, ◌==◌,
  ==_refl, ◌≡◌, refl,
}
use nanofish.Request.{HttpRequest}
use nanofish.Response.{HttpResponse}
use nanofish.Result.Ends.{Ends}
use nanofish.Result.{Result, ok, err, panic, out_of_fuel}
use nanofish.Server.Ends.{IsAnswer, handle_connection-Ends}
use nanofish.Server.Frame.{handle_connection-Keeps}
use nanofish.Server.{handle_connection}

pub data Stage : Type 0 where
  idle fresh listening turned_away taken serving : Stage

-- What a handler under its timeout gives: nothing, or what a handler may return.
unfoldable pub IsOutcome : Option (Result HttpResponse) → Type 0
IsOutcome none = Unit
IsOutcome (some r) = IsAnswer r

module _ (self : EmbassyHttpServer) where
  -- The protocol: which event may come in a stage, and the stage behind it.
  unfoldable pub next : Stage → Event → Option Stage
  next idle made = some fresh
  next fresh (timed d) = if d == self.timeouts.accept_timeout.millis then some listening else none
  next listening (accepts true) = some taken
  next listening (accepts false) = some turned_away
  next turned_away (slept d) = if d == 100 then some idle else none
  next taken (timed d) = if d == self.timeouts.read_timeout.millis then some serving else none
  next serving io = some serving
  next serving closed = some idle
  next _ _ = none

  unfoldable pub advance : Option Stage → Event → Option Stage
  unfolding next
  advance none e = none
  advance (some s) e = next s e

  -- The stage behind the events of a log, none for a log that is against the protocol.
  unfoldable pub stage : List Event → Option Stage
  unfolding advance
  stage [] = some idle
  stage (e ∷ log) = advance (stage log) e

  module _ (net : Network) where
    open traced net use {stream}

    abbrev pub At : Stage → stream.State → Type 0
    At s st = stage st.1 ≡ some s

    -- How a run ends: between two connections, and never with an error or a panic.
    pub Served : Result (Unit {0}) × stream.State → Type 0
    Served (ok done, st) = At idle st
    Served (err e, st) = ⊥
    Served (panic, st) = ⊥
    Served (out_of_fuel, st) = ⊥

    used-StreamKeeps : StreamKeeps stream (At serving)
    unfolding stage advance next
    used-StreamKeeps = record {
      reads = λ st room h. rw h refl;
      writes = λ st bytes h. rw h refl;
      flushes = λ st h. rw h refl;
    }

    timeout_match-IsAnswer :
        (hp : Heapless) (outcome : Option (Result HttpResponse) × stream.State)
        → IsOutcome outcome.0
        → IsAnswer (timeout_match hp outcome).0
    unfolding IsOutcome
    timeout_match-IsAnswer hp (some r, st) h = h
    timeout_match-IsAnswer hp (none, st) h = timeout_response-IsAnswer hp

    timeout_match-At :
        (hp : Heapless) (outcome : Option (Result HttpResponse) × stream.State)
        → At serving outcome.1
        → At serving (timeout_match hp outcome).1
    timeout_match-At hp (some r, st) h = h
    timeout_match-At hp (none, st) h = h

    closed-Served :
        (m : Result (Unit {0}) × stream.State)
        → At serving m.1
        → Ends ⊥ m.0
        → Served (continue (caught m) λ result st. (ok tt, (traced net).close st))
    unfolding Served Ends stage advance next
    closed-Served (ok done, st) h k = rw h refl
    closed-Served (err e, st) h k = rw h refl
    closed-Served (panic, st) h k = k
    closed-Served (out_of_fuel, st) h k = k

    then-Served :
        (m : Result (Unit {0}) × stream.State) (f : Io stream.State (Unit {0}))
        → Served m
        → ((st : stream.State) → At idle st → Served (f st))
        → Served (continue m λ _. f)
    unfolding Served
    then-Served (ok done, st) f h k = k st h
    then-Served (err e, st) f h k = elim h [ ]
    then-Served (panic, st) f h k = elim h [ ]
    then-Served (out_of_fuel, st) f h k = elim h [ ]

module _ (hp : Heapless) (usize_max : ℕ) (net : Network)
    (with_timeout : ℕ
      → Io (traced net).stream.State HttpResponse
      → (traced net).stream.State
      → Option (Result HttpResponse) × (traced net).stream.State)
    (handler : HttpRequest → Io (traced net).stream.State HttpResponse)
    (req_size max_response_size : ℕ) (self : EmbassyHttpServer)
    (keeps : (d : ℕ) (request : HttpRequest) (st : (traced net).stream.State)
      → At self net serving st
      → At self net serving (with_timeout d (handler request) st).1)
    (answers : (d : ℕ) (request : HttpRequest) (st : (traced net).stream.State)
      → IsOutcome (with_timeout d (handler request) st).0)
    (small : req_size < usize_max) where
  open traced net use {stream}

  abbrev timed_handler : HttpRequest → Io stream.State HttpResponse
  timed_handler = handle_request hp with_timeout self.timeouts.handler_timeout handler

  timed_handler-At :
      (request : HttpRequest) (st : stream.State)
      → At self net serving st
      → At self net serving (timed_handler request st).1
  unfolding handle_request
  timed_handler-At request st h =
      timeout_match-At self net hp
        (with_timeout self.timeouts.handler_timeout.millis (handler request) st)
        (keeps self.timeouts.handler_timeout.millis request st h)

  timed_handler-IsAnswer :
      (request : HttpRequest) (st : stream.State) → IsAnswer (timed_handler request st).0
  unfolding handle_request
  timed_handler-IsAnswer request st =
      timeout_match-IsAnswer self net hp
        (with_timeout self.timeouts.handler_timeout.millis (handler request) st)
        (answers self.timeouts.handler_timeout.millis request st)

  accepted-Served :
      (outcome : Bool × net.stream.State) (log : List Event)
      → stage self log ≡ some listening
      → Served self net (
          serve_match hp usize_max
            (traced net)
            with_timeout
            handler
            req_size
            max_response_size
            self
            outcome.0
            (outcome.1, accepts outcome.0 ∷ log))
  unfolding Served serve_match stage advance next
  accepted-Served (false, st) log h = rw h refl
  accepted-Served (true, st) log h =
      let start : stream.State = (
        net.set_timeout self.timeouts.read_timeout.millis st,
        timed self.timeouts.read_timeout.millis ∷ accepts true ∷ log,
      ) in
      let begun : At self net serving start = rw h (rw ==_refl refl) in
      closed-Served self net
        (handle_connection hp usize_max stream timed_handler req_size max_response_size start)
        (handle_connection-Keeps usize_max stream (At self net serving) (used-StreamKeeps self net)
          hp timed_handler req_size max_response_size timed_handler-At start begun)
        (handle_connection-Ends hp max_response_size usize_max stream timed_handler req_size start
          small timed_handler-IsAnswer)

  serve_round-Served :
      (st : stream.State)
      → At self net idle st
      → Served self net (
          serve_round hp usize_max
            (traced net)
            with_timeout
            handler
            req_size
            max_response_size
            self
            st)
  unfolding serve_round stage advance next
  serve_round-Served st h =
      accepted-Served
        (net.accept self.port
          (net.set_timeout self.timeouts.accept_timeout.millis (net.new_socket st.0)))
        (timed self.timeouts.accept_timeout.millis ∷ made ∷ st.1) (rw h (rw ==_refl refl))

  serve-Served_from :
      (rounds : ℕ) (st : stream.State)
      → At self net idle st
      → Served self net (
          serve hp usize_max
            (traced net)
            with_timeout
            handler
            req_size
            max_response_size
            self
            rounds
            st)
  unfolding serve Served
  serve-Served_from zero st h = h
  serve-Served_from (suc rounds) st h =
      then-Served self net
        (serve_round hp usize_max (traced net) with_timeout handler req_size max_response_size self
          st)
        _ (serve_round-Served st h) (serve-Served_from rounds)

  -- On any network, with a request buffer smaller than the largest `usize`, and a handler that under
  -- its timeout leaves the socket alone and returns nothing, an error, or a response with a `u16`
  -- status and a body of fewer than 10 ^ 10 bytes, the server never panics and goes on after every
  -- error, of `accept` or of a connection, in any number of rounds. In each round it makes a socket,
  -- sets the timeout for `accept`, and accepts; if that fails it pauses for 100 ms, and else it sets
  -- the timeout for reading, reads and writes, and closes the socket.
  pub serve-Served :
      (rounds : ℕ) (st : net.stream.State)
      → Served self net (
          serve hp usize_max
            (traced net)
            with_timeout
            handler
            req_size
            max_response_size
            self
            rounds
            (st, []))
  unfolding stage
  serve-Served rounds st = serve-Served_from rounds (st, []) refl
