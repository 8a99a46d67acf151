-- ===== src/Embassy/Trace.antt =====
-- A network that keeps a record of what is done with its socket, whatever the network is.
use nanofish.Embassy.{DnsQueryType, Network}
use nanofish.Io.{Stream}
use nanofish.Prelude.{ℕ, Bool, List, ◌∷◌}

pub data Event : Type 0 where
  made : Event
  timed : ℕ → Event
  queried : DnsQueryType → Event
  connects accepts : Bool → Event
  -- A read, a write or a flush.
  io : Event
  aborted closed : Event
  slept : ℕ → Event

abbrev pub noted : {A S : Type 0} → (A → Event) → A × S → List Event → A × (S × List Event)
noted event (a, st) log = (a, (st, event a ∷ log))

abbrev traced_stream : Stream → Stream
traced_stream stream = record {
  State = stream.State × List Event;
  read = λ st room. noted (λ _. io) (stream.read st.0 room) st.1;
  write_all = λ st bytes. noted (λ _. io) (stream.write_all st.0 bytes) st.1;
  flush = λ st. noted (λ _. io) (stream.flush st.0) st.1;
  read_lem = λ st room bytes e. stream.read_lem st.0 room bytes e;
}

-- The latest event comes first.
abbrev pub traced : Network → Network
traced net = record {
  stream = traced_stream net.stream;
  IpAddress = net.IpAddress;
  new_socket = λ st. (net.new_socket st.0, made ∷ st.1);
  set_timeout = λ d st. (net.set_timeout d st.0, timed d ∷ st.1);
  query = λ host t st. noted (λ _. queried t) (net.query host t st.0) st.1;
  connect = λ remote st. noted connects (net.connect remote st.0) st.1;
  accept = λ port st. noted accepts (net.accept port st.0) st.1;
  abort = λ st. (net.abort st.0, aborted ∷ st.1);
  close = λ st. (net.close st.0, closed ∷ st.1);
  timer = λ d st. (net.timer d st.0, slept d ∷ st.1);
  ticks = λ st. net.ticks st.0;
}
