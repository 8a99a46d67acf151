-- ===== src/Embassy/Client/Connecting.antt =====
-- The protocol of the client's socket, and that resolving and connecting keep to it.
use nanofish.Embassy.Client.{
  first, first_if_ok, resolve_aaaa, resolve_host, connect_match, connected,
}
use nanofish.Embassy.Trace.{
  Event, made, timed, queried, connects, io, aborted, closed, slept, traced, noted,
}
use nanofish.Embassy.{DnsQueryType, Network, a, aaaa}
use nanofish.Io.{continue, lift}
use nanofish.Options.{HttpClientOptions}
use nanofish.Prelude.{
  ℕ, Bool, true, false, List, [], ◌∷◌, Option, none, some, if◌then◌else◌, Bytes, ◌==◌, ==_refl, ◌≡◌,
  refl, ◌⊎◌, inl, inr, Option-cases,
}
use nanofish.Result.{
  Error, Result, ok, err, panic, out_of_fuel, ok_or, connection_error, dns_error, ip_address_empty,
}

pub data Stage : Type 0 where
  idle fresh ready failed abandoned open_socket closing finished : Stage

module _ (options : HttpClientOptions) where
  -- The protocol: which event may come in a stage, and the stage behind it.
  unfoldable pub next : Stage → Event → Option Stage
  next idle made = some fresh
  next fresh (timed d) = if d == options.socket_timeout.millis then some ready else none
  next ready (queried t) = some ready
  next ready (connects true) = some open_socket
  next ready (connects false) = some failed
  next failed aborted = some abandoned
  next open_socket io = some open_socket
  next open_socket (slept d) = if d == options.retry_delay.millis then some open_socket else none
  next open_socket closed = some closing
  next closing (slept d) = if d == options.socket_close_delay.millis then some finished else none
  next _ _ = none

  unfoldable pub advance : Option Stage → Event → Option Stage
  unfolding next
  advance none e = none
  advance (some s) e = next s e

  -- The stage behind the events of a log, none for a log that is against the protocol.
  unfoldable pub stage : List Event → Option Stage
  unfolding advance
  stage [] = some idle
  stage (e ∷ log) = advance (stage log) e

  module _ (net : Network) where
    open traced net use {stream}

    -- The log is in stage `s`.
    abbrev pub At : Stage → stream.State → Type 0
    At s st = stage st.1 ≡ some s

    -- How the resolution ends.
    abbrev pub IsNoAddress : Error → Type 0
    IsNoAddress e = (e ≡ dns_error) ⊎ (e ≡ ip_address_empty)

    Resolved : Result net.IpAddress × stream.State → Type 0
    Resolved (ok addr, st) = At ready st
    Resolved (err e, st) = At ready st × IsNoAddress e
    Resolved (panic, st) = ⊥
    Resolved (out_of_fuel, st) = ⊥

    queried-At :
        (t : DnsQueryType) (log : List Event)
        → stage log ≡ some ready
        → stage (queried t ∷ log) ≡ some ready
    unfolding stage advance next
    queried-At t log h = rw h refl

    answer_aaaa-Resolved :
        (answer : Option (List net.IpAddress) × net.stream.State) (log : List Event)
        → stage log ≡ some ready
        → Resolved (
            continue
              (ok_or answer.0 dns_error, (answer.1, queried aaaa ∷ log))
              (λ addrs. lift (ok_or (first addrs) ip_address_empty)))
    unfolding Resolved
    answer_aaaa-Resolved (none, st) log h = (queried-At aaaa log h, inl refl)
    answer_aaaa-Resolved (some [], st) log h = (queried-At aaaa log h, inr refl)
    answer_aaaa-Resolved (some (addr ∷ addrs), st) log h = queried-At aaaa log h

    resolve_host-Resolved :
        (host : Bytes) (st : stream.State)
        → At ready st
        → Resolved (resolve_host (traced net) host st)
    unfolding resolve_host resolve_aaaa Resolved
    resolve_host-Resolved host st h =
        let answer = net.query host a st.0 in
        elim (Option-cases (first_if_ok answer.0)) [
          | inr (addr, e) ↦ rw (e, resolve_host) (queried-At a st.1 h)
          | inl e ↦
              rw (e, resolve_host)
                (answer_aaaa-Resolved (net.query host aaaa answer.1) (queried a ∷ st.1)
                  (queried-At a st.1 h))
        ]

    -- How the connecting ends.
    abbrev pub IsUnconnected : Error → stream.State → Type 0
    IsUnconnected e st = (At ready st × IsNoAddress e) ⊎ (At abandoned st × (e ≡ connection_error))

    unfoldable pub Connected : Result (Unit {0}) × stream.State → Type 0
    Connected (ok done, st) = At open_socket st
    Connected (err e, st) = IsUnconnected e st
    Connected (panic, st) = ⊥
    Connected (out_of_fuel, st) = ⊥

    connect_match-Connected :
        (outcome : Bool × net.stream.State) (log : List Event)
        → stage log ≡ some ready
        → Connected (connect_match (traced net) (noted connects outcome log))
    unfolding Connected stage advance next
    connect_match-Connected (true, st) log h = rw h refl
    connect_match-Connected (false, st) log h = inr (rw h refl, refl)

    behind_resolving :
        (m : Result net.IpAddress × stream.State) (port : ℕ)
        → Resolved m
        → Connected (
            continue m λ ip_addr st.
              connect_match (traced net) (noted connects (net.connect (ip_addr, port) st.0) st.1))
    unfolding Resolved Connected
    behind_resolving (ok addr, st) port h =
        connect_match-Connected (net.connect (addr, port) st.0) st.1 h
    behind_resolving (err e, st) port h = inl h
    behind_resolving (panic, st) port h = elim h [ ]
    behind_resolving (out_of_fuel, st) port h = elim h [ ]

    timed-At : stage (timed options.socket_timeout.millis ∷ made ∷ []) ≡ some ready
    unfolding stage advance next
    timed-At = rw ==_refl refl

    pub connected-Connected :
        (host_port : Bytes × ℕ) (st : net.stream.State)
        → Connected (connected (traced net) options host_port (st, []))
    unfolding connected
    connected-Connected host_port st =
        let ready_state : stream.State = (
          net.set_timeout options.socket_timeout.millis (net.new_socket st),
          timed options.socket_timeout.millis ∷ made ∷ [],
        ) in
        behind_resolving (resolve_host (traced net) host_port.0 ready_state) host_port.1
          (resolve_host-Resolved host_port.0 ready_state timed-At)
