-- ===== src/Smoltcp.antt =====
-- src/smoltcp.rs: a socket of the crate smoltcp as a stream. The socket is a parameter; between two
-- polls the application may change its state.
pub mod Runs
use nanofish.Prelude.{
  ℕ, ◌≤◌, Bool, true, false, List, [], ◌∷◌, Option, none, some, ◌≡◌, ◌==◌, if◌then◌else◌, Bytes,
  length, is_empty, codes,
}

-- What `recv_slice` of the socket returns: the bytes received, or one of its two errors.
pub data Recv : Type 0 where
  received : Bytes → Recv
  finished : Recv
  recv_refused : Recv

-- What `send_slice` returns: the number of bytes queued, or its error.
pub data Send : Type 0 where
  queued : ℕ → Send
  send_refused : Send

pub record Socket : Type 1 where
  pub State : Type 0
  pub recv_slice : State → ℕ → Recv × State
  pub may_recv : State → Bool
  pub send_slice : State → Bytes → Send × State
  pub may_send : State → Bool
  pub send_queue : State → ℕ
  -- The documented bound: no more is received than there is room for.
  pub recv_lem :
      (st : State) (room : ℕ) (bytes : Bytes)
      → (recv_slice st room).0 ≡ received bytes
      → length bytes ≤ room

-- `enum SmolTcpError`, as the error of a call's result.
pub data SmolTcpError : Type 0 where
  recv_invalid_state send_invalid_state : SmolTcpError

pub data Outcome (A : Type 0) : Type 0 where
  done : A → Outcome A
  failed : SmolTcpError → Outcome A

pub data Poll (A : Type 0) : Type 0 where
  pending : Poll A
  ready : Outcome A → Poll A

module _ (socket : Socket) where
  open socket use {State, recv_slice, may_recv, send_slice, may_send, send_queue}

  -- The match on what `recv_slice` returned, at the state behind it.
  unfoldable pub read_match : Recv × State → Poll Bytes × State
  read_match (received [], st) = (if may_recv st then pending else ready (done []), st)
  read_match (received (b ∷ bs), st) = (ready (done (b ∷ bs)), st)
  read_match (finished, st) = (ready (done []), st)
  read_match (recv_refused, st) = (ready (failed recv_invalid_state), st)

  -- One poll of `read`; no room is answered at once.
  unfoldable pub poll_read : ℕ → State → Poll Bytes × State
  unfolding read_match
  poll_read room st = if room == 0 then (ready (done []), st) else read_match (recv_slice st room)

  unfoldable pub write_match : Send × State → Poll ℕ × State
  write_match (queued n, st) =
      (if n == 0 then (if may_send st then pending else ready (done 0)) else ready (done n), st)
  write_match (send_refused, st) = (ready (failed send_invalid_state), st)

  -- One poll of `write`; nothing to write is answered at once.
  unfoldable pub poll_write : Bytes → State → Poll ℕ × State
  unfolding write_match
  poll_write bytes st =
      if is_empty bytes then (ready (done 0), st) else write_match (send_slice st bytes)

  unfoldable pub poll_flush : State → Poll (Unit {0}) × State
  poll_flush st = (
    if send_queue st == 0
        then ready (done tt)
        else if may_send st
        then pending
        else ready (failed send_invalid_state),
    st,
  )

-- `Display` of `SmolTcpError`.
abbrev smoltcp_text : SmolTcpError → Bytes
smoltcp_text recv_invalid_state = codes "smoltcp receive half is not open"
smoltcp_text send_invalid_state = codes "smoltcp transmit half is not open"
