-- ===== src/Tls.antt =====
-- src/client/tls.rs: the client that runs TLS on a stream that is connected already. The crate
-- embedded-tls is a parameter.
pub mod Provider
pub mod Client
use nanofish.Io.Keeps.{StreamKeeps}
use nanofish.Io.{Io, Stream}
use nanofish.Prelude.{ℕ, ◌≤◌, Bool, Option, none, some, ◌≡◌, Bytes, length}
use nanofish.Result.{Result, ok, err, tls_error}
use nanofish.Tls.Provider.{VerifiedTlsProvider}

-- `TlsConnection` on a stream: its own state, new before the handshake, and its calls on both. `open`
-- is told the provider, of which there are two, and the name of the server, and returns an error or
-- none, and what became of the generator and the verifier that the provider borrows.
pub record Tls (stream : Stream) (Rng Verifier : Type 0) : Type 1 where
  pub Session : Type 0
  pub new : Session
  pub open_unsecure :
      Rng → Bytes → Session × stream.State → (Option ℕ × Rng) × (Session × stream.State)
  pub open_verified :
      VerifiedTlsProvider Rng Verifier
      → Bytes
      → Session × stream.State
      → (Option ℕ × VerifiedTlsProvider Rng Verifier) × (Session × stream.State)
  pub read : Session × stream.State → ℕ → Option Bytes × (Session × stream.State)
  pub write_all : Session × stream.State → Bytes → Bool × (Session × stream.State)
  pub flush : Session × stream.State → Bool × (Session × stream.State)
  pub close : Session × stream.State → Option ℕ × (Session × stream.State)
  -- The bound of `embedded_io_async::Read`, of the decrypted bytes.
  pub read_lem :
      (st : Session × stream.State) (room : ℕ) (bytes : Bytes)
      → (read st room).0 ≡ some bytes
      → length bytes ≤ room

-- The connection is a stream as well.
abbrev pub connection : {stream : Stream} {Rng Verifier : Type 0} → Tls stream Rng Verifier → Stream
connection {stream} tls = record {
  State = tls.Session × stream.State;
  read = tls.read;
  write_all = tls.write_all;
  flush = tls.flush;
  read_lem = tls.read_lem;
}

-- What a generic stream allows the crate to do with it: nothing but its calls.
pub record CallsOnly {stream : Stream} {Rng Verifier : Type 0} (tls : Tls stream Rng Verifier)
    : Type 1 where
  pub opens_unsecure :
      (I : stream.State → Type 0)
      → StreamKeeps stream I
      → (rng : Rng) (name : Bytes) (st : tls.Session × stream.State) → I st.1
      → I (tls.open_unsecure rng name st).1.1
  pub opens_verified :
      (I : stream.State → Type 0)
      → StreamKeeps stream I
      → (provider : VerifiedTlsProvider Rng Verifier) (name : Bytes)
        (st : tls.Session × stream.State)
      → I st.1
      → I (tls.open_verified provider name st).1.1
  pub calls :
      (I : stream.State → Type 0)
      → StreamKeeps stream I
      → StreamKeeps (connection tls) (λ st. I st.1)
  pub closes :
      (I : stream.State → Type 0)
      → StreamKeeps stream I
      → (st : tls.Session × stream.State) → I st.1
      → I (tls.close st).1.1

-- `?` on the outcome of a handshake.
abbrev pub opened_match : {S : Type 0} → Option ℕ → S → Result (Unit {0}) × S
opened_match none st = (ok tt, st)
opened_match (some e) st = (err (tls_error e), st)

-- Calls on a connection, from the state `session` on; the stream is had back.
abbrev pub within : {Session S A : Type 0} → Session → Io (Session × S) A → Io S A
within session m st = let r = m (session, st) in (r.0, r.1.1)
