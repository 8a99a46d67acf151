-- ===== src/Tests/Smoltcp.antt =====
-- A socket that follows a script.
use nanofish.Prelude.{
  ℕ, ◌≤◌, true, List, [], ◌∷◌, ◌≡◌, ◌↔◌, refl, ap, Bytes, codes, length, length-take, take, arith,
  is_empty, not,
}
use nanofish.Smoltcp.Runs.{Runs, now, later, Reads, poll_read_iff, poll_flush-empties}
use nanofish.Smoltcp.{Recv, received, finished, queued, Socket, done, poll_read, poll_flush}

-- The pieces to receive, an empty one for a poll that finds none, and what is left to send.
abbrev scripted_recv : List Bytes × ℕ → ℕ → Recv × (List Bytes × ℕ)
scripted_recv ([], left) room = (finished, ([], left))
scripted_recv (piece ∷ pieces, left) room = (received (take room piece), (pieces, left))

received-inj : {a b : Bytes} → received a ≡ received b → a ≡ b
received-inj e = cc

scripted_recv_lem :
    (st : List Bytes × ℕ) (room : ℕ) (bytes : Bytes)
    → (scripted_recv st room).0 ≡ received bytes
    → length bytes ≤ room
scripted_recv_lem ([], left) room bytes e = cc
scripted_recv_lem (piece ∷ pieces, left) room bytes e =
    omega (arith, length-take room piece, ap length (received-inj e))

abbrev scripted : Socket
scripted = record {
  State = List Bytes × ℕ;
  recv_slice = scripted_recv;
  may_recv = λ st. not (is_empty st.0);
  send_slice = λ st bytes. (queued (length bytes), st);
  may_send = λ st. true;
  send_queue = λ st. st.1;
  recv_lem = scripted_recv_lem;
}

abbrev waiting : List Bytes × ℕ
waiting = ([] ∷ codes "ab" ∷ [], 1)

abbrev arrived : List Bytes × ℕ
arrived = (codes "ab" ∷ [], 0)

two_polls : Runs (poll_read scripted 8) waiting (done (codes "ab")) ([], 0)
unfolding poll_read
two_polls =
    later waiting (codes "ab" ∷ [], 1) arrived ([], 0) (done (codes "ab")) refl
      (now arrived ([], 0) (done (codes "ab")) refl)

poll_read_iff_example :
    Runs (poll_read scripted 8) waiting (done (codes "ab")) ([], 0)
    ↔ Reads scripted 8 waiting (done (codes "ab")) ([], 0)
poll_read_iff_example = poll_read_iff scripted 8 waiting ([], 0) (done (codes "ab")) (omega arith)

flushed : Runs (poll_flush scripted) waiting (done tt) arrived
unfolding poll_flush
flushed = later waiting waiting arrived arrived (done tt) refl (now arrived arrived (done tt) refl)

poll_flush-empties_example : scripted.send_queue arrived ≡ 0
poll_flush-empties_example = poll_flush-empties scripted waiting arrived flushed
