-- ===== src/Smoltcp/Runs.antt =====
-- A call polled until it is ready, and what its result says of the socket.
use mathlib.Core.Path.{subst}
use nanofish.Prelude.{
  ℕ, ◌≤◌, ◌<◌, inl, inr, true, false, [], ◌∷◌, ◌↔◌, ◌≢◌, ◌≡◌, refl, sym, ap, ◌∙◌, ◌==◌, ==_iff,
  Bytes, length, arith, Bool-cases,
}
use nanofish.Smoltcp.{
  Recv, received, finished, recv_refused, Socket, Outcome, done, failed, Poll, pending, ready,
  recv_invalid_state, read_match, poll_read, poll_flush, send_invalid_state,
}

-- `poll_fn(poll).await`: while a poll is pending, the world goes on to some other state.
pub data Runs {S A : Type 0} (poll : S → Poll A × S) : S → Outcome A → S → Type 0 where
  now : (st next : S) (r : Outcome A) → poll st ≡ (ready r, next) → Runs poll st r next
  later :
      (st parked woken last : S) (r : Outcome A)
      → poll st ≡ (pending, parked)
      → Runs poll woken r last
      → Runs poll st r last

pending_ne : {A : Type 0} {r : Outcome A} → pending ≡ ready r → ⊥
pending_ne e = cc

ready-inj : {A : Type 0} {r q : Outcome A} → ready r ≡ ready q → r ≡ q
ready-inj e = cc

module _ (socket : Socket) where
  open socket use {State, recv_slice, may_recv, may_send, send_queue}

  -- `read` into room for `room` bytes, as calls of the socket: one `recv_slice` after another that
  -- receives nothing while more may come, each followed by some other state that the world went on to,
  -- and one that gives the result.
  pub data Reads (room : ℕ) : State → Outcome Bytes → State → Type 0 where
    waits :
        (st parked woken last : State) (r : Outcome Bytes)
        → recv_slice st room ≡ (received [], parked)
        → may_recv parked ≡ true
        → Reads room woken r last
        → Reads room st r last
    brings :
        (st last : State) (bytes : Bytes)
        → bytes ≢ []
        → length bytes ≤ room
        → recv_slice st room ≡ (received bytes, last)
        → Reads room st (done bytes) last
    closes :
        (st last : State)
        → recv_slice st room ≡ (received [], last)
        → may_recv last ≡ false
        → Reads room st (done []) last
    finishes :
        (st last : State) → recv_slice st room ≡ (finished, last) → Reads room st (done []) last
    refuses :
        (st last : State)
        → recv_slice st room ≡ (recv_refused, last)
        → Reads room st (failed recv_invalid_state) last

  module _ (room : ℕ) (some_room : 0 < room) where
    poll_read_match :
        (st : State) (o : Recv × State)
        → recv_slice st room ≡ o
        → poll_read socket room st ≡ read_match socket o
    unfolding poll_read
    poll_read_match st o e =
        let positive : (room == 0) ≡ false = ground arith in
        rw (positive, poll_read) (ap (read_match socket) e)

    same_end :
        (st next last : State) (q r : Outcome Bytes)
        → ◌≡◌ {A = Poll Bytes × State} (ready q, next) (ready r, last)
        → Reads room st q next
        → Reads room st r last
    same_end st next last q r e h =
        subst (λ l. Reads room st r l) (ap (λ p. p.1) e)
          (subst (λ a. Reads room st a next) (ready-inj (ap (λ p. p.0) e)) h)

    ready-Reads :
        (st last : State) (r : Outcome Bytes) (o : Recv × State)
        → recv_slice st room ≡ o
        → read_match socket o ≡ (ready r, last)
        → Reads room st r last
    unfolding read_match
    ready-Reads st last r (received [], next) e h = elim (Bool-cases (may_recv next)) [
      | inl open_half ↦
          let no : pending ≡ ready r = ap (λ p. p.0) (rw open_half at h) in absurd (pending_ne no)
      | inr closed ↦ same_end st next last (done []) r (rw closed at h) (closes st next e closed)
    ]
    ready-Reads st last r (received (b ∷ bs), next) e h =
        same_end st next last (done (b ∷ bs)) r h (
          brings st next (b ∷ bs) (λ nil. cc) (socket.recv_lem st room (b ∷ bs) (ap (λ p. p.0) e))
            e)
    ready-Reads st last r (finished, next) e h =
        same_end st next last (done []) r h (finishes st next e)
    ready-Reads st last r (recv_refused, next) e h =
        same_end st next last (failed recv_invalid_state) r h (refuses st next e)

    pending_end :
        (st parked : State) (o : Recv × State)
        → recv_slice st room ≡ o
        → read_match socket o ≡ (pending, parked)
        → (recv_slice st room ≡ (received [], parked)) × (may_recv parked ≡ true)
    unfolding read_match
    pending_end st parked (received [], next) e h = elim (Bool-cases (may_recv next)) [
      | inl open_half ↦
          let same : next ≡ parked = ap (λ p. p.1) (rw open_half at h) in
          (e ∙ ap (λ l. (received [], l)) same, ap may_recv (sym same) ∙ open_half)
      | inr closed ↦
          let no : ready (done []) ≡ pending = ap (λ p. p.0) (rw closed at h) in
          absurd (pending_ne (sym no))
    ]
    pending_end st parked (received (b ∷ bs), next) e h =
        absurd (pending_ne (sym (ap (λ p. p.0) h)))
    pending_end st parked (finished, next) e h = absurd (pending_ne (sym (ap (λ p. p.0) h)))
    pending_end st parked (recv_refused, next) e h = absurd (pending_ne (sym (ap (λ p. p.0) h)))

    Runs-Reads :
        (st last : State) (r : Outcome Bytes)
        → Runs (poll_read socket room) st r last
        → Reads room st r last
    Runs-Reads _ _ _ (now st last r e) =
        ready-Reads st last r (recv_slice st room) refl (sym (poll_read_match st _ refl) ∙ e)
    Runs-Reads _ _ _ (later st parked woken last r e more) =
        let (empty, open_half) =
          pending_end st parked (recv_slice st room) refl (sym (poll_read_match st _ refl) ∙ e) in
        waits st parked woken last r empty open_half (Runs-Reads woken last r more)

    Reads-Runs :
        (st last : State) (r : Outcome Bytes)
        → Reads room st r last
        → Runs (poll_read socket room) st r last
    unfolding read_match
    Reads-Runs _ _ _ (waits st parked woken last r e open_half more) =
        later st parked woken last r (poll_read_match st _ e ∙ rw open_half refl)
          (Reads-Runs woken last r more)
    Reads-Runs _ _ _ (brings st last [] ne fits e) = absurd (ne refl)
    Reads-Runs _ _ _ (brings st last (b ∷ bs) ne fits e) =
        now st last (done (b ∷ bs)) (poll_read_match st _ e)
    Reads-Runs _ _ _ (closes st last e closed) =
        now st last (done []) (poll_read_match st _ e ∙ rw closed refl)
    Reads-Runs _ _ _ (finishes st last e) = now st last (done []) (poll_read_match st _ e)
    Reads-Runs _ _ _ (refuses st last e) =
        now st last (failed recv_invalid_state) (poll_read_match st _ e)

  -- `read` into a buffer that is not empty is this, and nothing else, of the socket: `recv_slice` once
  -- in each poll; again later, if it received nothing and may receive more; else the bytes of that one
  -- call, no more than there is room for, no bytes if the receive half is finished or can receive no
  -- more, and an error if the socket refused, and the socket is left as that call leaves it.
  pub poll_read_iff :
      (room : ℕ) (st last : State) (r : Outcome Bytes)
      → 0 < room
      → Runs (poll_read socket room) st r last ↔ Reads room st r last
  poll_read_iff room st last r some_room =
      (Runs-Reads room some_room st last r, Reads-Runs room some_room st last r)

  flushed_now :
      (st next : State) → poll_flush socket st ≡ (ready (done tt), next) → send_queue next ≡ 0
  unfolding poll_flush
  flushed_now st next e = elim (Bool-cases (send_queue st == 0)) [
    | inl nothing ↦
        let same : st ≡ next = ap (λ p. p.1) e in
        ap send_queue (sym same) ∙ (==_iff (send_queue st) 0).0 nothing
    | inr some_left ↦ elim (Bool-cases (may_send st)) [
      | inl open_half ↦
          let no : pending ≡ ready (done tt) =
            ap (λ p. p.0) (rw (open_half, poll_flush) at (rw (some_left, poll_flush) at e)) in
          absurd (pending_ne no)
      | inr closed ↦
          let no : ready (failed send_invalid_state) ≡ ready (done tt) =
            ap (λ p. p.0) (rw (closed, poll_flush) at (rw (some_left, poll_flush) at e)) in
          cc
    ]
  ]

  -- `flush` succeeds only once all that was written has left the socket's queue.
  pub poll_flush-empties :
      (st last : State) → Runs (poll_flush socket) st (done tt) last → send_queue last ≡ 0
  poll_flush-empties _ _ (now st next _ e) = flushed_now st next e
  poll_flush-empties _ _ (later st parked woken last _ e more) = poll_flush-empties woken last more
