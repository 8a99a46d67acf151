-- ===== src/Io/Brings.antt =====
-- What a stream brings, piece by piece.
use nanofish.Io.{Stream}
use nanofish.Prelude.{ℕ, ◌≤◌, ◌≢◌, List, [], ◌∷◌, ◌++◌, some, ◌≡◌, Bytes, length}

module _ (stream : Stream) where
  open stream use {State, read}

  -- What the stream does next, wherever there is room for it.
  abbrev pub Reads : State → Bytes → State → Type 0
  Reads st piece next = (room : ℕ) → length piece ≤ room → read st room ≡ (some piece, next)

  -- The reads from `st` on give these pieces, none of them empty, and lead to the second state.
  pub data Brings : State → List Bytes → State → Type 0 where
    done : (st : State) → Brings st [] st
    piece :
        (st next last : State) (bytes : Bytes) (pieces : List Bytes)
        → bytes ≢ []
        → Reads st bytes next
        → Brings next pieces last
        → Brings st (bytes ∷ pieces) last

-- What pieces are together.
abbrev pub together : List Bytes → Bytes
together [] = []
together (bytes ∷ pieces) = bytes ++ together pieces
