-- ===== src/Multiplexer/Tasks/Conversation.antt =====
-- A conversation between two multiplexers (snitun/multiplexer/core.py): the messages that one end writes,
-- through the frames and the ciphers, to the handler of the other end.
use snitun.Prelude.{ℕ, suc, ◌≡◌, ◌⊎◌, List, [], ◌∷◌, ◌++◌}
use snitun.Exceptions.{Exception, Result, ok, err}
use snitun.Bytes.{Bytes}
use snitun.Message.{MultiplexerMessage}
use snitun.Crypto.{Primitives}
use snitun.Multiplexer.Frame.{Entropy}
use snitun.Multiplexer.Frame.RoundTrip.{IsEntropy, Fits, arrived}
use snitun.Multiplexer.Endpoint.{Endpoint, write_message, performed, receive}
use snitun.Multiplexer.Tasks.{Read, ReadState, read_caught}

-- The calls of `_write_message`, one after the other.
unfoldable pub write_all :
    Primitives → List (Entropy × MultiplexerMessage) → Endpoint → Result (Unit {0}) × Endpoint
unfolding performed
write_all p [] ep = (ok tt, ep)
write_all p ((e, m) ∷ ms) ep = performed p (write_all p ms) (write_message p e m ep)

-- The messages as they arrive.
abbrev pub arrived_all : List (Entropy × MultiplexerMessage) → List MultiplexerMessage
arrived_all [] = []
arrived_all ((e, m) ∷ ms) = arrived e m ∷ arrived_all ms

-- The nonces for these frames: each may need two.
abbrev pub nonces : List (Entropy × MultiplexerMessage) → ℕ
nonces [] = 0
nonces (_ ∷ ms) = suc (suc (nonces ms))

module _ (p : Primitives) where
  -- The handler raised on this message, and this is what the task makes of it.
  abbrev pub Stops : MultiplexerMessage → Result (Unit {0}) → Type 0
  Stops m result =
      (e : Entropy) × (ep : Endpoint) × (x : Exception) × ((receive p e m ep).0 ≡ err x)
      × (result ≡ read_caught x)

  -- The messages were handled, in their order: all of them, and the stream is used up, or those up to the
  -- one on which the handler raised, which ended the task.
  abbrev pub Handles : List (Entropy × MultiplexerMessage) → Read → Type 0
  Handles ms read =
      (rest : List MultiplexerMessage) × (read.handled ++ rest ≡ arrived_all ms)
      × (((rest ≡ []) × (read.state ≡ ReadState.going []))
          ⊎ ((earlier : List MultiplexerMessage) × (m : MultiplexerMessage) × (result : Result
                (Unit {0}))
              × (read.handled ≡ earlier ++ m ∷ [])
              × (read.state ≡ ReadState.ended result)
              × Stops m result))

-- Each message fits its frame, and `os.urandom` returns as many bytes as it is asked for.
abbrev pub Sendable : ℕ → Entropy × MultiplexerMessage → Type 0
Sendable version (e, m) = IsEntropy e × Fits version m
