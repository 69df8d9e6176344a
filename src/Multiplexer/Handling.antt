-- ===== src/Multiplexer/Handling.antt =====
-- Every message of the peer (snitun/multiplexer/core.py, `_read_message`) keeps the invariant.
use snitun.Prelude.{nat_eq, ℕ, ◌≡◌, some, ◌⊎◌}
use snitun.Exceptions.{err, runtime_error}
use snitun.IpAddress.{IpAddress}
use snitun.Message.{MultiplexerMessage, channel_flow_new}
use snitun.Queue.Single
use snitun.Queue.Single.Laws
use snitun.Channel
use snitun.Channel.{Channel}
use snitun.Multiplexer.State.{Multiplexer, Turn}
use snitun.Multiplexer.Invariant.{IsGood, IsMultiplexer}

module _ (mux : Multiplexer) (v : IsMultiplexer mux) (m : MultiplexerMessage) where
  -- Good, or a new channel whose id the output queue still has.
  abbrev pub GoodOrTaken : Turn → Type 0
  GoodOrTaken t =
      IsGood t
      ⊎ ((ref : ℕ) × (mux.queue.channels m.id ≡ some ref)
          × (t.outcome ≡ err runtime_error)
          × (t.mux ≡ mux))

-- What a message comes to: a good turn, or a NEW for an id that the output queue still has.
abbrev pub Handled : Multiplexer → MultiplexerMessage → Turn → Type 0
Handled mux m t =
    IsGood t
    ⊎ ((m.flow_type ≡ channel_flow_new)
        × (ref : ℕ) × (mux.queue.channels m.id ≡ some ref)
        × (t.outcome ≡ err runtime_error)
        × (t.mux ≡ mux))
