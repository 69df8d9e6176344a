-- ===== src/PeerListener/Settled.antt =====
-- What `PeerListener.handle_connection` (snitun/server/listener_peer.py) leaves behind.
use snitun.Prelude.{ℕ, ◌≡◌, ◌≢◌, ◌⊎◌, true, false, Option, some, All, nat_eq}
use snitun.Bytes.{Bytes, Text}
use snitun.Exceptions.{Exception, ok, err}
use snitun.Crypto.{Primitives, CryptoTransport}
use snitun.Challenge.{init_multiplexer_challenge}
use snitun.Token.{TokenData, Session, create_peer}
use snitun.PeerManager.{PeerManager, Store}
use snitun.PeerManager.Names.{is_found}
use snitun.PeerListener.{attempt_success, Visit, Handled, serve, fernet_data}

-- The attempt was refused, or never made: the manager is as it was, and no success is counted.
pub record Refused (m : PeerManager) (h : Handled) : Type 0 where
  pub unchanged : h.manager ≡ m
  pub uncounted : All (λ metric. metric ≢ attempt_success) h.metrics

module _ (p : Primitives) (sha256 : Bytes → Bytes) (open_token : Bytes → Option TokenData)
    (throttling : Option ℕ) (store : Store) where
  -- The peer has proved that it has the key of a token that is good, its session is over, and its host
  -- name does not find it.
  pub record Over (v : Visit) (h : Handled) : Type 0 where
    pub session : Session
    pub crypto : CryptoTransport
    pub token : Bytes
    pub known : create_peer p open_token throttling v.now token ≡ ok session
    pub proved : init_multiplexer_challenge p sha256 v.entropy v.reply session.crypto ≡ ok crypto
    pub over : serve session v.wakes ≡ true
    pub gone : is_found session.hostname v.id h.manager ≡ false
    pub fine : h.raised ≡ ok tt

  -- The writer is closed unless nothing could be read.
  abbrev pub Settled : Visit → PeerManager → Handled → Type 0
  Settled v m h =
      ((h.writer_closed ≡ true) ⊎ ((e : Exception) × (fernet_data v ≡ err e)))
      × (Refused m h ⊎ Over v h)

  module _ (v : Visit) (m : PeerManager)
      (fresh : (name : Text) → is_found name v.id m ≡ false) where
    -- What is shown of an attempt, by its token's session.
    abbrev Attempted : Option Handled → Type 0
    Attempted result =
        (h : Handled) → result ≡ some h → (h.writer_closed ≡ true) × (Refused m h ⊎ Over v h)
