-- ===== src/Challenge/Session.antt =====
-- The end of a client's session (snitun/client/client_peer.py): `_handler`, `stop` and `wait`.
use snitun.Prelude.{
  ◌≡◌, refl, Bool, true, false, Option, none, some, List, [], ◌∷◌, if◌then◌else◌, not, ◌||◌,
}
use snitun.Exceptions.{
  Result, ok, err, transport_error, runtime_error, assertion_error, timeout_error, cancelled_error,
}
use snitun.Challenge.{ClientPeer, is_connected}

-- A round of `_handler`: whether the multiplexer is connected, what its `wait` comes to within fifty
-- seconds, and what `ping` comes to.
pub record Watch : Type 0 where
  pub connected : Bool
  pub waited : Result (Unit {0})
  pub pinged : Result (Unit {0})

-- `_wait_with_timeout`
unfoldable pub wait_with_timeout : Watch → Result (Unit {0})
wait_with_timeout w = go w.waited
  where
    go : Result (Unit {0}) → Result (Unit {0})
    go (ok _) = ok tt
    go (err timeout_error) = w.pinged
    go (err e) = err e

pub data HandlerState : Type 0 where
  going : HandlerState
  ended : Result (Unit {0}) → HandlerState

-- The task, the client, and whether its multiplexer was shut down.
pub record Watched : Type 0 where
  pub state : HandlerState
  pub client : ClientPeer
  pub shut_down : Bool

-- `except MultiplexerTransportError: pass`
abbrev pub ignored : Result (Unit {0}) → Result (Unit {0})
ignored (ok _) = ok tt
ignored (err transport_error) = ok tt
ignored (err e) = err e

-- The `finally` clause.
unfoldable pub finish : Result (Unit {0}) → ClientPeer → Watched
unfolding is_connected
finish result c = record {
  state = ended (ignored result);
  client = record { multiplexer = none; handler_task = some true };
  shut_down = is_connected c;
}

follow : Result (Unit {0}) → Watched → ClientPeer → Watched
unfolding finish
follow (ok _) next c = next
follow (err e) next c = finish (err e) c

-- `_handler`, for so many rounds.
unfoldable pub handler : List Watch → ClientPeer → Watched
unfolding follow finish wait_with_timeout is_connected
handler [] c = record { state = going; client = c; shut_down = false }
handler (w ∷ watches) c =
    let next = follow (wait_with_timeout w) (handler watches c) c in
    if not (is_connected c) || not w.connected then finish (ok tt) c else next

-- `_stop_handler`: what the cancelled task comes to, and whether the caller itself is cancelled.
unfoldable pub stop_handler : Bool → Result (Unit {0}) → ClientPeer → Result (Unit {0}) × ClientPeer
stop_handler cancelling result c = go c.handler_task result
  where
    go : Option Bool → Result (Unit {0}) → Result (Unit {0}) × ClientPeer
    go none result = (err assertion_error, c)
    go (some done) (ok _) = (ok tt, record c { handler_task = none })
    go (some done) (err cancelled_error) =
        (if cancelling then err cancelled_error else ok tt, record c { handler_task = none })
    go (some done) (err e) = (err e, record c { handler_task = none })

-- `stop`; `meanwhile` is what `_handler` makes of the client while the multiplexer ends.
unfoldable pub stop :
    Bool
    → Result (Unit {0})
    → (ClientPeer → ClientPeer)
    → ClientPeer
    → Result (Unit {0}) × ClientPeer
unfolding stop_handler is_connected
stop cancelling result meanwhile c =
    if is_connected c then stop_handler cancelling result (meanwhile c) else (err runtime_error, c)

-- `wait`: whether the task that the future stands for is done.
unfoldable pub wait : ClientPeer → Result Bool
unfolding is_connected
wait c = if is_connected c then go c.handler_task else err runtime_error
  where
    go : Option Bool → Result Bool
    go none = err runtime_error
    go (some done) = ok done

abbrev Ends : ClientPeer → Watched → Type 0
Ends c w = elim w.state [
  | going ↦ (w.client ≡ c) × (w.shut_down ≡ false)
  | ended result ↦ (w.client.multiplexer ≡ none) × (w.shut_down ≡ is_connected c)
]

-- Whatever the multiplexer does, the task goes on and leaves the client as it is, or it ends, with no
-- multiplexer left, and the one that there was is shut down.
handler-Ends : (watches : List Watch) (c : ClientPeer) → Ends c (handler watches c)
unfolding handler follow finish
handler-Ends [] c = (refl, refl)
handler-Ends (w ∷ watches) c =
    go (not (is_connected c) || not w.connected) (wait_with_timeout w) (handler-Ends watches c)
  where
    go :
        (b : Bool) (r : Result (Unit {0}))
        → Ends c (handler watches c)
        → Ends c (if b then finish (ok tt) c else follow r (handler watches c) c)
    go true r h = (refl, refl)
    go false (ok _) h = h
    go false (err e) h = (refl, refl)
