-- ===== src/Connector/Tls.antt =====
-- `ConnectorHandler` of snitun/client/connector.py: a channel that is upgraded to TLS, for a protocol.
use snitun.Prelude.{Bool, true, false, Option, none, some, List, [], ◌∷◌, if◌then◌else◌}
use snitun.Exceptions.{Exception, Result, ok, err, catches_control}
use snitun.Channel
use snitun.Transport.{ChannelTransport, Protocol}
use snitun.Transport.Reader
use snitun.Transport.Reader.{pause_protocol, resume_protocol, start_reader, stop_reader}
use snitun.Connector.Endpoint.{catches_os}

-- What is awaited: `start_tls`, with whether it gives a transport, `connection_made` of the protocol, and
-- the task that reads, with the state that it leaves behind.
pub record Upgrade (S : Type 0) : Type 0 where
  pub start_tls : Result Bool
  pub made : Result (Unit {0})
  pub waited : Result (Unit {0})
  pub meanwhile : ChannelTransport S × Reader.Reader → ChannelTransport S × Reader.Reader
  pub cancelling : Bool

-- What `start` comes to: `lost` has the calls of `connection_lost`, and `deleted` is whether
-- `delete_channel` was called.
pub record Served (S : Type 0) : Type 0 where
  pub transport : ChannelTransport S
  pub result : Result (Unit {0})
  pub deleted : Bool
  pub lost : List (Option Exception)

module _ {S : Type 0} (protocols : Protocol S) where
  -- `_pause_resume_reader_callback`
  unfoldable pub pause_resume_reader_callback :
      Bool → ChannelTransport S → Result (Unit {0}) × ChannelTransport S
  pause_resume_reader_callback true t = pause_protocol protocols t
  pause_resume_reader_callback false t = resume_protocol protocols t

  -- `_fail_to_start_tls`
  unfoldable pub fail_to_start_tls : Bool → ChannelTransport S → Reader.Reader → Served S
  fail_to_start_tls cancelling t r =
      let (result, t') = stop_reader protocols cancelling t r in
      record { transport = t'; result = result; deleted = true; lost = [] }

  -- `except Exception`, behind the wait.
  over : ChannelTransport S → Result (Unit {0}) → Served S
  over t (ok _) = record { transport = t; result = ok tt; deleted = false; lost = none ∷ [] }
  over t (err e) =
      if catches_control e
      then record { transport = t; result = err e; deleted = false; lost = [] }
      else record { transport = t; result = ok tt; deleted = true; lost = some e ∷ [] }

  serve : Upgrade S → ChannelTransport S → Result (Unit {0}) → Served S
  unfolding over
  serve u t (ok _) = over t u.waited
  serve u t (err e) = over t (err e)

  upgraded : Upgrade S → ChannelTransport S → Reader.Reader → Result Bool → Served S
  unfolding serve fail_to_start_tls
  upgraded u t r (ok true) = serve u t u.made
  upgraded u t r (ok false) = fail_to_start_tls u.cancelling t r
  upgraded u t r (err e) =
      if catches_os e
      then fail_to_start_tls u.cancelling t r
      else record { transport = t; result = err e; deleted = false; lost = [] }

  -- `start`
  unfoldable pub start : Upgrade S → ChannelTransport S → Served S
  unfolding upgraded
  start u t =
      let channel = Channel.set_pause_resume_reader_callback t.link.channel in
      let (t', r) =
        u.meanwhile
          (start_reader protocols (record t { link = record t.link { channel = channel } })) in
      upgraded u t' r u.start_tls
