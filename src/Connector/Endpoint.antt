-- ===== src/Connector/Endpoint.antt =====
-- `EndpointConnectorHandler` of snitun/client/connector.py: the loop that moves data between a channel and a
-- TCP endpoint, from one `await` to the next.
pub mod Steps
pub mod Balance
pub mod Forwards
use snitun.Prelude.{ℕ, Bool, true, false, ◌||◌, none, List, [], ◌∷◌, ◌++◌, length, if◌then◌else◌}
use snitun.Exceptions.{
  Exception, Result, ok, err, transport_error, transport_close, runtime_error, os_error,
  timeout_error,
}
use snitun.Bytes.{Bytes}
use snitun.Queue.Multi.Tasks.{PutTask}
use snitun.Queue.Multi.Tasks
use snitun.Channel
use snitun.Channel.Reader.{resumed, is_waiting, callbacks}
use snitun.Channel.{Link, WriteState, ReadState}

-- `from_endpoint`: the future of the flow control, which was pending at that many calls of it, or the
-- task that reads from the endpoint. A task that is cancelled counts as none.
pub data FromEndpoint : Type 0 where
  idle reading : FromEndpoint
  pausing : (since : ℕ) → FromEndpoint
  done : Result Bytes → FromEndpoint

-- `from_peer`: the task that reads from the channel.
pub data FromPeer : Type 0 where
  idle reading : FromPeer
  done : Result Bytes → FromPeer

-- Where `start` stands.
pub data Place : Type 0 where
  waiting draining : Place
  writing : PutTask → Place
  finished : Result (Unit {0}) → Place

-- The handler with its channel. `closing` is of the endpoint's transport, `deleted` whether
-- `delete_channel` was called, `notified` whether the callback for a failed connection was. The rest is
-- what the reads of the endpoint returned, what the channel took, what the reads of the channel
-- returned, and what the endpoint's writer was given.
pub record Bridge : Type 0 where
  pub link : Link
  pub from_endpoint : FromEndpoint
  pub from_peer : FromPeer
  pub place : Place
  pub closing : Bool
  pub deleted : Bool
  pub notified : Bool
  pub read : List Bytes
  pub sent : List Bytes
  pub received : List Bytes
  pub written : List Bytes

-- What a task has read that is not yet written.
abbrev pub held : FromEndpoint → List Bytes
held (FromEndpoint.done (ok bytes)) = bytes ∷ []
held _ = []

abbrev pub held_for_endpoint : FromPeer → List Bytes
held_for_endpoint (FromPeer.done (ok bytes)) = bytes ∷ []
held_for_endpoint _ = []

abbrev pub cancel_endpoint : FromEndpoint → FromEndpoint
cancel_endpoint (FromEndpoint.done result) = FromEndpoint.done result
cancel_endpoint _ = FromEndpoint.idle

abbrev pub cancel_peer : FromPeer → FromPeer
cancel_peer (FromPeer.done result) = FromPeer.done result
cancel_peer _ = FromPeer.idle

-- The `finally` clause.
unfoldable pub finish : Result (Unit {0}) → Bridge → Bridge
finish result b = record b {
  place = finished result;
  from_endpoint = cancel_endpoint b.from_endpoint;
  from_peer = cancel_peer b.from_peer;
  closing = true;
}

-- `except OSError`
unfoldable pub catches_os : Exception → Bool
catches_os os_error = true
catches_os timeout_error = true
catches_os _ = false

-- `except (MultiplexerTransportError, OSError, RuntimeError)`
unfoldable pub catches_broken : Exception → Bool
unfolding catches_os
catches_broken transport_error = true
catches_broken runtime_error = true
catches_broken e = catches_os e

-- `except MultiplexerTransportClose`
unfoldable pub catches_close : Exception → Bool
catches_close transport_close = true
catches_close _ = false

-- The `except` clauses.
unfoldable pub raised : Exception → Bridge → Bridge
unfolding finish catches_broken catches_close
raised e b =
    if catches_broken e
    then finish (ok tt) (record b { deleted = true })
    else finish (if catches_close e then ok tt else err e) b

abbrev pub read_endpoint : Link → FromEndpoint → FromEndpoint
read_endpoint l FromEndpoint.idle =
    if is_waiting (callbacks l.calls none)
    then FromEndpoint.pausing (length l.calls)
    else FromEndpoint.reading
read_endpoint l task = task

abbrev pub read_peer : FromPeer → FromPeer
read_peer FromPeer.idle = FromPeer.reading
read_peer task = task

-- From the top of the loop to `asyncio.wait`.
unfoldable pub loop : Bridge → Bridge
unfolding finish
loop b = if b.closing then finish (ok tt) b else record b {
  place = waiting;
  from_endpoint = read_endpoint b.link b.from_endpoint;
  from_peer = read_peer b.from_peer;
}

-- `# From peer`
process_peer : Bridge → FromPeer → Bridge
unfolding raised loop
process_peer b (FromPeer.done (ok bytes)) = record b {
  place = draining;
  from_peer = FromPeer.idle;
  written = b.written ++ bytes ∷ [];
}
process_peer b (FromPeer.done (err e)) = raised e b
process_peer b _ = loop b

-- Behind `channel.write`.
unfoldable pub written : Bridge → WriteState → Bridge
unfolding process_peer raised
written b (WriteState.ended (ok _, link)) =
    process_peer
      (record b {
        link = link;
        from_endpoint = FromEndpoint.idle;
        sent = b.sent ++ held b.from_endpoint;
      })
      b.from_peer
written b (WriteState.ended (err e, link)) = raised e (record b { link = link })
written b (WriteState.suspended link task) = record b { link = link; place = writing task }

-- `# From proxy`
process_endpoint : Bridge → FromEndpoint → Bridge
unfolding process_peer raised written
process_endpoint b (FromEndpoint.done (ok bytes)) = written b (Channel.write b.link bytes)
process_endpoint b (FromEndpoint.done (err e)) = raised e b
process_endpoint b (FromEndpoint.pausing since) =
    process_peer
      (if resumed since b.link.calls then record b { from_endpoint = FromEndpoint.idle } else b)
      b.from_peer
process_endpoint b _ = process_peer b b.from_peer

endpoint_done : List Bool → FromEndpoint → Bool
endpoint_done calls (FromEndpoint.pausing since) = resumed since calls
endpoint_done calls (FromEndpoint.done _) = true
endpoint_done calls _ = false

peer_done : FromPeer → Bool
peer_done (FromPeer.done _) = true
peer_done _ = false

-- `asyncio.wait` returns once one of the two is done.
pub wake : Bridge → Bridge
unfolding process_endpoint endpoint_done peer_done
wake b =
    if endpoint_done b.link.calls b.from_endpoint || peer_done b.from_peer
    then process_endpoint b b.from_endpoint
    else b

-- What `reader.read` returns to its task, if there is one.
endpoint_reads : Result Bytes → Bridge → FromEndpoint → Bridge
endpoint_reads (ok bytes) b FromEndpoint.reading = record b {
  from_endpoint = FromEndpoint.done (ok bytes);
  read = b.read ++ bytes ∷ [];
}
endpoint_reads (err e) b FromEndpoint.reading = record b {
  from_endpoint = FromEndpoint.done (err e);
}
endpoint_reads result b task = b

took : Bridge → ReadState → Bridge
took b ReadState.blocked = b
took b (ReadState.returned (ok bytes, link)) = record b {
  link = link;
  from_peer = FromPeer.done (ok bytes);
  received = b.received ++ bytes ∷ [];
}
took b (ReadState.returned (err e, link)) = record b {
  link = link;
  from_peer = FromPeer.done (err e);
}

-- The task that reads from the channel goes on.
peer_reads : Bridge → FromPeer → Bridge
unfolding took
peer_reads b FromPeer.reading = took b (Channel.read b.link)
peer_reads b task = b
