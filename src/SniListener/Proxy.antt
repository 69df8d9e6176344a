-- ===== src/SniListener/Proxy.antt =====
-- `ProxyPeerHandler` of snitun/server/listener_sni.py: the two tasks of a session, from one `await` to the
-- next.
pub mod Outward
pub mod Forwards
use snitun.Prelude.{
  Option, some, ℕ, Bool, true, false, ◌||◌, none, List, [], ◌∷◌, ◌++◌, length, if◌then◌else◌,
}
use snitun.Exceptions.{
  Exception, Result, ok, err, transport_error, transport_close, runtime_error, os_error,
  timeout_error, cancelled_error, incomplete_read,
}
use snitun.Bytes.{Bytes}
use snitun.Queue.Multi.Tasks
use snitun.Queue.Multi.Tasks.{PutTask}
use snitun.Channel
use snitun.Channel.Reader.{resumed, is_waiting, callbacks}
use snitun.Channel.{Link, WriteState, ReadState}
use snitun.RangedTimeout
use snitun.RangedTimeout.{RangedTimeout, reschedule}

abbrev pub peer_tcp_session_min_timeout : ℕ
peer_tcp_session_min_timeout = 90

abbrev pub peer_tcp_session_max_timeout : ℕ
peer_tcp_session_max_timeout = 120

-- Where `_proxy_loop` stands: it reads from the client, waits for the future of the flow control, which
-- was pending at that many calls of it, or waits for room for what it writes, the ClientHello at first.
pub data ProxyPlace : Type 0 where
  reading : ProxyPlace
  paused : (since : ℕ) → ProxyPlace
  writing : (greeting : Bool) (bytes : Bytes) → PutTask → ProxyPlace
  finished : Result (Unit {0}) → ProxyPlace

-- Where `_peer_loop` stands.
pub data PeerPlace : Type 0 where
  reading draining : PeerPlace
  finished : Result (Unit {0}) → PeerPlace

-- The handler with its channel and its timer. `closing` is of the client's transport, `eof` whether
-- `write_eof` was called, `deleted` whether `delete_channel` was, and `over` whether `start` has
-- returned. The rest is what the channel was to be given, what it took, what its reads returned, and
-- what the client's writer was given.
pub record Session : Type 0 where
  pub link : Link
  pub timeout : RangedTimeout
  pub proxy : ProxyPlace
  pub peer : PeerPlace
  pub closing : Bool
  pub eof : Bool
  pub deleted : Bool
  pub over : Bool
  pub read : List Bytes
  pub sent : List Bytes
  pub received : List Bytes
  pub written : List Bytes

-- The exceptions that end the loops, but for `IncompleteReadError`.
unfoldable pub catches_transport : Exception → Bool
catches_transport transport_close = true
catches_transport transport_error = true
catches_transport os_error = true
catches_transport timeout_error = true
catches_transport runtime_error = true
catches_transport _ = false

unfoldable pub catches_incomplete : Exception → Bool
catches_incomplete incomplete_read = true
catches_incomplete _ = false

-- `_proxy_loop` leaves: its `finally` clause.
unfoldable pub end_proxy : Result (Unit {0}) → Session → Session
end_proxy result s = record s { proxy = ProxyPlace.finished result; deleted = true }

unfoldable pub proxy_raised : Exception → Session → Session
unfolding end_proxy catches_transport catches_incomplete
proxy_raised e s =
    end_proxy (if catches_transport e || catches_incomplete e then ok tt else err e) s

-- The top of `_proxy_loop`, up to its next wait.
unfoldable pub proxy_loop : Session → Session
unfolding end_proxy
proxy_loop s = if s.link.channel.closing then end_proxy (ok tt) s else record s {
  proxy =
      if is_waiting (callbacks s.link.calls none)
      then ProxyPlace.paused (length s.link.calls)
      else ProxyPlace.reading;
}

-- Behind `channel.write`. The timer is not rescheduled behind the ClientHello.
unfoldable pub proxied : Bool → Bytes → ℕ → Session → WriteState → Session
unfolding proxy_loop proxy_raised
proxied greeting bytes now s (WriteState.ended (ok _, link)) = proxy_loop (record s {
  link = link;
  timeout = if greeting then s.timeout else reschedule now s.timeout;
  sent = s.sent ++ bytes ∷ [];
})
proxied greeting bytes now s (WriteState.ended (err e, link)) =
    proxy_raised e (record s { link = link })
proxied greeting bytes now s (WriteState.suspended link task) = record s {
  link = link;
  proxy = ProxyPlace.writing greeting bytes task;
}

-- `reader.read` returns: what comes is written at once.
pub client_reads : Result Bytes → ℕ → Session → ProxyPlace → Session
unfolding proxied proxy_raised
client_reads (ok bytes) now s ProxyPlace.reading =
    proxied false bytes now (record s { read = s.read ++ bytes ∷ [] }) (Channel.write s.link bytes)
client_reads (err e) now s ProxyPlace.reading = proxy_raised e s
client_reads result now s place = s

-- `_proxy_loop` goes on behind the future, or behind its put, which may also time out.
pub proxy_goes : ℕ → Session → ProxyPlace → Session
unfolding proxied
proxy_goes now s (ProxyPlace.paused since) =
    if resumed since s.link.calls then record s { proxy = ProxyPlace.reading } else s
proxy_goes now s (ProxyPlace.writing greeting bytes task) =
    proxied greeting bytes now s (Channel.resume_write s.link task)
proxy_goes now s place = s

pub put_timed_out : ℕ → Session → ProxyPlace → Session
unfolding proxied
put_timed_out now s (ProxyPlace.writing greeting bytes task) =
    proxied greeting bytes now s (Channel.timeout_write s.link task)
put_timed_out now s place = s

pub proxy_cancelled : Session → ProxyPlace → Session
unfolding proxy_raised
proxy_cancelled s (ProxyPlace.finished result) = s
proxy_cancelled s (ProxyPlace.writing greeting bytes task) =
    proxy_raised cancelled_error
      (record s { link = record s.link { output = Tasks.cancel_put s.link.output task } })
proxy_cancelled s place = proxy_raised cancelled_error s

-- `_on_timeout`
unfoldable pub on_timeout : Session → Session
unfolding proxy_cancelled
on_timeout s = proxy_cancelled s s.proxy

-- `_peer_loop` leaves: its `finally` clause.
unfoldable pub end_peer : Result (Unit {0}) → Session → Session
end_peer result s = record s { peer = PeerPlace.finished result; closing = true }

unfoldable pub peer_raised : Exception → Session → Session
unfolding end_peer catches_transport
peer_raised e s = end_peer (if catches_transport e then ok tt else err e) s

-- The top of `_peer_loop`.
unfoldable pub peer_loop : Session → Session
unfolding end_peer
peer_loop s = if s.closing then end_peer (ok tt) s else record s { peer = PeerPlace.reading }

took : Session → ReadState → Session
unfolding peer_raised
took s ReadState.blocked = s
took s (ReadState.returned (ok bytes, link)) = record s {
  link = link;
  peer = PeerPlace.draining;
  received = s.received ++ bytes ∷ [];
  written = s.written ++ bytes ∷ [];
}
took s (ReadState.returned (err e, link)) = peer_raised e (record s { link = link })

peer_reads : Session → PeerPlace → Session
unfolding took
peer_reads s PeerPlace.reading = took s (Channel.read s.link)
peer_reads s place = s

drain : Result (Unit {0}) → ℕ → Session → PeerPlace → Session
unfolding peer_loop peer_raised
drain (ok _) now s PeerPlace.draining = peer_loop (record s { timeout = reschedule now s.timeout })
drain (err e) now s PeerPlace.draining = peer_raised e s
drain result now s place = s

peer_cancelled : Session → PeerPlace → Session
unfolding end_peer
peer_cancelled s (PeerPlace.finished result) = s
peer_cancelled s place = end_peer (err cancelled_error) (record s { eof = true })

-- The `finally` clause of `start`, once `_proxy_loop` has ended.
end_start : Session → ProxyPlace → Session
unfolding peer_cancelled
end_start s (ProxyPlace.finished result) =
    peer_cancelled (record s { timeout = RangedTimeout.cancel s.timeout; over = true }) s.peer
end_start s place = s

-- What may happen, and when: the client sends, the two tasks and `start` go on, the timer goes off, the
-- client's transport closes, or others change the channel.
pub data Event : Type 0 where
  client_sends : Result Bytes → Event
  proxy_task put_times_out peer_task start_ends timer closes : Event
  drained : Result (Unit {0}) → Event
  others : (Link → Link) → Event

unfoldable pub react : ℕ → Event → Session → Session
unfolding client_reads proxy_goes put_timed_out peer_reads drain end_start on_timeout
react now (client_sends result) s = client_reads result now s s.proxy
react now proxy_task s = proxy_goes now s s.proxy
react now put_times_out s = put_timed_out now s s.proxy
react now peer_task s = peer_reads s s.peer
react now start_ends s = end_start s s.proxy
react now timer s = on_timeout s
react now closes s = record s { closing = true }
react now (drained result) s = drain result now s s.peer
react now (others change) s = record s { link = change s.link }

unfoldable pub run : List (ℕ × Event) → Session → Session
unfolding react
run [] s = s
run ((now, event) ∷ events) s = run events (react now event s)

abbrev pub fresh : ℕ → Bytes → Link → Session
fresh now client_hello l = record {
  link = l;
  timeout = RangedTimeout.new peer_tcp_session_min_timeout peer_tcp_session_max_timeout now;
  proxy = ProxyPlace.reading;
  peer = PeerPlace.reading;
  closing = false;
  eof = false;
  deleted = false;
  over = false;
  read = client_hello ∷ [];
  sent = [];
  received = [];
  written = [];
}

-- `start` behind `create_channel`, up to its wait; the reading task waits for the channel first.
unfoldable pub opened : ℕ → Bytes → Link → Session
unfolding proxied
opened now client_hello l =
    proxied true client_hello now (fresh now client_hello l) (Channel.write l client_hello)

-- `start`, given what `create_channel` comes to: it returns at once where that fails.
unfoldable pub start : ℕ → Bytes → Result Link → Result (Option Session)
unfolding opened
start now client_hello (err transport_error) = ok none
start now client_hello (err e) = err e
start now client_hello (ok l) = ok (some (opened now client_hello l))
