-- ===== src/Connector/Endpoint/Steps.antt =====
-- `EndpointConnectorHandler.start` (snitun/client/connector.py): what may happen to it.
use snitun.Prelude.{Bool, true, false, List, [], ◌∷◌, if◌then◌else◌}
use snitun.Exceptions.{Result, ok, err, cancelled_error}
use snitun.Bytes.{Bytes}
use snitun.Queue.Multi.Tasks
use snitun.Channel
use snitun.Channel.{Link}
use snitun.Connector.Endpoint.{
  FromEndpoint, FromPeer, Place, waiting, draining, writing, finished, Bridge, written, raised,
  loop, wake, endpoint_reads, peer_reads, catches_os,
}

-- What may happen: the two tasks go on, `start` goes on where it awaits, it is cancelled, the endpoint's
-- transport closes, or others change the channel.
pub data Event : Type 0 where
  endpoint_task : Result Bytes → Event
  peer_task wakes put_resumes put_times_out cancelled closes : Event
  drained : Result (Unit {0}) → Event
  others : (Link → Link) → Event

unfoldable pub resume : Bridge → Place → Bridge
unfolding written
resume b (writing task) = written b (Channel.resume_write b.link task)
resume b place = b

unfoldable pub time_out : Bridge → Place → Bridge
unfolding written
time_out b (writing task) = written b (Channel.timeout_write b.link task)
time_out b place = b

unfoldable pub drain : Result (Unit {0}) → Bridge → Place → Bridge
unfolding loop raised
drain (ok _) b draining = loop b
drain (err e) b draining = raised e b
drain result b place = b

unfoldable pub wake_at : Bridge → Place → Bridge
unfolding wake
wake_at b waiting = wake b
wake_at b place = b

-- A put that waits is cancelled with the task that awaits it.
unfoldable pub cancel_at : Bridge → Place → Bridge
unfolding raised
cancel_at b (finished result) = b
cancel_at b (writing task) =
    raised cancelled_error
      (record b { link = record b.link { output = Tasks.cancel_put b.link.output task } })
cancel_at b place = raised cancelled_error b

unfoldable pub react : Event → Bridge → Bridge
unfolding endpoint_reads peer_reads wake_at resume time_out drain cancel_at
react (endpoint_task result) b = endpoint_reads result b b.from_endpoint
react peer_task b = peer_reads b b.from_peer
react wakes b = wake_at b b.place
react put_resumes b = resume b b.place
react put_times_out b = time_out b b.place
react cancelled b = cancel_at b b.place
react closes b = record b { closing = true }
react (drained result) b = drain result b b.place
react (others change) b = record b { link = change b.link }

unfoldable pub run : List Event → Bridge → Bridge
unfolding react
run [] b = b
run (event ∷ events) b = run events (react event b)

abbrev pub fresh : Link → Bridge
fresh l = record {
  link = record l { channel = Channel.set_pause_resume_reader_callback l.channel };
  from_endpoint = FromEndpoint.idle;
  from_peer = FromPeer.idle;
  place = waiting;
  closing = false;
  deleted = false;
  notified = false;
  read = [];
  sent = [];
  received = [];
  written = [];
}

-- `start`, up to its first wait: `opened` is what `open_connection` comes to, `callback` whether there is
-- one for a connection that fails.
unfoldable pub start : Bool → Result (Unit {0}) → Link → Bridge
unfolding loop catches_os
start callback (ok _) l = loop (fresh l)
start callback (err e) l =
    if catches_os e
    then record (fresh l) { place = finished (ok tt); deleted = true; notified = callback }
    else record (fresh l) { place = finished (err e) }
