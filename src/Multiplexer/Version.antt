-- ===== src/Multiplexer/Version.antt =====
-- A message of the peer (snitun/multiplexer/core.py) does not change the version that the multiplexer speaks.
use snitun.Prelude.{
  nat_eq, ◌≡◌, refl, Bool, true, false, ◌||◌, ◌==◌, if◌then◌else◌, Option-cases, inl, inr,
}
use snitun.Exceptions.{Result, ok, err, ◌>>=◌}
use snitun.Message.{
  ChannelId, MultiplexerMessage, channel_flow_data, channel_flow_new, channel_flow_close,
  channel_flow_ping, channel_flow_pause, channel_flow_resume,
}
use snitun.Dict.{lookup, has, insert}
use snitun.Queue.Single
use snitun.Queue.Multi.State
use snitun.Queue.Multi.State.{MultiQueue}
use snitun.Channel
use snitun.Channel.{Channel, Link}
use snitun.Multiplexer.Addresses.{new_address}
use snitun.Multiplexer.State.{
  Multiplexer, Turn, handle_message, link, delete_channel, delete_channel_and_queue, after_close,
  on_data, opened, open_channel, on_new, on_close, on_ping, on_pause_or_resume, quiet,
}

-- The peer's version stays what it is.
abbrev pub Stays : Multiplexer → Turn → Type 0
Stays mux t = t.mux.peer_protocol_version ≡ mux.peer_protocol_version

Stays-if :
    (mux : Multiplexer) (b : Bool) (t t' : Turn)
    → Stays mux t
    → Stays mux t'
    → Stays mux (if b then t else t')
Stays-if mux true t t' h h' = h
Stays-if mux false t t' h h' = h'

delete_channel-Stays : (mux : Multiplexer) (c : Channel) → Stays mux (delete_channel mux c)
unfolding delete_channel delete_channel_and_queue
delete_channel-Stays mux c = Stays-if mux (has c.id mux.channels) _ _ refl refl

after_close-Stays :
    (mux : Multiplexer) (r : Result (Unit {0}) × Link) → Stays mux (after_close mux r)
after_close-Stays mux (err e, l) = refl
after_close-Stays mux (ok u, l) = delete_channel-Stays _ l.channel

on_data-Stays : (mux : Multiplexer) (m : MultiplexerMessage) → Stays mux (on_data mux m)
unfolding on_data
on_data-Stays mux m = elim (Option-cases (lookup m.id mux.channels)) [
  | inl n ↦ rw (n, on_data) refl
  | inr (c, e) ↦
      rw (e, on_data)
        (Stays-if mux c.closing _ _ refl (
          Stays-if mux (Single.full c.input) _ _
            (after_close-Stays mux (Channel.close (link mux c))) refl))
]

opened-Stays :
    (mux : Multiplexer) (c : Channel) (id : ChannelId)
    → Stays mux (opened mux id (open_channel mux c))
unfolding open_channel
opened-Stays mux c id = go (State.create_channel mux.queue c.id)
  where
    go :
        (q : Result MultiQueue)
        → Stays mux (
            opened mux id (
              q >>= λ queue.
              ok (record mux { queue = queue; channels = insert c.id c mux.channels })))
    go (ok q) = refl
    go (err e) = refl

on_new-Stays : (mux : Multiplexer) (m : MultiplexerMessage) → Stays mux (on_new mux m)
unfolding on_new
on_new-Stays mux m =
    Stays-if mux mux.accepts _ _
      (elim (Option-cases (new_address mux.peer_protocol_version m)) [
        | inl n ↦ rw n refl
        | inr (ip, e) ↦ rw e (opened-Stays mux _ m.id)
      ])
      refl

on_close-Stays : (mux : Multiplexer) (m : MultiplexerMessage) → Stays mux (on_close mux m)
unfolding on_close delete_channel_and_queue
on_close-Stays mux m = elim (Option-cases (lookup m.id mux.channels)) [
  | inl n ↦ rw (n, on_close) refl
  | inr (c, e) ↦ rw (e, on_close) refl
]

on_pause_or_resume-Stays :
    (mux : Multiplexer) (m : MultiplexerMessage) → Stays mux (on_pause_or_resume mux m)
unfolding on_pause_or_resume
on_pause_or_resume-Stays mux m = elim (Option-cases (lookup m.id mux.channels)) [
  | inl n ↦ rw (n, on_pause_or_resume) refl
  | inr (c, e) ↦ rw (e, on_pause_or_resume) refl
]

on_ping-Stays : (mux : Multiplexer) (m : MultiplexerMessage) → Stays mux (on_ping mux m)
unfolding on_ping
on_ping-Stays mux m = Stays-if mux _ _ _ refl refl

pub handle_message-Stays :
    (mux : Multiplexer) (m : MultiplexerMessage) → Stays mux (handle_message mux m)
unfolding handle_message
handle_message-Stays mux m =
    Stays-if mux (m.flow_type == channel_flow_data) (on_data mux m) unless_data
      (on_data-Stays mux m)
      (Stays-if mux (m.flow_type == channel_flow_new) (on_new mux m) unless_new (on_new-Stays mux m)
        (Stays-if mux (m.flow_type == channel_flow_close) (on_close mux m) unless_close
          (on_close-Stays mux m)
          (Stays-if mux (m.flow_type == channel_flow_ping) (on_ping mux m) unless_ping
            (on_ping-Stays mux m)
            (Stays-if mux (m.flow_type == channel_flow_pause || m.flow_type == channel_flow_resume)
              (on_pause_or_resume mux m) (quiet mux) (on_pause_or_resume-Stays mux m) refl))))
  where
    unless_ping : Turn
    unless_ping =
        if m.flow_type == channel_flow_pause || m.flow_type == channel_flow_resume
        then on_pause_or_resume mux m
        else quiet mux

    unless_close : Turn
    unless_close = if m.flow_type == channel_flow_ping then on_ping mux m else unless_ping

    unless_new : Turn
    unless_new = if m.flow_type == channel_flow_close then on_close mux m else unless_close

    unless_data : Turn
    unless_data = if m.flow_type == channel_flow_new then on_new mux m else unless_new
