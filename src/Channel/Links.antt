-- ===== src/Channel/Links.antt =====
-- The methods of a channel on queues that keep their invariants: they do not raise, and keep them.
use snitun.Prelude.{
  ◌≡◌, refl, sym, subst, Bool, true, false, Option, none, some, List, [], ◌∷◌, ◌++◌, arith, ltb,
  if◌then◌else◌, Bool-cases, inl, inr, ◌⊎◌,
}
use snitun.Exceptions.{Result, ok}
use snitun.Message.{MultiplexerMessage}
use snitun.Queue.Items.{Item}
use snitun.Queue.Single
use snitun.Queue.Single.Laws
use snitun.Queue.Single.Laws.{put_nowait_lem, put_nowait_end}
use snitun.Queue.Multi.State
use snitun.Queue.Multi.State.{MultiQueue, Event}
use snitun.Queue.Multi.Invariant.{IsQueue}
use snitun.Queue.Multi.Live.{IsLive, Keeps, Keeps-refl, put_nowait_live}
use snitun.Channel.{
  on_remote_input_under_water, Channel, Link, hear, forgive_full, on_local_output_under_water,
  notify, with_input, feed, close, message_transport,
}

pub record IsLink (l : Link) : Type 0 where
  pub output : IsQueue l.output
  pub live : IsLive l.output l.channel.id
  pub input : Laws.IsQueue l.channel.input

-- What a method may change.
pub record Linked (l l' : Link) : Type 0 where
  pub output : Keeps l.output l'.output
  pub id : l'.channel.id ≡ l.channel.id
  pub input : Laws.IsQueue l'.channel.input

abbrev pub Succeeds : Link → Result (Unit {0}) × Link → Type 0
Succeeds l r = (r.0 ≡ ok tt) × Linked l r.1

hear-input :
    (l : Link) (output : MultiQueue) (event : Event)
    → (hear l output event).channel.input ≡ l.channel.input
unfolding hear
hear-input l output none = refl
hear-input l output (some (id, b)) = unfold on_local_output_under_water in ground arith

hear-id :
    (l : Link) (output : MultiQueue) (event : Event)
    → (hear l output event).channel.id ≡ l.channel.id
unfolding hear
hear-id l output none = refl
hear-id l output (some (id, b)) = unfold on_local_output_under_water in ground arith

hear-output :
    (l : Link) (output : MultiQueue) (event : Event) → (hear l output event).output ≡ output
unfolding hear
hear-output l output none = refl
hear-output l output (some (id, b)) = refl

pub hear-Linked :
    (l : Link) (output : MultiQueue) (event : Event)
    → IsLink l
    → Keeps l.output output
    → Linked l (hear l output event)
hear-Linked l output event v k = record {
  output = subst (Keeps l.output) (sym (hear-output l output event)) k;
  id = hear-id l output event;
  input = subst Laws.IsQueue (sym (hear-input l output event)) v.input;
}

stays : (l : Link) → IsLink l → Linked l l
stays l v = record { output = Keeps-refl l.output v.output; id = refl; input = v.input }

forgive_full-Succeeds :
    (l : Link) (item : Item)
    → IsLink l
    → Succeeds l (forgive_full l (State.put_nowait l.output l.channel.id item))
unfolding forgive_full
forgive_full-Succeeds l item v = elim (put_nowait_live l.output v.output l.channel.id v.live item) [
  | inl e ↦ rw e (refl, stays l v)
  | inr (q', event, e, k) ↦ rw e (refl, hear-Linked l q' event v k)
]

notify-Succeeds : (l : Link) (event : Option Bool) → IsLink l → Succeeds l (notify l event)
unfolding notify
notify-Succeeds l none v = (refl, stays l v)
notify-Succeeds l (some b) v = elim (Bool-cases (ltb l.channel.peer_protocol_version 1)) [
  | inl o ↦ rw o (refl, stays l v)
  | inr o ↦ rw o (forgive_full-Succeeds l _ v)
]

feed-Succeeds :
    (l : Link) (item : Item)
    → IsLink l
    → Succeeds l (feed l (Single.put_nowait l.channel.input item))
unfolding feed
feed-Succeeds l item v = elim (put_nowait_lem l.channel.input item v.input) [
  | inl (_, e) ↦ rw e (refl, stays l v)
  | inr (q', event, e, w) ↦ rw e (
      let (o, n) =
        notify-Succeeds (with_input l q') event
          (record { output = v.output; live = v.live; input = w.valid }) in
      (o, record { output = n.output; id = n.id; input = n.input }))
]

Succeeds-if :
    (l : Link) (b : Bool) (r s : Result (Unit {0}) × Link)
    → Succeeds l r
    → Succeeds l s
    → Succeeds l (if b then r else s)
Succeeds-if l true r s hr hs = hr
Succeeds-if l false r s hr hs = hs

-- A message does not raise, and keeps the queues, also where the input queue calls back.
pub message_transport-Succeeds :
    (l : Link) (m : MultiplexerMessage) → IsLink l → Succeeds l (message_transport l m)
unfolding message_transport
message_transport-Succeeds l m v =
    Succeeds-if l l.channel.closing _ _ (refl, stays l v) (feed-Succeeds l (some m) v)

-- What a close does.
pub record Closed (l l' : Link) : Type 0 where
  pub output : l'.output ≡ l.output
  pub id : l'.channel.id ≡ l.channel.id
  pub closing : l'.channel.closing ≡ true
  pub input : Laws.IsQueue l'.channel.input
  pub under_water : l'.channel.input.under_water ≡ l.channel.input.under_water
  pub queue :
      (l'.channel.input.queue ≡ l.channel.input.queue)
      ⊎ (l'.channel.input.queue ≡ l.channel.input.queue ++ none ∷ [])
  pub calls : l'.calls ≡ l.calls

-- A close does not raise and calls nothing, whatever the output queue: it puts the end mark if
-- there is room.
pub close-Closed :
    (l : Link) → Laws.IsQueue l.channel.input → ((close l).0 ≡ ok tt) × Closed l (close l).1
unfolding close feed notify
close-Closed l v = elim (put_nowait_end l.channel.input v) [
  | inl e ↦ rw e (
    refl,
    record {
      output = refl;
      id = refl;
      closing = refl;
      input = v;
      under_water = refl;
      queue = inl refl;
      calls = refl;
    },
  )
  | inr (q', e, w, added, u) ↦ rw e (
    refl,
    record {
      output = refl;
      id = refl;
      closing = refl;
      input = w;
      under_water = u;
      queue = inr added;
      calls = refl;
    },
  )
]

-- A report of the peer changes the flow control alone.
pub on_remote_input_under_water-Linked :
    (output : MultiQueue) (calls : List Bool) (c : Channel) (b : Bool)
    → IsLink (record { channel = c; output = output; calls = [] })
    → Linked
        (record { channel = c; output = output; calls = [] })
        (record { channel = (on_remote_input_under_water c b).0; output = output; calls = calls })
on_remote_input_under_water-Linked output calls c b v = record {
  output = Keeps-refl output v.output;
  id = unfold on_remote_input_under_water in ground arith;
  input = subst Laws.IsQueue same v.input;
}
  where
    same : c.input ≡ (on_remote_input_under_water c b).0.input
    same = unfold on_remote_input_under_water in ground arith
