-- ===== src/Channel/Reads.antt =====
-- Reading a channel to its end, with and without its output queue.
use snitun.Prelude.{
  ℕ, zero, suc, ◌-◌, ◌<◌, ◌≤◌, ◌≡◌, refl, ap, ◌∙◌, Bool, true, false, List, [], ◌∷◌, arith, ◌⊎◌,
  inl, inr, Option, none, some, length, ltb, Bool-cases, lt→ltb, le→ltb_not,
}
use snitun.Exceptions.{Exception, Result, ok, err, transport_close, runtime_error}
use snitun.Bytes.{Bytes}
use snitun.Message.{MultiplexerMessage, ChannelId}
use snitun.Queue.Items.{Item, effective_size}
use snitun.Queue.Single.Laws.{get_nowait_first, get_nowait_rises}
use snitun.Queue.Single
use snitun.Queue.Single.{SingleQueue}
use snitun.Queue.Multi.State
use snitun.Queue.Multi.State.{MultiQueue, Event, put_item, is_full}
use snitun.Channel.{
  Link, read, ReadState, blocked, returned, notify, with_input, take_input, deliver, forgive_full,
  hear, on_local_output_under_water,
}

abbrev Drained : Type 0
Drained = Option (List Bytes × Exception × Link)

prepend : Bytes → Drained → Drained
prepend payload none = none
prepend payload (some (payloads, e, l)) = some (payload ∷ payloads, e, l)

go_on : ReadState → (Link → Drained) → Drained
unfolding prepend
go_on blocked next = none
go_on (returned (ok payload, l)) next = prepend payload (next l)
go_on (returned (err e, l)) next = some ([], e, l)

-- The reads of one reader until one raises: the data, the exception, and the link then. `none`
-- means that a read waits, or that the fuel is out.
unfoldable pub drain : ℕ → Link → Drained
unfolding go_on
drain zero l = none
drain (suc fuel) l = go_on (read l) (drain fuel)

-- The data before the end mark.
unfoldable pub payloads : List Item → List Bytes
payloads [] = []
payloads (none ∷ items) = []
payloads (some message ∷ items) = message.payload ∷ payloads items

-- What a callback of the input queue leaves alone.
record Kept (l l' : Link) : Type 0 where
  closing : l'.channel.closing ≡ l.channel.closing
  input : l'.channel.input ≡ l.channel.input
  id : l'.channel.id ≡ l.channel.id
  version : l'.channel.peer_protocol_version ≡ l.channel.peer_protocol_version
  channels : (j : ChannelId) → l'.output.channels j ≡ l.output.channels j

Kept-refl : (l : Link) → Kept l l
Kept-refl l = record {
  closing = refl;
  input = refl;
  id = refl;
  version = refl;
  channels = λ j. refl;
}

hear-Kept :
    (l : Link) (output : MultiQueue) (event : Event)
    → ((j : ChannelId) → output.channels j ≡ l.output.channels j)
    → Kept l (hear l output event)
unfolding hear
hear-Kept l output none h = record {
  closing = refl;
  input = refl;
  id = refl;
  version = refl;
  channels = h;
}
hear-Kept l output (some (id, b)) h = record {
  closing = unfold on_local_output_under_water in ground arith;
  input = unfold on_local_output_under_water in ground arith;
  id = unfold on_local_output_under_water in ground arith;
  version = unfold on_local_output_under_water in ground arith;
  channels = h;
}

-- The input queue's callback does not raise: the peer knows no pauses, or the queue is not under
-- water, or the output queue still has the channel.
abbrev pub CanRead : Link → Type 0
CanRead l =
    (l.channel.peer_protocol_version < 1)
    ⊎ ((l.channel.input.under_water ≡ false)
        ⊎ ((ref : ℕ) × (l.output.channels l.channel.id ≡ some ref)))

Notifies : Link → Option Bool → Type 0
Notifies l event = (l' : Link) × (notify l event ≡ (ok tt, l')) × Kept l l'

notify_old :
    (l : Link) (event : Option Bool) → l.channel.peer_protocol_version < 1 → Notifies l event
unfolding Notifies notify
notify_old l none h = (l, refl, Kept-refl l)
notify_old l (some b) h = (l, rw (lt→ltb _ _ h), Kept-refl l)

forgive_full_open :
    (l : Link) (item : Item) (ref : ℕ)
    → l.output.channels l.channel.id ≡ some ref
    → (l' : Link) × (forgive_full l (State.put_nowait l.output l.channel.id item) ≡ (ok tt, l'))
      × Kept l l'
unfolding State.put_nowait forgive_full
forgive_full_open l item ref e = elim (Bool-cases (is_full l.output ref item)) [
  | inl f ↦ (l, rw (e, State.put_nowait) (rw f), Kept-refl l)
  | inr f ↦ (
    hear l (put_item l.output l.channel.id ref item).0 (put_item l.output l.channel.id ref item).1,
    rw (e, State.put_nowait) (rw f),
    hear-Kept l _ _ (λ j. unfold put_item in refl),
  )
]

notify_open :
    (l : Link) (event : Option Bool) (ref : ℕ)
    → l.output.channels l.channel.id ≡ some ref
    → Notifies l event
unfolding Notifies notify
notify_open l none ref e = (l, refl, Kept-refl l)
notify_open l (some b) ref e = elim (Bool-cases (ltb l.channel.peer_protocol_version 1)) [
  | inl o ↦ (l, rw o, Kept-refl l)
  | inr o ↦ rw o (forgive_full_open l _ ref e)
]

-- One read of a closing channel that has an item left.
record Step (l : Link) (item : Item) (items : List Item) (l' : Link) : Type 0 where
  returns : read l ≡ returned (deliver item (ok tt, l'))
  left : l'.channel.input.queue ≡ items
  still_closing : l'.channel.closing ≡ true
  can_read : CanRead l'

module _ (l : Link) (closing : l.channel.closing ≡ true) where
  read-eq :
      (item : Item) (items : List Item)
      → l.channel.input.queue ≡ item ∷ items
      → read l ≡ take_input l (Single.get_nowait l.channel.input)
  unfolding read
  read-eq item items e = rw (e, Single.empty) (rw closing)

  read-nil : l.channel.input.queue ≡ [] → read l ≡ returned (err transport_close, l)
  unfolding read
  read-nil e = rw (e, Single.empty) (rw closing)

  step_by :
      (item : Item) (items : List Item) (input : SingleQueue) (event : Option Bool)
      → l.channel.input.queue ≡ item ∷ items
      → Single.get_nowait l.channel.input ≡ ok (item, input, event)
      → input.queue ≡ items
      → Notifies (with_input l input) event
      → ((l' : Link) → Kept (with_input l input) l' → CanRead l')
      → (l' : Link) × Step l item items l'
  unfolding Notifies take_input
  step_by item items input event e g left (l', n, k) can = (
    l',
    record {
      returns =
          read-eq item items e
          ∙ ap (take_input l) g
          ∙ ap (λ (r : Result (Unit {0}) × Link). returned (deliver item r)) n;
      left = ap (λ (q : SingleQueue). q.queue) k.input ∙ left;
      still_closing = k.closing ∙ closing;
      can_read = can l' k;
    },
  )

  step :
      (item : Item) (items : List Item)
      → l.channel.input.queue ≡ item ∷ items
      → CanRead l
      → (l' : Link) × Step l item items l'
  unfolding Notifies
  step item items e can =
      let (input, event, g, left, dry) = get_nowait_first l.channel.input item items e in
      elim can [
        | inl old ↦
            step_by item items input event e g left (notify_old (with_input l input) event old)
              (λ l' k. inl (omega (arith, k.version)))
        | inr (inl u) ↦
            step_by item items input event e g left
              (rw (dry u).0 (with_input l input, unfold notify in refl, Kept-refl _))
              (λ l' k. inr (inl (ap (λ (q : SingleQueue). q.under_water) k.input ∙ (dry u).1)))
        | inr (inr (ref, o)) ↦
            step_by item items input event e g left (notify_open (with_input l input) event ref o)
              (λ l' k. inr (inr (ref, ap l'.output.channels k.id ∙ k.channels l.channel.id ∙ o)))
      ]

drain_items :
    (items : List Item) (fuel : ℕ) (l : Link)
    → l.channel.closing ≡ true
    → CanRead l
    → l.channel.input.queue ≡ items
    → length items < fuel
    → (l' : Link) × (drain fuel l ≡ some (payloads items, transport_close, l'))
unfolding drain payloads deliver
drain_items items zero l c can e h = elim h [ ]
drain_items [] (suc fuel) l c can e h =
    (l, ap (λ (r : ReadState). go_on r (drain fuel)) (read-nil l c e))
drain_items (none ∷ items) (suc fuel) l c can e h =
    let (l', s) = step l c none items e can in
    (l', ap (λ (r : ReadState). go_on r (drain fuel)) s.returns)
drain_items (some message ∷ items) (suc fuel) l c can e h =
    let (l', s) = step l c (some message) items e can in
    let (l'', d) = drain_items items fuel l' s.still_closing s.can_read s.left (omega arith) in
    (l'', ap (λ (r : ReadState). go_on r (drain fuel)) s.returns ∙ ap (prepend message.payload) d)

-- After a close, a reader gets the data of every message that was waiting before an end mark, in
-- order and whole, and then the end of the channel, where the callback of the input queue cannot
-- raise; one read more than there are messages is enough.
pub drain-closed :
    (fuel : ℕ) (l : Link)
    → l.channel.closing ≡ true
    → CanRead l
    → length l.channel.input.queue < fuel
    → (l' : Link) × (drain fuel l ≡ some (payloads l.channel.input.queue, transport_close, l'))
drain-closed fuel l c can h = drain_items l.channel.input.queue fuel l c can refl h

put_nowait_missing :
    (q : MultiQueue) (id : ChannelId) (item : Item)
    → q.channels id ≡ none
    → State.put_nowait q id item ≡ err runtime_error
unfolding State.put_nowait
put_nowait_missing q id item e = rw (e, State.put_nowait)

-- A closed channel that is gone from the output queue loses a message: the read that brings the
-- input queue, which was under water, down to its low mark raises RuntimeError, and its message is
-- no longer in the queue. The peer knows pauses.
pub read_lost :
    (l : Link) (message : MultiplexerMessage) (items : List Item)
    → l.channel.closing ≡ true
    → 1 ≤ l.channel.peer_protocol_version
    → l.channel.input.under_water ≡ true
    → l.output.channels l.channel.id ≡ none
    → l.channel.input.queue ≡ some message ∷ items
    → l.channel.input.total_bytes - effective_size (some message) ≤ l.channel.input.low_water_mark
    → (l' : Link) × (read l ≡ returned (err runtime_error, l')) × (l'.channel.input.queue ≡ items)
read_lost l message items c v u gone e h =
    let (input, g, left) = get_nowait_rises l.channel.input (some message) items e u h in
    (
      with_input l input,
      read-eq l c (some message) items e
          ∙ (unfold take_input in ap (take_input l) g ∙ raises input),
      left,
    )
  where
    raises :
        (input : SingleQueue)
        → take_input l (ok (some message, input, some false))
          ≡ returned (err runtime_error, with_input l input)
    raises input =
        unfold take_input in
        rw (le→ltb_not _ 1 v) (
          ap
            (λ (r : Result (MultiQueue × Event)).
              returned (deliver (some message) (forgive_full (with_input l input) r)))
            (put_nowait_missing l.output l.channel.id _ gone))
