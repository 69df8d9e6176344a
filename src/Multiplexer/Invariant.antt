-- ===== src/Multiplexer/Invariant.antt =====
-- The invariant of the multiplexer (snitun/multiplexer/core.py), and that deleting a channel keeps it.
use snitun.Prelude.{
  nat_eq, ◌≡◌, ◌≢◌, refl, ap, sym, ◌∙◌, subst, Bool, true, false, none, some, arith, ◌==◌,
  if◌then◌else◌, Bool-cases, inl, inr, ==_iff,
}
use snitun.Exceptions.{Result, ok, err}
use snitun.Dict.{
  lookup, insert, remove, has, has-lookup, has_not-lookup, lookup-insert, lookup-remove,
}
use snitun.Message.{ChannelId}
use snitun.Queue.Single.Laws
use snitun.Queue.Multi.State
use snitun.Queue.Multi.State.{MultiQueue, Event}
use snitun.Queue.Multi.Invariant.{IsQueue, delete_channel-IsQueue}
use snitun.Queue.Multi.Live.{
  IsLive, Keeps, Keeps-refl, IsLive-delete_channel, put_nowait_force_live,
}
use snitun.Channel.{Channel, Link, hear, init_close}
use snitun.Channel.Links.{IsLink, Succeeds, Closed}
use snitun.Multiplexer.State.{
  Multiplexer, Turn, quiet, link, update_channel, delete_channel_and_queue, force, delete_channel,
  after_close,
}

-- An entry of the dict: under its own id, with an input queue in order, and live on the output queue.
pub record IsEntry (queue : MultiQueue) (id : ChannelId) (c : Channel) : Type 0 where
  pub keyed : c.id ≡ id
  pub input : Laws.IsQueue c.input
  pub live : IsLive queue id

pub record IsMultiplexer (mux : Multiplexer) : Type 0 where
  pub queue : IsQueue mux.queue
  pub entries :
      (id : ChannelId) (c : Channel) → lookup id mux.channels ≡ some c → IsEntry mux.queue id c

-- The entries of a new dict, where the queue keeps the live channels.
IsEntry-Keeps :
    {q q' : MultiQueue} (id : ChannelId) (c : Channel)
    → Keeps q q'
    → IsEntry q id c
    → IsEntry q' id c
IsEntry-Keeps id c k e = record { keyed = e.keyed; input = e.input; live = k.live id e.live }

pub insert-entries :
    (mux : Multiplexer) (queue : MultiQueue) (c : Channel)
    → IsMultiplexer mux
    → Keeps mux.queue queue
    → IsEntry queue c.id c
    → IsMultiplexer (record mux { queue = queue; channels = insert c.id c mux.channels })
insert-entries mux queue c v k e = record { queue = k.valid; entries = at }
  where
    at :
        (id : ChannelId) (d : Channel)
        → lookup id (insert c.id c mux.channels) ≡ some d
        → IsEntry queue id d
    at id d h = elim (Bool-cases (c.id == id)) [
      | inl s ↦
          let same : c ≡ d = ground (arith, lookup-insert c.id id c mux.channels) in
          let here : c.id ≡ id = (==_iff c.id id).0 s in
          subst (IsEntry queue id) same (subst (λ (j : ChannelId). IsEntry queue j c) here e)
      | inr n ↦
          IsEntry-Keeps id d k
            (v.entries id d (ground (arith, lookup-insert c.id id c mux.channels)))
    ]

remove-entries :
    (mux : Multiplexer) (queue : MultiQueue) (gone : ChannelId)
    → IsMultiplexer mux
    → IsQueue queue
    → ((j : ChannelId) → gone ≢ j → IsLive mux.queue j → IsLive queue j)
    → IsMultiplexer (record mux { queue = queue; channels = remove gone mux.channels })
remove-entries mux queue gone v q k = record { queue = q; entries = at }
  where
    at :
        (id : ChannelId) (d : Channel)
        → lookup id (remove gone mux.channels) ≡ some d
        → IsEntry queue id d
    at id d h = elim (Bool-cases (gone == id)) [
      | inl s ↦ absurd (ground (arith, lookup-remove gone id mux.channels))
      | inr n ↦
          let e = v.entries id d (ground (arith, lookup-remove gone id mux.channels)) in
          record {
            keyed = e.keyed;
            input = e.input;
            live = k id (λ p. ground (arith, ==_iff gone id)) e.live;
          }
    ]

pub delete_channel_and_queue-IsMultiplexer :
    (mux : Multiplexer) (id : ChannelId)
    → IsMultiplexer mux
    → IsMultiplexer (delete_channel_and_queue mux id)
unfolding delete_channel_and_queue
delete_channel_and_queue-IsMultiplexer mux id v =
    remove-entries mux (State.delete_channel mux.queue id) id v
      (delete_channel-IsQueue mux.queue v.queue id)
      (λ j ne h. IsLive-delete_channel mux.queue id j v.queue.distinct ne h)

-- A turn that raises nothing and keeps the invariant.
pub record IsGood (t : Turn) : Type 0 where
  pub outcome : t.outcome ≡ ok tt
  pub valid : IsMultiplexer t.mux

module _ (mux : Multiplexer) (v : IsMultiplexer mux) where
  pub quiet-IsGood : IsGood (quiet mux)
  quiet-IsGood = record { outcome = refl; valid = v }

  pub link-IsLink :
      (id : ChannelId) (c : Channel) → lookup id mux.channels ≡ some c → IsLink (link mux c)
  link-IsLink id c e =
      let w = v.entries id c e in
      record {
        output = v.queue;
        live = subst (IsLive mux.queue) (sym w.keyed) w.live;
        input = w.input;
      }

  pub update_channel-IsGood :
      (l : Link) (r : Result (Unit {0}) × Link)
      → IsLink l
      → l.output ≡ mux.queue
      → Succeeds l r
      → IsGood (update_channel mux r)
  update_channel-IsGood l r w same s = record {
    outcome = s.0;
    valid =
        insert-entries mux r.1.output r.1.channel v
          (subst (λ (q : MultiQueue). Keeps q r.1.output) same s.1.output)
          (record {
            keyed = refl;
            input = s.1.input;
            live = subst (IsLive r.1.output) (sym s.1.id) (s.1.output.live l.channel.id w.live);
          });
  }

  drop_queue-IsMultiplexer :
      (gone : ChannelId)
      → lookup gone mux.channels ≡ none
      → IsMultiplexer (record mux { queue = State.delete_channel mux.queue gone })
  drop_queue-IsMultiplexer gone n = record {
    queue = delete_channel-IsQueue mux.queue v.queue gone;
    entries = λ id d h.
        let e = v.entries id d h in
        record {
          keyed = e.keyed;
          input = e.input;
          live =
              IsLive-delete_channel mux.queue gone id v.queue.distinct
                (λ p. ground (arith, ap (λ (j : ChannelId). lookup j mux.channels) p)) e.live;
        };
  }

  grow-IsMultiplexer :
      (queue : MultiQueue) → Keeps mux.queue queue → IsMultiplexer (record mux { queue = queue })
  grow-IsMultiplexer queue k = record {
    queue = k.valid;
    entries = λ id d h. IsEntry-Keeps id d k (v.entries id d h);
  }

force-output : (l : Link) (q : MultiQueue) (event : Event) → (force l (ok (q, event))).output ≡ q
unfolding force hear
force-output l q none = refl
force-output l q (some (id, b)) = refl

-- Deleting a channel raises nothing, whether or not it is still open.
pub delete_channel-IsGood :
    (mux : Multiplexer) (c : Channel) → IsMultiplexer mux → IsGood (delete_channel mux c)
unfolding delete_channel
delete_channel-IsGood mux c v = elim (Bool-cases (has c.id mux.channels)) [
  | inr n ↦ rw n (record {
    outcome = refl;
    valid = drop_queue-IsMultiplexer mux v c.id (has_not-lookup c.id mux.channels n);
  })
  | inl h ↦
      let (d, e) = has-lookup c.id mux.channels h in
      let (q, event, forced, k) =
        put_nowait_force_live mux.queue v.queue c.id (v.entries c.id d e).live
          (some (init_close c)) in
      rw h (record { outcome = refl; valid = closed q event forced k })
]
  where
    closed :
        (q : MultiQueue) (event : Event)
        → State.put_nowait_force mux.queue c.id (some (init_close c)) ≡ ok (q, event)
        → Keeps mux.queue q
        → IsMultiplexer (
            delete_channel_and_queue
              (record mux {
                queue =
                    (force
                      (link mux c)
                      (State.put_nowait_force mux.queue c.id (some (init_close c)))).output;
              })
              c.id)
    closed q event forced k =
        delete_channel_and_queue-IsMultiplexer _ c.id
          (rw forced (rw (force-output (link mux c) q event) (grow-IsMultiplexer mux v q k)))

pub after_close-IsGood :
    (mux : Multiplexer) (l : Link) (outcome : Result (Unit {0})) (l' : Link)
    → IsMultiplexer mux
    → IsLink l
    → l.output ≡ mux.queue
    → outcome ≡ ok tt
    → Closed l l'
    → IsGood (after_close mux (outcome, l'))
after_close-IsGood mux l (err e) l' v w same o c = cc
after_close-IsGood mux l (ok _) l' v w same o c =
    let good =
      delete_channel-IsGood
        (record mux { queue = l'.output; channels = insert l'.channel.id l'.channel mux.channels })
        l'.channel
        (insert-entries mux l'.output l'.channel v kept
          (record { keyed = refl; input = c.input; live = live })) in
    record { outcome = good.outcome; valid = good.valid }
  where
    kept : Keeps mux.queue l'.output
    kept = subst (Keeps mux.queue) (sym (c.output ∙ same)) (Keeps-refl mux.queue v.queue)

    live : IsLive l'.output l'.channel.id
    live =
        subst (IsLive l'.output) (sym c.id)
          (subst (λ (q : MultiQueue). IsLive q l.channel.id) (sym c.output) w.live)

pub IsGood-if : (b : Bool) (s t : Turn) → IsGood s → IsGood t → IsGood (if b then s else t)
IsGood-if true s t hs ht = hs
IsGood-if false s t hs ht = ht
