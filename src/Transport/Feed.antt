-- ===== src/Transport/Feed.antt =====
-- `_feed_data_to_buffered_proto` of snitun/multiplexer/transport.py: what the protocol is given.
use snitun.Prelude.{
  ℕ, zero, suc, ◌≤◌, ◌≡◌, refl, sym, ap, ◌∙◌, false, [], ◌∷◌, ◌++◌, ◌==◌, leb, length, take, drop,
  arith, append_assoc, append-nil, Bool-cases, inl, inr, length-drop, take-append-drop,
}
use snitun.Exceptions.{Result, ok, err}
use snitun.Bytes.{Bytes}
use snitun.Transport.{
  ChannelTransport, Protocol, Fed, given_then, all_fed, feed_round, feed_loop,
  feed_data_to_buffered_proto,
}

-- The protocol was given the start of the data, and all of it unless the feed raised.
pub record Feeds {S : Type 0} (payload : Bytes) (fed : Fed S) : Type 0 where
  pub rest : Bytes
  pub split : fed.given ++ rest ≡ payload
  pub whole : fed.result ≡ ok tt → rest ≡ []

pub Feeds-whole :
    {S : Type 0} {payload : Bytes} {fed : Fed S}
    → Feeds payload fed
    → fed.result ≡ ok tt
    → fed.given ≡ payload
Feeds-whole {fed = fed} feeds done =
    sym (append-nil fed.given) ∙ sym (ap (◌++◌ fed.given) (feeds.whole done)) ∙ feeds.split

-- A protocol that has room whenever it is asked for a buffer, and raises nothing.
pub record Accepts {S : Type 0} (protocols : Protocol S) (proto : ℕ) : Type 0 where
  pub room :
      (size : ℕ) (t : ChannelTransport S)
      → (buf_len : ℕ) × (t' : ChannelTransport S) × (protocols.get_buffer proto size t
          ≡ (ok (suc buf_len), t'))
  pub takes :
      (written : Bytes) (t : ChannelTransport S)
      → (t' : ChannelTransport S) × (protocols.buffer_updated proto written t ≡ (ok tt, t'))

suc-ne-zero : (n : ℕ) → (suc n == 0) ≡ false
suc-ne-zero n = ground arith

module _ {S : Type 0} (protocols : Protocol S) (proto : ℕ) where
  open protocols use {get_buffer, buffer_updated}

  given_then-Feeds :
      (payload piece after : Bytes) (next : ChannelTransport S → Fed S)
      (r : Result (Unit {0}) × ChannelTransport S)
      → piece ++ after ≡ payload
      → ((t : ChannelTransport S) → Feeds after (next t))
      → Feeds payload (given_then protocols piece next r)
  unfolding given_then
  given_then-Feeds payload piece after next (err e, t) q h = record {
    rest = after;
    split = q;
    whole = λ r. cc;
  }
  given_then-Feeds payload piece after next (ok u, t) q h = record {
    rest = (h t).rest;
    split = append_assoc piece _ _ ∙ ap (◌++◌ piece) (h t).split ∙ q;
    whole = (h t).whole;
  }

  all_fed-Feeds : (t : ChannelTransport S) → Feeds [] (all_fed protocols t)
  unfolding all_fed
  all_fed-Feeds t = record { rest = []; split = refl; whole = λ q. refl }

  feed_round-Feeds :
      (payload : Bytes) (again : Bytes → ChannelTransport S → Fed S)
      (r : Result ℕ × ChannelTransport S)
      → ((n : ℕ) (t : ChannelTransport S)
          → Feeds (drop (suc n) payload) (again (drop (suc n) payload) t))
      → Feeds payload (feed_round protocols proto payload again r)
  unfolding feed_round
  feed_round-Feeds payload again (err e, t) h = record {
    rest = payload;
    split = refl;
    whole = λ q. cc;
  }
  feed_round-Feeds payload again (ok zero, t) h = record {
    rest = payload;
    split = refl;
    whole = λ q. cc;
  }
  feed_round-Feeds payload again (ok (suc n), t) h =
      elim (Bool-cases (leb (length payload) (suc n))) [
        | inl e ↦
            rw (suc-ne-zero n, e)
              (given_then-Feeds payload payload [] (all_fed protocols) _ (append-nil payload)
                all_fed-Feeds)
        | inr e ↦
            rw (suc-ne-zero n, e)
              (given_then-Feeds payload (take (suc n) payload) (drop (suc n) payload) _ _
                (take-append-drop (suc n) payload) (h n))
      ]

  feed_loop-Feeds :
      (fuel : ℕ) (payload : Bytes) (t : ChannelTransport S)
      → length payload ≤ fuel
      → Feeds payload (feed_loop protocols fuel proto payload t)
  unfolding feed_loop
  feed_loop-Feeds zero [] t h = all_fed-Feeds t
  feed_loop-Feeds zero (b ∷ bs) t h = absurd (omega arith)
  feed_loop-Feeds (suc fuel) [] t h = all_fed-Feeds t
  feed_loop-Feeds (suc fuel) (b ∷ bs) t h =
      feed_round-Feeds (b ∷ bs) (feed_loop protocols fuel proto)
        (get_buffer proto (length (b ∷ bs)) t)
        (λ n t'. feed_loop-Feeds fuel (drop n bs) t' (omega (arith, length-drop n bs)))

  -- Whatever the protocol does, it is given the start of the data, and all of it unless something raises.
  pub feed_data_to_buffered_proto-Feeds :
      (payload : Bytes) (t : ChannelTransport S)
      → Feeds payload (feed_data_to_buffered_proto protocols proto payload t)
  unfolding feed_data_to_buffered_proto
  feed_data_to_buffered_proto-Feeds payload t =
      feed_loop-Feeds (length payload) payload t (omega arith)

  module _ (accepts : Accepts protocols proto) where
    given_then-ok :
        (piece : Bytes) (next : ChannelTransport S → Fed S) (t : ChannelTransport S)
        → ((t' : ChannelTransport S) → (next t').result ≡ ok tt)
        → (given_then protocols piece next (buffer_updated proto piece t)).result ≡ ok tt
    unfolding given_then
    given_then-ok piece next t h = let (t', e) = accepts.takes piece t in rw e (h t')

    feed_round-ok :
        (payload : Bytes) (again : Bytes → ChannelTransport S → Fed S) (size : ℕ)
        (t : ChannelTransport S)
        → ((n : ℕ) (t' : ChannelTransport S) → (again (drop (suc n) payload) t').result ≡ ok tt)
        → (feed_round protocols proto payload again (get_buffer proto size t)).result ≡ ok tt
    unfolding feed_round all_fed
    feed_round-ok payload again size t h =
        let (n, t', e) = accepts.room size t in
        rw (e, suc-ne-zero n)
          (elim (Bool-cases (leb (length payload) (suc n))) [
            | inl le ↦ rw le (given_then-ok payload (all_fed protocols) t' (λ t''. refl))
            | inr gt ↦ rw gt (given_then-ok (take (suc n) payload) _ t' (h n))
          ])

    feed_loop-ok :
        (fuel : ℕ) (payload : Bytes) (t : ChannelTransport S)
        → (feed_loop protocols fuel proto payload t).result ≡ ok tt
    unfolding feed_loop all_fed
    feed_loop-ok zero payload t = refl
    feed_loop-ok (suc fuel) [] t = refl
    feed_loop-ok (suc fuel) (b ∷ bs) t =
        feed_round-ok (b ∷ bs) (feed_loop protocols fuel proto) _ t
          (λ n t'. feed_loop-ok fuel (drop n bs) t')

    -- The loop that feeds a protocol ends, and raises nothing: whatever the sizes of its buffers, the
    -- protocol is given exactly the data. It has room whenever it is asked, and raises nothing itself.
    pub feed_data_to_buffered_proto-whole :
        (payload : Bytes) (t : ChannelTransport S)
        → let fed = feed_data_to_buffered_proto protocols proto payload t in
          (fed.result ≡ ok tt) × (fed.given ≡ payload)
    unfolding feed_data_to_buffered_proto
    feed_data_to_buffered_proto-whole payload t =
        let done = feed_loop-ok (length payload) payload t in
        (done, Feeds-whole (feed_loop-Feeds (length payload) payload t (omega arith)) done)
