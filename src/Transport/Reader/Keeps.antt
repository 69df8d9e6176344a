-- ===== src/Transport/Reader/Keeps.antt =====
-- The steps of `_reader` (snitun/multiplexer/transport.py): none loses what was read.
use snitun.Prelude.{
  ℕ, ◌≡◌, refl, sym, ap, ◌∙◌, Option, none, some, [], ◌∷◌, ◌++◌, take, append_assoc, append-nil,
  Bool-cases, inl, inr, take-append-drop, arith,
}
use snitun.Exceptions.{
  Exception, Result, ok, err, transport_close, catches_control, attribute_error, cancelled_error,
}
use snitun.Bytes.{Bytes}
use snitun.Channel
use snitun.Channel.{ReadState, blocked, returned}
use snitun.Transport.{ChannelTransport, Protocol, Fed, force_close, fatal_error}
use snitun.Transport.Feed.{Feeds, feed_data_to_buffered_proto-Feeds, Feeds-whole}
use snitun.Transport.Reader.{
  step, cancel, Place, looping, reading, paused, received, awaiting_protocol, feeding, held,
  finished, Reader, Moved, ended, goes, await_pause, raises, normal_close, failed, on_read, size,
  on_fed, after_feed, feed_chunk, reader_step, cancel_at,
}

-- What the reader holds.
abbrev pub kept : Place → Bytes
kept looping = []
kept reading = []
kept (paused future) = []
kept (received from_peer) = from_peer
kept (awaiting_protocol from_peer) = from_peer
kept (feeding from_peer) = from_peer
kept (held future from_peer) = from_peer
kept (finished result) = []

-- What it held before, with what it read, is what the protocol was given, with what it holds now, and
-- with what is lost, which is nothing unless the reader is at its end.
pub record Keeps {S : Type 0} (before : Place) (moved : Moved S) : Type 0 where
  pub lost : Bytes
  pub balance : moved.given ++ kept moved.reader.place ++ lost ≡ kept before ++ moved.taken
  pub nothing :
      ((result : Result (Unit {0})) → ¬ (moved.reader.place ≡ finished result)) → lost ≡ []

kept-await_pause :
    (o : Option ℕ) (next : Place) (wait : ℕ → Place)
    → ((future : ℕ) → kept (wait future) ≡ kept next)
    → kept (await_pause o next wait) ≡ kept next
kept-await_pause none next wait h = refl
kept-await_pause (some future) next wait h = h future

-- Two balances, one after the other, where the first one lost nothing.
pub chained :
    (given kept_now lost held_before taken given' kept' lost' taken' : Bytes)
    → lost ≡ []
    → given ++ kept_now ++ lost ≡ held_before ++ taken
    → given' ++ kept' ++ lost' ≡ kept_now ++ taken'
    → given ++ given' ++ kept' ++ lost' ≡ held_before ++ (taken ++ taken')
chained g k l h t g' k' l' t' e p q =
    ap (λ (w : Bytes). w ++ l') (append_assoc g g' k')
    ∙ append_assoc g (g' ++ k') l'
    ∙ ap (◌++◌ g) q
    ∙ sym (append_assoc g k t')
    ∙ ap (λ (w : Bytes). w ++ t') (sym (append-nil (g ++ k)) ∙ ap (◌++◌ (g ++ k)) (sym e) ∙ p)
    ∙ append_assoc h t t'

pub goes-Keeps :
    {S : Type 0} (before place : Place) (t : ChannelTransport S) (r : Reader)
    → kept place ≡ kept before
    → Keeps before (goes t r place)
goes-Keeps before place t r e = record {
  lost = [];
  balance = ap (λ (w : Bytes). w ++ []) e;
  nothing = λ h. refl;
}

ended-Keeps :
    {S : Type 0} (before : Place) (r : Reader) (e : Exception) (t : ChannelTransport S)
    → Keeps before (ended r e t)
ended-Keeps before r e t = record {
  lost = kept before;
  balance = sym (append-nil (kept before));
  nothing = λ h. absurd (h (err e) refl);
}

module _ {S : Type 0} (protocols : Protocol S) where
  -- The reader is at its end, and nothing was read.
  failed-finished :
      (t : ChannelTransport S) (r : Reader) (e : Exception)
      → (result : Result (Unit {0})) × ((failed protocols t r e).reader.place ≡ finished result)
        × ((failed protocols t r e).taken ≡ [])
        × ((failed protocols t r e).given ≡ [])
  unfolding failed
  failed-finished t r e = elim (Bool-cases (catches_control e)) [
    | inl c ↦ rw c (err e, refl, refl, refl)
    | inr c ↦ rw c (cleaned (fatal_error e t))
  ]
    where
      cleaned :
          (done : Result (Unit {0}) × ChannelTransport S)
          → (result : Result (Unit {0})) × ((raises protocols r e done).reader.place
              ≡ finished result)
            × ((raises protocols r e done).taken ≡ [])
            × ((raises protocols r e done).given ≡ [])
      cleaned (ok u, t') = (err e, refl, refl, refl)
      cleaned (err e', t') = (err e', refl, refl, refl)

  failed-Keeps :
      (before : Place) (t : ChannelTransport S) (r : Reader) (e : Exception)
      → Keeps before (failed protocols t r e)
  failed-Keeps before t r e =
      let (result, at, none_taken, none_given) = failed-finished t r e in
      record {
        lost = kept before;
        balance = rw (at, none_taken, none_given) (sym (append-nil (kept before)));
        nothing = λ h. absurd (h result at);
      }

  on_read-Keeps :
      (t : ChannelTransport S) (r : Reader) (s : ReadState)
      → Keeps reading (on_read protocols t r s)
  unfolding on_read
  on_read-Keeps t r blocked = goes-Keeps reading reading t r refl
  on_read-Keeps t r (returned (ok from_peer, link)) = record {
    lost = [];
    balance = append-nil from_peer;
    nothing = λ h. refl;
  }
  on_read-Keeps t r (returned (err transport_close, link)) = closed (force_close none _)
    where
      closed :
          (done : Result (Unit {0}) × ChannelTransport S)
          → Keeps reading (normal_close protocols r done)
      closed (ok u, t') = record { lost = []; balance = refl; nothing = λ h. refl }
      closed (err e', t') = ended-Keeps reading r e' t'
  on_read-Keeps t r (returned (err e, link)) = failed-Keeps reading (record t { link = link }) r e

  size-Keeps :
      (before : Place) (t : ChannelTransport S) (r : Reader) (from_peer : Bytes)
      → kept before ≡ from_peer
      → Keeps before (size protocols t r from_peer)
  unfolding size
  size-Keeps before t r from_peer e = record {
    lost = [];
    balance = ap (λ (w : Bytes). w ++ []) (sym e);
    nothing = λ h. refl;
  }

  on_fed-Keeps :
      (r : Reader) (payload rest : Bytes) (fed : Fed S)
      → fed.given ++ rest ≡ payload
      → Keeps (feeding payload) (on_fed protocols r rest fed)
  unfolding on_fed
  on_fed-Keeps r payload [] fed e = record {
    lost = [];
    balance = ap (λ (w : Bytes). w ++ []) e;
    nothing = λ h. refl;
  }
  on_fed-Keeps r payload (b ∷ bs) fed e = record {
    lost = [];
    balance =
        rw (kept-await_pause fed.transport.pause_future (feeding (b ∷ bs)) _ (λ future. refl))
          (ap (λ (w : Bytes). w ++ []) e);
    nothing = λ h. refl;
  }

  fed_chunk-Keeps :
      (r : Reader) (payload piece rest : Bytes) (fed : Fed S) (result : Result (Unit {0}))
      → Feeds piece fed
      → fed.result ≡ result
      → piece ++ rest ≡ payload
      → Keeps (feeding payload) (after_feed protocols r rest fed result)
  unfolding after_feed
  fed_chunk-Keeps r payload piece rest fed (ok u) feeds e q =
      on_fed-Keeps r payload rest fed (ap (λ (w : Bytes). w ++ rest) (Feeds-whole feeds e) ∙ q)
  fed_chunk-Keeps r payload piece rest fed (err raised) feeds e q =
      let (result, at, none_taken, none_given) = failed-finished fed.transport r raised in
      record {
        lost = feeds.rest ++ rest;
        balance =
            rw (at, none_taken, append-nil, ← append_assoc fed.given feeds.rest rest)
              (ap (λ (w : Bytes). w ++ rest) feeds.split ∙ q ∙ sym (append-nil payload));
        nothing = λ h. absurd (h result at);
      }

  feed_chunk-Keeps :
      (t : ChannelTransport S) (r : Reader) (payload : Bytes) (protocol : Option ℕ)
      → Keeps (feeding payload) (feed_chunk protocols t r payload protocol)
  unfolding feed_chunk
  feed_chunk-Keeps t r payload none = failed-Keeps (feeding payload) t r attribute_error
  feed_chunk-Keeps t r payload (some proto) =
      fed_chunk-Keeps r payload _ _ _ _
        (feed_data_to_buffered_proto-Feeds protocols proto (take r.chunk_size payload) t) refl
        (take-append-drop r.chunk_size payload)

  reader_step-Keeps :
      (t : ChannelTransport S) (r : Reader) (place : Place)
      → Keeps place (reader_step protocols t r place)
  unfolding reader_step
  reader_step-Keeps t r looping =
      goes-Keeps looping _ t r (kept-await_pause t.pause_future reading _ (λ future. refl))
  reader_step-Keeps t r (paused future) = goes-Keeps (paused future) _ t r (ground arith)
  reader_step-Keeps t r reading = on_read-Keeps t r (Channel.read t.link)
  reader_step-Keeps t r (received from_peer) = elim (Bool-cases t.protocol_set) [
    | inl e ↦ simp e (size-Keeps (received from_peer) t r from_peer refl)
    | inr e ↦ simp e (goes-Keeps (received from_peer) _ t r refl)
  ]
  reader_step-Keeps t r (awaiting_protocol from_peer) = elim (Bool-cases t.protocol_ready) [
    | inl e ↦ simp e (size-Keeps (awaiting_protocol from_peer) t r from_peer refl)
    | inr e ↦ simp e (goes-Keeps (awaiting_protocol from_peer) _ t r refl)
  ]
  reader_step-Keeps t r (feeding []) = goes-Keeps (feeding []) looping t r refl
  reader_step-Keeps t r (feeding (b ∷ bs)) = feed_chunk-Keeps t r (b ∷ bs) t.protocol
  reader_step-Keeps t r (held future from_peer) =
      goes-Keeps (held future from_peer) _ t r (ground arith)
  reader_step-Keeps t r (finished result) = goes-Keeps (finished result) _ t r refl

  cancel_at-Keeps :
      (t : ChannelTransport S) (r : Reader) (place : Place)
      → Keeps place (cancel_at protocols t r place)
  unfolding cancel_at
  cancel_at-Keeps t r (finished result) = goes-Keeps (finished result) _ t r refl
  cancel_at-Keeps t r place = failed-Keeps place t r cancelled_error

  pub step-Keeps : (t : ChannelTransport S) (r : Reader) → Keeps r.place (step protocols t r)
  unfolding step
  step-Keeps t r = reader_step-Keeps t r r.place

  pub cancel-Keeps : (t : ChannelTransport S) (r : Reader) → Keeps r.place (cancel protocols t r)
  unfolding cancel
  cancel-Keeps t r = cancel_at-Keeps t r r.place
