-- ===== src/Transport/Reader/Delivery.antt =====
-- `_reader` of snitun/multiplexer/transport.py: what it reads is what the protocol is given.
use snitun.Prelude.{◌≡◌, refl, List, [], ◌∷◌, ◌++◌, append-nil, inl, inr, ◌⊎◌}
use snitun.Exceptions.{Result}
use snitun.Bytes.{Bytes}
use snitun.Transport.{ChannelTransport, Protocol}
use snitun.Transport.Reader.{
  Place, looping, reading, paused, received, awaiting_protocol, feeding, held, finished, Reader,
  Moved, goes, reader_step, step, cancel, new_reader, cancel_at,
}
use snitun.Transport.Reader.Keeps.{kept, Keeps, goes-Keeps, chained, step-Keeps, cancel-Keeps}

-- What happens to the transport: the reader goes on, it is cancelled, or others change all but the
-- reader's own variables.
pub data Event (S : Type 0) : Type 0 where
  reader_goes cancelled : Event S
  others : (change : ChannelTransport S → ChannelTransport S) → Event S

module _ {S : Type 0} (protocols : Protocol S) where
  unfoldable pub react : Event S → ChannelTransport S → Reader → Moved S
  unfolding step cancel
  react reader_goes t r = step protocols t r
  react cancelled t r = cancel protocols t r
  react (others change) t r = goes (change t) r r.place

  unfoldable pub run : List (Event S) → ChannelTransport S → Reader → Moved S
  unfolding react
  run [] t r = goes t r r.place
  run (event ∷ events) t r =
      let first = react event t r in
      let after = run events first.transport first.reader in
      record after { taken = first.taken ++ after.taken; given = first.given ++ after.given }

module _ {S : Type 0} (protocols : Protocol S) where
  react-Keeps :
      (event : Event S) (t : ChannelTransport S) (r : Reader)
      → Keeps r.place (react protocols event t r)
  unfolding react
  react-Keeps reader_goes t r = step-Keeps protocols t r
  react-Keeps cancelled t r = cancel-Keeps protocols t r
  react-Keeps (others change) t r = goes-Keeps r.place r.place (change t) r refl

  -- A reader that is at its end does nothing more.
  react-finished :
      (event : Event S) (t : ChannelTransport S) (r : Reader) (result : Result (Unit {0}))
      → r.place ≡ finished result
      → ((react protocols event t r).reader.place ≡ finished result)
        × ((react protocols event t r).taken ≡ [])
        × ((react protocols event t r).given ≡ [])
  unfolding react step cancel reader_step cancel_at
  react-finished reader_goes t r result e = rw e (refl, refl, refl)
  react-finished cancelled t r result e = rw e (refl, refl, refl)
  react-finished (others change) t r result e = (e, refl, refl)

  run-finished :
      (events : List (Event S)) (t : ChannelTransport S) (r : Reader) (result : Result (Unit {0}))
      → r.place ≡ finished result
      → ((run protocols events t r).reader.place ≡ finished result)
        × ((run protocols events t r).taken ≡ [])
        × ((run protocols events t r).given ≡ [])
  unfolding run
  run-finished [] t r result e = (e, refl, refl)
  run-finished (event ∷ events) t r result e =
      let (at, none_taken, none_given) = react-finished event t r result e in
      let first = react protocols event t r in
      let (at', none_taken', none_given') =
        run-finished events first.transport first.reader result at in
      (at', rw (none_taken, none_taken'), rw (none_given, none_given'))

  Place-cases :
      (place : Place)
      → ((result : Result (Unit {0})) × (place ≡ finished result))
        ⊎ ((result : Result (Unit {0})) → ¬ (place ≡ finished result))
  Place-cases (finished result) = inl (result, refl)
  Place-cases looping = inr (λ result e. cc)
  Place-cases reading = inr (λ result e. cc)
  Place-cases (paused future) = inr (λ result e. cc)
  Place-cases (received from_peer) = inr (λ result e. cc)
  Place-cases (awaiting_protocol from_peer) = inr (λ result e. cc)
  Place-cases (feeding from_peer) = inr (λ result e. cc)
  Place-cases (held future from_peer) = inr (λ result e. cc)

  run-Keeps :
      (events : List (Event S)) (t : ChannelTransport S) (r : Reader)
      → Keeps r.place (run protocols events t r)
  unfolding run
  run-Keeps [] t r = goes-Keeps r.place r.place t r refl
  run-Keeps (event ∷ events) t r =
      let first = react protocols event t r in
      let k = react-Keeps event t r in
      elim (Place-cases first.reader.place) [
        | inl (result, at) ↦
            let (at', none_taken, none_given) =
              run-finished events first.transport first.reader result at in
            record {
              lost = k.lost;
              balance =
                  rw (at', none_given, none_taken, append-nil first.taken, append-nil first.given)
                    (rw at at k.balance);
              nothing = λ h. absurd (h result at');
            }
        | inr going ↦
            let k' = run-Keeps events first.transport first.reader in
            record {
              lost = k'.lost;
              balance =
                  chained first.given _ k.lost _ first.taken _ _ k'.lost _ (k.nothing going)
                    k.balance k'.balance;
              nothing = k'.nothing;
            }
      ]

  -- Whatever the protocol does, and however the steps of the reader, its cancellation and changes by
  -- others come, the protocol is given what the reader has read from the channel, in order and once:
  -- all of it but what the reader still holds, and a rest that is lost only where the reader is at its
  -- end.
  pub run-delivers :
      (events : List (Event S)) (t : ChannelTransport S)
      → let moved = run protocols events t new_reader in
        (lost : Bytes) × (moved.given ++ kept moved.reader.place ++ lost ≡ moved.taken)
        × ((lost ≡ []) ⊎ ((result : Result (Unit {0})) × (moved.reader.place ≡ finished result)))
  run-delivers events t =
      let k = run-Keeps events t new_reader in
      (
        k.lost,
        k.balance,
        elim (Place-cases (run protocols events t new_reader).reader.place) [
          | inl at ↦ inr at
          | inr going ↦ inl (k.nothing going)
        ],
      )
