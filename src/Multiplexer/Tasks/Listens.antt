-- ===== src/Multiplexer/Tasks/Listens.antt =====
-- What a multiplexer (snitun/multiplexer/core.py) writes leaves it as able to read as before.
use snitun.Prelude.{
  ℕ, ◌≡◌, refl, ◌∙◌, inl, inr, Bool, true, false, List, [], ◌∷◌, ◌++◌, length, Bool-cases,
  if◌then◌else◌, ◌&&◌, ltb,
}
use snitun.Exceptions.{Result, ok, err, >>=-eq-ok, transport_close}
use snitun.Bytes.{Bytes}
use snitun.Message.{MultiplexerMessage}
use snitun.Crypto.{Primitives, CryptoTransport, encrypt}
use snitun.Crypto.Directions.{encrypt-InSync, ok-snd}
use snitun.Crypto.Units.{Laws, InSync}
use snitun.Multiplexer.Frame.{Entropy, is_encrypted, write_frame, header_of, body_of}
use snitun.Multiplexer.State.{
  Effect, writes, pause_reader, new_connection, released, handle_message,
}
use snitun.Multiplexer.Version.{handle_message-Stays}
use snitun.Multiplexer.Endpoint.{
  Endpoint, sent, write_message, performed, perform, concluded, receive,
}

module _ {p : Primitives} (l : Laws p) (r : CryptoTransport) where
  body_of-InSync :
      (e : Entropy) (version : ℕ) (s s' : CryptoTransport) (m : MultiplexerMessage) (w : Bytes)
      → InSync l r s
      → body_of p e version s m ≡ ok (w, s')
      → InSync l r s'
  unfolding body_of
  body_of-InSync e version s s' m w h q =
      elim (Bool-cases (is_encrypted version m.flow_type && ltb 0 (length m.payload))) [
        | inl t ↦ (encrypt-InSync l r s s' e.data_nonce m.payload w h (rw t at q))
        | inr t ↦ rw (← ok-snd {a = m.payload} {c = s} (rw t at q)) h
      ]

  write_frame-InSync :
      (e : Entropy) (version : ℕ) (s s' : CryptoTransport) (m : MultiplexerMessage) (w : Bytes)
      → InSync l r s
      → write_frame p e version s m ≡ ok (w, s')
      → InSync l r s'
  unfolding write_frame
  write_frame-InSync e version s s' m w h q =
      let (header, _, q1) = >>=-eq-ok (header_of e m) _ q in
      let ((head, t'), q2, q3) = >>=-eq-ok (encrypt p e.header_nonce s header) _ q1 in
      let ((body, t''), q4, q5) = >>=-eq-ok (body_of p e version t' m) _ q3 in
      let same : t'' ≡ s' = ok-snd {a = head ++ body} {c = t''} q5 in
      rw (← same) (
        body_of-InSync e version t' t'' m body
          (encrypt-InSync l r s t' e.header_nonce header head h q2) q4)

  -- What an endpoint does to its own stream leaves it as able to read, in the version that it speaks.
  pub record Listens (before after : Endpoint) : Type 0 where
    pub sync : InSync l r before.crypto → InSync l r after.crypto
    pub version : after.mux.peer_protocol_version ≡ before.mux.peer_protocol_version
    pub closing : after.closing ≡ before.closing

  Listens-if :
      {A : Type 0} {before after after' : Endpoint} (a a' : Result A) (b : Bool)
      → Listens before after
      → Listens before after'
      → Listens before (if◌then◌else◌ {A = Result A × Endpoint} b (a, after) (a', after')).1
  Listens-if a a' true h h' = h
  Listens-if a a' false h h' = h'

  Listens-trans : {a b c : Endpoint} → Listens a b → Listens b c → Listens a c
  Listens-trans h k = record {
    sync = λ q. k.sync (h.sync q);
    version = k.version ∙ h.version;
    closing = k.closing ∙ h.closing;
  }

  write_message-Listens :
      (e : Entropy) (m : MultiplexerMessage) (ep : Endpoint) → Listens ep (write_message p e m ep).1
  unfolding write_message
  write_message-Listens e m ep = go _ refl
    where
      go :
          (w : Result (Bytes × CryptoTransport))
          → write_frame p e ep.mux.peer_protocol_version ep.crypto m ≡ w
          → Listens ep (sent p m ep w).1
      go (err x) q = record { sync = λ h. h; version = refl; closing = refl }
      go (ok (w, crypto)) q =
          Listens-if (err transport_close) (ok (length m.payload)) ep.eof
            (record {
              sync = λ h. write_frame-InSync e _ ep.crypto crypto m w h q;
              version = refl;
              closing = refl;
            })
            (record {
              sync = λ h. write_frame-InSync e _ ep.crypto crypto m w h q;
              version = refl;
              closing = refl;
            })

  performed-Listens :
      (ep : Endpoint) (next : Endpoint → Result (Unit {0}) × Endpoint) (w : Result ℕ × Endpoint)
      → Listens ep w.1
      → ((ep' : Endpoint) → Listens ep' (next ep').1)
      → Listens ep (performed p next w).1
  unfolding performed
  performed-Listens ep next (err x, ep') h k = h
  performed-Listens ep next (ok n, ep') h k = Listens-trans h (k ep')

  perform-Listens :
      (e : Entropy) (effects : List Effect) (ep : Endpoint) → Listens ep (perform p e effects ep).1
  unfolding perform performed
  perform-Listens e [] ep = record { sync = λ h. h; version = refl; closing = refl }
  perform-Listens e (writes m ∷ effects) ep =
      performed-Listens ep (perform p e effects) (write_message p e m ep)
        (write_message-Listens e m ep) (λ ep'. perform-Listens e effects ep')
  perform-Listens e (pause_reader id b ∷ effects) ep =
      let k = perform-Listens e effects _ in
      record { sync = k.sync; version = k.version; closing = k.closing }
  perform-Listens e (new_connection id ∷ effects) ep =
      let k = perform-Listens e effects _ in
      record { sync = k.sync; version = k.version; closing = k.closing }
  perform-Listens e (released c ∷ effects) ep =
      let k = perform-Listens e effects _ in
      record { sync = k.sync; version = k.version; closing = k.closing }

  pub receive-Listens :
      (e : Entropy) (m : MultiplexerMessage) (ep : Endpoint) → Listens ep (receive p e m ep).1
  unfolding receive concluded
  receive-Listens e m ep =
      let turn = handle_message ep.mux m in
      go turn.outcome (perform p e turn.effects (record ep { mux = turn.mux })) (
        Listens-trans
          (record { sync = λ h. h; version = handle_message-Stays ep.mux m; closing = refl })
          (perform-Listens e turn.effects (record ep { mux = turn.mux })))
    where
      go :
          (outcome : Result (Unit {0})) (w : Result (Unit {0}) × Endpoint)
          → Listens ep w.1
          → Listens ep (concluded p outcome w).1
      go outcome (err x, ep') h = h
      go outcome (ok n, ep') h = h
