-- ===== src/Dispatcher/Settled.antt =====
-- What `_process` (snitun/server/run.py) does with a connection: it waits for more, or is done with the socket once.
use snitun.Prelude.{
  ℕ, ◌%◌, ◌<◌, ◌≡◌, refl, Bool, true, false, not, ◌||◌, Option, none, some, List, [], ◌∷◌, ◌++◌,
  arith, if◌then◌else◌, length, drop, Bool-cases, inl, inr, ◌==◌, length-append, ℕ_discrete,
}
use snitun.Exceptions.{Result, ok, err, ◌>>=◌, index_error, catches_parse_sni, catches_parse_proxy}
use snitun.Bytes.{Bytes, Text, starts_with}
use snitun.Sni.{parse_tls_sni}
use snitun.Sni.Total.{
  Parsed, parsed, refused, incomplete, parse_tls_sni-Parsed, parse_tls_sni-five, at-lt,
}
use snitun.ProxyProtocol.{ProxyProtocolHeader}
use snitun.ProxyProtocol.Verdict.{
  Verdict, absent, present, malformed, unfinished, parse_proxy_protocol_header-Verdict,
}
use snitun.Dispatcher.{
  Connection, Action, unregister, close_socket, handover, Step, step, closed, is_nonempty,
  strip_parsed, strip_proxy_protocol, responsible, distribute, route, select, select_if, process,
  token_prefix,
}

-- An action that is the last one on a socket.
abbrev pub IsFinal : Action → Type 0
IsFinal unregister = ⊥
IsFinal (close_socket _) = Unit
IsFinal (handover _ _ _ _) = Unit

-- The connection waits, and nothing was done; or it is closed here, and its socket was unregistered, then closed
-- or handed over; or the parser raised IndexError on five bytes.
pub data Settled (client : Connection) : Result Step → Type 0 where
  waiting :
      (st : Step)
      → st.client.close ≡ client.close
      → st.client.stale ≡ client.stale
      → st.actions ≡ []
      → Settled client (ok st)
  ended :
      (st : Step) (last : Action)
      → st.client.close ≡ true
      → IsFinal last
      → st.actions ≡ unregister ∷ last ∷ []
      → Settled client (ok st)
  crashed :
      (bs : Bytes)
      → length bs ≡ 5
      → parse_tls_sni bs ≡ err index_error
      → Settled client (err index_error)

-- What `_strip_proxy_protocol` gives: bytes to go on with, or a connection that is settled.
data Stripped (client : Connection) : Result (Step × Bool) → Type 0 where
  going :
      (st : Step)
      → st.client.close ≡ client.close
      → st.client.stale ≡ client.stale
      → 0 < length st.client.buffer
      → Stripped client (ok (st, true))
  settled : (st : Step) → Settled client (ok st) → Stripped client (ok (st, false))

module _ (client : Connection) where
  closed-Settled :
      (c : Connection) (shutdown : Bool) (turns : ℕ) → Settled client (ok (closed shutdown c turns))
  closed-Settled c shutdown turns =
      ended (closed shutdown c turns) (close_socket shutdown) refl tt refl

  if-Settled :
      (b : Bool) (r s : Result Step)
      → Settled client r
      → Settled client s
      → Settled client (if b then r else s)
  if-Settled true r s p q = p
  if-Settled false r s p q = q

  go-Stripped :
      (st : Step)
      → st.client.close ≡ client.close
      → st.client.stale ≡ client.stale
      → st.actions ≡ []
      → Stripped client (ok (st, is_nonempty st.client.buffer))
  go-Stripped st e s n = elim (Bool-cases (is_nonempty st.client.buffer)) [
    | inl some_left ↦ rw some_left (going st e s (ground arith))
    | inr none_left ↦ rw none_left (settled st (waiting st e s n))
  ]

  if-Stripped :
      (b : Bool) (r s : Result (Step × Bool))
      → Stripped client r
      → Stripped client s
      → Stripped client (if b then r else s)
  if-Stripped true r s p q = p
  if-Stripped false r s p q = q

  strip_parsed-Stripped :
      (turns : ℕ) (r : Result (Option ProxyProtocolHeader))
      → Verdict client.buffer r
      → Stripped client (strip_parsed client turns r)
  unfolding strip_parsed catches_parse_proxy
  strip_parsed-Stripped turns r absent =
      go-Stripped (step (record client { proxy_done = true }) [] turns) refl refl refl
  strip_parsed-Stripped turns r (present h l) =
      go-Stripped
        (step
          (record client {
            proxy_done = true;
            buffer = drop h.size client.buffer;
            peer_address = h.source;
          })
          [] turns)
        refl refl refl
  strip_parsed-Stripped turns r malformed = settled _ (closed-Settled client true turns)
  strip_parsed-Stripped turns r unfinished =
      if-Stripped _ _ _ (settled _ (closed-Settled client true turns))
        (settled _ (waiting (step client [] turns) refl refl refl))

  strip-Stripped :
      (proxy_protocol : Bool) (turns : ℕ)
      → 0 < length client.buffer
      → Stripped client (strip_proxy_protocol proxy_protocol client turns)
  unfolding strip_proxy_protocol
  strip-Stripped proxy_protocol turns l =
      if-Stripped (not proxy_protocol || client.proxy_done) _ _
        (going (step client [] turns) refl refl l)
        (strip_parsed-Stripped turns _ (parse_proxy_protocol_header-Verdict client.buffer))

  module _ (workers : List (Text → Bool)) (c : Connection) (turns : ℕ) (e : c.close ≡ client.close)
      (s : c.stale ≡ client.stale) where
    distribute-Settled :
        (hostname : Text) (m : Option ℕ)
        → Settled client (ok (distribute workers c turns hostname m))
    unfolding distribute
    distribute-Settled hostname (some i) =
        ended _ (handover i c.buffer (some hostname) c.peer_address) refl tt refl
    distribute-Settled hostname none = closed-Settled c true turns

    route-Settled :
        {S : Type 0} (r : Result Text) → Parsed S r → Settled client (route workers c turns r)
    unfolding route catches_parse_sni
    route-Settled r (parsed name) = distribute-Settled name (responsible workers name 0)
    route-Settled r refused = closed-Settled c true turns
    route-Settled r (incomplete _) =
        if-Settled _ _ _ (closed-Settled c true turns) (waiting (step c [] turns) e s refl)

    route_five :
        parse_tls_sni c.buffer ≡ err index_error
        → length c.buffer ≡ 5
        → Settled client (route workers c turns (parse_tls_sni c.buffer))
    unfolding route catches_parse_sni
    route_five f l = rw f (crashed c.buffer l f)

    route_all : Settled client (route workers c turns (parse_tls_sni c.buffer))
    route_all = elim (ℕ_discrete (length c.buffer) 5) [
      | yes five ↦ elim (parse_tls_sni-five c.buffer five) [
        | inl p ↦ route-Settled _ p
        | inr f ↦ route_five f five
      ]
      | no other ↦ route-Settled _ (parse_tls_sni-Parsed c.buffer other)
    ]

    select-Settled : 0 < length c.buffer → Settled client (select workers c turns)
    unfolding select
    select-Settled l =
        let (b, e0) = at-lt c.buffer 0 l in
        if-Settled (starts_with c.buffer token_prefix) _ _
          (ended _ (handover (turns % length workers) c.buffer none none) refl tt refl)
          (rw e0 (if-Settled (b == 0x16) _ _ route_all (closed-Settled c true turns)))

  select_if-Settled :
      (workers : List (Text → Bool)) (m : Result (Step × Bool))
      → Stripped client m
      → Settled client (m >>= select_if workers)
  unfolding select_if
  select_if-Settled workers m (going st e s l) = select-Settled workers st.client st.turns e s l
  select_if-Settled workers m (settled st h) = h

pub process-Settled :
    (workers : List (Text → Bool)) (proxy_protocol : Bool) (client : Connection) (turns : ℕ)
    (received : Option Bytes)
    → Settled client (process workers proxy_protocol client turns received)
unfolding process
process-Settled workers proxy_protocol client turns none = closed-Settled client client false turns
process-Settled workers proxy_protocol client turns (some []) =
    closed-Settled client client true turns
process-Settled workers proxy_protocol client turns (some (b ∷ bs)) =
    let filled = record client { buffer = client.buffer ++ (b ∷ bs) } in
    weaken _ (
      select_if-Settled filled workers _ (
        strip-Stripped filled proxy_protocol turns
          (omega (arith, length-append client.buffer (b ∷ bs)))))
  where
    weaken :
        (m : Result Step)
        → Settled (record client { buffer = client.buffer ++ (b ∷ bs) }) m
        → Settled client m
    weaken m (waiting st e s n) = waiting st e s n
    weaken m (ended st last e f a) = ended st last e f a
    weaken m (crashed bs l e) = crashed bs l e
