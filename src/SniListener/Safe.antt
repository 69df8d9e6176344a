-- ===== src/SniListener/Safe.antt =====
-- What `SNIProxy.handle_connection` (snitun/server/listener_sni.py) does, whatever the bytes of the client.
use snitun.Prelude.{
  ℕ, ◌≡◌, refl, sym, subst, Bool, true, false, Option, none, some, List, [], ◌∷◌, ◌++◌,
  if◌then◌else◌, Bool-cases, Option-cases, inl, inr, join, All, All-drop,
}
use snitun.Exceptions.{◌>>=◌, Result, ok, err, catches_parse_sni, catches_parse_proxy}
use snitun.Bytes.{Bytes, Text, IsByte, IsBytes}
use snitun.Sni.{parse_tls_sni}
use snitun.Sni.Total.{Parsed, parsed, refused as refuses, incomplete}
use snitun.Sni.Reader.{Given, payload_reader-Given}
use snitun.ProxyProtocol.{ProxyProtocolHeader, Answer}
use snitun.ProxyProtocol.Stream.{IsChunk, Outcome, size_of, read_proxy_protocol_header-Outcome}
use snitun.PeerManager.{PeerManager, Store, get_peer, peer_available, is_ready, is_ready_at}
use snitun.SniListener.{
  Fate, refused, proxied, Arrival, source_or, header_read, initial_of, strip_header, proxy_peer,
  to_peer, find_peer, named, read_hostname, hello_read, stripped, handle_connection,
}

-- The bytes of an arrival: what was read before, and the chunks, none of them empty.
abbrev pub IsArrival : Arrival → Type 0
IsArrival a = All IsChunk a.chunks × IsBytes (initial_of a ++ join a.chunks)

module _ (store : Store) (manager : PeerManager) where
  -- Nothing raised; and a peer that a connection is proxied to is ready.
  abbrev pub Handled : Result Fate → Type 0
  Handled (err e) = ⊥
  Handled (ok refused) = Unit
  Handled (ok (proxied peer client_hello address)) = is_ready (store peer) ≡ true

  if-Handled :
      (b : Bool) (r s : Result Fate)
      → (b ≡ true → Handled r)
      → Handled s
      → Handled (if b then r else s)
  if-Handled true r s h h' = h refl
  if-Handled false r s h h' = h'

  proxy_peer-Handled :
      (a : Arrival) (client_hello : Bytes) (peer : ℕ)
      → is_ready (store peer) ≡ true
      → Handled (ok (proxy_peer a client_hello peer))
  unfolding proxy_peer
  proxy_peer-Handled a client_hello peer e = elim (Option-cases a.peer_address) [
    | inr (address, given) ↦ rw given e
    | inl m ↦ elim (Option-cases a.peername) [
      | inr (address, read) ↦ rw (m, read) e
      | inl n ↦ rw (m, n) tt
    ]
  ]

  find_peer-Handled :
      (a : Arrival) (client_hello : Bytes) (hostname : Text)
      → Handled (find_peer store manager a client_hello hostname)
  unfolding find_peer peer_available get_peer is_ready_at to_peer
  find_peer-Handled a client_hello hostname =
      if-Handled (peer_available store hostname manager) _ _ (λ e. go (get_peer hostname manager) e)
        tt
    where
      go :
          (m : Option ℕ)
          → is_ready_at store m ≡ true
          → Handled (to_peer store manager a client_hello m)
      go none e = cc
      go (some peer) e = proxy_peer-Handled a client_hello peer e

  named-Handled :
      (a : Arrival) (client_hello : Bytes) (r : Result Text)
      → Parsed ⊥ r
      → Handled (named store manager a client_hello r)
  unfolding named catches_parse_sni
  named-Handled a client_hello r (parsed name) = find_peer-Handled a client_hello name
  named-Handled a client_hello r refuses = tt
  named-Handled a client_hello r (incomplete s) = absurd s

  hello_read-Handled :
      (a : Arrival) (initial : Bytes) (chunks : List Bytes) (r : Result (Option Bytes))
      → Given initial chunks r
      → Handled (r >>= hello_read store manager a)
  unfolding hello_read read_hostname
  hello_read-Handled a initial chunks (err e) h = absurd h
  hello_read-Handled a initial chunks (ok none) h = tt
  hello_read-Handled a initial chunks (ok (some [])) h = tt
  hello_read-Handled a initial chunks (ok (some (b ∷ bs))) h = elim (Option-cases a.sni) [
    | inl n ↦ simp n (named-Handled a (b ∷ bs) (parse_tls_sni (b ∷ bs)) h.fit)
    | inr (hostname, e) ↦ simp e (find_peer-Handled a (b ∷ bs) hostname)
  ]

  stripped-Handled :
      (a : Arrival)
      → IsBytes (initial_of a ++ join a.chunks)
      → Handled (stripped store manager (some a))
  unfolding stripped
  stripped-Handled a h =
      hello_read-Handled a (initial_of a) a.chunks _
        (payload_reader-Given (initial_of a) a.chunks h)

  header_read-Handled :
      (a : Arrival) (r : Result (Option ProxyProtocolHeader)) (answer : Option Answer)
      → IsBytes (join a.chunks)
      → Outcome (join a.chunks) r answer
      → Handled (header_read a answer >>= stripped store manager)
  unfolding header_read stripped catches_parse_proxy
  header_read-Handled a (ok h) answer bytes (left, rest, e, same) = rw e (
      stripped-Handled
        (record a {
          pre_read = some left;
          peer_address = source_or h a.peer_address;
          chunks = rest;
        })
        (subst IsBytes (sym same) (All-drop IsByte (size_of h) (join a.chunks) bytes)))
  header_read-Handled a (err x) answer bytes e = rw e tt

-- Whatever bytes the client sends, in whatever chunks, and whether or not a PROXY header is read before them,
-- `handle_connection` raises nothing, and a peer that it proxies the connection to is ready. Reads
-- neither raise nor time out.
pub handle_connection-Handled :
    (store : Store) (manager : PeerManager) (proxy_protocol : Bool) (a : Arrival)
    → IsArrival a
    → Handled store manager (handle_connection store manager proxy_protocol a)
unfolding handle_connection strip_header
handle_connection-Handled store manager proxy_protocol a (chunks, bytes) =
    elim (Option-cases a.pre_read) [
      | inr (given, e) ↦ simp e (stripped-Handled store manager a bytes)
      | inl n ↦ elim (Bool-cases proxy_protocol) [
        | inr off ↦ simp n (rw off (stripped-Handled store manager a bytes))
        | inl on ↦ simp n (
            rw on (
              header_read-Handled store manager a _ _ (rw n at bytes)
                (read_proxy_protocol_header-Outcome a.chunks chunks)))
      ]
    ]
