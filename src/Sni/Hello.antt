-- ===== src/Sni/Hello.antt =====
-- A ClientHello that is well formed (RFC 8446, RFC 6066), and what `parse_tls_sni` (snitun/server/sni.py) reads of it.
use snitun.Prelude.{
  ℕ, zero, suc, ◌+◌, ◌-◌, ◌*◌, ◌/◌, ◌%◌, ◌≤◌, ◌<◌, ◌≡◌, refl, ap, ◌∙◌, subst, false, ◌&&◌, some,
  List, [], ◌∷◌, ◌++◌, arith, ◌==◌, length, length-append, lt→ltb, le→leb, le→ltb_not, append_assoc,
}
use snitun.Exceptions.{ok}
use snitun.Bytes.{Bytes, Text, decode_utf8}
use snitun.Sni.{
  at, word, host, skip, host_entry, go_host, host_loop, fuel, parse_host_name, server_name, other,
  extension, go_extension, extension_loop, finish, parse_extension, parse_client_hello,
  parse_handshake, parse_record, parse_tls_sni,
}
use snitun.Sni.Cursor.{At, At-moved, At-skip, At-length, at-At, word_bytes, word-At, take-At}

-- An extension of another type than the server name's.
pub record Other : Type 0 where
  pub type_high : ℕ
  pub type_low : ℕ
  pub content : Bytes
  pub foreign : (type_high == 0 && type_low == 0) ≡ false

other_bytes : Other → Bytes
other_bytes o = o.type_high ∷ o.type_low ∷ (word_bytes (length o.content) ++ o.content)

-- A name of another type than a host name's.
pub record OtherName : Type 0 where
  pub kind : ℕ
  pub content : Bytes
  pub foreign : (kind == 0) ≡ false

name_bytes : OtherName → Bytes
name_bytes n = n.kind ∷ (word_bytes (length n.content) ++ n.content)

concat : {A : Type 0} → (A → Bytes) → List A → Bytes
concat f [] = []
concat f (x ∷ xs) = f x ++ concat f xs

-- The fields of a ClientHello whose server name extension has a host name.
pub record ClientHello : Type 0 where
  pub major : ℕ
  pub minor : ℕ
  pub fixed : Bytes
  pub session : Bytes
  pub suites : Bytes
  pub methods : Bytes
  pub others : List Other
  pub names : List OtherName
  pub hostname : Bytes
  pub more_names : Bytes
  pub more_extensions : Bytes

names_bytes : ClientHello → Bytes
names_bytes h =
    concat name_bytes h.names
    ++ (0 ∷ (word_bytes (length h.hostname) ++ (h.hostname ++ h.more_names)))

server_name_bytes : ClientHello → Bytes
unfolding names_bytes
server_name_bytes h =
    0
    ∷ 0
    ∷ (word_bytes (2 + length (names_bytes h))
        ++ (word_bytes (length (names_bytes h)) ++ names_bytes h))

extensions_bytes : ClientHello → Bytes
extensions_bytes h = concat other_bytes h.others ++ (server_name_bytes h ++ h.more_extensions)

-- Behind the header of the record: the type of the handshake, and the `fixed` part with its length,
-- the version and the random bytes.
handshake_bytes : ClientHello → Bytes
handshake_bytes h =
    1
    ∷ (h.fixed
        ++ (length h.session
            ∷ (h.session
                ++ (word_bytes (length h.suites)
                    ++ (h.suites
                        ++ (length h.methods
                            ∷ (h.methods
                                ++ (word_bytes (length (extensions_bytes h))
                                    ++ extensions_bytes h))))))))

pub hello_bytes : ClientHello → Bytes
unfolding handshake_bytes
hello_bytes h =
    0x16 ∷ (3 + h.major) ∷ h.minor ∷ (word_bytes (length (handshake_bytes h)) ++ handshake_bytes h)

module _ (bs : Bytes) where
  host_entry-host :
      (pos : ℕ) (hostname rest : Bytes) (name : Text)
      → At bs pos (0 ∷ (word_bytes (length hostname) ++ (hostname ++ rest)))
      → decode_utf8 hostname ≡ some name
      → host_entry bs pos ≡ ok (host name)
  unfolding host_entry
  host_entry-host pos hostname rest name h d =
      rw (word-At bs pos 1 (length hostname) _ h refl refl)
        (rw (at_first h) (rw (take-At bs (pos + 3) _ hostname rest inner refl) (rw d refl)))
    where
      at_first :
          At bs pos (0 ∷ (word_bytes (length hostname) ++ (hostname ++ rest))) → at bs pos ≡ ok 0
      at_first h = let e : pos ≡ pos + 0 = omega arith in rw e (at-At bs pos 0 0 _ h refl)

      inner : At bs (pos + 3) (hostname ++ rest)
      inner = At-skip bs pos (0 ∷ word_bytes (length hostname)) (hostname ++ rest) h

  host_entry-skip :
      (pos : ℕ) (n : OtherName) (rest : Bytes)
      → At bs pos (name_bytes n ++ rest)
      → host_entry bs pos ≡ ok (skip (pos + 3 + length n.content))
  unfolding host_entry name_bytes
  host_entry-skip pos n rest h =
      let e : pos ≡ pos + 0 = omega arith in
      let first : at bs pos ≡ ok n.kind = rw e (at-At bs pos 0 n.kind _ h refl) in
      rw (word-At bs pos 1 (length n.content) _ h refl refl) (rw first (rw n.foreign refl))

  host_loop-host :
      (k pos : ℕ) (names : List OtherName) (hostname rest : Bytes) (name : Text)
      → length bs - pos < k
      → At bs pos
          (concat name_bytes names ++ (0 ∷ (word_bytes (length hostname) ++ (hostname ++ rest))))
      → 0 < length hostname
      → decode_utf8 hostname ≡ some name
      → host_loop k bs pos ≡ some (ok name)
  unfolding host_loop concat go_host name_bytes
  host_loop-host zero pos names hostname rest name f h p d = absurd (omega arith)
  host_loop-host (suc k) pos [] hostname rest name f h p d =
      let inside : pos + 3 < length bs =
        omega (arith, At-length bs pos _ h, length-append hostname rest) in
      rw (lt→ltb (pos + 3) (length bs) inside)
        (rw (host_entry-host pos hostname rest name h d) refl)
  host_loop-host (suc k) pos (n ∷ names) hostname rest name f h p d =
      let tail = 0 ∷ (word_bytes (length hostname) ++ (hostname ++ rest)) in
      let here : At bs pos (name_bytes n ++ (concat name_bytes names ++ tail)) =
        subst (At bs pos) (append_assoc (name_bytes n) (concat name_bytes names) tail) h in
      let next : At bs (pos + 3 + length n.content) (concat name_bytes names ++ tail) =
        At-moved bs _ _ _ (At-skip bs pos (name_bytes n) (concat name_bytes names ++ tail) here)
          (omega arith) in
      let inside : pos + 3 < length bs =
        omega (arith, At-length bs _ _ next, length-append (concat name_bytes names) tail) in
      rw (lt→ltb (pos + 3) (length bs) inside) (
        rw (host_entry-skip pos n (concat name_bytes names ++ tail) here) (
          host_loop-host k (pos + 3 + length n.content) names hostname rest name (omega arith) next
            p d))

  extension-server_name :
      (pos : ℕ) (rest : Bytes) → At bs pos (0 ∷ 0 ∷ rest) → extension bs pos ≡ ok server_name
  unfolding extension
  extension-server_name pos rest h =
      let e : pos ≡ pos + 0 = omega arith in
      let first : at bs pos ≡ ok 0 = rw e (at-At bs pos 0 0 _ h refl) in
      rw first (rw (at-At bs pos 1 0 _ h refl) refl)

  extension-other :
      (pos : ℕ) (o : Other) (rest : Bytes)
      → At bs pos (other_bytes o ++ rest)
      → extension bs pos ≡ ok (other (pos + 4 + length o.content))
  unfolding extension other_bytes
  extension-other pos o rest h =
      let e : pos ≡ pos + 0 = omega arith in
      let first : at bs pos ≡ ok o.type_high = rw e (at-At bs pos 0 o.type_high _ h refl) in
      rw first (
        rw (at-At bs pos 1 o.type_low _ h refl)
          (rw o.foreign (rw (word-At bs pos 2 (length o.content) _ h refl refl) refl)))

  -- The loop on the extensions, from what the host name's loop gives.
  extension_loop-server_name :
      (k pos : ℕ) (others : List Other) (rest : Bytes) (name : Text)
      → length bs - pos < k
      → At bs pos (concat other_bytes others ++ (0 ∷ 0 ∷ rest))
      → 2 ≤ length rest
      → ((pos : ℕ) → At bs pos (0 ∷ 0 ∷ rest) → parse_host_name bs (pos + 4) ≡ some (ok name))
      → extension_loop k bs pos ≡ some (ok name)
  unfolding extension_loop concat go_extension other_bytes
  extension_loop-server_name zero pos others rest name f h l named = absurd (omega arith)
  extension_loop-server_name (suc k) pos [] rest name f h l named =
      rw (le→leb (pos + 4) (length bs) (omega (arith, At-length bs pos _ h)))
        (rw (extension-server_name pos rest h) (named pos h))
  extension_loop-server_name (suc k) pos (o ∷ others) rest name f h l named =
      let tail = concat other_bytes others ++ (0 ∷ 0 ∷ rest) in
      let here : At bs pos (other_bytes o ++ tail) =
        subst (At bs pos) (append_assoc (other_bytes o) (concat other_bytes others) (0 ∷ 0 ∷ rest))
          h in
      let next : At bs (pos + 4 + length o.content) tail =
        At-moved bs _ _ _ (At-skip bs pos (other_bytes o) tail here) (omega arith) in
      let inside : pos + 4 ≤ length bs = omega (arith, At-length bs _ _ next) in
      rw (le→leb (pos + 4) (length bs) inside) (
        rw (extension-other pos o tail here) (
          extension_loop-server_name k (pos + 4 + length o.content) others rest name (omega arith)
            next l named))

-- A hello's fields that hold together: the fixed part's length, and a host name that is not empty.
pub record IsHello (h : ClientHello) (name : Text) : Type 0 where
  pub fixed : length h.fixed ≡ 37
  pub hostname : 0 < length h.hostname
  pub decoded : decode_utf8 h.hostname ≡ some name

module _ (h : ClientHello) (name : Text) (ih : IsHello h name) (bs : Bytes) where
  parse_host_name-names :
      (pos : ℕ) (rest : Bytes)
      → At bs pos (server_name_bytes h ++ rest)
      → parse_host_name bs (pos + 4) ≡ some (ok name)
  unfolding parse_host_name server_name_bytes names_bytes
  parse_host_name-names pos rest here =
      let names = concat name_bytes h.names in
      let own = 0 ∷ (word_bytes (length h.hostname) ++ (h.hostname ++ h.more_names)) in
      let front =
        0 ∷ 0 ∷ (word_bytes (2 + length (names_bytes h)) ++ word_bytes (length (names_bytes h))) in
      let behind : At bs (pos + 4 + 2) ((names ++ own) ++ rest) =
        At-moved bs _ _ _ (At-skip bs pos front ((names ++ own) ++ rest) here) (omega arith) in
      let apart : (names ++ own) ++ rest
          ≡ names
            ++ (0 ∷ (word_bytes (length h.hostname) ++ (h.hostname ++ (h.more_names ++ rest)))) =
        append_assoc names own rest
        ∙ ap (λ tail. names ++ (0 ∷ (word_bytes (length h.hostname) ++ tail)))
            (append_assoc h.hostname h.more_names rest) in
      host_loop-host bs (fuel bs) (pos + 4 + 2) h.names h.hostname (h.more_names ++ rest) name
        (omega arith) (subst (At bs (pos + 4 + 2)) apart behind) ih.hostname ih.decoded

  parse_extension-extensions :
      (pos : ℕ)
      → At bs pos (word_bytes (length (extensions_bytes h)) ++ extensions_bytes h)
      → parse_extension bs pos ≡ ok name
  unfolding parse_extension server_name_bytes extensions_bytes
  parse_extension-extensions pos here =
      let e : pos ≡ pos + 0 = omega arith in
      let size : word bs pos ≡ ok (length (extensions_bytes h)) =
        rw e (word-At bs pos 0 _ _ here refl refl) in
      rw size (
        rw
          (le→ltb_not (length bs) (pos + 2 + length (extensions_bytes h))
            (omega (arith, At-length bs pos _ here)))
          (ap finish (
            extension_loop-server_name bs (fuel bs) (pos + 2) h.others
              (word_bytes (2 + length (names_bytes h))
                ++ ((word_bytes (length (names_bytes h)) ++ names_bytes h) ++ h.more_extensions))
              name (omega arith)
              (At-skip bs pos (word_bytes (length (extensions_bytes h))) (extensions_bytes h) here)
              (omega arith) (λ pos here. parse_host_name-names pos h.more_extensions here))))

  parse_client_hello-hello : At bs 5 (handshake_bytes h) → parse_client_hello bs ≡ ok name
  unfolding parse_client_hello handshake_bytes
  parse_client_hello-hello here =
      let exts = word_bytes (length (extensions_bytes h)) ++ extensions_bytes h in
      let methods = length h.methods ∷ (h.methods ++ exts) in
      let suites = word_bytes (length h.suites) ++ (h.suites ++ methods) in
      let session = length h.session ∷ (h.session ++ suites) in
      let here : At bs 43 session =
        At-moved bs _ _ _ (At-skip bs 5 (1 ∷ h.fixed) session here) (omega (arith, ih.fixed)) in
      let here' : At bs (44 + length h.session) suites =
        At-moved bs _ _ _ (At-skip bs 43 (length h.session ∷ h.session) suites here)
          (omega arith) in
      let here'' : At bs (46 + length h.session + length h.suites) methods =
        At-moved bs _ _ _ (At-skip bs _ (word_bytes (length h.suites) ++ h.suites) methods here')
          (omega arith) in
      let last : At bs (47 + length h.session + length h.suites + length h.methods) exts =
        At-moved bs _ _ _ (At-skip bs _ (length h.methods ∷ h.methods) exts here'') (omega arith) in
      let e' : 44 + length h.session ≡ 44 + length h.session + 0 = omega arith in
      let suites_read : word bs (44 + length h.session) ≡ ok (length h.suites) =
        rw e' (word-At bs _ 0 _ _ here' refl refl) in
      let e'' : 46 + length h.session + length h.suites
          ≡ 46 + length h.session + length h.suites + 0 =
        omega arith in
      let methods_read : at bs (46 + length h.session + length h.suites) ≡ ok (length h.methods) =
        rw e'' (at-At bs _ 0 _ _ here'' refl) in
      rw (at-At bs 43 0 _ _ here refl) (
        rw suites_read (
          rw methods_read (
            rw
              (le→ltb_not (length bs)
                (47 + length h.session + length h.suites + length h.methods + 2)
                (omega (arith, At-length bs _ _ last)))
              (parse_extension-extensions _ last))))

-- The parser finds the host name of every ClientHello that is well formed, whatever the session, the
-- cipher suites, the compression methods, the extensions before it and after it, and the names of
-- other types before it. The fixed part has 37 bytes, and the host name is UTF-8 and not empty.
pub parse_tls_sni-hello_bytes :
    (h : ClientHello) (name : Text) → IsHello h name → parse_tls_sni (hello_bytes h) ≡ ok name
unfolding parse_tls_sni parse_record parse_handshake hello_bytes word at handshake_bytes
parse_tls_sni-hello_bytes h name ih =
    let front = 0x16 ∷ (3 + h.major) ∷ h.minor ∷ word_bytes (length (handshake_bytes h)) in
    let size : length (handshake_bytes h) / 256 * 256 + length (handshake_bytes h) % 256
        ≡ length (handshake_bytes h) =
      omega arith in
    rw (le→ltb_not (3 + h.major) 3 (omega arith)) (
      rw size (
        rw (le→ltb_not (length (hello_bytes h)) (length (handshake_bytes h) + 5) (omega arith)) (
          rw (le→ltb_not (length (hello_bytes h)) 5 (omega arith))
            (parse_client_hello-hello h name ih (hello_bytes h) (front, refl, refl)))))
