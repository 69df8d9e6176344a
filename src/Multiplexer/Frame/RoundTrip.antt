-- ===== src/Multiplexer/Frame/RoundTrip.antt =====
-- What one end writes, the other end reads: one frame, and any sequence of frames.
use snitun.Prelude.{
  ℕ, suc, ◌+◌, ◌-◌, ◌%◌, ◌^◌, ◌≤◌, ◌<◌, ◌≡◌, refl, ap, ◌∙◌, true, false, some, [], ◌∷◌, ◌++◌, arith,
  ◌==◌, length, length-append, take-append_length, drop-append_length, le→leb, le→ltb_not,
  Bool-cases, inl, inr, append_assoc, lt→ltb,
}
use snitun.Exceptions.{ok}
use snitun.Bytes.{Bytes, to_bytes, from_bytes, length-to_bytes, from_bytes-to_bytes}
use snitun.Message.{Header, MultiplexerMessage, unpack, header_size}
use snitun.Message.RoundTrip.{IsHeader, unpack-pack}
use snitun.Crypto.{
  Primitives, CryptoTransport, cbc, gcm, gcm_siv, decrypt, overhead, gcm_nonce_size,
}
use snitun.Crypto.Units.{Laws, InSync, HasNonces, decrypt-encrypt}
use snitun.Multiplexer.Frame.{
  Entropy, is_encrypted, header_of, body_of, write_frame, readexactly, read_body, read_frame,
}

-- `os.urandom` returns as many bytes as it is asked for.
pub record IsEntropy (e : Entropy) : Type 0 where
  pub pad : (n : ℕ) → length (e.pad n) ≡ n
  pub header_nonce : length e.header_nonce ≡ gcm_nonce_size
  pub data_nonce : length e.data_nonce ≡ gcm_nonce_size

-- A message that fits its frame; data that is encrypted is whole blocks.
pub record Fits (version : ℕ) (m : MultiplexerMessage) : Type 0 where
  pub id : m.id < 256 ^ 16
  pub flow_type : m.flow_type < 256
  pub size : length m.payload < 2 ^ 32
  pub extra : length m.extra ≤ 11
  pub blocks : is_encrypted version m.flow_type ≡ true → length m.payload % 16 ≡ 0

-- The message as it arrives: `extra` is filled up.
unfoldable pub arrived : Entropy → MultiplexerMessage → MultiplexerMessage
arrived e m = record m { extra = m.extra ++ e.pad (11 - length m.extra) }

abbrev fields : Entropy → MultiplexerMessage → Header
fields e m = record {
  id = to_bytes 16 m.id;
  flow_type = m.flow_type;
  size = length m.payload;
  extra = m.extra ++ e.pad (11 - length m.extra);
}

readexactly-append :
    (n : ℕ) (xs ys : Bytes) → length xs ≡ n → readexactly n (xs ++ ys) ≡ ok (xs, ys)
unfolding readexactly
readexactly-append n xs ys h = rw (
  le→leb n (length (xs ++ ys)) (omega (arith, length-append xs ys)),
  take-append_length n xs ys h,
  drop-append_length n xs ys h,
)

module _ (e : Entropy) (ie : IsEntropy e) (version : ℕ) (m : MultiplexerMessage)
    (f : Fits version m) where
  fields-IsHeader : IsHeader (fields e m)
  fields-IsHeader = record {
    id = length-to_bytes 16 m.id;
    flow_type = f.flow_type;
    size = f.size;
    extra = omega (
      arith,
      length-append m.extra (e.pad (11 - length m.extra)),
      ie.pad (11 - length m.extra),
      f.extra,
    );
  }

  header_of-eq :
      (header : Bytes) × (header_of e m ≡ ok header)
      × (length header ≡ 32)
      × (unpack header ≡ some (fields e m))
  unfolding header_of
  header_of-eq =
      let (header, packed, size, unpacked) = unpack-pack (fields e m) fields-IsHeader in
      (header, rw (le→ltb_not 11 (length m.extra) f.extra, packed), size, unpacked)

HasNonces-less : (k : ℕ) (s : CryptoTransport) → HasNonces (suc k) s → HasNonces k s
HasNonces-less k (cbc _ _ _ _) h = tt
HasNonces-less k (gcm _ _ _) h = omega arith
HasNonces-less k (gcm_siv _) h = tt

HasNonces-one : (k : ℕ) (s : CryptoTransport) → HasNonces (suc k) s → HasNonces 1 s
HasNonces-one k (cbc _ _ _ _) h = tt
HasNonces-one k (gcm _ _ _) h = omega arith
HasNonces-one k (gcm_siv _) h = tt

module _ (p : Primitives) (version : ℕ) (r : CryptoTransport) (h : Header) where
  read_body_sealed :
      (w rest payload : Bytes) (r' : CryptoTransport)
      → (h.size == 0) ≡ false
      → is_encrypted version h.flow_type ≡ true
      → length w ≡ h.size + overhead r
      → decrypt p r w ≡ ok (payload, r')
      → read_body p version r h (w ++ rest) ≡ ok (payload, r', rest)
  unfolding read_body
  read_body_sealed w rest payload r' z c n d =
      rw (z, c) (rw (readexactly-append (h.size + overhead r) w rest n) (rw d))

  read_body_plain :
      (payload rest : Bytes)
      → (h.size == 0) ≡ false
      → is_encrypted version h.flow_type ≡ false
      → length payload ≡ h.size
      → read_body p version r h (payload ++ rest) ≡ ok (payload, r, rest)
  unfolding read_body
  read_body_plain payload rest z c n = rw (z, c) (rw (readexactly-append h.size payload rest n))

  read_body_empty :
      (payload rest : Bytes)
      → length payload ≡ h.size
      → h.size ≡ 0
      → read_body p version r h (payload ++ rest) ≡ ok (payload, r, rest)
  unfolding read_body
  read_body_empty [] rest n z = rw z
  read_body_empty (b ∷ bs) rest n z = absurd (omega arith)

-- A frame of a header unit `w` and a body, from what its parts read as.
read_frame-parts :
    (p : Primitives) (version : ℕ) (r r' r'' : CryptoTransport) (w body rest header payload : Bytes)
    (h : Header)
    → length w ≡ header_size + overhead r
    → decrypt p r w ≡ ok (header, r')
    → unpack header ≡ some h
    → read_body p version r' h (body ++ rest) ≡ ok (payload, r'', rest)
    → read_frame p version r ((w ++ body) ++ rest)
      ≡ ok (record {
        message = some (record {
          id = from_bytes h.id;
          flow_type = h.flow_type;
          payload = payload;
          extra = h.extra;
        });
        transport = r'';
        rest = rest;
      })
unfolding read_frame
read_frame-parts p version r r' r'' w body rest header payload h n opened unpacked read =
    rw (append_assoc w body rest) (
      rw (readexactly-append (header_size + overhead r) w (body ++ rest) n)
        (rw opened (rw unpacked (rw read))))

module _ {p : Primitives} (l : Laws p) where
  -- The body of a frame, read behind its header.
  abbrev BodyRead : Entropy → ℕ → CryptoTransport → CryptoTransport → MultiplexerMessage → Type 0
  BodyRead e version s r m =
      (body : Bytes) × (s' r' : CryptoTransport) × (body_of p e version s m ≡ ok (body, s'))
      × ((rest : Bytes)
          → read_body p version r (fields e m) (body ++ rest) ≡ ok (m.payload, r', rest))
      × InSync l s' r'
      × ((k : ℕ) → HasNonces (suc k) s → HasNonces k s')

  body-BodyRead :
      (e : Entropy)
      → IsEntropy e
      → (version : ℕ) (m : MultiplexerMessage) → Fits version m
      → (s r : CryptoTransport) → InSync l s r
      → HasNonces 1 s
      → BodyRead e version s r m
  unfolding body_of
  body-BodyRead e ie version m f s r sync n = elim (Bool-cases (length m.payload == 0)) [
    | inl z ↦
        let none_left : length m.payload ≡ 0 = ground arith in
        (
          m.payload,
          s,
          r,
          rw (le→ltb_not 0 (length m.payload) (omega arith)) (ground arith),
          λ rest. read_body_empty p version r (fields e m) m.payload rest refl none_left,
          sync,
          λ k. HasNonces-less k s,
        )
    | inr z ↦ elim (Bool-cases (is_encrypted version m.flow_type)) [
      | inl c ↦
          let (w, s', sent, (r', opened, sync', size), keep) =
            decrypt-encrypt l s r e.data_nonce m.payload sync n ie.data_nonce (f.blocks c) in
          (
            w,
            s',
            r',
            rw (c, lt→ltb 0 (length m.payload) (ground arith)) sent,
            λ rest. read_body_sealed p version r (fields e m) w rest m.payload r' z c size opened,
            sync',
            keep,
          )
      | inr c ↦ (
        m.payload,
        s,
        r,
        rw c,
        λ rest. read_body_plain p version r (fields e m) m.payload rest z c refl,
        sync,
        λ k. HasNonces-less k s,
      )
    ]
  ]

  -- A frame that is written, and read with whatever follows it.
  abbrev pub FrameRead :
      Entropy → ℕ → CryptoTransport → CryptoTransport → MultiplexerMessage → Type 0
  FrameRead e version s r m =
      (w : Bytes) × (s' r' : CryptoTransport) × (write_frame p e version s m ≡ ok (w, s'))
      × ((rest : Bytes)
          → read_frame p version r (w ++ rest)
            ≡ ok (record { message = some (arrived e m); transport = r'; rest = rest }))
      × InSync l s' r'
      × ((k : ℕ) → HasNonces (suc (suc k)) s → HasNonces k s')

  -- Whatever the cipher and the kind of message, the frame that one end writes is read by the other
  -- end as that message, however much follows it on the stream, and the two transports stay in step.
  -- The message fits its frame, the sender has two nonces left, and `os.urandom` returns as many
  -- bytes as it is asked for.
  pub read_frame-write_frame :
      (e : Entropy) (version : ℕ) (s r : CryptoTransport) (m : MultiplexerMessage)
      → IsEntropy e
      → Fits version m
      → InSync l s r
      → HasNonces 2 s
      → FrameRead e version s r m
  unfolding write_frame arrived
  read_frame-write_frame e version s r m ie f sync n =
      let (header, made, size, unpacked) = header_of-eq e ie version m f in
      let (w, s', sent, (r', opened, sync', length_w), keep) =
        decrypt-encrypt l s r e.header_nonce header sync (HasNonces-one 1 s n) ie.header_nonce
          (omega arith) in
      let (body, s'', r'', sent', read', sync'', keep') =
        body-BodyRead e ie version m f s' r' sync' (keep 1 n) in
      (
        w ++ body,
        s'',
        r'',
        rw made (rw sent (rw sent')),
        λ rest.
            read_frame-parts p version r r' r'' w body rest header m.payload (fields e m)
              (omega arith) opened unpacked (read' rest)
            ∙ ap
                (λ (id : ℕ). ok (record {
                  message = some (record {
                    id = id;
                    flow_type = m.flow_type;
                    payload = m.payload;
                    extra = m.extra ++ e.pad (11 - length m.extra);
                  });
                  transport = r'';
                  rest = rest;
                }))
                (from_bytes-to_bytes 16 m.id f.id),
        sync'',
        λ k h. keep' k (keep (suc k) h),
      )
