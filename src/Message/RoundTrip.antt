-- ===== src/Message/RoundTrip.antt =====
-- `HEADER_STRUCT.pack` and `HEADER_STRUCT.unpack` are inverse to one another.
use snitun.Prelude.{
  ℕ, ◌^◌, ◌<◌, ◌≡◌, some, [], ◌∷◌, ◌++◌, arith, length, replicate, length-append, length-take,
  length-replicate, take-append_length, drop-append_length, lt→ltb, ◌∙◌, subst, take-append-drop,
  length-drop, All-take, All-drop,
}
use snitun.Bytes.{
  Bytes, from_bytes, to_bytes, IsBytes, from_bytes-to_bytes, length-to_bytes, from_bytes-lt,
  to_bytes-from_bytes, IsByte,
}
use snitun.Message.{Header, fit, pack, unpack, take, drop}

-- A header whose fields have the sizes of the frame layout.
pub record IsHeader (h : Header) : Type 0 where
  pub id : length h.id ≡ 16
  pub flow_type : h.flow_type < 256
  pub size : h.size < 2 ^ 32
  pub extra : length h.extra ≡ 11

pub length-fit : (n : ℕ) (bs : Bytes) → length (fit n bs) ≡ n
unfolding fit
length-fit n bs = omega (
  arith,
  length-take n (bs ++ replicate n 0),
  length-append bs (replicate n 0),
  length-replicate {A = ℕ} n 0,
)

pub fit_exact : (n : ℕ) (bs : Bytes) → length bs ≡ n → fit n bs ≡ bs
unfolding fit
fit_exact n bs h = take-append_length n bs (replicate n 0) h

from_bytes_one : (b : ℕ) → from_bytes (b ∷ []) ≡ b
from_bytes_one b = unfold from_bytes in (omega arith)

abbrev layout : Bytes → ℕ → Bytes → Bytes → Bytes
layout i f s e = i ++ f ∷ (s ++ e)

module _ (i : Bytes) (f : ℕ) (s e : Bytes) (hi : length i ≡ 16) (hs : length s ≡ 4)
    (he : length e ≡ 11) where
  length-layout : length (layout i f s e) ≡ 32
  length-layout = omega (arith, length-append i (f ∷ (s ++ e)), length-append s e)

  unpack-layout :
      unpack (layout i f s e)
      ≡ some (record { id = i; flow_type = f; size = from_bytes s; extra = e })
  unfolding unpack
  unpack-layout =
      rw
        (
          length-layout,
          take-append_length 16 i (f ∷ (s ++ e)) hi,
          drop-append_length 16 i (f ∷ (s ++ e)) hi,
        )
        (rw (take-append_length 4 s e hs, drop-append_length 4 s e hs, from_bytes_one f))

abbrev packed : Header → Bytes
packed h = layout (fit 16 h.id) h.flow_type (to_bytes 4 h.size) (fit 11 h.extra)

pack-eq : (h : Header) → h.flow_type < 256 → h.size < 2 ^ 32 → pack h ≡ some (packed h)
unfolding pack
pack-eq h f s = rw (lt→ltb h.flow_type 256 f, lt→ltb h.size (2 ^ 32) s)

-- A header with fields of the right sizes packs to 32 bytes, which unpack to it.
pub unpack-pack :
    (h : Header)
    → IsHeader h
    → (bs : Bytes) × (pack h ≡ some bs) × (length bs ≡ 32) × (unpack bs ≡ some h)
unpack-pack h v =
    let size_bytes = length-to_bytes 4 h.size in
    (
      packed h,
      pack-eq h v.flow_type v.size,
      length-layout _ _ _ _ (length-fit 16 h.id) size_bytes (length-fit 11 h.extra),
      unpack-layout _ _ _ _ (length-fit 16 h.id) size_bytes (length-fit 11 h.extra) ∙ fields,
    )
  where
    fields :
        some (record {
          id = fit 16 h.id;
          flow_type = h.flow_type;
          size = from_bytes (to_bytes 4 h.size);
          extra = fit 11 h.extra;
        })
        ≡ some h
    fields =
        rw (
          fit_exact 16 h.id v.id,
          fit_exact 11 h.extra v.extra,
          from_bytes-to_bytes 4 h.size v.size,
        )

module _ (i : Bytes) (f : ℕ) (s e : Bytes) (hi : length i ≡ 16) (hs : length s ≡ 4)
    (he : length e ≡ 11) where
  pack-layout :
      f < 256
      → IsBytes s
      → pack (record { id = i; flow_type = f; size = from_bytes s; extra = e })
        ≡ some (layout i f s e)
  pack-layout hf bs =
      pack-eq _ hf (from_bytes-lt 4 s hs bs)
      ∙ rw (fit_exact 16 i hi, fit_exact 11 e he, to_bytes-from_bytes 4 s hs bs)

  repack-layout :
      f < 256
      → IsBytes s
      → (h : Header) × (unpack (layout i f s e) ≡ some h)
        × IsHeader h
        × (pack h ≡ some (layout i f s e))
  repack-layout hf bs = (
    record { id = i; flow_type = f; size = from_bytes s; extra = e },
    unpack-layout i f s e hi hs he,
    record { id = hi; flow_type = hf; size = from_bytes-lt 4 s hs bs; extra = he },
    pack-layout hf bs,
  )

abbrev Repacks : Bytes → Type 0
Repacks bs = (h : Header) × (unpack bs ≡ some h) × IsHeader h × (pack h ≡ some bs)

repack_rest : (i r : Bytes) → length i ≡ 16 → length r ≡ 16 → IsBytes r → Repacks (i ++ r)
repack_rest i [] hi hr b = absurd (omega arith)
repack_rest i (f ∷ r) hi hr b =
    subst (λ (t : Bytes). Repacks (i ++ f ∷ t)) (take-append-drop 4 r)
      (repack-layout i f (take 4 r) (drop 4 r) hi (omega (arith, length-take 4 r))
        (omega (arith, length-drop 4 r)) b.0 (All-take IsByte 4 r b.1))

-- Any 32 bytes unpack to a header with fields of the right sizes, and pack again to themselves.
pub pack-unpack :
    (bs : Bytes)
    → IsBytes bs
    → length bs ≡ 32
    → (h : Header) × (unpack bs ≡ some h) × IsHeader h × (pack h ≡ some bs)
pack-unpack bs b l = subst Repacks (take-append-drop 16 bs) (
    repack_rest (take 16 bs) (drop 16 bs) (omega (arith, length-take 16 bs))
      (omega (arith, length-drop 16 bs)) (All-drop IsByte 16 bs b))
