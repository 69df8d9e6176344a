-- ===== src/Crypto/Directions.antt =====
-- The two directions of a session with one cipher (snitun/multiplexer/crypto.py): one does not disturb the other.
use snitun.Prelude.{ℕ, ◌≡◌, ◌++◌, take, drop}
use snitun.Bytes.{Bytes}
use snitun.Exceptions.{Result, ok, >>=-eq-ok, or_raise, transport_decrypt}
use snitun.Crypto.{
  Primitives, CryptoTransport, cbc, gcm, gcm_siv, encrypt, decrypt, next_nonce, gcm_nonce_size,
}
use snitun.Crypto.Units.{Laws, InSync, HasNonces}

pub ok-snd :
    {a b : Bytes} {c d : CryptoTransport}
    → ◌≡◌ {A = Result (Bytes × CryptoTransport)} (ok (a, c)) (ok (b, d))
    → c ≡ d
ok-snd e = cc

module _ {p : Primitives} (l : Laws p) where
  -- What `s` encrypts leaves it as able to open what `r` sends as it was.
  pub encrypt-InSync :
      (r s s' : CryptoTransport) (random unit w : Bytes)
      → InSync l r s
      → encrypt p random s unit ≡ ok (w, s')
      → InSync l r s'
  unfolding encrypt
  encrypt-InSync (cbc key iv e d) (cbc key' iv' e' d') s' random unit w h he = rw (← ok-snd he) h
  encrypt-InSync (gcm key prefix counter) (gcm key' prefix' counter') s' random unit w h he =
      let ((nonce, after), _, e) = >>=-eq-ok (next_nonce prefix' counter') _ he in rw (← ok-snd e) h
  encrypt-InSync (gcm_siv key) (gcm_siv key') s' random unit w h he = rw (← ok-snd he) h
  encrypt-InSync (cbc _ _ _ _) (gcm _ _ _) s' random unit w h he = elim h [ ]
  encrypt-InSync (cbc _ _ _ _) (gcm_siv _) s' random unit w h he = elim h [ ]
  encrypt-InSync (gcm _ _ _) (cbc _ _ _ _) s' random unit w h he = elim h [ ]
  encrypt-InSync (gcm _ _ _) (gcm_siv _) s' random unit w h he = elim h [ ]
  encrypt-InSync (gcm_siv _) (cbc _ _ _ _) s' random unit w h he = elim h [ ]
  encrypt-InSync (gcm_siv _) (gcm _ _ _) s' random unit w h he = elim h [ ]

  -- What `r` opens leaves it as able to send to `s` as it was.
  pub decrypt-InSync :
      (r s r' : CryptoTransport) (w plain : Bytes)
      → InSync l r s
      → decrypt p r w ≡ ok (plain, r')
      → InSync l r' s × ((k : ℕ) → HasNonces k r → HasNonces k r')
  unfolding decrypt
  decrypt-InSync (cbc key iv e d) (cbc key' iv' e' d') r' w plain h hd =
      rw (← ok-snd {a = p.cbc_decrypt key iv d w} {c = cbc key iv e (d ++ w)} hd) (h, λ k n. n)
  decrypt-InSync (gcm key prefix counter) (gcm key' prefix' counter') r' w plain h hd =
      let (opened, _, e) =
        >>=-eq-ok
          (or_raise (p.gcm_decrypt key (take gcm_nonce_size w) (drop gcm_nonce_size w))
            transport_decrypt)
          (λ (unit : Bytes). ok (unit, gcm key prefix counter)) hd in
      rw (← ok-snd {a = opened} {c = gcm key prefix counter} e) (h, λ k n. n)
  decrypt-InSync (gcm_siv key) (gcm_siv key') r' w plain h hd =
      let (opened, _, e) =
        >>=-eq-ok
          (or_raise (p.siv_decrypt key (take gcm_nonce_size w) (drop gcm_nonce_size w))
            transport_decrypt)
          (λ (unit : Bytes). ok (unit, gcm_siv key)) hd in
      rw (← ok-snd {a = opened} {c = gcm_siv key} e) (h, λ k n. n)
  decrypt-InSync (cbc _ _ _ _) (gcm _ _ _) r' w plain h hd = elim h [ ]
  decrypt-InSync (cbc _ _ _ _) (gcm_siv _) r' w plain h hd = elim h [ ]
  decrypt-InSync (gcm _ _ _) (cbc _ _ _ _) r' w plain h hd = elim h [ ]
  decrypt-InSync (gcm _ _ _) (gcm_siv _) r' w plain h hd = elim h [ ]
  decrypt-InSync (gcm_siv _) (cbc _ _ _ _) r' w plain h hd = elim h [ ]
  decrypt-InSync (gcm_siv _) (gcm _ _ _) r' w plain h hd = elim h [ ]
