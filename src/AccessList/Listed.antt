-- ===== src/AccessList/Listed.antt =====
-- An address matches the networks that were added last (snitun/client/access_list.py).
use snitun.Prelude.{
  ◌↔◌, ◌≡◌, refl, ap, ◌∙◌, ◌⊎◌, inl, inr, Bool, true, false, ◌&&◌, ◌||◌, List, [], ◌∷◌, ℕ, ◌==◌,
  ==_iff, Bool-cases, if◌then◌else◌, sym,
}
use snitun.Exceptions.{Result, ok, err}
use snitun.IpAddress.{IpAddress, v4, v6}
use snitun.AccessList.{
  AccessList, AccessListAction, allow, block, IpNetwork, ip_eq, network_eq, ip_network, contains,
  is_listed, discard, insert, added, add, removed, remove, matched, check_policy,
}

-- A change of the list: `add`, or else `remove`.
pub record Change : Type 0 where
  pub adds : Bool
  pub address : IpAddress
  pub prefix : ℕ

unfoldable pub apply : List Change → AccessList → AccessList
apply [] l = l
apply (c ∷ cs) l =
    apply cs (if c.adds then (add c.address c.prefix l).1 else (remove c.address c.prefix l).1)

-- Whether the last change of a network, if there is one, added it.
abbrev stays : Bool → IpNetwork → Result IpNetwork → Bool → Bool
stays adds n (ok m) before = if network_eq n m then adds else before
stays adds n (err e) before = before

abbrev pub last_adds : List Change → IpNetwork → Bool → Bool
last_adds [] n before = before
last_adds (c ∷ cs) n before = last_adds cs n (stays c.adds n (ip_network c.address c.prefix) before)

ip_eq_sound : (a b : IpAddress) → ip_eq a b ≡ true → a ≡ b
ip_eq_sound (v4 n) (v4 m) h = ap v4 ((==_iff n m).0 h)
ip_eq_sound (v6 n) (v6 m) h = ap v6 ((==_iff n m).0 h)
ip_eq_sound (v4 n) (v6 m) h = absurd (cc)
ip_eq_sound (v6 n) (v4 m) h = absurd (cc)

abbrev network : IpAddress → ℕ → IpNetwork
network a q = record { address = a; prefix = q }

&&-true : (a b : Bool) → (a && b) ≡ true → (a ≡ true) × (b ≡ true)
&&-true true b h = (refl, h)
&&-true false b h = absurd (cc)

network_eq_sound : (n m : IpNetwork) → network_eq n m ≡ true → n ≡ m
network_eq_sound n m h =
    let (e, e') = &&-true (ip_eq n.address m.address) (n.prefix == m.prefix) h in
    let a = ip_eq_sound n.address m.address e in
    let q = (==_iff n.prefix m.prefix).0 e' in
    ap (λ (x : IpAddress). network x n.prefix) a ∙ ap (network m.address) q

module _ (n m : IpNetwork) where
  is_listed-insert :
      (l : AccessList)
      → is_listed n (insert m l).networks
        ≡ (if network_eq n m then true else is_listed n l.networks)
  unfolding insert
  is_listed-insert l = go (Bool-cases (network_eq n m)) (Bool-cases (is_listed m l.networks))
    where
      go :
          (network_eq n m ≡ true) ⊎ (network_eq n m ≡ false)
          → (is_listed m l.networks ≡ true) ⊎ (is_listed m l.networks ≡ false)
          → is_listed n
              (if is_listed m l.networks
                then l
                else record l { networks = m ∷ l.networks }).networks
            ≡ (if network_eq n m then true else is_listed n l.networks)
      go (inl e) (inl t) = rw t (rw e (rw (network_eq_sound n m e) t))
      go (inl e) (inr t) = rw t (rw e refl)
      go (inr e) (inl t) = rw t (rw e refl)
      go (inr e) (inr t) = rw t (rw e refl)

  is_listed-discard :
      (ms : List IpNetwork)
      → is_listed n (discard m ms) ≡ (if network_eq n m then false else is_listed n ms)
  is_listed-discard [] = go (network_eq n m)
    where
      go : (b : Bool) → false ≡ (if b then false else false)
      go true = refl
      go false = refl
  is_listed-discard (k ∷ ks) =
      go (Bool-cases (network_eq n m)) (Bool-cases (network_eq m k)) (is_listed-discard ks)
    where
      go :
          (network_eq n m ≡ true) ⊎ (network_eq n m ≡ false)
          → (network_eq m k ≡ true) ⊎ (network_eq m k ≡ false)
          → is_listed n (discard m ks) ≡ (if network_eq n m then false else is_listed n ks)
          → is_listed n (if network_eq m k then discard m ks else k ∷ discard m ks)
            ≡ (if network_eq n m then false else network_eq n k || is_listed n ks)
      go (inl e) (inl t) h = rw t (rw e (rw e at h))
      go (inl e) (inr t) h =
          let away : network_eq n k ≡ false = rw (network_eq_sound n m e) t in
          rw t (rw e (rw away (rw e at h)))
      go (inr e) (inl t) h =
          let away : network_eq n k ≡ false = rw (← network_eq_sound m k t) e in
          rw t (rw e (rw away (rw e at h)))
      go (inr e) (inr t) h = rw t (rw e (ap (λ (x : Bool). network_eq n k || x) (rw e at h)))

module _ (n : IpNetwork) where
  is_listed-change :
      (c : Change) (l : AccessList)
      → is_listed n
          (if c.adds
            then (add c.address c.prefix l).1
            else (remove c.address c.prefix l).1).networks
        ≡ stays c.adds n (ip_network c.address c.prefix) (is_listed n l.networks)
  unfolding add remove
  is_listed-change c l = go c.adds (ip_network c.address c.prefix)
    where
      go :
          (adds : Bool) (r : Result IpNetwork)
          → is_listed n (if adds then (added l r).1 else (removed l r).1).networks
            ≡ stays adds n r (is_listed n l.networks)
      go true (ok m) = is_listed-insert n m l
      go true (err e) = refl
      go false (ok m) = is_listed-discard n m l.networks
      go false (err e) = refl

  is_listed-apply :
      (cs : List Change) (l : AccessList)
      → is_listed n (apply cs l).networks ≡ last_adds cs n (is_listed n l.networks)
  unfolding apply
  is_listed-apply [] l = refl
  is_listed-apply (c ∷ cs) l = is_listed-apply cs _ ∙ ap (last_adds cs n) (is_listed-change c l)

-- A network that is listed has the address.
abbrev Matches : IpAddress → List IpNetwork → Type 0
Matches ip ns = (n : IpNetwork) × (is_listed n ns ≡ true) × (contains ip n ≡ true)

ip_eq_refl : (a : IpAddress) → ip_eq a a ≡ true
ip_eq_refl (v4 n) = (==_iff n n).1 refl
ip_eq_refl (v6 n) = (==_iff n n).1 refl

network_eq_refl : (n : IpNetwork) → network_eq n n ≡ true
network_eq_refl n = rw (ip_eq_refl n.address) ((==_iff n.prefix n.prefix).1 refl)

||-true : (b : Bool) {c : Bool} → c ≡ true → (b || c) ≡ true
||-true true h = refl
||-true false h = h

matched-Matches : (ip : IpAddress) (ns : List IpNetwork) → matched ip ns ≡ true → Matches ip ns
unfolding matched
matched-Matches ip [] h = absurd (cc)
matched-Matches ip (n ∷ ns) h = elim (Bool-cases (contains ip n)) [
  | inl e ↦ (n, rw (network_eq_refl n) refl, e)
  | inr e ↦ let (m, l, c) = matched-Matches ip ns (rw e at h) in (m, ||-true (network_eq m n) l, c)
]

Matches-matched : (ip : IpAddress) (ns : List IpNetwork) → Matches ip ns → matched ip ns ≡ true
unfolding matched
Matches-matched ip [] (n, l, c) = absurd (cc)
Matches-matched ip (m ∷ ns) (n, l, c) = elim (Bool-cases (network_eq n m)) [
  | inl e ↦ rw (← network_eq_sound n m e) (rw c refl)
  | inr e ↦ ||-true (contains ip m) (Matches-matched ip ns (n, rw e at l, c))
]

-- A network whose last change added it has the address.
abbrev pub Admits : List Change → IpAddress → Type 0
Admits cs ip = (n : IpNetwork) × (last_adds cs n false ≡ true) × (contains ip n ≡ true)

abbrev pub new : AccessListAction → AccessList
new action = record { default_action = action; networks = [] }

change-default_action :
    (adds : Bool) (r : Result IpNetwork) (l : AccessList)
    → (if adds then (added l r).1 else (removed l r).1).default_action ≡ l.default_action
unfolding added removed insert
change-default_action true (ok m) l = go (is_listed m l.networks)
  where
    go :
        (b : Bool)
        → (if b then l else record l { networks = m ∷ l.networks }).default_action
          ≡ l.default_action
    go true = refl
    go false = refl
change-default_action true (err e) l = refl
change-default_action false (ok m) l = refl
change-default_action false (err e) l = refl

apply-default_action :
    (cs : List Change) (l : AccessList) → (apply cs l).default_action ≡ l.default_action
unfolding apply add remove
apply-default_action [] l = refl
apply-default_action (c ∷ cs) l =
    apply-default_action cs _ ∙ change-default_action c.adds (ip_network c.address c.prefix) l

module _ (cs : List Change) (ip : IpAddress) (action : AccessListAction) where
  matched-Admits : matched ip (apply cs (new action)).networks ≡ true → Admits cs ip
  matched-Admits h =
      let (n, l, c) = matched-Matches ip _ h in (n, sym (is_listed-apply n cs (new action)) ∙ l, c)

  Admits-matched : Admits cs ip → matched ip (apply cs (new action)).networks ≡ true
  Admits-matched (n, l, c) = Matches-matched ip _ (n, is_listed-apply n cs (new action) ∙ l, c)

-- Whatever networks are added and removed, in whatever order, a list that allows lets an address in
-- exactly if a network has it whose last change added it, and a list that blocks exactly if there is none.
pub check_policy-apply :
    (cs : List Change) (ip : IpAddress)
    → ((check_policy (apply cs (new allow)) ip ≡ true) ↔ Admits cs ip)
      × ((check_policy (apply cs (new block)) ip ≡ true) ↔ (¬ Admits cs ip))
unfolding check_policy
check_policy-apply cs ip = (
  rw (apply-default_action cs (new allow)) (matched-Admits cs ip allow, Admits-matched cs ip allow),
  rw (apply-default_action cs (new block)) (
    (λ h a. let t = Admits-matched cs ip block a in absurd (cc)),
    (λ no. elim (Bool-cases (matched ip (apply cs (new block)).networks)) [
      | inl t ↦ absurd (no (matched-Admits cs ip block t))
      | inr t ↦ rw t refl
    ]),
  ),
)
