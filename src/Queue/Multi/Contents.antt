-- ===== src/Queue/Multi/Contents.antt =====
-- What a channel's queue holds, the order as a list without repetition, and what the steps change.
use snitun.Prelude.{
  ℕ, ◌≡◌, refl, true, false, ◌||◌, none, some, List, [], ◌∷◌, ◌++◌, arith, ◌==◌, if◌then◌else◌,
  ==_iff, Bool-cases, Option-cases, inl, inr,
}
use snitun.Message.{ChannelId}
use snitun.Queue.Items.{Item}
use snitun.Queue.Multi.State.{
  MultiQueue, contains, enlist, is_empty, put_item, get_item, delete_channel,
}

-- The messages of a channel, oldest first; none for a channel that is not there.
unfoldable pub contents : MultiQueue → ChannelId → List Item
contents q id = elim (q.channels id) [ none ↦ [] | some ref ↦ (q.heap ref).queue ]

pub contents_of :
    (q : MultiQueue) (id ref : ℕ) → q.channels id ≡ some ref → contents q id ≡ (q.heap ref).queue
unfolding contents
contents_of q id ref e = rw (e, contents)

pub contents_missing : (q : MultiQueue) (id : ℕ) → q.channels id ≡ none → contents q id ≡ []
unfolding contents
contents_missing q id e = rw (e, contents)

-- No two channels share an object.
abbrev pub AreDistinct : MultiQueue → Type 0
AreDistinct q = (i j ref : ℕ) → q.channels i ≡ some ref → q.channels j ≡ some ref → i ≡ j

abbrev pub Distinct : List ChannelId → Type 0
Distinct [] = Unit
Distinct (id ∷ rest) = (contains id rest ≡ false) × Distinct rest

pub contains-append :
    (j id : ChannelId) (order : List ChannelId)
    → contains j (order ++ id ∷ []) ≡ (id == j || contains j order)
unfolding contains
contains-append j id [] = refl
contains-append j id (first ∷ rest) = ground (arith, contains-append j id rest)

pub contains-enlist :
    (j id : ChannelId) (order : List ChannelId)
    → contains j (enlist order id) ≡ (id == j || contains j order)
unfolding enlist
contains-enlist j id order = elim (Bool-cases (contains id order)) [
  | inl e ↦
      rw e (elim (Bool-cases (id == j)) [ inl s ↦ ground (arith, ==_iff id j) | inr d ↦ rw d ])
  | inr e ↦ rw e (contains-append j id order)
]

Distinct-append :
    (id : ChannelId) (order : List ChannelId)
    → contains id order ≡ false
    → Distinct order
    → Distinct (order ++ id ∷ [])
unfolding contains
Distinct-append id [] h d = (refl, tt)
Distinct-append id (first ∷ rest) h d =
    (ground (arith, contains-append first id rest), Distinct-append id rest (ground arith) d.1)

pub Distinct-enlist :
    (id : ChannelId) (order : List ChannelId) → Distinct order → Distinct (enlist order id)
unfolding enlist
Distinct-enlist id order d = elim (Bool-cases (contains id order)) [
  | inl e ↦ rw e d
  | inr e ↦ rw e (Distinct-append id order e d)
]

pub is_empty→nil {ℓ} : {A : Type ℓ} (xs : List A) → is_empty xs ≡ true → xs ≡ []
unfolding is_empty
is_empty→nil [] e = refl
is_empty→nil (x ∷ xs) e = cc

pub is_empty-append : (items : List Item) (item : Item) → is_empty (items ++ item ∷ []) ≡ false
unfolding is_empty
is_empty-append [] item = refl
is_empty-append (first ∷ rest) item = refl

-- A put appends to its channel and leaves the others.
pub contents-put_item :
    (q : MultiQueue) (id ref : ℕ) (item : Item) (j : ℕ)
    → AreDistinct q
    → q.channels id ≡ some ref
    → contents (put_item q id ref item).0 j
      ≡ (if id == j then contents q id ++ item ∷ [] else contents q j)
unfolding put_item contents
contents-put_item q id ref item j d e = elim (Option-cases (q.channels j)) [
  | inl n ↦ ground arith
  | inr (r, s) ↦ ground (arith, d id j ref e)
]

-- A get leaves the rest of its channel, and the others as they were.
pub contents-get_item :
    (q : MultiQueue) (id ref : ℕ) (rest : List ChannelId) (item : Item) (items : List Item) (j : ℕ)
    → AreDistinct q
    → q.channels id ≡ some ref
    → contents (get_item q id ref rest item items).0 j ≡ (if id == j then items else contents q j)
unfolding get_item contents
contents-get_item q id ref rest item items j d e = elim (Option-cases (q.channels j)) [
  | inl n ↦ ground arith
  | inr (r, s) ↦ ground (arith, d id j ref e)
]

-- A deleted channel has no messages, or keeps them until they are sent.
pub contents-delete_channel :
    (q : MultiQueue) (id j : ℕ) → AreDistinct q → contents (delete_channel q id) j ≡ contents q j
unfolding delete_channel contents
contents-delete_channel q id j d = elim (Option-cases (q.channels id)) [
  | inl n ↦ ground arith
  | inr (r, s) ↦ elim (Option-cases (q.channels j)) [
    | inl n ↦ ground arith
    | inr (t, u) ↦ ground (arith, d id j r s)
  ]
]
