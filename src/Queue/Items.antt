-- ===== src/Queue/Items.antt =====
-- What the queues hold: messages, and `None` for the end of a channel. Their sizes and water marks.
use snitun.Prelude.{
  ℕ, ◌+◌, ◌-◌, ◌<◌, ◌≡◌, refl, Bool, true, false, not, ◌&&◌, Option, none, some, List, [], ◌∷◌,
  ◌++◌, arith, leb, if◌then◌else◌, length,
}
use snitun.Message.{MultiplexerMessage, header_size}

abbrev pub Item : Type 0
Item = Option MultiplexerMessage

-- `_effective_size`
unfoldable pub effective_size : Item → ℕ
effective_size none = 0
effective_size (some message) = header_size + length message.payload

-- The size of a whole queue.
unfoldable pub total_size : List Item → ℕ
total_size [] = 0
total_size (item ∷ items) = effective_size item + total_size items

pub total_size-cons :
    (item : Item) (items : List Item)
    → total_size (item ∷ items) ≡ effective_size item + total_size items
unfolding total_size
total_size-cons item items = refl

pub total_size-append :
    (items : List Item) (item : Item)
    → total_size (items ++ item ∷ []) ≡ total_size items + effective_size item
unfolding total_size
total_size-append [] item = omega arith
total_size-append (first ∷ items) item = omega (arith, total_size-append items item)

-- The water marks: a queue goes under water at the high mark and comes up at the low one.
pub record IsWatered (low high total : ℕ) (under_water : Bool) : Type 0 where
  pub above : under_water ≡ false → total < high
  pub below : under_water ≡ true → low < total

-- `if not under_water and total >= high`, on a put.
unfoldable pub sinks : Bool → ℕ → ℕ → Bool
sinks under_water total high = not under_water && leb high total

-- `if under_water and total <= low`, on a get.
unfoldable pub rises : Bool → ℕ → ℕ → Bool
rises under_water total low = under_water && leb total low

-- A callback reports exactly a change of `under_water`.
abbrev pub Reports : Bool → Option Bool → Bool → Type 0
Reports before none after = after ≡ before
Reports before (some b) after = (before ≡ not b) × (after ≡ b)

module _ (low high total size : ℕ) (under_water : Bool) (marks : low < high)
    (w : IsWatered low high total under_water) where
  pub IsWatered-put :
      IsWatered low high
        (total + size)
        (if sinks under_water (total + size) high then true else under_water)
  unfolding sinks
  IsWatered-put = ground arith

  pub IsWatered-get :
      IsWatered low high
        (total - size)
        (if rises under_water (total - size) low then false else under_water)
  unfolding rises
  IsWatered-get = ground arith

pub Reports-put :
    (u : Bool) (total high : ℕ)
    → let down = sinks u total high in
      Reports u (if down then some true else none) (if down then true else u)
unfolding sinks
Reports-put u total high = ground arith

pub Reports-get :
    (u : Bool) (total low : ℕ)
    → let up = rises u total low in
      Reports u (if up then some false else none) (if up then false else u)
unfolding rises
Reports-get u total low = ground arith
