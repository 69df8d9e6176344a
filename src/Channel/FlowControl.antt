-- ===== src/Channel/FlowControl.antt =====
-- The pause and resume calls of a channel to the reader that feeds it.
use snitun.Prelude.{
  ◌≡◌, refl, subst, Bool, true, false, not, ◌&&◌, ◌||◌, List, [], ◌∷◌, ◌++◌, arith, Bool-cases, inl,
  inr,
}
use snitun.Channel.{
  Channel, bool_ne, pause_or_resume_reader, on_local_output_under_water,
  on_remote_input_under_water,
}

-- A report of the output queue, or of the peer.
pub data Water : Type 0 where
  local remote : Bool → Water

unfoldable pub on_water : Channel → Water → Channel × List Bool
on_water c (local b) = on_local_output_under_water c b
on_water c (remote b) = on_remote_input_under_water c b

unfoldable pub on_waters : Channel → List Water → Channel × List Bool
on_waters c [] = (c, [])
on_waters c (w ∷ ws) =
    let (c', calls) = on_water c w in let (c'', more) = on_waters c' ws in (c'', calls ++ more)

-- Calls that switch to and fro, from one state to another.
abbrev pub Alternates : Bool → List Bool → Bool → Type 0
Alternates before [] after = after ≡ before
Alternates before (call ∷ calls) after = (call ≡ not before) × Alternates call calls after

-- The reader is paused exactly while one of the two queues is under water.
abbrev pub IsPaced : Channel → Type 0
IsPaced c =
    (c.has_callback ≡ true)
    × (c.reader_paused ≡ (c.local_output_under_water || c.remote_input_under_water))

pause_or_resume_reader_lem :
    (c : Channel)
    → c.has_callback ≡ true
    → let (c', calls) = pause_or_resume_reader c in
      Alternates c.reader_paused calls c'.reader_paused × IsPaced c'
unfolding pause_or_resume_reader
pause_or_resume_reader_lem c h =
    elim (Bool-cases (
      c.has_callback
      && bool_ne c.reader_paused (c.local_output_under_water || c.remote_input_under_water))) [
        | inl e ↦ rw e ((switched c.reader_paused _ h e, refl), (h, refl))
        | inr e ↦ rw e (refl, (h, level c.reader_paused _ h e))
      ]
  where
    switched :
        (paused pause : Bool)
        → c.has_callback ≡ true
        → (c.has_callback && bool_ne paused pause) ≡ true
        → pause ≡ not paused
    switched paused pause h e = ground arith

    level :
        (paused pause : Bool)
        → c.has_callback ≡ true
        → (c.has_callback && bool_ne paused pause) ≡ false
        → paused ≡ pause
    level paused pause h e = ground arith

on_water_lem :
    (c : Channel) (w : Water)
    → c.has_callback ≡ true
    → let (c', calls) = on_water c w in
      Alternates c.reader_paused calls c'.reader_paused × IsPaced c'
unfolding on_water on_local_output_under_water on_remote_input_under_water
on_water_lem c (local b) h =
    pause_or_resume_reader_lem (record c { local_output_under_water = b }) h
on_water_lem c (remote b) h =
    pause_or_resume_reader_lem (record c { remote_input_under_water = b }) h

Alternates-append :
    (a b d : Bool) (xs ys : List Bool)
    → Alternates a xs b
    → Alternates b ys d
    → Alternates a (xs ++ ys) d
Alternates-append a b d [] ys p q = subst (λ (t : Bool). Alternates t ys d) p q
Alternates-append a b d (x ∷ xs) ys p q = (p.0, Alternates-append x b d xs ys p.1 q)

on_waters_from :
    (c : Channel) (ws : List Water)
    → IsPaced c
    → let (c', calls) = on_waters c ws in
      Alternates c.reader_paused calls c'.reader_paused × IsPaced c'
unfolding on_waters
on_waters_from c [] p = (refl, p)
on_waters_from c (w ∷ ws) p =
    let (a, q) = on_water_lem c w p.0 in
    let (b, r) = on_waters_from (on_water c w).0 ws q in
    (Alternates-append _ _ _ (on_water c w).1 _ a b, r)

-- On a channel with the callback, whatever the reports of the two queues, the calls to the reader
-- alternate between pause and resume, the last one is the state that the channel records, and from
-- the first report on that is pause exactly while one of the two queues is under water.
pub on_waters_lem :
    (c : Channel) (w : Water) (ws : List Water)
    → c.has_callback ≡ true
    → let (c', calls) = on_waters c (w ∷ ws) in
      Alternates c.reader_paused calls c'.reader_paused × IsPaced c'
unfolding on_waters
on_waters_lem c w ws h =
    let (a, q) = on_water_lem c w h in
    let (b, r) = on_waters_from (on_water c w).0 ws q in
    (Alternates-append _ _ _ (on_water c w).1 _ a b, r)
