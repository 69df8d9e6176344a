-- ===== src/Channel/Reader.antt =====
-- `ChannelFlowControlBase` of snitun/multiplexer/channel.py: the future on which the reader of a channel waits.
use snitun.Prelude.{Bool, true, false, not, ◌||◌, Option, none, some, List, [], ◌∷◌, drop}
use snitun.Channel.{Channel, ℕ}

-- `_pause_future`: none, or whether the future is done.
abbrev pub PauseFuture : Type 0
PauseFuture = Option Bool

-- `_pause_resume_reader_callback`
unfoldable pub pause_resume_reader_callback : Bool → PauseFuture → PauseFuture
pause_resume_reader_callback false (some false) = none
pause_resume_reader_callback false none = none
pause_resume_reader_callback false (some true) = some true
pause_resume_reader_callback true none = some false
pause_resume_reader_callback true (some done) = some false

unfoldable pub callbacks : List Bool → PauseFuture → PauseFuture
callbacks [] future = future
callbacks (pause ∷ calls) future = callbacks calls (pause_resume_reader_callback pause future)

-- Whether one of the calls resumes the reader.
abbrev resumes : List Bool → Bool
resumes [] = false
resumes (pause ∷ calls) = not pause || resumes calls

-- Whether a future that was pending at that many calls has its result since.
abbrev pub resumed : ℕ → List Bool → Bool
resumed since calls = resumes (drop since calls)

-- The reader waits where there is a future that is not done.
abbrev pub is_waiting : PauseFuture → Bool
is_waiting none = false
is_waiting (some done) = not done
