-- ===== src/Queue/Multi.antt =====
-- `MultiplexerMultiChannelQueue`: a queue for each channel, served in turn.
-- `heap` holds the `_ChannelQueue` objects by reference, since a suspended `put` keeps its object
-- when the dict `_channels` drops it. `done` says which futures are done. A call of an
-- `under_water_callback` is returned with the id of its channel.
pub mod State
pub mod Tasks
pub mod Contents
pub mod Invariant
pub mod Puts
pub mod Gets
pub mod Turns
pub mod Dropped
pub mod Live
