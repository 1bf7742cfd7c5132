-- ===== src/Tests.antt =====
-- Concrete runs: each theorem of the header at an input where its conditions hold.
mod Lists
mod Rings
mod Numbers
mod Timers
mod Texts
mod Queues
mod Requests
mod Pools
mod Addresses
mod Actors
mod Files
mod Plugs
mod Speakers
