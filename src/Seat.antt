-- ===== src/Seat.antt =====
-- src/seat.c: which view or layer surface of a seat has the focus, and how it moves between them.
pub mod State
pub mod Stack
pub mod Focus
mod Same
mod Spec
mod Outcome
mod Raised
mod Focused
mod Total
mod Cycle
mod Rounds
mod Invariant
mod Exclusive
mod Released
mod Steps
mod Refused
mod Arranged
mod Told
mod Heard
mod Tests
