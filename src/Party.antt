-- ===== src/Party.antt =====
-- party.cpp, the party handlers of game.cpp and the party fields of player.cpp. Players and parties
-- are numbers; the store maps them to what the objects hold, so that a party and its players share
-- state as the pointers do. What is only sent to clients is left out. The answers of the Lua events
-- are arguments.
pub mod Store
pub mod Experience
pub mod Operations
pub mod Handlers
pub mod Lists
pub mod Invariant
mod Examples
