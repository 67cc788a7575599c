-- ===== src/Keybindings.antt =====
-- src/keybindings.c: the key combinations that run an action of the compositor.
pub mod Accel
pub mod Bindings
pub mod Dispatch
pub mod Overrun
pub mod Parse
pub mod Setup
mod Tests
