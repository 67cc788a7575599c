-- ===== src/Keyboard.antt =====
-- src/keyboard.c: the keysyms that are down, the bindings a key event runs, and the layouts.
pub mod HandleKey
pub mod Layout
pub mod Pressed
mod Tests
