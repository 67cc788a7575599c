-- ===== src/View.antt =====
-- src/view.c: the views of the desktop. View/State has their state and the parts that every operation
-- uses, View/Operations maximising, tiling and the like, View/Fullscreen fullscreen, View/Tree
-- the parents.
pub mod State
pub mod Operations
pub mod Fullscreen
pub mod Exact
pub mod Scale
pub mod Tree
pub mod Family
pub mod Parents
pub mod Links
pub mod Arranging
pub mod Saved
pub mod Linked
pub mod Relatives
pub mod Steps
pub mod Displaced
pub mod Visible
pub mod Examples
mod Tests
