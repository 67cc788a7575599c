-- ===== src/LayerShell.antt =====
-- src/layer_shell.c: placing the layer surfaces of an output.
pub mod Arrange
pub mod Bounds
pub mod Geometry
mod Tests
