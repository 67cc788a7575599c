-- ===== src/LayerShell/Tests.antt =====
-- A phone's screen with a panel, an on-screen keyboard and a notification, for src/layer_shell.c.
use phoc.Prelude.{ℕ, ◌≡◌, refl, true, false, List, [], ◌∷◌, Option, none, some}
use phoc.Prelude.Int.{pos}
use phoc.LayerShell.Geometry.{Box, Margin, Layer, top, overlay, LayerSurface, Span}
use phoc.LayerShell.Bounds.{Within}
use phoc.LayerShell.Arrange.{Layers, OskOrigin, find_osk, arrange_layers}
use phoc.LayerShell.Arrange.Area.{usable_area-Within}

abbrev nowhere : Box
nowhere = record { x = pos 0; y = pos 0; width = pos 0; height = pos 0 }

abbrev screen : Box
screen = record { x = pos 0; y = pos 0; width = pos 360; height = pos 720 }

abbrev no_margin : Margin
no_margin = record { top = pos 0; right = pos 0; bottom = pos 0; left = pos 0 }

abbrev panel : LayerSurface
panel = record {
  id = 1;
  is_osk = false;
  mapped = true;
  pending_layer = top;
  anchor = record { top = true; bottom = false; left = true; right = true };
  exclusive_zone = pos 32;
  margin = no_margin;
  desired_width = 0;
  desired_height = 32;
  keyboard_interactive = false;
  geo = nowhere;
}

abbrev keyboard : LayerSurface
keyboard = record {
  id = 2;
  is_osk = true;
  mapped = true;
  pending_layer = top;
  anchor = record { top = false; bottom = true; left = true; right = true };
  exclusive_zone = pos 200;
  margin = no_margin;
  desired_width = 0;
  desired_height = 200;
  keyboard_interactive = false;
  geo = nowhere;
}

abbrev lock_screen : LayerSurface
lock_screen = record panel { id = 3; pending_layer = overlay; keyboard_interactive = true }

abbrev layers : Layers
layers = record {
  background_list = [];
  bottom_list = [];
  top_list = panel ∷ keyboard ∷ [];
  overlay_list = lock_screen ∷ [];
}

abbrev origin : OskOrigin
origin = record { surface = keyboard; layer = top }

abbrev seats : List (Option Layer)
seats = none ∷ some overlay ∷ []

-- The views are counted up each time that they are arranged.
abbrev count_views : Box → ℕ → ℕ
count_views b v = Prim.Native.Nat.suc v

found : find_osk layers ≡ some origin
unfolding find_osk
found = refl

abbrev column : Span
column = record { at = pos 0; size = pos 720 }

usable_area-Within_example :
    Within (arrange_layers count_views (pos 360) (pos 720) seats 0 layers).usable_area screen
    × ((arrange_layers count_views (pos 360) (pos 720) seats 0 layers).views
        ≡ count_views (arrange_layers count_views (pos 360) (pos 720) seats 0 layers).usable_area 0)
usable_area-Within_example = usable_area-Within count_views (pos 360) (pos 720) seats 0 layers
