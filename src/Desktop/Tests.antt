-- ===== src/Desktop/Tests.antt =====
-- An output with a panel in the top layer, two windows, one of which is fullscreen in some of the scenes, and
-- a wallpaper; every window has a surface under each point, and so have the panel and the wallpaper.
use phoc.Prelude.{ℕ, ◌≡◌, refl, true, false, [], ◌∷◌, Option, none, some, ◌==◌, if◌then◌else◌}
use phoc.Prelude.Int.{ℤ, pos, ◌-ℤ◌, ◌+ℤ◌}
use phoc.LayerShell.Geometry.{LayerSurface, top}
use phoc.View.Examples.{integers, window, outputs, box}
use phoc.View.Tree.{phoc_desktop_view_is_visible}
use phoc.Desktop.{
  Surfaces, Scene, view_get_deco_part, view_at, layer_surface_at, desktop_view_at,
  phoc_desktop_surface_at,
}
use phoc.Desktop.Order.{coords, order, first_hit, phoc_desktop_surface_at_lem}

abbrev layer_surface : ℕ → ℤ → LayerSurface
layer_surface id zone = record {
  id = id;
  is_osk = false;
  mapped = true;
  pending_layer = top;
  anchor = record { top = true; bottom = false; left = true; right = true };
  exclusive_zone = zone;
  margin = record { top = pos 0; right = pos 0; bottom = pos 0; left = pos 0 };
  desired_width = 0;
  desired_height = 32;
  keyboard_interactive = false;
  geo = box;
}

abbrev scene : Option ℕ → Scene ℤ
scene full = record {
  shown = record {
    view_of = λ v. window none none;
    output_of = λ o. record (outputs o) { fullscreen_view = full };
    views = 1 ∷ 2 ∷ [];
    outputs = 0 ∷ [];
    maximize = false;
    calls = [];
  };
  layers_of = λ o. record {
    background_list = layer_surface 30 (pos 0) ∷ [];
    bottom_list = [];
    top_list = layer_surface 20 (pos 0) ∷ layer_surface 21 (pos 32) ∷ [];
    overlay_list = [];
  };
  decoration_of = λ v. record {
    decorated = true;
    border_width = pos 4;
    titlebar_height = pos 12;
    surface_width = pos 300;
    surface_height = pos 200;
  };
}

-- Under a point, of the layers only the wallpaper has a surface, and of the windows only the second.
abbrev surfaces : Surfaces ℤ
surfaces = record {
  layer_surface_surface_at = λ l x y. if l == 30 then some (l, (x, y)) else none;
  xdg_surface_surface_at = λ v x y. if v == 2 then some (v, (x, y)) else none;
  surface_surface_at = λ v x y. none;
  layout_output_at = λ x y. some 0;
  layout_output_coords = λ o x y. (x, y);
}

window_found :
    phoc_desktop_surface_at integers surfaces 2 (scene none) (pos 50) (pos 60)
    ≡ some (
        some
          (record { under_surface = some 2; under_view = some 2; under_point = (pos 40, pos 40) }))
unfolding phoc_desktop_surface_at layer_surface_at desktop_view_at view_at view_get_deco_part
    phoc_desktop_view_is_visible ◌-ℤ◌ ◌+ℤ◌
window_found = refl

-- The first window's titlebar is found before the second window, and it has no surface.
titlebar_found :
    phoc_desktop_surface_at integers surfaces 2 (scene none) (pos 50) (pos 10)
    ≡ some (
        some (record {
          under_surface = none;
          under_view = some 1;
          under_point = (pos 40, pos 0 -ℤ pos 10);
        }))
unfolding phoc_desktop_surface_at layer_surface_at desktop_view_at view_at view_get_deco_part
    phoc_desktop_view_is_visible ◌-ℤ◌ ◌+ℤ◌
titlebar_found = refl

-- A fullscreen window hides the wallpaper, also where it has nothing itself.
nothing_found :
    phoc_desktop_surface_at integers surfaces 2 (scene (some 1)) (pos 50) (pos 60) ≡ some none
unfolding phoc_desktop_surface_at layer_surface_at desktop_view_at view_at view_get_deco_part
    phoc_desktop_view_is_visible ◌-ℤ◌ ◌+ℤ◌
nothing_found = refl

phoc_desktop_surface_at_example :
    phoc_desktop_surface_at integers surfaces 2 (scene none) (pos 50) (pos 60)
    ≡ some (
        first_hit integers surfaces
          (scene none)
          (coords integers surfaces (some 0) (pos 50) (pos 60))
          (pos 50)
          (pos 60)
          (order (some 0) (scene none) (1 ∷ 2 ∷ [])))
unfolding phoc_desktop_view_is_visible
phoc_desktop_surface_at_example =
    phoc_desktop_surface_at_lem integers surfaces 2 (scene none) (pos 50) (pos 60) (1 ∷ 2 ∷ []) refl
