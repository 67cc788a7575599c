-- ===== src/LayerShell/Arrange.antt =====
-- src/layer_shell.c: find_osk, change_osk and arrange_layers. The four lists of an output are a record;
-- the seats are the pending layers of their focused layer surfaces. How the views are arranged between
-- the two passes is the parameter `arrange_views`, a function of the usable area; View/Arranging has it.
pub mod Osk
pub mod Area
use phoc.Prelude.{
  ℕ, ◌+◌, ◌≡◌, Bool, true, false, not, ◌&&◌, ◌||◌, List, [], ◌∷◌, ◌++◌, Option, none, some,
  if◌then◌else◌, ◌==◌, leb,
}
use phoc.Prelude.Int.{ℤ, pos}
use phoc.LayerShell.Geometry.{
  Box, Layer, background, bottom, top, overlay, LayerSurface, Action, arrange_layer,
}

-- PhocOutput::layers, an array with the layers for indices.
pub record Layers : Type 0 where
  pub background_list : List LayerSurface
  pub bottom_list : List LayerSurface
  pub top_list : List LayerSurface
  pub overlay_list : List LayerSurface

abbrev pub rank : Layer → ℕ
rank background = 0
rank bottom = 1
rank top = 2
rank overlay = 3

abbrev pub get : Layer → Layers → List LayerSurface
get background ls = ls.background_list
get bottom ls = ls.bottom_list
get top ls = ls.top_list
get overlay ls = ls.overlay_list

abbrev pub put : Layer → List LayerSurface → Layers → Layers
put background l ls = record ls { background_list = l }
put bottom l ls = record ls { bottom_list = l }
put top l ls = record ls { top_list = l }
put overlay l ls = record ls { overlay_list = l }

-- osk_origin
pub record OskOrigin : Type 0 where
  pub surface : LayerSurface
  pub layer : Layer

abbrev pub find_osk_in : List LayerSurface → Option LayerSurface
find_osk_in [] = none
find_osk_in (s ∷ ss) = if s.is_osk then some s else find_osk_in ss

abbrev pub or_else : Layer → Option LayerSurface → Option OskOrigin → Option OskOrigin
or_else l (some s) rest = some (record { surface = s; layer = l })
or_else l none rest = rest

-- The lists are searched from the background up.
unfoldable pub find_osk : Layers → Option OskOrigin
find_osk ls = or_else background (find_osk_in ls.background_list) (
    or_else bottom (find_osk_in ls.bottom_list)
      (or_else top (find_osk_in ls.top_list) (or_else overlay (find_osk_in ls.overlay_list) none)))

-- wl_list_remove of the keyboard's link, from the list where it was found.
abbrev pub remove_osk : List LayerSurface → List LayerSurface
remove_osk [] = []
remove_osk (s ∷ ss) = if s.is_osk then ss else s ∷ remove_osk ss

-- Take the keyboard off its list and put it at the head of another.
abbrev pub move_osk : OskOrigin → Layer → Layers → Layers
move_osk osk target ls =
    let off = put osk.layer (remove_osk (get osk.layer ls)) ls in
    put target (osk.surface ∷ get target off) off

abbrev pub same_layer : Layer → Layer → Bool
same_layer a b = rank a == rank b

-- The two tests exclude one another, so at most one of the two moves is made.
unfoldable pub change_osk : OskOrigin → Layers → Bool → Layers
change_osk osk ls true = if same_layer osk.layer overlay then ls else move_osk osk overlay ls
change_osk osk ls false =
    if same_layer osk.layer osk.surface.pending_layer
    then ls
    else move_osk osk osk.surface.pending_layer ls

-- Whether a seat's focused layer surface is at or above the keyboard's layer.
abbrev pub forces_overlay : Layer → List (Option Layer) → Bool
forces_overlay l [] = false
forces_overlay l (none ∷ seats) = forces_overlay l seats
forces_overlay l (some f ∷ seats) = leb (rank l) (rank f) || forces_overlay l seats

abbrev pub with_osk : Option OskOrigin → List (Option Layer) → Layers → Layers
with_osk none seats ls = ls
with_osk (some osk) seats ls = change_osk osk ls (forces_overlay osk.surface.pending_layer seats)

-- One pass over the four layers from the overlay down.
pub record Passed : Type 0 where
  pub layers : Layers
  pub usable : Box
  pub actions : List Action

unfoldable pub arrange_pass : Box → Bool → Layers → Box → Passed
arrange_pass full exclusive ls usable =
    let o = arrange_layer full exclusive ls.overlay_list usable in
    let t = arrange_layer full exclusive ls.top_list o.usable in
    let b = arrange_layer full exclusive ls.bottom_list t.usable in
    let g = arrange_layer full exclusive ls.background_list b.usable in
    record {
      layers = record {
        background_list = g.surfaces;
        bottom_list = b.surfaces;
        top_list = t.surfaces;
        overlay_list = o.surfaces;
      };
      usable = g.usable;
      actions = o.actions ++ (t.actions ++ (b.actions ++ g.actions));
    }

abbrev pub first_interactive : List LayerSurface → Option ℕ
first_interactive [] = none
first_interactive (s ∷ ss) =
    if s.keyboard_interactive && s.mapped then some s.id else first_interactive ss

abbrev pub or_topmost : Option ℕ → Option ℕ → Option ℕ
or_topmost (some i) rest = some i
or_topmost none rest = rest

-- The surface that every seat's layer focus is set to: overlay before top.
unfoldable pub find_topmost : Layers → Option ℕ
find_topmost ls = or_topmost (first_interactive ls.overlay_list) (first_interactive ls.top_list)

pub record ArrangedLayers (V : Type 0) : Type 0 where
  pub layers : Layers
  pub usable_area : Box
  pub views : V
  pub actions : List Action
  pub topmost : Option ℕ

module _ {V : Type 0} (arrange_views : Box → V → V) where
  -- `width` and `height` are the output's effective resolution.
  unfoldable pub arrange_layers : ℤ → ℤ → List (Option Layer) → V → Layers → ArrangedLayers V
  unfolding find_osk change_osk arrange_pass find_topmost
  arrange_layers width height seats views ls =
      let full : Box = record { x = pos 0; y = pos 0; width = width; height = height } in
      let placed = with_osk (find_osk ls) seats ls in
      let first = arrange_pass full true placed full in
      let second = arrange_pass full false first.layers first.usable in
      record {
        layers = second.layers;
        usable_area = first.usable;
        views = arrange_views first.usable views;
        actions = first.actions ++ second.actions;
        topmost = find_topmost second.layers;
      }
