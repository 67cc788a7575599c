-- ===== src/Desktop.antt =====
-- src/desktop.c: phoc_desktop_surface_at, what is under a point of the layout, and of src/view.c
-- view_get_deco_part. The surfaces that wlroots finds in a tree of surfaces are the parameter `Surfaces`.
-- An output of the layout has its data, and coordinates are numbers: a <= b is that b is not less than a.
mod Order
mod Tests
use phoc.Prelude.{
  ℕ, ◌+◌, Bool, true, false, not, ◌&&◌, List, [], ◌∷◌, ◌++◌, reverse, Option, none, some, ◌>>=◌,
  ◌==◌, if◌then◌else◌,
}
use phoc.Prelude.Int.{ℤ, pos, ◌+ℤ◌, ◌-ℤ◌}
use phoc.LayerShell.Geometry.{Box, LayerSurface, positive}
use phoc.LayerShell.Arrange.{Layers}
use phoc.View.State.{Numbers, View, Output, Desktop}
use phoc.View.Tree.{phoc_desktop_view_is_visible}

-- Of roots_view what its decorations are, and the size of its surface.
pub record Decoration : Type 0 where
  pub decorated : Bool
  pub border_width : ℤ
  pub titlebar_height : ℤ
  pub surface_width : ℤ
  pub surface_height : ℤ

module _ (D : Type 0) where
  -- What stands for a surface with a point on it.
  abbrev pub Point : Type 0
  Point = D × D

  pub record Surfaces : Type 0 where
    pub layer_surface_surface_at : ℕ → D → D → Option (ℕ × Point)
    pub xdg_surface_surface_at : ℕ → D → D → Option (ℕ × Point)
    pub surface_surface_at : ℕ → D → D → Option (ℕ × Point)
    pub layout_output_at : D → D → Option ℕ
    pub layout_output_coords : ℕ → D → D → Point

  pub record Scene : Type 0 where
    pub shown : Desktop D
    pub layers_of : ℕ → Layers  -- of an output
    pub decoration_of : ℕ → Decoration  -- of a view

  -- The surface that is returned, *view, and *sx with *sy.
  pub record Under : Type 0 where
    pub under_surface : Option ℕ
    pub under_view : Option ℕ
    pub under_point : Point

-- What was found, or else the rest of the search, which may run out of fuel.
abbrev pub otherwise {ℓ} : {A : Type ℓ} → Option A → Option (Option A) → Option (Option A)
otherwise none m = m
otherwise (some a) m = some (some a)

infixr 4 ◌or_next◌
abbrev pub ◌or_next◌ {ℓ} : {A : Type ℓ} → Option A → Option A → Option A
none or_next o = o
some a or_next o = some a

module _ {D : Type 0} where
  abbrev pub hit : Option ℕ → Option (ℕ × Point D) → Option (Under D)
  hit v none = none
  hit v (some (s, p)) = some (record { under_surface = some s; under_view = v; under_point = p })

  abbrev pub deco_at : ℕ → ℕ → Point D → Option (Under D)
  deco_at v part p =
      if part == 0
      then none
      else some (record { under_surface = none; under_view = some v; under_point = p })

  abbrev pub if_visible : Bool → Option (Under D) → Option (Under D)
  if_visible b o = if b then o else none

  module _ (F : Numbers D) where
    abbrev pub above : D → ℤ → Bool
    above d z = F.less (F.of_int z) d

    abbrev pub below : D → ℤ → Bool
    below d z = F.less d (F.of_int z)

    abbrev pub deco_x : Decoration → D → D → ℕ
    deco_x c sx sy =
        if not (below sy (pos 0 -ℤ (c.titlebar_height +ℤ c.border_width)))
          && not (above sy (c.surface_height +ℤ c.border_width))
        then (if below sx (pos 0) && above sx (pos 0 -ℤ c.border_width)
            then 4
            else if above sx c.surface_width && below sx (c.surface_width +ℤ c.border_width)
            then 8
            else 0)
        else 0

    abbrev pub deco_y : Decoration → D → D → ℕ
    deco_y c sx sy =
        if not (below sx (pos 0 -ℤ c.border_width))
          && not (above sx (c.surface_width +ℤ c.border_width))
        then (if above sy c.surface_height && not (above sy (c.surface_height +ℤ c.border_width))
            then 2
            else if not (below sy (pos 0 -ℤ (c.titlebar_height +ℤ c.border_width)))
                && below sy (pos 0)
            then 1
            else 0)
        else 0

    abbrev pub on_titlebar : Decoration → D → D → Bool
    on_titlebar c sx sy =
        above sx (pos 0)
        && below sx c.surface_width
        && (below sy (pos 0) && above sy (pos 0 -ℤ c.titlebar_height))

    -- roots_deco_part: the borders at the top, bottom, left and right are the bits from 1 to 8 and the titlebar
    -- is 16. The two groups share no bit, so that the sum is their union.
    unfoldable pub view_get_deco_part : Decoration → D → D → ℕ
    view_get_deco_part c sx sy =
        if not c.decorated
        then 0
        else if on_titlebar c sx sy
        then 16
        else deco_x c sx sy + deco_y c sx sy

    module _ (W : Surfaces D) where
      abbrev pub surface_of : View D → ℕ → D → D → Option (ℕ × Point D)
      surface_of view v x y =
          if view.impl.is_xwayland
          then W.surface_surface_at v x y
          else W.xdg_surface_surface_at v x y

      unfoldable pub view_at : Scene D → ℕ → D → D → Option (Under D)
      view_at s v lx ly =
          let view = s.shown.view_of v in
          let view_sx = F.sub (F.div lx view.scale) (F.of_int view.box.x) in
          let view_sy = F.sub (F.div ly view.scale) (F.of_int view.box.y) in
          if not view.mapped
          then none
          else hit (some v) (surface_of view v view_sx view_sy)
            or_next deco_at v (view_get_deco_part (s.decoration_of v) view_sx view_sy)
                (view_sx, view_sy)

      -- None when phoc_desktop_view_is_visible has no fuel left.
      unfoldable pub desktop_view_at : ℕ → Scene D → List ℕ → D → D → Option (Option (Under D))
      desktop_view_at n s [] lx ly = some none
      desktop_view_at n s (v ∷ vs) lx ly =
          let rest = desktop_view_at n s vs lx ly in
          phoc_desktop_view_is_visible n s.shown v >>= λ b.
          otherwise (if_visible b (view_at s v lx ly)) rest

      abbrev pub layer_hit : LayerSurface → D → D → Option (Under D)
      layer_hit l ox oy = hit none (
          W.layer_surface_surface_at l.id (F.sub ox (F.of_int l.geo.x))
            (F.sub oy (F.of_int l.geo.y)))

      -- A loop of layer_surface_at, over the surfaces whose exclusive zone is positive or is not.
      abbrev pub layer_loop : Bool → List LayerSurface → D → D → Option (Under D)
      layer_loop b [] ox oy = none
      layer_loop b (l ∷ ls) ox oy =
          let rest = layer_loop b ls ox oy in
          if (if b then positive l.exclusive_zone else not (positive l.exclusive_zone))
          then layer_hit l ox oy or_next rest
          else rest

      unfoldable pub layer_surface_at : List LayerSurface → D → D → Option (Under D)
      layer_surface_at ls ox oy =
          layer_loop true (reverse ls) ox oy or_next layer_loop false ls ox oy

      abbrev pub under_fullscreen : Scene D → ℕ → ℕ → Point D → D → D → Option (Under D)
      under_fullscreen s o f (ox, oy) lx ly =
          (if (s.shown.output_of o).force_shell_reveal
            then layer_surface_at (s.layers_of o).top_list ox oy
            else none)
          or_next view_at s f lx ly

      abbrev pub under_views : ℕ → Scene D → ℕ → Point D → D → D → Option (Option (Under D))
      under_views n s o (ox, oy) lx ly =
          otherwise (layer_surface_at (s.layers_of o).top_list ox oy) (
            desktop_view_at n s s.shown.views lx ly >>= λ u. otherwise u (
              some (
                layer_surface_at (s.layers_of o).bottom_list ox oy
                or_next layer_surface_at (s.layers_of o).background_list ox oy)))

      abbrev pub below_overlay :
          Option ℕ → ℕ → Scene D → ℕ → Point D → D → D → Option (Option (Under D))
      below_overlay (some f) n s o p lx ly = some (under_fullscreen s o f p lx ly)
      below_overlay none n s o p lx ly = under_views n s o p lx ly

      abbrev pub on_output : Option ℕ → ℕ → Scene D → D → D → Option (Option (Under D))
      on_output none n s lx ly = desktop_view_at n s s.shown.views lx ly
      on_output (some o) n s lx ly =
          let p = W.layout_output_coords o lx ly in
          otherwise (layer_surface_at (s.layers_of o).overlay_list p.0 p.1)
            (below_overlay (s.shown.output_of o).fullscreen_view n s o p lx ly)

      unfoldable pub phoc_desktop_surface_at : ℕ → Scene D → D → D → Option (Option (Under D))
      phoc_desktop_surface_at n s lx ly = on_output (W.layout_output_at lx ly) n s lx ly
