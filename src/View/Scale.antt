-- ===== src/View/Scale.antt =====
-- src/view.c: view_update_scale and view_update_size. `scales` is whether the shell wants its views
-- scaled and a setting of the view or of the desktop asks to fit them.
use phoc.Prelude.{ℕ, Bool, false, not, ◌&&◌, ◌||◌, Option, none, some, if◌then◌else◌}
use phoc.Prelude.Int.{ℤ, pos, eqb_ℤ}
use phoc.View.State.{
  Numbers, View, Output, Desktop, put_view, view_is_fullscreen, view_is_maximized, view_is_tiled,
}
use phoc.View.Operations.{view_center, view_arrange_maximized, view_arrange_tiled}

module _ {D : Type 0} (F : Numbers D) (get_output : View D → Option ℕ) (seated : Bool)
    (cursor_output : Option ℕ) where
  abbrev pub smaller : D → D → D
  smaller x y = if F.less y x then y else x

  abbrev pub at_least_half : D → D
  at_least_half x = if F.less x F.one_half then F.one_half else x

  -- Not larger than the client draws it, and never scaled when fullscreen.
  abbrev pub at_most_one : Bool → D → D
  at_most_one fullscreen x =
      let one = F.of_int (pos 1) in if F.less one x || fullscreen then one else x

  unfoldable pub fitting_scale : View D → Output D → D
  fitting_scale v o =
      let x = F.div (F.of_int o.usable_area.width) (F.of_int v.box.width) in
      let y = F.div (F.of_int o.usable_area.height) (F.of_int v.box.height) in
      at_most_one (view_is_fullscreen v) (at_least_half (smaller x y))

  abbrev pub arrange_scaled : ℕ → Desktop D → Desktop D
  arrange_scaled v s =
      let view = s.view_of v in
      if view_is_maximized view
      then view_arrange_maximized F get_output v none s
      else if view_is_tiled view
      then view_arrange_tiled F get_output v none s
      else view_center F seated cursor_output v none s

  abbrev pub scale_on : ℕ → Output D → Desktop D → Desktop D
  scale_on v o s =
      let view = s.view_of v in
      let scale = fitting_scale view o in
      let scaled = put_view v (record view { scale = scale }) s in
      if F.same scale view.scale then scaled else arrange_scaled v scaled

  unfoldable pub view_update_scale : Bool → ℕ → Desktop D → Desktop D
  view_update_scale scales v s =
      if not scales
      then s
      else elim (get_output (s.view_of v)) [ none ↦ s | some o ↦ scale_on v (s.output_of o) s ]

  abbrev pub centered_once : ℕ → Desktop D → Desktop D
  centered_once v s =
      let c = view_center F seated cursor_output v none s in
      if (s.view_of v).pending_centering
      then put_view v (record (c.view_of v) { pending_centering = false }) c
      else s

  unfoldable pub view_update_size : Bool → ℕ → ℤ → ℤ → Desktop D → Desktop D
  view_update_size scales v width height s =
      let view = s.view_of v in
      let sized =
        put_view v (record view { box = record view.box { width = width; height = height } }) s in
      if eqb_ℤ view.box.width width && eqb_ℤ view.box.height height
      then s
      else view_update_scale scales v (centered_once v sized)
