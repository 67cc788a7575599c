-- ===== src/View/Operations.antt =====
-- src/view.c: arranging, maximising, tiling, restoring and centring views. Third-party code is a
-- parameter: `get_output` is the output that the layout finds for a view (view_get_output),
-- `cursor_output` the output under the cursor of the last active seat.
use phoc.Prelude.{ℕ, Bool, true, false, not, ◌&&◌, ◌||◌, Option, none, some, if◌then◌else◌, ◌==◌}
use phoc.Prelude.Int.{ℤ, pos, ◌+ℤ◌, ◌-ℤ◌, half, ltb_ℤ}
use phoc.LayerShell.Geometry.{Box}
use phoc.View.State.{
  Numbers, floating, maximized, tiled, PhocViewTileDirection, tile_left, tile_right, View, Output,
  maximize, handle_maximized, Desktop, put_view, put_output, when, view_is_fullscreen,
  view_is_floating, view_is_maximized, view_is_tiled, view_resize, view_get_geometry, view_save,
  view_move, view_move_resize,
}

abbrev pub is_empty : Box → Bool
is_empty b = not (ltb_ℤ (pos 0) b.width) || not (ltb_ℤ (pos 0) b.height)

abbrev pub or_find : Option ℕ → Option ℕ → Option ℕ
or_find (some o) found = some o
or_find none found = found

abbrev pub is_output : Option ℕ → Option ℕ → Bool
is_output none none = true
is_output (some a) (some b) = a == b
is_output a b = false

module _ {D : Type 0} where
  -- output->fullscreen_view = NULL
  abbrev pub clear_output : Option ℕ → Desktop D → Desktop D
  clear_output none s = s
  clear_output (some o) s = put_output o (record (s.output_of o) { fullscreen_view = none }) s

  -- The usable area in the coordinates of the layout.
  abbrev pub area_of : Output D → Box
  area_of o = record o.usable_area {
    x = o.usable_area.x +ℤ o.layout_box.x;
    y = o.usable_area.y +ℤ o.layout_box.y;
  }

abbrev pub at_most : ℤ → ℤ → ℤ
at_most limit a = if ltb_ℤ limit a then limit else a

module _ {D : Type 0} (F : Numbers D) where
  -- Where the middle of an area is for a view, along one axis.
  abbrev pub middle : ℤ → ℤ → ℤ → ℤ → ℤ → D → D
  middle size start layout_start box_size geom scale =
      let scaled = F.to_int (F.mul (F.of_int box_size) scale) in
      F.sub
        (F.add (F.add (F.mul F.one_half (F.of_int (size -ℤ scaled))) (F.of_int start))
          (F.of_int layout_start))
        (F.mul (F.of_int geom) scale)

  -- The views do not get larger than the usable area.
  abbrev pub fit : ℕ → Box → Desktop D → Desktop D
  fit v area s =
      let b = (s.view_of v).box in
      if s.maximize && (ltb_ℤ area.width b.width || ltb_ℤ area.height b.height)
      then view_resize v (F.to_u32 (F.of_int (at_most area.width b.width)))
          (F.to_u32 (F.of_int (at_most area.height b.height))) s
      else s

  abbrev pub center_on : ℕ → Output D → Desktop D → Desktop D
  center_on v o s =
      let view = s.view_of v in
      let geom = view_get_geometry F view in
      let x =
        middle o.usable_area.width o.usable_area.x o.layout_box.x view.box.width geom.x
          view.scale in
      let y =
        middle o.usable_area.height o.usable_area.y o.layout_box.y view.box.height geom.y
          view.scale in
      fit v o.usable_area (view_move F v (F.div x view.scale) (F.div y view.scale) s)

  -- `seated` is whether there is a seat at all.
  unfoldable pub view_center : Bool → Option ℕ → ℕ → Option ℕ → Desktop D → Desktop D
  view_center seated cursor_output v output s =
      if not (view_is_floating (s.view_of v)) || not seated
      then s
      else elim (or_find output cursor_output) [ none ↦ s | some o ↦ center_on v (s.output_of o) s ]

module _ {D : Type 0} (F : Numbers D) (get_output : View D → Option ℕ) where
  abbrev pub cover : ℕ → Box → Desktop D → Desktop D
  cover v b s =
      let view = s.view_of v in
      view_move_resize F v (F.div (F.of_int b.x) view.scale) (F.div (F.of_int b.y) view.scale)
        (F.to_u32 (F.div (F.of_int b.width) view.scale))
        (F.to_u32 (F.div (F.of_int b.height) view.scale)) s

  unfoldable pub view_arrange_maximized : ℕ → Option ℕ → Desktop D → Desktop D
  view_arrange_maximized v output s =
      if view_is_fullscreen (s.view_of v)
      then s
      else elim (or_find output (get_output (s.view_of v))) [
        | none ↦ s
        | some o ↦ cover v (area_of (s.output_of o)) s
      ]

  -- `x`: the sum is a double, which the assignment truncates.
  abbrev pub tile_x : PhocViewTileDirection → Box → ℤ
  tile_x tile_left b = b.x
  tile_x tile_right b = F.to_int (F.add (F.of_int b.x) (F.mul F.one_half (F.of_int b.width)))

  unfoldable pub view_arrange_tiled : ℕ → Option ℕ → Desktop D → Desktop D
  view_arrange_tiled v output s =
      if view_is_fullscreen (s.view_of v)
      then s
      else elim (or_find output (get_output (s.view_of v))) [
        | none ↦ s
        | some o ↦
            let area = area_of (s.output_of o) in
            view_move_resize F v (F.of_int (tile_x (s.view_of v).tile_direction area))
              (F.of_int area.y) (F.to_u32 (F.of_int (half area.width)))
              (F.to_u32 (F.of_int area.height)) s
      ]

  abbrev pub want_auto_maximize : ℕ → Desktop D → Bool
  want_auto_maximize v s =
      s.maximize && (elim (s.view_of v).impl.want_auto_maximize [ none ↦ false | some b ↦ b ])

  unfoldable pub view_maximize : ℕ → Option ℕ → Desktop D → Desktop D
  view_maximize v output s =
      let view = s.view_of v in
      if view_is_maximized view && is_output (get_output view) output
      then s
      else if view_is_fullscreen view
      then s
      else let asked = when view.impl.has_maximize (maximize v true) s in
        let told = when view.toplevel_handle (handle_maximized v true) asked in
        view_arrange_maximized v output
          (put_view v (record (view_save F view) { state = maximized }) told)

  unfoldable pub view_auto_maximize : ℕ → Desktop D → Desktop D
  view_auto_maximize v s = if want_auto_maximize v s then view_maximize v none s else s

  -- Back to the saved box, or to the client's own size, centred once it is known.
  unfoldable pub to_saved : ℕ → Desktop D → Desktop D
  to_saved v s =
      let view = s.view_of v in
      let geom = view_get_geometry F view in
      if is_empty view.saved
      then put_view v (record view { pending_centering = true }) (view_resize v 0 0 s)
      else view_move_resize F v (F.sub (F.of_int view.saved.x) (F.mul (F.of_int geom.x) view.scale))
          (F.sub (F.of_int view.saved.y) (F.mul (F.of_int geom.y) view.scale))
          (F.to_u32 (F.of_int view.saved.width)) (F.to_u32 (F.of_int view.saved.height)) s

  unfoldable pub view_restore : ℕ → Desktop D → Desktop D
  view_restore v s =
      let view = s.view_of v in
      if not (view_is_maximized view) && not (view_is_tiled view)
      then s
      else if want_auto_maximize v s
      then s
      else let moved = to_saved v (put_view v (record view { state = floating }) s) in
        let told = when view.toplevel_handle (handle_maximized v false) moved in
        when view.impl.has_maximize (maximize v false) told

  unfoldable pub view_tile : ℕ → PhocViewTileDirection → Option ℕ → Desktop D → Desktop D
  view_tile v direction output s =
      let view = s.view_of v in
      if view_is_fullscreen view
      then s
      else let asked = when view.impl.has_maximize (maximize v true) s in
        view_arrange_tiled v output (
          put_view v (record (view_save F view) { state = tiled; tile_direction = direction })
            asked)
