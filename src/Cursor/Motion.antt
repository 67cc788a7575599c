-- ===== src/Cursor/Motion.antt =====
-- src/cursor.c: phoc_cursor_update_position, what a motion of the pointer does to the view that is moved
-- or resized. `output_at` is the output under a point, and `box_of` wlr_output_layout_get_box, which for
-- no output is the box of all of them.
use phoc.Prelude.{ℕ, Bool, true, ◌&&◌, Option, none, some, if◌then◌else◌}
use phoc.Prelude.Int.{ℤ, pos, ◌+ℤ◌, ◌-ℤ◌, ltb_ℤ}
use phoc.LayerShell.Geometry.{Box}
use phoc.View.State.{
  Numbers, tile_left, tile_right, View, Desktop, view_is_fullscreen, view_get_geometry, view_move,
  view_move_resize,
}
use phoc.View.Operations.{view_maximize, view_restore, view_tile}
use phoc.View.Fullscreen.{view_set_fullscreen}
use phoc.Seat.State.{PhocCursorMode, cursor_passthrough, cursor_move, cursor_resize}
use phoc.Cursor.{passthrough, Cursor, say, on_desktop}

-- PHOC_EDGE_SNAP_THRESHOLD
abbrev pub snap : ℤ
snap = pos 20

module _ {D : Type 0} (F : Numbers D) where
  -- The place and the size along one axis, when the edge at its start or at its end is dragged by
  -- `delta`. The sums with the size are doubles, which are truncated.
  abbrev pub drag_start : ℤ → ℤ → D → D → D × ℤ
  drag_start at size delta geom =
      let x = F.sub (F.add (F.of_int at) delta) geom in
      let left = F.to_int (F.sub (F.of_int size) delta) in
      if ltb_ℤ left (pos 1) then (F.add x (F.of_int left), left) else (x, left)

  abbrev pub drag_end : D → ℤ → D → D × ℤ
  drag_end now size delta = (now, F.to_int (F.add (F.of_int size) delta))

  unfoldable pub drag_axis : Bool → Bool → D → ℤ → ℤ → D → D → D × ℤ
  drag_axis at_start at_end now at size delta geom =
      if at_start
      then drag_start at size delta geom
      else if at_end
      then drag_end now size delta
      else (now, size)

  -- width < 1 ? 1 : width, as a uint32_t
  abbrev pub at_least_one : ℤ → ℤ
  at_least_one a = if ltb_ℤ a (pos 1) then pos 1 else a

  -- The distance that the cursor has gone.
  abbrev pub gone_x : Cursor D → D
  gone_x c = F.sub c.x (F.of_int c.offs_x)

  abbrev pub gone_y : Cursor D → D
  gone_y c = F.sub c.y (F.of_int c.offs_y)

  abbrev pub resize_x : View D → Cursor D → D × ℤ
  resize_x view c =
      drag_axis c.resize_edges.left c.resize_edges.right (F.of_int view.box.x) c.view_x c.view_width
        (gone_x c) (F.mul (F.of_int (view_get_geometry F view).x) view.scale)

  abbrev pub resize_y : View D → Cursor D → D × ℤ
  resize_y view c =
      drag_axis c.resize_edges.top c.resize_edges.bottom (F.of_int view.box.y) c.view_y
        c.view_height (gone_y c) (F.mul (F.of_int (view_get_geometry F view).y) view.scale)

  unfoldable pub resize_by : ℕ → Cursor D → Cursor D
  resize_by v c =
      let view = c.desktop.view_of v in
      let (x, width) = resize_x view c in
      let (y, height) = resize_y view c in
      on_desktop
        (view_move_resize F v x y (F.to_u32 (F.of_int (at_least_one width)))
          (F.to_u32 (F.of_int (at_least_one height))) c.desktop)
        c

  module _ (get_output : View D → Option ℕ) (focused : ℕ → Bool) (output_at : D → D → Option ℕ)
      (box_of : Option ℕ → Box) where
    abbrev pub move_freely : ℕ → Cursor D → Desktop D
    move_freely v c =
        let view = c.desktop.view_of v in
        let geom = view_get_geometry F view in
        view_move F v
          (F.sub (F.add (F.of_int c.view_x) (gone_x c)) (F.mul (F.of_int geom.x) view.scale))
          (F.sub (F.add (F.of_int c.view_y) (gone_y c)) (F.mul (F.of_int geom.y) view.scale))
          (view_restore F get_output v c.desktop)

    -- At the top of the output the view is maximised, at the sides of a wide one it is tiled.
    abbrev pub snap_to : ℕ → Option ℕ → Box → Cursor D → Desktop D
    snap_to v o b c =
        let wide = ltb_ℤ b.height b.width in
        if F.less c.y (F.of_int (b.y +ℤ snap))
        then view_maximize F get_output v o c.desktop
        else if wide && F.less c.x (F.of_int (b.x +ℤ snap))
        then view_tile F get_output v tile_left o c.desktop
        else if wide && F.less (F.of_int ((b.x +ℤ b.width) -ℤ snap)) c.x
        then view_tile F get_output v tile_right o c.desktop
        else move_freely v c

    unfoldable pub move_by : ℕ → Cursor D → Option (Cursor D)
    move_by v c =
        let o = output_at c.x c.y in
        if view_is_fullscreen (c.desktop.view_of v)
        then elim (view_set_fullscreen F get_output focused v true o c.desktop) [
          | none ↦ none
          | some d ↦ some (on_desktop d c)
        ]
        else some (on_desktop (snap_to v o (box_of o) c) c)

    -- Without a focused view nothing is moved or resized.
    abbrev pub update_by : PhocCursorMode → Option ℕ → Cursor D → Option (Cursor D)
    update_by cursor_passthrough focus c = some (say passthrough c)
    update_by cursor_move none c = some c
    update_by cursor_move (some v) c = move_by v c
    update_by cursor_resize none c = some c
    update_by cursor_resize (some v) c = some (resize_by v c)

    unfoldable pub phoc_cursor_update_position : Option ℕ → Cursor D → Option (Cursor D)
    phoc_cursor_update_position focus c = update_by c.mode focus c
