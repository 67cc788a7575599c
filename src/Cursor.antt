-- ===== src/Cursor.antt =====
-- src/cursor.c and src/seat.c: moving and resizing a view with the pointer, from phoc_seat_begin_move or
-- phoc_seat_begin_resize over phoc_cursor_update_position to phoc_seat_end_compositor_grab. `focus` is
-- phoc_seat_get_focus of the seat; what wlroots does is an argument.
pub mod Motion
mod Resizing
mod Cancel
mod Tests
use phoc.Prelude.{
  ℕ, Bool, true, false, not, ◌&&◌, ◌||◌, List, [], ◌∷◌, ◌++◌, Option, none, some, if◌then◌else◌,
}
use phoc.Prelude.Int.{ℤ, pos, negsuc, ◌+ℤ◌, ◌-ℤ◌, ltb_ℤ, eqb_ℤ}
use phoc.LayerShell.Geometry.{Box}
use phoc.View.State.{
  Numbers, tile_left, tile_right, View, Desktop, put_view, view_is_fullscreen, view_is_maximized,
  view_is_tiled, view_get_geometry, view_move, view_move_resize,
}
use phoc.View.Operations.{view_maximize, view_restore, view_tile}
use phoc.View.Fullscreen.{view_set_fullscreen}
use phoc.Seat.State.{PhocCursorMode, cursor_passthrough, cursor_move, cursor_resize, view_get_box}

-- The bits of the edges.
pub record Edges : Type 0 where
  pub top : Bool
  pub bottom : Bool
  pub left : Bool
  pub right : Bool

pub data CursorCall : Type 0 where
  pointer_clear_focus : CursorCall
  set_cursor_move : CursorCall
  set_cursor_resize : Edges → CursorCall
  passthrough : CursorCall  -- roots_passthrough_cursor

module _ (D : Type 0) where
  pub record Cursor : Type 0 where
    pub mode : PhocCursorMode
    pub x : D  -- cursor->cursor->x
    pub y : D
    pub offs_x : ℤ
    pub offs_y : ℤ
    pub view_x : ℤ
    pub view_y : ℤ
    pub view_width : ℤ
    pub view_height : ℤ
    pub resize_edges : Edges
    pub touch_id : ℤ  -- of the seat, with touch_x and touch_y
    pub touch_x : D
    pub touch_y : D
    pub cursor_calls : List CursorCall
    pub desktop : Desktop D

module _ {D : Type 0} where
  abbrev pub say : CursorCall → Cursor D → Cursor D
  say call c = record c { cursor_calls = c.cursor_calls ++ (call ∷ []) }

  abbrev pub on_desktop : Desktop D → Cursor D → Cursor D
  on_desktop d c = record c { desktop = d }

  module _ (F : Numbers D) (warp : D → D → D × D) where
    abbrev pub warped_to : D × D → Cursor D → Cursor D
    warped_to (x, y) c = record c { x = x; y = y }

    -- To the first touch point, if there is one.
    abbrev pub touched : Cursor D → Cursor D
    touched c = if eqb_ℤ c.touch_id (negsuc 0) then c else warped_to (warp c.touch_x c.touch_y) c

    -- The offsets are where the cursor is at the start.
    abbrev pub mark : PhocCursorMode → Cursor D → Cursor D
    mark mode c = record c { mode = mode; offs_x = F.to_int c.x; offs_y = F.to_int c.y }

    abbrev pub start : PhocCursorMode → Cursor D → Cursor D
    start mode c = mark mode (touched c)

    -- The cursor keeps its place, from 0 to 1, along a side of the window.
    abbrev pub beside : D → ℤ → ℤ → ℤ → ℤ
    beside at start size saved =
        F.to_int
          (F.sub at (F.mul (F.div (F.sub at (F.of_int start)) (F.of_int size)) (F.of_int saved)))

    abbrev pub from_geometry : ℤ → ℤ → D → ℤ
    from_geometry at geom scale = F.to_int (F.add (F.of_int at) (F.mul (F.of_int geom) scale))

    module _ (get_output : View D → Option ℕ) where
      -- A maximised or tiled window gets its saved size back under the cursor.
      abbrev pub pick_up : ℕ → Cursor D → Cursor D
      pick_up v c =
          let view = c.desktop.view_of v in
          let x = beside c.x view.box.x view.box.width view.saved.width in
          let y = beside c.y view.box.y view.box.height view.saved.height in
          record c {
            view_x = x;
            view_y = y;
            desktop =
                view_restore F get_output v (
                  put_view v (record view { saved = record view.saved { x = x; y = y } })
                    c.desktop);
          }

      abbrev pub place_view : ℕ → Cursor D → Cursor D
      place_view v c =
          let view = c.desktop.view_of v in
          let geom = view_get_geometry F view in
          record c {
            view_x = from_geometry view.box.x geom.x view.scale;
            view_y = from_geometry view.box.y geom.y view.scale;
          }

      abbrev pub is_placed : View D → Bool
      is_placed view = view_is_maximized view || view_is_tiled view

      abbrev pub begin_move : ℕ → Cursor D → Cursor D
      begin_move v c =
          let placed = if is_placed (c.desktop.view_of v) then pick_up v c else place_view v c in
          say set_cursor_move (say pointer_clear_focus placed)

      unfoldable pub phoc_seat_begin_move : ℕ → Cursor D → Cursor D
      phoc_seat_begin_move v c =
          if c.desktop.maximize then c else begin_move v (start cursor_move c)

      -- A maximised or tiled window keeps its box when it is resized.
      abbrev pub keep_box : ℕ → Cursor D → Cursor D
      keep_box v c =
          let view = c.desktop.view_of v in
          let geom = view_get_geometry F view in
          on_desktop
            (view_restore F get_output v (
              put_view v
                (record view {
                  saved = record {
                    x = from_geometry view.box.x geom.x view.scale;
                    y = from_geometry view.box.y geom.y view.scale;
                    width = view.box.width;
                    height = view.box.height;
                  };
                })
                c.desktop))
            c

      -- The geometry was read before the window was restored.
      abbrev pub measure : Box → ℕ → Edges → Cursor D → Cursor D
      measure geom v edges c =
          let view = c.desktop.view_of v in
          let box = view_get_box F view in
          record c {
            view_x = from_geometry view.box.x geom.x view.scale;
            view_y = from_geometry view.box.y geom.y view.scale;
            view_width = box.width;
            view_height = box.height;
            resize_edges = edges;
          }

      abbrev pub begin_resize : ℕ → Edges → Cursor D → Cursor D
      begin_resize v edges c =
          let view = c.desktop.view_of v in
          let kept = if is_placed view then keep_box v c else c in
          say (set_cursor_resize edges)
            (say pointer_clear_focus (measure (view_get_geometry F view) v edges kept))

      unfoldable pub phoc_seat_begin_resize : ℕ → Edges → Cursor D → Cursor D
      phoc_seat_begin_resize v edges c =
          if c.desktop.maximize || view_is_fullscreen (c.desktop.view_of v)
          then c
          else begin_resize v edges (start cursor_resize c)

    -- By the mode; an update of the focus under the cursor follows.
    abbrev pub take_back : ℕ → PhocCursorMode → Cursor D → Cursor D
    take_back v cursor_move c =
        if view_is_fullscreen (c.desktop.view_of v)
        then c
        else on_desktop (view_move F v (F.of_int c.view_x) (F.of_int c.view_y) c.desktop) c
    take_back v cursor_resize c =
        on_desktop
          (view_move_resize F v (F.of_int c.view_x) (F.of_int c.view_y)
            (F.to_u32 (F.of_int c.view_width)) (F.to_u32 (F.of_int c.view_height)) c.desktop)
          c
    take_back v cursor_passthrough c = c

    unfoldable pub phoc_seat_end_compositor_grab : Option ℕ → Cursor D → Cursor D
    phoc_seat_end_compositor_grab none c = c
    phoc_seat_end_compositor_grab (some v) c =
        say passthrough (record (take_back v c.mode c) { mode = cursor_passthrough })
