-- ===== src/Cursor/Tests.antt =====
-- A window with a shadow of seven by nine around it, moved and resized with the mouse.
use phoc.Prelude.{ℕ, ◌≡◌, refl, true, false, [], ◌∷◌, Option, none, some}
use phoc.Prelude.Int.{ℤ, pos, negsuc, ◌+ℤ◌, ◌-ℤ◌}
use phoc.View.State.{View}
use phoc.View.Exact.{IsExact}
use phoc.View.Examples.{integers, window, outputs}
use phoc.Seat.State.{cursor_passthrough}
use phoc.Cursor.{
  Edges, Cursor, phoc_seat_begin_resize, phoc_seat_begin_move, phoc_seat_end_compositor_grab,
}
use phoc.Cursor.Motion.{at_least_one, resize_x}
use phoc.Cursor.Resizing.{FarEdge, dragged, phoc_seat_begin_resize-FarEdge}
use phoc.Cursor.Cancel.{phoc_seat_end_compositor_grab-begin_move}

abbrev shadowed : View ℤ
shadowed = record (window none none) {
  impl = record (window none none).impl {
    get_geometry = some (record { x = pos 7; y = pos 9; width = pos 286; height = pos 182 });
  };
}

abbrev no_edges : Edges
no_edges = record { top = false; bottom = false; left = false; right = false }

abbrev left_edge : Edges
left_edge = record no_edges { left = true }

abbrev pointer : Cursor ℤ
pointer = record {
  mode = cursor_passthrough;
  x = pos 15;
  y = pos 30;
  offs_x = pos 0;
  offs_y = pos 0;
  view_x = pos 0;
  view_y = pos 0;
  view_width = pos 0;
  view_height = pos 0;
  resize_edges = no_edges;
  touch_id = negsuc 0;
  touch_x = pos 0;
  touch_y = pos 0;
  cursor_calls = [];
  desktop = record {
    view_of = λ i. shadowed;
    output_of = outputs;
    views = 1 ∷ [];
    outputs = 0 ∷ [];
    maximize = false;
    calls = [];
  };
}

abbrev stay : ℤ → ℤ → ℤ × ℤ
stay x y = (x, y)

abbrev output : View ℤ → Option ℕ
output v = some 0

exact : IsExact integers
exact = record { add = λ a b. refl; sub = λ a b. refl; to_int = λ a. refl; same = λ a b. refl }

-- Past the right edge of the window.
abbrev past : Cursor ℤ
past =
    dragged integers exact stay output (pos 500) (pos 0)
      (phoc_seat_begin_resize integers stay output 1 left_edge pointer)

phoc_seat_begin_resize-FarEdge_example :
    FarEdge
      (pos 310)
      (pos 300 -ℤ pos 500)
      (resize_x integers shadowed past).0
      (at_least_one integers (resize_x integers shadowed past).1)
unfolding ◌+ℤ◌
phoc_seat_begin_resize-FarEdge_example =
    phoc_seat_begin_resize-FarEdge integers exact stay output 1 left_edge pointer (pos 15) (pos 500)
      (pos 0) (pos 7) refl refl refl refl refl refl

phoc_seat_end_compositor_grab-begin_move_example :
    ((phoc_seat_end_compositor_grab integers stay
        (some 1)
        (phoc_seat_begin_move integers stay output 1 pointer)).desktop.view_of
      1).box
    ≡ record { x = pos 17; y = pos 29; width = pos 300; height = pos 200 }
unfolding ◌+ℤ◌
phoc_seat_end_compositor_grab-begin_move_example =
    phoc_seat_end_compositor_grab-begin_move integers exact stay output 1 pointer (pos 7) (pos 9)
      refl refl refl refl refl refl refl
