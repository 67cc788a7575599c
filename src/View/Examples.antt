-- ===== src/View/Examples.antt =====
-- Windows and outputs to try src/view.c and src/seat.c on. The numbers are integers: all the windows have
-- the scale 1, so that a product with the scale is the number itself.
use phoc.Prelude.{ℕ, true, false, [], Option, none}
use phoc.Prelude.Int.{ℤ, pos, ◌+ℤ◌, ◌-ℤ◌, eqb_ℤ, ltb_ℤ, pos_part}
use phoc.LayerShell.Geometry.{Box}
use phoc.View.State.{Numbers, floating, tile_left, View, Output}

abbrev pub integers : Numbers ℤ
integers = record {
  of_int = λ a. a;
  add = ◌+ℤ◌;
  sub = ◌-ℤ◌;
  mul = λ a b. a;
  div = λ a b. a;
  same = eqb_ℤ;
  less = ltb_ℤ;
  to_int = λ a. a;
  to_u32 = pos_part;
  one_half = pos 0;
}

abbrev pub box : Box
box = record { x = pos 10; y = pos 20; width = pos 300; height = pos 200 }

abbrev pub screen : Box
screen = record { x = pos 0; y = pos 0; width = pos 360; height = pos 720 }

abbrev pub window : Option ℕ → Option ℕ → View ℤ
window output parent = record {
  impl = record {
    has_move = false;
    has_resize = true;
    has_move_resize = false;
    has_maximize = true;
    has_set_fullscreen = true;
    want_auto_maximize = none;
    get_geometry = none;
    is_xwayland = false;
  };
  box = box;
  scale = pos 1;
  state = floating;
  tile_direction = tile_left;
  fullscreen_output = output;
  saved = box;
  pending_move_resize = record {
    update_x = false;
    update_y = false;
    x = pos 0;
    y = pos 0;
    width = 0;
    height = 0;
  };
  pending_centering = false;
  parent = parent;
  stack = [];
  mapped = true;
  toplevel_handle = true;
}

abbrev pub outputs : ℕ → Output ℤ
outputs o = record {
  layout_box = screen;
  usable_area = screen;
  fullscreen_view = none;
  force_shell_reveal = false;
  has_data = true;
}
