-- ===== src/Seat/State.antt =====
-- src/seat.c, src/seat.h: the state of a seat that its focus depends on, beside the views and outputs of
-- the desktop. What wlroots answers is the parameter `Outside`. What the seat tells clients, the cursor
-- and the input method is logged in order; view_activate of src/view.c stands here for that log.
use Prim.Native.String.{String}
use text.Mathlib.Text.{starts_with}
use phoc.Prelude.{
  ℕ, Bool, true, false, not, ◌||◌, List, [], ◌∷◌, ◌++◌, Option, none, some, if◌then◌else◌, ◌==◌,
}
use phoc.LayerShell.Geometry.{Box}
use phoc.View.State.{Numbers, View, damage_output, Desktop, put_output, call}
use phoc.Input.{Seat, phoc_seat_get_focus}

pub data PhocCursorMode : Type 0 where
  cursor_passthrough cursor_move cursor_resize : PhocCursorMode

-- A surface with the focus: that of a view, or a layer surface.
pub data Surface : Type 0 where
  of_view : ℕ → Surface
  of_layer : ℕ → Surface

pub data Notice : Type 0 where
  activate : ℕ → Bool → Notice  -- impl->activate
  set_activated : ℕ → Bool → Notice  -- of the foreign toplevel handle
  keyboard_enter : Surface → Bool → Notice  -- with the keys of a keyboard, or without
  keyboard_clear_focus : Notice
  keyboard_end_grab : Notice
  tablet_pad_enter : ℕ → ℕ → Notice
  input_method_focus : Option Surface → Notice
  cursor_update_focus : Notice
  pointer_clear_focus : Notice
  touch_point_clear_focus : ℕ → Notice
  arranges_layers : ℕ → Notice  -- arrange_layers (output)

pub record TouchPoint : Type 0 where
  pub client : ℕ
  pub touch_id : ℕ

module _ (D : Type 0) where
  pub record World : Type 0 where
    pub desktop : Desktop D
    pub seat : Seat
    pub others : List Seat  -- the other seats of the input
    pub app_id : ℕ → Option String  -- of a view
    pub focused_layer : Option ℕ
    pub exclusive_client : Option ℕ
    pub mode : PhocCursorMode  -- seat->cursor->mode
    pub pointer_view : Option ℕ  -- the view of seat->cursor->pointer_view
    pub tablet_pads : List (Option ℕ)  -- the tablet of each pad
    pub notices : List Notice

  pub record Outside : Type 0 where
    pub client_of : ℕ → ℕ  -- wl_resource_get_client, of a view's surface
    pub layer_client : ℕ → ℕ  -- and of a layer surface
    pub layer_of : ℕ → ℕ  -- layer->current.layer
    pub topmost : ℕ → Option ℕ  -- what arrange_layers finds topmost, of an output
    pub override_redirect : ℕ → Bool
    pub wants_focus : ℕ → Bool  -- wlr_xwayland_or_surface_wants_focus
    pub intersects : ℕ → Box → Bool  -- wlr_output_layout_intersects
    pub get_output : View D → Option ℕ
    pub has_keyboard : Bool  -- wlr_seat_get_keyboard gives one
    pub pointer_client : Option ℕ  -- pointer_state.focused_client
    pub touch_points : List TouchPoint
    pub has_memory : Bool  -- calloc gives memory

abbrev pub is_waydroid : Option String → Bool
is_waydroid none = false
is_waydroid (some id) = starts_with id "waydroid."

abbrev pub is_exclusive : Option ℕ → ℕ → Bool
is_exclusive none c = true
is_exclusive (some e) c = c == e

module _ {D : Type 0} where
  abbrev pub tell : Notice → World D → World D
  tell n w = record w { notices = w.notices ++ (n ∷ []) }

  abbrev pub tell_if : Bool → Notice → World D → World D
  tell_if b n w = if b then tell n w else w

  abbrev pub set_views : List ℕ → World D → World D
  set_views vs w = record w { seat = record w.seat { views = vs } }

  abbrev pub set_has_focus : Bool → World D → World D
  set_has_focus b w = record w { seat = record w.seat { has_focus = b } }

  abbrev pub on_desktop : Desktop D → World D → World D
  on_desktop d w = record w { desktop = d }

  abbrev pub focus_of : World D → Option ℕ
  focus_of w = phoc_seat_get_focus w.seat

  -- A fullscreen view that is activated hides the shell again, which its output was made to show.
  abbrev pub hide_shell : Option ℕ → Desktop D → Desktop D
  hide_shell none d = d
  hide_shell (some o) d =
      if (d.output_of o).force_shell_reveal
      then call (damage_output o)
          (put_output o (record (d.output_of o) { force_shell_reveal = false }) d)
      else d

  unfoldable pub view_activate : ℕ → Bool → World D → World D
  view_activate v b w =
      let view = w.desktop.view_of v in
      let shown = tell_if (is_waydroid (w.app_id v) || not w.desktop.maximize) (activate v b) w in
      let told = tell_if view.toplevel_handle (set_activated v b) shown in
      on_desktop (if b then hide_shell view.fullscreen_output w.desktop else w.desktop) told

  -- For the client of the resource.
  unfoldable pub phoc_seat_allow_input : World D → ℕ → Bool
  phoc_seat_allow_input w c = is_exclusive w.exclusive_client c

  module _ (F : Numbers D) where
    -- The products are truncated in the assignments.
    abbrev pub view_get_box : View D → Box
    view_get_box v = record v.box {
      width = F.to_int (F.mul (F.of_int v.box.width) v.scale);
      height = F.to_int (F.mul (F.of_int v.box.height) v.scale);
    }
