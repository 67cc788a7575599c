-- ===== src/View/State.antt =====
-- src/view.c and src/view.h: roots_view, and what the operations on it share. The views and the outputs
-- are maps from their pointers, which are numbers. Floating-point numbers are the parameter `Numbers`:
-- nothing is assumed of them here. What a view asks of its shell and of its handle is logged in order.
use phoc.Prelude.{
  ℕ, Bool, true, false, not, ◌&&◌, List, [], ◌∷◌, ◌++◌, Option, none, some, if◌then◌else◌, ◌==◌,
}
use phoc.Prelude.Int.{ℤ, pos, eqb_ℤ}
use phoc.LayerShell.Geometry.{Box}

-- `double` and `float`, which the code mixes with `int` and `uint32_t`.
pub record Numbers (D : Type 0) : Type 0 where
  pub of_int : ℤ → D
  pub add : D → D → D
  pub sub : D → D → D
  pub mul : D → D → D
  pub div : D → D → D
  pub same : D → D → Bool
  pub less : D → D → Bool
  pub to_int : D → ℤ
  pub to_u32 : D → ℕ
  pub one_half : D

pub data PhocViewState : Type 0 where
  floating maximized tiled : PhocViewState

pub data PhocViewTileDirection : Type 0 where
  tile_left tile_right : PhocViewTileDirection

-- roots_view_interface: which optional operations there are, and what the questions answer.
pub record ViewInterface : Type 0 where
  pub has_move : Bool
  pub has_resize : Bool
  pub has_move_resize : Bool
  pub has_maximize : Bool
  pub has_set_fullscreen : Bool
  pub want_auto_maximize : Option Bool
  pub get_geometry : Option Box
  pub is_xwayland : Bool

abbrev pub is_state : PhocViewState → PhocViewState → Bool
is_state floating floating = true
is_state maximized maximized = true
is_state tiled tiled = true
is_state s t = false

module _ (D : Type 0) where
  pub record PendingMoveResize : Type 0 where
    pub update_x : Bool
    pub update_y : Bool
    pub x : D
    pub y : D
    pub width : ℕ
    pub height : ℕ

  pub record View : Type 0 where
    pub impl : ViewInterface
    pub box : Box
    pub scale : D
    pub state : PhocViewState
    pub tile_direction : PhocViewTileDirection
    pub fullscreen_output : Option ℕ
    pub saved : Box
    pub pending_move_resize : PendingMoveResize
    pub pending_centering : Bool
    pub parent : Option ℕ
    pub stack : List ℕ
    pub mapped : Bool  -- wlr_surface != NULL
    pub toplevel_handle : Bool  -- != NULL

  pub record Output : Type 0 where
    pub layout_box : Box  -- wlr_output_layout_get_box
    pub usable_area : Box
    pub fullscreen_view : Option ℕ
    pub force_shell_reveal : Bool
    pub has_data : Bool  -- wlr_output::data != NULL

  pub data Call : Type 0 where
    move : ℕ → D → D → Call
    resize : ℕ → ℕ → ℕ → Call
    move_resize : ℕ → D → D → ℕ → ℕ → Call
    maximize : ℕ → Bool → Call
    set_fullscreen : ℕ → Bool → Call
    handle_maximized : ℕ → Bool → Call
    handle_fullscreen : ℕ → Bool → Call
    damage_output : ℕ → Call

  pub record Desktop : Type 0 where
    pub view_of : ℕ → View
    pub output_of : ℕ → Output
    pub views : List ℕ  -- PhocDesktop::views
    pub outputs : List ℕ  -- PhocDesktop::outputs
    pub maximize : Bool
    pub calls : List Call

-- A write to one place of a map.
abbrev pub at {ℓ} : {A : Type ℓ} → ℕ → A → (ℕ → A) → ℕ → A
at i a f j = if j == i then a else f j

module _ {D : Type 0} where
  abbrev pub put_view : ℕ → View D → Desktop D → Desktop D
  put_view v w s = record s { view_of = at v w s.view_of }

  abbrev pub put_output : ℕ → Output D → Desktop D → Desktop D
  put_output o w s = record s { output_of = at o w s.output_of }

  abbrev pub call : Call D → Desktop D → Desktop D
  call c s = record s { calls = s.calls ++ (c ∷ []) }

  abbrev pub when : Bool → Call D → Desktop D → Desktop D
  when b c s = if b then call c s else s

  abbrev pub view_is_fullscreen : View D → Bool
  view_is_fullscreen v = elim v.fullscreen_output [ none ↦ false | some o ↦ true ]

  abbrev pub view_is_floating : View D → Bool
  view_is_floating v = is_state v.state floating && not (view_is_fullscreen v)

  abbrev pub view_is_maximized : View D → Bool
  view_is_maximized v = is_state v.state maximized && not (view_is_fullscreen v)

  abbrev pub view_is_tiled : View D → Bool
  view_is_tiled v = is_state v.state tiled && not (view_is_fullscreen v)

  -- view_resize
  abbrev pub view_resize : ℕ → ℕ → ℕ → Desktop D → Desktop D
  view_resize v w h s = when (s.view_of v).impl.has_resize (resize v w h) s

  module _ (F : Numbers D) where
    abbrev pub view_get_geometry : View D → Box
    view_get_geometry v = elim v.impl.get_geometry [
      | some geom ↦ geom
      | none ↦ record {
        x = pos 0;
        y = pos 0;
        width = F.to_int (F.mul (F.of_int v.box.width) v.scale);
        height = F.to_int (F.mul (F.of_int v.box.height) v.scale);
      }
    ]

    -- saved.x and saved.y, from the box and the geometry.
    abbrev pub saved_at : ℤ → ℤ → D → ℤ
    saved_at b g scale = F.to_int (F.add (F.of_int b) (F.mul (F.of_int g) scale))

    unfoldable pub view_save : View D → View D
    view_save v =
        if view_is_floating v
        then record v {
          saved = record {
            x = saved_at v.box.x (view_get_geometry v).x v.scale;
            y = saved_at v.box.y (view_get_geometry v).y v.scale;
            width = v.box.width;
            height = v.box.height;
          };
        }
        else v

    -- view_update_position; the arguments are `int`s.
    abbrev pub view_update_position : ℕ → ℤ → ℤ → Desktop D → Desktop D
    view_update_position v x y s =
        let view = s.view_of v in
        if eqb_ℤ view.box.x x && eqb_ℤ view.box.y y
        then s
        else put_view v (record view { box = record view.box { x = x; y = y } }) s

    unfoldable pub view_move : ℕ → D → D → Desktop D → Desktop D
    view_move v x y s =
        let view = s.view_of v in
        if F.same (F.of_int view.box.x) x && F.same (F.of_int view.box.y) y
        then s
        else let stopped =
            put_view v
              (record view {
                pending_move_resize = record view.pending_move_resize {
                  update_x = false;
                  update_y = false;
                };
                pending_centering = false;
              })
              s in
          if view.impl.has_move
          then call (move v x y) stopped
          else view_update_position v (F.to_int x) (F.to_int y) stopped

    unfoldable pub view_move_resize : ℕ → D → D → ℕ → ℕ → Desktop D → Desktop D
    view_move_resize v x y w h s =
        let view = s.view_of v in
        let update_x = not (F.same x (F.of_int view.box.x)) in
        let update_y = not (F.same y (F.of_int view.box.y)) in
        if not update_x && not update_y
        then view_resize v w h s
        else if view.impl.has_move_resize
        then call (move_resize v x y w h) s
        else view_resize v w h (
            put_view v
              (record view {
                pending_move_resize = record {
                  update_x = update_x;
                  update_y = update_y;
                  x = x;
                  y = y;
                  width = w;
                  height = h;
                };
              })
              s)
