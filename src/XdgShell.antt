-- ===== src/XdgShell.antt =====
-- src/xdg_shell.c: the views of xdg surfaces. Sizes that a client may have, a move and resize that waits
-- for the client's commit, and the requests of the client. What wlroots holds of a surface is the record
-- `XdgToplevel`; its answers are arguments.
mod Edges
mod Commit
mod Tests
use phoc.Prelude.{
  ℕ, ◌+◌, Bool, true, false, not, ◌&&◌, ◌||◌, List, [], ◌∷◌, ◌++◌, Option, none, some, ltb, leb,
  ◌==◌, if◌then◌else◌,
}
use phoc.Prelude.Int.{ℤ, pos, ◌-ℤ◌, eqb_ℤ}
use phoc.LayerShell.Geometry.{Box}
use phoc.View.State.{
  Numbers, View, PendingMoveResize, Desktop, put_view, view_is_floating, view_update_position,
}
use phoc.View.Operations.{view_maximize, view_restore}
use phoc.View.Fullscreen.{view_set_fullscreen, view_map, view_unmap}
use phoc.View.Tree.{view_set_parent, view_destroy}
use phoc.View.Scale.{view_update_size}

pub record XdgToplevel : Type 0 where
  pub is_toplevel : Bool  -- role == WLR_XDG_SURFACE_ROLE_TOPLEVEL
  pub min_width : ℕ
  pub min_height : ℕ
  pub max_width : ℕ
  pub max_height : ℕ
  pub mapped : Bool
  pub configure_serial : ℕ
  pub geometry : Box  -- wlr_xdg_surface_get_geometry

-- roots_xdg_surface, beside its view; `sizes` are the sizes that were sent to the client.
pub record XdgSurface : Type 0 where
  pub saved_geometry : Box
  pub pending_move_resize_configure_serial : ℕ
  pub sizes : List (ℕ × ℕ)

abbrev pub constrained : ℕ → ℕ → ℕ → ℕ
constrained min max a = if ltb a min then min else if ltb 0 max && ltb max a then max else a

unfoldable pub apply_size_constraints : XdgToplevel → ℕ → ℕ → ℕ × ℕ
apply_size_constraints t width height =
    (constrained t.min_width t.max_width width, constrained t.min_height t.max_height height)

abbrev pub set_size : ℕ → ℕ → XdgSurface → XdgSurface
set_size width height x = record x { sizes = x.sizes ++ ((width, height) ∷ []) }

unfoldable pub resize : XdgToplevel → ℕ → ℕ → XdgSurface → XdgSurface
unfolding apply_size_constraints
resize t width height x =
    let (w, h) = apply_size_constraints t width height in
    if not t.is_toplevel then x else set_size w h x

module _ {D : Type 0} (F : Numbers D) where
  -- The far edge stays where it was asked for when the size is constrained.
  abbrev pub constrained_at : Bool → D → ℕ → ℕ → D
  constrained_at update x asked given =
      if update then F.sub (F.add x (F.of_int (pos asked))) (F.of_int (pos given)) else x

  -- A serial is 0 when the client has the size already.
  abbrev pub on_serial : ℕ → ℕ → D → D → XdgSurface → Desktop D → XdgSurface × Desktop D
  on_serial serial v x y surface s =
      if ltb 0 serial
      then (record surface { pending_move_resize_configure_serial = serial }, s)
      else if surface.pending_move_resize_configure_serial == 0
      then (surface, view_update_position F v (F.to_int x) (F.to_int y) s)
      else (surface, s)

  abbrev pub to_move_resize : XdgToplevel → ℕ → D → D → ℕ → ℕ → View D → PendingMoveResize D
  to_move_resize t v x y width height view =
      let w = constrained t.min_width t.max_width width in
      let h = constrained t.min_height t.max_height height in
      let update_x = not (F.same x (F.of_int view.box.x)) in
      let update_y = not (F.same y (F.of_int view.box.y)) in
      record {
        update_x = update_x;
        update_y = update_y;
        x = constrained_at update_x x width w;
        y = constrained_at update_y y height h;
        width = w;
        height = h;
      }

  -- `serial` is what wlr_xdg_toplevel_set_size returns.
  unfoldable pub move_resize :
      XdgToplevel → ℕ → ℕ → D → D → ℕ → ℕ → XdgSurface → Desktop D → XdgSurface × Desktop D
  move_resize t serial v x y width height surface s =
      let p = to_move_resize t v x y width height (s.view_of v) in
      if not t.is_toplevel
      then (surface, s)
      else on_serial serial v p.x p.y (set_size p.width p.height surface)
          (put_view v (record (s.view_of v) { pending_move_resize = p }) s)

  -- The edge that does not move, less the size that the client has taken.
  abbrev pub committed_at : Bool → D → ℕ → ℤ → ℤ → D
  committed_at update x asked size now =
      if update then F.sub (F.add x (F.of_int (pos asked))) (F.of_int size) else F.of_int now

  abbrev pub place_pending : XdgToplevel → ℕ → XdgSurface → Desktop D → Desktop D
  place_pending t v surface s =
      let view = s.view_of v in
      let p = view.pending_move_resize in
      let pending = surface.pending_move_resize_configure_serial in
      let x = committed_at p.update_x p.x p.width t.geometry.width view.box.x in
      let y = committed_at p.update_y p.y p.height t.geometry.height view.box.y in
      if ltb 0 pending && leb t.configure_serial pending
      then view_update_position F v (F.to_int x) (F.to_int y) s
      else s

  abbrev pub clear_pending : XdgToplevel → XdgSurface → XdgSurface
  clear_pending t surface =
      let pending = surface.pending_move_resize_configure_serial in
      if (ltb 0 pending && leb t.configure_serial pending) && (pending == t.configure_serial)
      then record surface { pending_move_resize_configure_serial = 0 }
      else surface

  abbrev pub by_geometry : ℤ → ℤ → ℤ → D → ℤ
  by_geometry at saved now scale =
      F.to_int (F.add (F.of_int at) (F.mul (F.of_int (saved -ℤ now)) scale))

  -- A window whose geometry begins elsewhere in its surface stays where it is on the screen.
  abbrev pub follow_geometry : Box → Box → ℕ → Desktop D → Desktop D
  follow_geometry saved g v s =
      let view = s.view_of v in
      if not (eqb_ℤ saved.x g.x && eqb_ℤ saved.y g.y) && view_is_floating view
      then view_update_position F v (by_geometry view.box.x saved.x g.x view.scale)
          (by_geometry view.box.y saved.y g.y view.scale) s
      else s

  module _ (get_output : View D → Option ℕ) (seated : Bool) (cursor_output : Option ℕ) where
    abbrev pub committed : XdgToplevel → Bool → ℕ → XdgSurface → Desktop D → Desktop D
    committed t scales v surface s = follow_geometry surface.saved_geometry t.geometry v (
        place_pending t v surface (
          view_update_size F get_output seated cursor_output scales v t.geometry.width
            t.geometry.height s))

    unfoldable pub handle_surface_commit :
        XdgToplevel → Bool → ℕ → XdgSurface → Desktop D → XdgSurface × Desktop D
    handle_surface_commit t scales v surface s = if not t.mapped then (surface, s) else (
      record (clear_pending t surface) { saved_geometry = t.geometry },
      committed t scales v surface s,
    )

    unfoldable pub handle_request_maximize : XdgToplevel → Bool → ℕ → Desktop D → Desktop D
    handle_request_maximize t asked v s =
        if not t.is_toplevel
        then s
        else if asked
        then view_maximize F get_output v none s
        else view_restore F get_output v s

    module _ (focused : ℕ → Bool) where
      unfoldable pub handle_request_fullscreen :
          XdgToplevel → Bool → Option ℕ → ℕ → Desktop D → Option (Desktop D)
      handle_request_fullscreen t asked output v s =
          if not t.is_toplevel
          then some s
          else view_set_fullscreen F get_output focused v asked output s
