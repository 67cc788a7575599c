-- ===== src/View/Fullscreen.antt =====
-- src/view.c: fullscreen views, moves to another output, and mapping and unmapping. `focused` is whether
-- some seat has its focus on a view, `adjacent` the neighbour of an output. A null pointer's
-- dereference gives none.
use phoc.Prelude.{
  ℕ, Bool, true, false, not, ◌&&◌, List, [], ◌∷◌, Option, none, some, if◌then◌else◌, ◌==◌,
}
use phoc.Prelude.Int.{pos, ◌+ℤ◌, ◌-ℤ◌, half}
use phoc.LayerShell.Geometry.{Box}
use phoc.View.State.{
  Numbers, PhocViewState, floating, maximized, tiled, View, Output, set_fullscreen,
  handle_fullscreen, damage_output, Desktop, put_view, put_output, call, when, view_is_fullscreen,
  view_is_maximized, view_is_tiled, view_save, view_move_resize,
}
use phoc.View.Operations.{
  or_find, clear_output, view_center, view_arrange_maximized, view_arrange_tiled,
  view_auto_maximize, to_saved,
}

abbrev pub differs : Bool → Bool → Bool
differs true b = not b
differs false b = b

abbrev pub without : ℕ → List ℕ → List ℕ
without v [] = []
without v (w ∷ ws) = if w == v then ws else w ∷ without v ws

module _ {D : Type 0} where
  -- The saved position on the new output; its layout box has the output's position.
  abbrev pub saved_on : Output D → Box → Box
  saved_on o saved = record saved {
    x = o.usable_area.x +ℤ o.layout_box.x +ℤ half o.usable_area.width -ℤ half saved.width;
    y = o.usable_area.y +ℤ o.layout_box.y +ℤ half o.usable_area.height -ℤ half saved.height;
  }

module _ {D : Type 0} (F : Numbers D) (get_output : View D → Option ℕ) where
  abbrev pub tell_fullscreen : ℕ → Bool → Desktop D → Desktop D
  tell_fullscreen v b s =
      let view = s.view_of v in
      when view.toplevel_handle (handle_fullscreen v b)
        (when view.impl.has_set_fullscreen (set_fullscreen v b) s)

  -- The branch `if (fullscreen)`, for the output that was found.
  unfoldable pub enter_fullscreen : ℕ → ℕ → Desktop D → Desktop D
  enter_fullscreen v o s =
      let left = clear_output (s.view_of v).fullscreen_output s in
      let saved = put_view v (view_save F (left.view_of v)) left in
      let b = (saved.output_of o).layout_box in
      let moved =
        view_move_resize F v (F.of_int b.x) (F.of_int b.y) (F.to_u32 (F.of_int b.width))
          (F.to_u32 (F.of_int b.height)) saved in
      let taken =
        put_output o
          (record (moved.output_of o) { fullscreen_view = some v; force_shell_reveal = false })
          moved in
      call (damage_output o)
        (put_view v (record (taken.view_of v) { fullscreen_output = some o }) taken)

  abbrev pub by_state : ℕ → ℕ → PhocViewState → Desktop D → Desktop D
  by_state v o maximized s = view_arrange_maximized F get_output v (some o) s
  by_state v o tiled s = view_arrange_tiled F get_output v (some o) s
  by_state v o floating s = to_saved F get_output v s

  -- The branch `if (was_fullscreen && !fullscreen)`.
  unfoldable pub leave_fullscreen : ℕ → ℕ → Desktop D → Desktop D
  leave_fullscreen v o s =
      let cleared = clear_output (some o) s in
      let left = put_view v (record (s.view_of v) { fullscreen_output = none }) cleared in
      view_auto_maximize F get_output v
        (by_state v o (s.view_of v).state (call (damage_output o) left))

  abbrev pub enter_on : ℕ → Option ℕ → Desktop D → Option (Desktop D)
  enter_on v none s = none
  enter_on v (some o) s = if (s.output_of o).has_data then some (enter_fullscreen v o s) else some s

  abbrev pub fullscreen_switch : ℕ → Bool → Option ℕ → Option ℕ → Desktop D → Option (Desktop D)
  fullscreen_switch v true output was s = enter_on v (or_find output (get_output (s.view_of v))) s
  fullscreen_switch v false output none s = some s
  fullscreen_switch v false output (some o) s = some (leave_fullscreen v o s)

  module _ (focused : ℕ → Bool) where
    unfoldable pub view_set_fullscreen : ℕ → Bool → Option ℕ → Desktop D → Option (Desktop D)
    view_set_fullscreen v fullscreen output s =
        let view = s.view_of v in
        let was = view_is_fullscreen view in
        if differs was fullscreen && (fullscreen && view.mapped && not (focused v))
        then some s
        else fullscreen_switch v fullscreen output view.fullscreen_output
            (if differs was fullscreen then tell_fullscreen v fullscreen s else s)

    module _ (seated : Bool) (cursor_output : Option ℕ) (adjacent : ℕ → View D → Option ℕ) where
      abbrev pub arrange_on : ℕ → ℕ → Desktop D → Option (Desktop D)
      arrange_on v o s =
          let view = s.view_of v in
          if view_is_fullscreen view
          then view_set_fullscreen v true (some o) s
          else if view_is_maximized view
          then some (view_arrange_maximized F get_output v (some o) s)
          else if view_is_tiled view
          then some (view_arrange_tiled F get_output v (some o) s)
          else some (view_center F seated cursor_output v (some o) s)

      -- What the function returns is whether the second output was found.
      unfoldable pub view_move_to_next_output : ℕ → Desktop D → Option (Desktop D)
      view_move_to_next_output v s = elim (get_output (s.view_of v)) [
        | none ↦ some s
        | some o ↦ elim (adjacent o (s.view_of v)) [
          | none ↦ some s
          | some new ↦ arrange_on v new (
              put_view v
                (record (s.view_of v) { saved = saved_on (s.output_of new) (s.view_of v).saved }) s)
        ]
      ]

module _ {D : Type 0} where
  -- view_unmap without its children and the damage.
  unfoldable pub view_unmap : ℕ → Desktop D → Desktop D
  view_unmap v s =
      let view = s.view_of v in
      let left = clear_output view.fullscreen_output s in
      put_view v
        (record view {
          fullscreen_output = none;
          mapped = false;
          box = record view.box { width = pos 0; height = pos 0 };
          toplevel_handle = false;
        })
        (record left { views = without v left.views })

  -- view_map without the subsurfaces, the activation and the damage.
  unfoldable pub view_map : ℕ → Desktop D → Desktop D
  view_map v s =
      put_view v (record (s.view_of v) { mapped = true }) (record s { views = v ∷ s.views })
