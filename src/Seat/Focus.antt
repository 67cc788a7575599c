-- ===== src/Seat/Focus.antt =====
-- src/seat.c: the list of views of a seat, and phoc_seat_set_focus, phoc_seat_cycle_focus,
-- seat_view_destroy, phoc_seat_set_focus_layer and phoc_seat_set_exclusive_client. None is a null
-- pointer's dereference, or fuel that has run out.
use phoc.Prelude.{
  ℕ, zero, suc, Bool, true, false, not, ◌&&◌, List, [], ◌∷◌, ◌++◌, Option, none, some, ◌>>=◌, leb,
  if◌then◌else◌, ◌==◌,
}
use phoc.View.State.{Numbers}
use phoc.View.Fullscreen.{without}
use phoc.Input.{is_view, phoc_input_view_has_focus}
use phoc.Seat.State.{
  cursor_passthrough, of_view, of_layer, keyboard_enter, keyboard_clear_focus, keyboard_end_grab,
  tablet_pad_enter, input_method_focus, cursor_update_focus, pointer_clear_focus,
  touch_point_clear_focus, arranges_layers, TouchPoint, World, Outside, tell, tell_if, set_views,
  set_has_focus, on_desktop, focus_of, view_activate, phoc_seat_allow_input,
}
use phoc.Seat.Stack.{raise_view}

abbrev pub has : ℕ → List ℕ → Bool
has v [] = false
has v (w ∷ ws) = if w == v then true else has v ws

-- phoc_seat_view_from_view: a new view goes to the end of the list, if there is memory.
unfoldable pub phoc_seat_view_from_view : Bool → ℕ → List ℕ → Option (List ℕ)
phoc_seat_view_from_view has_memory v vs =
    if has v vs then some vs else if has_memory then some (vs ++ (v ∷ [])) else none

-- ZWLR_LAYER_SHELL_V1_LAYER_TOP
abbrev pub layer_top : ℕ
layer_top = 2

module _ {D : Type 0} where
  -- Unless it is focused by some other seat; the seat itself has no focus then.
  abbrev pub deactivate : Option ℕ → World D → World D
  deactivate none w = w
  deactivate (some u) w =
      if phoc_input_view_has_focus (w.seat ∷ w.others) (some u) then w else view_activate u false w

  abbrev pub enter_pads : ℕ → List (Option ℕ) → World D → World D
  enter_pads v [] w = w
  enter_pads v (none ∷ ts) w = enter_pads v ts w
  enter_pads v (some t ∷ ts) w = enter_pads v ts (tell (tablet_pad_enter t v) w)

  abbrev pub enter_view : Bool → ℕ → World D → World D
  enter_view keyboard v w =
      let entered = tell (keyboard_enter (of_view v) keyboard) (tell keyboard_end_grab w) in
      let padded = if keyboard then enter_pads v w.tablet_pads entered else entered in
      tell (input_method_focus (some (of_view v))) (tell cursor_update_focus padded)

  -- The views' list is `vs`, with the view in it; the previous focus loses it.
  abbrev pub leave_focus : Option ℕ → List ℕ → World D → World D
  leave_focus prev vs w = deactivate prev (set_has_focus false (set_views vs w))

  -- A focused layer keeps the keyboard.
  abbrev pub by_layer : Option ℕ → Bool → ℕ → World D → World D
  by_layer (some l) keyboard v w = w
  by_layer none keyboard v w = enter_view keyboard v (set_has_focus true (view_activate v true w))

  unfoldable pub take_focus : Bool → ℕ → World D → World D
  take_focus keyboard v w =
      by_layer w.focused_layer keyboard v (set_views (v ∷ without v w.seat.views) w)

  -- phoc_seat_set_focus (seat, NULL)
  unfoldable pub clear_focus : World D → World D
  clear_focus w =
      let left = leave_focus (focus_of w) w.seat.views w in
      tell (input_method_focus none)
        (tell keyboard_clear_focus (record left { mode = cursor_passthrough }))

  abbrev pub move_to_end : ℕ → World D → World D
  move_to_end v w = set_views (without v w.seat.views ++ (v ∷ [])) w

  abbrev pub drop_view : ℕ → World D → World D
  drop_view v w =
      let lost =
        if is_view v (focus_of w)
        then record (set_has_focus false w) { mode = cursor_passthrough }
        else w in
      let left = if is_view v w.pointer_view then record lost { pointer_view = none } else lost in
      set_views (without v w.seat.views) left

  -- With has_focus and no view the dereference of the previous focus fails.
  abbrev pub unfocus_view : Option ℕ → World D → Option (World D)
  unfocus_view none w = if w.seat.has_focus then none else some w
  unfocus_view (some u) w = some (view_activate u false (tell keyboard_clear_focus w))

  abbrev pub clear_touch_points : ℕ → List TouchPoint → World D → World D
  clear_touch_points c [] w = w
  clear_touch_points c (p ∷ ps) w =
      clear_touch_points c ps (tell_if (not (p.client == c)) (touch_point_clear_focus p.touch_id) w)

  abbrev pub release_pointer : ℕ → Option ℕ → World D → World D
  release_pointer c none w = w
  release_pointer c (some p) w = tell_if (not (p == c)) pointer_clear_focus w

  module _ (F : Numbers D) (E : Outside D) where
    -- From phoc_seat_get_focus to the end of phoc_seat_set_focus.
    unfoldable pub give_focus : ℕ → World D → World D
    give_focus v w =
        let prev = focus_of w in
        if is_view v prev
        then w
        else if (w.desktop.view_of v).impl.is_xwayland && not (E.wants_focus v)
        then w
        else elim (phoc_seat_view_from_view E.has_memory v w.seat.views) [
          | none ↦ w
          | some vs ↦ take_focus E.has_keyboard v (leave_focus prev vs w)
        ]

    abbrev pub focus_view : ℕ → ℕ → World D → Option (World D)
    focus_view n v w = raise_view F E (w.seat ∷ w.others) n v w.desktop >>= λ d.
        some (give_focus v (on_desktop d w))

    unfoldable pub phoc_seat_set_focus : ℕ → Option ℕ → World D → Option (World D)
    phoc_seat_set_focus n none w = some (clear_focus w)
    phoc_seat_set_focus n (some v) w =
        if not (w.desktop.view_of v).mapped
        then none
        else if not (phoc_seat_allow_input w (E.client_of v))
        then some w
        else focus_view n v w

    abbrev pub cycle_views : ℕ → List ℕ → World D → Option (World D)
    cycle_views n [] w = some w
    cycle_views n (a ∷ []) w =
        if not w.seat.has_focus then phoc_seat_set_focus n (some a) w else some w
    cycle_views n (a ∷ b ∷ vs) w =
        if not w.seat.has_focus
        then phoc_seat_set_focus n (some a) w
        else phoc_seat_set_focus n (some b) w >>= λ t. some (move_to_end a t)

    unfoldable pub phoc_seat_cycle_focus : ℕ → World D → Option (World D)
    phoc_seat_cycle_focus n w = cycle_views n w.seat.views w

    -- What is focused once a view of the seat is gone.
    abbrev pub focus_next : ℕ → Option ℕ → List ℕ → World D → Option (World D)
    focus_next n (some p) vs w = phoc_seat_set_focus n (some p) w
    focus_next n none [] w = some w
    focus_next n none (v ∷ vs) w = phoc_seat_set_focus n (some v) w

    unfoldable pub seat_view_destroy : ℕ → ℕ → World D → Option (World D)
    seat_view_destroy n v w =
        focus_next n (w.desktop.view_of v).parent (without v w.seat.views) (drop_view v w)

    abbrev pub focus_first : ℕ → List ℕ → World D → Option (World D)
    focus_first n [] w = phoc_seat_set_focus n none w
    focus_first n (v ∷ vs) w = phoc_seat_set_focus n (some v) w

    abbrev pub enter_layer : ℕ → World D → World D
    enter_layer l w =
        let free = set_has_focus false w in
        let held =
          if leb layer_top (E.layer_of l) then record free { focused_layer = some l } else free in
        tell (input_method_focus (some (of_layer l)))
          (tell cursor_update_focus (tell (keyboard_enter (of_layer l) E.has_keyboard) held))

    -- phoc_seat_set_focus_layer with a layer surface.
    abbrev pub focus_layer : ℕ → World D → Option (World D)
    focus_layer l w =
        if not (phoc_seat_allow_input w (E.layer_client l))
        then some w
        else unfocus_view (focus_of w) w >>= λ t. some (enter_layer l t)

    -- The end of arrange_layers, which gives the seat its topmost layer surface or NULL.
    abbrev pub focus_topmost : (World D → Option (World D)) → Option ℕ → World D → Option (World D)
    focus_topmost unfocus none w = unfocus w
    focus_topmost unfocus (some l) w = focus_layer l w

    -- `unfocus` is phoc_seat_set_focus_layer (seat, NULL).
    abbrev pub arrange_all : (World D → Option (World D)) → List ℕ → World D → Option (World D)
    arrange_all unfocus [] w = some w
    arrange_all unfocus (o ∷ os) w =
        focus_topmost unfocus (E.topmost o) (tell (arranges_layers o) w) >>= arrange_all unfocus os

    -- phoc_seat_set_focus_layer (seat, NULL), which calls itself through arrange_layers; the fuel bounds
    -- how deep.
    unfoldable pub unfocus_layer : ℕ → ℕ → World D → Option (World D)
    unfocus_layer zero n w = elim w.focused_layer [ none ↦ some w | some l ↦ none ]
    unfocus_layer (suc k) n w =
        let again = unfocus_layer k n in
        elim w.focused_layer [
          | none ↦ some w
          | some l ↦ focus_first n w.seat.views (record w { focused_layer = none }) >>= λ t.
              arrange_all again t.desktop.outputs t
        ]

    unfoldable pub phoc_seat_set_focus_layer : ℕ → ℕ → Option ℕ → World D → Option (World D)
    phoc_seat_set_focus_layer k n none w = unfocus_layer k n w
    phoc_seat_set_focus_layer k n (some l) w = focus_layer l w

    abbrev pub release_layer : ℕ → ℕ → ℕ → Option ℕ → World D → Option (World D)
    release_layer k n c none w = some w
    release_layer k n c (some l) w =
        if not (E.layer_client l == c) then phoc_seat_set_focus_layer k n none w else some w

    abbrev pub release_view : ℕ → ℕ → Option ℕ → World D → Option (World D)
    release_view n c none w = if w.seat.has_focus then none else some w
    release_view n c (some u) w =
        if not (w.desktop.view_of u).mapped
        then none
        else if not (E.client_of u == c)
        then phoc_seat_set_focus n none w
        else some w

    unfoldable pub phoc_seat_set_exclusive_client : ℕ → ℕ → Option ℕ → World D → Option (World D)
    phoc_seat_set_exclusive_client k n none w =
        arrange_all (unfocus_layer k n) w.desktop.outputs (record w { exclusive_client = none })
    phoc_seat_set_exclusive_client k n (some c) w = release_layer k n c w.focused_layer w >>= λ t.
        release_view n c (focus_of t) t >>= λ u.
        some (record (clear_touch_points c E.touch_points (release_pointer c E.pointer_client u)) {
          exclusive_client = some c;
        })
