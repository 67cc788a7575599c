-- ===== src/Seat/Stack.antt =====
-- src/seat.c, the first half of phoc_seat_set_focus: a view is raised with its family, and other views
-- leave the outputs that it covers. The walks along the family are on fuel; none says that it ran out.
use phoc.Prelude.{
  ℕ, zero, suc, Bool, false, not, ◌&&◌, List, [], ◌∷◌, Option, none, some, ◌>>=◌, if◌then◌else◌,
  ◌==◌, reverse,
}
use phoc.LayerShell.Geometry.{Box}
use phoc.View.State.{Numbers, Desktop, put_view}
use phoc.View.Fullscreen.{without, view_set_fullscreen}
use phoc.Input.{Seat, phoc_input_view_has_focus}
use phoc.Seat.State.{Outside, view_get_box}

module _ {D : Type 0} where
  -- To the head of its parent's stack.
  abbrev pub to_head : ℕ → ℕ → Desktop D → Desktop D
  to_head v p d = put_view p (record (d.view_of p) { stack = v ∷ without v (d.view_of p).stack }) d

  -- The loop `while (parent->parent)`; the result is its last view.
  unfoldable pub reorder : ℕ → ℕ → Option ℕ → Desktop D → Option (ℕ × Desktop D)
  reorder n v none d = some (v, d)
  reorder zero v (some p) d = none
  reorder (suc n) v (some p) d = reorder n p (d.view_of p).parent (to_head v p d)

  abbrev pub to_front : ℕ → Desktop D → Desktop D
  to_front v d = record d { views = v ∷ without v d.views }

  -- wl_list_for_each_reverse is a walk along the reversed list.
  abbrev pub raise_each :
      (ℕ → Desktop D → Option (Desktop D)) → List ℕ → Desktop D → Option (Desktop D)
  raise_each raise [] d = some d
  raise_each raise (c ∷ cs) d = raise c d >>= raise_each raise cs

  unfoldable pub seat_raise_view_stack : ℕ → ℕ → Desktop D → Option (Desktop D)
  seat_raise_view_stack zero v d = none
  seat_raise_view_stack (suc n) v d =
      let children =
        raise_each (seat_raise_view_stack n) (reverse (d.view_of v).stack) (to_front v d) in
      if (d.view_of v).mapped then children else some d

  abbrev pub raise_family : ℕ → ℕ → Desktop D → Option (Desktop D)
  raise_family n v d =
      reorder n v (d.view_of v).parent d >>= λ (root, d'). seat_raise_view_stack n root d'

  module _ (F : Numbers D) (E : Outside D) (seats : List Seat) where
    abbrev pub has_focus : ℕ → Bool
    has_focus u = phoc_input_view_has_focus seats (some u)

    abbrev pub unfullscreen_one : ℕ → Box → ℕ → Option ℕ → Desktop D → Option (Desktop D)
    unfullscreen_one v box o none d = some d
    unfullscreen_one v box o (some u) d =
        if not (u == v) && E.intersects o box
        then view_set_fullscreen F E.get_output has_focus u false none d
        else some d

    abbrev pub unfullscreen : ℕ → Box → List ℕ → Desktop D → Option (Desktop D)
    unfullscreen v box [] d = some d
    unfullscreen v box (o ∷ os) d =
        unfullscreen_one v box o (d.output_of o).fullscreen_view d >>= unfullscreen v box os

    abbrev pub unfullscreen_others : ℕ → Desktop D → Option (Desktop D)
    unfullscreen_others v d =
        let all = unfullscreen v (view_get_box F (d.view_of v)) d.outputs d in
        if (d.view_of v).impl.is_xwayland && E.override_redirect v then some d else all

    -- From the start of phoc_seat_set_focus up to phoc_seat_get_focus.
    unfoldable pub raise_view : ℕ → ℕ → Desktop D → Option (Desktop D)
    raise_view n v d = raise_family n v d >>= unfullscreen_others v
