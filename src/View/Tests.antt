-- ===== src/View/Tests.antt =====
-- Two windows on one output, for src/view.c and src/desktop.c.
use phoc.Prelude.{
  ℕ, ◌+◌, ◌≡◌, refl, ◌⊎◌, inl, inr, Bool-cases, Bool, true, false, [], ◌∷◌, Option, none, some,
  ◌==◌, if◌then◌else◌,
}
use phoc.Prelude.Int.{int_laws, ℤ, pos, ◌+ℤ◌, ◌-ℤ◌}
use phoc.LayerShell.Geometry.{Box, LayerSurface, top}
use phoc.LayerShell.Arrange.{Layers}
use phoc.View.Arranging.{arrange_views}
use phoc.View.State.{floating, View, Desktop}
use phoc.View.Operations.{view_maximize}
use phoc.View.Fullscreen.{view_map, enter_fullscreen, leave_fullscreen}
use phoc.View.Links.{Linked}
use phoc.View.Examples.{integers, box, screen, window, outputs}
use phoc.View.State.{put_view, view_save, view_move_resize}
use phoc.View.Operations.{want_auto_maximize, view_restore, view_arrange_maximized}
use phoc.View.Saved.{Kept, tell_restored, ask, view_restore-maximize}
use phoc.View.Steps.{maps, maximizes, Steps, done, next, Steps-Linked}
use phoc.View.Displaced.{displaced}
use phoc.View.Tree.{view_set_parent, phoc_desktop_view_is_visible}
use phoc.View.Parents.{Ends, Acyclic, AtOrAbove, view_set_parent-Acyclic}
use phoc.View.Visible.{Answer, view_is_visible_lem}

-- The dialog 2 belongs to the window 1; the other windows have no parent.
abbrev windows : ℕ → View ℤ
windows i = if i == 2 then window none (some 1) else window none none

abbrev desktop : Desktop ℤ
desktop = record {
  view_of = windows;
  output_of = outputs;
  views = 2 ∷ 1 ∷ [];
  outputs = 0 ∷ [];
  maximize = true;
  calls = [];
}

abbrev first_output : View ℤ → Option ℕ
first_output v = some 0

abbrev nobody : ℕ → Bool
nobody v = false

abbrev no_neighbour : ℕ → View ℤ → Option ℕ
no_neighbour o v = none

desktop-Linked : Linked desktop
desktop-Linked o v e = cc

-- The window 1 is maximised, and a window 3 comes up.
abbrev as_maximized : Desktop ℤ
as_maximized = view_maximize integers first_output 1 none desktop

two-Steps :
    Steps integers first_output nobody true none no_neighbour desktop (view_map 3 as_maximized)
two-Steps = next desktop as_maximized (view_map 3 as_maximized) (maximizes 1 none desktop) (
    next as_maximized (view_map 3 as_maximized) (view_map 3 as_maximized) (maps 3 as_maximized)
      (done (view_map 3 as_maximized)))

Steps-Linked_example : Linked (view_map 3 as_maximized)
Steps-Linked_example =
    Steps-Linked integers first_output nobody true none no_neighbour desktop
      (view_map 3 as_maximized) two-Steps desktop-Linked

-- The window 3 is fullscreen on the output 0.
abbrev occupied : Desktop ℤ
occupied = record desktop {
  view_of = λ i. if i == 3 then window (some 0) none else windows i;
  output_of = λ o. record (outputs o) { fullscreen_view = if o == 0 then some 3 else none };
}

displaced_example :
    let t = enter_fullscreen integers first_output 1 0 occupied in
    let u = leave_fullscreen integers first_output 3 0 t in
    ((t.output_of 0).fullscreen_view ≡ some 1)
    × ((t.view_of 3).fullscreen_output ≡ some 0)
    × ((u.output_of 0).fullscreen_view ≡ none)
    × ((u.view_of 1).fullscreen_output ≡ some 0)
displaced_example = displaced integers first_output 1 3 0 occupied refl refl

desktop-Acyclic : Acyclic desktop 2
desktop-Acyclic v = elim (Bool-cases (v == 2)) [ inl e ↦ rw (e, Ends) tt | inr e ↦ rw (e, Ends) tt ]

view_set_parent-Acyclic_example :
    (t : Desktop ℤ) × (view_set_parent 2 1 (some 2) desktop ≡ some t)
    × Acyclic t (2 + 2)
    × (((t ≡ desktop) × AtOrAbove desktop 1 (some 2))
        ⊎ ((u : ℕ) → (t.view_of u).parent ≡ (if u == 1 then some 2 else (windows u).parent)))
view_set_parent-Acyclic_example = view_set_parent-Acyclic 2 1 (some 2) desktop desktop-Acyclic

view_is_visible_example : Answer desktop 1 2 (phoc_desktop_view_is_visible 2 desktop 1)
view_is_visible_example =
    view_is_visible_lem 2 desktop 1 2 (1 ∷ []) refl refl refl refl refl (desktop-Acyclic 2)

add_sub : (a b : ℤ) → a +ℤ b -ℤ b ≡ a
add_sub a b = omega int_laws

-- The client of the maximised window has taken the size of the screen.
abbrev grown : Desktop ℤ
grown = put_view 1 (record (as_maximized.view_of 1) { box = screen }) as_maximized

grown-Kept : Kept (as_maximized.view_of 1) (grown.view_of 1)
grown-Kept = record { scale = refl; state = refl; fullscreen_output = refl; saved = refl }

not_by_default : want_auto_maximize integers first_output 1 grown ≡ false
unfolding view_maximize view_arrange_maximized view_move_resize view_save ◌+ℤ◌
not_by_default = refl

view_restore-maximize_example :
    view_restore integers first_output 1 grown
    ≡ tell_restored integers first_output 1 (grown.view_of 1) (
        ask integers first_output 1 box
          (put_view 1 (record (grown.view_of 1) { state = floating }) grown))
unfolding view_maximize view_arrange_maximized view_save view_move_resize ◌+ℤ◌
view_restore-maximize_example =
    view_restore-maximize integers first_output 1 none desktop grown (add_sub (pos 10) (pos 0))
      (add_sub (pos 20) (pos 0)) refl refl refl refl grown-Kept not_by_default

abbrev panel : LayerSurface
panel = record {
  id = 1;
  is_osk = false;
  mapped = true;
  pending_layer = top;
  anchor = record { top = true; bottom = false; left = true; right = true };
  exclusive_zone = pos 32;
  margin = record { top = pos 0; right = pos 0; bottom = pos 0; left = pos 0 };
  desired_width = 0;
  desired_height = 32;
  keyboard_interactive = false;
  geo = screen;
}

abbrev layers : Layers
layers = record { background_list = []; bottom_list = []; top_list = panel ∷ []; overlay_list = [] }

-- What the views of the output 0 are arranged by.
abbrev with_views : Box → Desktop ℤ → Desktop ℤ
with_views = arrange_views integers first_output true none 0
