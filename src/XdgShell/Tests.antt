-- ===== src/XdgShell/Tests.antt =====
-- A window that is resized from its left edge, for src/xdg_shell.c.
use phoc.Prelude.{◌≡◌, refl, true, false, [], ◌∷◌, none, some, arith, ◌≤◌, ◌⊎◌, inr}
use phoc.Prelude.Int.{ℤ, pos}
use phoc.LayerShell.Geometry.{Box}
use phoc.View.State.{Desktop}
use phoc.View.Examples.{integers, window, outputs}
use phoc.XdgShell.{XdgToplevel, XdgSurface, apply_size_constraints}
use phoc.View.Exact.{IsExact}
use phoc.XdgShell.Edges.{Outside, apply_size_constraints_lem, KeepsEdge}
use phoc.XdgShell.Commit.{committed_box, resize-KeepsEdge}

abbrev desktop : Desktop ℤ
desktop = record {
  view_of = λ i. window none none;
  output_of = outputs;
  views = 1 ∷ [];
  outputs = 0 ∷ [];
  maximize = false;
  calls = [];
}

-- Not less than 100 wide and 50 high, nor more than 400 and 300; the client has taken 120 and 200.
abbrev toplevel : XdgToplevel
toplevel = record {
  is_toplevel = true;
  min_width = 100;
  min_height = 50;
  max_width = 400;
  max_height = 300;
  mapped = true;
  configure_serial = 4;
  geometry = record { x = pos 0; y = pos 0; width = pos 120; height = pos 200 };
}

abbrev surface : XdgSurface
surface = record {
  saved_geometry = record { x = pos 0; y = pos 0; width = pos 300; height = pos 200 };
  pending_move_resize_configure_serial = 0;
  sizes = [];
}

integers-IsExact : IsExact integers
integers-IsExact = record {
  add = λ a b. refl;
  sub = λ a b. refl;
  to_int = λ a. refl;
  same = λ a b. refl;
}

apply_size_constraints_example :
    (100 ≤ (apply_size_constraints toplevel 90 500).0)
    × (50 ≤ (apply_size_constraints toplevel 90 500).1)
    × ((toplevel.max_width ≡ 0) ⊎ ((apply_size_constraints toplevel 90 500).0 ≤ 400))
    × ((toplevel.max_height ≡ 0) ⊎ ((apply_size_constraints toplevel 90 500).1 ≤ 300))
    × (Outside 90 100 400 ⊎ ((apply_size_constraints toplevel 90 500).0 ≡ 90))
    × (Outside 500 50 300 ⊎ ((apply_size_constraints toplevel 90 500).1 ≡ 500))
    × (apply_size_constraints toplevel
          (apply_size_constraints toplevel 90 500).0
          (apply_size_constraints toplevel 90 500).1
        ≡ apply_size_constraints toplevel 90 500)
apply_size_constraints_example =
    apply_size_constraints_lem toplevel 90 500 (inr (omega arith)) (inr (omega arith))

abbrev resized : Box
resized =
    committed_box integers integers-IsExact (λ v. some 0) true none toplevel toplevel 4 1 (pos 250)
      (pos 20) 60 200 surface desktop

resize-KeepsEdge_example :
    KeepsEdge (pos 10) (pos 250) 60 resized.x (pos 120)
    × KeepsEdge (pos 20) (pos 20) 200 resized.y (pos 200)
    × (resized.width ≡ pos 120)
    × (resized.height ≡ pos 200)
resize-KeepsEdge_example =
    resize-KeepsEdge integers integers-IsExact (λ v. some 0) true none toplevel toplevel 4 1
      (pos 250) (pos 20) 60 200 surface desktop refl refl refl refl refl refl refl
