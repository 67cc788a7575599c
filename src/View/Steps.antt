-- ===== src/View/Steps.antt =====
-- The operations of src/view.c in any order, and what they leave of who is fullscreen where.
use phoc.Prelude.{ℕ, ◌≡◌, Bool, Option, some}
use phoc.View.State.{Numbers, PhocViewTileDirection, View, Desktop}
use phoc.View.Operations.{
  view_arrange_maximized, view_arrange_tiled, view_maximize, view_auto_maximize, view_center,
  view_restore, view_tile,
}
use phoc.View.Fullscreen.{view_set_fullscreen, view_move_to_next_output, view_unmap, view_map}
use phoc.View.Links.{
  Linked, Linked-SameLinks, view_arrange_maximized-SameLinks, view_arrange_tiled-SameLinks,
  view_maximize-SameLinks, view_auto_maximize-SameLinks, view_restore-SameLinks,
  view_tile-SameLinks, view_center-SameLinks,
}
use phoc.View.Tree.{view_set_parent, view_destroy}
use phoc.View.Relatives.{Linked-view_set_parent, Linked-view_destroy}
use phoc.View.Linked.{
  Linked-view_unmap, Linked-view_map, Linked-view_set_fullscreen, Linked-view_move_to_next_output,
}

module _ {D : Type 0} (F : Numbers D) (get_output : View D → Option ℕ) (focused : ℕ → Bool)
    (seated : Bool) (cursor_output : Option ℕ) (adjacent : ℕ → View D → Option ℕ) where
  pub data Step : Desktop D → Desktop D → Type 0 where
    maps : (v : ℕ) (s : Desktop D) → Step s (view_map v s)
    unmaps : (v : ℕ) (s : Desktop D) → Step s (view_unmap v s)
    destroys : (v : ℕ) (s : Desktop D) → Step s (view_destroy v s)
    sets_parent :
        (n v : ℕ) (p : Option ℕ) (s t : Desktop D) → view_set_parent n v p s ≡ some t → Step s t
    maximizes : (v : ℕ) (o : Option ℕ) (s : Desktop D) → Step s (view_maximize F get_output v o s)
    auto_maximizes : (v : ℕ) (s : Desktop D) → Step s (view_auto_maximize F get_output v s)
    restores : (v : ℕ) (s : Desktop D) → Step s (view_restore F get_output v s)
    tiles :
        (v : ℕ) (d : PhocViewTileDirection) (o : Option ℕ) (s : Desktop D)
        → Step s (view_tile F get_output v d o s)
    arranges_maximized :
        (v : ℕ) (o : Option ℕ) (s : Desktop D) → Step s (view_arrange_maximized F get_output v o s)
    arranges_tiled :
        (v : ℕ) (o : Option ℕ) (s : Desktop D) → Step s (view_arrange_tiled F get_output v o s)
    centers :
        (v : ℕ) (o : Option ℕ) (s : Desktop D) → Step s (view_center F seated cursor_output v o s)
    sets_fullscreen :
        (v : ℕ) (b : Bool) (o : Option ℕ) (s t : Desktop D)
        → view_set_fullscreen F get_output focused v b o s ≡ some t
        → Step s t
    moves :
        (v : ℕ) (s t : Desktop D)
        → view_move_to_next_output F get_output focused seated cursor_output adjacent v s ≡ some t
        → Step s t

  pub data Steps : Desktop D → Desktop D → Type 0 where
    done : (s : Desktop D) → Steps s s
    next : (s t u : Desktop D) → Step s t → Steps t u → Steps s u

  Step-Linked : (s t : Desktop D) → Step s t → Linked s → Linked t
  Step-Linked s t (maps v r) l = Linked-view_map v r l
  Step-Linked s t (unmaps v r) l = Linked-view_unmap v r l
  Step-Linked s t (destroys v r) l = Linked-view_destroy v r l
  Step-Linked s t (sets_parent n v p r u e) l = Linked-view_set_parent n v p r u l e
  Step-Linked s t (maximizes v o r) l =
      Linked-SameLinks r _ (view_maximize-SameLinks F get_output v o r) l
  Step-Linked s t (auto_maximizes v r) l =
      Linked-SameLinks r _ (view_auto_maximize-SameLinks F get_output v r) l
  Step-Linked s t (restores v r) l =
      Linked-SameLinks r _ (view_restore-SameLinks F get_output v r) l
  Step-Linked s t (tiles v d o r) l =
      Linked-SameLinks r _ (view_tile-SameLinks F get_output v d o r) l
  Step-Linked s t (arranges_maximized v o r) l =
      Linked-SameLinks r _ (view_arrange_maximized-SameLinks F get_output v o r) l
  Step-Linked s t (arranges_tiled v o r) l =
      Linked-SameLinks r _ (view_arrange_tiled-SameLinks F get_output v o r) l
  Step-Linked s t (centers v o r) l =
      Linked-SameLinks r _ (view_center-SameLinks F seated cursor_output v o r) l
  Step-Linked s t (sets_fullscreen v b o r u e) l =
      Linked-view_set_fullscreen F get_output focused v b o r u l e
  Step-Linked s t (moves v r u e) l =
      Linked-view_move_to_next_output F get_output focused seated cursor_output adjacent v r u l e

  -- Whatever is done to the views, in any order: if it is so at the start, then the view that an output
  -- has fullscreen is always one that counts as fullscreen on just that output.
  pub Steps-Linked : (s t : Desktop D) → Steps s t → Linked s → Linked t
  Steps-Linked s t (done r) l = l
  Steps-Linked s t (next r u w step steps) l = Steps-Linked u w steps (Step-Linked r u step l)
