-- ===== src/View/Arranging.antt =====
-- src/layer_shell.c: what arrange_layers does with the views between its two passes.
use phoc.Prelude.{
  ℕ, ◌≡◌, refl, ◌∙◌, inl, inr, Bool, true, false, List, [], ◌∷◌, Option, none, if◌then◌else◌, ◌==◌,
  arith, Bool-cases, Option-cases, ap,
}
use phoc.Prelude.Int.{ℤ}
use phoc.LayerShell.Geometry.{Box, Layer}
use phoc.LayerShell.Arrange.{Layers, arrange_layers}
use phoc.View.State.{
  Numbers, View, Output, Call, Desktop, when, put_output, view_is_maximized, view_is_tiled,
  view_move, view_move_resize,
}
use phoc.View.Operations.{center_on, view_center, view_arrange_maximized, view_arrange_tiled}
use phoc.View.Links.{
  Linked, SameLinks, SameLinks-refl, SameLinks-trans, Linked-SameLinks, if-SameLinks,
  view_arrange_maximized-SameLinks, view_arrange_tiled-SameLinks, view_center-SameLinks,
}

module _ {D : Type 0} where
  -- The outputs are the same.
  record SameOutputs (s t : Desktop D) : Type 0 where
    same : t.output_of ≡ s.output_of

  SameOutputs-refl : (s : Desktop D) → SameOutputs s s
  SameOutputs-refl s = record { same = refl }

  SameOutputs-trans : (s t u : Desktop D) → SameOutputs s t → SameOutputs t u → SameOutputs s u
  SameOutputs-trans s t u p q = record { same = q.same ∙ p.same }

module _ {D : Type 0} (F : Numbers D) (get_output : View D → Option ℕ) (seated : Bool)
    (cursor_output : Option ℕ) where
  unfoldable pub arrange_view : ℕ → Desktop D → Desktop D
  arrange_view v s =
      if view_is_maximized (s.view_of v)
      then view_arrange_maximized F get_output v none s
      else if view_is_tiled (s.view_of v)
      then view_arrange_tiled F get_output v none s
      else if s.maximize
      then view_center F seated cursor_output v none s
      else s

  unfoldable pub arrange_each : List ℕ → Desktop D → Desktop D
  unfolding arrange_view
  arrange_each [] s = s
  arrange_each (v ∷ vs) s = arrange_each vs (arrange_view v s)

  -- output->usable_area = usable_area, and the loop over the desktop's views.
  unfoldable pub arrange_views : ℕ → Box → Desktop D → Desktop D
  unfolding arrange_each
  arrange_views o area s =
      let set = put_output o (record (s.output_of o) { usable_area = area }) s in
      arrange_each set.views set

  arrange_view-SameLinks : (v : ℕ) (s : Desktop D) → SameLinks s (arrange_view v s)
  unfolding arrange_view
  arrange_view-SameLinks v s =
      if-SameLinks (view_is_maximized (s.view_of v)) s _ _
        (view_arrange_maximized-SameLinks F get_output v none s)
        (if-SameLinks (view_is_tiled (s.view_of v)) s _ _
          (view_arrange_tiled-SameLinks F get_output v none s)
          (if-SameLinks s.maximize s _ _ (view_center-SameLinks F seated cursor_output v none s)
            (SameLinks-refl s)))

  arrange_each-SameLinks : (vs : List ℕ) (s : Desktop D) → SameLinks s (arrange_each vs s)
  unfolding arrange_each
  arrange_each-SameLinks [] s = SameLinks-refl s
  arrange_each-SameLinks (v ∷ vs) s =
      SameLinks-trans s _ _ (arrange_view-SameLinks v s)
        (arrange_each-SameLinks vs (arrange_view v s))

  put_area-SameLinks :
      (o : ℕ) (area : Box) (s : Desktop D)
      → SameLinks s (put_output o (record (s.output_of o) { usable_area = area }) s)
  put_area-SameLinks o area s = record { views = λ u. refl; outputs = λ p. ground arith }

  view_move_resize-output :
      (v : ℕ) (x y : D) (w h : ℕ) (s : Desktop D) → SameOutputs s (view_move_resize F v x y w h s)
  unfolding view_move_resize
  view_move_resize-output v x y w h s = record { same = ground arith }

  view_move-output : (v : ℕ) (x y : D) (s : Desktop D) → SameOutputs s (view_move F v x y s)
  unfolding view_move
  view_move-output v x y s = record { same = ground arith }

  if-output :
      (b : Bool) (s t u : Desktop D)
      → SameOutputs s t
      → SameOutputs s u
      → SameOutputs s (if b then t else u)
  if-output true s t u p q = p
  if-output false s t u p q = q

  when-output : (b : Bool) (c : Call D) (s : Desktop D) → SameOutputs s (when b c s)
  when-output true c s = record { same = refl }
  when-output false c s = SameOutputs-refl s

  center_on-output : (v : ℕ) (o : Output D) (s : Desktop D) → SameOutputs s (center_on F v o s)
  center_on-output v o s =
      let moved = view_move-output v _ _ s in
      if-output _ s _ _ (SameOutputs-trans s _ _ moved (when-output _ (Call.resize v _ _) _)) moved

  arrange_maximized-output :
      (v : ℕ) (s : Desktop D) → SameOutputs s (view_arrange_maximized F get_output v none s)
  unfolding view_arrange_maximized
  arrange_maximized-output v s = elim (Option-cases (get_output (s.view_of v))) [
    | inl e ↦ rw e (if-output _ s s s (SameOutputs-refl s) (SameOutputs-refl s))
    | inr (o, e) ↦
        rw e (if-output _ s s _ (SameOutputs-refl s) (view_move_resize-output v _ _ _ _ s))
  ]

  arrange_tiled-output :
      (v : ℕ) (s : Desktop D) → SameOutputs s (view_arrange_tiled F get_output v none s)
  unfolding view_arrange_tiled
  arrange_tiled-output v s = elim (Option-cases (get_output (s.view_of v))) [
    | inl e ↦ rw e (if-output _ s s s (SameOutputs-refl s) (SameOutputs-refl s))
    | inr (o, e) ↦
        rw e (if-output _ s s _ (SameOutputs-refl s) (view_move_resize-output v _ _ _ _ s))
  ]

  center-output :
      (v : ℕ) (s : Desktop D) → SameOutputs s (view_center F seated cursor_output v none s)
  unfolding view_center
  center-output v s = elim (Option-cases cursor_output) [
    | inl e ↦ rw e (if-output _ s s s (SameOutputs-refl s) (SameOutputs-refl s))
    | inr (o, e) ↦
        rw e (if-output _ s s _ (SameOutputs-refl s) (center_on-output v (s.output_of o) s))
  ]

  arrange_view-output : (v : ℕ) (s : Desktop D) → SameOutputs s (arrange_view v s)
  unfolding arrange_view
  arrange_view-output v s =
      if-output (view_is_maximized (s.view_of v)) s _ _ (arrange_maximized-output v s) (
        if-output (view_is_tiled (s.view_of v)) s _ _ (arrange_tiled-output v s)
          (if-output s.maximize s _ _ (center-output v s) (SameOutputs-refl s)))

  arrange_each-output : (vs : List ℕ) (s : Desktop D) → SameOutputs s (arrange_each vs s)
  unfolding arrange_each
  arrange_each-output [] s = SameOutputs-refl s
  arrange_each-output (v ∷ vs) s =
      SameOutputs-trans s _ _ (arrange_view-output v s) (arrange_each-output vs (arrange_view v s))

  -- When the layers and the views of an output are arranged together, the output keeps just the usable
  -- area that the exclusive surfaces leave, the other outputs keep theirs, and if the outputs and the
  -- fullscreen views pointed at each other before then they do so after.
  pub arrange_layers-views :
      (o : ℕ) (w h : ℤ) (seats : List (Option Layer)) (s : Desktop D) (ls : Layers)
      → Linked s
      → let r = arrange_layers (arrange_views o) w h seats s ls in
        ((p : ℕ)
          → (r.views.output_of p).usable_area
            ≡ (if p == o then r.usable_area else (s.output_of p).usable_area))
        × Linked r.views
  unfolding arrange_layers arrange_views
  arrange_layers-views o w h seats s ls l =
      let area = (arrange_layers (arrange_views o) w h seats s ls).usable_area in
      let set = put_output o (record (s.output_of o) { usable_area = area }) s in
      (
        λ p.
            ap (λ (f : ℕ → Output D). (f p).usable_area) (arrange_each-output set.views set).same
            ∙ put_area p o area,
        Linked-SameLinks s _
            (SameLinks-trans s set _ (put_area-SameLinks o area s)
              (arrange_each-SameLinks set.views set))
            l,
      )
    where
      put_area :
          (p o : ℕ) (area : Box)
          → ((put_output o (record (s.output_of o) { usable_area = area }) s).output_of
              p).usable_area
            ≡ (if p == o then area else (s.output_of p).usable_area)
      put_area p o area = elim (Bool-cases (p == o)) [ inl e ↦ rw e refl | inr e ↦ rw e refl ]
