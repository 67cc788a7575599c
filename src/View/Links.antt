-- ===== src/View/Links.antt =====
-- Who is fullscreen where in src/view.c: the links between the outputs and the views.
use phoc.Prelude.{
  ℕ, ◌≡◌, refl, sym, ◌∙◌, inl, inr, Bool, true, false, Option, none, some, if◌then◌else◌, arith,
  Option-cases,
}
use phoc.View.State.{
  Numbers, PhocViewState, floating, maximized, tiled, PhocViewTileDirection, View, Output, Call,
  Desktop, put_view, when, view_is_fullscreen, view_save, view_move, view_move_resize,
}
use phoc.View.Operations.{
  or_find, center_on, view_center, view_arrange_maximized, view_arrange_tiled, view_maximize,
  view_auto_maximize, to_saved, view_restore, view_tile,
}
use phoc.View.Fullscreen.{by_state}

module _ {D : Type 0} where
  -- The output that has a view fullscreen is the one that the view is fullscreen on.
  abbrev pub Linked : Desktop D → Type 0
  Linked s =
      (o v : ℕ)
      → (s.output_of o).fullscreen_view ≡ some v
      → (s.view_of v).fullscreen_output ≡ some o

  -- Both have the same views fullscreen on the same outputs.
  pub record SameLinks (s t : Desktop D) : Type 0 where
    pub views : (v : ℕ) → (t.view_of v).fullscreen_output ≡ (s.view_of v).fullscreen_output
    pub outputs : (o : ℕ) → (t.output_of o).fullscreen_view ≡ (s.output_of o).fullscreen_view

  pub SameLinks-refl : (s : Desktop D) → SameLinks s s
  SameLinks-refl s = record { views = λ v. refl; outputs = λ o. refl }

  pub SameLinks-trans : (s t u : Desktop D) → SameLinks s t → SameLinks t u → SameLinks s u
  SameLinks-trans s t u p q = record {
    views = λ v. q.views v ∙ p.views v;
    outputs = λ o. q.outputs o ∙ p.outputs o;
  }

  pub Linked-SameLinks : (s t : Desktop D) → SameLinks s t → Linked s → Linked t
  Linked-SameLinks s t p l o v e = p.views v ∙ l o v (sym (p.outputs o) ∙ e)

  pub put_view-SameLinks :
      (v : ℕ) (w : View D) (s : Desktop D)
      → w.fullscreen_output ≡ (s.view_of v).fullscreen_output
      → SameLinks s (put_view v w s)
  put_view-SameLinks v w s e = record { views = λ u. ground arith; outputs = λ o. refl }

  pub when-SameLinks : (b : Bool) (c : Call D) (s : Desktop D) → SameLinks s (when b c s)
  when-SameLinks true c s = record { views = λ v. refl; outputs = λ o. refl }
  when-SameLinks false c s = SameLinks-refl s

  pub if-SameLinks :
      (b : Bool) (s t u : Desktop D)
      → SameLinks s t
      → SameLinks s u
      → SameLinks s (if b then t else u)
  if-SameLinks true s t u p q = p
  if-SameLinks false s t u p q = q

  module _ (F : Numbers D) where
    pub view_save_same : (v : View D) → (view_save F v).fullscreen_output ≡ v.fullscreen_output
    unfolding view_save
    view_save_same v = ground arith

    pub view_move_resize-SameLinks :
        (v : ℕ) (x y : D) (w h : ℕ) (s : Desktop D) → SameLinks s (view_move_resize F v x y w h s)
    unfolding view_move_resize
    view_move_resize-SameLinks v x y w h s = record {
      views = λ u. ground arith;
      outputs = λ o. ground arith;
    }

    view_move_resize-at :
        (v : ℕ) (x y : D) (w h : ℕ) (s t : Desktop D)
        → SameLinks s t
        → SameLinks s (view_move_resize F v x y w h t)
    view_move_resize-at v x y w h s t p =
        SameLinks-trans s t _ p (view_move_resize-SameLinks v x y w h t)

    view_move-SameLinks : (v : ℕ) (x y : D) (s : Desktop D) → SameLinks s (view_move F v x y s)
    unfolding view_move
    view_move-SameLinks v x y s = record { views = λ u. ground arith; outputs = λ o. ground arith }

    center_on-SameLinks : (v : ℕ) (o : Output D) (s : Desktop D) → SameLinks s (center_on F v o s)
    center_on-SameLinks v o s =
        let moved = view_move-SameLinks v _ _ s in
        if-SameLinks _ s _ _ (SameLinks-trans s _ _ moved (when-SameLinks _ (Call.resize v _ _) _))
          moved

    pub view_center-SameLinks :
        (seated : Bool) (c : Option ℕ) (v : ℕ) (o : Option ℕ) (s : Desktop D)
        → SameLinks s (view_center F seated c v o s)
    unfolding view_center
    view_center-SameLinks seated c v o s = elim (Option-cases (or_find o c)) [
      | inl e ↦ rw e (if-SameLinks _ s s s (SameLinks-refl s) (SameLinks-refl s))
      | inr (a, e) ↦
          rw e (if-SameLinks _ s s _ (SameLinks-refl s) (center_on-SameLinks v (s.output_of a) s))
    ]

    module _ (get_output : View D → Option ℕ) where
      pub view_arrange_maximized-SameLinks :
          (v : ℕ) (o : Option ℕ) (s : Desktop D)
          → SameLinks s (view_arrange_maximized F get_output v o s)
      unfolding view_arrange_maximized
      view_arrange_maximized-SameLinks v o s =
          if-SameLinks (view_is_fullscreen (s.view_of v)) s _ _ (SameLinks-refl s)
            (elim (Option-cases (or_find o (get_output (s.view_of v)))) [
              | inl e ↦ rw e (SameLinks-refl s)
              | inr (a, e) ↦ rw e (view_move_resize-SameLinks v _ _ _ _ s)
            ])

      pub view_arrange_tiled-SameLinks :
          (v : ℕ) (o : Option ℕ) (s : Desktop D)
          → SameLinks s (view_arrange_tiled F get_output v o s)
      unfolding view_arrange_tiled
      view_arrange_tiled-SameLinks v o s =
          if-SameLinks (view_is_fullscreen (s.view_of v)) s _ _ (SameLinks-refl s)
            (elim (Option-cases (or_find o (get_output (s.view_of v)))) [
              | inl e ↦ rw e (SameLinks-refl s)
              | inr (a, e) ↦ rw e (view_move_resize-SameLinks v _ _ _ _ s)
            ])

      pub view_maximize-SameLinks :
          (v : ℕ) (o : Option ℕ) (s : Desktop D) → SameLinks s (view_maximize F get_output v o s)
      unfolding view_maximize
      view_maximize-SameLinks v o s =
          let told =
            SameLinks-trans s _ _
              (when-SameLinks (s.view_of v).impl.has_maximize (Call.maximize v true) s)
              (when-SameLinks (s.view_of v).toplevel_handle (Call.handle_maximized v true) _) in
          if-SameLinks _ s _ _ (SameLinks-refl s) (
            if-SameLinks _ s _ _ (SameLinks-refl s) (
              SameLinks-trans s _ _ told (
                SameLinks-trans _ _ _
                  (put_view-SameLinks v _ _ (view_save_same (s.view_of v) ∙ sym (told.views v)))
                  (view_arrange_maximized-SameLinks v o _))))

      pub view_auto_maximize-SameLinks :
          (v : ℕ) (s : Desktop D) → SameLinks s (view_auto_maximize F get_output v s)
      unfolding view_auto_maximize
      view_auto_maximize-SameLinks v s =
          if-SameLinks _ s _ _ (view_maximize-SameLinks v none s) (SameLinks-refl s)

      to_saved-SameLinks : (v : ℕ) (s : Desktop D) → SameLinks s (to_saved F get_output v s)
      unfolding to_saved
      to_saved-SameLinks v s =
          let resized = when-SameLinks (s.view_of v).impl.has_resize (Call.resize v 0 0) s in
          if-SameLinks _ s _ _
            (SameLinks-trans s _ _ resized (put_view-SameLinks v _ _ (sym (resized.views v))))
            (view_move_resize-SameLinks v _ _ _ _ s)

      pub view_restore-SameLinks :
          (v : ℕ) (s : Desktop D) → SameLinks s (view_restore F get_output v s)
      unfolding view_restore
      view_restore-SameLinks v s = if-SameLinks _ s _ _ (SameLinks-refl s) (
          if-SameLinks _ s _ _ (SameLinks-refl s) (
            SameLinks-trans s _ _
              (put_view-SameLinks v (record (s.view_of v) { state = floating }) s refl)
              (SameLinks-trans _ _ _ (to_saved-SameLinks v _) (
                SameLinks-trans _ _ _
                  (when-SameLinks (s.view_of v).toplevel_handle (Call.handle_maximized v false) _)
                  (when-SameLinks (s.view_of v).impl.has_maximize (Call.maximize v false) _)))))

      pub view_tile-SameLinks :
          (v : ℕ) (d : PhocViewTileDirection) (o : Option ℕ) (s : Desktop D)
          → SameLinks s (view_tile F get_output v d o s)
      unfolding view_tile
      view_tile-SameLinks v d o s =
          let asked = when-SameLinks (s.view_of v).impl.has_maximize (Call.maximize v true) s in
          if-SameLinks _ s _ _ (SameLinks-refl s) (
            SameLinks-trans s _ _ asked (
              SameLinks-trans _ _ _
                (put_view-SameLinks v _ _ (view_save_same (s.view_of v) ∙ sym (asked.views v)))
                (view_arrange_tiled-SameLinks v o _)))

      pub by_state-SameLinks :
          (v o : ℕ) (k : PhocViewState) (s : Desktop D)
          → SameLinks s (by_state F get_output v o k s)
      by_state-SameLinks v o floating s = to_saved-SameLinks v s
      by_state-SameLinks v o maximized s = view_arrange_maximized-SameLinks v (some o) s
      by_state-SameLinks v o tiled s = view_arrange_tiled-SameLinks v (some o) s
