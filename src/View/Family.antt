-- ===== src/View/Family.antt =====
-- What the operations of src/view.c leave of a view: its family, its surface and its shell.
use phoc.Prelude.{
  ℕ, ◌≡◌, refl, sym, ◌∙◌, ap, inl, inr, Bool, true, false, not, ◌&&◌, List, Option, none, some,
  ◌==◌, ==_iff, if◌then◌else◌, if-elim, Option-elim, arith, Bool-cases,
}
use phoc.View.State.{
  Numbers, PhocViewState, floating, maximized, tiled, ViewInterface, View, Call, Desktop,
  damage_output, put_view, call, when, view_is_fullscreen, view_save, view_move_resize,
}
use phoc.View.Operations.{
  clear_output, or_find, view_arrange_maximized, view_arrange_tiled, view_maximize,
  view_auto_maximize, to_saved, want_auto_maximize,
}
use phoc.View.Fullscreen.{
  differs, tell_fullscreen, by_state, leave_fullscreen, fullscreen_switch, view_set_fullscreen,
}

pub record Family : Type 0 where
  pub impl : ViewInterface
  pub parent : Option ℕ
  pub stack : List ℕ
  pub mapped : Bool

module _ {D : Type 0} where
  abbrev pub family : View D → Family
  family v = record { impl = v.impl; parent = v.parent; stack = v.stack; mapped = v.mapped }

  -- The views have the same families, and the lists are the same.
  pub record SameFamily (s t : Desktop D) : Type 0 where
    pub members : (v : ℕ) → family (t.view_of v) ≡ family (s.view_of v)
    pub views : t.views ≡ s.views
    pub outputs : t.outputs ≡ s.outputs

  pub SameFamily-refl : (s : Desktop D) → SameFamily s s
  SameFamily-refl s = record { members = λ v. refl; views = refl; outputs = refl }

  pub SameFamily-trans : (s t u : Desktop D) → SameFamily s t → SameFamily t u → SameFamily s u
  SameFamily-trans s t u p q = record {
    members = λ v. q.members v ∙ p.members v;
    views = q.views ∙ p.views;
    outputs = q.outputs ∙ p.outputs;
  }

  pub put_view-SameFamily :
      (v : ℕ) (w : View D) (s : Desktop D)
      → family w ≡ family (s.view_of v)
      → SameFamily s (put_view v w s)
  put_view-SameFamily v w s e = record {
    members = λ u. elim (Bool-cases (u == v)) [
      | inl h ↦ rw h (e ∙ ap (λ i. family (s.view_of i)) (sym ((==_iff u v).0 h)))
      | inr h ↦ rw h refl
    ];
    views = refl;
    outputs = refl;
  }

  when-SameFamily : (b : Bool) (c : Call D) (s : Desktop D) → SameFamily s (when b c s)
  when-SameFamily true c s = record { members = λ v. refl; views = refl; outputs = refl }
  when-SameFamily false c s = SameFamily-refl s

  call-SameFamily : (c : Call D) (s : Desktop D) → SameFamily s (call c s)
  call-SameFamily c s = record { members = λ v. refl; views = refl; outputs = refl }

  if-SameFamily :
      (b : Bool) (s t u : Desktop D)
      → SameFamily s t
      → SameFamily s u
      → SameFamily s (if b then t else u)
  if-SameFamily true s t u p q = p
  if-SameFamily false s t u p q = q

  clear_output-SameFamily : (o : Option ℕ) (s : Desktop D) → SameFamily s (clear_output o s)
  clear_output-SameFamily none s = SameFamily-refl s
  clear_output-SameFamily (some o) s = record { members = λ v. refl; views = refl; outputs = refl }

  module _ (F : Numbers D) where
    view_save-family : (v : View D) → family (view_save F v) ≡ family v
    unfolding view_save
    view_save-family v = ground arith

    view_move_resize-SameFamily :
        (v : ℕ) (x y : D) (w h : ℕ) (s : Desktop D) → SameFamily s (view_move_resize F v x y w h s)
    unfolding view_move_resize
    view_move_resize-SameFamily v x y w h s =
        let view = s.view_of v in
        if-SameFamily _ s _ _ (when-SameFamily view.impl.has_resize (Call.resize v w h) s) (
          if-SameFamily view.impl.has_move_resize s _ _
            (call-SameFamily (Call.move_resize v x y w h) s)
            (SameFamily-trans s _ _ (put_view-SameFamily v _ s refl)
              (when-SameFamily _ (Call.resize v w h) _)))

    module _ (get_output : View D → Option ℕ) where
      by_output-SameFamily :
          (o : Option ℕ) (s : Desktop D) (f : ℕ → Desktop D)
          → ((a : ℕ) → SameFamily s (f a))
          → SameFamily s (elim o [ none ↦ s | some a ↦ f a ])
      by_output-SameFamily o s f p =
          Option-elim (SameFamily s) o s f (λ _. SameFamily-refl s) (λ a _. p a)

      view_arrange_maximized-SameFamily :
          (v : ℕ) (o : Option ℕ) (s : Desktop D)
          → SameFamily s (view_arrange_maximized F get_output v o s)
      unfolding view_arrange_maximized
      view_arrange_maximized-SameFamily v o s =
          if-SameFamily (view_is_fullscreen (s.view_of v)) s s _ (SameFamily-refl s) (
            by_output-SameFamily (or_find o (get_output (s.view_of v))) s _
              (λ a. view_move_resize-SameFamily v _ _ _ _ s))

      view_arrange_tiled-SameFamily :
          (v : ℕ) (o : Option ℕ) (s : Desktop D)
          → SameFamily s (view_arrange_tiled F get_output v o s)
      unfolding view_arrange_tiled
      view_arrange_tiled-SameFamily v o s =
          if-SameFamily (view_is_fullscreen (s.view_of v)) s s _ (SameFamily-refl s) (
            by_output-SameFamily (or_find o (get_output (s.view_of v))) s _
              (λ a. view_move_resize-SameFamily v _ _ _ _ s))

      view_maximize-SameFamily :
          (v : ℕ) (o : Option ℕ) (s : Desktop D) → SameFamily s (view_maximize F get_output v o s)
      unfolding view_maximize
      view_maximize-SameFamily v o s =
          let told =
            SameFamily-trans s _ _
              (when-SameFamily (s.view_of v).impl.has_maximize (Call.maximize v true) s)
              (when-SameFamily (s.view_of v).toplevel_handle (Call.handle_maximized v true) _) in
          if-SameFamily _ s s _ (SameFamily-refl s) (
            if-SameFamily _ s s _ (SameFamily-refl s) (
              SameFamily-trans s _ _ told (
                SameFamily-trans _ _ _
                  (put_view-SameFamily v _ _
                    (view_save-family (s.view_of v) ∙ sym (told.members v)))
                  (view_arrange_maximized-SameFamily v o _))))

      view_auto_maximize-SameFamily :
          (v : ℕ) (s : Desktop D) → SameFamily s (view_auto_maximize F get_output v s)
      unfolding view_auto_maximize
      view_auto_maximize-SameFamily v s =
          if-SameFamily (want_auto_maximize F get_output v s) s _ s
            (view_maximize-SameFamily v none s) (SameFamily-refl s)

      to_saved-SameFamily : (v : ℕ) (s : Desktop D) → SameFamily s (to_saved F get_output v s)
      unfolding to_saved
      to_saved-SameFamily v s =
          let resized = when-SameFamily (s.view_of v).impl.has_resize (Call.resize v 0 0) s in
          if-SameFamily _ s _ _
            (SameFamily-trans s _ _ resized (put_view-SameFamily v _ _ (sym (resized.members v))))
            (view_move_resize-SameFamily v _ _ _ _ s)

      by_state-SameFamily :
          (v o : ℕ) (k : PhocViewState) (s : Desktop D)
          → SameFamily s (by_state F get_output v o k s)
      by_state-SameFamily v o floating s = to_saved-SameFamily v s
      by_state-SameFamily v o maximized s = view_arrange_maximized-SameFamily v (some o) s
      by_state-SameFamily v o tiled s = view_arrange_tiled-SameFamily v (some o) s

      leave_fullscreen-SameFamily :
          (v o : ℕ) (s : Desktop D) → SameFamily s (leave_fullscreen F get_output v o s)
      unfolding leave_fullscreen
      leave_fullscreen-SameFamily v o s =
          let cleared = clear_output (some o) s in
          let left = put_view v (record (s.view_of v) { fullscreen_output = none }) cleared in
          SameFamily-trans s cleared _ (clear_output-SameFamily (some o) s) (
            SameFamily-trans cleared left _
              (put_view-SameFamily v (record (s.view_of v) { fullscreen_output = none }) cleared
                refl)
              (SameFamily-trans left _ _ (call-SameFamily (damage_output o) left) (
                SameFamily-trans _ _ _ (by_state-SameFamily v o (s.view_of v).state _)
                  (view_auto_maximize-SameFamily v _))))

      told-SameFamily :
          (b : Bool) (v : ℕ) (f : Bool) (s : Desktop D)
          → SameFamily s (if b then tell_fullscreen F get_output v f s else s)
      told-SameFamily b v f s =
          if-SameFamily b s _ s
            (SameFamily-trans s _ _ (when-SameFamily _ (Call.set_fullscreen v f) s)
              (when-SameFamily _ (Call.handle_fullscreen v f) _))
            (SameFamily-refl s)

      switched_off :
          (v : ℕ) (o : Option ℕ) (s : Desktop D)
          → (t : Desktop D) × (fullscreen_switch F get_output v false none o s ≡ some t)
            × SameFamily s t
      switched_off v none s = (s, refl, SameFamily-refl s)
      switched_off v (some o) s = (_, refl, leave_fullscreen-SameFamily v o s)

      -- To take a view out of fullscreen always gives a result, and leaves all families.
      pub view_set_fullscreen-off :
          (focused : ℕ → Bool) (v : ℕ) (s : Desktop D)
          → (t : Desktop D) × (view_set_fullscreen F get_output focused v false none s ≡ some t)
            × SameFamily s t
      unfolding view_set_fullscreen
      view_set_fullscreen-off focused v s =
          let view = s.view_of v in
          let was = view_is_fullscreen view in
          let told = told-SameFamily (differs was false) v false s in
          let (t, e, p) = switched_off v view.fullscreen_output _ in
          if-elim (λ o. (t : Desktop D) × (o ≡ some t) × SameFamily s t)
            (differs was false && (false && view.mapped && not (focused v))) (some s) _
            (λ _. (s, refl, SameFamily-refl s)) (λ _. (t, e, SameFamily-trans s _ t told p))
