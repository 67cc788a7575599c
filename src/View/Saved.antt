-- ===== src/View/Saved.antt =====
-- The box that a floating view of src/view.c gets back after it was maximised.
use phoc.Prelude.{
  ℕ, ◌≡◌, refl, ◌∙◌, ap, inl, inr, true, false, Option, none, ==_refl, arith, Bool-cases,
  Option-cases,
}
use phoc.Prelude.Int.{ℤ}
use phoc.LayerShell.Geometry.{Box}
use phoc.View.State.{
  Numbers, floating, maximized, View, Call, Desktop, put_view, when, view_is_fullscreen,
  view_is_floating, view_is_maximized, view_get_geometry, saved_at, view_save, view_move_resize,
}
use phoc.View.Operations.{
  is_empty, or_find, view_arrange_maximized, want_auto_maximize, view_maximize, to_saved,
  view_restore,
}

module _ {D : Type 0} where
  -- What only the compositor changes of a view, and not its client.
  pub record Kept (a b : View D) : Type 0 where
    pub scale : b.scale ≡ a.scale
    pub state : b.state ≡ a.state
    pub fullscreen_output : b.fullscreen_output ≡ a.fullscreen_output
    pub saved : b.saved ≡ a.saved

  Kept-trans : (a b c : View D) → Kept a b → Kept b c → Kept a c
  Kept-trans a b c p q = record {
    scale = q.scale ∙ p.scale;
    state = q.state ∙ p.state;
    fullscreen_output = q.fullscreen_output ∙ p.fullscreen_output;
    saved = q.saved ∙ p.saved;
  }

  Kept-refl : (a : View D) → Kept a a
  Kept-refl a = record { scale = refl; state = refl; fullscreen_output = refl; saved = refl }

  floating_lem :
      (v : View D)
      → view_is_floating v ≡ true
      → (view_is_maximized v ≡ false)
        × (view_is_fullscreen v ≡ false)
        × (v.fullscreen_output ≡ none)
  floating_lem v h = ground arith

  put_view-same : (v : ℕ) (w : View D) (s : Desktop D) → (put_view v w s).view_of v ≡ w
  put_view-same v w s = rw (==_refl v) refl

  module _ (F : Numbers D) where
    view_move_resize-Kept :
        (v : ℕ) (x y : D) (w h : ℕ) (s : Desktop D)
        → Kept (s.view_of v) ((view_move_resize F v x y w h s).view_of v)
    unfolding view_move_resize
    view_move_resize-Kept v x y w h s = record {
      scale = ground arith;
      state = ground arith;
      fullscreen_output = ground arith;
      saved = ground arith;
    }

    module _ (get_output : View D → Option ℕ) where
      view_arrange_maximized-Kept :
          (v : ℕ) (o : Option ℕ) (s : Desktop D)
          → Kept (s.view_of v) ((view_arrange_maximized F get_output v o s).view_of v)
      unfolding view_arrange_maximized
      view_arrange_maximized-Kept v o s = elim (Bool-cases (view_is_fullscreen (s.view_of v))) [
        | inl e ↦ rw e (Kept-refl (s.view_of v))
        | inr e ↦ elim (Option-cases (or_find o (get_output (s.view_of v)))) [
          | inl k ↦ rw (e, k) (Kept-refl (s.view_of v))
          | inr (a, k) ↦ rw (e, k) (view_move_resize-Kept v _ _ _ _ s)
        ]
      ]

      -- What maximising leaves of a floating view.
      abbrev pub as_maximized : View D → View D
      as_maximized w = record (view_save F w) { state = maximized }

      view_maximize-Kept :
          (v : ℕ) (o : Option ℕ) (s : Desktop D)
          → view_is_floating (s.view_of v) ≡ true
          → Kept (as_maximized (s.view_of v)) ((view_maximize F get_output v o s).view_of v)
      unfolding view_maximize
      view_maximize-Kept v o s h =
          let facts = floating_lem (s.view_of v) h in
          rw (facts.0, facts.1)
            (Kept-trans _ _ _ (rw (==_refl v) (Kept-refl _)) (view_arrange_maximized-Kept v o _))

      view_save-saved :
          (w : View D)
          → view_is_floating w ≡ true
          → (view_save F w).saved ≡ record {
            x = saved_at F w.box.x (view_get_geometry F w).x w.scale;
            y = saved_at F w.box.y (view_get_geometry F w).y w.scale;
            width = w.box.width;
            height = w.box.height;
          }
      unfolding view_save
      view_save-saved w h = rw h refl

      view_save-Kept :
          (w : View D) → Kept (record w { saved = (view_save F w).saved }) (view_save F w)
      unfolding view_save
      view_save-Kept w = elim (Bool-cases (view_is_floating w)) [
        | inl e ↦ rw e (Kept-refl _)
        | inr e ↦ rw e (Kept-refl _)
      ]

      -- To ask for a box.
      abbrev pub ask : ℕ → Box → Desktop D → Desktop D
      ask v b s =
          view_move_resize F v (F.of_int b.x) (F.of_int b.y) (F.to_u32 (F.of_int b.width))
            (F.to_u32 (F.of_int b.height)) s

      to_saved-ask :
          (v : ℕ) (b : Box) (s : Desktop D)
          → let w = s.view_of v in
            is_empty w.saved ≡ false
            → F.sub (F.of_int w.saved.x) (F.mul (F.of_int (view_get_geometry F w).x) w.scale)
              ≡ F.of_int b.x
            → F.sub (F.of_int w.saved.y) (F.mul (F.of_int (view_get_geometry F w).y) w.scale)
              ≡ F.of_int b.y
            → w.saved.width ≡ b.width
            → w.saved.height ≡ b.height
            → to_saved F get_output v s ≡ ask v b s
      unfolding to_saved
      to_saved-ask v b s e x y w h = rw e (cc)

      -- What is said after a view has left the maximised state.
      abbrev pub tell_restored : ℕ → View D → Desktop D → Desktop D
      tell_restored v w s =
          when w.impl.has_maximize (Call.maximize v false)
            (when w.toplevel_handle (Call.handle_maximized v false) s)

      maximized_lem :
          (q : View D)
          → q.state ≡ maximized
          → q.fullscreen_output ≡ none
          → view_is_maximized q ≡ true
      maximized_lem q e h = ground arith

      view_restore-branch :
          (v : ℕ) (t : Desktop D)
          → view_is_maximized (t.view_of v) ≡ true
          → want_auto_maximize F get_output v t ≡ false
          → view_restore F get_output v t
            ≡ tell_restored v
                (t.view_of v)
                (to_saved F get_output v (put_view v (record (t.view_of v) { state = floating }) t))
      unfolding view_restore
      view_restore-branch v t e h = rw (e, h) refl

      returned :
          {a a' g g' : ℤ} {k k' r : D}
          → a' ≡ a
          → g' ≡ g
          → k' ≡ k
          → F.sub (F.of_int a) (F.mul (F.of_int g) k) ≡ r
          → F.sub (F.of_int a') (F.mul (F.of_int g') k') ≡ r
      returned p q l e = cc

      -- The offset that is added to a place when it is saved gives the place again when it is taken off.
      abbrev pub Exact : ℤ → ℤ → D → Type 0
      Exact b g k = F.sub (F.of_int (saved_at F b g k)) (F.mul (F.of_int g) k) ≡ F.of_int b

      -- Restoring a maximised view asks for the box that it had as a floating one. The view was floating,
      -- with a box that is not empty, when it was maximised; since then its scale, its state and its saved box
      -- are as they were left, and it is not one to be maximised by default. Its client may have taken any box,
      -- but the offset of its window geometry is the one that it had when it was maximised. For that
      -- offset and the view's place and scale the numbers are exact: adding the offset to the place and taking
      -- it off again gives the place.
      pub view_restore-maximize :
          (v : ℕ) (o : Option ℕ) (s t : Desktop D)
          → Exact (s.view_of v).box.x (view_get_geometry F (s.view_of v)).x (s.view_of v).scale
          → Exact (s.view_of v).box.y (view_get_geometry F (s.view_of v)).y (s.view_of v).scale
          → (view_get_geometry F (t.view_of v)).x ≡ (view_get_geometry F (s.view_of v)).x
          → (view_get_geometry F (t.view_of v)).y ≡ (view_get_geometry F (s.view_of v)).y
          → view_is_floating (s.view_of v) ≡ true
          → is_empty (s.view_of v).box ≡ false
          → Kept ((view_maximize F get_output v o s).view_of v) (t.view_of v)
          → want_auto_maximize F get_output v t ≡ false
          → view_restore F get_output v t
            ≡ tell_restored v
                (t.view_of v)
                (ask v (s.view_of v).box (put_view v (record (t.view_of v) { state = floating }) t))
      view_restore-maximize v o s t exact_x exact_y at_x at_y h e k a =
          let w = s.view_of v in
          let q = t.view_of v in
          let kept = Kept-trans _ _ _ (view_maximize-Kept v o s h) k in
          let same = view_save-Kept w in
          let saved = kept.saved ∙ view_save-saved w h in
          let scale = kept.scale ∙ same.scale in
          let full = kept.fullscreen_output ∙ same.fullscreen_output ∙ (floating_lem w h).2 in
          let x = ap (λ (b : Box). b.x) saved in
          let y = ap (λ (b : Box). b.y) saved in
          view_restore-branch v t (maximized_lem q kept.state full) a
          ∙ ap (tell_restored v q) (
              to_saved-ask v w.box (put_view v (record q { state = floating }) t)
                (rw (==_refl v) (ap is_empty saved ∙ e))
                (rw (==_refl v) (returned x at_x scale exact_x))
                (rw (==_refl v) (returned y at_y scale exact_y))
                (rw (==_refl v) (ap (λ (b : Box). b.width) saved))
                (rw (==_refl v) (ap (λ (b : Box). b.height) saved)))
