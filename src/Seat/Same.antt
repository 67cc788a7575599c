-- ===== src/Seat/Same.antt =====
-- What the notices and the activation of src/seat.c leave as it was.
use phoc.Prelude.{
  ℕ, ◌≡◌, refl, sym, ◌∙◌, ap, subst, Bool, true, false, List, [], ◌∷◌, Option, none, some,
  if◌then◌else◌, arith,
}
use phoc.View.State.{Desktop}
use phoc.Input.{Seat, phoc_input_view_has_focus}
use phoc.View.Fullscreen.{without}
use phoc.Seat.State.{
  of_view, keyboard_enter, keyboard_end_grab, tablet_pad_enter, input_method_focus,
  cursor_update_focus, Notice, World, tell, tell_if, set_views, set_has_focus, hide_shell,
  view_activate,
}
use phoc.Seat.Focus.{deactivate, enter_pads, enter_view, leave_focus, by_layer, take_focus}

module _ {D : Type 0} where
  -- The same seat, layer and client, and the same views on the desktop.
  pub record SameFocus (w t : World D) : Type 0 where
    pub seat : t.seat ≡ w.seat
    pub layer : t.focused_layer ≡ w.focused_layer
    pub client : t.exclusive_client ≡ w.exclusive_client
    pub view_of : t.desktop.view_of ≡ w.desktop.view_of

  pub SameFocus-refl : (w : World D) → SameFocus w w
  SameFocus-refl w = record { seat = refl; layer = refl; client = refl; view_of = refl }

  pub SameFocus-trans : (w t u : World D) → SameFocus w t → SameFocus t u → SameFocus w u
  SameFocus-trans w t u p q = record {
    seat = q.seat ∙ p.seat;
    layer = q.layer ∙ p.layer;
    client = q.client ∙ p.client;
    view_of = q.view_of ∙ p.view_of;
  }

  pub tell-SameFocus : (n : Notice) (w : World D) → SameFocus w (tell n w)
  tell-SameFocus n w = record { seat = refl; layer = refl; client = refl; view_of = refl }

  pub tell_if-SameFocus : (b : Bool) (n : Notice) (w : World D) → SameFocus w (tell_if b n w)
  tell_if-SameFocus true n w = tell-SameFocus n w
  tell_if-SameFocus false n w = SameFocus-refl w

  if-SameFocus :
      (b : Bool) (w t u : World D)
      → SameFocus w t
      → SameFocus w u
      → SameFocus w (if b then t else u)
  if-SameFocus true w t u p q = p
  if-SameFocus false w t u p q = q

  hide_shell-view_of : (o : Option ℕ) (d : Desktop D) → (hide_shell o d).view_of ≡ d.view_of
  hide_shell-view_of none d = refl
  hide_shell-view_of (some o) d = ground arith

  pub view_activate-SameFocus : (v : ℕ) (b : Bool) (w : World D) → SameFocus w (view_activate v b w)
  unfolding view_activate
  view_activate-SameFocus v b w =
      let hidden = hide_shell-view_of (w.desktop.view_of v).fullscreen_output w.desktop in
      record {
        seat = ground arith;
        layer = ground arith;
        client = ground arith;
        view_of = ground (arith, hidden);
      }

  pub deactivate-SameFocus : (o : Option ℕ) (w : World D) → SameFocus w (deactivate o w)
  deactivate-SameFocus none w = SameFocus-refl w
  deactivate-SameFocus (some u) w =
      if-SameFocus (phoc_input_view_has_focus (w.seat ∷ w.others) (some u)) w w _ (SameFocus-refl w)
        (view_activate-SameFocus u false w)

  -- The previous focus is left: the list is `vs`, without a focus.
  pub leave_focus-SameFocus :
      (o : Option ℕ) (vs : List ℕ) (w : World D)
      → SameFocus (set_has_focus false (set_views vs w)) (leave_focus o vs w)
  leave_focus-SameFocus o vs w = deactivate-SameFocus o (set_has_focus false (set_views vs w))

  enter_pads-SameFocus :
      (v : ℕ) (ts : List (Option ℕ)) (w : World D) → SameFocus w (enter_pads v ts w)
  enter_pads-SameFocus v [] w = SameFocus-refl w
  enter_pads-SameFocus v (none ∷ ts) w = enter_pads-SameFocus v ts w
  enter_pads-SameFocus v (some a ∷ ts) w =
      SameFocus-trans w _ _ (tell-SameFocus (tablet_pad_enter a v) w) (enter_pads-SameFocus v ts _)

  enter_view-SameFocus : (k : Bool) (v : ℕ) (w : World D) → SameFocus w (enter_view k v w)
  enter_view-SameFocus k v w =
      let ended = tell keyboard_end_grab w in
      let entered = tell (keyboard_enter (of_view v) k) ended in
      let padded =
        if-SameFocus k entered _ entered (enter_pads-SameFocus v w.tablet_pads entered)
          (SameFocus-refl entered) in
      SameFocus-trans w entered _
        (SameFocus-trans w ended entered (tell-SameFocus keyboard_end_grab w)
          (tell-SameFocus (keyboard_enter (of_view v) k) ended))
        (SameFocus-trans entered _ _ padded (
          SameFocus-trans _ _ _ (tell-SameFocus cursor_update_focus _)
            (tell-SameFocus (input_method_focus (some (of_view v))) _)))

  -- Without a focused layer the view at the head has the focus.
  abbrev pub first_focused : ℕ → World D → World D
  first_focused v w = set_has_focus true (set_views (v ∷ without v w.seat.views) w)

  entered-SameFocus :
      (k : Bool) (v : ℕ) (w : World D) → SameFocus (set_has_focus true w) (by_layer none k v w)
  entered-SameFocus k v w =
      let active = view_activate-SameFocus v true w in
      SameFocus-trans (set_has_focus true w) (set_has_focus true (view_activate v true w)) _
        (record {
          seat = ap (λ (s : Seat). record s { has_focus = true }) active.seat;
          layer = active.layer;
          client = active.client;
          view_of = active.view_of;
        })
        (enter_view-SameFocus k v _)

  pub take_focus-SameFocus :
      (k : Bool) (v : ℕ) (w : World D)
      → w.focused_layer ≡ none
      → SameFocus (first_focused v w) (take_focus k v w)
  unfolding take_focus
  take_focus-SameFocus k v w e =
      let first = set_views (v ∷ without v w.seat.views) w in
      subst (λ o. SameFocus (first_focused v w) (by_layer o k v first)) (sym e)
        (entered-SameFocus k v first)

  pub take_focus-layer :
      (k : Bool) (v l : ℕ) (w : World D)
      → w.focused_layer ≡ some l
      → take_focus k v w ≡ set_views (v ∷ without v w.seat.views) w
  unfolding take_focus
  take_focus-layer k v l w e = ap (λ o. by_layer o k v (set_views (v ∷ without v w.seat.views) w)) e
