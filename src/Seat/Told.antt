-- ===== src/Seat/Told.antt =====
-- What phoc_seat_set_focus of src/seat.c tells views, clients, the cursor and the input method, in order.
use mathlib.Core.List.{append_assoc, append-nil}
use phoc.Prelude.{
  ℕ, ◌≡◌, refl, sym, ◌∙◌, ap, inl, inr, Bool, true, false, not, ◌||◌, List, [], ◌∷◌, ◌++◌, Option,
  none, some, if◌then◌else◌, if-elim, arith, Bool-cases,
}
use phoc.View.State.{Desktop}
use phoc.Input.{phoc_input_view_has_focus}
use phoc.Seat.State.{
  of_view, Notice, activate, set_activated, keyboard_enter, keyboard_end_grab, tablet_pad_enter,
  input_method_focus, cursor_update_focus, World, tell, tell_if, on_desktop, hide_shell,
  is_waydroid, view_activate,
}
use phoc.Seat.Focus.{deactivate, enter_pads, enter_view}

abbrev pub pads_of : ℕ → List (Option ℕ) → List Notice
pads_of v [] = []
pads_of v (none ∷ ts) = pads_of v ts
pads_of v (some t ∷ ts) = tablet_pad_enter t v ∷ pads_of v ts

-- What enter_view tells.
abbrev pub entered_with : Bool → ℕ → List (Option ℕ) → List Notice
entered_with k v ts =
    (keyboard_end_grab ∷ keyboard_enter (of_view v) k ∷ [])
    ++ (if k then pads_of v ts else [])
    ++ (cursor_update_focus ∷ input_method_focus (some (of_view v)) ∷ [])

module _ {D : Type 0} where
  -- What a view and its handle hear of an activation.
  abbrev pub activation : ℕ → Bool → World D → List Notice
  activation v b w =
      (if is_waydroid (w.app_id v) || not w.desktop.maximize then activate v b ∷ [] else [])
      ++ (if (w.desktop.view_of v).toplevel_handle then set_activated v b ∷ [] else [])

  abbrev pub leaving : Option ℕ → World D → List Notice
  leaving none w = []
  leaving (some u) w =
      if phoc_input_view_has_focus (w.seat ∷ w.others) (some u) then [] else activation u false w

  abbrev pub entering : Bool → ℕ → World D → List Notice
  entering keyboard v w = activation v true w ++ entered_with keyboard v w.tablet_pads

  -- The notices have grown by these; what an activation reads is the same.
  pub record Tells (ns : List Notice) (w t : World D) : Type 0 where
    pub notices : t.notices ≡ w.notices ++ ns
    pub app_id : t.app_id ≡ w.app_id
    pub maximize : t.desktop.maximize ≡ w.desktop.maximize
    pub view_of : t.desktop.view_of ≡ w.desktop.view_of
    pub tablet_pads : t.tablet_pads ≡ w.tablet_pads
    pub focused_layer : t.focused_layer ≡ w.focused_layer

  Tells-trans :
      (ns ms : List Notice) (w t u : World D) → Tells ns w t → Tells ms t u → Tells (ns ++ ms) w u
  Tells-trans ns ms w t u p q = record {
    notices = q.notices ∙ ap (λ ls. ls ++ ms) p.notices ∙ append_assoc w.notices ns ms;
    app_id = q.app_id ∙ p.app_id;
    maximize = q.maximize ∙ p.maximize;
    view_of = q.view_of ∙ p.view_of;
    tablet_pads = q.tablet_pads ∙ p.tablet_pads;
    focused_layer = q.focused_layer ∙ p.focused_layer;
  }

  Tells-refl : (w : World D) → Tells [] w w
  Tells-refl w = record {
    notices = sym (append-nil w.notices);
    app_id = refl;
    maximize = refl;
    view_of = refl;
    tablet_pads = refl;
    focused_layer = refl;
  }

  Tells-tell : (n : Notice) (w : World D) → Tells (n ∷ []) w (tell n w)
  Tells-tell n w = record {
    notices = refl;
    app_id = refl;
    maximize = refl;
    view_of = refl;
    tablet_pads = refl;
    focused_layer = refl;
  }

  Tells-tell_if :
      (b : Bool) (n : Notice) (w : World D) → Tells (if b then n ∷ [] else []) w (tell_if b n w)
  Tells-tell_if true n w = Tells-tell n w
  Tells-tell_if false n w = Tells-refl w

  hide_shell-kept :
      (o : Option ℕ) (d : Desktop D)
      → ((hide_shell o d).view_of ≡ d.view_of) × ((hide_shell o d).maximize ≡ d.maximize)
  hide_shell-kept none d = (refl, refl)
  hide_shell-kept (some o) d = ground arith

  Tells-hidden :
      (b : Bool) (o : Option ℕ) (d : Desktop D) (w t : World D) (ns : List Notice)
      → Tells ns w t
      → d.view_of ≡ w.desktop.view_of
      → d.maximize ≡ w.desktop.maximize
      → Tells ns w (on_desktop (if b then hide_shell o d else d) t)
  Tells-hidden b o d w t ns p e k =
      let (views, maximize) = hide_shell-kept o d in
      record {
        notices = p.notices;
        app_id = p.app_id;
        maximize =
            if-elim (λ (c : Desktop D). c.maximize ≡ w.desktop.maximize) b (hide_shell o d) d
              (λ _. maximize ∙ k) (λ _. k);
        view_of =
            if-elim (λ (c : Desktop D). c.view_of ≡ w.desktop.view_of) b (hide_shell o d) d
              (λ _. views ∙ e) (λ _. e);
        tablet_pads = p.tablet_pads;
        focused_layer = p.focused_layer;
      }

  pub view_activate-Tells :
      (v : ℕ) (b : Bool) (w : World D) → Tells (activation v b w) w (view_activate v b w)
  unfolding view_activate
  view_activate-Tells v b w =
      let shown = is_waydroid (w.app_id v) || not w.desktop.maximize in
      let told =
        Tells-trans _ _ w (tell_if shown (activate v b) w) _ (Tells-tell_if shown (activate v b) w)
          (Tells-tell_if (w.desktop.view_of v).toplevel_handle (set_activated v b) _) in
      Tells-hidden b (w.desktop.view_of v).fullscreen_output w.desktop w _ _ told refl refl

  pub activation_same :
      (ns : List Notice) (v : ℕ) (b : Bool) (w t : World D)
      → Tells ns w t
      → activation v b t ≡ activation v b w
  activation_same ns v b w t p = cc (p.app_id, p.maximize, p.view_of)

  pub deactivate-Tells : (o : Option ℕ) (w : World D) → Tells (leaving o w) w (deactivate o w)
  deactivate-Tells none w = Tells-refl w
  deactivate-Tells (some u) w =
      let focused = phoc_input_view_has_focus (w.seat ∷ w.others) (some u) in
      elim (Bool-cases focused) [
        | inl h ↦ rw h (Tells-refl w)
        | inr h ↦ rw h (view_activate-Tells u false w)
      ]

  enter_pads-Tells :
      (v : ℕ) (ts : List (Option ℕ)) (w : World D) → Tells (pads_of v ts) w (enter_pads v ts w)
  enter_pads-Tells v [] w = Tells-refl w
  enter_pads-Tells v (none ∷ ts) w = enter_pads-Tells v ts w
  enter_pads-Tells v (some a ∷ ts) w =
      Tells-trans (tablet_pad_enter a v ∷ []) (pads_of v ts) w _ _
        (Tells-tell (tablet_pad_enter a v) w) (enter_pads-Tells v ts _)

  padded-Tells :
      (k : Bool) (v : ℕ) (ts : List (Option ℕ)) (w : World D)
      → Tells (if k then pads_of v ts else []) w (if k then enter_pads v ts w else w)
  padded-Tells true v ts w = enter_pads-Tells v ts w
  padded-Tells false v ts w = Tells-refl w

  two-Tells : (m n : Notice) (w : World D) → Tells (m ∷ n ∷ []) w (tell n (tell m w))
  two-Tells m n w =
      Tells-trans (m ∷ []) (n ∷ []) w (tell m w) _ (Tells-tell m w) (Tells-tell n (tell m w))

  pub enter_view-Tells :
      (k : Bool) (v : ℕ) (w : World D) → Tells (entered_with k v w.tablet_pads) w (enter_view k v w)
  enter_view-Tells k v w =
      let entered = tell (keyboard_enter (of_view v) k) (tell keyboard_end_grab w) in
      Tells-trans _ _ w _ _
        (Tells-trans _ _ w entered _ (two-Tells keyboard_end_grab (keyboard_enter (of_view v) k) w)
          (padded-Tells k v w.tablet_pads entered))
        (two-Tells cursor_update_focus (input_method_focus (some (of_view v))) _)
