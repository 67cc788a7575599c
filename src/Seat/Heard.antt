-- ===== src/Seat/Heard.antt =====
-- Who hears of it when phoc_seat_set_focus of src/seat.c moves the focus.
use mathlib.Core.List.{append_assoc, append-nil}
use phoc.Prelude.{
  ℕ, ◌≡◌, refl, sym, ◌∙◌, ap, Bool, true, false, List, [], ◌∷◌, ◌++◌, Option, none, some,
  if◌then◌else◌, arith,
}
use phoc.View.State.{Numbers, Desktop}
use phoc.View.Fullscreen.{without}
use phoc.Input.{is_view, phoc_seat_get_focus, view_focused_by, phoc_input_view_has_focus}
use phoc.Seat.Stack.{raise_view}
use phoc.Seat.State.{
  Notice, World, Outside, set_views, set_has_focus, phoc_seat_allow_input, on_desktop, focus_of,
  view_activate,
}
use phoc.Seat.Spec.{is_free}
use phoc.Seat.Focus.{phoc_seat_set_focus, deactivate, leave_focus, by_layer, take_focus}
use phoc.Seat.Told.{
  activation, leaving, entering, entered_with, Tells, activation_same, deactivate-Tells,
  enter_view-Tells, view_activate-Tells,
}
use phoc.Seat.Outcome.{
  Given, had, unwanted, no_memory, taken, give_focus-Given, refused, allowed, set_focus-FocusCall,
}

is_view_self : (v : ℕ) (o : Option ℕ) → o ≡ some v → is_view v o ≡ true
is_view_self v o e = ground (arith, e)

module _ {D : Type 0} where
  relisted :
      (ns : List Notice) (w t : World D) (vs : List ℕ) → Tells ns w t → Tells ns w (set_views vs t)
  relisted ns w t vs p = record {
    notices = p.notices;
    app_id = p.app_id;
    maximize = p.maximize;
    view_of = p.view_of;
    tablet_pads = p.tablet_pads;
    focused_layer = p.focused_layer;
  }

  -- The view that takes the focus from `prev`, with the list `vs` of views.
  by_layer-notices :
      (k : Bool) (v : ℕ) (o : Option ℕ) (ns : List Notice) (w t : World D)
      → Tells ns w t
      → (by_layer o k v t).notices ≡ w.notices ++ (ns ++ (if is_free o then entering k v w else []))
  by_layer-notices k v (some l) ns w t p =
      p.notices ∙ ap (λ ms. w.notices ++ ms) (sym (append-nil ns))
  by_layer-notices k v none ns w t p =
      let active = view_activate-Tells v true t in
      let entered = enter_view-Tells k v (set_has_focus true (view_activate v true t)) in
      let activated = activation v true w in
      let rest = entered_with k v w.tablet_pads in
      let so_far : (view_activate v true t).notices ≡ (w.notices ++ ns) ++ activated =
        active.notices
        ∙ ap (λ ms. ms ++ activation v true t) p.notices
        ∙ ap (λ ms. (w.notices ++ ns) ++ ms) (activation_same ns v true w t p) in
      entered.notices
      ∙ ap (λ ts. (view_activate v true t).notices ++ entered_with k v ts)
          (active.tablet_pads ∙ p.tablet_pads)
      ∙ ap (λ ms. ms ++ rest) so_far
      ∙ append_assoc (w.notices ++ ns) activated rest
      ∙ append_assoc w.notices ns (activated ++ rest)

  taken-notices :
      (k : Bool) (v : ℕ) (prev : Option ℕ) (vs : List ℕ) (w : World D)
      → (take_focus k v (leave_focus prev vs w)).notices
        ≡ w.notices
          ++ (leaving prev (set_has_focus false (set_views vs w))
              ++ (if is_free w.focused_layer then entering k v w else []))
  unfolding take_focus
  taken-notices k v prev vs w =
      let w' = set_has_focus false (set_views vs w) in
      let left = deactivate-Tells prev w' in
      by_layer-notices k v (deactivate prev w').focused_layer (leaving prev w') w' _ (
        relisted (leaving prev w') w' (deactivate prev w')
          (v ∷ without v (deactivate prev w').seat.views) left)
      ∙ ap (λ o. w.notices ++ (leaving prev w' ++ (if is_free o then entering k v w else [])))
          left.focused_layer

  -- Without a focus the order of the seat's views does not matter.
  leaving_views :
      (o : Option ℕ) (vs : List ℕ) (w : World D)
      → leaving o (set_has_focus false (set_views vs w)) ≡ leaving o (set_has_focus false w)
  unfolding phoc_input_view_has_focus view_focused_by phoc_seat_get_focus
  leaving_views none vs w = refl
  leaving_views (some u) vs w = refl

  module _ (F : Numbers D) (E : Outside D) where
    Given-notices :
        (v : ℕ) (w t : World D)
        → is_view v (focus_of w) ≡ false
        → E.wants_focus v ≡ true
        → E.has_memory ≡ true
        → Given F E v w t
        → t.notices
          ≡ w.notices
            ++ (leaving (focus_of w) (set_has_focus false w)
                ++ (if is_free w.focused_layer then entering E.has_keyboard v w else []))
    Given-notices v w t new wants memory (had e) = cc (is_view_self v (focus_of w) e, new)
    Given-notices v w t new wants memory (unwanted h k) = cc (wants, k)
    Given-notices v w t new wants memory (no_memory h) = cc (memory, h)
    Given-notices v w t new wants memory (taken vs e) =
        taken-notices E.has_keyboard v (focus_of w) vs w
        ∙ ap
            (λ ns.
              w.notices
              ++ (ns ++ (if is_free w.focused_layer then entering E.has_keyboard v w else [])))
            (leaving_views (focus_of w) vs w)

    -- On the desktop as raising the view has left it: the view that had the focus is told that it is
    -- inactive, unless another seat has its focus on it; then, unless a layer surface holds the focus, the
    -- view is told that it is active, an old grab of the keyboard ends, the keyboard and its tablet pads
    -- enter the view, and the cursor and the input method follow. Nothing else is told.
    -- This is for a view of an allowed client that wants the focus and does not have it, with memory.
    pub phoc_seat_set_focus-notices :
        (n v : ℕ) (w t : World D)
        → is_view v (focus_of w) ≡ false
        → E.wants_focus v ≡ true
        → E.has_memory ≡ true
        → phoc_seat_allow_input w (E.client_of v) ≡ true
        → phoc_seat_set_focus F E n (some v) w ≡ some t
        → (d : Desktop D) × (raise_view F E (w.seat ∷ w.others) n v w.desktop ≡ some d)
          × (t.notices
              ≡ w.notices
                ++ (leaving (focus_of w) (set_has_focus false (on_desktop d w))
                    ++ (if is_free w.focused_layer
                        then entering E.has_keyboard v (on_desktop d w)
                        else [])))
    phoc_seat_set_focus-notices n v w t new wants memory allow e =
        elim (set_focus-FocusCall F E n v w t e) [
          | refused h _ ↦ cc (allow, h)
          | allowed d _ r p ↦ (
            d,
            r,
            ap (λ (u : World D). u.notices) p
                ∙ Given-notices v (on_desktop d w) _ new wants memory
                    (give_focus-Given F E v (on_desktop d w)),
          )
        ]
