-- ===== src/Seat/Arranged.antt =====
-- src/seat.c: what becomes of a focused layer surface when arrange_layers of src/layer_shell.c, which
-- phoc_seat_set_focus_layer calls, gives the focus back.
use phoc.Prelude.{
  subst, sym, Bool, Option, if◌then◌else◌, inl, inr, Bool-cases, Option-cases, ℕ, zero, suc, ◌≡◌,
  refl, true, false, List, [], ◌∷◌, none, some, leb,
}
use phoc.View.State.{Numbers}
use phoc.Input.{first, phoc_seat_get_focus}
use phoc.Seat.State.{
  tell, arranges_layers, input_method_focus, of_layer, cursor_update_focus, keyboard_enter,
  focus_of, view_activate, keyboard_clear_focus, cursor_passthrough, World, Outside,
  phoc_seat_allow_input,
}
use phoc.Seat.Focus.{
  arrange_all, unfocus_view, focus_topmost, focus_first, enter_layer, layer_top, clear_focus,
  phoc_seat_set_focus, unfocus_layer, phoc_seat_set_focus_layer,
}
use phoc.Seat.Spec.{Focus, focus_state, IsValid}
use phoc.Seat.Released.{IsValid-IsKept}
use phoc.Seat.Invariant.{focus_first-Safe}
use phoc.Seat.Exclusive.{focus_first-NoLayer}

without_focus :
    (b : Bool) (vs : List ℕ)
    → (if b then first vs else none) ≡ none
    → (vs ≡ [] → b ≡ false)
    → b ≡ false
without_focus b [] e h = h refl
without_focus false (v ∷ vs) e h = refl
without_focus true (v ∷ vs) e h = cc e

module _ {D : Type 0} where
  -- A seat without views whose focus is with a layer surface, and whose input no client has to itself.
  abbrev pub with_layer : ℕ → List ℕ → World D → World D
  with_layer l os w = record w {
    desktop = record w.desktop { outputs = os };
    seat = record w.seat { views = []; has_focus = false };
    focused_layer = some l;
    exclusive_client = none;
  }

  module _ (F : Numbers D) (E : Outside D) where
    -- What the layer surface's turn has sent.
    abbrev returned : ℕ → ℕ → World D → World D
    returned l a w = tell (input_method_focus (some (of_layer l))) (
        tell cursor_update_focus (
          tell (keyboard_enter (of_layer l) E.has_keyboard) (
            tell (arranges_layers a) (
              tell (input_method_focus none)
                (tell keyboard_clear_focus (record w { mode = cursor_passthrough }))))))

    unfocus_layer-endless :
        (k n l a b : ℕ) (w : World D)
        → E.topmost a ≡ some l
        → E.topmost b ≡ none
        → leb layer_top (E.layer_of l) ≡ true
        → unfocus_layer F E k n (with_layer l (a ∷ b ∷ []) w) ≡ none
    unfolding unfocus_layer phoc_seat_set_focus phoc_seat_allow_input clear_focus
        phoc_seat_get_focus
    unfocus_layer-endless zero n l a b w p q r = refl
    unfocus_layer-endless (suc k) n l a b w p q r =
        rw (p, q, r)
          (rw (unfocus_layer-endless k n l a b (tell (arranges_layers b) (returned l a w)) p q r)
            refl)

    unfocus_view-returns :
        (w : World D)
        → IsValid (focus_state w)
        → (t : World D) × (unfocus_view (focus_of w) w ≡ some t)
    unfolding phoc_seat_get_focus
    unfocus_view-returns w i = elim (Option-cases (focus_of w)) [
      | inr (v, e) ↦ (view_activate v false (tell keyboard_clear_focus w), rw e refl)
      | inl e ↦ (w, rw e (rw (without_focus w.seat.has_focus w.seat.views e i.focused) refl))
    ]

    focus_topmost-returns :
        (n : ℕ) (o : Option ℕ) (w : World D)
        → w.focused_layer ≡ none
        → IsValid (focus_state w)
        → (t : World D) × (focus_topmost F E (unfocus_layer F E zero n) o w ≡ some t)
    unfolding unfocus_layer
    focus_topmost-returns n none w e i = (w, rw e refl)
    focus_topmost-returns n (some l) w e i =
        elim (Bool-cases (phoc_seat_allow_input w (E.layer_client l))) [
          | inr h ↦ (w, rw h refl)
          | inl h ↦ let (t, q) = unfocus_view-returns w i in (enter_layer F E l t, rw h (rw q refl))
        ]

    arranged-returns :
        (n a : ℕ) (w : World D)
        → w.focused_layer ≡ none
        → IsValid (focus_state w)
        → (os : List ℕ) → os ≡ a ∷ []
        → (t : World D) × (arrange_all F E (unfocus_layer F E zero n) os w ≡ some t)
    arranged-returns n a w h i os o =
        let (t, q) = focus_topmost-returns n (E.topmost a) (tell (arranges_layers a) w) h i in
        subst (λ l. (u : World D) × (arrange_all F E (unfocus_layer F E zero n) l w ≡ some u))
          (sym o) (t, rw q refl)

    -- With one output, phoc_seat_set_focus_layer (seat, NULL) returns whenever the phoc_seat_set_focus does that
    -- it calls: it calls itself at most once.
    phoc_seat_set_focus_layer-returns :
        (n a : ℕ) (w t : World D)
        → IsValid (focus_state w)
        → focus_first F E n w.seat.views (record w { focused_layer = none }) ≡ some t
        → t.desktop.outputs ≡ a ∷ []
        → (u : World D) × (phoc_seat_set_focus_layer F E 1 n none w ≡ some u)
    unfolding phoc_seat_set_focus_layer unfocus_layer
    phoc_seat_set_focus_layer-returns n a w t i e o = elim (Option-cases w.focused_layer) [
      | inl h ↦ (w, rw h refl)
      | inr (l, h) ↦
          let free = record w { focused_layer = none } in
          let valid =
            focus_first-Safe IsValid F E (IsValid-IsKept E) n w.seat.views free
              ((IsValid-IsKept E).no_layer (focus_state w) i) t e in
          let none_held = focus_first-NoLayer E F n w.seat.views free refl t e in
          let (u, q) = arranged-returns n a t none_held valid t.desktop.outputs o in
          (u, rw h (rw e q))
    ]

    -- With two outputs, of which arrange_layers finds a topmost layer surface l on the first and none on the
    -- second, phoc_seat_set_focus_layer (seat, NULL) never returns while l has the focus, and no client the
    -- input to itself: through arrange_layers it calls itself without end. (The seat of the theorem has no
    -- views, so that nothing else of it can fail.)
    pub phoc_seat_set_focus_layer-endless :
        (k n l a b : ℕ) (w : World D)
        → E.topmost a ≡ some l
        → E.topmost b ≡ none
        → leb layer_top (E.layer_of l) ≡ true
        → phoc_seat_set_focus_layer F E k n none (with_layer l (a ∷ b ∷ []) w) ≡ none
    unfolding phoc_seat_set_focus_layer
    phoc_seat_set_focus_layer-endless k n l a b w p q r = unfocus_layer-endless k n l a b w p q r
