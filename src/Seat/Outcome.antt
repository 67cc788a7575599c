-- ===== src/Seat/Outcome.antt =====
-- phoc_seat_set_focus of src/seat.c against its specification: what becomes of the focus.
use phoc.Prelude.{
  ℕ, ◌≡◌, refl, sym, ◌∙◌, ap, inl, inr, Bool, true, false, not, ◌&&◌, List, ◌∷◌, Option, none, some,
  some-injective, >>=-eq-some, arith, Bool-cases, Option-cases, if-elim, Option-elim,
}
use phoc.View.State.{Numbers, Desktop}
use phoc.View.Fullscreen.{without}
use phoc.Input.{Seat, is_view}
use phoc.Seat.State.{World, Outside, set_has_focus, on_desktop, focus_of, phoc_seat_allow_input}
use phoc.Seat.Stack.{raise_view}
use phoc.Seat.Focus.{
  has, phoc_seat_view_from_view, leave_focus, take_focus, clear_focus, give_focus, focus_view,
  phoc_seat_set_focus,
}
use phoc.Seat.Same.{
  SameFocus, leave_focus-SameFocus, first_focused, take_focus-SameFocus, take_focus-layer,
}
use phoc.Seat.Spec.{
  focus_state, is_free, focus_on, unfocused, without-absent, without-append, SameFocus-state,
}

-- A view that is searched for or added is in front of the others either way.
from_view-without :
    (m : Bool) (v : ℕ) (vs ws : List ℕ)
    → phoc_seat_view_from_view m v vs ≡ some ws
    → without v ws ≡ without v vs
unfolding phoc_seat_view_from_view
from_view-without m v vs ws e = elim (Bool-cases (has v vs)) [
  | inl h ↦ ap (without v) (sym (some-injective vs ws (rw (phoc_seat_view_from_view, h) at e)))
  | inr h ↦ elim (Bool-cases m) [
    | inl k ↦
        ap (without v) (sym (some-injective _ ws (rw (phoc_seat_view_from_view, h, k) at e)))
        ∙ without-append v vs h
        ∙ sym (without-absent v vs h)
    | inr k ↦ cc (rw (phoc_seat_view_from_view, h, k) at e)
  ]
]

module _ {D : Type 0} where
  take_focus-state :
      (k : Bool) (v : ℕ) (w : World D)
      → w.seat.has_focus ≡ false
      → focus_state (take_focus k v w) ≡ focus_on v (focus_state w)
  take_focus-state k v w h = elim (Option-cases w.focused_layer) [
    | inl e ↦ SameFocus-state (first_focused v w) _ (take_focus-SameFocus k v w e) ∙ rw e refl
    | inr (l, e) ↦ ap focus_state (take_focus-layer k v l w e) ∙ rw (e, h) refl
  ]

  clear_focus-SameFocus : (w : World D) → SameFocus (set_has_focus false w) (clear_focus w)
  unfolding clear_focus
  clear_focus-SameFocus w =
      let left = leave_focus-SameFocus (focus_of w) w.seat.views w in
      record { seat = left.seat; layer = left.layer; client = left.client; view_of = left.view_of }

  -- Without a view the seat has no focus, and its views stay in their order.
  pub clear_focus-state : (w : World D) → focus_state (clear_focus w) ≡ unfocused (focus_state w)
  clear_focus-state w =
      SameFocus-state (set_has_focus false w) (clear_focus w) (clear_focus-SameFocus w)

  pub taken-state :
      (k m : Bool) (v : ℕ) (o : Option ℕ) (vs : List ℕ) (w : World D)
      → phoc_seat_view_from_view m v w.seat.views ≡ some vs
      → focus_state (take_focus k v (leave_focus o vs w)) ≡ focus_on v (focus_state w)
  taken-state k m v o vs w e =
      let left = leave_focus-SameFocus o vs w in
      take_focus-state k v (leave_focus o vs w) (ap (λ (s : Seat). s.has_focus) left.seat)
      ∙ ap (focus_on v) (SameFocus-state _ _ left)
      ∙ ap (λ us. record (focus_state w) { views = v ∷ us; has_focus = is_free w.focused_layer })
          (from_view-without m v w.seat.views vs e)

  module _ (F : Numbers D) (E : Outside D) where
    -- The view has the focus already, it does not want it, there is no memory for it, or it takes it.
    pub data Given (v : ℕ) (w : World D) : World D → Type 0 where
      had : focus_of w ≡ some v → Given v w w
      unwanted :
          (w.desktop.view_of v).impl.is_xwayland ≡ true → E.wants_focus v ≡ false → Given v w w
      no_memory : E.has_memory ≡ false → Given v w w
      taken :
          (vs : List ℕ)
          → phoc_seat_view_from_view E.has_memory v w.seat.views ≡ some vs
          → Given v w (take_focus E.has_keyboard v (leave_focus (focus_of w) vs w))

    is_view_of : (v : ℕ) (o : Option ℕ) → is_view v o ≡ true → o ≡ some v
    is_view_of v o e = ground arith

    no_room : (m : Bool) (v : ℕ) (vs : List ℕ) → phoc_seat_view_from_view m v vs ≡ none → m ≡ false
    unfolding phoc_seat_view_from_view
    no_room m v vs e = ground arith

    pub give_focus-Given : (v : ℕ) (w : World D) → Given v w (give_focus F E v w)
    unfolding give_focus
    give_focus-Given v w =
        if-elim (Given v w) (is_view v (focus_of w)) w _ (λ h. had (is_view_of v (focus_of w) h))
          (λ _.
            if-elim (Given v w) ((w.desktop.view_of v).impl.is_xwayland && not (E.wants_focus v)) w
              _ (λ h. unwanted (ground (arith, h)) (ground (arith, h)))
              (λ _.
                Option-elim (Given v w) (phoc_seat_view_from_view E.has_memory v w.seat.views) w _
                  (λ h. no_memory (no_room E.has_memory v w.seat.views h)) taken))

    -- A call that returns for a view: it was refused, or it raised the view and gave it the focus.
    pub data FocusCall (n v : ℕ) (w t : World D) : Type 0 where
      refused : phoc_seat_allow_input w (E.client_of v) ≡ false → t ≡ w → FocusCall n v w t
      allowed :
          (d : Desktop D)
          → phoc_seat_allow_input w (E.client_of v) ≡ true
          → raise_view F E (w.seat ∷ w.others) n v w.desktop ≡ some d
          → t ≡ give_focus F E v (on_desktop d w)
          → FocusCall n v w t

    allowed-FocusCall :
        (n v : ℕ) (w t : World D)
        → phoc_seat_allow_input w (E.client_of v) ≡ true
        → focus_view F E n v w ≡ some t
        → FocusCall n v w t
    allowed-FocusCall n v w t h e =
        let (d, raised, given) =
          >>=-eq-some (raise_view F E (w.seat ∷ w.others) n v w.desktop)
            (λ d. some (give_focus F E v (on_desktop d w))) e in
        allowed d h raised (sym (some-injective _ t given))

    pub set_focus-FocusCall :
        (n v : ℕ) (w t : World D)
        → phoc_seat_set_focus F E n (some v) w ≡ some t
        → FocusCall n v w t
    unfolding phoc_seat_set_focus
    set_focus-FocusCall n v w t e =
        if-elim (λ (o : Option (World D)). o ≡ some t → FocusCall n v w t)
          (not (w.desktop.view_of v).mapped) none _ (λ _ (x : none ≡ some t). cc)
          (λ _.
            if-elim (λ (o : Option (World D)). o ≡ some t → FocusCall n v w t)
              (not (phoc_seat_allow_input w (E.client_of v))) (some w) (focus_view F E n v w)
              (λ h (x : some w ≡ some t). refused (ground (arith, h)) (sym (some-injective w t x)))
              (λ h x. allowed-FocusCall n v w t (ground (arith, h)) x))
          e
