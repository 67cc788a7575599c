-- ===== src/Seat/Focused.antt =====
-- phoc_seat_set_focus and phoc_seat_cycle_focus of src/seat.c as changes of the focus's specification.
use phoc.Prelude.{
  ℕ, ◌≡◌, refl, sym, ◌∙◌, ap, ◌⊎◌, inl, inr, Bool, true, false, List, [], ◌∷◌, some, some-injective,
  if◌then◌else◌, ==_refl, Option-cases,
}
use phoc.View.State.{Numbers}
use phoc.View.Fullscreen.{without}
use phoc.Input.{Seat, phoc_seat_get_focus}
use phoc.Seat.State.{World, Outside, on_desktop, focus_of, phoc_seat_allow_input}
use phoc.Seat.Focus.{phoc_seat_set_focus}
use phoc.Seat.Spec.{Focus, focus_state, is_free, focus_on, IsValid}
use phoc.Seat.Outcome.{
  Given, had, unwanted, no_memory, taken, give_focus-Given, taken-state, FocusCall, refused,
  allowed, set_focus-FocusCall,
}

head-fields :
    (s : Seat) (b : Bool) (vs : List ℕ) (v : ℕ)
    → phoc_seat_get_focus (record s { has_focus = b; views = vs }) ≡ some v
    → (b ≡ true) × ((us : List ℕ) × (vs ≡ v ∷ us))
unfolding phoc_seat_get_focus
head-fields s true [] v e = cc
head-fields s true (u ∷ us) v e = (refl, (us, ap (λ a. a ∷ us) (some-injective u v e)))
head-fields s false vs v e = cc

-- A seat's focus is at the head of its list.
pub focus-head :
    (s : Seat) (v : ℕ)
    → phoc_seat_get_focus s ≡ some v
    → (s.has_focus ≡ true) × ((vs : List ℕ) × (s.views ≡ v ∷ vs))
focus-head s v e = head-fields s s.has_focus s.views v e

pub not_blocked : (f : Focus) → IsValid f → f.has_focus ≡ true → is_free f.layer ≡ true
not_blocked f i h = elim (Option-cases f.layer) [
  | inl e ↦ ap is_free e
  | inr (l, e) ↦ cc (sym (i.blocked l e) ∙ h)
]

again :
    (v : ℕ) (f : Focus) (vs : List ℕ)
    → f.views ≡ v ∷ vs
    → f.has_focus ≡ true
    → is_free f.layer ≡ true
    → f ≡ focus_on v f
again v f vs e h k =
    let front : without v f.views ≡ vs = rw (e, ==_refl v) refl in cc (e, h, k, front)

module _ {D : Type 0} where
  -- A view that has the focus keeps it when it is given it again.
  focus_on_again :
      (v : ℕ) (w : World D)
      → IsValid (focus_state w)
      → focus_of w ≡ some v
      → focus_state w ≡ focus_on v (focus_state w)
  focus_on_again v w i e =
      let (h, (vs, k)) = focus-head w.seat v e in
      again v (focus_state w) vs k h (not_blocked (focus_state w) i h)

  module _ (F : Numbers D) (E : Outside D) where
    -- Whatever it was asked, the focus is as it was or on the view.
    Given-either :
        (v : ℕ) (w t : World D)
        → Given F E v w t
        → (focus_state t ≡ focus_state w) ⊎ (focus_state t ≡ focus_on v (focus_state w))
    Given-either v w t (had e) = inl refl
    Given-either v w t (unwanted h k) = inl refl
    Given-either v w t (no_memory h) = inl refl
    Given-either v w t (taken vs e) =
        inr (taken-state E.has_keyboard E.has_memory v (focus_of w) vs w e)

    Given-on :
        (v : ℕ) (w t : World D)
        → IsValid (focus_state w)
        → E.wants_focus v ≡ true
        → E.has_memory ≡ true
        → Given F E v w t
        → focus_state t ≡ focus_on v (focus_state w)
    Given-on v w t i wants memory (had e) = focus_on_again v w i e
    Given-on v w t i wants memory (unwanted h k) = cc (sym wants ∙ k)
    Given-on v w t i wants memory (no_memory h) = cc (sym memory ∙ h)
    Given-on v w t i wants memory (taken vs e) =
        taken-state E.has_keyboard E.has_memory v (focus_of w) vs w e

    FocusCall-either :
        (n v : ℕ) (w t : World D)
        → FocusCall F E n v w t
        → (focus_state t ≡ focus_state w)
          ⊎ ((focus_state t ≡ focus_on v (focus_state w))
              × (phoc_seat_allow_input w (E.client_of v) ≡ true))
    FocusCall-either n v w t (refused h e) = inl (ap focus_state e)
    FocusCall-either n v w t (allowed d h r e) =
        elim (Given-either v (on_desktop d w) _ (give_focus-Given F E v (on_desktop d w))) [
          | inl p ↦ inl (ap focus_state e ∙ p)
          | inr p ↦ inr (ap focus_state e ∙ p, h)
        ]

    pub set_focus_either :
        (n v : ℕ) (w t : World D)
        → phoc_seat_set_focus F E n (some v) w ≡ some t
        → (focus_state t ≡ focus_state w)
          ⊎ ((focus_state t ≡ focus_on v (focus_state w))
              × (phoc_seat_allow_input w (E.client_of v) ≡ true))
    set_focus_either n v w t e = FocusCall-either n v w t (set_focus-FocusCall F E n v w t e)

    FocusCall-on :
        (n v : ℕ) (w t : World D)
        → IsValid (focus_state w)
        → E.wants_focus v ≡ true
        → E.has_memory ≡ true
        → FocusCall F E n v w t
        → focus_state t ≡ (
            if phoc_seat_allow_input w (E.client_of v)
            then focus_on v (focus_state w)
            else focus_state w)
    FocusCall-on n v w t i wants memory (refused h e) = rw h (ap focus_state e)
    FocusCall-on n v w t i wants memory (allowed d h r e) = rw h (
        ap focus_state e
        ∙ Given-on v (on_desktop d w) _ i wants memory (give_focus-Given F E v (on_desktop d w)))

    -- From a valid state, with memory and for a view that wants the focus, phoc_seat_set_focus that
    -- returns has put the view in front of the seat's other views, which stay in their order, and has
    -- given it the focus unless a layer surface holds it. For a view of a client that may not have
    -- input, nothing of this has changed.
    pub phoc_seat_set_focus_lem :
        (n v : ℕ) (w t : World D)
        → IsValid (focus_state w)
        → E.wants_focus v ≡ true
        → E.has_memory ≡ true
        → phoc_seat_set_focus F E n (some v) w ≡ some t
        → focus_state t ≡ (
            if phoc_seat_allow_input w (E.client_of v)
            then focus_on v (focus_state w)
            else focus_state w)
    phoc_seat_set_focus_lem n v w t i wants memory e =
        FocusCall-on n v w t i wants memory (set_focus-FocusCall F E n v w t e)
