-- ===== src/Seat/Total.antt =====
-- src/seat.c: with fuel for the height of the families, phoc_seat_set_focus has a result for every
-- mapped view.
use phoc.Prelude.{
  ℕ, ◌≡◌, refl, sym, ◌∙◌, ap, inl, inr, Bool, true, not, ◌∷◌, Option, some, if-elim, Option-cases,
}
use phoc.View.State.{Numbers, View, Desktop}
use phoc.Seat.State.{World, Outside, on_desktop, focus_of, phoc_seat_allow_input}
use phoc.Seat.Focus.{has, take_focus, give_focus, focus_view, phoc_seat_set_focus}
use phoc.Seat.Same.{leave_focus-SameFocus, take_focus-SameFocus, take_focus-layer}
use phoc.Seat.Outcome.{Given, had, unwanted, no_memory, taken, give_focus-Given}
use phoc.Seat.Raised.{IsRanked, Kept, raise_view_total}

module _ {D : Type 0} where
  take_focus-view_of :
      (k : Bool) (v : ℕ) (w : World D) → (take_focus k v w).desktop.view_of ≡ w.desktop.view_of
  take_focus-view_of k v w = elim (Option-cases w.focused_layer) [
    | inl e ↦ (take_focus-SameFocus k v w e).view_of
    | inr (l, e) ↦ ap (λ (t : World D). t.desktop.view_of) (take_focus-layer k v l w e)
  ]

  IsRanked-view_of :
      (rank : ℕ → ℕ) (n : ℕ) (d t : Desktop D)
      → t.view_of ≡ d.view_of
      → IsRanked rank n d
      → IsRanked rank n t
  IsRanked-view_of rank n d t e i = record {
    bound = i.bound;
    up = λ v p k. i.up v p (sym (ap (λ (f : ℕ → View D). (f v).parent) e) ∙ k);
    down = λ v c k. i.down v c (sym (ap (λ (f : ℕ → View D). has c (f v).stack) e) ∙ k);
  }

  module _ (F : Numbers D) (E : Outside D) where
    Given-view_of :
        (v : ℕ) (w t : World D) → Given F E v w t → t.desktop.view_of ≡ w.desktop.view_of
    Given-view_of v w t (had e) = refl
    Given-view_of v w t (unwanted h k) = refl
    Given-view_of v w t (no_memory h) = refl
    Given-view_of v w t (taken vs e) =
        take_focus-view_of E.has_keyboard v _ ∙ (leave_focus-SameFocus (focus_of w) vs w).view_of

    module _ (rank : ℕ → ℕ) (n : ℕ) where
      -- There is a result, its families are ranked and the same views are mapped.
      abbrev pub Focuses : World D → Option (World D) → Type 0
      Focuses w o = (t : World D) × (o ≡ some t) × Kept rank n w.desktop t.desktop

      given-Kept :
          (v : ℕ) (w : World D) (d : Desktop D)
          → Kept rank n w.desktop d
          → Kept rank n w.desktop (give_focus F E v (on_desktop d w)).desktop
      given-Kept v w d k =
          let same = Given-view_of v (on_desktop d w) _ (give_focus-Given F E v (on_desktop d w)) in
          record {
            ranked = IsRanked-view_of rank n d _ same k.ranked;
            mapped = λ u. ap (λ (f : ℕ → View D). (f u).mapped) same ∙ k.mapped u;
          }

      focus_view_total :
          (v : ℕ) (w : World D) → IsRanked rank n w.desktop → Focuses w (focus_view F E n v w)
      focus_view_total v w i =
          let (d, e, k) = raise_view_total rank n F E (w.seat ∷ w.others) v w.desktop i in
          (give_focus F E v (on_desktop d w), rw e refl, given-Kept v w d k)

      -- With fuel for the height of the families, phoc_seat_set_focus for a mapped view has a result,
      -- in which the same views are mapped and the families are not higher than before.
      pub phoc_seat_set_focus_total :
          (v : ℕ) (w : World D)
          → IsRanked rank n w.desktop
          → (w.desktop.view_of v).mapped ≡ true
          → Focuses w (phoc_seat_set_focus F E n (some v) w)
      unfolding phoc_seat_set_focus
      phoc_seat_set_focus_total v w i m = rw m (
          if-elim (Focuses w) (not (phoc_seat_allow_input w (E.client_of v))) (some w) _
            (λ _. (w, refl, record { ranked = i; mapped = λ u. refl }))
            (λ _. focus_view_total v w i))
