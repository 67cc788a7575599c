-- ===== src/Seat/Refused.antt =====
-- src/seat.c where the view that should have the focus next cannot have it, or is not there.
use phoc.Prelude.{
  ℕ, ◌≡◌, refl, sym, ◌∙◌, ap, subst, true, false, not, List, [], ◌∷◌, ◌++◌, Option, none, some,
  some-injective, ◌>>=◌, if◌then◌else◌, if-elim, ==_refl, arith,
}
use phoc.View.State.{Numbers, Desktop}
use phoc.View.Fullscreen.{without}
use phoc.Input.{first}
use phoc.Seat.State.{World, Outside, focus_of, is_exclusive, phoc_seat_allow_input}
use phoc.Seat.Focus.{
  phoc_seat_set_focus, move_to_end, cycle_views, phoc_seat_cycle_focus, focus_next, drop_view,
  seat_view_destroy,
}
use phoc.Seat.Spec.{Focus, focus_state, focus_on, IsValid}
use phoc.Seat.Invariant.{dropped, drop_view-state}
use phoc.Seat.Released.{dropped-IsValid}
use phoc.Seat.Focused.{phoc_seat_set_focus_lem}
use phoc.Seat.Rounds.{focus_of_fields}

-- The parent of a view that is gone comes next, or the first one that is left.
abbrev pub next_view : Option ℕ → List ℕ → Option ℕ
next_view (some p) vs = some p
next_view none vs = first vs

module _ {D : Type 0} (F : Numbers D) (E : Outside D) where
  refused_focus :
      (n v : ℕ) (w : World D)
      → (w.desktop.view_of v).mapped ≡ true
      → phoc_seat_allow_input w (E.client_of v) ≡ false
      → phoc_seat_set_focus F E n (some v) w ≡ some w
  unfolding phoc_seat_set_focus
  refused_focus n v w m a = rw (m, a) refl

  cycle_views_refused :
      (n a b : ℕ) (vs us : List ℕ) (w : World D)
      → w.seat.has_focus ≡ true
      → (w.desktop.view_of b).mapped ≡ true
      → phoc_seat_allow_input w (E.client_of b) ≡ false
      → us ≡ a ∷ b ∷ vs
      → cycle_views F E n us w ≡ some (move_to_end a w)
  cycle_views_refused n a b vs us w h m r e =
      ap (λ ws. cycle_views F E n ws w) e
      ∙ if-elim (λ o. o ≡ some (move_to_end a w)) (not w.seat.has_focus) _ _ (λ k. cc (h, k))
          (λ _. ap (λ o. o >>= λ t. some (move_to_end a t)) (refused_focus n b w m r))

  -- When the next view belongs to a client that may not have input, phoc_seat_cycle_focus still moves
  -- the focused view to the end of the list: from then on the seat names the next view as the one that
  -- has the focus, and nobody has been told of it.
  pub cycle_refused :
      (n a b : ℕ) (vs : List ℕ) (w : World D)
      → w.seat.has_focus ≡ true
      → w.seat.views ≡ a ∷ b ∷ vs
      → (w.desktop.view_of b).mapped ≡ true
      → phoc_seat_allow_input w (E.client_of b) ≡ false
      → (t : World D) × (phoc_seat_cycle_focus F E n w ≡ some t)
        × (focus_of t ≡ some b)
        × (t.notices ≡ w.notices)
  unfolding phoc_seat_cycle_focus
  cycle_refused n a b vs w h e m r =
      let order : without a w.seat.views ++ (a ∷ []) ≡ b ∷ (vs ++ (a ∷ [])) =
        rw (e, ==_refl a) refl in
      (
        move_to_end a w,
        cycle_views_refused n a b vs w.seat.views w h m r e,
        focus_of_fields (move_to_end a w).seat b (vs ++ (a ∷ [])) h order,
        refl,
      )

  null_surface :
      (n v : ℕ) (w : World D)
      → (w.desktop.view_of v).mapped ≡ false
      → phoc_seat_set_focus F E n (some v) w ≡ none
  unfolding phoc_seat_set_focus
  null_surface n v w m = rw m refl

  drop_view-desktop : (v : ℕ) (w : World D) → (drop_view v w).desktop ≡ w.desktop
  drop_view-desktop v w = ground arith

  -- The end of a view whose parent has no surface any more makes phoc_seat_set_focus read through the
  -- null pointer: there is no result.
  pub seat_view_destroy-unmapped :
      (n v p : ℕ) (w : World D)
      → (w.desktop.view_of v).parent ≡ some p
      → (w.desktop.view_of p).mapped ≡ false
      → seat_view_destroy F E n v w ≡ none
  unfolding seat_view_destroy phoc_seat_set_focus
  seat_view_destroy-unmapped n v p w e m =
      ap (λ o. focus_next F E n o (without v w.seat.views) (drop_view v w)) e
      ∙ null_surface n p (drop_view v w)
          (ap (λ (d : Desktop D). (d.view_of p).mapped) (drop_view-desktop v w) ∙ m)

  abbrev pub refocused : Option ℕ → Focus → Focus
  refocused none f = f
  refocused (some u) f = if is_exclusive f.client (E.client_of u) then focus_on u f else f

  focus_next-state :
      (n : ℕ) (o : Option ℕ) (vs : List ℕ) (w t : World D)
      → IsValid (focus_state w)
      → ((u : ℕ) → E.wants_focus u ≡ true)
      → E.has_memory ≡ true
      → focus_next F E n o vs w ≡ some t
      → focus_state t ≡ refocused (next_view o vs) (focus_state w)
  unfolding phoc_seat_allow_input
  focus_next-state n (some p) vs w t i wants m e =
      phoc_seat_set_focus_lem F E n p w t i (wants p) m e
  focus_next-state n none [] w t i wants m e = ap focus_state (sym (some-injective w t e))
  focus_next-state n none (v ∷ vs) w t i wants m e =
      phoc_seat_set_focus_lem F E n v w t i (wants v) m e

  -- When a view goes, its parent is focused next, or without a parent the first view that is left, if
  -- its client may have input; if not, the focus is as the view leaves it, gone if the view had it. This
  -- is for a valid state, with memory and where all views want the focus, if seat_view_destroy returns.
  pub seat_view_destroy_lem :
      (n v : ℕ) (w t : World D)
      → IsValid (focus_state w)
      → ((u : ℕ) → E.wants_focus u ≡ true)
      → E.has_memory ≡ true
      → seat_view_destroy F E n v w ≡ some t
      → focus_state t
        ≡ refocused
            (next_view (w.desktop.view_of v).parent (without v w.seat.views))
            (dropped v (focus_state w))
  unfolding seat_view_destroy
  seat_view_destroy_lem n v w t i wants m e =
      let state = drop_view-state v w in
      let rest = without v w.seat.views in
      let parent = (w.desktop.view_of v).parent in
      focus_next-state n parent rest (drop_view v w) t
        (subst IsValid (sym state) (dropped-IsValid v (focus_state w) i)) wants m e
      ∙ ap (refocused (next_view parent rest)) state
