-- ===== src/Seat/Invariant.antt =====
-- src/seat.c: what the operations on the focus keep, for any property of the focus that their steps keep.
use phoc.Prelude.{
  ℕ, zero, suc, ◌≡◌, sym, subst, inl, inr, Bool, true, false, not, List, [], ◌∷◌, Option, none,
  some, some-injective, ◌>>=◌, >>=-eq-some, if◌then◌else◌, if-elim, Option-elim, leb, arith,
  Bool-cases,
}
use phoc.View.State.{Numbers}
use phoc.View.Fullscreen.{without}
use phoc.Input.{first, is_view, phoc_seat_get_focus}
use phoc.Seat.State.{
  World, Outside, arranges_layers, tell, keyboard_clear_focus, focus_of, is_exclusive,
  phoc_seat_allow_input, view_activate,
}
use phoc.Seat.Focus.{
  layer_top, clear_focus, phoc_seat_set_focus, focus_first, focus_next, drop_view,
  seat_view_destroy, arrange_all, unfocus_layer, unfocus_view, focus_layer, focus_topmost,
  enter_layer, phoc_seat_set_focus_layer,
}
use phoc.Seat.Same.{SameFocus, SameFocus-trans, tell-SameFocus, view_activate-SameFocus}
use phoc.Seat.Spec.{Focus, focus_state, focus_on, unfocused, SameFocus-state}
use phoc.Seat.Outcome.{clear_focus-state}
use phoc.Seat.Focused.{set_focus_either}

-- phoc_seat_get_focus, of the specification's state.
abbrev pub current : Focus → Option ℕ
current f = if f.has_focus then first f.views else none

-- The view is gone, and with it the focus if it had it.
abbrev pub dropped : ℕ → Focus → Focus
dropped v f = record f {
  views = without v f.views;
  has_focus = if is_view v (current f) then false else f.has_focus;
}

-- A layer surface takes the focus; those of the upper layers hold it.
abbrev pub layered : Bool → ℕ → Focus → Focus
layered holds l f = record f { has_focus = false; layer = if holds then some l else f.layer }

module _ {D : Type 0} (E : Outside D) where
  pub record IsKept (P : Focus → Type 0) : Type 0 where
    pub on :
        (v : ℕ) (f : Focus) → is_exclusive f.client (E.client_of v) ≡ true → P f → P (focus_on v f)
    pub off : (f : Focus) → P f → P (unfocused f)
    pub drop : (v : ℕ) (f : Focus) → P f → P (dropped v f)
    pub no_layer : (f : Focus) → P f → P (record f { layer = none })
    pub on_layer :
        (holds : Bool) (l : ℕ) (f : Focus)
        → is_exclusive f.client (E.layer_client l) ≡ true
        → P f
        → P (layered holds l f)

module _ {D : Type 0} where
  pub drop_view-state :
      (v : ℕ) (w : World D) → focus_state (drop_view v w) ≡ dropped v (focus_state w)
  unfolding phoc_seat_get_focus
  drop_view-state v w = ground arith

-- What is true of every result.
abbrev pub Safe : {D : Type 0} → (Focus → Type 0) → Option (World D) → Type 0
Safe {D = D} P o = (t : World D) → o ≡ some t → P (focus_state t)

module _ {D : Type 0} (P : Focus → Type 0) where
  pub Safe-none : Safe {D = D} P none
  Safe-none t e = cc e

  pub Safe-some : (w : World D) → P (focus_state w) → Safe P (some w)
  Safe-some w p t e = subst (λ (u : World D). P (focus_state u)) (some-injective w t e) p

  pub Safe-bind :
      (Q : Focus → Type 0) (m : Option (World D)) (f : World D → Option (World D))
      → Safe Q m
      → ((t : World D) → Q (focus_state t) → Safe P (f t))
      → Safe P (m >>= f)
  Safe-bind Q m f q g u e = let (t, r, k) = >>=-eq-some m f e in g t (q t r) u k

  pub Safe-if :
      (b : Bool) (x y : Option (World D))
      → (b ≡ true → Safe P x)
      → (b ≡ false → Safe P y)
      → Safe P (if b then x else y)
  Safe-if b x y = if-elim (Safe P) b x y

  pub SameFocus-Safe : (w t : World D) → SameFocus w t → P (focus_state w) → P (focus_state t)
  SameFocus-Safe w t s = subst P (sym (SameFocus-state w t s))

  -- The view that loses the focus only hears of it.
  pub unfocus_view-Safe :
      (o : Option ℕ) (w : World D) → P (focus_state w) → Safe P (unfocus_view o w)
  unfocus_view-Safe none w p =
      Safe-if w.seat.has_focus none (some w) (λ _. Safe-none) (λ _. Safe-some w p)
  unfocus_view-Safe (some u) w p =
      let told = tell keyboard_clear_focus w in
      Safe-some (view_activate u false told) (
        SameFocus-Safe w _
          (SameFocus-trans w told _ (tell-SameFocus keyboard_clear_focus w)
            (view_activate-SameFocus u false told))
          p)

  module _ (F : Numbers D) (E : Outside D) (kept : IsKept E P) where
    pub set_focus-Safe :
        (n : ℕ) (o : Option ℕ) (w : World D)
        → P (focus_state w)
        → Safe P (phoc_seat_set_focus F E n o w)
    unfolding phoc_seat_set_focus phoc_seat_allow_input
    set_focus-Safe n none w p t e =
        Safe-some (clear_focus w) (subst P (sym (clear_focus-state w)) (kept.off (focus_state w) p))
          t e
    set_focus-Safe n (some v) w p t e = elim (set_focus_either F E n v w t e) [
      | inl same ↦ subst P (sym same) p
      | inr (on, allowed) ↦ subst P (sym on) (kept.on v (focus_state w) allowed p)
    ]

    focus_next-Safe :
        (n : ℕ) (o : Option ℕ) (vs : List ℕ) (w : World D)
        → P (focus_state w)
        → Safe P (focus_next F E n o vs w)
    focus_next-Safe n (some p) vs w = set_focus-Safe n (some p) w
    focus_next-Safe n none [] w = Safe-some w
    focus_next-Safe n none (v ∷ vs) w = set_focus-Safe n (some v) w

    pub seat_view_destroy-Safe :
        (n v : ℕ) (w : World D) → P (focus_state w) → Safe P (seat_view_destroy F E n v w)
    unfolding seat_view_destroy
    seat_view_destroy-Safe n v w p =
        focus_next-Safe n (w.desktop.view_of v).parent (without v w.seat.views) (drop_view v w)
          (subst P (sym (drop_view-state v w)) (kept.drop v (focus_state w) p))

    pub focus_first-Safe :
        (n : ℕ) (vs : List ℕ) (w : World D) → P (focus_state w) → Safe P (focus_first F E n vs w)
    focus_first-Safe n [] w = set_focus-Safe n none w
    focus_first-Safe n (v ∷ vs) w = set_focus-Safe n (some v) w

-- A layer surface's client may have input.
abbrev Admits : ℕ → (Focus → Type 0) → Focus → Type 0
Admits c P f = (is_exclusive f.client c ≡ true) × P f

module _ {D : Type 0} (P : Focus → Type 0) (F : Numbers D) (E : Outside D) (kept : IsKept E P) where
  entered :
      (l : ℕ) (w : World D)
      → Admits (E.layer_client l) P (focus_state w)
      → P (focus_state (enter_layer F E l w))
  entered l w (a, p) = elim (Bool-cases (leb layer_top (E.layer_of l))) [
    | inl h ↦ rw h (kept.on_layer true l (focus_state w) a p)
    | inr h ↦ rw h (kept.on_layer false l (focus_state w) a p)
  ]

  focus_layer-Safe : (l : ℕ) (w : World D) → P (focus_state w) → Safe P (focus_layer F E l w)
  unfolding phoc_seat_allow_input
  focus_layer-Safe l w p =
      Safe-if P (not (phoc_seat_allow_input w (E.layer_client l))) (some w) _ (λ _. Safe-some P w p)
        (λ h.
          Safe-bind P (Admits (E.layer_client l) P) (unfocus_view (focus_of w) w) _
            (unfocus_view-Safe (Admits (E.layer_client l) P) (focus_of w) w (ground (arith, h), p))
            (λ t q. Safe-some P (enter_layer F E l t) (entered l t q)))

  -- What is kept by the call that unfocuses is kept by it through arrange_layers.
  abbrev Keeps : (World D → Option (World D)) → Type 0
  Keeps again = (w : World D) → P (focus_state w) → Safe P (again w)

  focus_topmost-Safe :
      (again : World D → Option (World D)) (o : Option ℕ)
      → Keeps again
      → Keeps (focus_topmost F E again o)
  focus_topmost-Safe again none q = q
  focus_topmost-Safe again (some l) q = focus_layer-Safe l

  arrange_all-Safe :
      (again : World D → Option (World D)) (os : List ℕ)
      → Keeps again
      → Keeps (arrange_all F E again os)
  arrange_all-Safe again [] q w p = Safe-some P w p
  arrange_all-Safe again (o ∷ os) q w p =
      Safe-bind P P (focus_topmost F E again (E.topmost o) (tell (arranges_layers o) w)) _
        (focus_topmost-Safe again (E.topmost o) q (tell (arranges_layers o) w) p)
        (arrange_all-Safe again os q)

  unfocus_layer-Safe : (k n : ℕ) → Keeps (unfocus_layer F E k n)
  unfolding unfocus_layer
  unfocus_layer-Safe zero n w p =
      Option-elim (Safe P) w.focused_layer (some w) _ (λ _. Safe-some P w p) (λ l _. Safe-none P)
  unfocus_layer-Safe (suc k) n w p =
      Option-elim (Safe P) w.focused_layer (some w) _ (λ _. Safe-some P w p)
        (λ l _.
          Safe-bind P P (focus_first F E n w.seat.views (record w { focused_layer = none })) _
            (focus_first-Safe P F E kept n w.seat.views _ (kept.no_layer (focus_state w) p))
            (λ t.
              arrange_all-Safe (unfocus_layer F E k n) t.desktop.outputs (unfocus_layer-Safe k n)
                t))

  pub arrange_layers-Safe :
      (k n : ℕ) (os : List ℕ) → Keeps (arrange_all F E (unfocus_layer F E k n) os)
  arrange_layers-Safe k n os = arrange_all-Safe (unfocus_layer F E k n) os (unfocus_layer-Safe k n)

  pub set_focus_layer-Safe : (k n : ℕ) (o : Option ℕ) → Keeps (phoc_seat_set_focus_layer F E k n o)
  unfolding phoc_seat_set_focus_layer
  set_focus_layer-Safe k n none = unfocus_layer-Safe k n
  set_focus_layer-Safe k n (some l) = focus_layer-Safe l
