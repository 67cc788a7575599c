-- ===== src/Seat/Cycle.antt =====
-- phoc_seat_cycle_focus of src/seat.c, where every view of the seat may have the focus.
use phoc.Prelude.{
  ℕ, ◌≡◌, refl, sym, ◌∙◌, ap, subst, ◌⊎◌, true, not, List, [], ◌∷◌, ◌++◌, Option, some, ◌>>=◌, ◌==◌,
  ==_refl, arith, if-elim,
}
use phoc.View.State.{Numbers}
use phoc.View.Fullscreen.{without}
use phoc.Seat.State.{World, Outside, is_exclusive, phoc_seat_allow_input}
use phoc.Seat.Focus.{has, move_to_end, phoc_seat_set_focus, cycle_views, phoc_seat_cycle_focus}
use phoc.Seat.Spec.{Focus, focus_state, focus_on, to_end, rotate, Distinct, IsValid, to_end-IsValid}
use phoc.Seat.Raised.{IsRanked, Kept}
use phoc.Seat.Focused.{phoc_seat_set_focus_lem, not_blocked}
use phoc.Seat.Total.{phoc_seat_set_focus_total}

abbrev pub rotated : Focus → Focus
rotated f = record f { views = rotate f.views }

swap_front :
    (a b : ℕ) (vs : List ℕ)
    → Distinct (a ∷ b ∷ vs)
    → without a (b ∷ without b (a ∷ b ∷ vs)) ++ (a ∷ []) ≡ (b ∷ vs) ++ (a ∷ [])
swap_front a b vs (n, (m, d)) = ground (arith, n, ==_refl a, ==_refl b)

second_on_list : (a b : ℕ) (vs : List ℕ) → has b (a ∷ b ∷ vs) ≡ true
second_on_list a b vs = ground (arith, ==_refl b)

has_of_append :
    (u v : ℕ) (vs : List ℕ) → has u (vs ++ (v ∷ [])) ≡ true → (has u vs ≡ true) ⊎ ((v == u) ≡ true)
has_of_append u v [] e = ground (arith, e)
has_of_append u v (w ∷ ws) e = ground (arith, has_of_append u v ws, e)

has_of_rotate : (u : ℕ) (vs : List ℕ) → has u (rotate vs) ≡ true → has u vs ≡ true
has_of_rotate u [] e = e
has_of_rotate u (v ∷ vs) e = ground (arith, has_of_append u v vs e)

rotated-to_end : (a : ℕ) (vs : List ℕ) (f : Focus) → f.views ≡ a ∷ vs → rotated f ≡ to_end a f
rotated-to_end a vs f e =
    let front : rotate f.views ≡ without a f.views ++ (a ∷ []) = rw (e, ==_refl a) refl in
    ap (λ us. record f { views = us }) front

turned-IsValid : (vs : List ℕ) (f : Focus) → f.views ≡ vs → IsValid f → IsValid (rotated f)
turned-IsValid [] f e i =
    let same : rotate f.views ≡ f.views = rw e refl in
    subst IsValid (ap (λ us. record f { views = us }) (sym same)) i
turned-IsValid (a ∷ vs) f e i = subst IsValid (sym (rotated-to_end a vs f e)) (to_end-IsValid a f i)

-- A turn of the list leaves the state valid.
pub rotated-IsValid : (f : Focus) → IsValid f → IsValid (rotated f)
rotated-IsValid f i = turned-IsValid f.views f refl i

-- To focus the second view and to move the first one to the end is a turn of the list.
next_rotates :
    (a b : ℕ) (vs : List ℕ) (f : Focus)
    → f.views ≡ a ∷ b ∷ vs
    → IsValid f
    → f.has_focus ≡ true
    → to_end a (focus_on b f) ≡ rotated f
next_rotates a b vs f e i h =
    let order : without a (b ∷ without b f.views) ++ (a ∷ []) ≡ rotate f.views =
      rw e (swap_front a b vs (subst Distinct e i.distinct)) in
    cc (order, not_blocked f i h, h)

module _ {D : Type 0} (E : Outside D) (rank : ℕ → ℕ) (n : ℕ) where
  -- Every view of the seat is mapped, may have input and wants the focus; one of them has it.
  pub record CanCycle (w : World D) : Type 0 where
    pub valid : IsValid (focus_state w)
    pub ranked : IsRanked rank n w.desktop
    pub focused : w.seat.has_focus ≡ true
    pub mapped : (v : ℕ) → has v w.seat.views ≡ true → (w.desktop.view_of v).mapped ≡ true
    pub allowed :
        (v : ℕ) → has v w.seat.views ≡ true → phoc_seat_allow_input w (E.client_of v) ≡ true
    pub wanted : (v : ℕ) → has v w.seat.views ≡ true → E.wants_focus v ≡ true
    pub memory : E.has_memory ≡ true

  turned-CanCycle :
      (w t : World D)
      → CanCycle w
      → focus_state t ≡ rotated (focus_state w)
      → Kept rank n w.desktop t.desktop
      → CanCycle t
  unfolding phoc_seat_allow_input
  turned-CanCycle w t c e k =
      let back : (v : ℕ) → has v t.seat.views ≡ true → has v w.seat.views ≡ true =
        λ v h. has_of_rotate v w.seat.views (sym (ap (λ (f : Focus). has v f.views) e) ∙ h) in
      record {
        valid = subst IsValid (sym e) (rotated-IsValid (focus_state w) c.valid);
        ranked = k.ranked;
        focused = ap (λ (f : Focus). f.has_focus) e ∙ c.focused;
        mapped = λ v h. k.mapped v ∙ c.mapped v (back v h);
        allowed = λ v h.
            ap (λ (f : Focus). is_exclusive f.client (E.client_of v)) e ∙ c.allowed v (back v h);
        wanted = λ v h. c.wanted v (back v h);
        memory = c.memory;
      }

  abbrev pub Turns : World D → Option (World D) → Type 0
  Turns w o = (t : World D) × (o ≡ some t) × (focus_state t ≡ rotated (focus_state w)) × CanCycle t

  module _ (F : Numbers D) where
    to_next :
        (a b : ℕ) (vs : List ℕ) (w : World D)
        → CanCycle w
        → w.seat.views ≡ a ∷ b ∷ vs
        → Turns w (phoc_seat_set_focus F E n (some b) w >>= λ t. some (move_to_end a t))
    to_next a b vs w c e =
        let on_list : has b w.seat.views ≡ true = rw e (second_on_list a b vs) in
        let (t, r, k) = phoc_seat_set_focus_total F E rank n b w c.ranked (c.mapped b on_list) in
        let state : focus_state t ≡ focus_on b (focus_state w) =
          rw (c.allowed b on_list) at
            (phoc_seat_set_focus_lem F E n b w t c.valid (c.wanted b on_list) c.memory r) in
        let turned : focus_state (move_to_end a t) ≡ rotated (focus_state w) =
          ap (to_end a) state ∙ next_rotates a b vs (focus_state w) e c.valid c.focused in
        (move_to_end a t, rw r refl, turned, turned-CanCycle w (move_to_end a t) c turned k)

    cycle_views_total :
        (vs : List ℕ) (w : World D)
        → CanCycle w
        → w.seat.views ≡ vs
        → Turns w (cycle_views F E n vs w)
    cycle_views_total [] w c e = cc (sym (c.valid.focused e) ∙ c.focused)
    cycle_views_total (a ∷ []) w c e =
        let same : rotate w.seat.views ≡ w.seat.views = rw e refl in
        if-elim (Turns w) (not w.seat.has_focus) _ (some w) (λ h. cc (h, c.focused))
          (λ _. (w, refl, ap (λ us. record (focus_state w) { views = us }) (sym same), c))
    cycle_views_total (a ∷ b ∷ vs) w c e =
        if-elim (Turns w) (not w.seat.has_focus) _ _ (λ h. cc (h, c.focused))
          (λ _. to_next a b vs w c e)

    -- Where every view of the seat may have the focus, phoc_seat_cycle_focus has a result: the list of
    -- views is turned by one, so that the next view has the focus and the one that had it is the last.
    pub phoc_seat_cycle_focus_lem :
        (w : World D) → CanCycle w → Turns w (phoc_seat_cycle_focus F E n w)
    unfolding phoc_seat_cycle_focus
    phoc_seat_cycle_focus_lem w c = cycle_views_total w.seat.views w c refl
