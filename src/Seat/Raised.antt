-- ===== src/Seat/Raised.antt =====
-- src/seat.c: raising a view with its family ends, given fuel for the height of the families. A
-- rank that grows from a child to its parent says how high a view stands.
use phoc.Prelude.{
  ℕ, zero, suc, ◌+◌, ◌≤◌, ◌<◌, ◌≡◌, refl, sym, ◌∙◌, ap, subst, ◌⊎◌, inl, inr, true, not, ◌&&◌, List,
  [], ◌∷◌, Option, none, some, ◌>>=◌, if-elim, ◌==◌, ==_iff, ==_refl, arith, Bool-cases, reverse,
}
use mathlib.Core.List.{reverse_aux}
use phoc.LayerShell.Geometry.{Box}
use phoc.View.State.{Numbers, Desktop}
use phoc.View.Fullscreen.{without}
use phoc.View.Family.{Family, SameFamily, view_set_fullscreen-off}
use phoc.Input.{Seat}
use phoc.Seat.State.{Outside, view_get_box}
use phoc.Seat.Focus.{has}
use phoc.Seat.Stack.{
  to_head, reorder, to_front, raise_each, seat_raise_view_stack, raise_family, has_focus,
  unfullscreen_one, unfullscreen, unfullscreen_others, raise_view,
}

has_of_without : (u v : ℕ) (vs : List ℕ) → has u (without v vs) ≡ true → has u vs ≡ true
has_of_without u v [] e = e
has_of_without u v (w ∷ ws) e = ground (arith, has_of_without u v ws)

has_of_reverse :
    (u : ℕ) (vs ws : List ℕ)
    → has u (reverse_aux vs ws) ≡ true
    → (has u vs ≡ true) ⊎ (has u ws ≡ true)
has_of_reverse u [] ws e = inr e
has_of_reverse u (v ∷ vs) ws e = ground (arith, has_of_reverse u vs (v ∷ ws), e)

to_front-has :
    (rank : ℕ → ℕ) (v p c : ℕ) (vs : List ℕ)
    → rank v < rank p
    → (has c vs ≡ true → rank c < rank p)
    → has c (v ∷ without v vs) ≡ true
    → rank c < rank p
to_front-has rank v p c vs h k e = elim (Bool-cases (v == c)) [
  | inl same ↦ subst (λ u. rank u < rank p) ((==_iff v c).0 same) h
  | inr other ↦ k (has_of_without c v vs (rw other at e))
]

module _ {D : Type 0} where
  pub record IsRanked (rank : ℕ → ℕ) (n : ℕ) (d : Desktop D) : Type 0 where
    pub bound : (v : ℕ) → rank v < n
    pub up : (v p : ℕ) → (d.view_of v).parent ≡ some p → rank v < rank p
    pub down : (v c : ℕ) → has c (d.view_of v).stack ≡ true → rank c < rank v

  -- Ranked as before, and the same views are mapped.
  pub record Kept (rank : ℕ → ℕ) (n : ℕ) (d t : Desktop D) : Type 0 where
    pub ranked : IsRanked rank n t
    pub mapped : (v : ℕ) → (t.view_of v).mapped ≡ (d.view_of v).mapped

  module _ (rank : ℕ → ℕ) (n : ℕ) where
    Kept-refl : (d : Desktop D) → IsRanked rank n d → Kept rank n d d
    Kept-refl d i = record { ranked = i; mapped = λ v. refl }

    Kept-trans : (d t u : Desktop D) → Kept rank n d t → Kept rank n t u → Kept rank n d u
    Kept-trans d t u p q = record { ranked = q.ranked; mapped = λ v. q.mapped v ∙ p.mapped v }

    -- There is a result.
    abbrev pub Good : Desktop D → Option (Desktop D) → Type 0
    Good d o = (t : Desktop D) × (o ≡ some t) × Kept rank n d t

    Good-bind :
        (d : Desktop D) (o : Option (Desktop D)) (f : Desktop D → Option (Desktop D))
        → Good d o
        → ((t : Desktop D) → IsRanked rank n t → Good t (f t))
        → Good d (o >>= f)
    Good-bind d o f (t, e, k) g =
        let (u, e', k') = g t k.ranked in (u, rw e e', Kept-trans d t u k k')

    Kept-SameFamily : (d t : Desktop D) → IsRanked rank n d → SameFamily d t → Kept rank n d t
    Kept-SameFamily d t i p = record {
      ranked = record {
        bound = i.bound;
        up = λ v q e. i.up v q (sym (ap (λ (m : Family). m.parent) (p.members v)) ∙ e);
        down = λ v c e. i.down v c (sym (ap (λ (m : Family). has c m.stack) (p.members v)) ∙ e);
      };
      mapped = λ v. ap (λ (m : Family). m.mapped) (p.members v);
    }

    to_head-IsRanked :
        (v p : ℕ) (d : Desktop D)
        → IsRanked rank n d
        → rank v < rank p
        → IsRanked rank n (to_head v p d)
    to_head-IsRanked v p d i h = record {
      bound = i.bound;
      up = λ u q e. elim (Bool-cases (u == p)) [
        | inl k ↦ subst (λ a. rank a < rank q) (sym ((==_iff u p).0 k)) (i.up p q (rw k at e))
        | inr k ↦ i.up u q (rw k at e)
      ];
      down = λ u c e. elim (Bool-cases (u == p)) [
        | inl k ↦
            subst (λ a. rank c < rank a) (sym ((==_iff u p).0 k))
              (to_front-has rank v p c (d.view_of p).stack h (i.down p c) (rw k at e))
        | inr k ↦ i.down u c (rw k at e)
      ];
    }

    to_head-Kept :
        (v p : ℕ) (d : Desktop D)
        → IsRanked rank n d
        → rank v < rank p
        → Kept rank n d (to_head v p d)
    to_head-Kept v p d i h = record {
      ranked = to_head-IsRanked v p d i h;
      mapped = λ u. elim (Bool-cases (u == p)) [
        | inl k ↦ rw k (ap (λ a. (d.view_of a).mapped) (sym ((==_iff u p).0 k)))
        | inr k ↦ rw k refl
      ];
    }

    -- The walk up from a view ends at a root, if the fuel reaches above all ranks.
    reorder_total :
        (m v : ℕ) (o : Option ℕ) (d : Desktop D)
        → (d.view_of v).parent ≡ o
        → n ≤ rank v + 1 + m
        → IsRanked rank n d
        → (root : ℕ) × (t : Desktop D) × (reorder m v o d ≡ some (root, t)) × Kept rank n d t
    unfolding reorder
    reorder_total m v none d e h i = (v, d, refl, Kept-refl d i)
    reorder_total zero v (some p) d e h i = absurd (omega (arith, i.up v p e, i.bound p, h))
    reorder_total (suc m) v (some p) d e h i =
        let up = i.up v p e in
        let k = to_head-Kept v p d i up in
        let (root, t, e', k') =
          reorder_total m p (d.view_of p).parent (to_head v p d) (rw (==_refl p) refl)
            (omega (arith, up, h)) k.ranked in
        (root, t, e', Kept-trans d (to_head v p d) t k k')

    to_front-Kept : (v : ℕ) (d : Desktop D) → IsRanked rank n d → Kept rank n d (to_front v d)
    to_front-Kept v d i = record {
      ranked = record { bound = i.bound; up = i.up; down = i.down };
      mapped = λ u. refl;
    }

    raise_each_total :
        (m : ℕ) (raise : ℕ → Desktop D → Option (Desktop D))
        → ((c : ℕ) (d : Desktop D) → rank c < m → IsRanked rank n d → Good d (raise c d))
        → (cs : List ℕ) (d : Desktop D) → ((c : ℕ) → has c cs ≡ true → rank c < m)
        → IsRanked rank n d
        → Good d (raise_each raise cs d)
    raise_each_total m raise g [] d low i = (d, refl, Kept-refl d i)
    raise_each_total m raise g (c ∷ cs) d low i =
        Good-bind d (raise c d) (raise_each raise cs) (g c d (low c (rw (==_refl c) refl)) i)
          (λ t j. raise_each_total m raise g cs t (λ b e. low b (ground (arith, e))) j)

    raise_total :
        (m v : ℕ) (d : Desktop D)
        → rank v < m
        → IsRanked rank n d
        → Good d (seat_raise_view_stack m v d)
    unfolding seat_raise_view_stack
    raise_total zero v d h i = absurd (omega (arith, h))
    raise_total (suc m) v d h i =
        let front = to_front-Kept v d i in
        let (t, e, k) =
          raise_each_total m (seat_raise_view_stack m) (raise_total m) (reverse (d.view_of v).stack)
            (to_front v d)
            (λ c e. elim (has_of_reverse c (d.view_of v).stack [] e) [
              | inl k ↦ omega (arith, h, i.down v c k)
              | inr k ↦ cc k
            ])
            front.ranked in
        if-elim (Good d) (d.view_of v).mapped _ (some d)
          (λ _. (t, e, Kept-trans d (to_front v d) t front k)) (λ _. (d, refl, Kept-refl d i))

    raise_family_total : (v : ℕ) (d : Desktop D) → IsRanked rank n d → Good d (raise_family n v d)
    raise_family_total v d i =
        let (root, t, e, k) = reorder_total n v (d.view_of v).parent d refl (omega arith) i in
        let (u, e', k') = raise_total n root t (k.ranked.bound root) k.ranked in
        (u, rw (e) e', Kept-trans d t u k k')

    module _ (F : Numbers D) (E : Outside D) (seats : List Seat) where
      unfullscreen_one_total :
          (v : ℕ) (box : Box) (o : ℕ) (f : Option ℕ) (d : Desktop D)
          → IsRanked rank n d
          → Good d (unfullscreen_one F E seats v box o f d)
      unfullscreen_one_total v box o none d i = (d, refl, Kept-refl d i)
      unfullscreen_one_total v box o (some u) d i =
          let (t, e, p) = view_set_fullscreen-off F E.get_output (has_focus F E seats) u d in
          if-elim (Good d) (not (u == v) && E.intersects o box) _ (some d)
            (λ _. (t, e, Kept-SameFamily d t i p)) (λ _. (d, refl, Kept-refl d i))

      unfullscreen_total :
          (v : ℕ) (box : Box) (os : List ℕ) (d : Desktop D)
          → IsRanked rank n d
          → Good d (unfullscreen F E seats v box os d)
      unfullscreen_total v box [] d i = (d, refl, Kept-refl d i)
      unfullscreen_total v box (o ∷ os) d i =
          Good-bind d _ (unfullscreen F E seats v box os)
            (unfullscreen_one_total v box o (d.output_of o).fullscreen_view d i)
            (unfullscreen_total v box os)

      unfullscreen_others_total :
          (v : ℕ) (d : Desktop D) → IsRanked rank n d → Good d (unfullscreen_others F E seats v d)
      unfullscreen_others_total v d i =
          if-elim (Good d) ((d.view_of v).impl.is_xwayland && E.override_redirect v) (some d) _
            (λ _. (d, refl, Kept-refl d i))
            (λ _. unfullscreen_total v (view_get_box F (d.view_of v)) d.outputs d i)

      -- Fuel for the height of the families is enough to raise any view.
      pub raise_view_total :
          (v : ℕ) (d : Desktop D) → IsRanked rank n d → Good d (raise_view F E seats n v d)
      unfolding raise_view
      raise_view_total v d i =
          Good-bind d (raise_family n v d) (unfullscreen_others F E seats v)
            (raise_family_total v d i) (unfullscreen_others_total v)
