-- ===== src/View/Parents.antt =====
-- The chains of parents of src/view.c, and the walks up them.
use phoc.Prelude.{
  ℕ, zero, suc, ◌+◌, ◌≡◌, refl, sym, ◌∙◌, ap, ◌≢◌, subst, ◌⊎◌, inl, inr, true, false, List, ◌∷◌,
  Option, none, some, if◌then◌else◌, ◌==◌, ==_iff, ==_refl, arith, Bool-cases, Option-cases,
}
use phoc.View.State.{Desktop, put_view}
use phoc.View.Fullscreen.{without}
use phoc.View.Tree.{
  Walk, clear, cycle, no_fuel, find_cycle, unlink, link, on_clear, view_set_parent,
}

module _ {D : Type 0} where
  -- From `w` there are no more than `n` views up to one without a parent.
  abbrev pub Ends : Desktop D → ℕ → Option ℕ → Type 0
  Ends s n none = Unit
  Ends s zero (some v) = ⊥
  Ends s (suc n) (some v) = Ends s n (s.view_of v).parent

  abbrev pub Acyclic : Desktop D → ℕ → Type 0
  Acyclic s n = (v : ℕ) → Ends s n (some v)

  find_cycle-Ends :
      (n : ℕ) (s : Desktop D) (v : ℕ) (w : Option ℕ) → Ends s n w → find_cycle n s v w ≢ no_fuel
  find_cycle-Ends n s v none h e = cc
  find_cycle-Ends zero s v (some w) h e = absurd h
  find_cycle-Ends (suc n) s v (some w) h e =
      ground (arith, find_cycle-Ends n s v (s.view_of w).parent h)

  -- The view `v` is `w` or an ancestor of it.
  pub data AtOrAbove (s : Desktop D) (v : ℕ) : Option ℕ → Type 0 where
    here : (w : ℕ) → (w == v) ≡ true → AtOrAbove s v (some w)
    above : (w : ℕ) → AtOrAbove s v (s.view_of w).parent → AtOrAbove s v (some w)

  find_cycle_sound :
      (n : ℕ) (s : Desktop D) (v : ℕ) (w : Option ℕ) → find_cycle n s v w ≡ cycle → AtOrAbove s v w
  find_cycle_sound n s v none e = cc
  find_cycle_sound zero s v (some w) e = cc
  find_cycle_sound (suc n) s v (some w) e = elim (Bool-cases (w == v)) [
    | inl h ↦ here w h
    | inr h ↦ above w (find_cycle_sound n s v (s.view_of w).parent (rw h at e))
  ]

  -- Nobody but `v` has another parent.
  abbrev Others : Desktop D → Desktop D → ℕ → Type 0
  Others s t v = (u : ℕ) → (u == v) ≡ false → (t.view_of u).parent ≡ (s.view_of u).parent

  Ends-avoid :
      (n : ℕ) (s t : Desktop D) (v : ℕ) (w : Option ℕ)
      → Others s t v
      → find_cycle n s v w ≡ clear
      → Ends t n w
  Ends-avoid n s t v none o e = tt
  Ends-avoid zero s t v (some w) o e = cc
  Ends-avoid (suc n) s t v (some w) o e = elim (Bool-cases (w == v)) [
    | inl h ↦ cc (sym (rw h at e))
    | inr h ↦
        subst (λ p. Ends t n p) (sym (o w h))
          (Ends-avoid n s t v (s.view_of w).parent o (rw h at e))
  ]

  Ends-more : (n : ℕ) (s : Desktop D) (w : Option ℕ) → Ends s n w → Ends s (suc n) w
  Ends-more n s none h = tt
  Ends-more zero s (some v) h = absurd h
  Ends-more (suc n) s (some v) h = Ends-more n s (s.view_of v).parent h

  Ends-plus : (n k : ℕ) (s : Desktop D) (w : Option ℕ) → Ends s k w → Ends s (n + k) w
  Ends-plus zero k s w h = subst (λ m. Ends s m w) (omega arith) h
  Ends-plus (suc n) k s w h =
      let step : suc (n + k) ≡ suc n + k = omega arith in
      subst (λ m. Ends s m w) step (Ends-more (n + k) s w (Ends-plus n k s w h))

  -- Chains that may run through `v` go on with its new parent.
  Ends-through :
      (n k : ℕ) (s t : Desktop D) (v : ℕ) (w : Option ℕ)
      → Others s t v
      → Ends t k (t.view_of v).parent
      → Ends s n w
      → Ends t (n + k) w
  Ends-through n k s t v none o p h = tt
  Ends-through zero k s t v (some w) o p h = absurd h
  Ends-through (suc n) k s t v (some w) o p h =
      let step : suc (n + k) ≡ suc n + k = omega arith in
      subst (λ m. Ends t m (some w)) step
        (elim (Bool-cases (w == v)) [
          | inl e ↦
              subst (λ u. Ends t (n + k) (t.view_of u).parent) (sym ((==_iff w v).0 e))
                (Ends-plus n k t (t.view_of v).parent p)
          | inr e ↦
              subst (λ q. Ends t (n + k) q) (sym (o w e))
                (Ends-through n k s t v (s.view_of w).parent o p h)
        ])

  put_stack-parent :
      (a u : ℕ) (x : List ℕ) (s : Desktop D)
      → ((put_view a (record (s.view_of a) { stack = x }) s).view_of u).parent
        ≡ (s.view_of u).parent
  put_stack-parent a u x s = elim (Bool-cases (u == a)) [
    | inl e ↦ rw e (ap (λ i. (s.view_of i).parent) (sym ((==_iff u a).0 e)))
    | inr e ↦ rw e refl
  ]

  unlink-parent : (v u : ℕ) (s : Desktop D) → ((unlink v s).view_of u).parent ≡ (s.view_of u).parent
  unlink-parent v u s = elim (Option-cases (s.view_of v).parent) [
    | inl e ↦ rw (e, unlink) refl
    | inr (a, e) ↦ rw (e, unlink) (put_stack-parent a u (without v (s.view_of a).stack) s)
  ]

  put_parent-parent :
      (v u : ℕ) (p : Option ℕ) (s : Desktop D)
      → ((put_view v (record (s.view_of v) { parent = p }) s).view_of u).parent
        ≡ (if u == v then p else (s.view_of u).parent)
  put_parent-parent v u p s = elim (Bool-cases (u == v)) [ inl e ↦ rw e refl | inr e ↦ rw e refl ]

  link-parent :
      (v u : ℕ) (p : Option ℕ) (s : Desktop D)
      → ((link v p s).view_of u).parent ≡ (if u == v then p else (s.view_of u).parent)
  link-parent v u none s = put_parent-parent v u none s
  link-parent v u (some p) s =
      let set = put_view v (record (s.view_of v) { parent = some p }) s in
      put_stack-parent p u (v ∷ (set.view_of p).stack) set ∙ put_parent-parent v u (some p) s

  linked-parent :
      (v u : ℕ) (p : Option ℕ) (s : Desktop D)
      → ((link v p (unlink v s)).view_of u).parent ≡ (if u == v then p else (s.view_of u).parent)
  linked-parent v u p s =
      link-parent v u p (unlink v s) ∙ ap (λ q. if u == v then p else q) (unlink-parent v u s)

  parent-Others : (v : ℕ) (p : Option ℕ) (s : Desktop D) → Others s (link v p (unlink v s)) v
  parent-Others v p s u h = linked-parent v u p s ∙ rw h refl

  -- view_set_parent never runs out of fuel and never closes a circle. As long as every view has a
  -- finite chain of parents, of at most `n` views, the walk of view_set_parent over `n` views comes to
  -- an end, and every chain is finite afterwards too. Either the new parent is set and all other views
  -- keep theirs, or the view is the new parent itself or an ancestor of it, and nothing changes.
  pub view_set_parent-Acyclic :
      (n v : ℕ) (p : Option ℕ) (s : Desktop D)
      → Acyclic s n
      → (t : Desktop D) × (view_set_parent n v p s ≡ some t)
        × Acyclic t (n + n)
        × (((t ≡ s) × AtOrAbove s v p)
            ⊎ ((u : ℕ) → (t.view_of u).parent ≡ (if u == v then p else (s.view_of u).parent)))
  unfolding view_set_parent
  view_set_parent-Acyclic n v p s a = by_walk (find_cycle n s v p) refl
    where
      any_ends : (q : Option ℕ) → Ends s n q
      any_ends none = tt
      any_ends (some u) = a u

      t : Desktop D
      t = link v p (unlink v s)

      by_walk :
          (w : Walk)
          → find_cycle n s v p ≡ w
          → (t' : Desktop D) × (on_clear w s t ≡ some t')
            × Acyclic t' (n + n)
            × (((t' ≡ s) × AtOrAbove s v p)
                ⊎ ((u : ℕ) → (t'.view_of u).parent ≡ (if u == v then p else (s.view_of u).parent)))
      by_walk clear e = (
        t,
        refl,
        λ u. Ends-through n n s t v (some u) others parent_ends (a u),
        inr (λ u. linked-parent v u p s),
      )
        where
          others : Others s t v
          others = parent-Others v p s

          parent_ends : Ends t n (t.view_of v).parent
          parent_ends =
              subst (λ q. Ends t n q) (sym (linked-parent v v p s ∙ rw (==_refl v) refl))
                (Ends-avoid n s t v p others e)
      by_walk cycle e =
          (s, refl, λ u. Ends-plus n n s (some u) (a u), inl (refl, find_cycle_sound n s v p e))
      by_walk no_fuel e = absurd (find_cycle-Ends n s v p (any_ends p) e)
