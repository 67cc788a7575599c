-- ===== src/View/Visible.antt =====
-- src/desktop.c: what phoc_desktop_view_is_visible says of the views below the topmost one.
use phoc.Prelude.{
  ℕ, zero, suc, ◌≡◌, refl, sym, ◌∙◌, ap, ◌≢◌, subst, inl, inr, Bool, true, false, not, List, ◌∷◌,
  Option, none, some, if◌then◌else◌, ◌==◌, ==_iff, arith, length, Bool-cases, Option-cases,
}
use phoc.View.State.{Desktop, view_is_maximized}
use phoc.View.Tree.{shows, both_xwayland, shows_from, phoc_desktop_view_is_visible}
use phoc.View.Parents.{Ends}

if_shut {ℓ} : {A : Type ℓ} (b : Bool) (x y : A) → b ≡ true → (if not b then x else y) ≡ y
if_shut b x y e = rw e refl

if_open {ℓ} : {A : Type ℓ} (b : Bool) (x y : A) → b ≡ false → (if b then x else y) ≡ y
if_open b x y e = rw e refl

module _ {D : Type 0} where
  -- The view `v` is `w` or an ancestor of it, and nothing from `w` up to below `v` is maximised.
  pub data Uncovered (s : Desktop D) (v : ℕ) : ℕ → Type 0 where
    here : (w : ℕ) → (w == v) ≡ true → Uncovered s v w
    above :
        (w p : ℕ)
        → view_is_maximized (s.view_of w) ≡ false
        → (s.view_of w).parent ≡ some p
        → Uncovered s v p
        → Uncovered s v w

  -- The answer of the walk, which there is, and what it means.
  pub record Answer (s : Desktop D) (v w : ℕ) (o : Option Bool) : Type 0 where
    pub given : o ≢ none
    pub sound : o ≡ some true → Uncovered s v w
    pub complete : Uncovered s v w → o ≡ some true

  shows_given : (n : ℕ) (s : Desktop D) (v : ℕ) (w : Option ℕ) → Ends s n w → shows n s v w ≢ none
  shows_given n s v none h e = cc
  shows_given zero s v (some w) h e = absurd h
  shows_given (suc n) s v (some w) h e = ground (arith, shows_given n s v (s.view_of w).parent h)

  shows_sound :
      (n : ℕ) (s : Desktop D) (v w : ℕ) → shows n s v (some w) ≡ some true → Uncovered s v w
  shows_sound zero s v w e = cc
  shows_sound (suc n) s v w e = elim (Bool-cases (w == v)) [
    | inl h ↦ here w h
    | inr h ↦ elim (Bool-cases (view_is_maximized (s.view_of w))) [
      | inl m ↦ ground (arith, e, h, m)
      | inr m ↦ elim (Option-cases (s.view_of w).parent) [
        | inl q ↦ ground (arith, e, h, m, q)
        | inr (p, q) ↦ above w p m q (shows_sound n s v p (rw (h, m, q) at e))
      ]
    ]
  ]

  shows_complete :
      (n : ℕ) (s : Desktop D) (v w : ℕ)
      → Ends s n (some w)
      → Uncovered s v w
      → shows n s v (some w) ≡ some true
  shows_complete zero s v w h u = absurd h
  shows_complete (suc n) s v w h (here x e) = rw e refl
  shows_complete (suc n) s v w h (above x p m q u) = elim (Bool-cases (w == v)) [
    | inl e ↦ rw e refl
    | inr e ↦ rw (e, m, q) (shows_complete n s v p (rw q at h) u)
  ]

  is_visible-shows :
      (n : ℕ) (s : Desktop D) (v top : ℕ) (rest : List ℕ)
      → (s.view_of v).mapped ≡ true
      → length s.outputs ≡ 1
      → s.maximize ≡ true
      → s.views ≡ top ∷ rest
      → both_xwayland (s.view_of v) (s.view_of top) ≡ false
      → phoc_desktop_view_is_visible n s v ≡ shows n s v (some top)
  unfolding phoc_desktop_view_is_visible
  is_visible-shows n s v top rest m o x q b =
      let single : (length s.outputs == 1) ≡ true = (==_iff (length s.outputs) 1).1 o in
      if_shut (s.view_of v).mapped _ _ m
      ∙ ap (shows_from n s v) q
      ∙ if_shut (length s.outputs == 1) _ _ single
      ∙ if_shut s.maximize _ _ x
      ∙ if_open (both_xwayland (s.view_of v) (s.view_of top)) _ _ b

  -- With one output, views maximised by default and finite chains of parents, a mapped view is
  -- visible just if it is the topmost view or one of its ancestors, with nothing maximised in between;
  -- the walk always gives an answer. (Two XWayland views are the exception, left out here.)
  pub view_is_visible_lem :
      (n : ℕ) (s : Desktop D) (v top : ℕ) (rest : List ℕ)
      → (s.view_of v).mapped ≡ true
      → length s.outputs ≡ 1
      → s.maximize ≡ true
      → s.views ≡ top ∷ rest
      → both_xwayland (s.view_of v) (s.view_of top) ≡ false
      → Ends s n (some top)
      → Answer s v top (phoc_desktop_view_is_visible n s v)
  view_is_visible_lem n s v top rest m o x q b h =
      subst (Answer s v top) (sym (is_visible-shows n s v top rest m o x q b)) (record {
        given = shows_given n s v (some top) h;
        sound = shows_sound n s v top;
        complete = shows_complete n s v top h;
      })
