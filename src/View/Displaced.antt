-- ===== src/View/Displaced.antt =====
-- What entering and leaving fullscreen in src/view.c does to who is fullscreen where.
use phoc.Prelude.{
  ℕ, ◌≡◌, refl, ◌∙◌, inl, inr, false, Option, none, some, if◌then◌else◌, ◌==◌, arith, Bool-cases,
}
use phoc.View.State.{Numbers, View, Desktop, damage_output, put_view, call, view_save}
use phoc.View.Operations.{clear_output}
use phoc.View.Fullscreen.{enter_fullscreen, leave_fullscreen}
use phoc.View.Links.{
  SameLinks-trans, put_view-SameLinks, view_save_same, view_move_resize-SameLinks,
  view_auto_maximize-SameLinks, by_state-SameLinks,
}

module _ {D : Type 0} (F : Numbers D) (get_output : View D → Option ℕ) where
  clear_output-view :
      (o : Option ℕ) (u : ℕ) (s : Desktop D)
      → ((clear_output o s).view_of u).fullscreen_output ≡ (s.view_of u).fullscreen_output
  clear_output-view none u s = refl
  clear_output-view (some o) u s = refl

  enter_fullscreen-view :
      (v o u : ℕ) (s : Desktop D)
      → ((enter_fullscreen F get_output v o s).view_of u).fullscreen_output
        ≡ (if u == v then some o else (s.view_of u).fullscreen_output)
  unfolding enter_fullscreen
  enter_fullscreen-view v o u s =
      let left = clear_output (s.view_of v).fullscreen_output s in
      let saved = put_view v (view_save F (left.view_of v)) left in
      let kept =
        SameLinks-trans left _ _ (put_view-SameLinks v _ left (view_save_same F (left.view_of v)))
          (view_move_resize-SameLinks F v _ _ _ _ saved) in
      elim (Bool-cases (u == v)) [
        | inl e ↦ rw e refl
        | inr e ↦ rw e (kept.views u ∙ clear_output-view (s.view_of v).fullscreen_output u s)
      ]

  enter_fullscreen-output :
      (v o : ℕ) (s : Desktop D)
      → ((enter_fullscreen F get_output v o s).output_of o).fullscreen_view ≡ some v
  unfolding enter_fullscreen
  enter_fullscreen-output v o s = ground arith

  leave_fullscreen-view :
      (v o u : ℕ) (s : Desktop D)
      → ((leave_fullscreen F get_output v o s).view_of u).fullscreen_output
        ≡ (if u == v then none else (s.view_of u).fullscreen_output)
  unfolding leave_fullscreen
  leave_fullscreen-view v o u s =
      let left =
        put_view v (record (s.view_of v) { fullscreen_output = none }) (clear_output (some o) s) in
      let arranged =
        by_state-SameLinks F get_output v o (s.view_of v).state (call (damage_output o) left) in
      (SameLinks-trans _ _ _ arranged (view_auto_maximize-SameLinks F get_output v _)).views u
      ∙ ground arith

  leave_fullscreen-output :
      (v o p : ℕ) (s : Desktop D)
      → ((leave_fullscreen F get_output v o s).output_of p).fullscreen_view
        ≡ (if p == o then none else (s.output_of p).fullscreen_view)
  unfolding leave_fullscreen
  leave_fullscreen-output v o p s =
      let left =
        put_view v (record (s.view_of v) { fullscreen_output = none }) (clear_output (some o) s) in
      let arranged =
        by_state-SameLinks F get_output v o (s.view_of v).state (call (damage_output o) left) in
      (SameLinks-trans _ _ _ arranged (view_auto_maximize-SameLinks F get_output v _)).outputs p
      ∙ ground arith

  -- The other way round it does not hold. When a view `v` becomes fullscreen on an output where `w` is,
  -- `w` still counts as fullscreen there; and when `w` leaves fullscreen after that, the output has
  -- no fullscreen view any more, although `v` still counts as fullscreen on it.
  pub displaced :
      (v w o : ℕ) (s : Desktop D)
      → (v == w) ≡ false
      → (s.view_of w).fullscreen_output ≡ some o
      → let t = enter_fullscreen F get_output v o s in
        let u = leave_fullscreen F get_output w o t in
        ((t.output_of o).fullscreen_view ≡ some v)
        × ((t.view_of w).fullscreen_output ≡ some o)
        × ((u.output_of o).fullscreen_view ≡ none)
        × ((u.view_of v).fullscreen_output ≡ some o)
  displaced v w o s n h =
      let t = enter_fullscreen F get_output v o s in
      (
        enter_fullscreen-output v o s,
        enter_fullscreen-view v o w s ∙ ground (arith, n, h),
        leave_fullscreen-output w o o t ∙ ground arith,
        leave_fullscreen-view w o v t ∙ ground (arith, n, enter_fullscreen-view v o v s),
      )
