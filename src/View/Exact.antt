-- ===== src/View/Exact.antt =====
-- The numbers of src/view.c where they are exact.
use phoc.Prelude.{
  ℕ, ◌≡◌, refl, ap, sym, ◌∙◌, inl, inr, Bool, true, false, ◌&&◌, if-elim, ==_refl, arith,
}
use phoc.Prelude.Int.{ℤ, ◌+ℤ◌, ◌-ℤ◌, eqb_ℤ, eqb_ℤ-cases}
use phoc.LayerShell.Geometry.{Box}
use phoc.View.State.{Numbers, Desktop, put_view, view_update_position, view_move}

module _ {D : Type 0} where
  -- Doubles hold the sums of the integers that stand here without loss.
  pub record IsExact (F : Numbers D) : Type 0 where
    pub add : (a b : ℤ) → F.add (F.of_int a) (F.of_int b) ≡ F.of_int (a +ℤ b)
    pub sub : (a b : ℤ) → F.sub (F.of_int a) (F.of_int b) ≡ F.of_int (a -ℤ b)
    pub to_int : (a : ℤ) → F.to_int (F.of_int a) ≡ a
    pub same : (a b : ℤ) → F.same (F.of_int a) (F.of_int b) ≡ eqb_ℤ a b

  module _ (F : Numbers D) where
    pub view_update_position-box :
        (v : ℕ) (x y : ℤ) (s : Desktop D)
        → ((view_update_position F v x y s).view_of v).box
          ≡ record (s.view_of v).box { x = x; y = y }
    view_update_position-box v x y s = elim (eqb_ℤ-cases (s.view_of v).box.x x) [
      | inl (h, e) ↦ elim (eqb_ℤ-cases (s.view_of v).box.y y) [
        | inl (k, f) ↦ rw (h, k) (cc (e, f))
        | inr (k, f) ↦ rw (h, k, ==_refl v) refl
      ]
      | inr (h, e) ↦ rw (h, ==_refl v) refl
    ]

    module _ (exact : IsExact F) where
      same_equal : (a b : ℤ) → F.same (F.of_int a) (F.of_int b) ≡ true → a ≡ b
      same_equal a b e = elim (eqb_ℤ-cases a b) [
        | inl (h, k) ↦ k
        | inr (h, k) ↦ cc (sym (exact.same a b) ∙ e, h)
      ]

      both : (a b : Bool) → (a && b) ≡ true → (a ≡ true) × (b ≡ true)
      both a b e = ground arith

      -- What view_move stops first.
      abbrev stopped : ℕ → Desktop D → Desktop D
      stopped v s =
          let view = s.view_of v in
          put_view v
            (record view {
              pending_move_resize = record view.pending_move_resize {
                update_x = false;
                update_y = false;
              };
              pending_centering = false;
            })
            s

      stopped-box : (v : ℕ) (s : Desktop D) → ((stopped v s).view_of v).box ≡ (s.view_of v).box
      stopped-box v s = rw (==_refl v) refl

      abbrev At : ℕ → ℤ → ℤ → Desktop D → Desktop D → Type 0
      At v x y s d = (d.view_of v).box ≡ record (s.view_of v).box { x = x; y = y }

      -- A view whose shell does not move it itself is where it was moved to.
      pub view_move-box :
          (v : ℕ) (x y : ℤ) (s : Desktop D)
          → (s.view_of v).impl.has_move ≡ false
          → ((view_move F v (F.of_int x) (F.of_int y) s).view_of v).box
            ≡ record (s.view_of v).box { x = x; y = y }
      unfolding view_move
      view_move-box v x y s h =
          let box = (s.view_of v).box in
          let same_x = F.same (F.of_int box.x) (F.of_int x) in
          let same_y = F.same (F.of_int box.y) (F.of_int y) in
          if-elim (At v x y s) (same_x && same_y) s _
            (λ k.
              let (i, j) = both same_x same_y k in cc (same_equal box.x x i, same_equal box.y y j))
            (λ _.
              if-elim (At v x y s) (s.view_of v).impl.has_move _ _ (λ k. cc (h, k))
                (λ _.
                  rw (exact.to_int, exact.to_int)
                    (view_update_position-box v x y (stopped v s)
                      ∙ ap (λ (b : Box). record b { x = x; y = y }) (stopped-box v s))))
