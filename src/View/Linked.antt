-- ===== src/View/Linked.antt =====
-- The fullscreen links of src/view.c under the operations that change them.
use phoc.Prelude.{
  ℕ, ◌≡◌, refl, sym, ◌∙◌, ◌≢◌, inl, inr, Bool, true, false, not, ◌&&◌, Option, none, some,
  if◌then◌else◌, ◌==◌, subst, some-injective, arith, Bool-cases, Option-cases,
}
use phoc.View.State.{
  Numbers, View, Output, Call, Desktop, damage_output, put_view, put_output, call,
  view_is_fullscreen, view_is_maximized, view_is_tiled, view_save, view_move_resize,
}
use phoc.View.Operations.{
  clear_output, or_find, view_arrange_maximized, view_arrange_tiled, view_center,
}
use phoc.View.Fullscreen.{
  tell_fullscreen, enter_fullscreen, leave_fullscreen, fullscreen_switch, enter_on, differs,
  arrange_on, saved_on, view_set_fullscreen, view_move_to_next_output, view_unmap, view_map,
}
use phoc.View.Links.{
  Linked, SameLinks, SameLinks-trans, Linked-SameLinks, put_view-SameLinks, when-SameLinks,
  if-SameLinks, view_save_same, view_move_resize-SameLinks, view_arrange_maximized-SameLinks,
  view_arrange_tiled-SameLinks, view_auto_maximize-SameLinks, by_state-SameLinks,
  view_center-SameLinks, SameLinks-refl,
}

module _ {D : Type 0} where
  -- No output has the view fullscreen.
  abbrev Unlinked : ℕ → Desktop D → Type 0
  Unlinked v s = (o : ℕ) → (s.output_of o).fullscreen_view ≢ some v

  pub Linked-clear_output : (o : Option ℕ) (s : Desktop D) → Linked s → Linked (clear_output o s)
  Linked-clear_output none s l o v e = l o v e
  Linked-clear_output (some a) s l o v e = elim (Bool-cases (o == a)) [
    | inl h ↦ ground (arith, e, h)
    | inr h ↦ l o v (ground (arith, e, h))
  ]

  Unlinked-clear_output :
      (v : ℕ) (s : Desktop D)
      → Linked s
      → Unlinked v (clear_output (s.view_of v).fullscreen_output s)
  Unlinked-clear_output v s l o e = elim (Option-cases (s.view_of v).fullscreen_output) [
    | inl h ↦ ground (arith, e, h, l o v)
    | inr (a, h) ↦ ground (arith, e, h, l o v)
  ]

  -- A view that no output has may be written.
  Linked-put_view :
      (v : ℕ) (w : View D) (s : Desktop D) → Linked s → Unlinked v s → Linked (put_view v w s)
  Linked-put_view v w s l n o u e = elim (Bool-cases (u == v)) [
    | inl h ↦ ground (arith, n o, e, h)
    | inr h ↦ ground (arith, l o u e)
  ]

  Linked-link :
      (v o : ℕ) (w : View D) (out : Output D) (s : Desktop D)
      → Linked s
      → Unlinked v s
      → out.fullscreen_view ≡ some v
      → w.fullscreen_output ≡ some o
      → Linked (put_view v w (put_output o out s))
  Linked-link v o w out s l n e h a u k = elim (Bool-cases (a == o)) [
    | inl i ↦ ground (arith, e, h, k)
    | inr i ↦ ground (arith, n a, l a u, k)
  ]

  Unlinked-cleared :
      (v o : ℕ) (s : Desktop D)
      → Linked s
      → (s.view_of v).fullscreen_output ≡ some o
      → Unlinked v (clear_output (some o) s)
  Unlinked-cleared v o s l h a e = ground (arith, l a v, h, e)

  pub call-SameLinks : (c : Call D) (s : Desktop D) → SameLinks s (call c s)
  call-SameLinks c s = record { views = λ v. refl; outputs = λ o. refl }

  Unlinked-SameLinks : (v : ℕ) (s t : Desktop D) → SameLinks s t → Unlinked v s → Unlinked v t
  Unlinked-SameLinks v s t p n o e = n o (sym (p.outputs o) ∙ e)

  pub Linked-view_unmap : (v : ℕ) (s : Desktop D) → Linked s → Linked (view_unmap v s)
  unfolding view_unmap
  Linked-view_unmap v s l =
      let left = clear_output (s.view_of v).fullscreen_output s in
      Linked-put_view v _ left (Linked-clear_output (s.view_of v).fullscreen_output s l)
        (Unlinked-clear_output v s l)

  pub Linked-view_map : (v : ℕ) (s : Desktop D) → Linked s → Linked (view_map v s)
  unfolding view_map
  Linked-view_map v s l =
      Linked-SameLinks s _ (put_view-SameLinks v (record (s.view_of v) { mapped = true }) s refl) l

  known : (s t : Desktop D) → Linked s → some s ≡ some t → Linked t
  known s t l e = subst Linked (some-injective s t e) l

  either_way :
      (b : Bool) (x y : Option (Desktop D)) (t : Desktop D)
      → (x ≡ some t → Linked t)
      → (y ≡ some t → Linked t)
      → (if b then x else y) ≡ some t
      → Linked t
  either_way true x y t p q e = p e
  either_way false x y t p q e = q e

  module _ (F : Numbers D) where
    module _ (get_output : View D → Option ℕ) where
      Linked-enter_fullscreen :
          (v o : ℕ) (s : Desktop D) → Linked s → Linked (enter_fullscreen F get_output v o s)
      unfolding enter_fullscreen
      Linked-enter_fullscreen v o s l =
          let left = clear_output (s.view_of v).fullscreen_output s in
          let saved = put_view v (view_save F (left.view_of v)) left in
          let b = (saved.output_of o).layout_box in
          let moved =
            view_move_resize F v (F.of_int b.x) (F.of_int b.y) (F.to_u32 (F.of_int b.width))
              (F.to_u32 (F.of_int b.height)) saved in
          let p =
            SameLinks-trans left saved moved
              (put_view-SameLinks v _ left (view_save_same F (left.view_of v)))
              (view_move_resize-SameLinks F v _ _ _ _ saved) in
          Linked-link v o _ _ moved
            (Linked-SameLinks left moved p
              (Linked-clear_output (s.view_of v).fullscreen_output s l))
            (Unlinked-SameLinks v left moved p (Unlinked-clear_output v s l)) refl refl

      Linked-enter_on :
          (v : ℕ) (o : Option ℕ) (s t : Desktop D)
          → Linked s
          → enter_on F get_output v o s ≡ some t
          → Linked t
      Linked-enter_on v none s t l e = cc
      Linked-enter_on v (some a) s t l e =
          either_way (s.output_of a).has_data _ _ t (known _ t (Linked-enter_fullscreen v a s l))
            (known s t l) e

      Linked-leave_fullscreen :
          (v o : ℕ) (s : Desktop D)
          → Linked s
          → (s.view_of v).fullscreen_output ≡ some o
          → Linked (leave_fullscreen F get_output v o s)
      unfolding leave_fullscreen
      Linked-leave_fullscreen v o s l h =
          let left =
            put_view v (record (s.view_of v) { fullscreen_output = none })
              (clear_output (some o) s) in
          let arranged =
            by_state-SameLinks F get_output v o (s.view_of v).state (call (damage_output o) left) in
          Linked-SameLinks left _
            (SameLinks-trans left _ _ (call-SameLinks (damage_output o) left)
              (SameLinks-trans _ _ _ arranged (view_auto_maximize-SameLinks F get_output v _)))
            (Linked-put_view v _ (clear_output (some o) s) (Linked-clear_output (some o) s l)
              (Unlinked-cleared v o s l h))

      Linked-fullscreen_switch :
          (v : ℕ) (b : Bool) (o was : Option ℕ) (s t : Desktop D)
          → Linked s
          → (s.view_of v).fullscreen_output ≡ was
          → fullscreen_switch F get_output v b o was s ≡ some t
          → Linked t
      Linked-fullscreen_switch v true o was s t l h e =
          Linked-enter_on v (or_find o (get_output (s.view_of v))) s t l e
      Linked-fullscreen_switch v false o none s t l h e = known s t l e
      Linked-fullscreen_switch v false o (some a) s t l h e =
          known _ t (Linked-leave_fullscreen v a s l h) e

      tell_fullscreen-SameLinks :
          (b : Bool) (v : ℕ) (f : Bool) (s : Desktop D)
          → SameLinks s (if b then tell_fullscreen F get_output v f s else s)
      tell_fullscreen-SameLinks b v f s =
          if-SameLinks b s _ s
            (SameLinks-trans s _ _ (when-SameLinks _ (Call.set_fullscreen v f) s)
              (when-SameLinks _ (Call.handle_fullscreen v f) _))
            (SameLinks-refl s)

      module _ (focused : ℕ → Bool) where
        pub Linked-view_set_fullscreen :
            (v : ℕ) (b : Bool) (o : Option ℕ) (s t : Desktop D)
            → Linked s
            → view_set_fullscreen F get_output focused v b o s ≡ some t
            → Linked t
        unfolding view_set_fullscreen
        Linked-view_set_fullscreen v b o s t l =
            let view = s.view_of v in
            let d = differs (view_is_fullscreen view) b in
            let told = tell_fullscreen-SameLinks d v b s in
            either_way (d && (b && view.mapped && not (focused v))) _ _ t (known s t l) (
              Linked-fullscreen_switch v b o view.fullscreen_output _ t
                (Linked-SameLinks s _ told l) (told.views v))

        module _ (seated : Bool) (cursor_output : Option ℕ) (adjacent : ℕ → View D → Option ℕ) where
          Linked-arrange_on :
              (v o : ℕ) (s t : Desktop D)
              → Linked s
              → arrange_on F get_output focused seated cursor_output adjacent v o s ≡ some t
              → Linked t
          Linked-arrange_on v o s t l =
              let view = s.view_of v in
              let maximized = view_arrange_maximized F get_output v (some o) s in
              let tiled = view_arrange_tiled F get_output v (some o) s in
              let centered = view_center F seated cursor_output v (some o) s in
              either_way (view_is_fullscreen view) _ _ t
                (Linked-view_set_fullscreen v true (some o) s t l)
                (either_way (view_is_maximized view) (some maximized) _ t
                  (known maximized t (
                    Linked-SameLinks s maximized
                      (view_arrange_maximized-SameLinks F get_output v (some o) s) l))
                  (either_way (view_is_tiled view) (some tiled) (some centered) t
                    (known tiled t (
                      Linked-SameLinks s tiled
                        (view_arrange_tiled-SameLinks F get_output v (some o) s) l))
                    (known centered t (
                      Linked-SameLinks s centered
                        (view_center-SameLinks F seated cursor_output v (some o) s) l))))

          pub Linked-view_move_to_next_output :
              (v : ℕ) (s t : Desktop D)
              → Linked s
              → view_move_to_next_output F get_output focused seated cursor_output adjacent v s
                ≡ some t
              → Linked t
          unfolding view_move_to_next_output
          Linked-view_move_to_next_output v s t l e =
              elim (Option-cases (get_output (s.view_of v))) [
                | inl h ↦
                    subst Linked (some-injective s t (rw (h, view_move_to_next_output) at e)) l
                | inr (o, h) ↦ elim (Option-cases (adjacent o (s.view_of v))) [
                  | inl k ↦
                      subst Linked (some-injective s t (rw (h, k, view_move_to_next_output) at e)) l
                  | inr (new, k) ↦
                      Linked-arrange_on v new _ t
                        (Linked-SameLinks s _
                          (put_view-SameLinks v
                            (record (s.view_of v) {
                              saved = saved_on (s.output_of new) (s.view_of v).saved;
                            })
                            s refl)
                          l)
                        (rw (h, k, view_move_to_next_output) at e)
                ]
              ]
