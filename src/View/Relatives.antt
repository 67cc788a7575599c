-- ===== src/View/Relatives.antt =====
-- The fullscreen links of src/view.c under changes of the parents and at the end of a view.
use phoc.Prelude.{
  ℕ, ◌≡◌, refl, subst, some-injective, inl, inr, Bool, true, false, List, [], ◌∷◌, Option, none,
  some, if◌then◌else◌, Option-cases,
}
use phoc.View.State.{Desktop, put_view}
use phoc.View.Fullscreen.{view_unmap}
use phoc.View.Links.{
  Linked, SameLinks, SameLinks-refl, SameLinks-trans, Linked-SameLinks, put_view-SameLinks,
}
use phoc.View.Linked.{Linked-clear_output, Linked-view_unmap}
use phoc.View.Tree.{
  Walk, clear, cycle, no_fuel, find_cycle, unlink, link, on_clear, view_set_parent, hand_over,
  view_destroy,
}

module _ {D : Type 0} where
  unlink-SameLinks : (v : ℕ) (s : Desktop D) → SameLinks s (unlink v s)
  unlink-SameLinks v s = elim (Option-cases (s.view_of v).parent) [
    | inl e ↦ rw (e, unlink) (SameLinks-refl s)
    | inr (p, e) ↦ rw (e, unlink) (put_view-SameLinks p _ s refl)
  ]

  link-SameLinks : (v : ℕ) (p : Option ℕ) (s : Desktop D) → SameLinks s (link v p s)
  link-SameLinks v none s = put_view-SameLinks v (record (s.view_of v) { parent = none }) s refl
  link-SameLinks v (some p) s =
      let set = put_view v (record (s.view_of v) { parent = some p }) s in
      SameLinks-trans s set _
        (put_view-SameLinks v (record (s.view_of v) { parent = some p }) s refl)
        (put_view-SameLinks p (record (set.view_of p) { stack = v ∷ (set.view_of p).stack }) set
          refl)

  relink-SameLinks : (v : ℕ) (p : Option ℕ) (s : Desktop D) → SameLinks s (link v p (unlink v s))
  relink-SameLinks v p s =
      SameLinks-trans s _ _ (unlink-SameLinks v s) (link-SameLinks v p (unlink v s))

  hand_over-SameLinks :
      (cs : List ℕ) (p : Option ℕ) (s : Desktop D) → SameLinks s (hand_over cs p s)
  hand_over-SameLinks [] p s = SameLinks-refl s
  hand_over-SameLinks (c ∷ cs) p s =
      SameLinks-trans s _ _ (relink-SameLinks c p s) (hand_over-SameLinks cs p _)

  by_walk-Linked :
      (w : Walk) (s t u : Desktop D) → Linked s → Linked t → on_clear w s t ≡ some u → Linked u
  by_walk-Linked clear s t u l k e = subst Linked (some-injective t u e) k
  by_walk-Linked cycle s t u l k e = subst Linked (some-injective s u e) l
  by_walk-Linked no_fuel s t u l k e = cc

  pub Linked-view_set_parent :
      (n v : ℕ) (p : Option ℕ) (s t : Desktop D)
      → Linked s
      → view_set_parent n v p s ≡ some t
      → Linked t
  unfolding view_set_parent
  Linked-view_set_parent n v p s t l =
      by_walk-Linked (find_cycle n s v p) s (link v p (unlink v s)) t l
        (Linked-SameLinks s _ (relink-SameLinks v p s) l)

  if-Linked : (b : Bool) (s t : Desktop D) → Linked s → Linked t → Linked (if b then s else t)
  if-Linked true s t l k = l
  if-Linked false s t l k = k

  pub Linked-view_destroy : (v : ℕ) (s : Desktop D) → Linked s → Linked (view_destroy v s)
  unfolding view_destroy
  Linked-view_destroy v s l =
      let alone = unlink v s in
      let left = hand_over (alone.view_of v).stack (alone.view_of v).parent alone in
      let k =
        Linked-SameLinks s left
          (SameLinks-trans s alone left (unlink-SameLinks v s)
            (hand_over-SameLinks (alone.view_of v).stack (alone.view_of v).parent alone))
          l in
      let unmapped = if (left.view_of v).mapped then view_unmap v left else left in
      Linked-clear_output (unmapped.view_of v).fullscreen_output unmapped
        (if-Linked (left.view_of v).mapped (view_unmap v left) left (Linked-view_unmap v left k) k)
