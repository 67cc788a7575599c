-- ===== src/View/Tree.antt =====
-- src/view.c: view_set_parent and what view_destroy does to the children, and src/desktop.c:
-- phoc_desktop_view_is_visible. A walk up the parents is on fuel, which no_fuel says has run out.
use phoc.Prelude.{
  ℕ, zero, suc, Bool, true, false, not, ◌&&◌, List, [], ◌∷◌, Option, none, some, if◌then◌else◌,
  ◌==◌, length,
}
use phoc.View.State.{View, Desktop, put_view, view_is_maximized}
use phoc.View.Operations.{clear_output}
use phoc.View.Fullscreen.{without, view_unmap}

pub data Walk : Type 0 where
  clear cycle no_fuel : Walk

module _ {D : Type 0} where
  -- The loop of view_set_parent, from `node` upwards.
  abbrev pub find_cycle : ℕ → Desktop D → ℕ → Option ℕ → Walk
  find_cycle n s v none = clear
  find_cycle zero s v (some node) = no_fuel
  find_cycle (suc n) s v (some node) =
      let rest = find_cycle n s v (s.view_of node).parent in if node == v then cycle else rest

  -- wl_list_remove of the view's link, from the stack of its parent.
  abbrev pub unlink : ℕ → Desktop D → Desktop D
  unlink v s = elim (s.view_of v).parent [
    | none ↦ s
    | some p ↦ put_view p (record (s.view_of p) { stack = without v (s.view_of p).stack }) s
  ]

  -- view->parent = parent, and the link goes to the head of the parent's stack.
  abbrev pub link : ℕ → Option ℕ → Desktop D → Desktop D
  link v none s = put_view v (record (s.view_of v) { parent = none }) s
  link v (some p) s =
      let set = put_view v (record (s.view_of v) { parent = some p }) s in
      put_view p (record (set.view_of p) { stack = v ∷ (set.view_of p).stack }) set

  abbrev pub on_clear : Walk → Desktop D → Desktop D → Option (Desktop D)
  on_clear clear s t = some t
  on_clear cycle s t = some s
  on_clear no_fuel s t = none

  unfoldable pub view_set_parent : ℕ → ℕ → Option ℕ → Desktop D → Option (Desktop D)
  view_set_parent n v parent s = on_clear (find_cycle n s v parent) s (link v parent (unlink v s))

  -- The children of a view that goes, one by one, to its own parent.
  abbrev pub hand_over : List ℕ → Option ℕ → Desktop D → Desktop D
  hand_over [] parent s = s
  hand_over (c ∷ cs) parent s = hand_over cs parent (link c parent (unlink c s))

  -- view_destroy up to the call of the shell's own destroy. That view_unmap has been done already,
  -- the code sees from the surface.
  unfoldable pub view_destroy : ℕ → Desktop D → Desktop D
  view_destroy v s =
      let alone = unlink v s in
      let left = hand_over (alone.view_of v).stack (alone.view_of v).parent alone in
      let unmapped = if (left.view_of v).mapped then view_unmap v left else left in
      clear_output (unmapped.view_of v).fullscreen_output unmapped

  -- The loop of phoc_desktop_view_is_visible, from the view `w` upwards.
  abbrev pub shows : ℕ → Desktop D → ℕ → Option ℕ → Option Bool
  shows n s v none = some false
  shows zero s v (some w) = none
  shows (suc n) s v (some w) =
      let rest = shows n s v (s.view_of w).parent in
      if w == v then some true else if view_is_maximized (s.view_of w) then some false else rest

  abbrev pub both_xwayland : View D → View D → Bool
  both_xwayland a b = a.impl.is_xwayland && b.impl.is_xwayland

  -- Without a view the assertion fails: none.
  abbrev pub shows_from : ℕ → Desktop D → ℕ → List ℕ → Option Bool
  shows_from n s v [] = none
  shows_from n s v (top ∷ rest) =
      if not (length s.outputs == 1)
      then some true
      else if not s.maximize
      then some true
      else if both_xwayland (s.view_of v) (s.view_of top)
      then some true
      else shows n s v (some top)

  unfoldable pub phoc_desktop_view_is_visible : ℕ → Desktop D → ℕ → Option Bool
  phoc_desktop_view_is_visible n s v =
      if not (s.view_of v).mapped then some false else shows_from n s v s.views
