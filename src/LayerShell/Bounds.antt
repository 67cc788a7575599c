-- ===== src/LayerShell/Bounds.antt =====
-- Where the layer surfaces of src/layer_shell.c come to lie, and what they leave of the usable area.
use phoc.Prelude.{
  ◌≡◌, refl, ◌∙◌, inl, inr, Bool, true, false, ◌&&◌, List, [], ◌∷◌, ◌++◌, Bool-cases, arith,
}
use phoc.Prelude.Int.{ℤ, pos, negsuc, ◌+ℤ◌, ◌-ℤ◌, ◌≤ℤ◌, ◌<ℤ◌, half, int_laws, eqb_ℤ-cases}
use phoc.LayerShell.Geometry.{
  Box, Anchor, Margin, LayerSurface, Action, close, configure, update_cursors, positive, edge_top,
  edge_bottom, edge_left, edge_right, apply_exclusive, Span, place_axis, margin_axis, place,
  bounds_of, apply_box, in_pass, arrange_one, arrange_layer,
}

-- The box `a` lies within the box `b`.
pub record Within (a b : Box) : Type 0 where
  pub left : b.x ≤ℤ a.x
  pub right : a.x +ℤ a.width ≤ℤ b.x +ℤ b.width
  pub top : b.y ≤ℤ a.y
  pub bottom : a.y +ℤ a.height ≤ℤ b.y +ℤ b.height

Within-refl : (a : Box) → Within a a
Within-refl a = omega arith

pub Within-trans : (a b c : Box) → Within a b → Within b c → Within a c
Within-trans a b c p q = omega arith

positive-and : (p : Bool) (a : ℤ) → (p && positive a) ≡ true → pos 0 <ℤ a
positive-and p a h = ground arith

module _ (a : Anchor) (z : ℤ) (m : Margin) (u : Box) where
  edge_top-Within : Within (edge_top a z m u) u
  edge_top-Within = elim (Bool-cases ((a.left && a.right && a.top) && positive (z +ℤ m.top))) [
    | inr e ↦ rw e (Within-refl u)
    | inl e ↦ rw e (omega (int_laws, positive-and (a.left && a.right && a.top) (z +ℤ m.top) e))
  ]

  edge_bottom-Within : Within (edge_bottom a z m u) u
  edge_bottom-Within =
      elim (Bool-cases ((a.left && a.right && a.bottom) && positive (z +ℤ m.bottom))) [
        | inr e ↦ rw e (Within-refl u)
        | inl e ↦
            rw e (omega (int_laws, positive-and (a.left && a.right && a.bottom) (z +ℤ m.bottom) e))
      ]

  edge_left-Within : Within (edge_left a z m u) u
  edge_left-Within = elim (Bool-cases ((a.left && a.top && a.bottom) && positive (z +ℤ m.left))) [
    | inr e ↦ rw e (Within-refl u)
    | inl e ↦ rw e (omega (int_laws, positive-and (a.left && a.top && a.bottom) (z +ℤ m.left) e))
  ]

  edge_right-Within : Within (edge_right a z m u) u
  edge_right-Within =
      elim (Bool-cases ((a.right && a.top && a.bottom) && positive (z +ℤ m.right))) [
        | inr e ↦ rw e (Within-refl u)
        | inl e ↦
            rw e (omega (int_laws, positive-and (a.right && a.top && a.bottom) (z +ℤ m.right) e))
      ]

apply_exclusive-Within :
    (u : Box) (a : Anchor) (z : ℤ) (m : Margin) → Within (apply_exclusive u a z m) u
unfolding apply_exclusive
apply_exclusive-Within u a z m = elim (Bool-cases (positive z)) [
  | inr e ↦ rw e (Within-refl u)
  | inl e ↦
      let t = edge_top a z m u in
      let b = edge_bottom a z m t in
      let l = edge_left a z m b in
      rw e (
        Within-trans (edge_right a z m l) l u (edge_right-Within a z m l) (
          Within-trans l b u (edge_left-Within a z m b)
            (Within-trans b t u (edge_bottom-Within a z m t) (edge_top-Within a z m u))))
]

arrange_one-Within :
    (full : Box) (exclusive : Bool) (s : LayerSurface) (u : Box)
    → Within (arrange_one full exclusive s u).usable u
unfolding arrange_one
arrange_one-Within full exclusive s u =
    ground (arith, apply_exclusive-Within u s.anchor s.exclusive_zone s.margin, Within-refl u)

-- Arranging the surfaces of a layer, in either pass, only ever takes from the usable area: what is
-- left lies within what there was, whatever the surfaces ask for.
pub arrange_layer-Within :
    (full : Box) (exclusive : Bool) (ss : List LayerSurface) (u : Box)
    → Within (arrange_layer full exclusive ss u).usable u
unfolding arrange_layer
arrange_layer-Within full exclusive [] u = Within-refl u
arrange_layer-Within full exclusive (s ∷ ss) u =
    Within-trans _ _ _
      (arrange_one-Within full exclusive s (arrange_layer full exclusive ss u).usable)
      (arrange_layer-Within full exclusive ss u)

arrange_one_free :
    (full : Box) (s : LayerSurface) (u : Box) → (arrange_one full false s u).usable ≡ u
unfolding arrange_one apply_exclusive
arrange_one_free full s u = ground arith

-- The pass over the surfaces without an exclusive zone leaves the usable area alone.
pub arrange_layer_free :
    (full : Box) (ss : List LayerSurface) (u : Box) → (arrange_layer full false ss u).usable ≡ u
unfolding arrange_layer
arrange_layer_free full [] u = refl
arrange_layer_free full (s ∷ ss) u =
    arrange_one_free full s (arrange_layer full false ss u).usable ∙ arrange_layer_free full ss u

-- The size of a box is no negative number.
abbrev pub IsSized : Box → Type 0
IsSized b = (pos 0 ≤ℤ b.width) × (pos 0 ≤ℤ b.height)

abbrev pub AllSized : List LayerSurface → Type 0
AllSized [] = Unit
AllSized (s ∷ ss) = IsSized s.geo × AllSized ss

-- Every size that a client is told is no negative number.
abbrev pub SaneActions : List Action → Type 0
SaneActions [] = Unit
SaneActions (configure i w h ∷ acts) = (pos 0 ≤ℤ w) × (pos 0 ≤ℤ h) × SaneActions acts
SaneActions (close i ∷ acts) = SaneActions acts
SaneActions (update_cursors i ∷ acts) = SaneActions acts

SaneActions-append :
    (xs ys : List Action) → SaneActions xs → SaneActions ys → SaneActions (xs ++ ys)
SaneActions-append [] ys p q = q
SaneActions-append (configure i w h ∷ xs) ys p q = (p.0, p.1, SaneActions-append xs ys p.2 q)
SaneActions-append (close i ∷ xs) ys p q = SaneActions-append xs ys p q
SaneActions-append (update_cursors i ∷ xs) ys p q = SaneActions-append xs ys p q

apply_box-IsSized :
    (s : LayerSurface) (u b : Box)
    → IsSized s.geo
    → IsSized (apply_box s u b).surface.geo × SaneActions (apply_box s u b).actions
unfolding apply_box
apply_box-IsSized s u b h = ground arith

arrange_one-IsSized :
    (full : Box) (exclusive : Bool) (s : LayerSurface) (u : Box)
    → IsSized s.geo
    → IsSized (arrange_one full exclusive s u).surface.geo
      × SaneActions (arrange_one full exclusive s u).actions
unfolding arrange_one
arrange_one-IsSized full exclusive s u h = elim (Bool-cases (in_pass exclusive s)) [
  | inr e ↦ rw e (h, tt)
  | inl e ↦ rw e (apply_box-IsSized s u (place s (bounds_of s full u)) h)
]

-- If no layer surface has a negative size, none gets one by arranging the layer, neither in the compositor's geometry nor in what its
-- client is told, however small the usable area has become: such a surface is closed instead.
pub arrange_layer_sized :
    (full : Box) (exclusive : Bool) (ss : List LayerSurface) (u : Box)
    → AllSized ss
    → AllSized (arrange_layer full exclusive ss u).surfaces
      × SaneActions (arrange_layer full exclusive ss u).actions
unfolding arrange_layer
arrange_layer_sized full exclusive [] u h = (tt, tt)
arrange_layer_sized full exclusive (s ∷ ss) u h =
    let rest = arrange_layer full exclusive ss u in
    let one = arrange_one-IsSized full exclusive s rest.usable h.0 in
    let ih = arrange_layer_sized full exclusive ss u h.1 in
    ((one.0, ih.0), SaneActions-append rest.actions _ ih.1 one.1)

-- An axis: the span `a` lies within the span `b`.
abbrev pub Inside : Span → Span → Type 0
Inside a b = (b.at ≤ℤ a.at) × (a.at +ℤ a.size ≤ℤ b.at +ℤ b.size)

-- The room that an axis needs: the size, with the margins at the edges that are anchored.
abbrev pub needs : Bool → Bool → ℤ → ℤ → ℤ → ℤ
needs true true size low high = size +ℤ (low +ℤ high)
needs true false size low high = size +ℤ low
needs false true size low high = size +ℤ high
needs false false size low high = size

centred :
    (s t : ℤ) → pos 0 ≤ℤ s → s ≤ℤ t → (pos 0 ≤ℤ half t -ℤ half s) × (half t -ℤ half s +ℤ s ≤ℤ t)
centred (pos n) (pos m) h k = omega int_laws
centred (pos n) (negsuc m) h k = absurd (omega arith)
centred (negsuc n) t h k = absurd (omega arith)

-- A surface whose size and margins fit the bounds, and that gives a size for an axis unless both its
-- edges are anchored (the protocol asks for that), is placed within the bounds, for every choice of
-- anchors, also where it is stretched between both edges or centred.
pub axis-Inside :
    (low high : Bool) (size margin_low margin_high : ℤ) (b : Span)
    → (size ≡ pos 0 → (low && high) ≡ true)
    → pos 0 ≤ℤ size
    → pos 0 ≤ℤ margin_low
    → pos 0 ≤ℤ margin_high
    → needs low high size margin_low margin_high ≤ℤ b.size
    → Inside (margin_axis low high margin_low margin_high (place_axis low high size b)) b
unfolding margin_axis place_axis
axis-Inside true true size ml mh b given s l h n = elim (eqb_ℤ-cases size (pos 0)) [
  | inl (e, z) ↦ rw e (omega int_laws)
  | inr (e, z) ↦ rw e (omega int_laws)
]
axis-Inside true false size ml mh b given s l h n = elim (eqb_ℤ-cases size (pos 0)) [
  | inl (e, z) ↦ cc (given z)
  | inr (e, z) ↦ rw e (omega int_laws)
]
axis-Inside false true size ml mh b given s l h n = elim (eqb_ℤ-cases size (pos 0)) [
  | inl (e, z) ↦ cc (given z)
  | inr (e, z) ↦ rw e (omega int_laws)
]
axis-Inside false false size ml mh b given s l h n =
    let c = centred size b.size s n in omega int_laws
