-- ===== src/LayerShell/Arrange/Osk.antt =====
-- Moving the on-screen keyboard between the layers of src/layer_shell.c.
use phoc.Prelude.{
  ℕ, ◌+◌, ◌≡◌, refl, ◌∙◌, inl, inr, Bool, true, false, List, [], ◌∷◌, Option, some, if◌then◌else◌,
  ◌==◌, arith, Bool-cases, Option-cases,
}
use phoc.Prelude.Int.{ℤ, pos}
use phoc.LayerShell.Geometry.{Box, Layer, overlay, LayerSurface, apply_box, arrange_layer}
use phoc.LayerShell.Arrange.{
  Layers, get, OskOrigin, find_osk_in, find_osk, remove_osk, move_osk, same_layer, change_osk,
  forces_overlay, with_osk, arrange_pass, arrange_layers,
}

-- How often a surface is in a list, and in all four.
abbrev pub count : ℕ → List LayerSurface → ℕ
count i [] = 0
count i (s ∷ ss) = (if s.id == i then 1 else 0) + count i ss

abbrev pub count_all : ℕ → Layers → ℕ
count_all i ls =
    count i ls.background_list
    + count i ls.bottom_list
    + count i ls.top_list
    + count i ls.overlay_list

count-remove_osk :
    (i : ℕ) (ss : List LayerSurface) (s : LayerSurface)
    → find_osk_in ss ≡ some s
    → count i ss ≡ (if s.id == i then 1 else 0) + count i (remove_osk ss)
count-remove_osk i [] s e = cc
count-remove_osk i (x ∷ ss) s e = ground (arith, count-remove_osk i ss s)

abbrev FoundIn : Layers → OskOrigin → Type 0
FoundIn ls osk = find_osk_in (get osk.layer ls) ≡ some osk.surface

find_osk-FoundIn : (ls : Layers) (osk : OskOrigin) → find_osk ls ≡ some osk → FoundIn ls osk
unfolding find_osk
find_osk-FoundIn ls osk e = ground arith

count_all-move_osk :
    (i : ℕ) (ls : Layers) (osk : OskOrigin) (target : Layer)
    → FoundIn ls osk
    → count_all i (move_osk osk target ls) ≡ count_all i ls
count_all-move_osk i ls osk target f =
    ground (arith, count-remove_osk i (get osk.layer ls) osk.surface f)

found-is_osk :
    (ss : List LayerSurface) (s : LayerSurface) → find_osk_in ss ≡ some s → s.is_osk ≡ true
found-is_osk [] s e = cc
found-is_osk (x ∷ ss) s e = ground (arith, found-is_osk ss s)

same_layer-≡ : (a b : Layer) → same_layer a b ≡ true → a ≡ b
same_layer-≡ a b e = ground arith

get-move_osk :
    (osk : OskOrigin) (target : Layer) (ls : Layers)
    → same_layer osk.layer target ≡ false
    → get target (move_osk osk target ls) ≡ osk.surface ∷ get target ls
get-move_osk osk target ls e = ground arith

-- The layer that the keyboard should be in.
abbrev pub osk_target : OskOrigin → List (Option Layer) → Layer
osk_target osk seats =
    if forces_overlay osk.surface.pending_layer seats then overlay else osk.surface.pending_layer

found_at :
    (osk : OskOrigin) (target : Layer) (ls : Layers)
    → FoundIn ls osk
    → find_osk_in (get target (if same_layer osk.layer target then ls else move_osk osk target ls))
      ≡ some osk.surface
found_at osk target ls f = elim (Bool-cases (same_layer osk.layer target)) [
  | inl e ↦ rw e (ground (arith, same_layer-≡ osk.layer target e))
  | inr e ↦ rw (e, get-move_osk osk target ls e, found-is_osk (get osk.layer ls) osk.surface f) refl
]

-- Before an output is arranged, its on-screen keyboard is in the overlay layer if some seat's
-- focused layer surface asks for the keyboard's layer or one above it, and in the layer that the
-- keyboard asks for if none does.
pub with_osk_lem :
    (ls : Layers) (seats : List (Option Layer)) (osk : OskOrigin)
    → find_osk ls ≡ some osk
    → find_osk_in (get (osk_target osk seats) (with_osk (find_osk ls) seats ls)) ≡ some osk.surface
unfolding change_osk
with_osk_lem ls seats osk e =
    let f = find_osk-FoundIn ls osk e in
    elim (Bool-cases (forces_overlay osk.surface.pending_layer seats)) [
      | inl h ↦ rw (e, h) (found_at osk overlay ls f)
      | inr h ↦ rw (e, h) (found_at osk osk.surface.pending_layer ls f)
    ]

count_all-with_osk :
    (i : ℕ) (ls : Layers) (seats : List (Option Layer))
    → count_all i (with_osk (find_osk ls) seats ls) ≡ count_all i ls
unfolding change_osk
count_all-with_osk i ls seats = elim (Option-cases (find_osk ls)) [
  | inl e ↦ rw e refl
  | inr (osk, e) ↦ rw e (
      ground (
        arith,
        count_all-move_osk i ls osk overlay (find_osk-FoundIn ls osk e),
        count_all-move_osk i ls osk osk.surface.pending_layer (find_osk-FoundIn ls osk e),
      ))
]

count-arrange_layer :
    (i : ℕ) (full : Box) (exclusive : Bool) (ss : List LayerSurface) (u : Box)
    → count i (arrange_layer full exclusive ss u).surfaces ≡ count i ss
unfolding arrange_layer apply_box
count-arrange_layer i full exclusive [] u = refl
count-arrange_layer i full exclusive (s ∷ ss) u =
    ground (arith, count-arrange_layer i full exclusive ss u)

count_all-arrange_pass :
    (i : ℕ) (full : Box) (exclusive : Bool) (ls : Layers) (u : Box)
    → count_all i (arrange_pass full exclusive ls u).layers ≡ count_all i ls
unfolding arrange_pass
count_all-arrange_pass i full exclusive ls u =
    let o = arrange_layer full exclusive ls.overlay_list u in
    let t = arrange_layer full exclusive ls.top_list o.usable in
    let b = arrange_layer full exclusive ls.bottom_list t.usable in
    omega (
      arith,
      count-arrange_layer i full exclusive ls.overlay_list u,
      count-arrange_layer i full exclusive ls.top_list o.usable,
      count-arrange_layer i full exclusive ls.bottom_list t.usable,
      count-arrange_layer i full exclusive ls.background_list b.usable,
    )

module _ {V : Type 0} (arrange_views : Box → V → V) where
  -- Arranging an output neither loses a layer surface nor lists one twice: each is in the four lists
  -- as often as before, also where the on-screen keyboard changes its layer.
  pub count_all-arrange_layers :
      (i : ℕ) (w h : ℤ) (seats : List (Option Layer)) (v : V) (ls : Layers)
      → count_all i (arrange_layers arrange_views w h seats v ls).layers ≡ count_all i ls
  unfolding arrange_layers
  count_all-arrange_layers i w h seats v ls =
      let full : Box = record { x = pos 0; y = pos 0; width = w; height = h } in
      let placed = with_osk (find_osk ls) seats ls in
      let first = arrange_pass full true placed full in
      count_all-arrange_pass i full false first.layers first.usable
      ∙ count_all-arrange_pass i full true placed full
      ∙ count_all-with_osk i ls seats
