-- ===== src/LayerShell/Arrange/Area.antt =====
-- What src/layer_shell.c: arrange_layers leaves for the views, and whom it gives the keyboard focus.
use phoc.Prelude.{
  ℕ, ◌≡◌, refl, ◌∙◌, ◌⊎◌, inl, inr, Bool, true, false, ◌&&◌, List, [], ◌∷◌, Option, none, some,
  Bool-cases,
}
use phoc.Prelude.Int.{ℤ, pos}
use phoc.LayerShell.Geometry.{Box, Layer, LayerSurface, arrange_layer}
use phoc.LayerShell.Bounds.{Within, Within-trans, arrange_layer-Within, arrange_layer_free}
use phoc.LayerShell.Arrange.{
  Layers, find_osk, with_osk, arrange_pass, first_interactive, or_topmost, find_topmost,
  arrange_layers,
}

arrange_pass-Within :
    (full : Box) (exclusive : Bool) (ls : Layers) (u : Box)
    → Within (arrange_pass full exclusive ls u).usable u
unfolding arrange_pass
arrange_pass-Within full exclusive ls u =
    let o = arrange_layer full exclusive ls.overlay_list u in
    let t = arrange_layer full exclusive ls.top_list o.usable in
    let b = arrange_layer full exclusive ls.bottom_list t.usable in
    Within-trans _ b.usable u (arrange_layer-Within full exclusive ls.background_list b.usable) (
      Within-trans b.usable t.usable u (arrange_layer-Within full exclusive ls.bottom_list t.usable)
        (Within-trans t.usable o.usable u (arrange_layer-Within full exclusive ls.top_list o.usable)
          (arrange_layer-Within full exclusive ls.overlay_list u)))

arrange_pass_free : (full : Box) (ls : Layers) (u : Box) → (arrange_pass full false ls u).usable ≡ u
unfolding arrange_pass
arrange_pass_free full ls u =
    let o = arrange_layer full false ls.overlay_list u in
    let t = arrange_layer full false ls.top_list o.usable in
    let b = arrange_layer full false ls.bottom_list t.usable in
    arrange_layer_free full ls.background_list b.usable
    ∙ arrange_layer_free full ls.bottom_list t.usable
    ∙ arrange_layer_free full ls.top_list o.usable
    ∙ arrange_layer_free full ls.overlay_list u

-- No surface of the list may take the keyboard, or one may and nothing in front of it in the list.
abbrev pub NoneInteractive : List LayerSurface → Type 0
NoneInteractive [] = Unit
NoneInteractive (s ∷ ss) = ((s.keyboard_interactive && s.mapped) ≡ false) × NoneInteractive ss

abbrev pub FirstInteractive : ℕ → List LayerSurface → Type 0
FirstInteractive i [] = ⊥
FirstInteractive i (s ∷ ss) =
    (((s.keyboard_interactive && s.mapped) ≡ true) × (s.id ≡ i))
    ⊎ (((s.keyboard_interactive && s.mapped) ≡ false) × FirstInteractive i ss)

abbrev pub Topmost : Layers → Option ℕ → Type 0
Topmost ls none = NoneInteractive ls.overlay_list × NoneInteractive ls.top_list
Topmost ls (some i) =
    FirstInteractive i ls.overlay_list
    ⊎ (NoneInteractive ls.overlay_list × FirstInteractive i ls.top_list)

abbrev ByList : List LayerSurface → Option ℕ → Type 0
ByList ss none = NoneInteractive ss
ByList ss (some i) = FirstInteractive i ss

behind :
    (s : LayerSurface) (ss : List LayerSurface)
    → (s.keyboard_interactive && s.mapped) ≡ false
    → (o : Option ℕ) → ByList ss o
    → ByList (s ∷ ss) o
behind s ss e none h = (e, h)
behind s ss e (some i) h = inr (e, h)

first_interactive_lem : (ss : List LayerSurface) → ByList ss (first_interactive ss)
first_interactive_lem [] = tt
first_interactive_lem (s ∷ ss) = elim (Bool-cases (s.keyboard_interactive && s.mapped)) [
  | inl e ↦ rw e (inl (e, refl))
  | inr e ↦ rw e (behind s ss e (first_interactive ss) (first_interactive_lem ss))
]

find_topmost_lem : (ls : Layers) → Topmost ls (find_topmost ls)
unfolding find_topmost
find_topmost_lem ls =
    both (first_interactive ls.overlay_list) (first_interactive ls.top_list)
      (first_interactive_lem ls.overlay_list) (first_interactive_lem ls.top_list)
  where
    both :
        (o t : Option ℕ)
        → ByList ls.overlay_list o
        → ByList ls.top_list t
        → Topmost ls (or_topmost o t)
    both (some i) t p q = inl p
    both none none p q = (p, q)
    both none (some i) p q = inr (p, q)

module _ {V : Type 0} (arrange_views : Box → V → V) where
  -- The usable area that an output keeps lies within its full size, and the
  -- views are arranged in just that area.
  pub usable_area-Within :
      (w h : ℤ) (seats : List (Option Layer)) (v : V) (ls : Layers)
      → Within
          (arrange_layers arrange_views w h seats v ls).usable_area
          (record { x = pos 0; y = pos 0; width = w; height = h })
        × ((arrange_layers arrange_views w h seats v ls).views
            ≡ arrange_views (arrange_layers arrange_views w h seats v ls).usable_area v)
  unfolding arrange_layers
  usable_area-Within w h seats v ls =
      let full : Box = record { x = pos 0; y = pos 0; width = w; height = h } in
      (arrange_pass-Within full true (with_osk (find_osk ls) seats ls) full, refl)

  -- The keyboard focus goes to the first mapped surface that wants the keyboard in the overlay layer,
  -- else to the first such one in the top layer, else to none, all in the lists as they are left.
  pub arrange_layers-Topmost :
      (w h : ℤ) (seats : List (Option Layer)) (v : V) (ls : Layers)
      → Topmost
          (arrange_layers arrange_views w h seats v ls).layers
          (arrange_layers arrange_views w h seats v ls).topmost
  unfolding arrange_layers
  arrange_layers-Topmost w h seats v ls =
      find_topmost_lem (arrange_layers arrange_views w h seats v ls).layers
