-- ===== src/Desktop/Order.antt =====
-- src/desktop.c: phoc_desktop_surface_at against the order of everything that can be under a point.
use phoc.Prelude.{
  ℕ, ◌≡◌, refl, sym, ap, ◌∙◌, Bool, true, false, not, List, [], ◌∷◌, ◌++◌, reverse, map, Option,
  none, some, ◌>>=◌, if◌then◌else◌, Bool-cases, inl, inr, >>=-eq-some, some-injective,
}
use phoc.LayerShell.Geometry.{LayerSurface, positive}
use phoc.LayerShell.Arrange.{Layers}
use phoc.View.State.{Numbers, Desktop}
use phoc.View.Tree.{phoc_desktop_view_is_visible}
use phoc.Desktop.{
  Point, Surfaces, Scene, Under, otherwise, ◌or_next◌, view_at, if_visible, desktop_view_at,
  layer_hit, layer_loop, layer_surface_at, under_fullscreen, under_views, below_overlay, on_output,
  phoc_desktop_surface_at,
}

pub data Candidate : Type 0 where
  of_layer : LayerSurface → Candidate
  of_view : ℕ → Candidate

-- The surfaces of a layer whose exclusive zone is positive, or is not.
abbrev pub zoned : Bool → List LayerSurface → List Candidate
zoned b [] = []
zoned b (l ∷ ls) =
    let rest = zoned b ls in
    if (if b then positive l.exclusive_zone else not (positive l.exclusive_zone))
    then of_layer l ∷ rest
    else rest

-- From the front to the back: those with a zone, the last first, and then the others, the first first.
abbrev pub of_layers : List LayerSurface → List Candidate
of_layers ls = zoned true (reverse ls) ++ zoned false ls

abbrev pub of_views : List ℕ → List Candidate
of_views vs = map of_view vs

-- What is below the overlay layer: a fullscreen view and nothing else, with the top layer before it when
-- the shell is revealed, or else the other layers with the visible views in between.
abbrev pub below_overlay_order : Option ℕ → Bool → Layers → List ℕ → List Candidate
below_overlay_order (some f) true ls us = of_layers ls.top_list ++ (of_view f ∷ [])
below_overlay_order (some f) false ls us = of_view f ∷ []
below_overlay_order none b ls us =
    of_layers ls.top_list
    ++ (of_views us ++ (of_layers ls.bottom_list ++ of_layers ls.background_list))

module _ {D : Type 0} where
  -- The views that are visible, none when a walk runs out of fuel.
  abbrev pub visible_views : ℕ → Desktop D → List ℕ → Option (List ℕ)
  visible_views n d [] = some []
  visible_views n d (v ∷ vs) =
      let rest = visible_views n d vs in
      phoc_desktop_view_is_visible n d v >>= λ b. rest >>= λ us. some (if b then v ∷ us else us)

  -- From the front to the back, on an output or on none.
  abbrev pub order : Option ℕ → Scene D → List ℕ → List Candidate
  order none s us = of_views us
  order (some o) s us =
      of_layers (s.layers_of o).overlay_list
      ++ below_overlay_order (s.shown.output_of o).fullscreen_view
          (s.shown.output_of o).force_shell_reveal (s.layers_of o) us

  module _ (F : Numbers D) (W : Surfaces D) where
    abbrev pub coords : Option ℕ → D → D → Point D
    coords none lx ly = (lx, ly)
    coords (some o) lx ly = W.layout_output_coords o lx ly

    abbrev pub candidate_at : Scene D → Point D → D → D → Candidate → Option (Under D)
    candidate_at s p lx ly (of_layer l) = layer_hit F W l p.0 p.1
    candidate_at s p lx ly (of_view v) = view_at F W s v lx ly

    abbrev pub first_hit : Scene D → Point D → D → D → List Candidate → Option (Under D)
    first_hit s p lx ly [] = none
    first_hit s p lx ly (c ∷ cs) =
        let rest = first_hit s p lx ly cs in candidate_at s p lx ly c or_next rest

    or_next_assoc :
        (a b c : Option (Under D)) → ((a or_next b) or_next c) ≡ (a or_next (b or_next c))
    or_next_assoc none b c = refl
    or_next_assoc (some u) b c = refl

    or_next_none : (a : Option (Under D)) → (a or_next none) ≡ a
    or_next_none none = refl
    or_next_none (some u) = refl

    otherwise-some : (a b : Option (Under D)) → otherwise a (some b) ≡ some (a or_next b)
    otherwise-some none b = refl
    otherwise-some (some u) b = refl

    module _ (s : Scene D) (p : Point D) (lx ly : D) where
      abbrev nearest : List Candidate → Option (Under D)
      nearest cs = first_hit s p lx ly cs

      nearest-append :
          (cs ds : List Candidate) → nearest (cs ++ ds) ≡ (nearest cs or_next nearest ds)
      nearest-append [] ds = refl
      nearest-append (c ∷ cs) ds =
          ap (λ o. candidate_at s p lx ly c or_next o) (nearest-append cs ds)
          ∙ sym (or_next_assoc (candidate_at s p lx ly c) (nearest cs) (nearest ds))

      layer_loop-zoned :
          (b : Bool) (ls : List LayerSurface) → layer_loop F W b ls p.0 p.1 ≡ nearest (zoned b ls)
      layer_loop-zoned b [] = refl
      layer_loop-zoned b (l ∷ ls) =
          elim (Bool-cases
            (if b then positive l.exclusive_zone else not (positive l.exclusive_zone))) [
              | inl e ↦ rw (e, layer_loop-zoned b ls) refl
              | inr e ↦ rw (e, layer_loop-zoned b ls) refl
            ]

      layer_surface_at-nearest :
          (ls : List LayerSurface) → layer_surface_at F W ls p.0 p.1 ≡ nearest (of_layers ls)
      unfolding layer_surface_at
      layer_surface_at-nearest ls =
          rw (layer_loop-zoned true (reverse ls), layer_loop-zoned false ls)
            (sym (nearest-append (zoned true (reverse ls)) (zoned false ls)))

      layers_then :
          (ls : List LayerSurface) (ds : List Candidate) (m : Option (Option (Under D)))
          → m ≡ some (nearest ds)
          → otherwise (layer_surface_at F W ls p.0 p.1) m ≡ some (nearest (of_layers ls ++ ds))
      layers_then ls ds m e =
          ap (otherwise (layer_surface_at F W ls p.0 p.1)) e
          ∙ (otherwise-some (layer_surface_at F W ls p.0 p.1) (nearest ds)
              ∙ ap (λ o. some (o or_next nearest ds)) (layer_surface_at-nearest ls)
              ∙ ap (λ o. some o) (sym (nearest-append (of_layers ls) ds)))

      desktop_view_at-nearest :
          (n : ℕ) (vs us : List ℕ)
          → visible_views n s.shown vs ≡ some us
          → desktop_view_at F W n s vs lx ly ≡ some (nearest (of_views us))
      unfolding desktop_view_at
      desktop_view_at-nearest n [] us e =
          ap (λ ws. some (nearest (of_views ws))) (some-injective [] us e)
      desktop_view_at-nearest n (v ∷ vs) us e =
          let (b, h, k) = >>=-eq-some (phoc_desktop_view_is_visible n s.shown v) _ e in
          let (ws, q, r) = >>=-eq-some (visible_views n s.shown vs) _ k in
          rw h (rw (desktop_view_at-nearest n vs ws q) (one b v ws us (some-injective _ us r)))
        where
          one :
              (b : Bool) (v : ℕ) (ws us : List ℕ)
              → (if b then v ∷ ws else ws) ≡ us
              → otherwise (if_visible b (view_at F W s v lx ly)) (some (nearest (of_views ws)))
                ≡ some (nearest (of_views us))
          one true v ws us e = otherwise-some _ _ ∙ ap (λ xs. some (nearest (of_views xs))) e
          one false v ws us e = ap (λ xs. some (nearest (of_views xs))) e

      under_fullscreen-nearest :
          (o f : ℕ) (us : List ℕ) (b : Bool)
          → (s.shown.output_of o).force_shell_reveal ≡ b
          → under_fullscreen F W s o f p lx ly
            ≡ nearest (below_overlay_order (some f) b (s.layers_of o) us)
      under_fullscreen-nearest o f us true e = rw e (
          rw (layer_surface_at-nearest (s.layers_of o).top_list) (
            ap (λ u. nearest (of_layers (s.layers_of o).top_list) or_next u)
              (sym (or_next_none (view_at F W s f lx ly)))
            ∙ sym (nearest-append (of_layers (s.layers_of o).top_list) (of_view f ∷ []))))
      under_fullscreen-nearest o f us false e = rw e (sym (or_next_none (view_at F W s f lx ly)))

      under_views-nearest :
          (n o : ℕ) (us : List ℕ) (b : Bool)
          → visible_views n s.shown s.shown.views ≡ some us
          → under_views F W n s o p lx ly
            ≡ some (nearest (below_overlay_order none b (s.layers_of o) us))
      under_views-nearest n o us b e =
          layers_then (s.layers_of o).top_list
            (of_views us
              ++ (of_layers (s.layers_of o).bottom_list
                  ++ of_layers (s.layers_of o).background_list))
            _
            (rw (desktop_view_at-nearest n s.shown.views us e) (
              rw
                (
                  layer_surface_at-nearest (s.layers_of o).bottom_list,
                  layer_surface_at-nearest (s.layers_of o).background_list,
                )
                (otherwise-some _ _
                  ∙ (ap (λ u. some (nearest (of_views us) or_next u))
                        (sym (
                          nearest-append (of_layers (s.layers_of o).bottom_list)
                            (of_layers (s.layers_of o).background_list)))
                      ∙ ap (λ u. some u) (sym (nearest-append (of_views us) _))))))

      below_overlay-nearest :
          (full : Option ℕ) (n o : ℕ) (us : List ℕ)
          → visible_views n s.shown s.shown.views ≡ some us
          → below_overlay F W full n s o p lx ly
            ≡ some (
                nearest (
                  below_overlay_order full
                    (s.shown.output_of o).force_shell_reveal
                    (s.layers_of o)
                    us))
      below_overlay-nearest none n o us e =
          under_views-nearest n o us (s.shown.output_of o).force_shell_reveal e
      below_overlay-nearest (some f) n o us e =
          ap (λ u. some u)
            (under_fullscreen-nearest o f us (s.shown.output_of o).force_shell_reveal refl)

    on_output-nearest :
        (o : Option ℕ) (n : ℕ) (s : Scene D) (lx ly : D) (us : List ℕ)
        → visible_views n s.shown s.shown.views ≡ some us
        → on_output F W o n s lx ly ≡ some (first_hit s (coords o lx ly) lx ly (order o s us))
    on_output-nearest none n s lx ly us e =
        desktop_view_at-nearest s (lx, ly) lx ly n s.shown.views us e
    on_output-nearest (some o) n s lx ly us e =
        let p = W.layout_output_coords o lx ly in
        layers_then s p lx ly (s.layers_of o).overlay_list
          (below_overlay_order (s.shown.output_of o).fullscreen_view
            (s.shown.output_of o).force_shell_reveal (s.layers_of o) us)
          _ (below_overlay-nearest s p lx ly (s.shown.output_of o).fullscreen_view n o us e)

    -- phoc_desktop_surface_at gives the first, from the front to the back, that has something under the
    -- point, on the output at the point or on none: the overlay layer; a fullscreen view alone, after the top
    -- layer when the shell is revealed, or else the top layer, the visible views, the bottom layer and the
    -- background. It gives an answer whenever it can be told of every view whether it is visible.
    pub phoc_desktop_surface_at_lem :
        (n : ℕ) (s : Scene D) (lx ly : D) (us : List ℕ)
        → visible_views n s.shown s.shown.views ≡ some us
        → phoc_desktop_surface_at F W n s lx ly
          ≡ some (
              first_hit s
                (coords (W.layout_output_at lx ly) lx ly)
                lx
                ly
                (order (W.layout_output_at lx ly) s us))
    unfolding phoc_desktop_surface_at
    phoc_desktop_surface_at_lem n s lx ly us e =
        on_output-nearest (W.layout_output_at lx ly) n s lx ly us e
