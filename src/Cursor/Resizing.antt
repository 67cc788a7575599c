-- ===== src/Cursor/Resizing.antt =====
-- src/cursor.c: the edge opposite to the one that is dragged.
use phoc.Prelude.{
  ℕ, ◌≡◌, refl, sym, ◌∙◌, ap, subst, ◌⊎◌, inl, inr, true, false, ◌||◌, Option, if◌then◌else◌,
  if-elim,
}
use phoc.Prelude.Int.{int_laws, ℤ, pos, negsuc, ◌+ℤ◌, ◌-ℤ◌, ◌≤ℤ◌, ◌<ℤ◌, ltb_ℤ, eqb_ℤ, ltb_ℤ-cases}
use phoc.View.State.{Numbers, View, view_is_fullscreen, view_get_geometry}
use phoc.View.Exact.{IsExact}
use phoc.Seat.State.{cursor_resize, view_get_box}
use phoc.Cursor.{
  Edges, pointer_clear_focus, set_cursor_resize, Cursor, say, touched, mark, is_placed,
  begin_resize, measure, phoc_seat_begin_resize,
}
use phoc.Cursor.Motion.{drag_start, drag_axis, at_least_one, gone_x, resize_x}

-- Where the far edge ends up: it stays, or, where nothing would be left of the window, it goes one on.
abbrev pub FarEdge : ℤ → ℤ → ℤ → ℤ → Type 0
FarEdge edge left x width =
    ((pos 1 ≤ℤ left) × (x +ℤ width ≡ edge))
    ⊎ ((left <ℤ pos 1) × (width ≡ pos 1) × (x +ℤ width ≡ edge +ℤ pos 1))

-- The place and the size in integers.
abbrev start_dragged : ℤ → ℤ → ℤ → ℤ → ℤ × ℤ
start_dragged at size d g =
    let x = (at +ℤ d) -ℤ g in
    let left = size -ℤ d in if ltb_ℤ left (pos 1) then (x +ℤ left, left) else (x, left)

abbrev Ends : ℤ → ℤ → ℤ × ℤ → Type 0
Ends edge left (x, width) = FarEdge edge left x (if ltb_ℤ width (pos 1) then pos 1 else width)

stays : (at size d g : ℤ) → ((at +ℤ d) -ℤ g) +ℤ (size -ℤ d) ≡ (at -ℤ g) +ℤ size
stays at size d g = grind int_laws

gone_ints : (p d : ℤ) → (p +ℤ d) -ℤ p ≡ d
gone_ints p d = grind int_laws

back : (b g : ℤ) → (b +ℤ g) -ℤ g ≡ b
back b g = grind int_laws

one_on :
    (at size d g : ℤ) → (((at +ℤ d) -ℤ g) +ℤ (size -ℤ d)) +ℤ pos 1 ≡ ((at -ℤ g) +ℤ size) +ℤ pos 1
one_on at size d g = ap (λ a. a +ℤ pos 1) (stays at size d g)

start_dragged-Ends :
    (at size d g : ℤ) → Ends ((at -ℤ g) +ℤ size) (size -ℤ d) (start_dragged at size d g)
start_dragged-Ends at size d g = elim (ltb_ℤ-cases (size -ℤ d) (pos 1)) [
  | inl (h, k) ↦ rw (h, h) (inr (k, refl, one_on at size d g))
  | inr (h, k) ↦ rw (h, h) (inl (k, stays at size d g))
]

module _ {D : Type 0} (F : Numbers D) (exact : IsExact F) where
  drag_start-ints :
      (at size d g : ℤ)
      → drag_start F at size (F.of_int d) (F.of_int g)
        ≡ (F.of_int (start_dragged at size d g).0, (start_dragged at size d g).1)
  drag_start-ints at size d g = elim (ltb_ℤ-cases (size -ℤ d) (pos 1)) [
    | inl (h, k) ↦ rw (exact.add, exact.sub, exact.sub, exact.to_int, h, exact.add) refl
    | inr (h, k) ↦ rw (exact.add, exact.sub, exact.sub, exact.to_int, h) refl
  ]

  gone_by :
      (p d : ℤ)
      → F.sub (F.add (F.of_int p) (F.of_int d)) (F.of_int (F.to_int (F.of_int p))) ≡ F.of_int d
  gone_by p d = rw (exact.to_int, exact.add, exact.sub) (ap F.of_int (gone_ints p d))

  taken_off : (b g : ℤ) → F.to_int (F.add (F.of_int b) (F.of_int g)) -ℤ g ≡ b
  taken_off b g = rw (exact.add, exact.to_int) (back b g)

  resize_x-FarEdge :
      (view : View D) (c : Cursor D) (d g : ℤ)
      → c.resize_edges.left ≡ true
      → gone_x F c ≡ F.of_int d
      → F.mul (F.of_int (view_get_geometry F view).x) view.scale ≡ F.of_int g
      → FarEdge
          ((c.view_x -ℤ g) +ℤ c.view_width)
          (c.view_width -ℤ d)
          (F.to_int (resize_x F view c).0)
          (at_least_one F (resize_x F view c).1)
  unfolding drag_axis
  resize_x-FarEdge view c d g left gone geom =
      rw (left, gone, geom, drag_start-ints, exact.to_int)
        (start_dragged-Ends c.view_x c.view_width d g)

  module _ (warp : D → D → D × D) (get_output : View D → Option ℕ) where
    pub untouched : (c : Cursor D) → eqb_ℤ c.touch_id (negsuc 0) ≡ true → touched F warp c ≡ c
    untouched c e =
        if-elim (λ r. r ≡ c) (eqb_ℤ c.touch_id (negsuc 0)) c _ (λ _. refl) (λ k. cc (e, k))

    -- What begins for a view that keeps its box, without a touch point.
    abbrev measured : ℕ → Edges → Cursor D → Cursor D
    measured v edges c = say (set_cursor_resize edges) (
        say pointer_clear_focus
          (measure F warp get_output (view_get_geometry F (c.desktop.view_of v)) v edges c))

    begun :
        (v : ℕ) (edges : Edges) (c : Cursor D)
        → (c.desktop.maximize || view_is_fullscreen (c.desktop.view_of v)) ≡ false
        → is_placed F warp get_output (c.desktop.view_of v) ≡ false
        → eqb_ℤ c.touch_id (negsuc 0) ≡ true
        → phoc_seat_begin_resize F warp get_output v edges c
          ≡ measured v edges (mark F warp cursor_resize c)
    unfolding phoc_seat_begin_resize
    begun v edges c allowed floating mouse =
        if-elim (λ r. r ≡ measured v edges (mark F warp cursor_resize c))
          (c.desktop.maximize || view_is_fullscreen (c.desktop.view_of v)) c _
          (λ k. cc (allowed, k))
          (λ _.
            ap (λ t. begin_resize F warp get_output v edges (mark F warp cursor_resize t))
              (untouched c mouse)
            ∙ ap
                (λ t. say (set_cursor_resize edges) (
                  say pointer_clear_focus (
                    measure F warp get_output (view_get_geometry F (c.desktop.view_of v)) v edges
                      t)))
                (if-elim (λ t. t ≡ mark F warp cursor_resize c)
                  (is_placed F warp get_output (c.desktop.view_of v)) _
                  (mark F warp cursor_resize c) (λ k. cc (floating, k)) (λ _. refl)))

    -- The pointer has gone on by whole numbers.
    abbrev pub dragged : ℤ → ℤ → Cursor D → Cursor D
    dragged dx dy c = record c { x = F.add c.x (F.of_int dx); y = F.add c.y (F.of_int dy) }

    measured-FarEdge :
        (v : ℕ) (edges : Edges) (c : Cursor D) (px dx dy g : ℤ)
        → edges.left ≡ true
        → c.x ≡ F.of_int px
        → F.mul (F.of_int (view_get_geometry F (c.desktop.view_of v)).x) (c.desktop.view_of v).scale
          ≡ F.of_int g
        → FarEdge
            ((c.desktop.view_of v).box.x +ℤ (view_get_box F (c.desktop.view_of v)).width)
            ((view_get_box F (c.desktop.view_of v)).width -ℤ dx)
            (F.to_int
              (resize_x F
                (c.desktop.view_of v)
                (dragged dx dy (measured v edges (mark F warp cursor_resize c)))).0)
            (at_least_one F
              (resize_x F
                (c.desktop.view_of v)
                (dragged dx dy (measured v edges (mark F warp cursor_resize c)))).1)
    measured-FarEdge v edges c px dx dy g left at geom =
        let t = dragged dx dy (measured v edges (mark F warp cursor_resize c)) in
        let view = c.desktop.view_of v in
        let gone : gone_x F t ≡ F.of_int dx =
          ap (λ a. F.sub (F.add a (F.of_int dx)) (F.of_int (F.to_int a))) at ∙ gone_by px dx in
        let begins : t.view_x -ℤ g ≡ view.box.x =
          ap (λ a. F.to_int (F.add (F.of_int view.box.x) a) -ℤ g) geom ∙ taken_off view.box.x g in
        subst
          (λ a.
            FarEdge (a +ℤ t.view_width) (t.view_width -ℤ dx) (F.to_int (resize_x F view t).0)
              (at_least_one F (resize_x F view t).1))
          begins (resize_x-FarEdge view t dx g left gone geom)

    -- A view that is not maximised, tiled or fullscreen is resized with the mouse from its left edge, by
    -- any whole distance: while something is left of its width, its right edge stays where it was. If
    -- nothing would be left, the view is one wide and its right edge stands one further right than it
    -- did. This is where the arithmetic of the doubles is exact on integers.
    pub phoc_seat_begin_resize-FarEdge :
        (v : ℕ) (edges : Edges) (c : Cursor D) (px dx dy g : ℤ)
        → (c.desktop.maximize || view_is_fullscreen (c.desktop.view_of v)) ≡ false
        → is_placed F warp get_output (c.desktop.view_of v) ≡ false
        → eqb_ℤ c.touch_id (negsuc 0) ≡ true
        → edges.left ≡ true
        → c.x ≡ F.of_int px
        → F.mul (F.of_int (view_get_geometry F (c.desktop.view_of v)).x) (c.desktop.view_of v).scale
          ≡ F.of_int g
        → FarEdge
            ((c.desktop.view_of v).box.x +ℤ (view_get_box F (c.desktop.view_of v)).width)
            ((view_get_box F (c.desktop.view_of v)).width -ℤ dx)
            (F.to_int
              (resize_x F
                (c.desktop.view_of v)
                (dragged dx dy (phoc_seat_begin_resize F warp get_output v edges c))).0)
            (at_least_one F
              (resize_x F
                (c.desktop.view_of v)
                (dragged dx dy (phoc_seat_begin_resize F warp get_output v edges c))).1)
    phoc_seat_begin_resize-FarEdge v edges c px dx dy g allowed floating mouse left at geom =
        subst
          (λ t.
            FarEdge ((c.desktop.view_of v).box.x +ℤ (view_get_box F (c.desktop.view_of v)).width)
              ((view_get_box F (c.desktop.view_of v)).width -ℤ dx)
              (F.to_int (resize_x F (c.desktop.view_of v) (dragged dx dy t)).0)
              (at_least_one F (resize_x F (c.desktop.view_of v) (dragged dx dy t)).1))
          (sym (begun v edges c allowed floating mouse))
          (measured-FarEdge v edges c px dx dy g left at geom)
