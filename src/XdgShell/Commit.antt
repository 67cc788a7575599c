-- ===== src/XdgShell/Commit.antt =====
-- handle_surface_commit of src/xdg_shell.c after move_resize: where the view comes to stand.
use phoc.Prelude.{
  ℕ, ◌≡◌, refl, sym, ◌∙◌, ap, subst, inl, inr, Bool, true, false, not, Option, ltb, leb, ==_refl,
  if-elim,
}
use phoc.Prelude.Int.{ℤ, eqb_ℤ, eqb_ℤ-cases}
use phoc.LayerShell.Geometry.{Box}
use phoc.View.State.{Numbers, View, Desktop, put_view}
use phoc.View.Scale.{view_update_scale, view_update_size}
use phoc.XdgShell.{
  XdgToplevel, XdgSurface, constrained, set_size, to_move_resize, move_resize, committed_at,
  place_pending, follow_geometry, handle_surface_commit,
}
use phoc.View.Exact.{IsExact, view_update_position-box}
use phoc.XdgShell.Edges.{KeepsEdge, axis_kept}

eqb_same : (a b : ℤ) → a ≡ b → eqb_ℤ a b ≡ true
eqb_same a b e = elim (eqb_ℤ-cases a b) [ inl (h, f) ↦ h | inr (h, n) ↦ absurd (n e) ]

module _ {D : Type 0} (F : Numbers D) (exact : IsExact F) where
  module _ (get_output : View D → Option ℕ) (seated : Bool) (cursor_output : Option ℕ) where
    view_update_size-view :
        (v : ℕ) (width height : ℤ) (s : Desktop D)
        → (s.view_of v).pending_centering ≡ false
        → (view_update_size F get_output seated cursor_output false v width height s).view_of v
          ≡ record (s.view_of v) {
            box = record (s.view_of v).box { width = width; height = height };
          }
    unfolding view_update_size view_update_scale
    view_update_size-view v width height s c = elim (eqb_ℤ-cases (s.view_of v).box.width width) [
      | inl (h, e) ↦ elim (eqb_ℤ-cases (s.view_of v).box.height height) [
        | inl (k, f) ↦ rw (h, k) (cc (e, f))
        | inr (k, f) ↦ rw (h, k, ==_refl v, c) (rw (==_refl v) refl)
      ]
      | inr (h, e) ↦ rw (h, ==_refl v, c) (rw (==_refl v) refl)
    ]

    place_pending-box :
        (t : XdgToplevel) (v : ℕ) (surface : XdgSurface) (s : Desktop D)
        → ltb 0 surface.pending_move_resize_configure_serial ≡ true
        → leb t.configure_serial surface.pending_move_resize_configure_serial ≡ true
        → ((place_pending F t v surface s).view_of v).box ≡ record (s.view_of v).box {
          x = F.to_int (
              committed_at F
                (s.view_of v).pending_move_resize.update_x
                (s.view_of v).pending_move_resize.x
                (s.view_of v).pending_move_resize.width
                t.geometry.width
                (s.view_of v).box.x);
          y = F.to_int (
              committed_at F
                (s.view_of v).pending_move_resize.update_y
                (s.view_of v).pending_move_resize.y
                (s.view_of v).pending_move_resize.height
                t.geometry.height
                (s.view_of v).box.y);
        }
    place_pending-box t v surface s h k = rw (h, k) (view_update_position-box F v _ _ s)

    follow_geometry-same :
        (saved g : Box) (v : ℕ) (s : Desktop D)
        → saved.x ≡ g.x
        → saved.y ≡ g.y
        → follow_geometry F saved g v s ≡ s
    follow_geometry-same saved g v s e f = rw (eqb_same saved.x g.x e, eqb_same saved.y g.y f) refl

    -- Where the commit of the state `t` puts a view.
    abbrev placed : XdgToplevel → View D → Box
    placed t u =
        let p = u.pending_move_resize in
        record {
          x = F.to_int (committed_at F p.update_x p.x p.width t.geometry.width u.box.x);
          y = F.to_int (committed_at F p.update_y p.y p.height t.geometry.height u.box.y);
          width = t.geometry.width;
          height = t.geometry.height;
        }

    commit-box :
        (t : XdgToplevel) (v : ℕ) (surface : XdgSurface) (s : Desktop D)
        → t.mapped ≡ true
        → ltb 0 surface.pending_move_resize_configure_serial ≡ true
        → leb t.configure_serial surface.pending_move_resize_configure_serial ≡ true
        → surface.saved_geometry.x ≡ t.geometry.x
        → surface.saved_geometry.y ≡ t.geometry.y
        → (s.view_of v).pending_centering ≡ false
        → ((handle_surface_commit F get_output seated cursor_output t false v surface s).1.view_of
            v).box
          ≡ placed t (s.view_of v)
    unfolding handle_surface_commit
    commit-box t v surface s mapped new late gx gy c =
        let g = t.geometry in
        let sized = view_update_size F get_output seated cursor_output false v g.width g.height s in
        rw mapped (
          ap (λ (d : Desktop D). (d.view_of v).box)
            (follow_geometry-same surface.saved_geometry g v (place_pending F t v surface sized) gx
              gy)
          ∙ place_pending-box t v surface sized new late
          ∙ ap (λ (u : View D). record (placed t u) { width = u.box.width; height = u.box.height })
              (view_update_size-view v g.width g.height s c))

    abbrev requested : XdgToplevel → ℕ → ℤ → ℤ → ℕ → ℕ → Desktop D → Desktop D
    requested t v x y w h s =
        put_view v
          (record (s.view_of v) {
            pending_move_resize = to_move_resize F t v (F.of_int x) (F.of_int y) w h (s.view_of v);
          })
          s

    abbrev waiting : ℕ → ℕ → ℕ → XdgSurface → XdgSurface
    waiting serial w h surface = record (set_size w h surface) {
      pending_move_resize_configure_serial = serial;
    }

    move_resize-requested :
        (t : XdgToplevel) (serial v : ℕ) (x y : ℤ) (w h : ℕ) (surface : XdgSurface) (s : Desktop D)
        → t.is_toplevel ≡ true
        → ltb 0 serial ≡ true
        → move_resize F t serial v (F.of_int x) (F.of_int y) w h surface s ≡ (
          waiting serial
              (constrained t.min_width t.max_width w)
              (constrained t.min_height t.max_height h)
              surface,
          requested t v x y w h s,
        )
    unfolding move_resize
    move_resize-requested t serial v x y w h surface s top new =
        let asked : XdgSurface × Desktop D = (
          waiting serial (constrained t.min_width t.max_width w)
              (constrained t.min_height t.max_height h) surface,
          requested t v x y w h s,
        ) in
        if-elim (λ r. r ≡ asked) (not t.is_toplevel) _ _ (λ k. cc (k, top))
          (λ _. if-elim (λ r. r ≡ asked) (ltb 0 serial) _ _ (λ _. refl) (λ k. cc (k, new)))

    -- The box of a view that was moved and resized, once the client has committed the state `t'`.
    abbrev pub committed_box :
        XdgToplevel → XdgToplevel → ℕ → ℕ → ℤ → ℤ → ℕ → ℕ → XdgSurface → Desktop D → Box
    committed_box t t' serial v x y w h surface s =
        let (surface', s') = move_resize F t serial v (F.of_int x) (F.of_int y) w h surface s in
        ((handle_surface_commit F get_output seated cursor_output t' false v surface' s').1.view_of
          v).box

    -- A toplevel that is moved and resized, and whose client commits with that configure or an earlier
    -- one (which is what the code accepts): the box has the size that the client has taken, and along each axis it begins where it did,
    -- or, if that was to change, it ends where it was asked to end, whatever the limits of the size are
    -- and whatever size the client has taken. This is without scaling to fit, for a client whose
    -- geometry begins where it did and a view that does not wait to be centred, where the arithmetic
    -- of the doubles is exact on integers.
    pub resize-KeepsEdge :
        (t t' : XdgToplevel) (serial v : ℕ) (x y : ℤ) (w h : ℕ) (surface : XdgSurface)
        (s : Desktop D)
        → t.is_toplevel ≡ true
        → ltb 0 serial ≡ true
        → t'.mapped ≡ true
        → leb t'.configure_serial serial ≡ true
        → surface.saved_geometry.x ≡ t'.geometry.x
        → surface.saved_geometry.y ≡ t'.geometry.y
        → (s.view_of v).pending_centering ≡ false
        → KeepsEdge
            (s.view_of v).box.x
            x
            w
            (committed_box t t' serial v x y w h surface s).x
            t'.geometry.width
          × KeepsEdge
              (s.view_of v).box.y
              y
              h
              (committed_box t t' serial v x y w h surface s).y
              t'.geometry.height
          × ((committed_box t t' serial v x y w h surface s).width ≡ t'.geometry.width)
          × ((committed_box t t' serial v x y w h surface s).height ≡ t'.geometry.height)
    unfolding move_resize handle_surface_commit
    resize-KeepsEdge t t' serial v x y w h surface s top new mapped late gx gy c =
        let p = to_move_resize F t v (F.of_int x) (F.of_int y) w h (s.view_of v) in
        let u = record (s.view_of v) { pending_move_resize = p } in
        let asked : (requested t v x y w h s).view_of v ≡ u = rw (==_refl v) refl in
        let box : committed_box t t' serial v x y w h surface s ≡ placed t' u =
          ap
            (λ (r : XdgSurface × Desktop D).
              ((handle_surface_commit F get_output seated cursor_output t' false v r.0
                  r.1).1.view_of
                v).box)
            (move_resize-requested t serial v x y w h surface s top new)
          ∙ commit-box t' v (waiting serial p.width p.height surface) (requested t v x y w h s)
              mapped new late gx gy (ap (λ (a : View D). a.pending_centering) asked ∙ c)
          ∙ ap (placed t') asked in
        subst
          (λ (b : Box).
            KeepsEdge (s.view_of v).box.x x w b.x t'.geometry.width
            × KeepsEdge (s.view_of v).box.y y h b.y t'.geometry.height
            × (b.width ≡ t'.geometry.width)
            × (b.height ≡ t'.geometry.height))
          (sym box)
          (
            axis_kept F exact (s.view_of v).box.x x w p.width t'.geometry.width,
            axis_kept F exact (s.view_of v).box.y y h p.height t'.geometry.height,
            refl,
            refl,
          )
