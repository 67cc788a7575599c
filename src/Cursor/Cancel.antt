-- ===== src/Cursor/Cancel.antt =====
-- src/seat.c: phoc_seat_end_compositor_grab after phoc_seat_begin_move.
use phoc.Prelude.{ℕ, ◌≡◌, refl, ◌∙◌, ap, true, false, Option, some, if-elim}
use phoc.Prelude.Int.{ℤ, negsuc, ◌+ℤ◌, eqb_ℤ}
use phoc.View.State.{Numbers, View, view_is_fullscreen, view_get_geometry}
use phoc.View.Exact.{IsExact, view_move-box}
use phoc.Seat.State.{cursor_move}
use phoc.Cursor.{
  pointer_clear_focus, set_cursor_move, Cursor, say, mark, is_placed, place_view, begin_move,
  phoc_seat_begin_move, phoc_seat_end_compositor_grab,
}
use phoc.Cursor.Resizing.{untouched}

module _ {D : Type 0} (F : Numbers D) (exact : IsExact F) where
  put_on : (b g : ℤ) (a : D) → a ≡ F.of_int g → F.to_int (F.add (F.of_int b) a) ≡ b +ℤ g
  put_on b g a e = ap (λ i. F.to_int (F.add (F.of_int b) i)) e ∙ rw (exact.add, exact.to_int) refl

  module _ (warp : D → D → D × D) (get_output : View D → Option ℕ) where
    abbrev lifted : ℕ → Cursor D → Cursor D
    lifted v c =
        say set_cursor_move
          (say pointer_clear_focus (place_view F warp get_output v (mark F warp cursor_move c)))

    picked_up :
        (v : ℕ) (c : Cursor D)
        → c.desktop.maximize ≡ false
        → is_placed F warp get_output (c.desktop.view_of v) ≡ false
        → eqb_ℤ c.touch_id (negsuc 0) ≡ true
        → phoc_seat_begin_move F warp get_output v c ≡ lifted v c
    unfolding phoc_seat_begin_move
    picked_up v c free floating mouse =
        if-elim (λ r. r ≡ lifted v c) c.desktop.maximize c _ (λ k. cc (free, k))
          (λ _.
            ap (λ t. begin_move F warp get_output v (mark F warp cursor_move t))
              (untouched F exact warp get_output c mouse)
            ∙ ap (λ t. say set_cursor_move (say pointer_clear_focus t))
                (if-elim (λ t. t ≡ place_view F warp get_output v (mark F warp cursor_move c))
                  (is_placed F warp get_output (c.desktop.view_of v)) _
                  (place_view F warp get_output v (mark F warp cursor_move c))
                  (λ k. cc (floating, k)) (λ _. refl)))

    -- The move of a view is cancelled: phoc_seat_end_compositor_grab does not take off the offset of the
    -- geometry that phoc_seat_begin_move has added, so that the view stands by this offset further right
    -- and down than before the move. This is for a floating view that the mouse has picked up, whose
    -- shell does not move it itself, where the arithmetic of the doubles is exact on integers.
    pub phoc_seat_end_compositor_grab-begin_move :
        (v : ℕ) (c : Cursor D) (g h : ℤ)
        → c.desktop.maximize ≡ false
        → is_placed F warp get_output (c.desktop.view_of v) ≡ false
        → view_is_fullscreen (c.desktop.view_of v) ≡ false
        → eqb_ℤ c.touch_id (negsuc 0) ≡ true
        → (c.desktop.view_of v).impl.has_move ≡ false
        → F.mul (F.of_int (view_get_geometry F (c.desktop.view_of v)).x) (c.desktop.view_of v).scale
          ≡ F.of_int g
        → F.mul (F.of_int (view_get_geometry F (c.desktop.view_of v)).y) (c.desktop.view_of v).scale
          ≡ F.of_int h
        → ((phoc_seat_end_compositor_grab F warp
              (some v)
              (phoc_seat_begin_move F warp get_output v c)).desktop.view_of
            v).box
          ≡ record (c.desktop.view_of v).box {
            x = (c.desktop.view_of v).box.x +ℤ g;
            y = (c.desktop.view_of v).box.y +ℤ h;
          }
    unfolding phoc_seat_end_compositor_grab
    phoc_seat_end_compositor_grab-begin_move v c g h free floating windowed mouse still gx gy =
        let view = c.desktop.view_of v in
        ap (λ t. ((phoc_seat_end_compositor_grab F warp (some v) t).desktop.view_of v).box)
          (picked_up v c free floating mouse)
        ∙ if-elim
            (λ (t : Cursor D).
              (t.desktop.view_of v).box
              ≡ record view.box { x = view.box.x +ℤ g; y = view.box.y +ℤ h })
            (view_is_fullscreen view) _ _ (λ k. cc (k, windowed))
            (λ _.
              view_move-box F exact v _ _ c.desktop still
              ∙ cc (put_on view.box.x g _ gx, put_on view.box.y h _ gy))
