-- ===== src/Seat/Released.antt =====
-- phoc_seat_set_exclusive_client of src/seat.c: who loses the focus, and what stays as it was.
use phoc.Prelude.{
  ℕ, ◌≡◌, refl, sym, ◌∙◌, ap, subst, Bool, true, false, not, List, [], ◌∷◌, Option, none, some,
  some-injective, ◌==◌, arith,
}
use phoc.View.State.{Numbers}
use phoc.View.Fullscreen.{without}
use phoc.Seat.State.{
  TouchPoint, World, Outside, pointer_clear_focus, touch_point_clear_focus, focus_of,
}
use phoc.Seat.Focus.{
  clear_touch_points, release_pointer, release_layer, release_view, phoc_seat_set_exclusive_client,
}
use phoc.Seat.Same.{SameFocus, SameFocus-refl, SameFocus-trans, tell_if-SameFocus}
use phoc.Seat.Spec.{
  Focus, focus_state, Distinct-without, IsValid, focus_on-IsValid, unfocused-IsValid,
  SameFocus-state,
}
use phoc.Seat.Invariant.{
  dropped, IsKept, Safe, Safe-none, Safe-some, Safe-bind, Safe-if, set_focus-Safe,
  set_focus_layer-Safe, arrange_layers-Safe,
}
use phoc.Seat.Exclusive.{
  Quiet, IsExclusive, LayerOf, AllOf, release_layer-LayerOf, release_view-AllOf,
}

kept_if_free :
    (v : ℕ) (b : Bool) (vs : List ℕ) (f : Focus)
    → without v vs ≡ []
    → (vs ≡ [] → b ≡ false)
    → (dropped v (record f { has_focus = b; views = vs })).has_focus ≡ false
kept_if_free v false vs f e h = ground arith
kept_if_free v true [] f e h = cc (h refl)
kept_if_free v true (w ∷ ws) f e h = ground (arith, e)

pub dropped-IsValid : (v : ℕ) (f : Focus) → IsValid f → IsValid (dropped v f)
dropped-IsValid v f i = record {
  distinct = Distinct-without v f.views i.distinct;
  blocked = λ l e. ground (arith, i.blocked l e);
  focused = λ e. kept_if_free v f.has_focus f.views f e i.focused;
}

abbrev NoClient : Focus → Type 0
NoClient f = f.client ≡ none

module _ {D : Type 0} where
  clear_touch_points-SameFocus :
      (c : ℕ) (ps : List TouchPoint) (w : World D) → SameFocus w (clear_touch_points c ps w)
  clear_touch_points-SameFocus c [] w = SameFocus-refl w
  clear_touch_points-SameFocus c (p ∷ ps) w =
      SameFocus-trans w _ _ (tell_if-SameFocus _ (touch_point_clear_focus p.touch_id) w)
        (clear_touch_points-SameFocus c ps _)

  release_pointer-SameFocus :
      (c : ℕ) (o : Option ℕ) (w : World D) → SameFocus w (release_pointer c o w)
  release_pointer-SameFocus c none w = SameFocus-refl w
  release_pointer-SameFocus c (some p) w = tell_if-SameFocus (not (p == c)) pointer_clear_focus w

  released-state :
      (c : ℕ) (o : Option ℕ) (ps : List TouchPoint) (w : World D)
      → focus_state (clear_touch_points c ps (release_pointer c o w)) ≡ focus_state w
  released-state c o ps w = SameFocus-state w _ (
      SameFocus-trans w _ _ (release_pointer-SameFocus c o w) (clear_touch_points-SameFocus c ps _))

  pub IsValid-IsKept : (E : Outside D) → IsKept E IsValid
  IsValid-IsKept E = record {
    on = λ v f _ i. focus_on-IsValid v f i;
    off = unfocused-IsValid;
    drop = dropped-IsValid;
    no_layer = λ f i. record { distinct = i.distinct; blocked = λ l e. cc e; focused = i.focused };
    on_layer =
        λ b l f _ i. record { distinct = i.distinct; blocked = λ m e. refl; focused = λ e. refl };
  }

  module _ (F : Numbers D) (E : Outside D) where
    -- What the client is given once the others have been sent away.
    abbrev pub given_to : ℕ → World D → World D
    given_to c w =
        record (clear_touch_points c E.touch_points (release_pointer c E.pointer_client w)) {
          exclusive_client = some c;
        }

    pub given_to-state :
        (c : ℕ) (w : World D)
        → focus_state (given_to c w) ≡ record (focus_state w) { client = some c }
    given_to-state c w =
        ap (λ (f : Focus). record f { client = some c })
          (released-state c E.pointer_client E.touch_points w)

    only :
        (c : ℕ) (w : World D)
        → AllOf E c (focus_state w)
        → IsExclusive E (focus_state (given_to c w))
    only c w (p, q) = subst (IsExclusive E) (sym (given_to-state c w)) (record {
      view = λ a v h k. q v k ∙ some-injective c a h;
      layer = λ a l h k. p l k ∙ some-injective c a h;
    })

    -- Of what the client must be careful: arrange_layers gives the focus to nobody else.
    abbrev pub Careful : Option ℕ → Type 0
    Careful none = Unit
    Careful (some c) = Quiet E c

    NoClient-IsKept : IsKept E NoClient
    NoClient-IsKept = record {
      on = λ v f a p. p;
      off = λ f p. p;
      drop = λ v f p. p;
      no_layer = λ f p. p;
      on_layer = λ b l f a p. p;
    }

    pub phoc_seat_set_exclusive_client-IsExclusive :
        (k n : ℕ) (o : Option ℕ) (w : World D)
        → Careful o
        → Safe (IsExclusive E) (phoc_seat_set_exclusive_client F E k n o w)
    unfolding phoc_seat_set_exclusive_client
    phoc_seat_set_exclusive_client-IsExclusive k n none w q = λ t e.
        let free =
          arrange_layers-Safe NoClient F E NoClient-IsKept k n w.desktop.outputs
            (record w { exclusive_client = none }) refl t e in
        record { view = λ c v h x. cc (sym free ∙ h); layer = λ c l h x. cc (sym free ∙ h) }
    phoc_seat_set_exclusive_client-IsExclusive k n (some c) w q =
        Safe-bind (IsExclusive E) (LayerOf E c) (release_layer F E k n c w.focused_layer w) _
          (release_layer-LayerOf E F k n c w.focused_layer w q refl)
          (λ t p.
            Safe-bind (IsExclusive E) (AllOf E c) (release_view F E n c (focus_of t) t) _
              (release_view-AllOf E F n c (focus_of t) t refl p)
              (λ u r. Safe-some (IsExclusive E) _ (only c u r)))

    release_layer-IsValid :
        (k n c : ℕ) (o : Option ℕ) (w : World D)
        → IsValid (focus_state w)
        → Safe IsValid (release_layer F E k n c o w)
    release_layer-IsValid k n c none w i = Safe-some IsValid w i
    release_layer-IsValid k n c (some l) w i =
        Safe-if IsValid (not (E.layer_client l == c)) _ (some w)
          (λ _. set_focus_layer-Safe IsValid F E (IsValid-IsKept E) k n none w i)
          (λ _. Safe-some IsValid w i)

    release_view-IsValid :
        (n c : ℕ) (o : Option ℕ) (w : World D)
        → IsValid (focus_state w)
        → Safe IsValid (release_view F E n c o w)
    release_view-IsValid n c none w i =
        Safe-if IsValid w.seat.has_focus none (some w) (λ _. Safe-none IsValid)
          (λ _. Safe-some IsValid w i)
    release_view-IsValid n c (some u) w i =
        Safe-if IsValid (not (w.desktop.view_of u).mapped) none _ (λ _. Safe-none IsValid)
          (λ _.
            Safe-if IsValid (not (E.client_of u == c)) _ (some w)
              (λ _. set_focus-Safe IsValid F E (IsValid-IsKept E) n none w i)
              (λ _. Safe-some IsValid w i))

    with_client : (o : Option ℕ) (f : Focus) → IsValid f → IsValid (record f { client = o })
    with_client o f i = record { distinct = i.distinct; blocked = i.blocked; focused = i.focused }

    pub phoc_seat_set_exclusive_client-IsValid :
        (k n : ℕ) (o : Option ℕ) (w : World D)
        → IsValid (focus_state w)
        → Safe IsValid (phoc_seat_set_exclusive_client F E k n o w)
    unfolding phoc_seat_set_exclusive_client
    phoc_seat_set_exclusive_client-IsValid k n none w i =
        arrange_layers-Safe IsValid F E (IsValid-IsKept E) k n w.desktop.outputs
          (record w { exclusive_client = none }) (with_client none (focus_state w) i)
    phoc_seat_set_exclusive_client-IsValid k n (some c) w i =
        Safe-bind IsValid IsValid (release_layer F E k n c w.focused_layer w) _
          (release_layer-IsValid k n c w.focused_layer w i)
          (λ t p.
            Safe-bind IsValid IsValid (release_view F E n c (focus_of t) t) _
              (release_view-IsValid n c (focus_of t) t p)
              (λ u q. Safe-some IsValid (given_to c u) (
                subst IsValid (sym (given_to-state c u)) (with_client (some c) (focus_state u) q))))
