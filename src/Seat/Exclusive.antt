-- ===== src/Seat/Exclusive.antt =====
-- phoc_seat_set_exclusive_client of src/seat.c: from then on the focus is with that client only.
use phoc.Prelude.{
  ℕ, zero, suc, leb, ◌≡◌, refl, sym, ◌∙◌, ap, subst, inl, inr, Bool, true, false, not, List, [],
  ◌∷◌, Option, none, some, some-injective, if◌then◌else◌, Option-elim, ◌==◌, ==_iff, arith,
  Bool-cases,
}
use phoc.View.State.{Numbers}
use phoc.Input.{phoc_seat_get_focus}
use phoc.Seat.State.{
  World, Outside, arranges_layers, tell, phoc_seat_allow_input, focus_of, is_exclusive,
}
use phoc.Seat.Focus.{
  layer_top, enter_layer, unfocus_view, focus_topmost, clear_focus, phoc_seat_set_focus,
  focus_first, unfocus_layer, arrange_all, release_layer, release_view, phoc_seat_set_focus_layer,
}
use phoc.Seat.Spec.{Focus, focus_state, is_free}
use phoc.Seat.Invariant.{
  unfocus_view-Safe, current, dropped, layered, IsKept, Safe, Safe-none, Safe-some, Safe-bind,
  Safe-if,
}
use phoc.Seat.Outcome.{clear_focus-state}
use phoc.Seat.Focused.{set_focus_either}

has_first : (b : Bool) (v u : ℕ) → (if b then some v else none) ≡ some u → v ≡ u
has_first true v u e = some-injective v u e
has_first false v u e = cc e

current-dropped :
    (v u : ℕ) (b : Bool) (vs : List ℕ) (f : Focus)
    → current (dropped v (record f { has_focus = b; views = vs })) ≡ some u
    → current (record f { has_focus = b; views = vs }) ≡ some u
current-dropped v u false vs f e = e
current-dropped v u true [] f e = e
current-dropped v u true (w ∷ ws) f e = elim (Bool-cases (v == w)) [
  | inl h ↦ cc (rw h at e)
  | inr h ↦ ground (arith, e, h)
]

module _ {D : Type 0} (E : Outside D) where
  -- A client that has all input to itself has the focus, if anyone has it.
  pub record IsExclusive (f : Focus) : Type 0 where
    pub view : (c v : ℕ) → f.client ≡ some c → current f ≡ some v → E.client_of v ≡ c
    pub layer : (c l : ℕ) → f.client ≡ some c → f.layer ≡ some l → E.layer_client l ≡ c

  is_exclusive-same : (o : Option ℕ) (a c : ℕ) → is_exclusive o a ≡ true → o ≡ some c → a ≡ c
  is_exclusive-same none a c e h = cc h
  is_exclusive-same (some b) a c e h = (==_iff a b).0 e ∙ some-injective b c h

  on_layer :
      (b : Bool) (l : ℕ) (f : Focus)
      → is_exclusive f.client (E.layer_client l) ≡ true
      → IsExclusive f
      → (c m : ℕ) → f.client ≡ some c
      → (layered b l f).layer ≡ some m
      → E.layer_client m ≡ c
  on_layer true l f a i c m h k =
      subst (λ a. E.layer_client a ≡ c) (some-injective l m k)
        (is_exclusive-same f.client (E.layer_client l) c a h)
  on_layer false l f a i c m h k = i.layer c m h k

  pub IsExclusive-IsKept : IsKept E IsExclusive
  IsExclusive-IsKept = record {
    on = λ v f a i. record {
      view = λ c u h k.
          subst (λ a. E.client_of a ≡ c) (has_first (is_free f.layer) v u k)
            (is_exclusive-same f.client (E.client_of v) c a h);
      layer = i.layer;
    };
    off = λ f i. record { view = λ c u h k. cc k; layer = i.layer };
    drop = λ v f i. record {
      view = λ c u h k. i.view c u h (current-dropped v u f.has_focus f.views f k);
      layer = i.layer;
    };
    no_layer = λ f i. record { view = i.view; layer = λ c l h k. cc k };
    on_layer = λ b l f a i. record { view = λ c u h k. cc k; layer = on_layer b l f a i };
  }

  -- The focused layer surface belongs to the client, or there is none.
  abbrev pub LayerOf : ℕ → Focus → Type 0
  LayerOf c f = (l : ℕ) → f.layer ≡ some l → E.layer_client l ≡ c

  abbrev pub AllOf : ℕ → Focus → Type 0
  AllOf c f = LayerOf c f × ((v : ℕ) → current f ≡ some v → E.client_of v ≡ c)

  -- The layer surfaces that arrange_layers would give the focus to are the client's.
  abbrev pub Quiet : ℕ → Type 0
  Quiet c = (o l : ℕ) → E.topmost o ≡ some l → E.layer_client l ≡ c

  abbrev pub NoLayer : Focus → Type 0
  NoLayer f = f.layer ≡ none

  module _ (F : Numbers D) where
    set_focus-NoLayer :
        (n : ℕ) (o : Option ℕ) (w : World D)
        → w.focused_layer ≡ none
        → Safe NoLayer (phoc_seat_set_focus F E n o w)
    unfolding phoc_seat_set_focus
    set_focus-NoLayer n none w h t e =
        Safe-some NoLayer (clear_focus w) (ap (λ (f : Focus). f.layer) (clear_focus-state w) ∙ h) t
          e
    set_focus-NoLayer n (some v) w h t e = elim (set_focus_either F E n v w t e) [
      | inl same ↦ ap (λ (f : Focus). f.layer) same ∙ h
      | inr (on, allowed) ↦ ap (λ (f : Focus). f.layer) on ∙ h
    ]

    pub focus_first-NoLayer :
        (n : ℕ) (vs : List ℕ) (w : World D)
        → w.focused_layer ≡ none
        → Safe NoLayer (focus_first F E n vs w)
    focus_first-NoLayer n [] w = set_focus-NoLayer n none w
    focus_first-NoLayer n (v ∷ vs) w = set_focus-NoLayer n (some v) w

    layered-LayerOf :
        (c l : ℕ) (b : Bool) (f : Focus)
        → E.layer_client l ≡ c
        → LayerOf c f
        → LayerOf c (layered b l f)
    layered-LayerOf c l true f a h m k = subst (λ d. E.layer_client d ≡ c) (some-injective l m k) a
    layered-LayerOf c l false f a h m k = h m k

    enter_layer-LayerOf :
        (c l : ℕ) (w : World D)
        → E.layer_client l ≡ c
        → LayerOf c (focus_state w)
        → LayerOf c (focus_state (enter_layer F E l w))
    enter_layer-LayerOf c l w a h = elim (Bool-cases (leb layer_top (E.layer_of l))) [
      | inl e ↦ rw e (layered-LayerOf c l true (focus_state w) a h)
      | inr e ↦ rw e (layered-LayerOf c l false (focus_state w) a h)
    ]

    focus_topmost-LayerOf :
        (c : ℕ) (again : World D → Option (World D)) (o : Option ℕ) (w : World D)
        → ((l : ℕ) → o ≡ some l → E.layer_client l ≡ c)
        → ((t : World D) → Safe (LayerOf c) (again t))
        → LayerOf c (focus_state w)
        → Safe (LayerOf c) (focus_topmost F E again o w)
    focus_topmost-LayerOf c again none w q g h = g w
    focus_topmost-LayerOf c again (some l) w q g h =
        Safe-if (LayerOf c) (not (phoc_seat_allow_input w (E.layer_client l))) (some w) _
          (λ _. Safe-some (LayerOf c) w h)
          (λ _.
            Safe-bind (LayerOf c) (LayerOf c) (unfocus_view (focus_of w) w) _
              (unfocus_view-Safe (LayerOf c) (focus_of w) w h)
              (λ t r.
                Safe-some (LayerOf c) (enter_layer F E l t)
                  (enter_layer-LayerOf c l t (q l refl) r)))

    arrange_all-LayerOf :
        (c : ℕ) (again : World D → Option (World D)) (os : List ℕ) (w : World D)
        → Quiet c
        → ((t : World D) → Safe (LayerOf c) (again t))
        → LayerOf c (focus_state w)
        → Safe (LayerOf c) (arrange_all F E again os w)
    arrange_all-LayerOf c again [] w q g h = Safe-some (LayerOf c) w h
    arrange_all-LayerOf c again (o ∷ os) w q g h =
        Safe-bind (LayerOf c) (LayerOf c)
          (focus_topmost F E again (E.topmost o) (tell (arranges_layers o) w)) _
          (focus_topmost-LayerOf c again (E.topmost o) (tell (arranges_layers o) w) (q o) g h)
          (λ t r. arrange_all-LayerOf c again os t q g r)

    unfocus_layer-LayerOf :
        (c k n : ℕ) (w : World D) → Quiet c → Safe (LayerOf c) (unfocus_layer F E k n w)
    unfolding unfocus_layer
    unfocus_layer-LayerOf c zero n w q =
        Option-elim (Safe (LayerOf c)) w.focused_layer (some w) _
          (λ e. Safe-some (LayerOf c) w (λ l r. cc (sym e ∙ r))) (λ l _. Safe-none (LayerOf c))
    unfocus_layer-LayerOf c (suc k) n w q =
        Option-elim (Safe (LayerOf c)) w.focused_layer (some w) _
          (λ e. Safe-some (LayerOf c) w (λ l r. cc (sym e ∙ r)))
          (λ l _.
            Safe-bind (LayerOf c) NoLayer (focus_first F E n w.seat.views _) _
              (focus_first-NoLayer n w.seat.views (record w { focused_layer = none }) refl)
              (λ t r.
                arrange_all-LayerOf c (unfocus_layer F E k n) t.desktop.outputs t q
                  (λ u. unfocus_layer-LayerOf c k n u q) (λ m x. cc (sym r ∙ x))))

    pub release_layer-LayerOf :
        (k n c : ℕ) (o : Option ℕ) (w : World D)
        → Quiet c
        → w.focused_layer ≡ o
        → Safe (LayerOf c) (release_layer F E k n c o w)
    unfolding phoc_seat_set_focus_layer
    release_layer-LayerOf k n c none w q e = Safe-some (LayerOf c) w (λ l r. cc (sym e ∙ r))
    release_layer-LayerOf k n c (some l) w q e =
        Safe-if (LayerOf c) (not (E.layer_client l == c)) _ (some w)
          (λ _. unfocus_layer-LayerOf c k n w q)
          (λ h. Safe-some (LayerOf c) w (λ m x.
            subst (λ a. E.layer_client a ≡ c) (some-injective l m (sym e ∙ x)) (ground (arith, h))))

    pub release_view-AllOf :
        (n c : ℕ) (o : Option ℕ) (w : World D)
        → focus_of w ≡ o
        → LayerOf c (focus_state w)
        → Safe (AllOf c) (release_view F E n c o w)
    unfolding phoc_seat_set_focus phoc_seat_get_focus
    release_view-AllOf n c none w e h =
        Safe-if (AllOf c) w.seat.has_focus none (some w) (λ _. Safe-none (AllOf c))
          (λ _. Safe-some (AllOf c) w (h, λ v k. cc (sym e ∙ k)))
    release_view-AllOf n c (some u) w e h =
        Safe-if (AllOf c) (not (w.desktop.view_of u).mapped) none _ (λ _. Safe-none (AllOf c))
          (λ _.
            Safe-if (AllOf c) (not (E.client_of u == c)) _ (some w)
              (λ _.
                Safe-some (AllOf c) (clear_focus w)
                  (subst (AllOf c) (sym (clear_focus-state w)) (h, λ v k. cc k)))
              (λ k. Safe-some (AllOf c) w (
                h,
                λ v k'.
                    subst (λ a. E.client_of a ≡ c) (some-injective u v (sym e ∙ k'))
                      (ground (arith, k)),
              )))
