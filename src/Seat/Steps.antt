-- ===== src/Seat/Steps.antt =====
-- src/seat.c: the operations on the focus of a seat in any order, and what they keep.
use phoc.Prelude.{◌⊎◌, inl, inr, ℕ, ◌≡◌, Bool, true, false, not, List, [], ◌∷◌, Option, some}
use phoc.View.State.{Numbers}
use phoc.Seat.State.{World, Outside}
use phoc.Seat.Focus.{
  phoc_seat_set_focus, move_to_end, cycle_views, phoc_seat_cycle_focus, seat_view_destroy,
  phoc_seat_set_focus_layer, phoc_seat_set_exclusive_client,
}
use phoc.Seat.Spec.{focus_state, IsValid, to_end-IsValid}
use phoc.Seat.Invariant.{
  Safe, Safe-some, Safe-bind, Safe-if, set_focus-Safe, set_focus_layer-Safe, seat_view_destroy-Safe,
}
use phoc.Seat.Released.{
  Careful, IsValid-IsKept, phoc_seat_set_exclusive_client-IsExclusive,
  phoc_seat_set_exclusive_client-IsValid,
}
use phoc.Seat.Exclusive.{IsExclusive, IsExclusive-IsKept}

module _ {D : Type 0} where
  module _ (F : Numbers D) (E : Outside D) where
    -- When they are free, the operations include phoc_seat_cycle_focus, and a client may get all input to itself
    -- while arrange_layers gives the focus to another.
    pub data Step (free : Bool) : World D → World D → Type 0 where
      focuses :
          (n : ℕ) (v : Option ℕ) (w t : World D)
          → phoc_seat_set_focus F E n v w ≡ some t
          → Step free w t
      focuses_layer :
          (k n : ℕ) (l : Option ℕ) (w t : World D)
          → phoc_seat_set_focus_layer F E k n l w ≡ some t
          → Step free w t
      destroys : (n v : ℕ) (w t : World D) → seat_view_destroy F E n v w ≡ some t → Step free w t
      excludes :
          (k n : ℕ) (c : Option ℕ) (w t : World D)
          → (free ≡ true) ⊎ Careful F E c
          → phoc_seat_set_exclusive_client F E k n c w ≡ some t
          → Step free w t
      cycles :
          (n : ℕ) (w t : World D)
          → free ≡ true
          → phoc_seat_cycle_focus F E n w ≡ some t
          → Step free w t

    pub data Steps (free : Bool) : World D → World D → Type 0 where
      done : (w : World D) → Steps free w w
      next : (w t u : World D) → Step free w t → Steps free t u → Steps free w u

    cycle_views-IsValid :
        (n : ℕ) (vs : List ℕ) (w : World D)
        → IsValid (focus_state w)
        → Safe IsValid (cycle_views F E n vs w)
    cycle_views-IsValid n [] w i = Safe-some IsValid w i
    cycle_views-IsValid n (a ∷ []) w i =
        Safe-if IsValid (not w.seat.has_focus) _ (some w)
          (λ _. set_focus-Safe IsValid F E (IsValid-IsKept E) n (some a) w i)
          (λ _. Safe-some IsValid w i)
    cycle_views-IsValid n (a ∷ b ∷ vs) w i =
        Safe-if IsValid (not w.seat.has_focus) _ _
          (λ _. set_focus-Safe IsValid F E (IsValid-IsKept E) n (some a) w i)
          (λ _.
            Safe-bind IsValid IsValid (phoc_seat_set_focus F E n (some b) w) _
              (set_focus-Safe IsValid F E (IsValid-IsKept E) n (some b) w i)
              (λ t p. Safe-some IsValid (move_to_end a t) (to_end-IsValid a (focus_state t) p)))

    Step-IsValid :
        (m : Bool) (w t : World D) → Step m w t → IsValid (focus_state w) → IsValid (focus_state t)
    unfolding phoc_seat_cycle_focus
    Step-IsValid m w t (focuses n v r u e) i =
        set_focus-Safe IsValid F E (IsValid-IsKept E) n v r i u e
    Step-IsValid m w t (focuses_layer k n l r u e) i =
        set_focus_layer-Safe IsValid F E (IsValid-IsKept E) k n l r i u e
    Step-IsValid m w t (destroys n v r u e) i =
        seat_view_destroy-Safe IsValid F E (IsValid-IsKept E) n v r i u e
    Step-IsValid m w t (excludes k n c r u q e) i =
        phoc_seat_set_exclusive_client-IsValid F E k n c r i u e
    Step-IsValid m w t (cycles n r u _ e) i = cycle_views-IsValid n r.seat.views r i u e

    -- Whatever operations on the focus follow one another, no view is twice on a seat's list, no view
    -- has the focus while a layer surface holds it, and a seat without views has no focus.
    pub Steps-IsValid :
        (m : Bool) (w t : World D) → Steps m w t → IsValid (focus_state w) → IsValid (focus_state t)
    Steps-IsValid m w t (done u) i = i
    Steps-IsValid m w t (next r u x p q) i = Steps-IsValid m u x q (Step-IsValid m r u p i)

    Step-IsExclusive :
        (w t : World D)
        → Step false w t
        → IsExclusive E (focus_state w)
        → IsExclusive E (focus_state t)
    Step-IsExclusive w t (focuses n v r u e) i =
        set_focus-Safe (IsExclusive E) F E (IsExclusive-IsKept E) n v r i u e
    Step-IsExclusive w t (focuses_layer k n l r u e) i =
        set_focus_layer-Safe (IsExclusive E) F E (IsExclusive-IsKept E) k n l r i u e
    Step-IsExclusive w t (destroys n v r u e) i =
        seat_view_destroy-Safe (IsExclusive E) F E (IsExclusive-IsKept E) n v r i u e
    Step-IsExclusive w t (excludes k n c r u (inr q) e) i =
        phoc_seat_set_exclusive_client-IsExclusive F E k n c r q u e
    Step-IsExclusive w t (excludes k n c r u (inl q) e) i = cc q
    Step-IsExclusive w t (cycles n r u f e) i = cc f

    Steps-keep :
        (w t : World D)
        → Steps false w t
        → IsExclusive E (focus_state w)
        → IsExclusive E (focus_state t)
    Steps-keep w t (done u) i = i
    Steps-keep w t (next r u x p q) i = Steps-keep u x q (Step-IsExclusive r u p i)

    -- Once phoc_seat_set_exclusive_client has returned, and through all operations on the focus but
    -- phoc_seat_cycle_focus, a view or a layer surface with the focus belongs to the exclusive client: each
    -- time a client is made the exclusive one, the layer surfaces that arrange_layers would focus are its own.
    pub Steps-IsExclusive :
        (k n : ℕ) (o : Option ℕ) (w t u : World D)
        → Careful F E o
        → phoc_seat_set_exclusive_client F E k n o w ≡ some t
        → Steps false t u
        → IsExclusive E (focus_state u)
    Steps-IsExclusive k n o w t u q e p =
        Steps-keep t u p (phoc_seat_set_exclusive_client-IsExclusive F E k n o w q t e)
