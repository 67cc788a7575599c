-- ===== src/Input/Seats.antt =====
-- What the searches of src/input.c for a seat find, and input_last_active_seat of src/seat.c.
use Prim.Native.String.{String}
use text.Mathlib.TextPositions.{eq_refl}
use phoc.Prelude.{
  ℕ, ◌≡◌, refl, ap, ◌≢◌, ◌⊎◌, inl, inr, ◌↔◌, true, false, List, [], ◌∷◌, ◌++◌, Option, none, some,
  ◌==◌, ==_iff, ◌≤◌, subst, some-injective, if◌then◌else◌, arith, if-elim, Bool-cases, Option-cases,
}
use phoc.Input.{
  Seat, phoc_seat_get_focus, is_view, view_focused_by, phoc_input_view_has_focus, phoc_seat_create,
  new_seat, find_name, phoc_input_get_seat, SeatPointer, seat, list_head, null, seat_loop,
  phoc_input_seat_from_wlr_seat, later, pick, input_last_active_seat,
}

-- Asking again gives the same, and the list has at most one seat more.
abbrev Again : (String → Option ℕ) → String → List Seat → List Seat → Seat → Type 0
Again create name seats ss t =
    (phoc_input_get_seat create name ss ≡ (some t, ss)) × ((ss ≡ seats) ⊎ (ss ≡ t ∷ seats))

abbrev pair : Seat → List Seat → Option Seat × List Seat
pair s ss = (some s, ss)

Again-pair :
    (create : String → Option ℕ) (name : String) (seats ss ss' : List Seat) (t s : Seat)
    → pair t ss ≡ pair s ss'
    → Again create name seats ss t
    → Again create name seats ss' s
Again-pair create name seats ss ss' t s p a =
    subst (λ u. Again create name seats u s) (ap (λ (p : Option Seat × List Seat). p.1) p)
      (subst (λ u. Again create name seats ss u)
        (some-injective t s (ap (λ (p : Option Seat × List Seat). p.0) p)) a)

found-Again :
    (create : String → Option ℕ) (name : String) (seats seats' : List Seat) (t s : Seat)
    → find_name name seats ≡ some t
    → pair t seats ≡ pair s seats'
    → Again create name seats seats' s
unfolding phoc_input_get_seat
found-Again create name seats seats' t s h p =
    Again-pair create name seats seats seats' t s p (rw (phoc_input_get_seat, h) refl, inl refl)

made-Again :
    (create : String → Option ℕ) (name : String) (seats seats' : List Seat) (w : ℕ) (s : Seat)
    → find_name name seats ≡ none
    → pair (new_seat name w) (new_seat name w ∷ seats) ≡ pair s seats'
    → Again create name seats seats' s
unfolding phoc_input_get_seat
made-Again create name seats seats' w s h p =
    Again-pair create name seats (new_seat name w ∷ seats) seats' (new_seat name w) s p
      (rw (phoc_input_get_seat, eq_refl name) refl, inr refl)

-- Asking for a seat by its name a second time gives the same seat and makes no new one; the first time
-- at most one is added, at the head, and all the others stay.
pub phoc_input_get_seat_lem :
    (create : String → Option ℕ) (name : String) (seats seats' : List Seat) (s : Seat)
    → phoc_input_get_seat create name seats ≡ (some s, seats')
    → (phoc_input_get_seat create name seats' ≡ (some s, seats'))
      × ((seats' ≡ seats) ⊎ (seats' ≡ s ∷ seats))
unfolding phoc_input_get_seat phoc_seat_create
phoc_input_get_seat_lem create name seats seats' s e = elim (Option-cases (find_name name seats)) [
  | inr (t, h) ↦ found-Again create name seats seats' t s h (rw (phoc_input_get_seat, h) at e)
  | inl h ↦ elim (Option-cases (create name)) [
    | inl k ↦ cc (
        ap (λ (p : Option Seat × List Seat). p.0)
          (rw (phoc_input_get_seat, h, phoc_seat_create, k) at e))
    | inr (w, k) ↦
        made-Again create name seats seats' w s h
          (rw (phoc_input_get_seat, h, phoc_seat_create, k) at e)
  ]
]

-- A list without a seat that was active before the given one, by both parts of the time.
abbrev pub NoneOlder : Seat → List Seat → Type 0
NoneOlder s [] = Unit
NoneOlder s (t ∷ ts) = (later s t ≡ false) × NoneOlder s ts

abbrev NotAfter : Seat → Seat → Type 0
NotAfter s t = (s.tv_sec ≤ t.tv_sec) × (s.tv_nsec ≤ t.tv_nsec)

pick-NotAfter : (s : Seat) (ts : List Seat) → NotAfter (pick s ts) s
pick-NotAfter s [] = omega arith
pick-NotAfter s (t ∷ ts) = ground (arith, pick-NotAfter (if later s t then t else s) ts)

pick-NoneOlder : (s : Seat) (ts : List Seat) → NoneOlder (pick s ts) ts
pick-NoneOlder s [] = tt
pick-NoneOlder s (t ∷ ts) =
    let n = if later s t then t else s in (ground (arith, pick-NotAfter n ts), pick-NoneOlder n ts)

abbrev pub OneOf : Seat → List Seat → Type 0
OneOf s [] = ⊥
OneOf s (t ∷ ts) = (s ≡ t) ⊎ OneOf s ts

one_among : (u s t : Seat) (ts : List Seat) → OneOf u (s ∷ ts) → OneOf u (s ∷ t ∷ ts)
one_among u s t ts (inl e) = inl e
one_among u s t ts (inr h) = inr (inr h)

pick-OneOf : (s : Seat) (ts : List Seat) → OneOf (pick s ts) (s ∷ ts)
pick-OneOf s [] = inl refl
pick-OneOf s (t ∷ ts) =
    if-elim (λ u. OneOf (pick u ts) (s ∷ t ∷ ts)) (later s t) t s (λ _. inr (pick-OneOf t ts))
      (λ _. one_among (pick s ts) s t ts (pick-OneOf s ts))

-- The seat that input_last_active_seat finds is one of the list's, and compared with it no seat of the list
-- has both fewer seconds and fewer nanoseconds in the time of its last event.
pub input_last_active_seat_lem :
    (seats : List Seat) (s : Seat)
    → input_last_active_seat seats ≡ some s
    → OneOf s seats × NoneOlder s seats
unfolding input_last_active_seat
input_last_active_seat_lem [] s e = cc
input_last_active_seat_lem (t ∷ ts) s e =
    subst (λ u. OneOf u (t ∷ ts) × NoneOlder u (t ∷ ts)) (some-injective (pick t ts) s e)
      (pick-OneOf t ts, (ground (arith, pick-NotAfter t ts), pick-NoneOlder t ts))

-- No seat of the list has the wlr_seat.
abbrev pub Without : ℕ → List Seat → Type 0
Without w [] = Unit
Without w (s ∷ ss) = (s.wlr_seat ≢ w) × Without w ss

-- A seat has the wlr_seat, and none before it.
abbrev pub FirstWith : ℕ → Seat → List Seat → Type 0
FirstWith w t seats =
    (before : List Seat) × (behind : List Seat) × (seats ≡ before ++ t ∷ behind)
    × Without w before
    × (t.wlr_seat ≡ w)

abbrev pub Pointed : List Seat → ℕ → SeatPointer → Type 0
Pointed seats w p =
    ((t : Seat) × (p ≡ seat t) × FirstWith w t seats) ⊎ (Without w seats × (p ≡ list_head))

one_more :
    (s : Seat) (ss : List Seat) (w : ℕ) (p : SeatPointer)
    → s.wlr_seat ≢ w
    → Pointed ss w p
    → Pointed (s ∷ ss) w p
one_more s ss w p n (inl (t, e, (before, behind, q, r, x))) =
    inl (t, e, (s ∷ before, behind, ap (λ us. s ∷ us) q, (n, r), x))
one_more s ss w p n (inr (q, e)) = inr ((n, q), e)

seat_loop-Pointed :
    (seats : List Seat) (w : ℕ) (variable : SeatPointer)
    → Pointed seats w (seat_loop seats w variable)
seat_loop-Pointed [] w variable = inr (tt, refl)
seat_loop-Pointed (s ∷ ss) w variable = elim (Bool-cases (s.wlr_seat == w)) [
  | inl e ↦ rw e (inl (s, refl, ([], ss, refl, tt, (==_iff s.wlr_seat w).0 e)))
  | inr e ↦ rw e (
      one_more s ss w (seat_loop ss w (seat s)) (ground (arith, e))
        (seat_loop-Pointed ss w (seat s)))
]

-- What is returned is the first seat that has the wlr_seat; when no seat has it, it is the head of the
-- list taken for a seat.
pub phoc_input_seat_from_wlr_seat_lem :
    (seats : List Seat) (w : ℕ) → Pointed seats w (phoc_input_seat_from_wlr_seat seats w)
unfolding phoc_input_seat_from_wlr_seat
phoc_input_seat_from_wlr_seat_lem seats w = seat_loop-Pointed seats w null

-- A seat of the list has its focus on the view.
abbrev pub HasFocus : List Seat → ℕ → Type 0
HasFocus [] v = ⊥
HasFocus (s ∷ ss) v = (phoc_seat_get_focus s ≡ some v) ⊎ HasFocus ss v

is_view-focus : (v : ℕ) (o : Option ℕ) → (is_view v o ≡ true) ↔ (o ≡ some v)
is_view-focus v o = ground arith

-- A view has the focus just if it is the first one of a seat that has a focus.
pub phoc_input_view_has_focus_lem :
    (seats : List Seat) (v : ℕ)
    → (phoc_input_view_has_focus seats (some v) ≡ true) ↔ HasFocus seats v
unfolding phoc_input_view_has_focus view_focused_by
phoc_input_view_has_focus_lem [] v = ground arith
phoc_input_view_has_focus_lem (s ∷ ss) v =
    ground (arith, is_view-focus v (phoc_seat_get_focus s), phoc_input_view_has_focus_lem ss v)
