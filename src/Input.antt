-- ===== src/Input.antt =====
-- src/input.c and, of src/seat.c, what it reads of a seat: the list of seats. A wlr_seat and a view are
-- numbers; `create` is what wlr_seat_create and the cursor's set-up return for a name.
pub mod Seats
mod Tests
use Prim.Native.String.{String}
use text.Mathlib.Text.{◌==◌ as str_eq}
use phoc.Prelude.{
  ℕ, Bool, true, false, ◌&&◌, List, [], ◌∷◌, Option, none, some, ltb, ◌==◌, if◌then◌else◌,
}

pub record Seat : Type 0 where
  pub name : String  -- seat->seat->name
  pub wlr_seat : ℕ  -- seat->seat
  pub views : List ℕ
  pub has_focus : Bool
  pub tv_sec : ℕ  -- seat->seat->last_event
  pub tv_nsec : ℕ

abbrev pub first : List ℕ → Option ℕ
first [] = none
first (v ∷ vs) = some v

-- phoc_seat_get_focus
unfoldable pub phoc_seat_get_focus : Seat → Option ℕ
phoc_seat_get_focus s = if s.has_focus then first s.views else none

abbrev pub is_view : ℕ → Option ℕ → Bool
is_view v none = false
is_view v (some w) = v == w

unfoldable pub view_focused_by : List Seat → ℕ → Bool
view_focused_by [] v = false
view_focused_by (s ∷ ss) v =
    if is_view v (phoc_seat_get_focus s) then true else view_focused_by ss v

-- A NULL view has no focus.
unfoldable pub phoc_input_view_has_focus : List Seat → Option ℕ → Bool
phoc_input_view_has_focus seats none = false
phoc_input_view_has_focus seats (some v) = view_focused_by seats v

abbrev pub new_seat : String → ℕ → Seat
new_seat name w = record {
  name = name;
  wlr_seat = w;
  views = [];
  has_focus = false;
  tv_sec = 0;
  tv_nsec = 0;
}

-- The seat is put at the head of the list; it has no views.
unfoldable pub phoc_seat_create : (String → Option ℕ) → String → List Seat → Option Seat × List Seat
phoc_seat_create create name seats = elim (create name) [
  | none ↦ (none, seats)
  | some w ↦ (some (new_seat name w), new_seat name w ∷ seats)
]

abbrev pub find_name : String → List Seat → Option Seat
find_name name [] = none
find_name name (s ∷ ss) = if str_eq s.name name then some s else find_name name ss

unfoldable pub phoc_input_get_seat :
    (String → Option ℕ) → String → List Seat → Option Seat × List Seat
unfolding phoc_seat_create
phoc_input_get_seat create name seats = elim (find_name name seats) [
  | some s ↦ (some s, seats)
  | none ↦ phoc_seat_create create name seats
]

-- A pointer to a seat: NULL, a seat, or the list's head taken for one.
pub data SeatPointer : Type 0 where
  null list_head : SeatPointer
  seat : Seat → SeatPointer

-- The loop, with its variable: where it runs to its end it has set the variable to the list's head.
abbrev pub seat_loop : List Seat → ℕ → SeatPointer → SeatPointer
seat_loop [] w variable = list_head
seat_loop (s ∷ ss) w variable = if s.wlr_seat == w then seat s else seat_loop ss w (seat s)

unfoldable pub phoc_input_seat_from_wlr_seat : List Seat → ℕ → SeatPointer
phoc_input_seat_from_wlr_seat seats w = seat_loop seats w null

-- Whether a seat's last event is later than another's by both parts of the time.
abbrev pub later : Seat → Seat → Bool
later s t = ltb t.tv_sec s.tv_sec && ltb t.tv_nsec s.tv_nsec

abbrev pub pick : Seat → List Seat → Seat
pick s [] = s
pick s (t ∷ ts) = pick (if later s t then t else s) ts

unfoldable pub input_last_active_seat : List Seat → Option Seat
input_last_active_seat [] = none
input_last_active_seat (s ∷ ss) = some (pick s ss)
