-- ===== src/Input/Tests.antt =====
-- Two seats, for src/input.c.
use Prim.Native.String.{String}
use phoc.Prelude.{ℕ, ◌≡◌, refl, true, false, List, [], ◌∷◌, Option, some}
use phoc.Input.{
  Seat, new_seat, phoc_input_get_seat, phoc_input_seat_from_wlr_seat, input_last_active_seat,
}
use phoc.Input.Seats.{
  NoneOlder, input_last_active_seat_lem, Pointed, OneOf, phoc_input_seat_from_wlr_seat_lem,
}

-- The first seat was active later than the second.
abbrev main_seat : Seat
main_seat = record {
  name = "seat0";
  wlr_seat = 1;
  views = 5 ∷ 6 ∷ [];
  has_focus = true;
  tv_sec = 100;
  tv_nsec = 900;
}

abbrev idle_seat : Seat
idle_seat = record {
  name = "seat1";
  wlr_seat = 2;
  views = 6 ∷ [];
  has_focus = false;
  tv_sec = 40;
  tv_nsec = 300;
}

abbrev seats : List Seat
seats = main_seat ∷ idle_seat ∷ []

abbrev create : String → Option ℕ
create name = some 7

third :
    phoc_input_get_seat create "seat2" seats
    ≡ (some (new_seat "seat2" 7), new_seat "seat2" 7 ∷ seats)
unfolding phoc_input_get_seat
third = refl

-- The seat that was not used for longer is the one that is found.
idle_found : input_last_active_seat seats ≡ some idle_seat
unfolding input_last_active_seat
idle_found = refl

input_last_active_seat_example : OneOf idle_seat seats × NoneOlder idle_seat seats
input_last_active_seat_example = input_last_active_seat_lem seats idle_seat idle_found

phoc_input_seat_from_wlr_seat_example : Pointed seats 9 (phoc_input_seat_from_wlr_seat seats 9)
phoc_input_seat_from_wlr_seat_example = phoc_input_seat_from_wlr_seat_lem seats 9
