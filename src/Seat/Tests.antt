-- ===== src/Seat/Tests.antt =====
-- A seat with two windows and a dialog, for src/seat.c.
use phoc.Prelude.{
  ℕ, ◌≡◌, refl, Bool, true, false, List, [], ◌∷◌, ◌++◌, Option, none, some, ◌==◌, if◌then◌else◌,
  arith, Bool-cases, inl, inr, ◌<◌, subst, some-injective,
}
use phoc.Prelude.Int.{ℤ}
use phoc.View.State.{View, Desktop}
use phoc.View.Examples.{integers, window, outputs}
use phoc.Input.{Seat, phoc_seat_get_focus}
use phoc.Seat.State.{
  set_has_focus, on_desktop, cursor_passthrough, World, Outside, focus_of, phoc_seat_allow_input,
}
use phoc.Seat.Stack.{reorder, seat_raise_view_stack, raise_view}
use phoc.Seat.Focus.{
  has, phoc_seat_set_focus, phoc_seat_cycle_focus, seat_view_destroy, phoc_seat_set_focus_layer,
  phoc_seat_set_exclusive_client,
}
use phoc.Seat.Spec.{focus_state, IsValid}
use phoc.Seat.Raised.{IsRanked}
use phoc.Seat.Total.{Focuses, phoc_seat_set_focus_total}
use phoc.Seat.Focused.{phoc_seat_set_focus_lem}
use phoc.Seat.Told.{leaving, entering}
use phoc.Seat.Heard.{phoc_seat_set_focus-notices}
use phoc.Seat.Cycle.{CanCycle, Turns, phoc_seat_cycle_focus_lem}
use phoc.Seat.Rounds.{cycles, Reaches, cycles-around, cycles_reach}
use phoc.Seat.Exclusive.{IsExclusive}
use phoc.Seat.Steps.{focuses, Steps, done, next, Steps-IsValid, Steps-IsExclusive}
use phoc.Seat.Arranged.{with_layer, phoc_seat_set_focus_layer-endless}
use phoc.Seat.Refused.{cycle_refused, seat_view_destroy_lem}

abbrev windows : ℕ → View ℤ
windows i =
    if i == 1
    then record (window none none) { stack = 2 ∷ [] }
    else if i == 2
    then window none (some 1)
    else window none none

abbrev seat_of : List ℕ → Bool → Seat
seat_of vs b = record {
  name = "seat0";
  wlr_seat = 7;
  views = vs;
  has_focus = b;
  tv_sec = 0;
  tv_nsec = 0;
}

abbrev world : World ℤ
world = record {
  desktop = record {
    view_of = windows;
    output_of = outputs;
    views = 1 ∷ 2 ∷ 3 ∷ [];
    outputs = 0 ∷ [];
    maximize = true;
    calls = [];
  };
  seat = seat_of (1 ∷ 3 ∷ []) true;
  others = [];
  app_id = λ v. none;
  focused_layer = none;
  exclusive_client = none;
  mode = cursor_passthrough;
  pointer_view = none;
  tablet_pads = some 5 ∷ [];
  notices = [];
}

-- The client of a window has the number of the window.
abbrev outside : Outside ℤ
outside = record {
  client_of = λ v. v;
  layer_client = λ l. l;
  layer_of = λ l. 3;
  topmost = λ o. none;
  override_redirect = λ v. false;
  wants_focus = λ v. true;
  intersects = λ o b. true;
  get_output = λ v. some 0;
  has_keyboard = true;
  pointer_client = none;
  touch_points = [];
  has_memory = true;
}

abbrev or_world : Option (World ℤ) → World ℤ
or_world none = world
or_world (some w) = w

abbrev height : ℕ → ℕ
height i = if i == 1 then 1 else 0

world-IsValid : IsValid (focus_state world)
world-IsValid = record { distinct = (refl, (refl, tt)); blocked = λ l e. cc e; focused = λ e. cc e }

only_dialog : (v p : ℕ) → (windows v).parent ≡ some p → height v < height p
only_dialog v p e = elim (Bool-cases (v == 1)) [
  | inl h ↦ cc (rw h at e)
  | inr h ↦ elim (Bool-cases (v == 2)) [
    | inl k ↦
        subst (λ a. height v < height a) (some-injective 1 p (rw (h, k) at e)) (rw h (omega arith))
    | inr k ↦ cc (rw (h, k) at e)
  ]
]

only_window : (v c : ℕ) → has c (windows v).stack ≡ true → height c < height v
only_window v c e = elim (Bool-cases (v == 1)) [
  | inl h ↦
      let dialog : 2 ≡ c = ground (arith, rw h at e) in
      rw h (subst (λ a. height a < 1) dialog (omega arith))
  | inr h ↦ elim (Bool-cases (v == 2)) [ inl k ↦ cc (rw (h, k) at e) | inr k ↦ cc (rw (h, k) at e) ]
]

all_mapped : (v : ℕ) → has v world.seat.views ≡ true → (world.desktop.view_of v).mapped ≡ true
all_mapped v e = ground arith

world-IsRanked : IsRanked height 2 world.desktop
world-IsRanked = record { bound = λ v. ground arith; up = only_dialog; down = only_window }

-- The third window gets the focus.
abbrev focused : World ℤ
focused = or_world (phoc_seat_set_focus integers outside 2 (some 3) world)

sets_focus : phoc_seat_set_focus integers outside 2 (some 3) world ≡ some focused
unfolding phoc_seat_set_focus raise_view reorder seat_raise_view_stack phoc_seat_allow_input
sets_focus = refl

phoc_seat_set_focus_example :
    focus_state focused ≡ record (focus_state world) { views = 3 ∷ 1 ∷ [] }
unfolding phoc_seat_allow_input
phoc_seat_set_focus_example =
    phoc_seat_set_focus_lem integers outside 2 3 world focused world-IsValid refl refl sets_focus

phoc_seat_set_focus_total_example :
    Focuses integers outside height 2 world (phoc_seat_set_focus integers outside 2 (some 2) world)
phoc_seat_set_focus_total_example =
    phoc_seat_set_focus_total integers outside height 2 2 world world-IsRanked refl

phoc_seat_set_focus-notices_example :
    (d : Desktop ℤ) × (raise_view integers outside (world.seat ∷ []) 2 3 world.desktop ≡ some d)
    × (focused.notices
        ≡ []
          ++ (leaving (some 1) (set_has_focus false (on_desktop d world))
              ++ entering true 3 (on_desktop d world)))
unfolding phoc_seat_get_focus phoc_seat_allow_input
phoc_seat_set_focus-notices_example =
    phoc_seat_set_focus-notices integers outside 2 3 world focused refl refl refl refl sets_focus

world-CanCycle : CanCycle outside height 2 world
unfolding phoc_seat_allow_input
world-CanCycle = record {
  valid = world-IsValid;
  ranked = world-IsRanked;
  focused = refl;
  mapped = all_mapped;
  allowed = λ v e. refl;
  wanted = λ v e. refl;
  memory = refl;
}

phoc_seat_cycle_focus_example :
    Turns outside height 2 world (phoc_seat_cycle_focus integers outside 2 world)
phoc_seat_cycle_focus_example =
    phoc_seat_cycle_focus_lem outside height 2 integers world world-CanCycle

cycles-around_example : Reaches integers outside height 2 2 world (focus_state world)
cycles-around_example = cycles-around integers outside height 2 world world-CanCycle

cycles_reach_example :
    (k : ℕ) × (k < 2)
    × (t : World ℤ) × (cycles integers outside height 2 k world ≡ some t)
    × (focus_of t ≡ some 3)
cycles_reach_example = cycles_reach integers outside height 2 3 world world-CanCycle refl

focused-Steps : Steps integers outside true world focused
focused-Steps =
    next world focused focused (focuses 2 (some 3) world focused sets_focus) (done focused)

Steps-IsValid_example : IsValid (focus_state focused)
Steps-IsValid_example =
    Steps-IsValid integers outside true world focused focused-Steps world-IsValid

-- The third window's client takes all input: the first window loses the focus.
abbrev excluded : World ℤ
excluded = or_world (phoc_seat_set_exclusive_client integers outside 1 2 (some 3) world)

sets_exclusive : phoc_seat_set_exclusive_client integers outside 1 2 (some 3) world ≡ some excluded
unfolding phoc_seat_set_exclusive_client phoc_seat_set_focus phoc_seat_get_focus
sets_exclusive = refl

Steps-IsExclusive_example : IsExclusive outside (focus_state excluded)
Steps-IsExclusive_example =
    Steps-IsExclusive integers outside 1 2 (some 3) world excluded excluded (λ o l e. cc e)
      sets_exclusive (done excluded)

-- The first window's client has all input to itself.
abbrev exclusive : World ℤ
exclusive = record world { exclusive_client = some 1 }

cycle_refused_example :
    (t : World ℤ) × (phoc_seat_cycle_focus integers outside 2 exclusive ≡ some t)
    × (focus_of t ≡ some 3)
    × (t.notices ≡ [])
unfolding phoc_seat_allow_input
cycle_refused_example = cycle_refused integers outside 2 1 3 [] exclusive refl refl refl refl

abbrev closed : World ℤ
closed = or_world (seat_view_destroy integers outside 2 1 world)

closes : seat_view_destroy integers outside 2 1 world ≡ some closed
unfolding seat_view_destroy phoc_seat_set_focus raise_view reorder seat_raise_view_stack
    phoc_seat_get_focus phoc_seat_allow_input
closes = refl

seat_view_destroy_example :
    focus_state closed ≡ record (focus_state world) { views = 3 ∷ []; has_focus = true }
seat_view_destroy_example =
    seat_view_destroy_lem integers outside 2 1 world closed world-IsValid (λ u. refl) refl closes

-- A layer surface has the focus; on the first output it is topmost, on the second there is none.
abbrev layered_outside : Outside ℤ
layered_outside = record outside {
  layer_of = λ l. 2;
  layer_client = λ l. 4;
  topmost = λ o. if o == 0 then some 8 else none;
}

phoc_seat_set_focus_layer-endless_example :
    phoc_seat_set_focus_layer integers layered_outside 5 2 none (with_layer 8 (0 ∷ 1 ∷ []) world)
    ≡ none
phoc_seat_set_focus_layer-endless_example =
    phoc_seat_set_focus_layer-endless integers layered_outside 5 2 8 0 1 world refl refl refl
