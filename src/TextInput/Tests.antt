-- ===== src/TextInput/Tests.antt =====
-- src/text_input.c on small examples: two clients with a text input each, and an input method that comes.
use phoc.Prelude.{ℕ, ◌≡◌, refl, true, false, List, [], ◌∷◌, ◌++◌, Option, none, some, map}
use phoc.TextInput.{
  TextInput, RelayMessage, enter, Committed, Relay, Protocol, roots_input_method_relay_set_focus,
  relay_handle_input_method, handle_im_commit, handle_im_destroy, relay_handle_text_input,
}
use phoc.TextInput.Focus.{at, Honest, settled, roots_input_method_relay_set_focus_lem}
use phoc.TextInput.Steps.{Reached, initial, adds, focuses, gains, Kept, Reached-Kept, relay-asserts}
use phoc.TextInput.Crash.{two, focused_twice, set_focus-twice}

-- Surface n is of client n.
abbrev protocol : Protocol
protocol = record { send_enter = λ s o. some s; send_leave = λ o. none; client_of = λ s. s }

protocol-Honest : Honest protocol
protocol-Honest = record { enters = λ s o. refl; leaves = λ o. refl }

abbrev input : ℕ → ℕ → Option ℕ → Option ℕ → TextInput
input id c p f = record {
  id = id;
  client = c;
  focused_surface = f;
  pending_focused_surface = p;
  current_enabled = false;
  has_surrounding_text = false;
  has_content_type = false;
}

abbrev idle_pair : Relay
idle_pair = two none (input 2 6 none none) (input 1 5 none none) []

abbrev waiting_pair : Relay
waiting_pair = two none (input 2 6 none none) (input 1 5 (some 5) none) []

abbrev entered_pair : Relay
entered_pair = two (some 9) (input 2 6 none none) (input 1 5 none (some 5)) (enter 1 5 ∷ [])

idle_pair-Reached : Reached protocol none idle_pair
unfolding relay_handle_text_input
idle_pair-Reached = adds true 2 6 none _ (adds true 1 5 none _ initial tt) ((λ e. cc e), tt)

waiting_pair-Reached : Reached protocol (some 5) waiting_pair
unfolding roots_input_method_relay_set_focus
waiting_pair-Reached = focuses (some 5) none idle_pair waiting_pair idle_pair-Reached refl

entered_pair-Reached : Reached protocol (some 5) entered_pair
unfolding relay_handle_input_method
entered_pair-Reached = gains true 9 (some 5) waiting_pair waiting_pair-Reached

roots_input_method_relay_set_focus_example :
    (ms : List RelayMessage) × (roots_input_method_relay_set_focus protocol (some 6) entered_pair
      ≡ some (record entered_pair {
        text_inputs = map (settled protocol (some 9) (some 6)) entered_pair.text_inputs;
        messages = entered_pair.messages ++ ms;
      }))
roots_input_method_relay_set_focus_example =
    roots_input_method_relay_set_focus_lem protocol (some 6) (some 5) entered_pair protocol-Honest
      (tt, ((refl, refl), tt))

Reached-Kept_example : Kept protocol (some 5) entered_pair
Reached-Kept_example =
    Reached-Kept protocol (some 5) entered_pair protocol-Honest entered_pair-Reached

abbrev committed : Committed
committed = record { preedit_text = true; commit_text = false; before_length = 0; after_length = 2 }

relay-asserts_example :
    ((u : Relay) × (roots_input_method_relay_set_focus protocol (some 6) entered_pair ≡ some u))
    × ((u : Relay) × (handle_im_commit committed entered_pair ≡ some u))
    × ((u : Relay) × (handle_im_destroy protocol entered_pair ≡ some u))
relay-asserts_example =
    relay-asserts protocol (some 5) (some 6) committed entered_pair protocol-Honest
      entered_pair-Reached

set_focus-twice_example :
    (r : Relay) × (focused_twice protocol 5 9
        (two none (at none none (input 1 5 none none)) (at none none (input 2 5 none none)) [])
      ≡ some r)
    × (roots_input_method_relay_set_focus protocol none r ≡ none)
set_focus-twice_example =
    set_focus-twice protocol 5 9 (input 1 5 none none) (input 2 5 none none) [] none protocol-Honest
      refl refl
