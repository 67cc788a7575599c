-- ===== src/TextInput.antt =====
-- src/text_input.c: the relay between the text inputs of the clients and the input method of a seat. What
-- wlr_text_input_v3_send_enter and send_leave make of the surface that a text input is on is the parameter
-- `Protocol`. An assertion that fails gives none. What is sent is a list, in order.
mod Focus
mod Moves
mod Steps
mod Crash
mod Tests
use phoc.Prelude.{
  ℕ, Bool, true, false, not, ◌&&◌, ◌||◌, List, [], ◌∷◌, ◌++◌, Option, none, some, ◌>>=◌, ◌==◌,
  if◌then◌else◌, map,
}

-- roots_text_input, with what wlroots keeps of it: its client, the surface it is on, and its state.
pub record TextInput : Type 0 where
  pub id : ℕ
  pub client : ℕ
  pub focused_surface : Option ℕ
  pub pending_focused_surface : Option ℕ
  pub current_enabled : Bool
  pub has_surrounding_text : Bool  -- of active_features
  pub has_content_type : Bool

pub data RelayMessage : Type 0 where
  im_surrounding_text im_text_change_cause im_content_type im_done im_activate im_deactivate :
      RelayMessage
  im_unavailable : ℕ → RelayMessage
  enter : ℕ → ℕ → RelayMessage  -- to a text input
  leave preedit_string commit_string delete_surrounding_text done : ℕ → RelayMessage

-- roots_input_method_relay
pub record Relay : Type 0 where
  pub text_inputs : List TextInput
  pub input_method : Option ℕ
  pub messages : List RelayMessage

pub record Protocol : Type 0 where
  pub send_enter : ℕ → Option ℕ → Option ℕ
  pub send_leave : Option ℕ → Option ℕ
  pub client_of : ℕ → ℕ  -- of a surface

-- What the input method has committed.
pub record Committed : Type 0 where
  pub preedit_text : Bool  -- != NULL
  pub commit_text : Bool
  pub before_length : ℕ
  pub after_length : ℕ

abbrev pub is_set : Option ℕ → Bool
is_set none = false
is_set (some a) = true

abbrev pub same_surface : Option ℕ → Option ℕ → Bool
same_surface none none = true
same_surface (some a) (some b) = a == b
same_surface a b = false

abbrev pub said_if : Bool → RelayMessage → List RelayMessage
said_if b m = if b then m ∷ [] else []

unfoldable pub relay_send_im_done : Option ℕ → TextInput → List RelayMessage
relay_send_im_done im t =
    if not (is_set im)
    then []
    else if not (is_set t.focused_surface)
    then []
    else said_if t.has_surrounding_text im_surrounding_text
      ++ (im_text_change_cause ∷ said_if t.has_content_type im_content_type)
      ++ (im_done ∷ [])

unfoldable pub relay_disable_text_input : Option ℕ → TextInput → List RelayMessage
unfolding relay_send_im_done
relay_disable_text_input im t =
    if not (is_set im)
    then []
    else if not (is_set t.focused_surface)
    then []
    else im_deactivate ∷ relay_send_im_done im t

unfoldable pub handle_text_input_enable : Option ℕ → TextInput → List RelayMessage
unfolding relay_send_im_done
handle_text_input_enable im t =
    if not (is_set im)
    then []
    else if not (is_set t.focused_surface)
    then []
    else im_activate ∷ relay_send_im_done im t

unfoldable pub handle_text_input_commit : Option ℕ → TextInput → List RelayMessage
unfolding relay_send_im_done
handle_text_input_commit im t =
    if not t.current_enabled then [] else if not (is_set im) then [] else relay_send_im_done im t

abbrev pub set_pending : Option ℕ → TextInput → TextInput
set_pending o t = record t { pending_focused_surface = o }

-- None when its assertion fails.
unfoldable pub relay_get_focused_text_input : List TextInput → Option (Option TextInput)
relay_get_focused_text_input [] = some none
relay_get_focused_text_input (t ∷ ts) =
    let rest = relay_get_focused_text_input ts in
    if not (is_set t.focused_surface)
    then rest
    else if is_set t.pending_focused_surface
    then none
    else some (some t)

abbrev pub told_committed : Committed → Option TextInput → List RelayMessage
told_committed c none = []
told_committed c (some t) =
    said_if c.preedit_text (preedit_string t.id)
    ++ said_if c.commit_text (commit_string t.id)
    ++ said_if (not (c.before_length == 0) || not (c.after_length == 0))
        (delete_surrounding_text t.id)
    ++ (done t.id ∷ [])

unfoldable pub handle_im_commit : Committed → Relay → Option Relay
unfolding relay_get_focused_text_input
handle_im_commit c r = relay_get_focused_text_input r.text_inputs >>= λ o.
    some (record r { messages = r.messages ++ told_committed c o })

abbrev pub take_out : ℕ → List TextInput → List TextInput
take_out id [] = []
take_out id (t ∷ ts) = let rest = take_out id ts in if t.id == id then ts else t ∷ rest

unfoldable pub handle_text_input_destroy : TextInput → Relay → Relay
unfolding relay_disable_text_input
handle_text_input_destroy t r = record r {
  text_inputs = take_out t.id r.text_inputs;
  messages =
      r.messages ++ (if t.current_enabled then relay_disable_text_input r.input_method t else []);
}

unfoldable pub relay_handle_text_input : Bool → ℕ → ℕ → Relay → Relay
relay_handle_text_input false id client r = r
relay_handle_text_input true id client r = record r {
  text_inputs =
      record {
        id = id;
        client = client;
        focused_surface = none;
        pending_focused_surface = none;
        current_enabled = false;
        has_surrounding_text = false;
        has_content_type = false;
      }
      ∷ r.text_inputs;
}

-- A surface that a text input waits for is destroyed.
abbrev pub forget : ℕ → TextInput → TextInput
forget s t = if same_surface t.pending_focused_surface (some s) then set_pending none t else t

unfoldable pub handle_pending_focused_surface_destroy : ℕ → Relay → Relay
handle_pending_focused_surface_destroy s r = record r { text_inputs = map (forget s) r.text_inputs }

-- What a text input is and what is sent for it.
abbrev pub Told : Type 0
Told = TextInput × List RelayMessage

abbrev pub Sent : Type 0
Sent = List TextInput × List RelayMessage

module _ (P : Protocol) where
  abbrev pub entered : ℕ → TextInput → TextInput
  entered s t = record t { focused_surface = P.send_enter s t.focused_surface }

  abbrev pub leave_surface : TextInput → TextInput
  leave_surface t = record t { focused_surface = P.send_leave t.focused_surface }

  -- The first half of the loop of roots_input_method_relay_set_focus.
  abbrev pub leave_old : Option ℕ → Option ℕ → Option ℕ → Option ℕ → TextInput → Option Told
  leave_old im surface (some p) (some f) t = none
  leave_old im surface (some p) none t =
      some (if same_surface surface (some p) then t else set_pending none t, [])
  leave_old im surface none (some f) t =
      if same_surface surface (some f)
      then some (t, [])
      else some (leave_surface t, relay_disable_text_input im t ++ (leave t.id ∷ []))
  leave_old im surface none none t = some (t, [])

  abbrev pub enter_surface : Option ℕ → ℕ → TextInput → Told
  enter_surface (some im) s t =
      if same_surface (some s) t.focused_surface then (t, []) else (entered s t, enter t.id s ∷ [])
  enter_surface none s t =
      (if same_surface (some s) t.pending_focused_surface then t else set_pending (some s) t, [])

  -- The second half: a text input of the surface's client.
  abbrev pub enter_new : Option ℕ → Option ℕ → Told → Told
  enter_new im none (t, ms) = (t, ms)
  enter_new im (some s) (t, ms) =
      if t.client == P.client_of s
      then (let (u, ns) = enter_surface im s t in (u, ms ++ ns))
      else (t, ms)

  abbrev pub focus_one : Option ℕ → Option ℕ → TextInput → Option Told
  focus_one im surface t =
      leave_old im surface t.pending_focused_surface t.focused_surface t >>= λ u.
      some (enter_new im surface u)

  abbrev pub focus_all : Option ℕ → Option ℕ → List TextInput → Option Sent
  focus_all im surface [] = some ([], [])
  focus_all im surface (t ∷ ts) = focus_one im surface t >>= λ (u, ms).
      focus_all im surface ts >>= λ (us, ns). some (u ∷ us, ms ++ ns)

  unfoldable pub roots_input_method_relay_set_focus : Option ℕ → Relay → Option Relay
  roots_input_method_relay_set_focus surface r =
      focus_all r.input_method surface r.text_inputs >>= λ (ts, ms).
      some (record r { text_inputs = ts; messages = r.messages ++ ms })

  -- relay_get_focusable_text_input, and what is done with the text input that it finds.
  abbrev pub enter_first : Option ℕ → TextInput → List TextInput → Sent → Sent
  enter_first none t ts (us, ms) = (t ∷ us, ms)
  enter_first (some s) t ts rest = (set_pending none (entered s t) ∷ ts, enter t.id s ∷ [])

  abbrev pub enter_waiting : List TextInput → Sent
  enter_waiting [] = ([], [])
  enter_waiting (t ∷ ts) = enter_first t.pending_focused_surface t ts (enter_waiting ts)

  -- `on_seat` is whether the input method is of the relay's seat.
  unfoldable pub relay_handle_input_method : Bool → ℕ → Relay → Relay
  relay_handle_input_method false m r = r
  relay_handle_input_method true m r = elim r.input_method [
    | some old ↦ record r { messages = r.messages ++ (im_unavailable m ∷ []) }
    | none ↦
        let (ts, ms) = enter_waiting r.text_inputs in
        record r { text_inputs = ts; input_method = some m; messages = r.messages ++ ms }
  ]

  -- relay_get_focused_text_input asserts that it does not wait for another surface.
  abbrev pub wait_again : Option ℕ → TextInput → Option Told
  wait_again (some p) t = none
  wait_again none t = some (leave_surface (set_pending t.focused_surface t), leave t.id ∷ [])

  abbrev pub leave_first : Option ℕ → TextInput → List TextInput → Option Sent → Option Sent
  leave_first none t ts rest = rest >>= λ (us, ms). some (t ∷ us, ms)
  leave_first (some f) t ts rest =
      wait_again t.pending_focused_surface t >>= λ (u, ms). some (u ∷ ts, ms)

  abbrev pub leave_focused : List TextInput → Option Sent
  leave_focused [] = some ([], [])
  leave_focused (t ∷ ts) = leave_first t.focused_surface t ts (leave_focused ts)

  unfoldable pub handle_im_destroy : Relay → Option Relay
  handle_im_destroy r = leave_focused r.text_inputs >>= λ (ts, ms).
      some (record r { text_inputs = ts; input_method = none; messages = r.messages ++ ms })
