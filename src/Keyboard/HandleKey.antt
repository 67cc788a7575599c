-- ===== src/Keyboard/HandleKey.antt =====
-- src/keyboard.c: from a key event to the bindings that it runs or the client that it is sent to. What
-- xkb and wlroots say of the key is a parameter; what the code does to the rest of the compositor is
-- a list of actions, in order.
pub mod Effects
use phoc.Prelude.{
  ℕ, ◌+◌, ◌-◌, ◌%◌, ◌^◌, ◌≡◌, Bool, true, false, not, ◌&&◌, ◌||◌, List, [], ◌∷◌, ◌++◌, map, Option,
  none, some, leb, ◌==◌, if◌then◌else◌, get_or, bit_and, bit_xor,
}
use phoc.Keybindings.Accel.{PhocKeyCombo, no_symbol}
use phoc.Keybindings.Bindings.{Handler, PhocKeybindings, phoc_keybindings_handle_pressed}
use phoc.PhoshPrivate.State.{PhoshPrivate, Message}
use phoc.PhoshPrivate.Accelerators.{forward_keysym}
use phoc.Keyboard.Pressed.{
  ModifierKeysyms, KeyState, released, pressed, pressed_keysyms_length, pressed_keysyms_update,
}

-- The two arrays of PhocKeyboard.
pub record PhocKeyboard : Type 0 where
  pub pressed_keysyms_translated : List ℕ
  pub pressed_keysyms_raw : List ℕ

pub data Action : Type 0 where
  change_vt : ℕ → Action
  toggle_output_blank : Action
  pointer_end_grab keyboard_end_grab end_compositor_grab : Action
  run : Handler → Action
  to_shell : Message → Action
  set_keyboard : Action
  notify_key : ℕ → ℕ → KeyState → Action

-- The constants of libxkbcommon and the answers of xkb and wlroots for the keyboard.
pub record Xkb : Type 0 where
  pub modifier_keysyms : ModifierKeysyms
  pub switch_vt_1 : ℕ
  pub switch_vt_12 : ℕ
  pub power_down : ℕ
  pub power_off : ℕ
  pub escape : ℕ
  pub session : Bool  -- wlr_backend_get_session finds one
  pub modifiers : ℕ  -- wlr_keyboard_get_modifiers
  pub consumed : ℕ → ℕ  -- by keycode
  pub syms : ℕ → List ℕ  -- by keycode
  pub layout : ℕ → ℕ  -- by keycode
  pub syms_by_level : ℕ → ℕ → ℕ → List ℕ  -- by keycode, layout and level

-- wlr_event_keyboard_key
pub record KeyEvent : Type 0 where
  pub time_msec : ℕ
  pub keycode : ℕ
  pub state : KeyState

-- Whether the keysym is used up, and what is done.
unfoldable pub keyboard_execute_compositor_binding : Xkb → ℕ → Bool × List Action
keyboard_execute_compositor_binding x k =
    if leb x.switch_vt_1 k && leb k x.switch_vt_12
    then (true, if x.session then change_vt (k - x.switch_vt_1 + 1) ∷ [] else [])
    else if k == x.power_down || k == x.power_off
    then (true, toggle_output_blank ∷ [])
    else (
      false,
      if k == x.escape then pointer_end_grab ∷ keyboard_end_grab ∷ end_compositor_grab ∷ [] else [],
    )

abbrev pub after : Bool × List Action → Bool × List Action → Bool × List Action
after (true, acts) next = (true, acts)
after (false, acts) next = (next.0, acts ++ next.1)

-- The loop over the keysyms stops at the first that is used up.
unfoldable pub compositor_bindings : Xkb → List ℕ → Bool × List Action
unfolding keyboard_execute_compositor_binding
compositor_bindings x [] = (false, [])
compositor_bindings x (k ∷ ks) =
    after (keyboard_execute_compositor_binding x k) (compositor_bindings x ks)

abbrev pub ran : Option Handler → Bool × List Action
ran none = (false, [])
ran (some h) = (true, run h ∷ [])

unfoldable pub keyboard_execute_binding :
    Xkb → PhocKeybindings → List ℕ → ℕ → List ℕ → Bool × List Action
unfolding compositor_bindings
keyboard_execute_binding x keybindings xs modifiers keysyms =
    after (compositor_bindings x keysyms) (
      ran (
        phoc_keybindings_handle_pressed keybindings modifiers (get_or xs 0 no_symbol)
          (pressed_keysyms_length xs)))

-- Every keysym is forwarded, whether or not one before it was.
unfoldable pub keyboard_execute_subscribed_binding :
    PhoshPrivate → ℕ → List ℕ → ℕ → Bool × List Action
keyboard_execute_subscribed_binding phosh modifiers [] time = (false, [])
keyboard_execute_subscribed_binding phosh modifiers (k ∷ ks) time =
    let combo : PhocKeyCombo = record { modifiers = modifiers; keysym = k } in
    let rest = keyboard_execute_subscribed_binding phosh modifiers ks time in
    (
      (forward_keysym phosh combo time).1 || rest.0,
      map to_shell (forward_keysym phosh combo time).0 ++ rest.1,
    )

-- modifiers & ~consumed, on 32 bits
abbrev pub keysyms_translated : Xkb → ℕ → List ℕ × ℕ
keysyms_translated x keycode =
    (x.syms keycode, bit_and x.modifiers (bit_xor (x.consumed keycode) (2 ^ 32 - 1)))

abbrev pub keysyms_raw : Xkb → ℕ → List ℕ × ℕ
keysyms_raw x keycode = (x.syms_by_level keycode (x.layout keycode) 0, x.modifiers)

-- What is tried for a pressed key: the translated keysyms, then the raw ones, then the shell.
unfoldable pub try_bindings :
    Xkb → PhocKeybindings → PhoshPrivate → PhocKeyboard → ℕ → ℕ → Bool × List Action
try_bindings x keybindings phosh self keycode time =
    let t = keysyms_translated x keycode in
    let r = keysyms_raw x keycode in
    after
      (after (keyboard_execute_binding x keybindings self.pressed_keysyms_translated t.1 t.0)
        (keyboard_execute_binding x keybindings self.pressed_keysyms_raw r.1 r.0))
      (keyboard_execute_subscribed_binding phosh r.1 r.0 time)

-- Both arrays take the event in before the part of the bindings that reads them.
unfoldable pub update_pressed : Xkb → PhocKeyboard → KeyEvent → ℕ → PhocKeyboard
update_pressed x self event keycode = record {
  pressed_keysyms_translated =
      pressed_keysyms_update x.modifier_keysyms self.pressed_keysyms_translated
        (keysyms_translated x keycode).0 event.state;
  pressed_keysyms_raw =
      pressed_keysyms_update x.modifier_keysyms self.pressed_keysyms_raw (keysyms_raw x keycode).0
        event.state;
}

abbrev pub bindings_for :
    KeyState → Xkb → PhocKeybindings → PhoshPrivate → PhocKeyboard → ℕ → ℕ → Bool × List Action
bindings_for released x keybindings phosh self keycode time = (false, [])
bindings_for pressed x keybindings phosh self keycode time =
    try_bindings x keybindings phosh self keycode time

-- An event that nothing handled goes to the client.
abbrev pub deliver : KeyEvent → Bool × List Action → List Action
deliver event (true, acts) = acts
deliver event (false, acts) =
    acts ++ set_keyboard ∷ notify_key event.time_msec event.keycode event.state ∷ []

unfoldable pub phoc_keyboard_handle_key :
    Xkb → PhocKeybindings → PhoshPrivate → PhocKeyboard → KeyEvent → PhocKeyboard × List Action
unfolding update_pressed
phoc_keyboard_handle_key x keybindings phosh self event =
    let keycode = (event.keycode + 8) % 2 ^ 32 in
    let self' = update_pressed x self event keycode in
    (
      self',
      deliver event (bindings_for event.state x keybindings phosh self' keycode event.time_msec),
    )

-- phoc_keyboard_next_layout: the new list of sources, `none` if it is left alone.
unfoldable pub phoc_keyboard_next_layout {ℓ} : {A : Type ℓ} → List A → Option (List A)
phoc_keyboard_next_layout [] = none
phoc_keyboard_next_layout (cur ∷ []) = none
phoc_keyboard_next_layout (cur ∷ next ∷ rest) = some ((next ∷ rest) ++ cur ∷ [])
