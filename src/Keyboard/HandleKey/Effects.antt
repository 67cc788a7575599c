-- ===== src/Keyboard/HandleKey/Effects.antt =====
-- What a key event of src/keyboard.c may do: to whom a key goes, and how many actions it runs.
use phoc.Prelude.{
  ℕ, suc, ◌+◌, ◌≤◌, ◌%◌, ◌^◌, ◌≡◌, refl, ◌∙◌, Bool, true, false, not, ◌&&◌, ◌||◌, List, [], ◌∷◌,
  ◌++◌, map, Option, none, some, arith,
}
use phoc.Keybindings.Bindings.{Handler, PhocKeybindings}
use phoc.PhoshPrivate.State.{PhoshPrivate, Message, KeyboardEvent}
use phoc.PhoshPrivate.Accelerators.{
  forward_keysym, forward_all, any_registered, accelerator_is_registered,
}
use phoc.Keybindings.Accel.{PhocKeyCombo}
use phoc.Keyboard.Pressed.{KeyState, released, pressed}
use phoc.Keyboard.Pressed.Laws.{IsValid}
use phoc.Keyboard.Pressed.Update.{pressed_keysyms_update-IsValid}
use phoc.Keyboard.HandleKey.{
  PhocKeyboard, Action, change_vt, toggle_output_blank, run, to_shell, set_keyboard, notify_key,
  Xkb, KeyEvent, keyboard_execute_compositor_binding, after, compositor_bindings, ran,
  keyboard_execute_binding, keyboard_execute_subscribed_binding, try_bindings, bindings_for,
  deliver, phoc_keyboard_handle_key,
}

-- Something used the key up: the terminal was switched, the outputs were blanked, a handler ran or
-- the shell was told.
abbrev pub uses_key : List Action → Bool
uses_key [] = false
uses_key (change_vt n ∷ acts) = true
uses_key (toggle_output_blank ∷ acts) = true
uses_key (run h ∷ acts) = true
uses_key (to_shell m ∷ acts) = true
uses_key (_ ∷ acts) = uses_key acts

-- The client with the keyboard focus was told.
abbrev pub notifies : List Action → Bool
notifies [] = false
notifies (notify_key t k s ∷ acts) = true
notifies (_ ∷ acts) = notifies acts

abbrev pub runs : List Action → ℕ
runs [] = 0
runs (run h ∷ acts) = suc (runs acts)
runs (_ ∷ acts) = runs acts

uses_key-append : (xs ys : List Action) → uses_key (xs ++ ys) ≡ (uses_key xs || uses_key ys)
uses_key-append [] ys = refl
uses_key-append (change_vt n ∷ xs) ys = refl
uses_key-append (toggle_output_blank ∷ xs) ys = refl
uses_key-append (run h ∷ xs) ys = refl
uses_key-append (to_shell m ∷ xs) ys = refl
uses_key-append (_ ∷ xs) ys = uses_key-append xs ys

notifies-append : (xs ys : List Action) → notifies (xs ++ ys) ≡ (notifies xs || notifies ys)
notifies-append [] ys = refl
notifies-append (notify_key t k s ∷ xs) ys = refl
notifies-append (_ ∷ xs) ys = notifies-append xs ys

runs-append : (xs ys : List Action) → runs (xs ++ ys) ≡ runs xs + runs ys
runs-append [] ys = omega arith
runs-append (run h ∷ xs) ys = omega (arith, runs-append xs ys)
runs-append (_ ∷ xs) ys = omega (arith, runs-append xs ys)

-- What a part of the bindings hands back: it tells no client, runs at most one handler, and used the
-- key up only if it says so.
record IsPart (r : Bool × List Action) : Type 0 where
  silent : notifies r.1 ≡ false
  one : runs r.1 ≤ 1
  idle : r.0 ≡ false → (uses_key r.1 ≡ false) × (runs r.1 ≡ 0)

after-IsPart : (r s : Bool × List Action) → IsPart r → IsPart s → IsPart (after r s)
after-IsPart (true, acts) s p q = p
after-IsPart (false, acts) s p q =
    ground (arith, notifies-append acts s.1, uses_key-append acts s.1, runs-append acts s.1)

compositor_binding-IsPart : (x : Xkb) (k : ℕ) → IsPart (keyboard_execute_compositor_binding x k)
unfolding keyboard_execute_compositor_binding
compositor_binding-IsPart x k = ground arith

compositor_bindings-IsPart : (x : Xkb) (ks : List ℕ) → IsPart (compositor_bindings x ks)
unfolding compositor_bindings
compositor_bindings-IsPart x [] = ground arith
compositor_bindings-IsPart x (k ∷ ks) =
    after-IsPart (keyboard_execute_compositor_binding x k) (compositor_bindings x ks)
      (compositor_binding-IsPart x k) (compositor_bindings-IsPart x ks)

ran-IsPart : (o : Option Handler) → IsPart (ran o)
ran-IsPart none = ground arith
ran-IsPart (some h) = ground arith

execute_binding-IsPart :
    (x : Xkb) (keybindings : PhocKeybindings) (xs : List ℕ) (modifiers : ℕ) (ks : List ℕ)
    → IsPart (keyboard_execute_binding x keybindings xs modifiers ks)
unfolding keyboard_execute_binding
execute_binding-IsPart x keybindings xs modifiers ks =
    after-IsPart _ _ (compositor_bindings-IsPart x ks) (ran-IsPart _)

shell_messages :
    (ms : List Message) → (notifies (map to_shell ms) ≡ false) × (runs (map to_shell ms) ≡ 0)
shell_messages [] = (refl, refl)
shell_messages (m ∷ ms) = shell_messages ms

forward_all-any :
    (c : PhocKeyCombo) (t : ℕ) (es : List KeyboardEvent)
    → any_registered c es ≡ false
    → forward_all c t es ≡ []
unfolding forward_all any_registered accelerator_is_registered
forward_all-any c t [] h = refl
forward_all-any c t (e ∷ es) h = ground (arith, forward_all-any c t es)

forward_idle :
    (phosh : PhoshPrivate) (c : PhocKeyCombo) (t : ℕ)
    → (forward_keysym phosh c t).1 ≡ false
    → (forward_keysym phosh c t).0 ≡ []
unfolding forward_keysym
forward_idle phosh c t h = forward_all-any c t phosh.keyboard_events h

joined-IsPart :
    (b : Bool) (ms : List Message) (r : Bool × List Action)
    → (b ≡ false → ms ≡ [])
    → IsPart r
    → IsPart (b || r.0, map to_shell ms ++ r.1)
joined-IsPart true ms r h p = record {
  silent = notifies-append (map to_shell ms) r.1 ∙ ground (arith, (shell_messages ms).0, p.silent);
  one = omega (arith, runs-append (map to_shell ms) r.1, (shell_messages ms).1, p.one);
  idle = λ e. cc;
}
joined-IsPart false ms r h p = rw (h refl) p

subscribed-IsPart :
    (phosh : PhoshPrivate) (modifiers : ℕ) (ks : List ℕ) (time : ℕ)
    → IsPart (keyboard_execute_subscribed_binding phosh modifiers ks time)
unfolding keyboard_execute_subscribed_binding
subscribed-IsPart phosh modifiers [] time = ground arith
subscribed-IsPart phosh modifiers (k ∷ ks) time =
    let c : PhocKeyCombo = record { modifiers = modifiers; keysym = k } in
    joined-IsPart (forward_keysym phosh c time).1 (forward_keysym phosh c time).0 _
      (forward_idle phosh c time) (subscribed-IsPart phosh modifiers ks time)

try_bindings-IsPart :
    (x : Xkb) (keybindings : PhocKeybindings) (phosh : PhoshPrivate) (self : PhocKeyboard)
    (keycode time : ℕ)
    → IsPart (try_bindings x keybindings phosh self keycode time)
unfolding try_bindings
try_bindings-IsPart x keybindings phosh self keycode time =
    after-IsPart _ _
      (after-IsPart _ _ (execute_binding-IsPart x keybindings self.pressed_keysyms_translated _ _)
        (execute_binding-IsPart x keybindings self.pressed_keysyms_raw _ _))
      (subscribed-IsPart phosh _ _ time)

bindings_for-IsPart :
    (s : KeyState) (x : Xkb) (keybindings : PhocKeybindings) (phosh : PhoshPrivate)
    (self : PhocKeyboard) (keycode time : ℕ)
    → IsPart (bindings_for s x keybindings phosh self keycode time)
bindings_for-IsPart released x keybindings phosh self keycode time = ground arith
bindings_for-IsPart pressed x keybindings phosh self keycode time =
    try_bindings-IsPart x keybindings phosh self keycode time

deliver_lem :
    (event : KeyEvent) (r : Bool × List Action)
    → IsPart r
    → (notifies (deliver event r) ≡ not r.0)
      × ((notifies (deliver event r) && uses_key (deliver event r)) ≡ false)
      × (runs (deliver event r) ≤ 1)
deliver_lem event (true, acts) p = ground arith
deliver_lem event (false, acts) p =
    let told : List Action =
      set_keyboard ∷ notify_key event.time_msec event.keycode event.state ∷ [] in
    ground (arith, notifies-append acts told, uses_key-append acts told, runs-append acts told)

-- A pressed key's event reaches the client exactly when no binding and no subscription took it; a
-- released key's event always reaches it and runs nothing. In no case does the client get a key that
-- switched the terminal, blanked the outputs, ran a handler or was sent to the shell, and at most one
-- handler runs for an event, although the bindings are tried with two sets of keysyms.
pub phoc_keyboard_handle_key_lem :
    (x : Xkb) (keybindings : PhocKeybindings) (phosh : PhoshPrivate) (self : PhocKeyboard)
    (event : KeyEvent)
    → let (self', acts) = phoc_keyboard_handle_key x keybindings phosh self event in
      (notifies acts
        ≡ not
            (bindings_for event.state x keybindings phosh self'
              ((event.keycode + 8) % 2 ^ 32)
              event.time_msec).0)
      × ((notifies acts && uses_key acts) ≡ false)
      × (runs acts ≤ 1)
unfolding phoc_keyboard_handle_key
phoc_keyboard_handle_key_lem x keybindings phosh self event =
    deliver_lem event _ (bindings_for-IsPart event.state x keybindings phosh _ _ event.time_msec)

-- A key event keeps both arrays of pressed keysyms at 32 entries with no keysym twice.
pub handle_key-IsValid :
    (x : Xkb) (keybindings : PhocKeybindings) (phosh : PhoshPrivate) (self : PhocKeyboard)
    (event : KeyEvent)
    → IsValid self.pressed_keysyms_translated
    → IsValid self.pressed_keysyms_raw
    → let self' = (phoc_keyboard_handle_key x keybindings phosh self event).0 in
      IsValid self'.pressed_keysyms_translated × IsValid self'.pressed_keysyms_raw
unfolding phoc_keyboard_handle_key
handle_key-IsValid x keybindings phosh self event t r = (
  pressed_keysyms_update-IsValid x.modifier_keysyms self.pressed_keysyms_translated _ event.state t,
  pressed_keysyms_update-IsValid x.modifier_keysyms self.pressed_keysyms_raw _ event.state r,
)
