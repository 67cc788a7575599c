-- ===== src/Keyboard/Tests.antt =====
-- Keys that go down and up, for src/keyboard.c.
use phoc.Prelude.{
  ℕ, ◌+◌, ◌%◌, ◌^◌, ◌≤◌, ◌≡◌, refl, inl, true, false, not, ◌&&◌, List, [], ◌∷◌, arith, get_or,
  length, replicate,
}
use phoc.Keybindings.Accel.{no_symbol}
use phoc.Keybindings.Bindings.{close, PhocKeybindings}
use phoc.PhoshPrivate.Lifecycle.{init}
use phoc.Keyboard.Pressed.{
  cap, ModifierKeysyms, keysym_is_modifier, pressed, released, pressed_keysyms_length,
  pressed_keysyms_update, holds,
}
use phoc.Keyboard.Pressed.Laws.{Distinct, IsValid}
use phoc.Keyboard.Pressed.Update.{blank, touches, first_entry_stale}
use phoc.Keyboard.HandleKey.{PhocKeyboard, Xkb, KeyEvent, bindings_for, phoc_keyboard_handle_key}
use phoc.Keyboard.HandleKey.Effects.{
  notifies, uses_key, runs, phoc_keyboard_handle_key_lem, handle_key-IsValid,
}

-- The keysyms of libxkbcommon.
abbrev modifiers : ModifierKeysyms
modifiers = record {
  shift_l = 0xffe1;
  shift_r = 0xffe2;
  control_l = 0xffe3;
  control_r = 0xffe4;
  caps_lock = 0xffe5;
  shift_lock = 0xffe6;
  meta_l = 0xffe7;
  meta_r = 0xffe8;
  alt_l = 0xffe9;
  alt_r = 0xffea;
  super_l = 0xffeb;
  super_r = 0xffec;
  hyper_l = 0xffed;
  hyper_r = 0xffee;
}

-- Each key has one keysym, which is its code.
abbrev xkb : Xkb
xkb = record {
  modifier_keysyms = modifiers;
  switch_vt_1 = 0x1008fe01;
  switch_vt_12 = 0x1008fe0c;
  power_down = 0x1008ff21;
  power_off = 0x1008ff2a;
  escape = 0xff1b;
  session = true;
  modifiers = 64;
  consumed = λ c. 0;
  syms = λ c. c ∷ [];
  layout = λ c. 0;
  syms_by_level = λ c l n. c ∷ [];
}

abbrev keyboard : PhocKeyboard
keyboard = record { pressed_keysyms_translated = blank; pressed_keysyms_raw = blank }

abbrev press : KeyEvent
press = record { time_msec = 5; keycode = 20; state = pressed }

abbrev bindings : PhocKeybindings
bindings = record {
  bindings =
      record { name = "close"; func = close; combos = record { modifiers = 64; keysym = 28 } ∷ [] }
      ∷ [];
}

-- Free entries are not twice anything.
Distinct-free : (n : ℕ) → Distinct (replicate n no_symbol)
Distinct-free Prim.Native.Nat.zero = tt
Distinct-free (Prim.Native.Nat.suc n) = (inl refl, Distinct-free n)

blank-IsValid : IsValid blank
blank-IsValid = record { capacity = refl; distinct = Distinct-free cap }

-- The keysyms of one key.
abbrev key : List ℕ
key = 28 ∷ []

fits : pressed_keysyms_length blank + length key ≤ cap
unfolding pressed_keysyms_length
fits = omega arith

not_down : (k : ℕ) → touches modifiers key k ≡ true → holds blank k ≡ false
unfolding keysym_is_modifier
not_down k e = ground arith

no_modifier : (keysym_is_modifier modifiers 28 ≡ false) × (keysym_is_modifier modifiers 29 ≡ false)
unfolding keysym_is_modifier
no_modifier = (refl, refl)

first_entry_stale_example :
    let xs = pressed_keysyms_update modifiers blank key pressed in
    let ys = pressed_keysyms_update modifiers xs (29 ∷ []) pressed in
    let zs = pressed_keysyms_update modifiers ys key released in
    (pressed_keysyms_length zs ≡ 1) × (get_or zs 0 no_symbol ≡ no_symbol) × (holds zs 29 ≡ true)
first_entry_stale_example =
    first_entry_stale modifiers 28 29 no_modifier.0 no_modifier.1 (λ e. omega arith)
      (λ e. omega arith) (λ e. omega arith)

phoc_keyboard_handle_key_example :
    let (self', acts) = phoc_keyboard_handle_key xkb bindings init keyboard press in
    (notifies acts ≡ not (bindings_for pressed xkb bindings init self' ((20 + 8) % 2 ^ 32) 5).0)
    × ((notifies acts && uses_key acts) ≡ false)
    × (runs acts ≤ 1)
phoc_keyboard_handle_key_example = phoc_keyboard_handle_key_lem xkb bindings init keyboard press

handle_key-IsValid_example :
    let self' = (phoc_keyboard_handle_key xkb bindings init keyboard press).0 in
    IsValid self'.pressed_keysyms_translated × IsValid self'.pressed_keysyms_raw
handle_key-IsValid_example =
    handle_key-IsValid xkb bindings init keyboard press blank-IsValid blank-IsValid

abbrev layouts : List ℕ
layouts = 1 ∷ 2 ∷ 3 ∷ []
