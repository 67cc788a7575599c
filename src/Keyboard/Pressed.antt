-- ===== src/Keyboard/Pressed.antt =====
-- src/keyboard.c: the arrays of pressed keysyms. Each has PHOC_KEYBOARD_PRESSED_KEYSYMS_CAP entries and
-- a free entry holds XKB_KEY_NoSymbol. The modifier keysyms of libxkbcommon are a parameter.
pub mod Laws
pub mod Update
use phoc.Prelude.{
  ℕ, zero, suc, ◌+◌, ◌≤◌, ◌<◌, ◌≡◌, refl, ap, ◌∙◌, ◌≢◌, ◌⊎◌, inl, inr, Bool, true, false, not, ◌&&◌,
  ◌||◌, List, [], ◌∷◌, Option, none, some, ◌==◌, if◌then◌else◌, length, set, replicate, arith,
  Bool-cases, Option-cases,
}
use phoc.Keybindings.Accel.{no_symbol}

-- PHOC_KEYBOARD_PRESSED_KEYSYMS_CAP
abbrev pub cap : ℕ
cap = 32

-- The first entry with a keysym; `none` is -1.
unfoldable pub pressed_keysyms_index : List ℕ → ℕ → Option ℕ
pressed_keysyms_index [] keysym = none
pressed_keysyms_index (x ∷ xs) keysym =
    let rest = pressed_keysyms_index xs keysym in
    if x == keysym then some 0 else elim rest [ none ↦ none | some i ↦ some (suc i) ]

unfoldable pub pressed_keysyms_length : List ℕ → ℕ
pressed_keysyms_length [] = 0
pressed_keysyms_length (x ∷ xs) = (if x == no_symbol then 0 else 1) + pressed_keysyms_length xs

unfoldable pub pressed_keysyms_add : List ℕ → ℕ → List ℕ
unfolding pressed_keysyms_index
pressed_keysyms_add xs keysym = elim (pressed_keysyms_index xs keysym) [
  | some i ↦ xs
  | none ↦ elim (pressed_keysyms_index xs no_symbol) [ none ↦ xs | some i ↦ set xs i keysym ]
]

unfoldable pub pressed_keysyms_remove : List ℕ → ℕ → List ℕ
unfolding pressed_keysyms_index
pressed_keysyms_remove xs keysym = elim (pressed_keysyms_index xs keysym) [
  | none ↦ xs
  | some i ↦ set xs i no_symbol
]

-- The cases of the switch of keysym_is_modifier.
pub record ModifierKeysyms : Type 0 where
  pub shift_l : ℕ
  pub shift_r : ℕ
  pub control_l : ℕ
  pub control_r : ℕ
  pub caps_lock : ℕ
  pub shift_lock : ℕ
  pub meta_l : ℕ
  pub meta_r : ℕ
  pub alt_l : ℕ
  pub alt_r : ℕ
  pub super_l : ℕ
  pub super_r : ℕ
  pub hyper_l : ℕ
  pub hyper_r : ℕ

abbrev any_of : ℕ → List ℕ → Bool
any_of k [] = false
any_of k (x ∷ xs) = k == x || any_of k xs

unfoldable pub keysym_is_modifier : ModifierKeysyms → ℕ → Bool
keysym_is_modifier m k = any_of k (
    m.shift_l ∷ m.shift_r ∷ m.control_l ∷ m.control_r ∷ m.caps_lock ∷ m.shift_lock ∷ m.meta_l
    ∷ m.meta_r ∷ m.alt_l ∷ m.alt_r ∷ m.super_l ∷ m.super_r ∷ m.hyper_l ∷ m.hyper_r ∷ [])

pub data KeyState : Type 0 where
  released pressed : KeyState

unfoldable pub update_one : ModifierKeysyms → KeyState → List ℕ → ℕ → List ℕ
update_one m pressed xs k = if keysym_is_modifier m k then xs else pressed_keysyms_add xs k
update_one m released xs k = if keysym_is_modifier m k then xs else pressed_keysyms_remove xs k

unfoldable pub pressed_keysyms_update : ModifierKeysyms → List ℕ → List ℕ → KeyState → List ℕ
unfolding update_one
pressed_keysyms_update m xs [] state = xs
pressed_keysyms_update m xs (k ∷ ks) state =
    pressed_keysyms_update m (update_one m state xs k) ks state

-- Whether a keysym is down.
abbrev pub holds : List ℕ → ℕ → Bool
holds [] k = false
holds (x ∷ xs) k = x == k || holds xs k
