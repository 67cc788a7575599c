-- ===== src/Keyboard/Pressed/Update.antt =====
-- pressed_keysyms_update of src/keyboard.c, for all the keysyms of a key event.
use phoc.Prelude.{
  ℕ, zero, suc, ◌+◌, ◌≤◌, ◌<◌, ◌≡◌, refl, ◌≢◌, inl, inr, Bool, true, false, not, ◌&&◌, ◌||◌, List,
  [], ◌∷◌, none, ◌==◌, length, set, replicate, arith, get_or, Bool-cases, Option-cases,
}
use phoc.Keybindings.Accel.{no_symbol}
use phoc.Keyboard.Pressed.{
  cap, pressed_keysyms_index, pressed_keysyms_length, pressed_keysyms_add, pressed_keysyms_remove,
  ModifierKeysyms, keysym_is_modifier, KeyState, released, pressed, update_one,
  pressed_keysyms_update, holds,
}
use phoc.Keyboard.Pressed.Laws.{
  IsValid, holds-pressed_keysyms_add, holds-pressed_keysyms_remove, pressed_keysyms_add-IsValid,
  pressed_keysyms_remove-IsValid,
}

-- The keysyms that an update looks at: those that are no modifier.
abbrev pub touches : ModifierKeysyms → List ℕ → ℕ → Bool
touches m [] j = false
touches m (k ∷ ks) j = (not (keysym_is_modifier m k) && k == j) || touches m ks j

module _ (m : ModifierKeysyms) where
  update_one-IsValid :
      (s : KeyState) (xs : List ℕ) (k : ℕ) → IsValid xs → IsValid (update_one m s xs k)
  unfolding update_one
  update_one-IsValid pressed xs k v = elim (Bool-cases (keysym_is_modifier m k)) [
    | inl e ↦ rw e v
    | inr e ↦ rw e (pressed_keysyms_add-IsValid xs k v)
  ]
  update_one-IsValid released xs k v = elim (Bool-cases (keysym_is_modifier m k)) [
    | inl e ↦ rw e v
    | inr e ↦ rw e (pressed_keysyms_remove-IsValid xs k v)
  ]

  -- A key event keeps an array of 32 entries in which no keysym is twice.
  pub pressed_keysyms_update-IsValid :
      (xs ks : List ℕ) (s : KeyState) → IsValid xs → IsValid (pressed_keysyms_update m xs ks s)
  unfolding pressed_keysyms_update
  pressed_keysyms_update-IsValid xs [] s v = v
  pressed_keysyms_update-IsValid xs (k ∷ ks) s v =
      pressed_keysyms_update-IsValid (update_one m s xs k) ks s (update_one-IsValid s xs k v)

  -- In an array without a keysym twice, after a release exactly those keysyms are down that were down and are not in the event; the
  -- modifiers in the event change nothing.
  pub holds-update_released :
      (xs ks : List ℕ) (j : ℕ)
      → IsValid xs
      → j ≢ no_symbol
      → holds (pressed_keysyms_update m xs ks released) j ≡ (holds xs j && not (touches m ks j))
  unfolding pressed_keysyms_update update_one
  holds-update_released xs [] j v h = ground arith
  holds-update_released xs (k ∷ ks) j v h = elim (Bool-cases (keysym_is_modifier m k)) [
    | inl e ↦ rw e (holds-update_released xs ks j v h)
    | inr e ↦ rw e (
        ground (
          arith,
          holds-update_released (pressed_keysyms_remove xs k) ks j
              (pressed_keysyms_remove-IsValid xs k v) h,
          holds-pressed_keysyms_remove xs k j v h,
        ))
  ]

  length_room : (xs : List ℕ) → pressed_keysyms_length xs < length xs → holds xs no_symbol ≡ true
  unfolding pressed_keysyms_length
  length_room [] h = absurd (omega arith)
  length_room (x ∷ xs) h = ground (arith, length_room xs)

  length-set_le :
      (xs : List ℕ) (i k : ℕ)
      → pressed_keysyms_length (set xs i k) ≤ suc (pressed_keysyms_length xs)
  unfolding pressed_keysyms_length
  length-set_le [] i k = omega arith
  length-set_le (x ∷ xs) zero k = ground arith
  length-set_le (x ∷ xs) (suc i) k = ground (arith, length-set_le xs i k)

  length-add_le :
      (xs : List ℕ) (k : ℕ)
      → pressed_keysyms_length (pressed_keysyms_add xs k) ≤ suc (pressed_keysyms_length xs)
  unfolding pressed_keysyms_add
  length-add_le xs k = elim (Option-cases (pressed_keysyms_index xs k)) [
    | inr (i, e) ↦ rw (e, pressed_keysyms_add) (omega arith)
    | inl e ↦ elim (Option-cases (pressed_keysyms_index xs no_symbol)) [
      | inl f ↦ rw (e, pressed_keysyms_add, f) (omega arith)
      | inr (i, f) ↦ rw (e, pressed_keysyms_add, f) (length-set_le xs i k)
    ]
  ]

  -- In an array with room for the keysyms of the event and no keysym twice, after a press exactly those keysyms are down that were down
  -- or are in the event and no modifiers.
  pub holds-update_pressed :
      (xs ks : List ℕ) (j : ℕ)
      → IsValid xs
      → pressed_keysyms_length xs + length ks ≤ cap
      → j ≢ no_symbol
      → holds (pressed_keysyms_update m xs ks pressed) j ≡ (holds xs j || touches m ks j)
  unfolding pressed_keysyms_update update_one
  holds-update_pressed xs [] j v fits h = ground arith
  holds-update_pressed xs (k ∷ ks) j v fits h = elim (Bool-cases (keysym_is_modifier m k)) [
    | inl e ↦ rw e (holds-update_pressed xs ks j v (omega arith) h)
    | inr e ↦ rw e (
        ground (
          arith,
          holds-update_pressed (pressed_keysyms_add xs k) ks j (pressed_keysyms_add-IsValid xs k v)
              (omega (arith, length-add_le xs k)) h,
          holds-pressed_keysyms_add xs k j h,
          length_room xs (omega (arith, v.capacity)),
        ))
  ]

  length-update_le :
      (xs ks : List ℕ)
      → pressed_keysyms_length (pressed_keysyms_update m xs ks pressed)
        ≤ pressed_keysyms_length xs + length ks
  unfolding pressed_keysyms_update update_one
  length-update_le xs [] = omega arith
  length-update_le xs (k ∷ ks) = elim (Bool-cases (keysym_is_modifier m k)) [
    | inl e ↦ rw e (omega (arith, length-update_le xs ks))
    | inr e ↦
        rw e (omega (arith, length-update_le (pressed_keysyms_add xs k) ks, length-add_le xs k))
  ]

  -- In an array without a keysym twice, pressing and releasing a key whose keysyms fit and were not
  -- down leaves the same keysyms down.
  pub holds-press_release :
      (xs ks : List ℕ) (j : ℕ)
      → IsValid xs
      → pressed_keysyms_length xs + length ks ≤ cap
      → ((k : ℕ) → touches m ks k ≡ true → holds xs k ≡ false)
      → j ≢ no_symbol
      → holds (pressed_keysyms_update m (pressed_keysyms_update m xs ks pressed) ks released) j
        ≡ holds xs j
  holds-press_release xs ks j v fits new h = ground (
    arith,
    new j,
    holds-update_pressed xs ks j v fits h,
    holds-update_released (pressed_keysyms_update m xs ks pressed) ks j
        (pressed_keysyms_update-IsValid xs ks pressed v) h,
  )

-- No key is down.
abbrev pub blank : List ℕ
blank = replicate cap no_symbol

index-blank : (n a : ℕ) → a ≢ no_symbol → pressed_keysyms_index (replicate n no_symbol) a ≡ none
unfolding pressed_keysyms_index
index-blank zero a h = refl
index-blank (suc n) a h = ground (arith, index-blank n a)

add_first :
    (r : List ℕ) (a : ℕ)
    → a ≢ no_symbol
    → pressed_keysyms_index r a ≡ none
    → pressed_keysyms_add (no_symbol ∷ r) a ≡ a ∷ r
unfolding pressed_keysyms_add
add_first r a h e = ground arith

add_second :
    (r : List ℕ) (a b : ℕ)
    → a ≢ no_symbol
    → b ≢ no_symbol
    → a ≢ b
    → pressed_keysyms_index r b ≡ none
    → pressed_keysyms_add (a ∷ no_symbol ∷ r) b ≡ a ∷ b ∷ r
unfolding pressed_keysyms_add
add_second r a b h k ne e = ground arith

remove_first : (r : List ℕ) (a : ℕ) → pressed_keysyms_remove (a ∷ r) a ≡ no_symbol ∷ r
unfolding pressed_keysyms_remove
remove_first r a = ground arith

length-blank : (n : ℕ) → pressed_keysyms_length (replicate n no_symbol) ≡ 0
unfolding pressed_keysyms_length
length-blank zero = refl
length-blank (suc n) = ground (arith, length-blank n)

-- With two keys of different keysyms that are no modifiers, and no key down before: after one is
-- pressed, the second is pressed and the first is released, one keysym is down, yet the first entry of the array, which the bindings are looked up by, holds no keysym.
pub first_entry_stale :
    (m : ModifierKeysyms) (a b : ℕ)
    → keysym_is_modifier m a ≡ false
    → keysym_is_modifier m b ≡ false
    → a ≢ no_symbol
    → b ≢ no_symbol
    → a ≢ b
    → let xs = pressed_keysyms_update m blank (a ∷ []) pressed in
      let ys = pressed_keysyms_update m xs (b ∷ []) pressed in
      let zs = pressed_keysyms_update m ys (a ∷ []) released in
      (pressed_keysyms_length zs ≡ 1) × (get_or zs 0 no_symbol ≡ no_symbol) × (holds zs b ≡ true)
unfolding pressed_keysyms_update update_one
first_entry_stale m a b ma mb na nb ne =
    rw
      (
        ma,
        mb,
        add_first (replicate 31 no_symbol) a na (index-blank 31 a na),
        add_second (replicate 30 no_symbol) a b na nb ne (index-blank 30 b nb),
        remove_first (b ∷ replicate 30 no_symbol) a,
      )
      (one_down, refl, ground arith)
  where
    one_down : pressed_keysyms_length (no_symbol ∷ b ∷ replicate 30 no_symbol) ≡ 1
    one_down = unfold pressed_keysyms_length in ground (arith, length-blank 30)
