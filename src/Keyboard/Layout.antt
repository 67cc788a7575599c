-- ===== src/Keyboard/Layout.antt =====
-- src/keyboard.c: going through the keyboard layouts, and the repeat rate.
use mathlib.Core.List.{append-nil, append_assoc}
use phoc.Prelude.{
  ℕ, zero, suc, ◌+◌, ◌/◌, ◌≤◌, ◌≡◌, refl, sym, ◌∙◌, ap, Bool, true, false, List, [], ◌∷◌, ◌++◌,
  Option, none, some, arith, length, length-append, ltb, if◌then◌else◌,
}
use phoc.Keyboard.HandleKey.{phoc_keyboard_next_layout}

-- on_keyboard_setting_changed: the rate in keys per second and the delay.
unfoldable pub repeat_info : Bool → ℕ → ℕ → ℕ × ℕ
repeat_info false interval delay = (0, 0)
repeat_info true interval delay = (if ltb 0 interval then 1000 / interval else 0, delay)

module _ {ℓ} {A : Type ℓ} where
  -- Pressing the key for the next layout `n` times.
  pub presses : ℕ → List A → Option (List A)
  presses zero sources = some sources
  presses (suc n) sources = elim (phoc_keyboard_next_layout sources) [
    | none ↦ none
    | some next ↦ presses n next
  ]

  next_layout_rotates :
      (x : A) (xs : List A)
      → 1 ≤ length xs
      → phoc_keyboard_next_layout (x ∷ xs) ≡ some (xs ++ x ∷ [])
  unfolding phoc_keyboard_next_layout
  next_layout_rotates x [] h = elim h [ ]
  next_layout_rotates x (y ∷ ys) h = refl

  presses_rotate :
      (xs ys : List A)
      → 2 ≤ length xs + length ys
      → presses (length xs) (xs ++ ys) ≡ some (ys ++ xs)
  unfolding presses phoc_keyboard_next_layout
  presses_rotate [] ys h = ap some (sym (append-nil ys))
  presses_rotate (x ∷ xs) ys h =
      rw
        (
          next_layout_rotates x (xs ++ ys) (omega (arith, length-append xs ys)),
          append_assoc xs ys (x ∷ []),
        )
        (presses_rotate xs (ys ++ x ∷ []) (omega (arith, length-append ys (x ∷ [])))
          ∙ ap some (append_assoc ys (x ∷ []) xs))

  -- With at least two layouts each press makes the next one current, and after as many presses as
  -- there are layouts the list is the first one again: no layout is lost or left out.
  pub presses_all :
      (sources : List A) → 2 ≤ length sources → presses (length sources) sources ≡ some sources
  presses_all sources h =
      ap (presses (length sources)) (sym (append-nil sources))
      ∙ presses_rotate sources [] (omega arith)
