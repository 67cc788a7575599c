-- ===== src/Keybindings/Tests.antt =====
-- Concrete accelerators, settings and key presses for src/keybindings.c.
use Prim.Native.String.{String}
use phoc.Prelude.{ℕ, ◌≡◌, refl, ◌≢◌, List, [], ◌∷◌, ◌++◌, some, leb, ◌&&◌, arith}
use phoc.Keybindings.Accel.{
  Keys, PhocKeyCombo, combo, overrun, codes, is_keycode, eq_text, lookup_keysym, parse_accelerator,
}
use phoc.Keybindings.Bindings.{
  close, maximize, PhocKeybinding, PhocKeybindings, fill, on_keybinding_setting_changed,
  phoc_keybindings_handle_pressed,
}
use phoc.Keybindings.Parse.{
  super, shift, texts, masks, IsKeyName, parse_accelerator-texts, Modifier, known, primary,
  all_texts, known_tags, parse_accelerator_primary,
}
use phoc.Keybindings.Overrun.{Closed, parse_accelerator_overrun, parse_accelerator_safe}
use phoc.Keybindings.Dispatch.{pressed_after_change}

abbrev keysym_of : List ℕ → ℕ
keysym_of [] = 0
keysym_of (c ∷ s) = c

-- The masks are wlroots'; a key is named by its first letter.
abbrev keys : Keys
keys = record {
  shift = 1;
  ctrl = 4;
  alt = 8;
  mod2 = 16;
  mod3 = 32;
  logo = 64;
  mod5 = 128;
  keysym_from_name = keysym_of;
  is_xdigit = λ c. leb b'0' c && leb c b'9';
}

x_name : IsKeyName keys b'x' []
unfolding is_keycode eq_text lookup_keysym
x_name = record {
  no_tag = λ e. omega arith;
  no_keycode = refl;
  handled = refl;
  known = λ e. omega arith;
}

parse_accelerator-texts_example :
    parse_accelerator keys (some (texts (super ∷ shift ∷ []) ++ b'x' ∷ []))
    ≡ some (
        combo (record {
          modifiers = masks keys 0 (super ∷ shift ∷ []);
          keysym = lookup_keysym keys (b'x' ∷ []);
        }))
parse_accelerator-texts_example = parse_accelerator-texts keys (super ∷ shift ∷ []) b'x' [] x_name

abbrev primary_thrice : List Modifier
primary_thrice = primary ∷ known shift ∷ primary ∷ primary ∷ known super ∷ []

parse_accelerator_primary_example :
    parse_accelerator keys (some (all_texts primary_thrice ++ b'x' ∷ []))
    ≡ parse_accelerator keys (some (texts (known_tags primary_thrice) ++ b'x' ∷ []))
parse_accelerator_primary_example = parse_accelerator_primary keys primary_thrice b'x' [] x_name

parse_accelerator_overrun_example :
    parse_accelerator keys (some (texts (super ∷ []) ++ b'<' ∷ codes "Al")) ≡ some overrun
parse_accelerator_overrun_example =
    parse_accelerator_overrun keys (super ∷ []) (codes "Al")
      ((λ e. omega arith), ((λ e. omega arith), tt))

f-Closed : Closed (codes "<F>x")
f-Closed = (
  (λ e h. h.1.0 refl),
  ((λ e. absurd (omega arith)), ((λ e. absurd (omega arith)), ((λ e. absurd (omega arith)), tt))),
)

parse_accelerator_safe_example : parse_accelerator keys (some (codes "<F>x")) ≢ some overrun
parse_accelerator_safe_example = parse_accelerator_safe keys (codes "<F>x") f-Closed

abbrev strv : String → List (List ℕ)
strv key = (texts (super ∷ []) ++ b'x' ∷ []) ∷ []

abbrev super_x : PhocKeyCombo
super_x = record { modifiers = masks keys 0 (super ∷ []); keysym = b'x' }

abbrev close_binding : PhocKeybinding
close_binding = record { name = "close"; func = close; combos = [] }

abbrev maximize_binding : PhocKeybinding
maximize_binding = record { name = "maximize"; func = maximize; combos = super_x ∷ [] }

abbrev bindings : PhocKeybindings
bindings = record { bindings = close_binding ∷ maximize_binding ∷ [] }

fill-strv : fill keys (strv "close") [] ≡ some (super_x ∷ [])
unfolding fill lookup_keysym
fill-strv = rw (fill, parse_accelerator-texts keys (super ∷ []) b'x' [] x_name) refl

pressed_after_change_example :
    (self' : PhocKeybindings) × (on_keybinding_setting_changed keys strv "close"
        (record { bindings = close_binding ∷ [] })
      ≡ some self')
    × (phoc_keybindings_handle_pressed self'
          (masks keys 0 (super ∷ []))
          (lookup_keysym keys (b'x' ∷ []))
          1
        ≡ some close)
pressed_after_change_example =
    pressed_after_change keys strv "close" (record { bindings = close_binding ∷ [] }) close_binding
      (super ∷ []) b'x' [] x_name refl refl ((λ ne. absurd (ne refl)), tt)

abbrev one : ℕ
one = 1
