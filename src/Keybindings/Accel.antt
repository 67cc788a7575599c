-- ===== src/Keybindings/Accel.antt =====
-- src/keybindings.c, parse_accelerator and the tag tests above it. A text is the list of its bytes
-- before the terminating NUL, and reading at the end of the list gives that NUL. The modifier masks
-- (wlroots), the name lookup (libxkbcommon) and the hex digit test (GLib) are a parameter.
use Prim.Native.Char.{code}
use Prim.Native.String.{String}
use phoc.Prelude.{
  ℕ, zero, suc, ◌-◌, Bool, true, false, ◌&&◌, ◌||◌, List, [], ◌∷◌, ◌++◌, Option, none, some, leb,
  ◌==◌, if◌then◌else◌, length, get_or, drop, bit_or,
}

-- What the parser takes from the libraries that it is linked with.
pub record Keys : Type 0 where
  pub shift : ℕ
  pub ctrl : ℕ
  pub alt : ℕ
  pub mod2 : ℕ
  pub mod3 : ℕ
  pub logo : ℕ
  pub mod5 : ℕ
  pub keysym_from_name : List ℕ → ℕ
  pub is_xdigit : ℕ → Bool

-- The bytes of an ASCII text.
abbrev pub codes : String → List ℕ
codes String.[] = []
codes (String.◌∷◌ c s) = code c ∷ codes s

pub record PhocKeyCombo : Type 0 where
  pub modifiers : ℕ  -- guint32
  pub keysym : ℕ  -- xkb_keysym_t

-- XKB_KEY_NoSymbol
abbrev pub no_symbol : ℕ
no_symbol = 0

-- `overrun` is a read behind the terminating NUL; `reject` is the NULL that the function returns.
pub data Parsed : Type 0 where
  combo : PhocKeyCombo → Parsed
  reject : Parsed
  overrun : Parsed

abbrev pub at : List ℕ → ℕ → ℕ
at s i = get_or s i 0

abbrev pub either : ℕ → ℕ → ℕ → Bool
either lower upper c = c == lower || c == upper

unfoldable pub is_alt : List ℕ → Bool
is_alt s =
    at s 0 == b'<'
    && either b'a' b'A' (at s 1)
    && either b'l' b'L' (at s 2)
    && either b't' b'T' (at s 3)
    && at s 4 == b'>'

unfoldable pub is_ctl : List ℕ → Bool
is_ctl s =
    at s 0 == b'<'
    && either b'c' b'C' (at s 1)
    && either b't' b'T' (at s 2)
    && either b'l' b'L' (at s 3)
    && at s 4 == b'>'

unfoldable pub is_modx : List ℕ → Bool
is_modx s =
    at s 0 == b'<'
    && either b'm' b'M' (at s 1)
    && either b'o' b'O' (at s 2)
    && either b'd' b'D' (at s 3)
    && (leb b'1' (at s 4) && leb (at s 4) b'5')
    && at s 5 == b'>'

unfoldable pub is_ctrl : List ℕ → Bool
is_ctrl s =
    at s 0 == b'<'
    && either b'c' b'C' (at s 1)
    && either b't' b'T' (at s 2)
    && either b'r' b'R' (at s 3)
    && either b'l' b'L' (at s 4)
    && at s 5 == b'>'

unfoldable pub is_shft : List ℕ → Bool
is_shft s =
    at s 0 == b'<'
    && either b's' b'S' (at s 1)
    && either b'h' b'H' (at s 2)
    && either b'f' b'F' (at s 3)
    && either b't' b'T' (at s 4)
    && at s 5 == b'>'

unfoldable pub is_shift : List ℕ → Bool
is_shift s =
    at s 0 == b'<'
    && either b's' b'S' (at s 1)
    && either b'h' b'H' (at s 2)
    && either b'i' b'I' (at s 3)
    && either b'f' b'F' (at s 4)
    && either b't' b'T' (at s 5)
    && at s 6 == b'>'

unfoldable pub is_control : List ℕ → Bool
is_control s =
    at s 0 == b'<'
    && either b'c' b'C' (at s 1)
    && either b'o' b'O' (at s 2)
    && either b'n' b'N' (at s 3)
    && either b't' b'T' (at s 4)
    && either b'r' b'R' (at s 5)
    && either b'o' b'O' (at s 6)
    && either b'l' b'L' (at s 7)
    && at s 8 == b'>'

unfoldable pub is_meta : List ℕ → Bool
is_meta s =
    at s 0 == b'<'
    && either b'm' b'M' (at s 1)
    && either b'e' b'E' (at s 2)
    && either b't' b'T' (at s 3)
    && either b'a' b'A' (at s 4)
    && at s 5 == b'>'

unfoldable pub is_super : List ℕ → Bool
is_super s =
    at s 0 == b'<'
    && either b's' b'S' (at s 1)
    && either b'u' b'U' (at s 2)
    && either b'p' b'P' (at s 3)
    && either b'e' b'E' (at s 4)
    && either b'r' b'R' (at s 5)
    && at s 6 == b'>'

unfoldable pub is_hyper : List ℕ → Bool
is_hyper s =
    at s 0 == b'<'
    && either b'h' b'H' (at s 1)
    && either b'y' b'Y' (at s 2)
    && either b'p' b'P' (at s 3)
    && either b'e' b'E' (at s 4)
    && either b'r' b'R' (at s 5)
    && at s 6 == b'>'

unfoldable pub is_keycode : Keys → List ℕ → Bool
is_keycode k s = at s 0 == b'0' && at s 1 == b'x' && k.is_xdigit (at s 2) && k.is_xdigit (at s 3)

-- The table `mod_vals`, at the digit that `is_modx` has found.
unfoldable pub mod_val : Keys → ℕ → ℕ
mod_val k c = get_or (k.alt ∷ k.mod2 ∷ k.mod3 ∷ k.logo ∷ k.mod5 ∷ []) (c - b'1') 0

-- What one round of the loop does: skip `n` bytes and add a modifier, only skip `n` bytes, or end.
pub data Round : Type 0 where
  advance : ℕ → ℕ → Round
  ignore : ℕ → Round
  finish : Parsed → Round

-- The inner loop over an unknown tag: the bytes that it eats, or `none` if it eats the NUL.
unfoldable pub skip_tag : List ℕ → Option ℕ
skip_tag [] = none
skip_tag (c ∷ s) =
    let rest = skip_tag s in
    if c == b'>' then some 1 else elim rest [ none ↦ none | some n ↦ some (suc n) ]

unfoldable pub unknown_tag : List ℕ → Round
unknown_tag s = elim (skip_tag s) [ none ↦ finish overrun | some n ↦ ignore n ]

-- The branch for `<`: the tests in the source's order, each behind the test of the length.
unfoldable pub tag_round : Keys → List ℕ → Round
unfolding unknown_tag
tag_round k s =
    if leb 9 len && is_control s
    then advance 9 k.ctrl
    else if leb 7 len && is_shift s
    then advance 7 k.shift
    else if leb 6 len && is_shft s
    then advance 6 k.shift
    else if leb 6 len && is_ctrl s
    then advance 6 k.ctrl
    else if leb 6 len && is_modx s
    then advance 6 (mod_val k (at s 4))
    else if leb 5 len && is_ctl s
    then advance 5 k.ctrl
    else if leb 5 len && is_alt s
    then advance 5 k.alt
    else if leb 6 len && is_meta s
    then finish reject
    else if leb 7 len && is_hyper s
    then finish reject
    else if leb 7 len && is_super s
    then advance 7 k.logo
    else unknown_tag s
  where
    len : ℕ
    len = length s

unfoldable pub eq_text : List ℕ → List ℕ → Bool
eq_text [] [] = true
eq_text [] (d ∷ t) = false
eq_text (c ∷ s) [] = false
eq_text (c ∷ s) (d ∷ t) = c == d && eq_text s t

-- The keysym of a name, or of the name with XF86 before it.
unfoldable pub lookup_keysym : Keys → List ℕ → ℕ
lookup_keysym k s =
    if k.keysym_from_name s == no_symbol
    then k.keysym_from_name (codes "XF86" ++ s)
    else k.keysym_from_name s

-- The other branch: a keycode leaves the loop with the modifiers so far and no keysym.
unfoldable pub key_round : Keys → List ℕ → ℕ → Parsed
unfolding lookup_keysym eq_text
key_round k s mods =
    if leb 4 (length s) && is_keycode k s
    then combo (record { modifiers = mods; keysym = no_symbol })
    else if eq_text s (codes "Above_Tab")
    then reject
    else if lookup_keysym k s == no_symbol
    then reject
    else combo (record { modifiers = mods; keysym = lookup_keysym k s })

-- Go on `n` bytes further, of which there must be as many before the terminating NUL.
abbrev pub step_over : (List ℕ → ℕ → Option Parsed) → List ℕ → ℕ → ℕ → Option Parsed
step_over loop s mods n = if leb n (length s) then loop (drop n s) mods else some overrun

-- Go on with the loop as a round says.
abbrev pub follow : (List ℕ → ℕ → Option Parsed) → List ℕ → ℕ → Round → Option Parsed
follow loop s mods (advance n m) = step_over loop s (bit_or mods m) n
follow loop s mods (ignore n) = step_over loop s mods n
follow loop s mods (finish r) = some r

-- The loop, on fuel; `none` means that the fuel ran out.
unfoldable pub parse_loop : Keys → ℕ → List ℕ → ℕ → Option Parsed
parse_loop k zero s mods = none
parse_loop k (suc f) [] mods = some (combo (record { modifiers = mods; keysym = no_symbol }))
parse_loop k (suc f) (c ∷ s) mods =
    if c == b'<'
    then follow (parse_loop k f) (c ∷ s) mods (tag_round k (c ∷ s))
    else some (key_round k (c ∷ s) mods)

-- Every round eats a byte, so the length bounds the rounds.
unfoldable pub parse_accelerator : Keys → Option (List ℕ) → Option Parsed
unfolding parse_loop
parse_accelerator k none = some reject
parse_accelerator k (some s) = parse_loop k (suc (length s)) s 0
