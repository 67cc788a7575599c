-- ===== src/Keybindings/Bindings.antt =====
-- src/keybindings.c: the list of bindings, how a changed setting refills one, and how a pressed key
-- finds its action. A GSList is a list; the settings are a function from a key to its accelerators.
use Prim.Native.String.{String}
use text.Mathlib.Text.{◌==◌ as str_eq}
use phoc.Prelude.{
  ℕ, Bool, true, false, ◌&&◌, ◌||◌, List, [], ◌∷◌, ◌++◌, Option, none, some, ◌==◌, if◌then◌else◌,
}
use phoc.Keybindings.Accel.{Keys, PhocKeyCombo, Parsed, combo, reject, overrun, parse_accelerator}

-- The handlers, by what follows `handle_` in their names.
pub data Handler : Type 0 where
  close cycle_windows maximize toggle_fullscreen toggle_maximized : Handler
  move_to_monitor_right move_to_monitor_left unmaximize switch_input_source : Handler
  tile_left tile_right : Handler

pub record PhocKeybinding : Type 0 where
  pub name : String
  pub func : Handler
  pub combos : List PhocKeyCombo

pub record PhocKeybindings : Type 0 where
  pub bindings : List PhocKeybinding

abbrev pub key_combo_eq : PhocKeyCombo → PhocKeyCombo → Bool
key_combo_eq a b = a.modifiers == b.modifiers && a.keysym == b.keysym

-- The compare functions return whether the element matches (0 in the source).
abbrev pub keybinding_by_name : String → PhocKeybinding → Bool
keybinding_by_name name b = str_eq b.name name

abbrev pub has_combo : PhocKeyCombo → List PhocKeyCombo → Bool
has_combo c [] = false
has_combo c (d ∷ ds) = key_combo_eq d c || has_combo c ds

abbrev pub keybinding_by_key_combo : PhocKeyCombo → PhocKeybinding → Bool
keybinding_by_key_combo c b = has_combo c b.combos

-- g_slist_find_custom
abbrev pub find_custom : (PhocKeybinding → Bool) → List PhocKeybinding → Option PhocKeybinding
find_custom p [] = none
find_custom p (b ∷ bs) = if p b then some b else find_custom p bs

-- What one accelerator adds to the combos; `none` if the parser reads behind the text.
abbrev pub append_parsed : Option Parsed → List PhocKeyCombo → Option (List PhocKeyCombo)
append_parsed none cs = none
append_parsed (some overrun) cs = none
append_parsed (some reject) cs = some cs
append_parsed (some (combo c)) cs = some (cs ++ c ∷ [])

-- The loop that fills `combos`.
unfoldable pub fill : Keys → List (List ℕ) → List PhocKeyCombo → Option (List PhocKeyCombo)
fill k [] cs = some cs
fill k (a ∷ rest) cs = elim (append_parsed (parse_accelerator k (some a)) cs) [
  | none ↦ none
  | some ds ↦ fill k rest ds
]

-- Replace the combos of the first binding of a name.
unfoldable pub set_combos : String → List PhocKeyCombo → List PhocKeybinding → List PhocKeybinding
set_combos name cs [] = []
set_combos name cs (b ∷ bs) =
    if keybinding_by_name name b then record b { combos = cs } ∷ bs else b ∷ set_combos name cs bs

-- An unknown name changes nothing; `none` as for `fill`.
unfoldable pub on_keybinding_setting_changed :
    Keys → (String → List (List ℕ)) → String → PhocKeybindings → Option PhocKeybindings
unfolding fill set_combos
on_keybinding_setting_changed k strv key self =
    elim (find_custom (keybinding_by_name key) self.bindings) [
      | none ↦ some self
      | some b ↦ elim (fill k (strv key) []) [
        | none ↦ none
        | some cs ↦ some (record { bindings = set_combos key cs self.bindings })
      ]
    ]

-- The new bindings and the returned flag.
unfoldable pub phoc_add_keybinding :
    Keys
    → (String → List (List ℕ))
    → String
    → Handler
    → PhocKeybindings
    → Option (PhocKeybindings × Bool)
unfolding on_keybinding_setting_changed
phoc_add_keybinding k strv name func self =
    elim (find_custom (keybinding_by_name name) self.bindings) [
      | some b ↦ some (self, false)
      | none ↦
          elim (on_keybinding_setting_changed k strv name (record {
            bindings = self.bindings ++ record { name = name; func = func; combos = [] } ∷ [];
          })) [ none ↦ none | some self' ↦ some (self', true) ]
    ]

-- The calls that phoc_keybindings_constructed makes, in order: the second part is true for the
-- schema of mutter.
abbrev pub builtin : List (String × Bool × Handler)
builtin =
    ("close", false, close)
    ∷ ("cycle-windows", false, cycle_windows)
    ∷ ("maximize", false, maximize)
    ∷ ("toggle-fullscreen", false, toggle_fullscreen)
    ∷ ("toggle-maximized", false, toggle_maximized)
    ∷ ("move-to-monitor-right", false, move_to_monitor_right)
    ∷ ("move-to-monitor-left", false, move_to_monitor_left)
    ∷ ("switch-applications", false, cycle_windows)
    ∷ ("unmaximize", false, unmaximize)
    ∷ ("switch-input-source", false, switch_input_source)
    ∷ ("toggle-tiled-left", true, tile_left)
    ∷ ("toggle-tiled-right", true, tile_right)
    ∷ []

unfoldable pub add_all :
    Keys
    → (Bool → String → List (List ℕ))
    → List (String × Bool × Handler)
    → PhocKeybindings
    → Option PhocKeybindings
add_all k strv [] self = some self
add_all k strv ((name, mutter, func) ∷ rest) self =
    elim (phoc_add_keybinding k (strv mutter) name func self) [
      | none ↦ none
      | some (self', added) ↦ add_all k strv rest self'
    ]

unfoldable pub phoc_keybindings_constructed :
    Keys → (Bool → String → List (List ℕ)) → Option PhocKeybindings
unfolding add_all
phoc_keybindings_constructed k strv = add_all k strv builtin (record { bindings = [] })

-- The handler that is run; `none` is FALSE. The keysyms are the array's first ones: the code reads
-- the element 0, which an array has, and takes `length` from its caller.
unfoldable pub phoc_keybindings_handle_pressed : PhocKeybindings → ℕ → ℕ → ℕ → Option Handler
phoc_keybindings_handle_pressed self modifiers first len =
    if len == 1
    then elim (find_custom
        (keybinding_by_key_combo (record { modifiers = modifiers; keysym = first }))
        self.bindings) [ none ↦ none | some b ↦ some b.func ]
    else none
