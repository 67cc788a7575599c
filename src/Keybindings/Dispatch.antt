-- ===== src/Keybindings/Dispatch.antt =====
-- The bindings of src/keybindings.c: changed settings and pressed keys.
use Prim.Native.String.{String}
use text.Mathlib.Text.{◌==◌ as str_eq}
use text.Mathlib.TextEquality.{eq_iff}
use phoc.Prelude.{
  ℕ, ◌≡◌, refl, ap, ◌≢◌, ◌⊎◌, inl, inr, true, false, List, [], ◌∷◌, ◌++◌, none, some, ◌==◌,
  if◌then◌else◌, arith, Bool-cases,
}
use phoc.Keybindings.Accel.{Keys, PhocKeyCombo, lookup_keysym}
use phoc.Keybindings.Parse.{Tag, texts, masks, IsKeyName, parse_accelerator-texts}
use phoc.Keybindings.Bindings.{
  Handler, PhocKeybinding, PhocKeybindings, keybinding_by_name, keybinding_by_key_combo,
  find_custom, has_combo, fill, set_combos, on_keybinding_setting_changed,
  phoc_keybindings_handle_pressed,
}

-- The names with their handlers, in order.
abbrev pub signature : List PhocKeybinding → List (String × Handler)
signature [] = []
signature (b ∷ bs) = (b.name, b.func) ∷ signature bs

pub signature-append :
    (bs cs : List PhocKeybinding) → signature (bs ++ cs) ≡ signature bs ++ signature cs
signature-append [] cs = refl
signature-append (b ∷ bs) cs = ap (◌∷◌ (b.name, b.func)) (signature-append bs cs)

signature-set_combos :
    (name : String) (cs : List PhocKeyCombo) (bs : List PhocKeybinding)
    → signature (set_combos name cs bs) ≡ signature bs
unfolding set_combos
signature-set_combos name cs [] = refl
signature-set_combos name cs (b ∷ bs) = ground (arith, signature-set_combos name cs bs)

find_custom-set_combos :
    (name other : String) (cs : List PhocKeyCombo) (bs : List PhocKeybinding) (b : PhocKeybinding)
    → find_custom (keybinding_by_name other) bs ≡ some b
    → find_custom (keybinding_by_name other) (set_combos name cs bs)
      ≡ some (if str_eq name other then record b { combos = cs } else b)
unfolding set_combos
find_custom-set_combos name other cs [] b e = cc
find_custom-set_combos name other cs (x ∷ bs) b e = ground (
  arith,
  eq_iff name other,
  eq_iff x.name other,
  eq_iff x.name name,
  find_custom-set_combos name other cs bs b,
)

-- A changed setting of a known key whose accelerators parse to `cs` succeeds. It keeps the bindings'
-- names, handlers and order; the binding of that name then has exactly `cs`, and a binding that any
-- other name finds is as before.
pub on_keybinding_setting_changed_lem :
    (k : Keys) (strv : String → List (List ℕ)) (key other : String) (self : PhocKeybindings)
    (x b : PhocKeybinding) (cs : List PhocKeyCombo)
    → find_custom (keybinding_by_name key) self.bindings ≡ some x
    → fill k (strv key) [] ≡ some cs
    → find_custom (keybinding_by_name other) self.bindings ≡ some b
    → (self' : PhocKeybindings) × (on_keybinding_setting_changed k strv key self ≡ some self')
      × (signature self'.bindings ≡ signature self.bindings)
      × (find_custom (keybinding_by_name other) self'.bindings
          ≡ some (if str_eq key other then record b { combos = cs } else b))
unfolding on_keybinding_setting_changed
on_keybinding_setting_changed_lem k strv key other self x b cs known parsed e = (
  record { bindings = set_combos key cs self.bindings },
  rw (known, on_keybinding_setting_changed, parsed),
  signature-set_combos key cs self.bindings,
  find_custom-set_combos key other cs self.bindings b e,
)

abbrev pub Lacks : PhocKeyCombo → List PhocKeybinding → Type 0
Lacks c [] = Unit
Lacks c (b ∷ bs) = (has_combo c b.combos ≡ false) × Lacks c bs

-- The first binding that has a combination.
pub record IsFirst (c : PhocKeyCombo) (bs : List PhocKeybinding) (b : PhocKeybinding) : Type 0 where
  pub before : List PhocKeybinding
  pub behind : List PhocKeybinding
  pub split : bs ≡ before ++ b ∷ behind
  pub none_before : Lacks c before
  pub has : has_combo c b.combos ≡ true

find_custom-IsFirst :
    (c : PhocKeyCombo) (bs : List PhocKeybinding)
    → ((find_custom (keybinding_by_key_combo c) bs ≡ none) × Lacks c bs)
      ⊎ ((b : PhocKeybinding) × (find_custom (keybinding_by_key_combo c) bs ≡ some b)
          × IsFirst c bs b)
find_custom-IsFirst c [] = inl (refl, tt)
find_custom-IsFirst c (b ∷ bs) = elim (Bool-cases (has_combo c b.combos)) [
  | inl hit ↦
      inr
        (b, rw hit, record { before = []; behind = bs; split = refl; none_before = tt; has = hit })
  | inr miss ↦ elim (find_custom-IsFirst c bs) [
    | inl (e, l) ↦ inl (rw miss e, (miss, l))
    | inr (x, e, first) ↦ inr (
      x,
      rw miss e,
      record {
        before = b ∷ first.before;
        behind = first.behind;
        split = ap (◌∷◌ b) first.split;
        none_before = (miss, first.none_before);
        has = first.has;
      },
    )
  ]
]

-- A press runs a handler exactly when one key is down and some binding has its combination, and then
-- the handler is that of the first such binding in the list.
pub phoc_keybindings_handle_pressed_lem :
    (self : PhocKeybindings) (modifiers first len : ℕ)
    → let c : PhocKeyCombo = record { modifiers = modifiers; keysym = first } in
      ((phoc_keybindings_handle_pressed self modifiers first len ≡ none)
        × ((len ≢ 1) ⊎ Lacks c self.bindings))
      ⊎ ((b : PhocKeybinding) × (phoc_keybindings_handle_pressed self modifiers first len
            ≡ some b.func)
          × (len ≡ 1)
          × IsFirst c self.bindings b)
unfolding phoc_keybindings_handle_pressed
phoc_keybindings_handle_pressed_lem self modifiers first len = elim (Bool-cases (len == 1)) [
  | inr many ↦ inl (rw many, inl (ground arith))
  | inl one ↦
      elim (find_custom-IsFirst (record { modifiers = modifiers; keysym = first }) self.bindings) [
        | inl (e, l) ↦ inl (rw (one, e), inr l)
        | inr (b, e, f) ↦ inr (b, rw (one, e), ground arith, f)
      ]
]

-- No binding of another name has the combination.
abbrev pub OthersLack : String → PhocKeyCombo → List PhocKeybinding → Type 0
OthersLack name c [] = Unit
OthersLack name c (b ∷ bs) = (b.name ≢ name → has_combo c b.combos ≡ false) × OthersLack name c bs

find_custom-refilled :
    (name : String) (c : PhocKeyCombo) (bs : List PhocKeybinding) (b : PhocKeybinding)
    → find_custom (keybinding_by_name name) bs ≡ some b
    → OthersLack name c bs
    → find_custom (keybinding_by_key_combo c) (set_combos name (c ∷ []) bs)
      ≡ some (record b { combos = c ∷ [] })
unfolding set_combos
find_custom-refilled name c [] b e o = cc
find_custom-refilled name c (x ∷ bs) b e o =
    ground (arith, eq_iff x.name name, o.0, find_custom-refilled name c bs b)

fill_one :
    (k : Keys) (ts : List Tag) (c : ℕ) (s : List ℕ)
    → IsKeyName k c s
    → fill k ((texts ts ++ c ∷ s) ∷ []) []
      ≡ some (record { modifiers = masks k 0 ts; keysym = lookup_keysym k (c ∷ s) } ∷ [])
unfolding fill
fill_one k ts c s n = rw (fill, parse_accelerator-texts k ts c s n)

-- From the setting to the action: when the setting of a known binding becomes one accelerator of
-- tags and a key's name, and no other binding has its combination, then pressing that key alone with
-- those modifiers runs the binding's handler.
pub pressed_after_change :
    (k : Keys) (strv : String → List (List ℕ)) (key : String) (self : PhocKeybindings)
    (b : PhocKeybinding) (ts : List Tag) (c : ℕ) (s : List ℕ)
    → IsKeyName k c s
    → strv key ≡ (texts ts ++ c ∷ s) ∷ []
    → find_custom (keybinding_by_name key) self.bindings ≡ some b
    → OthersLack key
        (record { modifiers = masks k 0 ts; keysym = lookup_keysym k (c ∷ s) })
        self.bindings
    → (self' : PhocKeybindings) × (on_keybinding_setting_changed k strv key self ≡ some self')
      × (phoc_keybindings_handle_pressed self' (masks k 0 ts) (lookup_keysym k (c ∷ s)) 1
          ≡ some b.func)
unfolding on_keybinding_setting_changed phoc_keybindings_handle_pressed
pressed_after_change k strv key self b ts c s n set found lack =
    let combo : PhocKeyCombo = record {
      modifiers = masks k 0 ts;
      keysym = lookup_keysym k (c ∷ s);
    } in
    (
      record { bindings = set_combos key (combo ∷ []) self.bindings },
      rw (found, on_keybinding_setting_changed, set, fill_one k ts c s n),
      rw (
        phoc_keybindings_handle_pressed,
        find_custom-refilled key combo self.bindings b found lack,
      ),
    )
