-- ===== src/Keybindings/Setup.antt =====
-- Filling the list of bindings in src/keybindings.c.
use Prim.Native.String.{String}
use text.Mathlib.Text.{◌==◌ as str_eq}
use text.Mathlib.TextEquality.{eq_iff}
use phoc.Prelude.{
  ℕ, ◌≡◌, refl, ap, ◌∙◌, ◌≢◌, ◌⊎◌, inl, inr, Bool, true, false, ◌||◌, List, [], ◌∷◌, ◌++◌, Option,
  none, some, arith, Option-cases,
}
use mathlib.Core.List.{append-nil, append_assoc}
use phoc.Keybindings.Accel.{Keys, PhocKeyCombo, Parsed, combo, reject, overrun}
use phoc.Keybindings.Overrun.{Closed, parse_accelerator_total, parse_accelerator_safe}
use phoc.Keybindings.Bindings.{
  Handler, PhocKeybinding, PhocKeybindings, keybinding_by_name, find_custom, append_parsed, fill,
  set_combos, on_keybinding_setting_changed, phoc_add_keybinding, add_all, builtin,
  phoc_keybindings_constructed,
}
use phoc.Keybindings.Dispatch.{signature, signature-append}

abbrev pub AllClosed : List (List ℕ) → Type 0
AllClosed [] = Unit
AllClosed (s ∷ ss) = Closed s × AllClosed ss

append_parsed_total :
    (r : Parsed) (cs : List PhocKeyCombo)
    → r ≢ overrun
    → (ds : List PhocKeyCombo) × (append_parsed (some r) cs ≡ some ds)
append_parsed_total (combo c) cs h = (cs ++ c ∷ [], refl)
append_parsed_total reject cs h = (cs, refl)
append_parsed_total overrun cs h = absurd (h refl)

fill_total :
    (k : Keys) (ss : List (List ℕ)) (cs : List PhocKeyCombo)
    → AllClosed ss
    → (ds : List PhocKeyCombo) × (fill k ss cs ≡ some ds)
unfolding fill
fill_total k [] cs h = (cs, refl)
fill_total k (s ∷ ss) cs h =
    let (r, e) = parse_accelerator_total k (some s) in
    let (ds, d) = append_parsed_total r cs (λ o. parse_accelerator_safe k s h.0 (e ∙ ap some o)) in
    let (es, f) = fill_total k ss ds h.1 in (es, rw (e, fill, d) f)

find_custom-append_new :
    (name : String) (bs : List PhocKeybinding) (b : PhocKeybinding)
    → find_custom (keybinding_by_name name) bs ≡ none
    → b.name ≡ name
    → find_custom (keybinding_by_name name) (bs ++ b ∷ []) ≡ some b
find_custom-append_new name [] b e n = ground (arith, eq_iff b.name name)
find_custom-append_new name (x ∷ bs) b e n = ground (arith, find_custom-append_new name bs b)

set_combos-append_new :
    (name : String) (cs : List PhocKeyCombo) (bs : List PhocKeybinding) (b : PhocKeybinding)
    → find_custom (keybinding_by_name name) bs ≡ none
    → b.name ≡ name
    → set_combos name cs (bs ++ b ∷ []) ≡ bs ++ record b { combos = cs } ∷ []
unfolding set_combos
set_combos-append_new name cs [] b e n = ground (arith, eq_iff b.name name)
set_combos-append_new name cs (x ∷ bs) b e n = ground (arith, set_combos-append_new name cs bs b)

-- Adding a binding whose accelerators parse: a name that is there already is refused and changes
-- nothing; a new one comes last, with its handler and its parsed combinations.
pub phoc_add_keybinding_lem :
    (k : Keys) (strv : String → List (List ℕ)) (name : String) (func : Handler)
    (self : PhocKeybindings) (cs : List PhocKeyCombo)
    → fill k (strv name) [] ≡ some cs
    → ((b : PhocKeybinding) × (find_custom (keybinding_by_name name) self.bindings ≡ some b)
        × (phoc_add_keybinding k strv name func self ≡ some (self, false)))
      ⊎ ((find_custom (keybinding_by_name name) self.bindings ≡ none)
          × (phoc_add_keybinding k strv name func self
              ≡ some (
                record {
                  bindings = self.bindings ++ record { name = name; func = func; combos = cs } ∷ [];
                },
                true,
              )))
unfolding phoc_add_keybinding
phoc_add_keybinding_lem k strv name func self cs parsed =
    let new : PhocKeybinding = record { name = name; func = func; combos = [] } in
    elim (Option-cases (find_custom (keybinding_by_name name) self.bindings)) [
      | inr (b, e) ↦ inl (b, e, rw (e, phoc_add_keybinding))
      | inl e ↦ inr (
        e,
        rw (
          e,
          phoc_add_keybinding,
          find_custom-append_new name self.bindings new e refl,
          on_keybinding_setting_changed,
          parsed,
          set_combos-append_new name cs self.bindings new e refl,
        ),
      )
    ]

abbrev knows : String → List (String × Handler) → Bool
knows name [] = false
knows name ((n, f) ∷ sig) = str_eq n name || knows name sig

find_custom-unknown :
    (name : String) (bs : List PhocKeybinding)
    → knows name (signature bs) ≡ false
    → find_custom (keybinding_by_name name) bs ≡ none
find_custom-unknown name [] h = refl
find_custom-unknown name (b ∷ bs) h = ground (arith, find_custom-unknown name bs)

abbrev pub entries : List (String × Bool × Handler) → List (String × Handler)
entries [] = []
entries ((name, mutter, func) ∷ rest) = (name, func) ∷ entries rest

abbrev AllNew : List (String × Handler) → List (String × Bool × Handler) → Type 0
AllNew sig [] = Unit
AllNew sig ((name, mutter, func) ∷ rest) =
    (knows name sig ≡ false) × AllNew (sig ++ (name, func) ∷ []) rest

module _ (k : Keys) (strv : Bool → String → List (List ℕ))
    (closed : (mutter : Bool) (name : String) → AllClosed (strv mutter name)) where
  add_new :
      (name : String) (mutter : Bool) (func : Handler) (self : PhocKeybindings)
      → knows name (signature self.bindings) ≡ false
      → (self' : PhocKeybindings) × (phoc_add_keybinding k (strv mutter) name func self
          ≡ some (self', true))
        × (signature self'.bindings ≡ signature self.bindings ++ (name, func) ∷ [])
  add_new name mutter func self new =
      let (cs, parsed) = fill_total k (strv mutter name) [] (closed mutter name) in
      elim (phoc_add_keybinding_lem k (strv mutter) name func self cs parsed) [
        | inl (b, e, _) ↦ absurd (none≢some (find_custom-unknown name self.bindings new) e)
        | inr (_, e) ↦ (_, e, signature-append self.bindings _)
      ]
    where
      none≢some : {b : PhocKeybinding} {o : Option PhocKeybinding} → o ≡ none → o ≡ some b → ⊥
      none≢some p q = cc

  add_all_total :
      (rest : List (String × Bool × Handler)) (self : PhocKeybindings)
      → AllNew (signature self.bindings) rest
      → (self' : PhocKeybindings) × (add_all k strv rest self ≡ some self')
        × (signature self'.bindings ≡ signature self.bindings ++ entries rest)
  unfolding add_all
  add_all_total [] self h = (self, refl, rw append-nil)
  add_all_total ((name, mutter, func) ∷ rest) self h =
      let (mid, e, sig) = add_new name mutter func self h.0 in
      let (self', e', sig') = add_all_total rest mid (rw sig h.1) in
      (self', rw (e, add_all) e', rw (sig', sig, append_assoc))

  -- Whatever the settings hold, if no accelerator leaves a `<` open then the constructor succeeds, and
  -- the bindings are the twelve built-in names in order, each with its handler.
  pub phoc_keybindings_constructed_lem :
      (self' : PhocKeybindings) × (phoc_keybindings_constructed k strv ≡ some self')
      × (signature self'.bindings ≡ entries builtin)
  unfolding phoc_keybindings_constructed
  phoc_keybindings_constructed_lem =
      add_all_total builtin (record { bindings = [] })
        (
          refl,
          (
            refl,
            (refl, (refl, (refl, (refl, (refl, (refl, (refl, (refl, (refl, (refl, tt)))))))))),
          ),
        )
