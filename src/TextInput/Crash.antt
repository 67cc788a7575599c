-- ===== src/TextInput/Crash.antt =====
-- src/text_input.c: two text inputs of one client, and an input method that comes while both wait for a surface.
use phoc.Prelude.{
  true, ℕ, ◌≡◌, ap, refl, List, [], ◌∷◌, ◌++◌, Option, none, some, ◌>>=◌, ==_iff, ==_refl,
  Option-cases, inl, inr,
}
use phoc.TextInput.{
  enter, focus_one, TextInput, RelayMessage, Relay, Protocol, roots_input_method_relay_set_focus,
  relay_handle_input_method,
}
use phoc.TextInput.Focus.{told, at, Honest}

abbrev pub two : Option ℕ → TextInput → TextInput → List RelayMessage → Relay
two im t u ms = record { text_inputs = t ∷ u ∷ []; input_method = im; messages = ms }

module _ (P : Protocol) where
  -- The focus moves to s, the input method m comes, and the focus is given to s once more, as
  -- phoc_seat_set_focus_layer does for the layer that has it already.
  abbrev pub focused_twice : ℕ → ℕ → Relay → Option Relay
  focused_twice s m r = roots_input_method_relay_set_focus P (some s) r >>= λ u.
      roots_input_method_relay_set_focus P (some s) (relay_handle_input_method P true m u)

  waits :
      (s : ℕ) (t : TextInput)
      → t.client ≡ P.client_of s
      → focus_one P none (some s) (at none none t) ≡ told (at (some s) none t) []
  waits s t p = rw ((==_iff t.client (P.client_of s)).1 p) refl

  stays :
      (s m : ℕ) (t : TextInput)
      → t.client ≡ P.client_of s
      → focus_one P (some m) (some s) (at none (some s) t) ≡ told (at none (some s) t) []
  stays s m t p = rw (==_refl s, (==_iff t.client (P.client_of s)).1 p, ==_refl s) refl

  enters_again :
      (s m : ℕ) (t : TextInput)
      → Honest P
      → t.client ≡ P.client_of s
      → focus_one P (some m) (some s) (at (some s) none t)
        ≡ told (at (some s) (some s) t) (enter t.id s ∷ [])
  enters_again s m t h p =
      rw (==_refl s, (==_iff t.client (P.client_of s)).1 p, h.enters s none) refl

  both :
      (im x : Option ℕ) (s : ℕ) (t u : TextInput) (ms : List RelayMessage)
      → roots_input_method_relay_set_focus P x (two im t (at (some s) (some s) u) ms) ≡ none
  unfolding roots_input_method_relay_set_focus
  both im x s t u ms = elim (Option-cases (focus_one P im x t)) [
    | inl e ↦ rw e refl
    | inr (v, e) ↦ rw e refl
  ]

  set_focus-two :
      (im x : Option ℕ) (t u t1 u1 : TextInput) (ms l k : List RelayMessage)
      → focus_one P im x t ≡ told t1 l
      → focus_one P im x u ≡ told u1 k
      → roots_input_method_relay_set_focus P x (two im t u ms)
        ≡ some (two im t1 u1 (ms ++ (l ++ (k ++ []))))
  unfolding roots_input_method_relay_set_focus
  set_focus-two im x t u t1 u1 ms l k p q = rw p (rw q refl)

  first_enters :
      (s m : ℕ) (t u : TextInput) (ms : List RelayMessage)
      → Honest P
      → relay_handle_input_method P true m (two none (at (some s) none t) u ms)
        ≡ two (some m) (at none (some s) t) u (ms ++ (enter t.id s ∷ []))
  unfolding relay_handle_input_method
  first_enters s m t u ms h =
      ap (λ o. two (some m) (at none o t) u (ms ++ (enter t.id s ∷ []))) (h.enters s none)

  -- With two idle text inputs of the client of s and no input method: the focus moves to s, an input method
  -- comes, and the focus is given to s once more. From then on, an assertion of
  -- roots_input_method_relay_set_focus fails whatever surface is to have the focus.
  pub set_focus-twice :
      (s m : ℕ) (t u : TextInput) (ms : List RelayMessage) (x : Option ℕ)
      → Honest P
      → t.client ≡ P.client_of s
      → u.client ≡ P.client_of s
      → (r : Relay) × (focused_twice s m (two none (at none none t) (at none none u) ms) ≡ some r)
        × (roots_input_method_relay_set_focus P x r ≡ none)
  set_focus-twice s m t u ms x h p q = (
    two (some m) (at none (some s) t) (at (some s) (some s) u)
        (((ms ++ []) ++ (enter t.id s ∷ [])) ++ (enter u.id s ∷ [])),
    rw
        (set_focus-two none (some s) (at none none t) (at none none u) (at (some s) none t)
          (at (some s) none u) ms [] [] (waits s t p) (waits s u q))
        (rw (first_enters s m t (at (some s) none u) (ms ++ []) h) (
          set_focus-two (some m) (some s) (at none (some s) t) (at (some s) none u)
            (at none (some s) t) (at (some s) (some s) u) ((ms ++ []) ++ (enter t.id s ∷ [])) []
            (enter u.id s ∷ []) (stays s m t p) (enters_again s m u h q))),
    both (some m) x s _ u _,
  )
