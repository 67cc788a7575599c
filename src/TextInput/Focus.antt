-- ===== src/TextInput/Focus.antt =====
-- roots_input_method_relay_set_focus of src/text_input.c: where the text inputs are once the focus has moved.
use phoc.Prelude.{
  ℕ, ◌≡◌, refl, sym, ◌∙◌, ap, subst, List, [], ◌∷◌, ◌++◌, Option, none, some, ◌==◌, ==_iff, ==_refl,
  if◌then◌else◌, if-elim, Bool-cases, inl, inr, map,
}
use phoc.TextInput.{
  TextInput, RelayMessage, leave, Relay, Protocol, Told, leave_surface, leave_old, enter_new,
  focus_one, focus_all, relay_disable_text_input, roots_input_method_relay_set_focus,
}

abbrev pub at : Option ℕ → Option ℕ → TextInput → TextInput
at p f t = record t { pending_focused_surface = p; focused_surface = f }

-- What send_enter and send_leave of wlroots do to the surface that a text input is on.
pub record Honest (P : Protocol) : Type 0 where
  pub enters : (s : ℕ) (o : Option ℕ) → P.send_enter s o ≡ some s
  pub leaves : (o : Option ℕ) → P.send_leave o ≡ none

abbrev parted : ℕ → ℕ → TextInput → List RelayMessage
parted m f t = relay_disable_text_input (some m) (at none (some f) t) ++ (leave t.id ∷ [])

abbrev pub told : TextInput → List RelayMessage → Option Told
told t ms = some (t, ms)

module _ (P : Protocol) where
  -- Of a text input's client, the surface it waits for and the surface it is on: nothing, or the focused
  -- surface of its client, on which it is when there is an input method and for which it waits when not.
  abbrev pub Rests : Option ℕ → Option ℕ → ℕ → Option ℕ → Option ℕ → Type 0
  Rests im cur c none none = Unit
  Rests none (some s) c (some p) none = (p ≡ s) × (c ≡ P.client_of s)
  Rests (some m) (some s) c none (some f) = (f ≡ s) × (c ≡ P.client_of s)
  Rests im cur c p f = ⊥

  abbrev pub settled : Option ℕ → Option ℕ → TextInput → TextInput
  settled im none t = at none none t
  settled none (some s) t = at (if t.client == P.client_of s then some s else none) none t
  settled (some m) (some s) t = at none (if t.client == P.client_of s then some s else none) t

  -- The text input has left what is not the new surface.
  abbrev Left : Option ℕ → Option ℕ → Option Told → TextInput → Type 0
  Left im x o t =
      (p : Option ℕ) × (f : Option ℕ) × (ms : List RelayMessage) × (o ≡ some (at p f t, ms))
      × Rests im x t.client p f

  left_lem :
      (m f : ℕ) (t : TextInput)
      → Honest P
      → told (leave_surface P (at none (some f) t)) (parted m f t)
        ≡ told (at none none t) (parted m f t)
  left_lem m f t h = ap (λ o. some (at none o t, parted m f t)) (h.leaves (some f))

  leave_old-Left :
      (im x cur p f : Option ℕ) (t : TextInput)
      → Honest P
      → Rests im cur t.client p f
      → Left im x (leave_old P im x p f (at p f t)) t
  leave_old-Left im x cur none none t h r = (none, none, _, refl, tt)
  leave_old-Left none none (some s) (some p) none t h r = (none, none, _, refl, tt)
  leave_old-Left none (some a) (some s) (some p) none t h (e, c) =
      if-elim (λ u. Left none (some a) (some (u, [])) t) (a == p) (at (some p) none t)
        (at none none t)
        (λ q. (
          some p,
          none,
          _,
          refl,
          (sym ((==_iff a p).0 q), c ∙ sym (ap P.client_of ((==_iff a p).0 q ∙ e))),
        ))
        (λ q. (none, none, _, refl, tt))
  leave_old-Left (some m) none (some s) none (some f) t h r = (none, none, _, left_lem m f t h, tt)
  leave_old-Left (some m) (some a) (some s) none (some f) t h (e, c) =
      if-elim (λ u. Left (some m) (some a) u t) (a == f) _ _
        (λ q. (
          none,
          some f,
          _,
          refl,
          (sym ((==_iff a f).0 q), c ∙ sym (ap P.client_of ((==_iff a f).0 q ∙ e))),
        ))
        (λ q. (none, none, _, left_lem m f t h, tt))
  leave_old-Left none x none (some p) none t h r = elim r [ ]
  leave_old-Left none x cur none (some f) t h r = elim r [ ]
  leave_old-Left (some m) none none none (some f) t h r = elim r [ ]
  leave_old-Left (some m) (some a) none none (some f) t h r = elim r [ ]
  leave_old-Left none x none (some p) (some f) t h r = elim r [ ]
  leave_old-Left none none (some s) (some p) (some f) t h r = elim r [ ]
  leave_old-Left none (some a) (some s) (some p) (some f) t h r = elim r [ ]
  leave_old-Left (some m) x cur (some p) f t h r = elim r [ ]

  enter_new-settled :
      (im x p f : Option ℕ) (t : TextInput) (ms : List RelayMessage)
      → Honest P
      → Rests im x t.client p f
      → (enter_new P im x (at p f t, ms)).0 ≡ settled im x t
  enter_new-settled none none none none t ms h r = refl
  enter_new-settled (some m) none none none t ms h r = refl
  enter_new-settled none (some s) none none t ms h r =
      elim (Bool-cases (t.client == P.client_of s)) [ inl q ↦ rw q refl | inr q ↦ rw q refl ]
  enter_new-settled none (some s) (some p) none t ms h (e, c) =
      rw e (rw ((==_iff t.client (P.client_of s)).1 c) (rw (==_refl s) refl))
  enter_new-settled (some m) (some s) none none t ms h r =
      elim (Bool-cases (t.client == P.client_of s)) [
        | inl q ↦ rw q (ap (λ o. at none o t) (h.enters s none))
        | inr q ↦ rw q refl
      ]
  enter_new-settled (some m) (some s) none (some f) t ms h (e, c) =
      rw e (rw ((==_iff t.client (P.client_of s)).1 c) (rw (==_refl s) refl))
  enter_new-settled none none none (some f) t ms h r = elim r [ ]
  enter_new-settled none none (some p) f t ms h r = elim r [ ]
  enter_new-settled none (some s) none (some f) t ms h r = elim r [ ]
  enter_new-settled none (some s) (some p) (some f) t ms h r = elim r [ ]
  enter_new-settled (some m) none none (some f) t ms h r = elim r [ ]
  enter_new-settled (some m) none (some p) f t ms h r = elim r [ ]
  enter_new-settled (some m) (some s) (some p) f t ms h r = elim r [ ]

  pub settled-Rests :
      (im x : Option ℕ) (t : TextInput)
      → Rests im x t.client
          (settled im x t).pending_focused_surface
          (settled im x t).focused_surface
  settled-Rests none none t = tt
  settled-Rests (some m) none t = tt
  settled-Rests none (some s) t =
      if-elim (λ o. Rests none (some s) t.client o none) (t.client == P.client_of s) (some s) none
        (λ q. (refl, (==_iff t.client (P.client_of s)).0 q)) (λ q. tt)
  settled-Rests (some m) (some s) t =
      if-elim (λ o. Rests (some m) (some s) t.client none o) (t.client == P.client_of s) (some s)
        none (λ q. (refl, (==_iff t.client (P.client_of s)).0 q)) (λ q. tt)

  pub client-settled : (im x : Option ℕ) (t : TextInput) → (settled im x t).client ≡ t.client
  client-settled none none t = refl
  client-settled (some m) none t = refl
  client-settled none (some s) t = refl
  client-settled (some m) (some s) t = refl

  -- Every text input of the list is where it belongs.
  abbrev pub Held : Option ℕ → Option ℕ → List TextInput → Type 0
  Held im cur [] = Unit
  Held im cur (t ∷ ts) =
      Rests im cur t.client t.pending_focused_surface t.focused_surface × Held im cur ts

  abbrev Settles : Option ℕ → Option ℕ → List TextInput → Type 0
  Settles im x ts =
      (ms : List RelayMessage) × (focus_all P im x ts ≡ some (map (settled im x) ts, ms))

  focus_one-settled :
      (im x cur : Option ℕ) (t : TextInput)
      → Honest P
      → Rests im cur t.client t.pending_focused_surface t.focused_surface
      → (ms : List RelayMessage) × (focus_one P im x t ≡ told (settled im x t) ms)
  focus_one-settled im x cur t h r =
      let (p, f, ms, e, r1) =
        leave_old-Left im x cur t.pending_focused_surface t.focused_surface t h r in
      (
        (enter_new P im x (at p f t, ms)).1,
        rw e (
            ap (λ u. told u (enter_new P im x (at p f t, ms)).1)
              (enter_new-settled im x p f t ms h r1)),
      )

  focus_all-Settles :
      (im x cur : Option ℕ) (ts : List TextInput) → Honest P → Held im cur ts → Settles im x ts
  focus_all-Settles im x cur [] h r = ([], refl)
  focus_all-Settles im x cur (t ∷ ts) h (r, rs) =
      let (ms, e) = focus_one-settled im x cur t h r in
      let (ns, q) = focus_all-Settles im x cur ts h rs in (ms ++ ns, rw e (rw q refl))

  pub Held-settled : (im x : Option ℕ) (ts : List TextInput) → Held im x (map (settled im x) ts)
  Held-settled im x [] = tt
  Held-settled im x (t ∷ ts) = (
    subst
        (λ c.
          Rests im x c (settled im x t).pending_focused_surface (settled im x t).focused_surface)
        (sym (client-settled im x t)) (settled-Rests im x t),
    Held-settled im x ts,
  )

  -- While every text input is where it belongs, no assertion of roots_input_method_relay_set_focus fails,
  -- and afterwards a text input of the new surface's client is on that surface, or waits for it when there is
  -- no input method, and every other text input is on none and waits for none.
  pub roots_input_method_relay_set_focus_lem :
      (x cur : Option ℕ) (r : Relay)
      → Honest P
      → Held r.input_method cur r.text_inputs
      → (ms : List RelayMessage) × (roots_input_method_relay_set_focus P x r
          ≡ some (record r {
            text_inputs = map (settled r.input_method x) r.text_inputs;
            messages = r.messages ++ ms;
          }))
  unfolding roots_input_method_relay_set_focus
  roots_input_method_relay_set_focus_lem x cur r h e =
      let (ms, q) = focus_all-Settles r.input_method x cur r.text_inputs h e in (ms, rw q refl)
