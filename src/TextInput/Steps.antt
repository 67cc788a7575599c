-- ===== src/TextInput/Steps.antt =====
-- src/text_input.c: what the relay keeps over any sequence of its handlers, and why its assertions hold.
use phoc.Prelude.{
  Bool, true, false, ℕ, ◌≡◌, refl, sym, ◌∙◌, ap, subst, List, [], ◌∷◌, ◌++◌, Option, none, some,
  map, some-injective,
}
use phoc.TextInput.{
  told_committed, Sent, enter_first, TextInput, Committed, Relay, Protocol, enter_waiting, forget,
  relay_get_focused_text_input, roots_input_method_relay_set_focus, relay_handle_input_method,
  handle_im_commit, handle_im_destroy, relay_handle_text_input, handle_text_input_destroy,
  handle_pending_focused_surface_destroy,
}
use phoc.TextInput.Focus.{
  at, Honest, Rests, Held, settled, client-settled, Held-settled,
  roots_input_method_relay_set_focus_lem,
}
use phoc.TextInput.Moves.{
  clients, Lacks, Apart, taken_off, clients-map, Apart-take_out, client-forget, client-taken_off,
  Held-take_out, enter_waiting-Held, leave_focused-LeavesHeld, forget-Rests, taken_off-Rests,
  Held-map,
}

abbrev pub wlroots_takes_off : ℕ → Relay → Relay
wlroots_takes_off s r = record r { text_inputs = map (taken_off s) r.text_inputs }

module _ (P : Protocol) where
  -- What a relay keeps.
  abbrev pub Kept : Option ℕ → Relay → Type 0
  Kept cur r = Held P r.input_method cur r.text_inputs × Apart (clients r.text_inputs)

  Kept-map :
      (f : TextInput → TextInput) (im cur : Option ℕ) (ts : List TextInput)
      → ((t : TextInput) → (f t).client ≡ t.client)
      → ((t : TextInput)
          → Rests P im cur t.client t.pending_focused_surface t.focused_surface
          → Rests P im cur t.client (f t).pending_focused_surface (f t).focused_surface)
      → Held P im cur ts × Apart (clients ts)
      → Held P im cur (map f ts) × Apart (clients (map f ts))
  Kept-map f im cur ts e q (h, a) =
      (Held-map P f im cur ts e q h, subst Apart (sym (clients-map f ts e)) a)

  clients-enter_first :
      (p : Option ℕ) (t : TextInput) (ts : List TextInput) (u : Sent)
      → clients u.0 ≡ clients ts
      → clients (enter_first P p t ts u).0 ≡ t.client ∷ clients ts
  clients-enter_first none t ts u e = ap (λ cs. t.client ∷ cs) e
  clients-enter_first (some s) t ts u e = refl

  clients-enter_waiting : (ts : List TextInput) → clients (enter_waiting P ts).0 ≡ clients ts
  clients-enter_waiting [] = refl
  clients-enter_waiting (t ∷ ts) =
      clients-enter_first t.pending_focused_surface t ts (enter_waiting P ts)
        (clients-enter_waiting ts)

  gains-Kept :
      (b : Bool) (m : ℕ) (cur im : Option ℕ) (r : Relay)
      → Honest P
      → r.input_method ≡ im
      → Kept cur r
      → Kept cur (relay_handle_input_method P b m r)
  unfolding relay_handle_input_method
  gains-Kept true m cur none r h e (k, a) = rw e (
      (
        enter_waiting-Held P m cur r.text_inputs h a (subst (λ o. Held P o cur r.text_inputs) e k),
        subst Apart (sym (clients-enter_waiting r.text_inputs)) a,
      ))
  gains-Kept false m cur (some o) r h e k = k
  gains-Kept false m cur none r h e k = k
  gains-Kept true m cur (some o) r h e (k, a) =
      rw e (subst (λ o. Held P o cur r.text_inputs) e k, a)

  adds-Kept :
      (b : Bool) (id c : ℕ) (cur : Option ℕ) (r : Relay)
      → Lacks c (clients r.text_inputs)
      → Kept cur r
      → Kept cur (relay_handle_text_input b id c r)
  unfolding relay_handle_text_input
  adds-Kept false id c cur r l k = k
  adds-Kept true id c cur r l (k, a) = ((tt, k), (l, a))

  focuses-Kept :
      (x cur : Option ℕ) (r u : Relay)
      → Honest P
      → Kept cur r
      → roots_input_method_relay_set_focus P x r ≡ some u
      → Kept x u
  focuses-Kept x cur r u h (k, a) e =
      let (ms, q) = roots_input_method_relay_set_focus_lem P x cur r h k in
      subst (Kept x) (some-injective _ _ (sym q ∙ e)) (
        Held-settled P r.input_method x r.text_inputs,
        subst Apart
            (sym (
              clients-map (settled P r.input_method x) r.text_inputs
                (client-settled P r.input_method x)))
            a,
      )

  loses_some :
      (cur : Option ℕ) (r : Relay)
      → Honest P
      → Kept cur r
      → (u : Relay) × (handle_im_destroy P r ≡ some u) × Kept cur u
  unfolding handle_im_destroy
  loses_some cur r h (k, a) =
      let (u, e, v, c) = leave_focused-LeavesHeld P r.input_method cur r.text_inputs h a k in
      (
        record r { text_inputs = u.0; input_method = none; messages = r.messages ++ u.1 },
        rw e refl,
        (v, subst Apart (sym c) a),
      )

  focused_one :
      (im cur p f : Option ℕ) (t : TextInput) (ts : List TextInput)
      → Rests P im cur t.client p f
      → (o : Option TextInput) × (relay_get_focused_text_input ts ≡ some o)
      → (o : Option TextInput) × (relay_get_focused_text_input (at p f t ∷ ts) ≡ some o)
  unfolding relay_get_focused_text_input
  focused_one im cur p none t ts r v = v
  focused_one im cur none (some f) t ts r v = (some (at none (some f) t), refl)
  focused_one none none (some p) (some f) t ts r v = elim r [ ]
  focused_one none (some s) (some p) (some f) t ts r v = elim r [ ]
  focused_one (some m) cur (some p) (some f) t ts r v = elim r [ ]

  focused_some :
      (im cur : Option ℕ) (ts : List TextInput)
      → Held P im cur ts
      → (o : Option TextInput) × (relay_get_focused_text_input ts ≡ some o)
  unfolding relay_get_focused_text_input
  focused_some im cur [] h = (none, refl)
  focused_some im cur (t ∷ ts) (r, h) =
      focused_one im cur t.pending_focused_surface t.focused_surface t ts r
        (focused_some im cur ts h)

  commits_some :
      (c : Committed) (cur : Option ℕ) (r : Relay)
      → Kept cur r
      → (u : Relay) × (handle_im_commit c r ≡ some u) × Kept cur u
  unfolding handle_im_commit
  commits_some c cur r (k, a) =
      let (o, e) = focused_some r.input_method cur r.text_inputs k in
      (record r { messages = r.messages ++ told_committed c o }, rw e refl, (k, a))

  -- The relay after any of its handlers, over text inputs of which no two are of the same client, with the
  -- surface that was last given the focus.
  pub data Reached : Option ℕ → Relay → Type 0 where
    initial : Reached none (record { text_inputs = []; input_method = none; messages = [] })
    focuses :
        (x cur : Option ℕ) (r u : Relay)
        → Reached cur r
        → roots_input_method_relay_set_focus P x r ≡ some u
        → Reached x u
    gains :
        (b : Bool) (m : ℕ) (cur : Option ℕ) (r : Relay)
        → Reached cur r
        → Reached cur (relay_handle_input_method P b m r)
    loses :
        (cur : Option ℕ) (r u : Relay)
        → Reached cur r
        → handle_im_destroy P r ≡ some u
        → Reached cur u
    commits :
        (c : Committed) (cur : Option ℕ) (r u : Relay)
        → Reached cur r
        → handle_im_commit c r ≡ some u
        → Reached cur u
    adds :
        (b : Bool) (id c : ℕ) (cur : Option ℕ) (r : Relay)
        → Reached cur r
        → Lacks c (clients r.text_inputs)
        → Reached cur (relay_handle_text_input b id c r)
    removes :
        (t : TextInput) (cur : Option ℕ) (r : Relay)
        → Reached cur r
        → Reached cur (handle_text_input_destroy t r)
    destroys :
        (s : ℕ) (cur : Option ℕ) (r : Relay)
        → Reached cur r
        → Reached cur (wlroots_takes_off s (handle_pending_focused_surface_destroy s r))

  -- Over any sequence of the handlers, with at most one text input for each client, every text input is on
  -- nothing and waits for nothing, or is of the client of the surface that was last given the focus: then it
  -- is on that surface when there is an input method, and waits for it when there is none.
  pub Reached-Kept : (cur : Option ℕ) (r : Relay) → Honest P → Reached cur r → Kept cur r
  unfolding handle_text_input_destroy handle_pending_focused_surface_destroy
  Reached-Kept _ _ h (initial) = (tt, tt)
  Reached-Kept _ _ h (focuses x b r u d e) = focuses-Kept x b r u h (Reached-Kept b r h d) e
  Reached-Kept _ _ h (gains b m cur r d) =
      gains-Kept b m cur r.input_method r h refl (Reached-Kept cur r h d)
  Reached-Kept _ _ h (loses cur r u d e) =
      let (w, q, k) = loses_some cur r h (Reached-Kept cur r h d) in
      subst (Kept cur) (some-injective _ _ (sym q ∙ e)) k
  Reached-Kept _ _ h (commits c cur r u d e) =
      let (w, q, k) = commits_some c cur r (Reached-Kept cur r h d) in
      subst (Kept cur) (some-injective _ _ (sym q ∙ e)) k
  Reached-Kept _ _ h (adds b id c cur r d l) = adds-Kept b id c cur r l (Reached-Kept cur r h d)
  Reached-Kept _ _ h (removes t cur r d) =
      let (k, a) = Reached-Kept cur r h d in
      (Held-take_out P r.input_method cur t.id r.text_inputs k, Apart-take_out t.id r.text_inputs a)
  Reached-Kept _ _ h (destroys s cur r d) =
      Kept-map (taken_off s) r.input_method cur (map (forget s) r.text_inputs) (client-taken_off s)
        (λ t.
          taken_off-Rests P s r.input_method cur t.client t.pending_focused_surface
            t.focused_surface t)
        (Kept-map (forget s) r.input_method cur r.text_inputs (client-forget s)
          (λ t.
            forget-Rests P s r.input_method cur t.client t.pending_focused_surface t.focused_surface
              t)
          (Reached-Kept cur r h d))

  -- Over any sequence of the handlers, with at most one text input for each client, no assertion fails: the
  -- focus can move to any surface, the input method can commit, and it can go.
  pub relay-asserts :
      (cur x : Option ℕ) (c : Committed) (r : Relay)
      → Honest P
      → Reached cur r
      → ((u : Relay) × (roots_input_method_relay_set_focus P x r ≡ some u))
        × ((u : Relay) × (handle_im_commit c r ≡ some u))
        × ((u : Relay) × (handle_im_destroy P r ≡ some u))
  relay-asserts cur x c r h d =
      let (k, a) = Reached-Kept cur r h d in
      let (ms, e) = roots_input_method_relay_set_focus_lem P x cur r h k in
      let (u, p, i) = commits_some c cur r (k, a) in
      let (v, q, j) = loses_some cur r h (k, a) in ((_, e), (u, p), (v, q))
