-- ===== src/Seat/Rounds.antt =====
-- phoc_seat_cycle_focus of src/seat.c, called again and again.
use mathlib.Core.List.{append_assoc, append-nil}
use phoc.Prelude.{
  ℕ, zero, suc, ◌+◌, ◌<◌, ◌≡◌, refl, sym, ◌∙◌, ap, inl, inr, true, List, [], ◌∷◌, ◌++◌, Option,
  some, ◌>>=◌, ◌==◌, ==_iff, arith, length, length-append, Bool-cases,
}
use phoc.View.State.{Numbers}
use phoc.Input.{Seat, phoc_seat_get_focus}
use phoc.Seat.State.{World, Outside, focus_of}
use phoc.Seat.Focus.{has, phoc_seat_cycle_focus}
use phoc.Seat.Spec.{Focus, focus_state, rotate}
use phoc.Seat.Cycle.{CanCycle, phoc_seat_cycle_focus_lem}

split_at :
    (v : ℕ) (vs : List ℕ)
    → has v vs ≡ true
    → (us : List ℕ) × ((rest : List ℕ) × (vs ≡ us ++ (v ∷ rest)))
split_at v [] e = cc e
split_at v (w ∷ ws) e = elim (Bool-cases (w == v)) [
  | inl h ↦ ([], (ws, ap (λ a. a ∷ ws) ((==_iff w v).0 h)))
  | inr h ↦ let (us, (rest, p)) = split_at v ws (rw h at e) in (w ∷ us, (rest, ap (λ zs. w ∷ zs) p))
]

pub focus_of_fields :
    (s : Seat) (v : ℕ) (vs : List ℕ)
    → s.has_focus ≡ true
    → s.views ≡ v ∷ vs
    → phoc_seat_get_focus s ≡ some v
unfolding phoc_seat_get_focus
focus_of_fields s v vs h e = rw (h, e) refl

module _ {D : Type 0} (F : Numbers D) (E : Outside D) (rank : ℕ → ℕ) (n : ℕ) where
  abbrev pub cycles : ℕ → World D → Option (World D)
  cycles zero w = some w
  cycles (suc k) w = phoc_seat_cycle_focus F E n w >>= cycles k

  abbrev pub Reaches : ℕ → World D → Focus → Type 0
  Reaches k w f = (t : World D) × (cycles k w ≡ some t) × (focus_state t ≡ f) × CanCycle E rank n t

  -- As many calls as there are views in front take them to the end, in their order.
  cycles-front :
      (us vs : List ℕ) (w : World D)
      → CanCycle E rank n w
      → w.seat.views ≡ us ++ vs
      → Reaches (length us) w (record (focus_state w) { views = vs ++ us })
  cycles-front [] vs w c e =
      (w, refl, ap (λ us. record (focus_state w) { views = us }) (e ∙ sym (append-nil vs)), c)
  cycles-front (u ∷ us) vs w c e =
      let (t, r, state, c') = phoc_seat_cycle_focus_lem E rank n F w c in
      let (t', r', state', c'') =
        cycles-front us (vs ++ (u ∷ [])) t c'
          (ap (λ (f : Focus). f.views) state ∙ ap rotate e ∙ append_assoc us vs (u ∷ [])) in
      (
        t',
        rw r r',
        state'
            ∙ ap (λ (f : Focus). record f { views = (vs ++ (u ∷ [])) ++ us }) state
            ∙ ap (λ ws. record (focus_state w) { views = ws }) (append_assoc vs (u ∷ []) us),
        c'',
      )

  -- Where every view of the seat may have the focus, as many calls of phoc_seat_cycle_focus as the seat
  -- has views leave the list of views and the focus as they were.
  pub cycles-around :
      (w : World D) → CanCycle E rank n w → Reaches (length w.seat.views) w (focus_state w)
  cycles-around w c = cycles-front w.seat.views [] w c (sym (append-nil w.seat.views))

  shorter : (v : ℕ) (us rest vs : List ℕ) → vs ≡ us ++ (v ∷ rest) → length us < length vs
  shorter v us rest vs e =
      let count : length vs ≡ length us + length (v ∷ rest) =
        ap length e ∙ length-append us (v ∷ rest) in
      omega (arith, count)

  -- For a seat that has the focus, in a valid state, with finite families of views, and of whose views each is
  -- mapped, wants the focus and has a client that may have input (and with memory for the list): each view of
  -- the seat gets the focus after less calls of phoc_seat_cycle_focus than it has views.
  pub cycles_reach :
      (v : ℕ) (w : World D)
      → CanCycle E rank n w
      → has v w.seat.views ≡ true
      → (k : ℕ) × (k < length w.seat.views)
        × (t : World D) × (cycles k w ≡ some t)
        × (focus_of t ≡ some v)
  cycles_reach v w c h =
      let (us, (rest, e)) = split_at v w.seat.views h in
      let (t, r, state, c') = cycles-front us (v ∷ rest) w c e in
      (
        length us,
        shorter v us rest w.seat.views e,
        t,
        r,
        focus_of_fields t.seat v (rest ++ us) c'.focused (ap (λ (f : Focus). f.views) state),
      )
