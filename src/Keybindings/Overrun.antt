-- ===== src/Keybindings/Overrun.antt =====
-- When parse_accelerator of src/keybindings.c ends, and when it reads behind the text.
use phoc.Prelude.{
  ℕ, zero, suc, ◌≤◌, ◌<◌, ◌≡◌, refl, ◌≢◌, inl, inr, false, List, [], ◌∷◌, ◌++◌, Option, none, some,
  ◌==◌, leb, true, some-injective, if-elim, length, drop, arith, Bool-cases, Option-cases,
}
use phoc.Keybindings.Accel.{
  Keys, Parsed, reject, overrun, Round, advance, ignore, finish, at, is_alt, is_ctl, is_modx,
  is_ctrl, is_shft, is_shift, is_control, is_meta, is_super, is_hyper, skip_tag, unknown_tag,
  tag_round, key_round, step_over, follow, parse_loop, parse_accelerator,
}
use phoc.Keybindings.Parse.{Tag, texts, masks, Parses, Parses-texts}

abbrev Moves : Round → Type 0
Moves (advance n m) = 0 < n
Moves (ignore n) = 0 < n
Moves (finish r) = Unit

skip_tag_pos : (s : List ℕ) (n : ℕ) → skip_tag s ≡ some n → 0 < n
unfolding skip_tag
skip_tag_pos [] n e = cc
skip_tag_pos (c ∷ s) n e = ground arith

unknown_tag-Moves : (s : List ℕ) → Moves (unknown_tag s)
unfolding unknown_tag
unknown_tag-Moves s = elim (Option-cases (skip_tag s)) [
  | inl e ↦ rw (e, Moves, unknown_tag) tt
  | inr (n, e) ↦ rw (e, Moves, unknown_tag) (skip_tag_pos s n e)
]

tag_round-Moves : (k : Keys) (s : List ℕ) → Moves (tag_round k s)
unfolding tag_round
tag_round-Moves k s = ground (arith, unknown_tag-Moves s)

leb-true : (a b : ℕ) → a ≤ b → leb a b ≡ true
leb-true a b h = ground arith

length-drop : (n : ℕ) (s : List ℕ) → length (drop n s) ≤ length s
length-drop zero s = omega arith
length-drop (suc n) [] = omega arith
length-drop (suc n) (x ∷ s) = omega (arith, length-drop n s)

length-drop_lt : (n c : ℕ) (s : List ℕ) → 0 < n → length (drop n (c ∷ s)) ≤ length s
length-drop_lt zero c s h = elim h [ ]
length-drop_lt (suc n) c s h = length-drop n s

step_over_total :
    (loop : List ℕ → ℕ → Option Parsed) (c : ℕ) (s : List ℕ) (mods n : ℕ)
    → 0 < n
    → ((t : List ℕ) (m : ℕ) → length t ≤ length s → (p : Parsed) × (loop t m ≡ some p))
    → (p : Parsed) × (step_over loop (c ∷ s) mods n ≡ some p)
step_over_total loop c s mods n h ih =
    if-elim (λ o. (p : Parsed) × (o ≡ some p)) (leb n (length (c ∷ s))) _ _
      (λ _. ih _ _ (length-drop_lt n c s h)) (λ _. (overrun, refl))

-- A loop that returns on every rest of a text returns on the text.
follow_total :
    (loop : List ℕ → ℕ → Option Parsed) (c : ℕ) (s : List ℕ) (mods : ℕ) (r : Round)
    → Moves r
    → ((t : List ℕ) (m : ℕ) → length t ≤ length s → (p : Parsed) × (loop t m ≡ some p))
    → (p : Parsed) × (follow loop (c ∷ s) mods r ≡ some p)
follow_total loop c s mods (advance n m) h ih = step_over_total loop c s _ n h ih
follow_total loop c s mods (ignore n) h ih = step_over_total loop c s mods n h ih
follow_total loop c s mods (finish r) h ih = (r, refl)

-- With more fuel than bytes the loop ends.
parse_loop_total :
    (k : Keys) (f : ℕ) (s : List ℕ) (mods : ℕ)
    → length s < f
    → (r : Parsed) × (parse_loop k f s mods ≡ some r)
unfolding parse_loop
parse_loop_total k zero s mods h = absurd (omega arith)
parse_loop_total k (suc f) [] mods h = (_, refl)
parse_loop_total k (suc f) (c ∷ s) mods h = elim (Bool-cases (c == b'<')) [
  | inl e ↦ rw e (
      follow_total (parse_loop k f) c s mods (tag_round k (c ∷ s)) (tag_round-Moves k (c ∷ s))
        (λ t m l. parse_loop_total k f t m (omega arith)))
  | inr e ↦ (key_round k (c ∷ s) mods, rw e)
]

-- The parser returns on every text: the fuel that it is given, one more than the bytes, is enough.
pub parse_accelerator_total :
    (k : Keys) (accelerator : Option (List ℕ))
    → (r : Parsed) × (parse_accelerator k accelerator ≡ some r)
unfolding parse_accelerator
parse_accelerator_total k none = (reject, refl)
parse_accelerator_total k (some s) = parse_loop_total k (suc (length s)) s 0 (omega arith)

-- No `>` in the text.
abbrev pub Open : List ℕ → Type 0
Open [] = Unit
Open (c ∷ s) = (c ≢ b'>') × Open s

-- Behind each `<` there is a `>`.
abbrev pub Closed : List ℕ → Type 0
Closed [] = Unit
Closed (c ∷ s) = (c ≡ b'<' → ¬ Open s) × Closed s

at_Open : (s : List ℕ) (i : ℕ) → Open s → (at s i == b'>') ≡ false
at_Open [] i h = refl
at_Open (c ∷ s) zero h = ground arith
at_Open (c ∷ s) (suc i) h = at_Open s i h.1

skip_tag-Open : (s : List ℕ) → Open s → skip_tag s ≡ none
unfolding skip_tag
skip_tag-Open [] h = refl
skip_tag-Open (c ∷ s) h = ground (arith, skip_tag-Open s)

module _ (s : List ℕ) (h : Open s) where
  control_Open : is_control s ≡ false
  unfolding is_control
  control_Open = ground (arith, at_Open s 8 h)

  shift_Open : is_shift s ≡ false
  unfolding is_shift
  shift_Open = ground (arith, at_Open s 6 h)

  shft_Open : is_shft s ≡ false
  unfolding is_shft
  shft_Open = ground (arith, at_Open s 5 h)

  ctrl_Open : is_ctrl s ≡ false
  unfolding is_ctrl
  ctrl_Open = ground (arith, at_Open s 5 h)

  modx_Open : is_modx s ≡ false
  unfolding is_modx
  modx_Open = ground (arith, at_Open s 5 h)

  ctl_Open : is_ctl s ≡ false
  unfolding is_ctl
  ctl_Open = ground (arith, at_Open s 4 h)

  alt_Open : is_alt s ≡ false
  unfolding is_alt
  alt_Open = ground (arith, at_Open s 4 h)

  meta_Open : is_meta s ≡ false
  unfolding is_meta
  meta_Open = ground (arith, at_Open s 5 h)

  hyper_Open : is_hyper s ≡ false
  unfolding is_hyper
  hyper_Open = ground (arith, at_Open s 6 h)

  super_Open : is_super s ≡ false
  unfolding is_super
  super_Open = ground (arith, at_Open s 6 h)

  tag_round_Open : (k : Keys) → tag_round k s ≡ finish overrun
  unfolding tag_round unknown_tag
  tag_round_Open k = ground (
    arith,
    control_Open,
    shift_Open,
    shft_Open,
    ctrl_Open,
    modx_Open,
    ctl_Open,
    alt_Open,
    meta_Open,
    hyper_Open,
    super_Open,
    skip_tag-Open s h,
  )

skip_tag-none : (s : List ℕ) → skip_tag s ≡ none → Open s
unfolding skip_tag
skip_tag-none [] e = tt
skip_tag-none (c ∷ s) e = ground (arith, skip_tag-none s)

Parses-Open : (k : Keys) (s : List ℕ) (mods : ℕ) → Open s → Parses k (b'<' ∷ s) mods overrun
unfolding parse_loop
Parses-Open k s mods h zero lt = absurd (omega arith)
Parses-Open k s mods h (suc f) lt = rw (tag_round_Open (b'<' ∷ s) (ground arith) k)

-- Whatever known tags stand before it, a `<` with no `>` behind it makes the parser step over the
-- terminating NUL and read on behind the text.
pub parse_accelerator_overrun :
    (k : Keys) (ts : List Tag) (s : List ℕ)
    → Open s
    → parse_accelerator k (some (texts ts ++ b'<' ∷ s)) ≡ some overrun
unfolding parse_accelerator
parse_accelerator_overrun k ts s h =
    Parses-texts k ts (b'<' ∷ s) 0 overrun (Parses-Open k s (masks k 0 ts) h)
      (suc (length (texts ts ++ b'<' ∷ s))) (omega arith)

drop-Closed : (n : ℕ) (s : List ℕ) → Closed s → Closed (drop n s)
drop-Closed zero s h = h
drop-Closed (suc n) [] h = tt
drop-Closed (suc n) (c ∷ s) h = drop-Closed n s h.1

key_round_safe : (k : Keys) (s : List ℕ) (mods : ℕ) → key_round k s mods ≢ overrun
unfolding key_round
key_round_safe k s mods e = ground arith

-- What a round steps over is in the text.
abbrev Inside : List ℕ → Round → Type 0
Inside s (advance n m) = n ≤ length s
Inside s (ignore n) = n ≤ length s
Inside s (finish r) = r ≢ overrun

skip_tag-length : (s : List ℕ) (n : ℕ) → skip_tag s ≡ some n → n ≤ length s
unfolding skip_tag
skip_tag-length [] n e = cc
skip_tag-length (c ∷ s) n e = elim (Bool-cases (c == b'>')) [
  | inl h ↦ ground (arith, rw h at e)
  | inr h ↦ elim (Option-cases (skip_tag s)) [
    | inl q ↦ cc (rw (h, q) at e)
    | inr (m, q) ↦ omega (arith, some-injective (suc m) n (rw (h, q) at e), skip_tag-length s m q)
  ]
]

unknown_tag-Inside : (s : List ℕ) → ¬ Open s → Inside s (unknown_tag s)
unfolding unknown_tag
unknown_tag-Inside s h = elim (Option-cases (skip_tag s)) [
  | inl e ↦ absurd (h (skip_tag-none s e))
  | inr (n, e) ↦ rw (e, Inside, unknown_tag) (skip_tag-length s n e)
]

tag_round-Inside : (k : Keys) (s : List ℕ) → ¬ Open s → Inside s (tag_round k s)
unfolding tag_round
tag_round-Inside k s h = ground (arith, unknown_tag-Inside s h)

step_over_safe :
    (loop : List ℕ → ℕ → Option Parsed) (s : List ℕ) (mods n : ℕ)
    → n ≤ length s
    → loop (drop n s) mods ≢ some overrun
    → step_over loop s mods n ≢ some overrun
step_over_safe loop s mods n h q = rw (leb-true n (length s) h) q

follow_safe :
    (loop : List ℕ → ℕ → Option Parsed) (s : List ℕ) (mods : ℕ) (r : Round)
    → Closed s
    → Inside s r
    → ((t : List ℕ) (m : ℕ) → Closed t → loop t m ≢ some overrun)
    → follow loop s mods r ≢ some overrun
follow_safe loop s mods (advance n m) h i ih =
    step_over_safe loop s _ n i (ih _ _ (drop-Closed n s h))
follow_safe loop s mods (ignore n) h i ih =
    step_over_safe loop s mods n i (ih _ _ (drop-Closed n s h))
follow_safe loop s mods (finish r) h i ih = λ e. i (some-injective r overrun e)

parse_loop_safe :
    (k : Keys) (f : ℕ) (s : List ℕ) (mods : ℕ) → Closed s → parse_loop k f s mods ≢ some overrun
unfolding parse_loop
parse_loop_safe k zero s mods h = λ e. cc
parse_loop_safe k (suc f) [] mods h = λ e. cc
parse_loop_safe k (suc f) (c ∷ s) mods h = elim (Bool-cases (c == b'<')) [
  | inl e ↦ rw e (
      follow_safe (parse_loop k f) (c ∷ s) mods (tag_round k (c ∷ s)) h
        (tag_round-Inside k (c ∷ s) (λ o. h.0 (ground arith) o.1)) (λ t m. parse_loop_safe k f t m))
  | inr e ↦ rw e (λ d. key_round_safe k (c ∷ s) mods (cc))
]

-- Where each `<` has a `>` behind it the parser never reads behind the text.
pub parse_accelerator_safe :
    (k : Keys) (s : List ℕ) → Closed s → parse_accelerator k (some s) ≢ some overrun
unfolding parse_accelerator
parse_accelerator_safe k s h = parse_loop_safe k (suc (length s)) s 0 h
