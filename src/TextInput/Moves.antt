-- ===== src/TextInput/Moves.antt =====
-- src/text_input.c: what each change of the text inputs of a relay keeps of where they are.
use phoc.Prelude.{
  ℕ, ◌≡◌, ◌≢◌, refl, sym, ◌∙◌, ap, subst, List, [], ◌∷◌, Option, none, some, ◌==◌, if◌then◌else◌,
  if-elim, Bool-cases, inl, inr, map,
}
use phoc.TextInput.{
  Sent, enter_first, leave_first, TextInput, Protocol, same_surface, set_pending, enter_waiting,
  take_out, forget, leave_focused,
}
use phoc.TextInput.Focus.{at, Honest, Rests, Held}

abbrev pub clients : List TextInput → List ℕ
clients ts = map (λ t. t.client) ts

-- The client is not in the list.
abbrev pub Lacks : ℕ → List ℕ → Type 0
Lacks c [] = Unit
Lacks c (d ∷ ds) = (d ≢ c) × Lacks c ds

-- No client is in the list twice.
abbrev pub Apart : List ℕ → Type 0
Apart [] = Unit
Apart (c ∷ cs) = Lacks c cs × Apart cs

-- wlroots takes a text input off a surface that is destroyed.
abbrev pub taken_off : ℕ → TextInput → TextInput
taken_off s t =
    if same_surface t.focused_surface (some s) then record t { focused_surface = none } else t

pub clients-map :
    (f : TextInput → TextInput) (ts : List TextInput)
    → ((t : TextInput) → (f t).client ≡ t.client)
    → clients (map f ts) ≡ clients ts
clients-map f [] e = refl
clients-map f (t ∷ ts) e = rw (e t) (rw (clients-map f ts e) refl)

Lacks-take_out :
    (c id : ℕ) (ts : List TextInput) → Lacks c (clients ts) → Lacks c (clients (take_out id ts))
Lacks-take_out c id [] l = tt
Lacks-take_out c id (t ∷ ts) (l, ls) =
    if-elim (λ us. Lacks c (clients us)) (t.id == id) ts (t ∷ take_out id ts) (λ _. ls)
      (λ _. (l, Lacks-take_out c id ts ls))

pub Apart-take_out :
    (id : ℕ) (ts : List TextInput) → Apart (clients ts) → Apart (clients (take_out id ts))
Apart-take_out id [] a = tt
Apart-take_out id (t ∷ ts) (l, a) =
    if-elim (λ us. Apart (clients us)) (t.id == id) ts (t ∷ take_out id ts) (λ _. a)
      (λ _. (Lacks-take_out t.client id ts l, Apart-take_out id ts a))

pub client-forget : (s : ℕ) (t : TextInput) → (forget s t).client ≡ t.client
client-forget s t =
    if-elim (λ u. u.client ≡ t.client) (same_surface t.pending_focused_surface (some s))
      (set_pending none t) t (λ _. refl) (λ _. refl)

pub client-taken_off : (s : ℕ) (t : TextInput) → (taken_off s t).client ≡ t.client
client-taken_off s t =
    if-elim (λ u. u.client ≡ t.client) (same_surface t.focused_surface (some s))
      (record t { focused_surface = none }) t (λ _. refl) (λ _. refl)

module _ (P : Protocol) where
  pub Held-take_out :
      (im cur : Option ℕ) (id : ℕ) (ts : List TextInput)
      → Held P im cur ts
      → Held P im cur (take_out id ts)
  Held-take_out im cur id [] h = tt
  Held-take_out im cur id (t ∷ ts) (r, h) =
      if-elim (Held P im cur) (t.id == id) ts (t ∷ take_out id ts) (λ _. h)
        (λ _. (r, Held-take_out im cur id ts h))

  -- Where it belongs, a text input that is of another client than the surface is on none and waits for none.
  apart-Rests :
      (im im1 : Option ℕ) (s c : ℕ) (p f : Option ℕ)
      → c ≢ P.client_of s
      → Rests P im (some s) c p f
      → Rests P im1 (some s) c p f
  apart-Rests im im1 s c none none n r = tt
  apart-Rests none im1 s c (some p) none n (e, q) = elim (n q) [ ]
  apart-Rests (some m) im1 s c none (some f) n (e, q) = elim (n q) [ ]
  apart-Rests none im1 s c none (some f) n r = elim r [ ]
  apart-Rests none im1 s c (some p) (some f) n r = elim r [ ]
  apart-Rests (some m) im1 s c (some p) f n r = elim r [ ]

  apart-Held :
      (im im1 : Option ℕ) (s c : ℕ) (ts : List TextInput)
      → c ≡ P.client_of s
      → Lacks c (clients ts)
      → Held P im (some s) ts
      → Held P im1 (some s) ts
  apart-Held im im1 s c [] e l h = tt
  apart-Held im im1 s c (t ∷ ts) e (l, ls) (r, h) = (
    apart-Rests im im1 s t.client t.pending_focused_surface t.focused_surface (λ q. l (q ∙ sym e))
        r,
    apart-Held im im1 s c ts e ls h,
  )

  idle-Rests :
      (im im1 : Option ℕ) (c : ℕ) (p f : Option ℕ) → Rests P im none c p f → Rests P im1 none c p f
  idle-Rests im im1 c none none r = tt
  idle-Rests none im1 c none (some f) r = elim r [ ]
  idle-Rests (some m) im1 c none (some f) r = elim r [ ]
  idle-Rests none im1 c (some p) none r = elim r [ ]
  idle-Rests none im1 c (some p) (some f) r = elim r [ ]
  idle-Rests (some m) im1 c (some p) f r = elim r [ ]

  -- Where the text inputs are once the input method has come or gone.
  idle-Held : (im im1 : Option ℕ) (ts : List TextInput) → Held P im none ts → Held P im1 none ts
  idle-Held im im1 [] h = tt
  idle-Held im im1 (t ∷ ts) (r, h) = (
    idle-Rests im im1 t.client t.pending_focused_surface t.focused_surface r,
    idle-Held im im1 ts h,
  )

  enter_first-Held :
      (m : ℕ) (cur p f : Option ℕ) (t : TextInput) (ts : List TextInput) (u : Sent)
      → Honest P
      → Lacks t.client (clients ts)
      → Rests P none cur t.client p f
      → Held P none cur ts
      → Held P (some m) cur u.0
      → Held P (some m) cur (enter_first P p (at p f t) ts u).0
  enter_first-Held m cur none none t ts u h l r rs v = (tt, v)
  enter_first-Held m (some s) (some p) none t ts u h l (e, c) rs v = (
    subst (Rests P (some m) (some s) t.client none) (sym (h.enters p none)) (e, c),
    apart-Held none (some m) s t.client ts c l rs,
  )
  enter_first-Held m none (some p) none t ts u h l r rs v = elim r [ ]
  enter_first-Held m cur none (some f) t ts u h l r rs v = elim r [ ]
  enter_first-Held m none (some p) (some f) t ts u h l r rs v = elim r [ ]
  enter_first-Held m (some s) (some p) (some f) t ts u h l r rs v = elim r [ ]

  pub enter_waiting-Held :
      (m : ℕ) (cur : Option ℕ) (ts : List TextInput)
      → Honest P
      → Apart (clients ts)
      → Held P none cur ts
      → Held P (some m) cur (enter_waiting P ts).0
  enter_waiting-Held m cur [] h a hs = tt
  enter_waiting-Held m cur (t ∷ ts) h (l, a) (r, rs) =
      enter_first-Held m cur t.pending_focused_surface t.focused_surface t ts (enter_waiting P ts) h
        l r rs (enter_waiting-Held m cur ts h a rs)

  -- The text inputs are left without an assertion that fails, where they belong without an input method.
  abbrev pub LeavesHeld : Option ℕ → List ℕ → Option Sent → Type 0
  LeavesHeld cur cs o = (u : Sent) × (o ≡ some u) × Held P none cur u.0 × (clients u.0 ≡ cs)

  leave_first-LeavesHeld :
      (im cur p f : Option ℕ) (t : TextInput) (ts : List TextInput) (o : Option Sent)
      → Honest P
      → Lacks t.client (clients ts)
      → Rests P im cur t.client p f
      → Held P im cur ts
      → LeavesHeld cur (clients ts) o
      → LeavesHeld cur (t.client ∷ clients ts) (leave_first P f (at p f t) ts o)
  leave_first-LeavesHeld im cur none none t ts o h l r rs (u, e, v, c) =
      ((at none none t ∷ u.0, u.1), rw e refl, (tt, v), ap (λ cs. t.client ∷ cs) c)
  leave_first-LeavesHeld none (some s) (some p) none t ts o h l r rs (u, e, v, c) =
      ((at (some p) none t ∷ u.0, u.1), rw e refl, (r, v), ap (λ cs. t.client ∷ cs) c)
  leave_first-LeavesHeld (some m) (some s) none (some f) t ts o h l (e, c) rs v = (
    _,
    refl,
    (
      subst (Rests P none (some s) t.client (some f)) (sym (h.leaves (some f))) (e, c),
      apart-Held (some m) none s t.client ts c l rs,
    ),
    refl,
  )
  leave_first-LeavesHeld (some m) none none (some f) t ts o h l r rs v = elim r [ ]
  leave_first-LeavesHeld none cur none (some f) t ts o h l r rs v = elim r [ ]
  leave_first-LeavesHeld none none (some p) none t ts o h l r rs v = elim r [ ]
  leave_first-LeavesHeld none none (some p) (some f) t ts o h l r rs v = elim r [ ]
  leave_first-LeavesHeld none (some s) (some p) (some f) t ts o h l r rs v = elim r [ ]
  leave_first-LeavesHeld (some m) cur (some p) f t ts o h l r rs v = elim r [ ]

  pub leave_focused-LeavesHeld :
      (im cur : Option ℕ) (ts : List TextInput)
      → Honest P
      → Apart (clients ts)
      → Held P im cur ts
      → LeavesHeld cur (clients ts) (leave_focused P ts)
  leave_focused-LeavesHeld im cur [] h a hs = (([], []), refl, tt, refl)
  leave_focused-LeavesHeld im cur (t ∷ ts) h (l, a) (r, rs) =
      leave_first-LeavesHeld im cur t.pending_focused_surface t.focused_surface t ts
        (leave_focused P ts) h l r rs (leave_focused-LeavesHeld im cur ts h a rs)

  pub forget-Rests :
      (s : ℕ) (im cur : Option ℕ) (c : ℕ) (p f : Option ℕ) (t : TextInput)
      → Rests P im cur c p f
      → Rests P im cur c
          (forget s (at p f t)).pending_focused_surface
          (forget s (at p f t)).focused_surface
  forget-Rests s im cur c none f t r = r
  forget-Rests s none (some a) c (some p) none t r = elim (Bool-cases (p == s)) [
    | inl e ↦ rw e tt
    | inr e ↦ rw e r
  ]
  forget-Rests s none none c (some p) f t r = elim r [ ]
  forget-Rests s none (some a) c (some p) (some f) t r = elim r [ ]
  forget-Rests s (some m) cur c (some p) f t r = elim r [ ]

  pub taken_off-Rests :
      (s : ℕ) (im cur : Option ℕ) (c : ℕ) (p f : Option ℕ) (t : TextInput)
      → Rests P im cur c p f
      → Rests P im cur c
          (taken_off s (at p f t)).pending_focused_surface
          (taken_off s (at p f t)).focused_surface
  taken_off-Rests s im cur c p none t r = r
  taken_off-Rests s (some m) (some a) c none (some f) t r = elim (Bool-cases (f == s)) [
    | inl e ↦ rw e tt
    | inr e ↦ rw e r
  ]
  taken_off-Rests s (some m) none c none (some f) t r = elim r [ ]
  taken_off-Rests s (some m) cur c (some p) (some f) t r = elim r [ ]
  taken_off-Rests s none cur c none (some f) t r = elim r [ ]
  taken_off-Rests s none none c (some p) (some f) t r = elim r [ ]
  taken_off-Rests s none (some a) c (some p) (some f) t r = elim r [ ]

  pub Held-map :
      (f : TextInput → TextInput) (im cur : Option ℕ) (ts : List TextInput)
      → ((t : TextInput) → (f t).client ≡ t.client)
      → ((t : TextInput)
          → Rests P im cur t.client t.pending_focused_surface t.focused_surface
          → Rests P im cur t.client (f t).pending_focused_surface (f t).focused_surface)
      → Held P im cur ts
      → Held P im cur (map f ts)
  Held-map f im cur [] e q h = tt
  Held-map f im cur (t ∷ ts) e q (r, h) = (
    subst (λ c. Rests P im cur c (f t).pending_focused_surface (f t).focused_surface) (sym (e t))
        (q t r),
    Held-map f im cur ts e q h,
  )
