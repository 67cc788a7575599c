-- ===== src/Seat/Spec.antt =====
-- What src/seat.c promises of the focus: the views of a seat in the order in which they had it, and
-- whether the first one has it now. A seat's state is read as such a record by `focus_state`.
use phoc.Prelude.{
  ℕ, ◌≡◌, refl, ap, ◌≢◌, inl, inr, Bool, true, false, List, [], ◌∷◌, ◌++◌, Option, none, some, ◌==◌,
  ==_refl, arith, Bool-cases,
}
use phoc.View.Fullscreen.{without}
use phoc.Seat.State.{World}
use phoc.Seat.Focus.{has}
use phoc.Seat.Same.{SameFocus}

pub record Focus : Type 0 where
  pub views : List ℕ
  pub has_focus : Bool
  pub layer : Option ℕ
  pub client : Option ℕ

abbrev pub focus_state : {D : Type 0} → World D → Focus
focus_state w = record {
  views = w.seat.views;
  has_focus = w.seat.has_focus;
  layer = w.focused_layer;
  client = w.exclusive_client;
}

abbrev pub is_free : Option ℕ → Bool
is_free none = true
is_free (some l) = false

-- The view goes to the front, and has the focus unless a layer surface holds it.
abbrev pub focus_on : ℕ → Focus → Focus
focus_on v f = record f { views = v ∷ without v f.views; has_focus = is_free f.layer }

abbrev pub unfocused : Focus → Focus
unfocused f = record f { has_focus = false }

abbrev pub to_end : ℕ → Focus → Focus
to_end v f = record f { views = without v f.views ++ (v ∷ []) }

abbrev pub rotate : List ℕ → List ℕ
rotate [] = []
rotate (v ∷ vs) = vs ++ (v ∷ [])

abbrev pub Distinct : List ℕ → Type 0
Distinct [] = Unit
Distinct (v ∷ vs) = (has v vs ≡ false) × Distinct vs

-- No view is on the list twice; a view with the focus is on it, and no layer surface has it then.
pub record IsValid (f : Focus) : Type 0 where
  pub distinct : Distinct f.views
  pub blocked : (l : ℕ) → f.layer ≡ some l → f.has_focus ≡ false
  pub focused : f.views ≡ [] → f.has_focus ≡ false

has-without : (u v : ℕ) (vs : List ℕ) → has u vs ≡ false → has u (without v vs) ≡ false
has-without u v [] h = refl
has-without u v (w ∷ ws) h = ground (arith, has-without u v ws)

without_gone : (v : ℕ) (vs : List ℕ) → Distinct vs → has v (without v vs) ≡ false
without_gone v [] d = refl
without_gone v (w ∷ ws) (n, d) = elim (Bool-cases (w == v)) [
  | inl e ↦ ground (arith, e, n)
  | inr e ↦ rw (e, without, e) (without_gone v ws d)
]

pub Distinct-without : (v : ℕ) (vs : List ℕ) → Distinct vs → Distinct (without v vs)
Distinct-without v [] d = tt
Distinct-without v (w ∷ ws) (n, d) = elim (Bool-cases (w == v)) [
  | inl e ↦ rw e d
  | inr e ↦ rw e (has-without w v ws n, Distinct-without v ws d)
]

has-append :
    (u v : ℕ) (vs : List ℕ) → has u vs ≡ false → (v == u) ≡ false → has u (vs ++ (v ∷ [])) ≡ false
has-append u v [] h e = rw e refl
has-append u v (w ∷ ws) h e = ground (arith, has-append u v ws)

Distinct-append : (v : ℕ) (vs : List ℕ) → Distinct vs → has v vs ≡ false → Distinct (vs ++ (v ∷ []))
Distinct-append v [] d h = (refl, tt)
Distinct-append v (w ∷ ws) (n, d) h =
    (has-append w v ws n (ground (arith, h)), Distinct-append v ws d (ground (arith, h)))

pub without-absent : (v : ℕ) (vs : List ℕ) → has v vs ≡ false → without v vs ≡ vs
without-absent v [] h = refl
without-absent v (w ∷ ws) h = ground (arith, without-absent v ws)

-- To put a view at the end and take it away changes nothing.
pub without-append : (v : ℕ) (vs : List ℕ) → has v vs ≡ false → without v (vs ++ (v ∷ [])) ≡ vs
without-append v [] h = rw (==_refl v) refl
without-append v (w ∷ ws) h = ground (arith, without-append v ws)

pub focus_on-IsValid : (v : ℕ) (f : Focus) → IsValid f → IsValid (focus_on v f)
focus_on-IsValid v f i = record {
  distinct = (without_gone v f.views i.distinct, Distinct-without v f.views i.distinct);
  blocked = λ l e. ap is_free e;
  focused = λ e. cc e;
}

pub unfocused-IsValid : (f : Focus) → IsValid f → IsValid (unfocused f)
unfocused-IsValid f i = record { distinct = i.distinct; blocked = λ l e. refl; focused = λ e. refl }

append-not_empty : (v : ℕ) (vs : List ℕ) → vs ++ (v ∷ []) ≢ []
append-not_empty v [] e = cc
append-not_empty v (w ∷ ws) e = cc

pub to_end-IsValid : (v : ℕ) (f : Focus) → IsValid f → IsValid (to_end v f)
to_end-IsValid v f i = record {
  distinct =
      Distinct-append v (without v f.views) (Distinct-without v f.views i.distinct)
        (without_gone v f.views i.distinct);
  blocked = i.blocked;
  focused = λ e. absurd (append-not_empty v (without v f.views) e);
}

pub SameFocus-state : {D : Type 0} (w t : World D) → SameFocus w t → focus_state t ≡ focus_state w
SameFocus-state w t p = cc (p.seat, p.layer, p.client)
