-- ===== src/PhoshPrivate/Tables.antt =====
-- What holds of every entry of the tables of accelerators of src/phosh-private.c, and how it is kept.
use phoc.Prelude.{
  ℕ, ◌<◌, ◌≡◌, sym, ◌≢◌, ◌⊎◌, inl, inr, List, [], ◌∷◌, ◌++◌, none, some, ◌==◌, arith, Bool-cases,
}
use phoc.PhoshPrivate.State.{KeyboardEvent}
use phoc.PhoshPrivate.Accelerators.{u32_mod, lookup, insert, on_event, find_id, remove}
use phoc.PhoshPrivate.Lifecycle.{drop_event}

-- A predicate on every entry of every table.
abbrev pub AllEntries : (ℕ → ℕ → Type 0) → List (ℕ × ℕ) → Type 0
AllEntries P [] = Unit
AllEntries P ((k, v) ∷ m) = P k v × AllEntries P m

abbrev pub AllEvents : (ℕ → ℕ → Type 0) → List KeyboardEvent → Type 0
AllEvents P [] = Unit
AllEvents P (e ∷ es) = AllEntries P e.subscribed_accelerators × AllEvents P es

-- An id that was given out before the counter reached `next`; 0 means that it has gone round.
abbrev pub Given : ℕ → ℕ → ℕ → Type 0
Given next k v = (0 < v) × (v < u32_mod) × ((next ≡ 0) ⊎ (v < next))

-- No id is in two entries.
abbrev pub DistinctIds : List (ℕ × ℕ) → Type 0
DistinctIds [] = Unit
DistinctIds ((k, v) ∷ m) = AllEntries (λ j w. w ≢ v) m × DistinctIds m

abbrev pub DistinctEvents : List KeyboardEvent → Type 0
DistinctEvents [] = Unit
DistinctEvents (e ∷ es) = DistinctIds e.subscribed_accelerators × DistinctEvents es

module _ {P Q : ℕ → ℕ → Type 0} (f : (k v : ℕ) → P k v → Q k v) where
  pub AllEntries-mono : (m : List (ℕ × ℕ)) → AllEntries P m → AllEntries Q m
  AllEntries-mono [] h = tt
  AllEntries-mono ((k, v) ∷ m) h = (f k v h.0, AllEntries-mono m h.1)

  pub AllEvents-mono : (es : List KeyboardEvent) → AllEvents P es → AllEvents Q es
  AllEvents-mono [] h = tt
  AllEvents-mono (e ∷ es) h = (AllEntries-mono e.subscribed_accelerators h.0, AllEvents-mono es h.1)

module _ (P : ℕ → ℕ → Type 0) where
  pub AllEntries-insert :
      (k v : ℕ) (m : List (ℕ × ℕ)) → P k v → AllEntries P m → AllEntries P (insert k v m)
  AllEntries-insert k v [] p h = (p, tt)
  AllEntries-insert k v ((j, w) ∷ m) p h = elim (Bool-cases (j == k)) [
    | inl e ↦ rw e (p, h.1)
    | inr e ↦ rw e (h.0, AllEntries-insert k v m p h.1)
  ]

  pub AllEntries-remove : (k : ℕ) (m : List (ℕ × ℕ)) → AllEntries P m → AllEntries P (remove k m)
  AllEntries-remove k [] h = tt
  AllEntries-remove k ((j, w) ∷ m) h = elim (Bool-cases (j == k)) [
    | inl e ↦ rw e h.1
    | inr e ↦ rw e (h.0, AllEntries-remove k m h.1)
  ]

  pub AllEvents-on_event :
      (r : ℕ) (f : KeyboardEvent → KeyboardEvent) (es : List KeyboardEvent)
      → ((e : KeyboardEvent)
          → AllEntries P e.subscribed_accelerators
          → AllEntries P (f e).subscribed_accelerators)
      → AllEvents P es
      → AllEvents P (on_event r f es)
  AllEvents-on_event r f [] g h = tt
  AllEvents-on_event r f (e ∷ es) g h = elim (Bool-cases (e.resource == r)) [
    | inl q ↦ rw q (g e h.0, h.1)
    | inr q ↦ rw q (h.0, AllEvents-on_event r f es g h.1)
  ]

pub DistinctIds-insert :
    (k v : ℕ) (m : List (ℕ × ℕ))
    → AllEntries (λ j w. w ≢ v) m
    → DistinctIds m
    → DistinctIds (insert k v m)
DistinctIds-insert k v [] n d = (tt, tt)
DistinctIds-insert k v ((j, w) ∷ m) n d = elim (Bool-cases (j == k)) [
  | inl e ↦ rw e (n.1, d.1)
  | inr e ↦ rw e (
    AllEntries-insert (λ j' w'. w' ≢ w) k v m (λ q. n.0 (sym q)) d.0,
    DistinctIds-insert k v m n.1 d.1,
  )
]

pub DistinctIds-remove : (k : ℕ) (m : List (ℕ × ℕ)) → DistinctIds m → DistinctIds (remove k m)
DistinctIds-remove k [] d = tt
DistinctIds-remove k ((j, w) ∷ m) d = elim (Bool-cases (j == k)) [
  | inl e ↦ rw e d.1
  | inr e ↦ rw e (AllEntries-remove (λ j' w'. w' ≢ w) k m d.0, DistinctIds-remove k m d.1)
]

pub DistinctEvents-on_event :
    (P : ℕ → ℕ → Type 0) (r : ℕ) (f : KeyboardEvent → KeyboardEvent) (es : List KeyboardEvent)
    → ((e : KeyboardEvent)
        → AllEntries P e.subscribed_accelerators
        → DistinctIds e.subscribed_accelerators
        → DistinctIds (f e).subscribed_accelerators)
    → AllEvents P es
    → DistinctEvents es
    → DistinctEvents (on_event r f es)
DistinctEvents-on_event P r f [] g h d = tt
DistinctEvents-on_event P r f (e ∷ es) g h d = elim (Bool-cases (e.resource == r)) [
  | inl q ↦ rw q (g e h.0 d.0, d.1)
  | inr q ↦ rw q (d.0, DistinctEvents-on_event P r f es g h.1 d.1)
]

pub AllEvents-append :
    (P : ℕ → ℕ → Type 0) (es : List KeyboardEvent) (r : ℕ)
    → AllEvents P es
    → AllEvents P (es ++ record { resource = r; subscribed_accelerators = [] } ∷ [])
AllEvents-append P [] r h = (tt, tt)
AllEvents-append P (e ∷ es) r h = (h.0, AllEvents-append P es r h.1)

pub DistinctEvents-append :
    (es : List KeyboardEvent) (r : ℕ)
    → DistinctEvents es
    → DistinctEvents (es ++ record { resource = r; subscribed_accelerators = [] } ∷ [])
DistinctEvents-append [] r h = (tt, tt)
DistinctEvents-append (e ∷ es) r h = (h.0, DistinctEvents-append es r h.1)

pub AllEvents-drop :
    (P : ℕ → ℕ → Type 0) (r : ℕ) (es : List KeyboardEvent)
    → AllEvents P es
    → AllEvents P (drop_event r es)
AllEvents-drop P r [] h = tt
AllEvents-drop P r (e ∷ es) h = ground (arith, AllEvents-drop P r es)

pub DistinctEvents-drop :
    (r : ℕ) (es : List KeyboardEvent) → DistinctEvents es → DistinctEvents (drop_event r es)
DistinctEvents-drop r [] h = tt
DistinctEvents-drop r (e ∷ es) h = ground (arith, DistinctEvents-drop r es)

pub find_id-insert :
    (k v : ℕ) (m : List (ℕ × ℕ))
    → AllEntries (λ j w. w ≢ v) m
    → lookup k m ≡ none
    → find_id v (insert k v m) ≡ some k
find_id-insert k v [] a n = ground arith
find_id-insert k v ((j, w) ∷ m) a n = ground (arith, find_id-insert k v m)

pub remove-insert : (k v : ℕ) (m : List (ℕ × ℕ)) → lookup k m ≡ none → remove k (insert k v m) ≡ m
remove-insert k v [] n = ground arith
remove-insert k v ((j, w) ∷ m) n = ground (arith, remove-insert k v m)
