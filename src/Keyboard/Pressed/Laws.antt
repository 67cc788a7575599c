-- ===== src/Keyboard/Pressed/Laws.antt =====
-- The arrays of pressed keysyms of src/keyboard.c as sets of keysyms.
use phoc.Prelude.{
  ℕ, zero, suc, ◌≡◌, refl, sym, ap, ◌∙◌, ◌≢◌, ◌⊎◌, inl, inr, Bool, true, false, not, ◌&&◌, ◌||◌,
  List, [], ◌∷◌, none, some, ◌==◌, length, set, arith, Bool-cases, Option-cases, length-set, ==_iff,
}
use phoc.Keybindings.Accel.{no_symbol}
use phoc.Keyboard.Pressed.{
  cap, pressed_keysyms_index, pressed_keysyms_add, pressed_keysyms_remove, holds,
}

-- Each keysym is in at most one entry.
abbrev pub Distinct : List ℕ → Type 0
Distinct [] = Unit
Distinct (x ∷ xs) = ((x ≡ no_symbol) ⊎ (holds xs x ≡ false)) × Distinct xs

pub record IsValid (xs : List ℕ) : Type 0 where
  pub capacity : length xs ≡ cap
  pub distinct : Distinct xs

index_none : (xs : List ℕ) (k : ℕ) → pressed_keysyms_index xs k ≡ none → holds xs k ≡ false
unfolding pressed_keysyms_index
index_none [] k e = refl
index_none (x ∷ xs) k e = ground (arith, index_none xs k)

index-zero : (x : ℕ) (xs : List ℕ) (k : ℕ) → pressed_keysyms_index (x ∷ xs) k ≡ some 0 → x ≡ k
unfolding pressed_keysyms_index
index-zero x xs k e = elim (Option-cases (pressed_keysyms_index xs k)) [
  | inl h ↦ ground arith
  | inr (i, h) ↦ ground arith
]

index-suc :
    (x : ℕ) (xs : List ℕ) (k i : ℕ)
    → pressed_keysyms_index (x ∷ xs) k ≡ some (suc i)
    → (x ≢ k) × (pressed_keysyms_index xs k ≡ some i)
unfolding pressed_keysyms_index
index-suc x xs k i e = elim (Option-cases (pressed_keysyms_index xs k)) [
  | inl h ↦ ground arith
  | inr (j, h) ↦ ground arith
]

index_some : (xs : List ℕ) (k i : ℕ) → pressed_keysyms_index xs k ≡ some i → holds xs k ≡ true
index_some [] k i e = unfold pressed_keysyms_index in cc
index_some (x ∷ xs) k zero e = ground (arith, index-zero x xs k)
index_some (x ∷ xs) k (suc i) e = ground (arith, index-suc x xs k i, index_some xs k i)

holds-set_new :
    (xs : List ℕ) (k j i : ℕ)
    → pressed_keysyms_index xs no_symbol ≡ some i
    → j ≢ no_symbol
    → holds (set xs i k) j ≡ (k == j || holds xs j)
holds-set_new [] k j i e h = unfold pressed_keysyms_index in cc
holds-set_new (x ∷ xs) k j zero e h = ground (arith, index-zero x xs no_symbol)
holds-set_new (x ∷ xs) k j (suc i) e h =
    ground (arith, index-suc x xs no_symbol i, holds-set_new xs k j i)

holds-set_gone :
    (xs : List ℕ) (k j i : ℕ)
    → pressed_keysyms_index xs k ≡ some i
    → Distinct xs
    → k ≢ no_symbol
    → j ≢ no_symbol
    → holds (set xs i no_symbol) j ≡ (holds xs j && not (k == j))
holds-set_gone [] k j i e d h h' = unfold pressed_keysyms_index in cc
holds-set_gone (x ∷ xs) k j zero e d h h' = ground (arith, index-zero x xs k, eq_at xs k j)
  where
    eq_at : (xs : List ℕ) (k j : ℕ) → k ≡ j → holds xs j ≡ holds xs k
    eq_at xs k j p = ap (holds xs) (sym p)
holds-set_gone (x ∷ xs) k j (suc i) e d h h' =
    ground (arith, index-suc x xs k i, holds-set_gone xs k j i)

set-index_self : (xs : List ℕ) (k i : ℕ) → pressed_keysyms_index xs k ≡ some i → set xs i k ≡ xs
set-index_self [] k i e = refl
set-index_self (x ∷ xs) k zero e = ap (λ y. y ∷ xs) (sym (index-zero x xs k e))
set-index_self (x ∷ xs) k (suc i) e = ap (◌∷◌ x) (set-index_self xs k i (index-suc x xs k i e).1)

Distinct-set_new :
    (xs : List ℕ) (k i : ℕ)
    → pressed_keysyms_index xs no_symbol ≡ some i
    → holds xs k ≡ false
    → Distinct xs
    → Distinct (set xs i k)
Distinct-set_new [] k i e h d = tt
Distinct-set_new (x ∷ xs) k zero e h d = ground arith
Distinct-set_new (x ∷ xs) k (suc i) e h d =
    ground (arith, index-suc x xs no_symbol i, holds-set_new xs k x i, Distinct-set_new xs k i)

Distinct-set_gone :
    (xs : List ℕ) (k i : ℕ)
    → pressed_keysyms_index xs k ≡ some i
    → k ≢ no_symbol
    → Distinct xs
    → Distinct (set xs i no_symbol)
Distinct-set_gone [] k i e h d = tt
Distinct-set_gone (x ∷ xs) k zero e h d = ground arith
Distinct-set_gone (x ∷ xs) k (suc i) e h d =
    ground (arith, index-suc x xs k i, holds-set_gone xs k x i, Distinct-set_gone xs k i)

-- A press adds the keysym if an entry is free, and changes nothing else.
pub holds-pressed_keysyms_add :
    (xs : List ℕ) (k j : ℕ)
    → j ≢ no_symbol
    → holds (pressed_keysyms_add xs k) j ≡ (holds xs j || (k == j && holds xs no_symbol))
unfolding pressed_keysyms_add
holds-pressed_keysyms_add xs k j h = elim (Option-cases (pressed_keysyms_index xs k)) [
  | inr (i, e) ↦ rw (e, pressed_keysyms_add) (same (holds xs no_symbol) (index_some xs k i e))
  | inl e ↦ elim (Option-cases (pressed_keysyms_index xs no_symbol)) [
    | inl f ↦ rw (e, pressed_keysyms_add, f) (ground (arith, index_none xs no_symbol f))
    | inr (i, f) ↦
        rw (e, pressed_keysyms_add, f)
          (ground (arith, holds-set_new xs k j i f h, index_some xs no_symbol i f))
  ]
]
  where
    same : (b : Bool) → holds xs k ≡ true → holds xs j ≡ (holds xs j || (k == j && b))
    same b t = elim (Bool-cases (k == j)) [
      | inr ne ↦ ground arith
      | inl q ↦ ground (arith, ap (holds xs) ((==_iff k j).0 q))
    ]

-- In an array without a keysym twice, a release takes the keysym out, and changes nothing else.
pub holds-pressed_keysyms_remove :
    (xs : List ℕ) (k j : ℕ)
    → IsValid xs
    → j ≢ no_symbol
    → holds (pressed_keysyms_remove xs k) j ≡ (holds xs j && not (k == j))
unfolding pressed_keysyms_remove
holds-pressed_keysyms_remove xs k j v h = elim (Option-cases (pressed_keysyms_index xs k)) [
  | inl e ↦ rw (e, pressed_keysyms_remove) (absent (index_none xs k e))
  | inr (i, e) ↦ rw (e, pressed_keysyms_remove) (present i e)
]
  where
    absent : holds xs k ≡ false → holds xs j ≡ (holds xs j && not (k == j))
    absent f = elim (Bool-cases (k == j)) [
      | inr ne ↦ ground arith
      | inl q ↦ ground (arith, ap (holds xs) ((==_iff k j).0 q))
    ]

    present :
        (i : ℕ)
        → pressed_keysyms_index xs k ≡ some i
        → holds (set xs i no_symbol) j ≡ (holds xs j && not (k == j))
    present i e = elim (Bool-cases (k == no_symbol)) [
      | inr ne ↦ holds-set_gone xs k j i e v.distinct (λ z. cc ((==_iff k no_symbol).1 z)) h
      | inl q ↦ rw (sym ((==_iff k no_symbol).0 q)) (rw (set-index_self xs k i e) (ground arith))
    ]

pub pressed_keysyms_add-IsValid :
    (xs : List ℕ) (k : ℕ) → IsValid xs → IsValid (pressed_keysyms_add xs k)
unfolding pressed_keysyms_add
pressed_keysyms_add-IsValid xs k v = elim (Option-cases (pressed_keysyms_index xs k)) [
  | inr (i, e) ↦ rw (e, pressed_keysyms_add) v
  | inl e ↦ elim (Option-cases (pressed_keysyms_index xs no_symbol)) [
    | inl f ↦ rw (e, pressed_keysyms_add, f) v
    | inr (i, f) ↦
        rw (e, pressed_keysyms_add, f)
          (record {
            capacity = length-set xs i k ∙ v.capacity;
            distinct = Distinct-set_new xs k i f (index_none xs k e) v.distinct;
          })
  ]
]

pub pressed_keysyms_remove-IsValid :
    (xs : List ℕ) (k : ℕ) → IsValid xs → IsValid (pressed_keysyms_remove xs k)
unfolding pressed_keysyms_remove
pressed_keysyms_remove-IsValid xs k v = elim (Option-cases (pressed_keysyms_index xs k)) [
  | inl e ↦ rw (e, pressed_keysyms_remove) v
  | inr (i, e) ↦
      rw (e, pressed_keysyms_remove)
        (record {
          capacity = length-set xs i no_symbol ∙ v.capacity;
          distinct = elim (Bool-cases (k == no_symbol)) [
            | inl q ↦ rw (sym ((==_iff k no_symbol).0 q)) (rw (set-index_self xs k i e) v.distinct)
            | inr ne ↦ Distinct-set_gone xs k i e (λ z. cc ((==_iff k no_symbol).1 z)) v.distinct
          ];
        })
]
