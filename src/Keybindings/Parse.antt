-- ===== src/Keybindings/Parse.antt =====
-- What parse_accelerator of src/keybindings.c returns.
use phoc.Prelude.{
  ℕ, zero, suc, ◌<◌, ◌≡◌, refl, true, leb, drop, Option, length-append, sym, ◌∙◌, ◌≢◌, false, List,
  [], ◌∷◌, ◌++◌, some, length, bit_or, arith,
}
use mathlib.Core.List.{append_assoc}
use phoc.Keybindings.Accel.{
  step_over, Keys, Parsed, combo, advance, ignore, codes, no_symbol, is_alt, is_ctl, is_modx,
  is_ctrl, is_shft, is_shift, is_control, is_meta, is_super, is_hyper, is_keycode, mod_val,
  skip_tag, unknown_tag, tag_round, eq_text, lookup_keysym, key_round, parse_loop,
  parse_accelerator,
}

-- The modifier tags that the parser knows.
pub data Tag : Type 0 where
  control shift shft ctrl ctl alt super mod1 mod2 mod3 mod4 mod5 : Tag

abbrev pub text : Tag → List ℕ
text control = codes "<Control>"
text shift = codes "<Shift>"
text shft = codes "<Shft>"
text ctrl = codes "<Ctrl>"
text ctl = codes "<Ctl>"
text alt = codes "<Alt>"
text super = codes "<Super>"
text mod1 = codes "<Mod1>"
text mod2 = codes "<Mod2>"
text mod3 = codes "<Mod3>"
text mod4 = codes "<Mod4>"
text mod5 = codes "<Mod5>"

abbrev pub mask : Keys → Tag → ℕ
mask k control = k.ctrl
mask k shift = k.shift
mask k shft = k.shift
mask k ctrl = k.ctrl
mask k ctl = k.ctrl
mask k alt = k.alt
mask k super = k.logo
mask k mod1 = k.alt
mask k mod2 = k.mod2
mask k mod3 = k.mod3
mask k mod4 = k.logo
mask k mod5 = k.mod5

tag_round-text :
    (k : Keys) (t : Tag) (s : List ℕ)
    → tag_round k (text t ++ s) ≡ advance (length (text t)) (mask k t)
unfolding tag_round is_alt is_ctl is_modx is_ctrl is_shft is_shift is_control is_meta is_super
    is_hyper mod_val
tag_round-text k control s = ground arith
tag_round-text k shift s = ground arith
tag_round-text k shft s = ground arith
tag_round-text k ctrl s = ground arith
tag_round-text k ctl s = ground arith
tag_round-text k alt s = ground arith
tag_round-text k super s = ground arith
tag_round-text k mod1 s = ground arith
tag_round-text k mod2 s = ground arith
tag_round-text k mod3 s = ground arith
tag_round-text k mod4 s = ground arith
tag_round-text k mod5 s = ground arith

tag_round-primary : (k : Keys) (s : List ℕ) → tag_round k (codes "<Primary>" ++ s) ≡ ignore 9
unfolding tag_round unknown_tag skip_tag is_alt is_ctl is_modx is_ctrl is_shft is_shift is_control
    is_meta is_super is_hyper
tag_round-primary k s = ground arith

leb-length : (xs s : List ℕ) → leb (length xs) (length (xs ++ s)) ≡ true
leb-length xs s = ground (arith, length-append xs s)

drop-append : (xs s : List ℕ) → drop (length xs) (xs ++ s) ≡ s
drop-append [] s = refl
drop-append (x ∷ xs) s = drop-append xs s

step_over-append :
    (loop : List ℕ → ℕ → Option Parsed) (xs s : List ℕ) (mods : ℕ)
    → step_over loop (xs ++ s) mods (length xs) ≡ loop s mods
step_over-append loop xs s mods = rw (leb-length xs s, drop-append xs s) refl

-- A run of known tags.
abbrev pub texts : List Tag → List ℕ
texts [] = []
texts (t ∷ ts) = text t ++ texts ts

abbrev pub masks : Keys → ℕ → List Tag → ℕ
masks k mods [] = mods
masks k mods (t ∷ ts) = masks k (bit_or mods (mask k t)) ts

-- What the loop makes of the text behind a run of known tags.
abbrev pub Parses : Keys → List ℕ → ℕ → Parsed → Type 0
Parses k s mods r = (f : ℕ) → length s < f → parse_loop k f s mods ≡ some r

length-text : (t : Tag) (s : List ℕ) → length s < length (text t ++ s)
length-text control s = omega arith
length-text _ s = omega arith

Parses-text :
    (k : Keys) (t : Tag) (s : List ℕ) (mods : ℕ) (r : Parsed)
    → Parses k s (bit_or mods (mask k t)) r
    → Parses k (text t ++ s) mods r
unfolding parse_loop
Parses-text k t s mods r h zero lt = absurd (omega arith)
Parses-text k control s mods r h (suc f) lt =
    rw (tag_round-text k control s)
      (step_over-append (parse_loop k f) (text control) s (bit_or mods k.ctrl) ∙ h f (omega arith))
Parses-text k t s mods r h (suc f) lt =
    rw (tag_round-text k t s)
      (step_over-append (parse_loop k f) (text t) s (bit_or mods (mask k t)) ∙ h f (omega arith))

pub Parses-texts :
    (k : Keys) (ts : List Tag) (s : List ℕ) (mods : ℕ) (r : Parsed)
    → Parses k s (masks k mods ts) r
    → Parses k (texts ts ++ s) mods r
Parses-texts k [] s mods r h = h
Parses-texts k (t ∷ ts) s mods r h =
    rw (append_assoc (text t) (texts ts) s)
      (Parses-text k t (texts ts ++ s) mods r (Parses-texts k ts s (bit_or mods (mask k t)) r h))

-- A key's name: no tag, no keycode, not the key that the parser refuses, and known to the lookup.
pub record IsKeyName (k : Keys) (c : ℕ) (s : List ℕ) : Type 0 where
  pub no_tag : c ≢ b'<'
  pub no_keycode : is_keycode k (c ∷ s) ≡ false
  pub handled : eq_text (c ∷ s) (codes "Above_Tab") ≡ false
  pub known : lookup_keysym k (c ∷ s) ≢ no_symbol

Parses-name :
    (k : Keys) (c : ℕ) (s : List ℕ) (mods : ℕ)
    → IsKeyName k c s
    → Parses k (c ∷ s) mods (combo (record { modifiers = mods; keysym = lookup_keysym k (c ∷ s) }))
unfolding parse_loop key_round
Parses-name k c s mods n zero lt = absurd (omega arith)
Parses-name k c s mods n (suc f) lt = ground arith

-- An accelerator that is written as modifier tags and a key's name is parsed to the union of the
-- tags' masks and the keysym of the name, for every choice of known tags, in any order and number,
-- and every name that does not start with `<`, is no keycode, is not Above_Tab and has a keysym.
pub parse_accelerator-texts :
    (k : Keys) (ts : List Tag) (c : ℕ) (s : List ℕ)
    → IsKeyName k c s
    → parse_accelerator k (some (texts ts ++ c ∷ s))
      ≡ some (combo (record { modifiers = masks k 0 ts; keysym = lookup_keysym k (c ∷ s) }))
unfolding parse_accelerator
parse_accelerator-texts k ts c s n =
    Parses-texts k ts (c ∷ s) 0 _ (Parses-name k c s (masks k 0 ts) n)
      (suc (length (texts ts ++ c ∷ s))) (omega arith)

Parses-primary :
    (k : Keys) (s : List ℕ) (mods : ℕ) (r : Parsed)
    → Parses k s mods r
    → Parses k (codes "<Primary>" ++ s) mods r
unfolding parse_loop
Parses-primary k s mods r h zero lt = absurd (omega arith)
Parses-primary k s mods r h (suc f) lt =
    rw (tag_round-primary k s)
      (step_over-append (parse_loop k f) (codes "<Primary>") s mods ∙ h f (omega arith))

-- A modifier as it is written: a tag that the parser knows, or GTK's <Primary>.
pub data Modifier : Type 0 where
  known : Tag → Modifier
  primary : Modifier

abbrev pub all_texts : List Modifier → List ℕ
all_texts [] = []
all_texts (known t ∷ ms) = text t ++ all_texts ms
all_texts (primary ∷ ms) = codes "<Primary>" ++ all_texts ms

abbrev pub known_tags : List Modifier → List Tag
known_tags [] = []
known_tags (known t ∷ ms) = t ∷ known_tags ms
known_tags (primary ∷ ms) = known_tags ms

Parses-all_texts :
    (k : Keys) (ms : List Modifier) (s : List ℕ) (mods : ℕ) (r : Parsed)
    → Parses k s (masks k mods (known_tags ms)) r
    → Parses k (all_texts ms ++ s) mods r
Parses-all_texts k [] s mods r h = h
Parses-all_texts k (known t ∷ ms) s mods r h = rw (append_assoc (text t) (all_texts ms) s) (
    Parses-text k t (all_texts ms ++ s) mods r
      (Parses-all_texts k ms s (bit_or mods (mask k t)) r h))
Parses-all_texts k (primary ∷ ms) s mods r h =
    rw (append_assoc (codes "<Primary>") (all_texts ms) s)
      (Parses-primary k (all_texts ms ++ s) mods r (Parses-all_texts k ms s mods r h))

-- The tag <Primary>, GTK's name for Control, is dropped: wherever and however often it stands among known tags
-- before a key's name (one that does not start with `<`, is no keycode, is not Above_Tab and has a keysym), the
-- accelerator is parsed as it is without it.
pub parse_accelerator_primary :
    (k : Keys) (ms : List Modifier) (c : ℕ) (s : List ℕ)
    → IsKeyName k c s
    → parse_accelerator k (some (all_texts ms ++ c ∷ s))
      ≡ parse_accelerator k (some (texts (known_tags ms) ++ c ∷ s))
unfolding parse_accelerator
parse_accelerator_primary k ms c s n =
    Parses-all_texts k ms (c ∷ s) 0 _ (Parses-name k c s (masks k 0 (known_tags ms)) n)
      (suc (length (all_texts ms ++ c ∷ s))) (omega arith)
    ∙ sym (parse_accelerator-texts k (known_tags ms) c s n)
