-- ===== src/PhoshPrivate/Grab.antt =====
-- What a grab of src/phosh-private.c changes, and what a key press then sends to the shell.
use phoc.Prelude.{ℕ, ◌≡◌, refl, ◌≢◌, true, false, List, [], ◌∷◌, some, ◌==◌, if◌then◌else◌, arith}
use phoc.Keybindings.Accel.{PhocKeyCombo}
use phoc.PhoshPrivate.State.{
  KeyboardEvent, PhoshPrivate, GrabError, already_subscribed, invalid_keysym, misc_error,
  grab_failed, grab_success, accelerator_activated,
}
use phoc.PhoshPrivate.Accelerators.{
  accelerator_key, lookup, accelerator_is_registered, any_registered,
  accelerator_already_subscribed, Subscribeable, keysym_is_subscribeable, insert, on_event,
  find_event, subscribe, grab_combo, granted, forward_all, forward_keysym,
}

lookup-insert :
    (k j v : ℕ) (m : List (ℕ × ℕ))
    → lookup j (insert k v m) ≡ (if k == j then some v else lookup j m)
lookup-insert k j v [] = refl
lookup-insert k j v ((i, w) ∷ m) = ground (arith, lookup-insert k j v m)

forward_all-none :
    (c : PhocKeyCombo) (t : ℕ) (es : List KeyboardEvent)
    → any_registered c es ≡ false
    → forward_all c t es ≡ []
unfolding forward_all any_registered accelerator_is_registered
forward_all-none c t [] h = refl
forward_all-none c t (e ∷ es) h = ground (arith, forward_all-none c t es)

forward_all-subscribe :
    (c : PhocKeyCombo) (t id r : ℕ) (es : List KeyboardEvent) (e : KeyboardEvent)
    → any_registered c es ≡ false
    → find_event r es ≡ some e
    → forward_all c t (on_event r (subscribe (accelerator_key c) id) es)
      ≡ accelerator_activated r id t ∷ []
unfolding forward_all any_registered accelerator_is_registered
forward_all-subscribe c t id r [] e h f = cc
forward_all-subscribe c t id r (x ∷ es) e h f = ground (
  arith,
  lookup-insert (accelerator_key c) (accelerator_key c) id x.subscribed_accelerators,
  forward_all-none c t es,
  forward_all-subscribe c t id r es e,
)

any_registered-subscribe :
    (c : PhocKeyCombo) (id r : ℕ) (es : List KeyboardEvent) (e : KeyboardEvent)
    → find_event r es ≡ some e
    → any_registered c (on_event r (subscribe (accelerator_key c) id) es) ≡ true
unfolding any_registered accelerator_is_registered
any_registered-subscribe c id r [] e f = cc
any_registered-subscribe c id r (x ∷ es) e f = ground (
  arith,
  lookup-insert (accelerator_key c) (accelerator_key c) id x.subscribed_accelerators,
  any_registered-subscribe c id r es e,
)

pub grab_granted :
    (b : Subscribeable) (self : PhoshPrivate) (r : ℕ) (a : List ℕ) (c : PhocKeyCombo)
    → accelerator_already_subscribed self c ≡ false
    → keysym_is_subscribeable b c ≡ true
    → self.last_action_id ≢ 0
    → grab_combo b self r a c ≡ (granted self r c, grab_success r a self.last_action_id ∷ [])
unfolding grab_combo
grab_granted b self r a c free ok id = ground arith

-- A grab of an accelerator that nobody has, that may be subscribed to and for which there is an
-- action id left succeeds: pressing it then sends exactly one message, with that id, to the resource
-- that asked.
pub grab_then_forward :
    (b : Subscribeable) (self : PhoshPrivate) (r : ℕ) (a : List ℕ) (c : PhocKeyCombo) (t : ℕ)
    (e : KeyboardEvent)
    → find_event r self.keyboard_events ≡ some e
    → accelerator_already_subscribed self c ≡ false
    → keysym_is_subscribeable b c ≡ true
    → self.last_action_id ≢ 0
    → (self' : PhoshPrivate) × (grab_combo b self r a c
        ≡ (self', grab_success r a self.last_action_id ∷ []))
      × (forward_keysym self' c t ≡ (accelerator_activated r self.last_action_id t ∷ [], true))
unfolding grab_combo forward_keysym accelerator_already_subscribed
grab_then_forward b self r a c t e found free ok id = (
  granted self r c,
  grab_granted b self r a c free ok id,
  ground (
    arith,
    forward_all-subscribe c t self.last_action_id r self.keyboard_events e free found,
    any_registered-subscribe c self.last_action_id r self.keyboard_events e found,
  ),
)

-- Why a grab is refused, in the order of the tests.
abbrev pub Refuses : Subscribeable → PhoshPrivate → PhocKeyCombo → GrabError → Type 0
Refuses b self c already_subscribed = accelerator_already_subscribed self c ≡ true
Refuses b self c invalid_keysym =
    (accelerator_already_subscribed self c ≡ false) × (keysym_is_subscribeable b c ≡ false)
Refuses b self c misc_error =
    (accelerator_already_subscribed self c ≡ false)
    × (keysym_is_subscribeable b c ≡ true)
    × (self.last_action_id ≡ 0)

-- A grab that is refused leaves the whole state as it was and sends its error alone, also when the
-- action ids have run out: the counter is taken back to 0, so that every later grab fails too.
pub grab_refused :
    (b : Subscribeable) (self : PhoshPrivate) (r : ℕ) (a : List ℕ) (c : PhocKeyCombo)
    (error : GrabError)
    → Refuses b self c error
    → grab_combo b self r a c ≡ (self, grab_failed r a error ∷ [])
unfolding grab_combo
grab_refused b self r a c already_subscribed h = ground arith
grab_refused b self r a c invalid_keysym h = ground arith
grab_refused b self r a c misc_error h = ground arith
