-- ===== src/PhoshPrivate/Accelerators.antt =====
-- src/phosh-private.c: grabs and ungrabs of accelerators, and how a keysym is forwarded.
use phoc.Prelude.{
  ℕ, ◌+◌, ◌-◌, ◌*◌, ◌%◌, ◌^◌, Bool, true, false, not, ◌&&◌, ◌||◌, List, [], ◌∷◌, ◌++◌, Option, none,
  some, leb, ◌==◌, if◌then◌else◌,
}
use phoc.Keybindings.Accel.{Keys, PhocKeyCombo, combo, reject, overrun, parse_accelerator}
use phoc.PhoshPrivate.State.{
  KeyboardEvent, Message, PhoshPrivate, accelerator_activated, already_subscribed, grab_failed,
  grab_success, invalid_keysym, misc_error, ungrab_failed, ungrab_success,
}

abbrev pub u32_mod : ℕ
u32_mod = 2 ^ 32

-- ((gint64) modifiers << 32) | keysym: the keysym has 32 bits, so the two do not overlap.
abbrev pub accelerator_key : PhocKeyCombo → ℕ
accelerator_key c = c.modifiers * u32_mod + c.keysym

-- g_hash_table_lookup
abbrev pub lookup : ℕ → List (ℕ × ℕ) → Option ℕ
lookup k [] = none
lookup k ((j, v) ∷ m) = if j == k then some v else lookup k m

abbrev pub is_some : Option ℕ → Bool
is_some none = false
is_some (some v) = true

-- An action id is never 0, so a stored id is never the NULL that stands for a missing key.
unfoldable pub accelerator_is_registered : PhocKeyCombo → KeyboardEvent → Bool
accelerator_is_registered c e = is_some (lookup (accelerator_key c) e.subscribed_accelerators)

unfoldable pub any_registered : PhocKeyCombo → List KeyboardEvent → Bool
unfolding accelerator_is_registered
any_registered c [] = false
any_registered c (e ∷ es) = accelerator_is_registered c e || any_registered c es

unfoldable pub accelerator_already_subscribed : PhoshPrivate → PhocKeyCombo → Bool
unfolding any_registered
accelerator_already_subscribed self c = any_registered c self.keyboard_events

-- The bounds of libxkbcommon and wlroots that keysym_is_subscribeable compares with.
pub record Subscribeable : Type 0 where
  pub modifier_ctrl : ℕ
  pub mon_brightness_up : ℕ
  pub rotation_lock_toggle : ℕ
  pub select : ℕ
  pub num_lock : ℕ

unfoldable pub keysym_is_subscribeable : Subscribeable → PhocKeyCombo → Bool
keysym_is_subscribeable b c =
    if leb b.modifier_ctrl c.modifiers
    then true
    else if leb b.mon_brightness_up c.keysym && leb c.keysym b.rotation_lock_toggle
    then true
    else if leb b.select c.keysym && leb c.keysym b.num_lock
    then true
    else false

-- g_hash_table_insert replaces the value of a key that is there.
abbrev pub insert : ℕ → ℕ → List (ℕ × ℕ) → List (ℕ × ℕ)
insert k v [] = (k, v) ∷ []
insert k v ((j, w) ∷ m) = if j == k then (k, v) ∷ m else (j, w) ∷ insert k v m

-- Work on the keyboard event of a resource.
abbrev pub on_event : ℕ → (KeyboardEvent → KeyboardEvent) → List KeyboardEvent → List KeyboardEvent
on_event r f [] = []
on_event r f (e ∷ es) = if e.resource == r then f e ∷ es else e ∷ on_event r f es

abbrev pub find_event : ℕ → List KeyboardEvent → Option KeyboardEvent
find_event r [] = none
find_event r (e ∷ es) = if e.resource == r then some e else find_event r es

abbrev pub subscribe : ℕ → ℕ → KeyboardEvent → KeyboardEvent
subscribe key id e = record e { subscribed_accelerators = insert key id e.subscribed_accelerators }

-- The same work on an event that is only its resource's user data.
abbrev pub on_orphan : ℕ → (KeyboardEvent → KeyboardEvent) → PhoshPrivate → List KeyboardEvent
on_orphan r f self = elim (find_event r self.keyboard_events) [
  | some e ↦ self.orphaned_events
  | none ↦ on_event r f self.orphaned_events
]

-- The counter goes on, and the accelerator is subscribed to under its old value.
abbrev pub granted : PhoshPrivate → ℕ → PhocKeyCombo → PhoshPrivate
granted self r c = record self {
  last_action_id = (self.last_action_id + 1) % u32_mod;
  keyboard_events =
      on_event r (subscribe (accelerator_key c) self.last_action_id) self.keyboard_events;
  orphaned_events = on_orphan r (subscribe (accelerator_key c) self.last_action_id) self;
}

-- The part of a grab behind the parser.
unfoldable pub grab_combo :
    Subscribeable → PhoshPrivate → ℕ → List ℕ → PhocKeyCombo → PhoshPrivate × List Message
unfolding accelerator_already_subscribed keysym_is_subscribeable
grab_combo b self r accelerator c =
    if accelerator_already_subscribed self c
    then (self, grab_failed r accelerator already_subscribed ∷ [])
    else if not (keysym_is_subscribeable b c)
    then (self, grab_failed r accelerator invalid_keysym ∷ [])
    else if self.last_action_id == 0
    then (
      record self {
        last_action_id = ((self.last_action_id + 1) % u32_mod + u32_mod - 1) % u32_mod;
      },
      grab_failed r accelerator misc_error ∷ [],
    )
    else (granted self r c, grab_success r accelerator self.last_action_id ∷ [])

-- keyboard_event_from_resource
abbrev pub event_of : PhoshPrivate → ℕ → Option KeyboardEvent
event_of self r = find_event r (self.keyboard_events ++ self.orphaned_events)

-- `none` if the parser reads behind the text. A resource without its keyboard event is dropped.
unfoldable pub grab_accelerator_request :
    Keys → Subscribeable → PhoshPrivate → ℕ → List ℕ → Option (PhoshPrivate × List Message)
unfolding grab_combo
grab_accelerator_request k b self r accelerator = elim (parse_accelerator k (some accelerator)) [
  | none ↦ none
  | some overrun ↦ none
  | some reject ↦ some (elim (event_of self r) [
    | none ↦ (self, [])
    | some e ↦ (self, grab_failed r accelerator invalid_keysym ∷ [])
  ])
  | some (combo c) ↦
      some
        (elim (event_of self r) [ none ↦ (self, []) | some e ↦ grab_combo b self r accelerator c ])
]

-- The key that has an action id.
abbrev pub find_id : ℕ → List (ℕ × ℕ) → Option ℕ
find_id id [] = none
find_id id ((k, v) ∷ m) = if v == id then some k else find_id id m

-- g_hash_table_remove
abbrev pub remove : ℕ → List (ℕ × ℕ) → List (ℕ × ℕ)
remove k [] = []
remove k ((j, v) ∷ m) = if j == k then m else (j, v) ∷ remove k m

abbrev pub unsubscribe : ℕ → KeyboardEvent → KeyboardEvent
unsubscribe key e = record e { subscribed_accelerators = remove key e.subscribed_accelerators }

-- The request on the keyboard event `e` of the resource.
unfoldable pub ungrab_accelerator_request :
    PhoshPrivate → KeyboardEvent → ℕ → PhoshPrivate × List Message
ungrab_accelerator_request self e id = elim (find_id id e.subscribed_accelerators) [
  | none ↦ (self, ungrab_failed e.resource id ∷ [])
  | some key ↦ (
    record self {
      keyboard_events = on_event e.resource (unsubscribe key) self.keyboard_events;
      orphaned_events = on_orphan e.resource (unsubscribe key) self;
    },
    ungrab_success e.resource id ∷ [],
  )
]

abbrev pub forward_to : PhocKeyCombo → ℕ → KeyboardEvent → List Message
forward_to c time e = elim (lookup (accelerator_key c) e.subscribed_accelerators) [
  | none ↦ []
  | some id ↦ accelerator_activated e.resource id time ∷ []
]

unfoldable pub forward_all : PhocKeyCombo → ℕ → List KeyboardEvent → List Message
forward_all c time [] = []
forward_all c time (e ∷ es) = forward_to c time e ++ forward_all c time es

-- The messages, and whether any was sent.
unfoldable pub forward_keysym : PhoshPrivate → PhocKeyCombo → ℕ → List Message × Bool
unfolding forward_all any_registered
forward_keysym self c time =
    (forward_all c time self.keyboard_events, any_registered c self.keyboard_events)
