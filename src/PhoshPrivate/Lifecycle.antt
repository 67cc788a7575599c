-- ===== src/PhoshPrivate/Lifecycle.antt =====
-- src/phosh-private.c: the resources that come and go, the startup trackers and the shell's state.
use phoc.Prelude.{ℕ, Bool, true, false, List, [], ◌∷◌, ◌++◌, none, some, ltb, ◌==◌, if◌then◌else◌}
use phoc.PhoshPrivate.State.{
  KeyboardEvent, Message, PhoshPrivate, ShellState, launched, startup_id, unknown, up,
}

unfoldable pub get_keyboard_event : PhoshPrivate → ℕ → PhoshPrivate
get_keyboard_event self r = record self {
  keyboard_events =
      self.keyboard_events ++ record { resource = r; subscribed_accelerators = [] } ∷ [];
}

abbrev pub drop_event : ℕ → List KeyboardEvent → List KeyboardEvent
drop_event r [] = []
drop_event r (e ∷ es) = if e.resource == r then es else e ∷ drop_event r es

-- Empty the table and take the event off the list.
unfoldable pub keyboard_event_destroy : PhoshPrivate → ℕ → PhoshPrivate
keyboard_event_destroy self r = record self {
  keyboard_events = drop_event r self.keyboard_events;
  orphaned_events = drop_event r self.orphaned_events;
}

abbrev pub to_trackers : (ℕ → Message) → List ℕ → List Message
to_trackers f [] = []
to_trackers f (r ∷ rs) = f r ∷ to_trackers f rs

abbrev pub notify : (ℕ → Message) → PhoshPrivate → List Message
notify f self = elim self.bound [
  | none ↦ []
  | some r ↦ if ltb self.version 6 then [] else to_trackers f self.startup_trackers
]

-- The text of the startup id and the protocol are passed on.
unfoldable pub notify_startup_id : PhoshPrivate → List ℕ → ℕ → List Message
notify_startup_id self id proto = notify (λ r. startup_id r id proto) self

unfoldable pub notify_launch : PhoshPrivate → List ℕ → ℕ → List Message
notify_launch self id proto = notify (λ r. launched r id proto) self

unfoldable pub get_startup_tracker : PhoshPrivate → ℕ → PhoshPrivate
get_startup_tracker self r = record self { startup_trackers = self.startup_trackers ++ r ∷ [] }

abbrev pub remove_tracker : ℕ → List ℕ → List ℕ
remove_tracker r [] = []
remove_tracker r (x ∷ xs) = if x == r then xs else x ∷ remove_tracker r xs

unfoldable pub startup_tracker_destroy : PhoshPrivate → ℕ → PhoshPrivate
startup_tracker_destroy self r = record self {
  startup_trackers = remove_tracker r self.startup_trackers;
}

abbrev pub same_state : ShellState → ShellState → Bool
same_state unknown unknown = true
same_state up up = true
same_state _ _ = false

-- The new state, and whether the property's change is notified.
unfoldable pub set_shell_state : PhoshPrivate → ShellState → PhoshPrivate × Bool
set_shell_state self st =
    if same_state self.state st then (self, false) else (record self { state = st }, true)

-- The resource is gone: the list of keyboard events is freed, but not the events, and the state is unknown.
unfoldable pub handle_resource_destroy : PhoshPrivate → PhoshPrivate
handle_resource_destroy self = record self {
  bound = none;
  keyboard_events = [];
  orphaned_events = self.keyboard_events ++ self.orphaned_events;
  state = unknown;
}

-- A second client is refused (`false`).
unfoldable pub bind : PhoshPrivate → ℕ → ℕ → PhoshPrivate × Bool
bind self resource version = elim self.bound [
  | some r ↦ (self, false)
  | none ↦ (record self { bound = some resource; version = version }, true)
]

unfoldable pub init : PhoshPrivate
init = record {
  bound = none;
  version = 0;
  last_action_id = 1;
  keyboard_events = [];
  orphaned_events = [];
  startup_trackers = [];
  state = unknown;
}
