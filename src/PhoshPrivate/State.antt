-- ===== src/PhoshPrivate/State.antt =====
-- The state that src/phosh-private.c keeps, and what it sends.
use phoc.Prelude.{ℕ, List, Option}

-- PhocPhoshPrivateKeyboardEventData
pub record KeyboardEvent : Type 0 where
  pub resource : ℕ
  pub subscribed_accelerators : List (ℕ × ℕ)  -- key and action id

pub data ShellState : Type 0 where
  unknown up : ShellState

pub record PhoshPrivate : Type 0 where
  pub bound : Option ℕ  -- resource
  pub version : ℕ
  pub last_action_id : ℕ  -- guint
  pub keyboard_events : List KeyboardEvent
  pub orphaned_events : List KeyboardEvent  -- taken off the list, and still their resources' user data
  pub startup_trackers : List ℕ  -- their resources
  pub state : ShellState

pub data GrabError : Type 0 where
  invalid_keysym already_subscribed misc_error : GrabError

-- What is sent to the shell's resources.
pub data Message : Type 0 where
  grab_failed : ℕ → List ℕ → GrabError → Message
  grab_success : ℕ → List ℕ → ℕ → Message
  ungrab_success : ℕ → ℕ → Message
  ungrab_failed : ℕ → ℕ → Message
  accelerator_activated : ℕ → ℕ → ℕ → Message
  startup_id launched : ℕ → List ℕ → ℕ → Message
