-- ===== src/PhoshPrivate/Tests.antt =====
-- A shell that grabs and ungrabs accelerators, for src/phosh-private.c.
use phoc.Prelude.{ℕ, ◌+◌, ◌%◌, ◌≡◌, refl, true, false, List, [], ◌∷◌, some, arith}
use phoc.Keybindings.Accel.{PhocKeyCombo, codes}
use phoc.PhoshPrivate.State.{
  KeyboardEvent, up, PhoshPrivate, grab_success, ungrab_success, accelerator_activated,
}
use phoc.PhoshPrivate.Accelerators.{
  u32_mod, accelerator_key, accelerator_already_subscribed, Subscribeable, keysym_is_subscribeable,
  subscribe, grab_combo, ungrab_accelerator_request, forward_keysym,
}
use phoc.PhoshPrivate.Lifecycle.{init}
use phoc.PhoshPrivate.Subscriptions.{
  IsValid, grab, ungrab, get_event, destroy_event, unbind, run, run-IsValid,
}
use phoc.PhoshPrivate.Grab.{grab_then_forward}
use phoc.PhoshPrivate.Ungrab.{ungrab-grab}

-- As libxkbcommon and wlroots have them.
abbrev limits : Subscribeable
limits = record {
  modifier_ctrl = 4;
  mon_brightness_up = 0x1008ff02;
  rotation_lock_toggle = 0x1008ffb7;
  select = 0xff60;
  num_lock = 0xff7f;
}

abbrev super_x : PhocKeyCombo
super_x = record { modifiers = 64; keysym = b'x' }

abbrev plain_x : PhocKeyCombo
plain_x = record { modifiers = 0; keysym = b'x' }

abbrev fresh : KeyboardEvent
fresh = record { resource = 7; subscribed_accelerators = [] }

abbrev shell : PhoshPrivate
shell = record {
  bound = some 3;
  version = 6;
  last_action_id = 1;
  keyboard_events = fresh ∷ [];
  orphaned_events = [];
  startup_trackers = [];
  state = up;
}

abbrev text : List ℕ
text = codes "<Super>x"

free : accelerator_already_subscribed shell super_x ≡ false
unfolding accelerator_already_subscribed
free = refl

free_plain : accelerator_already_subscribed shell plain_x ≡ false
unfolding accelerator_already_subscribed
free_plain = refl

allowed : keysym_is_subscribeable limits super_x ≡ true
unfolding keysym_is_subscribeable
allowed = refl

forbidden : keysym_is_subscribeable limits plain_x ≡ false
unfolding keysym_is_subscribeable
forbidden = refl

shell-IsValid : IsValid shell
shell-IsValid = record { counter = omega arith; events = ((tt, tt), (tt, tt)); orphans = (tt, tt) }

run-IsValid_example : IsValid (
    run limits init (
      get_event 7
      ∷ grab 7 text super_x
      ∷ grab 7 text super_x
      ∷ ungrab fresh 1
      ∷ unbind
      ∷ grab 7 text super_x
      ∷ destroy_event 7
      ∷ []))
run-IsValid_example = run-IsValid limits (
    get_event 7
    ∷ grab 7 text super_x
    ∷ grab 7 text super_x
    ∷ ungrab fresh 1
    ∷ unbind
    ∷ grab 7 text super_x
    ∷ destroy_event 7
    ∷ [])

grab_then_forward_example :
    (self' : PhoshPrivate) × (grab_combo limits shell 7 text super_x
      ≡ (self', grab_success 7 text 1 ∷ []))
    × (forward_keysym self' super_x 99 ≡ (accelerator_activated 7 1 99 ∷ [], true))
grab_then_forward_example =
    grab_then_forward limits shell 7 text super_x 99 fresh refl free allowed (λ e. omega arith)

ungrab-grab_example :
    ungrab_accelerator_request
      (grab_combo limits shell 7 text super_x).0
      (subscribe (accelerator_key super_x) 1 fresh)
      1
    ≡ (record shell { last_action_id = (1 + 1) % u32_mod }, ungrab_success 7 1 ∷ [])
ungrab-grab_example =
    ungrab-grab limits shell 7 text super_x fresh shell-IsValid refl free allowed (λ e. omega arith)
