-- ===== src/PhoshPrivate/Subscriptions.antt =====
-- The subscriptions of src/phosh-private.c over the requests of a session.
use phoc.Prelude.{
  ℕ, ◌+◌, ◌%◌, ◌<◌, ◌≢◌, inl, inr, List, [], ◌∷◌, ◌++◌, ◌==◌, arith, Bool-cases, Option-cases,
  Option-elim, ==_iff,
}
use phoc.Keybindings.Accel.{PhocKeyCombo}
use phoc.PhoshPrivate.Grab.{grab_granted, grab_refused}
use phoc.PhoshPrivate.State.{
  KeyboardEvent, PhoshPrivate, already_subscribed, invalid_keysym, misc_error,
}
use phoc.PhoshPrivate.Accelerators.{
  u32_mod, accelerator_key, accelerator_already_subscribed, Subscribeable, keysym_is_subscribeable,
  on_event, on_orphan, find_event, subscribe, grab_combo, granted, find_id, unsubscribe,
  ungrab_accelerator_request,
}
use phoc.PhoshPrivate.Lifecycle.{
  drop_event, get_keyboard_event, keyboard_event_destroy, init, handle_resource_destroy,
}
use phoc.PhoshPrivate.Tables.{
  AllEntries-remove, AllEvents-on_event, AllEntries-insert, AllEvents, AllEvents-append,
  AllEvents-drop, AllEvents-mono, DistinctEvents, DistinctEvents-append, DistinctEvents-drop,
  DistinctEvents-on_event, DistinctIds-insert, DistinctIds-remove, Given,
}

-- The tables of some events: every id is one that the counter `n` has passed, and none is twice in one.
abbrev pub AreValid : ℕ → List KeyboardEvent → Type 0
AreValid n es = AllEvents (Given n) es × DistinctEvents es

pub record IsValid (self : PhoshPrivate) : Type 0 where
  pub counter : self.last_action_id < u32_mod
  pub events : AreValid self.last_action_id self.keyboard_events
  pub orphans : AreValid self.last_action_id self.orphaned_events

Given-next : (n k v : ℕ) → n < u32_mod → n ≢ 0 → Given n k v → Given ((n + 1) % u32_mod) k v
Given-next n k v b nz g = ground arith

unused :
    (n : ℕ) (es : List KeyboardEvent) → n ≢ 0 → AllEvents (Given n) es → AllEvents (λ k w. w ≢ n) es
unused n es nz g = AllEvents-mono (λ k w h. unequal n k w nz h) es g
  where
    unequal : (n k w : ℕ) → n ≢ 0 → Given n k w → w ≢ n
    unequal n k w z g = omega arith

-- An id that is yet to be given is in no table.
pub next-unused :
    (self : PhoshPrivate)
    → IsValid self
    → self.last_action_id ≢ 0
    → AllEvents (λ k w. w ≢ self.last_action_id) self.keyboard_events
next-unused self v nz = unused self.last_action_id self.keyboard_events nz v.events.0

subscribe-AreValid :
    (n r key : ℕ) (es : List KeyboardEvent)
    → n < u32_mod
    → n ≢ 0
    → AreValid n es
    → AreValid ((n + 1) % u32_mod) (on_event r (subscribe key n) es)
subscribe-AreValid n r key es b nz (g, d) = (
  AllEvents-on_event (Given ((n + 1) % u32_mod)) r (subscribe key n) es
      (λ e h.
        AllEntries-insert (Given ((n + 1) % u32_mod)) key n e.subscribed_accelerators
          (new_given n b nz) h)
      (AllEvents-mono (λ k w q. Given-next n k w b nz q) es g),
  DistinctEvents-on_event (λ k w. w ≢ n) r (subscribe key n) es
      (λ e h q. DistinctIds-insert key n e.subscribed_accelerators h q) (unused n es nz g) d,
)
  where
    new_given : (m : ℕ) → m < u32_mod → m ≢ 0 → Given ((m + 1) % u32_mod) key m
    new_given m c z = ground arith

later-AreValid :
    (n : ℕ) (es : List KeyboardEvent)
    → n < u32_mod
    → n ≢ 0
    → AreValid n es
    → AreValid ((n + 1) % u32_mod) es
later-AreValid n es b nz (g, d) = (AllEvents-mono (λ k w q. Given-next n k w b nz q) es g, d)

unsubscribe-AreValid :
    (n r key : ℕ) (es : List KeyboardEvent)
    → AreValid n es
    → AreValid n (on_event r (unsubscribe key) es)
unsubscribe-AreValid n r key es (g, d) = (
  AllEvents-on_event (Given n) r (unsubscribe key) es
      (λ x h. AllEntries-remove (Given n) key x.subscribed_accelerators h) g,
  DistinctEvents-on_event (Given n) r (unsubscribe key) es
      (λ x h q. DistinctIds-remove key x.subscribed_accelerators q) g d,
)

drop_event-AreValid :
    (n r : ℕ) (es : List KeyboardEvent) → AreValid n es → AreValid n (drop_event r es)
drop_event-AreValid n r es (g, d) = (AllEvents-drop (Given n) r es g, DistinctEvents-drop r es d)

append-AreValid :
    (n : ℕ) (es fs : List KeyboardEvent) → AreValid n es → AreValid n fs → AreValid n (es ++ fs)
append-AreValid n [] fs v w = w
append-AreValid n (e ∷ es) fs ((g, gs), (d, ds)) w =
    let (a, b) = append-AreValid n es fs (gs, ds) w in ((g, a), (d, b))

on_orphan-AreValid :
    (m r : ℕ) (f : KeyboardEvent → KeyboardEvent) (self : PhoshPrivate)
    → AreValid m self.orphaned_events
    → AreValid m (on_event r f self.orphaned_events)
    → AreValid m (on_orphan r f self)
on_orphan-AreValid m r f self v w =
    Option-elim (AreValid m) (find_event r self.keyboard_events) (on_event r f self.orphaned_events)
      (λ e. self.orphaned_events) (λ _. w) (λ _ _. v)

granted-IsValid :
    (self : PhoshPrivate) (r : ℕ) (c : PhocKeyCombo)
    → IsValid self
    → self.last_action_id ≢ 0
    → IsValid (granted self r c)
granted-IsValid self r c v nz =
    let n = self.last_action_id in
    record {
      counter = omega arith;
      events =
          subscribe-AreValid n r (accelerator_key c) self.keyboard_events v.counter nz v.events;
      orphans =
          on_orphan-AreValid ((n + 1) % u32_mod) r (subscribe (accelerator_key c) n) self
            (later-AreValid n self.orphaned_events v.counter nz v.orphans)
            (subscribe-AreValid n r (accelerator_key c) self.orphaned_events v.counter nz
              v.orphans);
    }

grab_combo-IsValid :
    (b : Subscribeable) (self : PhoshPrivate) (r : ℕ) (a : List ℕ) (c : PhocKeyCombo)
    → IsValid self
    → IsValid (grab_combo b self r a c).0
grab_combo-IsValid b self r a c v = elim (Bool-cases (accelerator_already_subscribed self c)) [
  | inl h ↦ rw (grab_refused b self r a c already_subscribed h) v
  | inr free ↦ elim (Bool-cases (keysym_is_subscribeable b c)) [
    | inr h ↦ rw (grab_refused b self r a c invalid_keysym (free, h)) v
    | inl ok ↦ elim (Bool-cases (self.last_action_id == 0)) [
      | inl h ↦ rw (grab_refused b self r a c misc_error (free, ok, ground arith)) v
      | inr h ↦
          rw (grab_granted b self r a c free ok (λ z. cc ((==_iff self.last_action_id 0).1 z)))
            (granted-IsValid self r c v (λ z. cc ((==_iff self.last_action_id 0).1 z)))
    ]
  ]
]

ungrab-IsValid :
    (self : PhoshPrivate) (e : KeyboardEvent) (id : ℕ)
    → IsValid self
    → IsValid (ungrab_accelerator_request self e id).0
unfolding ungrab_accelerator_request
ungrab-IsValid self e id v = elim (Option-cases (find_id id e.subscribed_accelerators)) [
  | inl none_found ↦ rw (none_found, ungrab_accelerator_request) v
  | inr (key, found) ↦
      rw (found, ungrab_accelerator_request)
        (record {
          counter = v.counter;
          events =
              unsubscribe-AreValid self.last_action_id e.resource key self.keyboard_events v.events;
          orphans =
              on_orphan-AreValid self.last_action_id e.resource (unsubscribe key) self v.orphans (
                unsubscribe-AreValid self.last_action_id e.resource key self.orphaned_events
                  v.orphans);
        })
]

-- What the shell's client can ask for, and the end of its resources.
pub data Request : Type 0 where
  grab : ℕ → List ℕ → PhocKeyCombo → Request
  ungrab : KeyboardEvent → ℕ → Request
  get_event : ℕ → Request
  destroy_event : ℕ → Request
  unbind : Request

pub step : Subscribeable → PhoshPrivate → Request → PhoshPrivate
step b self (grab r a c) = (grab_combo b self r a c).0
step b self (ungrab e id) = (ungrab_accelerator_request self e id).0
step b self (get_event r) = get_keyboard_event self r
step b self (destroy_event r) = keyboard_event_destroy self r
step b self unbind = handle_resource_destroy self

step-IsValid :
    (b : Subscribeable) (self : PhoshPrivate) (q : Request) → IsValid self → IsValid (step b self q)
unfolding step get_keyboard_event keyboard_event_destroy handle_resource_destroy
step-IsValid b self (grab r a c) v = grab_combo-IsValid b self r a c v
step-IsValid b self (ungrab e id) v = ungrab-IsValid self e id v
step-IsValid b self (get_event r) v = record {
  counter = v.counter;
  events = (
    AllEvents-append (Given self.last_action_id) self.keyboard_events r v.events.0,
    DistinctEvents-append self.keyboard_events r v.events.1,
  );
  orphans = v.orphans;
}
step-IsValid b self (destroy_event r) v = record {
  counter = v.counter;
  events = drop_event-AreValid self.last_action_id r self.keyboard_events v.events;
  orphans = drop_event-AreValid self.last_action_id r self.orphaned_events v.orphans;
}
step-IsValid b self unbind v = record {
  counter = v.counter;
  events = (tt, tt);
  orphans =
      append-AreValid self.last_action_id self.keyboard_events self.orphaned_events v.events
        v.orphans;
}

unfoldable pub run : Subscribeable → PhoshPrivate → List Request → PhoshPrivate
run b self [] = self
run b self (q ∷ qs) = run b (step b self q) qs

run_from-IsValid :
    (b : Subscribeable) (self : PhoshPrivate) (qs : List Request)
    → IsValid self
    → IsValid (run b self qs)
unfolding run
run_from-IsValid b self [] v = v
run_from-IsValid b self (q ∷ qs) v = run_from-IsValid b (step b self q) qs (step-IsValid b self q v)

-- After any requests from the start, also those to keyboard events that have outlived the shell's resource,
-- every stored action id is one that the counter has passed (so never 0, the NULL of a lookup), and no id
-- stands twice in one client's table.
pub run-IsValid : (b : Subscribeable) (qs : List Request) → IsValid (run b init qs)
unfolding init
run-IsValid b qs =
    run_from-IsValid b init qs
      (record { counter = omega arith; events = (tt, tt); orphans = (tt, tt) })
