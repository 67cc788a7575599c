-- ===== src/PhoshPrivate/Ungrab.antt =====
-- An ungrab of src/phosh-private.c right after a grab.
use phoc.Prelude.{
  ℕ, ◌+◌, ◌%◌, ◌≡◌, refl, ap, ◌∙◌, ◌≢◌, inl, inr, true, false, List, [], ◌∷◌, none, some, ◌==◌,
  arith, Bool-cases,
}
use phoc.Keybindings.Accel.{PhocKeyCombo}
use mathlib.Core.Path.{subst, sym}
use phoc.PhoshPrivate.Grab.{grab_granted}
use phoc.PhoshPrivate.State.{KeyboardEvent, PhoshPrivate, Message, ungrab_success}
use phoc.PhoshPrivate.Accelerators.{
  u32_mod, accelerator_key, lookup, accelerator_is_registered, any_registered,
  accelerator_already_subscribed, Subscribeable, keysym_is_subscribeable, on_event, on_orphan,
  find_event, granted, subscribe, grab_combo, unsubscribe, ungrab_accelerator_request,
}
use phoc.PhoshPrivate.Tables.{AllEntries, AllEvents, find_id-insert, remove-insert}
use phoc.PhoshPrivate.Subscriptions.{IsValid, next-unused}

find_event-All :
    (P : ℕ → ℕ → Type 0) (r : ℕ) (es : List KeyboardEvent) (e : KeyboardEvent)
    → AllEvents P es
    → find_event r es ≡ some e
    → AllEntries P e.subscribed_accelerators
find_event-All P r [] e h f = cc
find_event-All P r (x ∷ es) e h f = elim (Bool-cases (x.resource == r)) [
  | inl q ↦
      subst (λ (y : KeyboardEvent). AllEntries P y.subscribed_accelerators) {x = x} {y = e}
        (ground arith) h.0
  | inr q ↦ find_event-All P r es e h.1 (ground arith)
]

module _ (r : ℕ) (c : PhocKeyCombo) where
  find_event-resource :
      (es : List KeyboardEvent) (e : KeyboardEvent) → find_event r es ≡ some e → e.resource ≡ r
  find_event-resource [] e f = cc
  find_event-resource (x ∷ es) e f = ground (arith, find_event-resource es e)

  find_event-free :
      (es : List KeyboardEvent) (e : KeyboardEvent)
      → any_registered c es ≡ false
      → find_event r es ≡ some e
      → lookup (accelerator_key c) e.subscribed_accelerators ≡ none
  unfolding any_registered accelerator_is_registered
  find_event-free [] e h f = cc
  find_event-free (x ∷ es) e h f = ground (arith, find_event-free es e)

  find_event-on_event :
      (id : ℕ) (es : List KeyboardEvent) (e : KeyboardEvent)
      → find_event r es ≡ some e
      → find_event r (on_event r (subscribe (accelerator_key c) id) es)
        ≡ some (subscribe (accelerator_key c) id e)
  find_event-on_event id [] e h = cc
  find_event-on_event id (x ∷ es) e h = ground (arith, find_event-on_event id es e)

  on_event_twice :
      (id : ℕ) (es : List KeyboardEvent)
      → any_registered c es ≡ false
      → on_event r
          (unsubscribe (accelerator_key c))
          (on_event r (subscribe (accelerator_key c) id) es)
        ≡ es
  unfolding any_registered accelerator_is_registered
  on_event_twice id [] h = refl
  on_event_twice id (x ∷ es) h =
      ground (
        arith,
        on_event_twice id es,
        remove-insert (accelerator_key c) id x.subscribed_accelerators,
      )

  -- The orphaned events are as they were.
  on_orphan-granted :
      (self : PhoshPrivate) (e : KeyboardEvent)
      → find_event r self.keyboard_events ≡ some e
      → on_orphan
          (subscribe (accelerator_key c) self.last_action_id e).resource
          (unsubscribe (accelerator_key c))
          (granted self r c)
        ≡ self.orphaned_events
  on_orphan-granted self e found =
      subst
        (λ x.
          on_orphan x (unsubscribe (accelerator_key c)) (granted self r c) ≡ self.orphaned_events)
        (sym (find_event-resource self.keyboard_events e found))
        (rw (on_orphan, find_event-on_event self.last_action_id self.keyboard_events e found)
          (rw (on_orphan, found) refl))

-- In a valid state, right after a grab that succeeded, an ungrab of the id that was given succeeds and brings back
-- every client's subscriptions as they were; only the counter of the ids has moved on.
pub ungrab-grab :
    (b : Subscribeable) (self : PhoshPrivate) (r : ℕ) (a : List ℕ) (c : PhocKeyCombo)
    (e : KeyboardEvent)
    → IsValid self
    → find_event r self.keyboard_events ≡ some e
    → accelerator_already_subscribed self c ≡ false
    → keysym_is_subscribeable b c ≡ true
    → self.last_action_id ≢ 0
    → ungrab_accelerator_request
        (grab_combo b self r a c).0
        (subscribe (accelerator_key c) self.last_action_id e)
        self.last_action_id
      ≡ (
        record self { last_action_id = (self.last_action_id + 1) % u32_mod },
        ungrab_success r self.last_action_id ∷ [],
      )
unfolding ungrab_accelerator_request accelerator_already_subscribed
ungrab-grab b self r a c e v found free ok nz =
    ap
      (λ (p : PhoshPrivate × List Message).
        ungrab_accelerator_request p.0 (subscribe (accelerator_key c) self.last_action_id e)
          self.last_action_id)
      (grab_granted b self r a c free ok nz)
    ∙ rw (
      ungrab_accelerator_request,
      find_id-insert (accelerator_key c) self.last_action_id e.subscribed_accelerators
          (find_event-All _ r self.keyboard_events e (next-unused self v nz) found)
          (find_event-free r c self.keyboard_events e free found),
      on_orphan-granted r c self e found,
      find_event-resource r c self.keyboard_events e found,
      on_event_twice r c self.last_action_id self.keyboard_events free,
    )
