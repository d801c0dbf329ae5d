-- ===== src/Libevent/Reachable.antt =====
-- The runs of LinuxLibeventLoop of async_event_loop_linux/libevent_loop.hpp: calls from outside, and
-- the callbacks of events that libevent still holds.
use pypilot_event_loop.Prelude.{
  ℕ, ◌≤◌, Bool, true, Option, some, List, ◌≡◌, refl, ◌∙◌, ◌⊎◌, Bool-cases, sym, subst, ap, false,
  none, inl, inr, arith, if◌then◌else◌,
}
use pypilot_event_loop.Libevent.{Loop, new, compact_removed_events, destroy, free_events}
use pypilot_event_loop.Libevent.Ledger.{
  made, freed, IsAlive, IsSound, owned, freed_le_made, free_events-Balances,
}
use pypilot_event_loop.Libevent.Safety.{IsBalanced, new-IsBalanced}
use pypilot_event_loop.Libevent.Calls.{Call, call, timer_callback, fd_callback, run_once}
use pypilot_event_loop.Libevent.Deferred.{
  has, has_timer, owned-has_timer, has_not-owned, call_depth,
}
use pypilot_event_loop.Libevent.Callbacks.{
  IsGood, compact-IsGood, Ends, call-IsBalanced, timer_callback-Ends, fd_callback-Ends,
}

pub data Reaches : Loop → Type 0 where
  starts : (valid : Bool) → Reaches (new valid)
  calls : (c : Call) (l : Loop) → Reaches l → Reaches (call c l)
  fires_timer :
      (id now_us : ℕ) (cs : List Call) (l l' : Loop)
      → Reaches l
      → has_timer id l ≡ true
      → timer_callback id now_us cs l ≡ some l'
      → Reaches l'
  fires_fd :
      (id : ℕ) (cs : List Call) (l l' : Loop)
      → Reaches l
      → has id l.fd_events ≡ true
      → fd_callback id cs l ≡ some l'
      → Reaches l'
  runs : (l : Loop) → Reaches l → Reaches (run_once l l)

from_some : Loop → Option Loop → Loop
from_some d none = d
from_some d (some l) = l

Ends-IsGood : (o : Option Loop) (l' : Loop) → Ends 0 o → o ≡ some l' → IsGood 0 l'
unfolding from_some
Ends-IsGood o l' (l, (p, h)) q = subst (IsGood 0) (ap (from_some l) (sym p ∙ q)) h

Reaches-IsGood : (l : Loop) → Reaches l → IsGood 0 l
unfolding run_once
Reaches-IsGood _ (starts valid) = (new-IsBalanced valid, refl)
Reaches-IsGood _ (calls c l r) =
    let (h, d) = Reaches-IsGood l r in (call-IsBalanced c l h, call_depth c l ∙ d)
Reaches-IsGood _ (fires_timer id now_us cs l l' r k p) =
    Ends-IsGood _ l' (timer_callback-Ends 0 id now_us cs l (Reaches-IsGood l r) k) p
Reaches-IsGood _ (fires_fd id cs l l' r k p) =
    Ends-IsGood _ l' (fd_callback-Ends 0 id cs l (Reaches-IsGood l r) k) p
Reaches-IsGood _ (runs l r) =
    elim l.valid as (λ b. IsGood 0 (if b then compact_removed_events l else l)) [
      | true ↦ compact-IsGood 0 l (Reaches-IsGood l r)
      | false ↦ Reaches-IsGood l r
    ]

-- In every run, the callback of an event that libevent still holds finds its item, before and
-- after the task is polled, whatever the task adds or removes, itself included: it is never passed
-- an item that has been destroyed.
pub callback-Ends :
    (l : Loop)
    → Reaches l
    → (id : ℕ) → IsAlive id l.log
    → (now_us : ℕ) (cs : List Call)
    → Ends 0 (timer_callback id now_us cs l) ⊎ Ends 0 (fd_callback id cs l)
unfolding IsBalanced
callback-Ends l r id alive now_us cs =
    let (h, d) = Reaches-IsGood l r in
    let x = (h.1 id).0 in
    elim (Bool-cases (has id l.fd_events)) [
      | inl p ↦ inr (fd_callback-Ends 0 id cs l (h, d) p)
      | inr p ↦
          let none_owned : owned id l.fd_events ≡ 0 = has_not-owned id l.fd_events p in
          inl (timer_callback-Ends 0 id now_us cs l (h, d) (owned-has_timer id l (omega arith)))
    ]

-- In every run and for every event, the events armed, watched and freed were made and not yet
-- freed, and once the loop is destroyed the event has been freed exactly as often as it was made, at
-- most once: no double free, no use after free, no leak.
pub destroy-freed :
    (l : Loop)
    → Reaches l
    → IsSound (destroy l).log
      × ((id : ℕ)
          → (freed id (destroy l).log ≡ made id (destroy l).log) × (made id (destroy l).log ≤ 1))
unfolding destroy IsBalanced
destroy-freed l r =
    let (s, h) = (Reaches-IsGood l r).0 in
    let b1 =
      free_events-Balances l.periodic_events l.log s (λ id. let x = (h id).0 in omega arith) in
    let log1 = free_events l.periodic_events l.log in
    let b2 =
      free_events-Balances l.one_shot_events log1 b1.0
        (λ id. let x = (h id).0 in let y = b1.1 id in omega arith) in
    let log2 = free_events l.one_shot_events log1 in
    let b3 =
      free_events-Balances l.fd_events log2 b2.0
        (λ id. let x = (h id).0 in let y = b1.1 id in let z = b2.1 id in omega arith) in
    (
      b3.0,
      λ id.
          let x = (h id).0 in
          let y = b1.1 id in
          let z = b2.1 id in let w = b3.1 id in (omega arith, (freed_le_made _ b3.0 id).1),
    )
