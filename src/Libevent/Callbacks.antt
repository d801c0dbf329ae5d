-- ===== src/Libevent/Callbacks.antt =====
-- The callbacks of LinuxLibeventLoop in async_event_loop_linux/libevent_loop.hpp: none of them
-- meets an item that has been destroyed, whatever its task asks of the loop.
use pypilot_event_loop.Prelude.{
  ℕ, ◌≤◌, true, false, not, ◌&&◌, Option, none, some, List, [], ◌∷◌, ◌≡◌, refl, sym, subst, ◌∙◌,
  if◌then◌else◌, arith, inl, inr, Bool-cases,
}
use pypilot_event_loop.Libevent.{TimerEvent, Loop, next_delay, compact_removed_events}
use pypilot_event_loop.Libevent.Ledger.{IsAlive, owns, freed_le_made, owned-update}
use pypilot_event_loop.Libevent.Safety.{
  owned_by, IsBalanced, compact_removed_events-IsBalanced, add_periodic-IsBalanced,
  add_one_shot-IsBalanced, add_fd-IsBalanced, remove-IsBalanced, remove_fd-IsBalanced,
}
use pypilot_event_loop.Libevent.Calls.{
  Call, adds_periodic, adds_one_shot, adds_fd, removes, removes_fd, call, calls, find_timer, idle,
  update_timer, rearm, finish_timer, fire_timer, fire_fd, polled, enter_callback, timer_callback,
  fd_callback,
}
use pypilot_event_loop.Libevent.Deferred.{
  has, has_timer, has-Finds, has_timer-Finds, compact_removed_events-depth, calls-Keeps,
}

pub call-IsBalanced : (c : Call) (l : Loop) → IsBalanced l → IsBalanced (call c l)
call-IsBalanced (adds_periodic m a now_us task period_us) =
    add_periodic-IsBalanced m a now_us task period_us
call-IsBalanced (adds_one_shot m a now_us task due_us) =
    add_one_shot-IsBalanced m a now_us task due_us
call-IsBalanced (adds_fd m a fd task) = add_fd-IsBalanced m a fd task
call-IsBalanced (removes task) = remove-IsBalanced task
call-IsBalanced (removes_fd fd task) = remove_fd-IsBalanced fd task

calls-IsBalanced : (cs : List Call) (l : Loop) → IsBalanced l → IsBalanced (calls cs l)
calls-IsBalanced [] l h = h
calls-IsBalanced (c ∷ cs) l h = calls-IsBalanced cs (call c l) (call-IsBalanced c l h)

polled-IsBalanced : (cs : List Call) (l : Loop) → IsBalanced l → IsBalanced (polled cs l)
unfolding IsBalanced
polled-IsBalanced cs l h = calls-IsBalanced cs (enter_callback l) h

polled-depth : (cs : List Call) (l : Loop) → (polled cs l).callback_depth ≡ l.callback_depth
polled-depth cs l =
    let k = (calls-Keeps cs (enter_callback l) l.callback_depth refl).0 in omega arith

update_timer-IsBalanced :
    (i : ℕ) (f : TimerEvent → TimerEvent) (l : Loop)
    → ((id : ℕ) (e : TimerEvent) → owns id (f e) ≡ owns id e)
    → IsBalanced l
    → IsBalanced (update_timer i f l)
unfolding IsBalanced
update_timer-IsBalanced i f l k (s, h) = (
  s,
  λ id.
      let a = owned-update id i f (k id) l.periodic_events in
      let b = owned-update id i f (k id) l.one_shot_events in let x = h id in (omega arith, x.1),
)

-- An item that owns its event owns a live one.
owned-IsAlive : (id : ℕ) (l : Loop) → IsBalanced l → 1 ≤ owned_by id l → IsAlive id l.log
unfolding IsBalanced
owned-IsAlive id l (s, h) le = let x = h id in let y = freed_le_made l.log s id in omega arith

rearm-IsBalanced :
    (e : TimerEvent) (now_us : ℕ) (l : Loop)
    → 1 ≤ owned_by e.id l
    → IsBalanced l
    → IsBalanced (rearm e now_us l)
unfolding IsBalanced
rearm-IsBalanced e now_us l le h =
    let (delay_us, due_us) = next_delay e.detail.next_due_us e.detail.period_us now_us in
    let f : TimerEvent → TimerEvent =
      λ x. record x { detail = record x.detail { next_due_us = due_us } } in
    let (s, u) = update_timer-IsBalanced e.id f l (λ id x. refl) h in
    ((owned-IsAlive e.id l h le, s), u)

-- The loop is in order, and at the depth `n`.
abbrev pub IsGood : ℕ → Loop → Type 0
IsGood n l = IsBalanced l × (l.callback_depth ≡ n)

pub compact-IsGood : (n : ℕ) (l : Loop) → IsGood n l → IsGood n (compact_removed_events l)
compact-IsGood n l (h, d) =
    (compact_removed_events-IsBalanced l h, compact_removed_events-depth l ∙ d)

-- A callback comes to its end with a loop in order.
abbrev pub Ends : ℕ → Option Loop → Type 0
Ends n o = (l : Loop) × ((o ≡ some l) × IsGood n l)

finish_timer-Ends :
    (n now_us : ℕ) (l : Loop) (e : TimerEvent)
    → (e.ev ≡ true → 1 ≤ owned_by e.id l)
    → IsGood n l
    → Ends n (finish_timer now_us l (some e))
finish_timer-Ends n now_us l e o (h, d) =
    let marked : TimerEvent → TimerEvent = λ x. record x { removed = true; task = none } in
    let gone = update_timer-IsBalanced e.id marked l (λ id x. refl) h in
    let rest : Loop = if not e.detail.periodic then update_timer e.id marked l else l in
    let rest_good : IsGood n rest =
      elim (not e.detail.periodic)
        as (λ b. IsGood n (if b then update_timer e.id marked l else l)) [
          | true ↦ (gone, d)
          | false ↦ (h, d)
        ] in
    let test = not e.removed && (e.detail.periodic && e.ev) in
    let good : IsGood n (if test then rearm e now_us l else rest) = elim (Bool-cases test) [
      | inl p ↦
          let ev : e.ev ≡ true = ground arith in
          subst (λ b. IsGood n (if b then rearm e now_us l else rest)) (sym p)
            (rearm-IsBalanced e now_us l (o ev) h, d)
      | inr p ↦ subst (λ b. IsGood n (if b then rearm e now_us l else rest)) (sym p) rest_good
    ] in
    (_, (refl, compact-IsGood n (if test then rearm e now_us l else rest) good))

pub timer_callback-Ends :
    (n id now_us : ℕ) (cs : List Call) (l : Loop)
    → IsGood n l
    → has_timer id l ≡ true
    → Ends n (timer_callback id now_us cs l)
unfolding timer_callback
timer_callback-Ends n id now_us cs l (h, d) k =
    let (e, (found, _)) = has_timer-Finds id l k in
    let l' = polled cs l in
    let keeps = calls-Keeps cs (enter_callback l) l.callback_depth refl in
    let (e', (found', (same, owns_it))) = has_timer-Finds id l' (keeps.1 id k) in
    let done =
      finish_timer-Ends n now_us l' e'
        (λ ev. let x = owns_it ev in subst (λ i. 1 ≤ owned_by i l') (sym same) (omega arith))
        (polled-IsBalanced cs l h, polled-depth cs l ∙ d) in
    subst (λ o. Ends n (fire_timer id now_us cs l o)) (sym found)
      (elim (idle e)
        as (λ b. Ends n (if b then some l else finish_timer now_us l' (find_timer id l'))) [
          | true ↦ (l, (refl, (h, d)))
          | false ↦ subst (λ o. Ends n (finish_timer now_us l' o)) (sym found') done
        ])

pub fd_callback-Ends :
    (n id : ℕ) (cs : List Call) (l : Loop)
    → IsGood n l
    → has id l.fd_events ≡ true
    → Ends n (fd_callback id cs l)
unfolding fd_callback
fd_callback-Ends n id cs l (h, d) k =
    let (e, (found, _)) = has-Finds id l.fd_events k in
    subst (λ o. Ends n (fire_fd cs l o)) (sym found)
      (elim (idle e)
        as (λ b. Ends n (some (if b then l else compact_removed_events (polled cs l)))) [
          | true ↦ (l, (refl, (h, d)))
          | false ↦ (
            _,
            (
              refl,
              compact-IsGood n (polled cs l) (polled-IsBalanced cs l h, polled-depth cs l ∙ d),
            ),
          )
        ])
