-- ===== src/EventLoop/OneShot.antt =====
-- A callable at work in an EventLoop's slot, whatever it asks of the loop: it outlives its call, and
-- a one-shot callable gives up its slot.
use pypilot_event_loop.Prelude.{
  ℕ, ◌<◌, ◌≡◌, ap, ◌∙◌, subst, inl, inr, true, false, some, List, arith, Option-cases, length,
  get_or-set_self,
}
use pypilot_event_loop.Task
use pypilot_event_loop.Task.Lifecycle
use pypilot_event_loop.EventLoop.{blank, slot_at, EventLoop, Callable, Scheduler, put_task}
use pypilot_event_loop.EventLoop.Slots.{AllSlots, IsValid}
use pypilot_event_loop.EventLoop.Running.{Call, begin_poll, calls_in_order, begin_poll-IsValid}
use pypilot_event_loop.EventLoop.Occupied.{RunsIn, begin_poll-RunsIn}
use pypilot_event_loop.EventLoop.Occupied.Calls.{At, After, calls-After}

module _ {S C : Type 0} (scheduler : Scheduler S) where
  -- A poll that starts.
  begin_poll-At :
      (i : ℕ) (l l' : EventLoop S C) (c : Callable C)
      → IsValid l
      → i < length l.slots
      → begin_poll i l ≡ some (c, l')
      → At c (slot_at l.slots i).task.destroyed (slot_at l.slots i).generation i false l'
  unfolding begin_poll AllSlots
  begin_poll-At i l l' c v lt e =
      let s = slot_at l.slots i in
      let k = v.slots i in
      elim (Option-cases (Task.begin_poll s.task)) [
        | inl idle ↦ absurd (ground (arith, idle, e))
        | inr ((d, t), started) ↦
            let here : RunsIn c s.task.destroyed s.generation false (record s { task = t }) =
              begin_poll-RunsIn s c t (started ∙ ap (λ x. some (x, t)) (ground (arith, started, e)))
                k in
            let same : put_task l i t ≡ l' = ground (arith, started, e) in
            subst (λ x. At c s.task.destroyed s.generation i false x) same
              (rw (get_or-set_self l.slots i (record s { task = t }) blank lt) here)
      ]

  -- While a callable of a valid loop runs, any calls that it makes of the loop leave it in its slot,
  -- still running and not destroyed, and keep the loop valid: also when it removes itself.
  pub calls-running :
      (i : ℕ) (l l' : EventLoop S C) (c : Callable C) (qs : List (Call C))
      → IsValid l
      → i < length l.slots
      → begin_poll i l ≡ some (c, l')
      → let m = calls_in_order scheduler qs l' in
        IsValid m
        × ((slot_at m.slots i).task.callable ≡ some c)
        × ((slot_at m.slots i).task.invoking ≡ true)
        × ((slot_at m.slots i).task.destroyed ≡ (slot_at l.slots i).task.destroyed)
  unfolding After
  calls-running i l l' c qs v lt e =
      let r = begin_poll-At i l l' c v lt e in
      let v' = begin_poll-IsValid i l l' c e v in
      let (v'', (gone, keeps, r')) = calls-After c _ _ i scheduler false qs l' v' r in
      (v'', r'.runs.holds, r'.runs.running, r'.runs.kept)
