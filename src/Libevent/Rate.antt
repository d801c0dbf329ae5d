-- ===== src/Libevent/Rate.antt =====
-- The re-arming of a periodic timer, `periodic_timer_next_delay_us` and `timeval_from_us` of
-- async_event_loop_linux/libevent_loop.hpp, over many callbacks.
use pypilot_event_loop.Prelude.{
  ℕ, suc, ◌+◌, ◌*◌, ◌≤◌, ◌<◌, ◌^◌, List, [], ◌∷◌, ◌≡◌, refl, ap, subst, arith, length,
}
use Prim.Native.Nat.{max}
use pypilot_event_loop.Libevent.{next_delay}

-- The due time after callbacks at the instants `nows`, and the instants that it arms for.
abbrev pub fires : ℕ → ℕ → List ℕ → ℕ × List ℕ
fires period_us due_us [] = (due_us, [])
fires period_us due_us (now_us ∷ nows) =
    let (delay_us, due_us') = next_delay due_us period_us now_us in
    let rest = fires period_us due_us' nows in (rest.0, (now_us + delay_us) ∷ rest.1)

-- No callback comes before its due time.
abbrev pub IsOnTime : ℕ → ℕ → List ℕ → Type 0
IsOnTime period_us due_us [] = Unit {0}
IsOnTime period_us due_us (now_us ∷ nows) =
    (due_us ≤ now_us) × IsOnTime period_us (due_us + period_us) nows

-- The instants that a timer without drift arms for: the next multiple, or at once when it is past.
abbrev pub ideal : ℕ → ℕ → List ℕ → List ℕ
ideal period_us due_us [] = []
ideal period_us due_us (now_us ∷ nows) =
    max now_us (due_us + period_us) ∷ ideal period_us (due_us + period_us) nows

next_delay-due :
    (due_us period_us now_us : ℕ)
    → due_us + period_us < 2 ^ 64
    → (next_delay due_us period_us now_us).1 ≡ due_us + period_us
unfolding next_delay
next_delay-due due_us period_us now_us fits = omega arith

next_delay-instant :
    (due_us period_us now_us : ℕ)
    → due_us ≤ now_us
    → now_us + (next_delay due_us period_us now_us).0 ≡ max now_us (due_us + period_us)
unfolding next_delay
next_delay-instant due_us period_us now_us le = ground arith

one_more :
    (due_us period_us n : ℕ) → due_us + suc n * period_us ≡ (due_us + period_us) + n * period_us
one_more due_us period_us n = ground arith

-- A periodic timer never drifts: when no callback comes early and the due times fit 64 bits, each
-- callback arms for the next multiple of the period from the start, or at once when that is past,
-- and after n callbacks the due time is n periods on.
pub fires-ideal :
    (period_us due_us : ℕ) (nows : List ℕ)
    → IsOnTime period_us due_us nows
    → due_us + length nows * period_us < 2 ^ 64
    → fires period_us due_us nows ≡ (due_us + length nows * period_us, ideal period_us due_us nows)
fires-ideal period_us due_us [] on fits = ap (λ n. (n, [])) (omega arith)
fires-ideal period_us due_us (now_us ∷ nows) (le, on) fits =
    let more = one_more due_us period_us (length nows) in
    let due = next_delay-due due_us period_us now_us (omega arith) in
    let ih =
      fires-ideal period_us (due_us + period_us) nows on (subst (λ n. n < 2 ^ 64) more fits) in
    rw (due, ih, next_delay-instant due_us period_us now_us le, more) refl
