-- ===== src/Pins/Interrupt/Bursts.antt =====
-- What read_event of arduino_interrupt_pin_event_source.hpp says of the interrupts since the one
-- before it.
use pypilot_event_loop.Prelude.{
  ℕ, ◌+◌, ◌-◌, ◌%◌, ◌^◌, ◌≤◌, ◌<◌, min, ◌≡◌, refl, inl, inr, ap, ◌∙◌, true, false, Option, none,
  some, List, [], ◌∷◌, length, take, take-none, take-cons_pos, take-nil, ltb, ltb→lt, ltb→ge, sym,
  ap₂, add16, add32, Bool-cases, ◌==◌, arith,
}
use pypilot_event_loop.Pins.{PinEvent}
use pypilot_event_loop.Pins.Interrupt.{
  InterruptPinEventSource, InterruptEventInfo, Notification, Pending, notify_from_isr, notify_all,
  take_pending, fill_event, finish_read, read_event_during, read_event,
}

-- The last of the notifications, after those that gave `n`.
abbrev pub last_from : Notification → List Notification → Notification
last_from n [] = n
last_from n (m ∷ ms) = last_from m ms

-- The source has nothing to report.
pub record IsDrained (s : InterruptPinEventSource) : Type 0 where
  pub no_pending : s.pending_count ≡ 0
  pub no_dropped : s.dropped_count ≡ 0

-- `p` interrupts counted, `d` not, the last one counted being `n`; the rest is as in `s`.
abbrev pub holding : InterruptPinEventSource → ℕ → ℕ → Notification → InterruptPinEventSource
holding s p d n = record s {
  pending_count = p;
  dropped_count = d;
  last_timestamp_us = n.now;
  last_level = n.level;
  has_level = true;
}

holding_congr :
    (s : InterruptPinEventSource) {p p' d d' : ℕ} {n n' : Notification}
    → p ≡ p'
    → d ≡ d'
    → n ≡ n'
    → holding s p d n ≡ holding s p' d' n'
holding_congr s {p} {p'} {d} {d'} {n} {n'} hp hd hn =
    ap₂ (λ k m. holding s k d m) hp hn ∙ ap (λ k. holding s p' k n') hd

notify-full :
    (s : InterruptPinEventSource) (d : ℕ) (n m : Notification)
    → notify_from_isr (holding s 65535 d n) m ≡ holding s 65535 (add16 d 1) n
unfolding notify_from_isr
notify-full s d n m = refl

notify-room :
    (s : InterruptPinEventSource) (p d : ℕ) (n m : Notification)
    → p < 65535
    → notify_from_isr (holding s p d n) m ≡ holding s (p + 1) d m
unfolding notify_from_isr
notify-room s p d n m h = ground arith

notify_all-full :
    (s : InterruptPinEventSource) (d : ℕ) (n : Notification) (ms : List Notification)
    → d < 2 ^ 16
    → notify_all (holding s 65535 d n) ms ≡ holding s 65535 ((d + length ms) % 2 ^ 16) n
notify_all-full s d n [] h = ap (λ k. holding s 65535 k n) (omega arith)
notify_all-full s d n (m ∷ ms) h =
    ap (λ t. notify_all t ms) (notify-full s d n m)
    ∙ (notify_all-full s (add16 d 1) n ms (omega arith)
        ∙ ap (λ k. holding s 65535 k n) (omega arith))

notify_all-holding :
    (s : InterruptPinEventSource) (p : ℕ) (n : Notification) (ms : List Notification)
    → p ≤ 65535
    → notify_all (holding s p 0 n) ms
      ≡ holding s
          (min (p + length ms) 65535)
          ((p + length ms - 65535) % 2 ^ 16)
          (last_from n (take (65535 - p) ms))
notify_all-holding s p n [] h =
    ap₂ (λ k d. holding s k d n) (omega arith) (omega arith)
    ∙ ap (λ ms. holding s (min (p + 0) 65535) ((p + 0 - 65535) % 2 ^ 16) (last_from n ms))
        (sym (take-nil (65535 - p)))
notify_all-holding s p n (m ∷ ms) h = elim (Bool-cases (ltb p 65535)) [
  | inl room ↦
      let p_lt = ltb→lt p 65535 room in
      ap (λ t. notify_all t ms) (notify-room s p 0 n m p_lt)
      ∙ (notify_all-holding s (p + 1) m ms (omega arith)
          ∙ holding_congr s (omega arith) (omega arith) (
              ap (λ k. last_from m (take k ms)) (omega arith)
              ∙ sym (ap (last_from n) (take-cons_pos (65535 - p) m ms (omega arith)))))
  | inr full ↦
      let p_full : p ≡ 65535 = omega (arith, ltb→ge p 65535 full) in
      ap (λ k. notify_all (holding s k 0 n) (m ∷ ms)) p_full
      ∙ (notify_all-full s 0 n (m ∷ ms) (omega arith)
          ∙ holding_congr s (omega arith) (omega arith)
              (ap (last_from n) (sym (take-none (65535 - p) (m ∷ ms) (omega arith)))))
]

-- What a `read_event` after the interrupts `n ∷ ns` reports: the number of them up to 65535, those
-- above modulo 2^16, and the time and level of the last one counted.
abbrev pub reported : InterruptPinEventSource → Notification → List Notification → PinEvent
reported s n ns =
    let last = last_from n (take 65534 ns) in
    record {
      type = s.event_type;
      timestamp_us = last.now;
      source_id = s.source_id;
      sequence = add32 s.sequence 1;
      level = last.level;
    }

abbrev pub reported_info :
    InterruptPinEventSource → Notification → List Notification → InterruptEventInfo
reported_info s n ns = record {
  source_id = s.source_id;
  count = min (1 + length ns) 65535;
  dropped = (1 + length ns - 65535) % 2 ^ 16;
  last_timestamp_us = (last_from n (take 65534 ns)).now;
}

notify-first :
    (s : InterruptPinEventSource) (n : Notification)
    → IsDrained s
    → notify_from_isr s n ≡ holding s 1 0 n
unfolding notify_from_isr
notify-first s n h = ground (arith, h.no_pending, h.no_dropped)

-- The source after that `read_event`.
abbrev pub emptied :
    InterruptPinEventSource → Notification → List Notification → InterruptPinEventSource
emptied s n ns = record (holding s 0 0 (last_from n (take 65534 ns))) {
  last_info = reported_info s n ns;
  sequence = add32 s.sequence 1;
}

read_event-notified :
    (s : InterruptPinEventSource) (n : Notification) (ns : List Notification)
    → IsDrained s
    → read_event (notify_all s (n ∷ ns)) ≡ (some (reported s n ns), emptied s n ns)
unfolding read_event_during take_pending finish_read fill_event
read_event-notified s n ns h =
    ap (λ t. read_event (notify_all t ns)) (notify-first s n h)
    ∙ (ap read_event (notify_all-holding s 1 n ns (omega arith))
        ∙ (let e : (min (1 + length ns) 65535 == 0) ≡ false = ground arith in ground (arith, e)))

fill_event-notify :
    (p : Pending) (s : InterruptPinEventSource) (n : Notification)
    → fill_event p (notify_from_isr s n)
      ≡ ((fill_event p s).0, notify_from_isr (fill_event p s).1 n)
unfolding fill_event notify_from_isr
fill_event-notify p s n = ground (arith, Bool-cases (s.pending_count == 65535))

fill_event-notify_all :
    (p : Pending) (s : InterruptPinEventSource) (ns : List Notification)
    → fill_event p (notify_all s ns) ≡ ((fill_event p s).0, notify_all (fill_event p s).1 ns)
fill_event-notify_all p s [] = refl
fill_event-notify_all p s (n ∷ ns) =
    fill_event-notify_all p (notify_from_isr s n) ns
    ∙ ap (λ r. (r.0, notify_all r.1 ns)) (fill_event-notify p s n)

finish_read-later :
    (taken : Option Pending) (s : InterruptPinEventSource) (during : List Notification)
    → finish_read taken (notify_all s during)
      ≡ (let (event, s') = finish_read taken s in (event, notify_all s' during))
unfolding finish_read
finish_read-later none s during = refl
finish_read-later (some p) s during = ap (λ r. (some r.0, r.1)) (fill_event-notify_all p s during)

-- Interrupts that come after the guarded block of a `read_event` do not change its event, and the
-- source is afterwards as if they had come after the call.
read_event_during-later :
    (s : InterruptPinEventSource) (during : List Notification)
    → read_event_during during s ≡ (let (event, s') = read_event s in (event, notify_all s' during))
unfolding read_event_during
read_event_during-later s during =
    let (taken, s') = take_pending s in finish_read-later taken s' during

-- Let a source have nothing to report, and let one or more interrupts come. The next `read_event`
-- gives one event, with the next sequence number and the time and level of the last interrupt that
-- the 16-bit counter counted; its information has the number of interrupts up to 65535 as the count
-- and the number of the others, modulo 2^16, as the drops. That leaves nothing to report, and a
-- `read_event` at once would give no event. The interrupts that come in the course of the call,
-- after its guarded block, change none of this: they are as if they came after it.
pub read_event-reported :
    (s : InterruptPinEventSource) (n : Notification) (ns during : List Notification)
    → IsDrained s
    → (read_event_during during (notify_all s (n ∷ ns))
        ≡ (some (reported s n ns), notify_all (emptied s n ns) during))
      × IsDrained (emptied s n ns)
      × (read_event (emptied s n ns) ≡ (none, emptied s n ns))
unfolding read_event_during take_pending finish_read
read_event-reported s n ns during h = (
  read_event_during-later (notify_all s (n ∷ ns)) during
      ∙ ap (λ (r : Option PinEvent × InterruptPinEventSource). (r.0, notify_all r.1 during))
          (read_event-notified s n ns h),
  record { no_pending = refl; no_dropped = refl },
  refl,
)
