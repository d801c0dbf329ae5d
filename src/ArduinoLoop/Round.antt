-- ===== src/ArduinoLoop/Round.antt =====
-- A round of the cooperative scheduler over tasks that leave the scheduler alone.
use pypilot_event_loop.Prelude.{
  ℕ, zero, suc, ◌≤◌, ◌<◌, ◌≡◌, refl, sym, subst, ap, ◌∙◌, inl, inr, true, false, some, none, List,
  [], ◌∷◌, ◌++◌, arith, ltb, ltb→lt, ltb→ge, if◌then◌else◌, length, length-set, length-append,
  get_or, set, Bool-cases, Option-cases, append_assoc,
}
use pypilot_event_loop.Timer.Periodic.{rounds}
use pypilot_event_loop.Timer.Periodic.Deadline.{advance_ends}
use pypilot_event_loop.ArduinoLoop.{
  TaskSlot, blank, ArduinoLoop, live, compact_inactive, put, reschedule, visit, run_from, run_once,
}
use pypilot_event_loop.ArduinoLoop.Compact.{
  contents, keep_live, IsValid, length-contents, compact_inactive-lem, get_or-contents,
}
use pypilot_event_loop.ArduinoLoop.Service.{
  take-set_inside, set-middle, AllSound, Serves, waits, done, repeats, fires,
}

module _ (max_tasks : ℕ) {U : Type 0} (poll : ℕ → ℕ → ArduinoLoop → U → ArduinoLoop × U)
    (work : ℕ → ℕ → U → U)
    (quiet : (t now : ℕ) (l : ArduinoLoop) (u : U) → poll t now l u ≡ (l, work t now u)) where
  put-lem :
      (l : ArduinoLoop) (pre rest : List TaskSlot) (s s' : TaskSlot)
      → IsValid max_tasks l
      → contents l ≡ pre ++ s ∷ rest
      → IsValid max_tasks (put poll (length pre) s' l)
        × (contents (put poll (length pre) s' l) ≡ pre ++ s' ∷ rest)
  put-lem l pre rest s s' v h = (
    record { storage = length-set l.tasks (length pre) s' ∙ v.storage; within = v.within },
    take-set_inside l.task_count (length pre) l.tasks s'
        ∙ ap (λ xs. set xs (length pre) s') h
        ∙ set-middle pre rest s s',
  )

  visit-due :
      (now i t : ℕ) (l : ArduinoLoop) (u : U)
      → (get_or l.tasks i blank).task ≡ some t
      → (get_or l.tasks i blank).active ≡ true
      → (get_or l.tasks i blank).next_due_us ≤ now
      → (l' : ArduinoLoop) → reschedule poll now i l ≡ some l'
      → visit poll now i l u ≡ some (l', work t now u)
  unfolding visit
  visit-due now i t l u a b c l' e = ground (arith, a, b, c, e, quiet t now l u)

  module _ (now : ℕ) where
    -- The loop's state behind an entry.
    record Ran (fuel : ℕ) (l : ArduinoLoop) (u : U) (pre rest : List TaskSlot) : Type 0 where
      loop : ArduinoLoop
      tasks : U
      left : List TaskSlot
      returns : run_from poll fuel now (length pre) l u ≡ some (loop, tasks)
      valid : IsValid max_tasks loop
      entries : contents loop ≡ pre ++ left
      serves : Serves work now rest u (keep_live left) tasks

    -- One entry `s` that becomes `s'`, and then the others.
    then-others :
        (fuel : ℕ) (l l' : ArduinoLoop) (u u' : U) (pre rest : List TaskSlot) (s s' : TaskSlot)
        → length pre < l.task_count
        → visit poll now (length pre) l u ≡ some (l', u')
        → ((ss : List TaskSlot) (v : U)
            → Serves work now rest u' ss v
            → Serves work now (s ∷ rest) u (if live s' then s' ∷ ss else ss) v)
        → Ran fuel l' u' (pre ++ s' ∷ []) rest
        → Ran (suc fuel) l u pre (s ∷ rest)
    unfolding run_from
    then-others fuel l l' u u' pre rest s s' lt e serve x = record {
      loop = x.loop;
      tasks = x.tasks;
      left = s' ∷ x.left;
      returns =
          (let more : ltb (length pre) l.task_count ≡ true = ground (arith, lt) in
            let step : run_from poll (suc fuel) now (length pre) l u
                ≡ run_from poll fuel now (length (pre ++ s' ∷ [])) l' u' =
              ground (arith, more, e, length-append pre (s' ∷ [])) in
            step ∙ x.returns);
      valid = x.valid;
      entries = x.entries ∙ append_assoc pre (s' ∷ []) x.left;
      serves = serve _ _ x.serves;
    }

    run_from-Ran :
        (fuel : ℕ) (l : ArduinoLoop) (u : U) (pre rest : List TaskSlot)
        → IsValid max_tasks l
        → contents l ≡ pre ++ rest
        → AllSound now rest
        → length rest ≤ fuel
        → Ran fuel l u pre rest
    unfolding run_from reschedule visit
    run_from-Ran zero l u pre [] v h a k = record {
      loop = l;
      tasks = u;
      left = [];
      returns = refl;
      valid = v;
      entries = h;
      serves = done;
    }
    run_from-Ran zero l u pre (s ∷ rest) v h a k = elim k [ ]
    run_from-Ran (suc fuel) l u pre [] v h a k = record {
      loop = l;
      tasks = u;
      left = [];
      returns =
          (let e : ltb (length pre) l.task_count ≡ false =
              ground (arith, length-contents max_tasks l v, ap length h, length-append pre []) in
            ground (arith, e));
      valid = v;
      entries = h;
      serves = done;
    }
    run_from-Ran (suc fuel) l u pre (s ∷ rest) v h (a, b) k =
        let lt : length pre < l.task_count =
          omega (arith, length-contents max_tasks l v, ap length h, length-append pre (s ∷ rest)) in
        let here = get_or-contents l.task_count l.tasks pre rest s h in
        let i = length pre in
        elim (Option-cases s.task) [
          | inl null ↦ absurd (ground (arith, a.is_live, null))
          | inr (t, task) ↦ elim (Bool-cases (ltb now s.next_due_us)) [
            | inl early ↦
                let e : visit poll now i l u ≡ some (l, u) = ground (arith, here, task, early) in
                then-others fuel l l u u pre rest s s lt e
                  (λ ss v' x. rw a.is_live (waits (ltb→lt _ _ early) x))
                  (run_from-Ran fuel l u (pre ++ s ∷ []) rest v
                    (h ∙ sym (append_assoc pre (s ∷ []) rest)) b (omega (arith, k)))
            | inr due ↦ elim (Bool-cases s.periodic) [
              | inl again ↦
                  let (r, ends, n) =
                    advance_ends (rounds now) s.period_us now s.next_due_us (ltb→ge _ _ due)
                      (grind (arith, a.period again)) (a.room again) in
                  let s' = record s { next_due_us = r } in
                  let l' = put poll i s' l in
                  let (v', h') = put-lem l pre rest s s' v h in
                  let e =
                    visit-due now i t l u (ap (λ (x : TaskSlot). x.task) here ∙ task)
                      (ground (arith, here, a.is_live)) (ground (arith, here, due)) l'
                      (ground (arith, here, a.is_live, again, ends)) in
                  then-others fuel l l' u (work t now u) pre rest s s' lt e
                    (λ ss v' x. rw a.is_live (repeats task (ltb→ge _ _ due) again n x))
                    (run_from-Ran fuel l' (work t now u) (pre ++ s' ∷ []) rest v'
                      (h' ∙ sym (append_assoc pre (s' ∷ []) rest)) b (omega (arith, k)))
              | inr once ↦
                  let s' = record s { active = false; task = none } in
                  let l' = put poll i s' l in
                  let (v', h') = put-lem l pre rest s s' v h in
                  let e =
                    visit-due now i t l u (ap (λ (x : TaskSlot). x.task) here ∙ task)
                      (ground (arith, here, a.is_live)) (ground (arith, here, due)) l'
                      (ground (arith, here, a.is_live, once)) in
                  then-others fuel l l' u (work t now u) pre rest s s' lt e
                    (λ ss v' x. fires task (ltb→ge _ _ due) once x)
                    (run_from-Ran fuel l' (work t now u) (pre ++ s' ∷ []) rest v'
                      (h' ∙ sym (append_assoc pre (s' ∷ []) rest)) b (omega (arith, k)))
            ]
          ]
        ]

    -- What a round leaves.
    pub record Served (l : ArduinoLoop) (u : U) : Type 0 where
      pub loop : ArduinoLoop
      pub tasks : U
      pub returns : run_once poll now l u ≡ some (loop, tasks)
      pub valid : IsValid max_tasks loop
      pub ended : loop.running ≡ false
      pub serves : Serves work now (keep_live (contents l)) u (contents loop) tasks

    -- On a valid scheduler whose live periodic entries have a period and are not at the end of the
    -- clock, with tasks that do not call the scheduler, `run_once` returns, and serves the live
    -- entries once each, in their order: a due entry's task runs, and it moves to its first deadline
    -- in the future if it is periodic and is dropped if not; any other entry waits as it is.
    pub run_once-Served :
        (l : ArduinoLoop) (u : U)
        → IsValid max_tasks l
        → AllSound now (keep_live (contents l))
        → Served l u
    unfolding run_once
    run_once-Served l u v a =
        let (v', e, r) = compact_inactive-lem max_tasks l v in
        let l1 = record (compact_inactive l) { running = true } in
        let v1 : IsValid max_tasks l1 = record { storage = v'.storage; within = v'.within } in
        let enough : length (keep_live (contents l)) ≤ length l1.tasks = omega (
          arith,
          ap length e,
          length-contents max_tasks (compact_inactive l) v',
          v'.storage,
          v'.within,
        ) in
        let x = run_from-Ran (length l1.tasks) l1 u [] (keep_live (contents l)) v1 e a enough in
        let l2 = record x.loop { running = false } in
        let v2 : IsValid max_tasks l2 = record {
          storage = x.valid.storage;
          within = x.valid.within;
        } in
        let (v3, e3, r3) = compact_inactive-lem max_tasks l2 v2 in
        record {
          loop = compact_inactive l2;
          tasks = x.tasks;
          returns = ground (arith, x.returns);
          valid = v3;
          ended = r3;
          serves =
              subst (λ ss. Serves work now (keep_live (contents l)) u ss x.tasks)
                (sym (e3 ∙ ap keep_live x.entries)) x.serves;
        }
