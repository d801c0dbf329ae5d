-- ===== src/ArduinoLoop/Registry.antt =====
-- What the scheduler's registrations and removals do to its entries.
use pypilot_event_loop.Prelude.{
  ℕ, zero, suc, ◌<◌, ◌≡◌, refl, sym, subst, ap, ◌∙◌, inl, inr, Bool, true, false, not, ◌&&◌, ◌||◌,
  some, List, [], ◌∷◌, ◌++◌, map, arith, ltb, ◌==◌, if◌then◌else◌, length, length-set, take,
  take-set, Bool-cases,
}
use pypilot_event_loop.ArduinoLoop.{
  TaskSlot, ArduinoLoop, live, compact_inactive, append, add_periodic, add_one_shot, names, unlink,
  unlink_all, remove,
}
use pypilot_event_loop.ArduinoLoop.Compact.{
  contents, keep_live, IsValid, length-contents, compact_inactive-lem,
}

-- The entries of other tasks.
abbrev pub without : ℕ → List TaskSlot → List TaskSlot
without task [] = []
without task (s ∷ ss) = if names task s.task then without task ss else s ∷ without task ss

-- Some entry is of the task.
abbrev pub has : ℕ → List TaskSlot → Bool
has task [] = false
has task (s ∷ ss) = names task s.task || has task ss

keep_live-unlink :
    (task : ℕ) (ss : List TaskSlot) → keep_live (map (unlink task) ss) ≡ without task (keep_live ss)
keep_live-unlink task [] = refl
keep_live-unlink task (s ∷ ss) = elim (Bool-cases (names task s.task)) [
  | inl it ↦ ground (arith, it, keep_live-unlink task ss, Bool-cases (live s))
  | inr other ↦ ground (arith, other, keep_live-unlink task ss, Bool-cases (live s))
]

unlink_all-lem :
    (task n : ℕ) (ss : List TaskSlot)
    → ((unlink_all task n ss).0 ≡ has task (take n ss))
      × (take n (unlink_all task n ss).1 ≡ map (unlink task) (take n ss))
      × (length (unlink_all task n ss).1 ≡ length ss)
unfolding unlink_all
unlink_all-lem task zero ss = (refl, refl, refl)
unlink_all-lem task (suc n) [] = (refl, refl, refl)
unlink_all-lem task (suc n) (s ∷ ss) =
    let (f, e, k) = unlink_all-lem task n ss in
    (ap (λ b. names task s.task || b) f, ap (◌∷◌ (unlink task s)) e, ap suc k)

module _ (max_tasks : ℕ) where
  append-lem :
      (s : TaskSlot) (l : ArduinoLoop)
      → IsValid max_tasks l
      → l.task_count < max_tasks
      → IsValid max_tasks (append s l) × (contents (append s l) ≡ contents l ++ s ∷ [])
  append-lem s l v lt = ground (
    arith,
    v,
    lt,
    length-set l.tasks l.task_count s,
    take-set l.tasks l.task_count s (omega (arith, v.storage, lt)),
  )

  -- The entries after a registration of `s`, which a full scheduler refuses.
  abbrev pub Adds : Bool → TaskSlot → ArduinoLoop → Bool × ArduinoLoop → Type 0
  Adds allowed s l (added, l') =
      let ss = keep_live (contents l) in
      let room = allowed && ltb (length ss) max_tasks in
      IsValid max_tasks l'
      × (added ≡ room)
      × (contents l' ≡ (if room then ss ++ s ∷ [] else ss))
      × (l'.running ≡ l.running)

  -- A registration drops the entries of removed tasks. A periodic one is refused if the period is
  -- zero or every entry is taken by a live task, a one-shot one in the second case; otherwise it
  -- appends its entry, due at the clock's reading or at the given time.
  pub add_lem :
      (now_us task period_us due_us : ℕ) (l : ArduinoLoop)
      → IsValid max_tasks l
      → Adds
          (not (period_us == 0))
          (record {
            task = some task;
            period_us = period_us;
            next_due_us = now_us;
            periodic = true;
            active = true;
          })
          l
          (add_periodic now_us task period_us l)
        × Adds true
            (record {
              task = some task;
              period_us = 0;
              next_due_us = due_us;
              periodic = false;
              active = true;
            })
            l
            (add_one_shot task due_us l)
  unfolding add_periodic add_one_shot
  add_lem now_us task period_us due_us l v =
      let l' = compact_inactive l in
      let (v', e, r) = compact_inactive-lem max_tasks l v in
      let k = length-contents max_tasks l' v' in
      let k' = ap length e in
      let a =
        append-lem
          (record {
            task = some task;
            period_us = period_us;
            next_due_us = now_us;
            periodic = true;
            active = true;
          })
          l' v' in
      let b =
        append-lem
          (record {
            task = some task;
            period_us = 0;
            next_due_us = due_us;
            periodic = false;
            active = true;
          })
          l' v' in
      ground (arith, v, v', e, r, k, k', a, b)

  -- The entries after a removal.
  abbrev pub Removes : ℕ → ArduinoLoop → Bool × ArduinoLoop → Type 0
  Removes task l (removed, l') =
      IsValid max_tasks l'
      × (removed ≡ has task (contents l))
      × (contents l' ≡ (
          if l.running
          then map (unlink task) (contents l)
          else without task (keep_live (contents l))))
      × (l'.running ≡ l.running)

  -- A removal reports whether the task had an entry. Outside of a round the entries left are the
  -- live ones of other tasks, in their order; inside of one the task's entries stay in their places,
  -- without their task.
  pub remove-Removes :
      (task : ℕ) (l : ArduinoLoop) → IsValid max_tasks l → Removes task l (remove task l)
  unfolding remove
  remove-Removes task l v =
      let (f, e, k) = unlink_all-lem task l.task_count l.tasks in
      let l1 = record l { tasks = (unlink_all task l.task_count l.tasks).1 } in
      let found = (unlink_all task l.task_count l.tasks).0 in
      let v1 : IsValid max_tasks l1 = record { storage = k ∙ v.storage; within = v.within } in
      let (v2, e2, r2) = compact_inactive-lem max_tasks l1 v1 in
      elim (Bool-cases l.running) [
        | inl inside ↦
            let same : remove task l ≡ (found, l1) = ground (arith, inside) in
            subst (Removes task l) (sym same) (v1, f, e ∙ ground (arith, inside), refl)
        | inr outside ↦
            let same : remove task l ≡ (found, compact_inactive l1) = ground (arith, outside) in
            let left = e2 ∙ ap keep_live e ∙ keep_live-unlink task (contents l) in
            subst (Removes task l) (sym same) (v2, f, left ∙ ground (arith, outside), r2)
      ]
