-- ===== src/ArduinoLoop/Compact.antt =====
-- `compact_inactive` removes the dead entries and keeps the order of the others.
use pypilot_event_loop.Prelude.{
  ℕ, zero, suc, ◌+◌, ◌-◌, ◌≤◌, ◌≡◌, refl, sym, ap, ◌∙◌, inl, inr, true, false, List, [], ◌∷◌, ◌++◌,
  arith, ltb, if◌then◌else◌, length, length-set, length-append, length-take, take, get_or, set,
  take-set_above, append_assoc, Bool-cases,
}
use pypilot_event_loop.FixedVector.{shift}
use pypilot_event_loop.FixedVector.Contents.{remove_at, take-shift, length-shift}
use pypilot_event_loop.ArduinoLoop.{
  TaskSlot, blank, ArduinoLoop, live, erase_task, compact_from, compact_inactive,
}

-- The entries in use.
abbrev pub contents : ArduinoLoop → List TaskSlot
contents l = take l.task_count l.tasks

abbrev pub keep_live : List TaskSlot → List TaskSlot
keep_live [] = []
keep_live (s ∷ ss) = if live s then s ∷ keep_live ss else keep_live ss

pub record IsValid (max_tasks : ℕ) (l : ArduinoLoop) : Type 0 where
  pub storage : length l.tasks ≡ max_tasks
  pub within : l.task_count ≤ max_tasks

pub length-contents :
    (max_tasks : ℕ) (l : ArduinoLoop) → IsValid max_tasks l → length (contents l) ≡ l.task_count
length-contents max_tasks l v = omega (arith, length-take l.task_count l.tasks, v.storage, v.within)

-- An entry in use, read from the array.
pub get_or-contents :
    (n : ℕ) (xs pre rest : List TaskSlot) (s : TaskSlot)
    → take n xs ≡ pre ++ s ∷ rest
    → get_or xs (length pre) blank ≡ s
get_or-contents zero xs [] rest s h = absurd (ground (arith, h))
get_or-contents zero xs (p ∷ pre) rest s h = absurd (ground (arith, h))
get_or-contents (suc n) [] [] rest s h = absurd (ground (arith, h))
get_or-contents (suc n) [] (p ∷ pre) rest s h = absurd (ground (arith, h))
get_or-contents (suc n) (x ∷ xs) [] rest s h = ground (arith, h)
get_or-contents (suc n) (x ∷ xs) (p ∷ pre) rest s h =
    get_or-contents n xs pre rest s (ground (arith, h))

remove_at-middle :
    (pre rest : List TaskSlot) (s : TaskSlot)
    → remove_at (length pre) (pre ++ s ∷ rest) ≡ pre ++ rest
remove_at-middle [] rest s = refl
remove_at-middle (p ∷ pre) rest s = ap (◌∷◌ p) (remove_at-middle pre rest s)

module _ (max_tasks : ℕ) where
  erase_task-lem :
      (l : ArduinoLoop) (pre rest : List TaskSlot) (s : TaskSlot)
      → IsValid max_tasks l
      → contents l ≡ pre ++ s ∷ rest
      → IsValid max_tasks (erase_task (length pre) l)
        × (contents (erase_task (length pre) l) ≡ pre ++ rest)
        × ((erase_task (length pre) l).running ≡ l.running)
  unfolding erase_task
  erase_task-lem l pre rest s v h =
      let n = l.task_count - 1 in
      let i = length pre in
      let k : l.task_count ≡ i + suc (length rest) =
        omega (arith, length-contents max_tasks l v, ap length h, length-append pre (s ∷ rest)) in
      let xs = shift blank (l.task_count - (i + 1)) i l.tasks in
      let same : l.task_count - (i + 1) ≡ n - i = omega (arith, k) in
      let above = take-set_above xs n n blank (omega arith) in
      let moved =
        take-shift blank i n l.tasks (omega (arith, k)) (omega (arith, k, v.storage, v.within)) in
      let back : suc n ≡ l.task_count = omega (arith, k) in
      let gone : take n (set xs n blank) ≡ pre ++ rest =
        above
        ∙ ap (λ m. take n (shift blank m i l.tasks)) same
        ∙ moved
        ∙ ap (remove_at i) (ap (λ m. take m l.tasks) back ∙ h)
        ∙ remove_at-middle pre rest s in
      ground (
        arith,
        k,
        gone,
        length-set xs n blank,
        length-shift blank (l.task_count - (i + 1)) i l.tasks,
      )

  pub compact_from-lem :
      (fuel : ℕ) (l : ArduinoLoop) (pre rest : List TaskSlot)
      → IsValid max_tasks l
      → contents l ≡ pre ++ rest
      → length rest ≤ fuel
      → let l' = compact_from fuel (length pre) l in
        IsValid max_tasks l' × (contents l' ≡ pre ++ keep_live rest) × (l'.running ≡ l.running)
  unfolding compact_from
  compact_from-lem zero l pre [] v h k = (v, h, refl)
  compact_from-lem zero l pre (s ∷ rest) v h k = elim k [ ]
  compact_from-lem (suc fuel) l pre [] v h k =
      let e : ltb (length pre) l.task_count ≡ false =
        ground (arith, length-contents max_tasks l v, ap length h, length-append pre []) in
      rw (compact_from, e) (v, h, refl)
  compact_from-lem (suc fuel) l pre (s ∷ rest) v h k =
      let e : ltb (length pre) l.task_count ≡ true =
        ground (arith, length-contents max_tasks l v, ap length h, length-append pre (s ∷ rest)) in
      let here = get_or-contents l.task_count l.tasks pre rest s h in
      elim (Bool-cases (live s)) [
        | inl alive ↦
            let step : compact_from (suc fuel) (length pre) l
                ≡ compact_from fuel (length (pre ++ s ∷ [])) l =
              ground (arith, e, here, alive, length-append pre (s ∷ [])) in
            let (v', h', r') =
              compact_from-lem fuel l (pre ++ s ∷ []) rest v
                (h ∙ sym (append_assoc pre (s ∷ []) rest)) (omega (arith, k)) in
            rw (step, alive) (v', h' ∙ append_assoc pre (s ∷ []) (keep_live rest), r')
        | inr dead ↦
            let step : compact_from (suc fuel) (length pre) l
                ≡ compact_from fuel (length pre) (erase_task (length pre) l) =
              ground (arith, e, here, dead) in
            let (v', h', r') = erase_task-lem l pre rest s v h in
            let (v'', h'', r'') =
              compact_from-lem fuel (erase_task (length pre) l) pre rest v' h' (omega (arith, k)) in
            rw (step, dead) (v'', h'', r'' ∙ r')
      ]

  -- `compact_inactive` keeps exactly the live entries, in their order.
  pub compact_inactive-lem :
      (l : ArduinoLoop)
      → IsValid max_tasks l
      → IsValid max_tasks (compact_inactive l)
        × (contents (compact_inactive l) ≡ keep_live (contents l))
        × ((compact_inactive l).running ≡ l.running)
  compact_inactive-lem l v =
      compact_from-lem l.task_count l [] (contents l) v refl
        (omega (arith, length-contents max_tasks l v))
