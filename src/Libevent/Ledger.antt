-- ===== src/Libevent/Ledger.antt =====
-- A ledger of the libevent events that LinuxLibeventLoop of async_event_loop_linux/libevent_loop.hpp
-- makes, uses and frees.
use pypilot_event_loop.Prelude.{
  ℕ, suc, ◌+◌, ◌≤◌, Bool, true, false, List, [], ◌∷◌, ◌++◌, ◌≡◌, refl, sym, subst, ◌∙◌, Bool-cases,
  inl, inr, ap₂, ==_refl, none, arith, if◌then◌else◌, ◌==◌, ◌&&◌,
}
use pypilot_event_loop.Libevent.{
  Entry, Command, makes, arms, watches, frees, mark, compact_removed, free_events, update,
}

-- How often an event has been made, and how often freed.
abbrev pub made : ℕ → List Command → ℕ
made id [] = 0
made id (makes i ∷ log) = if i == id then suc (made id log) else made id log
made id (arms i tv ∷ log) = made id log
made id (watches i fd ∷ log) = made id log
made id (frees i ∷ log) = made id log

abbrev pub freed : ℕ → List Command → ℕ
freed id [] = 0
freed id (makes i ∷ log) = freed id log
freed id (arms i tv ∷ log) = freed id log
freed id (watches i fd ∷ log) = freed id log
freed id (frees i ∷ log) = if i == id then suc (freed id log) else freed id log

-- The event has been made and not freed since.
abbrev pub IsAlive : ℕ → List Command → Type 0
IsAlive id log = made id log ≡ suc (freed id log)

-- An event is made once, and only a live event is armed, watched or freed.
abbrev pub IsSound : List Command → Type 0
IsSound [] = Unit {0}
IsSound (makes i ∷ log) = (made i log ≡ 0) × IsSound log
IsSound (arms i tv ∷ log) = IsAlive i log × IsSound log
IsSound (watches i fd ∷ log) = IsAlive i log × IsSound log
IsSound (frees i ∷ log) = IsAlive i log × IsSound log

-- The items of a list that own the event of an address.
abbrev pub owns : {X : Type 0} → ℕ → Entry X → ℕ
owns id e = if (e.id == id) && e.ev then 1 else 0

abbrev pub owned : {X : Type 0} → ℕ → List (Entry X) → ℕ
owned id [] = 0
owned id (e ∷ es) = owns id e + owned id es

-- A sound log frees an event at most as often as it makes it, and makes it at most once.
pub freed_le_made :
    (log : List Command) → IsSound log → (id : ℕ) → (freed id log ≤ made id log) × (made id log ≤ 1)
freed_le_made [] s id = ground arith
freed_le_made (makes i ∷ log) (h, s) id = let ih = freed_le_made log s id in ground arith
freed_le_made (arms i tv ∷ log) (h, s) id = freed_le_made log s id
freed_le_made (watches i fd ∷ log) (h, s) id = freed_le_made log s id
freed_le_made (frees i ∷ log) (h, s) id = let ih = freed_le_made log s id in ground arith

pub owned-append :
    {X : Type 0} (id : ℕ) (es fs : List (Entry X)) → owned id (es ++ fs) ≡ owned id es + owned id fs
owned-append id [] fs = omega arith
owned-append id (e ∷ es) fs = let ih = owned-append id es fs in omega arith

pub owned-mark :
    {X : Type 0} (id : ℕ) (test : Entry X → Bool) (es : List (Entry X))
    → owned id (mark test es).1 ≡ owned id es
owned-mark id test [] = refl
owned-mark id test (e ∷ es) =
    ap₂ ◌+◌
      (elim (test e)
        as (λ b. owns id (if b then record e { removed = true; task = none } else e) ≡ owns id e) [
          | true ↦ refl
          | false ↦ refl
        ])
      (owned-mark id test es)

pub owned-update :
    {X : Type 0} (id i : ℕ) (f : Entry X → Entry X)
    → ((e : Entry X) → owns id (f e) ≡ owns id e)
    → (es : List (Entry X)) → owned id (update i f es) ≡ owned id es
owned-update id i f h [] = refl
owned-update id i f h (e ∷ es) =
    ap₂ ◌+◌
      (elim (e.id == i) as (λ b. owns id (if b then f e else e) ≡ owns id e) [
        | true ↦ h e
        | false ↦ refl
      ])
      (owned-update id i f h es)

-- The events that the items of a list own are live: freeing the item at its head is sound.
pub head-IsAlive :
    {X : Type 0} (e : Entry X) (es : List (Entry X)) (log : List Command)
    → e.ev ≡ true
    → IsSound log
    → owned e.id (e ∷ es) + freed e.id log ≤ made e.id log
    → IsAlive e.id log
head-IsAlive e es log h s le =
    let b = freed_le_made log s e.id in let r = ==_refl e.id in ground arith

-- What a pass over the items of a list does to the log: it frees what the items kept no longer own.
abbrev pub Balances :
    {X : Type 0} → List (Entry X) → List Command → List (Entry X) × List Command → Type 0
Balances es log out =
    IsSound out.1
    × ((id : ℕ)
        → (owned id out.0 + freed id out.1 ≡ owned id es + freed id log)
          × (made id out.1 ≡ made id log))

abbrev pub release : {X : Type 0} → Entry X → List Command → List Command
release e log = if e.ev then frees e.id ∷ log else log

pub release-Balances :
    {X : Type 0} (e : Entry X) (es : List (Entry X)) (log : List Command)
    → IsSound log
    → ((id : ℕ) → owned id (e ∷ es) + freed id log ≤ made id log)
    → Balances (e ∷ es) log (es, release e log)
release-Balances e es log s h = elim (Bool-cases e.ev) [
  | inl p ↦
      let alive = head-IsAlive e es log p s (h e.id) in
      subst (λ b. Balances (e ∷ es) log (es, if b then frees e.id ∷ log else log)) (sym p)
        ((alive, s), λ id. (ground arith, refl))
  | inr p ↦
      subst (λ b. Balances (e ∷ es) log (es, if b then frees e.id ∷ log else log)) (sym p)
        (s, λ id. (ground arith, refl))
]

-- One pass after another.
pub Balances-trans :
    {X : Type 0} (es : List (Entry X)) (log : List Command) (mid : List (Entry X) × List Command)
    (out : List (Entry X) × List Command)
    → Balances es log mid
    → Balances mid.0 mid.1 out
    → Balances es log out
Balances-trans es log mid out (_, b) (s, c) = (s, λ id. ((c id).0 ∙ (b id).0, (c id).1 ∙ (b id).1))

-- The other lists take part in the balance as they are.
pub Balances-le :
    {X : Type 0} (es : List (Entry X)) (log : List Command) (out : List (Entry X) × List Command)
    → Balances es log out
    → ((id : ℕ) → owned id es + freed id log ≤ made id log)
    → (id : ℕ) → owned id out.0 + freed id out.1 ≤ made id out.1
Balances-le es log out (_, b) h id = let x = b id in let y = h id in omega arith

pub compact_removed-Balances :
    {X : Type 0} (es : List (Entry X)) (log : List Command)
    → IsSound log
    → ((id : ℕ) → owned id es + freed id log ≤ made id log)
    → Balances es log (compact_removed es log)
compact_removed-Balances [] log s h = (s, λ id. (refl, refl))
compact_removed-Balances (e ∷ es) log s h =
    let first = release-Balances e es log s h in
    let dropped =
      compact_removed-Balances es (release e log) first.0
        (Balances-le (e ∷ es) log (es, release e log) first h) in
    let kept = compact_removed-Balances es log s (λ id. let x = h id in omega arith) in
    elim e.removed
      as (λ b. Balances (e ∷ es) log (
        if b
        then compact_removed es (release e log)
        else (e ∷ (compact_removed es log).0, (compact_removed es log).1))) [
          | true ↦ Balances-trans (e ∷ es) log (es, release e log) _ first dropped
          | false ↦ (kept.0, λ id. (let x = (kept.1 id).0 in omega arith, (kept.1 id).1))
        ]

pub free_events-Balances :
    {X : Type 0} (es : List (Entry X)) (log : List Command)
    → IsSound log
    → ((id : ℕ) → owned id es + freed id log ≤ made id log)
    → Balances es log ([], free_events es log)
free_events-Balances [] log s h = (s, λ id. (refl, refl))
free_events-Balances (e ∷ es) log s h =
    let first = release-Balances e es log s h in
    Balances-trans (e ∷ es) log (es, release e log) ([], free_events es (release e log)) first
      (free_events-Balances es (release e log) first.0
        (Balances-le (e ∷ es) log (es, release e log) first h))
