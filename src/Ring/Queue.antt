-- ===== src/Ring/Queue.antt =====
-- A valid ring is a queue of at most `capacity` elements.
use native.Mathlib.Nat.{mod-add-mod, mod-eq_of_lt, mod-eq-sub-mod, mod-lt}
use pypilot_event_loop.Prelude.{
  ℕ, zero, suc, ◌+◌, ◌-◌, ◌%◌, ◌≤◌, ◌<◌, ◌≡◌, ◌≢◌, ◌⊎◌, refl, ap, ◌∙◌, ap₂, inl, inr, Option, none,
  some, List, [], ◌∷◌, ◌++◌, arith, length, length-set, length-replicate, get_or, get_or-set_self,
  get_or-set_ne, set, tabulate, tabulate-ext, tabulate-last, length-tabulate, ltb, ltb→lt, ltb→ge,
  if◌then◌else◌, Bool-cases,
}
use pypilot_event_loop.Ring.{Ring, fresh, push, pop}

-- An index less than two turns round the ring.
abbrev Place : ℕ → ℕ → Type 0
Place c x = ((x < c) × (x % c ≡ x)) ⊎ ((c ≤ x) × (x % c ≡ x - c))

place : (c x : ℕ) → x < c + c → Place c x
place c x h = elim (Bool-cases (ltb x c)) [
  | inl small ↦ let k = ltb→lt x c small in inl (k, mod-eq_of_lt k)
  | inr large ↦
      let k = ltb→ge x c large in
      let e : (x - c) % c ≡ x - c = mod-eq_of_lt (omega arith) in inr (k, mod-eq-sub-mod k ∙ e)
]

-- Two places less than one turn apart are different.
place-ne : (c h i n : ℕ) → h < c → i < n → n < c → (h + n) % c ≢ (h + i) % c
place-ne c h i n a b d e =
    omega (arith, place c (h + n) (omega arith), place c (h + i) (omega arith))

-- A step round the ring, and then `i` more.
place-suc : (c h i : ℕ) → (h + suc i) % c ≡ ((h + 1) % c + i) % c
place-suc c h i = rw mod-add-mod (ap (λ k. k % c) (omega arith))

-- The tail after a push.
tail-suc : (c h n : ℕ) → ((h + n) % c + 1) % c ≡ (h + (n + 1)) % c
tail-suc c h n = rw mod-add-mod (ap (λ k. k % c) (omega arith))

module _ {A : Type 0} (capacity : ℕ) (blank : A) where
  -- The elements in the order in which they were pushed.
  abbrev pub contents : Ring A → List A
  contents r = tabulate r.count (λ i. get_or r.buffer ((r.head + i) % capacity) blank)

  pub record IsValid (r : Ring A) : Type 0 where
    pub storage : length r.buffer ≡ capacity
    pub head_in : r.head < capacity
    pub tail_at : r.tail ≡ (r.head + r.count) % capacity
    pub within : r.count ≤ capacity

  pub length-contents : (r : Ring A) → length (contents r) ≡ r.count
  length-contents r = length-tabulate r.count _

  -- The queue's head.
  contents-cons :
      (buffer : List A) (h n : ℕ)
      → h < capacity
      → tabulate (suc n) (λ i. get_or buffer ((h + i) % capacity) blank)
        ≡ get_or buffer h blank
          ∷ tabulate n (λ i. get_or buffer (((h + 1) % capacity + i) % capacity) blank)
  contents-cons buffer h n a =
      ap₂ ◌∷◌ (ap (λ k. get_or buffer k blank) (mod-eq_of_lt (omega arith) ∙ omega arith))
        (tabulate-ext n _ _ (λ i _. ap (λ k. get_or buffer k blank) (place-suc capacity h i)))

  -- The queue's end.
  contents-snoc :
      (buffer : List A) (h n : ℕ) (x : A)
      → length buffer ≡ capacity
      → h < capacity
      → n < capacity
      → tabulate
          (suc n)
          (λ i. get_or (set buffer ((h + n) % capacity) x) ((h + i) % capacity) blank)
        ≡ tabulate n (λ i. get_or buffer ((h + i) % capacity) blank) ++ x ∷ []
  contents-snoc buffer h n x l a b =
      tabulate-last n _
      ∙ ap₂ (λ xs y. xs ++ y ∷ [])
          (tabulate-ext n _ _
            (λ i k. get_or-set_ne buffer _ _ x blank (place-ne capacity h i n a k b)))
          (get_or-set_self buffer _ x blank (rw l (mod-lt _ {m = capacity} (omega arith))))

  -- `pop` of a ring that holds the queue `xs`: nothing from an empty queue, and otherwise the head,
  -- leaving a valid ring that holds the tail.
  abbrev pub Pops : List A → Option (A × Ring A) → Type 0
  Pops xs o =
      ((xs ≡ []) × (o ≡ none))
      ⊎ ((x : A) × (r : Ring A) × (o ≡ some (x, r)) × (xs ≡ x ∷ contents r) × IsValid r)

  pub fresh-IsValid :
      0 < capacity → IsValid (fresh capacity blank) × (contents (fresh capacity blank) ≡ [])
  unfolding fresh
  fresh-IsValid h = (
    record {
      storage = length-replicate capacity blank;
      head_in = h;
      tail_at = omega arith;
      within = omega arith;
    },
    refl,
  )

  push-IsValid : (r : Ring A) (x : A) → IsValid r → IsValid (push capacity blank r x).1
  unfolding push
  push-IsValid r x v =
      ground (arith, length-set r.buffer r.tail x, tail-suc capacity r.head r.count)

  -- On a valid ring `push` puts the element behind the queue exactly if there is room, and
  -- otherwise returns false and changes nothing; the ring stays valid.
  pub push_lem :
      (r : Ring A) (x : A)
      → IsValid r
      → IsValid (push capacity blank r x).1
        × ((push capacity blank r x).0 ≡ ltb r.count capacity)
        × (contents (push capacity blank r x).1
            ≡ (if ltb r.count capacity then contents r ++ x ∷ [] else contents r))
  unfolding push
  push_lem r x v = elim (Bool-cases (ltb r.count capacity)) [
    | inl room ↦
        let k = ltb→lt r.count capacity room in
        let e : r.count + 1 ≡ suc r.count = omega arith in
        let t : tabulate (r.count + 1)
              (λ i. get_or (set r.buffer r.tail x) ((r.head + i) % capacity) blank)
            ≡ contents r ++ x ∷ [] =
          rw (e, v.tail_at) (contents-snoc r.buffer r.head r.count x v.storage v.head_in k) in
        (push-IsValid r x v, ground arith, ground (arith, t))
    | inr full ↦
        let k = ltb→ge r.count capacity full in (push-IsValid r x v, ground arith, ground arith)
  ]

  pub count-push :
      (r : Ring A) (x : A)
      → (push capacity blank r x).1.count ≡ (if ltb r.count capacity then r.count + 1 else r.count)
  unfolding push
  count-push r x = ground arith

  pop-Pops_at :
      (n : ℕ) (r : Ring A) → r.count ≡ n → IsValid r → Pops (contents r) (pop capacity blank r)
  unfolding pop
  pop-Pops_at zero r e v = inl (rw e, ground arith)
  pop-Pops_at (suc n) r e v = inr (get_or r.buffer r.head blank, left, ground arith, front, kept)
    where
      left : Ring A
      left = record r { head = (r.head + 1) % capacity; count = r.count - 1 }

      front : contents r ≡ get_or r.buffer r.head blank ∷ contents left
      front =
          let d : suc n - 1 ≡ n = omega arith in
          rw (e, d) (contents-cons r.buffer r.head n v.head_in)

      kept : IsValid left
      kept = record {
        storage = v.storage;
        head_in = mod-lt _ (omega (arith, v.head_in));
        tail_at =
            v.tail_at
            ∙ ap (λ k. (r.head + k) % capacity) e
            ∙ place-suc capacity r.head n
            ∙ ap (λ k. ((r.head + 1) % capacity + k) % capacity) (omega arith);
        within = omega (arith, v.within);
      }

  -- On a valid ring `pop` takes the element that was pushed first, and fails exactly on the empty
  -- queue; the ring stays valid.
  pub pop-Pops : (r : Ring A) → IsValid r → Pops (contents r) (pop capacity blank r)
  pop-Pops r v = pop-Pops_at r.count r refl v
