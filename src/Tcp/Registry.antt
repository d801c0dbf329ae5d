-- ===== src/Tcp/Registry.antt =====
-- TcpConnectionRegistry of async_event_loop/tcp.hpp: a table of pointers to connections, which are
-- named by numbers, and a count.
pub mod Members
use pypilot_event_loop.Prelude.{
  ℕ, zero, suc, ◌+◌, ◌-◌, Bool, true, false, not, ◌&&◌, Option, none, some, List, [], ◌∷◌, ltb, leb,
  ◌==◌, if◌then◌else◌, length, get_or, set, replicate,
}

-- `connections` is the whole array `connections_[MaxConnections]`.
pub record TcpConnectionRegistry : Type 0 where
  pub connections : List (Option ℕ)
  pub count : ℕ

abbrev pub new : ℕ → TcpConnectionRegistry
new max_connections = record { connections = replicate max_connections none; count = 0 }

abbrev pub is : ℕ → Option ℕ → Bool
is c none = false
is c (some d) = c == d

abbrev pub is_null : Option ℕ → Bool
is_null none = true
is_null (some d) = false

-- `index_of`, the index counted from `i`; `none` is -1.
abbrev pub index_of : ℕ → ℕ → List (Option ℕ) → Option ℕ
index_of c i [] = none
index_of c i (x ∷ xs) = if is c x then some i else index_of c (suc i) xs

-- The search of `add` for a null pointer.
abbrev pub null_from : ℕ → List (Option ℕ) → Option ℕ
null_from i [] = none
null_from i (x ∷ xs) = if is_null x then some i else null_from (suc i) xs

abbrev pub contains : ℕ → TcpConnectionRegistry → Bool
contains c r = elim (index_of c 0 r.connections) [ none ↦ false | some i ↦ true ]

abbrev pub full : TcpConnectionRegistry → Bool
full r = leb (length r.connections) r.count

abbrev pub decrement : ℕ → ℕ
decrement n = if ltb 0 n then n - 1 else n

unfoldable pub add : ℕ → TcpConnectionRegistry → Bool × TcpConnectionRegistry
add c r = elim (index_of c 0 r.connections) [
  | some i ↦ (true, r)
  | none ↦ elim (null_from 0 r.connections) [
    | some i ↦ (true, record { connections = set r.connections i (some c); count = r.count + 1 })
    | none ↦ (false, r)
  ]
]

unfoldable pub remove : ℕ → TcpConnectionRegistry → Bool × TcpConnectionRegistry
remove c r = elim (index_of c 0 r.connections) [
  | none ↦ (false, r)
  | some i ↦ (true, record { connections = set r.connections i none; count = decrement r.count })
]

unfoldable pub clear : TcpConnectionRegistry → TcpConnectionRegistry
clear r = record { connections = replicate (length r.connections) none; count = 0 }

-- The loop of `prune_invalid`: the pointers and the count behind it.
unfoldable pub prune : (ℕ → Bool) → List (Option ℕ) → ℕ → List (Option ℕ) × ℕ
prune valid [] n = ([], n)
prune valid (none ∷ xs) n = let (ys, m) = prune valid xs n in (none ∷ ys, m)
prune valid (some c ∷ xs) n =
    let kept = prune valid xs n in
    let dropped = prune valid xs (decrement n) in
    if valid c then (some c ∷ kept.0, kept.1) else (none ∷ dropped.0, dropped.1)

unfoldable pub prune_invalid : (ℕ → Bool) → TcpConnectionRegistry → TcpConnectionRegistry
prune_invalid valid r =
    let (xs, n) = prune valid r.connections r.count in record { connections = xs; count = n }

-- `for_each` with a callback that does not call the registry.
unfoldable pub for_each : {W : Type 0} → (ℕ → W → Bool) → (ℕ → W → W) → List (Option ℕ) → W → W
for_each valid callback [] w = w
for_each valid callback (none ∷ xs) w = for_each valid callback xs w
for_each valid callback (some c ∷ xs) w =
    for_each valid callback xs (if valid c w then callback c w else w)
