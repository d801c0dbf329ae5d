-- ===== src/Task/Lifecycle.antt =====
-- The life of a callable: stored once, destroyed once, and never while it runs.
use pypilot_event_loop.Prelude.{
  ◌≡◌, Bool, true, false, ◌||◌, Option, none, some, List, [], ◌∷◌, arith, if◌then◌else◌,
}
use pypilot_event_loop.Task.{
  CallbackTask, Request, sets, enables, clears, begin_poll, end_poll, poll, request, requests,
}

abbrev pub is_stored {ℓ} : {C : Type ℓ} → Option C → Bool
is_stored none = false
is_stored (some c) = true

pub record IsValid {ℓ} {C : Type ℓ} (t : CallbackTask C) : Type 0 where
  pub stored : is_stored t.callable ≡ (t.active || t.clear_requested)
  pub runs_stored : t.invoking ≡ true → is_stored t.callable ≡ true
  pub enabled_active : t.enabled ≡ true → t.active ≡ true
  pub deferred : t.clear_requested ≡ true → (t.invoking ≡ true) × (t.active ≡ false)

-- `true` for a request that gives up the present callable.
abbrev pub gives_up {ℓ} : {C : Type ℓ} → Request C → Bool
gives_up (sets c) = true
gives_up (enables b) = false
gives_up clears = true

abbrev pub any_gives_up {ℓ} : {C : Type ℓ} → List (Request C) → Bool
any_gives_up [] = false
any_gives_up (q ∷ qs) = gives_up q || any_gives_up qs

module _ {ℓ} {C : Type ℓ} where
  -- Each request keeps the invariant, inside a callback or outside.
  pub request-IsValid : (t : CallbackTask C) (q : Request C) → IsValid t → IsValid (request t q)
  unfolding request
  request-IsValid t (sets c) v = ground arith
  request-IsValid t (enables b) v = ground arith
  request-IsValid t clears v = ground arith

  pub requests-IsValid :
      (t : CallbackTask C) (qs : List (Request C)) → IsValid t → IsValid (requests t qs)
  unfolding requests
  requests-IsValid t [] v = v
  requests-IsValid t (q ∷ qs) v = requests-IsValid (request t q) qs (request-IsValid t q v)

  -- A running callable: still stored, nothing destroyed, cleared exactly if it was given up.
  pub record Runs (c : C) (log : List C) (given_up : Bool) (t : CallbackTask C) : Type ℓ where
    pub holds : t.callable ≡ some c
    pub kept : t.destroyed ≡ log
    pub running : t.invoking ≡ true
    pub live : t.active ≡ (if given_up then false else true)
    pub asked : t.clear_requested ≡ given_up

  request-Runs :
      (c : C) (log : List C) (g : Bool) (t : CallbackTask C) (q : Request C)
      → Runs c log g t
      → Runs c log (g || gives_up q) (request t q)
  unfolding request
  request-Runs c log g t (sets d) r = ground arith
  request-Runs c log g t (enables b) r = ground arith
  request-Runs c log g t clears r = ground arith

  requests-Runs :
      (c : C) (log : List C) (g : Bool) (t : CallbackTask C) (qs : List (Request C))
      → Runs c log g t
      → Runs c log (g || any_gives_up qs) (requests t qs)
  unfolding requests
  requests-Runs c log g t [] r = ground (arith, r)
  requests-Runs c log g t (q ∷ qs) r =
      ground
        (arith, requests-Runs c log (g || gives_up q) (request t q) qs (request-Runs c log g t q r))

  -- What a poll leaves of the callable `c` and of the log.
  abbrev pub After : C → List C → Bool → CallbackTask C → Type ℓ
  After c log true t = (t.callable ≡ none) × (t.active ≡ false) × (t.destroyed ≡ c ∷ log)
  After c log false t = (t.callable ≡ some c) × (t.active ≡ true) × (t.destroyed ≡ log)

  pub end_poll-After :
      (c : C) (log : List C) (g : Bool) (t : CallbackTask C)
      → Runs c log g t
      → After c log g (end_poll t)
  unfolding end_poll
  end_poll-After c log true t r = ground arith
  end_poll-After c log false t r = ground arith

  -- A poll of a valid, active and enabled task calls its callable `c`, whose body may make any
  -- requests of its own task: at each point of the body `c` is still stored and not destroyed, and
  -- when the body has returned `c` has been destroyed once, and the task is inactive, exactly if one
  -- of the requests gave it up; otherwise it stays stored and active.
  pub poll_defers :
      (t : CallbackTask C) (c : C) (before after : List (Request C))
      → IsValid t
      → t.callable ≡ some c
      → t.active ≡ true
      → t.enabled ≡ true
      → let running = record t { invoking = true } in
        ((requests running before).callable ≡ some c)
        × ((requests running before).destroyed ≡ t.destroyed)
        × After c t.destroyed
            (any_gives_up before || any_gives_up after)
            (poll (λ _ u. requests (requests u before) after) t)
  unfolding poll begin_poll
  poll_defers t c before after v s a e = (mid.holds, mid.kept, ground (arith, s, a, e, done))
    where
      start : Runs c t.destroyed false (record t { invoking = true })
      start = ground (arith, v.deferred)

      mid :
          Runs c t.destroyed (any_gives_up before) (requests (record t { invoking = true }) before)
      mid = requests-Runs c t.destroyed false _ before start

      done :
          After c t.destroyed
            (any_gives_up before || any_gives_up after)
            (end_poll (requests (requests (record t { invoking = true }) before) after))
      done = end_poll-After c t.destroyed _ _ (requests-Runs c t.destroyed _ _ after mid)
