-- ===== src/Task.antt =====
-- CallbackTask of async_event_loop/scheduler.hpp: one callable in place, with deferred destruction.
pub mod Lifecycle
mod Tests
use pypilot_event_loop.Prelude.{
  Bool, true, false, ◌&&◌, ◌||◌, Option, none, some, List, [], ◌∷◌, if◌then◌else◌,
}

-- `callable` is the object in `storage_` while `invoke_` and `destroy_` point to it; both are set
-- and cleared together. `destroyed` lists the destructor calls, latest first.
pub record CallbackTask {ℓ} (C : Type ℓ) : Type ℓ where
  pub callable : Option C
  pub active : Bool
  pub enabled : Bool
  pub invoking : Bool
  pub clear_requested : Bool
  pub destroyed : List C

module _ {ℓ} {C : Type ℓ} where
  abbrev pub fresh : CallbackTask C
  fresh = record {
    callable = none;
    active = false;
    enabled = false;
    invoking = false;
    clear_requested = false;
    destroyed = [];
  }

  abbrev destructor : Bool → Option C → List C → List C
  destructor false stored log = log
  destructor true none log = log
  destructor true (some c) log = c ∷ log

  unfoldable pub destroy_now : CallbackTask C → CallbackTask C
  destroy_now t = record t {
    destroyed = destructor (t.active || t.clear_requested) t.callable t.destroyed;
    active = false;
    enabled = false;
    clear_requested = false;
    callable = none;
  }

  unfoldable pub clear : CallbackTask C → CallbackTask C
  unfolding destroy_now
  clear t =
      if t.invoking
      then record t { active = false; enabled = false; clear_requested = true }
      else destroy_now t

  abbrev pub store : CallbackTask C → C → CallbackTask C
  store t c = record t { callable = some c; active = true; enabled = true; clear_requested = false }

  -- `set`, with its result.
  unfoldable pub set : CallbackTask C → C → Bool × CallbackTask C
  unfolding clear
  set t c = let t' = clear t in if t'.invoking then (false, t') else (true, store t' c)

  unfoldable pub set_enabled : CallbackTask C → Bool → CallbackTask C
  set_enabled t enabled = if t.active then record t { enabled = enabled } else t

  -- `poll` up to the call of the callable: what is called, if anything.
  unfoldable pub begin_poll : CallbackTask C → Option (C × CallbackTask C)
  begin_poll t = elim t.callable [
    | none ↦ none
    | some c ↦ if t.active && t.enabled then some (c, record t { invoking = true }) else none
  ]

  -- `poll` from the return of the callable on.
  unfoldable pub end_poll : CallbackTask C → CallbackTask C
  unfolding destroy_now
  end_poll t =
      let t' = record t { invoking = false } in if t'.clear_requested then destroy_now t' else t'

  -- `poll`: the callable's body may act on its own task.
  unfoldable pub poll : (C → CallbackTask C → CallbackTask C) → CallbackTask C → CallbackTask C
  unfolding begin_poll end_poll
  poll body t = elim (begin_poll t) [ none ↦ t | some (c, t') ↦ end_poll (body c t') ]

-- What a program may ask of a task, also from inside its callable.
pub data Request {ℓ} (C : Type ℓ) : Type ℓ where
  sets : C → Request C
  enables : Bool → Request C
  clears : Request C

module _ {ℓ} {C : Type ℓ} where
  pub request : CallbackTask C → Request C → CallbackTask C
  unfolding set set_enabled clear
  request t (sets c) = (set t c).1
  request t (enables b) = set_enabled t b
  request t clears = clear t

  pub requests : CallbackTask C → List (Request C) → CallbackTask C
  requests t [] = t
  requests t (q ∷ qs) = requests (request t q) qs
