-- ===== src/LinuxTcp/Transfer/Queue.antt =====
-- The input of LinuxTcpConnection, async_event_loop_linux/linux_tcp_server.hpp, as a queue of bytes.
use pypilot_event_loop.Prelude.{
  ℕ, ◌≤◌, ◌<◌, ◌≡◌, refl, sym, ap, ◌∙◌, subst, Bool, true, false, Option, none, some, List, [], ◌∷◌,
  ◌++◌, length, length-take, take, drop, ltb, ltb→ge, branch, ◌==◌, if◌then◌else◌, arith,
}
use pypilot_event_loop.LinuxTcp.Transfer.{
  Bufferevents, exactly, input_size, read, peek, read_exact, trim_line, line_read, read_line,
}
use pypilot_event_loop.Wifi.Lines.{cut_line, HasNo}

-- What the code relies on of an evbuffer that is not frozen: it holds bytes in their order.
pub record IsQueue {B : Type 0} (api : Bufferevents B) : Type 0 where
  pub contents : B → List ℕ
  pub counts : (b : B) → api.input_length b ≡ length (contents b)
  pub copies : (n : ℕ) (b : B) → api.copyout n b ≡ some (take n (contents b))
  pub removes : (n : ℕ) (b : B) → (api.remove n b).0 ≡ some (take n (contents b))
  pub leaves : (n : ℕ) (b : B) → contents (api.remove n b).1 ≡ drop n (contents b)
  pub reads_line :
      (b : B) (line rest : List ℕ)
      → contents b ≡ line ++ b'\n' ∷ rest
      → HasNo b'\n' line
      → ((api.readln b).0 ≡ some line) × (contents (api.readln b).1 ≡ rest)
  pub no_line : (b : B) → HasNo b'\n' (contents b) → api.readln b ≡ (none, b)

-- The first `len` bytes, all or none, and what is left then.
abbrev pub all_or_none : ℕ → List ℕ → Option (List ℕ)
all_or_none len bytes = if ltb (length bytes) len then none else some (take len bytes)

abbrev pub left : ℕ → List ℕ → List ℕ
left len bytes = if ltb (length bytes) len then bytes else drop len bytes

module _ {B : Type 0} (api : Bufferevents B) (q : IsQueue api) where
  -- The contents, none on a closed connection.
  abbrev pub input : Option B → List ℕ
  input none = []
  input (some b) = q.contents b

  exactly-take :
      (len : ℕ) (bytes : List ℕ)
      → len ≤ length bytes
      → exactly len (some (take len bytes)) ≡ some (take len bytes)
  exactly-take len bytes h =
      let e : (length (take len bytes) == len) ≡ true =
        ap (λ k. k == len) (length-take len bytes) ∙ ground arith in
      ap (λ b. if b then some (take len bytes) else none) e

  whole_at :
      (len : ℕ) (b : B) (short : Bool)
      → (short ≡ false → len ≤ length (q.contents b))
      → let bytes = q.contents b in
        let taken : Option (List ℕ) × Option B =
          if short
          then (none, some b)
          else (exactly len (api.remove len b).0, some (api.remove len b).1) in
        let result = if short then none else some (take len bytes) in
        ((if short then none else exactly len (api.copyout len b)) ≡ result)
        × (taken.0 ≡ result)
        × (input taken.1 ≡ (if short then bytes else drop len bytes))
  whole_at len b true h = (refl, refl, refl)
  whole_at len b false h =
      let e = exactly-take len (q.contents b) (h refl) in
      (
        ap (exactly len) (q.copies len b) ∙ e,
        ap (exactly len) (q.removes len b) ∙ e,
        q.leaves len b,
      )

  -- On an open connection `read` gives the first bytes, at most `max_len`, and leaves the others;
  -- `peek` gives the first `len` bytes, and `read_exact` the same and takes them, if there are as
  -- many, and both fail and leave all bytes otherwise.
  pub read-take :
      (len max_len : ℕ) (b : B)
      → let bytes = q.contents b in
        ((read api max_len (some b)).0 ≡ some (take max_len bytes))
        × (input (read api max_len (some b)).1 ≡ drop max_len bytes)
        × (peek api len (some b) ≡ all_or_none len bytes)
        × ((read_exact api len (some b)).0 ≡ all_or_none len bytes)
        × (input (read_exact api len (some b)).1 ≡ left len bytes)
  unfolding read peek read_exact input_size
  read-take len max_len b =
      let bytes = q.contents b in
      let (got, b') = api.remove len b in
      let Found : (Option (List ℕ) × Option B) → Type 0 =
        λ r. (r.0 ≡ some (take max_len bytes)) × (input r.1 ≡ drop max_len bytes) in
      let Whole : ℕ → Type 0 = λ n.
        let short = ltb n len in
        let taken : Option (List ℕ) × Option B =
          if short then (none, some b) else (exactly len got, some b') in
        ((if short then none else exactly len (api.copyout len b)) ≡ all_or_none len bytes)
        × (taken.0 ≡ all_or_none len bytes)
        × (input taken.1 ≡ left len bytes) in
      let found =
        branch Found (max_len == 0) (some [], some b) _
          (λ e.
            subst (λ m. (some [] ≡ some (take m bytes)) × (bytes ≡ drop m bytes))
              (sym (let z : max_len ≡ 0 = ground arith in z)) (refl, refl))
          (λ _. (q.removes max_len b, q.leaves max_len b)) in
      let whole : Whole (length bytes) =
        whole_at len b (ltb (length bytes) len) (λ e. ltb→ge (length bytes) len e) in
      let (peeked, taken, rest) = subst Whole (sym (q.counts b)) whole in
      (found.0, found.1, peeked, taken, rest)

  -- On a connection whose input holds a whole line `read_line` gives it, without its CR where the
  -- call asks for that, cut to the caller's array, and leaves what is behind the line feed; on one
  -- without a line feed it fails and leaves the input.
  pub read_line-trim :
      (max_len : ℕ) (strip_cr : Bool) (b : B) (line rest : List ℕ)
      → 0 < max_len
      → q.contents b ≡ line ++ b'\n' ∷ rest
      → HasNo b'\n' line
      → ((read_line api max_len strip_cr (some b)).0 ≡ some (cut_line max_len strip_cr line))
        × (input (read_line api max_len strip_cr (some b)).1 ≡ rest)
  unfolding read_line trim_line
  read_line-trim max_len strip_cr b line rest pos i clean =
      let (given, kept) = q.reads_line b line rest i clean in
      let pos' : (max_len == 0) ≡ false = ground arith in
      let Cut : (Option (List ℕ) × Option B) → Type 0 =
        λ r. (r.0 ≡ some (cut_line max_len strip_cr line)) × (input r.1 ≡ rest) in
      let cut : Cut (line_read api max_len strip_cr (api.readln b)) =
        subst (λ o. Cut (line_read api max_len strip_cr (o, (api.readln b).1))) (sym given)
          (refl, kept) in
      subst (λ t. Cut (if t then (none, some b) else line_read api max_len strip_cr (api.readln b)))
        (sym pos') cut
