-- ===== src/Run/Child.antt =====
-- src/internals.c and src/signals.c: what a child does between `fork` and `exec`.
pub mod Closed
pub mod Streams
use jsh_tyy.Base.{
  ℕ, suc, ◌+◌, ◌==◌, ◌≡◌, refl, sym, ap, ◌∙◌, Bool, true, false, Bytes, codes, List, [], ◌∷◌, ◌++◌,
  Option, none, some, if◌then◌else◌, ◌==ℤ◌, ==ℤ_iff, ℤ, pos, get_elem?, arith, Bool-cases, inl, inr,
}
use jsh_tyy.System.{Os, report_error, Exec}
use jsh_tyy.FdSet.{contains}
use jsh_tyy.Command.{CommandCall, Command}
use jsh_tyy.Parse.{close_all}

-- `contains` on the indices of pipes.
abbrev pub has_index : List ℕ → ℕ → Bool
has_index [] i = false
has_index (k ∷ ks) i = if k == i then true else has_index ks i

-- The ends of the pipes from `i` on that are not those of the call.
closed_ends : (ℤ × ℤ → ℤ) → ℕ → List ℕ → List (ℤ × ℤ) → List ℤ
closed_ends end_of i own [] = []
closed_ends end_of i own (pipe ∷ pipes) =
    let rest = closed_ends end_of (i + 1) own pipes in
    if has_index own i then rest else end_of pipe ∷ rest

-- The descriptors that `close_reading_pipes` and `close_writing_pipes` close, in order.
unfoldable pub close_reading_pipes : Command → CommandCall → List ℤ
unfolding closed_ends
close_reading_pipes c call = closed_ends (λ p. p.0) 0 call.reading_pipes c.open_pipes

unfoldable pub close_writing_pipes : Command → CommandCall → List ℤ
unfolding closed_ends
close_writing_pipes c call = closed_ends (λ p. p.1) 0 call.writing_pipes c.open_pipes

-- SIGINT, SIGTERM, SIGTTIN, SIGQUIT, SIGTTOU and SIGTSTP.
abbrev pub signals_to_ignore : List ℤ
signals_to_ignore = pos 2 ∷ pos 15 ∷ pos 21 ∷ pos 3 ∷ pos 22 ∷ pos 20 ∷ []

-- How a child ends up: it exits, or it runs a program.
pub data Child (W : Type 0) : Type 0 where
  child_exits : ℤ → W → Child W
  child_runs : CommandCall → W → Child W

module _ {W : Type 0} (os : Os W) (exec : Exec W) where
  -- `perror`, and `exit(1)`.
  give_up : Bytes → W → Child W
  give_up name w = child_exits (pos 1) (report_error os name w)

  set_next : (W → Bool × W) → Bool × W → Bool × W
  set_next next (false, w) = (false, w)
  set_next next (true, w) = next w

  -- Whether all the signals have been set; the caller exits where one has not.
  unfoldable pub set_signal_actions : Bool → List ℤ → W → Bool × W
  unfolding set_next
  set_signal_actions default [] w = (true, w)
  set_signal_actions default (sig ∷ sigs) w =
      set_next (set_signal_actions default sigs) (exec.sigaction default sig w)

  -- SIG_DFL for each of the signals.
  abbrev pub restore_signals : W → Bool × W
  restore_signals w = set_signal_actions true signals_to_ignore w

  executed : CommandCall → Bool × W → Child W
  executed call (true, w) = child_runs call w
  executed call (false, w) = child_exits (pos 1) (
      os.dprintf call.stderr
        (codes "jsh: " ++ (call.name ++ (codes ": " ++ (os.strerror w ++ codes "\n")))) w)

  restored : CommandCall → Bool × W → Child W
  unfolding executed give_up
  restored call (false, w) = give_up (codes "sigaction") w
  restored call (true, w) =
      let w' =
        exec.dup2 call.stderr (pos 2)
          (exec.dup2 call.stdout (pos 1) (exec.dup2 call.stdin (pos 0) w)) in
      executed call (exec.execvp call.name call.argv w')

  in_front : CommandCall → Bool × W → Child W
  unfolding restored
  in_front call (false, w) = give_up (codes "tcsetpgrp") w
  in_front call (true, w) = restored call (restore_signals w)

  sent : Command → CommandCall → ℤ → ℤ → Bool × W → Child W
  unfolding in_front
  sent c call pgid writing (false, w) = give_up (codes "write") w
  sent c call pgid writing (true, w) =
      let w' =
        close_all os (close_writing_pipes c call)
          (close_all os (close_reading_pipes c call) (os.close writing w)) in
      in_front call (if c.background then (true, w') else os.tcsetpgrp pgid w')

  grouped : Command → CommandCall → ℤ → ℤ → Bool × W → Child W
  unfolding sent
  grouped c call pgid writing (false, w) = give_up (codes "setpgid") w
  grouped c call pgid writing (true, w) = sent c call pgid writing (exec.send_pgid writing pgid w)

  received : Command → CommandCall → ℤ → ℤ → Option ℤ × W → Child W
  unfolding grouped
  received c call reading writing (none, w) = give_up (codes "read") w
  received c call reading writing (some pgid, w) =
      grouped c call pgid writing (exec.setpgid pgid (os.close reading w))

  -- The child's branch, with the two pipes that it shares with the shell.
  unfoldable pub run_child : Command → CommandCall → ℤ × ℤ → ℤ × ℤ → W → Child W
  unfolding received give_up
  run_child c call (reading, writing) (reading', writing') w =
      let w' = os.close reading' (os.close writing w) in
      received c call reading writing' (exec.receive_pgid reading w')

-- Pipe `k` from `i` on has the end `x` and is not one of the call's.
record Foreign (end_of : ℤ × ℤ → ℤ) (i : ℕ) (own : List ℕ) (pipes : List (ℤ × ℤ)) (x : ℤ)
    : Type 0 where
  index : ℕ
  pipe : ℤ × ℤ
  is_there : get_elem? pipes index ≡ some pipe
  is_end : end_of pipe ≡ x
  is_foreign : has_index own (i + index) ≡ false

later :
    (end_of : ℤ × ℤ → ℤ) (i : ℕ) (own : List ℕ) (p : ℤ × ℤ) (pipes : List (ℤ × ℤ)) (x : ℤ)
    → Foreign end_of (i + 1) own pipes x
    → Foreign end_of i own (p ∷ pipes) x
later end_of i own p pipes x f =
    let shift : i + 1 + f.index ≡ i + suc f.index = omega arith in
    record {
      index = suc f.index;
      pipe = f.pipe;
      is_there = f.is_there;
      is_end = f.is_end;
      is_foreign = ap (has_index own) (sym shift) ∙ f.is_foreign;
    }

closed_ends-Foreign :
    (end_of : ℤ × ℤ → ℤ) (i : ℕ) (own : List ℕ) (pipes : List (ℤ × ℤ)) (x : ℤ)
    → contains (closed_ends end_of i own pipes) x ≡ true
    → Foreign end_of i own pipes x
unfolding closed_ends contains
closed_ends-Foreign end_of i own [] x h = cc
closed_ends-Foreign end_of i own (p ∷ pipes) x h = elim (Bool-cases (has_index own i)) [
  | inl mine ↦
      later end_of i own p pipes x (closed_ends-Foreign end_of (i + 1) own pipes x (rw mine at h))
  | inr foreign ↦ elim (Bool-cases (end_of p ==ℤ x)) [
    | inl same ↦
        let zeros : i + 0 ≡ i = omega arith in
        record {
          index = 0;
          pipe = p;
          is_there = refl;
          is_end = (==ℤ_iff (end_of p) x).0 same;
          is_foreign = ap (has_index own) zeros ∙ foreign;
        }
    | inr differs ↦
        later end_of i own p pipes x
          (closed_ends-Foreign end_of (i + 1) own pipes x (rw (foreign, differs) at h))
  ]
]

-- A descriptor that `close_reading_pipes` closes in the child is the read end of a pipe that the call
-- does not read from, so that the call keeps its own.
pub close_reading_pipes-foreign :
    (c : Command) (call : CommandCall) (x : ℤ)
    → contains (close_reading_pipes c call) x ≡ true
    → (k : ℕ) × ((w : ℤ) × ((get_elem? c.open_pipes k ≡ some (x, w))
          × (has_index call.reading_pipes k ≡ false)))
unfolding close_reading_pipes
close_reading_pipes-foreign c call x h =
    let f = closed_ends-Foreign (λ p. p.0) 0 call.reading_pipes c.open_pipes x h in
    let zeros : f.index ≡ 0 + f.index = omega arith in
    (
      f.index,
      (
        f.pipe.1,
        (
          f.is_there ∙ ap (λ r. some (r, f.pipe.1)) f.is_end,
          ap (has_index call.reading_pipes) zeros ∙ f.is_foreign,
        ),
      ),
    )
