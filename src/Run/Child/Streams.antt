-- ===== src/Run/Child/Streams.antt =====
-- src/internals.c: the descriptors with which a child runs its program.
use jsh_tyy.Base.{
  ℕ, ◌≡◌, refl, ◌≤◌, ◌∙◌, Bool, true, false, ◌||◌, Option, none, some, if◌then◌else◌, ◌==ℤ◌, ℤ, pos,
  negsuc, exceeds, arith,
}
use jsh_tyy.System.{Os, Exec}
use jsh_tyy.System.Streams.{Streams}
use jsh_tyy.FdSet.{contains}
use jsh_tyy.Command.{CommandCall, Command}
use jsh_tyy.Run.Child.{
  Child, child_exits, child_runs, close_reading_pipes, close_writing_pipes, signals_to_ignore,
  set_signal_actions, executed, restored, in_front, sent, grouped, received, run_child, give_up,
}
use jsh_tyy.Run.Child.Closed.{Saw, Saw-keep, Saw-close, Saw-close_all, set_signal_actions-keeps}

module _ {W : Type 0} (os : Os W) (exec : Exec W) (kernel : Streams os exec) (start : W) where
  -- The descriptors that a child of the shell closes: those of the two pipes that it shares with the
  -- shell, and the ends of the pipes of the command that its call does not use.
  abbrev pub child_closes : Command → CommandCall → ℤ × ℤ → ℤ × ℤ → ℤ → Bool
  child_closes c call (reading, writing) (reading', writing') fd =
      contains (close_writing_pipes c call) fd
      || (contains (close_reading_pipes c call) fd
          || ((writing' ==ℤ fd)
              || ((reading ==ℤ fd) || ((reading' ==ℤ fd) || ((writing ==ℤ fd) || false)))))

  -- A child that runs its program has the files `a`, `b` and `c` as its streams, and `x` is closed.
  abbrev pub RunsOn : ℕ → ℕ → ℕ → ℤ → CommandCall → Child W → Type 0
  RunsOn a b c x call (child_exits code w) = Unit
  RunsOn a b c x call (child_runs call' w) =
      (call' ≡ call)
      × ((kernel.target w (pos 0) ≡ some a)
          × ((kernel.target w (pos 1) ≡ some b)
              × ((kernel.target w (pos 2) ≡ some c) × (kernel.target w x ≡ none))))

  -- The streams of the call refer to these files at the start and are not among the closed ones, `x`
  -- is one of them above 2, and `dup2` overwrites no stream that is still to be copied.
  pub record IsReady (a b c : ℕ) (x : ℤ) (call : CommandCall) (closes : ℤ → Bool) : Type 0 where
    pub in_file : kernel.target start call.stdin ≡ some a
    pub out_file : kernel.target start call.stdout ≡ some b
    pub err_file : kernel.target start call.stderr ≡ some c
    pub in_kept : closes call.stdin ≡ false
    pub out_kept : closes call.stdout ≡ false
    pub err_kept : closes call.stderr ≡ false
    pub out_apart : (pos 0 ==ℤ call.stdout) ≡ false
    pub err_apart : (pos 0 ==ℤ call.stderr) ≡ false
    pub err_apart' : (pos 1 ==ℤ call.stderr) ≡ false
    pub x_closed : closes x ≡ true
    pub x_above : exceeds x 2 ≡ true

  executed-RunsOn :
      (a b c : ℕ) (x : ℤ) (call : CommandCall) (r : Bool × W)
      → RunsOn a b c x call (child_runs call r.1)
      → RunsOn a b c x call (executed os exec call r)
  unfolding executed
  executed-RunsOn a b c x call (true, w) h = h
  executed-RunsOn a b c x call (false, w) h = tt

  restored-RunsOn :
      (a b c : ℕ) (x : ℤ) (call : CommandCall) (closes : ℤ → Bool) (r : Bool × W)
      → IsReady a b c x call closes
      → Saw os exec kernel start closes r.1
      → RunsOn a b c x call (restored os exec call r)
  unfolding restored give_up
  restored-RunsOn a b c x call closes (false, w) h saw = tt
  restored-RunsOn a b c x call closes (true, w) h saw =
      let w₀ = exec.dup2 call.stdin (pos 0) w in
      let w₁ = exec.dup2 call.stdout (pos 1) w₀ in
      let w₂ = exec.dup2 call.stderr (pos 2) w₁ in
      let in_now = saw call.stdin ∙ rw (h.in_kept) h.in_file in
      let out_now = saw call.stdout ∙ rw (h.out_kept) h.out_file in
      let err_now = saw call.stderr ∙ rw (h.err_kept) h.err_file in
      let in₀ = kernel.dup2_same call.stdin (pos 0) w a in_now in
      let out₀ = kernel.dup2_other call.stdin (pos 0) call.stdout w h.out_apart ∙ out_now in
      let err₀ = kernel.dup2_other call.stdin (pos 0) call.stderr w h.err_apart ∙ err_now in
      let in₁ = kernel.dup2_other call.stdout (pos 1) (pos 0) w₀ refl ∙ in₀ in
      let out₁ = kernel.dup2_same call.stdout (pos 1) w₀ b out₀ in
      let err₁ = kernel.dup2_other call.stdout (pos 1) call.stderr w₀ h.err_apart' ∙ err₀ in
      let in₂ = kernel.dup2_other call.stderr (pos 2) (pos 0) w₁ refl ∙ in₁ in
      let out₂ = kernel.dup2_other call.stderr (pos 2) (pos 1) w₁ refl ∙ out₁ in
      let err₂ = kernel.dup2_same call.stderr (pos 2) w₁ c err₁ in
      let gone₂ =
        kernel.dup2_other call.stderr (pos 2) x w₁ (above x 2 h.x_above (omega arith))
        ∙ (kernel.dup2_other call.stdout (pos 1) x w₀ (above x 1 h.x_above (omega arith))
            ∙ (kernel.dup2_other call.stdin (pos 0) x w (above x 0 h.x_above (omega arith))
                ∙ (saw x ∙ rw (h.x_closed) refl))) in
      let keeps = λ (fd : ℤ). kernel.execvp_keeps call.name call.argv fd w₂ in
      executed-RunsOn a b c x call (exec.execvp call.name call.argv w₂) (
        refl,
        (keeps (pos 0) ∙ in₂, (keeps (pos 1) ∙ out₂, (keeps (pos 2) ∙ err₂, keeps x ∙ gone₂))),
      )
    where
      above : (x : ℤ) (n : ℕ) → exceeds x 2 ≡ true → n ≤ 2 → (pos n ==ℤ x) ≡ false
      above (pos m) n e le = ground arith
      above (negsuc m) n e le = cc

  in_front-RunsOn :
      (a b c : ℕ) (x : ℤ) (call : CommandCall) (closes : ℤ → Bool) (r : Bool × W)
      → IsReady a b c x call closes
      → Saw os exec kernel start closes r.1
      → RunsOn a b c x call (in_front os exec call r)
  unfolding in_front give_up
  in_front-RunsOn a b c x call closes (false, w) h saw = tt
  in_front-RunsOn a b c x call closes (true, w) h saw =
      restored-RunsOn a b c x call closes (set_signal_actions os exec true signals_to_ignore w) h (
        Saw-keep os exec kernel start closes w _
          (set_signal_actions-keeps os exec kernel start true signals_to_ignore w) saw)

  -- The terminal is taken or not.
  terminal-Saw :
      (closes : ℤ → Bool) (background : Bool) (pgid : ℤ) (w : W)
      → Saw os exec kernel start closes w
      → Saw os exec kernel start closes (if background then (true, w) else os.tcsetpgrp pgid w).1
  terminal-Saw closes true pgid w saw = saw
  terminal-Saw closes false pgid w saw =
      Saw-keep os exec kernel start closes w _ (λ fd. kernel.tcsetpgrp_keeps pgid fd w) saw

  module _ (a b c : ℕ) (x : ℤ) (command : Command) (call : CommandCall)
      (reading writing reading' writing' : ℤ)
      (ready : IsReady a b c x call
        (child_closes command call (reading, writing) (reading', writing'))) where
    sent-RunsOn :
        (pgid : ℤ) (r : Bool × W)
        → Saw os exec kernel start
            (λ fd. (reading ==ℤ fd) || ((reading' ==ℤ fd) || ((writing ==ℤ fd) || false)))
            r.1
        → RunsOn a b c x call (sent os exec command call pgid writing' r)
    unfolding sent give_up
    sent-RunsOn pgid (false, w) saw = tt
    sent-RunsOn pgid (true, w) saw =
        let closed = Saw-close_all os exec kernel start _ (close_writing_pipes command call) _ (
          Saw-close_all os exec kernel start _ (close_reading_pipes command call) _
            (Saw-close os exec kernel start _ writing' w saw)) in
        in_front-RunsOn a b c x call _ _ ready (terminal-Saw _ command.background pgid _ closed)

    grouped-RunsOn :
        (pgid : ℤ) (r : Bool × W)
        → Saw os exec kernel start
            (λ fd. (reading ==ℤ fd) || ((reading' ==ℤ fd) || ((writing ==ℤ fd) || false)))
            r.1
        → RunsOn a b c x call (grouped os exec command call pgid writing' r)
    unfolding grouped give_up
    grouped-RunsOn pgid (false, w) saw = tt
    grouped-RunsOn pgid (true, w) saw =
        sent-RunsOn pgid (exec.send_pgid writing' pgid w)
          (Saw-keep os exec kernel start _ w _ (λ fd. kernel.send_keeps writing' pgid fd w) saw)

    received-RunsOn :
        (r : Option ℤ × W)
        → Saw os exec kernel start (λ fd. (reading' ==ℤ fd) || ((writing ==ℤ fd) || false)) r.1
        → RunsOn a b c x call (received os exec command call reading writing' r)
    unfolding received give_up
    received-RunsOn (none, w) saw = tt
    received-RunsOn (some pgid, w) saw =
        grouped-RunsOn pgid (exec.setpgid pgid (os.close reading w)) (
          Saw-keep os exec kernel start _ (os.close reading w) _
            (λ fd. kernel.setpgid_keeps pgid fd (os.close reading w))
            (Saw-close os exec kernel start _ reading w saw))

    -- A child either exits or runs the program of its call, with the files of the call as its three
    -- streams. Then it has closed the two pipes that it shares with the shell, and the ends of the
    -- pipes of the command that its call does not use, those of them that are above 2. The streams of
    -- the call are files that are open at the start, and none of what the child closes; its output is
    -- not the descriptor 0, and its errors are neither 0 nor 1.
    pub run_child-RunsOn :
        RunsOn a b c x call
          (run_child os exec command call (reading, writing) (reading', writing') start)
    unfolding run_child
    run_child-RunsOn =
        let opened : Saw os exec kernel start (λ fd. false) start = λ fd. refl in
        let w = os.close reading' (os.close writing start) in
        received-RunsOn (exec.receive_pgid reading w) (
          Saw-keep os exec kernel start _ w _ (λ fd. kernel.receive_keeps reading fd w)
            (Saw-close os exec kernel start _ reading' _
              (Saw-close os exec kernel start _ writing start opened)))
