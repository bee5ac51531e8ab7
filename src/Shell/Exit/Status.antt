-- ===== src/Shell/Exit/Status.antt =====
-- src/exit.c: when the shell is told to exit, and with which status.
use jsh_tyy.Base.{
  ◌==◌, ltb, ◌≡◌, refl, Bool, true, false, ◌||◌, if◌then◌else◌, ℤ, pos, negsuc, is_negative,
  exceeds, ◌≤◌, arith,
}
use jsh_tyy.System.{Os}
use jsh_tyy.Text.Number.{Parsed, parsed, refused, parse_intmax_t}
use jsh_tyy.Command.{CommandCall, argc, arg}
use jsh_tyy.Jobs.Table.{are_jobs_running}
use jsh_tyy.Shell.{Shell}
use jsh_tyy.Shell.Exit.{exit_with, exit_command, complain, updated}

-- 0 to 255.
abbrev pub IsStatus : ℤ → Type 0
IsStatus (pos n) = n ≤ 255
IsStatus (negsuc n) = ⊥

-- If the shell is told to exit then no job is running, and the status of `exit` is the one that the
-- shell returns.
abbrev Exits : {W : Type 0} → Bool → ℤ × Shell W → Type 0
Exits running (code, sh) =
    sh.should_exit ≡ true
    → (running ≡ false) × ((code ≡ sh.last_exit_code) × IsStatus sh.last_exit_code)

IsStatus-within : (z : ℤ) → (is_negative z || exceeds z 255) ≡ false → IsStatus z
IsStatus-within (pos n) h = ground arith
IsStatus-within (negsuc n) h = cc

module _ {W : Type 0} (os : Os W) where
  Exits-if :
      (b running : Bool) (x y : ℤ × Shell W)
      → (b ≡ true → Exits running x)
      → (b ≡ false → Exits running y)
      → Exits running (if b then x else y)
  Exits-if true running x y hx hy = hx refl
  Exits-if false running x y hx hy = hy refl

  exit_with-Exits :
      (p : Parsed) (sh : Shell W) (call : CommandCall) (running : Bool)
      → running ≡ false
      → sh.should_exit ≡ false
      → Exits running (exit_with os p sh call)
  unfolding exit_with complain
  exit_with-Exits (refused text) sh call running h stays = λ e. absurd (cc)
  exit_with-Exits (parsed value) sh call running h stays =
      Exits-if (is_negative value || exceeds value 255) running _ _ (λ b e. absurd (cc))
        (λ b e. (h, (refl, IsStatus-within value b)))

  -- A shell whose last status is between 0 and 255 and which has not been told to exit is told so by
  -- `exit` only if no job is running after the update of the jobs; then the status that the command
  -- returns is the one that the shell exits with, and it is between 0 and 255.
  pub exit_command-should_exit :
      (sh : Shell W) (call : CommandCall)
      → sh.should_exit ≡ false
      → IsStatus sh.last_exit_code
      → (exit_command os sh call).1.should_exit ≡ true
      → (are_jobs_running (updated os sh).jobs.slots ≡ false)
        × (((exit_command os sh call).0 ≡ (exit_command os sh call).1.last_exit_code)
            × IsStatus (exit_command os sh call).1.last_exit_code)
  unfolding exit_command complain updated
  exit_command-should_exit sh call stays status =
      let running = are_jobs_running (updated os sh).jobs.slots in
      Exits-if (ltb 2 (argc call)) running _ _ (λ b e. absurd (cc))
        (λ many.
          Exits-if running running _ _ (λ b e. absurd (cc))
            (λ idle.
              Exits-if (argc call == 1) running _ _ (λ b e. (idle, (refl, status)))
                (λ more.
                  Exits-if (argc call == 2) running _ _
                    (λ b.
                      exit_with-Exits (parse_intmax_t (arg call.argv 1)) (updated os sh) call
                        running idle stays)
                    (λ b e. absurd (cc)))))
