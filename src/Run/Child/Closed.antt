-- ===== src/Run/Child/Closed.antt =====
-- src/internals.c: what the calls of a child leave of its descriptors.
use jsh_tyy.Base.{
  ◌≡◌, refl, ap, subst, ◌∙◌, Bool, true, false, ◌||◌, List, [], ◌∷◌, none, if◌then◌else◌, ◌==ℤ◌,
  ==ℤ_iff, ℤ, arith, Bool-cases, inl, inr,
}
use jsh_tyy.System.{Os, Exec}
use jsh_tyy.System.Streams.{Streams}
use jsh_tyy.FdSet.{contains}
use jsh_tyy.Parse.{close_all}
use jsh_tyy.Run.Child.{set_next, set_signal_actions}

module _ {W : Type 0} (os : Os W) (exec : Exec W) (kernel : Streams os exec) (start : W) where
  -- The descriptors of `b` are closed, and the others are as at the start.
  abbrev pub Saw : (ℤ → Bool) → W → Type 0
  Saw b w = (fd : ℤ) → kernel.target w fd ≡ (if b fd then none else kernel.target start fd)

  pub Saw-keep :
      (b : ℤ → Bool) (w w' : W)
      → ((fd : ℤ) → kernel.target w' fd ≡ kernel.target w fd)
      → Saw b w
      → Saw b w'
  Saw-keep b w w' keeps saw fd = keeps fd ∙ saw fd

  pub Saw-close :
      (b : ℤ → Bool) (x : ℤ) (w : W) → Saw b w → Saw (λ fd. (x ==ℤ fd) || b fd) (os.close x w)
  Saw-close b x w saw fd = elim (Bool-cases (x ==ℤ fd)) [
    | inl e ↦
        let same : x ≡ fd = ground (arith, ==ℤ_iff x fd) in
        rw e (subst (λ y. kernel.target (os.close x w) y ≡ none) same (kernel.close_same x w))
    | inr e ↦ rw e (kernel.close_other x fd w e ∙ saw fd)
  ]

  pub Saw-close_all :
      (b : ℤ → Bool) (xs : List ℤ) (w : W)
      → Saw b w
      → Saw (λ fd. contains xs fd || b fd) (close_all os xs w)
  unfolding close_all contains
  Saw-close_all b [] w saw fd = saw fd
  Saw-close_all b (x ∷ xs) w saw fd =
      Saw-close_all (λ y. (x ==ℤ y) || b y) xs (os.close x w) (Saw-close b x w saw) fd
      ∙ ap (λ k. if k then none else kernel.target start fd)
          (shifted (x ==ℤ fd) (contains xs fd) (b fd))
    where
      shifted : (p q r : Bool) → (q || (p || r)) ≡ ((if p then true else q) || r)
      shifted true true r = refl
      shifted true false r = refl
      shifted false q r = refl

  pub set_signal_actions-keeps :
      (default : Bool) (sigs : List ℤ) (w : W) (fd : ℤ)
      → kernel.target (set_signal_actions os exec default sigs w).1 fd ≡ kernel.target w fd
  unfolding set_signal_actions set_next
  set_signal_actions-keeps default [] w fd = refl
  set_signal_actions-keeps default (sig ∷ sigs) w fd =
      settle (λ w'. set_signal_actions-keeps default sigs w' fd) (exec.sigaction default sig w)
      ∙ kernel.sigaction_keeps default sig fd w
    where
      settle :
          ((w' : W)
            → kernel.target (set_signal_actions os exec default sigs w').1 fd ≡ kernel.target w' fd)
          → (r : Bool × W)
          → kernel.target (set_next os exec (set_signal_actions os exec default sigs) r).1 fd
            ≡ kernel.target r.1 fd
      settle rest (false, w') = refl
      settle rest (true, w') = rest w'
