-- ===== src/Parse/Build/Closing.antt =====
-- src/internals.c and src/command.c: which descriptors of a command are closed.
use jsh_tyy.Base.{
  ◌<◌, ◌≡◌, refl, subst, true, false, List, [], ◌∷◌, map, ℤ, pos, negsuc, ◌==ℤ◌, ==ℤ_iff,
  is_negative, exceeds, arith, Bool-cases, inl, inr,
}
use jsh_tyy.System.{Os}
use jsh_tyy.System.Descriptors.{Descriptors}
use jsh_tyy.FdSet.{contains, contains2, add_all}
use jsh_tyy.FdSet.Close.{count, count-add_all_three}
use jsh_tyy.Command.{CommandCall}
use jsh_tyy.Parse.{close_all}
use jsh_tyy.Parse.Build.{
  unused, close_unused_file_descriptors, close_unused_file_descriptors_helper, ends, close_pipes,
}

abbrev pub call_fds : CommandCall → List ℤ
call_fds call = call.stdin ∷ call.stdout ∷ call.stderr ∷ []

exceeds-is_negative : (x : ℤ) → exceeds x 2 ≡ true → is_negative x ≡ false
exceeds-is_negative (pos n) e = refl
exceeds-is_negative (negsuc n) e = cc

module _ {W : Type 0} (os : Os W) (kernel : Descriptors os) (fd : ℤ) where
  abbrev IsShut : W → Type 0
  IsShut w = kernel.is_open w fd ≡ false

  close_all-IsShut : (fds : List ℤ) (w : W) → IsShut w → IsShut (close_all os fds w)
  unfolding close_all
  close_all-IsShut [] w h = h
  close_all-IsShut (x ∷ fds) w h = close_all-IsShut fds (os.close x w) (kernel.shut-close x fd w h)

  close_all-count : (fds : List ℤ) (w : W) → 0 < count fd fds → IsShut (close_all os fds w)
  unfolding close_all
  close_all-count [] w h = absurd (omega arith)
  close_all-count (x ∷ fds) w h = elim (Bool-cases (x ==ℤ fd)) [
    | inl e ↦
        close_all-IsShut fds (os.close x w)
          (subst (λ y. kernel.is_open (os.close x w) y ≡ false) (same x e) (kernel.closed x w))
    | inr e ↦ close_all-count fds (os.close x w) (rw e at h)
  ]
    where
      same : (x : ℤ) → (x ==ℤ fd) ≡ true → x ≡ fd
      same x e = ground (arith, ==ℤ_iff x fd)

  unused-count :
      (pipes : List (List ℤ)) (fds : List ℤ)
      → exceeds fd 2 ≡ true
      → contains2 pipes fd ≡ false
      → count fd (unused os pipes fds) ≡ count fd fds
  unfolding unused
  unused-count pipes [] h k = refl
  unused-count pipes (x ∷ fds) h k = ground (arith, unused-count pipes fds h k, ==ℤ_iff x fd)

  pub close_unused-IsShut :
      (pipes : List (List ℤ)) (calls : List CommandCall) (w : W)
      → IsShut w
      → IsShut (close_unused_file_descriptors os pipes calls w)
  unfolding close_unused_file_descriptors close_unused_file_descriptors_helper
  close_unused-IsShut pipes [] w h = h
  close_unused-IsShut pipes (call ∷ calls) w h =
      close_unused-IsShut pipes calls _ (close_all-IsShut _ w h)

  helper-IsShut :
      (pipes : List (List ℤ)) (call : CommandCall) (w : W)
      → exceeds fd 2 ≡ true
      → contains2 pipes fd ≡ false
      → contains (call_fds call) fd ≡ true
      → IsShut (close_unused_file_descriptors_helper os pipes call w)
  unfolding close_unused_file_descriptors_helper
  helper-IsShut pipes call w h k e =
      let set = add_all (negsuc 0 ∷ negsuc 0 ∷ negsuc 0 ∷ []) (call_fds call) in
      let once =
        count-add_all_three call.stdin call.stdout call.stderr fd (exceeds-is_negative fd h) e in
      close_all-count (unused os pipes set) w (omega (arith, unused-count pipes set h k, once))

  -- The descriptors of the calls above 2 that are no ends of pipes are closed.
  pub close_unused-calls :
      (pipes : List (List ℤ)) (calls : List CommandCall) (w : W)
      → exceeds fd 2 ≡ true
      → contains2 pipes fd ≡ false
      → contains2 (map call_fds calls) fd ≡ true
      → IsShut (close_unused_file_descriptors os pipes calls w)
  unfolding close_unused_file_descriptors contains2
  close_unused-calls pipes [] w h k e = cc
  close_unused-calls pipes (call ∷ calls) w h k e =
      elim (Bool-cases (contains (call_fds call) fd)) [
        | inl here ↦ close_unused-IsShut pipes calls _ (helper-IsShut pipes call w h k here)
        | inr there ↦ close_unused-calls pipes calls _ h k (rw there at e)
      ]

  close_pipes-IsShut : (pipes : List (ℤ × ℤ)) (w : W) → IsShut w → IsShut (close_pipes os pipes w)
  unfolding close_pipes
  close_pipes-IsShut [] w h = h
  close_pipes-IsShut ((reading, writing) ∷ pipes) w h =
      close_pipes-IsShut pipes _ (kernel.shut-close writing fd _ (kernel.shut-close reading fd w h))

  closed-same : (x : ℤ) (w : W) → (x ==ℤ fd) ≡ true → IsShut (os.close x w)
  closed-same x w e =
      let same : x ≡ fd = ground (arith, ==ℤ_iff x fd) in
      subst (λ y. kernel.is_open (os.close x w) y ≡ false) same (kernel.closed x w)

  -- Both ends of every pipe are closed.
  pub close_pipes-ends :
      (pipes : List (ℤ × ℤ)) (w : W)
      → contains2 (ends os pipes) fd ≡ true
      → IsShut (close_pipes os pipes w)
  unfolding close_pipes ends contains2 contains
  close_pipes-ends [] w e = cc
  close_pipes-ends ((reading, writing) ∷ pipes) w e = elim (Bool-cases (reading ==ℤ fd)) [
    | inl first ↦
        close_pipes-IsShut pipes _ (kernel.shut-close writing fd _ (closed-same reading w first))
    | inr other ↦ elim (Bool-cases (writing ==ℤ fd)) [
      | inl second ↦ close_pipes-IsShut pipes _ (closed-same writing _ second)
      | inr neither ↦ close_pipes-ends pipes _ (rw (other, neither) at e)
    ]
  ]
