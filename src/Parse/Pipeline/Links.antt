-- ===== src/Parse/Pipeline/Links.antt =====
-- src/command.c: one more call is linked to the pipeline behind it.
use native.Mathlib.Nat.{zero-add, suc-add}
use jsh_tyy.Base.{
  ℕ, suc, ◌+◌, ◌==◌, ◌≡◌, refl, ap, Bool, true, false, ◌||◌, Bytes, List, [], ◌∷◌, ◌++◌, none, some,
  if◌then◌else◌, ℤ, negsuc, drop, length, arith,
}
use jsh_tyy.System.{Os}
use jsh_tyy.Command.{CommandCall}
use jsh_tyy.Parse.{
  Parser, Builder, new_command_call_builder, modify, add_pipe, add_call_at_the_end, linked,
}
use jsh_tyy.Parse.Call.{Answer, answer, done, linked_to, differs}
use jsh_tyy.Parse.Pipeline.{Laid, reads_from}

modify-end :
    (heap xs : List CommandCall) (c : CommandCall) (f : CommandCall → CommandCall)
    → modify (heap ++ (xs ++ c ∷ [])) (length heap + length xs) f ≡ heap ++ (xs ++ f c ∷ [])
modify-end [] [] c f = refl
modify-end [] (x ∷ xs) c f =
    rw zero-add (ap (λ l. x ∷ l) (rw (← zero-add (length xs)) (modify-end [] xs c f)))
modify-end (y ∷ heap) xs c f = rw suc-add (ap (λ l. y ∷ l) (modify-end heap xs c f))

-- The indices of the calls of a list that stands on the heap from `n` on.
abbrev pub positions : ℕ → List CommandCall → List ℕ
positions n [] = []
positions n (x ∷ xs) = n ∷ positions (n + 1) xs

pub positions-end :
    (n : ℕ) (xs : List CommandCall) (c : CommandCall)
    → positions n (xs ++ c ∷ []) ≡ positions n xs ++ (n + length xs) ∷ []
positions-end n [] c = let e : n + 0 ≡ n = omega arith in rw e
positions-end n (x ∷ xs) c =
    let e : n + 1 + length xs ≡ n + suc (length xs) = omega arith in
    rw (positions-end (n + 1) xs c, e)

module _ {W : Type 0} where
  -- The parser before a pipeline, and behind it; `last` is the last call, which is not added yet.
  abbrev pub entry : List CommandCall → W → Parser W
  entry heap w = record {
    world = w;
    heap = heap;
    last = none;
    last_substitution = none;
    calls = [];
    open_pipes = [];
  }

  abbrev pub reached_state : List CommandCall → Laid W → Parser W
  reached_state heap l = record {
    world = l.world;
    heap = heap ++ (l.others ++ l.first ∷ []);
    last = some (length heap);
    last_substitution = none;
    calls = drop 1 (positions (length heap) l.others);
    open_pipes = l.pipes;
  }

  abbrev pub reached : List CommandCall → Laid W → Answer W
  reached heap l = answer (some (length heap + length l.others)) (reached_state heap l)

pub same : (n : ℕ) → (n == n + 0) ≡ true
same n = ground arith

pub other : (n k : ℕ) → (n == n + suc k) ≡ false
other n k = ground arith

module _ {W : Type 0} (os : Os W) (parse : Parser W → Bytes → Bool → Bool → Answer W) where
  -- The parser with these calls of the command.
  abbrev pub at : ℕ → List ℕ → List CommandCall → List (ℤ × ℤ) → W → Parser W
  at n calls heap pipes w = record {
    world = w;
    heap = heap;
    last = some n;
    last_substitution = none;
    calls = calls;
    open_pipes = pipes;
  }

  -- The call is added to the command, unless it is the last one of the pipeline.
  added :
      (n : ℕ) (others : List CommandCall) (c : CommandCall) (heap : List CommandCall)
      (pipes : List (ℤ × ℤ)) (w : W)
      → let st = at n (drop 1 (positions n others)) heap pipes w in
        (if differs os parse st.last (n + length others) || false
          then add_call_at_the_end st (n + length others)
          else st)
        ≡ at n (drop 1 (positions n (others ++ c ∷ []))) heap pipes w
  unfolding differs add_call_at_the_end
  added n [] c heap pipes w = rw (same n)
  added n (x ∷ xs) c heap pipes w =
      let e : n + 1 + length xs ≡ n + suc (length xs) = omega arith in
      rw (other n (length xs), positions-end (n + 1) xs c, e)

  -- The builder of the call that writes to the new pipe.
  abbrev pub linked_builder : ℕ → ℤ → Builder
  linked_builder index writing = record {
    fds = negsuc 0 ∷ writing ∷ negsuc 0 ∷ [];
    reading_pipes = [];
    writing_pipes = index ∷ [];
  }

  -- The parser after the link.
  abbrev pub joined_state : List CommandCall → Laid W → ℤ → ℤ → W → Parser W
  joined_state heap l reading writing w =
      let others = l.others ++ reads_from l.first (length l.pipes) reading ∷ [] in
      at (length heap) (drop 1 (positions (length heap) others)) (heap ++ others)
        (l.pipes ++ (reading, writing) ∷ []) w

  pub linked-reached :
      (kept : List Bytes) (heap : List CommandCall) (l : Laid W) (reading writing : ℤ) (w : W)
      → linked_to os parse false kept new_command_call_builder (length heap + length l.others) (
          linked os new_command_call_builder
            (length heap + length l.others)
            (reached_state heap l)
            (some (reading, writing), w))
        ≡ done
            (linked_builder (length l.pipes) writing)
            kept
            []
            (joined_state heap l reading writing w)
  unfolding linked_to linked add_pipe new_command_call_builder
  linked-reached kept heap l reading writing w =
      rw (modify-end heap l.others l.first (λ c. reads_from c (length l.pipes) reading)) (
        ap (λ st. done (linked_builder (length l.pipes) writing) kept [] st)
          (added (length heap) l.others (reads_from l.first (length l.pipes) reading) _ _ w))
