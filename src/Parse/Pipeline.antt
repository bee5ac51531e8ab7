-- ===== src/Parse/Pipeline.antt =====
-- src/command.c: pipelines of plain commands, and what the parser makes of them.
pub mod Stages
pub mod Links
pub mod Parsed
pub mod Whole
pub mod Stale
use jsh_tyy.Base.{
  ℕ, zero, suc, ◌+◌, Bytes, codes, List, [], ◌∷◌, ◌++◌, Option, none, some, ℤ, pos, negsuc, length,
}
use jsh_tyy.System.{Os}
use jsh_tyy.Text.{join_strings}
use jsh_tyy.Command.{CommandCall, new_command_call}
use jsh_tyy.Parse.Symbols.{remove_extra_pipes}

-- The words of one call: the first one, and the others.
abbrev pub Stage : Type 0
Stage = Bytes × List Bytes

-- The words of a pipeline behind its first one.
abbrev pub more : List Bytes → List Stage → List Bytes
more ts [] = ts
more ts ((u, us) ∷ rest) = ts ++ codes "|" ∷ (u ∷ more us rest)

abbrev pub tokens : Stage → List Stage → List Bytes
tokens (t, ts) rest = t ∷ more ts rest

-- The line of the pipeline.
abbrev pub line : Stage → List Stage → Bytes
line s rest = join_strings (tokens s rest) (codes " ")

-- The call of a stage in front of `rest`.
abbrev pub stage : Stage → List Stage → CommandCall
stage (t, ts) rest = new_command_call (t ∷ ts) (remove_extra_pipes (line (t, ts) rest))

-- The call writes to the pipe of that index and write end, or reads from it.
abbrev pub writes_to : CommandCall → ℕ → ℤ → CommandCall
writes_to call index writing = record call {
  writing_pipes = call.writing_pipes ++ index ∷ [];
  stdout = writing;
}

abbrev pub reads_from : CommandCall → ℕ → ℤ → CommandCall
reads_from call index reading = record call {
  reading_pipes = call.reading_pipes ++ index ∷ [];
  stdin = reading;
}

-- A pipeline: the call of its first words; those of the others, the last one first; the pipes, in the
-- order in which they are made; and the world then.
pub record Laid (W : Type 0) : Type 0 where
  pub first : CommandCall
  pub others : List CommandCall
  pub pipes : List (ℤ × ℤ)
  pub world : W

module _ {W : Type 0} where
  -- One call more in front, with the pipe between it and the one that was first.
  abbrev pub extended : CommandCall → Laid W → Option (ℤ × ℤ) × W → Option (Laid W)
  extended call l (none, w) = none
  extended call l (some (reading, negsuc n), w) = none
  extended call l (some (reading, pos writing), w) = some (record {
    first = writes_to call (length l.pipes) (pos writing);
    others = l.others ++ reads_from l.first (length l.pipes) reading ∷ [];
    pipes = l.pipes ++ (reading, pos writing) ∷ [];
    world = w;
  })

module _ {W : Type 0} (os : Os W) where
  abbrev pub extend : CommandCall → Option (Laid W) → Option (Laid W)
  extend call none = none
  extend call (some l) = extended call l (os.pipe l.world)

  -- What the pipeline of these stages is to be, from its last call to its first; `none` where a pipe
  -- cannot be made.
  unfoldable pub laid : List Stage → Stage → W → Option (Laid W)
  laid [] s w = some (record { first = stage s []; others = []; pipes = []; world = w })
  laid (next ∷ rest) s w = extend (stage s (next ∷ rest)) (laid rest next w)
