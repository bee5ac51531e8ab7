-- ===== src/Parse.antt =====
-- src/command.c: the state of the parser and the steps that change it.
--
-- A `command_call *` is the index of the call in `heap`, to which the parser only adds; so the
-- comparisons of pointers and the writes through them are written out.
pub mod Redirect
pub mod Symbols
pub mod Call
pub mod Build
pub mod Line
pub mod Pipeline
mod Tests
use jsh_tyy.Base.{
  ℕ, zero, suc, ◌+◌, Bool, true, false, Bytes, codes, List, [], ◌∷◌, ◌++◌, Option, none, some,
  if◌then◌else◌, ◌==◌, ◌==ℤ◌, ℤ, pos, negsuc, set, length, get_elem?,
}
use jsh_tyy.System.{Os, report_error}
use jsh_tyy.FdSet.{close_unused_file_descriptors_from_array}
use jsh_tyy.Command.{CommandCall, new_command_call, new_pipe_info, add_pipe_pipe_info}

-- `last` and `last_substitution` are the global variables `last_parsed_command_call` and
-- `last_parsed_command_call_substitution`; `calls` and `open_pipes` are those of the command that
-- is being built.
pub record Parser (W : Type 0) : Type 0 where
  pub world : W
  pub heap : List CommandCall
  pub last : Option ℕ
  pub last_substitution : Option ℕ
  pub calls : List ℕ
  pub open_pipes : List (ℤ × ℤ)

-- `fds` are the three redirections, -1 where there is none.
pub record Builder : Type 0 where
  pub fds : List ℤ
  pub reading_pipes : List ℕ
  pub writing_pipes : List ℕ

unfoldable pub new_command_call_builder : Builder
new_command_call_builder = record {
  fds = negsuc 0 ∷ negsuc 0 ∷ negsuc 0 ∷ [];
  reading_pipes = new_pipe_info;
  writing_pipes = new_pipe_info;
}

-- `fds[i]`, of three.
abbrev pub fd_at : List ℤ → ℕ → ℤ
fd_at [] i = negsuc 0
fd_at (x ∷ fds) zero = x
fd_at (x ∷ fds) (suc i) = fd_at fds i

-- UNINITIALIZED_FD leaves the default.
abbrev pub fd_or : ℤ → ℤ → ℤ
fd_or fd default = if fd ==ℤ negsuc 0 then default else fd

unfoldable pub build_command : Builder → List Bytes → Bytes → CommandCall
unfolding new_command_call
build_command builder argv command_string = record (new_command_call argv command_string) {
  stdin = fd_or (fd_at builder.fds 0) (pos 0);
  stdout = fd_or (fd_at builder.fds 1) (pos 1);
  stderr = fd_or (fd_at builder.fds 2) (pos 2);
  reading_pipes = builder.reading_pipes;
  writing_pipes = builder.writing_pipes;
}

-- A write through a `command_call *`.
abbrev pub modify : List CommandCall → ℕ → (CommandCall → CommandCall) → List CommandCall
modify [] i f = []
modify (c ∷ heap) zero f = f c ∷ heap
modify (c ∷ heap) (suc i) f = c ∷ modify heap i f

module _ {W : Type 0} where
  unfoldable pub add_pipe : Parser W → ℤ × ℤ → Parser W
  add_pipe st pipe = record st { open_pipes = st.open_pipes ++ pipe ∷ [] }

  unfoldable pub add_call_at_the_beginning : Parser W → ℕ → Parser W
  add_call_at_the_beginning st call = record st { calls = call ∷ st.calls }

  unfoldable pub add_call_at_the_end : Parser W → ℕ → Parser W
  add_call_at_the_end st call = record st { calls = st.calls ++ call ∷ [] }

  -- A new call on the heap, and its pointer.
  unfoldable pub allocate : Parser W → CommandCall → ℕ × Parser W
  allocate st call = (length st.heap, record st { heap = st.heap ++ call ∷ [] })

module _ {W : Type 0} (os : Os W) where
  -- STDERR_FILENO
  unfoldable pub complain : Bytes → Parser W → Parser W
  complain text st = record st { world = os.dprintf (pos 2) text st.world }

  unfoldable pub perror : Bytes → Parser W → Parser W
  perror name st = record st { world = report_error os name st.world }

  unfoldable pub close_all : List ℤ → W → W
  close_all [] w = w
  close_all (fd ∷ fds) w = close_all fds (os.close fd w)

  -- The `error:` label of `parse_command_call`.
  unfoldable pub drop_builder : Builder → Parser W → Parser W
  unfolding close_all
  drop_builder builder st = record st {
    world = close_all (close_unused_file_descriptors_from_array builder.fds) st.world;
  }

  -- `link_pipelines`: the output of `prev` goes to the input of `call`.
  unfoldable pub linked : Builder → ℕ → Parser W → Option (ℤ × ℤ) × W → Option Builder × Parser W
  unfolding add_pipe perror
  linked prev call st (none, w) = (none, perror (codes "pipe") (record st { world = w }))
  linked prev call st (some (reading, writing), w) =
      let index = length st.open_pipes in
      let join = λ (c : CommandCall). record c {
        reading_pipes = add_pipe_pipe_info c.reading_pipes index;
        stdin = reading;
      } in
      (
        some (record prev {
          writing_pipes = add_pipe_pipe_info prev.writing_pipes index;
          fds = set prev.fds 1 writing;
        }),
        add_pipe (record st { world = w; heap = modify st.heap call join }) (reading, writing),
      )

  unfoldable pub link_pipelines : Builder → ℕ → Parser W → Option Builder × Parser W
  unfolding linked
  link_pipelines prev call st = linked prev call st (os.pipe st.world)
