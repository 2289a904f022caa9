-- ===== src/Fd/Tests.antt =====
-- Runs of Kernel/c/pipe/fd.c on a sample state.
use mass_os.Prelude.{find_from, ◌≡◌, refl, true, some}
use mass_os.Fd.{fd_alloc, fd_init, fd_get, fd_incref, fd_decref, fd_create_pipe}
use mass_os.Fixtures.{sample}
use mass_os.Kernel.{fd_none, fd_terminal, Kernel}
use mass_os.Pipe.{pipe_open_write, pipe_close_write}

abbrev started : Kernel (Unit {0})
unfolding fd_init
started = fd_init sample

create-pipe : (fd_create_pipe started (some 0) true).0 ≡ some 2
unfolding fd_create_pipe fd_alloc fd_incref fd_get fd_init find_from
create-pipe = refl

-- The last reference to a descriptor of a pipe gives its slot back; a terminal keeps its slot.
decref-pipe : ((fd_decref (fd_create_pipe started (some 0) true).1 2).fd_table 2).type ≡ fd_none
unfolding fd_create_pipe fd_alloc fd_incref fd_get fd_init fd_decref find_from pipe_open_write
    pipe_close_write
decref-pipe = refl

decref-terminal : ((fd_decref (fd_incref started 1) 1).fd_table 1).type ≡ fd_terminal
unfolding fd_init fd_decref fd_incref fd_get
decref-terminal = refl
