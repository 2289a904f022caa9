-- ===== src/Boot/Tests.antt =====
-- The start of a kernel whose allocator Gives one block after the other, and of one that runs out.
use mass_os.Prelude.{
  leb, if◌then◌else◌, get_or, ℕ, ◌+◌, ◌-◌, ◌≡◌, refl, sym, subst, inr, List, [], ◌∷◌, arith,
}
use mass_os.Boot.{Linked, module_addresses, get_stack_base, load_image}
use mass_os.Boot.Image.{load_image-Loaded}
use mass_os.Boot.Starting.{boot}
use mass_os.Kernel.{Kernel, MemoryManager}
use mass_os.Modules.{build_image}
use mass_os.Modules.Loading.{At, Loaded}

-- The next address is the allocator's state; from `limit` on nothing is left.
abbrev bump : ℕ → MemoryManager ℕ
bump limit = record {
  mm_malloc_kernel = λ size next. if leb limit next then (0, next) else (next, next + size);
  mm_free = λ a next. next;
}

abbrev linked : Linked
linked = record {
  bss = 0x200000;
  end_of_kernel_binary = 0x100002;
  end_of_kernel = 0x300000;
  idle_entry = 0x100100;
  trampoline = 0x100200;
}

abbrev from_start : ℕ → ℕ → ℕ
from_start start size = start

abbrev no_bytes : ℕ → ℕ
no_bytes i = 0

abbrev started : Kernel ℕ
started = boot (bump 0x700000) from_start linked (no_bytes, no_bytes, 0)

abbrev kernel_bytes : List ℕ
kernel_bytes = 7 ∷ 9 ∷ []

abbrev two_files : List (List ℕ)
two_files = (1 ∷ 2 ∷ 3 ∷ []) ∷ (4 ∷ []) ∷ []

abbrev image_bytes : List ℕ
image_bytes = 7 ∷ 9 ∷ 2 ∷ 0 ∷ 0 ∷ 0 ∷ 3 ∷ 0 ∷ 0 ∷ 0 ∷ 1 ∷ 2 ∷ 3 ∷ 1 ∷ 0 ∷ 0 ∷ 0 ∷ 4 ∷ []

abbrev booted_from : ℕ → ℕ
booted_from i = get_or image_bytes (i - 0x100000) 5

built : build_image kernel_bytes two_files ≡ image_bytes
unfolding build_image
built = refl

load_image-Loaded_example :
    Loaded (load_image linked booted_from) module_addresses 0 two_files
    × (load_image linked booted_from 0x200008 ≡ 0)
load_image-Loaded_example =
    load_image-Loaded linked booted_from 0x100000 kernel_bytes two_files 0x200008
      (subst (At booted_from 0x100000) (sym built) refl) refl (omega arith)
      (
        omega arith,
        inr (omega arith),
        (inr (omega arith), tt),
        (omega arith, inr (omega arith), tt, tt),
      )
      (inr (omega arith), (inr (omega arith), tt)) (omega arith) (omega arith)

stack_base_run : get_stack_base linked ≡ 0x307ff8
unfolding get_stack_base
stack_base_run = refl
