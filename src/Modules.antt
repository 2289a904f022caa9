-- ===== src/Modules.antt =====
-- The packed image: Toolchain/ModulePacker/main.c writes it behind the kernel's binary, and
-- Kernel/c/lib/moduleLoader.c takes it apart in memory. A file is the list of its bytes, `none` where
-- it cannot be read; memory is a function of the address.
pub mod Packing
pub mod Loading
mod Tests
use mass_os.Prelude.{
  ltb, if◌then◌else◌, length, take, drop, ℕ, zero, suc, ◌+◌, ◌*◌, ◌/◌, ◌%◌, ◌^◌, Bool, Option, none,
  some, List, [], ◌∷◌, ◌++◌,
}
use mass_os.Copying.{memcpy}

-- BUFFER_SIZE of modulePacker.h
abbrev pub buffer_size : ℕ
buffer_size = 128

-- The four bytes of a 32-bit number, lowest first.
abbrev pub le32 : ℕ → List ℕ
le32 n = n % 256 ∷ n / 256 % 256 ∷ n / 65536 % 256 ∷ n / 16777216 % 256 ∷ []

-- The loop up to `feof`, which a read that comes short sets: at most `n` rounds.
pub write_file : ℕ → List ℕ → List ℕ → List ℕ
write_file zero target source = target
write_file (suc n) target source =
    let read = take buffer_size source in
    let rest = write_file n (target ++ read) (drop buffer_size source) in
    if ltb (length read) buffer_size then target ++ read else rest

-- Each round takes `buffer_size` bytes, and the last one finds the end.
abbrev pub write_whole : List ℕ → List ℕ → List ℕ
unfolding write_file
write_whole target source = write_file (length source + 1) target source

-- `write_size`
abbrev pub write_size : List ℕ → List ℕ → List ℕ
write_size target file = target ++ le32 (length file % 2 ^ 32)

-- The `for` loop over the modules.
pub write_modules : List ℕ → List (List ℕ) → List ℕ
unfolding write_whole
write_modules target [] = target
write_modules target (file ∷ files) =
    write_modules (write_whole (write_size target file) file) files

-- The image, for the kernel and the modules.
unfoldable pub build_image : List ℕ → List (List ℕ) → List ℕ
unfolding write_whole write_modules
build_image kernel modules = write_modules (write_whole [] kernel ++ le32 (length modules)) modules

-- All files can be read.
pub check_files : List (Option (List ℕ)) → Option (List (List ℕ))
check_files [] = some []
check_files (none ∷ files) = none
check_files (some file ∷ files) = elim (check_files files) [
  | none ↦ none
  | some rest ↦ some (file ∷ rest)
]

-- The exit code of `main`, and the image if it is written, for the files named: a kernel, at least,
-- and modules. `creates` says whether the target can be created.
pub pack : Option (List ℕ) → List (Option (List ℕ)) → Bool → ℕ × Option (List ℕ)
unfolding build_image check_files
pack kernel modules creates = elim (check_files (kernel ∷ modules)) [
  | none ↦ (1, none)
  | some [] ↦ (1, none)
  | some (kernel_file ∷ module_files) ↦
      if creates then (0, some (build_image kernel_file module_files)) else (1, none)
]

-- The number at an address, and the address behind it.
pub read_uint32 : (ℕ → ℕ) → ℕ → ℕ × ℕ
read_uint32 memory a =
    (memory a + memory (a + 1) * 256 + memory (a + 2) * 65536 + memory (a + 3) * 16777216, a + 4)

-- The memory afterwards, and the address behind the module.
pub load_module : (ℕ → ℕ) → ℕ → ℕ → (ℕ → ℕ) × ℕ
unfolding read_uint32
load_module memory address target =
    let (module_size, start) = read_uint32 memory address in
    (memcpy memory target start module_size, start + module_size)

-- The loop of `loadModules`, `n` modules from index `i` on.
pub load_from : ℕ → ℕ → (ℕ → ℕ) → (ℕ → ℕ) × ℕ → (ℕ → ℕ) × ℕ
unfolding load_module
load_from zero i targets state = state
load_from (suc n) i targets (memory, current_module) =
    load_from n (i + 1) targets (load_module memory current_module (targets i))

unfoldable pub load_modules : (ℕ → ℕ) → ℕ → (ℕ → ℕ) → ℕ → ℕ
unfolding load_from read_uint32
load_modules memory payload_start targets =
    let (module_count, current_module) = read_uint32 memory payload_start in
    (load_from module_count 0 targets (memory, current_module)).0
