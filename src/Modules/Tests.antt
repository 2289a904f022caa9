-- ===== src/Modules/Tests.antt =====
-- Runs of the packer and the loader, and the round trip of an image.
use mass_os.Prelude.{
  get_or, slice, ℕ, ◌+◌, ◌-◌, ◌*◌, ◌≡◌, refl, sym, subst, inr, true, none, some, List, [], ◌∷◌,
  arith,
}
use mass_os.Copying.{memcpy}
use mass_os.Modules.{
  write_file, write_modules, build_image, check_files, pack, read_uint32, load_module, load_from,
  load_modules,
}
use mass_os.Modules.Loading.{At, Loaded, load_modules-build_image}

abbrev two_modules : List (List ℕ)
two_modules = (1 ∷ 2 ∷ []) ∷ (3 ∷ []) ∷ []

abbrev kernel_file : List ℕ
kernel_file = 9 ∷ 8 ∷ []

abbrev image : List ℕ
image = 9 ∷ 8 ∷ 2 ∷ 0 ∷ 0 ∷ 0 ∷ 2 ∷ 0 ∷ 0 ∷ 0 ∷ 1 ∷ 2 ∷ 1 ∷ 0 ∷ 0 ∷ 0 ∷ 3 ∷ []

written : pack (some kernel_file) (some (1 ∷ 2 ∷ []) ∷ some (3 ∷ []) ∷ []) true ≡ (0, some image)
unfolding pack build_image write_modules write_file check_files
written = refl

unreadable : pack (some kernel_file) (none ∷ []) true ≡ (1, none)
unfolding pack check_files
unreadable = refl

-- The image at address 16, and targets from 100 on.
abbrev image_memory : ℕ → ℕ
image_memory i = get_or image (i - 16) 0

abbrev targets : ℕ → ℕ
targets i = 100 + 10 * i

loaded : slice (load_modules image_memory 18 targets) 100 2 ≡ 1 ∷ 2 ∷ []
unfolding load_modules load_from load_module read_uint32 memcpy
loaded = refl

build_image-image : build_image kernel_file two_modules ≡ image
unfolding build_image write_modules write_file
build_image-image = refl

load_modules-build_image_example :
    Loaded (load_modules image_memory 18 targets) targets 0 two_modules
load_modules-build_image_example =
    load_modules-build_image image_memory 16 targets kernel_file two_modules
      (subst (At image_memory 16) (sym build_image-image) refl) (omega arith)
      (
        omega arith,
        inr (omega arith),
        (inr (omega arith), tt),
        (omega arith, inr (omega arith), tt, tt),
      )
