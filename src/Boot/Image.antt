-- ===== src/Boot/Image.antt =====
-- Memory after the first steps of Kernel/c/kernel/kernel.c: the modules and the cleared variables.
use mass_os.Prelude.{
  length, slice, slice_ext, ℕ, ◌+◌, ◌-◌, ◌≤◌, ◌<◌, ◌≡◌, ◌∙◌, List, [], ◌∷◌, arith,
}
use mass_os.Boot.{Linked, module_addresses, clear_bss, load_image}
use mass_os.Copying.{memset}
use mass_os.Copying.Effect.{Disjoint, memset_lem}
use mass_os.Modules.{build_image, load_modules}
use mass_os.Modules.Loading.{At, Loaded, Clear, Room, load_modules-build_image}

slice-memset-outside :
    (memory : ℕ → ℕ) (d c len a n : ℕ)
    → Disjoint d len a n
    → slice (memset memory d c len) a n ≡ slice memory a n
slice-memset-outside memory d c len a n away =
    slice_ext (memset memory d c len) memory a n
      (λ i low high. memset_lem memory d c len i ∙ ground (arith, low, high))

-- What is written outside the targets keeps the modules.
memset-Loaded :
    (memory : ℕ → ℕ) (d len : ℕ) (targets : ℕ → ℕ) (i : ℕ) (files : List (List ℕ))
    → Clear d len targets i files
    → Loaded memory targets i files
    → Loaded (memset memory d 0 len) targets i files
memset-Loaded memory d len targets i [] clear loaded = loaded
memset-Loaded memory d len targets i (file ∷ files) clear loaded = (
  slice-memset-outside memory d 0 len (targets i) (length file) (ground (arith, clear.0))
      ∙ loaded.0,
  memset-Loaded memory d len targets (i + 1) files clear.1 loaded.1,
)

-- The image that the packer wrote starts at `base`, and the kernel's file ends where the linker says:
-- after `loadModules` and `clearBSS`, the first two steps of `initializeKernelBinary`, each of at most
-- two modules stands at its address, and every byte of the variables is 0, if the modules have room
-- and the variables lie outside them.
pub load_image-Loaded :
    (l : Linked) (memory : ℕ → ℕ) (base : ℕ) (kernel : List ℕ) (modules : List (List ℕ)) (j : ℕ)
    → At memory base (build_image kernel modules)
    → l.end_of_kernel_binary ≡ base + length kernel
    → length modules ≤ 2
    → Room (base + length kernel + 4) module_addresses 0 modules
    → Clear l.bss (l.end_of_kernel - l.bss) module_addresses 0 modules
    → l.bss ≤ j
    → j < l.end_of_kernel
    → Loaded (load_image l memory) module_addresses 0 modules × (load_image l memory j ≡ 0)
unfolding load_image clear_bss
load_image-Loaded l memory base kernel modules j image end few room clear low high =
    let memory' = load_modules memory l.end_of_kernel_binary module_addresses in
    let size = l.end_of_kernel - l.bss in
    let loaded : Loaded memory' module_addresses 0 modules = rw end (
      load_modules-build_image memory base module_addresses kernel modules image
        (omega (arith, few)) room) in
    (
      memset-Loaded memory' l.bss size module_addresses 0 modules clear loaded,
      memset_lem memory' l.bss 0 size j ∙ ground (arith, low, high),
    )
