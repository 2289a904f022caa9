-- ===== src/Modules/Loading.antt =====
-- Kernel/c/lib/moduleLoader.c on an image of Toolchain/ModulePacker/main.c.
use mass_os.Prelude.{
  length, drop, slice, ℕ, ◌+◌, ◌/◌, ◌%◌, ◌^◌, ◌<◌, ◌≡◌, refl, sym, ap, ap₂, subst, ◌∙◌, List, [],
  ◌∷◌, ◌++◌, arith,
}
use mass_os.Copying.{memcpy}
use mass_os.Copying.Effect.{Disjoint, slice-memcpy, slice-memcpy-outside}
use mass_os.Modules.{le32, build_image, read_uint32, load_module, load_from, load_modules}
use mass_os.Modules.Packing.{packed, build_image_lem}

-- The text at an address.
abbrev pub At : (ℕ → ℕ) → ℕ → List ℕ → Type 0
At memory a bytes = slice memory a (length bytes) ≡ bytes

At-append :
    (memory : ℕ → ℕ) (a : ℕ) (xs ys : List ℕ)
    → At memory a (xs ++ ys)
    → At memory a xs × At memory (a + length xs) ys
At-append memory a [] ys h = (refl, ap (λ i. slice memory i (length ys)) (omega arith) ∙ h)
At-append memory a (x ∷ xs) ys h =
    let first = At-append memory (a + 1) xs ys (ap (drop 1) h) in
    (
      ap₂ (λ b bs. b ∷ bs) (cc (h)) first.0,
      ap (λ i. slice memory i (length ys)) (omega arith) ∙ first.1,
    )

read_uint32-At :
    (memory : ℕ → ℕ) (a n : ℕ)
    → n < 2 ^ 32
    → At memory a (le32 n)
    → read_uint32 memory a ≡ (n, a + 4)
unfolding read_uint32
read_uint32-At memory a n lt h =
    let b0 : memory a ≡ n % 256 = cc (h) in
    let b1 : memory (a + 1) ≡ n / 256 % 256 = cc (h) in
    let b2 : memory (a + 1 + 1) ≡ n / 65536 % 256 = cc (h) in
    let b3 : memory (a + 1 + 1 + 1) ≡ n / 16777216 % 256 = cc (h) in
    let b2' : memory (a + 2) ≡ n / 65536 % 256 = ap memory (omega arith) ∙ b2 in
    let b3' : memory (a + 3) ≡ n / 16777216 % 256 = ap memory (omega arith) ∙ b3 in
    ap (λ (v : ℕ). (v, a + 4)) (omega (arith, lt, b0, b1, b2', b3'))

load_module-At :
    (memory : ℕ → ℕ) (a target : ℕ) (file : List ℕ)
    → length file < 2 ^ 32
    → At memory a (le32 (length file % 2 ^ 32))
    → load_module memory a target
      ≡ (memcpy memory target (a + 4) (length file), a + 4 + length file)
unfolding load_module
load_module-At memory a target file lt h =
    let small : length file % 2 ^ 32 ≡ length file = omega (arith, lt) in
    let size = read_uint32-At memory a (length file % 2 ^ 32) (omega arith) h in
    ap (λ (r : ℕ × ℕ). (memcpy memory target r.1 r.0, r.1 + r.0)) size
    ∙ ap (λ n. (memcpy memory target (a + 4) n, a + 4 + n)) small

-- Each module is at its target, from target `i` on.
abbrev pub Loaded : (ℕ → ℕ) → (ℕ → ℕ) → ℕ → List (List ℕ) → Type 0
Loaded memory targets i [] = Unit {0}
Loaded memory targets i (file ∷ files) =
    At memory (targets i) file × Loaded memory targets (i + 1) files

-- A range of addresses lies outside the targets.
abbrev pub Clear : ℕ → ℕ → (ℕ → ℕ) → ℕ → List (List ℕ) → Type 0
Clear a n targets i [] = Unit {0}
Clear a n targets i (file ∷ files) =
    Disjoint (targets i) (length file) a n × Clear a n targets (i + 1) files

-- No target reaches into the part of the image at `a` that is still to be read, or into a later one.
abbrev pub Room : ℕ → (ℕ → ℕ) → ℕ → List (List ℕ) → Type 0
Room a targets i [] = Unit {0}
Room a targets i (file ∷ files) =
    (length file < 2 ^ 32)
    × Disjoint (targets i) (length file) a (4 + length file + length (packed files))
    × Clear (targets i) (length file) targets (i + 1) files
    × Room (a + 4 + length file) targets (i + 1) files

abbrev memory_from : (ℕ → ℕ) → ℕ → (ℕ → ℕ) → ℕ → List (List ℕ) → ℕ → ℕ
memory_from memory a targets i files = (load_from (length files) i targets (memory, a)).0

load_from-first :
    (memory : ℕ → ℕ) (a : ℕ) (targets : ℕ → ℕ) (i : ℕ) (file : List ℕ) (files : List (List ℕ))
    → length file < 2 ^ 32
    → At memory a (packed (file ∷ files))
    → memory_from memory a targets i (file ∷ files)
      ≡ memory_from
          (memcpy memory (targets i) (a + 4) (length file))
          (a + 4 + length file)
          targets
          (i + 1)
          files
unfolding load_from
load_from-first memory a targets i file files lt h =
    let size = (At-append memory a (le32 (length file % 2 ^ 32)) (file ++ packed files) h).0 in
    ap (λ state. (load_from (length files) (i + 1) targets state).0)
      (load_module-At memory a (targets i) file lt size)

-- The image behind the first module stays, and the module arrives.
after_first :
    (memory : ℕ → ℕ) (a target : ℕ) (file : List ℕ) (files : List (List ℕ))
    → At memory a (packed (file ∷ files))
    → Disjoint target (length file) a (4 + length file + length (packed files))
    → let memory' = memcpy memory target (a + 4) (length file) in
      At memory' target file × At memory' (a + 4 + length file) (packed files)
after_first memory a target file files h apart =
    let (_, behind) = At-append memory a (le32 (length file % 2 ^ 32)) (file ++ packed files) h in
    let (here, rest) = At-append memory (a + 4) file (packed files) behind in
    let source : Disjoint target (length file) (a + 4) (length file) = ground arith in
    (
      slice-memcpy memory target (a + 4) (length file) source ∙ here,
      slice-memcpy-outside memory target (a + 4) (length file) (a + 4 + length file)
            (length (packed files)) source (ground arith)
          ∙ rest,
    )

-- Loading leaves what is clear of the targets.
slice-load_from :
    (memory : ℕ → ℕ) (a : ℕ) (targets : ℕ → ℕ) (i : ℕ) (files : List (List ℕ)) (b n : ℕ)
    → At memory a (packed files)
    → Room a targets i files
    → Clear b n targets i files
    → slice (memory_from memory a targets i files) b n ≡ slice memory b n
unfolding load_from
slice-load_from memory a targets i [] b n h room clear = refl
slice-load_from memory a targets i (file ∷ files) b n h (lt, apart, _, room) (away, clear) =
    let memory' = memcpy memory (targets i) (a + 4) (length file) in
    let (_, rest) = after_first memory a (targets i) file files h apart in
    ap (λ f. slice f b n) (load_from-first memory a targets i file files lt h)
    ∙ slice-load_from memory' (a + 4 + length file) targets (i + 1) files b n rest room clear
    ∙ slice-memcpy-outside memory (targets i) (a + 4) (length file) b n (ground arith) away

load_from-Loaded :
    (memory : ℕ → ℕ) (a : ℕ) (targets : ℕ → ℕ) (i : ℕ) (files : List (List ℕ))
    → At memory a (packed files)
    → Room a targets i files
    → Loaded (memory_from memory a targets i files) targets i files
load_from-Loaded memory a targets i [] h room = tt
load_from-Loaded memory a targets i (file ∷ files) h (lt, apart, clear, room) =
    let memory' = memcpy memory (targets i) (a + 4) (length file) in
    let (here, rest) = after_first memory a (targets i) file files h apart in
    subst (λ f. Loaded f targets i (file ∷ files))
      (sym (load_from-first memory a targets i file files lt h))
      (
        slice-load_from memory' (a + 4 + length file) targets (i + 1) files (targets i)
              (length file) rest room clear
            ∙ here,
        load_from-Loaded memory' (a + 4 + length file) targets (i + 1) files rest room,
      )

-- What ModulePacker packs behind a kernel, the kernel loads: where the image is in memory, with fewer
-- than 2^32 modules of less than 2^32 bytes, each module is at its target after `loadModules`, if the
-- targets keep clear of each other and of the part of the image that is still to be read.
pub load_modules-build_image :
    (memory : ℕ → ℕ) (base : ℕ) (targets : ℕ → ℕ) (kernel : List ℕ) (modules : List (List ℕ))
    → At memory base (build_image kernel modules)
    → length modules < 2 ^ 32
    → Room (base + length kernel + 4) targets 0 modules
    → Loaded (load_modules memory (base + length kernel) targets) targets 0 modules
unfolding load_modules
load_modules-build_image memory base targets kernel modules h few room =
    let image = subst (At memory base) (build_image_lem kernel modules) h in
    let payload = base + length kernel in
    let (_, tail) = At-append memory base kernel (le32 (length modules) ++ packed modules) image in
    let (count, rest) = At-append memory payload (le32 (length modules)) (packed modules) tail in
    subst (λ (r : ℕ × ℕ). Loaded (load_from r.0 0 targets (memory, r.1)).0 targets 0 modules)
      (sym (read_uint32-At memory payload (length modules) few count))
      (load_from-Loaded memory (payload + 4) targets 0 modules rest room)
