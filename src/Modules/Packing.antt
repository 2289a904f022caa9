-- ===== src/Modules/Packing.antt =====
-- What Toolchain/ModulePacker/main.c writes.
use mass_os.Prelude.{
  ltb, Bool-cases, length, take, drop, length-take, length-drop, take_all, ℕ, zero, suc, ◌+◌, ◌*◌,
  ◌%◌, ◌^◌, ◌≤◌, ◌<◌, ◌≡◌, refl, sym, ap, ◌∙◌, inl, inr, true, false, List, [], ◌∷◌, ◌++◌,
  append_assoc, append-nil, arith,
}
use mass_os.Modules.{buffer_size, le32, write_file, write_whole, write_modules, build_image}

take-drop : (n : ℕ) (xs : List ℕ) → take n xs ++ drop n xs ≡ xs
take-drop zero xs = refl
take-drop (suc n) [] = refl
take-drop (suc n) (x ∷ xs) = ap (◌∷◌ x) (take-drop n xs)

-- A read that comes short reached the end.
short_read : (n : ℕ) (xs : List ℕ) → ltb (length (take n xs)) n ≡ true → length xs ≤ n
short_read n xs h = ground (arith, length-take n xs)

full_read :
    (n : ℕ) (xs : List ℕ) → ltb (length (take n xs)) n ≡ false → length (drop n xs) + n ≡ length xs
full_read n xs h = ground (arith, length-take n xs, length-drop n xs)

write_file_lem :
    (n : ℕ) (target source : List ℕ)
    → length source < n * buffer_size
    → write_file n target source ≡ target ++ source
unfolding write_file
write_file_lem zero target source lt = absurd (omega arith)
write_file_lem (suc n) target source lt =
    elim (Bool-cases (ltb (length (take buffer_size source)) buffer_size)) [
      | inl short ↦ rw short (
          ap (λ l. target ++ l) (take_all buffer_size source (short_read buffer_size source short)))
      | inr full ↦
          let left = full_read buffer_size source full in
          rw full (
            write_file_lem n (target ++ take buffer_size source) (drop buffer_size source)
              (omega (arith, left, lt))
            ∙ append_assoc target (take buffer_size source) (drop buffer_size source)
            ∙ ap (λ l. target ++ l) (take-drop buffer_size source))
    ]

-- The copy loop copies the whole file: the rounds are enough.
write_whole_lem : (target source : List ℕ) → write_whole target source ≡ target ++ source
unfolding write_whole
write_whole_lem target source = write_file_lem (length source + 1) target source (omega arith)

-- Each module with its size before it.
abbrev pub packed : List (List ℕ) → List ℕ
packed [] = []
packed (file ∷ files) = le32 (length file % 2 ^ 32) ++ (file ++ packed files)

write_modules_lem :
    (target : List ℕ) (files : List (List ℕ)) → write_modules target files ≡ target ++ packed files
unfolding write_modules write_whole
write_modules_lem target [] = sym (append-nil target)
write_modules_lem target (file ∷ files) =
    let size = le32 (length file % 2 ^ 32) in
    write_modules_lem (write_whole (target ++ size) file) files
    ∙ ap (λ l. l ++ packed files) (write_whole_lem (target ++ size) file)
    ∙ append_assoc (target ++ size) file (packed files)
    ∙ append_assoc target size (file ++ packed files)

-- The image is the kernel, the number of modules, and the modules.
pub build_image_lem :
    (kernel : List ℕ) (modules : List (List ℕ))
    → build_image kernel modules ≡ kernel ++ (le32 (length modules) ++ packed modules)
unfolding build_image
build_image_lem kernel modules =
    write_modules_lem (write_whole [] kernel ++ le32 (length modules)) modules
    ∙ ap (λ l. (l ++ le32 (length modules)) ++ packed modules) (write_whole_lem [] kernel)
    ∙ append_assoc kernel (le32 (length modules)) (packed modules)
