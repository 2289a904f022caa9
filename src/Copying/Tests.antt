-- ===== src/Copying/Tests.antt =====
-- Runs of the copying, and its theorem at addresses.
use mass_os.Prelude.{slice, ◌%◌, ◌≡◌, refl, [], ◌∷◌}
use mass_os.Copying.{memset_loop, memset, copy_words, copy_bytes, memcpy}

aligned :
    slice (memcpy (λ i. i % 256) 256 8 8) 255 10
    ≡ 255 ∷ 8 ∷ 9 ∷ 10 ∷ 11 ∷ 12 ∷ 13 ∷ 14 ∷ 15 ∷ 8 ∷ []
unfolding memcpy copy_words
aligned = refl

unaligned : slice (memcpy (λ i. i % 256) 257 8 2) 256 4 ≡ 0 ∷ 8 ∷ 9 ∷ 3 ∷ []
unfolding memcpy copy_bytes
unaligned = refl

filled : slice (memset (λ i. i % 256) 10 263 2) 9 4 ≡ 9 ∷ 7 ∷ 7 ∷ 12 ∷ []
unfolding memset memset_loop
filled = refl
