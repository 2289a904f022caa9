-- ===== src/Copying.antt =====
-- `memset` and `memcpy` of Kernel/c/lib/lib.c. Memory is a function of the address.
pub mod Effect
mod Tests
use mass_os.Prelude.{◌==◌, if◌then◌else◌, update, ℕ, zero, suc, ◌+◌, ◌*◌, ◌/◌, ◌%◌, ◌&&◌}

-- `while(length--) dst[length] = chr`
pub memset_loop : ℕ → ℕ → ℕ → (ℕ → ℕ) → ℕ → ℕ
memset_loop zero dst chr memory = memory
memset_loop (suc length') dst chr memory =
    memset_loop length' dst chr (update memory (dst + length') chr)

unfoldable pub memset : (ℕ → ℕ) → ℕ → ℕ → ℕ → ℕ → ℕ
unfolding memset_loop
memset memory destination c length' = memset_loop length' destination (c % 256) memory

-- `d[i] = s[i]` on 32-bit words, at the addresses `d` and `s`.
abbrev pub copy_word : (ℕ → ℕ) → ℕ → ℕ → ℕ → ℕ
copy_word memory d s =
    update
      (update (update (update memory d (memory s)) (d + 1) (memory (s + 1))) (d + 2)
        (memory (s + 2)))
      (d + 3) (memory (s + 3))

-- The two loops, `n` rounds from `i` on.
pub copy_words : ℕ → ℕ → ℕ → ℕ → (ℕ → ℕ) → ℕ → ℕ
copy_words zero i d s memory = memory
copy_words (suc n) i d s memory =
    copy_words n (i + 1) d s (copy_word memory (d + 4 * i) (s + 4 * i))

pub copy_bytes : ℕ → ℕ → ℕ → ℕ → (ℕ → ℕ) → ℕ → ℕ
copy_bytes zero i d s memory = memory
copy_bytes (suc n) i d s memory = copy_bytes n (i + 1) d s (update memory (d + i) (memory (s + i)))

unfoldable pub memcpy : (ℕ → ℕ) → ℕ → ℕ → ℕ → ℕ → ℕ
unfolding copy_words copy_bytes
memcpy memory destination source length' =
    if destination % 4 == 0 && (source % 4 == 0) && (length' % 4 == 0)
    then copy_words (length' / 4) 0 destination source memory
    else copy_bytes length' 0 destination source memory
