-- ===== src/Mvar/Protocol.antt =====
-- The protocol of Userland/c/commands/mvar.c as a buffer of one byte.
use mass_os.Prelude.{take, ℕ, ◌+◌, ◌≡◌, List, [], ◌∷◌, ◌++◌}
use mass_os.Mvar.{
  Stage, outside, has_slot, has_stored, has_value, has_read, Shared, wait_empty, store, post_full,
  wait_full, fetch, post_empty, die, no_steps, step_first,
}
use mass_os.Mvar.{
  outside, has_slot, has_stored, has_value, has_read, wait_empty, store, post_full, wait_full,
  fetch, post_empty, die, no_steps, step_first,
}

-- Between its two semaphores, and with a byte that is stored and not read.
abbrev holds_token : Stage → ℕ
holds_token outside = 0
holds_token _ = 1

abbrev holds_byte : Stage → ℕ
holds_byte has_stored = 1
holds_byte has_value = 1
holds_byte _ = 0

abbrev total : (Stage → ℕ) → List Stage → ℕ
total f [] = 0
total f (p ∷ ps) = f p + total f ps

-- How many bytes are stored and not read.
abbrev pub unread : Shared → ℕ
unread s = s.full + total holds_byte s.participants

-- One token goes round, and the bytes that were stored are those read and the one unread.
pub record IsOnePlace (s : Shared) : Type 0 where
  pub one_token : s.empty + s.full + total holds_token s.participants ≡ 1
  pub in_order : s.stored ≡ s.taken ++ take (unread s) (s.value ∷ [])
