-- ===== src/Ring.antt =====
-- Circular arrays, as the wait queues of Kernel/c/semaphore/semaphore.c and the buffers of
-- Kernel/c/pipe/pipe.c use them: the `n` entries from index `h` on, going round at `cap`.
use mass_os.Prelude.{
  length, update, update_self, update-ne, ℕ, zero, suc, ◌+◌, ◌-◌, ◌%◌, ◌<◌, ◌≡◌, refl, sym, ap, ap₂,
  ◌∙◌, ◌≢◌, List, [], ◌∷◌, ◌++◌, arith, add-one, mod-lt, mod-eq_of_lt, mod-add-mod, add-zero,
}

module _ (cap : ℕ) where
  abbrev pub window : (ℕ → ℕ) → ℕ → ℕ → List ℕ
  window items h zero = []
  window items h (suc n) = items h ∷ window items ((h + 1) % cap) n

  pub length-window : (items : ℕ → ℕ) (h n : ℕ) → length (window items h n) ≡ n
  length-window items h zero = refl
  length-window items h (suc n) = ap suc (length-window items ((h + 1) % cap) n)

  ring_step : (h n : ℕ) → ((h + 1) % cap + n) % cap ≡ (h + suc n) % cap
  ring_step h n = rw mod-add-mod (ap (λ t. t % cap) (omega arith))

  -- The last entry of a window.
  pub window-last :
      (items : ℕ → ℕ) (h n : ℕ)
      → h < cap
      → window items h (suc n) ≡ window items h n ++ (items ((h + n) % cap) ∷ [])
  window-last items h zero lt = rw (add-zero, mod-eq_of_lt lt)
  window-last items h (suc n) lt = ap (◌∷◌ (items h)) (
      window-last items ((h + 1) % cap) n (mod-lt (h + 1) (omega arith))
      ∙ ap (λ t. window items ((h + 1) % cap) n ++ (items t ∷ [])) (ring_step h n))

  -- A write outside a window does not show in it.
  pub window-update_outside :
      (items : ℕ → ℕ) (i x h n : ℕ)
      → h < cap
      → ((m : ℕ) → m < n → (h + m) % cap ≢ i)
      → window (update items i x) h n ≡ window items h n
  window-update_outside items i x h zero lt out = refl
  window-update_outside items i x h (suc n) lt out =
      ap₂ ◌∷◌
        (update-ne items i h x λ e. out 0 (omega arith) (rw add-zero (mod-eq_of_lt lt) ∙ sym e))
        (window-update_outside items i x ((h + 1) % cap) n (mod-lt (h + 1) (omega arith))
          λ m q e. out (suc m) (omega arith) (sym (ring_step h m) ∙ e))

  -- Fewer than `cap` steps apart, two places differ.
  steps_apart : (h m n : ℕ) → h < cap → m < n → n < cap → (h + m) % cap ≢ (h + n) % cap
  steps_apart h m n lt p q e = grind arith

  -- Writing just past a window of fewer than `cap` entries appends to it.
  pub window-push :
      (items : ℕ → ℕ) (x h n : ℕ)
      → h < cap
      → n < cap
      → window (update items ((h + n) % cap) x) h (n + 1) ≡ window items h n ++ (x ∷ [])
  window-push items x h n lt p =
      ap (window (update items ((h + n) % cap) x) h) (add-one n)
      ∙ window-last (update items ((h + n) % cap) x) h n lt
      ∙ ap₂ (λ (s : List ℕ) (y : ℕ). s ++ (y ∷ []))
          (window-update_outside items ((h + n) % cap) x h n lt λ m q. steps_apart h m n lt q p)
          (update_self items ((h + n) % cap) x)

  pub window-first :
      (items : ℕ → ℕ) (h n : ℕ)
      → 0 < n
      → window items h n ≡ items h ∷ window items ((h + 1) % cap) (n - 1)
  window-first items h zero p = elim p [ ]
  window-first items h (suc n) p = ap (λ t. items h ∷ window items ((h + 1) % cap) t) (omega arith)

  pub window-zero : (items : ℕ → ℕ) (h n : ℕ) → n ≡ 0 → window items h n ≡ []
  window-zero items h zero e = refl
  window-zero items h (suc n) e = absurd (omega arith)
