-- ===== src/Retirement/Chunks.antt =====
-- `chunkArray` of src/services/soroban.service.ts.
use stellar_kraal_backend.Prelude.{
  ltb, Bool-cases, length, take, drop, concat, All, take-append-drop, drop-drop, drop-all, take-pos,
  length-drop, length-take-le, ℕ, zero, suc, ◌+◌, ◌-◌, ◌≤◌, ◌<◌, ◌≡◌, refl, sym, inl, inr, none,
  some, List, [], ◌∷◌, arith,
}
use stellar_kraal_backend.Retirement.{chunk_from, chunk_array}

module _ {ℓ} {A : Type ℓ} where
  abbrev pub IsChunk : ℕ → List A → Type 0
  IsChunk size chunk = (0 < length chunk) × (length chunk ≤ size)

  chunk_from-concat :
      (fuel : ℕ) (items : List A) (size i : ℕ)
      → 0 < size
      → length items - i < fuel
      → (chunks : List (List A)) × (chunk_from fuel items size i ≡ some chunks)
        × (concat chunks ≡ drop i items)
        × All (IsChunk size) chunks
  unfolding chunk_from
  chunk_from-concat zero items size i pos enough = absurd (omega arith)
  chunk_from-concat (suc fuel) items size i pos enough = elim (Bool-cases (ltb i (length items))) [
    | inl more ↦
        let (chunks, e, whole, fits) =
          chunk_from-concat fuel items size (i + size) pos (ground arith) in
        (
          take size (drop i items) ∷ chunks,
          rw (more, e),
          rw whole (rw (← drop-drop size i items) (take-append-drop size (drop i items))),
          (
            (
              take-pos size (drop i items) pos (ground (arith, length-drop i items)),
              length-take-le size (drop i items),
            ),
            fits,
          ),
        )
    | inr done ↦ ([], rw done, sym (drop-all i items (ground arith)), tt)
  ]

  -- With a size of at least 1 the loop ends; the chunks joined are the items in order, and each is
  -- non-empty and at most `size` long.
  pub concat-chunk_array :
      (items : List A) (size : ℕ)
      → 0 < size
      → (chunks : List (List A)) × (chunk_array items size ≡ some chunks)
        × (concat chunks ≡ items)
        × All (IsChunk size) chunks
  unfolding chunk_array
  concat-chunk_array items size pos =
      chunk_from-concat (suc (length items)) items size 0 pos (omega arith)

  -- With size 0 and at least one item the loop never ends: no amount of fuel is enough.
  pub chunk_from-zero_size :
      (fuel : ℕ) (items : List A) → 0 < length items → chunk_from fuel items 0 0 ≡ none
  unfolding chunk_from
  chunk_from-zero_size zero items h = refl
  chunk_from-zero_size (suc fuel) items h = ground (arith, chunk_from-zero_size fuel items h)
