-- ===== src/Memory/Map.antt =====
-- What the memory map of bootloader_api/src/lib.rs holds.
use open_kernel.Base.{
  ℕ, zero, suc, ◌+◌, ◌≤◌, ◌<◌, ◌≡◌, ◌∙◌, refl, sym, ap, List, [], ◌∷◌, ◌++◌, arith, lt→ltb, length,
  set, take, length-set, append_assoc, append-nil,
}
use open_kernel.Memory.{MemoryRegion, MemoryMap, new, add_region, iter}

-- The regions are added in order.
abbrev pub add_regions : MemoryMap → List MemoryRegion → MemoryMap
add_regions m [] = m
add_regions m (r ∷ rs) = add_regions (add_region m r) rs

take-set :
    {A : Type 0} (i : ℕ) (xs : List A) (x : A)
    → i < length xs
    → take (suc i) (set xs i x) ≡ take i xs ++ x ∷ []
take-set zero [] x h = absurd (omega arith)
take-set (suc i) [] x h = absurd (omega arith)
take-set zero (y ∷ xs) x h = refl
take-set (suc i) (y ∷ xs) x h = ap (λ r. y ∷ r) (take-set i xs x (omega arith))

add_region-free :
    (m : MemoryMap) (r : MemoryRegion)
    → m.next_free_index < length m.regions
    → (iter (add_region m r) ≡ iter m ++ r ∷ [])
      × ((add_region m r).next_free_index ≡ m.next_free_index + 1)
      × (length (add_region m r).regions ≡ length m.regions)
unfolding add_region iter
add_region-free m r h =
    let next : m.next_free_index + 1 ≡ suc m.next_free_index = omega arith in
    rw (lt→ltb m.next_free_index (length m.regions) h) (
      ap (λ k. take k (set m.regions m.next_free_index r)) next
          ∙ take-set m.next_free_index m.regions r h,
      refl,
      length-set m.regions m.next_free_index r,
    )

add_region-full :
    (m : MemoryMap) (r : MemoryRegion) → length m.regions ≤ m.next_free_index → add_region m r ≡ m
unfolding add_region
add_region-full m r h = ground arith

iter-add_regions_from :
    (m : MemoryMap) (room : ℕ) (rs : List MemoryRegion)
    → m.next_free_index + room ≡ length m.regions
    → iter (add_regions m rs) ≡ iter m ++ take room rs
iter-add_regions_from m zero [] h = sym (append-nil (iter m))
iter-add_regions_from m (suc room) [] h = sym (append-nil (iter m))
iter-add_regions_from m zero (r ∷ rs) h =
    rw (add_region-full m r (omega arith)) (iter-add_regions_from m zero rs h)
iter-add_regions_from m (suc room) (r ∷ rs) h =
    let (items, next, same) = add_region-free m r (omega arith) in
    iter-add_regions_from (add_region m r) room rs (omega (arith, next, same))
    ∙ ap (λ l. l ++ take room rs) items
    ∙ append_assoc (iter m) (r ∷ []) (take room rs)

-- A new map that regions are added to holds the first 256 of them, in order.
pub iter-add_regions : (rs : List MemoryRegion) → iter (add_regions new rs) ≡ take 256 rs
unfolding iter
iter-add_regions rs = iter-add_regions_from new 256 rs refl
