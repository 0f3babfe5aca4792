-- ===== src/Driver/Blocks.antt =====
-- The RAM disk of src/driver.rs as an array of blocks.
use open_kernel.Base.{
  ℕ, zero, suc, ◌<◌, ◌≤◌, ◌≡◌, sym, subst, nat_beq_iff, ◌∙◌, get_elem?-some, true, some, List, [],
  ◌∷◌, ◌++◌, arith, le→leb, ◌==◌, nat_eq, if◌then◌else◌, length, get_elem?, set, take, drop,
  replicate, length-take, length-replicate, get_elem?-set_self, get_elem?-set_ne, Bool-cases, inl,
  inr,
}
use open_kernel.Driver.RamDisk
use open_kernel.Driver.RamDisk.{RamDiskDriver, read_block, write_block, copy_from_slice}

abbrev pub Sized : ℕ → List (List ℕ) → Type 0
Sized n [] = Unit
Sized n (b ∷ blocks) = (length b ≡ n) × Sized n blocks

-- Each block has the block size.
abbrev pub IsValid : RamDiskDriver → Type 0
IsValid d = Sized d.block_size d.blocks

Sized-get :
    {n : ℕ} (blocks : List (List ℕ)) (i : ℕ) {b : List ℕ}
    → Sized n blocks
    → get_elem? blocks i ≡ some b
    → length b ≡ n
Sized-get [] i v h = absurd cc
Sized-get {n} (c ∷ blocks) zero (e, _) h = ground arith
Sized-get (c ∷ blocks) (suc i) (_, v) h = Sized-get blocks i v h

Sized-set :
    {n : ℕ} (blocks : List (List ℕ)) (i : ℕ) (b : List ℕ)
    → Sized n blocks
    → length b ≡ n
    → Sized n (set blocks i b)
Sized-set [] i b v h = v
Sized-set (c ∷ blocks) zero b (_, v) h = (h, v)
Sized-set (c ∷ blocks) (suc i) b (e, v) h = (e, Sized-set blocks i b v h)

Sized-replicate : {n : ℕ} (k : ℕ) (b : List ℕ) → length b ≡ n → Sized n (replicate k b)
Sized-replicate zero b h = tt
Sized-replicate (suc k) b h = (h, Sized-replicate k b h)

taken : (n : ℕ) (xs : List ℕ) → n ≤ length xs → length (take n xs) ≡ n
taken n xs h = omega (arith, length-take n xs)

-- A read looks at one block.
same :
    (d : RamDiskDriver) (blocks : List (List ℕ)) (id : ℕ) (out : List ℕ)
    → get_elem? blocks id ≡ get_elem? d.blocks id
    → read_block (record d { blocks = blocks }) id out ≡ read_block d id out
unfolding read_block
same d blocks id out g = rw (g, read_block)

copied : (dst src : List ℕ) → length dst ≡ length src → copy_from_slice dst src ≡ some src
copied dst src h = ground arith

-- A disk of zeros, with blocks of the size that it says.
pub new-IsValid : (block_count block_size : ℕ) → IsValid (RamDisk.new block_count block_size)
new-IsValid k n = Sized-replicate k _ (length-replicate n 0)

write_block_at :
    (d : RamDiskDriver) (id : ℕ) (buf block : List ℕ)
    → get_elem? d.blocks id ≡ some block
    → length block ≡ d.block_size
    → d.block_size ≤ length buf
    → write_block d id buf
      ≡ some (true, record d { blocks = set d.blocks id (take d.block_size buf) })
unfolding write_block
write_block_at d id buf block e l h = rw (
  e,
  le→leb d.block_size (length buf) h,
  copied block (take d.block_size buf) (l ∙ sym (taken d.block_size buf h)),
  write_block,
)

read_block_at :
    (d : RamDiskDriver) (id : ℕ) (buf block : List ℕ)
    → get_elem? d.blocks id ≡ some block
    → length block ≡ d.block_size
    → d.block_size ≤ length buf
    → read_block d id buf ≡ some (true, block ++ drop d.block_size buf)
unfolding read_block
read_block_at d id buf block e l h = rw (
  e,
  le→leb d.block_size (length buf) h,
  copied (take d.block_size buf) block (taken d.block_size buf h ∙ sym l),
  read_block,
)

-- On a disk whose blocks have its block size, a write of a buffer that holds a block into a block
-- that exists succeeds, without a panic, and leaves such a disk. A read of that block into a buffer
-- that holds a block then gives the bytes written and leaves the bytes behind them alone, and a read
-- of another block gives what it gave before.
pub read_block-write_block :
    (d : RamDiskDriver) (id other : ℕ) (buf out : List ℕ)
    → IsValid d
    → id < length d.blocks
    → d.block_size ≤ length buf
    → d.block_size ≤ length out
    → (written : RamDiskDriver) × (write_block d id buf ≡ some (true, written))
      × IsValid written
      × (read_block written other out ≡ (
          if id == other
          then some (true, take d.block_size buf ++ drop d.block_size out)
          else read_block d other out))
read_block-write_block d id other buf out v lt h g =
    let (block, e) = get_elem?-some d.blocks id lt in
    let len = taken d.block_size buf h in
    let written : RamDiskDriver = record d { blocks = set d.blocks id (take d.block_size buf) } in
    (
      written,
      write_block_at d id buf block e (Sized-get d.blocks id v e) h,
      Sized-set d.blocks id _ v len,
      elim (Bool-cases (id == other)) [
        | inl p ↦ rw p (
            subst
              (λ k.
                read_block written k out
                ≡ some (true, take d.block_size buf ++ drop d.block_size out))
              ((nat_beq_iff id other).0 p)
              (read_block_at written id out (take d.block_size buf)
                (get_elem?-set_self d.blocks id _ lt) len g))
        | inr p ↦ rw p (
            same d written.blocks other out
              (get_elem?-set_ne d.blocks _ (λ q. ground (arith, nat_beq_iff id other))))
      ],
    )
