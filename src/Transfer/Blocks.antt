-- ===== src/Transfer/Blocks.antt =====
-- The blocks of a file: `BlockIterator` of tema1/client/src/file/mod.rs.
use mathlib.Core.List.{flatten}
use laborator_pcd.Base.{
  ℕ, zero, suc, ◌+◌, ◌-◌, ◌≤◌, ◌<◌, ◌≡◌, refl, sym, ap, ◌∙◌, leb, if◌then◌else◌, Bool-cases, inl,
  inr, Option, none, some, List, [], ◌∷◌, ◌++◌, arith, length, All, take, drop, take-drop,
  length-take, length-drop, drop-drop, drop_all,
}
use laborator_pcd.Transfer.Wire.{Bytes}

pub record BlockIterator : Type 0 where
  pub content : Bytes
  pub block_size : ℕ
  pub current_pos : ℕ

abbrev pub end_of : BlockIterator → ℕ
end_of it =
    if leb (it.current_pos + it.block_size) (length it.content)
    then it.current_pos + it.block_size
    else length it.content

unfoldable pub next : BlockIterator → Option (Bytes × BlockIterator)
next it =
    if leb (length it.content) it.current_pos
    then none
    else some (
      take (end_of it - it.current_pos) (drop it.current_pos it.content),
      record it { current_pos = end_of it },
    )

abbrev pub go_on :
    Option (Bytes × BlockIterator) → (BlockIterator → Option (List Bytes)) → Option (List Bytes)
go_on none more = some []
go_on (some (chunk, it)) more = elim (more it) [ none ↦ none | some chunks ↦ some (chunk ∷ chunks) ]

-- The blocks that a `for` over the iterator meets; `none` if it does not end in so many steps.
unfoldable pub blocks : ℕ → BlockIterator → Option (List Bytes)
unfolding next
blocks zero it = none
blocks (suc fuel) it = go_on (next it) (λ it'. blocks fuel it')

abbrev pub IsBlock : ℕ → Bytes → Type 0
IsBlock size b = (0 < length b) × (length b ≤ size)

blocks-suffix :
    (fuel : ℕ) (it : BlockIterator)
    → 0 < it.block_size
    → it.current_pos ≤ length it.content
    → length it.content < it.current_pos + fuel
    → (bs : List Bytes) × (blocks fuel it ≡ some bs)
      × (flatten bs ≡ drop it.current_pos it.content)
      × All (IsBlock it.block_size) bs
unfolding blocks next flatten
blocks-suffix zero it size within enough = absurd (omega arith)
blocks-suffix (suc fuel) it size within enough =
    elim (Bool-cases (leb (length it.content) it.current_pos)) [
      | inl e ↦ rw e ([], refl, sym (drop_all it.current_pos it.content (ground arith)), tt)
      | inr e ↦
          let n = end_of it - it.current_pos in
          let long : (it.current_pos < end_of it)
              × (n ≤ it.block_size)
              × (end_of it ≤ length it.content) =
            ground arith in
          let (bs, done, joined, all) =
            blocks-suffix fuel (record it { current_pos = end_of it }) size long.2
              (omega (arith, long)) in
          let rest = drop it.current_pos it.content in
          let left = length-drop it.current_pos it.content in
          let taken = length-take n rest (omega (arith, left, long)) in
          let next_drop : drop n rest ≡ drop (end_of it) it.content =
            drop-drop n it.current_pos it.content
            ∙ ap (λ k. drop k it.content) (omega (arith, long)) in
          rw (e, done)
            (
              take n rest ∷ bs,
              refl,
              ap (λ r. take n rest ++ r) (joined ∙ sym next_drop) ∙ take-drop n rest,
              ((omega (arith, taken, long), omega (arith, taken, long)), all),
            )
    ]

-- Within as many steps as the file has bytes and one more, the loop over the blocks of a file ends.
-- Joined, they are the file, and none is empty or larger than the block size.
pub blocks-file :
    (content : Bytes) (size : ℕ)
    → 0 < size
    → (bs : List Bytes) × (blocks
          (suc (length content))
          (record { content = content; block_size = size; current_pos = 0 })
        ≡ some bs)
      × (flatten bs ≡ content)
      × All (IsBlock size) bs
blocks-file content size h = unfold drop in blocks-suffix _ _ h (omega arith) (omega arith)
