-- ===== src/Batcher/Events/Blocks.antt =====
-- The blocks that the batcher handles.
use aligned_layer.Prelude.{
  ℕ, ◌<◌, ◌≡◌, Bool, true, false, Option, none, some, List, [], ◌∷◌, arith, leb, refl,
}
use aligned_layer.Batcher.Events.{BlockPair, block_of, if_newer, with_next_block, handled_blocks}

-- Each number is above the one before it, and the first above `n`.
abbrev pub Rise : ℕ → List ℕ → Type 0
Rise n [] = Unit
Rise n (x ∷ xs) = (n < x) × Rise x xs

if_newer-Rise :
    (continue : ℕ → List ℕ) (last n : ℕ) (v : Bool)
    → ((m : ℕ) → Rise m (continue m))
    → leb n last ≡ v
    → Rise last (if_newer continue last n v)
if_newer-Rise continue last n true h e = h last
if_newer-Rise continue last n false h e = (ground arith, h n)

with_next_block-Rise :
    (continue : ℕ → List ℕ) (last : ℕ) (o : Option ℕ)
    → ((m : ℕ) → Rise m (continue m))
    → Rise last (with_next_block continue last o)
with_next_block-Rise continue last none h = tt
with_next_block-Rise continue last (some n) h = if_newer-Rise continue last n (leb n last) h refl

-- Whatever blocks the two streams of a subscription show, the numbers that are handled rise,
-- from above the last one seen at the start: no block is handled twice.
pub handled_blocks-Rise :
    (last_seen_block : ℕ) (pairs : List BlockPair)
    → Rise last_seen_block (handled_blocks last_seen_block pairs)
unfolding handled_blocks
handled_blocks-Rise last [] = tt
handled_blocks-Rise last (pair ∷ pairs) =
    with_next_block-Rise (λ m. handled_blocks m pairs) last (block_of pair)
      (λ m. handled_blocks-Rise m pairs)
