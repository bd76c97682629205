-- ===== src/Service/Paging.antt =====
-- explorerBlocks read page by page: each request has the cursor of the answer before it.
use mathlib.Core.List.{append-nil}
use pokoinpos.Prelude.{
  ℕ, zero, suc, ◌≤◌, ◌<◌, Option, none, some, List, [], ◌∷◌, ◌++◌, ◌≡◌, refl, ap, ◌∙◌, sym, ◌⊎◌,
  inl, inr, arith, length,
}
use pokoinpos.Prelude.Int.{pos}
use pokoinpos.Explorer.{ExplorerBlock, ExplorerIndex}
use pokoinpos.Explorer.Rpc.{block_at}
use pokoinpos.Service.Explore.{blocks_down, last_number, block_page}

-- A block as the list has it.
abbrev bare_block : ExplorerBlock → ExplorerBlock
bare_block b = record b { transactions = [] }

-- All blocks of the index from a height down.
unfoldable pub all_down : ExplorerIndex → ℕ → List ExplorerBlock
all_down idx zero = elim (block_at idx (pos 0)) [ none ↦ [] | some b ↦ bare_block b ∷ [] ]
all_down idx (suc height) = elim (block_at idx (pos (suc height))) [
  | none ↦ all_down idx height
  | some b ↦ bare_block b ∷ all_down idx height
]

-- All blocks below a height.
unfoldable pub all_below : ExplorerIndex → ℕ → List ExplorerBlock
all_below idx zero = []
all_below idx (suc height) = all_down idx height

-- Each block is found at its number.
abbrev pub IsNumbered : ExplorerIndex → Type 0
IsNumbered idx =
    (height : ℕ) (b : ExplorerBlock) → block_at idx (pos height) ≡ some b → b.number ≡ height

-- A page from a height is all that there is, or it is full and ends at a number; what follows lies below.
abbrev IsPage : ExplorerIndex → ℕ → ℕ → List ExplorerBlock → Type 0
IsPage idx height room blocks =
    ((length blocks < room) × (all_down idx height ≡ blocks))
    ⊎ ((n : ℕ) × (n ≤ height)
        × (last_number 0 blocks ≡ n)
        × (length blocks ≡ room)
        × (all_down idx height ≡ blocks ++ all_below idx n))

last_number-cons :
    (n : ℕ) (b : ExplorerBlock) (rest : List ExplorerBlock)
    → 0 < length rest
    → last_number n (b ∷ rest) ≡ last_number 0 rest
unfolding last_number
last_number-cons n b [] h = absurd (omega arith)
last_number-cons n b (c ∷ rest) h = refl

IsPage-one :
    (idx : ExplorerIndex) (room : ℕ) (found : Option ExplorerBlock)
    → ((b : ExplorerBlock) → found ≡ some b → b.number ≡ 0)
    → block_at idx (pos 0) ≡ found
    → IsPage idx 0 (suc room) (elim found [ none ↦ [] | some b ↦ bare_block b ∷ [] ])
unfolding all_down all_below last_number
IsPage-one idx room none h e = inl (omega arith, rw (all_down, e) refl)
IsPage-one idx zero (some b) h e = inr (0, omega arith, h b refl, refl, rw (all_down, e) refl)
IsPage-one idx (suc room) (some b) h e = inl (omega arith, rw (all_down, e) refl)

-- A height without a block.
IsPage-without :
    (idx : ExplorerIndex) (height room : ℕ) (blocks : List ExplorerBlock)
    → block_at idx (pos (suc height)) ≡ none
    → IsPage idx height room blocks
    → IsPage idx (suc height) room blocks
unfolding all_down
IsPage-without idx height room blocks e (inl (short, same)) = inl (short, rw (all_down, e) same)
IsPage-without idx height room blocks e (inr (n, below, last, full, same)) =
    inr (n, omega arith, last, full, rw (all_down, e) same)

-- A block that fills the page.
IsPage-filled :
    (idx : ExplorerIndex) (height : ℕ) (b : ExplorerBlock)
    → b.number ≡ suc height
    → block_at idx (pos (suc height)) ≡ some b
    → IsPage idx (suc height) 1 (bare_block b ∷ [])
unfolding all_down all_below last_number
IsPage-filled idx height b h e = inr (suc height, omega arith, h, refl, rw (all_down, e) refl)

-- A block in front of a page.
IsPage-with :
    (idx : ExplorerIndex) (height room : ℕ) (b : ExplorerBlock) (blocks : List ExplorerBlock)
    → block_at idx (pos (suc height)) ≡ some b
    → IsPage idx height (suc room) blocks
    → IsPage idx (suc height) (suc (suc room)) (bare_block b ∷ blocks)
unfolding all_down
IsPage-with idx height room b blocks e (inl (short, same)) =
    inl (omega arith, rw (all_down, e) (ap (λ rest. bare_block b ∷ rest) same))
IsPage-with idx height room b blocks e (inr (n, below, last, full, same)) = inr (
  n,
  omega arith,
  last_number-cons 0 (bare_block b) blocks (omega arith) ∙ last,
  ap suc full,
  rw (all_down, e) (ap (λ rest. bare_block b ∷ rest) same),
)

blocks_down-zero : (idx : ExplorerIndex) (height : ℕ) → blocks_down idx height 0 ≡ []
unfolding blocks_down
blocks_down-zero idx zero = refl
blocks_down-zero idx (suc height) = refl

-- The page of one more height, by what is found there.
IsPage-step :
    (idx : ExplorerIndex) (height room : ℕ) (found : Option ExplorerBlock)
    → ((b : ExplorerBlock) → found ≡ some b → b.number ≡ suc height)
    → block_at idx (pos (suc height)) ≡ found
    → ((r : ℕ) → IsPage idx height (suc r) (blocks_down idx height (suc r)))
    → IsPage idx (suc height) (suc room) (elim found [
      | none ↦ blocks_down idx height (suc room)
      | some b ↦ bare_block b ∷ blocks_down idx height room
    ])
IsPage-step idx height room none h e lower = IsPage-without idx height (suc room) _ e (lower room)
IsPage-step idx height zero (some b) h e lower =
    rw (blocks_down-zero idx height) (IsPage-filled idx height b (h b refl) e)
IsPage-step idx height (suc room) (some b) h e lower =
    IsPage-with idx height room b _ e (lower room)

blocks_down-IsPage :
    (idx : ExplorerIndex) (height room : ℕ)
    → IsNumbered idx
    → IsPage idx height (suc room) (blocks_down idx height (suc room))
unfolding blocks_down
blocks_down-IsPage idx zero room h = IsPage-one idx room (block_at idx (pos 0)) (h 0) refl
blocks_down-IsPage idx (suc height) room h =
    IsPage-step idx height room (block_at idx (pos (suc height))) (h (suc height)) refl
      (λ r. blocks_down-IsPage idx height r h)

-- The two parts of an answer.
unfoldable pub page_blocks : ExplorerIndex → ℕ → ℕ → List ExplorerBlock
page_blocks idx cursor room = (block_page idx (pos cursor) room).0

unfoldable pub next_cursor : ExplorerIndex → ℕ → ℕ → Option ℕ
next_cursor idx cursor room = (block_page idx (pos cursor) room).1

next_short :
    (idx : ExplorerIndex) (cursor room : ℕ)
    → length (blocks_down idx cursor room) < room
    → next_cursor idx cursor room ≡ none
unfolding next_cursor block_page
next_short idx cursor room h = ground arith

next_end :
    (idx : ExplorerIndex) (cursor room : ℕ)
    → last_number 0 (blocks_down idx cursor room) ≡ 0
    → next_cursor idx cursor room ≡ none
unfolding next_cursor block_page
next_end idx cursor room h = ground arith

next_full :
    (idx : ExplorerIndex) (cursor room n : ℕ)
    → length (blocks_down idx cursor room) ≡ room
    → last_number 0 (blocks_down idx cursor room) ≡ suc n
    → next_cursor idx cursor room ≡ some n
unfolding next_cursor block_page
next_full idx cursor room n full h = ground arith

-- The answers to requests of which each has the cursor of the one before; fuel is their number at most.
unfoldable pub read_blocks : ℕ → ExplorerIndex → ℕ → ℕ → List ExplorerBlock
read_blocks zero idx cursor limit = []
read_blocks (suc fuel) idx cursor limit = elim (next_cursor idx cursor limit) [
  | none ↦ page_blocks idx cursor limit
  | some n ↦ page_blocks idx cursor limit ++ read_blocks fuel idx n limit
]

read_blocks-none :
    (fuel : ℕ) (idx : ExplorerIndex) (cursor limit : ℕ)
    → next_cursor idx cursor limit ≡ none
    → read_blocks (suc fuel) idx cursor limit ≡ blocks_down idx cursor limit
unfolding page_blocks block_page read_blocks
read_blocks-none fuel idx cursor limit e = rw (read_blocks, e) refl

read_blocks-some :
    (fuel : ℕ) (idx : ExplorerIndex) (cursor limit n : ℕ)
    → next_cursor idx cursor limit ≡ some n
    → read_blocks (suc fuel) idx cursor limit
      ≡ blocks_down idx cursor limit ++ read_blocks fuel idx n limit
unfolding page_blocks block_page read_blocks
read_blocks-some fuel idx cursor limit n e = rw (read_blocks, e) refl

-- The block list that is read page by page, from a height on and with pages of any size, has every block
-- of the index from that height down once, in this order, where each block is found at its number; one
-- request more than the height is enough.
pub read_blocks-all_down :
    (fuel : ℕ) (idx : ExplorerIndex) (cursor room : ℕ)
    → IsNumbered idx
    → cursor < fuel
    → read_blocks fuel idx cursor (suc room) ≡ all_down idx cursor
read_blocks-all_down zero idx cursor room h small = absurd (omega arith)
read_blocks-all_down (suc fuel) idx cursor room h small =
    elim (blocks_down-IsPage idx cursor room h) [
      | inl (short, same) ↦
          read_blocks-none fuel idx cursor (suc room) (next_short idx cursor (suc room) short)
          ∙ sym same
      | inr (zero, below, last, full, same) ↦
          read_blocks-none fuel idx cursor (suc room) (next_end idx cursor (suc room) last)
          ∙ sym (unfold all_below in same ∙ append-nil _)
      | inr (suc n, below, last, full, same) ↦
          read_blocks-some fuel idx cursor (suc room) n
            (next_full idx cursor (suc room) n full last)
          ∙ ap (λ rest. blocks_down idx cursor (suc room) ++ rest)
              (read_blocks-all_down fuel idx n room h (omega arith))
          ∙ sym (unfold all_below in same)
    ]
