-- ===== src/Buffer/Manager/Ends.antt =====
-- What the pops of the dynamic mode do with the block at their end.
use libatbus.Base.{
  ℕ, ◌≡◌, refl, ◌∙◌, Bool, true, false, ◌&&◌, Option, none, some, List, [], ◌∷◌, ◌++◌, if_true,
  if_false, ◌==◌,
}
use libatbus.Status.{success}
use libatbus.Buffer.Block.{Block, left_size, block_pop, block_data, malloc}
use libatbus.Buffer.Manager.{
  Limit, pop_front_at, pop_back_at, popped, pop_block, clamp, settle, is_empty, split_last,
  pop_front, pop_back, push_back, push_front, dynamic_push_back, dynamic_push_front, pushed,
  over_limit, charge,
}

-- Whether a pop frees the block.
abbrev pub frees : Block → ℕ → Bool → Bool
frees t s free_unwritable = free_unwritable && left_size (block_pop t (clamp s t)) == 0

module _ (l : Limit) (t : Block) (bs : List Block) (s : ℕ) (f : Bool) where
  freed_block : frees t s f ≡ true → pop_block t (clamp s t) f ≡ none
  unfolding pop_block
  freed_block e = if_true (frees t s f) _ _ e

  kept_block : frees t s f ≡ false → pop_block t (clamp s t) f ≡ some (block_pop t (clamp s t))
  unfolding pop_block
  kept_block e = if_false (frees t s f) _ _ e

  pub pop_front_freed :
      frees t s f ≡ true
      → pop_front (record { dynamic_buffer = t ∷ bs; limit = l }) s f
        ≡ (record { dynamic_buffer = bs; limit = settle l true (is_empty bs) (clamp s t) }, success)
  unfolding pop_front
  pop_front_freed e = rw (freed_block e, pop_front_at, popped) refl

  pub pop_front_kept :
      frees t s f ≡ false
      → pop_front (record { dynamic_buffer = t ∷ bs; limit = l }) s f ≡ (
        record {
          dynamic_buffer = block_pop t (clamp s t) ∷ bs;
          limit = settle l false false (clamp s t);
        },
        success,
      )
  unfolding pop_front is_empty
  pop_front_kept e = rw (kept_block e, pop_front_at, popped) refl

  split_last-append : (bs : List Block) → split_last (bs ++ t ∷ []) ≡ some (bs, t)
  unfolding split_last
  split_last-append [] = refl
  split_last-append (b ∷ bs) = rw (split_last-append bs, split_last) refl

  pub pop_back_freed :
      frees t s f ≡ true
      → pop_back (record { dynamic_buffer = bs ++ t ∷ []; limit = l }) s f
        ≡ (record { dynamic_buffer = bs; limit = settle l true (is_empty bs) (clamp s t) }, success)
  unfolding pop_back
  pop_back_freed e = rw (split_last-append bs, pop_back_at, freed_block e, popped) refl

  is_empty-append : (bs : List Block) (b : Block) → is_empty (bs ++ b ∷ []) ≡ false
  unfolding is_empty
  is_empty-append [] b = refl
  is_empty-append (x ∷ bs) b = refl

  pub pop_back_kept :
      frees t s f ≡ false
      → pop_back (record { dynamic_buffer = bs ++ t ∷ []; limit = l }) s f ≡ (
        record {
          dynamic_buffer = bs ++ block_pop t (clamp s t) ∷ [];
          limit = settle l false false (clamp s t);
        },
        success,
      )
  unfolding pop_back
  pop_back_kept e =
      rw
        (
          split_last-append bs,
          pop_back_at,
          kept_block e,
          popped,
          is_empty-append bs (block_pop t (clamp s t)),
        )
        refl

-- A push that is not over a limit, with the block that is made.
module _ (l : Limit) (bs : List Block) (s : ℕ) (ret : Option ℕ) (b : Block) where
  pub push_back_made :
      over_limit l s ≡ false
      → malloc ret s ≡ some b
      → push_back (record { dynamic_buffer = bs; limit = l }) s ret ≡ (
        record { dynamic_buffer = bs ++ b ∷ []; limit = charge l s },
        success,
        some (block_data b),
      )
  unfolding push_back
  push_back_made e f = if_false (over_limit l s) _ _ e ∙ rw (f, dynamic_push_back, pushed) refl

  pub push_front_made :
      over_limit l s ≡ false
      → malloc ret s ≡ some b
      → push_front (record { dynamic_buffer = bs; limit = l }) s ret
        ≡ (record { dynamic_buffer = b ∷ bs; limit = charge l s }, success, some (block_data b))
  unfolding push_front
  push_front_made e f = if_false (over_limit l s) _ _ e ∙ rw (f, dynamic_push_front, pushed) refl
