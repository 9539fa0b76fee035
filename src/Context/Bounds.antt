-- ===== src/Context/Bounds.antt =====
-- Compacted histories are within the limit.
use doppel_agent.Prelude.{ℕ, ◌*◌, ◌<◌, ◌≡◌, refl, List, [], ◌∷◌, arith, Result, ok, err}
use doppel_agent.Context.{
  Message, Policy, ContextError, new_policy, estimate_tokens, group_messages, compact, finished,
  shrunk, compact_long,
}

module _ (encoded_size : List Message → ℕ) where
  finished_lt :
      (p : Policy) (ms out : List Message)
      → finished encoded_size p ms ≡ ok out
      → estimate_tokens encoded_size out < p.limit_tokens
  finished_lt p ms out h = ground (arith, h)

  calm_lt : (e limit ratio scale : ℕ) → ratio < scale → e * scale < limit * ratio → e < limit
  calm_lt e limit ratio scale r h = grind arith

  shrunk_lt :
      (p : Policy) (prefix : List Message) (groups : List (List Message)) (out : List Message)
      → shrunk encoded_size p prefix groups ≡ ok out
      → estimate_tokens encoded_size out < p.limit_tokens
  shrunk_lt p prefix groups out h = finished_lt p _ out h

  compact_long_lt :
      (p : Policy) (ms out : List Message)
      → compact_long encoded_size p ms ≡ ok out
      → estimate_tokens encoded_size out < p.limit_tokens
  compact_long_lt p [] out h = finished_lt p [] out h
  compact_long_lt p (a ∷ []) out h = finished_lt p (a ∷ []) out h
  compact_long_lt p (a ∷ b ∷ []) out h = finished_lt p (a ∷ b ∷ []) out h
  compact_long_lt p (a ∷ b ∷ c ∷ ms) out h = by_groups (group_messages (c ∷ ms)) refl
    where
      by_groups :
          (r : Result ContextError (List (List Message)))
          → group_messages (c ∷ ms) ≡ r
          → estimate_tokens encoded_size out < p.limit_tokens
      by_groups (err e) k = absurd (ground (arith, k, h))
      by_groups (ok groups) k = shrunk_lt p (a ∷ b ∷ []) groups out (ground (arith, k, h))

  -- Whatever the sizes of messages are, a history that compaction returns is estimated below the limit
  -- of its policy, whether it was returned as it was, shortened or compacted.
  pub compact-estimate_tokens :
      (limit ratio scale : ℕ) (p : Policy) (ms out : List Message)
      → new_policy limit ratio scale ≡ ok p
      → compact encoded_size p ms ≡ ok out
      → estimate_tokens encoded_size out < limit
  unfolding new_policy compact
  compact-estimate_tokens limit ratio scale p ms out e h = ground (
    arith,
    e,
    h,
    compact_long_lt p ms out,
    calm_lt (estimate_tokens encoded_size ms) limit ratio scale,
  )
