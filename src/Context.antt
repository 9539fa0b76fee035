-- ===== src/Context.antt =====
-- context/policy.py: `ContextPolicy.compact`. The size of messages as JSON is given, and the ratio of the
-- warning is a fraction.
pub mod Bounds
pub mod Tests
use doppel_agent.Prelude.{
  ℕ, zero, suc, ◌+◌, ◌*◌, ◌/◌, String, Bool, true, false, not, ◌&&◌, ◌||◌, Option, none, some, List,
  [], ◌∷◌, ◌++◌, str_eq, if◌then◌else◌, ltb, leb, ◌==◌, length, map, text_length, Result, ok, err,
}

-- The content of a message: its own, cut to 4,000 characters, or the note on what was compacted, with
-- the number of groups and the names of their tools.
pub data Content : Type 0 where
  text : String → Content
  cut_text : String → Content
  compaction_note : ℕ → List String → Content

pub record Message : Type 0 where
  pub role : String
  pub content : Content
  pub tool_calls : List String

pub data ContextError : Type 0 where
  budget_exceeded invalid_history invalid_policy : ContextError

-- The policy, with its ratio as `ratio / scale`.
pub record Policy : Type 0 where
  pub limit_tokens : ℕ
  pub ratio : ℕ
  pub scale : ℕ

-- `__init__`
unfoldable pub new_policy : ℕ → ℕ → ℕ → Result ContextError Policy
new_policy limit ratio scale =
    if ltb limit 256 || not (ltb 0 ratio && ltb ratio scale)
    then err invalid_policy
    else ok (record { limit_tokens = limit; ratio = ratio; scale = scale })

abbrev pub concat : List (List Message) → List Message
concat [] = []
concat (g ∷ gs) = g ++ concat gs

-- the loop over the messages behind the prefix, with the groups so far; the group that is open is apart
unfoldable pub grouped : List Message → List Message → Result ContextError (List (List Message))
grouped group [] = ok (group ∷ [])
grouped group (m ∷ ms) =
    let joined = grouped (group ++ (m ∷ [])) ms in
    let opened = grouped (m ∷ []) ms in
    if str_eq m.role "assistant"
    then elim opened [ err e ↦ err e | ok gs ↦ ok (group ∷ gs) ]
    else joined

unfoldable pub group_messages : List Message → Result ContextError (List (List Message))
group_messages [] = ok []
group_messages (m ∷ ms) =
    if str_eq m.role "assistant" then grouped (m ∷ []) ms else err invalid_history

abbrev cut : Content → Content
cut (text s) = if ltb 4000 (text_length s) then cut_text s else text s
cut c = c

abbrev shortened : Message → Message
shortened m = if str_eq m.role "tool" then record m { content = cut m.content } else m

abbrev first_calls : List Message → List String
first_calls [] = []
first_calls (m ∷ ms) = m.tool_calls

abbrev all_calls : List (List Message) → List String
all_calls [] = []
all_calls (g ∷ gs) = first_calls g ++ all_calls gs

abbrev note_of : List (List Message) → List Message
note_of [] = []
note_of (g ∷ gs) =
    record {
      role = "system";
      content = compaction_note (suc (length gs)) (all_calls (g ∷ gs));
      tool_calls = [];
    }
    ∷ []

module _ (encoded_size : List Message → ℕ) where
  -- `estimate_tokens`
  unfoldable pub estimate_tokens : List Message → ℕ
  estimate_tokens ms = let tokens = (encoded_size ms + 3) / 4 in if ltb tokens 1 then 1 else tokens

  -- at the warning ratio of the limit or above it
  abbrev pub is_warned : Policy → List Message → Bool
  is_warned p ms = not (ltb (estimate_tokens ms * p.scale) (p.limit_tokens * p.ratio))

  -- the loop that drops groups: those dropped, and those that are left
  unfoldable pub drop_groups :
      Policy → List Message → List (List Message) → List (List Message) × List (List Message)
  drop_groups p prefix [] = ([], [])
  drop_groups p prefix (g ∷ gs) =
      let rest = drop_groups p prefix gs in
      if ltb 2 (length (g ∷ gs)) && is_warned p (prefix ++ concat (g ∷ gs))
      then (g ∷ rest.0, rest.1)
      else ([], g ∷ gs)

  abbrev pub finished : Policy → List Message → Result ContextError (List Message)
  finished p ms = if leb p.limit_tokens (estimate_tokens ms) then err budget_exceeded else ok ms

  abbrev pub shrunk :
      Policy → List Message → List (List Message) → Result ContextError (List Message)
  shrunk p prefix groups =
      let kept = drop_groups p prefix groups in
      let compacted = prefix ++ (note_of kept.0 ++ concat kept.1) in
      finished p (if is_warned p compacted then map shortened compacted else compacted)

  abbrev pub compact_long : Policy → List Message → Result ContextError (List Message)
  compact_long p (a ∷ b ∷ c ∷ ms) = elim (group_messages (c ∷ ms)) [
    | err e ↦ err e
    | ok groups ↦ shrunk p (a ∷ b ∷ []) groups
  ]
  compact_long p ms = finished p ms

  -- `compact`
  unfoldable pub compact : Policy → List Message → Result ContextError (List Message)
  compact p ms = if is_warned p ms then compact_long p ms else ok ms
