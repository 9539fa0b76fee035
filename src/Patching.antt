-- ===== src/Patching.antt =====
-- src/doppel_agent/workspace/patching.py: the replacements of `apply` and their rollback, among other
-- processes that change files and calls that fail.
pub mod Effects
pub mod Undone
pub mod Rollback
pub mod Applied
pub mod Tests
use doppel_agent.Prelude.{
  ℕ, suc, String, Bool, true, false, not, ◌&&◌, List, [], ◌∷◌, Option, none, some, str_eq, ◌==◌,
  if◌then◌else◌, lookup, assign, pop,
}

-- A regular file. The identity stands for the fields of `_identity`: every write gives a new one.
pub record File : Type 0 where
  pub content : String
  pub mode : ℕ
  pub identity : ℕ

-- A change that passed the checks of `apply`: what is to stand at the path, the file that its
-- snapshot found, and the mode of the new file.
pub record Change : Type 0 where
  pub path : String
  pub content : Option String
  pub base : Option File
  pub after_mode : ℕ

pub data Outcome : Type 0 where
  unchanged applied preserved rolled_back unknown : Outcome

-- What happens at one call to the system: other processes change the files, and the call may fail.
pub record Turn : Type 0 where
  pub others : List (String × File) → List (String × File)
  pub fails : Bool

-- The files by path, the turns to come, all quiet behind the last one, and the next identity.
pub record Run : Type 0 where
  pub disk : List (String × File)
  pub turns : List Turn
  pub fresh : ℕ

abbrev pub take_first : List Turn → Run → Bool × Run
take_first [] run = (false, run)
take_first (t ∷ ts) run = (t.fails, record run { disk = t.others run.disk; turns = ts })

-- whether a call fails, behind what others do
abbrev pub take_turn : Run → Bool × Run
take_turn run = take_first run.turns run

abbrev pub seen : String → Bool × Run → Option (Option File) × Run
seen path (true, run) = (none, run)
seen path (false, run) = (some (lookup path run.disk), run)

-- `_snapshot`: none where it raises, else the file if there is one
unfoldable pub snapshot : String → Run → Option (Option File) × Run
snapshot path run = seen path (take_turn run)

-- there is nothing to remove where no file stands
abbrev pub removed : String → Option File → Run → Bool × Run
removed path none run = (false, run)
removed path (some _) run = (true, record run { disk = pop path run.disk })

abbrev pub placed : String → Option (String × ℕ) → Bool × Run → Bool × Run
placed path target (true, run) = (false, run)
placed path none (false, run) = removed path (lookup path run.disk) run
placed path (some (content, mode)) (false, run) = (
  true,
  record run {
    disk = assign path (record { content = content; mode = mode; identity = run.fresh }) run.disk;
    fresh = suc run.fresh;
  },
)

-- `os.replace` of a temporary file, or `unlink`; false where it raises
unfoldable pub put : String → Option (String × ℕ) → Run → Bool × Run
put path target run = placed path target (take_turn run)

abbrev pub target_of : Change → Option (String × ℕ)
target_of c = elim c.content [ none ↦ none | some content ↦ some (content, c.after_mode) ]

-- hash and mode of a file are those of a content; a hash stands for the content that it is of
abbrev pub has_content : Option (String × ℕ) → Option File → Bool
has_content none none = true
has_content (some (content, mode)) (some f) = str_eq f.content content && (f.mode == mode)
has_content _ _ = false

abbrev pub same_file : Option File → Option File → Bool
same_file none none = true
same_file (some f) (some g) =
    (str_eq f.content g.content && (f.mode == g.mode)) && (f.identity == g.identity)
same_file _ _ = false

-- An entry of `replaced`, with the outcome of its file.
pub record Done : Type 0 where
  pub change : Change
  pub committed : Option File
  pub outcome : Outcome

-- How one round of the loop ends: the entry that it adds, if any, and whether it raises.
pub record Round : Type 0 where
  pub entry : Option Done
  pub raised : Bool
  pub run : Run

abbrev pub observed : Change → Option (Option File) × Run → Round
observed c (none, run) = record {
  entry = some (record { change = c; committed = none; outcome = unchanged });
  raised = true;
  run = run;
}
observed c (some now, run) =
    if has_content (target_of c) now
    then record {
      entry = some (record { change = c; committed = now; outcome = applied });
      raised = false;
      run = run;
    }
    else record {
      entry = some (record { change = c; committed = none; outcome = preserved });
      raised = true;
      run = run;
    }

abbrev pub stopped : Run → Round
stopped run = record { entry = none; raised = true; run = run }

abbrev pub replaced : Change → Bool × Run → Round
replaced c (false, run) = stopped run
replaced c (true, run) = observed c (snapshot c.path run)

abbrev pub compared : Change → Option (Option File) × Run → Round
compared c (none, run) = stopped run
compared c (some now, run) =
    if same_file now c.base then replaced c (put c.path (target_of c) run) else stopped run

-- One round of the loop over the snapshots
unfoldable pub commit_change : Change → Run → Round
commit_change c run = compared c (snapshot c.path run)

-- `replaced`, its last entry first
pub record Committed : Type 0 where
  pub entries : List Done
  pub raised : Bool
  pub run : Run

abbrev pub with_entry : Option Done → List Done → List Done
with_entry none entries = entries
with_entry (some d) entries = d ∷ entries

-- The loop: it ends with the first round that raises.
unfoldable pub commit_changes : List Change → List Done → Run → Committed
commit_changes [] entries run = record { entries = entries; raised = false; run = run }
commit_changes (c ∷ cs) entries run =
    let round = commit_change c run in
    let rest = commit_changes cs (with_entry round.entry entries) round.run in
    if round.raised
    then record { entries = with_entry round.entry entries; raised = true; run = round.run }
    else rest

abbrev pub is_applied : Outcome → Bool
is_applied applied = true
is_applied _ = false

abbrev pub restored : Bool × Run → Outcome × Run
restored (true, run) = (rolled_back, run)
restored (false, run) = (unknown, run)

abbrev pub cleared : Outcome → Bool × Run → Outcome × Run
cleared o (true, run) = (unknown, run)
cleared o (false, run) = (o, run)

-- the temporary file is removed whether or not it replaced the new file, which may fail as well
abbrev pub cleaned : Bool × Run → Outcome × Run
cleaned (true, run) = cleared rolled_back (take_turn run)
cleaned (false, run) = cleared unknown (take_turn run)

-- the temporary file with the old content may fail before it replaces the new file
abbrev pub rewritten : String → File → Bool × Run → Outcome × Run
rewritten path f (true, run) = (unknown, run)
rewritten path f (false, run) = cleaned (put path (some (f.content, f.mode)) run)

abbrev pub restore : String → Option File → Run → Outcome × Run
restore path none run = restored (put path none run)
restore path (some f) run = rewritten path f (take_turn run)

abbrev pub examined : Done → Option (Option File) × Run → Outcome × Run
examined d (none, run) = (unknown, run)
examined d (some now, run) =
    if is_applied d.outcome && (has_content (target_of d.change) now && same_file now d.committed)
    then restore d.change.path d.change.base run
    else (preserved, run)

-- One round of the rollback
unfoldable pub roll_back : Done → Run → Outcome × Run
roll_back d run = examined d (snapshot d.change.path run)

-- The rollback of `reversed(replaced)`, with the outcomes by path
unfoldable pub roll_back_all : List Done → Run → List (String × Outcome) × Run
roll_back_all [] run = ([], run)
roll_back_all (d ∷ ds) run =
    let r = roll_back d run in
    let rest = roll_back_all ds r.1 in ((d.change.path, r.0) ∷ rest.0, rest.1)

pub record Result : Type 0 where
  pub raised : Bool
  pub outcomes : List (String × Outcome)
  pub run : Run

abbrev outcomes_of : List Done → List (String × Outcome)
outcomes_of [] = []
outcomes_of (d ∷ ds) = (d.change.path, d.outcome) ∷ outcomes_of ds

abbrev pub finished : Committed → Result
finished c =
    let back = roll_back_all c.entries c.run in
    if c.raised
    then record { raised = true; outcomes = back.0; run = back.1 }
    else record { raised = false; outcomes = outcomes_of c.entries; run = c.run }

-- `apply` behind its checks, from the first round of the loop to its outcomes; a path without an
-- outcome is unchanged. The temporary files of the new contents are made before and removed behind it.
unfoldable pub apply_changes : List Change → Run → Result
apply_changes changes run = finished (commit_changes changes [] run)
