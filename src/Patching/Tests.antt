-- ===== src/Patching/Tests.antt =====
-- A trial patch of two files, once with a second replacement that fails.
use doppel_agent.Prelude.{
  ◌≡◌, refl, Bool, true, false, List, [], ◌∷◌, none, some, lookup, assign, distinct, mem,
}
use doppel_agent.Patching.{
  File, Change, rolled_back, unknown, Turn, Run, snapshot, put, has_content, commit_change,
  commit_changes, roll_back, roll_back_all, apply_changes,
}
use doppel_agent.Patching.Effects.{IsQuiet}
use doppel_agent.Patching.Applied.{AllStand, apply_changes-IsPromised, apply_changes-AllStand}

abbrev old : File
old = record { content = "old"; mode = 420; identity = 1 }

-- the first file gets a new content, and the second is made
abbrev trial : List Change
trial =
    record { path = "a"; content = some "new"; base = some old; after_mode = 420 }
    ∷ record { path = "b"; content = some "text"; base = none; after_mode = 420 }
    ∷ []

abbrev turn : Bool → Turn
turn fails = record { others = λ disk. disk; fails = fails }

abbrev start : List Turn → Run
start turns = record { disk = ("a", old) ∷ []; turns = turns; fresh = 2 }

-- the replacement of the second file fails
abbrev failing : Run
failing = start (turn false ∷ turn false ∷ turn false ∷ turn false ∷ turn true ∷ [])

-- the removal of the temporary file of the rollback fails as well
abbrev unclean : Run
unclean = start (
    turn false
    ∷ turn false
    ∷ turn false
    ∷ turn false
    ∷ turn true
    ∷ turn false
    ∷ turn false
    ∷ turn false
    ∷ turn true
    ∷ [])

failing-IsQuiet : IsQuiet failing
unfolding IsQuiet
failing-IsQuiet = (λ d. refl, (λ d. refl, (λ d. refl, (λ d. refl, (λ d. refl, tt)))))

failing_outcomes : (apply_changes trial failing).outcomes ≡ (("a", rolled_back) ∷ [])
unfolding apply_changes commit_changes commit_change snapshot put roll_back_all roll_back lookup
    assign distinct mem
failing_outcomes = refl

unclean_outcomes : (apply_changes trial unclean).outcomes ≡ (("a", unknown) ∷ [])
unfolding apply_changes commit_changes commit_change snapshot put roll_back_all roll_back lookup
    assign distinct mem
unclean_outcomes = refl

apply_changes-IsPromised_example :
    has_content (some ("old", 420)) (lookup "a" (apply_changes trial failing).run.disk) ≡ true
unfolding apply_changes commit_changes commit_change snapshot put roll_back_all roll_back lookup
    assign distinct mem
apply_changes-IsPromised_example =
    apply_changes-IsPromised trial failing "a" failing-IsQuiet refl (refl, (refl, tt)) refl

start-IsQuiet : IsQuiet (start [])
unfolding IsQuiet
start-IsQuiet = tt

apply_changes-AllStand_example : AllStand trial (apply_changes trial (start [])).run.disk
unfolding apply_changes commit_changes commit_change snapshot put lookup assign distinct mem
apply_changes-AllStand_example = apply_changes-AllStand trial (start []) start-IsQuiet refl refl
