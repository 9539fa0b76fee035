-- ===== src/Patching/Rollback.antt =====
-- The rollback keeps what the outcomes promise, where no other process interferes.
use doppel_agent.Prelude.{
  String, ◌≡◌, refl, true, false, List, [], ◌∷◌, Option, none, some, arith, str_eq, eq_iff, lookup,
  All, mem, distinct, inl, inr, Bool-cases,
}
use doppel_agent.Patching.{
  File, Outcome, unchanged, applied, preserved, rolled_back, unknown, Run, has_content, Done,
  roll_back, roll_back_all,
}
use doppel_agent.Patching.Effects.{IsQuiet}
use doppel_agent.Patching.Undone.{kept_target, is_final, IsBack, roll_back-IsBack}

abbrev pub paths : List Done → List String
paths [] = []
paths (d ∷ ds) = d.change.path ∷ paths ds

abbrev pub Disk : Type 0
Disk = List (String × File)

-- What the outcome of a path promises: a path without one is as it was, one that is rolled back has
-- its old content and mode, and nothing is promised of a file that is preserved or unknown.
abbrev pub IsPromised : String → Option Outcome → Disk → Disk → Type 0
IsPromised p none before after = lookup p after ≡ lookup p before
IsPromised p (some rolled_back) before after =
    has_content (kept_target (lookup p before)) (lookup p after) ≡ true
IsPromised p (some preserved) before after = Unit
IsPromised p (some unknown) before after = Unit
IsPromised p (some _) before after = ⊥

-- Each entry has the file that stood at its path.
unfoldable pub AreBased : Disk → List Done → Type 0
AreBased before ds = All (λ d. d.change.base ≡ lookup d.change.path before) ds

roll_back_all-elsewhere :
    (ds : List Done) (run : Run) (p : String)
    → IsQuiet run
    → mem p (paths ds) ≡ false
    → lookup p (roll_back_all ds run).1.disk ≡ lookup p run.disk
unfolding roll_back_all mem
roll_back_all-elsewhere [] run p q h = refl
roll_back_all-elsewhere (d ∷ ds) run p q h =
    let b = roll_back-IsBack d run q in
    ground (
      arith,
      b.elsewhere p (ground (arith, h)),
      roll_back_all-elsewhere ds (roll_back d run).1 p b.quiet (ground (arith, h)),
    )

final-IsPromised :
    (p : String) (o : Outcome) (before after : Disk)
    → is_final o ≡ true
    → (o ≡ rolled_back → has_content (kept_target (lookup p before)) (lookup p after) ≡ true)
    → IsPromised p (some o) before after
final-IsPromised p rolled_back before after f h = h refl
final-IsPromised p preserved before after f h = tt
final-IsPromised p unknown before after f h = tt
final-IsPromised p unchanged before after f h = absurd (ground (arith, f))
final-IsPromised p applied before after f h = absurd (ground (arith, f))

pub roll_back_all-IsPromised :
    (ds : List Done) (run : Run) (before : Disk) (p : String)
    → IsQuiet run
    → distinct (paths ds) ≡ true
    → AreBased before ds
    → (mem p (paths ds) ≡ false → lookup p run.disk ≡ lookup p before)
    → IsPromised p (lookup p (roll_back_all ds run).0) before (roll_back_all ds run).1.disk
unfolding roll_back_all mem distinct AreBased lookup
roll_back_all-IsPromised [] run before p q u a h = h refl
roll_back_all-IsPromised (d ∷ ds) run before p q u a h =
    elim (Bool-cases (str_eq d.change.path p)) [
      | inl same ↦ rw same (
          final-IsPromised p (roll_back d run).0 before
            (roll_back_all ds (roll_back d run).1).1.disk b.final (λ k. here same k))
      | inr other ↦ rw other (
          roll_back_all-IsPromised ds (roll_back d run).1 before p b.quiet (ground (arith, u)) a.1
            (λ k. ground (arith, other, k, h, b.elsewhere p other)))
    ]
  where
    b : IsBack d.change.path d.change.base run (roll_back d run)
    b = roll_back-IsBack d run q

    here :
        str_eq d.change.path p ≡ true
        → (roll_back d run).0 ≡ rolled_back
        → has_content
            (kept_target (lookup p before))
            (lookup p (roll_back_all ds (roll_back d run).1).1.disk)
          ≡ true
    here same k =
        let same_path = (eq_iff d.change.path p).0 same in
        ground (
          arith,
          same,
          same_path,
          a.0,
          k,
          b.back k,
          roll_back_all-elsewhere ds (roll_back d run).1 d.change.path b.quiet (ground (arith, u)),
        )
