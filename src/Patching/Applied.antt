-- ===== src/Patching/Applied.antt =====
-- Where no other process interferes, a patch that fails leaves every file as it was or says which not.
use doppel_agent.Prelude.{
  String, ◌≡◌, refl, ◌∙◌, Bool, true, false, List, [], ◌∷◌, Option, none, some, arith, eq_iff,
  if◌then◌else◌, lookup, All, mem, distinct, inl, inr, ◌⊎◌, Bool-cases,
}
use mathlib.Core.Path.{subst, sym}
use doppel_agent.Patching.{
  Change, Run, target_of, has_content, Done, Round, commit_change, Committed, with_entry,
  commit_changes, finished, apply_changes,
}
use doppel_agent.Patching.Effects.{IsQuiet, IsRound, commit_change-IsRound}
use doppel_agent.Patching.Rollback.{paths, Disk, IsPromised, AreBased, roll_back_all-IsPromised}

-- What the loop keeps: the entries are of distinct paths and have the files that stood there, and a
-- path without an entry is as it was.
record IsKept (before : Disk) (c : Committed) : Type 0 where
  quiet : IsQuiet c.run
  unique : distinct (paths c.entries) ≡ true
  based : AreBased before c.entries
  elsewhere : (p : String) → mem p (paths c.entries) ≡ false → lookup p c.run.disk ≡ lookup p before

abbrev committed : List Done → Bool → Run → Committed
committed entries raised run = record { entries = entries; raised = raised; run = run }

round-IsKept :
    (before : Disk) (c : Change) (entries : List Done) (run : Run) (round : Round) (raised : Bool)
    → IsKept before (committed entries false run)
    → IsRound c run round
    → c.base ≡ lookup c.path before
    → mem c.path (paths entries) ≡ false
    → IsKept before (committed (with_entry round.entry entries) raised round.run)
unfolding AreBased distinct mem
round-IsKept before c entries run round raised k r base new = by_entry round.entry refl
  where
    by_entry :
        (e : Option Done)
        → round.entry ≡ e
        → IsKept before (committed (with_entry e entries) raised round.run)
    by_entry none same = record {
      quiet = r.quiet;
      unique = k.unique;
      based = k.based;
      elsewhere = λ p h. ground (arith, (r.idle same).0, k.elsewhere p h);
    }
    by_entry (some d) same =
        let change = r.entered d same in
        record {
          quiet = r.quiet;
          unique = ground (arith, change, new, k.unique);
          based = (ground (arith, change, base), k.based);
          elsewhere = λ p h. ground (
            arith,
            change,
            h,
            k.elsewhere p (ground (arith, h)),
            r.elsewhere p (ground (arith, change, h)),
          );
        }

abbrev pub changed_paths : List Change → List String
changed_paths [] = []
changed_paths (c ∷ cs) = c.path ∷ changed_paths cs

-- The snapshots of the changes show the files that stand at their paths.
abbrev pub AreFound : Disk → List Change → Type 0
AreFound before cs = All (λ c. c.base ≡ lookup c.path before) cs

abbrev AreNew : List Done → List Change → Type 0
AreNew entries cs = All (λ c. mem c.path (paths entries) ≡ false) cs

AreNew-with_entry :
    (c : Change) (e : Option Done) (entries : List Done) (cs : List Change)
    → ((d : Done) → e ≡ some d → d.change ≡ c)
    → mem c.path (changed_paths cs) ≡ false
    → AreNew entries cs
    → AreNew (with_entry e entries) cs
unfolding mem
AreNew-with_entry c none entries cs f m n = n
AreNew-with_entry c (some d) entries [] f m n = tt
AreNew-with_entry c (some d) entries (x ∷ cs) f m n = (
  ground (arith, f d refl, m, n.0, eq_iff c.path x.path, eq_iff x.path c.path),
  AreNew-with_entry c (some d) entries cs f (ground (arith, m)) n.1,
)

commit_changes-IsKept :
    (cs : List Change) (entries : List Done) (run : Run) (before : Disk)
    → IsKept before (committed entries false run)
    → AreNew entries cs
    → distinct (changed_paths cs) ≡ true
    → AreFound before cs
    → IsKept before (commit_changes cs entries run)
unfolding commit_changes distinct
commit_changes-IsKept [] entries run before k n u f = k
commit_changes-IsKept (c ∷ cs) entries run before k n u f =
    let round = commit_change c run in
    let r = commit_change-IsRound c run k.quiet in
    by_round (round.raised) (λ b. round-IsKept before c entries run round b k r f.0 n.0)
      (commit_changes-IsKept cs (with_entry round.entry entries) round.run before
        (round-IsKept before c entries run round false k r f.0 n.0)
        (AreNew-with_entry c round.entry entries cs r.entered (ground (arith, u)) n.1)
        (ground (arith, u)) f.1)
  where
    by_round :
        (b : Bool)
        → ((b : Bool)
            → IsKept before (
                committed
                  (with_entry (commit_change c run).entry entries)
                  b
                  (commit_change c run).run))
        → IsKept before (
            commit_changes cs
              (with_entry (commit_change c run).entry entries)
              (commit_change c run).run)
        → IsKept before (
            if b
            then committed
                (with_entry (commit_change c run).entry entries)
                true
                (commit_change c run).run
            else commit_changes cs
                (with_entry (commit_change c run).entry entries)
                (commit_change c run).run)
    by_round true h rest = h true
    by_round false h rest = rest

AreNew-empty : (cs : List Change) → AreNew [] cs
unfolding mem
AreNew-empty [] = tt
AreNew-empty (c ∷ cs) = (refl, AreNew-empty cs)

-- Where a patch raises, no other process changes a file meanwhile, its paths are distinct and its
-- snapshots show the files at them, each path has what its outcome promises: without an outcome its
-- file is as it was, and one that is rolled back has its old content and mode.
pub apply_changes-IsPromised :
    (cs : List Change) (run : Run) (p : String)
    → IsQuiet run
    → distinct (changed_paths cs) ≡ true
    → AreFound run.disk cs
    → (apply_changes cs run).raised ≡ true
    → IsPromised p
        (lookup p (apply_changes cs run).outcomes)
        run.disk
        (apply_changes cs run).run.disk
unfolding apply_changes AreBased distinct
apply_changes-IsPromised cs run p q u f =
    by_raised (commit_changes cs [] run)
      (commit_changes-IsKept cs [] run run.disk start (AreNew-empty cs) u f)
  where
    start : IsKept run.disk (committed [] false run)
    start = record { quiet = q; unique = refl; based = tt; elsewhere = λ p h. refl }

    by_raised :
        (c : Committed)
        → IsKept run.disk c
        → (finished c).raised ≡ true
        → IsPromised p (lookup p (finished c).outcomes) run.disk (finished c).run.disk
    by_raised c k h = by_flag (Bool-cases c.raised)
      where
        by_flag :
            (c.raised ≡ true) ⊎ (c.raised ≡ false)
            → IsPromised p (lookup p (finished c).outcomes) run.disk (finished c).run.disk
        by_flag (inl e) = rw e (
            roll_back_all-IsPromised c.entries c.run run.disk p k.quiet k.unique k.based
              (k.elsewhere p))
        by_flag (inr e) = absurd (ground (arith, e, h))

-- The loop leaves the files of paths without a change.
commit_changes-elsewhere :
    (cs : List Change) (entries : List Done) (run : Run) (p : String)
    → IsQuiet run
    → mem p (changed_paths cs) ≡ false
    → lookup p (commit_changes cs entries run).run.disk ≡ lookup p run.disk
unfolding commit_changes mem
commit_changes-elsewhere [] entries run p q m = refl
commit_changes-elsewhere (c ∷ cs) entries run p q m =
    let round = commit_change c run in
    let r = commit_change-IsRound c run q in
    let rest =
      commit_changes-elsewhere cs (with_entry round.entry entries) round.run p r.quiet
        (ground (arith, m)) in
    elim (Bool-cases round.raised) [
      | inl e ↦ rw e (r.elsewhere p (ground (arith, m)))
      | inr e ↦ rw e (rest ∙ r.elsewhere p (ground (arith, m)))
    ]

-- Each change has its content at its path.
abbrev pub AllStand : List Change → Disk → Type 0
AllStand cs disk = All (λ c. has_content (target_of c) (lookup c.path disk) ≡ true) cs

commit_changes-AllStand :
    (cs : List Change) (entries : List Done) (run : Run)
    → IsQuiet run
    → distinct (changed_paths cs) ≡ true
    → (commit_changes cs entries run).raised ≡ false
    → AllStand cs (commit_changes cs entries run).run.disk
unfolding commit_changes distinct
commit_changes-AllStand [] entries run q u h = tt
commit_changes-AllStand (c ∷ cs) entries run q u h =
    let round = commit_change c run in
    let r = commit_change-IsRound c run q in
    let entries' = with_entry round.entry entries in
    elim (Bool-cases round.raised) [
      | inl e ↦ absurd (ground (arith, e, h))
      | inr e ↦
          let off =
            commit_changes-elsewhere cs entries' round.run c.path r.quiet (ground (arith, u)) in
          let same : (commit_changes (c ∷ cs) entries run).run.disk
              ≡ (commit_changes cs entries' round.run).run.disk =
            rw e refl in
          subst (AllStand (c ∷ cs)) (sym same) (
            ground (arith, off, r.stands e),
            commit_changes-AllStand cs entries' round.run r.quiet (ground (arith, u))
                (ground (arith, e, h)),
          )
    ]

not_raised : (c : Committed) → (finished c).raised ≡ false → c.raised ≡ false
not_raised c h = elim (Bool-cases c.raised) [ inl e ↦ absurd (ground (arith, e, h)) | inr e ↦ e ]

-- Where a patch does not raise and no other process changes a file meanwhile, its changes of distinct
-- paths all stand: each path has its content and mode, or no file where the change removes it.
pub apply_changes-AllStand :
    (cs : List Change) (run : Run)
    → IsQuiet run
    → distinct (changed_paths cs) ≡ true
    → (apply_changes cs run).raised ≡ false
    → AllStand cs (apply_changes cs run).run.disk
unfolding apply_changes
apply_changes-AllStand cs run q u h =
    let done : (commit_changes cs [] run).raised ≡ false =
      not_raised (commit_changes cs [] run) h in
    rw done (commit_changes-AllStand cs [] run q u done)
