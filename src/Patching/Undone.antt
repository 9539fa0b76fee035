-- ===== src/Patching/Undone.antt =====
-- What one round of the rollback does to the files.
use doppel_agent.Prelude.{
  ℕ, String, ◌≡◌, refl, ◌∙◌, Bool, true, false, ◌&&◌, Option, none, some, arith, str_eq,
  if◌then◌else◌, lookup,
}
use doppel_agent.Patching.{
  File, Outcome, preserved, rolled_back, unknown, Run, take_turn, snapshot, put, target_of,
  has_content, same_file, Done, is_applied, restored, cleared, cleaned, rewritten, restore,
  examined, roll_back,
}
use doppel_agent.Patching.Effects.{
  IsPut, IsQuiet, take_turn-IsQuiet, IsSeen, snapshot-IsSeen, put-IsPut,
}

-- content and mode of a file, none for no file
abbrev pub kept_target : Option File → Option (String × ℕ)
kept_target none = none
kept_target (some f) = some (f.content, f.mode)

abbrev pub is_final : Outcome → Bool
is_final preserved = true
is_final rolled_back = true
is_final unknown = true
is_final _ = false

-- One round of the rollback: where it says that it rolled back, the path is as the snapshot found it.
pub record IsBack (path : String) (base : Option File) (run : Run) (p : Outcome × Run)
    : Type 0 where
  pub quiet : IsQuiet p.1
  pub elsewhere :
      (other : String) → str_eq path other ≡ false → lookup other p.1.disk ≡ lookup other run.disk
  pub final : is_final p.0 ≡ true
  pub back : p.0 ≡ rolled_back → has_content (kept_target base) (lookup path p.1.disk) ≡ true

left-IsBack :
    (path : String) (base : Option File) (run r : Run) (o : Outcome)
    → IsQuiet r
    → r.disk ≡ run.disk
    → is_final o ≡ true
    → (o ≡ rolled_back → ⊥)
    → IsBack path base run (o, r)
left-IsBack path base run r o q e f n = record {
  quiet = q;
  elsewhere = λ other k. ground (arith, e);
  final = f;
  back = λ k. absurd (n k);
}

restored-IsBack :
    (path : String) (base : Option File) (run r : Run) (p : Bool × Run)
    → r.disk ≡ run.disk
    → IsPut path (kept_target base) r p
    → IsBack path base run (restored p)
restored-IsBack path base run r (false, after) e w =
    left-IsBack path base run after unknown w.quiet (w.failed refl ∙ e) refl
      (λ k. ground (arith, k))
restored-IsBack path base run r (true, after) e w = record {
  quiet = w.quiet;
  elsewhere = λ other k. ground (arith, e, w.elsewhere other k);
  final = refl;
  back = λ k. w.written refl;
}

cleared-IsBack :
    (path : String) (base : Option File) (run after : Run) (o : Outcome) (t : Bool × Run)
    → IsBack path base run (o, after)
    → IsQuiet t.1 × (t.1.disk ≡ after.disk)
    → IsBack path base run (cleared o t)
cleared-IsBack path base run after o (true, t) b (q, e) = record {
  quiet = q;
  elsewhere = λ other k. ground (arith, e, b.elsewhere other k);
  final = refl;
  back = λ k. absurd (ground (arith, k));
}
cleared-IsBack path base run after o (false, t) b (q, e) = record {
  quiet = q;
  elsewhere = λ other k. ground (arith, e, b.elsewhere other k);
  final = b.final;
  back = λ k. ground (arith, e, b.back k);
}

cleaned-IsBack :
    (path : String) (base : Option File) (run r : Run) (p : Bool × Run)
    → r.disk ≡ run.disk
    → IsPut path (kept_target base) r p
    → IsBack path base run (cleaned p)
cleaned-IsBack path base run r (true, after) e w =
    cleared-IsBack path base run after rolled_back (take_turn after)
      (restored-IsBack path base run r (true, after) e w) (take_turn-IsQuiet after w.quiet)
cleaned-IsBack path base run r (false, after) e w =
    cleared-IsBack path base run after unknown (take_turn after)
      (restored-IsBack path base run r (false, after) e w) (take_turn-IsQuiet after w.quiet)

rewritten-IsBack :
    (path : String) (f : File) (run : Run) (p : Bool × Run)
    → IsQuiet p.1 × (p.1.disk ≡ run.disk)
    → IsBack path (some f) run (rewritten path f p)
rewritten-IsBack path f run (true, r) (q, e) =
    left-IsBack path (some f) run r unknown q e refl (λ k. ground (arith, k))
rewritten-IsBack path f run (false, r) (q, e) =
    cleaned-IsBack path (some f) run r (put path (some (f.content, f.mode)) r) e
      (put-IsPut path (some (f.content, f.mode)) r q)

restore-IsBack :
    (path : String) (base : Option File) (run : Run)
    → IsQuiet run
    → IsBack path base run (restore path base run)
restore-IsBack path none run q =
    restored-IsBack path none run run (put path none run) refl (put-IsPut path none run q)
restore-IsBack path (some f) run q =
    rewritten-IsBack path f run (take_turn run) (take_turn-IsQuiet run q)

same_disk-IsBack :
    (path : String) (base : Option File) (run r : Run) (p : Outcome × Run)
    → r.disk ≡ run.disk
    → IsBack path base r p
    → IsBack path base run p
same_disk-IsBack path base run r p e b = record {
  quiet = b.quiet;
  elsewhere = λ other k. ground (arith, e, b.elsewhere other k);
  final = b.final;
  back = b.back;
}

examined-IsBack :
    (d : Done) (run : Run) (p : Option (Option File) × Run)
    → IsSeen d.change.path run p
    → IsBack d.change.path d.change.base run (examined d p)
unfolding IsSeen
examined-IsBack d run (none, r) (q, e, s) =
    left-IsBack d.change.path d.change.base run r unknown q e refl (λ k. ground (arith, k))
examined-IsBack d run (some now, r) (q, e, s) =
    by_test
      (is_applied d.outcome && (has_content (target_of d.change) now && same_file now d.committed))
  where
    by_test :
        (b : Bool)
        → IsBack d.change.path d.change.base run
            (if b then restore d.change.path d.change.base r else (preserved, r))
    by_test true =
        same_disk-IsBack d.change.path d.change.base run r (restore d.change.path d.change.base r) e
          (restore-IsBack d.change.path d.change.base r q)
    by_test false =
        left-IsBack d.change.path d.change.base run r preserved q e refl (λ k. ground (arith, k))

pub roll_back-IsBack :
    (d : Done) (run : Run) → IsQuiet run → IsBack d.change.path d.change.base run (roll_back d run)
unfolding roll_back
roll_back-IsBack d run q =
    examined-IsBack d run (snapshot d.change.path run) (snapshot-IsSeen d.change.path run q)
