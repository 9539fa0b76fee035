-- ===== src/Patching/Effects.antt =====
-- What one call and one replacement do to the files where no other process changes them.
use doppel_agent.Prelude.{
  ℕ, String, ◌≡◌, refl, ◌∙◌, Bool, true, false, List, [], ◌∷◌, Option, none, some, arith, str_eq,
  eq_iff, if◌then◌else◌, lookup, lookup-assign, lookup-pop, All, inl, inr, ◌⊎◌, Bool-cases,
}
use mathlib.Core.Path.{subst, sym}
use doppel_agent.Patching.{
  File, Change, Turn, Run, take_first, take_turn, seen, snapshot, removed, placed, put, target_of,
  has_content, same_file, Done, Round, observed, stopped, replaced, compared, commit_change,
}

abbrev AreQuiet : List Turn → Type 0
AreQuiet ts = All (λ t. (disk : List (String × File)) → t.others disk ≡ disk) ts

-- No other process changes a file during the turns to come.
unfoldable pub IsQuiet : Run → Type 0
IsQuiet run = AreQuiet run.turns

-- A turn by itself changes nothing.
take_first-IsQuiet :
    (ts : List Turn) (run : Run)
    → AreQuiet ts
    → run.turns ≡ ts
    → IsQuiet (take_first ts run).1 × ((take_first ts run).1.disk ≡ run.disk)
unfolding IsQuiet
take_first-IsQuiet [] run q e = (subst (λ ts. AreQuiet ts) (sym e) tt, refl)
take_first-IsQuiet (t ∷ ts) run q e = (q.1, q.0 run.disk)

pub take_turn-IsQuiet :
    (run : Run) → IsQuiet run → IsQuiet (take_turn run).1 × ((take_turn run).1.disk ≡ run.disk)
unfolding IsQuiet
take_turn-IsQuiet run q = take_first-IsQuiet run.turns run q refl

unfoldable pub IsSeen : String → Run → Option (Option File) × Run → Type 0
IsSeen path run p =
    IsQuiet p.1 × (p.1.disk ≡ run.disk) × ((p.0 ≡ none) ⊎ (p.0 ≡ some (lookup path run.disk)))

pub snapshot-IsSeen :
    (path : String) (run : Run) → IsQuiet run → IsSeen path run (snapshot path run)
unfolding snapshot IsSeen
snapshot-IsSeen path run q = by_turn (take_turn run) (take_turn-IsQuiet run q)
  where
    by_turn : (p : Bool × Run) → IsQuiet p.1 × (p.1.disk ≡ run.disk) → IsSeen path run (seen path p)
    by_turn (true, r) (a, b) = (a, b, inl refl)
    by_turn (false, r) (a, b) = (a, b, inr (ground (arith, b)))

-- A write that fails changes nothing; one that goes through leaves its target at the path, and
-- every other file as it was.
pub record IsPut (path : String) (target : Option (String × ℕ)) (run : Run) (p : Bool × Run)
    : Type 0 where
  pub quiet : IsQuiet p.1
  pub elsewhere :
      (other : String) → str_eq path other ≡ false → lookup other p.1.disk ≡ lookup other run.disk
  pub failed : p.0 ≡ false → p.1.disk ≡ run.disk
  pub written : p.0 ≡ true → has_content target (lookup path p.1.disk) ≡ true

removed-IsPut :
    (path : String) (run r : Run) (f : Option File)
    → IsQuiet r
    → r.disk ≡ run.disk
    → IsPut path none run (removed path f r)
unfolding IsQuiet
removed-IsPut path run r none a b = record {
  quiet = a;
  elsewhere = λ other k. ground (arith, b);
  failed = λ k. b;
  written = λ k. absurd (ground (arith, k));
}
removed-IsPut path run r (some f) a b = record {
  quiet = a;
  elsewhere = λ other k. ground (arith, b, k, lookup-pop path other r.disk);
  failed = λ k. absurd (ground (arith, k));
  written = λ k. ground (arith, eq_iff path path, lookup-pop path path r.disk);
}

pub put-IsPut :
    (path : String) (target : Option (String × ℕ)) (run : Run)
    → IsQuiet run
    → IsPut path target run (put path target run)
unfolding put IsQuiet
put-IsPut path target run q = by_turn target (take_turn run) (take_turn-IsQuiet run q)
  where
    by_turn :
        (target : Option (String × ℕ)) (p : Bool × Run)
        → IsQuiet p.1 × (p.1.disk ≡ run.disk)
        → IsPut path target run (placed path target p)
    by_turn t (true, r) (a, b) = record {
      quiet = a;
      elsewhere = λ other k. ground (arith, b);
      failed = λ k. b;
      written = λ k. absurd (ground (arith, k));
    }
    by_turn none (false, r) (a, b) = removed-IsPut path run r (lookup path r.disk) a b
    by_turn (some (content, mode)) (false, r) (a, b) =
        let new : File = record { content = content; mode = mode; identity = r.fresh } in
        record {
          quiet = a;
          elsewhere = λ other k. ground (arith, b, k, lookup-assign path other new r.disk);
          failed = λ k. absurd (ground (arith, k));
          written = λ k.
              ground (
                arith,
                eq_iff path path,
                eq_iff content content,
                lookup-assign path path new r.disk,
              );
        }

-- One round of the loop: it adds no entry and changes nothing, or it adds one for its change; it goes
-- on only where the content of the change stands at its path.
pub record IsRound (c : Change) (run : Run) (round : Round) : Type 0 where
  pub quiet : IsQuiet round.run
  pub elsewhere :
      (other : String)
      → str_eq c.path other ≡ false
      → lookup other round.run.disk ≡ lookup other run.disk
  pub idle : round.entry ≡ none → (round.run.disk ≡ run.disk) × (round.raised ≡ true)
  pub entered : (d : Done) → round.entry ≡ some d → d.change ≡ c
  pub stands :
      round.raised ≡ false → has_content (target_of c) (lookup c.path round.run.disk) ≡ true

stopped-IsRound :
    (c : Change) (run r : Run) → IsQuiet r → r.disk ≡ run.disk → IsRound c run (stopped r)
stopped-IsRound c run r q e = record {
  quiet = q;
  elsewhere = λ other k. ground (arith, e);
  idle = λ k. (e, refl);
  entered = λ d k. absurd (ground (arith, k));
  stands = λ k. absurd (ground (arith, k));
}

observed-IsRound :
    (c : Change) (run r : Run) (p : Option (Option File) × Run)
    → ((other : String) → str_eq c.path other ≡ false → lookup other r.disk ≡ lookup other run.disk)
    → IsSeen c.path r p
    → IsRound c run (observed c p)
unfolding IsSeen
observed-IsRound c run r (none, after) off (q, e, s) = record {
  quiet = q;
  elsewhere = λ other k. ground (arith, e, off other k);
  idle = λ k. absurd (ground (arith, k));
  entered = λ d k. ground (arith, k);
  stands = λ k. absurd (ground (arith, k));
}
observed-IsRound c run r (some now, after) off (q, e, s) =
    by_content (Bool-cases (has_content (target_of c) now))
  where
    by_content :
        (has_content (target_of c) now ≡ true) ⊎ (has_content (target_of c) now ≡ false)
        → IsRound c run (observed c (some now, after))
    by_content (inl b) = rw b (record {
      quiet = q;
      elsewhere = λ other k. ground (arith, e, off other k);
      idle = λ k. absurd (ground (arith, k));
      entered = λ d k. ground (arith, k);
      stands = λ k. elim s [
        | inl raised ↦ absurd (ground (arith, raised))
        | inr same ↦ ground (arith, same, e, b)
      ];
    })
    by_content (inr b) = rw b (record {
      quiet = q;
      elsewhere = λ other k. ground (arith, e, off other k);
      idle = λ k. absurd (ground (arith, k));
      entered = λ d k. ground (arith, k);
      stands = λ k. absurd (ground (arith, k));
    })

replaced-IsRound :
    (c : Change) (run r : Run) (p : Bool × Run)
    → r.disk ≡ run.disk
    → IsPut c.path (target_of c) r p
    → IsRound c run (replaced c p)
replaced-IsRound c run r (false, after) e w =
    stopped-IsRound c run after w.quiet (w.failed refl ∙ e)
replaced-IsRound c run r (true, after) e w =
    observed-IsRound c run after (snapshot c.path after)
      (λ other k. ground (arith, e, w.elsewhere other k)) (snapshot-IsSeen c.path after w.quiet)

compared-IsRound :
    (c : Change) (run : Run) (p : Option (Option File) × Run)
    → IsSeen c.path run p
    → IsRound c run (compared c p)
unfolding IsSeen
compared-IsRound c run (none, r) (q, e, s) = stopped-IsRound c run r q e
compared-IsRound c run (some now, r) (q, e, s) = by_base (same_file now c.base)
  where
    by_base :
        (b : Bool)
        → IsRound c run (if b then replaced c (put c.path (target_of c) r) else stopped r)
    by_base true =
        replaced-IsRound c run r (put c.path (target_of c) r) e (put-IsPut c.path (target_of c) r q)
    by_base false = stopped-IsRound c run r q e

pub commit_change-IsRound :
    (c : Change) (run : Run) → IsQuiet run → IsRound c run (commit_change c run)
unfolding commit_change
commit_change-IsRound c run q =
    compared-IsRound c run (snapshot c.path run) (snapshot-IsSeen c.path run q)
