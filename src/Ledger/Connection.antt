-- ===== src/Ledger/Connection.antt =====
-- `_connect`: one transaction on a fresh connection, and the latches that a failure sets. What the
-- SQLite library does in one transaction is given as a `Link`.
use doppel_agent.Prelude.{
  ◌≡◌, ◌≢◌, ◌⊎◌, Bool, true, false, not, ◌||◌, arith, if◌then◌else◌, Result, ok, err,
}

-- Which calls of the library return: `sqlite3.connect`, the set-up up to `__enter__`, the statements
-- of the body, `__exit__` and `close`. `kept` says whether a commit whose `__exit__` raised is in the
-- database all the same.
pub record Link : Type 0 where
  pub opens : Bool
  pub sets_up : Bool
  pub executes : Bool
  pub exits : Bool
  pub kept : Bool
  pub closes : Bool

abbrev pub sound_link : Link
sound_link = record {
  opens = true;
  sets_up = true;
  executes = true;
  exits = true;
  kept = true;
  closes = true;
}

-- `_failed` and `_cleanup_uncertain`
pub record Latches : Type 0 where
  pub failed : Bool
  pub cleanup_uncertain : Bool

-- `ToolLedgerPersistenceError`, `ToolLedgerAdmissionError` and the `RuntimeError` and `ValueError`s
-- of the ledger, by message.
pub data LedgerError : Type 0 where
  persistence : LedgerError
  reused_with_different_input previous_failed indeterminate : LedgerError
  operation_failed operation_interrupted : LedgerError

-- `_mark_failed`
abbrev pub mark_failed : Latches → Latches
mark_failed l = record l { failed = true }

-- `_retain_uncertain`
abbrev pub retain_uncertain : Latches → Latches
retain_uncertain l = record { failed = true; cleanup_uncertain = true }

-- What a body gives: its value or exception, the tables that it leaves, and whether it called
-- `_mark_failed`.
pub record Body (D A : Type 0) : Type 0 where
  pub result : Result LedgerError A
  pub tables : D
  pub marks : Bool

pub record Outcome (D A : Type 0) : Type 0 where
  pub result : Result LedgerError A
  pub tables : D
  pub latches : Latches

abbrev pub returned : {A : Type 0} → Result LedgerError A → Bool
returned (ok a) = true
returned (err e) = false

module _ {D A : Type 0} where
  abbrev lost : D → Latches → Outcome D A
  lost d l = record { result = err persistence; tables = d; latches = l }

  -- the `finally` of `_connect`: a failed close replaces whatever the transaction gave
  abbrev close : Link → Outcome D A → Outcome D A
  close link o = if link.closes then o else lost o.tables (retain_uncertain o.latches)

  -- `__exit__` after a body that returned
  abbrev commit : Link → A → D → D → Latches → Outcome D A
  commit link value old new l =
      if link.exits
      then record { result = ok value; tables = new; latches = l }
      else lost (if link.kept then new else old) (mark_failed l)

  -- `__exit__` after a body that raised: the tables are as they were
  abbrev rollback : Link → LedgerError → D → Latches → Outcome D A
  rollback link e old l =
      if link.exits
      then record { result = err e; tables = old; latches = l }
      else lost old (mark_failed l)

  abbrev settle : Link → Body D A → D → Latches → Outcome D A
  settle link body old l =
      let l' = if body.marks then mark_failed l else l in
      elim body.result [
        | ok value ↦ commit link value old body.tables l'
        | err e ↦ rollback link e old l'
      ]

  unfoldable pub transaction : Link → (D → Body D A) → D → Latches → Outcome D A
  transaction link body d l =
      if l.failed
      then lost d l
      else if not link.opens
      then lost d (retain_uncertain l)
      else if not link.sets_up || not link.executes
      then close link (lost d (mark_failed l))
      else close link (settle link (body d) d l)

  -- Once the failure latch is set no transaction runs: it raises and changes nothing.
  pub transaction-failed :
      (link : Link) (body : D → Body D A) (d : D) (l : Latches)
      → l.failed ≡ true
      → transaction link body d l ≡ record { result = err persistence; tables = d; latches = l }
  unfolding transaction
  transaction-failed link body d l h = ground arith

  -- A transaction that returns a value has committed: the body returned that value, and its tables
  -- are the tables now.
  pub transaction-eq-ok :
      (link : Link) (body : D → Body D A) (d : D) (l : Latches) (a : A)
      → (transaction link body d l).result ≡ ok a
      → ((body d).result ≡ ok a)
        × ((transaction link body d l).tables ≡ (body d).tables)
        × (l.failed ≡ false)
  unfolding transaction
  transaction-eq-ok link body d l a h = ground arith

  -- Whatever fails, the tables are the old ones or those of a body that returned.
  pub transaction-tables :
      (link : Link) (body : D → Body D A) (d : D) (l : Latches)
      → ((transaction link body d l).tables ≡ d)
        ⊎ ((returned (body d).result ≡ true)
            × ((transaction link body d l).tables ≡ (body d).tables))
  unfolding transaction
  transaction-tables link body d l = ground arith

  -- A failure is latched: after `persistence` the ledger has failed for good.
  pub transaction-latches :
      (link : Link) (body : D → Body D A) (d : D) (l : Latches)
      → (transaction link body d l).result ≡ err persistence
      → ((body d).result ≢ err persistence)
      → (transaction link body d l).latches.failed ≡ true
  unfolding transaction
  transaction-latches link body d l h k = ground arith

  pub transaction-latches_ok :
      (link : Link) (body : D → Body D A) (d : D) (l : Latches) (a : A)
      → (transaction link body d l).result ≡ ok a
      → (body d).marks ≡ false
      → (transaction link body d l).latches ≡ l
  unfolding transaction
  transaction-latches_ok link body d l a h k = ground arith

  pub transaction_sound :
      (body : D → Body D A) (d : D) (l : Latches) (a : A)
      → l.failed ≡ false
      → (body d).result ≡ ok a
      → (body d).marks ≡ false
      → transaction sound_link body d l
        ≡ record { result = ok a; tables = (body d).tables; latches = l }
  unfolding transaction
  transaction_sound body d l a f h k = ground arith
