-- ===== src/Approvals/History.antt =====
-- The broker under any interleaving of requesters, deciders and a close.
use doppel_agent.Prelude.{
  String, ◌≡◌, Bool, true, false, ◌&&◌, Option, some, List, [], ◌∷◌, arith, eq_iff, if◌then◌else◌,
  mem, lookup, lookup-assign, lookup-pop,
}
use doppel_agent.Approvals.{
  Pending, Broker, new_broker, open_request, end_request, close, decide, check, is_allowed,
  asks_approval,
}

-- The broker, and the ids for which `decide` has accepted an allowance.
pub record System : Type 0 where
  pub broker : Broker
  pub granted : List String

abbrev noted : String → Bool → List String → List String
noted id yes_allowed ids = if yes_allowed then id ∷ ids else ids

pub data Step (s : System) : System → Type 0 where
  opens :
      (id : String) (item : Pending)
      → Step s (record s { broker = (open_request id item s.broker).1 })
  ends : (id : String) → Step s (record s { broker = (end_request id s.broker).1 })
  closes : Step s (record s { broker = close s.broker })
  decides :
      (id : String) (allow : Bool)
      → Step s (record {
        broker = (decide id allow s.broker).1;
        granted = noted id ((decide id allow s.broker).0 && allow) s.granted;
      })

pub data Reach : System → Type 0 where
  here : Reach (record { broker = new_broker; granted = [] })
  next : {s t : System} → Reach s → Step s t → Reach t

pub record IsGranted (s : System) : Type 0 where
  pub granted : (id : String) → lookup id s.broker.decisions ≡ some true → mem id s.granted ≡ true

Step-IsGranted : {s t : System} → Step s t → IsGranted s → IsGranted t
unfolding open_request end_request close decide mem
Step-IsGranted {s = s} (opens id item) h = record {
  granted = λ i k. ground (arith, k, h.granted i);
}
Step-IsGranted {s = s} (ends id) h = record {
  granted = λ i k. ground (arith, k, h.granted i, lookup-pop id i s.broker.decisions);
}
Step-IsGranted closes h = record { granted = λ i k. h.granted i k }
Step-IsGranted {s = s} (decides id allow) h = record {
  granted = λ i k.
      ground (arith, k, h.granted i, lookup-assign id i allow s.broker.decisions, eq_iff id i);
}

new_broker-IsGranted : IsGranted (record { broker = new_broker; granted = [] })
unfolding lookup
new_broker-IsGranted = record { granted = λ i k. absurd (ground (arith, k)) }

Reach-IsGranted : (s : System) → Reach s → IsGranted s
Reach-IsGranted s here = new_broker-IsGranted
Reach-IsGranted s (next r step) = Step-IsGranted step (Reach-IsGranted _ r)

-- In any interleaving, a request is answered with an allowance only if somebody has allowed that
-- very id, and never once the broker is closing, however its wait ended.
pub end_request-granted :
    (s : System) (id : String)
    → Reach s
    → (end_request id s.broker).0 ≡ true
    → (mem id s.granted ≡ true) × (s.broker.closing ≡ false)
unfolding end_request
end_request-granted s id r h = ground (arith, h, (Reach-IsGranted s r).granted id)

abbrev pub denies : Option Bool → Bool
denies (some false) = true
denies _ = false

-- What the permission check lets through: the capability was granted, and a write, a command or an
-- MCP call was not denied by an approver.
pub check-allowed :
    (allowed : List String) (approver : Option Bool) (capability : String)
    → is_allowed (check allowed approver capability) ≡ true
    → (mem capability allowed ≡ true) × ((mem capability asks_approval && denies approver) ≡ false)
unfolding check
check-allowed allowed approver capability h = (ground (arith, h), ground (arith, h))
