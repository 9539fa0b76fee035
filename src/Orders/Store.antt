-- ===== src/Orders/Store.antt =====
-- `WorkOrderStore.create` and the statements that pick an order: the table of all orders.
use doppel_agent.Prelude.{
  ℕ, String, ◌≡◌, refl, Bool, true, false, not, ◌&&◌, ◌||◌, List, [], ◌∷◌, ◌++◌, Option, none, some,
  arith, str_eq, eq_iff, ◌==◌, leb, if◌then◌else◌, is_some, lookup, assign, codes, length, all,
  strip, text_length, has_nul, Result, ok, err, guard, ◌>>◌, ◌>>=◌, >>=-eq-ok, guard-eq-ok,
}
use doppel_agent.Plans.{WorkOrderPlan, PlanTask}
use doppel_agent.Orders.Tables.{
  Order, OrderError, invalid_id, invalid_key, key_reused, not_found, integrity,
}
use doppel_agent.Orders.Revise.{
  revalidate, same_strings, same_profile, same_task, same_tasks, same_plan, new_order,
}

abbrev is_hex : ℕ → Bool
is_hex c = (leb b'0' c && leb c b'9') || (leb b'a' c && leb c b'f')

-- `_identifier`
unfoldable pub is_identifier : String → Bool
is_identifier s = (length (codes s) == 32) && all is_hex (codes s)

-- `SELECT * FROM work_orders WHERE work_order_id=?`, an operation on the row, and its commit. An
-- operation that raises is rolled back.
unfoldable pub on_order :
    String
    → (Order → Result OrderError Order)
    → List (String × Order)
    → Result OrderError (List (String × Order))
on_order id operation orders = guard (is_identifier id) invalid_id >> elim (lookup id orders) [
  | none ↦ err not_found
  | some order ↦ operation order >>= λ after. ok (assign id after orders)
]

abbrev same_key : Option String → String → Bool
same_key none key = false
same_key (some k) key = str_eq k key

-- `SELECT * FROM work_orders WHERE idempotency_key=?`
unfoldable pub find_key : String → List (String × Order) → Option (String × Order)
find_key key [] = none
find_key key ((id, order) ∷ rest) =
    let later = find_key key rest in
    if same_key order.idempotency_key key then some (id, order) else later

abbrev pub is_key : Option String → Bool
is_key none = true
is_key (some key) =
    not (text_length (strip key) == 0) && (leb (text_length key) 200 && not (has_nul key))

abbrev pub found : Option String → List (String × Order) → Option (String × Order)
found none orders = none
found (some key) orders = find_key key orders

-- The insertion, under an id that is drawn; the primary key refuses one that is taken.
abbrev pub inserted :
    WorkOrderPlan
    → Option String
    → String
    → List (String × Order)
    → Result OrderError ((String × Bool) × List (String × Order))
inserted plan key id orders =
    if is_some (lookup id orders)
    then err integrity
    else ok ((id, true), orders ++ ((id, new_order plan key) ∷ []))

abbrev pub replayed_or_inserted :
    WorkOrderPlan
    → Option String
    → String
    → Option (String × Order)
    → List (String × Order)
    → Result OrderError ((String × Bool) × List (String × Order))
replayed_or_inserted plan key id none orders = inserted plan key id orders
replayed_or_inserted plan key id (some (other, order)) orders =
    if same_plan order.request plan then ok ((other, false), orders) else err key_reused

-- `create`: the id of the order, and whether it is new
unfoldable pub create :
    WorkOrderPlan
    → Option String
    → String
    → List (String × Order)
    → Result OrderError ((String × Bool) × List (String × Order))
create new key id orders = do
  plan ← revalidate new
  guard (is_key key) invalid_key
  replayed_or_inserted plan key id (found key orders) orders

same_strings_refl : (xs : List String) → same_strings xs xs ≡ true
same_strings_refl [] = refl
same_strings_refl (x ∷ xs) = ground (arith, eq_iff x x, same_strings_refl xs)

same_profile_refl : (p : Option String) → same_profile p p ≡ true
same_profile_refl none = refl
same_profile_refl (some p) = ground (arith, eq_iff p p)

same_task_refl : (t : PlanTask) → same_task t t ≡ true
same_task_refl t = ground (
  arith,
  eq_iff t.id t.id,
  eq_iff t.title t.title,
  eq_iff t.prompt t.prompt,
  same_strings_refl t.dependencies,
  eq_iff t.access t.access,
  eq_iff t.mode t.mode,
  same_profile_refl t.profile_id,
)

same_tasks_refl : (ts : List PlanTask) → same_tasks ts ts ≡ true
same_tasks_refl [] = refl
same_tasks_refl (t ∷ ts) = ground (arith, same_task_refl t, same_tasks_refl ts)

find_key-append :
    (key id : String) (order : Order) (orders : List (String × Order))
    → find_key key orders ≡ none
    → same_key order.idempotency_key key ≡ true
    → find_key key (orders ++ ((id, order) ∷ [])) ≡ some (id, order)
unfolding find_key
find_key-append key id order [] h k = ground (arith, k)
find_key-append key id order ((other, o) ∷ rest) h k =
    ground (arith, h, k, find_key-append key id order rest)

inserted-replays :
    (plan : WorkOrderPlan) (key id later made : String) (is_new : Bool)
    (orders after : List (String × Order)) (f : Option (String × Order))
    → find_key key orders ≡ f
    → replayed_or_inserted plan (some key) id f orders ≡ ok ((made, is_new), after)
    → replayed_or_inserted plan (some key) later (find_key key after) after
      ≡ ok ((made, false), after)
unfolding new_order
inserted-replays plan key id later made is_new orders after (some (other, order)) f h =
    ground (arith, f, h)
inserted-replays plan key id later made is_new orders after none f h = ground (
  arith,
  f,
  h,
  eq_iff plan.title plan.title,
  same_tasks_refl plan.tasks,
  find_key-append key id (new_order plan (some key)) orders f (ground (arith, eq_iff key key)),
)

-- An order that was created under a key answers the same request with the key, sent again, and
-- nothing is written.
pub create-same_key :
    (plan : WorkOrderPlan) (key id later made : String) (is_new : Bool)
    (orders after : List (String × Order))
    → create plan (some key) id orders ≡ ok ((made, is_new), after)
    → create plan (some key) later after ≡ ok ((made, false), after)
unfolding create
create-same_key plan key id later made is_new orders after h =
    let first = >>=-eq-ok (revalidate plan) _ h in
    let second = guard-eq-ok (is_key (some key)) invalid_key _ first.2 in
    ground (
      arith,
      first.1,
      second.0,
      inserted-replays first.0 key id later made is_new orders after (find_key key orders) refl
          second.1,
    )
