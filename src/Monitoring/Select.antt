-- ===== src/Monitoring/Select.antt =====
-- How the queries of internal/monitoring/store.go are put together, and what PostgreSQL makes of them:
-- a placeholder is bound to the argument of its number.
pub mod Window
use backupeer.Prelude.{
  read_number, ℕ, zero, suc, ◌-◌, String, Bool, true, false, ◌&&◌, Option, none, some, List, [],
  ◌∷◌, ◌++◌, Result, ok, err, length, take, filter, ◌==◌, eqb, leb, if◌then◌else◌,
}
use backupeer.Monitoring.Decimal.{itoa}

pub data Arg : Type 0 where
  text_arg : String → Arg
  time_arg : ℕ → Arg
  int_arg : ℕ → Arg

-- `connection_id = $n`, `time >= $n` and `time <= $n`, with the digits after the `$`.
pub data Condition : Type 0 where
  connection_is : List ℕ → Condition
  since_is : List ℕ → Condition
  until_is : List ℕ → Condition

-- `query`, `args` and `argIdx`: the conditions stand after WHERE 1=1.
pub record Builder : Type 0 where
  pub conditions : List Condition
  pub args : List Arg
  pub arg_idx : ℕ

pub add_condition : (List ℕ → Condition) → Arg → Builder → Builder
add_condition c a b = record {
  conditions = b.conditions ++ (c (itoa b.arg_idx) ∷ []);
  args = b.args ++ (a ∷ []);
  arg_idx = suc b.arg_idx;
}

pub add_connection : String → Builder → Builder
unfolding add_condition
add_connection connection_id b =
    if connection_id == "" then b else add_condition connection_is (text_arg connection_id) b

-- A time is `none` where `IsZero` holds.
add_time : (List ℕ → Condition) → Option ℕ → Builder → Builder
unfolding add_condition
add_time c none b = b
add_time c (some t) b = add_condition c (time_arg t) b

abbrev pub nothing_asked : Builder
nothing_asked = record { conditions = []; args = []; arg_idx = 1 }

-- The conditions and arguments, and the placeholder of LIMIT.
pub with_times : Option ℕ → Option ℕ → ℕ → Builder → Builder × List ℕ
unfolding add_time
with_times since until limit b =
    let b' = add_time until_is until (add_time since_is since b) in
    (record b' { args = b'.args ++ (int_arg limit ∷ []) }, itoa b'.arg_idx)

unfoldable pub build : String → Option ℕ → Option ℕ → ℕ → Builder × List ℕ
unfolding add_connection with_times
build connection_id since until limit =
    with_times since until limit (add_connection connection_id nothing_asked)

-- The argument of a placeholder: `$1` is the first.
get_elem? : List Arg → ℕ → Option Arg
get_elem? [] n = none
get_elem? (a ∷ rest) zero = some a
get_elem? (a ∷ rest) (suc n) = get_elem? rest n

argument : List ℕ → List Arg → Option Arg
unfolding get_elem?
argument placeholder args = elim (read_number placeholder) [
  | none ↦ none
  | some zero ↦ none
  | some (suc n) ↦ get_elem? args n
]

-- What a condition asks for once its placeholder is bound to a value of its column's type.
pub data Test : Type 0 where
  is_connection : String → Test
  is_since : ℕ → Test
  is_until : ℕ → Test

text_test : Option Arg → Option Test
text_test (some (text_arg s)) = some (is_connection s)
text_test _ = none

time_test : (ℕ → Test) → Option Arg → Option Test
time_test f (some (time_arg t)) = some (f t)
time_test f _ = none

resolve : List Arg → Condition → Option Test
unfolding text_test time_test argument
resolve args (connection_is p) = text_test (argument p args)
resolve args (since_is p) = time_test is_since (argument p args)
resolve args (until_is p) = time_test is_until (argument p args)

resolve_all : List Arg → List Condition → Option (List Test)
unfolding resolve
resolve_all args [] = some []
resolve_all args (c ∷ cs) = elim (resolve args c) [
  | none ↦ none
  | some t ↦ elim (resolve_all args cs) [ none ↦ none | some ts ↦ some (t ∷ ts) ]
]

limit_of : Option Arg → Option ℕ
limit_of (some (int_arg n)) = some n
limit_of _ = none

abbrev pub bind_error : String
bind_error = "bind message has the wrong parameters (SQLSTATE 08P01)"

-- A table whose rows have a connection and a time, and the order of the query: `before a b` says that
-- `a` may stand before `b`. Rows of one place stand in insertion order.
module _ {R : Type 0} (connection_of : R → String) (time_of : R → ℕ) where
  meets : Test → R → Bool
  meets (is_connection id) r = connection_of r == id
  meets (is_since t) r = leb t (time_of r)
  meets (is_until t) r = leb (time_of r) t

  pub meets_all : List Test → R → Bool
  unfolding meets
  meets_all [] r = true
  meets_all (t ∷ ts) r = if meets t r then meets_all ts r else false

module _ {R : Type 0} (before : R → R → Bool) where
  unfoldable pub insert_row : R → List R → List R
  insert_row r [] = r ∷ []
  insert_row r (x ∷ xs) = if before r x then r ∷ x ∷ xs else x ∷ insert_row r xs

  -- ORDER BY
  unfoldable pub order_by : List R → List R
  unfolding insert_row
  order_by [] = []
  order_by (x ∷ xs) = insert_row x (order_by xs)

-- SELECT ... WHERE 1=1 AND ... ORDER BY ... LIMIT $n
unfoldable pub run :
    {R : Type 0}
    → (R → String)
    → (R → ℕ)
    → (R → R → Bool)
    → Builder × List ℕ
    → List R
    → Result (List R)
unfolding resolve_all limit_of argument meets_all
run connection_of time_of before (b, limit) rows =
    if eqb (length b.args) (suc (length b.conditions))
    then (elim (resolve_all b.args b.conditions) [
      | none ↦ err bind_error
      | some tests ↦ elim (limit_of (argument limit b.args)) [
        | none ↦ err bind_error
        | some n ↦
            ok (take n (order_by before (filter (meets_all connection_of time_of tests) rows)))
      ]
    ])
    else err bind_error
