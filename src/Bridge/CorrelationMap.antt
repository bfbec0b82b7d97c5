-- ===== src/Bridge/CorrelationMap.antt =====
-- src/bridge/correlation_map.cpp: the table from request id to the shared state of a call. A state
-- is a shared pointer, here the number of a heap cell. Each method runs under the mutex.
use telegram_rest_gateway.Prelude.{
  ℕ, ◌+◌, ◌≤◌, ◌<◌, ◌≡◌, refl, Bool, true, false, Option, none, some, List, [], ◌∷◌, arith, leb,
  if◌then◌else◌, ◌==◌, nat_eq, bytes_eq, length, All,
}
use telegram_rest_gateway.Prelude.Map.{find, erase, emplace, UniqueKeys}

abbrev pub Table : Type 0
Table = List (ℕ × ℕ)

-- tryInsert: `none` at the limit of requests in flight.
unfoldable pub try_insert : ℕ → Table → ℕ → ℕ → Option Table
try_insert max_inflight m id state =
    if leb max_inflight (length m) then none else some (emplace id state m)

-- claim: the state, if the id is in the table, and the table without it.
unfoldable pub claim : Table → ℕ → Option ℕ × Table
claim m id = elim (find id m) [ none ↦ (none, m) | some state ↦ (some state, erase id m) ]

-- claimExpired: the states that are due, and the table of the others.
unfoldable pub claim_expired : (ℕ → Bool) → Table → List ℕ × Table
claim_expired due [] = ([], [])
claim_expired due ((id, state) ∷ m) =
    let (expired, rest) = claim_expired due m in
    if due state then (state ∷ expired, rest) else (expired, (id, state) ∷ rest)

-- How often a state stands in a list, and in the table.
abbrev pub one_if : Bool → ℕ
one_if true = 1
one_if false = 0

abbrev pub count : ℕ → List ℕ → ℕ
count r [] = 0
count r (x ∷ xs) = one_if (x == r) + count r xs

abbrev pub count_states : ℕ → Table → ℕ
count_states r [] = 0
count_states r ((id, x) ∷ m) = one_if (x == r) + count_states r m

-- Every id in the table is at most `n`.
abbrev pub IdsUpTo : ℕ → Table → Type 0
IdsUpTo n [] = Unit
IdsUpTo n ((id, x) ∷ m) = (id ≤ n) × IdsUpTo n m

pub find-above : (n id : ℕ) (m : Table) → IdsUpTo n m → n < id → find id m ≡ none
unfolding find
find-above n id [] h lt = refl
find-above n id ((j, x) ∷ m) h lt = ground (arith, find-above n id m h.1)

pub IdsUpTo-mono : (a b : ℕ) (m : Table) → a ≤ b → IdsUpTo a m → IdsUpTo b m
IdsUpTo-mono a b [] le h = tt
IdsUpTo-mono a b ((j, x) ∷ m) le h = (omega arith, IdsUpTo-mono a b m le h.1)

pub erase-IdsUpTo : (n id : ℕ) (m : Table) → IdsUpTo n m → IdsUpTo n (erase id m)
unfolding erase
erase-IdsUpTo n id [] h = tt
erase-IdsUpTo n id ((j, x) ∷ m) h = ground (arith, erase-IdsUpTo n id m h.1)

erase-absent : (id : ℕ) (m : Table) → find id m ≡ none → erase id m ≡ m
unfolding find erase
erase-absent id [] h = refl
erase-absent id ((j, x) ∷ m) h = ground (arith, erase-absent id m)

-- A claimed state leaves the table once.
pub count_states-erase :
    (r id : ℕ) (m : Table) (state : ℕ)
    → UniqueKeys m
    → find id m ≡ some state
    → count_states r m ≡ one_if (state == r) + count_states r (erase id m)
unfolding find erase
count_states-erase r id [] state u h = ground arith
count_states-erase r id ((j, x) ∷ m) state u h =
    ground (arith, count_states-erase r id m state u.1, erase-absent id m)

-- Each state goes to the expired ones or stays, as often as it stood in the table.
pub count-claim_expired :
    (r : ℕ) (due : ℕ → Bool) (m : Table)
    → count_states r m ≡ count r (claim_expired due m).0 + count_states r (claim_expired due m).1
unfolding claim_expired
count-claim_expired r due [] = refl
count-claim_expired r due ((j, x) ∷ m) = ground (arith, count-claim_expired r due m)

module _ (due : ℕ → Bool) where
  pub length-claim_expired-le : (m : Table) → length (claim_expired due m).1 ≤ length m
  unfolding claim_expired
  length-claim_expired-le [] = omega arith
  length-claim_expired-le ((j, x) ∷ m) = ground (arith, length-claim_expired-le m)

  pub claim_expired-IdsUpTo : (n : ℕ) (m : Table) → IdsUpTo n m → IdsUpTo n (claim_expired due m).1
  unfolding claim_expired
  claim_expired-IdsUpTo n [] h = tt
  claim_expired-IdsUpTo n ((j, x) ∷ m) h = ground (arith, claim_expired-IdsUpTo n m h.1)

  -- An entry stays exactly if its state is not due.
  abbrev pub unless_due : Option ℕ → Option ℕ
  unless_due none = none
  unless_due (some x) = if due x then none else some x

  pub find-claim_expired :
      (id : ℕ) (m : Table) → UniqueKeys m → find id (claim_expired due m).1 ≡ unless_due (find id m)
  unfolding claim_expired find
  find-claim_expired id [] u = refl
  find-claim_expired id ((j, x) ∷ m) u = ground (arith, find-claim_expired id m u.1)

  pub claim_expired-UniqueKeys : (m : Table) → UniqueKeys m → UniqueKeys (claim_expired due m).1
  unfolding claim_expired
  claim_expired-UniqueKeys [] u = tt
  claim_expired-UniqueKeys ((j, x) ∷ m) u =
      ground (arith, claim_expired-UniqueKeys m u.1, find-claim_expired j m u.1)

  -- Where every state is due, nothing stays.
  pub claim_expired-all : (m : Table) → ((x : ℕ) → due x ≡ true) → (claim_expired due m).1 ≡ []
  unfolding claim_expired
  claim_expired-all [] h = refl
  claim_expired-all ((j, x) ∷ m) h = ground (arith, h x, claim_expired-all m h)

  -- What is claimed was due.
  pub claim_expired_due : (m : Table) → All (λ x. due x ≡ true) (claim_expired due m).0
  unfolding claim_expired
  claim_expired_due [] = tt
  claim_expired_due ((j, x) ∷ m) = ground (arith, claim_expired_due m)
