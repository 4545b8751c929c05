-- ===== src/Database/Transactions.antt =====
-- backend/isched_DatabaseManager.cpp: `DatabaseTransaction`. Whether SQLite runs a statement is given with
-- each operation; `ended` are the ends that it ran.
use isched.Common.{
  ◌≡◌, refl, Bool, true, false, not, ◌&&◌, ◌||◌, List, [], ◌∷◌, ◌++◌, if◌then◌else◌, arith,
}

pub data Ending : Type 0 where
  committed_end rolled_back_end : Ending

pub record Transaction : Type 0 where
  pub committed : Bool
  pub rolled_back : Bool
  pub ended : List Ending

-- True is success and false `TransactionFailed`.
unfoldable pub commit : Bool → Transaction → Bool × Transaction
commit ran t =
    if t.committed || t.rolled_back || not ran
    then (false, t)
    else (true, record t { committed = true; ended = t.ended ++ (committed_end ∷ []) })

unfoldable pub rollback : Bool → Transaction → Bool × Transaction
rollback ran t =
    if t.committed
    then (false, t)
    else if t.rolled_back
    then (true, t)
    else if ran
    then (true, record t { rolled_back = true; ended = t.ended ++ (rolled_back_end ∷ []) })
    else (false, t)

-- The destructor, which does not look at whether its ROLLBACK ran.
unfoldable pub destroy : Bool → Transaction → List Ending
destroy ran t =
    if not t.committed && not t.rolled_back && ran
    then t.ended ++ (rolled_back_end ∷ [])
    else t.ended

pub data Operation : Type 0 where
  commits rolls_back : Bool → Operation

abbrev pub begun : Transaction
begun = record { committed = false; rolled_back = false; ended = [] }

unfoldable pub perform : Operation → Transaction → Transaction
perform (commits ran) t = (commit ran t).1
perform (rolls_back ran) t = (rollback ran t).1

-- The operations, the last one first.
unfoldable pub perform_all : List Operation → Transaction
perform_all [] = begun
perform_all (op ∷ earlier) = perform op (perform_all earlier)

-- What the flags say of the end that was run.
abbrev ends_of : Transaction → List Ending
ends_of t =
    if t.committed then committed_end ∷ [] else if t.rolled_back then rolled_back_end ∷ [] else []

ended-flags : (ops : List Operation) → (perform_all ops).ended ≡ ends_of (perform_all ops)
unfolding perform_all perform commit rollback
ended-flags [] = refl
ended-flags (commits ran ∷ ops) = ground (arith, ended-flags ops)
ended-flags (rolls_back ran ∷ ops) = ground (arith, ended-flags ops)

-- Whatever is asked of a transaction and however SQLite answers, its destructor included: COMMIT or ROLLBACK
-- runs at most once. It is the COMMIT exactly if the flag says so, and otherwise a ROLLBACK, unless none
-- ran before the destructor and the destructor's own does not run either.
pub destroy-once :
    (ops : List Operation) (ran : Bool)
    → destroy ran (perform_all ops) ≡ (
        if (perform_all ops).committed
        then committed_end ∷ []
        else if (perform_all ops).rolled_back || ran
        then rolled_back_end ∷ []
        else [])
unfolding destroy
destroy-once ops ran = ground (arith, ended-flags ops)
