-- ===== src/Pool/Thread/Laws.antt =====
-- What becomes of threads that start, and of those that do not.
use vs_http_server.Prelude.{
  ℕ, ◌≡◌, refl, Bool, Option, none, some, List, [], ◌∷◌, Outcome, ret, fault, ◌>>=◌,
}
use vs_http_server.Pool.Thread.{
  thread, deleted, Thread, new_thread, returned, threw, delete_id, start, terminate_all, start_all,
}

-- All threads could be started, with these ids; or one of them could not.
abbrev pub started_ids : List (Option ℕ) → Option (List ℕ)
started_ids [] = some []
started_ids (none ∷ more) = none
started_ids (some id ∷ more) = elim (started_ids more) [ none ↦ none | some ids ↦ some (id ∷ ids) ]

abbrev pub ended : Option (List ℕ) → Outcome (List ℕ)
ended none = fault
ended (some ids) = ret ids

-- The threads of a pool after its constructor.
abbrev started_list : List (Option ℕ) → List Thread
started_list [] = []
started_list (none ∷ more) = record new_thread { thread_id = deleted } ∷ started_list more
started_list (some id ∷ more) = record new_thread { thread_id = thread id } ∷ started_list more

start_all_lem : (created : List (Option ℕ)) → start_all created ≡ ret (started_list created)
unfolding start_all
start_all_lem [] = refl
start_all_lem (none ∷ more) = rw (start_all_lem more) refl
start_all_lem (some id ∷ more) = rw (start_all_lem more) refl

ended-cons :
    (id : ℕ) (o : Option (List ℕ))
    → (ended o >>= λ rest. ret (id ∷ rest))
      ≡ ended (elim o [ none ↦ none | some ids ↦ some (id ∷ ids) ])
ended-cons id none = refl
ended-cons id (some ids) = refl

terminate_all_lem :
    (cancels : ℕ → Bool) (created : List (Option ℕ))
    → terminate_all cancels (started_list created) ≡ ended (started_ids created)
unfolding terminate_all
terminate_all_lem cancels [] = refl
terminate_all_lem cancels (none ∷ more) = refl
terminate_all_lem cancels (some id ∷ more) =
    rw (terminate_all_lem cancels more) (ended-cons id (started_ids more))

-- `TerminateAll` behind the constructor of the pool: where every thread could be started, it cancels
-- each of them once, in their order, whatever `pthread_cancel` answers; where one could not, its
-- deleted id is read, which is a bad access.
pub terminate_all-start_all :
    (cancels : ℕ → Bool) (created : List (Option ℕ))
    → (start_all created >>= terminate_all cancels) ≡ ended (started_ids created)
terminate_all-start_all cancels created =
    rw (start_all_lem created) (terminate_all_lem cancels created)

-- The destructor of a thread that could not be started deletes the id a second time; that of any other
-- thread deletes it once.
pub delete_id-start :
    (created : Option ℕ)
    → (start created new_thread >>= λ c. elim c [
      | returned t ↦ delete_id t
      | threw t ↦ delete_id t
    ])
      ≡ elim created [ none ↦ fault | some id ↦ ret (record new_thread { thread_id = deleted }) ]
unfolding start delete_id
delete_id-start none = refl
delete_id-start (some id) = refl
