-- ===== src/Mysql/Trace.antt =====
-- Sequences of calls of `_GetMysqlConn` and `_ReleaseMysqlConn`.
use vs_http_server.Prelude.{
  ℕ, suc, ◌+◌, ◌<◌, ◌≤◌, ◌≡◌, refl, ap, sym, ◌∙◌, Bool, true, false, List, [], ◌∷◌, arith, length,
  drop, drop-drop, length-drop, ap₂, if◌then◌else◌, Returns-if, Returns->>=, Returns-map,
  Returns-inv, Outcome, ret, fault, Returns, ◌>>=◌,
}
use vs_http_server.Mysql.State.{
  ManagePool, GetConn, blocked, get_mysql_conn, get_front, ping_conn, move_to_busy,
  release_mysql_conn, move_to_idle,
}
use vs_http_server.Mysql.Laws.{erase-head}
use vs_http_server.Pool.Counts.{erase}

pub data Call : Type 0 where
  get : Call
  release : ℕ → Call

-- The calls in order, on one pool. A call of `get` that waits leaves the pool as it is.
unfoldable pub run_calls : (ℕ → Bool) → List Call → ManagePool → Outcome ManagePool
run_calls ping [] p = ret p
run_calls ping (get ∷ calls) p = get_mysql_conn ping p >>= λ r. run_calls ping calls r.1
run_calls ping (release n ∷ calls) p = run_calls ping calls (release_mysql_conn n p)

-- How often the calls get a connection.
abbrev pub gets : List Call → ℕ
gets [] = 0
gets (get ∷ calls) = suc (gets calls)
gets (release n ∷ calls) = gets calls

module _ (ping : ℕ → Bool) (p : ManagePool) where
  -- What a call leaves that gets a connection.
  abbrev Got : GetConn × ManagePool → Type 0
  Got r = (r.1.get_locked ≡ false) × (r.1.idle_list ≡ drop 1 p.idle_list)

  get_front-Got :
      (idle : List ℕ)
      → ((n : ℕ) → ping n ≡ true)
      → p.get_locked ≡ false
      → p.idle_list ≡ idle
      → 0 < length idle
      → Returns Got (get_front ping idle p)
  unfolding get_front ping_conn move_to_busy
  get_front-Got [] answers free e some_idle = elim some_idle [ ]
  get_front-Got (n ∷ rest) answers free e some_idle =
      rw (answers n) (free, ap (erase n) e ∙ erase-head n rest ∙ sym (ap (drop 1) e))

  get_mysql_conn-Got :
      ((n : ℕ) → ping n ≡ true)
      → p.get_locked ≡ false
      → 0 < length p.idle_list
      → Returns Got (get_mysql_conn ping p)
  unfolding get_mysql_conn
  get_mysql_conn-Got answers free some_idle =
      Returns-if Got p.get_locked _ _ (λ locked. let no : ⊥ = cc in absurd no)
        λ _. get_front-Got p.idle_list answers free refl some_idle

  get_mysql_conn-empty : p.get_locked ≡ false → p.idle_list ≡ [] → get_mysql_conn ping p ≡ fault
  unfolding get_mysql_conn get_front
  get_mysql_conn-empty free e =
      ap₂ (λ b idle. if b then ret (blocked, p) else get_front ping idle p) free e

-- The pool has no more than its first connections: where every ping is answered and the mutex is
-- free, calls that ask for no more connections than are idle all return, and the idle list has lost
-- one connection for each of them, whatever was released in between.
pub run_calls-Drains :
    (ping : ℕ → Bool) (calls : List Call) (p : ManagePool)
    → ((n : ℕ) → ping n ≡ true)
    → p.get_locked ≡ false
    → gets calls ≤ length p.idle_list
    → Returns
        (λ q. (q.idle_list ≡ drop (gets calls) p.idle_list) × (q.get_locked ≡ false))
        (run_calls ping calls p)
unfolding run_calls release_mysql_conn move_to_idle
run_calls-Drains ping [] p answers free room = (refl, free)
run_calls-Drains ping (release n ∷ calls) p answers free room =
    run_calls-Drains ping calls (release_mysql_conn n p) answers free room
run_calls-Drains ping (get ∷ calls) p answers free room =
    Returns->>= (Got ping p) _ (get_mysql_conn ping p) _
      (get_mysql_conn-Got ping p answers free (omega arith))
      λ r _ g.
        Returns-map (λ q. (q.idle_list ≡ drop (gets calls) r.1.idle_list) × (q.get_locked ≡ false))
          _ (run_calls ping calls r.1)
          (λ q h. (
            h.0
                ∙ ap (drop (gets calls)) g.1
                ∙ drop-drop (gets calls) 1 p.idle_list
                ∙ ap (λ k. drop k p.idle_list)
                    (let e : 1 + gets calls ≡ suc (gets calls) = omega arith in e),
            h.1,
          ))
          (run_calls-Drains ping calls r.1 answers g.0
            (omega (arith, ap length g.1, length-drop {0} 1 p.idle_list)))

-- Where every ping is answered and the mutex is free, calls that ask for more connections than are idle
-- come to a bad access, whatever they release in between.
pub run_calls-fault :
    (ping : ℕ → Bool) (calls : List Call) (p : ManagePool)
    → ((n : ℕ) → ping n ≡ true)
    → p.get_locked ≡ false
    → length p.idle_list < gets calls
    → run_calls ping calls p ≡ fault
unfolding run_calls release_mysql_conn move_to_idle
run_calls-fault ping [] p answers free room = elim room [ ]
run_calls-fault ping (release n ∷ calls) p answers free room =
    run_calls-fault ping calls (release_mysql_conn n p) answers free room
run_calls-fault ping (get ∷ calls) p answers free room =
    by_idle p.idle_list refl λ q. run_calls-fault ping calls q answers
  where
    by_idle :
        (idle : List ℕ)
        → p.idle_list ≡ idle
        → ((q : ManagePool)
            → q.get_locked ≡ false
            → length q.idle_list < gets calls
            → run_calls ping calls q ≡ fault)
        → (get_mysql_conn ping p >>= λ r. run_calls ping calls r.1) ≡ fault
    by_idle [] e rest = rw (get_mysql_conn-empty ping p free e) refl
    by_idle (n ∷ idle) e rest =
        let (r, er, g) =
          Returns-inv (Got ping p) (get_mysql_conn ping p)
            (get_mysql_conn-Got ping p answers free (omega (arith, ap length e))) in
        rw er
          (rest r.1 g.0 (omega (arith, ap length g.1, length-drop {0} 1 p.idle_list, ap length e)))
