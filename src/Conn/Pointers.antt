-- ===== src/Conn/Pointers.antt =====
-- The pointers of a heap as two maps, and what the writes do to them.
use mathlib.Core.Path.{fun_ext}
use vs_http_server.Prelude.{ℕ, ◌≡◌, refl, ap, ◌∙◌, Option, none, some, arith, Returns}
use vs_http_server.Conn.State.{Conn, Heap, load_conn, store_conn, set_next, set_prev}
use vs_http_server.Conn.Chain.{Pointers, put}

abbrev pub next_in : Option Conn → Option ℕ
next_in none = none
next_in (some c) = c.next

abbrev pub prev_in : Option Conn → Option ℕ
prev_in none = none
prev_in (some c) = c.prev

abbrev pub next_of : Heap → Pointers
next_of h a = next_in (h.cell a)

abbrev pub prev_of : Heap → Pointers
prev_of h a = prev_in (h.cell a)

-- A connection without its pointers.
abbrev pub bare : Option Conn → Option Conn
bare none = none
bare (some c) = some (record c { prev = none; next = none })

-- An object stands at an address.
abbrev pub IsLive : Heap → ℕ → Type 0
IsLive h a = (c : Conn) × (h.cell a ≡ some c)

IsLive-next_in : (u : Option Conn) (x : ℕ) → next_in u ≡ some x → (c : Conn) × (u ≡ some c)
IsLive-next_in none x e = cc
IsLive-next_in (some c) x e = (c, refl)

IsLive-prev_in : (u : Option Conn) (x : ℕ) → prev_in u ≡ some x → (c : Conn) × (u ≡ some c)
IsLive-prev_in none x e = cc
IsLive-prev_in (some c) x e = (c, refl)

pub IsLive-next_of : (h : Heap) (a x : ℕ) → next_of h a ≡ some x → IsLive h a
IsLive-next_of h a x e = IsLive-next_in (h.cell a) x e

pub IsLive-prev_of : (h : Heap) (a x : ℕ) → prev_of h a ≡ some x → IsLive h a
IsLive-prev_of h a x e = IsLive-prev_in (h.cell a) x e

-- `k` is `h` with these pointers.
pub record Relinked (next prev : Pointers) (h k : Heap) : Type 0 where
  pub next_is : next_of k ≡ next
  pub prev_is : prev_of k ≡ prev
  pub same : (a : ℕ) → bare (k.cell a) ≡ bare (h.cell a)
  pub addr : k.next_addr ≡ h.next_addr

IsLive-bare :
    (u v : Option Conn) (c : Conn) → bare u ≡ bare v → v ≡ some c → (d : Conn) × (u ≡ some d)
IsLive-bare none v c e f = cc (ap bare f)
IsLive-bare (some d) v c e f = (d, refl)

pub IsLive-Relinked :
    (next prev : Pointers) (h k : Heap) (a : ℕ) → Relinked next prev h k → IsLive h a → IsLive k a
IsLive-Relinked next prev h k a r (c, e) = IsLive-bare (k.cell a) (h.cell a) c (r.same a) e

pub Relinked-trans :
    (n p m q : Pointers) (h k l : Heap) → Relinked n p h k → Relinked m q k l → Relinked m q h l
Relinked-trans n p m q h k l r s = record {
  next_is = s.next_is;
  prev_is = s.prev_is;
  same = λ a. s.same a ∙ r.same a;
  addr = s.addr ∙ r.addr;
}

pub load_conn-Returns :
    (h : Heap) (a : ℕ)
    → IsLive h a
    → Returns (λ c. (c.next ≡ next_of h a) × (c.prev ≡ prev_of h a)) (load_conn h a)
unfolding load_conn
load_conn-Returns h a (c, e) = rw e (refl, refl)

pub set_next-Relinked :
    (a : ℕ) (p : Option ℕ) (h : Heap)
    → IsLive h a
    → Returns (Relinked (put a p (next_of h)) (prev_of h) h) (set_next a p h)
unfolding set_next load_conn store_conn
set_next-Relinked a p h (c, e) = rw e (record {
  next_is = fun_ext λ b. ground arith;
  prev_is = fun_ext λ b. ground arith;
  same = λ b. ground arith;
  addr = refl;
})

pub set_prev-Relinked :
    (a : ℕ) (p : Option ℕ) (h : Heap)
    → IsLive h a
    → Returns (Relinked (next_of h) (put a p (prev_of h)) h) (set_prev a p h)
unfolding set_prev load_conn store_conn
set_prev-Relinked a p h (c, e) = rw e (record {
  next_is = fun_ext λ b. ground arith;
  prev_is = fun_ext λ b. ground arith;
  same = λ b. ground arith;
  addr = refl;
})
