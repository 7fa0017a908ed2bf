-- ===== src/Job/Buffer.antt =====
-- Reads and writes in a buffer that is put together of parts.
use vs_http_server.Prelude.{
  ℕ, ◌≡◌, refl, arith, some, [], ◌∷◌, ◌++◌, length, drop, get_elem?, ret, length-append,
  drop-append, set-append, lt→ltb,
}
use vs_http_server.CString.{Bytes}
use vs_http_server.Job.State.{load, store}

-- The rest of a buffer from an offset on, and a read and a write there.
pub drop-at : (buf a b : Bytes) (i : ℕ) → buf ≡ a ++ b → i ≡ length a → drop i buf ≡ b
drop-at buf a b i e n = rw (e, n) (drop-append a b)

get_elem?-append : (a b : Bytes) (c : ℕ) → get_elem? (a ++ (c ∷ b)) (length a) ≡ some c
get_elem?-append [] b c = refl
get_elem?-append (x ∷ a) b c = get_elem?-append a b c

pub load-at : (buf a b : Bytes) (c i : ℕ) → buf ≡ a ++ (c ∷ b) → i ≡ length a → load buf i ≡ ret c
unfolding load
load-at buf a b c i e n = rw (e, n, get_elem?-append a b c) refl

pub store-at :
    (buf a b : Bytes) (c i v : ℕ)
    → buf ≡ a ++ (c ∷ b)
    → i ≡ length a
    → store buf i v ≡ ret (a ++ (v ∷ b))
unfolding store
store-at buf a b c i v e n =
    rw
      (
        e,
        n,
        lt→ltb (length a) (length (a ++ (c ∷ b))) (omega (arith, length-append {0} a (c ∷ b))),
        set-append a b c v,
      )
      refl
