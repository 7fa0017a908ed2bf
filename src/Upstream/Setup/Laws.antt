-- ===== src/Upstream/Setup/Laws.antt =====
-- What the handler and the request of the nginx module come to.
use vs_http_server.Prelude.{
  ℕ, ◌+◌, ◌≡◌, refl, true, Option, none, some, List, [], ◌∷◌, Returns, Returns-if, ◌≢◌, ap, false,
  ◌||◌, ◌⊎◌, inl, inr,
}
use vs_http_server.CString.{codes}
use vs_http_server.Upstream.Setup.{
  LocConf, HandlerCalls, HandlerState, HandlerRc, handler_error, handler_done, resolve_backend,
  make_upstream, fill_upstream, new_resolved, Resolved, or_else, with_context, handler,
}
use vs_http_server.Upstream.Status.{Context}

-- The request has all that `ngx_http_upstream_init` needs, for the host at the address `a`, and is
-- counted for it.
abbrev pub Started : HandlerCalls → LocConf → ℕ → Context → HandlerState → HandlerState → Type 0
Started c conf a ctx s t =
    (t.context ≡ some (record ctx { backend_server = c.inet_ntoa a }))
    × (t.created ≡ true)
    × (t.callbacks ≡ true)
    × (t.buffering ≡ conf.buffering)
    × (t.resolved ≡ some (record { port = 12345; addr = c.inet_addr (c.inet_ntoa a); naddrs = 1 }))
    × (t.count ≡ s.count + 1)
    × (t.inits ≡ s.inits + 1)

-- Nothing is started, and the request is as often counted as before.
abbrev pub Kept : HandlerState → HandlerState → Type 0
Kept s t = (t.count ≡ s.count) × (t.inits ≡ s.inits) × (t.callbacks ≡ s.callbacks)

-- Some call of nginx or the C library has failed.
abbrev pub Fails : HandlerCalls → HandlerState → Type 0
Fails c s =
    (or_else s.context c.palloc_context ≡ none)
    ⊎ (c.upstream_create ≡ false)
    ⊎ (c.pcalloc_resolved ≡ false)
    ⊎ (c.gethostbyname (codes "localhost") ≡ none)

-- Success, and then every call has succeeded; or a failure, and then some call has failed.
abbrev pub Handled : HandlerCalls → LocConf → HandlerState → HandlerRc × HandlerState → Type 0
Handled c conf s (handler_done, t) =
    (c.upstream_create ≡ true)
    × (c.pcalloc_resolved ≡ true)
    × ((ctx : Context) × (a : ℕ) × (more : List ℕ) × (or_else s.context c.palloc_context ≡ some ctx)
        × (c.gethostbyname (codes "localhost") ≡ some (a ∷ more))
        × Started c conf a ctx s t)
Handled c conf s (handler_error, t) = Fails c s × Kept s t

resolve_backend-Handled :
    (c : HandlerCalls) (conf : LocConf) (ctx : Context) (s t : HandlerState) (o : Option (List ℕ))
    (z : Resolved)
    → c.gethostbyname (codes "localhost") ≡ o
    → o ≢ some []
    → c.upstream_create ≡ true
    → c.pcalloc_resolved ≡ true
    → or_else s.context c.palloc_context ≡ some ctx
    → t.created ≡ true
    → t.resolved ≡ some z
    → t.buffering ≡ conf.buffering
    → Kept s t
    → Returns (Handled c conf s) (resolve_backend c ctx o t)
unfolding resolve_backend
resolve_backend-Handled c conf ctx s t none z host h up room found made there buf same =
    (inr (inr (inr host)), same)
resolve_backend-Handled c conf ctx s t (some []) z host h up room found made there buf same =
    absurd (h refl)
resolve_backend-Handled c conf ctx s t (some (a ∷ more)) z host h up room found made there buf
      (n, i, _) =
    rw there (
      up,
      room,
      (
        ctx,
        a,
        more,
        found,
        host,
        (refl, made, refl, buf, refl, ap (λ x. x + 1) n, ap (λ x. x + 1) i),
      ),
    )

make_upstream-Handled :
    (c : HandlerCalls) (conf : LocConf) (ctx : Context) (s t : HandlerState)
    → c.gethostbyname (codes "localhost") ≢ some []
    → or_else s.context c.palloc_context ≡ some ctx
    → Kept s t
    → Returns (Handled c conf s) (make_upstream c conf ctx t)
unfolding make_upstream fill_upstream
make_upstream-Handled c conf ctx s t h found same =
    Returns-if (Handled c conf s) c.upstream_create _ _
      (λ up.
        let made : (c.upstream_create || t.created) ≡ true = ap (λ b. b || t.created) up in
        Returns-if (Handled c conf s) (c.upstream_create || t.created) _ _
          (λ _.
            Returns-if (Handled c conf s) c.pcalloc_resolved _ _
              (λ room.
                resolve_backend-Handled c conf ctx s _ (c.gethostbyname (codes "localhost"))
                  (record { port = 0; addr = 0; naddrs = 0 }) refl h up room found made
                  (ap new_resolved room) refl same)
              (λ full. (inr (inr (inl full)), same)))
          (λ no. absurd (cc (made, no))))
      (λ down. (inr (inl down), same))

with_context-Handled :
    (c : HandlerCalls) (conf : LocConf) (s : HandlerState) (o : Option Context)
    → or_else s.context c.palloc_context ≡ o
    → c.gethostbyname (codes "localhost") ≢ some []
    → Returns (Handled c conf s) (with_context c conf o s)
unfolding with_context
with_context-Handled c conf s none e h = (inl e, (refl, refl, refl))
with_context-Handled c conf s (some ctx) e h =
    make_upstream-Handled c conf ctx s (record s { context = some ctx }) h e (refl, refl, refl)

-- Where `gethostbyname` gives no host without an address, the handler ends on every branch with no bad
-- access. It answers `NGX_DONE` only where a context is there or memory for it, the upstream and
-- `u->resolved` can be made, and the host is found; it has then started the upstream once, for the first
-- address of the host, and counted the request once more. It answers `NGX_ERROR` only where one of these
-- calls fails, and then the upstream is not started and the count is as before.
pub handler-Handled :
    (c : HandlerCalls) (conf : LocConf) (s : HandlerState)
    → c.gethostbyname (codes "localhost") ≢ some []
    → Returns (Handled c conf s) (handler c conf s)
unfolding handler
handler-Handled c conf s h = with_context-Handled c conf s _ refl h
