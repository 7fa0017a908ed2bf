-- ===== src/Upstream/Status/Laws.antt =====
-- What the function for the status line does on each of its branches.
use mathlib.Core.Option.{map}
use vs_http_server.Prelude.{
  ℕ, ◌≡◌, ◌≢◌, refl, ap, ◌∙◌, true, false, Option, none, some, length, ◌⊎◌, inl, inr, arith, ret,
  fault, or_fault, Returns, Returns->>=, Returns-inv, [], ◌∷◌,
}
use vs_http_server.CString.{Bytes, string_at}
use vs_http_server.CString.Laws.{has_nul}
use vs_http_server.Upstream.{Nginx, Rc, ok, again, failed, store_at, process_header}
use vs_http_server.Upstream.Writes.{write_all}
use vs_http_server.Upstream.Answer.{IsNginx, AllFit, Taken, process_header-Taken}
use vs_http_server.Upstream.Status.{
  Status, Context, StatusRc, status_ok, status_again, status_error, StatusCalls, UpstreamState,
  log_temp, take_headers, take_status, check_status, parse_status, process_status_line,
}

-- What the code relies on: a block has the size that is asked for, and the header parser has a place
-- for each small letter that it counts.
pub record IsStatus (c : StatusCalls) : Type 0 where
  pub temp_size : (n : ℕ) (mem : Bytes) → c.temp n ≡ some mem → length mem ≡ n
  pub palloc_size : (n : ℕ) (mem : Bytes) → c.palloc n ≡ some mem → length mem ≡ n
  pub fits : (xs : Bytes) → AllFit (c.parse_header_lines xs).0

-- What has become of the upstream `u`, where the parser answers `found`.
abbrev pub StatusTaken :
    StatusCalls → StatusRc × Status × Bytes → UpstreamState → Rc × UpstreamState → Type 0
StatusTaken c (status_again, status, rest) u r = (r.0 ≡ again) × (r.1 ≡ record u { buffer = rest })
StatusTaken c (status_error, status, rest) u r =
    (r.0 ≡ ok) × (r.1 ≡ record u { buffer = rest; http_version = some 9; state = some 200 })
StatusTaken c (status_ok, status, rest) u r =
    (r.1.status_n ≡ status.code)
    × (r.1.status_line_len ≡ length status.text)
    × (r.1.state ≡ map (λ _. status.code) u.state)
    × ((r.0 ≡ failed)
        ⊎ (r.1.status_line ≡ some status.text)
          × (r.1.in_headers ≡ true)
          × Taken (c.parse_header_lines rest).0 (c.parse_header_lines rest).1 u.headers_in
              (r.0, r.1.headers_in))

pub store_at-all : (mem vs : Bytes) → length mem ≡ length vs → store_at mem 0 vs ≡ ret vs
unfolding store_at
store_at-all mem vs e = ground (arith, write_all mem vs)

take_headers-StatusTaken :
    (g : Nginx) (c : StatusCalls) (status : Status) (rest : Bytes) (u : UpstreamState)
    (o : Option Bytes)
    → IsNginx g
    → IsStatus c
    → c.palloc (length status.text) ≡ o
    → Returns (StatusTaken c (status_ok, status, rest) u) (
        take_headers g c status o (record u {
          buffer = rest;
          state = map (λ _. status.code) u.state;
          status_n = status.code;
          status_line_len = length status.text;
        }))
unfolding take_headers
take_headers-StatusTaken g c status rest u none v w e = (refl, refl, refl, inl refl)
take_headers-StatusTaken g c status rest u (some mem) v w e =
    let (lines, last, _) = c.parse_header_lines rest in
    rw (store_at-all mem status.text (w.palloc_size _ mem e)) (
      Returns->>= _ _ (process_header g lines last u.headers_in) _
        (process_header-Taken g lines last u.headers_in v (w.fits rest))
        λ r _ t. (
          refl,
          refl,
          refl,
          elim t [ inl stops ↦ inl stops.0 | inr taken ↦ inr (refl, refl, taken) ],
        ))

or_fault-Returns : (o : Option ℕ) → o ≢ none → Returns (λ _. Unit) (or_fault o)
or_fault-Returns none h = absurd (h refl)
or_fault-Returns (some a) h = tt

check_status-StatusTaken :
    (g : Nginx) (c : StatusCalls) (found : StatusRc × Status × Bytes) (u : UpstreamState)
    → IsNginx g
    → IsStatus c
    → u.state ≢ none
    → Returns
        (StatusTaken c found u)
        (check_status g c found.0 found.1 (record u { buffer = found.2 }))
unfolding check_status take_status
check_status-StatusTaken g c (status_again, status, rest) u v w s = (refl, refl)
check_status-StatusTaken g c (status_error, status, rest) u v w s =
    Returns->>= (λ _. Unit) _ (or_fault u.state) _ (or_fault-Returns u.state s)
      (λ a _ _. (refl, refl))
check_status-StatusTaken g c (status_ok, status, rest) u v w s =
    take_headers-StatusTaken g c status rest u (c.palloc (length status.text)) v w refl

-- The answer and the state behind the function: it has failed before the parser and changed nothing,
-- or the upstream is as `StatusTaken` says and the context has the parser's status.
abbrev pub StatusRead :
    StatusCalls → Option Context → UpstreamState → Rc × Option Context × UpstreamState → Type 0
StatusRead c none u r = (r.0 ≡ failed) × (r.1 ≡ none) × (r.2 ≡ u)
StatusRead c (some ctx) u r =
    (r.0 ≡ failed) × (r.1 ≡ some ctx) × (r.2 ≡ u)
    ⊎ StatusTaken c (c.parse_status_line u.buffer ctx.status) u (r.0, r.2)
      × (r.1 ≡ some (record ctx { status = (c.parse_status_line u.buffer ctx.status).1 }))

-- The log calls do not read past the text, nor for arguments that are not there.
abbrev pub IsLoggable : StatusCalls → Bytes → Type 0
IsLoggable c text = Returns (λ _. Unit) (log_temp c text)

parse_status-StatusRead :
    (g : Nginx) (c : StatusCalls) (ctx : Context) (o : Option Bytes) (u : UpstreamState)
    → IsNginx g
    → IsStatus c
    → c.temp (length u.buffer) ≡ o
    → IsLoggable c u.buffer
    → u.state ≢ none
    → Returns (StatusRead c (some ctx) u) (parse_status g c ctx o u)
unfolding parse_status
parse_status-StatusRead g c ctx none u v w e l s = inl (refl, refl, refl)
parse_status-StatusRead g c ctx (some mem) u v w e l s =
    rw (store_at-all mem u.buffer (w.temp_size _ mem e)) (
      Returns->>= (λ _. Unit) _ (log_temp c u.buffer) _ l
        λ _ _ _.
          Returns->>= (StatusTaken c (c.parse_status_line u.buffer ctx.status) u) _ _ _
            (check_status-StatusTaken g c (c.parse_status_line u.buffer ctx.status) u v w s)
            (λ r _ t. inr (t, refl)))

-- Where nginx does what `IsNginx` and `IsStatus` say, the log calls with the received bytes as their
-- format are harmless, and the upstream has a `state`, the function for the status line ends with no
-- bad access. It fails with nothing changed, or does what the answer of the parser calls for: it waits
-- for more; it takes the answer for HTTP/0.9 with the status 200; or it takes over the code and the text
-- of the status and then the headers, as `Taken` says, or fails.
pub process_status_line-StatusRead :
    (g : Nginx) (c : StatusCalls) (ctx : Option Context) (u : UpstreamState)
    → IsNginx g
    → IsStatus c
    → IsLoggable c u.buffer
    → u.state ≢ none
    → Returns (StatusRead c ctx u) (process_status_line g c ctx u)
unfolding process_status_line
process_status_line-StatusRead g c none u v w l s = (refl, refl, refl)
process_status_line-StatusRead g c (some ctx) u v w l s =
    parse_status-StatusRead g c ctx (c.temp (length u.buffer)) u v w refl l s

string_at-fault : (m : Bytes) → has_nul m ≡ false → string_at m ≡ fault
unfolding string_at
string_at-fault [] h = refl
string_at-fault (c ∷ m) h = ground (arith, string_at-fault m)

log_temp-fault :
    (c : StatusCalls) (m : Bytes) → c.debug ≡ true → has_nul m ≡ false → log_temp c m ≡ fault
unfolding log_temp
log_temp-fault c m d h = rw (d, string_at-fault m h) refl

check_status-fault :
    (g : Nginx) (c : StatusCalls) (rc : StatusRc) (status : Status) (u : UpstreamState)
    → rc ≡ status_error
    → u.state ≡ none
    → check_status g c rc status u ≡ fault
unfolding check_status
check_status-fault g c status_error status u p n = rw n refl
check_status-fault g c status_ok status u p n = cc
check_status-fault g c status_again status u p n = cc

parse_status-fault :
    (g : Nginx) (c : StatusCalls) (ctx : Context) (u : UpstreamState) (mem : Bytes)
    → length mem ≡ length u.buffer
    → (c.debug ≡ true) × (has_nul u.buffer ≡ false)
      ⊎ IsLoggable c u.buffer
        × ((c.parse_status_line u.buffer ctx.status).0 ≡ status_error)
        × (u.state ≡ none)
    → parse_status g c ctx (some mem) u ≡ fault
unfolding parse_status
parse_status-fault g c ctx u mem e (inl (d, n)) =
    rw (store_at-all mem u.buffer e, log_temp-fault c u.buffer d n) refl
parse_status-fault g c ctx u mem e (inr (l, p, n)) =
    let (found, status, rest) = c.parse_status_line u.buffer ctx.status in
    let (b, logged, _) = Returns-inv (λ _. Unit) (log_temp c u.buffer) l in
    rw
      (
        store_at-all mem u.buffer e,
        logged,
        check_status-fault g c found status (record u { buffer = rest }) p n,
      )
      refl

-- On a request with a context, where there is memory for the received bytes, the function makes a bad
-- access in two cases: the log takes debug messages and no NUL is among the bytes; or the parser refuses
-- the status line, the log calls are harmless, and the upstream has no `state`.
pub process_status_line-fault :
    (g : Nginx) (c : StatusCalls) (ctx : Context) (u : UpstreamState) (mem : Bytes)
    → IsStatus c
    → c.temp (length u.buffer) ≡ some mem
    → (c.debug ≡ true) × (has_nul u.buffer ≡ false)
      ⊎ IsLoggable c u.buffer
        × ((c.parse_status_line u.buffer ctx.status).0 ≡ status_error)
        × (u.state ≡ none)
    → process_status_line g c (some ctx) u ≡ fault
unfolding process_status_line
process_status_line-fault g c ctx u mem w e h =
    ap (λ o. parse_status g c ctx o u) e ∙ parse_status-fault g c ctx u mem (w.temp_size _ mem e) h
