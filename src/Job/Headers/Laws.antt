-- ===== src/Job/Headers/Laws.antt =====
-- `parse_headers` on a line that ends in the buffer, and the body's bounds in `parse_content`.
use vs_http_server.CString.Copies.{string_at-Returns}
use vs_http_server.Prelude.{
  ℕ, ◌+◌, ◌-◌, ◌^◌, ◌≤◌, ◌<◌, ◌≡◌, subst, set, ltb→le, refl, ap, sym, ◌∙◌, arith, true, false, Bool,
  length, drop, Outcome, ret, Returns, ◌>>=◌, Returns->>=, Returns-if, Returns-map, ◌==◌,
  length-set, drop-drop, Allows, Allows-if, Allows->>=, inl, inr, ltb, leb_ℤ, ◌⊎◌, ℤ, pos, negsuc,
}
use vs_http_server.CString.{string_at, Bytes, codes, strspn, strcasecmp_eq, strncasecmp_eq, atol}
use vs_http_server.CString.Laws.{
  has_nul, has_nul-drop, strspn-Returns, strcasecmp_eq-Returns, strncasecmp_eq-Returns,
  atol-Returns,
}
use vs_http_server.Job.Line.Laws.{load_lt, has_nul-drop_store}
use vs_http_server.Job.State.{
  Job, HttpCode, check_state_content, no_request, get_request, head_request, store,
}
use vs_http_server.Job.Headers.{
  end_headers, header_connection, header_content_length, header_host, header_field, parse_headers,
  parse_content, store_signed, add_index,
}

-- What a call does: the answer is to go on, or to serve the request; the buffer stays, and the
-- parser goes to the body only with the answer to go on.
pub record HeaderRead (j : Job) (r : HttpCode × Job) : Type 0 where
  pub frame : r.1 ≡ record j {
    check_state = r.1.check_state;
    linger = r.1.linger;
    content_length = r.1.content_length;
    host = r.1.host;
  }
  pub code : (r.0 ≡ no_request) ⊎ (r.0 ≡ get_request) ⊎ (r.0 ≡ head_request)
  pub state : (r.1.check_state ≡ j.check_state) ⊎ (r.1.check_state ≡ check_state_content)

end_headers-HeaderRead : (j : Job) → HeaderRead j (end_headers j)
unfolding end_headers
end_headers-HeaderRead j = ground arith

-- What a header does: it may change three members, and the answer is to go on.
abbrev pub FieldRead : Job → HttpCode × Job → Type 0
FieldRead j r = r ≡ (
  no_request,
  record j { linger = r.1.linger; content_length = r.1.content_length; host = r.1.host },
)

FieldRead-HeaderRead : (j : Job) (r : HttpCode × Job) → FieldRead j r → HeaderRead j r
FieldRead-HeaderRead j r e = ground (arith, e)

-- The value of a header, behind its name and the blanks.
module _ (text : ℕ) (j : Job) (h : has_nul (drop text j.read_buf) ≡ true) where
  value_ends :
      (skipped : ℕ)
      → has_nul (drop skipped (drop text j.read_buf)) ≡ true
      → has_nul (drop (text + skipped) j.read_buf) ≡ true
  value_ends skipped q = ap has_nul (sym (drop-drop skipped text j.read_buf)) ∙ q

  header_connection-FieldRead : Returns (FieldRead j) (header_connection text j)
  unfolding header_connection
  header_connection-FieldRead =
      Returns->>= _ (FieldRead j) (strspn (drop text j.read_buf)) _
        (strspn-Returns (drop text j.read_buf) h)
        λ skipped _ q.
          Returns->>= _ (FieldRead j)
            (strcasecmp_eq (drop (text + skipped) j.read_buf) (codes "keep-alive")) _
            (strcasecmp_eq-Returns (drop (text + skipped) j.read_buf) (codes "keep-alive")
              (value_ends skipped q) refl)
            λ keep _ _. ground arith

  header_content_length-FieldRead : Returns (FieldRead j) (header_content_length text j)
  unfolding header_content_length
  header_content_length-FieldRead =
      Returns->>= _ (FieldRead j) (strspn (drop text j.read_buf)) _
        (strspn-Returns (drop text j.read_buf) h)
        λ skipped _ q.
          Returns->>= _ (FieldRead j) (atol (drop (text + skipped) j.read_buf)) _
            (atol-Returns (drop (text + skipped) j.read_buf) (value_ends skipped q))
            λ value _ _. refl

  header_host-FieldRead : Returns (FieldRead j) (header_host text j)
  unfolding header_host
  header_host-FieldRead =
      Returns->>= _ (FieldRead j) (strspn (drop text j.read_buf)) _
        (strspn-Returns (drop text j.read_buf) h) λ skipped _ q. refl

-- What stands behind a name that fits is still a string.
behind_name :
    (text n : ℕ) (j : Job)
    → has_nul (drop n (drop text j.read_buf)) ≡ true
    → has_nul (drop (text + n) j.read_buf) ≡ true
behind_name text n j q = ap has_nul (sym (drop-drop n text j.read_buf)) ∙ q

-- One test of the chain.
field_test :
    (text : ℕ) (j : Job) (name : Bytes) (f : Bool → Outcome (HttpCode × Job))
    → has_nul (drop text j.read_buf) ≡ true
    → has_nul name ≡ false
    → (has_nul (drop (text + length name) j.read_buf) ≡ true → Returns (FieldRead j) (f true))
    → Returns (FieldRead j) (f false)
    → Returns (FieldRead j) (strncasecmp_eq (drop text j.read_buf) name >>= f)
field_test text j name f h l known other =
    Returns->>= _ (FieldRead j) (strncasecmp_eq (drop text j.read_buf) name) f
      (strncasecmp_eq-Returns (drop text j.read_buf) name h l) λ b _ q. by_result b q
  where
    by_result :
        (b : Bool)
        → (b ≡ true → has_nul (drop (length name) (drop text j.read_buf)) ≡ true)
        → Returns (FieldRead j) (f b)
    by_result true q = known (behind_name text (length name) j (q refl))
    by_result false q = other

pub header_field-FieldRead :
    (text : ℕ) (j : Job)
    → has_nul (drop text j.read_buf) ≡ true
    → Returns (FieldRead j) (header_field text j)
unfolding header_field
header_field-FieldRead text j h =
    field_test text j (codes "Connection:") _ h refl
      (λ q. header_connection-FieldRead (text + 11) j q)
      (field_test text j (codes "Content-Length:") _ h refl
        (λ q. header_content_length-FieldRead (text + 15) j q)
        (field_test text j (codes "Host:") _ h refl (λ q. header_host-FieldRead (text + 5) j q)
          (unknown)))
  where
    unknown : Returns (FieldRead j) (do _ ← string_at (drop text j.read_buf); ret (no_request, j))
    unknown =
        Returns->>= (λ s. has_nul s ≡ false) (FieldRead j) (string_at (drop text j.read_buf)) _
          (string_at-Returns (drop text j.read_buf) h) λ _ _ _. refl

-- On a line that ends in the buffer the function makes no access outside the buffer and ends; its
-- result is as `HeaderRead` says.
pub parse_headers-HeaderRead :
    (text : ℕ) (j : Job)
    → has_nul (drop text j.read_buf) ≡ true
    → Returns (HeaderRead j) (parse_headers text j)
unfolding parse_headers
parse_headers-HeaderRead text j h =
    let (c, e) = load_lt j.read_buf text (has_nul-drop text j.read_buf h) in
    rw e (
      Returns-if (HeaderRead j) (c == 0) _ _ (λ _. end_headers-HeaderRead j)
        λ _.
          Returns-map (FieldRead j) (HeaderRead j) (header_field text j) (FieldRead-HeaderRead j)
            (header_field-FieldRead text j h))

-- `m_content_length + m_checked_idx`.
abbrev pub body_end : Job → ℤ
body_end j = add_index j.content_length j.checked_idx

-- The index is outside an array.
abbrev pub Misses : Bytes → ℤ → Type 0
Misses buf (pos i) = length buf ≤ i
Misses buf (negsuc i) = Unit

-- When a call makes a bad access: the sum is no `int`, or the body is there and the NUL behind it
-- misses the buffer.
abbrev pub BodyFault : ℕ → Job → Type 0
BodyFault text j =
    (leb_ℤ (body_end j) (2 ^ 31 - 1) ≡ false)
    ⊎ (leb_ℤ (body_end j) j.read_idx ≡ true) × Misses j.read_buf (add_index j.content_length text)

-- The two answers: the body is there and a NUL has been put behind it, or it is not there and
-- nothing has changed.
abbrev pub BodyAnswer : ℕ → Job → HttpCode × Job → Type 0
BodyAnswer text j r =
    (leb_ℤ (body_end j) j.read_idx ≡ true)
      × (r.0 ≡ get_request)
      × ((i : ℕ) × (add_index j.content_length text ≡ pos i)
          × (i < length j.read_buf)
          × (r.1 ≡ record j { read_buf = set j.read_buf i 0 }))
    ⊎ (leb_ℤ (body_end j) j.read_idx ≡ false) × (r.0 ≡ no_request) × (r.1 ≡ j)

-- What a call that makes no bad access does.
pub record ContentRead (text : ℕ) (j : Job) (r : HttpCode × Job) : Type 0 where
  pub frame : r.1 ≡ record j { read_buf = r.1.read_buf }
  pub size : length r.1.read_buf ≡ length j.read_buf
  pub fits : leb_ℤ (body_end j) (2 ^ 31 - 1) ≡ true
  pub answers : BodyAnswer text j r
  pub keeps_nul :
      (u : ℕ) → has_nul (drop u j.read_buf) ≡ true → has_nul (drop u r.1.read_buf) ≡ true

store_signed-ContentRead :
    (text : ℕ) (j : Job) (i : ℤ)
    → add_index j.content_length text ≡ i
    → leb_ℤ (body_end j) (2 ^ 31 - 1) ≡ true
    → leb_ℤ (body_end j) j.read_idx ≡ true
    → Allows
        (BodyFault text j)
        (ContentRead text j)
        (do buf ← store_signed j.read_buf i 0; ret (get_request, record j { read_buf = buf }))
unfolding store_signed store
store_signed-ContentRead text j (negsuc i) at f b = inr (b, subst (Misses j.read_buf) (sym at) tt)
store_signed-ContentRead text j (pos i) at f b =
    Allows->>= (BodyFault text j) (λ buf. (i < length j.read_buf) × (buf ≡ set j.read_buf i 0))
      (ContentRead text j) (store j.read_buf i 0) _
      (Allows-if (BodyFault text j) _ (ltb i (length j.read_buf)) _ _ (λ e. (ground arith, refl))
        λ e.
          inr
            (b, subst (Misses j.read_buf) (sym at) (omega (arith, ltb→le i (length j.read_buf) e))))
      λ buf _ (lt, e). record {
        frame = refl;
        size = ap length e ∙ length-set j.read_buf i 0;
        fits = f;
        answers = inl (b, refl, (i, at, lt, ap (λ (x : Bytes). record j { read_buf = x }) e));
        keeps_nul = λ u h. rw e (has_nul-drop_store j.read_buf u i h);
      }

-- A call ends, and makes a bad access only where the body's end is no `int`, or where the body is in
-- the buffer by the length test and the index of the NUL behind it is outside the buffer. Otherwise
-- the end is an `int`, and the answer is `get_request`, with a NUL stored at that index and nothing
-- else changed, where the length test holds, and `no_request`, with nothing changed, where it does
-- not; and no string in the buffer has lost its end.
pub parse_content-ContentRead :
    (text : ℕ) (j : Job) → Allows (BodyFault text j) (ContentRead text j) (parse_content text j)
unfolding parse_content
parse_content-ContentRead text j =
    let F = BodyFault text j in
    Allows-if F (ContentRead text j) (leb_ℤ (body_end j) (2 ^ 31 - 1)) _ _
      (λ f.
        Allows-if F (ContentRead text j) (leb_ℤ (body_end j) j.read_idx) _ _
          (λ b. store_signed-ContentRead text j (add_index j.content_length text) refl f b)
          λ b. record {
            frame = refl;
            size = refl;
            fits = f;
            answers = inr (b, refl, refl);
            keeps_nul = λ u h. h;
          })
      λ f. inl f
