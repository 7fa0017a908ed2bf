-- ===== src/Job/RequestLine/Accept.antt =====
-- What a call of `parse_request_line` does, and its end: the version, the scheme and the URL.
use vs_http_server.Prelude.{
  ℕ, suc, ◌+◌, ◌<◌, ◌≤◌, ◌≡◌, ◌≢◌, refl, ap, sym, ◌∙◌, arith, true, Option, none, some, length, set,
  drop, ret, Returns, Returns->>=, Returns-if, Returns-map, drop-set_lt, ==_iff, ◌==◌, length-set,
  drop-drop,
}
use vs_http_server.CString.{Bytes, codes, strspn, strchr, strcasecmp_eq, strncasecmp_eq}
use vs_http_server.CString.Laws.{
  has_nul, has_nul-drop, FoundAt, strspn-Returns, strchr-Returns, strcasecmp_eq-Returns,
  strncasecmp_eq-Returns,
}
use vs_http_server.Job.Line.Laws.{has_nul-drop-set, load_lt, store_lt}
use vs_http_server.Job.State.{Job, Method, HttpCode, check_state_header, bad_request, load}
use vs_http_server.Job.RequestLine.{slash_after, accept_url, skip_scheme, check_version}

-- A URL that is a string in the buffer and begins with a slash.
abbrev pub UrlAt : Option ℕ → Bytes → Type 0
UrlAt none buf = ⊥
UrlAt (some u) buf = (has_nul (drop u buf) ≡ true) × (load buf u ≡ ret b'/')

-- What a call does: it changes the members named in `frame` only, and where it accepts the line
-- the parser is in the header state with a URL, and the answer is the code of the method.
pub record RequestRead (j : Job) (r : HttpCode × Job) : Type 0 where
  pub frame : r.1 ≡ record j {
    read_buf = r.1.read_buf;
    url = r.1.url;
    version = r.1.version;
    method = r.1.method;
    request = r.1.request;
    check_state = r.1.check_state;
  }
  pub size : length r.1.read_buf ≡ length j.read_buf
  pub code : r.0 ≢ bad_request → r.0 ≡ r.1.request
  pub state : r.0 ≢ bad_request → r.1.check_state ≡ check_state_header
  pub url_at : r.0 ≢ bad_request → UrlAt r.1.url r.1.read_buf

-- A refusal promises less.
pub refused :
    (j k : Job)
    → k ≡ record j {
      read_buf = k.read_buf;
      url = k.url;
      version = k.version;
      method = k.method;
      request = k.request;
      check_state = k.check_state;
    }
    → length k.read_buf ≡ length j.read_buf
    → RequestRead j (bad_request, k)
refused j k e n = record {
  frame = e;
  size = n;
  code = λ ne. absurd (ne refl);
  state = λ ne. absurd (ne refl);
  url_at = λ ne. absurd (ne refl);
}

-- The promise of the rest of the function is that of the whole.
pub later :
    (j : Job) (buf : Bytes) (u v : Option ℕ) (m : Method) (q : HttpCode) (r : HttpCode × Job)
    → length buf ≡ length j.read_buf
    → RequestRead (record j { read_buf = buf; url = u; version = v; method = m; request = q }) r
    → RequestRead j r
later j buf u v m q r n w = record {
  frame = w.frame;
  size = w.size ∙ n;
  code = w.code;
  state = w.state;
  url_at = w.url_at;
}

-- A string behind the blank that a scan from `q` has found.
pub behind :
    (buf : Bytes) (q k : ℕ)
    → has_nul (drop (suc k) (drop q buf)) ≡ true
    → has_nul (drop (q + k + 1) buf) ≡ true
behind buf q k h =
    ap (λ n. has_nul (drop n buf)) (let e : q + k + 1 ≡ q + suc k = omega arith in e)
    ∙ ap has_nul (sym (drop-drop (suc k) q buf))
    ∙ h

accept_url-RequestRead :
    (url : ℕ) (j : Job)
    → has_nul (drop url j.read_buf) ≡ true
    → Returns (RequestRead j) (accept_url (some url) j)
unfolding accept_url
accept_url-RequestRead url j h =
    let (c, e) = load_lt j.read_buf url (has_nul-drop url j.read_buf h) in
    rw e (
      Returns-if (RequestRead j) (c == b'/') _ _
        (λ slash. record {
          frame = refl;
          size = refl;
          code = λ _. refl;
          state = λ _. refl;
          url_at = λ _. (h, e ∙ ap ret ((==_iff c b'/').0 slash));
        })
        λ _. refused j _ refl refl)

skip_scheme-RequestRead :
    (url : ℕ) (j : Job)
    → has_nul (drop url j.read_buf) ≡ true
    → Returns (RequestRead j) (skip_scheme url j)
unfolding skip_scheme
skip_scheme-RequestRead url j h =
    Returns->>= _ (RequestRead j) (strncasecmp_eq (drop url j.read_buf) (codes "http://")) _
      (strncasecmp_eq-Returns (drop url j.read_buf) (codes "http://") h refl)
      λ absolute _ rest.
        Returns-if (RequestRead j) absolute _ _
          (λ e.
            let host : has_nul (drop (url + 7) j.read_buf) ≡ true =
              ap has_nul (sym (drop-drop 7 url j.read_buf)) ∙ rest e in
            Returns->>= _ (RequestRead j) (strchr b'/' (drop (url + 7) j.read_buf)) _
              (strchr-Returns b'/' (drop (url + 7) j.read_buf) host)
              λ slash _ q. from_slash slash q)
          λ _. accept_url-RequestRead url j h
  where
    from_slash :
        (slash : Option ℕ)
        → FoundAt (drop (url + 7) j.read_buf) slash
        → Returns (RequestRead j) (accept_url (slash_after (url + 7) slash) j)
    from_slash none q = unfold accept_url in refused j _ refl refl
    from_slash (some k) q =
        accept_url-RequestRead (url + 7 + k) j
          (ap has_nul (sym (drop-drop k (url + 7) j.read_buf)) ∙ q)

pub check_version-RequestRead :
    (url blank : ℕ) (j : Job)
    → url ≤ blank
    → has_nul (drop (blank + 1) j.read_buf) ≡ true
    → Returns (RequestRead j) (check_version url blank j)
unfolding check_version
check_version-RequestRead url blank j h more = rw (store_lt j.read_buf blank 0 inside) (
    Returns->>= _ (RequestRead j) (strspn (drop (blank + 1) buf)) _
      (strspn-Returns (drop (blank + 1) buf) ends)
      λ skipped _ q.
        Returns->>= _ (RequestRead j)
          (strcasecmp_eq (drop (blank + 1 + skipped) buf) (codes "HTTP/1.1")) _
          (strcasecmp_eq-Returns (drop (blank + 1 + skipped) buf) (codes "HTTP/1.1")
            (ap has_nul (sym (drop-drop skipped (blank + 1) buf)) ∙ q) refl)
          λ same _ _.
            Returns-if (RequestRead j) same _ _
              (λ _.
                Returns-map _ (RequestRead j) (skip_scheme url (at skipped))
                  (λ r w.
                    later j buf (some url) (some (blank + 1 + skipped)) j.method j.request r kept w)
                  (skip_scheme-RequestRead url (at skipped)
                    (has_nul-drop-set j.read_buf url blank h inside)))
              λ _. refused j (at skipped) refl kept)
  where
    inside : blank < length j.read_buf
    inside = omega (arith, has_nul-drop (blank + 1) j.read_buf more)

    buf : Bytes
    buf = set j.read_buf blank 0

    kept : length buf ≡ length j.read_buf
    kept = length-set j.read_buf blank 0

    ends : has_nul (drop (blank + 1) buf) ≡ true
    ends = ap has_nul (drop-set_lt j.read_buf blank (blank + 1) 0 (omega arith)) ∙ more

    at : ℕ → Job
    at skipped = record j { read_buf = buf; url = some url; version = some (blank + 1 + skipped) }
