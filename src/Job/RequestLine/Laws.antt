-- ===== src/Job/RequestLine/Laws.antt =====
-- `parse_request_line` on a line that ends in the buffer: memory safety, and what it hands on.
use vs_http_server.Prelude.{
  ℕ, ◌+◌, ◌<◌, ◌≤◌, ◌≡◌, refl, ap, sym, ◌∙◌, arith, true, false, Option, none, some, List, [], ◌∷◌,
  length, set, drop, ret, Returns, Returns->>=, Returns-if, Returns-map, drop-set_lt, All,
  length-set, drop-drop,
}
use vs_http_server.CString.{Bytes, strpbrk, strspn, strcasecmp_eq}
use vs_http_server.CString.Laws.{
  has_nul, has_nul-drop, FoundBefore, strpbrk-Returns, strspn-Returns, Done, strcasecmp_eq-Returns,
}
use vs_http_server.Job.Line.Laws.{has_nul-drop-set, store_lt}
use vs_http_server.Job.State.{Job, Method, HttpCode, bad_request}
use vs_http_server.Job.RequestLine.{
  methods, match_method, check_version, find_version, check_method, parse_request_line,
}
use vs_http_server.Job.RequestLine.Accept.{
  RequestRead, refused, later, behind, check_version-RequestRead,
}

find_version-RequestRead :
    (after : ℕ) (j : Job)
    → has_nul (drop after j.read_buf) ≡ true
    → Returns (RequestRead j) (find_version after j)
unfolding find_version
find_version-RequestRead after j h =
    Returns->>= _ (RequestRead j) (strspn (drop after j.read_buf)) _
      (strspn-Returns (drop after j.read_buf) h)
      λ skipped _ q.
        let ends : has_nul (drop (after + skipped) j.read_buf) ≡ true =
          ap has_nul (sym (drop-drop skipped after j.read_buf)) ∙ q in
        Returns->>= _ (RequestRead j) (strpbrk (drop (after + skipped) j.read_buf)) _
          (strpbrk-Returns (drop (after + skipped) j.read_buf) ends)
          λ found _ f. by_blank skipped found f
  where
    by_blank :
        (skipped : ℕ) (found : Option ℕ)
        → FoundBefore (drop (after + skipped) j.read_buf) found
        → Returns (RequestRead j) (elim found [
          | none ↦ ret (bad_request, record j { url = some (after + skipped); version = none })
          | some k ↦ check_version (after + skipped) (after + skipped + k) j
        ])
    by_blank skipped none f = refused j _ refl refl
    by_blank skipped (some k) f =
        check_version-RequestRead (after + skipped) (after + skipped + k) j (omega arith)
          (behind j.read_buf (after + skipped) k f.2)

match_method-Returns :
    (chain : List (Bytes × Method × HttpCode)) (text : Bytes)
    → All (λ (entry : Bytes × Method × HttpCode). has_nul entry.0 ≡ false) chain
    → has_nul text ≡ true
    → Returns (Done {A = Option (Method × HttpCode)}) (match_method chain text)
unfolding match_method
match_method-Returns [] text l h = tt
match_method-Returns ((name, m, r) ∷ rest) text l h =
    Returns->>= _ (Done {A = Option (Method × HttpCode)}) (strcasecmp_eq text name) _
      (strcasecmp_eq-Returns text name h l.0)
      λ same _ _. Returns-if Done same _ _ (λ _. tt) λ _. match_method-Returns rest text l.1 h

check_method-RequestRead :
    (text blank : ℕ) (j : Job)
    → text ≤ blank
    → has_nul (drop (blank + 1) j.read_buf) ≡ true
    → Returns (RequestRead j) (check_method text blank j)
unfolding check_method
check_method-RequestRead text blank j h more = rw (store_lt j.read_buf blank 0 inside) (
    Returns->>= _ (RequestRead j) (match_method methods (drop text buf)) _
      (match_method-Returns methods (drop text buf)
        (refl, (refl, (refl, (refl, (refl, (refl, (refl, (refl, (refl, tt)))))))))
        (has_nul-drop-set j.read_buf text blank h inside))
      λ found _ _. by_name found)
  where
    inside : blank < length j.read_buf
    inside = omega (arith, has_nul-drop (blank + 1) j.read_buf more)

    buf : Bytes
    buf = set j.read_buf blank 0

    ends : has_nul (drop (blank + 1) buf) ≡ true
    ends = ap has_nul (drop-set_lt j.read_buf blank (blank + 1) 0 (omega arith)) ∙ more

    by_name :
        (found : Option (Method × HttpCode))
        → Returns (RequestRead j) (elim found [
          | none ↦ ret (bad_request, record j { read_buf = buf; url = some (blank + 1) })
          | some (m, r) ↦
              find_version
                (blank + 1)
                (record j { read_buf = buf; url = some (blank + 1); method = m; request = r })
        ])
    by_name none = refused j _ refl (length-set j.read_buf blank 0)
    by_name (some (m, r)) =
        let named : Job = record j {
          read_buf = buf;
          url = some (blank + 1);
          method = m;
          request = r;
        } in
        Returns-map _ (RequestRead j) (find_version (blank + 1) named)
          (λ s w. later j buf (some (blank + 1)) j.version m r s (length-set j.read_buf blank 0) w)
          (find_version-RequestRead (blank + 1) named ends)

-- On a line that ends in the buffer the function makes no access outside the buffer and ends; its
-- result is as `RequestRead` says.
pub parse_request_line-RequestRead :
    (text : ℕ) (j : Job)
    → has_nul (drop text j.read_buf) ≡ true
    → Returns (RequestRead j) (parse_request_line text j)
unfolding parse_request_line
parse_request_line-RequestRead text j h =
    Returns->>= _ (RequestRead j) (strpbrk (drop text j.read_buf)) _
      (strpbrk-Returns (drop text j.read_buf) h) λ found _ f. by_blank found f
  where
    by_blank :
        (found : Option ℕ)
        → FoundBefore (drop text j.read_buf) found
        → Returns (RequestRead j) (elim found [
          | none ↦ ret (bad_request, record j { url = none })
          | some k ↦ check_method text (text + k) j
        ])
    by_blank none f = refused j _ refl refl
    by_blank (some k) f =
        check_method-RequestRead text (text + k) j (omega arith) (behind j.read_buf text k f.2)
