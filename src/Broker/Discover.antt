-- ===== src/Broker/Discover.antt =====
-- Query and QueryPage of internal/broker/broker.go.
use skillex.Prelude.{
  ℕ, zero, suc, ◌<◌, ◌≤◌, Bool-cases, >>=-eq-ok, ◌≡◌, refl, sym, ◌&&◌, ◌||◌, Option, List, [], ◌∷◌,
  ◌++◌, Text, codes, is_empty, length, take, length-take, min, ap, ◌∙◌, Result-cases, inl, inr, ltb,
  ◌==◌, if◌then◌else◌, Result, ok, err, ◌>>=◌, arith,
}
use skillex.Errors.{Error, other}
use skillex.Capability.Model.{Capability, with_computed_schema_digest}
use skillex.Capability.Reference.{issue}
use skillex.Broker.Types.{
  Broker, Query, Summary, CatalogPage, DiscoveryPage, Traced, event_of, record_event,
}

abbrev pub summary_of : Text → Capability → Summary
summary_of ref c = record {
  ref = ref;
  server = c.server.identity;
  version = c.server.version;
  kind = c.kind;
  name = c.name;
  title = c.title;
  description = c.description;
  availability = c.availability;
}

-- One round of the loop: the capability with its digest, and its reference.
unfoldable pub summarize :
    Broker → Query → ℕ → Option Text → Capability → Result Error (Capability × Text)
summarize b query now nonce capability = do
  selected ← with_computed_schema_digest b.encoding capability
  ref ← issue b.codec b.encoding b.signer now nonce selected query.view query.context_digest
  ok (selected, ref)

report_summary :
    Broker → Result Error (Capability × Text) → Traced (List Summary) → Traced (List Summary)
report_summary b (err e) rest = ([], err e)
report_summary b (ok (c, ref)) (actions, err e) =
    (record_event b (event_of (codes "discover") c (codes "returned")) ++ actions, err e)
report_summary b (ok (c, ref)) (actions, ok summaries) = (
  record_event b (event_of (codes "discover") c (codes "returned")) ++ actions,
  ok (summary_of ref c ∷ summaries),
)

-- The loop over the capabilities of a page, each with its clock and its random bytes.
unfoldable pub summarize_all :
    Broker → Query → (ℕ → ℕ) → (ℕ → Option Text) → ℕ → List Capability → Traced (List Summary)
unfolding report_summary
summarize_all b query clock nonce i [] = ([], ok [])
summarize_all b query clock nonce i (c ∷ cs) =
    report_summary b (summarize b query (clock i) (nonce i) c)
      (summarize_all b query clock nonce (suc i) cs)

-- capabilities[:query.Limit], if a limit is set
unfoldable pub bounded : ℕ → List Capability → List Capability
bounded limit cs = if ltb 0 limit && ltb limit (length cs) then take limit cs else cs

abbrev pub match_count_of : CatalogPage → ℕ
match_count_of page =
    if page.match_count == 0 && ltb 0 (length page.capabilities)
    then length page.capabilities
    else page.match_count

finish_page : CatalogPage → Traced (List Summary) → Traced DiscoveryPage
finish_page page (actions, err e) = (actions, err e)
finish_page page (actions, ok summaries) = (
  actions,
  ok (record { summaries = summaries; match_count = match_count_of page; facets = page.facets }),
)

summarize_page :
    Broker → Query → (ℕ → ℕ) → (ℕ → Option Text) → Result Error CatalogPage → Traced DiscoveryPage
summarize_page b query clock nonce (err e) = ([], err e)
summarize_page b query clock nonce (ok page) =
    finish_page page (summarize_all b query clock nonce 0 (bounded query.limit page.capabilities))

-- QueryPage
unfoldable pub query_page : Broker → Query → (ℕ → ℕ) → (ℕ → Option Text) → Traced DiscoveryPage
unfolding summarize_page finish_page
query_page b query clock nonce =
    if is_empty query.context_digest || is_empty query.view
    then ([], err other)
    else summarize_page b query clock nonce (b.catalog.search query)

take_all : {A : Type 0} (n : ℕ) (xs : List A) → length xs ≤ n → take n xs ≡ xs
take_all zero [] h = refl
take_all zero (x ∷ xs) h = absurd (omega arith)
take_all (suc n) [] h = refl
take_all (suc n) (x ∷ xs) h = ap (λ l. x ∷ l) (take_all n xs (omega arith))

bounded-take : (limit : ℕ) (cs : List Capability) → 0 < limit → bounded limit cs ≡ take limit cs
unfolding bounded
bounded-take limit cs h = elim (Bool-cases (ltb limit (length cs))) [
  | inl short ↦ rw short (ground arith)
  | inr whole ↦ ground (arith, whole, take_all limit cs (ground arith))
]

-- What a summary shows of a capability, whose digest is computed, and the reference that it carries:
-- issued then for the capability, the view and the context of the query.
pub record IsSummary (b : Broker) (query : Query) (now : ℕ) (nonce : Option Text) (c : Capability)
    (s : Summary) : Type 0 where
  pub digested : Capability
  pub computed : with_computed_schema_digest b.encoding c ≡ ok digested
  pub issued :
      issue b.codec b.encoding b.signer now nonce digested query.view query.context_digest
      ≡ ok s.ref
  pub server : s.server ≡ digested.server.identity
  pub version : s.version ≡ digested.server.version
  pub kind : s.kind ≡ digested.kind
  pub name : s.name ≡ digested.name
  pub title : s.title ≡ digested.title
  pub description : s.description ≡ digested.description
  pub availability : s.availability ≡ digested.availability

-- One summary for each capability, in order, each with its own time and random bytes.
abbrev pub AreSummaries :
    Broker → Query → (ℕ → ℕ) → (ℕ → Option Text) → ℕ → List Capability → List Summary → Type 0
AreSummaries b query clock nonce i [] [] = Unit
AreSummaries b query clock nonce i [] (s ∷ summaries) = ⊥
AreSummaries b query clock nonce i (c ∷ cs) [] = ⊥
AreSummaries b query clock nonce i (c ∷ cs) (s ∷ summaries) =
    IsSummary b query (clock i) (nonce i) c s
    × AreSummaries b query clock nonce (suc i) cs summaries

summary_of-IsSummary :
    (b : Broker) (query : Query) (now : ℕ) (nonce : Option Text) (c : Capability) {d : Capability}
    {ref : Text}
    → summarize b query now nonce c ≡ ok (d, ref)
    → IsSummary b query now nonce c (summary_of ref d)
unfolding summarize
summary_of-IsSummary b query now nonce c {d} {ref} h =
    let (selected, e, k) = >>=-eq-ok (with_computed_schema_digest b.encoding c) _ h in
    let (r, f, l) =
      >>=-eq-ok
        (issue b.codec b.encoding b.signer now nonce selected query.view query.context_digest) _
        k in
    let same : selected ≡ d = ground arith in
    let same_ref : r ≡ ref = ground arith in
    record {
      digested = selected;
      computed = e;
      issued = f ∙ ap ok same_ref;
      server = ap (λ (q : Capability). q.server.identity) (sym same);
      version = ap (λ (q : Capability). q.server.version) (sym same);
      kind = ap (λ (q : Capability). q.kind) (sym same);
      name = ap (λ (q : Capability). q.name) (sym same);
      title = ap (λ (q : Capability). q.title) (sym same);
      description = ap (λ (q : Capability). q.description) (sym same);
      availability = ap (λ (q : Capability). q.availability) (sym same);
    }

report_summary-ok :
    (b : Broker) (r : Result Error (Capability × Text)) (rest : Traced (List Summary))
    {summaries : List Summary}
    → (report_summary b r rest).1 ≡ ok summaries
    → (c : Capability) × (ref : Text) × (more : List Summary) × (r ≡ ok (c, ref))
      × (rest.1 ≡ ok more)
      × (summaries ≡ summary_of ref c ∷ more)
unfolding report_summary
report_summary-ok b (err e) rest h = cc
report_summary-ok b (ok (c, ref)) (actions, err e) h = cc
report_summary-ok b (ok (c, ref)) (actions, ok more) h = (c, ref, more, refl, refl, ground arith)

finish_page-ok :
    (page : CatalogPage) (t : Traced (List Summary)) {found : DiscoveryPage}
    → (finish_page page t).1 ≡ ok found
    → (t.1 ≡ ok found.summaries) × (found.match_count ≡ match_count_of page)
unfolding finish_page
finish_page-ok page (actions, err e) h = cc
finish_page-ok page (actions, ok summaries) h = (ground arith, ground arith)

summarize_all-AreSummaries :
    (b : Broker) (query : Query) (clock : ℕ → ℕ) (nonce : ℕ → Option Text) (i : ℕ)
    (cs : List Capability) {summaries : List Summary}
    → (summarize_all b query clock nonce i cs).1 ≡ ok summaries
    → AreSummaries b query clock nonce i cs summaries
unfolding summarize_all
summarize_all-AreSummaries b query clock nonce i [] {summaries} h =
    let e : [] ≡ summaries = cc in rw (← e) tt
summarize_all-AreSummaries b query clock nonce i (c ∷ cs) h =
    let (d, ref, more, one, e, split) =
      report_summary-ok b (summarize b query (clock i) (nonce i) c)
        (summarize_all b query clock nonce (suc i) cs) h in
    rw split (
      summary_of-IsSummary b query (clock i) (nonce i) c one,
      summarize_all-AreSummaries b query clock nonce (suc i) cs e,
    )

length-AreSummaries :
    (b : Broker) (query : Query) (clock : ℕ → ℕ) (nonce : ℕ → Option Text) (i : ℕ)
    (cs : List Capability) (summaries : List Summary)
    → AreSummaries b query clock nonce i cs summaries
    → length summaries ≡ length cs
length-AreSummaries b query clock nonce i [] [] h = refl
length-AreSummaries b query clock nonce i [] (s ∷ summaries) h = absurd h
length-AreSummaries b query clock nonce i (c ∷ cs) [] h = absurd h
length-AreSummaries b query clock nonce i (c ∷ cs) (s ∷ summaries) h =
    ap suc (length-AreSummaries b query clock nonce (suc i) cs summaries h.1)

query_page-search :
    (b : Broker) (query : Query) (clock : ℕ → ℕ) (nonce : ℕ → Option Text) {page : DiscoveryPage}
    → (query_page b query clock nonce).1 ≡ ok page
    → (found : CatalogPage) × (b.catalog.search query ≡ ok found)
      × ((finish_page found
            (summarize_all b query clock nonce 0 (bounded query.limit found.capabilities))).1
          ≡ ok page)
unfolding query_page
query_page-search b query clock nonce h = elim (Result-cases (b.catalog.search query)) [
  | inr (e, failed) ↦ ground arith
  | inl (found, e) ↦ (found, e, ground arith)
]

-- A page of results has, in order, a summary for each of the first capabilities that the catalog finds,
-- as many as the limit that is set: it shows the capability's own names, description and availability
-- and carries a reference issued for it, in this view and context. The count of matches is the
-- catalog's, or that of the capabilities found where the catalog gives none.
pub query_page-within :
    (b : Broker) (query : Query) (clock : ℕ → ℕ) (nonce : ℕ → Option Text) {page : DiscoveryPage}
    → 0 < query.limit
    → (query_page b query clock nonce).1 ≡ ok page
    → (found : CatalogPage) × (b.catalog.search query ≡ ok found)
      × (length page.summaries ≡ min query.limit (length found.capabilities))
      × AreSummaries b query clock nonce 0 (take query.limit found.capabilities) page.summaries
      × (page.match_count
          ≡ (if found.match_count == 0 then length found.capabilities else found.match_count))
query_page-within b query clock nonce {page} h e =
    let (found, searched, finished) = query_page-search b query clock nonce e in
    let (summarized, matches) = finish_page-ok found _ finished in
    let first = take query.limit found.capabilities in
    let shown : AreSummaries b query clock nonce 0 first page.summaries =
      summarize_all-AreSummaries b query clock nonce 0 first
        (rw (bounded-take query.limit found.capabilities h) at summarized) in
    (
      found,
      searched,
      length-AreSummaries b query clock nonce 0 first page.summaries shown
          ∙ length-take query.limit found.capabilities,
      shown,
      matches ∙ ground arith,
    )
