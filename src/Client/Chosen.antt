-- ===== src/Client/Chosen.antt =====
-- The grants that the client lists, and the grant and the connector that it chooses.
use llm_wiki_chrome.Prelude.{
  String, ◌≡◌, ◌↔◌, refl, sym, ◌∙◌, ap, inl, inr, Bool, true, false, ◌==◌, eq_iff, Option, some,
  List, [], ◌∷◌, ◌++◌, any, sort_by, select, map, In, arith, Option-cases,
}
use mathlib.Core.Path.{subst}
use llm_wiki_chrome.Picked.{select-In}
use llm_wiki_chrome.Sets.{sort_by-In, In-append, append-In, any-In}
use llm_wiki_chrome.Result.{ok, bind-ok, Result-cases}
use llm_wiki_chrome.Json.{is_text-str, Fields, str, get, is_text}
use llm_wiki_chrome.Runtime.{Runtime}
use llm_wiki_chrome.Protocol.Order.{fields_of}
use llm_wiki_chrome.Grants.Defs.{Grant, Workspace}
use llm_wiki_chrome.Client.Connectors.{
  Connector, collaboration_workspaces, Ranked, ranks_before, rank_grants, rank_all, sorted_grants,
  collaborations, at_most_one, collaboration_for_url, is_target, matching_paths, the_only,
  connector_for_program,
}

-- The grant stands in one of the workspaces.
pub data Listed (g : Grant) : List (String × Workspace) → Type 0 where
  in_this :
      {path : String} {w : Workspace} {rest : List (String × Workspace)}
      → In g w.collaborations
      → Listed g ((path, w) ∷ rest)
  in_other :
      {first : String × Workspace} {rest : List (String × Workspace)}
      → Listed g rest
      → Listed g (first ∷ rest)

grants_of : List Ranked → List Grant
grants_of l = map (λ a. a.grant) l

In-grants_of :
    (g : Grant) (l : List Ranked) → In g (grants_of l) → (a : Ranked) × In a l × (a.grant ≡ g)
unfolding grants_of
In-grants_of g [] m = elim m [ ]
In-grants_of g (a ∷ l) (inl e) = (a, inl refl, sym e)
In-grants_of g (a ∷ l) (inr m) = let (b, k, q) = In-grants_of g l m in (b, inr k, q)

grants_of-In :
    (g : Grant) (a : Ranked) (l : List Ranked) → In a l → a.grant ≡ g → In g (grants_of l)
unfolding grants_of
grants_of-In g a [] m q = elim m [ ]
grants_of-In g a (b ∷ l) (inl e) q = inl (sym q ∙ ap (λ (x : Ranked). x.grant) e)
grants_of-In g a (b ∷ l) (inr m) q = inr (grants_of-In g a l m q)

-- The grants of one connector, ranked.
grants_of-rank :
    (path : String) (s : Option String) (grants : List Grant)
    → grants_of (rank_grants path s grants) ≡ grants
unfolding grants_of rank_grants
grants_of-rank path s [] = refl
grants_of-rank path s (g ∷ grants) = ap (λ l. g ∷ l) (grants_of-rank path s grants)

grants_of-append : (xs ys : List Ranked) → grants_of (xs ++ ys) ≡ grants_of xs ++ grants_of ys
unfolding grants_of
grants_of-append [] ys = refl
grants_of-append (x ∷ xs) ys = ap (λ l. x.grant ∷ l) (grants_of-append xs ys)

rank_all-cons :
    (path : String) (w : Workspace) (rest : List (String × Workspace))
    → grants_of (rank_all ((path, w) ∷ rest)) ≡ w.collaborations ++ grants_of (rank_all rest)
unfolding rank_all
rank_all-cons path w rest =
    grants_of-append (rank_grants path w.selected w.collaborations) (rank_all rest)
    ∙ ap (λ l. l ++ grants_of (rank_all rest)) (grants_of-rank path w.selected w.collaborations)

rank_all-there :
    (g : Grant) (ws : List (String × Workspace)) → In g (grants_of (rank_all ws)) → Listed g ws
unfolding rank_all grants_of
rank_all-there g [] m = elim m [ ]
rank_all-there g ((path, w) ∷ rest) m =
    elim (In-append g w.collaborations (grants_of (rank_all rest))
      (subst (λ l. In g l) (rank_all-cons path w rest) m)) [
        | inl k ↦ in_this k
        | inr k ↦ in_other (rank_all-there g rest k)
      ]

rank_all-back :
    (g : Grant) (ws : List (String × Workspace)) → Listed g ws → In g (grants_of (rank_all ws))
rank_all-back g [] m = elim m [ ]
rank_all-back g ((path, w) ∷ rest) (in_this k) =
    subst (λ l. In g l) (sym (rank_all-cons path w rest))
      (append-In g w.collaborations (grants_of (rank_all rest)) (inl k))
rank_all-back g ((path, w) ∷ rest) (in_other m) =
    subst (λ l. In g l) (sym (rank_all-cons path w rest))
      (append-In g w.collaborations (grants_of (rank_all rest)) (inr (rank_all-back g rest m)))

-- The list of the client holds exactly the grants of its connectors' workspaces.
sorted_grants-Listed :
    (g : Grant) (ws : List (String × Workspace)) → In g (sorted_grants ws) ↔ Listed g ws
unfolding sorted_grants grants_of
sorted_grants-Listed g ws = (
  λ m.
      let (a, k, q) = In-grants_of g (sort_by ranks_before (rank_all ws)) m in
      rank_all-there g ws
        (grants_of-In g a (rank_all ws) ((sort_by-In ranks_before a (rank_all ws)).0 k) q),
  λ m.
      let (a, k, q) = In-grants_of g (rank_all ws) (rank_all-back g ws m) in
      grants_of-In g a (sort_by ranks_before (rank_all ws))
        ((sort_by-In ranks_before a (rank_all ws)).1 k) q,
)

at_most_one-In : (grants : List Grant) (g : Grant) → at_most_one grants ≡ ok (some g) → In g grants
unfolding at_most_one
at_most_one-In [] g h = absurd (cc)
at_most_one-In (x ∷ []) g h = inl (cc)
at_most_one-In (x ∷ y ∷ grants) g h = absurd (cc)

collaboration_for_url-steps :
    (r : Runtime) (connectors : List Connector) (raw_url : String) (o : Option Grant)
    → collaboration_for_url r connectors (str raw_url) ≡ ok o
    → (workspaces : List (String × Workspace)) × (collaboration_workspaces r connectors
        ≡ ok workspaces)
      × (at_most_one (select (λ g. g.url == raw_url) (sorted_grants workspaces)) ≡ ok o)
unfolding collaboration_for_url collaborations
collaboration_for_url-steps r connectors raw_url o h = elim (Option-cases (r.urlsplit raw_url)) [
  | inl e ↦ absurd (ground arith)
  | inr (url, e) ↦ elim (Result-cases (collaboration_workspaces r connectors)) [
    | inl (ws, f) ↦ (ws, f, ground arith)
    | inr (x, f) ↦ absurd (ground arith)
  ]
]

-- The grant that the client returns for a URL is listed by a connector and has exactly that URL.
pub collaboration_for_url-Listed :
    (r : Runtime) (connectors : List Connector) (raw_url : String) (g : Grant)
    → collaboration_for_url r connectors (str raw_url) ≡ ok (some g)
    → (g.url ≡ raw_url)
      × (workspaces : List (String × Workspace)) × (collaboration_workspaces r connectors
          ≡ ok workspaces)
      × Listed g workspaces
collaboration_for_url-Listed r connectors raw_url g h =
    let (ws, f, one) = collaboration_for_url-steps r connectors raw_url (some g) h in
    let (m, same) =
      select-In (λ x. x.url == raw_url) (sorted_grants ws) g (at_most_one-In _ g one) in
    ((eq_iff g.url raw_url).0 same, ws, f, (sorted_grants-Listed g ws).0 m)

-- The workspace holds the program's exact target.
abbrev pub HasTarget : Fields → Workspace → Type 0
HasTarget target w =
    (g : Grant) × In g w.collaborations
    × (get "collaboration_id" target ≡ str g.collaboration_id)
    × (get "url" target ≡ str g.url)
    × (get "origin" target ≡ str g.origin)

is_target-parts :
    (target : Fields) (g : Grant)
    → is_target target g ≡ true
    → (is_text g.collaboration_id (get "collaboration_id" target) ≡ true)
      × (is_text g.url (get "url" target) ≡ true)
      × (is_text g.origin (get "origin" target) ≡ true)
unfolding is_target
is_target-parts target g h = ground arith

any-HasTarget :
    (target : Fields) (w : Workspace)
    → any (is_target target) w.collaborations ≡ true
    → HasTarget target w
any-HasTarget target w h =
    let (g, m, q) = any-In (is_target target) w.collaborations h in
    let (a, b, c) = is_target-parts target g q in
    (g, m, is_text-str _ _ a, is_text-str _ _ b, is_text-str _ _ c)

matching_paths-In :
    (target : Fields) (ws : List (String × Workspace)) (path : String)
    → In path (matching_paths target ws)
    → (w : Workspace) × In (path, w) ws × HasTarget target w
unfolding matching_paths
matching_paths-In target [] path m = elim m [ ]
matching_paths-In target ((p, w) ∷ rest) path m =
    split (any (is_target target) w.collaborations) refl m
      (λ k. matching_paths-In target rest path k)
  where
    split :
        (b : Bool)
        → any (is_target target) w.collaborations ≡ b
        → In path
            (elim b [ true ↦ p ∷ matching_paths target rest | false ↦ matching_paths target rest ])
        → (In path (matching_paths target rest)
            → (w' : Workspace) × In (path, w') rest × HasTarget target w')
        → (w' : Workspace) × In (path, w') ((p, w) ∷ rest) × HasTarget target w'
    split true e (inl q) ih = (w, inl (λ i. (q i, w)), any-HasTarget target w e)
    split true e (inr k) ih = let (w', m', t) = ih k in (w', inr m', t)
    split false e k ih = let (w', m', t) = ih k in (w', inr m', t)

the_only-In : (paths : List String) (path : String) → the_only paths ≡ ok path → In path paths
unfolding the_only
the_only-In [] path h = absurd (cc)
the_only-In (p ∷ []) path h = inl (cc)
the_only-In (p ∷ q ∷ paths) path h = absurd (cc)

-- Among several connectors the client chooses one whose workspace holds the program's exact target: the
-- grant's id, its URL and its origin.
pub connector_for_program-HasTarget :
    (r : Runtime) (first second : Connector) (connectors : List Connector) (program : Fields)
    (path : String)
    → connector_for_program r (first ∷ second ∷ connectors) program ≡ ok path
    → (workspaces : List (String × Workspace)) × (w : Workspace) × (collaboration_workspaces r
          (first ∷ second ∷ connectors)
        ≡ ok workspaces)
      × In (path, w) workspaces
      × HasTarget (fields_of (get "target" program)) w
unfolding connector_for_program
connector_for_program-HasTarget r first second connectors program path h =
    let (ws, f, one) =
      bind-ok (collaboration_workspaces r (first ∷ second ∷ connectors))
        (λ ws. the_only (matching_paths (fields_of (get "target" program)) ws)) h in
    let (w, m, t) =
      matching_paths-In (fields_of (get "target" program)) ws path (the_only-In _ path one) in
    (ws, w, f, m, t)
