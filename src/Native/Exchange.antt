-- ===== src/Native/Exchange.antt =====
-- The client accepts the workspace that the relay lists, and reads the same grants from it.
use llm_wiki_chrome.Prelude.{
  suc, String, ◌≡◌, refl, ap, eq_iff, Option, none, some, List, [], ◌∷◌, arith, length, contains,
  All, same_set, subset,
}
use llm_wiki_chrome.Sets.{Distinct-unique, In-contains}
use llm_wiki_chrome.Result.{ok}
use llm_wiki_chrome.Json.{arr, to_list, get, keys}
use llm_wiki_chrome.Runtime.{Runtime}
use llm_wiki_chrome.Protocol.Target.{origin_of}
use llm_wiki_chrome.Grants.Defs.{
  Grant, Workspace, Reasons, check_grant, grant_texts, validate_grant, validate_grants,
  validate_selected, validate_list, validate_workspace,
}
use llm_wiki_chrome.Grants.Valid.{IsGrant, IsWorkspace, IsSelection, ids, urls}
use llm_wiki_chrome.Native.Messages.{grant_value, grant_items, selected_value, collaboration_list}

module _ (r : Runtime) (reasons : Reasons) where
  check_grant-ok :
      (g : Grant) → IsGrant r g → check_grant r reasons g.collaboration_id g.url g.origin ≡ ok g
  unfolding check_grant
  check_grant-ok g v = ground (
    arith,
    v.parsed,
    v.exact_id,
    v.bounded,
    v.has_host,
    v.no_user,
    v.no_password,
    eq_iff v.parsed_url.scheme "https",
    v.https,
    eq_iff g.origin (origin_of v.parsed_url),
    v.exact_origin,
  )

  grant_keys_hold :
      (g : Grant)
      → validate_grant r reasons (grant_value g)
        ≡ check_grant r reasons g.collaboration_id g.url g.origin
  unfolding validate_grant keys get grant_texts same_set subset contains
  grant_keys_hold g = refl

  validate_grants-items :
      (grants : List Grant)
      → All (IsGrant r) grants
      → validate_grants r reasons (to_list (grant_items grants)) ≡ ok grants
  unfolding validate_grants grant_items to_list
  validate_grants-items [] v = refl
  validate_grants-items (g ∷ grants) v =
      ground (arith, grant_keys_hold g, check_grant-ok g v.0, validate_grants-items grants v.1)

  length-grant_items : (grants : List Grant) → length (to_list (grant_items grants)) ≡ length grants
  unfolding grant_items to_list
  length-grant_items [] = refl
  length-grant_items (g ∷ grants) = ap suc (length-grant_items grants)

  validate_selected-value :
      (s : Option String) (grants : List Grant)
      → IsSelection s grants
      → validate_selected r reasons (selected_value s) (ids grants) ≡ ok s
  unfolding validate_selected
  validate_selected-value none grants v = refl
  validate_selected-value (some s) grants v = ground (arith, In-contains (ids grants) s v.1, v.0)

  validate_list-items :
      (w : Workspace)
      → IsWorkspace r w
      → validate_list r reasons (selected_value w.selected) (arr (grant_items w.collaborations))
        ≡ ok w
  unfolding validate_list
  validate_list-items w v = ground (
    arith,
    validate_grants-items w.collaborations v.grants,
    length-grant_items w.collaborations,
    validate_selected-value w.selected w.collaborations v.selection,
    Distinct-unique (ids w.collaborations) v.distinct_ids,
    Distinct-unique (urls w.collaborations) v.distinct_urls,
    v.bounded,
  )

  -- The list message that the relay makes of a valid workspace is accepted by the client as that same
  -- workspace, the selection included.
  pub validate-collaboration_list :
      (w : Workspace)
      → IsWorkspace r w
      → validate_workspace r reasons "collaboration-list" (collaboration_list w) ≡ ok w
  unfolding validate_workspace collaboration_list keys get same_set subset contains
  validate-collaboration_list w v = validate_list-items w v
