-- ===== src/Collaboration/Bounded/Pages.antt =====
-- The jobs of the methods of Collaboration/Pages.antt.
use llm_wiki_chrome.Prelude.{refl}
use llm_wiki_chrome.Json.{Value}
use llm_wiki_chrome.Collaboration.Tool.{World}
use llm_wiki_chrome.Collaboration.Runs.{quiet, then_quiet, lift-Runs, any_value}
use llm_wiki_chrome.Collaboration.Bound.{grant_of-Runs, record_step-Runs, run_plan-Runs}
use llm_wiki_chrome.Collaboration.Pages.{focus, open_url, history, close_tab, navigate, reload}
use llm_wiki_chrome.Collaboration.Bounded.Parts.{Sends}

module _ (world : World) (id : Value) where
  pub focus-Sends : Sends world id (focus world id)
  unfolding focus
  focus-Sends =
      quiet (grant_of-Runs world id)
        λ g shared. then_quiet (run_plan-Runs world id g _ _ _ shared refl) λ o fine. any_value _

  pub open_url-Sends : (url : Value) → Sends world id (open_url world id url)
  unfolding open_url
  open_url-Sends url = quiet (grant_of-Runs world id) λ g shared. quiet (lift-Runs _) λ a2 h2.
      quiet (lift-Runs _) λ a3 h3. then_quiet (run_plan-Runs world id g _ _ _ shared refl) λ o fine.
        quiet (lift-Runs _) λ a5 h5. quiet (record_step-Runs world id _ _) λ _ _. any_value _

  pub history-Sends :
      (direction expected_url : Value) → Sends world id (history world id direction expected_url)
  unfolding history
  history-Sends direction expected_url = quiet (grant_of-Runs world id) λ g shared.
      quiet (lift-Runs _) λ a2 h2. quiet (lift-Runs _) λ a3 h3. quiet (lift-Runs _) λ a4 h4.
        then_quiet (run_plan-Runs world id g _ _ _ shared refl) λ o fine.
          quiet (record_step-Runs world id _ _) λ _ _. quiet (lift-Runs _) λ a7 h7. any_value _

  pub close_tab-Sends : Sends world id (close_tab world id)
  unfolding close_tab
  close_tab-Sends = quiet (grant_of-Runs world id) λ g shared.
      then_quiet (run_plan-Runs world id g _ _ _ shared refl)
        λ o fine. quiet (record_step-Runs world id _ _) λ _ _. any_value _

  pub navigate-Sends :
      (url ignore_cache : Value) → Sends world id (navigate world id url ignore_cache)
  unfolding navigate
  navigate-Sends url ignore_cache = quiet (grant_of-Runs world id) λ g shared.
      quiet (lift-Runs _) λ a2 h2. quiet (lift-Runs _) λ a3 h3. quiet (lift-Runs _) λ a4 h4.
        quiet (lift-Runs _) λ a5 h5.
          then_quiet (run_plan-Runs world id g _ _ _ shared refl) λ o fine.
            quiet (record_step-Runs world id _ _) λ _ _. quiet (lift-Runs _) λ a8 h8. any_value _

  pub reload-Sends : (ignore_cache : Value) → Sends world id (reload world id ignore_cache)
  unfolding reload
  reload-Sends ignore_cache = quiet (grant_of-Runs world id) λ g shared.
      quiet (lift-Runs _) λ a2 h2.
        then_quiet (run_plan-Runs world id g _ _ _ shared refl)
          λ o fine. quiet (record_step-Runs world id _ _) λ _ _. any_value _
