-- ===== src/Collaboration/Bounded/Reading.antt =====
-- The jobs of the methods of Collaboration/Reading.antt.
use llm_wiki_chrome.Prelude.{refl}
use llm_wiki_chrome.Json.{Value}
use llm_wiki_chrome.Collaboration.Tool.{World}
use llm_wiki_chrome.Collaboration.Runs.{quiet, then_quiet, lift-Runs, any_value}
use llm_wiki_chrome.Collaboration.Bound.{grant_of-Runs, record_step-Runs, run_plan-Runs}
use llm_wiki_chrome.Collaboration.Reading.{
  snapshot, wait, screenshot, region_screenshot, full_page_screenshot, geometry, hover, scroll,
  scroll_to, diagnostics,
}
use llm_wiki_chrome.Collaboration.Bounded.Parts.{Sends, located-Runs, captured-Runs}

module _ (world : World) (id : Value) where
  pub snapshot-Sends : (max_items : Value) → Sends world id (snapshot world id max_items)
  unfolding snapshot
  snapshot-Sends max_items = quiet (lift-Runs _) λ a1 h1. quiet (grant_of-Runs world id) λ g shared.
      then_quiet (run_plan-Runs world id g _ _ _ shared refl)
        λ o fine. quiet (lift-Runs _) λ a4 h4. any_value _

  pub wait-Sends : (locator timeout_ms : Value) → Sends world id (wait world id locator timeout_ms)
  unfolding wait
  wait-Sends locator timeout_ms = quiet (lift-Runs _) λ a1 h1.
      quiet (grant_of-Runs world id) λ g shared. quiet (located-Runs world id _) λ a3 h3.
        then_quiet (run_plan-Runs world id g _ _ _ shared refl)
          λ o fine. quiet (record_step-Runs world id _ _) λ _ _. any_value _

  pub screenshot-Sends :
      (quality max_bytes : Value) → Sends world id (screenshot world id quality max_bytes)
  unfolding screenshot
  screenshot-Sends quality max_bytes = quiet (lift-Runs _) λ a1 h1. quiet (lift-Runs _) λ a2 h2.
      quiet (grant_of-Runs world id) λ g shared.
        then_quiet (run_plan-Runs world id g _ _ _ shared refl) λ o fine.
          quiet (lift-Runs _)
            λ a5 h5. quiet (lift-Runs _) λ a6 h6. quiet (lift-Runs _) λ a7 h7. any_value _

  pub region_screenshot-Sends :
      (x y width height quality : Value)
      → Sends world id (region_screenshot world id x y width height quality)
  unfolding region_screenshot
  region_screenshot-Sends x y width height quality = quiet (grant_of-Runs world id) λ g shared.
      quiet (lift-Runs _) λ a2 h2. quiet (lift-Runs _) λ a3 h3. quiet (lift-Runs _) λ a4 h4.
        quiet (lift-Runs _) λ a5 h5. quiet (lift-Runs _) λ a6 h6.
          then_quiet (run_plan-Runs world id g _ _ _ shared refl)
            λ o fine. quiet (lift-Runs _) λ a8 h8. captured-Runs world id _ a8

  pub full_page_screenshot-Sends :
      (quality : Value) → Sends world id (full_page_screenshot world id quality)
  unfolding full_page_screenshot
  full_page_screenshot-Sends quality = quiet (grant_of-Runs world id) λ g shared.
      quiet (lift-Runs _) λ a2 h2.
        then_quiet (run_plan-Runs world id g _ _ _ shared refl)
          λ o fine. quiet (lift-Runs _) λ a4 h4. captured-Runs world id _ a4

  pub geometry-Sends :
      (locator max_items : Value) → Sends world id (geometry world id locator max_items)
  unfolding geometry
  geometry-Sends locator max_items = quiet (grant_of-Runs world id) λ g shared.
      quiet (located-Runs world id _) λ a2 h2. quiet (lift-Runs _) λ a3 h3.
        then_quiet (run_plan-Runs world id g _ _ _ shared refl)
          λ o fine. quiet (lift-Runs _) λ a5 h5. any_value _

  pub hover-Sends : (locator : Value) → Sends world id (hover world id locator)
  unfolding hover
  hover-Sends locator = quiet (grant_of-Runs world id) λ g shared.
      quiet (located-Runs world id _) λ a2 h2.
        then_quiet (run_plan-Runs world id g _ _ _ shared refl)
          λ o fine. quiet (record_step-Runs world id _ _) λ _ _. any_value _

  pub scroll-Sends :
      (direction distance_px : Value) → Sends world id (scroll world id direction distance_px)
  unfolding scroll
  scroll-Sends direction distance_px = quiet (grant_of-Runs world id) λ g shared.
      quiet (lift-Runs _) λ a2 h2. quiet (lift-Runs _) λ a3 h3.
        then_quiet (run_plan-Runs world id g _ _ _ shared refl)
          λ o fine. quiet (record_step-Runs world id _ _) λ _ _. any_value _

  pub scroll_to-Sends : (locator : Value) → Sends world id (scroll_to world id locator)
  unfolding scroll_to
  scroll_to-Sends locator = quiet (grant_of-Runs world id) λ g shared.
      quiet (located-Runs world id _) λ a2 h2.
        then_quiet (run_plan-Runs world id g _ _ _ shared refl)
          λ o fine. quiet (record_step-Runs world id _ _) λ _ _. any_value _

  pub diagnostics-Sends : (duration_ms : Value) → Sends world id (diagnostics world id duration_ms)
  unfolding diagnostics
  diagnostics-Sends duration_ms = quiet (grant_of-Runs world id) λ g shared.
      quiet (lift-Runs _)
        λ a2 h2. then_quiet (run_plan-Runs world id g _ _ _ shared refl) λ o fine. any_value _
