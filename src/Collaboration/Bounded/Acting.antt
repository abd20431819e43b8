-- ===== src/Collaboration/Bounded/Acting.antt =====
-- The jobs of the methods of Collaboration/Acting.antt.
use llm_wiki_chrome.Prelude.{refl}
use llm_wiki_chrome.Json.{Value}
use llm_wiki_chrome.Collaboration.Tool.{World}
use llm_wiki_chrome.Collaboration.Runs.{quiet, then_quiet, lift-Runs, any_value}
use llm_wiki_chrome.Collaboration.Bound.{grant_of-Runs, record_step-Runs, run_plan-Runs}
use llm_wiki_chrome.Collaboration.Acting.{
  click, drag, select_option, type_text, key_chord, dialog, upload, download, credential_fill,
}
use llm_wiki_chrome.Collaboration.Bounded.Parts.{
  Sends, located-Runs, hash_files-Runs, each_verified-Runs,
}

module _ (world : World) (id : Value) where
  pub click-Sends : (locator : Value) → Sends world id (click world id locator)
  unfolding click
  click-Sends locator = quiet (grant_of-Runs world id) λ g shared.
      quiet (located-Runs world id _) λ a2 h2.
        then_quiet (run_plan-Runs world id g _ _ _ shared refl)
          λ o fine. quiet (record_step-Runs world id _ _) λ _ _. any_value _

  pub drag-Sends :
      (locator destination steps : Value) → Sends world id (drag world id locator destination steps)
  unfolding drag
  drag-Sends locator destination steps = quiet (grant_of-Runs world id) λ g shared.
      quiet (located-Runs world id _) λ a2 h2. quiet (located-Runs world id _) λ a3 h3.
        quiet (lift-Runs _) λ a4 h4.
          then_quiet (run_plan-Runs world id g _ _ _ shared refl)
            λ o fine. quiet (record_step-Runs world id _ _) λ _ _. any_value _

  pub select_option-Sends :
      (locator option_locator : Value)
      → Sends world id (select_option world id locator option_locator)
  unfolding select_option
  select_option-Sends locator option_locator = quiet (grant_of-Runs world id) λ g shared.
      quiet (located-Runs world id _) λ a2 h2. quiet (located-Runs world id _) λ a3 h3.
        then_quiet (run_plan-Runs world id g _ _ _ shared refl)
          λ o fine. quiet (record_step-Runs world id _ _) λ _ _. any_value _

  pub type_text-Sends :
      (locator text replace_all : Value)
      → Sends world id (type_text world id locator text replace_all)
  unfolding type_text
  type_text-Sends locator text replace_all = quiet (grant_of-Runs world id) λ g shared.
      quiet (located-Runs world id _) λ a2 h2. quiet (lift-Runs _) λ a3 h3.
        quiet (lift-Runs _) λ a4 h4.
          then_quiet (run_plan-Runs world id g _ _ _ shared refl)
            λ o fine. quiet (record_step-Runs world id _ _) λ _ _. any_value _

  pub key_chord-Sends : (keys : Value) → Sends world id (key_chord world id keys)
  unfolding key_chord
  key_chord-Sends keys = quiet (grant_of-Runs world id) λ g shared. quiet (lift-Runs _) λ a2 h2.
      then_quiet (run_plan-Runs world id g _ _ _ shared refl)
        λ o fine. quiet (record_step-Runs world id _ _) λ _ _. any_value _

  pub dialog-Sends :
      (accept prompt_text : Value) → Sends world id (dialog world id accept prompt_text)
  unfolding dialog
  dialog-Sends accept prompt_text = quiet (grant_of-Runs world id) λ g shared.
      quiet (lift-Runs _) λ a2 h2. quiet (lift-Runs _) λ a3 h3.
        then_quiet (run_plan-Runs world id g _ _ _ shared refl)
          λ o fine. quiet (record_step-Runs world id _ _) λ _ _. any_value _

  pub upload-Sends : (locator paths : Value) → Sends world id (upload world id locator paths)
  unfolding upload
  upload-Sends locator paths = quiet (grant_of-Runs world id) λ g shared.
      quiet (located-Runs world id _) λ a2 h2. quiet (lift-Runs _) λ a3 h3.
        quiet (hash_files-Runs world id a3) λ a4 h4.
          then_quiet (run_plan-Runs world id g _ _ _ shared refl)
            λ o fine. quiet (record_step-Runs world id _ _) λ _ _. any_value _

  pub download-Sends :
      (locator timeout_ms : Value) → Sends world id (download world id locator timeout_ms)
  unfolding download
  download-Sends locator timeout_ms = quiet (grant_of-Runs world id) λ g shared.
      quiet (located-Runs world id _) λ a2 h2. quiet (lift-Runs _) λ a3 h3.
        quiet (lift-Runs _) λ a4 h4.
          then_quiet (run_plan-Runs world id g _ _ _ shared refl) λ o fine.
            quiet (lift-Runs _) λ a6 h6. quiet (lift-Runs _) λ a7 h7. quiet (lift-Runs _) λ a8 h8.
              quiet (each_verified-Runs world id a8)
                λ a9 h9. quiet (record_step-Runs world id _ _) λ _ _. any_value _

  pub credential_fill-Sends :
      (locator broker : Value) → Sends world id (credential_fill world id locator broker)
  unfolding credential_fill
  credential_fill-Sends locator broker = quiet (grant_of-Runs world id) λ g shared.
      quiet (located-Runs world id _) λ a2 h2. quiet (lift-Runs _) λ a3 h3.
        then_quiet (run_plan-Runs world id g _ _ _ shared refl)
          λ o fine. quiet (record_step-Runs world id _ _) λ _ _. any_value _
