-- ===== src/Collaboration/Bounded/Parts.antt =====
-- The parts of the tools.
use llm_wiki_chrome.Prelude.{List, [], ◌∷◌, String}
use llm_wiki_chrome.Json.{Value, obj}
use llm_wiki_chrome.Policy.Roots.{FilePath}
use llm_wiki_chrome.Collaboration.Tool.{World, Tool}
use llm_wiki_chrome.Collaboration.Calls.{located}
use llm_wiki_chrome.Collaboration.Runs.{Runs, quiet, lift-Runs, any_value}
use llm_wiki_chrome.Collaboration.Bound.{IsBound}
use llm_wiki_chrome.Collaboration.Reading.{captured}
use llm_wiki_chrome.Collaboration.Acting.{hash_files, verified, each_verified}

-- At most one job, which is bound to the tab.
abbrev pub Sends : World → (id : Value) → Tool Value → Type 0
Sends world id m = Runs (IsBound world id) 1 m (λ v. Unit {0})

module _ (world : World) (id : Value) where
  pub located-Runs :
      (locator : Value) → Runs (IsBound world id) 0 (located world locator) (λ v. Unit {0})
  unfolding located
  located-Runs locator = any_value _

  pub captured-Runs :
      (url : String) (capture : Value)
      → Runs (IsBound world id) 0 (captured world id url capture) (λ v. Unit {0})
  captured-Runs url (obj capture) = any_value _
  captured-Runs url _ = any_value _

  pub hash_files-Runs :
      (paths : List FilePath) → Runs (IsBound world id) 0 (hash_files world paths) (λ v. Unit {0})
  unfolding hash_files
  hash_files-Runs [] = any_value _
  hash_files-Runs (path ∷ paths) =
      quiet (lift-Runs _) λ hash h. quiet (hash_files-Runs paths) λ hashes _. any_value _

  verified-Runs : (v : Value) → Runs (IsBound world id) 0 (verified world v) (λ x. Unit {0})
  unfolding verified
  verified-Runs (obj item) = quiet (lift-Runs _) λ _ h1. quiet (lift-Runs _) λ danger h2.
      quiet (lift-Runs _)
        λ path h3. quiet (lift-Runs _) λ size h4. quiet (lift-Runs _) λ hash h5. any_value _
  verified-Runs _ = any_value _

  pub each_verified-Runs :
      (vs : List Value) → Runs (IsBound world id) 0 (each_verified world vs) (λ x. Unit {0})
  unfolding each_verified
  each_verified-Runs [] = any_value _
  each_verified-Runs (v ∷ vs) =
      quiet (verified-Runs v) λ first _. quiet (each_verified-Runs vs) λ others _. any_value _
