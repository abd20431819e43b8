-- ===== src/Collaboration/Runs.antt =====
-- A logic for the controller's methods: what holds of every job that a method gives to the client, how
-- many there are, and what holds of the value that it returns.
use mathlib.Core.Path.{subst}
use llm_wiki_chrome.Prelude.{
  ℕ, ◌≤◌, ◌+◌, ◌≡◌, refl, List, [], ◌∷◌, ◌++◌, Option, none, some, arith, All, length,
  length-append,
}
use llm_wiki_chrome.Result.{Result, ok, err, ok-injective}
use llm_wiki_chrome.Collaboration.Calls.{max_steps}
use llm_wiki_chrome.Collaboration.Tool.{Job, Recording, Done, Tool, follow, lift, ◌>>=◌}

-- A recording has at most two hundred steps.
abbrev pub IsShort : Option Recording → Type 0
IsShort none = Unit
IsShort (some r) = length r.steps ≤ max_steps

pub record Runs {A : Type 0} (Good : Job → Type 0) (n : ℕ) (m : Tool A) (Q : A → Type 0)
    : Type 0 where
  pub good : (s : Option Recording) → All Good (m s).jobs
  pub few : (s : Option Recording) → length (m s).jobs ≤ n
  pub returns : (s : Option Recording) (a : A) → (m s).result ≡ ok a → Q a
  pub keeps : (s : Option Recording) → IsShort s → IsShort (m s).recording

pub All-append {κ} :
    {A : Type 0} (P : A → Type κ) (xs ys : List A) → All P xs → All P ys → All P (xs ++ ys)
All-append P [] others here there = there
All-append P (first ∷ rest) others here there = (here.0, All-append P rest others here.1 there)

module _ {A B : Type 0} (Good : Job → Type 0) where
  follow-good :
      (d : Done A) (m : Result A) (f : A → Tool B)
      → All Good d.jobs
      → ((a : A) (s : Option Recording) → m ≡ ok a → All Good (f a s).jobs)
      → All Good (follow d m f).jobs
  follow-good d (ok a) f g h =
      All-append Good d.jobs (f a d.recording).jobs g (h a d.recording refl)
  follow-good d (err e) f g h = g

module _ {A B : Type 0} where
  follow-few :
      (i j : ℕ) (d : Done A) (m : Result A) (f : A → Tool B)
      → length d.jobs ≤ i
      → ((a : A) (s : Option Recording) → m ≡ ok a → length (f a s).jobs ≤ j)
      → length (follow d m f).jobs ≤ i + j
  follow-few i j d (ok a) f g h =
      omega (arith, length-append {0} d.jobs (f a d.recording).jobs, h a d.recording refl)
  follow-few i j d (err e) f g h = omega arith

  follow-returns :
      (R : B → Type 0) (d : Done A) (m : Result A) (f : A → Tool B)
      → ((a : A) (s : Option Recording) (b : B) → m ≡ ok a → (f a s).result ≡ ok b → R b)
      → (b : B) → (follow d m f).result ≡ ok b
      → R b
  follow-returns R d (ok a) f h b q = h a d.recording b refl q
  follow-returns R d (err e) f h b q = absurd (cc)

module _ {A B : Type 0} where
  follow-keeps :
      (d : Done A) (m : Result A) (f : A → Tool B)
      → IsShort d.recording
      → ((a : A) (s : Option Recording) → m ≡ ok a → IsShort s → IsShort (f a s).recording)
      → IsShort (follow d m f).recording
  follow-keeps d (ok a) f short h = h a d.recording refl short
  follow-keeps d (err e) f short h = short

weaken :
    {A : Type 0} {Good : Job → Type 0} {Q : A → Type 0} {m : Tool A} (i j : ℕ)
    → i ≡ j
    → Runs Good i m Q
    → Runs Good j m Q
weaken i j e h = record {
  good = h.good;
  few = λ s. omega (arith, h.few s);
  returns = h.returns;
  keeps = h.keeps;
}

module _ {A B : Type 0} {Good : Job → Type 0} {Q : A → Type 0} {R : B → Type 0} where
  bind-Runs :
      {m : Tool A} {f : A → Tool B} (i j : ℕ)
      → Runs Good i m Q
      → ((a : A) → Q a → Runs Good j (f a) R)
      → Runs Good (i + j) (m >>= f) R
  unfolding ◌>>=◌
  bind-Runs {m} {f} i j h k = record {
    good = λ s.
        follow-good Good (m s) (m s).result f (h.good s)
          (λ a s' q. (k a (h.returns s a q)).good s');
    few = λ s.
        follow-few i j (m s) (m s).result f (h.few s) (λ a s' q. (k a (h.returns s a q)).few s');
    returns = λ s b q.
        follow-returns R (m s) (m s).result f
          (λ a s' b' e q'. (k a (h.returns s a e)).returns s' b' q') b q;
    keeps = λ s short.
        follow-keeps (m s) (m s).result f (h.keeps s short)
          (λ a s' q short'. (k a (h.returns s a q)).keeps s' short');
  }

  -- A part without jobs, and then the rest.
  pub quiet :
      {n : ℕ} {m : Tool A} {f : A → Tool B}
      → Runs Good 0 m Q
      → ((a : A) → Q a → Runs Good n (f a) R)
      → Runs Good n (m >>= f) R
  quiet {n} h k = weaken (0 + n) n (omega arith) (bind-Runs 0 n h k)

  -- A part with all the jobs, and then the rest.
  pub then_quiet :
      {n : ℕ} {m : Tool A} {f : A → Tool B}
      → Runs Good n m Q
      → ((a : A) → Q a → Runs Good 0 (f a) R)
      → Runs Good n (m >>= f) R
  then_quiet {n} h k = weaken (n + 0) n (omega arith) (bind-Runs n 0 h k)

-- A part that calls no client.
pub lift-Runs :
    {A : Type 0} {Good : Job → Type 0} (m : Result A) → Runs Good 0 (lift m) (λ a. m ≡ ok a)
unfolding lift
lift-Runs m = record {
  good = λ s. tt;
  few = λ s. omega arith;
  returns = λ s a q. q;
  keeps = λ s short. short;
}

-- The end of a method.
pub any_value :
    {A : Type 0} {Good : Job → Type 0} (m : Result A) → Runs Good 0 (lift m) (λ a. Unit {0})
unfolding lift
any_value m = record {
  good = λ s. tt;
  few = λ s. omega arith;
  returns = λ s a q. tt;
  keeps = λ s short. short;
}

-- The end of a method that has given no job.
pub no_job :
    {A : Type 0} {Good : Job → Type 0} (m : Result A) → Runs Good 1 (lift m) (λ a. Unit {0})
unfolding lift
no_job m = record {
  good = λ s. tt;
  few = λ s. omega arith;
  returns = λ s a q. tt;
  keeps = λ s short. short;
}

pub pure-Runs :
    {A : Type 0} {Good : Job → Type 0} {Q : A → Type 0} (a : A) → Q a → Runs Good 0 (lift (ok a)) Q
unfolding lift
pure-Runs {Q = Q} a q = record {
  good = λ s. tt;
  few = λ s. omega arith;
  returns = λ s b e. subst (λ x. Q x) (ok-injective e) q;
  keeps = λ s short. short;
}
