-- ===== src/Native/Relayed.antt =====
-- What one connection of an agent can send to the extension.
use llm_wiki_chrome.Prelude.{
  ℕ, String, ◌≡◌, ◌⊎◌, inl, inr, refl, sym, Bool, true, false, ◌||◌, Option, none, some, List, [],
  ◌∷◌, ◌++◌, ltb, length, is_empty, if◌then◌else◌, arith,
}
use mathlib.Core.Path.{subst, subst₂}
use llm_wiki_chrome.Json.{
  is_text-str, Value, Fields, str, bool, obj, get, is_text, is_bool, str_and,
}
use llm_wiki_chrome.Protocol.Guards.{text_of}
use llm_wiki_chrome.Grants.Defs.{Workspace}
use llm_wiki_chrome.Native.Frames.{Codec, max_message_bytes}
use llm_wiki_chrome.Native.Agent.{
  Session, new_session, Output, to_extension, to_agent, Reaction, forward, answer, refuse,
  is_job_id, pass_on, start_job, reply_to, handle_message, handle_value, handle_line, split_lines,
  Turn, react, handle_lines, receive, serve_agent,
}

-- The outputs that a connection may still make, by its job and by whether its reply was seen: one answer
-- to a query, or one job and then at most one reply that bears the job's id.
pub data Relayed : Option String → Bool → List Output → Type 0 where
  quiet : {job : Option String} {seen : Bool} → Relayed job seen []
  answered : {seen : Bool} (v : Value) → Relayed none seen (to_agent v ∷ [])
  job :
      {seen : Bool} {outputs : List Output} (fs : Fields) (id : String)
      → get "type" fs ≡ str "job"
      → get "job_id" fs ≡ str id
      → is_job_id id ≡ true
      → Relayed (some id) seen outputs
      → Relayed none seen (to_extension (obj fs) ∷ outputs)
  reply :
      {id : String} {outputs : List Output} (fs : Fields) (authorized : Bool)
      → get "type" fs ≡ str "mutation-authorized"
      → get "job_id" fs ≡ str id
      → get "authorized" fs ≡ bool authorized
      → Relayed (some id) true outputs
      → Relayed (some id) false (to_extension (obj fs) ∷ outputs)

-- What a reaction tells of the message that it passes on.
data Reacts (s : Session) : Reaction → Type 0 where
  refused : Reacts s refuse
  answers : (v : Value) → s.job_id ≡ none → Reacts s (answer v)
  starts :
      (s' : Session) (fs : Fields) (id : String)
      → s.job_id ≡ none
      → s'.job_id ≡ some id
      → s'.reply_seen ≡ s.reply_seen
      → get "type" fs ≡ str "job"
      → get "job_id" fs ≡ str id
      → is_job_id id ≡ true
      → Reacts s (forward s' (obj fs))
  replies :
      (s' : Session) (fs : Fields) (id : String) (authorized : Bool)
      → s.job_id ≡ some id
      → s.reply_seen ≡ false
      → s'.job_id ≡ some id
      → s'.reply_seen ≡ true
      → get "type" fs ≡ str "mutation-authorized"
      → get "job_id" fs ≡ str id
      → get "authorized" fs ≡ bool authorized
      → Reacts s (forward s' (obj fs))

is_bool-bool : (v : Value) → is_bool v ≡ true → (b : Bool) × (v ≡ bool b)
is_bool-bool (bool b) h = (b, refl)
is_bool-bool _ h = absurd (cc)

str_and-str :
    (test : String → Bool) (v : Value)
    → str_and test v ≡ true
    → (v ≡ str (text_of v)) × (test (text_of v) ≡ true)
unfolding text_of
str_and-str test (str s) h = (refl, h)
str_and-str test _ h = absurd (cc)

module _ (codec : Codec) where
  start_job-cases :
      (s : Session) (fs : Fields)
      → (start_job codec s fs ≡ refuse)
        ⊎ ((start_job codec s fs
              ≡ forward (record s { job_id = some (text_of (get "job_id" fs)) }) (obj fs))
            × (is_text "job" (get "type" fs) ≡ true)
            × (str_and is_job_id (get "job_id" fs) ≡ true))
  unfolding start_job pass_on
  start_job-cases s fs = ground arith

  reply_to-cases :
      (id : String) (s : Session) (fs : Fields)
      → (reply_to codec id s fs ≡ refuse)
        ⊎ ((reply_to codec id s fs ≡ forward (record s { reply_seen = true }) (obj fs))
            × (is_text "mutation-authorized" (get "type" fs) ≡ true)
            × (is_text id (get "job_id" fs) ≡ true)
            × (s.reply_seen ≡ false)
            × (is_bool (get "authorized" fs) ≡ true))
  unfolding reply_to pass_on
  reply_to-cases id s fs = ground arith

  start_job-Reacts : (s : Session) (fs : Fields) → s.job_id ≡ none → Reacts s (start_job codec s fs)
  start_job-Reacts s fs fresh = elim (start_job-cases s fs) [
    | inl e ↦ subst (λ x. Reacts s x) (sym e) refused
    | inr (e, is_job, has_id) ↦
        let (text, good) = str_and-str is_job_id (get "job_id" fs) has_id in
        subst (λ x. Reacts s x) (sym e)
          (starts _ fs (text_of (get "job_id" fs)) fresh refl refl
            (is_text-str "job" (get "type" fs) is_job) text good)
  ]

  reply_to-Reacts :
      (id : String) (s : Session) (fs : Fields)
      → s.job_id ≡ some id
      → Reacts s (reply_to codec id s fs)
  reply_to-Reacts id s fs busy = elim (reply_to-cases id s fs) [
    | inl e ↦ subst (λ x. Reacts s x) (sym e) refused
    | inr (e, is_reply, same_id, unseen, is_answer) ↦
        let (authorized, q) = is_bool-bool (get "authorized" fs) is_answer in
        subst (λ x. Reacts s x) (sym e)
          (replies _ fs id authorized busy unseen busy refl
            (is_text-str "mutation-authorized" (get "type" fs) is_reply)
            (is_text-str id (get "job_id" fs) same_id) q)
  ]

  query_or :
      (b : Bool) (v : Value) (s : Session)
      → s.job_id ≡ none
      → Reacts s (if b then answer v else refuse)
  query_or true v s fresh = answers v fresh
  query_or false v s fresh = refused

  choose :
      (b : Bool) (x y : Reaction) (s : Session)
      → Reacts s x
      → Reacts s y
      → Reacts s (if b then x else y)
  choose true x y s p q = p
  choose false x y s p q = q

  handle_message-Reacts :
      (w : Workspace) (s : Session) (job : Option String) (fs : Fields)
      → s.job_id ≡ job
      → Reacts s (handle_message codec w s job fs)
  unfolding handle_message
  handle_message-Reacts w s none fs fresh =
      choose (is_text "collaboration-query" (get "type" fs)) _ _ s (query_or _ _ s fresh) (
        choose (is_text "collaboration-list-query" (get "type" fs)) _ _ s (query_or _ _ s fresh)
          (start_job-Reacts s fs fresh))
  handle_message-Reacts w s (some id) fs busy = reply_to-Reacts id s fs busy

  handle_value-Reacts :
      (w : Workspace) (s : Session) (v : Option Value) → Reacts s (handle_value codec w s v)
  unfolding handle_value
  handle_value-Reacts w s (some (obj fs)) =
      choose _ _ _ s (handle_message-Reacts w s s.job_id fs refl) refused
  handle_value-Reacts w s none = refused
  handle_value-Reacts w s (some _) = refused

  handle_line-Reacts :
      (w : Workspace) (s : Session) (line : List ℕ) → Reacts s (handle_line codec w s line)
  unfolding handle_line
  handle_line-Reacts w s line = handle_value-Reacts w s (codec.loads line)

-- What the session that a turn leaves may still send; nothing where the connection is closed.
abbrev Continues : Option Session → List Output → Type 0
Continues none outputs = outputs ≡ []
Continues (some s) outputs = Relayed s.job_id s.reply_seen outputs

react-Relayed :
    (s : Session) (reaction : Reaction) (go : Session → Turn) (more : List Output)
    → Reacts s reaction
    → ((s' : Session)
        → Continues (go s').session more
        → Relayed s'.job_id s'.reply_seen ((go s').outputs ++ more))
    → Continues (react reaction go).session more
    → Relayed s.job_id s.reply_seen ((react reaction go).outputs ++ more)
unfolding react
react-Relayed s _ go more refused later e =
    subst (λ o. Relayed s.job_id s.reply_seen o) (sym e) quiet
react-Relayed s _ go more (answers v fresh) later e =
    subst₂ (λ j o. Relayed j s.reply_seen (to_agent v ∷ o)) (sym fresh) (sym e) (answered v)
react-Relayed s _ go more (starts s' fs id fresh now same is_job has_id good) later c =
    subst (λ j. Relayed j s.reply_seen (to_extension (obj fs) ∷ ((go s').outputs ++ more)))
      (sym fresh)
      (job fs id is_job has_id good
        (subst₂ (λ j b. Relayed j b ((go s').outputs ++ more)) now same (later s' c)))
react-Relayed s _ go more
      (replies s' fs id authorized busy unseen now seen is_reply same_id answer_q) later c =
    subst₂ (λ j b. Relayed j b (to_extension (obj fs) ∷ ((go s').outputs ++ more))) (sym busy)
      (sym unseen)
      (reply fs authorized is_reply same_id answer_q
        (subst₂ (λ j b. Relayed j b ((go s').outputs ++ more)) now seen (later s' c)))

module _ (codec : Codec) where
  handle_lines-Relayed :
      (w : Workspace) (s : Session) (lines : List (List ℕ)) (rest : List ℕ) (more : List Output)
      → Continues (handle_lines codec w s lines rest).session more
      → Relayed s.job_id s.reply_seen ((handle_lines codec w s lines rest).outputs ++ more)
  unfolding handle_lines
  handle_lines-Relayed w s [] rest more c = c
  handle_lines-Relayed w s (line ∷ lines) rest more c =
      react-Relayed s (handle_line codec w s line) (λ s'. handle_lines codec w s' lines rest) more
        (handle_line-Reacts codec w s line) (λ s' k. handle_lines-Relayed w s' lines rest more k) c

  receive-Relayed :
      (w : Workspace) (s : Session) (chunk : List ℕ) (more : List Output)
      → Continues (receive codec w s chunk).session more
      → Relayed s.job_id s.reply_seen ((receive codec w s chunk).outputs ++ more)
  unfolding receive
  receive-Relayed w s chunk more =
      choose_turn (is_empty chunk || ltb max_message_bytes (length (s.buffer ++ chunk))) _ _
        (λ e. subst (λ o. Relayed s.job_id s.reply_seen o) (sym e) quiet)
        (handle_lines-Relayed w s (split_lines (s.buffer ++ chunk)).0
          (split_lines (s.buffer ++ chunk)).1 more)
    where
      choose_turn :
          (b : Bool) (x y : Turn)
          → (Continues x.session more → Relayed s.job_id s.reply_seen (x.outputs ++ more))
          → (Continues y.session more → Relayed s.job_id s.reply_seen (y.outputs ++ more))
          → Continues (if b then x else y).session more
          → Relayed s.job_id s.reply_seen ((if b then x else y).outputs ++ more)
      choose_turn true x y p q = p
      choose_turn false x y p q = q

  serve_agent-Relayed_from :
      (s : Session) (chunks : List (Workspace × List ℕ))
      → Relayed s.job_id s.reply_seen (serve_agent codec (some s) chunks).outputs
  unfolding serve_agent
  serve_agent-Relayed_from s [] = quiet
  serve_agent-Relayed_from s ((w, chunk) ∷ chunks) =
      receive-Relayed w s chunk (serve_agent codec (receive codec w s chunk).session chunks).outputs
        (after (receive codec w s chunk).session (λ s'. serve_agent-Relayed_from s' chunks))
    where
      after :
          (o : Option Session)
          → ((s' : Session)
              → Relayed s'.job_id s'.reply_seen (serve_agent codec (some s') chunks).outputs)
          → Continues o (serve_agent codec o chunks).outputs
      after none ih = refl
      after (some s') ih = ih s'

  -- Whatever bytes an agent sends, in whatever chunks and whatever the workspace is meanwhile, its
  -- connection gets at most one answer to a query and then nothing is passed on, or it passes at most one
  -- job with an id of 36 hexadecimal digits to the extension and behind it at most one reply with a
  -- Boolean that bears the same id.
  pub serve_agent-Relayed :
      (chunks : List (Workspace × List ℕ))
      → Relayed none false (serve_agent codec (some new_session) chunks).outputs
  serve_agent-Relayed chunks = serve_agent-Relayed_from new_session chunks
