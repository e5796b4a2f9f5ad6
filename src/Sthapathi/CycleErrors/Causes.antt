-- ===== src/Sthapathi/CycleErrors/Causes.antt =====
-- src/sthapathi/errors.ts: what the classes of a cycle's error mean, apart from the code.
use shreni.Common.{
  ◌||◌, contains, Bool-cases, ℕ, String, Option, none, some, [], ◌∷◌, true, false, ◌≡◌, inl, inr,
  refl, In, arith, ◌↔◌, subst,
}
use shreni.Sthapathi.CycleErrors.{
  malformed_output, api_failure, git_error, agent_error, other_error, is_network_text,
  is_down_status, error_text, event_name, stall_of, ErrorClass, api_down, agent_failed, malformed,
  git_failed, unknown, CycleError, classify_error,
}

-- The Claude API is out of reach: by the status of the answer, or by a word in the message, or in the code
-- where there is no message.
abbrev pub NetworkWord : String → Type 0
NetworkWord w = In w ("ECONNRESET" ∷ "ETIMEDOUT" ∷ "ENOTFOUND" ∷ [])

pub data MeansDown : CycleError → Type 0 where
  status_says :
      {n : ℕ} {message code : Option String}
      → In n (429 ∷ 502 ∷ 503 ∷ 529 ∷ [])
      → MeansDown (other_error (some n) message code)
  message_says :
      {status : Option ℕ} {text : String} {code : Option String} {w : String}
      → NetworkWord w
      → contains text w ≡ true
      → MeansDown (other_error status (some text) code)
  code_says :
      {status : Option ℕ} {text : String} {w : String}
      → NetworkWord w
      → contains text w ≡ true
      → MeansDown (other_error status none (some text))

-- The class of an error, the outcome it is recorded as, and the event that the operator is told.
pub data Named : CycleError → ErrorClass → String → String → Type 0 where
  named_git : Named git_error git_failed "cycle:GIT_FAILED" "git_failed"
  named_malformed :
      Named (agent_error malformed_output) malformed "cycle:MALFORMED_OUTPUT" "agent_failed"
  named_agent : Named (agent_error api_failure) agent_failed "cycle:AGENT_FAILED" "agent_failed"
  named_down :
      {status : Option ℕ} {message code : Option String}
      → MeansDown (other_error status message code)
      → Named (other_error status message code) api_down "cycle:API_DOWN" "api_down"
  named_unknown :
      {status : Option ℕ} {message code : Option String}
      → ¬ MeansDown (other_error status message code)
      → Named (other_error status message code) unknown "cycle:UNKNOWN" "unknown_error"

word_iff :
    (text : String)
    → (is_network_text text ≡ true) ↔ ((w : String) × NetworkWord w × (contains text w ≡ true))
word_iff text = (to, λ (w, i, h). ground (arith, i, h))
  where
    to : is_network_text text ≡ true → (w : String) × NetworkWord w × (contains text w ≡ true)
    to h = elim (Bool-cases (contains text "ECONNRESET")) [
      | inl e ↦ ("ECONNRESET", inl refl, e)
      | inr e ↦ elim (Bool-cases (contains text "ETIMEDOUT")) [
        | inl f ↦ ("ETIMEDOUT", inr (inl refl), f)
        | inr f ↦ ("ENOTFOUND", inr (inr (inl refl)), ground (arith, h, e, f))
      ]
    ]

silent : is_network_text "" ≡ false
unfolding contains
silent = refl

text_down :
    (status : Option ℕ) (message code : Option String)
    → is_network_text (error_text message code) ≡ true
    → MeansDown (other_error status message code)
text_down status (some m) code h = let (w, i, e) = (word_iff m).0 h in message_says i e
text_down status none (some c) h = let (w, i, e) = (word_iff c).0 h in code_says i e
text_down status none none h = absurd (ground (arith, h, silent))

is_down_status-In : (n : ℕ) → is_down_status (some n) ≡ true → In n (429 ∷ 502 ∷ 503 ∷ 529 ∷ [])
is_down_status-In n h = ground (arith, h)

down_to :
    (status : Option ℕ) (message code : Option String)
    → (is_down_status status || is_network_text (error_text message code)) ≡ true
    → MeansDown (other_error status message code)
down_to none message code h = text_down none message code (ground (arith, h))
down_to (some n) message code h = elim (Bool-cases (is_down_status (some n))) [
  | inl e ↦ status_says (is_down_status-In n e)
  | inr e ↦ text_down (some n) message code (ground (arith, h, e))
]

down_back : (e : CycleError) → MeansDown e → classify_error e ≡ api_down
unfolding classify_error
down_back e (status_says i) = ground (arith, i)
down_back e (message_says i h) = ground (arith, (word_iff _).1 (_, i, h))
down_back e (code_says i h) = ground (arith, (word_iff _).1 (_, i, h))

pub down_iff : (e : CycleError) → MeansDown e ↔ (classify_error e ≡ api_down)
unfolding classify_error
down_iff git_error = ((λ d. down_back git_error d), λ h. absurd (ground (arith, h)))
down_iff (agent_error malformed_output) =
    ((λ d. down_back (agent_error malformed_output) d), λ h. absurd (ground (arith, h)))
down_iff (agent_error api_failure) =
    ((λ d. down_back (agent_error api_failure) d), λ h. absurd (ground (arith, h)))
down_iff (other_error status message code) = (
  (λ d. down_back (other_error status message code) d),
  λ h. down_to status message code (ground (arith, h)),
)

pub git_iff : (e : CycleError) → (e ≡ git_error) ↔ (classify_error e ≡ git_failed)
unfolding classify_error
git_iff git_error = ((λ h. refl), λ h. refl)
git_iff (agent_error malformed_output) =
    ((λ h. absurd (ground (arith, h))), λ h. absurd (ground (arith, h)))
git_iff (agent_error api_failure) =
    ((λ h. absurd (ground (arith, h))), λ h. absurd (ground (arith, h)))
git_iff (other_error status message code) =
    ((λ h. absurd (ground (arith, h))), λ h. absurd (ground (arith, h)))

abbrev Classed : CycleError → ErrorClass → Type 0
Classed e c = Named e c (stall_of c) (event_name c)

pub classify_error-Named :
    (e : CycleError)
    → Named e (classify_error e) (stall_of (classify_error e)) (event_name (classify_error e))
unfolding classify_error stall_of
classify_error-Named git_error = named_git
classify_error-Named (agent_error malformed_output) = named_malformed
classify_error-Named (agent_error api_failure) = named_agent
classify_error-Named (other_error status message code) =
    let test = is_down_status status || is_network_text (error_text message code) in
    elim (Bool-cases test) [
      | inl e ↦
          subst (Classed (other_error status message code)) (ground (arith, e))
            (named_down (down_to status message code e))
      | inr e ↦
          subst (Classed (other_error status message code)) (ground (arith, e))
            (named_unknown (λ d. ground (arith, e, down_back (other_error status message code) d)))
    ]
