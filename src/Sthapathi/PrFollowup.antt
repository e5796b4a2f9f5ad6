-- ===== src/Sthapathi/PrFollowup.antt =====
-- src/sthapathi/pr-followup.ts: the feedback on an open pull request that was not addressed yet.
pub mod Addressed
pub mod Quiet
use shreni.Common.{
  ℕ, String, Option, none, some, List, [], ◌∷◌, ◌++◌, Bool, true, false, not, ◌&&◌, ◌||◌, ◌==◌,
  text_lt, filter, includes, is_empty, is_some_of, is_none, if◌then◌else◌,
}

abbrev pub failing_conclusions : List String
failing_conclusions =
    "FAILURE" ∷ "ERROR" ∷ "CANCELLED" ∷ "TIMED_OUT" ∷ "ACTION_REQUIRED" ∷ "STARTUP_FAILURE"
    ∷ "STALE" ∷ []

-- resolvePrFollowup, of the switch of the environment and the setting of the repository.
abbrev pub resolve_pr_followup : Option String → Bool → Bool
resolve_pr_followup switch setting = if is_some_of switch "off" then false else setting

pub record PrWatermark : Type 0 where
  pub head : Option String
  pub round : ℕ
  pub at : Option String

-- What the code reads of gh's answer.
pub record PrReview : Type 0 where
  pub state : String
  pub submitted_at : Option String

pub record PrCheck : Type 0 where
  pub name : String
  pub conclusion : Option String

pub record PrCommit : Type 0 where
  pub sha : String
  pub author : Option String

pub record PrStatus : Type 0 where
  pub reviews : List PrReview
  pub checks : List PrCheck
  pub commits : List PrCommit

pub data PrTrigger : Type 0 where
  changes_requested : PrTrigger
  failing_check : PrTrigger
  foreign_commit : PrTrigger

pub record PrFeedback : Type 0 where
  pub triggers : List PrTrigger
  pub requests : List PrReview
  pub failing : List PrCheck
  pub foreign : List PrCommit
  pub round : ℕ

pub record DetectInput : Type 0 where
  pub status : PrStatus
  pub watermark : PrWatermark
  pub self_logins : List String
  pub required_checks : List String

-- An absent time and the empty one are both false.
abbrev pub is_set : Option String → Bool
is_set none = false
is_set (some t) = not (t == "")

abbrev pub later : Option String → Option String → Bool
later (some a) (some b) = text_lt b a
later (some a) none = false
later none b = false

abbrev pub is_newer : Option String → Option String → Bool
is_newer a b = if not (is_set b) then true else if not (is_set a) then true else later a b

-- The head of the pull request: gh gives the commits oldest first.
abbrev pub tip_of : List PrCommit → Option PrCommit
tip_of [] = none
tip_of (c ∷ []) = some c
tip_of (c ∷ d ∷ cs) = tip_of (d ∷ cs)

abbrev pub sha_of : Option PrCommit → Option String
sha_of none = none
sha_of (some c) = some c.sha

abbrev pub same_sha : Option String → Option String → Bool
same_sha none none = true
same_sha none (some b) = false
same_sha (some a) b = is_some_of b a

abbrev pub is_unaddressed : PrWatermark → Option PrCommit → PrReview → Bool
is_unaddressed w tip r =
    if not (r.state == "CHANGES_REQUESTED")
    then false
    else if is_none r.submitted_at
    then is_none w.head || not (same_sha (sha_of tip) w.head)
    else is_newer r.submitted_at w.at

abbrev pub has_failed : Option String → Bool
has_failed none = false
has_failed (some c) = includes failing_conclusions c

abbrev pub is_failing : List String → PrCheck → Bool
is_failing required c = includes required c.name && has_failed c.conclusion

abbrev pub is_stranger : List String → Option String → Bool
is_stranger self none = false
is_stranger self (some login) = not (includes self login)

abbrev pub is_foreign : List String → PrWatermark → PrCommit → Bool
is_foreign self w c = is_stranger self c.author && not (is_some_of w.head c.sha)

abbrev pub tip_is_foreign : List String → PrWatermark → Option PrCommit → Bool
tip_is_foreign self w none = false
tip_is_foreign self w (some tip) = not (is_some_of w.head tip.sha) && is_stranger self tip.author

abbrev pub unaddressed : DetectInput → List PrReview
unaddressed i = filter (is_unaddressed i.watermark (tip_of i.status.commits)) i.status.reviews

abbrev pub failing_checks : DetectInput → List PrCheck
failing_checks i = filter (is_failing i.required_checks) i.status.checks

abbrev pub foreign_commits : DetectInput → List PrCommit
foreign_commits i =
    if tip_is_foreign i.self_logins i.watermark (tip_of i.status.commits)
    then filter (is_foreign i.self_logins i.watermark) i.status.commits
    else []

abbrev pub trigger_if : Bool → PrTrigger → List PrTrigger
trigger_if b t = if b then t ∷ [] else []

abbrev pub feedback_of : DetectInput → PrFeedback
feedback_of i = record {
  triggers =
      trigger_if (not (is_empty (unaddressed i))) changes_requested
      ++ trigger_if (not (is_empty (failing_checks i))) failing_check
      ++ trigger_if (not (is_empty (foreign_commits i))) foreign_commit;
  requests = unaddressed i;
  failing = failing_checks i;
  foreign = foreign_commits i;
  round = if is_empty (unaddressed i) then i.watermark.round else 0;
}

unfoldable pub detect_pr_feedback : DetectInput → Option PrFeedback
detect_pr_feedback i = if is_empty (feedback_of i).triggers then none else some (feedback_of i)
