-- ===== src/Sthapathi/PrFollowup/Addressed.antt =====
-- src/sthapathi/pr-followup.ts: when there is nothing to do, and that a pass is not triggered by itself.
use shreni.Common.{
  some, List, [], ◌∷◌, Bool, true, false, ◌&&◌, ==_refl, filter, is_empty, is_none, is_some, In,
  ◌≡◌, ◌↔◌, inl, inr, refl, ◌∙◌, arith, Bool-cases, Option-cases,
}
use shreni.Sthapathi.PrFollowup.{
  PrReview, PrCommit, failing_check, PrFeedback, DetectInput, is_newer, tip_of, sha_of,
  is_unaddressed, is_failing, is_foreign, tip_is_foreign, unaddressed, failing_checks,
  foreign_commits, detect_pr_feedback,
}
use shreni.Sthapathi.PrFollowup.Quiet.{
  Addressed, is_unaddressed-IsCovered_iff, is_failing_iff, tip_is_foreign_iff,
}

empty_iff {ℓ} :
    {A : Type ℓ} (p : A → Bool) (xs : List A)
    → (is_empty (filter p xs) ≡ true) ↔ ((x : A) → In x xs → p x ≡ false)
empty_iff p [] = ((λ h x i. absurd (i.0)), (λ h. refl))
empty_iff p (y ∷ ys) = elim (Bool-cases (p y)) [
  | inl e ↦
      ((λ h. absurd (ground (arith, e, h))), (λ h. absurd (ground (arith, e, h y (inl refl)))))
  | inr e ↦ (
    (λ h x i. elim i [
      | inl k ↦ ground (arith, k, e)
      | inr k ↦ (empty_iff p ys).0 (ground (arith, e, h)) x k
    ]),
    λ h. ground (arith, e, (empty_iff p ys).1 (λ x k. h x (inr k))),
  )
]

tip-In : (cs : List PrCommit) (c : PrCommit) → tip_of cs ≡ some c → In c cs
tip-In [] c h = absurd (ground arith)
tip-In (d ∷ []) c h = inl (ground (arith, h))
tip-In (d ∷ e ∷ cs) c h = inr (tip-In (e ∷ cs) c h)

-- A foreign tip is itself among the foreign commits.
foreign_iff :
    (i : DetectInput)
    → (is_empty (foreign_commits i) ≡ true)
      ↔ (tip_is_foreign i.self_logins i.watermark (tip_of i.status.commits) ≡ false)
foreign_iff i = elim (Option-cases (tip_of i.status.commits)) [
  | inl e ↦ ((λ h. ground (arith, e)), (λ h. ground (arith, e)))
  | inr (c, e) ↦ elim (Bool-cases (tip_is_foreign i.self_logins i.watermark (some c))) [
    | inr own ↦ ((λ h. ground (arith, e, own)), (λ h. ground (arith, e, own)))
    | inl theirs ↦ (
      (λ h. absurd (
          ground (
            arith,
            theirs,
            (empty_iff (is_foreign i.self_logins i.watermark) i.status.commits).0
                (ground (arith, h, e, theirs)) c (tip-In i.status.commits c e),
          ))),
      λ h. absurd (ground (arith, e, h, theirs)),
    )
  ]
]

detect_lem :
    (i : DetectInput)
    → is_none (detect_pr_feedback i)
      ≡ (is_empty (unaddressed i) && is_empty (failing_checks i) && is_empty (foreign_commits i))
unfolding detect_pr_feedback
detect_lem i = ground (
  arith,
  Bool-cases (is_empty (unaddressed i)),
  Bool-cases (is_empty (failing_checks i)),
  Bool-cases (is_empty (foreign_commits i)),
)

-- There is no feedback to follow up exactly when every review that requests changes is covered by the
-- watermark (one with a time is not later than the watermark's time, and neither is empty; one with
-- none was met at a recorded head that still is the last commit), no required check has one of the
-- seven failing conclusions, and the last commit, if there is one, is the recorded head, or has no
-- known author, or has one of the worker's own.
pub detect_pr_feedback-Addressed_iff :
    (i : DetectInput) → (is_none (detect_pr_feedback i) ≡ true) ↔ Addressed i
detect_pr_feedback-Addressed_iff i =
    let reviews =
      empty_iff (is_unaddressed i.watermark (tip_of i.status.commits)) i.status.reviews in
    let checks = empty_iff (is_failing i.required_checks) i.status.checks in
    let tip = foreign_iff i in
    (
      λ h. record {
        reviews = λ r m.
            (is_unaddressed-IsCovered_iff i r).0 (reviews.0 (ground (arith, h, detect_lem i)) r m);
        checks = λ c m. (is_failing_iff i c).0 (checks.0 (ground (arith, h, detect_lem i)) c m);
        tip = (tip_is_foreign_iff i).0 (tip.0 (ground (arith, h, detect_lem i)));
      },
      λ a.
          detect_lem i
          ∙ ground (
            arith,
            reviews.1 (λ r m. (is_unaddressed-IsCovered_iff i r).1 (a.reviews r m)),
            checks.1 (λ c m. (is_failing_iff i c).1 (a.checks c m)),
            tip.1 ((tip_is_foreign_iff i).1 a.tip),
          ),
    )

-- A pull request as the worker left it: the head is the one it recorded, and no review is from later.
pub record IsPushed (i : DetectInput) : Type 0 where
  pub head : sha_of (tip_of i.status.commits) ≡ i.watermark.head
  pub pushed : is_some i.watermark.head ≡ true
  pub reviews :
      (r : PrReview)
      → In r i.status.reviews
      → is_some r.submitted_at ≡ true
      → is_newer r.submitted_at i.watermark.at ≡ false

no_requests : (i : DetectInput) → IsPushed i → is_empty (unaddressed i) ≡ true
no_requests i v =
    (empty_iff (is_unaddressed i.watermark (tip_of i.status.commits)) i.status.reviews).1
      (λ r k. answered r k)
  where
    answered :
        (r : PrReview)
        → In r i.status.reviews
        → is_unaddressed i.watermark (tip_of i.status.commits) r ≡ false
    answered r k = elim (Option-cases r.submitted_at) [
      | inr (t, e) ↦ ground (arith, e, v.reviews r k (ground (arith, e)))
      | inl e ↦ elim (Option-cases i.watermark.head) [
        | inl none_kept ↦ absurd (ground (arith, none_kept, v.pushed))
        | inr (h, kept) ↦ ground (arith, e, kept, v.head, ==_refl h)
      ]
    ]

no_strangers : (i : DetectInput) → IsPushed i → is_empty (foreign_commits i) ≡ true
no_strangers i v = (foreign_iff i).1 (elim (Option-cases (tip_of i.status.commits)) [
  | inl e ↦ ground (arith, e)
  | inr (c, e) ↦ ground (arith, e, v.head, ==_refl c.sha)
])

-- On a pull request whose head is the one that the worker recorded and whose dated reviews are none
-- newer than its record, feedback is only ever a failing check, and the round carries on: the worker's
-- own push triggers nothing.
pub detect_pr_feedback-IsPushed :
    (i : DetectInput) (f : PrFeedback)
    → IsPushed i
    → detect_pr_feedback i ≡ some f
    → (f.triggers ≡ failing_check ∷ []) × (f.round ≡ i.watermark.round)
unfolding detect_pr_feedback
detect_pr_feedback-IsPushed i f v h =
    let requests = no_requests i v in
    let strangers = no_strangers i v in
    elim (Bool-cases (is_empty (failing_checks i))) [
      | inl e ↦ absurd (ground (arith, h, requests, strangers, e))
      | inr e ↦
          (ground (arith, h, requests, strangers, e), ground (arith, h, requests, strangers, e))
    ]
