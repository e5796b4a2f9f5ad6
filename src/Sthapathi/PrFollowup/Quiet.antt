-- ===== src/Sthapathi/PrFollowup/Quiet.antt =====
-- src/sthapathi/pr-followup.ts: what leaves a pull request with nothing to do, apart from the code.
use shreni.Common.{
  String, none, some, List, [], ◌∷◌, ◌++◌, false, ◌==◌, ==_iff, ==_refl, text_lt, includes,
  includes-In, In-includes, In, ◌≡◌, ◌≢◌, ◌↔◌, ◌⊎◌, inl, inr, refl, subst, sym, arith, Bool-cases,
  Option-cases,
}
use shreni.Sthapathi.PrFollowup.{
  PrReview, PrCheck, PrCommit, DetectInput, failing_conclusions, tip_of, is_unaddressed, is_failing,
  tip_is_foreign,
}

-- The head of the pull request: the last commit.
abbrev pub IsTip : DetectInput → PrCommit → Type 0
IsTip i c = (cs : List PrCommit) × (i.status.commits ≡ cs ++ c ∷ [])

-- A time that is no later than the watermark's; neither of them is the empty text.
abbrev pub IsOnTime : DetectInput → String → Type 0
IsOnTime i t =
    (w : String) × (i.watermark.at ≡ some w) × (w ≢ "") × (t ≢ "") × (text_lt w t ≡ false)

-- A review that the watermark covers: one with a time is no later than the time of the watermark, and
-- one with none was met when the head was the one that it records.
pub record IsCovered (i : DetectInput) (r : PrReview) : Type 0 where
  pub dated : (t : String) → r.submitted_at ≡ some t → IsOnTime i t
  pub undated : r.submitted_at ≡ none → (c : PrCommit) × IsTip i c × (i.watermark.head ≡ some c.sha)

abbrev pub HasFailed : String → Type 0
HasFailed k = In k (
    "FAILURE" ∷ "ERROR" ∷ "CANCELLED" ∷ "TIMED_OUT" ∷ "ACTION_REQUIRED" ∷ "STARTUP_FAILURE"
    ∷ "STALE" ∷ [])

-- Nothing on the pull request asks for work.
pub record Addressed (i : DetectInput) : Type 0 where
  pub reviews :
      (r : PrReview) → In r i.status.reviews → r.state ≡ "CHANGES_REQUESTED" → IsCovered i r
  pub checks :
      (c : PrCheck)
      → In c i.status.checks
      → In c.name i.required_checks
      → (k : String) → c.conclusion ≡ some k
      → ¬ HasFailed k
  pub tip :
      (c : PrCommit)
      → IsTip i c
      → (i.watermark.head ≡ some c.sha)
        ⊎ (c.author ≡ none)
        ⊎ ((login : String) × (c.author ≡ some login) × In login i.self_logins)

tip_of-last : (cs : List PrCommit) (c : PrCommit) → tip_of (cs ++ c ∷ []) ≡ some c
tip_of-last [] c = refl
tip_of-last (d ∷ []) c = refl
tip_of-last (d ∷ e ∷ cs) c = tip_of-last (e ∷ cs) c

last_of :
    (xs : List PrCommit) (c : PrCommit)
    → tip_of xs ≡ some c
    → (cs : List PrCommit) × (xs ≡ cs ++ c ∷ [])
last_of [] c h = absurd (ground (arith, h))
last_of (d ∷ []) c h = ([], ground (arith, h))
last_of (d ∷ e ∷ xs) c h = let (cs, same) = last_of (e ∷ xs) c h in (d ∷ cs, ground (arith, same))

tip_of-IsTip_iff : (i : DetectInput) (c : PrCommit) → (tip_of i.status.commits ≡ some c) ↔ IsTip i c
tip_of-IsTip_iff i c = (
  last_of i.status.commits c,
  λ (cs, e). subst (λ xs. tip_of xs ≡ some c) (sym e) (tip_of-last cs c),
)

pub is_unaddressed-IsCovered_iff :
    (i : DetectInput) (r : PrReview)
    → (is_unaddressed i.watermark (tip_of i.status.commits) r ≡ false)
      ↔ (r.state ≡ "CHANGES_REQUESTED" → IsCovered i r)
is_unaddressed-IsCovered_iff i r = (to, back)
  where
    to_dated :
        is_unaddressed i.watermark (tip_of i.status.commits) r ≡ false
        → r.state ≡ "CHANGES_REQUESTED"
        → (t : String) → r.submitted_at ≡ some t
        → IsOnTime i t
    to_dated h k t e = elim (Option-cases i.watermark.at) [
      | inl f ↦ absurd (ground (arith, h, k, e, f, ==_iff r.state "CHANGES_REQUESTED"))
      | inr (w, f) ↦ (
        w,
        f,
        (λ z. ground (arith, h, k, e, f, z, ==_iff r.state "CHANGES_REQUESTED", ==_iff w "")),
        (λ z. ground (arith, h, k, e, f, z, ==_iff r.state "CHANGES_REQUESTED", ==_iff t "")),
        ground (arith, h, k, e, f, ==_iff r.state "CHANGES_REQUESTED"),
      )
    ]

    to_undated :
        is_unaddressed i.watermark (tip_of i.status.commits) r ≡ false
        → r.state ≡ "CHANGES_REQUESTED"
        → r.submitted_at ≡ none
        → (c : PrCommit) × IsTip i c × (i.watermark.head ≡ some c.sha)
    to_undated h k e = elim (Option-cases (tip_of i.status.commits)) [
      | inl f ↦ absurd (
          ground
            (arith, h, k, e, f, ==_iff r.state "CHANGES_REQUESTED", Option-cases i.watermark.head))
      | inr (c, f) ↦ elim (Option-cases i.watermark.head) [
        | inl g ↦ absurd (ground (arith, h, k, e, f, g, ==_iff r.state "CHANGES_REQUESTED"))
        | inr (w, g) ↦ (
          c,
          (tip_of-IsTip_iff i c).0 f,
          ground (arith, h, k, e, f, g, ==_iff r.state "CHANGES_REQUESTED", ==_iff w c.sha),
        )
      ]
    ]

    to :
        is_unaddressed i.watermark (tip_of i.status.commits) r ≡ false
        → r.state ≡ "CHANGES_REQUESTED"
        → IsCovered i r
    to h k = record { dated = to_dated h k; undated = to_undated h k }

    back :
        (r.state ≡ "CHANGES_REQUESTED" → IsCovered i r)
        → is_unaddressed i.watermark (tip_of i.status.commits) r ≡ false
    back v = elim (Bool-cases (r.state == "CHANGES_REQUESTED")) [
      | inr other ↦ ground (arith, other)
      | inl asked ↦
          let covered = v ((==_iff r.state "CHANGES_REQUESTED").0 asked) in
          elim (Option-cases r.submitted_at) [
            | inl e ↦
                let (c, tip, head) = covered.undated e in
                ground (arith, asked, e, head, (tip_of-IsTip_iff i c).1 tip, ==_refl c.sha)
            | inr (t, e) ↦
                let (w, at, known, set, sooner) = covered.dated t e in
                ground (arith, asked, e, at, sooner, set, known, ==_iff t "", ==_iff w "")
          ]
    ]

pub is_failing_iff :
    (i : DetectInput) (c : PrCheck)
    → (is_failing i.required_checks c ≡ false)
      ↔ (In c.name i.required_checks → (k : String) → c.conclusion ≡ some k → ¬ HasFailed k)
is_failing_iff i c = (to, back)
  where
    to :
        is_failing i.required_checks c ≡ false
        → In c.name i.required_checks
        → (k : String) → c.conclusion ≡ some k
        → ¬ HasFailed k
    to h m k e bad =
        ground (
          arith,
          h,
          e,
          includes-In i.required_checks c.name m,
          includes-In failing_conclusions k bad,
        )

    back :
        (In c.name i.required_checks → (k : String) → c.conclusion ≡ some k → ¬ HasFailed k)
        → is_failing i.required_checks c ≡ false
    back v = elim (Option-cases c.conclusion) [
      | inl e ↦ ground (arith, e)
      | inr (k, e) ↦ elim (Bool-cases (is_failing i.required_checks c)) [
        | inr f ↦ f
        | inl f ↦ absurd (
            v (In-includes i.required_checks c.name (ground (arith, f))) k e
              (In-includes failing_conclusions k (ground (arith, f, e))))
      ]
    ]

pub tip_is_foreign_iff :
    (i : DetectInput)
    → (tip_is_foreign i.self_logins i.watermark (tip_of i.status.commits) ≡ false) ↔ (
        (c : PrCommit)
        → IsTip i c
        → (i.watermark.head ≡ some c.sha)
          ⊎ (c.author ≡ none)
          ⊎ ((login : String) × (c.author ≡ some login) × In login i.self_logins))
tip_is_foreign_iff i = (to, back)
  where
    to :
        tip_is_foreign i.self_logins i.watermark (tip_of i.status.commits) ≡ false
        → (c : PrCommit) → IsTip i c
        → (i.watermark.head ≡ some c.sha)
          ⊎ (c.author ≡ none)
          ⊎ ((login : String) × (c.author ≡ some login) × In login i.self_logins)
    to h c t = elim (Option-cases c.author) [
      | inl e ↦ inr (inl e)
      | inr (l, e) ↦ elim (Bool-cases (includes i.self_logins l)) [
        | inl own ↦ inr (inr (l, e, In-includes i.self_logins l own))
        | inr other ↦ elim (Option-cases i.watermark.head) [
          | inl g ↦ absurd (ground (arith, h, e, other, g, (tip_of-IsTip_iff i c).1 t))
          | inr (w, g) ↦
              inl (ground (arith, h, e, other, g, (tip_of-IsTip_iff i c).1 t, ==_iff w c.sha))
        ]
      ]
    ]

    back :
        ((c : PrCommit)
          → IsTip i c
          → (i.watermark.head ≡ some c.sha)
            ⊎ (c.author ≡ none)
            ⊎ ((login : String) × (c.author ≡ some login) × In login i.self_logins))
        → tip_is_foreign i.self_logins i.watermark (tip_of i.status.commits) ≡ false
    back v = elim (Option-cases (tip_of i.status.commits)) [
      | inl e ↦ ground (arith, e)
      | inr (c, e) ↦ elim (v c ((tip_of-IsTip_iff i c).0 e)) [
        | inl head ↦ ground (arith, e, head, ==_refl c.sha)
        | inr (inl nobody) ↦ ground (arith, e, nobody)
        | inr (inr (l, known, own)) ↦ ground (arith, e, known, includes-In i.self_logins l own)
      ]
    ]
