-- ===== src/Replay/Profile.antt =====
-- When two recorded runs match under a profile.
use weavegraph.Base.{
  ℕ, String, String-key, ◌≡◌, refl, sym, ap, ◌∙◌, ◌↔◌, ◌⊎◌, inl, inr, true, false, none, List, [],
  ◌∷◌, ◌++◌, map, is_empty, In, if◌then◌else◌, ◌==◌, Key, same-test, test-same, Bool-cases,
}
use weavegraph.Base.Map.{Map, get, remove, get-remove}
use weavegraph.State.{VersionedState}
use weavegraph.Utils.Json.{Value}
use weavegraph.Utils.Json.Equal.{Value-key}
use weavegraph.Replay.{
  PartForms, state_value, ReplayRun, Difference, StateNormalizeProfile, ignored_keys, matched,
  with_differences, is_match, remove_all, normalize_state_with, compare_values,
  compare_final_state_with, compare_event_sequences_with, compare_replay_runs_with_profile,
}
use weavegraph.Replay.Match.{compare_event_sequences_with-is_match}

module _ {V : Type 0} where
  -- Two states that are the same but for the order of their extras, and those extras that the profile
  -- ignores.
  abbrev pub SameUnder : StateNormalizeProfile → VersionedState V → VersionedState V → Type 0
  SameUnder profile a b =
      (a.messages.value ≡ b.messages.value)
      × (a.messages.version ≡ b.messages.version)
      × ((k : String) → ¬ In k (ignored_keys profile) → get k a.extra.value ≡ get k b.extra.value)
      × (a.extra.version ≡ b.extra.version)
      × (a.errors.value ≡ b.errors.value)
      × (a.errors.version ≡ b.errors.version)

  get-remove_all :
      (k : String) (ks : List String) (m : Map String V)
      → (In k ks × (get k (remove_all ks m) ≡ none))
        ⊎ ((¬ In k ks) × (get k (remove_all ks m) ≡ get k m))
  get-remove_all k [] m = inr (λ i. i, refl)
  get-remove_all k (j ∷ ks) m = elim (get-remove_all k ks (remove j m)) [
    | inl (there, gone) ↦ inl (inr there, gone)
    | inr (other, kept) ↦ elim (Bool-cases (j == k)) [
      | inl same ↦ inl (
        inl (same-test j k same),
        kept ∙ get-remove j k m ∙ ap (λ b. if b then none else get k m) same,
      )
      | inr apart ↦ inr (
        λ i. elim i [ inl here ↦ differs j k apart here | inr there ↦ other there ],
        kept ∙ get-remove j k m ∙ ap (λ b. if b then none else get k m) apart,
      )
    ]
  ]
    where
      differs : (j k : String) → (j == k) ≡ false → ¬ (j ≡ k)
      differs j k apart e = let same = test-same j k e in cc

  same_extras :
      (ks : List String) (l r : Map String V)
      → ((k : String) → get k (remove_all ks l) ≡ get k (remove_all ks r))
        ↔ ((k : String) → ¬ In k ks → get k l ≡ get k r)
  same_extras ks l r = (
    λ same k other. elim (get-remove_all k ks l) [
      | inl (there, _) ↦ absurd (other there)
      | inr (_, kept) ↦ elim (get-remove_all k ks r) [
        | inl (there, _) ↦ absurd (other there)
        | inr (_, kept') ↦ sym kept ∙ same k ∙ kept'
      ]
    ],
    λ same k. elim (get-remove_all k ks l) [
      | inl (there, gone) ↦ elim (get-remove_all k ks r) [
        | inl (_, gone') ↦ gone ∙ sym gone'
        | inr (other, _) ↦ absurd (other there)
      ]
      | inr (other, kept) ↦ elim (get-remove_all k ks r) [
        | inl (there, _) ↦ absurd (other there)
        | inr (_, kept') ↦ kept ∙ same k other ∙ sym kept'
      ]
    ],
  )

module _ {V N : Type 0} ⦃key : Key N⦄ (forms : PartForms V N) where
  -- The values of the messages, of the extras that are left and of the errors of the two states are the
  -- same just when these are, extras up to their order; and so are the values of numbers.
  abbrev pub IsFaithful : StateNormalizeProfile → VersionedState V → VersionedState V → Type 0
  IsFaithful profile a b =
      (forms.of_messages a.messages.value ≡ forms.of_messages b.messages.value
        → a.messages.value ≡ b.messages.value)
      × ((forms.of_extra (remove_all (ignored_keys profile) a.extra.value)
            ≡ forms.of_extra (remove_all (ignored_keys profile) b.extra.value))
          ↔ ((k : String)
              → get k (remove_all (ignored_keys profile) a.extra.value)
                ≡ get k (remove_all (ignored_keys profile) b.extra.value)))
      × (forms.of_errors a.errors.value ≡ forms.of_errors b.errors.value
          → a.errors.value ≡ b.errors.value)
      × ((m n : ℕ) → forms.of_version m ≡ forms.of_version n → m ≡ n)

  compare_values-eq :
      (a b : Value N) → (is_empty ((compare_values forms a b).differences) ≡ true) ↔ (a ≡ b)
  unfolding matched with_differences
  compare_values-eq a b = (to, λ e. rw (test-same a b e) refl)
    where
      to : is_empty ((compare_values forms a b).differences) ≡ true → a ≡ b
      to h = elim (Bool-cases (a == b)) [
        | inl same ↦ same-test a b same
        | inr other ↦ let no : false ≡ true = rw other at h in absurd cc
      ]

  is_empty-append :
      {A : Type 0} (xs ys : List A)
      → (is_empty (xs ++ ys) ≡ true) ↔ ((is_empty xs ≡ true) × (is_empty ys ≡ true))
  is_empty-append [] ys = (λ h. (refl, h), λ h. h.1)
  is_empty-append (x ∷ xs) ys = (λ h. absurd cc, λ h. h.0)

  parts_of :
      (a b : VersionedState V) (x y : Map String V)
      → state_value forms a x ≡ state_value forms b y
      → (forms.of_messages a.messages.value ≡ forms.of_messages b.messages.value)
        × (forms.of_version a.messages.version ≡ forms.of_version b.messages.version)
        × (forms.of_extra x ≡ forms.of_extra y)
        × (forms.of_version a.extra.version ≡ forms.of_version b.extra.version)
        × (forms.of_errors a.errors.value ≡ forms.of_errors b.errors.value)
        × (forms.of_version a.errors.version ≡ forms.of_version b.errors.version)
  parts_of a b x y h = (cc, cc, cc, cc, cc, cc)

  parts_to :
      (a b : VersionedState V) (x y : Map String V)
      → a.messages.value ≡ b.messages.value
      → a.messages.version ≡ b.messages.version
      → forms.of_extra x ≡ forms.of_extra y
      → a.extra.version ≡ b.extra.version
      → a.errors.value ≡ b.errors.value
      → a.errors.version ≡ b.errors.version
      → state_value forms a x ≡ state_value forms b y
  parts_to a b x y m mv e ev r rv = cc

  normalize_state_with-eq :
      (a b : VersionedState V) (profile : StateNormalizeProfile)
      → IsFaithful profile a b
      → (normalize_state_with forms a profile ≡ normalize_state_with forms b profile)
        ↔ SameUnder profile a b
  unfolding normalize_state_with
  normalize_state_with-eq a b profile (messages, extras, errors, versions) =
      let (wide, narrow) = same_extras (ignored_keys profile) a.extra.value b.extra.value in
      (
        λ h.
            let (m, mv, x, xv, e, ev) = parts_of a b _ _ h in
            (
              messages m,
              versions _ _ mv,
              wide (extras.0 x),
              versions _ _ xv,
              errors e,
              versions _ _ ev,
            ),
        λ (m, mv, x, xv, e, ev). parts_to a b _ _ m mv (extras.1 (narrow x)) xv e ev,
      )

  -- Where the values that serde_json makes of the messages, of the extras that the profile does not
  -- ignore and of the errors of the two final states are the same just when these are, extras up to
  -- their order, and those of numbers are apart: two runs match just when their final states agree but
  -- for the order of extras and those that the profile ignores, and their events are the same after
  -- normalisation.
  pub compare_replay_runs_with_profile-is_match :
      {E : Type 0} (left right : ReplayRun V E) (profile : StateNormalizeProfile)
      (normalizer : E → Value N)
      → IsFaithful profile left.final_state right.final_state
      → (is_match (compare_replay_runs_with_profile forms left right profile normalizer) ≡ true) ↔ (
          SameUnder profile left.final_state right.final_state
          × (map normalizer left.events ≡ map normalizer right.events))
  unfolding compare_replay_runs_with_profile compare_final_state_with is_match with_differences
  compare_replay_runs_with_profile-is_match left right profile normalizer faithful =
      let (parts, whole) = is_empty-append states events in
      let (equal, no_state) = compare_values-eq _ _ in
      let (under, normal) =
        normalize_state_with-eq left.final_state right.final_state profile faithful in
      let (same, no_event) =
        compare_event_sequences_with-is_match left.events right.events normalizer in
      (
        λ h. let (s, e) = parts h in (under (equal s), same e),
        λ (s, e). whole (no_state (normal s), no_event e),
      )
    where
      states : List (Difference (Value N))
      states =
          (compare_final_state_with forms left.final_state right.final_state profile).differences

      events : List (Difference (Value N))
      events = (compare_event_sequences_with left.events right.events normalizer).differences
