-- ===== src/Worker/Outcome/Laws.antt =====
-- When a success is reported, and that the control plane takes its result.
use task_forge.Base.{
  Text, ℕ, ◌≡◌, ◌⊎◌, subst, inl, inr, refl, arith, Bool, true, false, ◌||◌, ◌&&◌, [], ◌∷◌, Option,
  none, some, leb, ◌==◌, length, if◌then◌else◌, Bool-cases,
}
use task_forge.Lifecycle.{is_empty}
use task_forge.Workers.{Fence, ResultRef}
use task_forge.Workers.Execution.{valid_result}
use task_forge.Worker.Outcome.{
  classify, ResultConfig, Cause, Handled, returned, raised, Finish, Report, success, engine_owned,
  is_user_canceled, is_timed_out, is_lost, handler_failed, object_key, inline_ref, object_ref,
  prepare_result, prepared, reported, conclude,
}

-- Nothing, of a handler that returned no bytes, or a reference that results.Result.Validate accepts.
abbrev pub IsStorable : Text → Option ResultRef → Type 0
IsStorable body none = length body ≡ 0
IsStorable body (some r) = (valid_result r ≡ true) × (r.size_bytes ≡ length body)

Handled-cases : (x : Handled) → ((body : Text) × (x ≡ returned body)) ⊎ (x ≡ raised)
Handled-cases (returned body) = inl (body, refl)
Handled-cases raised = inr refl

engine_owned-false :
    (c : Cause)
    → is_user_canceled c ≡ false
    → is_timed_out c ≡ false
    → is_lost c ≡ false
    → engine_owned c ≡ false
engine_owned-false Cause.no_cause h h' h'' = refl
engine_owned-false Cause.user_canceled h h' h'' = h
engine_owned-false Cause.timed_out h h' h'' = h'
engine_owned-false Cause.authority_lost h h' h'' = h''
engine_owned-false Cause.interrupted h h' h'' = refl

-- A branch that was not taken.
unless :
    (b : Bool) (x y : Report) (r : Option ResultRef) {C : Type 0}
    → (x ≡ success r → C)
    → (b ≡ false → y ≡ success r → C)
    → (if b then x else y) ≡ success r
    → C
unless true x y r not_this then_so h = not_this h
unless false x y r not_this then_so h = then_so refl h

length-is_empty : (body : Text) → (length body == 0) ≡ false → is_empty body ≡ false
length-is_empty [] h = ground (arith, h)
length-is_empty (c ∷ s) h = refl

key_not_empty :
    (show_id : ℕ → Text) (scope : Text) (f : Fence) → is_empty (object_key show_id scope f) ≡ false
key_not_empty show_id scope f = refl

success_inj :
    (o : Option (Option ResultRef)) (r : Option ResultRef) → reported o ≡ success r → o ≡ some r
success_inj none r h = cc
success_inj (some x) r h = cc

some_inj : (x r : Option ResultRef) → some x ≡ some r → x ≡ r
some_inj x r h = cc

module _ (sha256_hex : Text → Text) (show_id : ℕ → Text)
    (digest_not_empty : (s : Text) → is_empty (sha256_hex s) ≡ false) (config : ResultConfig)
    (bucket_named : is_empty config.bucket ≡ false) where
  prepare_result-IsStorable :
      (f : Fence) (scope body : Text) (uploaded : Bool) (r : Option ResultRef)
      → prepare_result sha256_hex show_id config f scope body uploaded ≡ some r
      → IsStorable body r
  unfolding prepare_result classify valid_result
  prepare_result-IsStorable f scope body uploaded r h = elim (Bool-cases (length body == 0)) [
    | inl empty ↦ ground (arith, empty, h)
    | inr some_bytes ↦ elim (Bool-cases (leb config.inline_threshold (length body))) [
      | inr small ↦
          let same =
            some_inj (some (inline_ref body)) r (rw (prepare_result, some_bytes, small) at h) in
          subst (IsStorable body) same (rw (length-is_empty body some_bytes) refl, refl)
      | inl large ↦ elim (Bool-cases config.objects) [
        | inr missing ↦ ground (arith, rw (some_bytes, large, missing) at h)
        | inl there ↦ elim (Bool-cases uploaded) [
          | inr failed ↦ ground (arith, rw (some_bytes, large, there, failed) at h)
          | inl put ↦
              let same =
                some_inj (some (object_ref sha256_hex show_id config scope f body)) r
                  (rw (some_bytes, large, there, put) at h) in
              subst (IsStorable body) same (rw (bucket_named, digest_not_empty body) refl, refl)
        ]
      ]
    ]
  ]

  -- Where a bucket is configured and digests are not empty, a success is reported only of a handler
  -- that returned, of an attempt that was not canceled by the time of the report, did not time out and
  -- never lost its authority, and with nothing, for a handler that gave no bytes, or with a result of
  -- the size of those bytes that the control plane's validation accepts.
  pub success_is_earned :
      (f : Fence) (scope : Text) (x : Finish) (r : Option ResultRef)
      → conclude sha256_hex show_id config f scope x ≡ success r
      → (body : Text) × (x.handled ≡ returned body)
        × ((x.canceled || x.canceled_later) ≡ false)
        × (engine_owned x.cause ≡ false)
        × ((x.fatal || x.lost) ≡ false)
        × IsStorable body r
  unfolding conclude
  success_is_earned f scope x r h =
      unless x.fatal _ _ r (λ e. cc e)
        (λ alive.
          unless (x.canceled || x.canceled_later || is_user_canceled x.cause) _ _ r (λ e. cc e)
            λ calm.
              unless (is_timed_out x.cause) _ _ r (λ e. cc e)
                λ early.
                  unless (x.lost || is_lost x.cause) _ _ r (λ e. cc e)
                    λ held.
                      unless (x.context_ended && handler_failed x.handled) _ _ r (λ e. cc e)
                        λ _.
                          unless (handler_failed x.handled) _ _ r (λ e. cc e)
                            λ fine last. elim (Handled-cases x.handled) [
                              | inr bad ↦ cc (rw bad at fine)
                              | inl (body, good) ↦
                                  let mine : engine_owned x.cause ≡ false =
                                    engine_owned-false x.cause (ground (arith, calm)) early
                                      (ground (arith, held)) in
                                  let first : (x.canceled || engine_owned x.cause) ≡ false =
                                    ground (arith, calm, mine) in
                                  let ready =
                                    success_inj
                                      (prepared sha256_hex show_id config f scope x x.handled) r
                                      last in
                                  let stored : prepare_result sha256_hex show_id config f scope body
                                        x.uploaded
                                      ≡ some r =
                                    rw (good, first) at ready in
                                  (
                                    body,
                                    good,
                                    ground (arith, calm),
                                    mine,
                                    ground (arith, alive, held),
                                    prepare_result-IsStorable f scope body x.uploaded r stored,
                                  )
                            ])
        h
