-- ===== src/Jobs/Normalize/Laws.antt =====
-- What a stored request is like, and which requests are stored as one.
use task_forge.Base.{
  Text, ℕ, ◌≤◌, ◌≡◌, refl, sym, ◌∙◌, arith, subst, Bool, true, false, ◌||◌, ℤ, pos, negsuc, List,
  [], ◌∷◌, Option, none, some, ltb, text_eq, length, trim_space, ok, guard_ok, refuse_ok,
  or_fail_ok, Bool-cases, inl, inr,
}
use task_forge.Canonical.{has_name}
use task_forge.Canonical.Laws.{Ascends, add_name-Ascends, has_name-add_name, Ascends-unique}
use task_forge.Lifecycle.{matches_token, is_empty}
use task_forge.Jobs.CanonicalJson.{JsonCodec, canonical_json, Value}
use task_forge.Jobs.CanonicalJson.Laws.{Alike, canonical_json-Alike}
use task_forge.Jobs.Submit.{NormalizedRequest}
use task_forge.Jobs.Normalize.{
  SubmitRequest, matches_job_type, bounded_or, tokens, capability_set, normalize_capabilities,
  is_object, parsed_at, normalize,
}

-- What Normalize went through.
record IsNormalized (codec : JsonCodec) (parse_instant : Text → Option ℕ) (r : SubmitRequest)
    (n : NormalizedRequest) : Type 0 where
  queue : n.queue ≡ trim_space r.queue
  queue_form : matches_token n.queue ≡ true
  job_type : n.job_type ≡ trim_space r.job_type
  job_type_form : matches_job_type n.job_type ≡ true
  payload : canonical_json codec r.payload ≡ some n.payload
  object : is_object n.payload ≡ true
  priority : bounded_or 50 0 100 r.priority ≡ some n.priority
  max_attempts : bounded_or 3 1 100 r.max_attempts ≡ some n.max_attempts
  timeout : bounded_or 300 1 86_400 r.timeout_seconds ≡ some n.timeout_seconds
  scheduled_at : parsed_at parse_instant r.scheduled_at ≡ some n.scheduled_at
  capabilities : normalize_capabilities r.required_capabilities ≡ some n.required_capabilities

normalize-IsNormalized :
    (codec : JsonCodec) (parse_instant : Text → Option ℕ) (r : SubmitRequest)
    (n : NormalizedRequest)
    → normalize codec parse_instant r ≡ ok n
    → IsNormalized codec parse_instant r n
unfolding normalize
normalize-IsNormalized codec parse_instant r n h =
    guard_ok (matches_token (trim_space r.queue)) _ _ h λ q h1.
      guard_ok (matches_job_type (trim_space r.job_type)) _ _ h1 λ t h2.
        refuse_ok (is_empty r.payload) _ _ h2 λ _ h3.
          or_fail_ok (canonical_json codec r.payload) _ _ h3 λ payload ep h4.
            guard_ok (is_object payload) _ _ h4 λ o h5.
              or_fail_ok (bounded_or 50 0 100 r.priority) _ _ h5 λ priority e1 h6.
                or_fail_ok (bounded_or 3 1 100 r.max_attempts) _ _ h6 λ attempts e2 h7.
                  or_fail_ok (bounded_or 300 1 86_400 r.timeout_seconds) _ _ h7 λ timeout e3 h8.
                    or_fail_ok (parsed_at parse_instant r.scheduled_at) _ _ h8 λ at e4 h9.
                      or_fail_ok (normalize_capabilities r.required_capabilities) _ _ h9
                        λ cs e5 last.
                          let made : NormalizedRequest = record {
                            queue = trim_space r.queue;
                            job_type = trim_space r.job_type;
                            payload = payload;
                            priority = priority;
                            max_attempts = attempts;
                            timeout_seconds = timeout;
                            required_capabilities = cs;
                            scheduled_at = at;
                          } in
                          let same : made ≡ n = ground (arith, last) in
                          subst (IsNormalized codec parse_instant r) same (record {
                            queue = refl;
                            queue_form = q;
                            job_type = refl;
                            job_type_form = t;
                            payload = ep;
                            object = o;
                            priority = e1;
                            max_attempts = e2;
                            timeout = e3;
                            scheduled_at = e4;
                            capabilities = e5;
                          })

bounded_or-range :
    (default low high : ℕ) (z : Option ℤ) (n : ℕ)
    → low ≤ default
    → default ≤ high
    → bounded_or default low high z ≡ some n
    → (low ≤ n) × (n ≤ high)
bounded_or-range default low high none n h h' e = ground (arith, h, h', e)
bounded_or-range default low high (some (pos k)) n h h' e = ground (arith, e)
bounded_or-range default low high (some (negsuc k)) n h h' e = cc

capability_set-Ascends : (cs : List Text) → Ascends (capability_set cs)
unfolding capability_set
capability_set-Ascends [] = tt
capability_set-Ascends (c ∷ cs) =
    add_name-Ascends (trim_space c) (capability_set cs) (capability_set-Ascends cs)

-- A capability is among the requested ones.
abbrev pub asks_for : Text → List Text → Bool
asks_for u [] = false
asks_for u (c ∷ cs) = text_eq (trim_space c) u || asks_for u cs

has_name-capability_set :
    (u : Text) (cs : List Text) → has_name u (capability_set cs) ≡ asks_for u cs
unfolding capability_set has_name
has_name-capability_set u [] = refl
has_name-capability_set u (c ∷ cs) =
    rw
      (
        capability_set,
        has_name-add_name u (trim_space c) (capability_set cs),
        has_name-capability_set u cs,
      )
      refl

normalize_capabilities-some :
    (cs out : List Text) → normalize_capabilities cs ≡ some out → out ≡ capability_set cs
unfolding normalize_capabilities
normalize_capabilities-some cs out h = elim (Bool-cases (ltb 16 (length cs))) [
  | inl many ↦ ground (arith, rw many at h)
  | inr few ↦ elim (Bool-cases (tokens cs)) [
    | inl good ↦ ground (arith, rw (few, good) at h)
    | inr bad ↦ ground (arith, rw (few, bad) at h)
  ]
]

-- A request that is accepted is stored with a queue and a type of their forms, an object as its
-- payload, a priority of at most 100, 1 to 100 attempts, 1 to 86400 seconds, and capabilities that
-- ascend, so that none is there twice.
pub normalize-bounds :
    (codec : JsonCodec) (parse_instant : Text → Option ℕ) (r : SubmitRequest)
    (n : NormalizedRequest)
    → normalize codec parse_instant r ≡ ok n
    → (matches_token n.queue ≡ true)
      × (matches_job_type n.job_type ≡ true)
      × (is_object n.payload ≡ true)
      × (n.priority ≤ 100)
      × (1 ≤ n.max_attempts)
      × (n.max_attempts ≤ 100)
      × (1 ≤ n.timeout_seconds)
      × (n.timeout_seconds ≤ 86_400)
      × Ascends n.required_capabilities
normalize-bounds codec parse_instant r n h =
    let k = normalize-IsNormalized codec parse_instant r n h in
    let a =
      bounded_or-range 3 1 100 r.max_attempts n.max_attempts (omega arith) (omega arith)
        k.max_attempts in
    let t =
      bounded_or-range 300 1 86_400 r.timeout_seconds n.timeout_seconds (omega arith) (omega arith)
        k.timeout in
    let p =
      bounded_or-range 50 0 100 r.priority n.priority (omega arith) (omega arith) k.priority in
    let set =
      normalize_capabilities-some r.required_capabilities n.required_capabilities k.capabilities in
    (
      k.queue_form,
      k.job_type_form,
      k.object,
      p.1,
      a.0,
      a.1,
      t.0,
      t.1,
      subst Ascends (sym set) (capability_set-Ascends r.required_capabilities),
    )

-- Two requests for the same queue, type, numbers and time, that are both accepted, whose payloads
-- differ in the order of members only, and which ask for the same capabilities in any order and
-- with any repetitions, are stored as one request.
pub normalize-same :
    (codec : JsonCodec) (parse_instant : Text → Option ℕ) (r s : SubmitRequest)
    (m n : NormalizedRequest) (v w : Value)
    → normalize codec parse_instant r ≡ ok m
    → normalize codec parse_instant s ≡ ok n
    → trim_space r.queue ≡ trim_space s.queue
    → trim_space r.job_type ≡ trim_space s.job_type
    → r.priority ≡ s.priority
    → r.max_attempts ≡ s.max_attempts
    → r.timeout_seconds ≡ s.timeout_seconds
    → r.scheduled_at ≡ s.scheduled_at
    → codec.decode r.payload ≡ some (v, false)
    → codec.decode s.payload ≡ some (w, false)
    → Alike v w
    → ((u : Text) → asks_for u r.required_capabilities ≡ asks_for u s.required_capabilities)
    → m ≡ n
normalize-same codec parse_instant r s m n v w hm hn eq et ep ea es ei dr ds alike asks =
    let a = normalize-IsNormalized codec parse_instant r m hm in
    let b = normalize-IsNormalized codec parse_instant s n hn in
    let cr = r.required_capabilities in
    let cs = s.required_capabilities in
    let sets : capability_set cr ≡ capability_set cs =
      Ascends-unique (capability_set cr) (capability_set cs) (capability_set-Ascends cr)
        (capability_set-Ascends cs)
        λ u. has_name-capability_set u cr ∙ asks u ∙ sym (has_name-capability_set u cs) in
    let forms = canonical_json-Alike codec r.payload s.payload v w dr ds alike in
    let e1 : m.queue ≡ n.queue = a.queue ∙ eq ∙ sym b.queue in
    let e2 : m.job_type ≡ n.job_type = a.job_type ∙ et ∙ sym b.job_type in
    let e3 : m.payload ≡ n.payload = ground (arith, a.payload, b.payload, forms) in
    let e4 : m.priority ≡ n.priority = ground (arith, a.priority, b.priority, ep) in
    let e5 : m.max_attempts ≡ n.max_attempts = ground (arith, a.max_attempts, b.max_attempts, ea) in
    let e6 : m.timeout_seconds ≡ n.timeout_seconds = ground (arith, a.timeout, b.timeout, es) in
    let e7 : m.required_capabilities ≡ n.required_capabilities =
      normalize_capabilities-some cr m.required_capabilities a.capabilities
      ∙ sets
      ∙ sym (normalize_capabilities-some cs n.required_capabilities b.capabilities) in
    let e8 : m.scheduled_at ≡ n.scheduled_at = ground (arith, a.scheduled_at, b.scheduled_at, ei) in
    cc
