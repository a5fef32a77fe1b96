-- ===== src/Jobs/Fingerprint/Laws.antt =====
-- What is hashed names the request: two requests with the same bytes are the same.
use task_forge.Base.{
  Text, ℕ, ◌/◌, ◌%◌, ◌<◌, ◌≡◌, refl, ◌∙◌, arith, ap, List, [], ◌∷◌, ◌++◌, Option, none, some,
  length,
}
use task_forge.Jobs.Submit.{NormalizedRequest}
use task_forge.Jobs.Fingerprint.{put_uint64, framed, scheduled_parts, parts, hashed}

abbrev pub two_64 : ℕ
two_64 = 18_446_744_073_709_551_616

-- Go's lengths fit in 64 bits.
abbrev pub AllShort : List Text → Type 0
AllShort [] = Unit
AllShort (b ∷ bs) = (length b < two_64) × AllShort bs

put_uint64_inj :
    (n m : ℕ) (s t : Text)
    → n < two_64
    → m < two_64
    → put_uint64 n ++ s ≡ put_uint64 m ++ t
    → (n ≡ m) × (s ≡ t)
unfolding put_uint64
put_uint64_inj n m s t small small' h =
    let b0 : n / 72_057_594_037_927_936 % 256 ≡ m / 72_057_594_037_927_936 % 256 = cc h in
    let b1 : n / 281_474_976_710_656 % 256 ≡ m / 281_474_976_710_656 % 256 = cc h in
    let b2 : n / 1_099_511_627_776 % 256 ≡ m / 1_099_511_627_776 % 256 = cc h in
    let b3 : n / 4_294_967_296 % 256 ≡ m / 4_294_967_296 % 256 = cc h in
    let b4 : n / 16_777_216 % 256 ≡ m / 16_777_216 % 256 = cc h in
    let b5 : n / 65_536 % 256 ≡ m / 65_536 % 256 = cc h in
    let b6 : n / 256 % 256 ≡ m / 256 % 256 = cc h in
    let b7 : n % 256 ≡ m % 256 = cc h in
    let q0 : n / 72_057_594_037_927_936 ≡ m / 72_057_594_037_927_936 =
      omega (arith, b0, small, small') in
    let q1 : n / 281_474_976_710_656 ≡ m / 281_474_976_710_656 = omega (arith, q0, b1) in
    let q2 : n / 1_099_511_627_776 ≡ m / 1_099_511_627_776 = omega (arith, q1, b2) in
    let q3 : n / 4_294_967_296 ≡ m / 4_294_967_296 = omega (arith, q2, b3) in
    let q4 : n / 16_777_216 ≡ m / 16_777_216 = omega (arith, q3, b4) in
    let q5 : n / 65_536 ≡ m / 65_536 = omega (arith, q4, b5) in
    let q6 : n / 256 ≡ m / 256 = omega (arith, q5, b6) in (omega (arith, q6, b7), cc h)

append_inj : (a b s t : Text) → length a ≡ length b → a ++ s ≡ b ++ t → (a ≡ b) × (s ≡ t)
append_inj [] [] s t size h = (refl, h)
append_inj [] (y ∷ b) s t size h = ground (arith, size)
append_inj (x ∷ a) [] s t size h = ground (arith, size)
append_inj (x ∷ a) (y ∷ b) s t size h =
    let (e, f) = append_inj a b s t (omega (arith, size)) (ground (arith, h)) in
    (ground (arith, h, e), f)

framed_inj : (xs ys : List Text) → AllShort xs → AllShort ys → framed xs ≡ framed ys → xs ≡ ys
unfolding framed put_uint64
framed_inj [] [] k k' h = refl
framed_inj [] (y ∷ ys) k k' h = cc h
framed_inj (x ∷ xs) [] k k' h = cc h
framed_inj (x ∷ xs) (y ∷ ys) k k' h =
    let (size, rest) =
      put_uint64_inj (length x) (length y) (x ++ framed xs) (y ++ framed ys) k.0 k'.0 h in
    let (e, f) = append_inj x y (framed xs) (framed ys) size rest in
    ap (λ z. z ∷ xs) e ∙ ap (λ zs. y ∷ zs) (framed_inj xs ys k.1 k'.1 f)

-- Lists of one length before what follows them.
split_inj :
    (cs ds s t : List Text) → length cs ≡ length ds → cs ++ s ≡ ds ++ t → (cs ≡ ds) × (s ≡ t)
split_inj [] [] s t size h = (refl, h)
split_inj [] (y ∷ ds) s t size h = ground (arith, size)
split_inj (x ∷ cs) [] s t size h = ground (arith, size)
split_inj (x ∷ cs) (y ∷ ds) s t size h =
    let (e, f) = split_inj cs ds s t (omega (arith, size)) (cc h) in
    let first : x ≡ y = cc h in (ap (λ z. z ∷ cs) first ∙ ap (λ zs. y ∷ zs) e, f)

module _ (itoa stamp : ℕ → Text) (itoa_inj : (a b : ℕ) → itoa a ≡ itoa b → a ≡ b)
    (stamp_inj : (a b : ℕ) → stamp a ≡ stamp b → a ≡ b) where
  scheduled_inj :
      (s t : Option ℕ) → scheduled_parts itoa stamp s ≡ scheduled_parts itoa stamp t → s ≡ t
  scheduled_inj none none h = refl
  scheduled_inj none (some b) h = cc h
  scheduled_inj (some a) none h = cc h
  scheduled_inj (some a) (some b) h =
      let same : stamp a ≡ stamp b = cc h in ap (λ x. some x) (stamp_inj a b same)

  -- Where numbers and instants are written differently if they differ, and no part is as long as
  -- 2^64 bytes, two requests are hashed from the same bytes only if they are the same request.
  pub hashed_inj :
      (m n : NormalizedRequest)
      → AllShort (parts itoa stamp m)
      → AllShort (parts itoa stamp n)
      → hashed itoa stamp m ≡ hashed itoa stamp n
      → m ≡ n
  unfolding hashed parts
  hashed_inj m n short short' h =
      let same = framed_inj (parts itoa stamp m) (parts itoa stamp n) short short' h in
      let e1 : m.queue ≡ n.queue = cc same in
      let e2 : m.job_type ≡ n.job_type = cc same in
      let e3 : m.payload ≡ n.payload = cc same in
      let p : itoa m.priority ≡ itoa n.priority = cc same in
      let a : itoa m.max_attempts ≡ itoa n.max_attempts = cc same in
      let t : itoa m.timeout_seconds ≡ itoa n.timeout_seconds = cc same in
      let c : itoa (length m.required_capabilities) ≡ itoa (length n.required_capabilities) =
        cc same in
      let rest : m.required_capabilities ++ scheduled_parts itoa stamp m.scheduled_at
          ≡ n.required_capabilities ++ scheduled_parts itoa stamp n.scheduled_at =
        cc same in
      let (e7, tail) =
        split_inj m.required_capabilities n.required_capabilities
          (scheduled_parts itoa stamp m.scheduled_at) (scheduled_parts itoa stamp n.scheduled_at)
          (itoa_inj (length m.required_capabilities) (length n.required_capabilities) c) rest in
      let e8 = scheduled_inj m.scheduled_at n.scheduled_at tail in
      let e4 = itoa_inj m.priority n.priority p in
      let e5 = itoa_inj m.max_attempts n.max_attempts a in
      let e6 = itoa_inj m.timeout_seconds n.timeout_seconds t in cc (e1, e2, e3, e4, e5, e6, e7, e8)
