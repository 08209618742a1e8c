-- ===== src/Relay/GuardLaws.antt =====
-- auth.ts: whom the guard lets through.
use zkvote.Prelude.{
  same_text, same_text_refl, same_text_eq, same_text-length, ℕ, ◌+◌, ◌≡◌, refl, sym, ap, ◌∙◌, ◌⊎◌,
  ◌↔◌, inl, inr, Bool, false, not, Option, none, some, List, ◌++◌, Result, ok, ◌==◌, arith,
  if◌then◌else◌, if_true, if_false, Bool-cases, length, take, replicate, length-take, length-append,
  length-replicate,
}
use zkvote.Hex.{Text}
use zkvote.Relay.{Config}
use zkvote.Relay.Guards.{
  next, answer, Headers, truthy, extract_auth_token, safe_compare, ignored, compared, auth_check,
  auth_guard,
}

-- What Node documents of `crypto.timingSafeEqual`.
pub record IsTimingSafe (timing_safe_equal : List ℕ → List ℕ → Result Bool) : Type 0 where
  pub compares : (x y : List ℕ) → length x ≡ length y → timing_safe_equal x y ≡ ok (same_text x y)

length-padded : (n : ℕ) (y : List ℕ) → length (take n (y ++ replicate n 0)) ≡ n
length-padded n y =
    let e : length (y ++ replicate n 0) ≡ length y + n =
      length-append y (replicate n 0) ∙ ap (λ k. length y + k) (length-replicate n 0) in
    omega (arith, length-take n (y ++ replicate n 0), e)

same_text_differ : (x y : List ℕ) → (length x == length y) ≡ false → same_text x y ≡ false
same_text_differ x y h = elim (Bool-cases (same_text x y)) [
  | inl e ↦ let l : length x ≡ length y = same_text-length x y e in absurd (ground arith)
  | inr e ↦ e
]

-- A request that `authGuard` lets through.
pub record IsAuthorised (buffer_from : Text → List ℕ) (config : Config) (headers : Headers)
    : Type 0 where
  pub token : Text
  pub expected : Text
  pub given : truthy (extract_auth_token headers) ≡ some token
  pub configured : truthy config.relayer_auth_token ≡ some expected
  pub same : buffer_from token ≡ buffer_from expected

module _ (buffer_from : Text → List ℕ) (timing_safe_equal : List ℕ → List ℕ → Result Bool)
    (node : IsTimingSafe timing_safe_equal) where
  compare_buffers :
      (x y : List ℕ)
      → (if not (length x == length y)
          then ignored buffer_from timing_safe_equal
              (timing_safe_equal x (take (length x) (y ++ replicate (length x) 0)))
          else timing_safe_equal x y)
        ≡ ok (same_text x y)
  compare_buffers x y = elim (Bool-cases (length x == length y)) [
    | inl e ↦
        if_false (not (length x == length y)) _ _ (ground (arith, e))
        ∙ node.compares x y (ground (arith, e))
    | inr e ↦
        if_true (not (length x == length y)) _ _ (ground (arith, e))
        ∙ ap (ignored buffer_from timing_safe_equal) (
            node.compares x (take (length x) (y ++ replicate (length x) 0))
              (sym (length-padded (length x) y)))
        ∙ ap ok (sym (same_text_differ x y e))
  ]

  safe_compare_lem :
      (a b : Text)
      → safe_compare buffer_from timing_safe_equal a b
        ≡ ok (same_text (buffer_from a) (buffer_from b))
  unfolding safe_compare
  safe_compare_lem a b = compare_buffers (buffer_from a) (buffer_from b)

  auth_check_total :
      (t e : Option Text)
      → (auth_check buffer_from timing_safe_equal t e ≡ next)
        ⊎ (auth_check buffer_from timing_safe_equal t e ≡ answer 401 "Unauthorized")
  unfolding auth_check
  auth_check_total none e = inr refl
  auth_check_total (some t) none = inr refl
  auth_check_total (some t) (some e) =
      elim (Bool-cases (same_text (buffer_from t) (buffer_from e))) [
        | inl h ↦ inl (rw (safe_compare_lem t e) (rw h refl))
        | inr h ↦ inr (rw (safe_compare_lem t e) (rw h refl))
      ]

  auth_check_passes :
      (config : Config) (headers : Headers) (t e : Option Text)
      → truthy (extract_auth_token headers) ≡ t
      → truthy config.relayer_auth_token ≡ e
      → auth_check buffer_from timing_safe_equal t e ≡ next
      → IsAuthorised buffer_from config headers
  unfolding auth_check
  auth_check_passes config headers none e given configured h = absurd (ground arith)
  auth_check_passes config headers (some t) none given configured h = absurd (ground arith)
  auth_check_passes config headers (some t) (some e) given configured h =
      elim (Bool-cases (same_text (buffer_from t) (buffer_from e))) [
        | inl k ↦ record {
          token = t;
          expected = e;
          given = given;
          configured = configured;
          same = same_text_eq (buffer_from t) (buffer_from e) k;
        }
        | inr k ↦
            let refused : answer 401 "Unauthorized" ≡ next =
              sym (ap (compared buffer_from timing_safe_equal) (safe_compare_lem t e ∙ ap ok k))
              ∙ h in
            absurd (ground arith)
      ]

  authorised_passes :
      (config : Config) (headers : Headers)
      → IsAuthorised buffer_from config headers
      → auth_check buffer_from timing_safe_equal
          (truthy (extract_auth_token headers))
          (truthy config.relayer_auth_token)
        ≡ next
  unfolding auth_check
  authorised_passes config headers a = rw a.given (
      rw a.configured (
        rw (safe_compare_lem a.token a.expected)
          (rw a.same (rw (same_text_refl (buffer_from a.expected)) refl))))

  -- The guard never throws: it lets the request through, or answers 401. It lets it through exactly if
  -- the request carries a nonempty token, the configuration has a nonempty one, and their bytes agree.
  pub auth_guard_passes :
      (config : Config) (headers : Headers)
      → ((auth_guard buffer_from timing_safe_equal config headers ≡ next)
          ⊎ (auth_guard buffer_from timing_safe_equal config headers ≡ answer 401 "Unauthorized"))
        × ((auth_guard buffer_from timing_safe_equal config headers ≡ next)
            ↔ IsAuthorised buffer_from config headers)
  unfolding auth_guard
  auth_guard_passes config headers = (
    auth_check_total (truthy (extract_auth_token headers)) (truthy config.relayer_auth_token),
    (
      (λ h. auth_check_passes config headers _ _ refl refl h),
      (λ a. authorised_passes config headers a),
    ),
  )
