-- ===== src/Bootstrap/Tokens.antt =====
-- The laws of the API server, and the token of a secret that is resolved.
use aks_flex.Common.{
  ℕ, zero, suc, ◌+◌, ◌≡◌, refl, sym, ap, inl, inr, true, Option, none, some, List, [], ◌∷◌, String,
  Result, ok, err, length, length-append, get_elem?, ◌==◌, string_eq, nat_eq, Result-cases,
  Bool-cases, err≢ok, ok_unique, >>=-eq-ok, arith,
}
use aks_flex.Common.Assoc.{lookup}
use aks_flex.Bootstrap.{
  Bytes, Secret, Api, label, token_secret, secret_name, random_letters, random_string, secret_for,
}

-- What server-side apply leaves of an applied secret: at least its labels and its data.
pub record Keeps (given kept : Secret) : Type 0 where
  pub labels : (k v : String) → lookup k given.labels ≡ some v → lookup k kept.labels ≡ some v
  pub contents :
      (k : String) (v : Bytes)
      → lookup k given.secret_data ≡ some v
      → lookup k kept.secret_data ≡ some v

-- `find` is the secret of a name. A list has every secret with the label.
pub record ApiLaws {E Text W : Type 0} (a : Api E Text W) : Type 0 where
  pub find : Bytes → W → Option Secret
  pub get_found :
      (name : Bytes) (w : W) (s : Secret) → (a.get_secret name w).0 ≡ ok s → find name w ≡ some s
  pub get_missing :
      (name : Bytes) (w : W) (e : E)
      → (a.get_secret name w).0 ≡ err e
      → a.is_not_found e ≡ true
      → find name w ≡ none
  pub list_all :
      (w : W) (found : List Secret) (name : Bytes) (s : Secret)
      → (a.list_secrets label w).0 ≡ ok found
      → find name w ≡ some s
      → lookup label s.labels ≡ some "true"
      → (i : ℕ) × (get_elem? found i ≡ some s)

-- A world has a secret that keeps the labels and the data of the token's.
abbrev pub Has : {E Text W : Type 0} {a : Api E Text W} → ApiLaws a → Bytes → Bytes → W → Type 0
Has laws id value w =
    (kept : Secret) × (laws.find (secret_name id) w ≡ some kept)
    × Keeps (token_secret id value) kept

module _ {E Text W : Type 0} (a : Api E Text W) where
  pub length-random_letters :
      (n : ℕ) (b : Bytes) (w : W) (v : Bytes)
      → (random_letters a n b w).0 ≡ ok v
      → length v ≡ length b + n
  unfolding random_letters
  length-random_letters zero b w v h =
      let same : b ≡ v = ok_unique refl h in omega (arith, ap length same)
  length-random_letters (suc n) b w v h = elim (Result-cases (a.random_below 36 w).0) [
    | inr (e, q) ↦ absurd (err≢ok (rw (q, random_letters) at h))
    | inl (i, q) ↦ omega (
      arith,
      length-random_letters n _ _ v (rw (q, random_letters) at h),
      length-append {0} b (_ ∷ []),
    )
  ]

  -- A secret that BootstrapTokenSecret returns has a token of 16 bytes.
  pub secret_for-Token :
      (id : Bytes) (r : Result E Bytes) (w : W) (s : Secret)
      → (secret_for a id (r, w)).0 ≡ ok s
      → (value : Bytes) × (length value ≡ 16) × (s ≡ token_secret id value)
  unfolding secret_for random_string
  secret_for-Token id (err e) w s h = absurd (err≢ok h)
  secret_for-Token id (ok value) w s h = elim (Bool-cases (length value == 16)) [
    | inl q ↦ (value, (nat_eq.same_iff (length value) 16).0 q, sym (ok_unique refl (rw q at h)))
    | inr q ↦
        let (drawn, k, last) =
          >>=-eq-ok (random_letters a 16 [] w).0 (λ v. ok (token_secret id v)) (rw q at h) in
        (drawn, length-random_letters 16 [] w drawn k, sym (ok_unique refl last))
  ]

  -- It keeps the value of 16 bytes that it has found.
  pub secret_for-kept :
      (id value : Bytes) (w : W)
      → length value ≡ 16
      → (secret_for a id (ok value, w)).0 ≡ ok (token_secret id value)
  unfolding secret_for
  secret_for-kept id value w h = let q = (nat_eq.same_iff (length value) 16).1 h in rw q refl
