-- ===== src/Guardrails/Webhook.antt =====
-- The webhook signature of backend/src/postmortem_backend/guardrails/validation.py. The digest
-- `hmac.new(secret, body, sha256).hexdigest()` is a parameter; texts and bodies are code points
-- and bytes.
use ckdb_aws.Base.{
  Bool, List, Option, Result, [], ap, arith, err, false, guard, if◌then◌else◌, ltb, nat_eq, none,
  not, ok, refl, required, some, string_eq, subst, true, ℕ, ◌&&◌, ◌++◌, ◌==◌, ◌>>=◌, ◌>>◌, ◌↔◌, ◌∷◌,
  ◌≡◌, ◌≢◌,
}
use ckdb_aws.Domain.{
  Error, Text, text, text_beq, text_beq_iff, text_eq, type_error, webhook_authentication_error,
}
use ckdb_aws.Guardrails.Unicode.{Unicode, strip, strip_prefix}

abbrev pub Digest : Type 0
Digest = Text → List ℕ → Text

-- `text.split("=", 1)[1]`
unfoldable pub after_equals : Text → Text
after_equals [] = []
after_equals (c ∷ s) = if c == b'=' then s else after_equals s

unfoldable pub compute_hmac_signature : Digest → Text → List ℕ → Text
compute_hmac_signature digest secret body = text "sha256=" ++ digest secret body

unfoldable pub is_ascii : Text → Bool
is_ascii [] = true
is_ascii (c ∷ s) = ltb c 128 && is_ascii s

-- `hmac.compare_digest` of two texts: a `TypeError` unless both are ASCII.
unfoldable pub compare_digest : Text → Text → Result Error Bool
unfolding is_ascii text_beq
compare_digest a b = if is_ascii a && is_ascii b then ok (a == b) else err type_error

-- The first prefix that the candidate carries, in any case, is taken off. Both have seven
-- characters.
abbrev drop_seven : Text → Text
drop_seven (a ∷ b ∷ c ∷ d ∷ e ∷ f ∷ g ∷ s) = s
drop_seven _ = []

unfoldable pub strip_signature_prefix : Unicode → Text → Text
unfolding strip_prefix
strip_signature_prefix u candidate = elim (strip_prefix (text "sha256=") (u.lower candidate)) [
  | some _ ↦ drop_seven candidate
  | none ↦ elim (strip_prefix (text "sha256:") (u.lower candidate)) [
    | some _ ↦ drop_seven candidate
    | none ↦ candidate
  ]
]

-- `if not text`
abbrev pub is_blank : Text → Bool
is_blank [] = true
is_blank (c ∷ s) = false

unfoldable pub verify_hmac_signature :
    Unicode
    → Digest
    → (secret : Text) → (body : List ℕ) → (provided : Option Text) → Result Error (Unit {0})
unfolding after_equals compute_hmac_signature compare_digest strip_signature_prefix
verify_hmac_signature u digest secret body provided = do
  guard (not (is_blank secret)) webhook_authentication_error
  given ← required provided webhook_authentication_error
  guard (not (is_blank given)) webhook_authentication_error
  same ←
      compare_digest (after_equals (compute_hmac_signature digest secret body))
        (strip_signature_prefix u (strip given))
  guard same webhook_authentication_error

-- `WebhookAuthenticator`: `secret or ""`, `configured` and `authenticate`.
pub record WebhookAuthenticator : Type 0 where
  pub secret : Text

unfoldable pub authenticator : Option Text → WebhookAuthenticator
authenticator none = record { secret = [] }
authenticator (some s) = record { secret = s }

unfoldable pub configured : WebhookAuthenticator → Bool
configured a = not (is_blank a.secret)

unfoldable pub authenticate :
    Unicode → Digest → WebhookAuthenticator → List ℕ → Option Text → Result Error (Unit {0})
authenticate u digest a body signature = verify_hmac_signature u digest a.secret body signature

signature_digest :
    (digest : Digest) (secret : Text) (body : List ℕ)
    → after_equals (compute_hmac_signature digest secret body) ≡ digest secret body
unfolding after_equals compute_hmac_signature
signature_digest digest secret body = refl

compare_digest_iff :
    (a b : Text)
    → ((compare_digest a b >>= λ same. guard same webhook_authentication_error) ≡ ok tt)
      ↔ ((b ≡ a) × (is_ascii a ≡ true))
unfolding compare_digest
compare_digest_iff a b = (accepted, compared)
  where
    accepted :
        (compare_digest a b >>= λ same. guard same webhook_authentication_error) ≡ ok tt
        → (b ≡ a) × (is_ascii a ≡ true)
    accepted h = ground (arith, text_beq_iff a b)

    compared :
        (b ≡ a) × (is_ascii a ≡ true)
        → (compare_digest a b >>= λ same. guard same webhook_authentication_error) ≡ ok tt
    compared (e, p) = ground (arith, text_beq_iff a b, ap is_ascii e)

verify_given :
    (u : Unicode) (digest : Digest) (secret : Text) (body : List ℕ) (given : Text)
    → (verify_hmac_signature u digest secret body (some given) ≡ ok tt) ↔ (
        (not (is_blank secret) ≡ true)
        × (is_blank given ≡ false)
        × (strip_signature_prefix u (strip given) ≡ digest secret body)
        × (is_ascii (digest secret body) ≡ true))
unfolding verify_hmac_signature
verify_given u digest [] body given = (λ h. absurd (ground arith), λ (h, _, _, _). cc)
verify_given u digest (c ∷ s) body [] = (λ h. absurd (ground arith), λ (_, h, _, _). cc)
verify_given u digest (c ∷ s) body (d ∷ t) =
    let compared =
      compare_digest_iff (digest (c ∷ s) body) (strip_signature_prefix u (strip (d ∷ t))) in
    (λ h. let (e, p) = compared.0 h in (refl, refl, e, p), λ (_, _, e, p). compared.1 (e, p))

verify_missing :
    (u : Unicode) (digest : Digest) (secret : Text) (body : List ℕ)
    → verify_hmac_signature u digest secret body none ≢ ok tt
unfolding verify_hmac_signature
verify_missing u digest [] body h = cc
verify_missing u digest (c ∷ s) body h = cc

-- A body is accepted exactly when a secret is configured, a signature is given, and the given
-- one, without its surrounding space and its prefix, is the ASCII digest of the body.
pub authenticate_iff :
    (u : Unicode) (digest : Digest) (a : WebhookAuthenticator) (body : List ℕ)
    (signature : Option Text)
    → (authenticate u digest a body signature ≡ ok tt) ↔ (
        (configured a ≡ true)
        × (given : Text) × (signature ≡ some given)
        × (is_blank given ≡ false)
        × (strip_signature_prefix u (strip given) ≡ digest a.secret body)
        × (is_ascii (digest a.secret body) ≡ true))
unfolding authenticate configured
authenticate_iff u digest a body none = (
  λ h. absurd (verify_missing u digest a.secret body h),
  λ (_, _, e, _, _, _). absurd (ground arith),
)
authenticate_iff u digest a body (some given) = (
  λ h.
      let (c, n, e, p) = (verify_given u digest a.secret body given).0 h in
      (c, given, refl, n, e, p),
  λ (c, g, e, n, q, p).
      let same : g ≡ given = cc e in
      (verify_given u digest a.secret body given).1 (
        c,
        subst (λ t. is_blank t ≡ false) same n,
        subst (λ t. strip_signature_prefix u (strip t) ≡ digest a.secret body) same q,
        p,
      ),
)
