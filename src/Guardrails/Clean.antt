-- ===== src/Guardrails/Clean.antt =====
-- What the screening of backend/src/postmortem_backend/guardrails/injection.py guarantees.
use ckdb_aws.Base.{
  >>=-eq-ok, All, All-append, All-select, Bool, Bool-cases, List, [], arith, err, false, inl, inr,
  length, not, ok, ok-injective, select, subst, ℕ, ◌++◌, ◌∷◌, ◌≡◌, ◌≤◌,
}
use ckdb_aws.Domain.{
  Error, Fields, Items, Text, Value, bool, datetime, dict, end, field, float, int, item, list, nil,
  null, prompt_injection_detected, str, tuple, uuid,
}
use ckdb_aws.Guardrails.Injection.{
  guard_text, is_control, max_untrusted_field_chars, normalize_untrusted_text, scan_fields,
  scan_items, scan_untrusted_value, screen, scrub_control_characters,
}
use ckdb_aws.Guardrails.Patterns.{contains_tool_call_injection}
use ckdb_aws.Guardrails.Unicode.{Unicode}

-- A text that may reach the reasoner.
pub record IsClean (u : Unicode) (t : Text) : Type 0 where
  pub bounded : length t ≤ max_untrusted_field_chars
  pub harmless : contains_tool_call_injection u t ≡ false
  pub visible : All (λ c. (is_control c ≡ false) × (u.is_format c ≡ false)) t

select-All : (P : ℕ → Type 0) (test : ℕ → Bool) (xs : Text) → All P xs → All P (select test xs)
select-All P test [] h = tt
select-All P test (x ∷ xs) h = elim (Bool-cases (test x)) [
  | inl e ↦ rw e (h.0, select-All P test xs h.1)
  | inr e ↦ rw e (select-All P test xs h.1)
]

All-both : (P Q : ℕ → Type 0) (xs : Text) → All P xs → All Q xs → All (λ x. P x × Q x) xs
All-both P Q [] h k = tt
All-both P Q (x ∷ xs) h k = ((h.0, k.0), All-both P Q xs h.1 k.1)

scrub-visible :
    (u : Unicode) (t : Text)
    → All (λ c. (is_control c ≡ false) × (u.is_format c ≡ false)) (scrub_control_characters u t)
unfolding scrub_control_characters normalize_untrusted_text
scrub-visible u t =
    let shown : Text = select (λ c. not (u.is_format c)) (u.nfkc t) in
    All-both (λ c. is_control c ≡ false) (λ c. u.is_format c ≡ false)
      (select (λ c. not (is_control c)) shown)
      (All-select (λ c. is_control c ≡ false) (λ c. not (is_control c)) shown (λ c e. ground arith))
      (select-All (λ c. u.is_format c ≡ false) (λ c. not (is_control c)) shown
        (All-select (λ c. u.is_format c ≡ false) (λ c. not (u.is_format c)) (u.nfkc t)
          (λ c e. ground arith)))

screen_ok :
    (u : Unicode) (s c : Text)
    → screen u s ≡ ok c
    → (c ≡ s) × (length c ≤ max_untrusted_field_chars) × (contains_tool_call_injection u c ≡ false)
unfolding screen
screen_ok u s c h = ground arith

screen_error :
    (u : Unicode) (s : Text) (e : Error) → screen u s ≡ err e → e ≡ prompt_injection_detected
unfolding screen
screen_error u s e h = ground arith

-- A text that is let through is the scrubbed one, and it is clean.
pub guard_text_ok :
    (u : Unicode) (t c : Text)
    → guard_text u t ≡ ok c
    → (c ≡ scrub_control_characters u t) × IsClean u c
unfolding guard_text
guard_text_ok u t c h =
    let (same, short, harmless) = screen_ok u (scrub_control_characters u t) c h in
    (same, record { bounded = short; harmless = harmless; visible = rw same (scrub-visible u t) })

pub guard_text_error :
    (u : Unicode) (t : Text) (e : Error) → guard_text u t ≡ err e → e ≡ prompt_injection_detected
unfolding guard_text
guard_text_error u t e h = screen_error u (scrub_control_characters u t) e h

-- The texts of a value. The keys of its dictionaries are not among them.
mutual
  pub texts : Value → List Text
  texts null = []
  texts (bool b) = []
  texts (int n) = []
  texts (float x) = []
  texts (str t) = t ∷ []
  texts (uuid i) = []
  texts (datetime d) = []
  texts (tuple xs) = texts_items xs
  texts (list xs) = texts_items xs
  texts (dict d) = texts_fields d

  pub texts_items : Items → List Text
  texts_items nil = []
  texts_items (item v xs) = texts v ++ texts_items xs

  pub texts_fields : Fields → List Text
  texts_fields end = []
  texts_fields (field k v d) = texts v ++ texts_fields d

mutual
  unfolding scan_untrusted_value texts

  pub scan-Clean :
      (u : Unicode) (v w : Value) → scan_untrusted_value u v ≡ ok w → All (IsClean u) (texts w)
  scan-Clean u null w h = subst (λ w. All (IsClean u) (texts w)) (ok-injective h) tt
  scan-Clean u (bool b) w h = subst (λ w. All (IsClean u) (texts w)) (ok-injective h) tt
  scan-Clean u (int n) w h = subst (λ w. All (IsClean u) (texts w)) (ok-injective h) tt
  scan-Clean u (float x) w h = subst (λ w. All (IsClean u) (texts w)) (ok-injective h) tt
  scan-Clean u (str t) w h =
      let (c, e, k) = >>=-eq-ok (guard_text u t) _ h in
      subst (λ w. All (IsClean u) (texts w)) (ok-injective k) ((guard_text_ok u t c e).1, tt)
  scan-Clean u (uuid i) w h = subst (λ w. All (IsClean u) (texts w)) (ok-injective h) tt
  scan-Clean u (datetime d) w h = subst (λ w. All (IsClean u) (texts w)) (ok-injective h) tt
  scan-Clean u (tuple xs) w h =
      let (ys, e, k) = >>=-eq-ok (scan_items u xs) _ h in
      subst (λ w. All (IsClean u) (texts w)) (ok-injective k) (scan_items-Clean u xs ys e)
  scan-Clean u (list xs) w h =
      let (ys, e, k) = >>=-eq-ok (scan_items u xs) _ h in
      subst (λ w. All (IsClean u) (texts w)) (ok-injective k) (scan_items-Clean u xs ys e)
  scan-Clean u (dict d) w h =
      let (d', e, k) = >>=-eq-ok (scan_fields u d) _ h in
      subst (λ w. All (IsClean u) (texts w)) (ok-injective k) (scan_fields-Clean u d d' e)

  scan_items-Clean :
      (u : Unicode) (xs ys : Items) → scan_items u xs ≡ ok ys → All (IsClean u) (texts_items ys)
  scan_items-Clean u nil ys h = subst (λ ys. All (IsClean u) (texts_items ys)) (ok-injective h) tt
  scan_items-Clean u (item v xs) ys h =
      let (w, e, k) = >>=-eq-ok (scan_untrusted_value u v) _ h in
      let (zs, e', k') = >>=-eq-ok (scan_items u xs) _ k in
      subst (λ ys. All (IsClean u) (texts_items ys)) (ok-injective k')
        (All-append (IsClean u) (texts w) (texts_items zs) (scan-Clean u v w e)
          (scan_items-Clean u xs zs e'))

  pub scan_fields-Clean :
      (u : Unicode) (d f : Fields) → scan_fields u d ≡ ok f → All (IsClean u) (texts_fields f)
  scan_fields-Clean u end f h = subst (λ f. All (IsClean u) (texts_fields f)) (ok-injective h) tt
  scan_fields-Clean u (field k v d) f h =
      let (w, e, q) = >>=-eq-ok (scan_untrusted_value u v) _ h in
      let (g, e', q') = >>=-eq-ok (scan_fields u d) _ q in
      subst (λ f. All (IsClean u) (texts_fields f)) (ok-injective q')
        (All-append (IsClean u) (texts w) (texts_fields g) (scan-Clean u v w e)
          (scan_fields-Clean u d g e'))
