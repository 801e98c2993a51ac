-- ===== src/Guardrails/Screened.antt =====
-- Signals and recalled memory after the screening of
-- backend/src/postmortem_backend/guardrails/injection.py.
use mathlib.Core.List.{map-append}
use ckdb_aws.Base.{
  >>=-eq-ok, All, All-append, List, Option, ap, arith, map, none, ok, ok-injective, refl, some,
  subst, traverse, traverse-All, traverse-map, ◌++◌, ◌≡◌,
}
use ckdb_aws.Domain.{IncidentSignal, MemoryCandidate, RecallBundle, Text, all_candidates}
use ckdb_aws.Guardrails.Clean.{
  IsClean, guard_text_ok, scan-Clean, scan_fields-Clean, texts, texts_fields,
}
use ckdb_aws.Guardrails.Injection.{
  guard_text, guard_untrusted_memory_candidate, guard_untrusted_recall_bundle, guard_untrusted_text,
  sanitize_signal, scan_fields, scan_untrusted_value, screen_metadata,
}
use ckdb_aws.Guardrails.Unicode.{Unicode}

pub record CleanSignal (u : Unicode) (s : IncidentSignal) : Type 0 where
  pub summary : IsClean u s.summary
  pub error_signature : (t : Text) → s.error_signature ≡ some t → IsClean u t
  pub service_tags : All (IsClean u) s.service_tags

pub record CleanCandidate (u : Unicode) (m : MemoryCandidate) : Type 0 where
  pub content : IsClean u m.content
  pub steps : All (λ v. All (IsClean u) (texts v)) m.steps
  pub metadata : All (IsClean u) (texts_fields m.metadata)

module _ (u : Unicode) where
  signature_ok :
      (o p : Option Text) → guard_untrusted_text u o ≡ ok p → (t : Text) → p ≡ some t → IsClean u t
  unfolding guard_untrusted_text
  signature_ok none p h t q = absurd (ground arith)
  signature_ok (some s) p h t q =
      let (c, e, k) = >>=-eq-ok (guard_text u s) _ h in
      let same : c ≡ t = cc (k, q) in subst (IsClean u) same (guard_text_ok u s c e).1

  -- A signal that is let through is clean in its summary, its error signature and its service tags,
  -- and is the received one in all other fields, `metadata` included.
  pub sanitize_signal_ok :
      (s s' : IncidentSignal)
      → sanitize_signal u s ≡ ok s'
      → CleanSignal u s'
        × (s' ≡ record s {
          summary = s'.summary;
          error_signature = s'.error_signature;
          service_tags = s'.service_tags;
        })
  unfolding sanitize_signal
  sanitize_signal_ok s s' h =
      let (summary, e₁, h₁) = >>=-eq-ok (guard_text u s.summary) _ h in
      let (signature, e₂, h₂) = >>=-eq-ok (guard_untrusted_text u s.error_signature) _ h₁ in
      let (tags, e₃, h₃) = >>=-eq-ok (traverse (guard_text u) s.service_tags) _ h₂ in
      let (_, e₄, h₄) = >>=-eq-ok (screen_metadata u s.metadata) _ h₃ in
      let same = ok-injective h₄ in
      subst
        (λ r.
          CleanSignal u r
          × (r ≡ record s {
            summary = r.summary;
            error_signature = r.error_signature;
            service_tags = r.service_tags;
          }))
        same
        (
          record {
            summary = (guard_text_ok u s.summary summary e₁).1;
            error_signature = signature_ok s.error_signature signature e₂;
            service_tags =
                traverse-All (guard_text u) (IsClean u) s.service_tags tags
                  (λ t c e. (guard_text_ok u t c e).1) e₃;
          },
          refl,
        )

  guard_candidate_ok :
      (m m' : MemoryCandidate)
      → guard_untrusted_memory_candidate u m ≡ ok m'
      → CleanCandidate u m'
        × (m' ≡ record m { content = m'.content; steps = m'.steps; metadata = m'.metadata })
  unfolding guard_untrusted_memory_candidate
  guard_candidate_ok m m' h =
      let (content, e₁, h₁) = >>=-eq-ok (guard_text u m.content) _ h in
      let (steps, e₂, h₂) = >>=-eq-ok (traverse (scan_untrusted_value u) m.steps) _ h₁ in
      let (metadata, e₃, h₃) = >>=-eq-ok (scan_fields u m.metadata) _ h₂ in
      subst
        (λ r.
          CleanCandidate u r
          × (r ≡ record m { content = r.content; steps = r.steps; metadata = r.metadata }))
        (ok-injective h₃)
        (
          record {
            content = (guard_text_ok u m.content content e₁).1;
            steps =
                traverse-All (scan_untrusted_value u) (λ v. All (IsClean u) (texts v)) m.steps steps
                  (scan-Clean u) e₂;
            metadata = scan_fields-Clean u m.metadata metadata e₃;
          },
          refl,
        )

  guard_candidates_ok :
      (ms ms' : List MemoryCandidate)
      → traverse (guard_untrusted_memory_candidate u) ms ≡ ok ms'
      → All (CleanCandidate u) ms'
        × (map (λ (m : MemoryCandidate). m.memory_id) ms'
            ≡ map (λ (m : MemoryCandidate). m.memory_id) ms)
  guard_candidates_ok ms ms' h = (
    traverse-All (guard_untrusted_memory_candidate u) (CleanCandidate u) ms ms'
        (λ m m' e. (guard_candidate_ok m m' e).0) h,
    traverse-map (guard_untrusted_memory_candidate u) (λ (m : MemoryCandidate). m.memory_id)
        (λ (m : MemoryCandidate). m.memory_id) ms ms'
        (λ m m' e. ap (λ (r : MemoryCandidate). r.memory_id) (guard_candidate_ok m m' e).1) h,
  )

  -- A bundle that is let through is clean in the content of every candidate and in the texts at any
  -- depth of its steps and metadata, but for the keys of dictionaries, which are not screened. It
  -- has the candidates of the recalled one, by their ids and in their order, and its diagnostics
  -- and mark of a cold start are unchanged.
  pub guard_bundle_ok :
      (b b' : RecallBundle)
      → guard_untrusted_recall_bundle u b ≡ ok b'
      → All (CleanCandidate u) (all_candidates b')
        × (map (λ (m : MemoryCandidate). m.memory_id) (all_candidates b')
            ≡ map (λ (m : MemoryCandidate). m.memory_id) (all_candidates b))
        × (b'.cold_start ≡ b.cold_start)
        × (b'.diagnostics ≡ b.diagnostics)
  unfolding guard_untrusted_recall_bundle
  guard_bundle_ok b b' h =
      let (es, e₁, h₁) = >>=-eq-ok (traverse (guard_untrusted_memory_candidate u) b.episodes) _ h in
      let (fs, e₂, h₂) = >>=-eq-ok (traverse (guard_untrusted_memory_candidate u) b.facts) _ h₁ in
      let (rs, e₃, h₃) =
        >>=-eq-ok (traverse (guard_untrusted_memory_candidate u) b.runbooks) _ h₂ in
      let (ce, ie) = guard_candidates_ok b.episodes es e₁ in
      let (cf, if') = guard_candidates_ok b.facts fs e₂ in
      let (cr, ir) = guard_candidates_ok b.runbooks rs e₃ in
      let ids = λ (m : MemoryCandidate). m.memory_id in
      subst
        (λ r.
          All (CleanCandidate u) (all_candidates r)
          × (map ids (all_candidates r) ≡ map ids (all_candidates b))
          × (r.cold_start ≡ b.cold_start)
          × (r.diagnostics ≡ b.diagnostics))
        (ok-injective h₃)
        (
          All-append (CleanCandidate u) es (fs ++ rs) ce
              (All-append (CleanCandidate u) fs rs cf cr),
          simp (map-append, ie, if', ir),
          refl,
          refl,
        )
