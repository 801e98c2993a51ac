-- ===== src/Examples/Guards.antt =====
-- The theorems on the guardrails at concrete inputs.
use mathlib.Core.Bool.{xor}
use mathlib.Core.List.{flat_map}
use ckdb_aws.Base.{
  All, List, [], any, elem, err, false, map, nat_eq, none, not, ok, refl, some, string_eq, true, ℕ,
  ◌↔◌, ◌∷◌, ◌≡◌, ◌⊎◌,
}
use ckdb_aws.Domain.{
  MemoryCandidate, Text, all_candidates, destructive_action_blocked, restart, rollback, text,
  text_beq, text_eq,
}
use ckdb_aws.Examples.Data.{bundle, command, now, plain, signal}
use ckdb_aws.Guardrails.Allowlist.{
  ApprovalRecord, allowed_tools, approve_named, authorize_action, critical_gated_action,
  critical_service_tags, enforce_tool_allowlist, high_blast_radius_action, is_critical_tier_service,
  is_high_blast_radius, named_approver,
}
use ckdb_aws.Guardrails.Authority.{authorize_ok_iff, critical_blocked, flag_adds_caution}
use ckdb_aws.Guardrails.Clean.{IsClean, guard_text_ok}
use ckdb_aws.Guardrails.Injection.{
  guard_text, guard_untrusted_memory_candidate, guard_untrusted_recall_bundle, guard_untrusted_text,
  is_control, normalize_untrusted_text, sanitize_signal, scan_untrusted_value, screen,
  screen_metadata, scrub_control_characters,
}
use ckdb_aws.Guardrails.Patterns.{
  contains_tool_call_injection, ends, injection_patterns, search_text,
}
use ckdb_aws.Guardrails.Provenance.{
  require_grounded_action, require_grounded_iff, verify_citation_resolves,
}
use ckdb_aws.Guardrails.Screened.{CleanCandidate, CleanSignal, guard_bundle_ok, sanitize_signal_ok}
use ckdb_aws.Guardrails.Unicode.{is_space, lstrip, rstrip, strip}
use ckdb_aws.Guardrails.Webhook.{
  WebhookAuthenticator, authenticate, authenticate_iff, configured, is_ascii, is_blank,
  strip_signature_prefix,
}

authorize_ok_iff_example :
    ((r : ApprovalRecord) × (authorize_action plain now command true
          (some (text "ana"))
          (text "payments" ∷ [])
        ≡ ok r))
    ↔ ((((command.action ≡ rollback) ⊎ (command.action ≡ restart))
          × (command.requires_human_approval ≡ false)
          × ((tag : Text)
              → elem tag (text "payments" ∷ []) ≡ true
              → elem (plain.lower (strip tag)) (
                  text "checkout"
                  ∷ text "payments"
                  ∷ text "payment"
                  ∷ text "billing"
                  ∷ text "invoicing"
                  ∷ [])
                ≡ false))
        ⊎ ((true ≡ true)
            × ((a : Text) × (some (text "ana") ≡ some a)
                × (any (λ (ch : ℕ). not (is_space ch)) a ≡ true))))
authorize_ok_iff_example =
    authorize_ok_iff plain now command true (some (text "ana")) (text "payments" ∷ [])

critical_blocked_example :
    authorize_action plain now command false none (text "payments" ∷ [])
    ≡ err destructive_action_blocked
unfolding strip lstrip rstrip is_space critical_service_tags text_beq
critical_blocked_example =
    critical_blocked plain now command false none (text "payments" ∷ []) (text "payments") refl refl
      refl

flag_adds_caution_example :
    (r : ApprovalRecord) × (authorize_action plain now
        (record command { requires_human_approval = false })
        true
        (some (text "ana"))
        []
      ≡ ok r)
unfolding authorize_action approve_named named_approver enforce_tool_allowlist allowed_tools
    is_high_blast_radius high_blast_radius_action strip lstrip rstrip is_space critical_gated_action
    is_critical_tier_service
flag_adds_caution_example = flag_adds_caution plain now command true (some (text "ana")) [] _ refl

sanitize_signal_ok_example :
    CleanSignal plain signal
    × (signal ≡ record signal {
      summary = signal.summary;
      error_signature = signal.error_signature;
      service_tags = signal.service_tags;
    })
unfolding sanitize_signal guard_untrusted_text guard_text screen screen_metadata
    scrub_control_characters normalize_untrusted_text is_control contains_tool_call_injection
    search_text ends injection_patterns flat_map xor
sanitize_signal_ok_example = sanitize_signal_ok plain signal signal refl

guard_bundle_ok_example :
    All (CleanCandidate plain) (all_candidates bundle)
    × (map (λ (m : MemoryCandidate). m.memory_id) (all_candidates bundle)
        ≡ map (λ (m : MemoryCandidate). m.memory_id) (all_candidates bundle))
    × (bundle.cold_start ≡ bundle.cold_start)
    × (bundle.diagnostics ≡ bundle.diagnostics)
unfolding sanitize_signal guard_untrusted_text guard_text screen screen_metadata
    scrub_control_characters normalize_untrusted_text is_control contains_tool_call_injection
    search_text ends injection_patterns flat_map xor guard_untrusted_recall_bundle
    guard_untrusted_memory_candidate scan_untrusted_value
guard_bundle_ok_example = guard_bundle_ok plain bundle bundle refl

-- A zero-width space and a control character are taken out.
guard_text_ok_example :
    (text "ab" ≡ scrub_control_characters plain (b'a' ∷ 0x200b ∷ 7 ∷ b'b' ∷ []))
    × IsClean plain (text "ab")
unfolding sanitize_signal guard_untrusted_text guard_text screen screen_metadata
    scrub_control_characters normalize_untrusted_text is_control contains_tool_call_injection
    search_text ends injection_patterns flat_map xor
guard_text_ok_example = guard_text_ok plain (b'a' ∷ 0x200b ∷ 7 ∷ b'b' ∷ []) (text "ab") refl

abbrev hook : WebhookAuthenticator
hook = record { secret = text "key" }

abbrev fixed_digest : Text → List ℕ → Text
fixed_digest secret body = text "00ff"

authenticate_iff_example :
    (authenticate plain fixed_digest hook [] (some (text "sha256=00ff")) ≡ ok tt) ↔ (
      (configured hook ≡ true)
      × (given : Text) × (some (text "sha256=00ff") ≡ some given)
      × (is_blank given ≡ false)
      × (strip_signature_prefix plain (strip given) ≡ fixed_digest hook.secret [])
      × (is_ascii (fixed_digest hook.secret []) ≡ true))
authenticate_iff_example = authenticate_iff plain fixed_digest hook [] (some (text "sha256=00ff"))

require_grounded_iff_example :
    (require_grounded_action command (some (6 ∷ [])) ≡ ok tt)
    ↔ (verify_citation_resolves (some command.cited_memory_id) (6 ∷ []) ≡ true)
require_grounded_iff_example = require_grounded_iff command (6 ∷ [])
