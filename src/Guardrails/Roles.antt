-- ===== src/Guardrails/Roles.antt =====
-- backend/src/postmortem_backend/guardrails/roles.py: the SQL identity that a connection provider
-- is bound to. A provider without a role is `none`.
use ckdb_aws.Base.{Bool, Option, Result, false, guard, none, ok, refl, some, true, ◌≡◌}
use ckdb_aws.Domain.{Error, role_scope_violation}

pub data DatabaseRole : Type 0 where
  reader writer consolidator : DatabaseRole

-- `role in _READ_CAPABLE`, `role in _WRITE_CAPABLE`
unfoldable pub read_capable : DatabaseRole → Bool
read_capable reader = true
read_capable writer = true
read_capable consolidator = true

unfoldable pub write_capable : DatabaseRole → Bool
write_capable reader = false
write_capable writer = true
write_capable consolidator = true

unfoldable pub is_reader : DatabaseRole → Bool
is_reader reader = true
is_reader writer = false
is_reader consolidator = false

unfoldable pub require_reader : Option DatabaseRole → Result Error (Unit {0})
unfolding is_reader
require_reader none = ok tt
require_reader (some role) = guard (is_reader role) role_scope_violation

unfoldable pub require_writer : Option DatabaseRole → Result Error (Unit {0})
unfolding write_capable
require_writer none = ok tt
require_writer (some role) = guard (write_capable role) role_scope_violation

unfoldable pub require_read_capable : Option DatabaseRole → Result Error (Unit {0})
unfolding read_capable
require_read_capable none = ok tt
require_read_capable (some role) = guard (read_capable role) role_scope_violation

-- No identity serves both the recall path and the act path: a provider that passes both checks is
-- bound to no role. Every provider that passes one of them may read.
roles_apart :
    (provider : Option DatabaseRole)
    → (require_reader provider ≡ ok tt → require_writer provider ≡ ok tt → provider ≡ none)
      × (require_reader provider ≡ ok tt → require_read_capable provider ≡ ok tt)
      × (require_writer provider ≡ ok tt → require_read_capable provider ≡ ok tt)
unfolding require_reader require_writer require_read_capable
roles_apart none = (λ _ _. refl, λ _. refl, λ _. refl)
roles_apart (some reader) = (λ _ h. cc, λ _. refl, λ _. refl)
roles_apart (some writer) = (λ h _. cc, λ _. refl, λ _. refl)
roles_apart (some consolidator) = (λ h _. cc, λ _. refl, λ _. refl)
