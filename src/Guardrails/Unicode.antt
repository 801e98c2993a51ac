-- ===== src/Guardrails/Unicode.antt =====
-- What the guardrails use of Python's Unicode text: the character database is a parameter, the
-- functions on it are those of `str` (`strip`, `startswith`).
use ckdb_aws.Base.{
  Bool, Option, [], false, if◌then◌else◌, leb, nat_eq, none, some, string_eq, true, ℕ, ◌&&◌, ◌==◌,
  ◌||◌, ◌∷◌,
}
use ckdb_aws.Domain.{Text, text_eq}

-- `unicodedata.normalize("NFKC", text)`, `unicodedata.category(ch) == "Cf"`, `ch.isalnum()` and
-- `text.lower()`.
pub record Unicode : Type 0 where
  pub nfkc : Text → Text
  pub is_format : ℕ → Bool
  pub is_alnum : ℕ → Bool
  pub lower : Text → Text

-- `ch.isspace()`, and `\s` in a pattern.
unfoldable pub is_space : ℕ → Bool
is_space c =
    (leb 9 c && leb c 13)
    || ((leb 28 c && leb c 32)
        || (c == 0x85
            || (c == 0xa0
                || (c == 0x1680
                    || ((leb 0x2000 c && leb c 0x200a)
                        || (c == 0x2028
                            || (c == 0x2029 || (c == 0x202f || (c == 0x205f || c == 0x3000)))))))))

unfoldable pub lstrip : Text → Text
unfolding is_space
lstrip [] = []
lstrip (c ∷ s) = elim (is_space c) [ true ↦ lstrip s | false ↦ c ∷ s ]

unfoldable pub rstrip : Text → Text
unfolding is_space
rstrip [] = []
rstrip (c ∷ s) =
    let rest = rstrip s in elim rest [ [] ↦ if is_space c then [] else c ∷ [] | d ∷ r ↦ c ∷ d ∷ r ]

-- `text.strip()`
unfoldable pub strip : Text → Text
unfolding lstrip rstrip
strip s = rstrip (lstrip s)

-- `text.startswith(prefix)`, and then `text[len(prefix):]`
unfoldable pub strip_prefix : Text → Text → Option Text
strip_prefix [] s = some s
strip_prefix (p ∷ ps) [] = none
strip_prefix (p ∷ ps) (c ∷ s) = if p == c then strip_prefix ps s else none
