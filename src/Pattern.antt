-- ===== src/Pattern.antt =====
-- The regular expressions of the program. Their classes hold ASCII characters only, so matching by
-- bytes and matching by characters agree; `^` and `$` are the ends of the text.
use vaulty.Prelude.{ℕ, Bool, ◌&&◌, ◌||◌, Text, text, leb, ◌==◌, length, take, drop, all, text_eq}

-- [a-zA-Z0-9]
abbrev pub is_alphanumeric : ℕ → Bool
is_alphanumeric b =
    (leb b'a' b && leb b b'z') || ((leb b'A' b && leb b b'Z') || (leb b'0' b && leb b b'9'))

-- [a-zA-Z0-9_-]
abbrev pub is_tenant_byte : ℕ → Bool
is_tenant_byte b = is_alphanumeric b || (b == b'_' || b == b'-')

-- `^[a-zA-Z0-9_-]{1,64}$`, in internal/auth/tenant.go and internal/handler/tenant.go
unfoldable pub tenant_id_pattern : Text → Bool
tenant_id_pattern t = leb 1 (length t) && (leb (length t) 64 && all is_tenant_byte t)

-- `^tok_[a-zA-Z0-9]{32,}$`, in internal/proxy/revealer.go
unfoldable pub token_pattern : Text → Bool
token_pattern t =
    text_eq (take 4 t) (text "tok_")
    && (leb 32 (length (drop 4 t)) && all is_alphanumeric (drop 4 t))
