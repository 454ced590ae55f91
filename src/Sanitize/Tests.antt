-- ===== src/Sanitize/Tests.antt =====
-- Runs of `SanitizeInput`.
use tdiscuss.Base.{◌≡◌, refl}
use tdiscuss.Text.{codes}
use tdiscuss.Sanitize.{sanitize_input}

sanitized_text : sanitize_input (codes " a \t b\r\n\r\n\n\rc ") ≡ codes "a b\n\nc"
unfolding sanitize_input
sanitized_text = refl
