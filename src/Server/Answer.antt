-- ===== src/Server/Answer.antt =====
-- What a handler of apps/cronpilot-api/handler writes: `writeJSON` with a status and a value, or
-- `writeError` with a status and a message.
use irwandhi_gitops_lab.Base.{ℕ}
use irwandhi_gitops_lab.Text.{Text}

pub data Answer {ℓ} (A : Type ℓ) : Type ℓ where
  ok : ℕ → A → Answer A
  error : ℕ → Text → Answer A
