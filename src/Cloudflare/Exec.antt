-- ===== src/Cloudflare/Exec.antt =====
-- Coroutines of the Cloudflare runtime, whose exceptions are those of core.py.
pub use hooklane.Run.{pure, raise, gets, modify, attempt, continue, ◌>>◌}
unfoldable pub use hooklane.Run.{◌>>=◌}
use hooklane.Run.{Run}
use hooklane.Cloudflare.Core.{Error}

abbrev pub Exec : Type 0 → Type 0 → Type 0
Exec S A = Run Error S A
