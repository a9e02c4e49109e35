-- ===== src/Shell.antt =====
-- Quoting for the shell (cli/src/shell.rs).
pub mod Words
use drovr.Base.{ℕ, Text, codes, List, [], ◌∷◌, ◌++◌, ◌==◌, nat_eq, if◌then◌else◌}

-- `s.replace('\'', "'\\''")`
unfoldable pub escape_quotes : Text → Text
escape_quotes [] = []
escape_quotes (c ∷ s) =
    let rest = escape_quotes s in if c == b'\'' then codes "'\\''" ++ rest else c ∷ rest

unfoldable pub shell_single_quote : Text → Text
shell_single_quote s = b'\'' ∷ (escape_quotes s ++ codes "'")
