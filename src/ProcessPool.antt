-- ===== src/ProcessPool.antt =====
-- ProcessPoolLib/ProcessPool.cpp: the command line of the pool's processes.
pub mod Quoting
pub mod Monitor
pub mod Monitored
pub mod Lifetime
pub mod Jobs
pub mod Stopped
pub mod Contained
pub mod Ended
use iis_asgi_handler.Prelude.{
  ℕ, zero, suc, ◌+◌, ◌*◌, Bool, true, false, ◌||◌, List, [], ◌∷◌, ◌++◌, replicate, ◌==◌,
  if◌then◌else◌,
}

-- Character codes: a space, a tab, a line feed, a vertical tab and a quotation mark.
abbrev pub backslash : ℕ
backslash = 92

abbrev pub quote : ℕ
quote = 34

abbrev pub is_special : ℕ → Bool
is_special c = c == 32 || c == 9 || c == 10 || c == 11 || c == quote

-- `argument.find_first_of(L" \t\n\v\"") != argument.npos`
unfoldable pub needs_quotes : List ℕ → Bool
needs_quotes [] = false
needs_quotes (c ∷ cs) = is_special c || needs_quotes cs

-- The loop over the argument's characters and what is written after it.
unfoldable pub escape_from : (num_backslashes : ℕ) → List ℕ → List ℕ
escape_from num_backslashes [] = replicate (num_backslashes * 2) backslash ++ quote ∷ []
escape_from num_backslashes (c ∷ cs) =
    let after_backslash = escape_from (suc num_backslashes) cs in
    let rest = escape_from 0 cs in
    if c == backslash
    then after_backslash
    else if c == quote
    then replicate (num_backslashes * 2 + 1) backslash ++ quote ∷ rest
    else replicate num_backslashes backslash ++ c ∷ rest

-- ProcessPool::EscapeArgument()
unfoldable pub escape_argument : List ℕ → List ℕ
escape_argument argument =
    if needs_quotes argument then quote ∷ escape_from 0 argument else argument

-- The command line that the constructor makes.
unfoldable pub command_line : (process arguments : List ℕ) → List ℕ
command_line process arguments = escape_argument process ++ 32 ∷ arguments
