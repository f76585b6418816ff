-- ===== src/Agent/Repl/Loop.antt =====
-- What the loop of internal/agent/repl.go does with the commands that should end it.
use diff_mem.Prelude.{
  ◌≡◌, refl, true, false, List, [], ◌∷◌, ◌++◌, ◌⊎◌, inl, inr, arith, ap, ◌∙◌, ℕ, not, ◌==◌,
  Bool-cases, append_assoc,
}
use diff_mem.Text.{Text, lit, text_eq, is_empty, has_prefix, trim_space, span}
use diff_mem.Agent.{Agent, Client}
use diff_mem.Agent.Monad.{err, Terminal}
use diff_mem.Agent.Repl.{prompt, command_word, handle_command, handle_line, round, rounds}

-- What was printed, with more texts behind it.
abbrev pub with_printed : {W : Type 0} → Terminal W → List Text → Terminal W
with_printed t texts = record t { printed = t.printed ++ texts }

append_three :
    (ts : List Text) (x y z : Text) → ((ts ++ x ∷ []) ++ y ∷ []) ++ z ∷ [] ≡ ts ++ x ∷ y ∷ z ∷ []
append_three ts x y z =
    append_assoc (ts ++ x ∷ []) (y ∷ []) (z ∷ []) ∙ append_assoc ts (x ∷ []) (y ∷ z ∷ [])

-- The word of a command that should end the loop.
abbrev pub IsQuit : Text → Type 0
IsQuit line = (command_word line ≡ lit ".quit") ⊎ (command_word line ≡ lit ".exit")

-- A line has the first code point of its command word.
command_word-head : (x r : ℕ) (xs w : Text) → command_word (x ∷ xs) ≡ r ∷ w → x ≡ r
unfolding command_word span
command_word-head x r xs w e = elim (Bool-cases (not (x == 32))) [
  | inl goes_on ↦ ground (arith, e, goes_on)
  | inr stops ↦ ground (arith, e, stops)
]

IsQuit-head : (x : ℕ) (xs : Text) → IsQuit (x ∷ xs) → x ≡ 46
unfolding lit
IsQuit-head x xs (inl e) = command_word-head x 46 xs _ e
IsQuit-head x xs (inr e) = command_word-head x 46 xs _ e

has_prefix-IsQuit : (line : Text) → IsQuit line → has_prefix line (lit ".") ≡ true
unfolding command_word span has_prefix lit
has_prefix-IsQuit [] (inl e) = cc
has_prefix-IsQuit [] (inr e) = cc
has_prefix-IsQuit (x ∷ xs) h = rw (IsQuit-head x xs h, has_prefix) refl

is_empty-IsQuit : (line : Text) → IsQuit line → is_empty line ≡ false
unfolding command_word span lit
is_empty-IsQuit [] (inl e) = cc
is_empty-IsQuit [] (inr e) = cc
is_empty-IsQuit (x ∷ xs) h = refl

module _ {W : Type 0} (c : Client W) (a : Agent) where
  handle_command-quit :
      (line : Text) (t : Terminal W)
      → IsQuit line
      → handle_command c a line t ≡ (err (lit "EOF"), with_printed t (lit "goodbye!\n" ∷ []))
  unfolding handle_command text_eq lit
  handle_command-quit line t (inl e) = rw (e, handle_command) refl
  handle_command-quit line t (inr e) = rw (e, handle_command) refl

  -- A line whose command is .quit or .exit does not end the loop of the REPL: it prints goodbye
  -- and then EOF as an error, and the loop goes on with the next lines.
  pub rounds-quit :
      (raw : Text) (rest : List Text) (t : Terminal W)
      → IsQuit (trim_space raw)
      → rounds c a (raw ∷ rest) t
        ≡ rounds c a rest (with_printed t (prompt ∷ lit "goodbye!\n" ∷ lit "✗ EOF\n" ∷ []))
  unfolding rounds round handle_line text_eq lit
  rounds-quit raw rest t h =
      rw
        (
          is_empty-IsQuit (trim_space raw) h,
          has_prefix-IsQuit (trim_space raw) h,
          handle_command-quit (trim_space raw) (with_printed t (prompt ∷ [])) h,
          rounds,
          round,
          handle_line,
        )
        (ap (λ (p : List Text). rounds c a rest (record t { printed = p }))
          (append_three t.printed prompt (lit "goodbye!\n") (lit "✗ EOF\n")))
