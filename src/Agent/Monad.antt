-- ===== src/Agent/Monad.antt =====
-- A call of internal/agent: the state of the world, an error value, and a panic. The world comes back
-- after an error too.
use diff_mem.Prelude.{Bool, Option, none, some, List, [], ◌∷◌, ◌++◌, if◌then◌else◌}
use diff_mem.Text.{Text}

pub data Done : Type 0 where
  done : Done

-- An `error` is the text that it prints as.
pub data Result (A : Type 0) : Type 0 where
  ok : A → Result A
  err : Text → Result A
  panic : Result A

abbrev pub Action : Type 0 → Type 0 → Type 0
Action W A = W → Result A × W

abbrev pub pure : {W A : Type 0} → A → Action W A
pure a w = (ok a, w)

abbrev pub raise : {W A : Type 0} → Text → Action W A
raise message w = (err message, w)

abbrev pub crash : {W A : Type 0} → Action W A
crash w = (panic, w)

abbrev pub and_then : {W A B : Type 0} → Result A × W → (A → Action W B) → Result B × W
and_then (ok a, w) f = f a w
and_then (err message, w) f = (err message, w)
and_then (panic, w) f = (panic, w)

infixl 5 ◌>>=◌ ◌>>◌
abbrev pub ◌>>=◌ : {W A B : Type 0} → Action W A → (A → Action W B) → Action W B
◌>>=◌ m f w = and_then (m w) f

abbrev pub ◌>>◌ : {W A B : Type 0} → Action W A → Action W B → Action W B
m >> k = m >>= λ _. k

abbrev pub caught : {W A : Type 0} → Result A × W → Result (Option A) × W
caught (ok a, w) = (ok (some a), w)
caught (err _, w) = (ok none, w)
caught (panic, w) = (panic, w)

-- v, err := m, where the code goes on after an error: `none` is the error.
abbrev pub attempt : {W A : Type 0} → Action W A → Action W (Option A)
attempt m w = caught (m w)

abbrev pub or_raise : {W A : Type 0} → Option A → Text → Action W A
or_raise none message = raise message
or_raise (some a) _ = pure a

abbrev pub raise_if : {W : Type 0} → Bool → Text → Action W Done
raise_if c message w = (if c then err message else ok done, w)

-- What a program with a terminal has done to the world, and printed.
pub record Terminal (W : Type 0) : Type 0 where
  pub world : W
  pub printed : List Text

abbrev pub in_terminal : {W A : Type 0} → List Text → Result A × W → Result A × Terminal W
in_terminal printed (r, w) = (r, record { world = w; printed = printed })

abbrev pub on_world : {W A : Type 0} → Action W A → Action (Terminal W) A
on_world m t = in_terminal t.printed (m t.world)

-- fmt.Fprint
abbrev pub print : {W : Type 0} → Text → Action (Terminal W) Done
print text t = (ok done, record t { printed = t.printed ++ text ∷ [] })

abbrev pub when : {W : Type 0} → Bool → Action W Done → Action W Done
when c m w = if c then m w else (ok done, w)

abbrev pub recovered : {W A : Type 0} → (Text → Action W A) → Result A × W → Result A × W
recovered f (ok a, w) = (ok a, w)
recovered f (err message, w) = f message w
recovered f (panic, w) = (panic, w)

-- if err := m; err != nil { f(err) }
abbrev pub on_error : {W A : Type 0} → Action W A → (Text → Action W A) → Action W A
on_error m f w = recovered f (m w)

-- The error of `m`, with text in front.
abbrev pub prefixed : {W A : Type 0} → Text → Action W A → Action W A
prefixed prefix m = on_error m (λ message. raise (prefix ++ message))
