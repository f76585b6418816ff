-- ===== src/Env.antt =====
-- What the program takes from outside: the clock, the identifiers of package uuid, the Unicode tables
-- and the JSON codec for nodes.
use diff_mem.Prelude.{ℕ, ℤ, ◌≡◌, Bool, Option, some}
use diff_mem.Text.{Text}
use diff_mem.Model.{Time, Node}

-- The answers of `time.Now()` and `uuid.NewString()`, by the number of the call.
pub record Os : Type 0 where
  pub now : ℕ → Time
  pub new_uuid : ℕ → Text

-- unicode.IsLetter, unicode.IsDigit, unicode.ToLower.
pub record Unicode : Type 0 where
  pub is_letter : ℕ → Bool
  pub is_digit : ℕ → Bool
  pub to_lower : ℕ → ℕ

-- json.Marshal and json.Unmarshal at `model.Node`; `none` is an error, and `Bytes` stands for `[]byte`.
pub record Codec : Type 1 where
  pub Bytes : Type 0
  pub marshal : Node → Option Bytes
  pub unmarshal : Bytes → Option Node

-- Every node is encoded, and decoding gives it back.
pub record RoundTrips (c : Codec) : Type 0 where
  pub encode : Node → c.Bytes
  pub encodes : (n : Node) → c.marshal n ≡ some (encode n)
  pub decodes : (n : Node) → c.unmarshal (encode n) ≡ some n

-- `int_of_float` is Go's `int(v)` of a float64 that no int holds, which the language leaves open.
pub record Env : Type 1 where
  pub os : Os
  pub unicode : Unicode
  pub codec : Codec
  pub int_of_float : ℤ → ℤ
