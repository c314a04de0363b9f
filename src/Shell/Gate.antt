-- ===== src/Shell/Gate.antt =====
-- `shellGate` of zmodem_shell.go: where the keyboard goes while a transfer runs. A channel that is only
-- ever closed is a Bool that tells whether it is, and before the first transfer there is none.
use go_serial_cli.Common.{
  ℕ, ◌+◌, ◌-◌, Bool, true, false, ◌||◌, ◌==◌, ltb, leb, if◌then◌else◌, Bytes, List, [], ◌∷◌, ◌++◌,
  Option, none, some, length, take, drop,
}

pub record Gate : Type 0 where
  pub is_active : Bool
  pub cancel_closed : Bool
  pub force_closed : Bool
  pub presses : ℕ
  pub prompt_closed : Option Bool
  pub lines : List Bytes
  pub line : Bytes
  pub dismiss : Option Bool

-- The room in the channel of lines.
abbrev pub lines_limit : ℕ
lines_limit = 4

abbrev pub ctrl_c : ℕ
ctrl_c = 3

unfoldable pub new_shell_gate : Gate
new_shell_gate = record {
  is_active = false;
  cancel_closed = false;
  force_closed = false;
  presses = 0;
  prompt_closed = none;
  lines = [];
  line = [];
  dismiss = none;
}

unfoldable pub begin_gate : Gate → Gate
begin_gate g = record {
  is_active = true;
  cancel_closed = false;
  force_closed = false;
  presses = 0;
  prompt_closed = some false;
  lines = [];
  line = [];
  dismiss = none;
}

unfoldable pub close_prompt : Gate → Gate
close_prompt g = record g {
  prompt_closed = elim g.prompt_closed [ none ↦ none | some closed ↦ some true ];
}

unfoldable pub end_gate : Gate → Gate
end_gate g = record g { is_active = false; dismiss = none }

unfoldable pub await_dismiss : Gate → Gate
await_dismiss g = record g { dismiss = some false }

-- A prompt takes a line from the channel.
unfoldable pub take_line : Gate → Gate
take_line g = record g { lines = drop 1 g.lines }

unfoldable pub drop_last : Bytes → Bytes
drop_last bytes = take (length bytes - 1) bytes

unfoldable pub press : Gate → Gate
press g = record g {
  presses = g.presses + 1;
  cancel_closed = true;
  force_closed = g.force_closed || ltb 1 (g.presses + 1);
}

unfoldable pub enter : Gate → Gate
enter g = record g {
  lines = if ltb (length g.lines) lines_limit then g.lines ++ (g.line ∷ []) else g.lines;
  line = [];
}

unfoldable pub is_enter : ℕ → Bool
is_enter b = b == 13 || b == 10

-- A key while the transfer runs.
unfoldable pub key : ℕ → Gate → Gate
key b g =
    if b == ctrl_c
    then press g
    else if is_enter b
    then enter g
    else if b == 8 || b == 127
    then record g { line = drop_last g.line }
    else if leb 32 b
    then record g { line = g.line ++ (b ∷ []) }
    else g

-- A key while the summary is shown; the argument is whether it was dismissed before.
unfoldable pub dismiss_key : ℕ → Bool → Bool
dismiss_key b closed = closed || is_enter b || b == ctrl_c

unfoldable pub key_in : Option Bool → ℕ → Gate → Gate
key_in none b g = key b g
key_in (some closed) b g = record g { dismiss = some (dismiss_key b closed) }

unfoldable pub keys : Bytes → Gate → Gate
keys [] g = g
keys (b ∷ bs) g = keys bs (key_in g.dismiss b g)

-- feed: whether the gate keeps the bytes from the device, and the gate behind them.
unfoldable pub feed_gate : Bytes → Gate → Bool × Gate
feed_gate bytes g = if g.is_active then (true, keys bytes g) else (false, g)
