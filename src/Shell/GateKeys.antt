-- ===== src/Shell/GateKeys.antt =====
-- What shellGate of zmodem_shell.go makes of the keys.
use go_serial_cli.Common.{
  ℕ, ◌+◌, ◌≤◌, ◌≡◌, refl, sym, ap, ◌∙◌, Bool, true, false, ◌||◌, ◌==◌, ltb, leb, if◌then◌else◌,
  if_cases, Bytes, List, [], ◌∷◌, ◌++◌, Option, none, some, length, arith, length-append,
  length-drop, Option-cases, inl, inr,
}
use mathlib.Core.Path.{subst}
use go_serial_cli.Shell.Gate.{
  Gate, lines_limit, ctrl_c, new_shell_gate, begin_gate, close_prompt, end_gate, await_dismiss,
  take_line, press, enter, is_enter, key, key_in, keys, feed_gate,
}

-- The methods of the gate, and the prompt that takes a line.
pub data GateCall : Type 0 where
  begins ends closes_prompt awaits_dismiss takes_line : GateCall
  feeds : Bytes → GateCall

unfoldable pub call_gate : GateCall → Gate → Gate
call_gate begins g = begin_gate g
call_gate ends g = end_gate g
call_gate closes_prompt g = close_prompt g
call_gate awaits_dismiss g = await_dismiss g
call_gate takes_line g = take_line g
call_gate (feeds bytes) g = (feed_gate bytes g).1

unfoldable pub call_all : List GateCall → Gate → Gate
call_all [] g = g
call_all (c ∷ cs) g = call_all cs (call_gate c g)

-- How often Ctrl+C stands in what was typed.
abbrev pub ctrl_cs : Bytes → ℕ
ctrl_cs [] = 0
ctrl_cs (b ∷ bs) = (if b == ctrl_c then 1 else 0) + ctrl_cs bs

-- How often Ctrl+C was typed into a transfer since the last begin, read off the calls alone: whether a
-- transfer is on, whether its summary is shown, and the count so far.
abbrev pub pressed : Bool → Bool → ℕ → List GateCall → ℕ
pressed on shown n [] = n
pressed on shown n (begins ∷ calls) = pressed true false 0 calls
pressed on shown n (ends ∷ calls) = pressed false false n calls
pressed on shown n (closes_prompt ∷ calls) = pressed on shown n calls
pressed on shown n (awaits_dismiss ∷ calls) = pressed on true n calls
pressed on shown n (takes_line ∷ calls) = pressed on shown n calls
pressed true false n (feeds bytes ∷ calls) = pressed true false (n + ctrl_cs bytes) calls
pressed true true n (feeds bytes ∷ calls) = pressed true true n calls
pressed false shown n (feeds bytes ∷ calls) = pressed false shown n calls

-- The transfer is cancelled by the first Ctrl+C of so many and forced by the second, and no more lines
-- wait than the channel has room for.
abbrev pub IsCounted : ℕ → Gate → Type 0
IsCounted n g =
    (g.cancel_closed ≡ ltb 0 n) × (g.force_closed ≡ ltb 1 n) × (length g.lines ≤ lines_limit)

abbrev is_shown : Option Bool → Bool
is_shown none = false
is_shown (some closed) = true

abbrev IsTracked : Bool → Bool → ℕ → Gate → Type 0
IsTracked on shown n g =
    (g.is_active ≡ on) × (is_shown g.dismiss ≡ shown) × (g.presses ≡ n) × IsCounted n g

more_lines :
    (g : Gate)
    → length g.lines ≤ lines_limit
    → length (if ltb (length g.lines) lines_limit then g.lines ++ (g.line ∷ []) else g.lines)
      ≤ lines_limit
more_lines g l =
    let longer = length-append g.lines (g.line ∷ []) in
    if_cases {A = List Bytes} (λ ls. length ls ≤ lines_limit) (ltb (length g.lines) lines_limit)
      (g.lines ++ (g.line ∷ [])) g.lines (λ v. ground (arith, v, longer)) (λ v. l)

key-IsTracked :
    (b : ℕ) (on : Bool) (n : ℕ) (g : Gate)
    → IsTracked on false n g
    → IsTracked on false (n + (if b == ctrl_c then 1 else 0)) (key b g)
unfolding key press enter
key-IsTracked b on n g (a, d, p, (c, f, l)) =
    let Tracked = IsTracked on false (n + (if b == ctrl_c then 1 else 0)) in
    if_cases Tracked (b == ctrl_c) _ _
      (λ t. (a, d, ground (arith, t, p), (ground (arith, t), ground (arith, t, p, f), l)))
      (λ t.
        let same : n + (if b == ctrl_c then 1 else 0) ≡ n = ground (arith, t) in
        rw same (
          if_cases (IsTracked on false n) (is_enter b) _ _ (λ u. (a, d, p, (c, f, more_lines g l)))
            (λ u.
              if_cases (IsTracked on false n) (b == 8 || b == 127) _ _ (λ v. (a, d, p, (c, f, l)))
                (λ v.
                  if_cases (IsTracked on false n) (leb 32 b) _ _ (λ w. (a, d, p, (c, f, l)))
                    (λ w. (a, d, p, (c, f, l)))))))

keys-IsTracked :
    (bytes : Bytes) (on : Bool) (n : ℕ) (g : Gate)
    → IsTracked on false n g
    → IsTracked on false (n + ctrl_cs bytes) (keys bytes g)
unfolding keys key_in
keys-IsTracked [] on n g i = let same : n + 0 ≡ n = omega arith in rw same i
keys-IsTracked (b ∷ bytes) on n g i = elim (Option-cases g.dismiss) [
  | inl e ↦
      let d = if b == ctrl_c then 1 else 0 in
      let more : n + (d + ctrl_cs bytes) ≡ n + d + ctrl_cs bytes = omega arith in
      rw more (
        subst (λ k. IsTracked on false (n + d + ctrl_cs bytes) (keys bytes k))
          (sym (ap (λ o. key_in o b g) e))
          (keys-IsTracked bytes on (n + d) (key b g) (key-IsTracked b on n g i)))
  | inr (closed, e) ↦ (let came : true ≡ false = sym (ap is_shown e) ∙ i.1 in absurd cc)
]

-- Keys that dismiss the summary are no Ctrl+C of the transfer.
shown_keys-IsTracked :
    (bytes : Bytes) (on : Bool) (n : ℕ) (g : Gate)
    → IsTracked on true n g
    → IsTracked on true n (keys bytes g)
unfolding keys key_in
shown_keys-IsTracked [] on n g i = i
shown_keys-IsTracked (b ∷ bytes) on n g i = elim (Option-cases g.dismiss) [
  | inl e ↦ (let came : true ≡ false = sym i.1 ∙ ap is_shown e in absurd cc)
  | inr (closed, e) ↦
      subst (λ k. IsTracked on true n (keys bytes k)) (sym (ap (λ o. key_in o b g) e))
        (shown_keys-IsTracked bytes on n (key_in (some closed) b g) (i.0, refl, i.2, i.3))
]

take_line-IsTracked :
    (on shown : Bool) (n : ℕ) (g : Gate)
    → IsTracked on shown n g
    → IsTracked on shown n (take_line g)
unfolding take_line
take_line-IsTracked on shown n g (a, d, p, (c, f, l)) =
    (a, d, p, (c, f, omega (arith, l, length-drop 1 g.lines)))

feed_gate_active :
    (bytes : Bytes) (g : Gate) → g.is_active ≡ true → (feed_gate bytes g).1 ≡ keys bytes g
unfolding feed_gate
feed_gate_active bytes g e =
    ap (λ b. let r : Bool × Gate = if b then (true, keys bytes g) else (false, g) in r.1) e

feed_gate_inactive : (bytes : Bytes) (g : Gate) → g.is_active ≡ false → (feed_gate bytes g).1 ≡ g
unfolding feed_gate
feed_gate_inactive bytes g e =
    ap (λ b. let r : Bool × Gate = if b then (true, keys bytes g) else (false, g) in r.1) e

-- Where the calls lead from a gate that the count so far fits.
call_all-IsTracked :
    (calls : List GateCall) (on shown : Bool) (n : ℕ) (g : Gate)
    → IsTracked on shown n g
    → IsCounted (pressed on shown n calls) (call_all calls g)
unfolding call_all call_gate begin_gate end_gate close_prompt await_dismiss
call_all-IsTracked [] on shown n g i = i.3
call_all-IsTracked (begins ∷ calls) on shown n g i =
    call_all-IsTracked calls true false 0 _ (refl, refl, refl, (refl, refl, omega arith))
call_all-IsTracked (ends ∷ calls) on shown n g i =
    call_all-IsTracked calls false false n _ (refl, refl, i.2, i.3)
call_all-IsTracked (closes_prompt ∷ calls) on shown n g i = call_all-IsTracked calls on shown n _ i
call_all-IsTracked (awaits_dismiss ∷ calls) on shown n g i =
    call_all-IsTracked calls on true n _ (i.0, refl, i.2, i.3)
call_all-IsTracked (takes_line ∷ calls) on shown n g i =
    call_all-IsTracked calls on shown n _ (take_line-IsTracked on shown n g i)
call_all-IsTracked (feeds bytes ∷ calls) true false n g i =
    call_all-IsTracked calls true false (n + ctrl_cs bytes) _ (
      subst (IsTracked true false (n + ctrl_cs bytes)) (sym (feed_gate_active bytes g i.0))
        (keys-IsTracked bytes true n g i))
call_all-IsTracked (feeds bytes ∷ calls) true true n g i = call_all-IsTracked calls true true n _ (
    subst (IsTracked true true n) (sym (feed_gate_active bytes g i.0))
      (shown_keys-IsTracked bytes true n g i))
call_all-IsTracked (feeds bytes ∷ calls) false shown n g i =
    call_all-IsTracked calls false shown n _
      (subst (IsTracked false shown n) (sym (feed_gate_inactive bytes g i.0)) i)

-- Through any calls of the methods of a new gate, a transfer is cancelled just if Ctrl+C was typed into
-- it since the last begin, while it was on and its summary was not shown, and forced just if it was
-- typed so more than once; and no more than four lines wait for a prompt.
pub call_all-IsCounted :
    (calls : List GateCall)
    → IsCounted (pressed false false 0 calls) (call_all calls new_shell_gate)
unfolding new_shell_gate
call_all-IsCounted calls =
    call_all-IsTracked calls false false 0 new_shell_gate
      (refl, refl, refl, (refl, refl, omega arith))
