-- ===== src/Port/ClaimHeld.antt =====
-- A claim that is held keeps every other writer off until its owner releases it: transfer_claim.go.
use go_serial_cli.Common.{
  ℕ, ◌≡◌, ◌≢◌, refl, ap, sym, Bool-cases, true, false, ◌==◌, List, [], ◌∷◌, none, some, All, arith,
  ==_iff, ==_refl, inl, inr,
}
use go_serial_cli.Port.Claim.{
  PortClaim, is_owner, is_free, current_owner, take_claim, release_claim, allows, answer_claim,
  ClaimOp, answer, release,
}

unfoldable pub run_op : PortClaim → ClaimOp → PortClaim
run_op c (answer conn) = (answer_claim c conn).claim
run_op c (release conn) = release_claim c conn

unfoldable pub run_ops : PortClaim → List ClaimOp → PortClaim
run_ops c [] = c
run_ops c (op ∷ ops) = run_ops (run_op c op) ops

abbrev owned : ℕ → PortClaim
owned conn = record { owner = some conn }

-- The one operation that ends the claim of `conn`.
abbrev pub Keeps : ℕ → ClaimOp → Type 0
Keeps conn op = op ≢ release conn

run_op_held : (conn : ℕ) (op : ClaimOp) → Keeps conn op → run_op (owned conn) op ≡ owned conn
unfolding run_op answer_claim take_claim release_claim is_owner is_free
run_op_held conn (answer other) h = ground arith
run_op_held conn (release other) h = elim (Bool-cases (conn == other)) [
  | inl t ↦ absurd (h (ap release (sym ((==_iff conn other).0 t))))
  | inr f ↦ rw f refl
]

run_ops_held :
    (conn : ℕ) (ops : List ClaimOp) → All (Keeps conn) ops → run_ops (owned conn) ops ≡ owned conn
unfolding run_ops
run_ops_held conn [] h = refl
run_ops_held conn (op ∷ ops) h = rw (run_op_held conn op h.0) (run_ops_held conn ops h.1)

answer_claim-taken :
    (c : PortClaim) (conn : ℕ)
    → (answer_claim c conn).taken ≡ true
    → (answer_claim c conn).claim ≡ owned conn
unfolding answer_claim take_claim is_owner is_free
answer_claim-taken c conn h = ground arith

-- What the owner of a claim may rely on.
abbrev pub IsHeldBy : ℕ → ℕ → PortClaim → Type 0
IsHeldBy conn other c =
    (current_owner c ≡ some conn)
    × (allows c (some conn) ≡ true)
    × (allows c (some other) ≡ false)
    × (allows c none ≡ false)
    × ((answer_claim c other).taken ≡ false)

owned-IsHeldBy : (conn other : ℕ) → other ≢ conn → IsHeldBy conn other (owned conn)
unfolding allows answer_claim take_claim is_owner is_free current_owner
owned-IsHeldBy conn other h =
    let same : (conn == conn) ≡ true = ==_refl conn in
    let different : (conn == other) ≡ false = ground arith in
    (refl, rw same refl, rw different refl, refl, rw different refl)

-- A connection whose claim was accepted stays the owner through any answers and releases but its
-- own release: it alone may write, no shared source may, and the claim of another is refused.
pub run_ops-IsHeldBy :
    (c : PortClaim) (conn other : ℕ) (ops : List ClaimOp)
    → (answer_claim c conn).taken ≡ true
    → All (Keeps conn) ops
    → other ≢ conn
    → IsHeldBy conn other (run_ops (answer_claim c conn).claim ops)
run_ops-IsHeldBy c conn other ops h k different =
    rw (answer_claim-taken c conn h, run_ops_held conn ops k) (owned-IsHeldBy conn other different)
