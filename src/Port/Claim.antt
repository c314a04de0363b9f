-- ===== src/Port/Claim.antt =====
-- `portClaim` of transfer_claim.go. A connection is a number: Go compares connections by identity.
use go_serial_cli.Common.{
  ℕ, Bool, true, false, not, ◌&&◌, ◌||◌, ◌==◌, if◌then◌else◌, Bytes, [], ◌∷◌, Option, none, some,
}

pub record PortClaim : Type 0 where
  pub owner : Option ℕ

-- Go's `c.owner == conn`
unfoldable pub is_owner : PortClaim → ℕ → Bool
is_owner c conn = elim c.owner [ none ↦ false | some owner ↦ owner == conn ]

unfoldable pub is_free : PortClaim → Bool
is_free c = elim c.owner [ none ↦ true | some owner ↦ false ]

unfoldable pub take_claim : PortClaim → ℕ → Bool × PortClaim
take_claim c conn =
    if not (is_free c) && not (is_owner c conn)
    then (false, c)
    else (true, record { owner = some conn })

unfoldable pub release_claim : PortClaim → ℕ → PortClaim
release_claim c conn = if is_owner c conn then record { owner = none } else c

unfoldable pub current_owner : PortClaim → Option ℕ
current_owner c = c.owner

-- `none` is Go's nil, a source that can never hold a claim.
unfoldable pub allows : PortClaim → Option ℕ → Bool
allows c none = is_free c
allows c (some conn) = is_free c || is_owner c conn

-- "\x00sio:transfer-ok\x00" and "\x00sio:transfer-busy\x00"
abbrev pub transfer_claim_ok : Bytes
transfer_claim_ok =
    0 ∷ b's' ∷ b'i' ∷ b'o' ∷ b':' ∷ b't' ∷ b'r' ∷ b'a' ∷ b'n' ∷ b's' ∷ b'f' ∷ b'e' ∷ b'r' ∷ b'-'
    ∷ b'o' ∷ b'k' ∷ 0 ∷ []

abbrev pub transfer_claim_busy : Bytes
transfer_claim_busy =
    0 ∷ b's' ∷ b'i' ∷ b'o' ∷ b':' ∷ b't' ∷ b'r' ∷ b'a' ∷ b'n' ∷ b's' ∷ b'f' ∷ b'e' ∷ b'r' ∷ b'-'
    ∷ b'b' ∷ b'u' ∷ b's' ∷ b'y' ∷ 0 ∷ []

-- Whether the claim was taken, what is written to the connection, and the claim.
pub record Answered : Type 0 where
  pub taken : Bool
  pub answer : Bytes
  pub claim : PortClaim

unfoldable pub answer_claim : PortClaim → ℕ → Answered
answer_claim c conn =
    let r = take_claim c conn in
    if not r.0
    then record { taken = false; answer = transfer_claim_busy; claim = r.1 }
    else record { taken = true; answer = transfer_claim_ok; claim = r.1 }

-- What the connections of a session do with its claim.
pub data ClaimOp : Type 0 where
  answer release : ℕ → ClaimOp
