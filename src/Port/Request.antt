-- ===== src/Port/Request.antt =====
-- `readRequest` of portlease.go and `readClaim` of transfer_claim.go: the first bytes of a control
-- connection. A read gives bytes and perhaps an error; a list holds what the reads of a connection
-- give, and a call that needs more than it waits.
use go_serial_cli.Common.{
  Bool, true, false, not, ◌&&◌, ◌||◌, ◌==◌, if◌then◌else◌, Bytes, List, [], ◌∷◌, ◌++◌, length, drop,
}

-- Go's `bytes.HasPrefix(text, prefix)`
unfoldable pub has_prefix : Bytes → Bytes → Bool
has_prefix text [] = true
has_prefix [] (p ∷ prefix) = false
has_prefix (t ∷ text) (p ∷ prefix) = (t == p) && has_prefix text prefix

pub data ControlRequest : Type 0 where
  request_data request_transfer_claim request_port_release request_port_acquire : ControlRequest

pub record ControlPreamble : Type 0 where
  pub preamble : Bytes
  pub request : ControlRequest

abbrev pub transfer_claim_preamble : Bytes
transfer_claim_preamble =
    0 ∷ b's' ∷ b'i' ∷ b'o' ∷ b':' ∷ b't' ∷ b'r' ∷ b'a' ∷ b'n' ∷ b's' ∷ b'f' ∷ b'e' ∷ b'r' ∷ b'-'
    ∷ b'c' ∷ b'l' ∷ b'a' ∷ b'i' ∷ b'm' ∷ 0 ∷ []

abbrev pub port_release_preamble : Bytes
port_release_preamble =
    0 ∷ b's' ∷ b'i' ∷ b'o' ∷ b':' ∷ b'p' ∷ b'o' ∷ b'r' ∷ b't' ∷ b'-' ∷ b'r' ∷ b'e' ∷ b'l' ∷ b'e'
    ∷ b'a' ∷ b's' ∷ b'e' ∷ 0 ∷ []

abbrev pub port_acquire_preamble : Bytes
port_acquire_preamble =
    0 ∷ b's' ∷ b'i' ∷ b'o' ∷ b':' ∷ b'p' ∷ b'o' ∷ b'r' ∷ b't' ∷ b'-' ∷ b'a' ∷ b'c' ∷ b'q' ∷ b'u'
    ∷ b'i' ∷ b'r' ∷ b'e' ∷ 0 ∷ []

abbrev pub session_server_requests : List ControlPreamble
session_server_requests =
    record { preamble = transfer_claim_preamble; request = request_transfer_claim }
    ∷ record { preamble = port_release_preamble; request = request_port_release }
    ∷ record { preamble = port_acquire_preamble; request = request_port_acquire }
    ∷ []

-- One read: `n` bytes, and whether an error came with them.
pub record Read : Type 0 where
  pub received : Bytes
  pub failed : Bool

pub data Matched : Type 0 where
  found : Bytes → ControlRequest → Matched
  not_found : Bool → Matched

-- The loop over the requests; the flag is Go's `partial`.
unfoldable pub match_requests : List ControlPreamble → Bytes → Bool → Matched
match_requests [] acc part = not_found part
match_requests (r ∷ requests) acc part =
    let rest = match_requests requests acc (part || has_prefix r.preamble acc) in
    if has_prefix acc r.preamble then found (drop (length r.preamble) acc) r.request else rest

-- Go's three results, and the reads that are left.
pub data Requested : Type 0 where
  answered : Bytes → ControlRequest → Bool → List Read → Requested
  waiting : Bytes → Requested

unfoldable pub read_request_from : List ControlPreamble → Bytes → List Read → Requested
read_request_from requests acc [] = waiting acc
read_request_from requests acc (r ∷ reads) =
    let acc' = acc ++ r.received in
    elim (match_requests requests acc' false) [
      | found forward request ↦ answered forward request r.failed reads
      | not_found part ↦ elim (not part || r.failed) [
        | true ↦ answered acc' request_data r.failed reads
        | false ↦ read_request_from requests acc' reads
      ]
    ]

unfoldable pub read_request : List Read → List ControlPreamble → Requested
read_request reads requests = read_request_from requests [] reads

pub data Claimed : Type 0 where
  claimed : Bytes → Bool → Bool → List Read → Claimed
  claim_waiting : Bytes → Claimed

unfoldable pub read_claim_from : Bytes → List Read → Claimed
read_claim_from acc [] = claim_waiting acc
read_claim_from acc (r ∷ reads) =
    let acc' = acc ++ r.received in
    elim (has_prefix acc' transfer_claim_preamble) [
      | true ↦ claimed (drop (length transfer_claim_preamble) acc') true r.failed reads
      | false ↦ elim (not (has_prefix transfer_claim_preamble acc') || r.failed) [
        | true ↦ claimed acc' false r.failed reads
        | false ↦ read_claim_from acc' reads
      ]
    ]

unfoldable pub read_claim : List Read → Claimed
read_claim reads = read_claim_from [] reads
