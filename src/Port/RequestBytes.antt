-- ===== src/Port/RequestBytes.antt =====
-- What readRequest of portlease.go makes of the bytes of a connection.
use go_serial_cli.Common.{
  ◌≡◌, refl, ap, sym, Bool, true, false, not, ◌||◌, Bytes, List, [], ◌∷◌, ◌++◌, length, drop, All,
  arith, inl, inr, ◌⊎◌, append_assoc, append-nil, if_cases,
}
use go_serial_cli.Port.Request.{
  has_prefix, ControlRequest, request_data, ControlPreamble, Read, Matched, found, not_found,
  match_requests, Requested, answered, waiting, read_request_from, read_request,
}

-- The bytes that the reads give.
unfoldable pub stream_of : List Read → Bytes
stream_of [] = []
stream_of (r ∷ reads) = r.received ++ stream_of reads

-- One of the preambles stands in front of the bytes to forward.
abbrev pub IsMatch : List ControlPreamble → Bytes → Bytes → ControlRequest → Type 0
IsMatch [] bytes forward request = ⊥
IsMatch (r ∷ requests) bytes forward request =
    ((r.request ≡ request) × (bytes ≡ r.preamble ++ forward))
    ⊎ IsMatch requests bytes forward request

abbrev pub IsUnmatched : List ControlPreamble → Bytes → Type 0
IsUnmatched requests bytes =
    All (λ (r : ControlPreamble). has_prefix bytes r.preamble ≡ false) requests

-- The bytes may still become one of the preambles.
abbrev pub is_partial : List ControlPreamble → Bytes → Bool
is_partial [] bytes = false
is_partial (r ∷ requests) bytes = has_prefix r.preamble bytes || is_partial requests bytes

has_prefix_sound :
    (text prefix : Bytes)
    → has_prefix text prefix ≡ true
    → text ≡ prefix ++ drop (length prefix) text
unfolding has_prefix
has_prefix_sound text [] h = refl
has_prefix_sound [] (p ∷ prefix) h = cc
has_prefix_sound (t ∷ text) (p ∷ prefix) h =
    let same : t ≡ p = ground arith in
    let rest : has_prefix text prefix ≡ true = ground arith in
    rw same (ap (◌∷◌ p) (has_prefix_sound text prefix rest))

-- A result of the loop over the requests, where the flag was set or not before.
abbrev IsMatched : List ControlPreamble → Bytes → Bool → Matched → Type 0
IsMatched requests acc before (found forward request) = IsMatch requests acc forward request
IsMatched requests acc before (not_found part) =
    IsUnmatched requests acc × (part ≡ (before || is_partial requests acc))

IsMatched-later :
    (r : ControlPreamble) (requests : List ControlPreamble) (acc : Bytes) (before : Bool)
    (m : Matched)
    → has_prefix acc r.preamble ≡ false
    → IsMatched requests acc (before || has_prefix r.preamble acc) m
    → IsMatched (r ∷ requests) acc before m
IsMatched-later r requests acc before (found forward request) e h = inr h
IsMatched-later r requests acc before (not_found part) e h = ((e, h.0), ground (arith, h.1))

match_requests-IsMatched :
    (requests : List ControlPreamble) (acc : Bytes) (part : Bool)
    → IsMatched requests acc part (match_requests requests acc part)
unfolding match_requests
match_requests-IsMatched [] acc part = (tt, ground arith)
match_requests-IsMatched (r ∷ requests) acc part =
    if_cases (IsMatched (r ∷ requests) acc part) (has_prefix acc r.preamble) _ _
      (λ t. inl (refl, has_prefix_sound acc r.preamble t))
      (λ f. IsMatched-later r requests acc part _ f (match_requests-IsMatched requests acc _))

-- A request behind its preamble, or data, and none of the connection's bytes lost; data that may still
-- become a preamble is forwarded only where a read failed, and only such data waits.
abbrev pub IsOutcome : List ControlPreamble → Bytes → Requested → Type 0
IsOutcome requests bytes (answered forward request failed left) =
    ((used : Bytes) × (bytes ≡ used ++ stream_of left) × IsMatch requests used forward request)
    ⊎ ((request ≡ request_data)
        × (bytes ≡ forward ++ stream_of left)
        × IsUnmatched requests forward
        × (failed ≡ false → is_partial requests forward ≡ false))
IsOutcome requests bytes (waiting acc) =
    (bytes ≡ acc) × ((acc ≡ []) ⊎ (is_partial requests acc ≡ true))

abbrev stop_or_go_on : List ControlPreamble → Bytes → Read → List Read → Bool → Requested
stop_or_go_on requests acc r reads true = answered acc request_data r.failed reads
stop_or_go_on requests acc r reads false = read_request_from requests acc reads

abbrev finish : List ControlPreamble → Bytes → Read → List Read → Matched → Requested
finish requests acc r reads (found forward request) = answered forward request r.failed reads
finish requests acc r reads (not_found part) =
    stop_or_go_on requests acc r reads (not part || r.failed)

-- What the rest of the reads gives, where the bytes so far may still become a preamble.
abbrev GoesOn : List ControlPreamble → Bytes → List Read → Type 0
GoesOn requests acc reads =
    is_partial requests acc ≡ true
    → IsOutcome requests (acc ++ stream_of reads) (read_request_from requests acc reads)

stop_or_go_on-IsOutcome :
    (requests : List ControlPreamble) (acc : Bytes) (r : Read) (reads : List Read) (stop : Bool)
    → IsUnmatched requests acc
    → stop ≡ (not (is_partial requests acc) || r.failed)
    → GoesOn requests acc reads
    → IsOutcome requests (acc ++ stream_of reads) (stop_or_go_on requests acc r reads stop)
stop_or_go_on-IsOutcome requests acc r reads true h e later =
    inr (refl, refl, h, (λ ok. ground (arith, e, ok)))
stop_or_go_on-IsOutcome requests acc r reads false h e later = later (ground (arith, e))

finish-IsOutcome :
    (requests : List ControlPreamble) (acc : Bytes) (r : Read) (reads : List Read) (m : Matched)
    → IsMatched requests acc false m
    → GoesOn requests acc reads
    → IsOutcome requests (acc ++ stream_of reads) (finish requests acc r reads m)
finish-IsOutcome requests acc r reads (found forward request) h later = inl (acc, refl, h)
finish-IsOutcome requests acc r reads (not_found part) (h, e) later =
    stop_or_go_on-IsOutcome requests acc r reads (not part || r.failed) h
      (ap (λ p. not p || r.failed) e) later

read_request_from_round :
    (requests : List ControlPreamble) (acc : Bytes) (r : Read) (reads : List Read)
    → read_request_from requests acc (r ∷ reads)
      ≡ finish requests
          (acc ++ r.received)
          r
          reads
          (match_requests requests (acc ++ r.received) false)
unfolding read_request_from
read_request_from_round requests acc r reads = ground arith

read_request_from-IsOutcome :
    (requests : List ControlPreamble) (acc : Bytes) (reads : List Read)
    → (acc ≡ []) ⊎ (is_partial requests acc ≡ true)
    → IsOutcome requests (acc ++ stream_of reads) (read_request_from requests acc reads)
unfolding read_request_from stream_of
read_request_from-IsOutcome requests acc [] p = (append-nil acc, p)
read_request_from-IsOutcome requests acc (r ∷ reads) p =
    let acc' = acc ++ r.received in
    rw
      (
        sym (append_assoc acc r.received (stream_of reads)),
        read_request_from_round requests acc r reads,
      )
      (finish-IsOutcome requests acc' r reads _ (match_requests-IsMatched requests acc' false)
        (λ q. read_request_from-IsOutcome requests acc' reads (inr q)))

-- A request that readRequest reports stood, as its preamble, in front of the bytes that it forwards. It
-- forwards bytes as data only if no preamble stands in front of them and, unless a read failed, they
-- are not the front of a preamble either: on those it waits for more, and on nothing else but no bytes
-- at all. Either way the forwarded bytes, the preamble and what is still unread are the bytes of the
-- connection, in whatever pieces they came.
pub read_request-IsOutcome :
    (reads : List Read) (requests : List ControlPreamble)
    → IsOutcome requests (stream_of reads) (read_request reads requests)
unfolding read_request
read_request-IsOutcome reads requests = read_request_from-IsOutcome requests [] reads (inl refl)
