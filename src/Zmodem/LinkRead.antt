-- ===== src/Zmodem/LinkRead.antt =====
-- The link as a stream of bytes: how the arrivals cut it into chunks does not matter to a reader.
use go_serial_cli.Common.{
  ℕ, ◌≤◌, ◌≡◌, refl, ◌∙◌, ◌≢◌, Bool, true, false, if◌then◌else◌, Bytes, List, [], ◌∷◌, ◌++◌, none,
  length, length-append, append_assoc, arith, inl, inr, ◌⊎◌, List-cases,
}
use go_serial_cli.Zmodem.Link.{
  ok, Arrival, chunk, eof, Link, flow_control, take_bytes, fill_with, read_byte_from, read_byte,
  chunk_bytes, supply,
}

-- The bytes that the link delivers before anything but a chunk arrives.
abbrev pub arrived : Bool → List Arrival → Bytes
arrived flow (chunk bs ∷ rest) =
    (if flow then (flow_control false bs).0 else bs) ++ arrived flow rest
arrived flow _ = []

abbrev pub stream : Link → Bytes
stream l = l.pending ++ arrived l.flow l.rx

-- What `l` kept of the earlier link, when it has `s` still to deliver.
pub record Delivers (before : Link) (s : Bytes) (l : Link) : Type 0 where
  pub rest : stream l ≡ s
  pub no_error : l.rx_err ≡ none
  pub same_ctl : l.ctl_ignore ≡ before.ctl_ignore
  pub same_gone : l.gone ≡ before.gone
  pub same_out : l.written ≡ before.written

-- What is kept does not depend on the hold that `flowControl` starts from.
flow_control-kept : (x y : Bool) (bs : Bytes) → (flow_control x bs).0 ≡ (flow_control y bs).0
unfolding flow_control
flow_control-kept x y [] = refl
flow_control-kept x y (b ∷ bs) = ground (arith, flow_control-kept x y bs)

read_byte_from-pending :
    (rx : List Arrival) (l : Link) (b : ℕ) (bs : Bytes)
    → l.pending ≡ b ∷ bs
    → read_byte_from rx l ≡ (ok b, record l { pending = bs; rx = rx })
unfolding read_byte_from
read_byte_from-pending [] l b bs p = rw (p, read_byte_from)
read_byte_from-pending (a ∷ rest) l b bs p = rw (p, read_byte_from)

read_byte_from-chunk :
    (rest : List Arrival) (l : Link) (bs : Bytes)
    → l.pending ≡ []
    → l.rx_err ≡ none
    → read_byte_from (chunk bs ∷ rest) l
      ≡ read_byte_from rest (take_bytes bs (record l { rx = rest }))
unfolding read_byte_from fill_with
read_byte_from-chunk rest l bs p q = ground arith

taken :
    (flow xoff : Bool) (pending bs : Bytes) (rest : List Arrival)
    → (pending ++ (if flow then (flow_control xoff bs).0 else bs)) ++ arrived flow rest
      ≡ pending ++ arrived flow (chunk bs ∷ rest)
taken true xoff pending bs rest = rw (flow_control-kept xoff false bs, append_assoc)
taken false xoff pending bs rest = append_assoc pending bs (arrived false rest)

-- Taking a chunk leaves the stream as it was.
stream-take_bytes :
    (l : Link) (bs : Bytes) (rest : List Arrival)
    → stream (take_bytes bs (record l { rx = rest }))
      ≡ l.pending ++ arrived l.flow (chunk bs ∷ rest)
unfolding take_bytes
stream-take_bytes l bs rest = taken l.flow l.xoff l.pending bs rest

Delivers-pending :
    (rx : List Arrival) (l : Link) (b c : ℕ) (s cs : Bytes)
    → l.rx_err ≡ none
    → l.pending ≡ c ∷ cs
    → l.pending ++ arrived l.flow rx ≡ b ∷ s
    → (l' : Link) × (read_byte_from rx l ≡ (ok b, l')) × Delivers l s l'
Delivers-pending rx l b c s cs q p e =
    let head : c ∷ (cs ++ arrived l.flow rx) ≡ b ∷ s = rw p at e in
    (
      record l { pending = cs; rx = rx },
      ground (arith, read_byte_from-pending rx l c cs p),
      record { rest = cc; no_error = q; same_ctl = refl; same_gone = refl; same_out = refl },
    )

-- What is kept through a chunk that was taken.
Delivers-take_bytes :
    (l : Link) (bs : Bytes) (rest : List Arrival) (s : Bytes) (l' : Link)
    → Delivers (take_bytes bs (record l { rx = rest })) s l'
    → Delivers l s l'
unfolding take_bytes
Delivers-take_bytes l bs rest s l' d = record {
  rest = d.rest;
  no_error = d.no_error;
  same_ctl = d.same_ctl;
  same_gone = d.same_gone;
  same_out = d.same_out;
}

no_byte_left : (l : Link) (b : ℕ) (s : Bytes) → l.pending ≡ [] → l.pending ++ [] ≢ b ∷ s
no_byte_left l b s p e = cc (rw p at e)

-- The next byte of the stream is at hand, or the next chunk is taken and the stream is the same.
read_byte_from-Delivers :
    (rx : List Arrival) (l : Link) (b : ℕ) (s : Bytes)
    → (l.pending ≡ []) ⊎ ((c : ℕ) × (cs : Bytes) × (l.pending ≡ c ∷ cs))
    → l.rx_err ≡ none
    → l.pending ++ arrived l.flow rx ≡ b ∷ s
    → (l' : Link) × (read_byte_from rx l ≡ (ok b, l')) × Delivers l s l'
unfolding take_bytes
read_byte_from-Delivers rx l b s (inr (c, cs, p)) q e = Delivers-pending rx l b c s cs q p e
read_byte_from-Delivers (chunk bs ∷ rest) l b s (inl p) q e =
    let next = take_bytes bs (record l { rx = rest }) in
    let (l', read, d) =
      read_byte_from-Delivers rest next b s (List-cases next.pending) q
        (stream-take_bytes l bs rest ∙ e) in
    (l', read_byte_from-chunk rest l bs p q ∙ read, Delivers-take_bytes l bs rest s l' d)
read_byte_from-Delivers [] l b s (inl p) q e = absurd (no_byte_left l b s p e)
read_byte_from-Delivers (eof ∷ rest) l b s (inl p) q e = absurd (no_byte_left l b s p e)
read_byte_from-Delivers (_ ∷ rest) l b s (inl p) q e = absurd (no_byte_left l b s p e)

-- However the arrivals cut the stream, `readByte` returns its first byte and leaves the others.
pub read_byte-Delivers :
    (l : Link) (b : ℕ) (s : Bytes)
    → l.rx_err ≡ none
    → stream l ≡ b ∷ s
    → (l' : Link) × (read_byte l ≡ (ok b, l')) × Delivers l s l'
unfolding read_byte
read_byte-Delivers l b s q e = read_byte_from-Delivers l.rx l b s (List-cases l.pending) q e

pub Delivers-trans :
    (l l1 l2 : Link) (s1 s2 : Bytes) → Delivers l s1 l1 → Delivers l1 s2 l2 → Delivers l s2 l2
Delivers-trans l l1 l2 s1 s2 d e = record {
  rest = e.rest;
  no_error = e.no_error;
  same_ctl = e.same_ctl ∙ d.same_ctl;
  same_gone = e.same_gone ∙ d.same_gone;
  same_out = e.same_out ∙ d.same_out;
}

length-flow_control : (x : Bool) (bs : Bytes) → length (flow_control x bs).0 ≤ length bs
unfolding flow_control
length-flow_control x [] = omega arith
length-flow_control x (b ∷ bs) =
    ground
      (arith, length-flow_control true bs, length-flow_control false bs, length-flow_control x bs)

arrived_le : (flow : Bool) (rx : List Arrival) → length (arrived flow rx) ≤ chunk_bytes rx
arrived_le flow [] = omega arith
arrived_le true (chunk bs ∷ rest) = omega (
  arith,
  length-append (flow_control false bs).0 (arrived true rest),
  length-flow_control false bs,
  arrived_le true rest,
)
arrived_le false (chunk bs ∷ rest) =
    omega (arith, length-append bs (arrived false rest), arrived_le false rest)
arrived_le flow (_ ∷ rest) = omega arith

-- The stream is part of what the fuel of the loops counts.
pub stream-le-supply : (l : Link) → length (stream l) ≤ supply l
unfolding supply
stream-le-supply l =
    omega (arith, length-append l.pending (arrived l.flow l.rx), arrived_le l.flow l.rx)
