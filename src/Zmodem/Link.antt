-- ===== src/Zmodem/Link.antt =====
-- `zLink` of zmodem_link.go: the byte link under a session. What the reader goroutine, the clock and
-- the cancel channel do is a list of arrivals, in the order in which `fill` and `poll` meet them; the
-- writer's answers are a list too. When a list has run out nothing more happens: a wait times out,
-- and a write is taken whole.
use go_serial_cli.Common.{
  ℕ, zero, suc, ◌+◌, Bool, true, false, ◌&&◌, ◌||◌, ◌==◌, leb, ltb, if◌then◌else◌, bit_and, bit_xor,
  Bytes, List, [], ◌∷◌, ◌++◌, Option, none, some, length,
}
use go_serial_cli.Zmodem.Header.{
  Header, ascii_can, ascii_xon, ascii_xoff, z_crce, z_crcg, z_crcq, z_crcw, z_rub0, z_rub1,
}
use go_serial_cli.Zmodem.Unescape.{is_xon_xoff, PlainByte, plain_byte}

-- the errors of the file, and any other with a number for its identity
pub data LinkError : Type 0 where
  timeout bad_header bad_crc overflow peer_cancel peer_abort local_cancel : LinkError
  link_closed unexpected_fe short_write : LinkError
  io_error : ℕ → LinkError

-- `stuck` is no Go value: a loop ran out of fuel.
pub data Result {ℓ} (A : Type ℓ) : Type ℓ where
  ok : A → Result A
  err : LinkError → Result A
  stuck : Result A

-- What a wait may meet: bytes, the reader's last error, its closed channel, the deadline (for `poll`
-- that nothing is at hand), or the cancel channel.
pub data Arrival : Type 0 where
  chunk : Bytes → Arrival
  eof channel_closed timed_out cancelled : Arrival
  read_error : ℕ → Arrival

-- One answer of the writer: how many bytes it took, and its error.
pub record WriteAnswer : Type 0 where
  pub count : ℕ
  pub failure : Option LinkError

pub record Link : Type 0 where
  pub rx : List Arrival
  pub rx_err : Option LinkError
  pub pending : Bytes
  pub ctl_ignore : Bool
  pub echo : Bool  -- whether device text is shown
  pub text : Bytes
  pub shown : List Bytes  -- the lines written to `echo`
  pub gone : Bool
  pub held : Option Header
  pub flow : Bool
  pub xoff : Bool
  pub bytes_in : ℕ
  pub bytes_out : ℕ
  pub answers : List WriteAnswer
  pub written : Bytes

-- A method that may fail and changes the link.
abbrev pub LinkM : Type 0 → Type 0
LinkM A = Link → Result A × Link

infixl 5 ◌>>=◌ ◌>>◌
abbrev pub ◌>>=◌ : {A B : Type 0} → LinkM A → (A → LinkM B) → LinkM B
◌>>=◌ m f l =
    let (r, l') = m l in elim r [ ok a ↦ f a l' | err e ↦ (err e, l') | stuck ↦ (stuck, l') ]

abbrev pub ◌>>◌ : {A B : Type 0} → LinkM A → LinkM B → LinkM B
m >> k = m >>= λ _. k

abbrev pub return : {A : Type 0} → A → LinkM A
return a l = (ok a, l)

abbrev pub fail : {A : Type 0} → LinkError → LinkM A
fail e l = (err e, l)

-- `flowControl`: the bytes that are left, and whether the sender is held after them.
unfoldable pub flow_control : Bool → Bytes → Bytes × Bool
flow_control xoff [] = ([], xoff)
flow_control xoff (b ∷ bs) =
    let seven = bit_and b 0x7f in
    let held = if seven == ascii_xoff then true else if seven == ascii_xon then false else xoff in
    let (out, last) = flow_control held bs in
    (if seven == ascii_xoff || seven == ascii_xon then out else b ∷ out, last)

-- `take` of a chunk of bytes.
unfoldable pub take_bytes : Bytes → Link → Link
take_bytes bs l =
    let (kept, xoff') = flow_control l.xoff bs in
    record l {
      bytes_in = l.bytes_in + length bs;
      xoff = if l.flow then xoff' else l.xoff;
      pending = l.pending ++ (if l.flow then kept else bs);
    }

-- `take` of a closed channel keeps an error that is there already.
unfoldable pub take_closed : Link → Link
take_closed l = record l { rx_err = elim l.rx_err [ none ↦ some link_closed | some e ↦ some e ] }

-- The waits of `fill`, once `rxErr` is known to be nil: the error it returns, and the link.
unfoldable pub fill_with : Arrival → Link → Option LinkError × Link
fill_with (chunk bs) l = (none, take_bytes bs l)
fill_with eof l = (none, record l { rx_err = some link_closed })
fill_with (read_error n) l = (none, record l { rx_err = some (io_error n) })
fill_with channel_closed l = (none, take_closed l)
fill_with timed_out l = (some timeout, l)
fill_with cancelled l = (some local_cancel, l)

fill_next : List Arrival → Link → Option LinkError × Link
fill_next [] l = (some timeout, l)
fill_next (a ∷ rest) l = fill_with a (record l { rx = rest })

unfoldable pub fill : Link → Option LinkError × Link
unfolding fill_next
fill l = elim l.rx_err [ some e ↦ (some e, l) | none ↦ fill_next l.rx l ]

-- `poll`: every chunk that has arrived, up to an error or to nothing being at hand. A reader that
-- has failed has closed its channel, so at the end of the list the error is returned again.
poll_from : List Arrival → Link → Option LinkError × Link
poll_from [] l = (l.rx_err, record l { rx = [] })
poll_from (chunk bs ∷ rest) l = poll_from rest (take_bytes bs l)
poll_from (eof ∷ rest) l = (some link_closed, record l { rx = rest; rx_err = some link_closed })
poll_from (read_error n ∷ rest) l =
    (some (io_error n), record l { rx = rest; rx_err = some (io_error n) })
poll_from (channel_closed ∷ rest) l =
    let l' = take_closed (record l { rx = rest }) in (l'.rx_err, l')
poll_from (timed_out ∷ rest) l = (none, record l { rx = rest })
poll_from (cancelled ∷ rest) l = (some local_cancel, record l { rx = rest })

unfoldable pub poll : Link → Option LinkError × Link
unfolding poll_from
poll l = poll_from l.rx l

-- `readByte`: the list is what the link's `rx` still holds.
unfoldable pub read_byte_from : List Arrival → Link → Result ℕ × Link
read_byte_from [] l = elim l.pending [
  | b ∷ bs ↦ (ok b, record l { pending = bs; rx = [] })
  | [] ↦ (err (elim l.rx_err [ some e ↦ e | none ↦ timeout ]), record l { rx = [] })
]
read_byte_from (a ∷ rest) l = elim l.pending [
  | b ∷ bs ↦ (ok b, record l { pending = bs; rx = a ∷ rest })
  | [] ↦ elim l.rx_err [
    | some e ↦ (err e, record l { rx = a ∷ rest })
    | none ↦
        let (e, l') = fill_with a (record l { rx = rest }) in
        elim e [ some x ↦ (err x, l') | none ↦ read_byte_from rest l' ]
  ]
]

unfoldable pub read_byte : LinkM ℕ
read_byte l = read_byte_from l.rx l

-- `zdlread` returns a value, or 0x100 and a frame end.
abbrev is_frame_end : ℕ → Bool
is_frame_end c = c == z_crce || c == z_crcg || c == z_crcq || c == z_crcw

-- What the second loop does with a byte behind ZDLE.
pub data DleByte : Type 0 where
  again : ℕ → DleByte  -- and the count of CAN
  cancelled : DleByte
  invalid : DleByte
  result : ℕ → DleByte

unfoldable pub dle_byte : Bool → ℕ → ℕ → DleByte
dle_byte ctl_ignore cans c =
    if c == ascii_can
    then (if leb 5 (cans + 1) then DleByte.cancelled else again (cans + 1))
    else if ltb 1 cans
    then invalid
    else if is_frame_end c
    then result (0x100 + c)
    else if c == z_rub0
    then result 0x7f
    else if c == z_rub1
    then result 0xff
    else if is_xon_xoff c || (ctl_ignore && bit_and c 0x60 == 0)
    then again cans
    else if bit_and c 0x60 == 0x40
    then result (bit_xor c 0x40)
    else invalid

unfoldable pub zdlread_behind : ℕ → ℕ → LinkM ℕ
zdlread_behind zero cans l = (stuck, l)
zdlread_behind (suc fuel) cans l =
    let (r, l') = read_byte l in
    elim r [
      | err e ↦ (err e, l')
      | stuck ↦ (stuck, l')
      | ok c ↦ elim (dle_byte l'.ctl_ignore cans c) [
        | again cans' ↦ zdlread_behind fuel cans' l'
        | DleByte.cancelled ↦ (err peer_cancel, record l' { gone = true })
        | invalid ↦ (err bad_crc, l')
        | result v ↦ (ok v, l')
      ]
    ]

unfoldable pub zdlread_from : ℕ → LinkM ℕ
zdlread_from zero l = (stuck, l)
zdlread_from (suc fuel) l =
    let (r, l') = read_byte l in
    elim r [
      | err e ↦ (err e, l')
      | stuck ↦ (stuck, l')
      | ok c ↦ elim (plain_byte l'.ctl_ignore c) [
        | PlainByte.value ↦ (ok c, l')
        | PlainByte.dropped ↦ zdlread_from fuel l'
        | PlainByte.escape ↦ zdlread_behind fuel 1 l'
      ]
    ]

-- The bytes that the link can still deliver. Each round of the loops takes one of them.
abbrev pub chunk_bytes : List Arrival → ℕ
chunk_bytes [] = 0
chunk_bytes (chunk bs ∷ rest) = length bs + chunk_bytes rest
chunk_bytes (_ ∷ rest) = chunk_bytes rest

unfoldable pub supply : Link → ℕ
supply l = length l.pending + chunk_bytes l.rx

unfoldable pub zdlread : LinkM ℕ
zdlread l = zdlread_from (suc (suc (supply l))) l
