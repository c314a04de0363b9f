-- ===== src/Transfer/SendReady.antt =====
-- What `streamFile` of zmodem.go writes in its answers to the receiver keeps the line honest.
use go_serial_cli.Common.{
  ℕ, ◌+◌, ◌≤◌, ◌<◌, ◌≡◌, refl, sym, ap, true, false, ◌&&◌, ◌||◌, ◌==◌, ltb, leb, if◌then◌else◌,
  if_cases, Bytes, List, [], ◌∷◌, ◌++◌, Option, none, some, length, drop, arith, ◌⊎◌, inl, inr,
}
use mathlib.Core.Path.{subst}
use go_serial_cli.Zmodem.Header.{
  Header, pos, pos_header, z_data, z_eof, z_crc, z_ack, z_rpos, z_skip, z_rinit, z_challenge, z_fin,
  z_abort, z_ferr, z_crce,
}
use go_serial_cli.Transfer.Frames.{
  z_max_retries, Frame, header, packet, ends_frame, next_offset, IsPiece, IsHonest,
}
use go_serial_cli.Transfer.Send.{
  Wait, polls, for_xon, for_ack, for_eof, Stream, Source, Sends, sends, stops, ends, close_frame,
  rewind, count_retransmit, count_rpos, on_rpos, on_ack, handle_reverse, rpos_echo,
}

abbrev pub IsUncut : Wait → Type 0
IsUncut polls = Unit
IsUncut (for_xon deadline) = Unit
IsUncut (for_ack poke acked at deadline) = Unit
IsUncut (for_eof tries cut) = cut ≡ none

module _ (file : Bytes) where
  -- The sender stands inside the file and cuts it at no place, and an open frame of the line goes on at
  -- the sender's offset.
  abbrev pub IsReady : Option ℕ → Stream → Type 0
  IsReady at st =
      (st.pos ≤ length file)
      × (0 < st.block)
      × IsUncut st.wait
      × ((at ≡ none) ⊎ ((st.frame_open ≡ true) × (at ≡ some st.pos)))

  -- The frames keep the line honest and leave it at the second place.
  abbrev pub Leads : Option ℕ → List Frame → Option ℕ → Type 0
  Leads at fs at' = (rest : List Frame) → IsHonest file at' rest → IsHonest file at (fs ++ rest)

  abbrev pub IsGood : Option ℕ → Sends → Type 0
  IsGood at (sends fs st) = (at' : Option ℕ) × Leads at fs at' × IsReady at' st
  IsGood at (stops fs e st) = (at' : Option ℕ) × Leads at fs at'
  IsGood at (ends st) = Unit

  pub nil-Leads : (at : Option ℕ) → Leads at [] at
  nil-Leads at rest h = h

  pub header-Leads :
      (at : Option ℕ) (h : Header)
      → (h.frame_type ≡ z_eof → pos h ≡ length file)
      → Leads at (header h ∷ []) (if h.frame_type == z_data then some (pos h) else none)
  header-Leads at h eof rest r = (eof, r)

  empty-IsPiece : (p : ℕ) → p ≤ length file → IsPiece file p []
  empty-IsPiece p h =
      let e : p + 0 ≡ p = omega arith in
      record { inside = omega arith; same = ap (λ n. drop n file) (sym e) }

  -- The receiver's line behind a subpacket.
  abbrev pub behind_packet : Bytes → ℕ → Option ℕ → Option ℕ
  behind_packet bytes end none = none
  behind_packet bytes end (some p) = next_offset p bytes end

  pub packet-Leads :
      (at : Option ℕ) (bytes : Bytes) (end : ℕ) (st : Stream)
      → IsReady at st
      → IsPiece file st.pos bytes
      → Leads at (packet bytes end ∷ []) (behind_packet bytes end at)
  packet-Leads none bytes end st r piece rest h = h
  packet-Leads (some p) bytes end st (inside, b, w, inl e) piece rest h = absurd cc
  packet-Leads (some p) bytes end st (inside, b, w, inr (o, e)) piece rest h =
      let same : p ≡ st.pos = ground (arith, e) in
      (subst (λ q. IsPiece file q bytes) (sym same) piece, h)

  pub packet_nil-Leads :
      (at : Option ℕ) (end : ℕ) (st : Stream)
      → IsReady at st
      → Leads at (packet [] end ∷ []) (behind_packet [] end at)
  packet_nil-Leads at end st r = packet-Leads at [] end st r (empty-IsPiece st.pos r.0)

  behind_nil_closed : (at : Option ℕ) → behind_packet [] z_crce at ≡ none
  unfolding next_offset ends_frame
  behind_nil_closed none = refl
  behind_nil_closed (some p) = refl

  pub close_frame-Leads :
      (at : Option ℕ) (st : Stream) → IsReady at st → Leads at (close_frame st) none
  unfolding close_frame
  close_frame-Leads at st r =
      if_cases (λ fs. Leads at fs none) st.frame_open _ _
        (λ t.
          subst (Leads at (packet [] z_crce ∷ [])) (behind_nil_closed at)
            (packet_nil-Leads at z_crce st r))
        (λ f. elim r.3 [
          | inl e ↦ subst (λ a. Leads a [] none) (sym e) (nil-Leads none)
          | inr o ↦ absurd cc
        ])

  pub rewind-IsReady :
      (p : ℕ) (at : Option ℕ) (st : Stream) → IsReady at st → IsReady none (rewind p st)
  unfolding rewind count_retransmit
  rewind-IsReady p at st r = (
    omega (arith, r.0),
    if_cases {A = Stream} (λ s. 0 < s.block) (ltb p st.pos) _ _ (λ t. omega arith) (λ f. r.1),
    if_cases {A = Stream} (λ s. IsUncut s.wait) (ltb p st.pos) _ _ (λ t. r.2) (λ f. r.2),
    inl refl,
  )

  count_rpos-IsReady :
      (p : ℕ) (at : Option ℕ) (st : Stream) → IsReady at st → IsReady at (count_rpos p st)
  unfolding count_rpos
  count_rpos-IsReady p at st r = if_cases (IsReady at) (p == st.last_rpos) _ _ (λ t. r) (λ f. r)

  on_rpos-IsGood :
      (p rx_at : ℕ) (at : Option ℕ) (st : Stream) → IsReady at st → IsGood at (on_rpos p rx_at st)
  unfolding on_rpos
  on_rpos-IsGood p rx_at at st r =
      let st' = count_rpos p st in
      let r' = count_rpos-IsReady p at st r in
      if_cases (IsGood at) (ltb z_max_retries st'.same_rpos) _ _ (λ t. (at, nil-Leads at))
        (λ f.
          if_cases (IsGood at) (rpos_echo st' p rx_at) _ _ (λ t. (at, nil-Leads at, r'))
            (λ g. (none, close_frame-Leads at st' r', rewind-IsReady p at st' r')))

  on_ack-IsReady : (p : ℕ) (at : Option ℕ) (st : Stream) → IsReady at st → IsReady at (on_ack p st)
  unfolding on_ack
  on_ack-IsReady p at st r =
      if_cases (IsReady at) (ltb st.acked p && leb p st.pos) _ _ (λ t. r) (λ f. r)

  -- An answer that is a header of no file.
  answer-IsGood :
      (t p : ℕ) (at : Option ℕ) (st : Stream)
      → (t ≡ z_eof → ⊥)
      → (t == z_data) ≡ false
      → IsReady at st
      → IsGood at (sends (header (pos_header t p) ∷ []) st)
  unfolding pos_header
  answer-IsGood t p at st no_eof no_data r =
      (none, (λ rest h. ((λ e. absurd (no_eof e)), rw no_data h)), (r.0, r.1, r.2, inl refl))

  pub handle_reverse-IsGood :
      (src : Source) (h : Header) (rx_at : ℕ) (at : Option ℕ) (st : Stream)
      → IsReady at st
      → IsGood at (handle_reverse src h rx_at st)
  unfolding handle_reverse
  handle_reverse-IsGood src h rx_at at st r =
      let Good = IsGood at in
      let quiet : Leads at [] at = nil-Leads at in
      if_cases Good (h.frame_type == z_ack) _ _ (λ t. (at, quiet, on_ack-IsReady (pos h) at st r))
        (λ t.
          if_cases Good (h.frame_type == z_rpos) _ _ (λ u. on_rpos-IsGood _ rx_at at st r)
            (λ u.
              if_cases Good (h.frame_type == z_skip) _ _ (λ v. (at, quiet, r))
                (λ v.
                  if_cases Good (h.frame_type == z_rinit) _ _ (λ w. (at, quiet, r))
                    (λ w.
                      if_cases Good (h.frame_type == z_crc) _ _
                        (λ x. answer-IsGood z_crc _ at st (λ e. absurd (omega (arith, e))) refl r)
                        (λ x.
                          if_cases Good (h.frame_type == z_challenge) _ _
                            (λ y.
                              answer-IsGood z_ack _ at st (λ e. absurd (omega (arith, e))) refl r)
                            (λ y.
                              if_cases Good
                                (h.frame_type == z_fin
                                  || h.frame_type == z_abort
                                  || h.frame_type == z_ferr)
                                _ _ (λ z. (at, quiet)) (λ z. (at, quiet, r))))))))
