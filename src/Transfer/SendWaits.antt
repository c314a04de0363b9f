-- ===== src/Transfer/SendWaits.antt =====
-- The waits of `streamFile` of zmodem.go keep the line honest.
use go_serial_cli.Common.{
  ℕ, zero, suc, ◌+◌, ◌-◌, ◌≤◌, ◌≡◌, refl, sym, ap, ◌∙◌, ◌&&◌, leb, if_cases, Bytes, List, [], ◌∷◌,
  ◌++◌, Option, none, some, length, drop, take, append_assoc, arith, min, length-take, length-drop,
}
use mathlib.Core.Path.{subst}
use go_serial_cli.Zmodem.Header.{z_crcq}
use go_serial_cli.Transfer.Frames.{Frame, packet, ends_frame, next_offset, IsPiece}
use go_serial_cli.Transfer.Send.{z_ack_pokes, Stream, Sends, sends, stops, ends}
use go_serial_cli.Transfer.Stream.{put_before, and_then, to_polls, ack_again, ack_silence}
use go_serial_cli.Transfer.SendReady.{
  IsReady, Leads, IsGood, nil-Leads, close_frame-Leads, packet_nil-Leads, behind_packet,
  rewind-IsReady,
}
use go_serial_cli.Text.ChunksCover.{drop-drop}

take-drop_back : (n : ℕ) (l : Bytes) → take n l ++ drop (length (take n l)) l ≡ l
take-drop_back zero l = refl
take-drop_back (suc n) [] = refl
take-drop_back (suc n) (x ∷ l) = ap (◌∷◌ x) (take-drop_back n l)

-- A prefix of a tail of the file.
pub take-drop-IsPiece :
    (file : Bytes) (p n : ℕ) → p ≤ length file → IsPiece file p (take n (drop p file))
take-drop-IsPiece file p n h =
    let e : length (take n (drop p file)) ≡ min n (length file - p) =
      omega (arith, length-take n (drop p file), length-drop p file) in
    let size : length (take n (drop p file)) ≤ length file - p = omega (arith, e) in
    record {
      inside = omega (arith, size, h);
      same =
          sym (take-drop_back n (drop p file))
          ∙ ap (◌++◌ (take n (drop p file))) (drop-drop p (length (take n (drop p file))) file);
    }

module _ (file : Bytes) where
  pub put_before-IsGood :
      (at at' : Option ℕ) (fs : List Frame) (s : Sends)
      → Leads file at fs at'
      → IsGood file at' s
      → IsGood file at (put_before fs s)
  unfolding put_before
  put_before-IsGood at at' fs (sends more st) l (a, m, r) =
      (a, (λ rest h. rw (append_assoc fs more rest) (l _ (m rest h))), r)
  put_before-IsGood at at' fs (stops more e st) l (a, m) =
      (a, (λ rest h. rw (append_assoc fs more rest) (l _ (m rest h))))
  put_before-IsGood at at' fs (ends st) l g = g

  pub and_then-IsGood :
      (at : Option ℕ) (s : Sends) (k : Stream → Sends)
      → IsGood file at s
      → ((at' : Option ℕ) (st : Stream) → IsReady file at' st → IsGood file at' (k st))
      → IsGood file at (and_then s k)
  unfolding and_then
  and_then-IsGood at (sends fs st) k (a, l, r) next =
      put_before-IsGood at a fs (k st) l (next a st r)
  and_then-IsGood at (stops fs e st) k g next = g
  and_then-IsGood at (ends st) k g next = g

  -- A step that writes nothing.
  pub quiet-IsGood :
      (at : Option ℕ) (st : Stream) → IsReady file at st → IsGood file at (sends [] st)
  quiet-IsGood at st r = (at, nil-Leads file at, r)

  pub to_polls-IsReady :
      (at : Option ℕ) (st : Stream) → IsReady file at st → IsReady file at (to_polls st)
  unfolding to_polls
  to_polls-IsReady at st r = (r.0, r.1, tt, r.3)

  pub ack_again-IsGood :
      (now poke acked p deadline : ℕ) (at : Option ℕ) (st : Stream)
      → IsReady file at st
      → IsGood file at (ack_again now poke acked p deadline st)
  unfolding ack_again
  ack_again-IsGood now poke acked p deadline at st r =
      if_cases (IsGood file at) (leb deadline now) _ _ (λ t. (at, nil-Leads file at))
        (λ f. (at, nil-Leads file at, (r.0, r.1, tt, r.3)))

  pub behind_nil_open :
      (at : Option ℕ) (st : Stream) → IsReady file at st → behind_packet file [] z_crcq at ≡ at
  unfolding next_offset ends_frame
  behind_nil_open none st r = refl
  behind_nil_open (some p) st r = let e : p + 0 ≡ p = omega arith in ap some e

  pub ack_silence-IsGood :
      (now poke acked p deadline : ℕ) (at : Option ℕ) (st : Stream)
      → IsReady file at st
      → IsGood file at (ack_silence now poke acked p deadline st)
  unfolding ack_silence
  ack_silence-IsGood now poke acked p deadline at st r =
      let Good = IsGood file at in
      if_cases Good (st.frame_open && st.echoed) _ _
        (λ t. (
          none,
          close_frame-Leads file at st r,
          to_polls-IsReady none _ (rewind-IsReady file st.frame_at at st r),
        ))
        (λ t.
          if_cases Good (leb z_ack_pokes poke) _ _ (λ u. (at, nil-Leads file at))
            (λ u.
              if_cases Good st.frame_open _ _
                (λ v.
                  put_before-IsGood at at _ (ack_again now poke acked p deadline st)
                    (subst (Leads file at (packet [] z_crcq ∷ [])) (behind_nil_open at st r)
                      (packet_nil-Leads file at z_crcq st r))
                    (ack_again-IsGood now poke acked p deadline at st r))
                (λ v. (at, nil-Leads file at, (r.0, r.1, tt, r.3)))))
