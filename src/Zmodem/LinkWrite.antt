-- ===== src/Zmodem/LinkWrite.antt =====
-- Writing to the link: `write`, `sendHex`, `sendCancel` and `peerCancelled` of zmodem_link.go.
use go_serial_cli.Common.{
  ℕ, ◌+◌, ◌≡◌, refl, sym, ◌∙◌, Bool, true, false, ◌==◌, leb, if◌then◌else◌, if_cases, Bytes, List,
  [], ◌∷◌, ◌++◌, Option, none, some, length, take, drop, append-nil, append_assoc, take-append-drop,
  Bool-cases, Option-cases, inl, inr,
}
use go_serial_cli.Zmodem.Header.{Header, ascii_can, z_cancel_sequence}
use go_serial_cli.Zmodem.Encode.{encode_hex_header}
use go_serial_cli.Zmodem.Link.{LinkError, peer_cancel, short_write, WriteAnswer, Link}

-- The loop of `write`; the list is what the writer still has to answer.
unfoldable pub write_from : List WriteAnswer → Bytes → Link → Option LinkError × Link
write_from [] payload l = (
  none,
  record l {
    written = l.written ++ payload;
    bytes_out = l.bytes_out + length payload;
    answers = [];
  },
)
write_from (a ∷ rest) [] l = (none, record l { answers = a ∷ rest })
write_from (a ∷ rest) (b ∷ bs) l =
    let n = a.count in
    let l' : Link = record l {
      written = l.written ++ take n (b ∷ bs);
      bytes_out = l.bytes_out + n;
      answers = rest;
    } in
    elim a.failure [
      | some e ↦ (some e, l')
      | none ↦ elim (n == 0) [
        | true ↦ (some short_write, l')
        | false ↦ write_from rest (drop n (b ∷ bs)) l'
      ]
    ]

-- Nothing is written once the peer has given up.
unfoldable pub write : Bytes → Link → Option LinkError × Link
write payload l = if l.gone then (some peer_cancel, l) else write_from l.answers payload l

unfoldable pub send_hex : Header → Link → Option LinkError × Link
send_hex h l = write (encode_hex_header h) l

-- `sendCancel` ignores the error.
unfoldable pub send_cancel : Link → Link
send_cancel l = (write z_cancel_sequence l).1

-- `bytes.Contains(pending, zCancelSequence[:5])`: five CAN in a row
unfoldable pub five_can : ℕ → Bytes → Bool
five_can run [] = leb 5 run
five_can run (b ∷ bs) =
    let rest = five_can (if b == ascii_can then run + 1 else 0) bs in
    if leb 5 run then true else rest

unfoldable pub peer_cancelled : Link → Bool × Link
peer_cancelled l =
    if l.gone
    then (true, l)
    else if five_can 0 l.pending
    then (true, record l { gone = true })
    else (false, l)

-- What a write has done: a front of the data is behind what was written before, and it is the whole
-- unless an error is returned.
pub record Wrote (before : Bytes) (payload : Bytes) (r : Option LinkError × Link) : Type 0 where
  pub front : Bytes
  pub back : Bytes
  pub splits : front ++ back ≡ payload
  pub out : r.1.written ≡ before ++ front
  pub complete : r.0 ≡ none → back ≡ []

-- An answer with an error ends the write behind the bytes that it took.
Wrote-stopped :
    (before payload : Bytes) (n : ℕ) (e : LinkError) (l : Link)
    → l.written ≡ before ++ take n payload
    → Wrote before payload (some e, l)
Wrote-stopped before payload n e l h = record {
  front = take n payload;
  back = drop n payload;
  splits = take-append-drop n payload;
  out = h;
  complete = λ c. cc;
}

-- The rest of a write goes on behind what an answer took.
Wrote-more :
    (before payload : Bytes) (n : ℕ) (r : Option LinkError × Link)
    → Wrote (before ++ take n payload) (drop n payload) r
    → Wrote before payload r
Wrote-more before payload n r w = record {
  front = take n payload ++ w.front;
  back = w.back;
  splits = rw (append_assoc (take n payload) w.front w.back, w.splits) (take-append-drop n payload);
  out = w.out ∙ append_assoc before (take n payload) w.front;
  complete = w.complete;
}

write_from-Wrote :
    (answers : List WriteAnswer) (payload : Bytes) (l : Link)
    → Wrote l.written payload (write_from answers payload l)
unfolding write_from
write_from-Wrote [] payload l = record {
  front = payload;
  back = [];
  splits = append-nil payload;
  out = refl;
  complete = λ _. refl;
}
write_from-Wrote (a ∷ rest) [] l = record {
  front = [];
  back = [];
  splits = refl;
  out = sym (append-nil l.written);
  complete = λ _. refl;
}
write_from-Wrote (a ∷ rest) (b ∷ bs) l =
    let n = a.count in
    let l' : Link = record l {
      written = l.written ++ take n (b ∷ bs);
      bytes_out = l.bytes_out + n;
      answers = rest;
    } in
    let stopped = λ (e : LinkError). Wrote-stopped l.written (b ∷ bs) n e l' refl in
    let later = Wrote-more l.written (b ∷ bs) n _ (write_from-Wrote rest (drop n (b ∷ bs)) l') in
    elim (Option-cases a.failure) [
      | inr (e, failed) ↦ rw (failed, write_from) (stopped e)
      | inl fine ↦ elim (Bool-cases (n == 0)) [
        | inl none_taken ↦ rw (fine, none_taken, write_from) (stopped short_write)
        | inr some_taken ↦ rw (fine, some_taken, write_from) later
      ]
    ]

-- Whatever the writer answers, `write` puts a front of the data on the line, in order and once, and
-- the whole of it where it returns no error; once the peer has given up it writes nothing and says so.
pub write_lem :
    (payload : Bytes) (l : Link)
    → Wrote l.written payload (write payload l)
      × (l.gone ≡ true → write payload l ≡ (some peer_cancel, l))
unfolding write
write_lem payload l = (
  if_cases (Wrote l.written payload) l.gone _ _
      (λ _. Wrote-stopped l.written payload 0 peer_cancel l (sym (append-nil l.written)))
      (λ _. write_from-Wrote l.answers payload l),
  λ g. rw g,
)
