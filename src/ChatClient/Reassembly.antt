-- ===== src/ChatClient/Reassembly.antt =====
-- The packets that the client finds in the stream do not depend on how the stream is cut.
use qq_copy.Base.{
  ℕ, zero, suc, ◌+◌, ◌≤◌, ◌≡◌, refl, sym, ap, ◌∙◌, inl, inr, List, [], ◌∷◌, ◌++◌, length, take,
  drop, All, All-append, true, false, none, some, leb, leb→le, le→leb, arith, Bool-cases,
  append_assoc, append-nil, length-append, take-append, drop-append, take-append-drop, length-take,
  length-drop,
}
use qq_copy.Outcome.{ok, Returns-ok}
use qq_copy.Wire.{IsBytes, read_uint32, byte_at}
use qq_copy.Wire.Bounds.{read_uint32_bound}
use qq_copy.Protocol.{header_size}
use qq_copy.ChatClient.{next_packet, cut_packets, receive, receive_all}

abbrev pub concat : List (List ℕ) → List ℕ
concat [] = []
concat (x ∷ xs) = x ++ concat xs

pub concat-append : (xs ys : List (List ℕ)) → concat (xs ++ ys) ≡ concat xs ++ concat ys
concat-append [] ys = refl
concat-append (x ∷ xs) ys =
    ap (λ r. x ++ r) (concat-append xs ys) ∙ sym (append_assoc x (concat xs) (concat ys))

-- A packet as the stream holds it: a header whose length field is the length of what follows.
pub record IsFrame (frame : List ℕ) : Type 0 where
  pub len : ℕ
  pub size : length frame ≡ header_size + len
  pub field : (rest : List ℕ) → read_uint32 (frame ++ rest) 3 ≡ ok len

-- The buffer holds no whole packet.
abbrev pub Incomplete : List ℕ → Type 0
Incomplete buffer = next_packet buffer ≡ ok none

pub next_packet-frame :
    (frame rest : List ℕ) → IsFrame frame → next_packet (frame ++ rest) ≡ ok (some (frame, rest))
unfolding next_packet
next_packet-frame frame rest f =
    let whole : leb (header_size + f.len) (length (frame ++ rest)) ≡ true =
      le→leb _ _ (omega (arith, length-append frame rest, f.size)) in
    rw
      (le→leb header_size (length (frame ++ rest))
        (omega (arith, length-append frame rest, f.size)))
      (rw (f.field rest)
        (rw whole (rw (sym f.size) (rw (take-append frame rest) (rw (drop-append frame rest))))))

-- Frames with an incomplete rest behind them are cut into these frames, if the fuel is enough.
pub cut_packets-frames :
    (fuel : ℕ) (frames : List (List ℕ)) (left : List ℕ)
    → All IsFrame frames
    → Incomplete left
    → length frames ≤ fuel
    → cut_packets fuel (concat frames ++ left) ≡ ok (frames, left)
unfolding cut_packets
cut_packets-frames zero [] left fs done enough = refl
cut_packets-frames zero (f ∷ frames) left fs done enough = absurd (omega arith)
cut_packets-frames (suc fuel) [] left fs done enough = rw (done, cut_packets)
cut_packets-frames (suc fuel) (f ∷ frames) left fs done enough =
    rw (append_assoc f (concat frames) left) (
      rw (next_packet-frame f (concat frames ++ left) fs.0, cut_packets)
        (rw (cut_packets-frames fuel frames left fs.1 done (omega arith))))

pub length-frames :
    (frames : List (List ℕ)) → All IsFrame frames → length frames ≤ length (concat frames)
length-frames [] fs = omega arith
length-frames (f ∷ frames) fs =
    omega (arith, length-append f (concat frames), length-frames frames fs.1, fs.0.size)

pub receive-frames :
    (read_buffer bytes : List ℕ) (frames : List (List ℕ)) (left : List ℕ)
    → All IsFrame frames
    → Incomplete left
    → read_buffer ++ bytes ≡ concat frames ++ left
    → receive read_buffer bytes ≡ ok (frames, left)
unfolding receive
receive-frames read_buffer bytes frames left fs done e = rw e (
    cut_packets-frames (length (concat frames ++ left)) frames left fs done
      (omega (arith, length-frames frames fs, length-append (concat frames) left)))

-- A buffer as frames with an incomplete rest.
abbrev pub Framed : List ℕ → Type 0
Framed buffer =
    (frames : List (List ℕ)) × (left : List ℕ) × All IsFrame frames
    × Incomplete left
    × IsBytes left
    × (buffer ≡ concat frames ++ left)

pub read_uint32-prefix :
    (xs rest rest' : List ℕ)
    → 7 ≤ length xs
    → read_uint32 (xs ++ rest) 3 ≡ read_uint32 (xs ++ rest') 3
unfolding read_uint32 byte_at
read_uint32-prefix [] rest rest' h = absurd (omega arith)
read_uint32-prefix (a ∷ []) rest rest' h = absurd (omega arith)
read_uint32-prefix (a ∷ b ∷ []) rest rest' h = absurd (omega arith)
read_uint32-prefix (a ∷ b ∷ c ∷ []) rest rest' h = absurd (omega arith)
read_uint32-prefix (a ∷ b ∷ c ∷ d ∷ []) rest rest' h = absurd (omega arith)
read_uint32-prefix (a ∷ b ∷ c ∷ d ∷ e ∷ []) rest rest' h = absurd (omega arith)
read_uint32-prefix (a ∷ b ∷ c ∷ d ∷ e ∷ f ∷ []) rest rest' h = absurd (omega arith)
read_uint32-prefix (a ∷ b ∷ c ∷ d ∷ e ∷ f ∷ g ∷ xs) rest rest' h = refl

pub All-drop : (n : ℕ) (xs : List ℕ) → IsBytes xs → IsBytes (drop n xs)
All-drop zero xs h = h
All-drop (suc n) [] h = h
All-drop (suc n) (x ∷ xs) h = All-drop n xs h.1

pub next_packet-short :
    (buffer : List ℕ) → leb header_size (length buffer) ≡ false → Incomplete buffer
unfolding next_packet
next_packet-short buffer short = rw (short, next_packet)

pub next_packet-cut :
    (buffer : List ℕ) (len : ℕ)
    → read_uint32 buffer 3 ≡ ok len
    → leb header_size (length buffer) ≡ true
    → leb (header_size + len) (length buffer) ≡ false
    → Incomplete buffer
unfolding next_packet
next_packet-cut buffer len e long cut = rw (long, next_packet) (rw e (rw cut))

pub front-IsFrame :
    (buffer : List ℕ) (len : ℕ)
    → read_uint32 buffer 3 ≡ ok len
    → header_size + len ≤ length buffer
    → IsFrame (take (header_size + len) buffer)
front-IsFrame buffer len e whole =
    let n : ℕ = header_size + len in
    let size : length (take n buffer) ≡ n = length-take n buffer whole in
    record {
      len = len;
      size = size;
      field = λ rest.
          read_uint32-prefix (take n buffer) rest (drop n buffer) (omega arith)
          ∙ ap (λ b. read_uint32 b 3) (take-append-drop n buffer)
          ∙ e;
    }

pub framed : (fuel : ℕ) (buffer : List ℕ) → IsBytes buffer → length buffer ≤ fuel → Framed buffer
framed zero buffer h few = ([], buffer, tt, next_packet-short buffer (ground arith), h, refl)
framed (suc fuel) buffer h few = elim (Bool-cases (leb header_size (length buffer))) [
  | inr short ↦ ([], buffer, tt, next_packet-short buffer short, h, refl)
  | inl long ↦
      let (len, e, _) =
        Returns-ok _ (read_uint32 buffer 3)
          (read_uint32_bound buffer h 3 (omega (arith, leb→le header_size (length buffer) long))) in
      let n : ℕ = header_size + len in
      elim (Bool-cases (leb n (length buffer))) [
        | inr cut ↦ ([], buffer, tt, next_packet-cut buffer len e long cut, h, refl)
        | inl whole ↦
            let fits = leb→le n (length buffer) whole in
            let (frames, left, fs, done, bytes, split) =
              framed fuel (drop n buffer) (All-drop n buffer h)
                (omega (arith, length-drop n buffer)) in
            (
              take n buffer ∷ frames,
              left,
              (front-IsFrame buffer len e fits, fs),
              done,
              bytes,
              sym (take-append-drop n buffer)
                  ∙ ap (λ r. take n buffer ++ r) split
                  ∙ sym (append_assoc (take n buffer) (concat frames) left),
            )
      ]
]

pub All-frames-append :
    (xs ys : List (List ℕ)) → All IsFrame xs → All IsFrame ys → All IsFrame (xs ++ ys)
All-frames-append xs ys = All-append IsFrame xs ys

pub concat-IsBytes : (chunks : List (List ℕ)) → All IsBytes chunks → IsBytes (concat chunks)
concat-IsBytes [] h = tt
concat-IsBytes (c ∷ chunks) h = All-append _ c (concat chunks) h.0 (concat-IsBytes chunks h.1)

pub receive_all-receive :
    (read_buffer : List ℕ) (chunks : List (List ℕ))
    → IsBytes read_buffer
    → All IsBytes chunks
    → Incomplete read_buffer
    → receive_all read_buffer chunks ≡ receive read_buffer (concat chunks)
unfolding receive_all
receive_all-receive read_buffer [] h hs done =
    sym (receive-frames read_buffer [] [] read_buffer tt done (append-nil read_buffer))
receive_all-receive read_buffer (bytes ∷ chunks) h hs done =
    let (frames, left, fs, done1, h1, e1) =
      framed (length (read_buffer ++ bytes)) (read_buffer ++ bytes)
        (All-append _ read_buffer bytes h hs.0) (omega arith) in
    let (more, last, ms, done2, _, e2) =
      framed (length (left ++ concat chunks)) (left ++ concat chunks)
        (All-append _ left (concat chunks) h1 (concat-IsBytes chunks hs.1)) (omega arith) in
    let joined : read_buffer ++ (bytes ++ concat chunks) ≡ concat (frames ++ more) ++ last =
      sym (append_assoc read_buffer bytes (concat chunks))
      ∙ ap (λ b. b ++ concat chunks) e1
      ∙ append_assoc (concat frames) left (concat chunks)
      ∙ ap (λ b. concat frames ++ b) e2
      ∙ sym (append_assoc (concat frames) (concat more) last)
      ∙ ap (λ b. b ++ last) (sym (concat-append frames more)) in
    rw (receive-frames read_buffer bytes frames left fs done1 e1) (
      rw (receive_all-receive left chunks h1 hs.1 done1) (
        rw (receive-frames left (concat chunks) more last ms done2 e2) (
          sym (
            receive-frames read_buffer (bytes ++ concat chunks) (frames ++ more) last
              (All-frames-append frames more fs ms) done2 joined))))
